-- ===== src/Protocol/Acknowledge/Clock.antt =====
-- The clock of acknowledgements, and the mean round trip time.
use toxsh.Prelude.{ℕ, ◌+◌, ◌≤◌, ◌<◌, ◌≡◌, ◌-◌, ◌/◌, u16, u32, arith}
use toxsh.State.{RoundTrip}
use toxsh.Protocol.Acknowledge.{sent_time_of, time_difference, sample}

-- At a time below 2 ^ 32, the low 16 bits of the time at which a command was sent, up to 32767
-- milliseconds before, give that time back, and the round trip time that is measured from it is the time since then.
pub sent_time_of-u16 :
    (now sent : ℕ)
    → sent ≤ now
    → now < sent + 32768
    → now < 4294967296
    → (sent_time_of now (u16 sent) ≡ sent) × (sent + time_difference now sent ≡ now)
unfolding sent_time_of time_difference
sent_time_of-u16 now sent past recent small = (ground arith, ground arith)

-- How far two times are apart.
pub apart : ℕ → ℕ → ℕ
apart a b = (a - b) + (b - a)

-- With times of 32 bits, a sample brings the mean round trip time nearer to it by an eighth of what they
-- were apart, rounded down, and on the same side of it; three quarters of the variance, rounded up, are
-- kept, and a quarter of what the new mean is apart from the sample is added, modulo 2 ^ 32.
pub sample-between :
    (rtt : ℕ) (r : RoundTrip)
    → rtt < 4294967296
    → r.round_trip_time < 4294967296
    → let mean = (sample rtt r).round_trip_time in
      (apart rtt mean ≡ apart rtt r.round_trip_time - apart rtt r.round_trip_time / 8)
      × (r.round_trip_time ≤ rtt → mean ≤ rtt)
      × (rtt ≤ r.round_trip_time → rtt ≤ mean)
      × ((sample rtt r).round_trip_time_variance
          ≡ u32 (r.round_trip_time_variance - r.round_trip_time_variance / 4 + apart rtt mean / 4))
unfolding sample apart
sample-between rtt r small small' =
    (ground arith, (λ h. ground arith), (λ h. ground arith), ground arith)
