-- ===== src/Tests/Poll.antt =====
-- Calls that take datagrams from a transport.
use toxsh.Prelude.{
  ℕ, zero, suc, ◌≡◌, refl, subst, Bool, true, false, List, [], none, inr, ap, arith,
}
use toxsh.Wire.Layout.{encode, get}
use toxsh.State.{Address}
use toxsh.Protocol.Receive.Header.{header_of}
use toxsh.Protocol.Receive.Guards.{Foreign}
use toxsh.Protocol.Receive.Poll.{
  Arrival, silence, datagram, failed, quiet, happened, broken, Polled, Source, poll, IsForged,
  IsUnharmed, poll-IsUnharmed,
}
use toxsh.Tests.Fixtures.{quiet_host, quiet_peer}
use toxsh.Tests.Receive.{plain, memory, pair, forged, from_peer}

-- One datagram, then nothing.
one_then_silence : List ℕ → ℕ → Arrival
one_then_silence bytes zero = datagram quiet_host.received_address bytes
one_then_silence bytes (suc k) = silence

abbrev source : Bool → List ℕ → Source
source wanted bytes = record {
  filters = plain;
  wanted = wanted;
  flush = λ s. s;
  mallocs = λ k. memory;
  intercept = none;
  arrivals = one_then_silence bytes;
}

outcome : Polled → ℕ
outcome (failed w) = 0
outcome (quiet w) = 1
outcome (happened i event w) = 2
outcome broken = 3

forged_is_quiet : outcome (poll (source true forged) pair) ≡ 1
unfolding outcome poll one_then_silence encode
forged_is_quiet = refl

from_peer_is_quiet : outcome (poll (source true from_peer) pair) ≡ 1
unfolding outcome poll one_then_silence encode
from_peer_is_quiet = refl

unwanted_is_broken : outcome (poll (source false from_peer) pair) ≡ 3
unfolding outcome poll one_then_silence encode
unwanted_is_broken = refl

empty_is_quiet : outcome (poll (source false []) pair) ≡ 1
unfolding outcome poll one_then_silence
empty_is_quiet = refl

-- The address from a datagram, and its bytes.
bytes_of : Arrival → List ℕ
bytes_of (datagram from bytes) = bytes
bytes_of _ = []

is_datagram : Arrival → Bool
is_datagram (datagram from bytes) = true
is_datagram _ = false

forged-IsForged : (from : Address) → IsForged pair.peers from forged
unfolding IsForged encode get header_of Foreign
forged-IsForged from = (
  45056,
  _,
  quiet_peer,
  refl,
  (λ e. ground arith),
  refl,
  inr (inr (omega arith, λ e. ground arith)),
)

arrivals-IsForged :
    (k : ℕ) (from : Address) (bytes : List ℕ)
    → one_then_silence forged k ≡ datagram from bytes
    → IsForged pair.peers from bytes
unfolding one_then_silence bytes_of is_datagram
arrivals-IsForged zero from bytes e =
    subst (IsForged pair.peers from) (ap bytes_of e) (forged-IsForged from)
arrivals-IsForged (suc k) from bytes e = ground arith

poll-IsUnharmed_example : IsUnharmed pair (poll (source true forged) pair)
poll-IsUnharmed_example = poll-IsUnharmed (source true forged) refl refl pair arrivals-IsForged
