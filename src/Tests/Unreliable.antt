-- ===== src/Tests/Unreliable.antt =====
-- An unreliable packet in two fragments, the second one first.
use toxsh.Prelude.{ℕ, ◌≡◌, refl, [], ◌∷◌, map, some}
use toxsh.Wire.{Protocol, Fragment, send_fragment}
use toxsh.State.{Site}
use toxsh.Protocol.Result.{Handled, done, error, fault}
use toxsh.Protocol.UnreliableFragment.{handle_send_unreliable_fragment}
use toxsh.Tests.Fixtures.{quiet_site, ample}

abbrev half : ℕ → Fragment
half k = record {
  start_sequence_number = 1;
  data_length = 1;
  fragment_count = 2;
  fragment_number = k;
  total_length = 2;
  fragment_offset = k;
}

abbrev carrier : ℕ → Protocol
carrier k = record {
  header = record { command = 12; channel_id = 0; reliable_sequence_number = 0 };
  body = send_fragment (half k);
}

abbrev site_after : Handled → Site
site_after (done rest s) = s
site_after (error rest s) = s
site_after fault = quiet_site

abbrev after_half : ℕ → ℕ → Site → Site
after_half k byte s =
    site_after (handle_send_unreliable_fragment ample (carrier k) (half k) (byte ∷ []) s)

whole_after_both :
    map
      (λ c. c.packet.content)
      (after_half 0 8 (after_half 1 9 quiet_site)).peer.queues.dispatched_commands
    ≡ (some 8 ∷ some 9 ∷ []) ∷ []
unfolding handle_send_unreliable_fragment
whole_after_both = refl
