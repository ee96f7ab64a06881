-- ===== src/Tests/Fragments.antt =====
-- A message of three bytes in two fragments, the second of which comes first.
use toxsh.Prelude.{ℕ, ◌≡◌, refl, false, true, List, [], ◌∷◌, map, some, none, arith}
use toxsh.Wire.{Protocol, Fragment, send_fragment}
use toxsh.Memory.{IncomingCommand}
use toxsh.Packet.{flag_reliable, packet_create}
use toxsh.Peer.Queue.{obtain}
use toxsh.Protocol.Fragment.{absorb}
use toxsh.Protocol.Fragment.Whole.{Collected, opened, taken_in, Collected-whole}
use toxsh.Tests.Fixtures.{ample}

abbrev chunks : List (List ℕ)
chunks = (1 ∷ 2 ∷ []) ∷ (3 ∷ []) ∷ []

abbrev fragment : ℕ → ℕ → ℕ → Fragment
fragment k offset size = record {
  start_sequence_number = 1;
  data_length = size;
  fragment_count = 2;
  fragment_number = k;
  total_length = 3;
  fragment_offset = offset;
}

abbrev command : Protocol
command = record {
  header = record { command = 0x88; channel_id = 0; reliable_sequence_number = 1 };
  body = send_fragment (fragment 1 2 1);
}

abbrev blank : IncomingCommand
blank = record {
  address = 100;
  reliable_sequence_number = 1;
  unreliable_sequence_number = 0;
  command = command;
  fragment_count = 2;
  fragments_remaining = 2;
  fragments = some (false ∷ false ∷ []);
  packet = record {
    reference_count = 1;
    flags = flag_reliable;
    content = none ∷ none ∷ none ∷ [];
    data_length = 3;
  };
}

abbrev with_second : IncomingCommand
with_second = absorb (fragment 1 2 1) (3 ∷ []) (false ∷ false ∷ []) blank

abbrev with_both : IncomingCommand
with_both = absorb (fragment 0 0 2) (1 ∷ 2 ∷ 9 ∷ []) (false ∷ true ∷ []) with_second

blank_opened : Collected chunks (false ∷ false ∷ []) blank
unfolding obtain packet_create
blank_opened = opened ample command 0 refl

with_both-Collected : Collected chunks (true ∷ true ∷ []) with_both
with_both-Collected =
    taken_in
      (taken_in blank_opened 1 (fragment 1 2 1) (3 ∷ [])
        (record { within = omega arith; number = refl; offset = refl; size = refl; bytes = refl })
        refl)
      0 (fragment 0 0 2) (1 ∷ 2 ∷ 9 ∷ [])
      (record { within = omega arith; number = refl; offset = refl; size = refl; bytes = refl })
      refl

Collected-whole_example : with_both.packet.content ≡ map some (1 ∷ 2 ∷ 3 ∷ [])
Collected-whole_example =
    Collected-whole chunks (omega arith) with_both-Collected (unfold absorb in refl)
