-- ===== src/Tests/Sending.antt =====
-- A packet of five bytes in fragments of two, and the release of a queue.
use toxsh.Prelude.{
  map, false, All, Option, ℕ, ◌≡◌, ◌+◌, ◌-◌, ◌/◌, refl, true, List, [], ◌∷◌, none, some, arith,
  length, ◌==◌, if◌then◌else◌,
}
use toxsh.Wire.{ping, command_size, Fragment, send_fragment}
use toxsh.Memory.{OutgoingCommand, Packet, Store}
use toxsh.Peer.Send.{Cut, fragment_at, fragments_from}
use toxsh.Peer.Send.Chunks.{chunked}
use toxsh.Peer.Send.Pieces.{payload_of, IsLabelled, sent-joined, sent-IsPiece}
use toxsh.Peer.Outgoing.{new_outgoing}
use toxsh.Peer.Release.{reset_outgoing_commands}
use toxsh.Peer.Release.Counts.{Counted, reset_outgoing_commands-Counted}
use toxsh.Protocol.Fragment.Assembly.{joined}
use toxsh.Protocol.Fragment.Whole.{IsPiece}
use toxsh.State.{Site, Peer}
use toxsh.Protocol.Draft.{Draft, IsSendable, data_size}
use toxsh.Protocol.Transmit.{send_acknowledgements, send_unreliable_outgoing_commands, data_of}
use toxsh.Protocol.Transmit.Sendable.{
  IsShort, send_acknowledgements-IsSendable, send_unreliable_outgoing_commands-IsSendable,
}
use toxsh.Protocol.Reliable.{send_reliable_outgoing_commands}
use toxsh.Protocol.Reliable.Sendable.{send_reliable_outgoing_commands-IsSendable}
use toxsh.Peer.Send.{setup_all}
use toxsh.Peer.Send.Numbers.{IsReliableOn, AreNumbered, setup_all-numbers}
use toxsh.Tests.Fixtures.{quiet_channel, message, quiet_site, quiet_peer}

abbrev five : List ℕ
five = 10 ∷ 11 ∷ 12 ∷ 13 ∷ 14 ∷ []

abbrev cut_of_five : Cut
cut_of_five = record {
  packet = 200;
  command = 0x88;
  channel_id = 0;
  start_sequence_number = 9;
  count = 3;
  total = 5;
}

abbrev fragments : List OutgoingCommand
fragments =
    fragment_at cut_of_five 0 0 2
    ∷ fragment_at cut_of_five 1 2 2
    ∷ fragment_at cut_of_five 2 4 1
    ∷ []

fragments_made : fragments_from (λ n. true) cut_of_five 5 0 0 2 ≡ some fragments
unfolding fragments_from
fragments_made = refl

sent-joined_example :
    (joined (map (payload_of five) fragments) ≡ five)
    × (length fragments ≡ (5 + 2 - 1) / 2)
    × All IsLabelled fragments
sent-joined_example =
    sent-joined (λ n. true) cut_of_five 2 five fragments (omega arith) refl (omega arith)
      fragments_made (omega arith)

sent-IsPiece_example :
    (f : Fragment) × ((fragment_at cut_of_five 2 4 1).command.body ≡ send_fragment f)
    × IsPiece (chunked 5 2 five) 2 f (payload_of five (fragment_at cut_of_five 2 4 1))
sent-IsPiece_example =
    sent-IsPiece (λ n. true) cut_of_five 2 five fragments (omega arith) refl (omega arith)
      fragments_made 2 (fragment_at cut_of_five 2 4 1) (omega arith) refl

abbrev held_twice : Packet
held_twice = record { reference_count = 2; flags = 1; content = []; data_length = 0 }

abbrev store_of_one : Store
store_of_one a = if 200 == a then some held_twice else none

abbrev entry : OutgoingCommand
entry = new_outgoing (message 1) (some 200) 0 0

entries-Counted : Counted (entry ∷ entry ∷ []) store_of_one
unfolding new_outgoing
entries-Counted a = ground arith

reset_outgoing_commands-Counted_example :
    Counted (entry ∷ []) (reset_outgoing_commands (entry ∷ []) store_of_one)
reset_outgoing_commands-Counted_example =
    reset_outgoing_commands-Counted (entry ∷ []) (entry ∷ []) store_of_one (omega arith)
      entries-Counted

abbrev empty_draft : Draft
empty_draft = record {
  commands = [];
  buffer_count = 1;
  packet_size = 4;
  continue_sending = false;
  has_sent_time = false;
}

empty_draft-IsSendable : IsSendable 1343 empty_draft
empty_draft-IsSendable = record {
  size = omega arith;
  commands = omega arith;
  buffers = omega arith;
}

abbrev ping_entry : OutgoingCommand
ping_entry =
    new_outgoing
      (record {
        header = record { command = 0x85; channel_id = 255; reliable_sequence_number = 1 };
        body = ping;
      })
      none 0 0

abbrev pinging : Site
pinging = record quiet_site {
  peer = record quiet_peer {
    queues = record quiet_peer.queues {
      outgoing_reliable_commands = ping_entry ∷ [];
      outgoing_unreliable_commands = ping_entry ∷ [];
      acknowledgements = record { sent_time = 7; command = message 1 } ∷ [];
    };
  };
}

ping_is_sent : length (send_reliable_outgoing_commands empty_draft pinging).1.commands ≡ 1
unfolding send_reliable_outgoing_commands new_outgoing command_size
ping_is_sent = refl

pings-IsShort : All IsShort (ping_entry ∷ [])
unfolding new_outgoing command_size data_size data_of
pings-IsShort = (omega arith, tt)

send_reliable_outgoing_commands-IsSendable_example :
    IsSendable 1343 (send_reliable_outgoing_commands empty_draft pinging).1
send_reliable_outgoing_commands-IsSendable_example =
    send_reliable_outgoing_commands-IsSendable empty_draft pinging (omega arith) pings-IsShort
      empty_draft-IsSendable

send_acknowledgements-IsSendable_example :
    IsSendable 1343 (send_acknowledgements empty_draft pinging).0
send_acknowledgements-IsSendable_example =
    send_acknowledgements-IsSendable empty_draft pinging (omega arith) empty_draft-IsSendable

abbrev after_unreliable : Option (Draft × Site)
after_unreliable = send_unreliable_outgoing_commands true (λ s. s) empty_draft pinging

abbrev draft_in : Option (Draft × Site) → Draft
draft_in none = empty_draft
draft_in (some (d, s)) = d

abbrev site_in : Option (Draft × Site) → Site
site_in none = quiet_site
site_in (some (d, s)) = s

unreliable_is_sent : after_unreliable ≡ some (draft_in after_unreliable, site_in after_unreliable)
unfolding send_unreliable_outgoing_commands new_outgoing command_size
unreliable_is_sent = refl

send_unreliable_outgoing_commands-IsSendable_example : IsSendable 1343 (draft_in after_unreliable)
send_unreliable_outgoing_commands-IsSendable_example =
    send_unreliable_outgoing_commands-IsSendable true (λ s. s) empty_draft
      (draft_in after_unreliable) pinging (site_in after_unreliable) (omega arith) pings-IsShort
      empty_draft-IsSendable unreliable_is_sent

two_pieces-IsReliableOn :
    All (IsReliableOn 0) (fragment_at cut_of_five 0 0 2 ∷ fragment_at cut_of_five 1 2 2 ∷ [])
unfolding fragment_at
two_pieces-IsReliableOn = (
  record { channel = refl; acknowledged = refl },
  (record { channel = refl; acknowledged = refl }, tt),
)

abbrev two_set_up : Option Peer
two_set_up =
    setup_all (fragment_at cut_of_five 0 0 2 ∷ fragment_at cut_of_five 1 2 2 ∷ []) quiet_peer

abbrev peer_in : Option Peer → Peer
peer_in none = quiet_peer
peer_in (some p) = p

two_are_set_up : two_set_up ≡ some (peer_in two_set_up)
unfolding setup_all fragment_at command_size
two_are_set_up = refl

setup_all-numbers_example :
    (ds : List OutgoingCommand) × ((peer_in two_set_up).queues.outgoing_reliable_commands ≡ ds)
    × AreNumbered 0 (fragment_at cut_of_five 0 0 2 ∷ fragment_at cut_of_five 1 2 2 ∷ []) ds
setup_all-numbers_example =
    setup_all-numbers 0 (fragment_at cut_of_five 0 0 2 ∷ fragment_at cut_of_five 1 2 2 ∷ [])
      quiet_peer (peer_in two_set_up) quiet_channel (omega arith) two_pieces-IsReliableOn refl
      two_are_set_up
