-- ===== src/Tests/Receive.antt =====
-- Datagrams that a host takes and passes over.
use toxsh.Prelude.{
  ℕ, ◌≡◌, ◌≢◌, ◌++◌, refl, true, List, [], ◌∷◌, some, none, get_elem?, length, map, arith, ◌⊎◌,
}
use toxsh.Wire.{command_size}
use toxsh.Wire.Layout.{width, encode, decode, get, header_fields, body_fields}
use toxsh.Wire.Layout.Trip.{IsSound, belongs, decode-encode, length-encode}
use toxsh.State.{Peer}
use toxsh.World.{World}
use toxsh.Protocol.Receive.{Allocation, Reading}
use toxsh.Protocol.Receive.Header.{
  Filters, header_of, Received, received, endless, handle_incoming_commands,
}
use toxsh.Protocol.Receive.Guards.{handle_incoming_commands-ends}
use toxsh.Protocol.Receive.Genuine.{IsGenuine, handle_incoming_commands-IsGenuine}
use toxsh.Protocol.Receive.Apart.{handle_incoming_commands-apart}
use toxsh.Protocol.Receive.Unknown.{handle_incoming_commands-spares}
use toxsh.Tests.Fixtures.{quiet_host, quiet_peer, message, ample}

abbrev pub plain : Filters
plain = record { checksum = none; decompress = none }

abbrev pub memory : ℕ → Allocation
memory k = record { channels = true; command = true; acknowledgement = true; queue = ample }

abbrev pub pair : World
pair = record { host = quiet_host; peers = quiet_peer ∷ quiet_peer ∷ []; packets = λ a. none }

-- Peer 0 under session 1, with a time: message 1 and its two bytes.
abbrev pub from_peer : List ℕ
from_peer = 144 ∷ 0 ∷ 0 ∷ 7 ∷ (encode (message 1) ++ (1 ∷ 2 ∷ []))

-- The same under session 3, and as a stranger.
abbrev pub forged : List ℕ
forged = 176 ∷ 0 ∷ 0 ∷ 7 ∷ (encode (message 1) ++ (1 ∷ 2 ∷ []))

abbrev strange : List ℕ
strange = 143 ∷ 255 ∷ 0 ∷ 7 ∷ (encode (message 1) ++ (1 ∷ 2 ∷ []))

run : List ℕ → Received
run bytes = handle_incoming_commands plain true (λ s. s) memory pair bytes

waiting_of : Peer → ℕ
waiting_of p = length p.queues.dispatched_commands

peers_of : Received → List ℕ
peers_of (received r) = map waiting_of r.world.peers
peers_of _ = []

message_taken : peers_of (run from_peer) ≡ 1 ∷ 0 ∷ []
unfolding peers_of run waiting_of handle_incoming_commands encode
message_taken = refl

forged_passed_over : peers_of (run forged) ≡ 0 ∷ 0 ∷ []
unfolding peers_of run waiting_of handle_incoming_commands encode
forged_passed_over = refl

message-IsSound : IsSound (message 1)
unfolding header_fields body_fields belongs width
message-IsSound = record {
  header_fits = (omega arith, (omega arith, (omega arith, tt)));
  body_fits = (omega arith, tt);
  member = refl;
}

decode-encode_example : decode (encode (message 1) ++ (1 ∷ 2 ∷ [])) ≡ some (message 1, 1 ∷ 2 ∷ [])
decode-encode_example = decode-encode (message 1) (1 ∷ 2 ∷ []) message-IsSound

length-encode_example : length (encode (message 1)) ≡ command_size 134
length-encode_example = length-encode (message 1) message-IsSound.member

handle_incoming_commands-IsGenuine_example :
    (run forged ≡ received (record { current = none; reported = none; world = pair }))
    ⊎ IsGenuine pair forged
unfolding run
handle_incoming_commands-IsGenuine_example =
    handle_incoming_commands-IsGenuine plain true (λ s. s) memory pair forged

handle_incoming_commands-ends_example : run from_peer ≢ endless
unfolding run
handle_incoming_commands-ends_example =
    handle_incoming_commands-ends plain true (λ s. s) memory pair from_peer

-- What is left of a run, `nothing_read` of one that went wrong.
abbrev nothing_read : Reading
nothing_read = record { current = none; reported = none; world = pair }

reading_of : Received → Reading
reading_of (received r) = r
reading_of _ = nothing_read

from_peer_read : run from_peer ≡ received (reading_of (run from_peer))
unfolding run reading_of handle_incoming_commands encode
from_peer_read = refl

strange_read : run strange ≡ received (reading_of (run strange))
unfolding run reading_of handle_incoming_commands encode
strange_read = refl

handle_incoming_commands-apart_example :
    get_elem? (reading_of (run from_peer)).world.peers 1 ≡ some quiet_peer
unfolding run encode get header_of
handle_incoming_commands-apart_example =
    handle_incoming_commands-apart plain true (λ s. s) memory pair from_peer _ 36864 1
      (reading_of (run from_peer)) refl (λ e. ground arith) (λ e. ground arith) from_peer_read

handle_incoming_commands-spares_example :
    get_elem? (reading_of (run strange)).world.peers 0 ≡ some quiet_peer
unfolding run encode get header_of
handle_incoming_commands-spares_example =
    handle_incoming_commands-spares plain true (λ s. s) memory pair strange _ 36863 0 quiet_peer
      (reading_of (run strange)) refl refl refl (λ e. ground arith) strange_read
