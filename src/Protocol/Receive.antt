-- ===== src/Protocol/Receive.antt =====
-- toxtun/protocol.c, enet_protocol_handle_incoming_commands: the commands of a datagram, one after the
-- other. Protocol/Receive/Header has what comes before.
pub mod Header
pub mod Leaves
pub mod Ends
pub mod Guards
pub mod Isolation
pub mod Apart
pub mod Strangers
pub mod Unknown
pub mod Poll
pub mod Genuine
use toxsh.Prelude.{
  ℕ, zero, suc, Bool, true, false, List, Option, none, some, if◌then◌else◌, ◌==◌, get_elem?,
}
use toxsh.Wire.{
  Protocol, Body, Handshake, Fragment, acknowledge, connect, verify_connect, disconnect, ping,
  send_reliable, send_unreliable, send_unsequenced, send_fragment, bandwidth_limit,
  throttle_configure,
}
use toxsh.Wire.Command
use toxsh.Wire.Layout.{decode}
use toxsh.State.{
  Site, Peer, PeerState, disconnected, acknowledging_connect, disconnecting,
  acknowledging_disconnect, zombie,
}
use toxsh.World.{World, put_site, site_of, site_at}
use toxsh.Peer.Queue.{QueueAllocation}
use toxsh.Peer.Outgoing.{queue_acknowledgement}
use toxsh.Protocol.Result.{Handled, done, error, fault}
use toxsh.Protocol.Control.{
  Event, nothing, connect_event, disconnect_event, Outcome, handle_ping, handle_bandwidth_limit,
  handle_throttle_configure, handle_disconnect,
}
use toxsh.Protocol.Data.{handle_send_reliable, handle_send_unreliable, handle_send_unsequenced}
use toxsh.Protocol.Fragment.{handle_send_fragment}
use toxsh.Protocol.UnreliableFragment.{handle_send_unreliable_fragment}
use toxsh.Protocol.Acknowledge.{handle_acknowledge}
use toxsh.Protocol.Handshake.{
  Accepted, refused, accepted, broken, handle_connect, handle_verify_connect,
}

-- The results of the mallocs for one command.
pub record Allocation : Type 0 where
  pub channels : Bool
  pub command : Bool
  pub acknowledgement : Bool
  pub queue : QueueAllocation

-- The variables of the loop: `peer`, what `event` holds with its peer, and the host.
pub record Reading : Type 0 where
  pub current : Option ℕ
  pub reported : Option (ℕ × Event)
  pub world : World

-- The next command is read from what is left, the loop is left, or memory is.
pub data Step : Type 0 where
  next : List ℕ → Reading → Step
  stop : Reading → Step
  faulted : Step

-- What goes for all commands of a datagram: whether `event` is not NULL, the time in the header, if it
-- has one, and enet_host_flush.
pub record Context : Type 0 where
  pub wanted : Bool
  pub sent_time : Option ℕ
  pub flush : Site → Site

-- The peer at index `i` after a handler.
unfoldable pub with_site : ℕ → Site → Reading → Reading
with_site i s r = record r { world = put_site i s r.world }

-- An event is written over the one before.
unfoldable pub with_event : ℕ → Event → Reading → Reading
with_event i nothing r = r
with_event i event r = record r { reported = some (i, event) }

-- What follows the handlers by what they return: anything but 0 leaves the loop.
unfoldable pub after_handled : ℕ → Reading → Handled → Step
unfolding with_site
after_handled i r (done rest s) = next rest (with_site i s r)
after_handled i r (error rest s) = stop (with_site i s r)
after_handled i r fault = faulted

unfoldable pub after_test : ℕ → Reading → List ℕ → Bool × Site → Step
unfolding with_site
after_test i r rest (true, s) = next rest (with_site i s r)
after_test i r rest (false, s) = stop (with_site i s r)

unfoldable pub after_outcome : ℕ → Reading → List ℕ → Outcome → Step
unfolding with_site with_event
after_outcome i r rest o =
    let r' = with_event i o.event (with_site i o.site r) in
    if o.is_done then next rest r' else stop r'

unfoldable pub after_optional : ℕ → Reading → List ℕ → Option Outcome → Step
unfolding after_outcome
after_optional i r rest none = faulted
after_optional i r rest (some o) = after_outcome i r rest o

unfoldable pub after_connect : Reading → List ℕ → Accepted → Step
unfolding with_site
after_connect r rest refused = stop r
after_connect r rest (accepted i s) = next rest (record (with_site i s r) { current = some i })
after_connect r rest broken = faulted

-- The switch on the command's number, for a datagram of the peer at index `i`.
unfoldable pub handle_body :
    Context → Allocation → Protocol → Body → List ℕ → ℕ → Site → Reading → Step
unfolding after_handled after_test after_outcome after_optional with_site handle_acknowledge
    handle_verify_connect handle_disconnect handle_ping handle_send_reliable handle_send_unreliable
    handle_send_unsequenced handle_send_fragment handle_send_unreliable_fragment
    handle_bandwidth_limit handle_throttle_configure
handle_body x a c (acknowledge number sent) rest i s r =
    after_optional i r rest
      (handle_acknowledge a.command x.flush x.wanted number sent c.channel_id s)
handle_body x a c (connect h data_) rest i s r = stop r
handle_body x a c (verify_connect h) rest i s r =
    after_outcome i r rest (handle_verify_connect x.wanted h s)
handle_body x a c (disconnect data_) rest i s r =
    next rest (with_site i (handle_disconnect c data_ s) r)
handle_body x a c ping rest i s r = after_test i r rest (handle_ping s)
handle_body x a c (send_reliable n) rest i s r =
    after_handled i r (handle_send_reliable a.queue c n rest s)
handle_body x a c (send_unreliable number n) rest i s r =
    after_handled i r (handle_send_unreliable a.queue c n rest s)
handle_body x a c (send_unsequenced group n) rest i s r =
    after_handled i r (handle_send_unsequenced a.queue c group n rest s)
handle_body x a c (send_fragment f) rest i s r = after_handled i r (
    if Command.number c.command == Command.send_fragment
    then handle_send_fragment a.queue c f rest s
    else handle_send_unreliable_fragment a.queue c f rest s)
handle_body x a c (bandwidth_limit incoming outgoing) rest i s r =
    after_test i r rest (handle_bandwidth_limit incoming outgoing s)
handle_body x a c (throttle_configure interval acceleration deceleration) rest i s r =
    after_test i r rest (handle_throttle_configure interval acceleration deceleration s)

-- The switch for a datagram with no peer: only a connection is begun.
unfoldable pub handle_stranger : Allocation → Body → List ℕ → Reading → Step
unfolding after_connect handle_connect
handle_stranger a (connect h data_) rest r =
    after_connect r rest
      (handle_connect a.channels a.command h data_ r.world.host r.world.peers r.world.packets)
handle_stranger a _ rest r = stop r

-- Whether a command is acknowledged in a state of its peer.
unfoldable pub answers : PeerState → ℕ → Bool
answers disconnecting command = false
answers acknowledging_connect command = false
answers disconnected command = false
answers zombie command = false
answers acknowledging_disconnect command = Command.number command == Command.disconnect
answers _ command = true

-- The peer at index `i` with the acknowledgement of a command.
unfoldable pub queue_answer : Allocation → Protocol → ℕ → ℕ → Peer → Reading → Reading
unfolding answers queue_acknowledgement with_site
queue_answer a c sent i p r =
    if answers p.state c.command
    then with_site i
        (record (site_of r.world p) { peer = (queue_acknowledgement a.acknowledgement c sent p).1 })
        r
    else r

-- The end of a round.
unfoldable pub answer_command : Context → Allocation → Protocol → Step → Step
unfolding queue_answer
answer_command x a c (next rest r) = elim r.current [
  | none ↦ next rest r
  | some i ↦ elim (get_elem? r.world.peers i) [
    | none ↦ faulted
    | some p ↦
        if Command.is_acknowledged c.command
        then (elim x.sent_time [
          | none ↦ stop r
          | some sent ↦ next rest (queue_answer a c sent i p r)
        ])
        else next rest r
  ]
]
answer_command x a c (stop r) = stop r
answer_command x a c faulted = faulted

-- A round of the loop on a command with what stands behind it.
unfoldable pub handle_command : Context → Allocation → Protocol → List ℕ → Reading → Step
unfolding handle_body handle_stranger answer_command
handle_command x a c rest r = answer_command x a c (elim r.current [
  | none ↦ handle_stranger a c.body rest r
  | some i ↦ elim (site_at r.world i) [
    | none ↦ faulted
    | some s ↦ handle_body x a c c.body rest i s r
  ]
])

-- How the loop ends; `unfinished` where the fuel has run out.
pub data Ended : Type 0 where
  ended : Reading → Ended
  crashed : Ended
  unfinished : Ended

-- The loop over what is left of a datagram; `mallocs` gives the results of malloc for each command.
unfoldable pub read_commands : Context → (ℕ → Allocation) → ℕ → ℕ → List ℕ → Reading → Ended
unfolding decode handle_command
read_commands x mallocs zero k bytes r = elim (decode bytes) [
  | none ↦ ended r
  | some _ ↦ unfinished
]
read_commands x mallocs (suc fuel) k bytes r = elim (decode bytes) [
  | none ↦ ended r
  | some (c, rest) ↦ elim (handle_command x (mallocs k) c rest r) [
    | next rest' r' ↦ read_commands x mallocs fuel (suc k) rest' r'
    | stop r' ↦ ended r'
    | faulted ↦ crashed
  ]
]
