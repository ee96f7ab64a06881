-- ===== src/Peer/Disconnect.antt =====
-- toxtun/peer.c: enet_peer_disconnect, enet_peer_disconnect_now and enet_peer_disconnect_later.
-- `flush` stands for enet_host_flush, which hands what is queued to the sockets of the system.
use toxsh.Prelude.{
  ℕ, Bool, true, false, not, ◌&&◌, List, [], ◌∷◌, Option, none, some, if◌then◌else◌, bit_or,
}
use toxsh.Wire.{disconnect}
use toxsh.Wire.Command
use toxsh.State.{
  Site, Queues, PeerState, disconnected, disconnect_later, disconnecting, acknowledging_disconnect,
  zombie,
}
use toxsh.Peer.Connection.{is_connected, on_disconnect}
use toxsh.Peer.Reset.{reset, reset_queues}
use toxsh.Peer.Outgoing.{own_command, queue_outgoing_command}

-- The states in which there is nothing left to disconnect.
unfoldable pub is_leaving : PeerState → Bool
is_leaving disconnecting = true
is_leaving disconnected = true
is_leaving acknowledging_disconnect = true
is_leaving zombie = true
is_leaving _ = false

-- The queues are dropped, and a disconnect command is queued with the flag.
unfoldable pub queue_disconnect : Bool → ℕ → ℕ → Site → Option (Bool × Site)
unfolding reset_queues queue_outgoing_command
queue_disconnect alloc flag data_ s =
    queue_outgoing_command alloc (own_command (bit_or Command.disconnect flag) (disconnect data_))
      none 0 0 (reset_queues s)

-- enet_peer_disconnect
unfoldable pub peer_disconnect : Bool → (Site → Site) → ℕ → Site → Option Site
unfolding is_leaving queue_disconnect is_connected on_disconnect reset
peer_disconnect alloc flush data_ s =
    if is_leaving s.peer.state
    then some s
    else if is_connected s.peer.state
    then elim (queue_disconnect alloc Command.flag_acknowledge data_ s) [
      | none ↦ none
      | some (sent, s') ↦
          let t = on_disconnect s' in
          some (record t { peer = record t.peer { state = disconnecting } })
    ]
    else elim (queue_disconnect alloc Command.flag_unsequenced data_ s) [
      | none ↦ none
      | some (sent, s') ↦ some (reset (flush s'))
    ]

unfoldable pub is_disconnected : PeerState → Bool
is_disconnected disconnected = true
is_disconnected _ = false

unfoldable pub is_closing : PeerState → Bool
is_closing zombie = true
is_closing disconnecting = true
is_closing _ = false

-- enet_peer_disconnect_now
unfoldable pub peer_disconnect_now : Bool → (Site → Site) → ℕ → Site → Option Site
unfolding is_disconnected is_closing queue_disconnect reset
peer_disconnect_now alloc flush data_ s =
    if is_disconnected s.peer.state
    then some s
    else if is_closing s.peer.state
    then some (reset s)
    else elim (queue_disconnect alloc Command.flag_unsequenced data_ s) [
      | none ↦ none
      | some (sent, s') ↦ some (reset (flush s'))
    ]

unfoldable pub is_empty {ℓ} : {A : Type ℓ} → List A → Bool
is_empty [] = true
is_empty (x ∷ xs) = false

-- Nothing waits to be sent or acknowledged.
unfoldable pub is_drained : Queues → Bool
unfolding is_empty
is_drained q =
    is_empty q.outgoing_reliable_commands
    && (is_empty q.outgoing_unreliable_commands && is_empty q.sent_reliable_commands)

-- enet_peer_disconnect_later
unfoldable pub peer_disconnect_later : Bool → (Site → Site) → ℕ → Site → Option Site
unfolding is_connected is_drained peer_disconnect
peer_disconnect_later alloc flush data_ s =
    if is_connected s.peer.state && not (is_drained s.peer.queues)
    then some (record s { peer = record s.peer { state = disconnect_later; event_data = data_ } })
    else peer_disconnect alloc flush data_ s
