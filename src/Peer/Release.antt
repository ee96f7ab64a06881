-- ===== src/Peer/Release.antt =====
-- toxtun/peer.c: the entries of the outgoing queues hold packets by reference counts.
pub mod Counts
use toxsh.Prelude.{ℕ, suc, ◌+◌, Bool, ◌==◌, List, [], ◌∷◌, Option, none, some, if◌then◌else◌}
use toxsh.Memory.{OutgoingCommand, Packet, Store}
use toxsh.Peer.Connection.{one_less}

-- A write to memory.
unfoldable pub write : ℕ → Option Packet → Store → Store
write a v store b = if a == b then v else store b

-- `-- packet -> referenceCount`, and enet_packet_destroy at 0.
unfoldable pub dropped : Packet → Option Packet
unfolding one_less
dropped p =
    let n = one_less p.reference_count in
    if n == 0 then none else some (record p { reference_count = n })

-- What an outgoing command that is freed does to the packet that it points to, if any.
unfoldable pub release : Option ℕ → Store → Store
unfolding write dropped
release none store = store
release (some a) store = elim (store a) [ none ↦ store | some p ↦ write a (dropped p) store ]

-- enet_peer_reset_outgoing_commands: what is left in memory. The queue is left empty.
unfoldable pub reset_outgoing_commands : List OutgoingCommand → Store → Store
unfolding release
reset_outgoing_commands [] store = store
reset_outgoing_commands (c ∷ cs) store = reset_outgoing_commands cs (release c.packet store)

-- `packet -> referenceCount += n`, `none` where there is no packet.
unfoldable pub retain : ℕ → ℕ → Store → Option Store
unfolding write
retain n a store = elim (store a) [
  | none ↦ none
  | some p ↦ some (write a (some (record p { reference_count = p.reference_count + n })) store)
]
