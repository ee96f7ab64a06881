-- ===== src/Peer/Queue/Cases.antt =====
-- The branches of enet_peer_queue_incoming_command.
use toxsh.Prelude.{ℕ, ◌≡◌, inl, inr, List, Option, some, Bool-cases, Option-cases, leb}
use toxsh.Wire.{Protocol}
use toxsh.Memory.{IncomingCommand}
use toxsh.State.{Channel, Site}
use toxsh.Peer.Queue.{
  Lane, Position, QueueAllocation, place, obtain, enqueue, queue_in, is_disconnect_later,
}

module _ (alloc : QueueAllocation) (command : Protocol) (given : Option (List ℕ))
    (data_length flags fragment_count : ℕ) (s : Site) where
  -- The site is left as it is, or a command that has its place and its memory is put in its channel.
  pub queue_in_cases {ℓ} :
      (P : Site → Type ℓ) (ch : Channel) (i : ℕ)
      → P s
      → ((lane : Lane) (unreliable : ℕ) (p : Position) (c : IncomingCommand)
          → place command ch ≡ some (lane, unreliable, p)
          → obtain alloc command given data_length flags fragment_count unreliable ≡ some c
          → P (enqueue lane p c ch i s))
      → P (queue_in alloc command given data_length flags fragment_count ch i s).1
  unfolding queue_in
  queue_in_cases P ch i same put = elim (Bool-cases (is_disconnect_later s.peer.state)) [
    | inl closing ↦ rw (closing, queue_in) same
    | inr open' ↦ elim (Option-cases (place command ch)) [
      | inl missing ↦ rw (open', missing, queue_in) same
      | inr ((lane, unreliable, p), placed) ↦
          elim (Bool-cases (leb s.host.maximum_waiting_data s.peer.total_waiting_data)) [
            | inl full ↦ rw (open', placed, full, queue_in) same
            | inr room ↦
                elim (Option-cases
                  (obtain alloc command given data_length flags fragment_count unreliable)) [
                    | inl out ↦ rw (open', placed, room, out, queue_in) same
                    | inr (c, made) ↦
                        rw (open', placed, room, made, queue_in)
                          (put lane unreliable p c placed made)
                  ]
          ]
    ]
  ]
