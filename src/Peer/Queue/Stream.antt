-- ===== src/Peer/Queue/Stream.antt =====
-- Reliable delivery, end to end on the receiving side.
use mathlib.Core.List.{map-append}
use native.Mathlib.Decide.{dec_lt}
use toxsh.Prelude.{
  ℕ, ◌+◌, ◌≤◌, ◌<◌, ◌≡◌, refl, sym, ap, ◌∙◌, inl, inr, List, [], ◌++◌, map, Option, some, arith,
  length, get_elem?, get_elem?-set, length-append, ap₂, subst,
}
use toxsh.Wire.{Protocol}
use toxsh.Memory.{IncomingCommand}
use toxsh.State.{Channel, Site}
use toxsh.Packet.{flag_reliable}
use toxsh.Peer.Dispatch.Runs.{Receives}
use toxsh.Peer.Queue.Cases.{queue_in_cases}
use toxsh.Peer.Queue.{
  Lane, Position, QueueAllocation, place, enqueue, queue_in, queue_incoming_command, reliable_lane,
}
use toxsh.Peer.Messages.{reach, stream, Segment-stream, stream-append_zero, IsMessage}
use toxsh.Peer.Queue.Order.{IsPlace}
use toxsh.Peer.Queue.Delivery.{
  Carries, Advances, Advances-refl, place-old, place-new, insert_at-Receives, dispatch_at-Advances,
  obtain-IsMessage,
}

module _ (body : ℕ → List ℕ) (i a m : ℕ) (ch : Channel) (s : Site)
    (there : get_elem? s.peer.channels i ≡ some ch) (rec : Receives body a ch) where
  enqueue-Advances :
      (p : Position) (c : IncomingCommand)
      → a < m
      → m < a + reach
      → IsPlace body a m (some p)
      → IsMessage body m c
      → Advances body i a s (enqueue reliable_lane p c ch i s)
  unfolding enqueue
  enqueue-Advances p c above near placed is =
      dispatch_at-Advances body i a m ch s there rec _ _ (get_elem?-set s.peer.channels i _ there)
        refl (insert_at-Receives body i a m ch s there rec p c above near placed is)

  placed-Advances :
      (lane : Lane) (u : ℕ) (p q : Position) (c : IncomingCommand)
      (r : Option (Lane × ℕ × Position))
      → r ≡ some (lane, u, p)
      → r ≡ some (reliable_lane, 0, q)
      → a < m
      → m < a + reach
      → IsPlace body a m (some q)
      → IsMessage body m c
      → Advances body i a s (enqueue lane p c ch i s)
  placed-Advances lane u p q c r e f above near placed is =
      let lanes : lane ≡ reliable_lane = cc in
      let places : p ≡ q = cc in rw (lanes, places) (enqueue-Advances q c above near placed is)

  queue_in-Advances :
      (alloc : QueueAllocation) (command : Protocol)
      → Carries body i m command
      → a ≤ m + 36864
      → m < a + 65536
      → Advances body i a s
          (queue_in alloc command (some (body m)) (length (body m)) flag_reliable 0 ch i s).1
  queue_in-Advances alloc command carries recent below =
      queue_in_cases alloc command (some (body m)) (length (body m)) flag_reliable 0 s
        (Advances body i a s) ch i (Advances-refl body i a m ch s there rec)
        λ lane u p c placed made. elim (dec_lt a m) [
          | no old ↦
              let gone =
                place-old body a m ch command rec carries.kind carries.number (omega arith)
                  recent in
              cc
          | yes new ↦
              elim (place-new body a m ch command rec carries.kind carries.number new below) [
                | inl missing ↦ cc
                | inr (q, found, near, ordered) ↦
                    placed-Advances lane u p q c (place command ch) placed found new near ordered
                      (obtain-IsMessage body m alloc command u c carries.number made)
              ]
        ]

  -- An arrival of message `m`, no more than 36864 messages old and less than 65536 ahead.
  pub queue_incoming_command-Advances :
      (alloc : QueueAllocation) (command : Protocol)
      → Carries body i m command
      → a ≤ m + 36864
      → m < a + 65536
      → Advances body i a s
          (queue_incoming_command alloc command
            (some (body m))
            (length (body m))
            flag_reliable
            0
            s).1
  unfolding queue_incoming_command
  queue_incoming_command-Advances alloc command carries recent below =
      let here : get_elem? s.peer.channels command.channel_id ≡ some ch =
        rw carries.channel there in
      rw (here, queue_incoming_command)
        (subst
          (λ k.
            Advances body i a s
              (queue_in alloc command (some (body m)) (length (body m)) flag_reliable 0 ch k s).1)
          (sym carries.channel) (queue_in-Advances alloc command carries recent below))

-- The reliable messages of one sender on channel `i`, as they come in: any message, in any order and
-- any number of times, with any outcome of the allocations, as long as the network does not hold one
-- back for 36864 others. Nothing else uses the peer, and the application takes nothing out.
pub data Received (body : ℕ → List ℕ) (i : ℕ) : Site → Type 0 where
  fresh :
      {s : Site} (ch : Channel)
      → get_elem? s.peer.channels i ≡ some ch
      → Receives body 0 ch
      → s.peer.dispatched_commands ≡ []
      → Received body i s
  arrival :
      {s : Site}
      → Received body i s
      → (m : ℕ) (alloc : QueueAllocation) (command : Protocol) → Carries body i m command
      → length s.peer.dispatched_commands ≤ m + 36864
      → m < length s.peer.dispatched_commands + 65536
      → Received body i
          (queue_incoming_command alloc command
            (some (body m))
            (length (body m))
            flag_reliable
            0
            s).1

abbrev contents : IncomingCommand → List (Option ℕ)
contents c = c.packet.content

-- What holds of a site on the way.
pub record Invariant (body : ℕ → List ℕ) (i : ℕ) (s : Site) : Type 0 where
  pub ch : Channel
  pub there : get_elem? s.peer.channels i ≡ some ch
  pub receives : Receives body (length s.peer.dispatched_commands) ch
  pub delivered :
      map contents s.peer.dispatched_commands ≡ stream body 0 (length s.peer.dispatched_commands)

module _ (body : ℕ → List ℕ) (i : ℕ) where
  Advances-Invariant :
      {s t : Site}
      → Invariant body i s
      → Advances body i (length s.peer.dispatched_commands) s t
      → Invariant body i t
  Advances-Invariant {s} {t} inv adv =
      let old = s.peer.dispatched_commands in
      let seg = Segment-stream body (length old) adv.b adv.moved adv.segment in
      let len : length t.peer.dispatched_commands ≡ length old + length adv.moved =
        ap length adv.dispatched ∙ length-append old adv.moved in
      record {
        ch = adv.ch;
        there = adv.there;
        receives = rw (len, ← seg.1) adv.receives;
        delivered =
            ap (map contents) adv.dispatched
            ∙ map-append contents old adv.moved
            ∙ ap₂ ◌++◌ inv.delivered seg.0
            ∙ sym (stream-append_zero body (length old) (length adv.moved))
            ∙ ap (stream body 0) (sym len);
      }

  pub Received-Invariant : {s : Site} → Received body i s → Invariant body i s
  Received-Invariant (fresh ch there rec none_yet) = record {
    ch = ch;
    there = there;
    receives = rw none_yet rec;
    delivered = rw none_yet;
  }
  Received-Invariant (arrival {s} before m alloc command carries recent below) =
      let inv = Received-Invariant before in
      Advances-Invariant inv (
        queue_incoming_command-Advances body i (length s.peer.dispatched_commands) m inv.ch s
          inv.there inv.receives alloc command carries recent below)

-- What has been handed over is the first messages of the sender, each once, whole and in order.
pub delivered_prefix :
    (body : ℕ → List ℕ) (i : ℕ) {s : Site}
    → Received body i s
    → map contents s.peer.dispatched_commands ≡ stream body 0 (length s.peer.dispatched_commands)
delivered_prefix body i r = (Received-Invariant body i r).delivered
