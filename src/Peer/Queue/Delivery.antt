-- ===== src/Peer/Queue/Delivery.antt =====
-- Reliable delivery on one channel: whatever reliable messages arrive, in whatever order and however
-- often, what the channel has handed over is the sender's stream up to some message.
use mathlib.Core.Option
use mathlib.Core.List.{reverse, append-nil}
use toxsh.Prelude.{
  ℕ, suc, ◌+◌, ◌-◌, ◌%◌, ◌≤◌, ◌<◌, ◌≡◌, refl, sym, ap, ◌∙◌, ◌⊎◌, inl, inr, true, false, List, [],
  ◌∷◌, ◌++◌, map, none, some, arith, Bool-cases, Option-cases, length, get_elem?, set, subst, ◌≢◌,
  get_elem?-set, take_all,
}
use toxsh.Wire.{Protocol}
use toxsh.Wire.Command
use toxsh.Memory.{IncomingCommand, Packet}
use toxsh.State.{Channel, Site}
use toxsh.Packet.{flag_reliable, packet_create, Allocation}
use toxsh.Peer.Window.{is_in_window, is_in_window_iff}
use toxsh.Peer.Dispatch.{dispatch_at, dispatch_reliable, deliver-dispatched, deliver-channels}
use toxsh.Peer.Dispatch.Runs.{HasHanded, Receives, dispatch_reliable-Hands}
use toxsh.Peer.Queue.{
  Position, QueueAllocation, search_reliable, insert_at, place, obtain, reliable_lane,
}
use toxsh.Peer.Messages.{
  reach, IsMessage, Segment, Holds-mono, reverse_aux-Holds, reverse_aux-HoldsBack,
}
use toxsh.Peer.Queue.Order.{IsPlace, search-IsPlace}

-- The command of a reliable message.
pub record Carries (body : ℕ → List ℕ) (i m : ℕ) (command : Protocol) : Type 0 where
  pub kind : Command.number command.command ≡ Command.send_reliable
  pub channel : command.channel_id ≡ i
  pub number : command.reliable_sequence_number ≡ m % 65536

module _ (body : ℕ → List ℕ) (a m : ℕ) (ch : Channel) (command : Protocol)
    (rec : Receives body a ch) (kind : Command.number command.command ≡ Command.send_reliable)
    (number : command.reliable_sequence_number ≡ m % 65536) where
  -- A message that was handed over and is not older than the window is discarded.
  pub place-old : m ≤ a → a ≤ m + 36864 → place command ch ≡ none
  unfolding place is_in_window
  place-old old recent = let e = rec.incoming in ground arith

  place-outside : is_in_window (a % 65536) (m % 65536) ≡ false → place command ch ≡ none
  unfolding place
  place-outside out = let e = rec.incoming in ground arith

  pub place-within :
      is_in_window (a % 65536) (m % 65536) ≡ true
      → m % 65536 ≢ a % 65536
      → place command ch
        ≡ Option.map
            (λ p. (reliable_lane, 0, p))
            (search_reliable (a % 65536) (m % 65536) (reverse ch.incoming_reliable_commands) [])
  unfolding place
  place-within within ne = let e = rec.incoming in ground arith

  near_of_within :
      is_in_window (a % 65536) (m % 65536) ≡ true → a < m → m < a + 65536 → m < a + reach
  near_of_within within above below =
      omega (arith, (is_in_window_iff (a % 65536) (m % 65536) (omega arith) (omega arith)).0 within)

  -- A message to come is discarded, or gets its place among those that are held.
  pub place-new :
      a < m
      → m < a + 65536
      → (place command ch ≡ none)
        ⊎ ((p : Position) × (place command ch ≡ some (reliable_lane, 0, p))
            × (m < a + reach)
            × IsPlace body a m (some p))
  place-new above below = elim (Bool-cases (is_in_window (a % 65536) (m % 65536))) [
    | inr out ↦ inl (place-outside out)
    | inl within ↦
        let near = near_of_within within above below in
        let found =
          search_reliable (a % 65536) (m % 65536) (reverse ch.incoming_reliable_commands) [] in
        let there : IsPlace body a m found =
          search-IsPlace body a m (a + reach) (a + reach) (reverse ch.incoming_reliable_commands) []
            above near (omega arith) (omega arith)
            (reverse_aux-HoldsBack body a a ch.incoming_reliable_commands [] (omega arith)
              (omega arith)
              (Holds-mono body a a (suc a) a ch.incoming_reliable_commands (omega arith)
                (omega arith) rec.held)
              tt)
            tt in
        elim (Option-cases found) [
          | inl missing ↦ inl (place-within within (omega arith) ∙ ap (Option.map _) missing)
          | inr (p, e) ↦ inr (
            p,
            place-within within (omega arith) ∙ ap (Option.map _) e,
            near,
            subst (IsPlace body a m) e there,
          )
        ]
  ]

-- What an arrival does to a site whose channel `i` has handed over `a` messages: nothing, or it hands
-- over the messages up to some `b`, behind what was dispatched before.
pub record Advances (body : ℕ → List ℕ) (i a : ℕ) (s t : Site) : Type 0 where
  pub b : ℕ
  pub grows : a ≤ b
  pub ch : Channel
  pub there : get_elem? t.peer.channels i ≡ some ch
  pub receives : Receives body b ch
  pub moved : List IncomingCommand
  pub segment : Segment body a moved b
  pub dispatched : t.peer.dispatched_commands ≡ s.peer.dispatched_commands ++ moved

module _ (body : ℕ → List ℕ) (i a m : ℕ) (ch : Channel) (s : Site)
    (there : get_elem? s.peer.channels i ≡ some ch) (rec : Receives body a ch) where
  pub Advances-refl : Advances body i a s s
  Advances-refl = record {
    b = a;
    grows = omega arith;
    ch = ch;
    there = there;
    receives = rec;
    moved = [];
    segment = refl;
    dispatched = sym (append-nil _);
  }

  pub insert_at-Receives :
      (p : Position) (c : IncomingCommand)
      → a < m
      → m < a + reach
      → IsPlace body a m (some p)
      → IsMessage body m c
      → HasHanded body a a (record ch { incoming_reliable_commands = insert_at p c })
  unfolding insert_at
  insert_at-Receives p c above near (before, after) is = record {
    incoming = rec.incoming;
    held =
        reverse_aux-Holds body a m (m - 1) p.before (c ∷ p.after) (omega arith) (omega arith) before
          (m, omega arith, near, is, after);
    no_unreliable = rec.no_unreliable;
  }

  pub dispatch_at-Advances :
      (t : Site) (ch' : Channel)
      → get_elem? t.peer.channels i ≡ some ch'
      → t.peer.dispatched_commands ≡ s.peer.dispatched_commands
      → HasHanded body a a ch'
      → Advances body i a s (dispatch_at dispatch_reliable i t)
  unfolding dispatch_at
  dispatch_at-Advances t ch' e same rec' =
      let h = dispatch_reliable-Hands body a ch' rec' in
      let d = dispatch_reliable ch' in
      let u : Site = record t {
        peer = record t.peer { channels = set t.peer.channels i d.channel };
      } in
      rw (e, dispatch_at)
        (record {
          b = h.b;
          grows = h.grows;
          ch = d.channel;
          there =
              ap (λ cs. get_elem? cs i) (deliver-channels d.moved u)
              ∙ get_elem?-set t.peer.channels i d.channel e;
          receives = h.receives;
          moved = d.moved;
          segment = h.segment;
          dispatched = deliver-dispatched d.moved u ∙ ap (λ cs. cs ++ d.moved) same;
        })

-- The content of a packet that copies all of `bytes`.
packet_create-content :
    (alloc : Allocation) (bytes : List ℕ) {p : Packet}
    → packet_create alloc (some bytes) (length bytes) flag_reliable ≡ some p
    → p.content ≡ map some bytes
unfolding packet_create
packet_create-content alloc [] e = ground arith
packet_create-content alloc (x ∷ xs) e = ground (arith, take_all xs)

-- The command made for a message holds it whole.
pub obtain-IsMessage :
    (body : ℕ → List ℕ) (m : ℕ) (alloc : QueueAllocation) (command : Protocol) (u : ℕ)
    (c : IncomingCommand)
    → command.reliable_sequence_number ≡ m % 65536
    → obtain alloc command (some (body m)) (length (body m)) flag_reliable 0 u ≡ some c
    → IsMessage body m c
unfolding obtain
obtain-IsMessage body m alloc command u c number e =
    elim (Option-cases
      (packet_create alloc.packet (some (body m)) (length (body m)) flag_reliable)) [
        | inl f ↦ ground arith
        | inr (p, f) ↦ let same = packet_create-content alloc.packet (body m) f in ground arith
      ]
