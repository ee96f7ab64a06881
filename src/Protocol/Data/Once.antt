-- ===== src/Protocol/Data/Once.antt =====
-- An unsequenced packet is taken once, as long as the window stays where it is.
use toxsh.Prelude.{
  ℕ, suc, zero, ◌-◌, ◌%◌, ◌<◌, ◌≡◌, refl, ap, subst, ◌∙◌, sym, Bool, true, false, List, [], ◌∷◌,
  Option, some, length, get_or, set, get_elem?, length-replicate, Bool-cases, Option-cases, inl,
  inr, arith, ◌==◌,
}
use toxsh.Wire.{Protocol}
use toxsh.Memory.{IncomingCommand}
use toxsh.State.{Channel, Site, Peer}
use toxsh.Packet.{flag_unsequenced}
use toxsh.Peer.Dispatch.{Dispatched, deliver, dispatch_at}
use toxsh.Peer.Queue.{
  QueueAllocation, Queued, queued, dummy, failed, Lane, Position, enqueue, dispatch_of,
  queue_incoming_command,
}
use toxsh.Peer.Queue.Cases.{queue_in_cases}
use toxsh.Protocol.Result.{done}
use toxsh.Protocol.Data.{
  unsequenced_in, move_window, is_group_in_reach, after_unsequenced, mark_group,
}

-- The window and the group that it begins with.
pub record SameWindow (s t : Site) : Type 0 where
  pub group : t.peer.incoming_unsequenced_group ≡ s.peer.incoming_unsequenced_group
  pub window : t.peer.unsequenced_window ≡ s.peer.unsequenced_window

deliver-SameWindow : (cs : List IncomingCommand) (s : Site) → SameWindow s (deliver cs s)
unfolding deliver
deliver-SameWindow [] s = record { group = refl; window = refl }
deliver-SameWindow (c ∷ cs) s = record { group = refl; window = refl }

dispatch_at-SameWindow :
    (dispatch : Channel → Dispatched) (i : ℕ) (s : Site) → SameWindow s (dispatch_at dispatch i s)
unfolding dispatch_at
dispatch_at-SameWindow dispatch i s = elim (Option-cases (get_elem? s.peer.channels i)) [
  | inl missing ↦ rw (missing, dispatch_at) (record { group = refl; window = refl })
  | inr (ch, there) ↦
      rw (there, dispatch_at)
        (record {
          group = (deliver-SameWindow (dispatch ch).moved _).group;
          window = (deliver-SameWindow (dispatch ch).moved _).window;
        })
]

enqueue-SameWindow :
    (lane : Lane) (p : Position) (c : IncomingCommand) (i : ℕ) (s : Site) (ch : Channel)
    → SameWindow s (enqueue lane p c ch i s)
unfolding enqueue
enqueue-SameWindow lane p c i s ch = record {
  group = (dispatch_at-SameWindow (dispatch_of lane) i _).group;
  window = (dispatch_at-SameWindow (dispatch_of lane) i _).window;
}

queue-SameWindow :
    (alloc : QueueAllocation) (command : Protocol) (given : Option (List ℕ))
    (data_length flags fragment_count : ℕ) (s : Site)
    → SameWindow s (queue_incoming_command alloc command given data_length flags fragment_count s).1
unfolding queue_incoming_command
queue-SameWindow alloc command given data_length flags fragment_count s =
    elim (Option-cases (get_elem? s.peer.channels command.channel_id)) [
      | inl missing ↦ rw (missing, queue_incoming_command) (record { group = refl; window = refl })
      | inr (ch, there) ↦
          rw (there, queue_incoming_command)
            (queue_in_cases alloc command given data_length flags fragment_count s (SameWindow s) ch
              command.channel_id (record { group = refl; window = refl })
              (λ lane unreliable p c placed made.
                enqueue-SameWindow lane p c command.channel_id s ch))
    ]

done-site : {rest : List ℕ} {s t : Site} → done rest s ≡ done rest t → s ≡ t
done-site h = cc

get_or-set : (bits : List Bool) (i : ℕ) → i < length bits → get_or (set bits i true) i false ≡ true
get_or-set [] i h = absurd (omega arith)
get_or-set (b ∷ bits) zero h = refl
get_or-set (b ∷ bits) (suc i) h = get_or-set bits i (omega arith)

-- The window that a group moved to is its own.
move_window-facts :
    (group : ℕ) (p : Peer)
    → length p.unsequenced_window ≡ 1024
    → ((move_window group p).incoming_unsequenced_group ≡ group - group % 1024)
      × (length (move_window group p).unsequenced_window ≡ 1024)
unfolding move_window
move_window-facts group p wide =
    elim (Bool-cases (group - group % 1024 == p.incoming_unsequenced_group)) [
      | inl stays ↦ rw stays (ground arith, wide)
      | inr moves ↦ rw moves (refl, length-replicate 1024 false)
    ]

-- A group whose window stands and whose bit is set is passed over.
seen_group :
    (alloc : QueueAllocation) (command : Protocol) (group data_length : ℕ) (payload rest : List ℕ)
    (t : Site)
    → t.peer.incoming_unsequenced_group ≡ group - group % 1024
    → get_or t.peer.unsequenced_window (group % 1024) false ≡ true
    → unsequenced_in alloc command group data_length payload t rest ≡ done rest t
unfolding unsequenced_in move_window is_group_in_reach
seen_group alloc command group data_length payload rest t own bit =
    let stays : (group - group % 1024 == t.peer.incoming_unsequenced_group) ≡ true = ground arith in
    let reach : is_group_in_reach t.peer.incoming_unsequenced_group group ≡ true = ground arith in
    rw (stays, reach, bit) refl

-- After a command that was not passed over, the window has the group's bit.
after_unsequenced-marks :
    (group : ℕ) (rest : List ℕ) (p : Peer) (q : Queued) (s t : Site)
    → p.incoming_unsequenced_group ≡ s.peer.incoming_unsequenced_group
    → p.unsequenced_window ≡ s.peer.unsequenced_window
    → length p.unsequenced_window ≡ 1024
    → after_unsequenced group rest (q, s) ≡ done rest t
    → (t.peer.incoming_unsequenced_group ≡ p.incoming_unsequenced_group)
      × (get_or t.peer.unsequenced_window (group % 1024) false ≡ true)
unfolding after_unsequenced mark_group
after_unsequenced-marks group rest p (queued address) s t e w wide h =
    let same : mark_group group s ≡ t = done-site h in
    (
      sym (ap (λ u. u.peer.incoming_unsequenced_group) same) ∙ sym e,
      ap (λ u. get_or u.peer.unsequenced_window (group % 1024) false) (sym same)
          ∙ get_or-set s.peer.unsequenced_window (group % 1024) (omega (arith, wide, ap length w)),
    )
after_unsequenced-marks group rest p dummy s t e w wide h =
    let same : mark_group group s ≡ t = done-site h in
    (
      sym (ap (λ u. u.peer.incoming_unsequenced_group) same) ∙ sym e,
      ap (λ u. get_or u.peer.unsequenced_window (group % 1024) false) (sym same)
          ∙ get_or-set s.peer.unsequenced_window (group % 1024) (omega (arith, wide, ap length w)),
    )
after_unsequenced-marks group rest p failed s t e w wide h = absurd cc

module _ (alloc : QueueAllocation) (command : Protocol) (group data_length : ℕ)
    (payload rest : List ℕ) (s : Site)
    (reach : is_group_in_reach s.peer.incoming_unsequenced_group group ≡ true) where
  passed_over :
      get_or (move_window group s.peer).unsequenced_window (group % 1024) false ≡ true
      → unsequenced_in alloc command group data_length payload s rest ≡ done rest s
  unfolding unsequenced_in
  passed_over seen = rw (reach, seen) refl

  taken :
      get_or (move_window group s.peer).unsequenced_window (group % 1024) false ≡ false
      → unsequenced_in alloc command group data_length payload s rest
        ≡ after_unsequenced group rest (
            queue_incoming_command alloc command
              (some payload)
              data_length
              flag_unsequenced
              0
              (record s { peer = move_window group s.peer }))
  unfolding unsequenced_in
  taken new = rw (reach, new) refl

-- With a window of 1024 bits, an unsequenced command of a 16-bit group in reach that was handled without
-- an error changes nothing when it comes again at once: it is not queued twice.
pub unsequenced_once :
    (alloc again : QueueAllocation) (command : Protocol) (group data_length : ℕ)
    (payload rest : List ℕ) (s t : Site)
    → length s.peer.unsequenced_window ≡ 1024
    → is_group_in_reach s.peer.incoming_unsequenced_group group ≡ true
    → group < 65536
    → unsequenced_in alloc command group data_length payload s rest ≡ done rest t
    → unsequenced_in again command group data_length payload t rest ≡ done rest t
unfolding unsequenced_in
unsequenced_once alloc again command group data_length payload rest s t wide reach small e =
    let p = move_window group s.peer in
    let moved = move_window-facts group s.peer wide in
    let out =
      queue_incoming_command alloc command (some payload) data_length flag_unsequenced 0
        (record s { peer = p }) in
    let same =
      queue-SameWindow alloc command (some payload) data_length flag_unsequenced 0
        (record s { peer = p }) in
    elim (Bool-cases (get_or p.unsequenced_window (group % 1024) false)) [
      | inl seen ↦
          let seen_by : (a : QueueAllocation)
              → unsequenced_in a command group data_length payload s rest ≡ done rest s =
            λ a. passed_over a command group data_length payload rest s reach seen in
          subst (λ u. unsequenced_in again command group data_length payload u rest ≡ done rest u)
            (done-site (sym (seen_by alloc) ∙ e)) (seen_by again)
      | inr new ↦
          let put : after_unsequenced group rest (out.0, out.1) ≡ done rest t =
            sym (taken alloc command group data_length payload rest s reach new) ∙ e in
          let marks =
            after_unsequenced-marks group rest p out.0 out.1 t (sym same.group) (sym same.window)
              moved.1 put in
          seen_group again command group data_length payload rest t (marks.0 ∙ moved.0) marks.1
    ]
