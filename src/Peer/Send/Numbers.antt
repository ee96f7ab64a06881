-- ===== src/Peer/Send/Numbers.antt =====
-- The numbers of the reliable commands of a channel.
use mathlib.Core.List.{append_assoc, append-nil}
use mathlib.Core.Option.{some-injective}
use toxsh.Prelude.{
  ℕ, ◌+◌, ◌≡◌, ◌∙◌, refl, sym, subst, ap, true, false, List, [], ◌∷◌, ◌++◌, Option, none, some, u16,
  u32, get_elem?, set, get_elem?-set, All, arith, ◌==◌, Option-cases, inl, inr, ◌<◌,
}
use toxsh.Wire.{command_size, Fragment, Body, send_fragment}
use toxsh.Wire.Command
use toxsh.Memory.{OutgoingCommand}
use toxsh.State.{Channel, Peer}
use toxsh.Peer.Outgoing.{
  stamp, number_command, number_on, number_reliable, append_outgoing, setup_outgoing_command,
}
use toxsh.Peer.Send.{setup_all}

-- A reliable command for channel `i`.
pub record IsReliableOn (i : ℕ) (c : OutgoingCommand) : Type 0 where
  pub channel : c.command.channel_id ≡ i
  pub acknowledged : Command.is_acknowledged c.command.header.command ≡ true

-- The command `d` in the queue is `c` under the number `n`: in its record and in the header that goes out,
-- not yet sent, for the same channel, with the same part of the same packet.
pub record IsNumbered (n : ℕ) (c d : OutgoingCommand) : Type 0 where
  pub number : d.reliable_sequence_number ≡ n
  pub in_header : d.command.header.reliable_sequence_number ≡ n
  pub unsent : d.send_attempts ≡ 0
  pub command : d.command.header.command ≡ c.command.header.command
  pub channel : d.command.header.channel_id ≡ c.command.header.channel_id
  pub fragment :
      (f : Fragment) → c.command.body ≡ send_fragment f → d.command.body ≡ send_fragment f
  pub offset : d.fragment_offset ≡ c.fragment_offset
  pub size : d.fragment_length ≡ c.fragment_length
  pub packet : d.packet ≡ c.packet

-- `ds` are the commands `cs` in their order, under the numbers behind `n`, modulo 2 ^ 16.
unfoldable pub AreNumbered : ℕ → List OutgoingCommand → List OutgoingCommand → Type 0
AreNumbered n [] [] = Unit
AreNumbered n [] (d ∷ ds) = ⊥
AreNumbered n (c ∷ cs) [] = ⊥
AreNumbered n (c ∷ cs) (d ∷ ds) = IsNumbered (u16 (n + 1)) c d × AreNumbered (u16 (n + 1)) cs ds

number_command-reliable :
    (c : OutgoingCommand) (p : Peer) (ch : Channel)
    → c.command.channel_id < 255
    → Command.is_acknowledged c.command.header.command ≡ true
    → get_elem? p.channels c.command.channel_id ≡ some ch
    → number_command c p
      ≡ some (
        (number_reliable ch c).1,
        record p { channels = set p.channels c.command.channel_id (number_reliable ch c).0 },
      )
unfolding number_command number_on
number_command-reliable c p ch own asks there =
    let other : (c.command.channel_id == 255) ≡ false = ground arith in
    rw (other, asks, there, number_on) refl

-- One command more in the queue, `c` with the number behind `n`.
pub record Advanced (i n : ℕ) (c : OutgoingCommand) (p p' : Peer) : Type 0 where
  pub d : OutgoingCommand
  pub queued : p'.queues.outgoing_reliable_commands ≡ p.queues.outgoing_reliable_commands ++ d ∷ []
  pub numbered : IsNumbered (u16 (n + 1)) c d
  pub ch : Channel
  pub there : get_elem? p'.channels i ≡ some ch
  pub last : ch.outgoing_reliable_sequence_number ≡ u16 (n + 1)

-- The command as append_outgoing puts it in the queue.
abbrev queued_as : OutgoingCommand → ℕ → OutgoingCommand
queued_as c group = record c {
  send_attempts = 0;
  sent_time = 0;
  round_trip_timeout = 0;
  round_trip_timeout_limit = 0;
  command = record {
    header = record c.command.header { reliable_sequence_number = c.reliable_sequence_number };
    body = stamp c.unreliable_sequence_number group c.command.body;
  };
}

stamp-fragment :
    (unreliable group : ℕ) (b : Body) (f : Fragment)
    → b ≡ send_fragment f
    → stamp unreliable group b ≡ send_fragment f
unfolding stamp
stamp-fragment unreliable group b f e = ap (stamp unreliable group) e

setup-Advanced :
    (c : OutgoingCommand) (p p' : Peer) (ch : Channel)
    → c.command.channel_id < 255
    → Command.is_acknowledged c.command.header.command ≡ true
    → get_elem? p.channels c.command.channel_id ≡ some ch
    → setup_outgoing_command c p ≡ some p'
    → Advanced c.command.channel_id ch.outgoing_reliable_sequence_number c p p'
unfolding setup_outgoing_command append_outgoing number_reliable
setup-Advanced c p p' ch own asks there e =
    let total = u32 (
      p.bandwidth.outgoing_data_total
      + command_size c.command.header.command
      + c.fragment_length) in
    let q : Peer = record p { bandwidth = record p.bandwidth { outgoing_data_total = total } } in
    let done : Peer =
      append_outgoing (number_reliable ch c).1
        (record q { channels = set p.channels c.command.channel_id (number_reliable ch c).0 }) in
    let step : setup_outgoing_command c p ≡ some done =
      rw (number_command-reliable c q ch own asks there, setup_outgoing_command) refl in
    let ends : p' ≡ done = some-injective _ _ (sym e ∙ step) in
    subst (Advanced c.command.channel_id ch.outgoing_reliable_sequence_number c p) (sym ends)
      (record {
        d = queued_as (number_reliable ch c).1 q.outgoing_unsequenced_group;
        queued = rw asks refl;
        numbered = record {
          number = refl;
          in_header = refl;
          unsent = refl;
          command = refl;
          channel = refl;
          fragment = λ f e. stamp-fragment 0 q.outgoing_unsequenced_group c.command.body f e;
          offset = refl;
          size = refl;
          packet = refl;
        };
        ch = (number_reliable ch c).0;
        there = get_elem?-set p.channels c.command.channel_id _ there;
        last = refl;
      })

setup-on :
    (i : ℕ) (c : OutgoingCommand) (p p' : Peer) (ch : Channel)
    → i < 255
    → IsReliableOn i c
    → get_elem? p.channels i ≡ some ch
    → setup_outgoing_command c p ≡ some p'
    → Advanced i ch.outgoing_reliable_sequence_number c p p'
setup-on i c p p' ch own is there e =
    subst (λ j. Advanced j ch.outgoing_reliable_sequence_number c p p') is.channel
      (setup-Advanced c p p' ch (subst (λ j. j < 255) (sym is.channel) own) is.acknowledged
        (ap (get_elem? p.channels) is.channel ∙ there) e)

none-some : {q : Peer} → none ≡ some q → ⊥
none-some e = cc

setup_all-step :
    (c : OutgoingCommand) (cs : List OutgoingCommand) (p : Peer) (o : Option Peer)
    → setup_outgoing_command c p ≡ o
    → setup_all (c ∷ cs) p ≡ elim o [ none ↦ none | some q ↦ setup_all cs q ]
unfolding setup_all
setup_all-step c cs p o made = rw (made, setup_all) refl

-- The commands of one channel below 255 that are set up one after the other, all of them to be
-- acknowledged, join the end of the queue in their order: each is not yet sent, for its channel, with its
-- fragment, if it is one, and its part of its packet, under the numbers that follow the channel's modulo
-- 2 ^ 16, in its record as in its header.
pub setup_all-numbers :
    (i : ℕ) (cs : List OutgoingCommand) (p p' : Peer) (ch : Channel)
    → i < 255
    → All (IsReliableOn i) cs
    → get_elem? p.channels i ≡ some ch
    → setup_all cs p ≡ some p'
    → (ds : List OutgoingCommand) × (p'.queues.outgoing_reliable_commands
        ≡ p.queues.outgoing_reliable_commands ++ ds)
      × AreNumbered ch.outgoing_reliable_sequence_number cs ds
unfolding setup_all AreNumbered
setup_all-numbers i [] p p' ch own all there e = (
  [],
  ap (λ u. u.queues.outgoing_reliable_commands) (some-injective p' p (sym e)) ∙ sym (append-nil _),
  tt,
)
setup_all-numbers i (c ∷ cs) p p' ch own all there e =
    elim (Option-cases (setup_outgoing_command c p)) [
      | inl out ↦ absurd (none-some (sym (setup_all-step c cs p none out) ∙ e))
      | inr (q, made) ↦
          let one = setup-on i c p q ch own all.0 there made in
          let rest : setup_all cs q ≡ some p' = sym (setup_all-step c cs p (some q) made) ∙ e in
          let (ds, queued, numbered) =
            setup_all-numbers i cs q p' one.ch own all.1 one.there rest in
          (
            one.d ∷ ds,
            queued
                ∙ ap (λ xs. xs ++ ds) one.queued
                ∙ append_assoc p.queues.outgoing_reliable_commands (one.d ∷ []) ds,
            (one.numbered, subst (λ n. AreNumbered n cs ds) one.last numbered),
          )
    ]
