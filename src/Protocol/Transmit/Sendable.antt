-- ===== src/Protocol/Transmit/Sendable.antt =====
-- The datagrams that a host puts together fit the MTU of the peer, the host's commands and its buffers.
use toxsh.Prelude.{
  ◌==◌, ◌&&◌, ℕ, ◌+◌, ◌<◌, ◌≡◌, refl, ap, ◌∙◌, Bool, true, false, List, [], ◌∷◌, Option, none, some,
  if◌then◌else◌, Bool-cases, All, inl, inr, subst, sym, arith,
}
use toxsh.Wire.{command_size}
use toxsh.Wire.Command
use toxsh.Memory.{Acknowledgement, OutgoingCommand}
use toxsh.State.{Site, PeerState, zombie}
use toxsh.Peer.Connection.{dispatch_state, change_state, on_connect, on_disconnect, link_dispatch}
use toxsh.Peer.Queue.{is_disconnect_later}
use toxsh.Peer.Disconnect.{is_drained, peer_disconnect}
use toxsh.Protocol.Draft.{
  Draft, IsSendable, takes_acknowledgement, takes_unreliable, put, data_size,
  put_acknowledgement-IsSendable, put_unreliable-IsSendable,
}
use toxsh.Protocol.Transmit.{
  acknowledge_all, acknowledging, end_acknowledged, send_acknowledgements, Sweep, sweep, send_one,
  data_of, next_counter, is_throttled, is_dropped_with, after_sweep,
  send_unreliable_outgoing_commands,
}

stopped :
    (mtu : ℕ) (d : Draft) → IsSendable mtu d → IsSendable mtu (record d { continue_sending = true })
stopped mtu d h = record { size = h.size; commands = h.commands; buffers = h.buffers }

dispatch_state-mtu : (state : PeerState) (s : Site) → (dispatch_state state s).peer.mtu ≡ s.peer.mtu
unfolding dispatch_state change_state on_connect on_disconnect link_dispatch
dispatch_state-mtu state s = ground arith

end_acknowledged-mtu :
    (a : Acknowledgement) (s : Site) → (end_acknowledged a s).peer.mtu ≡ s.peer.mtu
unfolding end_acknowledged
end_acknowledged-mtu a s =
    elim (Bool-cases (Command.number a.command.header.command == Command.disconnect)) [
      | inl ends ↦ rw ends (dispatch_state-mtu zombie s)
      | inr goes ↦ rw goes
    ]

acknowledge_all-IsSendable :
    (mtu : ℕ) (queue : List Acknowledgement) (d : Draft) (s : Site)
    → mtu < 65536
    → s.peer.mtu ≡ mtu
    → IsSendable mtu d
    → IsSendable mtu (acknowledge_all queue d s).0
unfolding acknowledge_all
acknowledge_all-IsSendable mtu [] d s narrow same h = h
acknowledge_all-IsSendable mtu (a ∷ queue) d s narrow same h =
    elim (Bool-cases (takes_acknowledgement s.peer.mtu d)) [
      | inl takes ↦ rw takes (
          acknowledge_all-IsSendable mtu queue (put (acknowledging a) 8 none d)
            (end_acknowledged a s) narrow (end_acknowledged-mtu a s ∙ same)
            (put_acknowledgement-IsSendable mtu narrow (acknowledging a) d h
              (ap (λ n. takes_acknowledgement n d) (sym same) ∙ takes)))
      | inr full ↦ rw full (stopped mtu d h)
    ]

-- The data of a command is short enough for 16 bits with the command itself.
abbrev pub IsShort : OutgoingCommand → Type 0
IsShort c = command_size c.command.header.command + data_size (data_of c) < 65536

sweep-IsSendable :
    (throttle mtu : ℕ) (dropping : Option (ℕ × ℕ)) (cs : List OutgoingCommand) (w : Sweep)
    → mtu < 65536
    → All IsShort cs
    → IsSendable mtu w.draft
    → IsSendable mtu (sweep throttle mtu dropping cs w).0.draft
unfolding sweep
sweep-IsSendable throttle mtu dropping [] w narrow short h = h
sweep-IsSendable throttle mtu dropping (c ∷ cs) w narrow short h =
    let counter = next_counter c w.counter in
    elim (Bool-cases (is_dropped_with dropping c)) [
      | inl dragged ↦ rw dragged (sweep-IsSendable throttle mtu dropping cs _ narrow short.1 h)
      | inr own ↦
          elim (Bool-cases
            (takes_unreliable mtu (command_size c.command.header.command) (data_of c) w.draft)) [
              | inl takes ↦ elim (Bool-cases (is_throttled c counter throttle)) [
                | inl drops ↦
                    rw (own, takes, drops) (sweep-IsSendable throttle mtu _ cs _ narrow short.1 h)
                | inr sends ↦
                    rw (own, takes, sends)
                      (sweep-IsSendable throttle mtu none cs
                        (send_one c (record w { counter = counter })) narrow short.1
                        (put_unreliable-IsSendable mtu narrow c.command w.draft h
                          (command_size c.command.header.command) (data_of c) short.0 takes))
              ]
              | inr full ↦ rw (own, full) (stopped mtu w.draft h)
            ]
    ]

-- A peer of an MTU below 2 ^ 16: the acknowledgements that are put in a datagram that fits the MTU, the
-- 32 commands and the 65 buffers of a host leave it so.
pub send_acknowledgements-IsSendable :
    (d : Draft) (s : Site)
    → s.peer.mtu < 65536
    → IsSendable s.peer.mtu d
    → IsSendable s.peer.mtu (send_acknowledgements d s).0
unfolding send_acknowledgements
send_acknowledgements-IsSendable d s narrow h =
    acknowledge_all-IsSendable s.peer.mtu s.peer.queues.acknowledgements d s narrow refl h

-- With an MTU below 2 ^ 16, a datagram that fits it, the 32 commands and the 65 buffers of a host still
-- does so once the unreliable commands of a peer are put in, whose size with their data is below 2 ^ 16.
pub send_unreliable_outgoing_commands-IsSendable :
    (alloc : Bool) (flush : Site → Site) (d d' : Draft) (s t : Site)
    → s.peer.mtu < 65536
    → All IsShort s.peer.queues.outgoing_unreliable_commands
    → IsSendable s.peer.mtu d
    → send_unreliable_outgoing_commands alloc flush d s ≡ some (d', t)
    → IsSendable s.peer.mtu d'
unfolding send_unreliable_outgoing_commands
send_unreliable_outgoing_commands-IsSendable alloc flush d d' s t narrow short h e =
    let start : Sweep = record {
      draft = d;
      counter = s.peer.throttle.packet_throttle_counter;
      store = s.packets;
      sent = s.peer.queues.sent_unreliable_commands;
    } in
    let swept =
      sweep s.peer.throttle.packet_throttle s.peer.mtu none
        s.peer.queues.outgoing_unreliable_commands start in
    let s' = after_sweep swept.0 swept.1 s in
    subst (IsSendable s.peer.mtu)
      (same_draft (is_disconnect_later s'.peer.state && is_drained s'.peer.queues) swept.0.draft s'
        (peer_disconnect alloc flush s'.peer.event_data s') e)
      (sweep-IsSendable s.peer.throttle.packet_throttle s.peer.mtu none
        s.peer.queues.outgoing_unreliable_commands start narrow short h)
  where
    same_draft :
        (b : Bool) (d₁ : Draft) (s₁ : Site) (o : Option Site)
        → if◌then◌else◌ {A = Option (Draft × Site)} b
            (elim o [ none ↦ none | some u ↦ some (d₁, u) ])
            (some (d₁, s₁))
          ≡ some (d', t)
        → d₁ ≡ d'
    same_draft true d₁ s₁ none q = absurd cc
    same_draft true d₁ s₁ (some u) q = cc
    same_draft false d₁ s₁ o q = cc
