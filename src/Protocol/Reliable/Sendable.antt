-- ===== src/Protocol/Reliable/Sendable.antt =====
-- Reliable commands in a datagram.
use toxsh.Prelude.{ℕ, ◌<◌, true, false, List, [], ◌∷◌, Bool-cases, All, inl, inr}
use toxsh.Wire.{command_size}
use toxsh.Memory.{OutgoingCommand}
use toxsh.State.{Site}
use toxsh.Protocol.Draft.{Draft, IsSendable, takes_reliable, put_reliable-IsSendable}
use toxsh.Protocol.Transmit.{data_of}
use toxsh.Protocol.Transmit.Sendable.{IsShort}
use toxsh.Protocol.Reliable.{
  Flow, flow, transmit, is_wrapped, is_exceeded, send_reliable_outgoing_commands,
}

flow-IsSendable :
    (now : ℕ) (cs : List OutgoingCommand) (w : Flow)
    → w.peer.mtu < 65536
    → All IsShort cs
    → IsSendable w.peer.mtu w.draft
    → IsSendable w.peer.mtu (flow now cs w).0.draft
unfolding flow transmit
flow-IsSendable now [] w narrow short h = h
flow-IsSendable now (c ∷ cs) w narrow short h = elim (Bool-cases (is_wrapped w c)) [
  | inl wrapped ↦
      rw wrapped (flow-IsSendable now cs (record w { window_wrap = true }) narrow short.1 h)
  | inr ahead ↦ elim (Bool-cases (is_exceeded w c)) [
    | inl exceeded ↦
        rw (ahead, exceeded)
          (flow-IsSendable now cs (record w { window_exceeded = true }) narrow short.1 h)
    | inr within ↦
        elim (Bool-cases
          (takes_reliable w.peer.mtu (command_size c.command.header.command) (data_of c) w.draft)) [
            | inl takes ↦
                let more =
                  put_reliable-IsSendable w.peer.mtu narrow c.command w.draft h
                    (command_size c.command.header.command) (data_of c) short.0 takes in
                rw (ahead, within, takes)
                  (flow-IsSendable now cs (transmit now c w) narrow short.1
                    (record { size = more.size; commands = more.commands; buffers = more.buffers }))
            | inr full ↦
                rw (ahead, within, full)
                  (record { size = h.size; commands = h.commands; buffers = h.buffers })
          ]
  ]
]

-- A peer of an MTU below 2 ^ 16, whose reliable commands have with their data a size below 2 ^ 16: what
-- is put in a datagram that fits the MTU, the 32 commands and the 65 buffers of a host leaves it so.
pub send_reliable_outgoing_commands-IsSendable :
    (d : Draft) (s : Site)
    → s.peer.mtu < 65536
    → All IsShort s.peer.queues.outgoing_reliable_commands
    → IsSendable s.peer.mtu d
    → IsSendable s.peer.mtu (send_reliable_outgoing_commands d s).1
unfolding send_reliable_outgoing_commands
send_reliable_outgoing_commands-IsSendable d s narrow short h =
    flow-IsSendable s.host.service_time s.peer.queues.outgoing_reliable_commands
      (record {
        draft = d;
        peer = s.peer;
        window_exceeded = false;
        window_wrap = false;
        can_ping = true;
      })
      narrow short h
