-- ===== src/Tests/Delivery.antt =====
-- Reliable delivery on an example: message 2 comes before message 1.
use toxsh.Prelude.{
  List, ◌%◌, ◌+◌, ◌↔◌, true, sub16, ℕ, ◌≡◌, ◌≤◌, ◌⊎◌, ◌++◌, ◌<◌, refl, [], ◌∷◌, map, some, arith,
  length,
}
use toxsh.Memory.{IncomingCommand}
use toxsh.State.{Site}
use toxsh.Peer.Window.{
  is_in_window, is_acknowledgeable, is_in_window_iff, is_acknowledgeable_of_in_window,
  is_acknowledgeable_iff,
}
use toxsh.Peer.Dispatch.{reliable_run}
use toxsh.Peer.Dispatch.Order.{Consecutive, Waits, reliable_run-Consecutive}
use toxsh.Packet.{flag_reliable}
use toxsh.Peer.Queue.{queue_incoming_command, is_disconnect_later}
use toxsh.Peer.Queue.Stream.{Received, fresh, arrival, delivered_prefix}
use toxsh.Peer.Queue.Progress.{next_is_delivered}
use toxsh.Peer.Queue.Delivery.{Carries}
use toxsh.Peer.Messages.{stream}
use toxsh.Tests.Fixtures.{waiting_message, quiet_site, quiet_channel, ample, counting, message}

abbrev after : ℕ → Site → Site
after n s = (queue_incoming_command ample (message n) (some (counting n)) 2 flag_reliable 0 s).1

carries : (n : ℕ) → Carries counting 0 n (message n)
carries n = record { kind = refl; channel = refl; number = refl }

start : Received counting 0 quiet_site
start = fresh quiet_channel refl (record { incoming = refl; held = tt; no_unreliable = refl }) refl

abbrev second_first : Site
second_first = after 2 quiet_site

second_waits : length second_first.peer.dispatched_commands ≡ 0
unfolding queue_incoming_command
second_waits = refl

both_delivered :
    map (λ c. c.packet.content) (after 1 second_first).peer.dispatched_commands
    ≡ (some 1 ∷ some 2 ∷ []) ∷ (some 2 ∷ some 3 ∷ []) ∷ []
unfolding queue_incoming_command
both_delivered = refl

two_came : Received counting 0 (after 1 second_first)
unfolding queue_incoming_command
two_came =
    arrival (arrival start 2 ample (message 2) (carries 2) (omega arith) (omega arith)) 1 ample
      (message 1) (carries 1) (omega arith) (omega arith)

delivered_prefix_example :
    map (λ c. c.packet.content) (after 1 second_first).peer.dispatched_commands
    ≡ stream counting 0 (length (after 1 second_first).peer.dispatched_commands)
delivered_prefix_example = delivered_prefix counting 0 two_came

next_is_delivered_example : 0 < length (after 1 quiet_site).peer.dispatched_commands
next_is_delivered_example =
    next_is_delivered counting 0 quiet_site ample 100 (message 1) start (carries 1)
      (record { packet = refl; buffer = refl; command = refl }) (unfold is_disconnect_later in refl)
      (omega arith)

is_in_window_iff_example :
    (is_in_window 65000 500 ≡ true) ↔ (65000 % 4096 + sub16 500 65000 < 28672)
is_in_window_iff_example = is_in_window_iff 65000 500 (omega arith) (omega arith)

is_acknowledgeable_of_in_window_example : is_acknowledgeable 700 500 ≡ true
is_acknowledgeable_of_in_window_example =
    is_acknowledgeable_of_in_window 65000 700 500 (omega arith) (omega arith) (omega arith)
      (unfold is_in_window in refl) (unfold is_in_window in refl)

is_acknowledgeable_iff_example :
    (is_acknowledgeable 500 65000 ≡ true)
    ↔ ((500 % 4096 + sub16 65000 500 < 28672) ⊎ (36864 ≤ 500 % 4096 + sub16 65000 500))
is_acknowledgeable_iff_example = is_acknowledgeable_iff 500 65000 (omega arith) (omega arith)

abbrev waiting : List IncomingCommand
waiting = waiting_message 1 ∷ waiting_message 2 ∷ waiting_message 4 ∷ []

reliable_run-Consecutive_example :
    Consecutive 0 (reliable_run 0 waiting).taken (reliable_run 0 waiting).incoming
    × ((reliable_run 0 waiting).taken ++ (reliable_run 0 waiting).rest ≡ waiting)
    × Waits (reliable_run 0 waiting).incoming (reliable_run 0 waiting).rest
reliable_run-Consecutive_example = reliable_run-Consecutive 0 waiting
