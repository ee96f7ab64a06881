-- ===== src/Protocol/Receive/Leaves.antt =====
-- toxtun/protocol.c: how many bytes of a datagram the handlers that take data leave behind.
use mathlib.Core.List.{reverse}
use toxsh.Prelude.{
  ℕ, ◌≤◌, Bool, true, false, List, Option, none, some, length, drop, length-drop, if◌then◌else◌,
  get_elem?, get_or, arith,
}
use toxsh.Wire.{Protocol, Fragment}
use toxsh.State.{Site}
use toxsh.Peer.Queue.{QueueAllocation, Queued, queued, dummy, failed}
use toxsh.Protocol.Result.{Handled, done, error, fault}
use toxsh.Memory.{IncomingCommand}
use toxsh.State.{Channel}
use toxsh.Protocol.Fragment.{
  record_fragment, record_at, after_queue, place_fragment, find_command, find_start, Start, found,
  mismatch, missing, handle_send_fragment,
}
use toxsh.Protocol.UnreliableFragment.{
  record_unreliable, record_unreliable_at, after_unreliable_queue, place_unreliable_fragment,
  find_unreliable_start, handle_send_unreliable_fragment,
}
use toxsh.Protocol.Data.{
  with_data, after_queueing, after_unsequenced, unsequenced_in, handle_send_reliable,
  handle_send_unreliable, handle_send_unsequenced,
}

-- A handler that goes on leaves at most `n` bytes.
unfoldable pub Leaves : ℕ → Handled → Type 0
Leaves n (done rest s) = length rest ≤ n
Leaves n (error rest s) = Unit
Leaves n fault = Unit

after_queueing-Leaves :
    (n : ℕ) (rest : List ℕ) (q : Queued × Site) → length rest ≤ n → Leaves n (after_queueing rest q)
unfolding Leaves after_queueing
after_queueing-Leaves n rest (queued address, s) h = h
after_queueing-Leaves n rest (dummy, s) h = h
after_queueing-Leaves n rest (failed, s) h = tt

after_unsequenced-Leaves :
    (group n : ℕ) (rest : List ℕ) (q : Queued × Site)
    → length rest ≤ n
    → Leaves n (after_unsequenced group rest q)
unfolding Leaves after_unsequenced
after_unsequenced-Leaves group n rest (queued address, s) h = h
after_unsequenced-Leaves group n rest (dummy, s) h = h
after_unsequenced-Leaves group n rest (failed, s) h = tt

pub choose-Leaves :
    (n : ℕ) (b : Bool) (h h' : Handled) → Leaves n h → Leaves n h' → Leaves n (if b then h else h')
choose-Leaves n true h h' l l' = l
choose-Leaves n false h h' l l' = l'

length-behind : (n : ℕ) (xs : List ℕ) → length (drop n xs) ≤ length xs
length-behind n xs = omega (arith, length-drop n xs)

with_data-Leaves :
    (c : Protocol) (n : ℕ) (payload : List ℕ) (s : Site) (handle : List ℕ → Handled)
    → Leaves (length payload) (handle (drop n payload))
    → Leaves (length payload) (with_data c n payload s handle)
unfolding with_data Leaves
with_data-Leaves c n payload s handle h = search choose-Leaves

unsequenced_in-Leaves :
    (alloc : QueueAllocation) (c : Protocol) (group n : ℕ) (payload : List ℕ) (s : Site)
    (rest : List ℕ)
    → length rest ≤ length payload
    → Leaves (length payload) (unsequenced_in alloc c group n payload s rest)
unfolding unsequenced_in Leaves
unsequenced_in-Leaves alloc c group n payload s rest h =
    search (choose-Leaves, after_unsequenced-Leaves)

option-Leaves {ℓ} :
    {A : Type ℓ} (n : ℕ) (o : Option A) (z : Handled) (f : A → Handled)
    → Leaves n z
    → ((a : A) → Leaves n (f a))
    → Leaves n (elim o [ none ↦ z | some a ↦ f a ])
option-Leaves n none z f h l = h
option-Leaves n (some a) z f h l = l a

-- The ends of the handlers of fragments: a search among the commands, and a queueing.
record_fragment-Leaves :
    (f : Fragment) (payload rest : List ℕ) (n i : ℕ) (ch : Channel) (c : IncomingCommand) (s : Site)
    → length rest ≤ n
    → Leaves n (record_fragment f payload rest i ch c s)
unfolding record_fragment Leaves
record_fragment-Leaves f payload rest n i ch c s h =
    option-Leaves n c.fragments fault _ tt
      (λ bits. choose-Leaves n (get_or bits f.fragment_number false) _ _ h h)

record_at-Leaves :
    (f : Fragment) (payload rest : List ℕ) (n i address : ℕ) (s : Site)
    → length rest ≤ n
    → Leaves n (record_at f payload rest i address s)
unfolding record_at Leaves
record_at-Leaves f payload rest n i address s h =
    option-Leaves n (get_elem? s.peer.channels i) fault _ tt (λ ch.
      option-Leaves n (find_command address ch.incoming_reliable_commands) fault _ tt
        (λ c. record_fragment-Leaves f payload rest n i ch c s h))

record_unreliable-Leaves :
    (f : Fragment) (payload rest : List ℕ) (n i : ℕ) (ch : Channel) (c : IncomingCommand) (s : Site)
    → length rest ≤ n
    → Leaves n (record_unreliable f payload rest i ch c s)
unfolding record_unreliable Leaves
record_unreliable-Leaves f payload rest n i ch c s h =
    option-Leaves n c.fragments fault _ tt
      (λ bits. choose-Leaves n (get_or bits f.fragment_number false) _ _ h h)

record_unreliable_at-Leaves :
    (f : Fragment) (payload rest : List ℕ) (n i address : ℕ) (s : Site)
    → length rest ≤ n
    → Leaves n (record_unreliable_at f payload rest i address s)
unfolding record_unreliable_at Leaves
record_unreliable_at-Leaves f payload rest n i address s h =
    option-Leaves n (get_elem? s.peer.channels i) fault _ tt (λ ch.
      option-Leaves n (find_command address ch.incoming_unreliable_commands) fault _ tt
        (λ c. record_unreliable-Leaves f payload rest n i ch c s h))

after_queue-Leaves :
    (f : Fragment) (payload rest : List ℕ) (n i : ℕ) (q : Queued × Site)
    → length rest ≤ n
    → Leaves n (after_queue f payload rest i q)
unfolding after_queue Leaves
after_queue-Leaves f payload rest n i (queued address, s) h =
    record_at-Leaves f payload rest n i address s h
after_queue-Leaves f payload rest n i (dummy, s) h = tt
after_queue-Leaves f payload rest n i (failed, s) h = tt

after_unreliable_queue-Leaves :
    (f : Fragment) (payload rest : List ℕ) (n i : ℕ) (q : Queued × Site)
    → length rest ≤ n
    → Leaves n (after_unreliable_queue f payload rest i q)
unfolding after_unreliable_queue Leaves
after_unreliable_queue-Leaves f payload rest n i (queued address, s) h =
    record_unreliable_at-Leaves f payload rest n i address s h
after_unreliable_queue-Leaves f payload rest n i (dummy, s) h = tt
after_unreliable_queue-Leaves f payload rest n i (failed, s) h = tt

start-Leaves :
    (n : ℕ) (start : Start) (h : ℕ → Handled) (h' h'' : Handled)
    → ((address : ℕ) → Leaves n (h address))
    → Leaves n h'
    → Leaves n h''
    → Leaves n (elim start [ found address ↦ h address | mismatch ↦ h' | missing ↦ h'' ])
start-Leaves n (found address) h h' h'' l l' l'' = l address
start-Leaves n mismatch h h' h'' l l' l'' = l'
start-Leaves n missing h h' h'' l l' l'' = l''

place_fragment-Leaves :
    (alloc : QueueAllocation) (c : Protocol) (f : Fragment) (payload rest : List ℕ) (n : ℕ)
    (ch : Channel) (i : ℕ) (s : Site)
    → length rest ≤ n
    → Leaves n (place_fragment alloc c f payload rest ch i s)
unfolding place_fragment Leaves
place_fragment-Leaves alloc c f payload rest n ch i s h =
    start-Leaves n
      (find_start ch.incoming_reliable_sequence_number f (reverse ch.incoming_reliable_commands)) _
      _ _ (λ address. record_at-Leaves f payload rest n i address s h) tt
      (search after_queue-Leaves)

place_unreliable_fragment-Leaves :
    (alloc : QueueAllocation) (c : Protocol) (f : Fragment) (payload rest : List ℕ) (n : ℕ)
    (ch : Channel) (i : ℕ) (s : Site)
    → length rest ≤ n
    → Leaves n (place_unreliable_fragment alloc c f payload rest ch i s)
unfolding place_unreliable_fragment Leaves
place_unreliable_fragment-Leaves alloc c f payload rest n ch i s h =
    start-Leaves n
      (find_unreliable_start ch.incoming_reliable_sequence_number c.reliable_sequence_number f
        (reverse ch.incoming_unreliable_commands))
      _ _ _ (λ address. record_unreliable_at-Leaves f payload rest n i address s h) tt
      (search after_unreliable_queue-Leaves)

pub handle_send_fragment-Leaves :
    (alloc : QueueAllocation) (c : Protocol) (f : Fragment) (payload : List ℕ) (s : Site)
    → Leaves (length payload) (handle_send_fragment alloc c f payload s)
unfolding handle_send_fragment Leaves
handle_send_fragment-Leaves alloc c f payload s =
    let less = length-behind f.data_length payload in
    option-Leaves (length payload) (get_elem? s.peer.channels c.channel_id) (error payload s) _ tt
      (λ ch. search (choose-Leaves, place_fragment-Leaves))

pub handle_send_unreliable_fragment-Leaves :
    (alloc : QueueAllocation) (c : Protocol) (f : Fragment) (payload : List ℕ) (s : Site)
    → Leaves (length payload) (handle_send_unreliable_fragment alloc c f payload s)
unfolding handle_send_unreliable_fragment Leaves
handle_send_unreliable_fragment-Leaves alloc c f payload s =
    let less = length-behind f.data_length payload in
    option-Leaves (length payload) (get_elem? s.peer.channels c.channel_id) (error payload s) _ tt
      (λ ch. search (choose-Leaves, place_unreliable_fragment-Leaves))

pub handle_send_reliable-Leaves :
    (alloc : QueueAllocation) (c : Protocol) (n : ℕ) (payload : List ℕ) (s : Site)
    → Leaves (length payload) (handle_send_reliable alloc c n payload s)
unfolding handle_send_reliable
handle_send_reliable-Leaves alloc c n payload s =
    let less = length-behind n payload in search (with_data-Leaves, after_queueing-Leaves)

pub handle_send_unreliable-Leaves :
    (alloc : QueueAllocation) (c : Protocol) (n : ℕ) (payload : List ℕ) (s : Site)
    → Leaves (length payload) (handle_send_unreliable alloc c n payload s)
unfolding handle_send_unreliable
handle_send_unreliable-Leaves alloc c n payload s =
    let less = length-behind n payload in search (with_data-Leaves, after_queueing-Leaves)

pub handle_send_unsequenced-Leaves :
    (alloc : QueueAllocation) (c : Protocol) (group n : ℕ) (payload : List ℕ) (s : Site)
    → Leaves (length payload) (handle_send_unsequenced alloc c group n payload s)
unfolding handle_send_unsequenced
handle_send_unsequenced-Leaves alloc c group n payload s =
    let less = length-behind n payload in search (with_data-Leaves, unsequenced_in-Leaves)
