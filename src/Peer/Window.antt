-- ===== src/Peer/Window.antt =====
-- The reliable windows of toxtun/peer.c: the sequence numbers are cut in 16 windows of 4096, and a
-- receiver takes what lies in the seven windows from its own on.
use toxsh.Prelude.{
  ℕ, ◌+◌, ◌-◌, ◌/◌, ◌%◌, ◌<◌, ◌≤◌, ◌≡◌, ◌↔◌, ◌⊎◌, Bool, true, not, ◌&&◌, ◌||◌, ltb, leb, arith,
  if◌then◌else◌, sub16,
}

-- ENET_PEER_RELIABLE_WINDOW_SIZE, ENET_PEER_RELIABLE_WINDOWS, ENET_PEER_FREE_RELIABLE_WINDOWS
abbrev pub reliable_window_size : ℕ
reliable_window_size = 0x1000

abbrev pub reliable_windows : ℕ
reliable_windows = 16

abbrev pub free_reliable_windows : ℕ
free_reliable_windows = 8

-- `reliableWindow`: the window of `number`, counted on past the last where it is behind `incoming`.
unfoldable pub reliable_window : ℕ → ℕ → ℕ
reliable_window incoming number =
    number / reliable_window_size + (if ltb number incoming then reliable_windows else 0)

-- The guard of enet_peer_queue_incoming_command and of the fragment handlers, as what passes.
unfoldable pub is_in_window : ℕ → ℕ → Bool
unfolding reliable_window
is_in_window incoming number =
    let window = reliable_window incoming number in
    let current = incoming / reliable_window_size in
    not (ltb window current || leb (current + free_reliable_windows - 1) window)

-- The guard of enet_peer_queue_acknowledgement, as what passes.
unfoldable pub is_acknowledgeable : ℕ → ℕ → Bool
unfolding reliable_window
is_acknowledgeable incoming number =
    let window = reliable_window incoming number in
    let current = incoming / reliable_window_size in
    not (
      leb (current + free_reliable_windows - 1) window
      && leb window (current + free_reliable_windows))

-- A number of 16 bits is taken exactly when it is ahead of the channel's, modulo 2 ^ 16, by so little
-- that it lies before the end of the seventh window, counted from the channel's own on.
pub is_in_window_iff :
    (incoming number : ℕ)
    → incoming < 65536
    → number < 65536
    → (is_in_window incoming number ≡ true) ↔ (incoming % 4096 + sub16 number incoming < 28672)
unfolding is_in_window
is_in_window_iff incoming number hi hn = ground arith

-- Let a channel of the 16-bit number `old` take a number, and let it go on to `new`, which is `old` or a
-- number that it could take then. Then the number passes the guard of enet_peer_queue_acknowledgement on
-- the channel at `new`, be it behind `new` or still ahead.
pub is_acknowledgeable_of_in_window :
    (old new number : ℕ)
    → old < 65536
    → new < 65536
    → number < 65536
    → is_in_window old new ≡ true
    → is_in_window old number ≡ true
    → is_acknowledgeable new number ≡ true
unfolding is_in_window is_acknowledgeable
is_acknowledgeable_of_in_window old new number ho hc hn h h' = ground arith

-- A number of 16 bits fails the guard of enet_peer_queue_acknowledgement exactly when it lies, modulo
-- 2 ^ 16, in the eighth or ninth window, counted from the channel's own on.
pub is_acknowledgeable_iff :
    (incoming number : ℕ)
    → incoming < 65536
    → number < 65536
    → (is_acknowledgeable incoming number ≡ true) ↔ (
        (incoming % 4096 + sub16 number incoming < 28672)
        ⊎ (36864 ≤ incoming % 4096 + sub16 number incoming))
unfolding is_acknowledgeable
is_acknowledgeable_iff incoming number hi hn = ground arith
