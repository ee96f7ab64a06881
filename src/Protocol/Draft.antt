-- ===== src/Protocol/Draft.antt =====
-- toxtun/protocol.c: the datagram that a host puts together, host -> commands and host -> buffers.
use toxsh.Prelude.{
  ℕ, ◌-◌, ◌+◌, ◌%◌, ◌≤◌, ◌<◌, ◌≡◌, Bool, true, false, not, ◌||◌, ltb, leb, List, [], ◌∷◌, ◌++◌,
  Option, none, some, length, length-append, arith,
}
use toxsh.Wire.{Protocol, maximum_packet_commands}

-- The commands so far, how many buffers they take with their data, host -> packetSize,
-- host -> continueSending, and whether host -> headerFlags asks for the time.
pub record Draft : Type 0 where
  pub commands : List Protocol
  pub buffer_count : ℕ
  pub packet_size : ℕ
  pub continue_sending : Bool
  pub has_sent_time : Bool

-- ENET_BUFFER_MAXIMUM
abbrev pub buffer_maximum : ℕ
buffer_maximum = 65

-- `peer -> mtu - host -> packetSize`, a size_t.
unfoldable pub room_left : ℕ → Draft → ℕ
room_left mtu d = (mtu + 18446744073709551616 - d.packet_size) % 18446744073709551616

-- The length of the data that goes out behind a command, 0 without a packet.
unfoldable pub data_size : Option ℕ → ℕ
data_size none = 0
data_size (some n) = n

-- The test for an acknowledgement.
unfoldable pub takes_acknowledgement : ℕ → Draft → Bool
unfolding room_left
takes_acknowledgement mtu d = not (
    leb maximum_packet_commands (length d.commands)
    || leb buffer_maximum d.buffer_count
    || ltb (room_left mtu d) 8)

-- The test for an unreliable command of `size` bytes with the data of its packet, if any.
unfoldable pub takes_unreliable : ℕ → ℕ → Option ℕ → Draft → Bool
unfolding room_left data_size
takes_unreliable mtu size data_ d = not (
    leb maximum_packet_commands (length d.commands)
    || leb buffer_maximum (d.buffer_count + 1)
    || ltb (room_left mtu d) size
    || ltb (room_left mtu d) (size + data_size data_))

-- The test for a reliable command, whose second comparison is one of 16 bits.
unfoldable pub takes_reliable : ℕ → ℕ → Option ℕ → Draft → Bool
unfolding room_left
takes_reliable mtu size data_ d =
    let narrow : Bool = elim data_ [
      | none ↦ false
      | some n ↦ ltb (room_left mtu d % 65536) ((size + n) % 65536)
    ] in
    not (
      leb maximum_packet_commands (length d.commands)
      || leb buffer_maximum (d.buffer_count + 1)
      || ltb (room_left mtu d) size
      || narrow)

-- A command of `size` bytes in the datagram, with its data.
unfoldable pub put : Protocol → ℕ → Option ℕ → Draft → Draft
unfolding data_size
put command size data_ d = record d {
  commands = d.commands ++ command ∷ [];
  buffer_count = elim data_ [ none ↦ d.buffer_count + 1 | some n ↦ d.buffer_count + 2 ];
  packet_size = d.packet_size + size + data_size data_;
}

-- A datagram that fits the MTU, the commands of a host and its buffers.
pub record IsSendable (mtu : ℕ) (d : Draft) : Type 0 where
  pub size : d.packet_size ≤ mtu
  pub commands : length d.commands ≤ 32
  pub buffers : d.buffer_count ≤ 65

module _ (mtu : ℕ) (narrow : mtu < 65536) (command : Protocol) (d : Draft)
    (fits : IsSendable mtu d) where
  pub put_acknowledgement-IsSendable :
      takes_acknowledgement mtu d ≡ true → IsSendable mtu (put command 8 none d)
  unfolding takes_acknowledgement room_left put data_size
  put_acknowledgement-IsSendable h =
      let a = fits.size in
      let b = fits.commands in
      let c = fits.buffers in
      let l = length-append d.commands (command ∷ []) in
      record { size = ground arith; commands = ground (arith, l); buffers = ground arith }

  pub put_unreliable-IsSendable :
      (size : ℕ) (data_ : Option ℕ)
      → size + data_size data_ < 65536
      → takes_unreliable mtu size data_ d ≡ true
      → IsSendable mtu (put command size data_ d)
  unfolding takes_unreliable room_left put data_size
  put_unreliable-IsSendable size none small h =
      let a = fits.size in
      let b = fits.commands in
      let c = fits.buffers in
      let l = length-append d.commands (command ∷ []) in
      record { size = ground arith; commands = ground (arith, l); buffers = ground arith }
  put_unreliable-IsSendable size (some n) small h =
      let a = fits.size in
      let b = fits.commands in
      let c = fits.buffers in
      let l = length-append d.commands (command ∷ []) in
      record { size = ground arith; commands = ground (arith, l); buffers = ground arith }

  pub put_reliable-IsSendable :
      (size : ℕ) (data_ : Option ℕ)
      → size + data_size data_ < 65536
      → takes_reliable mtu size data_ d ≡ true
      → IsSendable mtu (put command size data_ d)
  unfolding takes_reliable room_left put data_size
  put_reliable-IsSendable size none small h =
      let a = fits.size in
      let b = fits.commands in
      let c = fits.buffers in
      let l = length-append d.commands (command ∷ []) in
      record { size = ground arith; commands = ground (arith, l); buffers = ground arith }
  put_reliable-IsSendable size (some n) small h =
      let a = fits.size in
      let b = fits.commands in
      let c = fits.buffers in
      let l = length-append d.commands (command ∷ []) in
      record { size = ground arith; commands = ground (arith, l); buffers = ground arith }
