-- ===== src/Wire/Layout.antt =====
-- toxtun/enetinc/enet/protocol.h: the packed structs of the commands, byte by byte. Numbers are sent
-- with the high byte first, but connectID is sent as it lies in memory, here with the low byte first.
pub mod Extent
pub mod Trip
use toxsh.Prelude.{
  ℕ, suc, ◌+◌, ◌*◌, ◌/◌, ◌%◌, ◌<◌, ◌≡◌, refl, List, [], ◌∷◌, ◌++◌, Option, none, some, All,
  get_elem?, arith, map, length,
}
use toxsh.Wire.{
  Protocol, CommandHeader, Body, Handshake, Fragment, acknowledge, connect, verify_connect,
  disconnect, ping, send_reliable, send_unreliable, send_unsequenced, send_fragment,
  bandwidth_limit, throttle_configure, command_size,
}
use toxsh.Wire.Command

-- enet_uint8, enet_uint16 and enet_uint32 in the order of the network, and enet_uint32 in the machine's.
pub data Kind : Type 0 where
  byte short long native : Kind

-- A field is its kind and its value.
abbrev pub Field : Type 0
Field = Kind × ℕ

unfoldable pub width : Kind → ℕ
width byte = 1
width short = 2
width long = 4
width native = 4

unfoldable pub put : Kind → ℕ → List ℕ
put byte n = n % 256 ∷ []
put short n = n / 256 % 256 ∷ n % 256 ∷ []
put long n = n / 16777216 % 256 ∷ n / 65536 % 256 ∷ n / 256 % 256 ∷ n % 256 ∷ []
put native n = n % 256 ∷ n / 256 % 256 ∷ n / 65536 % 256 ∷ n / 16777216 % 256 ∷ []

-- The value of a field at the front, and the bytes behind it.
unfoldable pub get : Kind → List ℕ → Option (ℕ × List ℕ)
get byte (a ∷ bs) = some (a, bs)
get short (a ∷ b ∷ bs) = some (256 * a + b, bs)
get long (a ∷ b ∷ c ∷ d ∷ bs) = some (16777216 * a + 65536 * b + 256 * c + d, bs)
get native (a ∷ b ∷ c ∷ d ∷ bs) = some (a + 256 * b + 65536 * c + 16777216 * d, bs)
get _ _ = none

unfoldable pub put_all : List Field → List ℕ
unfolding put
put_all [] = []
put_all ((k, n) ∷ fs) = put k n ++ put_all fs

unfoldable pub get_all : List Kind → List ℕ → Option (List ℕ × List ℕ)
unfolding get
get_all [] bs = some ([], bs)
get_all (k ∷ ks) bs = elim (get k bs) [
  | none ↦ none
  | some (n, rest) ↦ elim (get_all ks rest) [
    | none ↦ none
    | some (ns, rest') ↦ some (n ∷ ns, rest')
  ]
]

-- The fields of a header.
unfoldable pub header_fields : CommandHeader → List Field
header_fields h =
    (byte, h.command) ∷ (byte, h.channel_id) ∷ (short, h.reliable_sequence_number) ∷ []

-- The fields that the two handshakes share.
unfoldable pub handshake_fields : Handshake → List Field
handshake_fields h =
    (short, h.outgoing_peer_id)
    ∷ (byte, h.incoming_session_id)
    ∷ (byte, h.outgoing_session_id)
    ∷ (long, h.mtu)
    ∷ (long, h.window_size)
    ∷ (long, h.channel_count)
    ∷ (long, h.incoming_bandwidth)
    ∷ (long, h.outgoing_bandwidth)
    ∷ (long, h.packet_throttle_interval)
    ∷ (long, h.packet_throttle_acceleration)
    ∷ (long, h.packet_throttle_deceleration)
    ∷ (native, h.connect_id)
    ∷ []

unfoldable pub body_fields : Body → List Field
unfolding handshake_fields
body_fields (acknowledge n sent) = (short, n) ∷ (short, sent) ∷ []
body_fields (connect h data_) = handshake_fields h ++ (long, data_) ∷ []
body_fields (verify_connect h) = handshake_fields h
body_fields (disconnect data_) = (long, data_) ∷ []
body_fields ping = []
body_fields (send_reliable n) = (short, n) ∷ []
body_fields (send_unreliable number n) = (short, number) ∷ (short, n) ∷ []
body_fields (send_unsequenced group n) = (short, group) ∷ (short, n) ∷ []
body_fields (send_fragment f) =
    (short, f.start_sequence_number)
    ∷ (short, f.data_length)
    ∷ (long, f.fragment_count)
    ∷ (long, f.fragment_number)
    ∷ (long, f.total_length)
    ∷ (long, f.fragment_offset)
    ∷ []
body_fields (bandwidth_limit incoming outgoing) = (long, incoming) ∷ (long, outgoing) ∷ []
body_fields (throttle_configure interval acceleration deceleration) =
    (long, interval) ∷ (long, acceleration) ∷ (long, deceleration) ∷ []

-- A command as it goes out.
unfoldable pub encode : Protocol → List ℕ
unfolding header_fields body_fields put_all
encode c = put_all (header_fields c.header) ++ put_all (body_fields c.body)

-- The handshake of its values, and what is behind them.
unfoldable pub handshake_of : List ℕ → Option (Handshake × List ℕ)
handshake_of
      (peer ∷ incoming ∷ outgoing ∷ mtu ∷ window ∷ channels ∷ down ∷ up ∷ interval ∷ acc ∷ dec ∷ id
        ∷ ns) =
    some (
      record {
        outgoing_peer_id = peer;
        incoming_session_id = incoming;
        outgoing_session_id = outgoing;
        mtu = mtu;
        window_size = window;
        channel_count = channels;
        incoming_bandwidth = down;
        outgoing_bandwidth = up;
        packet_throttle_interval = interval;
        packet_throttle_acceleration = acc;
        packet_throttle_deceleration = dec;
        connect_id = id;
      },
      ns,
    )
handshake_of _ = none

unfoldable pub fragment_of : List ℕ → Option Fragment
fragment_of (start ∷ n ∷ count ∷ number ∷ total ∷ offset ∷ []) = some (record {
  start_sequence_number = start;
  data_length = n;
  fragment_count = count;
  fragment_number = number;
  total_length = total;
  fragment_offset = offset;
})
fragment_of _ = none

-- The bodies of their values.
unfoldable pub acknowledge_of : List ℕ → Option Body
acknowledge_of (n ∷ sent ∷ []) = some (acknowledge n sent)
acknowledge_of _ = none

unfoldable pub connect_of : List ℕ → Option Body
unfolding handshake_of
connect_of ns = elim (handshake_of ns) [ some (h, data_ ∷ []) ↦ some (connect h data_) | _ ↦ none ]

unfoldable pub verify_connect_of : List ℕ → Option Body
unfolding handshake_of
verify_connect_of ns = elim (handshake_of ns) [ some (h, []) ↦ some (verify_connect h) | _ ↦ none ]

unfoldable pub disconnect_of : List ℕ → Option Body
disconnect_of (data_ ∷ []) = some (disconnect data_)
disconnect_of _ = none

unfoldable pub ping_of : List ℕ → Option Body
ping_of [] = some ping
ping_of _ = none

unfoldable pub send_reliable_of : List ℕ → Option Body
send_reliable_of (n ∷ []) = some (send_reliable n)
send_reliable_of _ = none

unfoldable pub send_unreliable_of : List ℕ → Option Body
send_unreliable_of (number ∷ n ∷ []) = some (send_unreliable number n)
send_unreliable_of _ = none

unfoldable pub send_unsequenced_of : List ℕ → Option Body
send_unsequenced_of (group ∷ n ∷ []) = some (send_unsequenced group n)
send_unsequenced_of _ = none

unfoldable pub send_fragment_of : List ℕ → Option Body
unfolding fragment_of
send_fragment_of ns = elim (fragment_of ns) [ none ↦ none | some f ↦ some (send_fragment f) ]

unfoldable pub bandwidth_limit_of : List ℕ → Option Body
bandwidth_limit_of (incoming ∷ outgoing ∷ []) = some (bandwidth_limit incoming outgoing)
bandwidth_limit_of _ = none

unfoldable pub throttle_configure_of : List ℕ → Option Body
throttle_configure_of (interval ∷ acceleration ∷ deceleration ∷ []) =
    some (throttle_configure interval acceleration deceleration)
throttle_configure_of _ = none

abbrev handshake_kinds : List Kind
handshake_kinds =
    short ∷ byte ∷ byte ∷ long ∷ long ∷ long ∷ long ∷ long ∷ long ∷ long ∷ long ∷ native ∷ []

abbrev fragment_kinds : List Kind
fragment_kinds = short ∷ short ∷ long ∷ long ∷ long ∷ long ∷ []

-- The members of the union by their command numbers, from 1: the kinds of the fields, and the body.
unfoldable pub members : List (List Kind × (List ℕ → Option Body))
unfolding acknowledge_of connect_of verify_connect_of disconnect_of ping_of send_reliable_of
    send_unreliable_of send_unsequenced_of send_fragment_of bandwidth_limit_of throttle_configure_of
members =
    (short ∷ short ∷ [], acknowledge_of)
    ∷ (handshake_kinds ++ long ∷ [], connect_of)
    ∷ (handshake_kinds, verify_connect_of)
    ∷ (long ∷ [], disconnect_of)
    ∷ ([], ping_of)
    ∷ (short ∷ [], send_reliable_of)
    ∷ (short ∷ short ∷ [], send_unreliable_of)
    ∷ (fragment_kinds, send_fragment_of)
    ∷ (short ∷ short ∷ [], send_unsequenced_of)
    ∷ (long ∷ long ∷ [], bandwidth_limit_of)
    ∷ (long ∷ long ∷ long ∷ [], throttle_configure_of)
    ∷ (fragment_kinds, send_fragment_of)
    ∷ []

-- The body of a command, by the entry of its number in the table.
unfoldable pub decode_body :
    CommandHeader → List Kind × (List ℕ → Option Body) → List ℕ → Option (Protocol × List ℕ)
unfolding get_all
decode_body h (kinds, build) bytes = elim (get_all kinds bytes) [
  | none ↦ none
  | some (values, rest) ↦ elim (build values) [
    | none ↦ none
    | some body ↦ some (record { header = h; body = body }, rest)
  ]
]

-- The number 0 has no command, and those past the table have none.
unfoldable pub decode_behind : List ℕ → List ℕ → Option (Protocol × List ℕ)
unfolding members decode_body
decode_behind (command ∷ channel ∷ number ∷ []) bytes =
    elim (get_elem? (([], λ ns. none) ∷ members) (Command.number command)) [
      | none ↦ none
      | some member ↦
          decode_body
            (record { command = command; channel_id = channel; reliable_sequence_number = number })
            member bytes
    ]
decode_behind _ bytes = none

-- The command at the front of a datagram's rest, if it is there as a whole, and what is behind it.
unfoldable pub decode : List ℕ → Option (Protocol × List ℕ)
unfolding get_all decode_behind
decode bytes = elim (get_all (byte ∷ byte ∷ short ∷ []) bytes) [
  | none ↦ none
  | some (values, rest) ↦ decode_behind values rest
]
