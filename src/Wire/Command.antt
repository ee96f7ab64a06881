-- ===== src/Wire/Command.antt =====
-- ENetProtocolCommand and the flags of a command byte (toxtun/enetinc/enet/protocol.h).
use toxsh.Prelude.{ℕ, ◌%◌, Bool, has_bit}

-- The low four bits of a command byte.
abbrev pub none : ℕ
none = 0

abbrev pub acknowledge : ℕ
acknowledge = 1

abbrev pub connect : ℕ
connect = 2

abbrev pub verify_connect : ℕ
verify_connect = 3

abbrev pub disconnect : ℕ
disconnect = 4

abbrev pub ping : ℕ
ping = 5

abbrev pub send_reliable : ℕ
send_reliable = 6

abbrev pub send_unreliable : ℕ
send_unreliable = 7

abbrev pub send_fragment : ℕ
send_fragment = 8

abbrev pub send_unsequenced : ℕ
send_unsequenced = 9

abbrev pub bandwidth_limit : ℕ
bandwidth_limit = 10

abbrev pub throttle_configure : ℕ
throttle_configure = 11

abbrev pub send_unreliable_fragment : ℕ
send_unreliable_fragment = 12

-- `command & ENET_PROTOCOL_COMMAND_MASK`
abbrev pub number : ℕ → ℕ
number c = c % 16

-- ENET_PROTOCOL_COMMAND_FLAG_ACKNOWLEDGE, 1 << 7
abbrev pub flag_acknowledge : ℕ
flag_acknowledge = 128

abbrev pub is_acknowledged : ℕ → Bool
is_acknowledged c = has_bit c 7

-- ENET_PROTOCOL_COMMAND_FLAG_UNSEQUENCED, 1 << 6
abbrev pub flag_unsequenced : ℕ
flag_unsequenced = 64

abbrev pub is_unsequenced : ℕ → Bool
is_unsequenced c = has_bit c 6
