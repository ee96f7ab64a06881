-- ===== src/Tests/Packets.antt =====
-- A packet that grows.
use toxsh.Prelude.{◌≡◌, refl, true, [], ◌∷◌, some, none, arith}
use toxsh.Memory.{Packet}
use toxsh.Packet.{packet_resize}
use toxsh.Packet.Resize.{IsResized, packet_resize-IsResized}

abbrev two_bytes : Packet
two_bytes = record {
  reference_count = 0;
  flags = 1;
  content = some 5 ∷ some 6 ∷ [];
  data_length = 2;
}

grown :
    packet_resize true two_bytes 3
    ≡ (true, record two_bytes { content = some 5 ∷ some 6 ∷ none ∷ []; data_length = 3 })
unfolding packet_resize
grown = refl

packet_resize-IsResized_example : IsResized true two_bytes 3 (packet_resize true two_bytes 3)
packet_resize-IsResized_example = packet_resize-IsResized true two_bytes 3 refl (omega arith)
