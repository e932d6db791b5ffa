-- ===== src/Mouse/Tests.antt =====
-- A mouse that moves right, and one that moves left past the edge.
use bbn_os.Base.{◌≡◌, refl, true, false, some, [], ◌∷◌, arith}
use bbn_os.Mouse.{Mouse, initial, feed, handle_ps2_mouse, process_mouse_packet, apply_packet}
use bbn_os.Mouse.Packet.{feed-packet}
use bbn_os.Mouse.Pointer.{process_mouse_packet-x}

-- Flags 0x18: in step, with the x sign; 0xFE is a move of 2 to the left.
abbrev leftwards : Mouse
leftwards = record initial { packet_0 = 0x18; packet_1 = 0xFE; ready = true; pos_x = 1 }

left_run :
    process_mouse_packet leftwards 800 600
    ≡ (record leftwards { packet_1 = 2; ready = false; pos_x = 799 }, some (799, 0))
unfolding process_mouse_packet apply_packet
left_run = refl

feed_run :
    feed initial (0x00 ∷ 0x08 ∷ 5 ∷ 7 ∷ 9 ∷ [])
    ≡ record initial { packet_0 = 8; packet_1 = 5; packet_2 = 7; ready = true }
unfolding feed handle_ps2_mouse
feed_run = refl

feed-packet_example :
    feed initial (0x00 ∷ 0x08 ∷ 5 ∷ 7 ∷ 9 ∷ [])
    ≡ record initial { packet_0 = 8; packet_1 = 5; packet_2 = 7; ready = true }
feed-packet_example =
    feed-packet initial (0x00 ∷ []) 0x08 5 7 (9 ∷ []) refl refl (refl, tt) (omega arith)

process_mouse_packet-x_example : (process_mouse_packet leftwards 800 600).0.pos_x ≡ 799
process_mouse_packet-x_example =
    process_mouse_packet-x leftwards 800 600 refl refl (omega arith) (omega arith) (omega arith)
      (omega arith)
