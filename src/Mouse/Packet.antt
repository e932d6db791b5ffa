-- ===== src/Mouse/Packet.antt =====
-- The assembly of packets from bytes.
use bbn_os.Base.{ℕ, ◌≡◌, ◌≢◌, refl, sym, ap, ◌∙◌, true, false, List, [], ◌∷◌, ◌++◌, arith}
use bbn_os.Base.{bit_and}
use bbn_os.Mouse.{Mouse, handle_ps2_mouse, feed}

-- Bytes that cannot start a packet: bit 3 is clear.
abbrev pub AllOutOfStep : List ℕ → Type 0
AllOutOfStep [] = Unit {0}
AllOutOfStep (b ∷ bs) = (bit_and b 0b00001000 ≡ 0) × AllOutOfStep bs

module _ (s : Mouse) (byte : ℕ) where
  out_of_step : s.cycle ≡ 0 → bit_and byte 0b00001000 ≡ 0 → handle_ps2_mouse s byte ≡ s
  unfolding handle_ps2_mouse
  out_of_step c z = ground arith

  dropped : s.ready ≡ true → handle_ps2_mouse s byte ≡ s
  unfolding handle_ps2_mouse
  dropped r = ground arith

  first_byte :
      s.cycle ≡ 0
      → s.ready ≡ false
      → bit_and byte 0b00001000 ≢ 0
      → handle_ps2_mouse s byte ≡ record s { packet_0 = byte; cycle = 1 }
  unfolding handle_ps2_mouse
  first_byte c r b = ground arith

  second_byte :
      s.cycle ≡ 1
      → s.ready ≡ false
      → handle_ps2_mouse s byte ≡ record s { packet_1 = byte; cycle = 2 }
  unfolding handle_ps2_mouse
  second_byte c r = ground arith

  third_byte :
      s.cycle ≡ 2
      → s.ready ≡ false
      → handle_ps2_mouse s byte ≡ record s { packet_2 = byte; ready = true; cycle = 0 }
  unfolding handle_ps2_mouse
  third_byte c r = ground arith

skip :
    (s : Mouse) (junk rest : List ℕ)
    → s.cycle ≡ 0
    → AllOutOfStep junk
    → feed s (junk ++ rest) ≡ feed s rest
unfolding feed
skip s [] rest c h = refl
skip s (b ∷ bs) rest c (z, h) =
    ap (λ t. feed t (bs ++ rest)) (out_of_step s b c z) ∙ skip s bs rest c h

-- A finished packet is kept: further bytes are dropped until it is processed.
full : (s : Mouse) (bytes : List ℕ) → s.ready ≡ true → feed s bytes ≡ s
unfolding feed
full s [] h = refl
full s (b ∷ bs) h = ap (λ t. feed t bs) (dropped s b h) ∙ full s bs h

-- Between packets, bytes with bit 3 clear are skipped; the first byte with bit 3 set and the two
-- bytes after it make up the packet, whatever these two are; and all that comes before the packet
-- is processed is dropped. The position does not change.
pub feed-packet :
    (s : Mouse) (junk : List ℕ) (a b c : ℕ) (rest : List ℕ)
    → s.cycle ≡ 0
    → s.ready ≡ false
    → AllOutOfStep junk
    → bit_and a 0b00001000 ≢ 0
    → feed s (junk ++ a ∷ b ∷ c ∷ rest)
      ≡ record s { packet_0 = a; packet_1 = b; packet_2 = c; ready = true }
unfolding feed
feed-packet s junk a b c rest cycle idle h start =
    let s₁ = record s { packet_0 = a; cycle = 1 } in
    let s₂ = record s { packet_0 = a; packet_1 = b; cycle = 2 } in
    let s₃ = record s { packet_0 = a; packet_1 = b; packet_2 = c; ready = true; cycle = 0 } in
    skip s junk (a ∷ b ∷ c ∷ rest) cycle h
    ∙ ap (λ t. feed t (b ∷ c ∷ rest)) (first_byte s a cycle idle start)
    ∙ ap (λ t. feed t (c ∷ rest)) (second_byte s₁ b refl idle)
    ∙ ap (λ t. feed t rest) (third_byte s₂ c refl idle)
    ∙ full s₃ rest refl
    ∙ ap (λ k. record s { packet_0 = a; packet_1 = b; packet_2 = c; ready = true; cycle = k })
        (sym cycle)
