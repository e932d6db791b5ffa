-- ===== src/Pic/Masks.antt =====
-- The masks after `irqSetMask`, `irqClearMask`, `picSendEOI` and `remapPIC`.
use bbn_os.Base.{ℕ, ◌-◌, ◌%◌, ◌^◌, ◌<◌, inl, inr, arith}
use bbn_os.Base.{ltb, if◌then◌else◌, bit_and, bit_or, Bool-cases}
use bbn_os.Io.{Ports}
use bbn_os.Pic.{PicLaws, pic1_data, pic2_data, irq_set_mask, irq_clear_mask, remap_pic, line_bit}

-- What the line's bit does to the mask of the first and of the second controller.
abbrev pub set_1 : ℕ → ℕ → ℕ
set_1 irq_line a = if ltb irq_line 8 then bit_or a (line_bit irq_line) % 2 ^ 8 else a

abbrev pub set_2 : ℕ → ℕ → ℕ
set_2 irq_line b = if ltb irq_line 8 then b else bit_or b (line_bit irq_line) % 2 ^ 8

abbrev pub clear_1 : ℕ → ℕ → ℕ
clear_1 irq_line a = if ltb irq_line 8 then bit_and a (255 - line_bit irq_line % 2 ^ 8) else a

abbrev pub clear_2 : ℕ → ℕ → ℕ
clear_2 irq_line b = if ltb irq_line 8 then b else bit_and b (255 - line_bit irq_line % 2 ^ 8)

module _ {D : Type 0} (io : Ports D) (laws : PicLaws io) (d : D) (a b : ℕ) where
  pub irq_set_mask-Shows :
      (irq_line : ℕ)
      → laws.Shows d a b
      → laws.Shows (irq_set_mask io irq_line d) (set_1 irq_line a) (set_2 irq_line b)
  unfolding irq_set_mask
  irq_set_mask-Shows irq_line shows = elim (Bool-cases (ltb irq_line 8)) [
    | inl low ↦
        rw (irq_set_mask, low, laws.inb_mask1 d a b shows)
          (laws.outb_mask1 _ _ a b (omega arith) (laws.inb_keeps pic1_data d a b shows))
    | inr high ↦
        rw (irq_set_mask, high, laws.inb_mask2 d a b shows)
          (laws.outb_mask2 _ _ a b (omega arith) (laws.inb_keeps pic2_data d a b shows))
  ]

  pub irq_clear_mask-Shows :
      (irq_line : ℕ)
      → clear_1 irq_line a < 2 ^ 8
      → clear_2 irq_line b < 2 ^ 8
      → laws.Shows d a b
      → laws.Shows (irq_clear_mask io irq_line d) (clear_1 irq_line a) (clear_2 irq_line b)
  unfolding irq_clear_mask
  irq_clear_mask-Shows irq_line fits_1 fits_2 shows = elim (Bool-cases (ltb irq_line 8)) [
    | inl low ↦
        rw (irq_clear_mask, low, laws.inb_mask1 d a b shows)
          (laws.outb_mask1 _ _ a b (rw low at fits_1) (laws.inb_keeps pic1_data d a b shows))
    | inr high ↦
        rw (irq_clear_mask, high, laws.inb_mask2 d a b shows)
          (laws.outb_mask2 _ _ a b (rw high at fits_2) (laws.inb_keeps pic2_data d a b shows))
  ]

module _ {D : Type 0} (io : Ports D) (laws : PicLaws io) where
  -- Initialising the controllers puts back the masks that their data ports showed.
  pub remap_pic-Shows :
      (offset_1 offset_2 : ℕ) (d : D)
      → let (a, d1) = io.inb pic1_data d in
        laws.Shows (remap_pic io offset_1 offset_2 d) a (io.inb pic2_data d1).0
  unfolding remap_pic
  remap_pic-Shows offset_1 offset_2 d =
      laws.initialised offset_1 offset_2 _ _ _ (laws.inb_byte pic1_data d)
        (laws.inb_byte pic2_data _)
