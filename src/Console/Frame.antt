-- ===== src/Console/Frame.antt =====
-- The bytes that drawing can change: those of the visible rows of the frame buffer.
use bbn_os.Base.{ℕ, ◌+◌, ◌-◌, ◌*◌, ◌%◌, ◌^◌, ◌<◌, ◌≤◌, ◌≡◌, ◌⊎◌, inl, inr, refl, ◌∙◌, ◌||◌, arith}
use native.Mathlib.Nat.{mul-le-mul_right}
use bbn_os.Base.{leb, Bool-cases}
use bbn_os.Base.Loop.{count_up, count_up_inv}
use bbn_os.Memory.{Memory, load8}
use bbn_os.Memory.Words.{load8-store32}
use bbn_os.Console.{
  FbInfo, pixel_address, set_color_of_pixel, fill_row, fill_rows, put_pixel, put_line,
}

-- The scan lines have room for the visible pixels, and the pixels have 32-bit numbers.
abbrev pub IsLinear : FbInfo → Type 0
IsLinear fb = (fb.width ≤ fb.pixels_per_scanline) × (fb.pixels_per_scanline * fb.height < 2 ^ 32)

-- The address is not that of a byte of the visible rows.
abbrev pub IsOutside : FbInfo → ℕ → Type 0
IsOutside fb a =
    (a < fb.base_address) ⊎ (fb.base_address + fb.pixels_per_scanline * fb.height * 4 ≤ a)

-- A pixel of row `y` comes before the end of the rows.
pixel_below : (p x y h : ℕ) → x < p → y < h → x + y * p < p * h
pixel_below p x y h hx hy = omega (arith, mul-le-mul_right p hy)

module _ (fb : FbInfo) (linear : IsLinear fb) (a : ℕ) (outside : IsOutside fb a) where
  pixel-outside :
      (x y : ℕ)
      → x < fb.width
      → y < fb.height
      → (a < pixel_address fb x y) ⊎ (pixel_address fb x y + 4 ≤ a)
  pixel-outside x y hx hy =
      let below = pixel_below fb.pixels_per_scanline x y fb.height (omega arith) hy in
      grind (arith, below)

  set_color_of_pixel-frame :
      (color x y : ℕ) (m : Memory) → load8 (set_color_of_pixel fb color x y m) a ≡ load8 m a
  unfolding set_color_of_pixel
  set_color_of_pixel-frame color x y m = elim (Bool-cases (leb fb.width x || leb fb.height y)) [
    | inl off ↦ ground arith
    | inr on ↦
        let away = pixel-outside x y (ground arith) (ground arith) in
        ground (arith, away, load8-store32 m (pixel_address fb x y) color a)
  ]

  pub fill_rows-frame :
      (color n x y rows : ℕ) (m : Memory) → load8 (fill_rows fb color n x y rows m) a ≡ load8 m a
  unfolding fill_rows fill_row
  fill_rows-frame color n x y rows m =
      count_up_inv (λ j m'. load8 m' a ≡ load8 m a) (λ j m'. fill_row fb color n x j m') rows y
        (y + rows) m refl
        (λ j m1 lt same_1.
          count_up_inv (λ i m'. load8 m' a ≡ load8 m a)
            (λ i m'. set_color_of_pixel fb color (i % 2 ^ 32) (j % 2 ^ 32) m') n x (x + n) m1 refl
            (λ i m2 lt_2 same_2.
              set_color_of_pixel-frame color (i % 2 ^ 32) (j % 2 ^ 32) m2 ∙ same_2)
            same_1)
        refl

  put_pixel-frame : (byte k x y : ℕ) (m : Memory) → load8 (put_pixel fb byte k x y m) a ≡ load8 m a
  put_pixel-frame byte k x y m = ground (arith, set_color_of_pixel-frame 0xffffffff x y m)

  put_line-frame :
      (glyph_byte x y : ℕ) (m : Memory) → load8 (put_line fb glyph_byte x y m) a ≡ load8 m a
  unfolding put_line
  put_line-frame glyph_byte x y m =
      count_up_inv (λ k m'. load8 m' a ≡ load8 m a)
        (λ k m'. put_pixel fb (load8 m' glyph_byte) k ((x + k) % 2 ^ 32) (y % 2 ^ 32) m')
        ((x + 8) % 2 ^ 32 - x) 0 ((x + 8) % 2 ^ 32 - x) m (omega arith)
        (λ k m' lt same.
          put_pixel-frame (load8 m' glyph_byte) k ((x + k) % 2 ^ 32) (y % 2 ^ 32) m' ∙ same)
        refl

  -- The loop of `_fbPutChar`.
  pub glyph-frame :
      (font_ptr x y rows : ℕ) (m : Memory)
      → load8 (count_up rows 0 (λ j m'. put_line fb (font_ptr + j) x (y + j) m') m) a ≡ load8 m a
  glyph-frame font_ptr x y rows m =
      count_up_inv (λ k m'. load8 m' a ≡ load8 m a)
        (λ j m'. put_line fb (font_ptr + j) x (y + j) m') rows 0 rows m (omega arith)
        (λ k m' lt same. put_line-frame (font_ptr + k) x (y + k) m' ∙ same) refl
