-- ===== src/Console/Fill.antt =====
-- The pixels that a filled rectangle and a cleared screen show.
use bbn_os.Base.{ℕ, ◌+◌, ◌*◌, ◌%◌, ◌^◌, ◌<◌, ◌≤◌, ◌≡◌, ◌⊎◌, inl, inr, refl, ◌∙◌, false, ◌||◌, arith}
use bbn_os.Base.{◌==◌, leb, Bool-cases}
use bbn_os.Base.Loop.{count_up_inv}
use bbn_os.Memory.{Memory, load32, load32-congr}
use bbn_os.Memory.Words.{store32, load8-store32, load32-store32}
use bbn_os.Console.{
  Console, FbInfo, pixel_address, set_color_of_pixel, fill_row, fill_rows, fb_clear_screen,
}

load32-apart :
    (m : Memory) (a b v : ℕ) → (b + 4 ≤ a) ⊎ (a + 4 ≤ b) → load32 (store32 m a v) b ≡ load32 m b
load32-apart m a b v apart =
    load32-congr (store32 m a v) m b (λ k h. ground (arith, apart, load8-store32 m a v (b + k)))

module _ (fb : FbInfo) (color x y : ℕ) where
  -- Where the pixel lies: `y` scan lines and `x` pixels behind the base, at four bytes each. The product
  -- wraps at 32 bits.
  abbrev place : ℕ
  place = fb.base_address + (x + y * fb.pixels_per_scanline % 2 ^ 32) * 4

  -- The four bytes of the pixel are the color.
  abbrev pub IsLit : Memory → Type 0
  IsLit m = load32 m place ≡ color % 2 ^ 32

  -- Drawing in the same color, wherever it is, leaves the pixel lit.
  set_color_of_pixel_keeps :
      (x' y' : ℕ) (m : Memory) → IsLit m → IsLit (set_color_of_pixel fb color x' y' m)
  unfolding set_color_of_pixel
  set_color_of_pixel_keeps x' y' m lit = elim (Bool-cases (leb fb.width x' || leb fb.height y')) [
    | inl off ↦ rw (set_color_of_pixel, off) lit
    | inr on ↦ elim (Bool-cases (pixel_address fb x' y' == pixel_address fb x y)) [
      | inl same ↦
          let there : pixel_address fb x' y' ≡ pixel_address fb x y = ground arith in
          rw (set_color_of_pixel, on, there) (load32-store32 m (pixel_address fb x y) color)
      | inr apart ↦
          rw (set_color_of_pixel, on)
            (load32-apart m (pixel_address fb x' y') (pixel_address fb x y) color (grind arith)
              ∙ lit)
    ]
  ]

  set_color_of_pixel-IsLit :
      x < fb.width → y < fb.height → (m : Memory) → IsLit (set_color_of_pixel fb color x y m)
  unfolding set_color_of_pixel
  set_color_of_pixel-IsLit hx hy m =
      let on : (leb fb.width x || leb fb.height y) ≡ false = ground arith in
      rw (set_color_of_pixel, on) (load32-store32 m (pixel_address fb x y) color)

  -- What stays lit by a row of pixels stays lit by the row.
  fill_row_keeps : (n x' y' : ℕ) (m : Memory) → IsLit m → IsLit (fill_row fb color n x' y' m)
  unfolding fill_row
  fill_row_keeps n x' y' m lit =
      count_up_inv (λ k m'. IsLit m')
        (λ i m'. set_color_of_pixel fb color (i % 2 ^ 32) (y' % 2 ^ 32) m') n x' (x' + n) m refl
        (λ i m' lt h. set_color_of_pixel_keeps (i % 2 ^ 32) (y' % 2 ^ 32) m' h) lit

  module _ (hx : x < fb.width) (hy : y < fb.height) (w : fb.width < 2 ^ 32)
      (h : fb.height < 2 ^ 32) where
    fill_row-IsLit :
        (n x' : ℕ) (m : Memory) → x' ≤ x → x < x' + n → IsLit (fill_row fb color n x' y m)
    unfolding fill_row
    fill_row-IsLit n x' m first last =
        count_up_inv (λ k m'. x < k → IsLit m')
          (λ i m'. set_color_of_pixel fb color (i % 2 ^ 32) (y % 2 ^ 32) m') n x' (x' + n) m refl
          (λ i m' lt before after. elim (Bool-cases (i == x)) [
            | inl here ↦
                let column : i % 2 ^ 32 ≡ x = ground arith in
                let row : y % 2 ^ 32 ≡ y = omega arith in
                rw (column, row) (set_color_of_pixel-IsLit hx hy m')
            | inr past ↦
                set_color_of_pixel_keeps (i % 2 ^ 32) (y % 2 ^ 32) m' (before (ground arith))
          ])
          (λ none. omega arith) last

    -- A rectangle lights the visible pixels in it.
    pub fill_rows-IsLit :
        (n x' y' rows : ℕ) (m : Memory)
        → x' ≤ x
        → x < x' + n
        → y' ≤ y
        → y < y' + rows
        → IsLit (fill_rows fb color n x' y' rows m)
    unfolding fill_rows
    fill_rows-IsLit n x' y' rows m left right top bottom =
        count_up_inv (λ k m'. y < k → IsLit m') (λ j m'. fill_row fb color n x' j m') rows y'
          (y' + rows) m refl
          (λ j m' lt before after. elim (Bool-cases (j == y)) [
            | inl here ↦
                let row : j ≡ y = ground arith in rw row (fill_row-IsLit n x' m' left right)
            | inr past ↦ fill_row_keeps n x' j m' (before (ground arith))
          ])
          (λ none. omega arith) bottom

-- Clearing the screen gives every visible pixel the color, at its own four bytes behind the base of the
-- frame buffer, where the scan lines have room for the pixels, and the width and the height are 32-bit
-- numbers; the number of pixels in the scan lines above it is taken modulo 2 ^ 32.
pub fb_clear_screen-IsLit :
    (s : Console) (color x y : ℕ)
    → s.fb_info.width ≤ s.fb_info.pixels_per_scanline
    → s.fb_info.width < 2 ^ 32
    → s.fb_info.height < 2 ^ 32
    → x < s.fb_info.width
    → y < s.fb_info.height
    → IsLit s.fb_info color x y (fb_clear_screen s color).memory
unfolding fb_clear_screen
fb_clear_screen-IsLit s color x y room w h hx hy =
    fill_rows-IsLit s.fb_info color x y hx hy w h s.fb_info.pixels_per_scanline 0 0 s.fb_info.height
      s.memory (omega arith) (omega arith) (omega arith) (omega arith)
