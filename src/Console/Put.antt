-- ===== src/Console/Put.antt =====
-- What writing a character to the console does: it returns, with the cursor on the screen, and changes
-- no byte outside the frame buffer.
use bbn_os.Base.{
  ℕ, ◌+◌, ◌-◌, ◌*◌, ◌%◌, ◌^◌, ◌<◌, ◌≤◌, ◌≡◌, inl, inr, refl, ap, ◌∙◌, Bool, true, false, ◌&&◌,
  Option, none, some, arith,
}
use bbn_os.Base.{◌==◌, ltb, leb, if◌then◌else◌, Bool-cases, add64}
use bbn_os.Console.{
  Console, Cursor, FbInfo, Psf1Font, home_if_off, new_line, put_code, break_line, break_page,
  settle, fb_putchar, fb_put_char, fill_rows,
}
use bbn_os.Console.Frame.{IsLinear, IsOutside, fill_rows-frame, glyph-frame}
use bbn_os.Memory.{load8}

-- The last column and the last row at which a character fits.
abbrev pub IsOnScreen : Console → Type 0
IsOnScreen s = (s.cursor_x ≤ s.fb_info.width - 8) × (s.cursor_y ≤ s.fb_info.height - 16)

-- A screen that is large enough for a character, and on which no row number wraps.
abbrev pub IsScreen : FbInfo → Type 0
IsScreen fb = (8 ≤ fb.width) × (fb.width < 2 ^ 32) × (16 ≤ fb.height) × (fb.height + 48 < 2 ^ 32)

settle-IsOnScreen : (s : Console) (p : Cursor) → IsScreen s.fb_info → IsOnScreen (settle (s, p))
settle-IsOnScreen s p (w0, w1, h0, h1) = (ground arith, ground arith)

-- The screen and the font are those of `s`, and so is every byte outside the frame buffer.
abbrev pub IsDrawnOn : Console → Console → Type 0
IsDrawnOn s t =
    (t.fb_info ≡ s.fb_info)
    × (t.ft ≡ s.ft)
    × ((a : ℕ) → IsOutside s.fb_info a → load8 t.memory a ≡ load8 s.memory a)

-- What holds of both results holds of a conditional.
either : {X : Type 0} (P : X → Type 0) (b : Bool) (x y : X) → P x → P y → P (if b then x else y)
either P true x y px py = px
either P false x y px py = py

pub untouched : (s : Console) → IsDrawnOn s s
untouched s = (refl, refl, λ a out. refl)

pub drawn_twice : (s t u : Console) → IsDrawnOn s t → IsDrawnOn t u → IsDrawnOn s u
drawn_twice s t u (fb, ft, kept) (fb', ft', kept') =
    (fb' ∙ fb, ft' ∙ ft, λ a out. kept' a (rw (← fb) at out) ∙ kept a out)

module _ (s : Console) (linear : IsLinear s.fb_info) where
  pub filled :
      (color n x y rows : ℕ)
      → IsDrawnOn s (record s { memory = fill_rows s.fb_info color n x y rows s.memory })
  filled color n x y rows =
      (refl, refl, λ a out. fill_rows-frame s.fb_info linear a out color n x y rows s.memory)

  put_char_font :
      (color c x y : ℕ) (o : Option Psf1Font) → s.ft ≡ o → IsDrawnOn s (fb_put_char s color c x y)
  unfolding fb_put_char
  put_char_font color c x y none e = rw (fb_put_char, e) (refl, e, λ a out. refl)
  put_char_font color c x y (some font) e =
      let glyph = font.glyph_buffer + c * font.charsize in
      rw (fb_put_char, e)
        (either
          (λ (t : Console).
            (t.fb_info ≡ s.fb_info)
            × (t.ft ≡ some font)
            × ((a : ℕ) → IsOutside s.fb_info a → load8 t.memory a ≡ load8 s.memory a))
          _ _ _ (refl, e, λ a out. refl)
          (
            refl,
            e,
            λ a out. glyph-frame s.fb_info linear a out glyph x y ((y + 16) % 2 ^ 32 - y) s.memory,
          ))

  break_line-IsDrawnOn : (p : Cursor) → IsDrawnOn s (break_line (s, p)).0
  break_line-IsDrawnOn p =
      either (λ (r : Console × Cursor). IsDrawnOn s r.0) _ _ _
        (either (IsDrawnOn s) _ _ _ (filled _ _ _ _ _) (untouched s)) (untouched s)

  break_page-IsDrawnOn : (p : Cursor) → IsDrawnOn s (break_page (s, p)).0
  break_page-IsDrawnOn p =
      either (λ (r : Console × Cursor). IsDrawnOn s r.0) _ _ _
        (let (fb, ft, kept) = filled 0xff000000 s.fb_info.width 0 0 16 in (fb, ft, kept))
        (untouched s)

  -- The character is put, and the result is some console that was only drawn on.
  abbrev Puts : Option (Console × Cursor) → Type 0
  Puts o = (r : Console × Cursor) × (o ≡ some r) × IsDrawnOn s r.0

  new_line-Puts : (p : Cursor) → p.y_pos + 33 ≤ 2 ^ 32 → Puts (new_line s p)
  new_line-Puts p low =
      let fits : ltb (2 ^ 32) (add64 p.y_pos 16 + 17) ≡ false = ground arith in
      elim (Bool-cases (s.clear == 1)) [
        | inl second ↦
            rw (second, fits) (_, refl, filled 0x00000000 s.fb_info.width 0 (add64 p.y_pos 16) 16)
        | inr first ↦ rw first (_, refl, untouched s)
      ]

  moved : (q : Cursor) → Puts (some (s, q))
  moved q = ((s, q), refl, untouched s)

  put_code-Puts : (c : ℕ) (p : Cursor) → p.y_pos + 33 ≤ 2 ^ 32 → Puts (put_code s c p)
  put_code-Puts c p low = elim (Bool-cases (c == 0x08 && ltb 8 p.x_pos)) [
    | inl back ↦ rw back (moved _)
    | inr e1 ↦ elim (Bool-cases (c == 0x09)) [
      | inl tab ↦ rw (e1, tab) (moved _)
      | inr e2 ↦ elim (Bool-cases (c == 13)) [
        | inl start ↦ rw (e1, e2, start) (moved _)
        | inr e3 ↦ elim (Bool-cases (c == 10)) [
          | inl line ↦ rw (e1, e2, e3, line) (new_line-Puts p low)
          | inr e4 ↦ elim (Bool-cases (leb 0x20 c && ltb c 128)) [
            | inl shown ↦
                rw (e1, e2, e3, e4, shown)
                  (_, refl, put_char_font s.color c (p.x_pos % 2 ^ 32) (p.y_pos % 2 ^ 32) s.ft refl)
            | inr hidden ↦ rw (e1, e2, e3, e4, hidden) (moved p)
          ]
        ]
      ]
    ]
  ]

-- The first test of `fb_putchar` leaves a row from which a line can be broken twice.
home-low :
    (fb : FbInfo) (p : Cursor) → IsScreen fb → (home_if_off fb fb.width p).y_pos + 33 ≤ 2 ^ 32
home-low fb p (w0, w1, h0, h1) = ground arith

-- The position on which the character is put.
abbrev pub start_of : Console → Cursor
start_of s =
    home_if_off s.fb_info s.fb_info.width (record { x_pos = s.cursor_x; y_pos = s.cursor_y })

after_code : Option (Console × Cursor) → Option Console
after_code o = elim o [ none ↦ none | some r ↦ some (settle (break_page (break_line r))) ]

with_font : Console → Option Console → Option Psf1Font → Option Console
with_font s rest o = elim o [ none ↦ some s | some _ ↦ rest ]

fb_putchar-step :
    (s : Console) (c : ℕ) (font : Psf1Font) (r : Console × Cursor)
    → s.ft ≡ some font
    → put_code s c (start_of s) ≡ some r
    → fb_putchar s c ≡ some (settle (break_page (break_line r)))
unfolding fb_putchar after_code with_font
fb_putchar-step s c font r e result =
    ap (with_font s (after_code (put_code s c (start_of s)))) e ∙ ap after_code result

finished :
    (s u : Console) (p : Cursor)
    → IsScreen s.fb_info
    → IsLinear s.fb_info
    → IsDrawnOn s u
    → let t = settle (break_page (break_line (u, p))) in IsOnScreen t × IsDrawnOn s t
finished s u p screen linear drawn =
    let linear_u : IsLinear u.fb_info = rw drawn.0 linear in
    let (v, q) = break_line (u, p) in
    let drawn_v = drawn_twice s u v drawn (break_line-IsDrawnOn u linear_u p) in
    let linear_v : IsLinear v.fb_info = rw drawn_v.0 linear in
    let (w, o) = break_page (v, q) in
    let drawn_w = drawn_twice s v w drawn_v (break_page-IsDrawnOn v linear_v q) in
    let screen_w : IsScreen w.fb_info = rw drawn_w.0 screen in
    (settle-IsOnScreen w o screen_w, drawn_w)

-- The result is a console with its cursor on the screen, and `s` was only drawn on.
abbrev pub IsPrinted : Console → Option Console → Type 0
IsPrinted s o = (t : Console) × (o ≡ some t) × IsOnScreen t × IsDrawnOn s t

-- From any cursor, with a font, on a screen that is large enough and whose scan lines have room for
-- its pixels (IsScreen, IsLinear), `fb_putchar` returns. The
-- cursor is then where a whole character fits on the screen; the screen and the font have not
-- changed, and neither has any byte of memory outside the visible rows of the frame buffer.
pub fb_putchar-IsPrinted :
    (s : Console) (c : ℕ) (font : Psf1Font)
    → s.ft ≡ some font
    → IsScreen s.fb_info
    → IsLinear s.fb_info
    → IsPrinted s (fb_putchar s c)
fb_putchar-IsPrinted s c font e screen linear =
    let (r, result, drawn) = put_code-Puts s linear c (start_of s) (home-low s.fb_info _ screen) in
    let (seen, drawn_on) = finished s r.0 r.1 screen linear drawn in
    (settle (break_page (break_line r)), fb_putchar-step s c font r e result, seen, drawn_on)
