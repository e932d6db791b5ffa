-- ===== src/Console/Run.antt =====
-- Whole texts on the console, and the backspace.
use bbn_os.Base.{
  ℕ, ◌-◌, ◌≡◌, inl, inr, refl, ap, ◌∙◌, false, ◌&&◌, Option, none, some, List, [], ◌∷◌, arith,
}
use mathlib.Core.Path.{subst}
use bbn_os.Base.{ltb, leb, if◌then◌else◌, Bool-cases}
use bbn_os.Console.{Console, Psf1Font, fb_putchar, put_all, fb_clear_char, step_back, fill_rows}
use bbn_os.Console.Frame.{IsLinear}
use bbn_os.Console.Put.{
  IsOnScreen, IsScreen, IsDrawnOn, IsPrinted, untouched, drawn_twice, filled, fb_putchar-IsPrinted,
}

continue : List ℕ → Option Console → Option Console
continue cs o = elim o [ none ↦ none | some t ↦ put_all t cs ]

put_all-step :
    (s t : Console) (c : ℕ) (cs : List ℕ)
    → fb_putchar s c ≡ some t
    → put_all s (c ∷ cs) ≡ put_all t cs
unfolding put_all continue
put_all-step s t c cs e = ap (continue cs) e

-- With a font, on a screen that is large enough and whose scan lines have room for its pixels
-- (IsScreen, IsLinear), and from a cursor on the screen, printing any text returns, the cursor is on the screen again, and no
-- byte outside the visible rows of the frame buffer has changed.
pub put_all-IsPrinted :
    (cs : List ℕ) (s : Console) (font : Psf1Font)
    → s.ft ≡ some font
    → IsScreen s.fb_info
    → IsLinear s.fb_info
    → IsOnScreen s
    → IsPrinted s (put_all s cs)
unfolding put_all
put_all-IsPrinted [] s font e screen linear on = (s, refl, on, untouched s)
put_all-IsPrinted (c ∷ cs) s font e screen linear on =
    let (t, put, on_t, drawn) = fb_putchar-IsPrinted s c font e screen linear in
    let screen_t : IsScreen t.fb_info = rw drawn.0 screen in
    let linear_t : IsLinear t.fb_info = rw drawn.0 linear in
    let (u, rest, on_u, drawn_u) =
      put_all-IsPrinted cs t font (drawn.1 ∙ e) screen_t linear_t on_t in
    (u, put_all-step s t c cs put ∙ rest, on_u, drawn_twice s t u drawn drawn_u)

stepped-IsOnScreen :
    (s : Console)
    → IsScreen s.fb_info
    → IsOnScreen s
    → (ltb s.cursor_x 8 && ltb s.cursor_y 16) ≡ false
    → IsOnScreen (step_back s) × IsDrawnOn s (step_back s)
stepped-IsOnScreen s (w0, w1, h0, h1) (x, y) moves = elim (Bool-cases (ltb s.cursor_x 8)) [
  | inl left ↦ rw left ((omega arith, omega arith), untouched s)
  | inr right ↦ rw right ((omega arith, y), untouched s)
]

-- `t` is `s` after a step back that is drawn.
abbrev pub IsStepBack : Console → Console → Type 0
IsStepBack s t =
    IsOnScreen t
    × IsDrawnOn s t
    × (t.cursor_x ≡ (
        if ltb s.cursor_x 8
        then (if ltb s.cursor_y 16 then s.cursor_x else s.fb_info.width - 8)
        else s.cursor_x - 8))
    × (t.cursor_y ≡ (if ltb s.cursor_x 8 && leb 16 s.cursor_y then s.cursor_y - 16 else s.cursor_y))

-- The eight columns of sixteen pixels at the new position are cleared.
erased : Console → Console
erased t = record t { memory = fill_rows t.fb_info 0 8 t.cursor_x t.cursor_y 16 t.memory }

fb_clear_char-erased :
    (s : Console)
    → (ltb s.cursor_x 8 && ltb s.cursor_y 16) ≡ false
    → erased (step_back s) ≡ fb_clear_char s
unfolding fb_clear_char erased
fb_clear_char-erased s moves = rw moves refl

stepped-cursor :
    (s : Console)
    → IsScreen s.fb_info
    → (ltb s.cursor_x 8 && ltb s.cursor_y 16) ≡ false
    → ((step_back s).cursor_x ≡ (
        if ltb s.cursor_x 8
        then (if ltb s.cursor_y 16 then s.cursor_x else s.fb_info.width - 8)
        else s.cursor_x - 8))
      × ((step_back s).cursor_y
          ≡ (if ltb s.cursor_x 8 && leb 16 s.cursor_y then s.cursor_y - 16 else s.cursor_y))
stepped-cursor s (w0, w1, h0, h1) moves = (ground arith, ground arith)

erased-IsStepBack :
    (s : Console)
    → IsScreen s.fb_info
    → IsLinear s.fb_info
    → IsOnScreen s
    → (ltb s.cursor_x 8 && ltb s.cursor_y 16) ≡ false
    → IsStepBack s (erased (step_back s))
unfolding erased
erased-IsStepBack s screen linear on moves =
    let (seen, drawn) = stepped-IsOnScreen s screen on moves in
    let (x, y) = stepped-cursor s screen moves in
    let t = step_back s in
    let linear_t : IsLinear t.fb_info = rw drawn.0 linear in
    (seen, drawn_twice s t (erased t) drawn (filled t linear_t 0 8 t.cursor_x t.cursor_y 16), x, y)

-- On a screen that is large enough and whose scan lines have room for its pixels, the backspace keeps a cursor that is on the screen there: it steps back by a character, from the left edge to
-- the end of the line above, and nowhere from the first character. It changes no byte outside the
-- visible rows.
pub fb_clear_char-IsStepBack :
    (s : Console)
    → IsScreen s.fb_info
    → IsLinear s.fb_info
    → IsOnScreen s
    → IsStepBack s (fb_clear_char s)
unfolding fb_clear_char
fb_clear_char-IsStepBack s screen linear on =
    elim (Bool-cases (ltb s.cursor_x 8 && ltb s.cursor_y 16)) [
      | inl home ↦ rw (fb_clear_char, home) (on, untouched s, ground arith, ground arith)
      | inr moves ↦
          subst (IsStepBack s) (fb_clear_char-erased s moves)
            (erased-IsStepBack s screen linear on moves)
    ]
