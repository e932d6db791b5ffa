-- ===== src/Legacy/Writer/Bounds.antt =====
-- lib/legacy/fb.c: what `fb_print_color` leaves alone.
use bbn_os.Base.{
  ℕ, ◌+◌, ◌*◌, ◌%◌, ◌^◌, ◌≤◌, ◌<◌, ◌≡◌, inl, inr, refl, ap, ◌∙◌, false, Option, some, List, [], ◌∷◌,
  arith, ◌==◌, if◌then◌else◌, Bool-cases,
}
use bbn_os.Base.Loop.{count_up_inv}
use bbn_os.Memory.{load8}
use bbn_os.Legacy.{Screen, fb_move_cursor}
use bbn_os.Legacy.Bounds.{Stays, cell-Stays, IsOnScreen, put_all-IsKept}
use bbn_os.Legacy.Writer.{
  Writer, color_warning, write_at, color_clear, color_char, color_line, color_page, color_loop,
  printf, is_lost, at_home, fb_print_color,
}

-- Both positions are on the screen.
abbrev pub IsPlaced : Writer → Type 0
IsPlaced w = IsOnScreen w.screen × ((w.x_pos < 80) × (w.y_pos < 25))

-- From `s` to `t`: the bytes beyond the screen and the position of `fb_putchar` stay.
abbrev pub IsSteady : Screen → Screen → Type 0
IsSteady s t = Stays s.memory t.memory × ((t.x_pos ≡ s.x_pos) × (t.y_pos ≡ s.y_pos))

both_steps : (s t u : Screen) → IsSteady s t → IsSteady t u → IsSteady s u
both_steps s t u (m, (x, y)) (m', (x', y')) =
    ((λ a beyond. m' a beyond ∙ m a beyond), (x' ∙ x, y' ∙ y))

write_at-IsSteady :
    (s : Screen) (x y c fg bg : ℕ) → y * 80 + x < 26 * 80 → IsSteady s (write_at s x y c fg bg)
unfolding write_at fb_move_cursor
write_at-IsSteady s x y c fg bg h =
    let cell : (y * 80 + x) * 2 % 2 ^ 32 ≡ (y * 80 + x) * 2 = omega arith in
    (
      (λ a beyond. rw cell (cell-Stays s.memory ((y * 80 + x) * 2) c fg bg (omega arith) a beyond)),
      (refl, refl),
    )

color_clear-IsSteady :
    (fg bg : ℕ) (w : Writer)
    → w.y_pos < 26
    → let v = color_clear fg bg w in
      IsSteady w.screen v.screen × ((v.x_pos ≡ w.x_pos) × (v.y_pos ≡ w.y_pos))
unfolding color_clear
color_clear-IsSteady fg bg w h = elim (Bool-cases w.clear) [
  | inl full ↦
      rw (color_clear, full)
        (
          count_up_inv (λ _ s. IsSteady w.screen s) (λ i s. write_at s i w.y_pos b' ' fg bg) 80 0 80
              w.screen (omega arith)
              (λ i s lt steady.
                both_steps w.screen s (write_at s i w.y_pos b' ' fg bg) steady
                  (write_at-IsSteady s i w.y_pos b' ' fg bg (omega arith)))
              ((λ a beyond. refl), (refl, refl)),
          (refl, refl),
        )
  | inr partial ↦ rw (color_clear, partial) (((λ a beyond. refl), (refl, refl)), (refl, refl))
]

char-IsSteady :
    (fg bg c : ℕ) (w : Writer)
    → w.x_pos < 80
    → w.y_pos < 25
    → IsSteady w.screen (color_char fg bg c w).screen
unfolding color_char
char-IsSteady fg bg c w hx hy =
    let next : Writer = record w { x_pos = 0; y_pos = w.y_pos + 1 } in
    let (cleared, at) = color_clear-IsSteady fg bg next (omega arith) in
    let written = write_at-IsSteady w.screen w.x_pos w.y_pos c fg bg (omega arith) in
    (
      (λ a beyond. ground (arith, cleared.0 a beyond, written.0 a beyond)),
      (ground (arith, cleared.1, written.1), ground (arith, cleared.1, written.1)),
    )

-- A character leaves the position on the screen, or at the end of its row or of the screen.
char_position :
    (fg bg c : ℕ) (w : Writer)
    → w.x_pos < 80
    → w.y_pos < 25
    → let v = color_line (color_char fg bg c w) in (v.x_pos < 80) × (v.y_pos ≤ 25)
unfolding color_line color_char
char_position fg bg c w hx hy =
    let next : Writer = record w { x_pos = 0; y_pos = w.y_pos + 1 } in
    let (cleared, at) = color_clear-IsSteady fg bg next (omega arith) in
    (ground (arith, at), ground (arith, at))

breaks_lem :
    (w : Writer)
    → w.x_pos < 80
    → let v = color_page w in (v.screen ≡ w.screen) × ((v.x_pos < 80) × (v.y_pos < 25))
unfolding color_page
breaks_lem w hx = (ground arith, (ground arith, ground arith))

line-screen : (w : Writer) → (color_line w).screen ≡ w.screen
unfolding color_line
line-screen w = ground arith

-- From `w` on: the position on the screen again, and the bytes beyond it as they were.
pub record IsKept (w : Writer) (o : Option Writer) : Type 0 where
  pub after : Writer
  pub done : o ≡ some after
  pub placed : IsPlaced after
  pub stays : Stays w.screen.memory after.screen.memory

loop-IsKept :
    (fg bg : ℕ) (text : List ℕ) (w : Writer)
    → IsPlaced w
    → IsKept w (some (color_loop fg bg text w))
unfolding color_loop
loop-IsKept fg bg [] w placed = record {
  after = w;
  done = refl;
  placed = placed;
  stays = λ a beyond. refl;
}
loop-IsKept fg bg (c ∷ text) w (on, (hx, hy)) =
    let acted = color_char fg bg c w in
    let (steady, (x, y)) = char-IsSteady fg bg c w hx hy in
    let (same, there) = breaks_lem (color_line acted) (char_position fg bg c w hx hy).0 in
    let screen = same ∙ line-screen acted in
    let rest =
      loop-IsKept fg bg text (color_page (color_line acted)) (rw (screen, x, y) on, there) in
    record {
      after = rest.after;
      done = rest.done;
      placed = rest.placed;
      stays = λ a beyond.
          rest.stays a beyond ∙ ap (λ (s : Screen). load8 s.memory a) screen ∙ steady a beyond;
    }

pub printf-IsKept : (text : List ℕ) (w : Writer) → IsPlaced w → IsKept w (printf text w)
unfolding printf
printf-IsKept text w (on, there) =
    let kept = put_all-IsKept text w.screen on in
    record {
      after = record w { screen = kept.after };
      done = rw kept.done refl;
      placed = (kept.on_screen, there);
      stays = kept.stays;
    }

begun_lem :
    (flag : ℕ) (v : Writer)
    → (v.x_pos < 80) × (v.y_pos < 25)
    → let begun : Writer = if flag == 1 then at_home v else v in
      (begun.screen ≡ v.screen) × ((begun.x_pos < 80) × (begun.y_pos < 25))
begun_lem flag v (hx, hy) = (ground arith, (ground arith, ground arith))

-- From positions on the screen, whatever text `fb_print_color` prints, with its warning, in which colours, and
-- with the reset or without it, the call returns, both positions are on the screen again, and no byte
-- before the screen or behind the row that follows its last one has changed.
pub fb_print_color-IsKept :
    (text : List ℕ) (flag fg bg : ℕ) (w : Writer)
    → IsPlaced w
    → IsKept w (fb_print_color text flag fg bg w)
unfolding fb_print_color
fb_print_color-IsKept text flag fg bg w placed =
    let warned = printf-IsKept color_warning w placed in
    let v = warned.after in
    let near : is_lost v ≡ false = let (on, (hx, hy)) = warned.placed in ground arith in
    let begun : Writer = if flag == 1 then at_home v else v in
    let (same, there) = begun_lem flag v warned.placed.1 in
    let rest = loop-IsKept fg bg text begun (rw same warned.placed.0, there) in
    record {
      after = rest.after;
      done = rw (fb_print_color, warned.done, near) rest.done;
      placed = rest.placed;
      stays = λ a beyond.
          rest.stays a beyond ∙ ap (λ (s : Screen). load8 s.memory a) same ∙ warned.stays a beyond;
    }
