-- ===== src/Legacy/Bounds.antt =====
-- The text screen stays within its rows.
use bbn_os.Base.{
  ℕ, ◌+◌, ◌*◌, ◌≤◌, ◌<◌, ◌≡◌, ◌⊎◌, inl, inr, refl, ap, ◌∙◌, true, Option, some, List, [], ◌∷◌,
  arith, leb, Bool-cases,
}
use bbn_os.Base.Loop.{count_up, count_up_inv}
use bbn_os.Memory.{Memory, load8}
use bbn_os.Legacy.{
  Screen, fb, fb_write_cell, fb_move_cursor, blank_row, fb_new_line, fb_print, fb_act,
  fb_break_line, fb_break_page, fb_putchar, put_all,
}

-- The bytes before the screen, and those behind the row that follows its last one.
abbrev pub IsBeyond : ℕ → Type 0
IsBeyond a = (a < fb) ⊎ (fb + 26 * 160 ≤ a)

-- From `s` to `t`: no byte beyond the screen has changed.
abbrev pub Stays : Memory → Memory → Type 0
Stays m m' = (a : ℕ) → IsBeyond a → load8 m' a ≡ load8 m a

pub cell-Stays :
    (m : Memory) (i c fg bg : ℕ) → i + 1 < 26 * 160 → Stays m (fb_write_cell m i c fg bg)
unfolding fb_write_cell
cell-Stays m i c fg bg h a beyond = ground arith

blank_row-Stays : (m : Memory) (row fg bg : ℕ) → row < 26 → Stays m (blank_row m row fg bg)
unfolding blank_row
blank_row-Stays m row fg bg h =
    count_up_inv (λ _ m'. Stays m m') (λ i m'. fb_write_cell m' ((row * 80 + i) * 2) b' ' fg bg) 80
      0 80 m (omega arith)
      (λ i m' lt stays a beyond.
        cell-Stays m' ((row * 80 + i) * 2) b' ' fg bg (omega arith) a beyond ∙ stays a beyond)
      (λ a beyond. refl)

-- The position is one of the 80 by 25 cells.
abbrev pub IsOnScreen : Screen → Type 0
IsOnScreen s = (s.x_pos < 80) × (s.y_pos < 25)

act-Stays : (s : Screen) (c fg bg : ℕ) → IsOnScreen s → Stays s.memory (fb_act s c fg bg).memory
unfolding fb_act fb_new_line fb_print fb_move_cursor
act-Stays s c fg bg (hx, hy) a beyond = ground (
  arith,
  blank_row-Stays s.memory (s.y_pos + 1) fg bg (omega arith) a beyond,
  cell-Stays s.memory ((s.y_pos * 80 + s.x_pos) * 2) c fg bg (omega arith) a beyond,
)

-- A character leaves the position on the screen, or at the end of its row or of the screen.
act_position :
    (s : Screen) (c fg bg : ℕ)
    → IsOnScreen s
    → let t = fb_break_line (fb_act s c fg bg) in (t.x_pos < 80) × (t.y_pos ≤ 25)
unfolding fb_break_line fb_act fb_new_line fb_print fb_move_cursor
act_position s c fg bg (hx, hy) = (ground arith, ground arith)

line-memory : (s : Screen) → (fb_break_line s).memory ≡ s.memory
unfolding fb_break_line
line-memory s = ground arith

-- The loop that clears the first row.
first_row :
    (s : Screen) (fg bg : ℕ)
    → let t =
        count_up 80 0
          (λ i t.
            fb_move_cursor (record t { memory = fb_write_cell t.memory (i * 2) b' ' fg bg }) 0)
          s in
      Stays s.memory t.memory × ((t.x_pos ≡ s.x_pos) × (t.y_pos ≡ s.y_pos))
unfolding fb_move_cursor
first_row s fg bg =
    count_up_inv (λ _ t. Stays s.memory t.memory × ((t.x_pos ≡ s.x_pos) × (t.y_pos ≡ s.y_pos)))
      (λ i t. fb_move_cursor (record t { memory = fb_write_cell t.memory (i * 2) b' ' fg bg }) 0) 80
      0 80 s (omega arith)
      (λ i t lt (stays, at). (
        λ a beyond. cell-Stays t.memory (i * 2) b' ' fg bg (omega arith) a beyond ∙ stays a beyond,
        at,
      ))
      ((λ a beyond. refl), (refl, refl))

page-Stays :
    (s : Screen) (fg bg : ℕ)
    → s.x_pos < 80
    → let t = fb_break_page s fg bg in Stays s.memory t.memory × IsOnScreen t
unfolding fb_break_page
page-Stays s fg bg hx = elim (Bool-cases (leb 25 s.y_pos)) [
  | inl full ↦
      let (stays, (x, y)) = first_row (record s { x_pos = 0; y_pos = 0; clear = true }) fg bg in
      rw (fb_break_page, full) (stays, (omega arith, omega arith))
  | inr room ↦ rw (fb_break_page, room) ((λ a beyond. refl), (hx, ground arith))
]

-- What a run of characters leaves: the position on the screen, and the bytes beyond it.
pub record IsKept (s : Screen) (o : Option Screen) : Type 0 where
  pub after : Screen
  pub done : o ≡ some after
  pub on_screen : IsOnScreen after
  pub stays : Stays s.memory after.memory

putchar-IsKept : (s : Screen) (c fg bg : ℕ) → IsOnScreen s → IsKept s (fb_putchar s c fg bg)
unfolding fb_putchar
putchar-IsKept s c fg bg (hx, hy) =
    let acted = fb_act s c fg bg in
    let broken = fb_break_line acted in
    let (stays, there) = page-Stays broken fg bg (act_position s c fg bg (hx, hy)).0 in
    record {
      after = fb_break_page broken fg bg;
      done = ground arith;
      on_screen = there;
      stays = λ a beyond.
          stays a beyond
          ∙ ap (λ m. load8 m a) (line-memory acted)
          ∙ act-Stays s c fg bg (hx, hy) a beyond;
    }

-- From a position on the screen, whatever characters are printed, every call returns, the position is
-- on the screen again, and no byte before the screen or behind the row that follows its last one has
-- changed.
pub put_all-IsKept : (cs : List ℕ) (s : Screen) → IsOnScreen s → IsKept s (put_all cs s)
unfolding put_all
put_all-IsKept [] s on = record { after = s; done = refl; on_screen = on; stays = λ a beyond. refl }
put_all-IsKept (c ∷ cs) s on =
    let first = putchar-IsKept s c 15 0 on in
    let rest = put_all-IsKept cs first.after first.on_screen in
    record {
      after = rest.after;
      done = rw (put_all, first.done) rest.done;
      on_screen = rest.on_screen;
      stays = λ a beyond. rest.stays a beyond ∙ first.stays a beyond;
    }
