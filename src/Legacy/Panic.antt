-- ===== src/Legacy/Panic.antt =====
-- kernel/legacy/isr.c: `exception_handler`, which prints what the processor pushed.
use bbn_os.Base.{
  ℕ, zero, suc, ◌*◌, ◌^◌, ◌<◌, ◌≡◌, inl, inr, refl, Option, none, some, List, [], ◌∷◌, arith, ◌==◌,
  if◌then◌else◌, Bool-cases, ◌>>=◌, length,
}
use bbn_os.Legacy.Writer.{Writer, printf, fb_print_color, fb_print, fb_print_hex}
use bbn_os.Legacy.Writer.Bounds.{IsPlaced, IsKept, printf-IsKept, fb_print_color-IsKept}
use bbn_os.Legacy.Writer.Digits.{bind-IsKept, fb_print-IsKept}
use bbn_os.Legacy.Writer.Hex.{fb_print_hex-IsHexShown}

abbrev pub err_msg : List (List ℕ)
err_msg =
    (b'#' ∷ b'D' ∷ b'E' ∷ b' ' ∷ b'D' ∷ b'e' ∷ b'v' ∷ b'i' ∷ b'd' ∷ b'e' ∷ b' ' ∷ b'E' ∷ b'r' ∷ b'r'
      ∷ b'o' ∷ b'r' ∷ [])
    ∷ (b'#' ∷ b'D' ∷ b'B' ∷ b' ' ∷ b'R' ∷ b'E' ∷ b'S' ∷ b'E' ∷ b'R' ∷ b'V' ∷ b'E' ∷ b'D' ∷ [])
    ∷ (b'-' ∷ b'-' ∷ b' ' ∷ b' ' ∷ b'N' ∷ b'M' ∷ b'I' ∷ b' ' ∷ b'I' ∷ b'n' ∷ b't' ∷ b'e' ∷ b'r'
        ∷ b'r' ∷ b'u' ∷ b'p' ∷ b't' ∷ [])
    ∷ (b'#' ∷ b'B' ∷ b'P' ∷ b' ' ∷ b'B' ∷ b'r' ∷ b'e' ∷ b'a' ∷ b'k' ∷ b'p' ∷ b'o' ∷ b'i' ∷ b'n'
        ∷ b't' ∷ [])
    ∷ (b'#' ∷ b'O' ∷ b'F' ∷ b' ' ∷ b'O' ∷ b'v' ∷ b'e' ∷ b'r' ∷ b'f' ∷ b'l' ∷ b'o' ∷ b'w' ∷ [])
    ∷ (b'#' ∷ b'B' ∷ b'R' ∷ b' ' ∷ b'B' ∷ b'O' ∷ b'U' ∷ b'N' ∷ b'D' ∷ b' ' ∷ b'R' ∷ b'a' ∷ b'n'
        ∷ b'g' ∷ b'e' ∷ b' ' ∷ b'E' ∷ b'x' ∷ b'c' ∷ b'e' ∷ b'e' ∷ b'd' ∷ b'e' ∷ b'd' ∷ [])
    ∷ (b'#' ∷ b'U' ∷ b'D' ∷ b' ' ∷ b'I' ∷ b'n' ∷ b'v' ∷ b'a' ∷ b'l' ∷ b'i' ∷ b'd' ∷ b' ' ∷ b'O'
        ∷ b'p' ∷ b'c' ∷ b'o' ∷ b'd' ∷ b'e' ∷ b' ' ∷ b'(' ∷ b'U' ∷ b'n' ∷ b'd' ∷ b'e' ∷ b'f' ∷ b'i'
        ∷ b'n' ∷ b'e' ∷ b'd' ∷ b' ' ∷ b'O' ∷ b'p' ∷ b'c' ∷ b'o' ∷ b'd' ∷ b'e' ∷ b')' ∷ [])
    ∷ (b'#' ∷ b'N' ∷ b'M' ∷ b' ' ∷ b'D' ∷ b'e' ∷ b'v' ∷ b'i' ∷ b'c' ∷ b'e' ∷ b' ' ∷ b'N' ∷ b'o'
        ∷ b't' ∷ b' ' ∷ b'A' ∷ b'v' ∷ b'a' ∷ b'i' ∷ b'l' ∷ b'a' ∷ b'b' ∷ b'l' ∷ b'e' ∷ b' ' ∷ b'('
        ∷ b'N' ∷ b'o' ∷ b' ' ∷ b'M' ∷ b'a' ∷ b't' ∷ b'h' ∷ b' ' ∷ b'C' ∷ b'o' ∷ b'p' ∷ b'r' ∷ b'o'
        ∷ b'c' ∷ b'e' ∷ b's' ∷ b's' ∷ b'o' ∷ b'r' ∷ b')' ∷ [])
    ∷ (b'#' ∷ b'D' ∷ b'F' ∷ b' ' ∷ b'D' ∷ b'o' ∷ b'u' ∷ b'b' ∷ b'l' ∷ b'e' ∷ b' ' ∷ b'F' ∷ b'a'
        ∷ b'u' ∷ b'l' ∷ b't' ∷ [])
    ∷ (b' ' ∷ b' ' ∷ b' ' ∷ b' ' ∷ b'C' ∷ b'o' ∷ b'p' ∷ b'r' ∷ b'o' ∷ b'c' ∷ b'e' ∷ b's' ∷ b's'
        ∷ b'o' ∷ b'r' ∷ b' ' ∷ b'S' ∷ b'e' ∷ b'g' ∷ b'm' ∷ b'e' ∷ b'n' ∷ b't' ∷ b' ' ∷ b'O' ∷ b'v'
        ∷ b'e' ∷ b'r' ∷ b'r' ∷ b'u' ∷ b'n' ∷ b' ' ∷ b'(' ∷ b'r' ∷ b'e' ∷ b's' ∷ b'e' ∷ b'r' ∷ b'v'
        ∷ b'e' ∷ b'd' ∷ b')' ∷ [])
    ∷ (b'#' ∷ b'T' ∷ b'S' ∷ b' ' ∷ b'I' ∷ b'n' ∷ b'v' ∷ b'a' ∷ b'l' ∷ b'i' ∷ b'd' ∷ b' ' ∷ b'T'
        ∷ b'S' ∷ b'S' ∷ [])
    ∷ (b'#' ∷ b'N' ∷ b'P' ∷ b' ' ∷ b'S' ∷ b'e' ∷ b'g' ∷ b'm' ∷ b'e' ∷ b'n' ∷ b't' ∷ b' ' ∷ b'n'
        ∷ b'o' ∷ b't' ∷ b' ' ∷ b'P' ∷ b'r' ∷ b'e' ∷ b's' ∷ b'e' ∷ b'n' ∷ b't' ∷ [])
    ∷ (b'#' ∷ b'S' ∷ b'S' ∷ b' ' ∷ b'S' ∷ b't' ∷ b'a' ∷ b'c' ∷ b'k' ∷ b'-' ∷ b'S' ∷ b'e' ∷ b'g'
        ∷ b'm' ∷ b'e' ∷ b'n' ∷ b't' ∷ b' ' ∷ b'F' ∷ b'a' ∷ b'u' ∷ b'l' ∷ b't' ∷ [])
    ∷ (b'#' ∷ b'G' ∷ b'P' ∷ b' ' ∷ b'G' ∷ b'e' ∷ b'n' ∷ b'e' ∷ b'r' ∷ b'a' ∷ b'l' ∷ b' ' ∷ b'P'
        ∷ b'r' ∷ b'o' ∷ b't' ∷ b'e' ∷ b'c' ∷ b't' ∷ b'i' ∷ b'o' ∷ b'n' ∷ [])
    ∷ (b'#' ∷ b'P' ∷ b'F' ∷ b' ' ∷ b'P' ∷ b'a' ∷ b'g' ∷ b'e' ∷ b' ' ∷ b'F' ∷ b'a' ∷ b'u' ∷ b'l'
        ∷ b't' ∷ [])
    ∷ (b'-' ∷ b'-' ∷ b' ' ∷ b' ' ∷ b'(' ∷ b'I' ∷ b'n' ∷ b't' ∷ b'e' ∷ b'l' ∷ b' ' ∷ b'R' ∷ b'e'
        ∷ b's' ∷ b'e' ∷ b'r' ∷ b'v' ∷ b'e' ∷ b'd' ∷ b'.' ∷ b' ' ∷ b'D' ∷ b'o' ∷ b' ' ∷ b'n' ∷ b'o'
        ∷ b't' ∷ b' ' ∷ b'u' ∷ b's' ∷ b'e' ∷ b'.' ∷ b')' ∷ [])
    ∷ (b'#' ∷ b'M' ∷ b'F' ∷ b' ' ∷ b'x' ∷ b'8' ∷ b'7' ∷ b' ' ∷ b'F' ∷ b'P' ∷ b'U' ∷ b' ' ∷ b'F'
        ∷ b'l' ∷ b'o' ∷ b'a' ∷ b't' ∷ b'i' ∷ b'n' ∷ b'g' ∷ b'-' ∷ b'P' ∷ b'o' ∷ b'i' ∷ b'n' ∷ b't'
        ∷ b' ' ∷ b'E' ∷ b'r' ∷ b'r' ∷ b'o' ∷ b'r' ∷ b' ' ∷ b'(' ∷ b'M' ∷ b'a' ∷ b't' ∷ b'h' ∷ b' '
        ∷ b'F' ∷ b'a' ∷ b'u' ∷ b'l' ∷ b't' ∷ b')' ∷ [])
    ∷ (b'#' ∷ b'A' ∷ b'C' ∷ b' ' ∷ b'A' ∷ b'l' ∷ b'i' ∷ b'g' ∷ b'n' ∷ b'm' ∷ b'e' ∷ b'n' ∷ b't'
        ∷ b' ' ∷ b'C' ∷ b'h' ∷ b'e' ∷ b'c' ∷ b'k' ∷ [])
    ∷ (b'#' ∷ b'M' ∷ b'C' ∷ b' ' ∷ b'M' ∷ b'a' ∷ b'c' ∷ b'h' ∷ b'i' ∷ b'n' ∷ b'e' ∷ b' ' ∷ b'C'
        ∷ b'h' ∷ b'e' ∷ b'c' ∷ b'k' ∷ [])
    ∷ (b'#' ∷ b'X' ∷ b'F' ∷ b' ' ∷ b'S' ∷ b'I' ∷ b'M' ∷ b'D' ∷ b' ' ∷ b'F' ∷ b'l' ∷ b'o' ∷ b'a'
        ∷ b't' ∷ b'i' ∷ b'n' ∷ b'g' ∷ b'-' ∷ b'P' ∷ b'o' ∷ b'i' ∷ b'n' ∷ b't' ∷ b' ' ∷ b'E' ∷ b'x'
        ∷ b'c' ∷ b'e' ∷ b'p' ∷ b't' ∷ b'i' ∷ b'o' ∷ b'n' ∷ [])
    ∷ []

-- A message of the array; `none` is a read behind its end.
unfoldable pub message_at : List (List ℕ) → ℕ → Option (List ℕ)
message_at [] i = none
message_at (m ∷ ms) zero = some m
message_at (m ∷ ms) (suc i) = message_at ms i

unfoldable pub blanks : ℕ → List ℕ
blanks zero = []
blanks (suc n) = b' ' ∷ blanks n

-- Calls that print, one after the other.
abbrev Printing : Type 0
Printing = Writer → Option Writer

unfoldable pub run_all : List Printing → Printing
run_all [] w = some w
run_all (call ∷ calls) w = call w >>= λ v. run_all calls v

-- In red on black.
abbrev pub red : List ℕ → Printing
red text = fb_print_color text 0 4 0

abbrev pub line_end : List ℕ
line_end = 10 ∷ []

abbrev pub heading : List ℕ
heading =
    b'E' ∷ b'x' ∷ b'c' ∷ b'e' ∷ b'p' ∷ b't' ∷ b'i' ∷ b'o' ∷ b'n' ∷ b'!' ∷ b' ' ∷ b'-' ∷ b'-' ∷ b'>'
    ∷ b' ' ∷ []

-- The calls on the registers.
abbrev pub registers : (eip cs cflags : ℕ) → List Printing
registers eip cs cflags =
    fb_print line_end
    ∷ red (
        b'-' ∷ b'-' ∷ b'-' ∷ b'-' ∷ b'-' ∷ b'-' ∷ b'-' ∷ b'-' ∷ b'-' ∷ b'-' ∷ b'-' ∷ b'-' ∷ b'-'
        ∷ b'-' ∷ b'-' ∷ b'-' ∷ b'-' ∷ b'-' ∷ b'-' ∷ b'-' ∷ b'-' ∷ b'-' ∷ b'-' ∷ b'-' ∷ b'-' ∷ b'-'
        ∷ b'-' ∷ b'-' ∷ b'-' ∷ b'-' ∷ [])
    ∷ fb_print line_end
    ∷ fb_print (b'E' ∷ b'F' ∷ b'L' ∷ b'A' ∷ b'G' ∷ b'S' ∷ b':' ∷ b' ' ∷ [])
    ∷ fb_print_hex cflags
    ∷ fb_print line_end
    ∷ fb_print (b'C' ∷ b'S' ∷ b':' ∷ b' ' ∷ [])
    ∷ fb_print_hex cs
    ∷ fb_print line_end
    ∷ fb_print (b'E' ∷ b'I' ∷ b'P' ∷ b':' ∷ b' ' ∷ [])
    ∷ fb_print_hex eip
    ∷ fb_print line_end
    ∷ []

-- The error code, where there is one.
abbrev pub error_part : (error_code : ℕ) → List Printing
error_part error_code =
    if error_code == 0xFFFFFFFF
    then []
    else fb_print
        (b'E' ∷ b'r' ∷ b'r' ∷ b'o' ∷ b'r' ∷ b' ' ∷ b'C' ∷ b'o' ∷ b'd' ∷ b'e' ∷ b':' ∷ b' ' ∷ [])
      ∷ fb_print_hex error_code
      ∷ fb_print line_end
      ∷ []

unfoldable pub exception_handler : (vec_no error_code eip cs cflags : ℕ) → Writer → Option Writer
exception_handler vec_no error_code eip cs cflags w = do
  v ← printf (blanks (80 * 10)) w
  u ← fb_print_color heading 1 4 0 v
  message ← message_at err_msg vec_no
  t ← red message u
  s ← run_all (registers eip cs cflags) t
  r ← run_all (error_part error_code) s
  red
      (b'-' ∷ b'-' ∷ b'-' ∷ b'-' ∷ b'-' ∷ b'-' ∷ b'-' ∷ b'-' ∷ b'-' ∷ b'-' ∷ b'-' ∷ b' ' ∷ b'P'
        ∷ b'A' ∷ b'N' ∷ b'I' ∷ b'C' ∷ b' ' ∷ b'-' ∷ b'-' ∷ b'-' ∷ b'-' ∷ b'-' ∷ b'-' ∷ b'-' ∷ b'-'
        ∷ b'-' ∷ b'-' ∷ b'-' ∷ b'-' ∷ [])
      r

-- Every call of a list keeps to the screen.
abbrev AllKeep : List Printing → Type 0
AllKeep [] = Unit {0}
AllKeep (call ∷ calls) = ((w : Writer) → IsPlaced w → IsKept w (call w)) × AllKeep calls

run_all-IsKept :
    (calls : List Printing) → AllKeep calls → (w : Writer) → IsPlaced w → IsKept w (run_all calls w)
unfolding run_all
run_all-IsKept [] keep w placed = record {
  after = w;
  done = refl;
  placed = placed;
  stays = λ a beyond. refl;
}
run_all-IsKept (call ∷ calls) (first, keep) w placed =
    bind-IsKept w (call w) (run_all calls) (first w placed)
      (λ v there. run_all-IsKept calls keep v there)

text_keeps : (text : List ℕ) (w : Writer) → IsPlaced w → IsKept w (fb_print text w)
text_keeps text w placed = fb_print-IsKept text w placed

red_keeps : (text : List ℕ) (w : Writer) → IsPlaced w → IsKept w (red text w)
red_keeps text w placed = fb_print_color-IsKept text 0 4 0 w placed

hex_keeps : (num : ℕ) → num < 2 ^ 32 → (w : Writer) → IsPlaced w → IsKept w (fb_print_hex num w)
hex_keeps num small w placed = (fb_print_hex-IsHexShown num w small placed).returns

registers_keep :
    (eip cs cflags : ℕ)
    → eip < 2 ^ 32
    → cs < 2 ^ 32
    → cflags < 2 ^ 32
    → AllKeep (registers eip cs cflags)
registers_keep eip cs cflags he hc hf = (
  text_keeps _,
  (
    red_keeps _,
    (
      text_keeps _,
      (
        text_keeps _,
        (
          hex_keeps cflags hf,
          (
            text_keeps _,
            (
              text_keeps _,
              (
                hex_keeps cs hc,
                (text_keeps _, (text_keeps _, (hex_keeps eip he, (text_keeps _, tt)))),
              ),
            ),
          ),
        ),
      ),
    ),
  ),
)

error_keeps : (error_code : ℕ) → error_code < 2 ^ 32 → AllKeep (error_part error_code)
error_keeps error_code h = elim (Bool-cases (error_code == 0xFFFFFFFF)) [
  | inl absent ↦ rw absent tt
  | inr present ↦ rw present (text_keeps _, (hex_keeps error_code h, (text_keeps _, tt)))
]

message_there :
    (ms : List (List ℕ)) (i : ℕ) → i < length ms → (m : List ℕ) × (message_at ms i ≡ some m)
unfolding message_at
message_there [] i h = absurd (ground arith)
message_there (m ∷ ms) zero h = (m, refl)
message_there (m ∷ ms) (suc i) h = message_there ms i (ground arith)

-- From positions on the screen, for one of the twenty vectors that have a message, and 32-bit values, the
-- handler of an exception returns, whatever the error code is: both positions are on the screen again,
-- and no byte before the screen or behind the row that follows its last one has changed.
pub exception_handler-IsKept :
    (vec_no error_code eip cs cflags : ℕ) (w : Writer)
    → vec_no < 20
    → error_code < 2 ^ 32
    → eip < 2 ^ 32
    → cs < 2 ^ 32
    → cflags < 2 ^ 32
    → IsPlaced w
    → IsKept w (exception_handler vec_no error_code eip cs cflags w)
unfolding exception_handler
exception_handler-IsKept vec_no error_code eip cs cflags w listed he hi hc hf placed =
    let (message, found) = message_there err_msg vec_no listed in
    rw (exception_handler, found)
      (bind-IsKept w (printf (blanks 800) w) _ (printf-IsKept (blanks 800) w placed) (λ v at_v.
        bind-IsKept v (fb_print_color heading 1 4 0 v) _
          (fb_print_color-IsKept heading 1 4 0 v at_v)
          (λ u at_u. bind-IsKept u (red message u) _ (red_keeps message u at_u) (λ t at_t.
            bind-IsKept t (run_all (registers eip cs cflags) t) _
              (run_all-IsKept (registers eip cs cflags) (registers_keep eip cs cflags hi hc hf) t
                at_t)
              (λ s at_s.
                bind-IsKept s (run_all (error_part error_code) s) _
                  (run_all-IsKept (error_part error_code) (error_keeps error_code he) s at_s)
                  (λ r at_r. red_keeps _ r at_r))))))
