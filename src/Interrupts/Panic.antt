-- ===== src/Interrupts/Panic.antt =====
-- kernel/uefi/interrupts.c and kernel/uefi/kmisc.c: the handlers of exceptions. A result is the console in
-- the endless loop that each of them ends with.
pub mod Tests
use bbn_os.Base.{
  ℕ, zero, suc, ◌+◌, ◌-◌, ◌*◌, ◌/◌, ◌%◌, ◌^◌, ◌≤◌, ◌<◌, ◌≡◌, ◌≢◌, ◌⊎◌, ◌↔◌, inl, inr, refl, sym, ap,
  ◌∙◌, Bool, true, false, not, ◌&&◌, ◌||◌, Option, none, some, List, [], ◌∷◌, ◌++◌, arith, ◌==◌,
  ltb, leb, if◌then◌else◌, Bool-cases, ==_iff, ==_self, ==_ne, add64, sub64, mul64, ◌>>=◌, min,
  bit_and, bit_or, length, get_or,
}
use mathlib.Core.List.{append-nil}
use bbn_os.Text.{Buffer}
use bbn_os.Text.Laws.{HasNoZero, Reads, text-Reads}
use bbn_os.Printf.{literal}
use bbn_os.Format.{Arg, string, DoubleOps}
use bbn_os.Format.Convert.{vprintf}
use bbn_os.Format.Pieces.{
  Piece, plain, string_of, format_of, arguments_of, shown_of, AllPieces, vprintf-pieces,
}
use bbn_os.Console.{
  Console, Psf1Font, fb_clear_screen, fb_reset_cursor, fb_set_color, put_all, fill_rows,
}
use bbn_os.Console.Frame.{IsLinear}
use bbn_os.Console.Put.{IsScreen, IsOnScreen, IsDrawnOn, IsPrinted, filled, drawn_twice}
use bbn_os.Console.Run.{put_all-IsPrinted}

abbrev pub double_fault_text : List ℕ
double_fault_text =
    b'#' ∷ b'D' ∷ b'F' ∷ b' ' ∷ b'D' ∷ b'o' ∷ b'u' ∷ b'b' ∷ b'l' ∷ b'e' ∷ b' ' ∷ b'F' ∷ b'a' ∷ b'u'
    ∷ b'l' ∷ b't' ∷ b' ' ∷ b'D' ∷ b'e' ∷ b't' ∷ b'e' ∷ b'c' ∷ b't' ∷ b'e' ∷ b'd' ∷ []

abbrev pub protection_text : List ℕ
protection_text =
    b'#' ∷ b'G' ∷ b'P' ∷ b' ' ∷ b'G' ∷ b'e' ∷ b'n' ∷ b'e' ∷ b'r' ∷ b'a' ∷ b'l' ∷ b' ' ∷ b'P' ∷ b'r'
    ∷ b'o' ∷ b't' ∷ b'e' ∷ b'c' ∷ b't' ∷ b'i' ∷ b'o' ∷ b'n' ∷ b' ' ∷ b'd' ∷ b'e' ∷ b't' ∷ b'e'
    ∷ b'c' ∷ b't' ∷ b'e' ∷ b'd' ∷ b'.' ∷ 10 ∷ []

abbrev pub page_fault_text : List ℕ
page_fault_text =
    b'#' ∷ b'P' ∷ b'F' ∷ b' ' ∷ b'P' ∷ b'a' ∷ b'g' ∷ b'e' ∷ b' ' ∷ b'F' ∷ b'a' ∷ b'u' ∷ b'l' ∷ b't'
    ∷ b' ' ∷ b'd' ∷ b'e' ∷ b't' ∷ b'e' ∷ b'c' ∷ b't' ∷ b'e' ∷ b'd' ∷ b'.' ∷ 10 ∷ []

abbrev pub panic_prefix : List ℕ
panic_prefix =
    b'K' ∷ b'e' ∷ b'r' ∷ b'n' ∷ b'e' ∷ b'l' ∷ b' ' ∷ b'P' ∷ b'a' ∷ b'n' ∷ b'i' ∷ b'c' ∷ b':' ∷ b' '
    ∷ []

module _ {F : Type 0} (ops : DoubleOps F) where
  -- `printf` on the console: each character that `vprintf` shows goes to `fb_putchar`.
  unfoldable pub console_printf : (format : List ℕ) → List (Arg F) → Console → Option Console
  console_printf format args s = vprintf ops format args >>= λ out. put_all s out.shown

  -- The message is in an array of `size` characters.
  unfoldable pub k_panic : (size : ℕ) → (panic_message : Buffer) → Console → Option Console
  k_panic size panic_message s =
      let cleared = fb_set_color (fb_reset_cursor (fb_clear_screen s 0x00ff0000) 0 0) 0 in
      console_printf (panic_prefix ++ b'%' ∷ b's' ∷ []) (string size panic_message ∷ []) cleared

  unfoldable pub ex_handler_df : Console → Option Console
  ex_handler_df s = console_printf double_fault_text [] s

  unfoldable pub ex_handler_gp : Console → Option Console
  ex_handler_gp s = k_panic (length protection_text + 1) (literal protection_text) s

  unfoldable pub ex_handler_pf : Console → Option Console
  ex_handler_pf s = k_panic (length page_fault_text + 1) (literal page_fault_text) s

-- No character of a text is zero, and none is `%`.
abbrev is_clean : List ℕ → Bool
is_clean [] = true
is_clean (c ∷ cs) = not (c == 0) && (not (c == b'%') && is_clean cs)

clean_more :
    (c : ℕ) (cs : List ℕ)
    → is_clean (c ∷ cs) ≡ true
    → (c ≢ 0) × (((c == b'%') ≡ false) × (is_clean cs ≡ true))
clean_more c cs h = (ground arith, (ground arith, ground arith))

clean-HasNoZero : (s : List ℕ) → is_clean s ≡ true → HasNoZero s
clean-HasNoZero [] h = tt
clean-HasNoZero (c ∷ s) h = let (nz, (np, rest)) = clean_more c s h in (nz, clean-HasNoZero s rest)

-- The pieces of a text that is shown as it stands, with others behind it.
abbrev plain_all : List ℕ → List Piece → List Piece
plain_all [] ps = ps
plain_all (c ∷ cs) ps = plain c ∷ plain_all cs ps

plain_all-AllPieces :
    (cs : List ℕ) (ps : List Piece)
    → is_clean cs ≡ true
    → AllPieces ps
    → AllPieces (plain_all cs ps)
plain_all-AllPieces [] ps h ok = ok
plain_all-AllPieces (c ∷ cs) ps h ok =
    let (nz, (np, rest)) = clean_more c cs h in (np, plain_all-AllPieces cs ps rest ok)

-- The console that a panic prints on: all of it red, the cursor at the first character.
abbrev pub red_screen : Console → Console
red_screen s = record s {
  memory =
      fill_rows s.fb_info 0x00ff0000 s.fb_info.pixels_per_scanline 0 0 s.fb_info.height s.memory;
  cursor_x = 0;
  cursor_y = 0;
  color = 0;
}

-- The handler has printed a text behind the words of a panic on a red screen, and the result is as IsPrinted
-- says.
pub record IsPanic (s : Console) (text : List ℕ) (o : Option Console) : Type 0 where
  pub shown : o ≡ put_all (red_screen s) (panic_prefix ++ text)
  pub printed : IsPrinted s o

module _ {F : Type 0} (ops : DoubleOps F) where
  double_fault-shown : (s : Console) → ex_handler_df ops s ≡ put_all s double_fault_text
  unfolding ex_handler_df console_printf
  double_fault-shown s =
      let pieces : List Piece = plain_all double_fault_text [] in
      let run : vprintf ops double_fault_text []
          ≡ some (record { shown = double_fault_text; stored = []; chars = 25 }) =
        vprintf-pieces ops pieces (plain_all-AllPieces double_fault_text [] refl tt)
          (omega arith) in
      rw (ex_handler_df, console_printf, run) refl

  k_panic-shown :
      (text : List ℕ) (s : Console)
      → is_clean text ≡ true
      → length text < 2 ^ 30
      → k_panic ops (length text + 1) (literal text) s
        ≡ put_all (red_screen s) (panic_prefix ++ text)
  unfolding k_panic console_printf fb_clear_screen fb_reset_cursor fb_set_color
  k_panic-shown text s h fits =
      let pieces : List Piece =
        plain_all panic_prefix (string_of (length text + 1) (literal text) text ∷ []) in
      let ok : AllPieces pieces =
        plain_all-AllPieces panic_prefix (string_of (length text + 1) (literal text) text ∷ []) refl
          ((text-Reads text (clean-HasNoZero text h), omega arith), tt) in
      let same = append-nil text in
      let run : vprintf ops (panic_prefix ++ b'%' ∷ b's' ∷ [])
            (string (length text + 1) (literal text) ∷ [])
          ≡ some
              (record { shown = shown_of pieces; stored = []; chars = length (shown_of pieces) }) =
        vprintf-pieces ops pieces ok (rw same (omega arith)) in
      rw (k_panic, console_printf, run) (rw same refl)

  -- A panic with a text that is neither long nor holds a `%`.
  k_panic-IsPanic :
      (text : List ℕ) (s : Console) (font : Psf1Font)
      → is_clean text ≡ true
      → length text < 2 ^ 30
      → s.ft ≡ some font
      → IsScreen s.fb_info
      → IsLinear s.fb_info
      → IsPanic s text (k_panic ops (length text + 1) (literal text) s)
  k_panic-IsPanic text s font h fits e screen linear =
      let shown = k_panic-shown text s h fits in
      let (t, done, on, drawn) =
        put_all-IsPrinted (panic_prefix ++ text) (red_screen s) font e screen linear
          (omega arith, omega arith) in
      let cleared = filled s linear 0x00ff0000 s.fb_info.pixels_per_scanline 0 0 s.fb_info.height in
      record {
        shown = shown;
        printed = (t, shown ∙ done, on, drawn_twice s (red_screen s) t cleared drawn);
      }

-- What the three handlers of exceptions leave on the console.
pub record IsReported {F : Type 0} (ops : DoubleOps F) (s : Console) : Type 0 where
  pub double_fault : ex_handler_df ops s ≡ put_all s double_fault_text
  pub printed : IsPrinted s (ex_handler_df ops s)
  pub protection : IsPanic s protection_text (ex_handler_gp ops s)
  pub page_fault : IsPanic s page_fault_text (ex_handler_pf ops s)

-- With a font, on a screen that is large enough and whose scan lines have room for its pixels (IsScreen,
-- IsLinear), and from a cursor on the screen, the three handlers of exceptions come to their endless loops. The
-- one of a double fault has then printed its message where the cursor was, the other two theirs behind the
-- words of a panic on a screen that was cleared in red; the cursor is on the screen, and no byte outside the
-- visible rows of the frame buffer has changed.
pub handlers-IsReported :
    {F : Type 0} (ops : DoubleOps F) (s : Console) (font : Psf1Font)
    → s.ft ≡ some font
    → IsScreen s.fb_info
    → IsLinear s.fb_info
    → IsOnScreen s
    → IsReported ops s
unfolding ex_handler_gp ex_handler_pf
handlers-IsReported ops s font e screen linear on =
    let shown = double_fault-shown ops s in
    let (t, done, on_t, drawn) = put_all-IsPrinted double_fault_text s font e screen linear on in
    record {
      double_fault = shown;
      printed = (t, shown ∙ done, on_t, drawn);
      protection = k_panic-IsPanic ops protection_text s font refl (omega arith) e screen linear;
      page_fault = k_panic-IsPanic ops page_fault_text s font refl (omega arith) e screen linear;
    }
