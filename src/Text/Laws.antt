-- ===== src/Text/Laws.antt =====
-- The functions of string.c on buffers that hold a text and are zero behind it.
use bbn_os.Base.{
  ℕ, zero, suc, ◌+◌, ◌-◌, ◌≤◌, ◌<◌, ◌≡◌, ◌≢◌, refl, sym, ap, ◌∙◌, Bool, true, false, not, ◌&&◌,
  some, List, [], ◌∷◌, ◌++◌, arith, ◌==◌, length, get_or,
}
use mathlib.Core.Path.{fun_ext}
use mathlib.Core.List.{append_assoc, append-nil}
use native.Mathlib.Nat.{add-zero}
use bbn_os.Base.{length-append}
use bbn_os.Text.{Buffer, put, strlen_from, strlen, strcpy_from, strcpy, strcat_from, strcat}

-- The buffer of a text.
abbrev pub text : List ℕ → Buffer
text s j = get_or s j 0

abbrev pub HasNoZero : List ℕ → Type 0
HasNoZero [] = Unit {0}
HasNoZero (c ∷ s) = (c ≢ 0) × HasNoZero s

pub HasNoZero-append : (s t : List ℕ) → HasNoZero s → HasNoZero t → HasNoZero (s ++ t)
HasNoZero-append [] t hs ht = ht
HasNoZero-append (c ∷ s) t (hc, hs) ht = (hc, HasNoZero-append s t hs ht)

-- Reading behind a first part.
pub text-append : (u v : List ℕ) (j : ℕ) → text (u ++ v) (length u + j) ≡ text v j
text-append [] v j = ap (text v) (omega arith)
text-append (c ∷ u) v j =
    let shift : suc (length u) + j ≡ suc (length u + j) = omega arith in
    rw shift (text-append u v j)

-- Overwriting the character behind `u`.
put-text_at :
    (u v : List ℕ) (x c j : ℕ) → put (text (u ++ x ∷ v)) (length u) c j ≡ text (u ++ c ∷ v) j
put-text_at [] v x c zero = refl
put-text_at [] v x c (suc j) = ground arith
put-text_at (a ∷ u) v x c zero = ground arith
put-text_at (a ∷ u) v x c (suc j) = ground (arith, put-text_at u v x c j)

pub put-text : (u v : List ℕ) (x c : ℕ) → put (text (u ++ x ∷ v)) (length u) c ≡ text (u ++ c ∷ v)
put-text u v x c = fun_ext λ j. put-text_at u v x c j

-- Zeros behind a text do not show.
zero_behind : (u : List ℕ) (j : ℕ) → text (u ++ 0 ∷ []) j ≡ text u j
zero_behind [] zero = refl
zero_behind [] (suc j) = refl
zero_behind (a ∷ u) zero = refl
zero_behind (a ∷ u) (suc j) = zero_behind u j

pub text-zero : (u : List ℕ) → text (u ++ 0 ∷ []) ≡ text u
text-zero u = fun_ext λ j. zero_behind u j

pub text_past : (u : List ℕ) (j : ℕ) → length u ≤ j → text u j ≡ 0
text_past [] j h = refl
text_past (a ∷ u) zero h = absurd (omega arith)
text_past (a ∷ u) (suc j) h = text_past u j (omega arith)

unfoldable pub has_no_zero : List ℕ → Bool
has_no_zero [] = true
has_no_zero (c ∷ s) = not (c == 0) && has_no_zero s

-- A check that computes.
pub HasNoZero-of_check : (s : List ℕ) → has_no_zero s ≡ true → HasNoZero s
unfolding has_no_zero
HasNoZero-of_check [] h = tt
HasNoZero-of_check (c ∷ s) h = (ground arith, HasNoZero-of_check s (ground arith))

-- `b` holds the text `s` from index `k` on, and a zero behind it.
abbrev pub Reads : Buffer → ℕ → List ℕ → Type 0
Reads b k [] = b k ≡ 0
Reads b k (c ∷ s) = (b k ≡ c) × (c ≢ 0) × Reads b (k + 1) s

behind : (u : List ℕ) (c : ℕ) → length (u ++ c ∷ []) ≡ length u + 1
behind u c = length-append u (c ∷ [])

Reads-behind : (u s : List ℕ) → HasNoZero s → Reads (text (u ++ s)) (length u) s
Reads-behind u [] h = rw add-zero at (text-append u [] 0)
Reads-behind u (c ∷ s) (hc, hs) =
    let here : text (u ++ c ∷ s) (length u) ≡ c = rw add-zero at (text-append u (c ∷ s) 0) in
    let rest = rw (append_assoc u (c ∷ []) s, behind u c) at (Reads-behind (u ++ c ∷ []) s hs) in
    (here, hc, rest)

pub text-Reads : (s : List ℕ) → HasNoZero s → Reads (text s) 0 s
text-Reads s h = Reads-behind [] s h

strlen_from-Reads :
    (n : ℕ) (b : Buffer) (k : ℕ) (s : List ℕ)
    → Reads b k s
    → length s < n
    → strlen_from n b k ≡ some (k + length s)
unfolding strlen_from
strlen_from-Reads zero b k s r h = absurd (omega arith)
strlen_from-Reads (suc n) b k [] r h = ground arith
strlen_from-Reads (suc n) b k (c ∷ s) (e, ne, r) h =
    ground (arith, strlen_from-Reads n b (k + 1) s r)

pub strlen-text :
    (size : ℕ) (s : List ℕ) → HasNoZero s → length s < size → strlen size (text s) ≡ some (length s)
unfolding strlen
strlen-text size s h fits =
    strlen_from-Reads size (text s) 0 s (text-Reads s h) fits ∙ ap (λ x. some x) (omega arith)

-- Writing the first character behind a text.
pub put_behind : (u : List ℕ) (c : ℕ) → put (text u) (length u) c ≡ text (u ++ c ∷ [])
put_behind u c = ap (λ (b : Buffer). put b (length u) c) (sym (text-zero u)) ∙ put-text u [] 0 c

strcat_from-Reads :
    (n : ℕ) (src : Buffer) (k : ℕ) (s u : List ℕ)
    → Reads src k s
    → length s < n
    → strcat_from n src (text u) k (length u) ≡ some (text (u ++ s))
unfolding strcat_from
strcat_from-Reads zero src k s u r h = absurd (omega arith)
strcat_from-Reads (suc n) src k [] u r h =
    let end : (src k == 0) ≡ true = ground arith in
    rw (strcat_from, end, append-nil u) (ap (λ x. some x) (put_behind u 0 ∙ text-zero u))
strcat_from-Reads (suc n) src k (c ∷ s) u (e, ne, r) h =
    let more : (src k == 0) ≡ false = ground arith in
    let next = strcat_from-Reads n src (k + 1) s (u ++ c ∷ []) r (omega arith) in
    rw (strcat_from, more, e, put_behind u c) (rw (behind u c, append_assoc u (c ∷ []) s) at next)

-- Where `src` holds the text `s`, and the destination holds a text `t` without a zero in it and is
-- zero behind that, `strcat` leaves both behind one another, if they and a terminator fit.
pub strcat-text :
    (size : ℕ) (src : Buffer) (s t : List ℕ)
    → Reads src 0 s
    → HasNoZero t
    → length t + length s < size
    → strcat size src (text t) ≡ some (text (t ++ s))
unfolding strcat
strcat-text size src s t r h fits =
    rw (strlen-text size t h (omega arith))
      (strcat_from-Reads (size - length t) src 0 s t r (omega arith))

strcpy_from-Reads :
    (n : ℕ) (src : Buffer) (k : ℕ) (s u v : List ℕ)
    → Reads src k s
    → length u ≡ k
    → length v ≤ length s
    → length s < n
    → strcpy_from n src (text (u ++ v)) k ≡ some (text (u ++ s))
unfolding strcpy_from
strcpy_from-Reads zero src k s u v r at fits h = absurd (omega arith)
strcpy_from-Reads (suc n) src k [] u [] r at fits h = ground arith
strcpy_from-Reads (suc n) src k [] u (x ∷ v) r at fits h = absurd (omega arith)
strcpy_from-Reads (suc n) src k (c ∷ s) u [] (e, ne, r) at fits h =
    let more : (src k == 0) ≡ false = ground arith in
    let next =
      strcpy_from-Reads n src (k + 1) s (u ++ c ∷ []) [] r (omega (arith, behind u c)) (omega arith)
        (omega arith) in
    rw (strcpy_from, more, e, append-nil u, ← at, put_behind u c)
      (rw (append-nil (u ++ c ∷ []), append_assoc u (c ∷ []) s, ← at) at next)
strcpy_from-Reads (suc n) src k (c ∷ s) u (x ∷ v) (e, ne, r) at fits h =
    let more : (src k == 0) ≡ false = ground arith in
    let next =
      strcpy_from-Reads n src (k + 1) s (u ++ c ∷ []) v r (omega (arith, behind u c)) (omega arith)
        (omega arith) in
    rw (strcpy_from, more, e, ← at, put-text u v x c)
      (rw (append_assoc u (c ∷ []) v, append_assoc u (c ∷ []) s, ← at) at next)

-- `strcpy` leaves the source, where it is at least as long as what was there: it writes no
-- terminator.
pub strcpy-text :
    (size : ℕ) (src : Buffer) (s t : List ℕ)
    → Reads src 0 s
    → length t ≤ length s
    → length s < size
    → strcpy size src (text t) ≡ some (text s)
unfolding strcpy
strcpy-text size src s t r long fits = strcpy_from-Reads size src 0 s [] t r refl long fits
