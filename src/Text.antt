-- ===== src/Text.antt =====
-- lib/uefi/string.c: strings that end in a zero, in arrays of `char`. An array is a function from its
-- indices; `size` is the number of its elements, and `none` a read or a write past them.
pub mod Laws
pub mod Tests
use bbn_os.Base.{
  ℕ, zero, suc, ◌+◌, ◌-◌, ◌*◌, ◌/◌, ◌%◌, ◌^◌, ◌≤◌, ◌<◌, ◌≡◌, ◌≢◌, ◌⊎◌, ◌↔◌, inl, inr, refl, sym, ap,
  ◌∙◌, Bool, true, false, not, ◌&&◌, ◌||◌, Option, none, some, List, [], ◌∷◌, ◌++◌, arith, ◌==◌,
  ltb, leb, if◌then◌else◌, Bool-cases, ==_iff, ==_self, ==_ne, add64, sub64, mul64, ◌>>=◌, min,
  bit_and, bit_or, length, get_or,
}

abbrev pub Buffer : Type 0
Buffer = ℕ → ℕ

abbrev pub put : Buffer → ℕ → ℕ → Buffer
put b k c x = if x == k then c else b x

-- The loop of `strlen` from `i` on.
unfoldable pub strlen_from : (n : ℕ) → Buffer → ℕ → Option ℕ
strlen_from zero b i = none
strlen_from (suc n) b i = elim (b i == 0) [ true ↦ some i | false ↦ strlen_from n b (i + 1) ]

unfoldable pub strlen : (size : ℕ) → Buffer → Option ℕ
unfolding strlen_from
strlen size b = strlen_from size b 0

-- The loop of `strcpy` from `i` on: the terminator is not copied.
unfoldable pub strcpy_from : (n : ℕ) → Buffer → Buffer → ℕ → Option Buffer
strcpy_from zero src dst i = none
strcpy_from (suc n) src dst i = elim (src i == 0) [
  | true ↦ some dst
  | false ↦ strcpy_from n src (put dst i (src i)) (i + 1)
]

unfoldable pub strcpy : (size : ℕ) → Buffer → Buffer → Option Buffer
unfolding strcpy_from
strcpy size src dst = strcpy_from size src dst 0

-- The second loop of `strcat`.
unfoldable pub strcat_from : (n : ℕ) → Buffer → Buffer → (src_ptr dest_ptr : ℕ) → Option Buffer
strcat_from zero src dest src_ptr dest_ptr = none
strcat_from (suc n) src dest src_ptr dest_ptr = elim (src src_ptr == 0) [
  | true ↦ some (put dest dest_ptr 0)
  | false ↦ strcat_from n src (put dest dest_ptr (src src_ptr)) (src_ptr + 1) (dest_ptr + 1)
]

-- The loop writes `dest` from its end on, so it has the rest of `dest` to go.
unfoldable pub strcat : (size : ℕ) → Buffer → Buffer → Option Buffer
unfolding strlen strcat_from
strcat size src dest = do
  dest_ptr ← strlen size dest
  strcat_from (size - dest_ptr) src dest 0 dest_ptr

unfoldable pub isdigit : ℕ → Bool
isdigit c = leb b'0' c && leb c b'9'
