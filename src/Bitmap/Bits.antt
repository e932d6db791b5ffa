-- ===== src/Bitmap/Bits.antt =====
-- The bit operations of bitmap.c on one byte, at every byte and bit number.
use bbn_os.Base.{ℕ, ◌%◌, ◌<◌, ◌≡◌, refl, Bool, true, false, not, arith}
use bbn_os.Base.{◌==◌, if◌then◌else◌, every_below, test_of_every}
use bbn_os.Bitmap.{test_bit, clear_bit, set_bit}

infix 50 ◌<=>◌
abbrev ◌<=>◌ : Bool → Bool → Bool
true <=> b = b
false <=> b = not b

eq_of_<=> : (a b : Bool) → (a <=> b) ≡ true → a ≡ b
eq_of_<=> true true h = refl
eq_of_<=> true false h = ground arith
eq_of_<=> false true h = ground arith
eq_of_<=> false false h = refl

-- What one write does to bit `j` of the byte, if bit `k` is the one that is written.
abbrev pub written : Bool → ℕ → ℕ → ℕ
written value x k = if value then set_bit (clear_bit x k % 256) k else clear_bit x k

table : Bool → Bool
table value = every_below 256 λ x. every_below 8 λ k.
    every_below 8
      λ j. test_bit (written value x k % 256) j <=> (if j == k then value else test_bit x j)

table-true : table true ≡ true
unfolding table every_below test_bit set_bit clear_bit
table-true = refl

table-false : table false ≡ true
unfolding table every_below test_bit set_bit clear_bit
table-false = refl

table_all : (value : Bool) → table value ≡ true
table_all true = table-true
table_all false = table-false

-- A write gives its bit the value, and leaves the other bits of the byte alone.
pub test_bit-written :
    (value : Bool) (x k j : ℕ)
    → x < 256
    → k < 8
    → j < 8
    → test_bit (written value x k % 256) j ≡ (if j == k then value else test_bit x j)
unfolding table
test_bit-written value x k j hx hk hj =
    eq_of_<=> _ _
      (test_of_every 8 _ j (test_of_every 8 _ k (test_of_every 256 _ x (table_all value) hx) hk) hj)
