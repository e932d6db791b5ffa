-- ===== src/Legacy/Writer/Digits.antt =====
-- lib/legacy/fb.c: characters that are printed one at a time, and the numbers that they show.
use bbn_os.Base.{
  ℕ, ◌+◌, ◌-◌, ◌*◌, ◌<◌, ◌≡◌, refl, sym, ◌∙◌, Bool, true, ◌&&◌, ◌||◌, Option, none, some, List, [],
  ◌∷◌, ◌++◌, arith, leb, ltb, if◌then◌else◌, ◌>>=◌, length,
}
use bbn_os.Legacy.Writer.{Writer, fb_print}
use bbn_os.Legacy.Writer.Bounds.{IsPlaced, IsKept, fb_print_color-IsKept}

-- Characters that are printed one by one.
unfoldable pub print_each : List ℕ → Writer → Option Writer
print_each [] w = some w
print_each (c ∷ cs) w = fb_print (c ∷ []) w >>= λ v. print_each cs v

-- The number that digits of either case show in a base, behind digits of the number `acc`.
abbrev pub digit_of : ℕ → ℕ
digit_of c = if leb b'a' c then c - 87 else if leb b'A' c then c - 55 else c - 48

-- Whether a character is a digit of the base, up to base 16.
abbrev pub is_digit : (base c : ℕ) → Bool
is_digit base c =
    (leb b'0' c && leb c b'9' && ltb (c - 48) base)
    || (leb b'A' c && leb c b'F' && ltb (c - 55) base)
    || (leb b'a' c && leb c b'f' && ltb (c - 87) base)

-- A numeral: it has a digit, and nothing else.
unfoldable pub all_digits : (base : ℕ) → List ℕ → Bool
all_digits base [] = true
all_digits base (c ∷ cs) = is_digit base c && all_digits base cs

abbrev pub IsNumber : (base : ℕ) → List ℕ → Type 0
IsNumber base cs = (0 < length cs) × (all_digits base cs ≡ true)

pub all_digits_snoc :
    (cs : List ℕ) (base c : ℕ)
    → all_digits base cs ≡ true
    → is_digit base c ≡ true
    → all_digits base (cs ++ c ∷ []) ≡ true
unfolding all_digits
all_digits_snoc [] base c first last = rw last refl
all_digits_snoc (d ∷ cs) base c first last =
    let rest = all_digits_snoc cs base c (ground arith) last in ground arith

pub snoc-IsNumber :
    (cs : List ℕ) (base c : ℕ)
    → all_digits base cs ≡ true
    → is_digit base c ≡ true
    → IsNumber base (cs ++ c ∷ [])
snoc-IsNumber cs base c first last = (longer cs, all_digits_snoc cs base c first last)
  where
    longer : (ds : List ℕ) → 0 < length (ds ++ c ∷ [])
    longer [] = omega arith
    longer (d ∷ ds) = omega arith

unfoldable pub read_in : (base acc : ℕ) → List ℕ → ℕ
read_in base acc [] = acc
read_in base acc (c ∷ cs) = read_in base (acc * base + digit_of c) cs

pub read_in_snoc :
    (cs : List ℕ) (base acc c : ℕ)
    → read_in base acc (cs ++ c ∷ []) ≡ read_in base acc cs * base + digit_of c
unfolding read_in
read_in_snoc [] base acc c = refl
read_in_snoc (d ∷ cs) base acc c = read_in_snoc cs base (acc * base + digit_of d) c

pub bind_some : {A : Type 0} (o : Option A) → (o >>= λ a. some a) ≡ o
bind_some none = refl
bind_some (some a) = refl

pub bind_assoc :
    {A B C : Type 0} (o : Option A) (f : A → Option B) (g : B → Option C)
    → ((o >>= f) >>= g) ≡ (o >>= λ a. f a >>= g)
bind_assoc none f g = refl
bind_assoc (some a) f g = refl

pub print_each_snoc :
    (cs : List ℕ) (c : ℕ) (w : Writer)
    → (print_each cs w >>= λ v. fb_print (c ∷ []) v) ≡ print_each (cs ++ c ∷ []) w
unfolding print_each
print_each_snoc [] c w = sym (bind_some (fb_print (c ∷ []) w))
print_each_snoc (d ∷ cs) c w =
    bind_assoc (fb_print (d ∷ []) w) (print_each cs) (λ v. fb_print (c ∷ []) v) ∙ λ i.
    fb_print (d ∷ []) w >>= λ v. print_each_snoc cs c v i

-- One run behind another.
pub bind-IsKept :
    (w : Writer) (o : Option Writer) (f : Writer → Option Writer)
    → IsKept w o
    → ((v : Writer) → IsPlaced v → IsKept v (f v))
    → IsKept w (o >>= f)
bind-IsKept w o f first next =
    let rest = next first.after first.placed in
    record {
      after = rest.after;
      done = rw first.done rest.done;
      placed = rest.placed;
      stays = λ a beyond. rest.stays a beyond ∙ first.stays a beyond;
    }

pub fb_print-IsKept : (text : List ℕ) (w : Writer) → IsPlaced w → IsKept w (fb_print text w)
fb_print-IsKept text w placed = fb_print_color-IsKept text 0 15 0 w placed

pub print_each-IsKept : (cs : List ℕ) (w : Writer) → IsPlaced w → IsKept w (print_each cs w)
unfolding print_each
print_each-IsKept [] w placed = record {
  after = w;
  done = refl;
  placed = placed;
  stays = λ a beyond. refl;
}
print_each-IsKept (c ∷ cs) w placed =
    bind-IsKept w (fb_print (c ∷ []) w) (print_each cs) (fb_print-IsKept (c ∷ []) w placed)
      (λ v there. print_each-IsKept cs v there)
