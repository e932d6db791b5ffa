-- ===== src/Keyboard/Handle.antt =====
-- `keyboardHandle` over the codes of a whole session.
use bbn_os.Base.{
  ℕ, ◌≤◌, ◌<◌, ◌≡◌, ◌≢◌, inl, inr, refl, ap, ◌∙◌, Bool, true, false, not, ◌||◌, Option, none, some,
  List, [], ◌∷◌, arith,
}
use bbn_os.Base.{◌==◌, leb, if◌then◌else◌, bit_and, Bool-cases, every_below, test_of_every}
use bbn_os.Keyboard.{Keyboard, Output, not_implemented, keyboard_handle, handle_all, emit}

-- The codes of a session with no extended key: single bytes, none of which is the prefix 0xE0.
abbrev pub IsPlain : List ℕ → Type 0
IsPlain [] = Unit {0}
IsPlain (c ∷ codes) = (c < 256) × (c ≢ 0xE0) × IsPlain codes

release_table :
    every_below 256
      (λ c. if leb 0x80 c then bit_and c 0x80 == 0x80 else not (bit_and c 0x80 == 0x80))
    ≡ true
unfolding every_below
release_table = refl

-- The top bit of a code says that the key was released.
release_bit : (c : ℕ) → c < 256 → (bit_and c 0x80 == 0x80) ≡ leb 0x80 c
release_bit c h = ground (arith, test_of_every 256 _ c release_table h)

-- What one code of a plain session does to the flags: only the left shift key changes one, to
-- whether the key is down.
keyboard_handle-flags :
    (s : Keyboard) (c : ℕ)
    → c < 256
    → c ≢ 0xE0
    → s.rshift ≡ false
    → s.e0_prefix ≡ false
    → (keyboard_handle s c).0 ≡ record {
      lshift = if c == 0x2A then true else if c == 0xAA then false else s.lshift;
      rshift = false;
      e0_prefix = false;
    }
unfolding keyboard_handle
keyboard_handle-flags s c small plain r e = ground (arith, release_bit c small)

-- Whether the left shift key is down after the codes: its last press or release decides.
pub shift_after : Bool → List ℕ → Bool
shift_after down [] = down
shift_after down (c ∷ codes) =
    shift_after (if c == 0x2A then true else if c == 0xAA then false else down) codes

handle_all-step :
    (s t : Keyboard) (c : ℕ) (out : Option Output) (codes : List ℕ)
    → keyboard_handle s c ≡ (t, out)
    → handle_all s (c ∷ codes) ≡ emit out (handle_all t codes)
unfolding handle_all
handle_all-step s t c out codes e =
    ap (λ (r : Keyboard × Option Output). emit r.1 (handle_all r.0 codes)) e

state-emit : (out : Option Output) (r : Keyboard × List Output) → (emit out r).0 ≡ r.0
state-emit none r = refl
state-emit (some out) r = refl

-- After a plain session from a state without prefix or right shift, the left shift flag is what its
-- last press or release made it, and the right shift flag is never set: the right shift key is
-- stored as released even when it is pressed.
pub handle_all-shift :
    (codes : List ℕ) (s : Keyboard)
    → IsPlain codes
    → s.rshift ≡ false
    → s.e0_prefix ≡ false
    → (handle_all s codes).0
      ≡ record { lshift = shift_after s.lshift codes; rshift = false; e0_prefix = false }
unfolding handle_all shift_after
handle_all-shift [] s plain r e = ground arith
handle_all-shift (c ∷ codes) s (small, ne, plain) r e =
    let k = keyboard_handle-flags s c small ne r e in
    state-emit (keyboard_handle s c).1 _
    ∙ handle_all-shift codes (keyboard_handle s c).0 plain (ap (λ (t : Keyboard). t.rshift) k)
        (ap (λ (t : Keyboard). t.e0_prefix) k)
    ∙ ap (λ (b : Bool). record { lshift = shift_after b codes; rshift = false; e0_prefix = false })
        (ap (λ (t : Keyboard). t.lshift) k)

-- The session with every press and release of the right shift key left out.
pub without_rshift : List ℕ → List ℕ
without_rshift [] = []
without_rshift (c ∷ codes) =
    let rest = without_rshift codes in if c == 0x36 || c == 0xB6 then rest else c ∷ rest

rshift_ignored :
    (s : Keyboard) (c : ℕ)
    → (c == 0x36 || c == 0xB6) ≡ true
    → s.rshift ≡ false
    → s.e0_prefix ≡ false
    → keyboard_handle s c ≡ (s, none)
unfolding keyboard_handle
rshift_ignored s c h r e = ground (arith, release_bit c (ground arith))

-- The right shift key is dead: a plain session prints the same, and ends in the same state, with
-- all its presses and releases of that key left out.
pub handle_all-without_rshift :
    (codes : List ℕ) (s : Keyboard)
    → IsPlain codes
    → s.rshift ≡ false
    → s.e0_prefix ≡ false
    → handle_all s codes ≡ handle_all s (without_rshift codes)
unfolding handle_all without_rshift
handle_all-without_rshift [] s plain r e = refl
handle_all-without_rshift (c ∷ codes) s (small, ne, plain) r e =
    elim (Bool-cases (c == 0x36 || c == 0xB6)) [
      | inl dead ↦
          handle_all-step s s c none codes (rshift_ignored s c dead r e)
          ∙ handle_all-without_rshift codes s plain r e
          ∙ rw dead refl
      | inr other ↦
          let k = keyboard_handle-flags s c small ne r e in
          let rest =
            handle_all-without_rshift codes (keyboard_handle s c).0 plain
              (ap (λ (t : Keyboard). t.rshift) k) (ap (λ (t : Keyboard). t.e0_prefix) k) in
          ap (emit (keyboard_handle s c).1) rest ∙ rw other refl
    ]

extended_byte :
    (s : Keyboard) (c : ℕ)
    → c ≢ 0xE0
    → (keyboard_handle s 0xE0 ≡ (record s { e0_prefix = true }, none))
      × (keyboard_handle (record s { e0_prefix = true }) c
          ≡ (record s { e0_prefix = false }, some not_implemented))
unfolding keyboard_handle
extended_byte s c ne = (refl, ground arith)

-- Whatever the state, the byte after the prefix 0xE0 changes no shift flag, prints the warning and
-- nothing else, and clears the prefix.
pub handle_all-extended :
    (s : Keyboard) (c : ℕ) (codes : List ℕ)
    → c ≢ 0xE0
    → let (t, outs) = handle_all (record s { e0_prefix = false }) codes in
      handle_all s (0xE0 ∷ c ∷ codes) ≡ (t, not_implemented ∷ outs)
unfolding handle_all
handle_all-extended s c codes ne =
    let (first, second) = extended_byte s c ne in
    handle_all-step s (record s { e0_prefix = true }) 0xE0 none (c ∷ codes) first
    ∙ handle_all-step (record s { e0_prefix = true }) (record s { e0_prefix = false }) c
        (some not_implemented) codes second

-- Letting a key go prints nothing.
pub keyboard_handle-release :
    (s : Keyboard) (c : ℕ)
    → 0x80 ≤ c
    → c < 256
    → s.e0_prefix ≡ false
    → (keyboard_handle s c).1 ≡ none
unfolding keyboard_handle
keyboard_handle-release s c lo hi e = ground (arith, release_bit c hi)
