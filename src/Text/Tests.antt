-- ===== src/Text/Tests.antt =====
-- The theorems of string.c at texts.
use bbn_os.Base.{◌≡◌, refl, some, [], ◌∷◌, arith}
use bbn_os.Text.{strcat}
use bbn_os.Text.Laws.{text, strcat-text}

strcat-text_example :
    strcat 8 (text (b'c' ∷ b'd' ∷ [])) (text (b'a' ∷ b'b' ∷ []))
    ≡ some (text (b'a' ∷ b'b' ∷ b'c' ∷ b'd' ∷ []))
strcat-text_example =
    strcat-text 8 (text (b'c' ∷ b'd' ∷ [])) (b'c' ∷ b'd' ∷ []) (b'a' ∷ b'b' ∷ [])
      (refl, omega arith, (refl, omega arith, refl)) (omega arith, (omega arith, tt)) (omega arith)
