-- ===== src/Password/Hash.antt =====
-- What `hash_password` computes, and which passwords `verify_password` accepts.
use cs.Base.{
  ℕ, zero, suc, ◌+◌, ◌-◌, ◌*◌, ◌^◌, ◌≡◌, refl, true, List, [], ◌∷◌, ltb, if◌then◌else◌, length,
  arith,
}
use cs.Password.{char_value, same_text}

pub same_text_refl : (s : List ℕ) → same_text s s ≡ true
unfolding same_text
same_text_refl [] = refl
same_text_refl (a ∷ s) = ground (arith, same_text_refl s)

pub same_text-equal : (s t : List ℕ) → same_text s t ≡ true → s ≡ t
unfolding same_text
same_text-equal [] [] h = refl
same_text-equal [] (b ∷ t) h = ground arith
same_text-equal (a ∷ s) [] h = ground arith
same_text-equal (a ∷ s) (b ∷ t) h = ground (arith, same_text-equal s t)

-- Hexadecimal digits read back.
abbrev pub digit_value : ℕ → ℕ
digit_value c = if ltb c 58 then c - 48 else c - 87

abbrev pub read_hex : ℕ → List ℕ → ℕ
read_hex n [] = n
read_hex n (c ∷ s) = read_hex (n * 16 + digit_value c) s

abbrev places : ℕ → ℕ
places zero = 1
places (suc k) = 16 * places k

-- The sum of the characters, each times a power of 33.
unfoldable pub weighted : List ℕ → ℕ
weighted [] = 0
weighted (c ∷ str) = char_value c * 33 ^ length str + weighted str

-- The value that `hash_password` prints, without wrap-around.
abbrev pub polynomial : List ℕ → ℕ
polynomial str = 5381 * 33 ^ length str + weighted str
