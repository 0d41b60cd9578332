-- ===== src/Db/IntArray/RoundTrip.antt =====
-- Reading back what was written gives the array.
use cs.Base.{
  ℕ, zero, suc, ◌+◌, ◌/◌, ◌%◌, ◌≤◌, ◌<◌, ◌≡◌, refl, sym, subst, ap, ◌∙◌, inl, inr, true, false,
  List, [], ◌∷◌, ◌++◌, map, arith, ◌==◌, length, length-append, append-nil, Bool-cases, ℤ, pos,
  negsuc,
}
use cs.Db.IntArray.{
  emit, format_nat, format_int, separated, entries, serialize, is_digit, atoi, skip_digits,
  parse_entries, max_skins, parse_skins,
}

-- The digits end where `out` begins.
emit-append : (fuel n : ℕ) (out rest : List ℕ) → emit fuel n (out ++ rest) ≡ emit fuel n out ++ rest
unfolding emit
emit-append zero n out rest = refl
emit-append (suc fuel) n out rest =
    ground (arith, emit-append fuel (n / 10) ((b'0' + n % 10) ∷ out) rest)

digit_of : (n : ℕ) → is_digit (b'0' + n % 10) ≡ true
digit_of n = ground arith

-- Reading the digits of `n` is reading on from `n`.
atoi-emit : (fuel n : ℕ) (out : List ℕ) → n ≤ fuel → atoi 0 (emit fuel n out) ≡ atoi n out
unfolding emit atoi
atoi-emit zero n out h = ap (λ k. atoi k out) (omega arith)
atoi-emit (suc fuel) n out h = elim (Bool-cases (n == 0)) [
  | inl e ↦ rw e (ap (λ k. atoi k out) (ground arith))
  | inr e ↦
      rw (e, atoi-emit fuel (n / 10) ((b'0' + n % 10) ∷ out) (ground arith))
        (rw (digit_of n) (ap (λ k. atoi k out) (omega arith)))
]

skip_digits-emit : (fuel n : ℕ) (out : List ℕ) → skip_digits (emit fuel n out) ≡ skip_digits out
unfolding emit skip_digits
skip_digits-emit zero n out = refl
skip_digits-emit (suc fuel) n out =
    ground (arith, skip_digits-emit fuel (n / 10) ((b'0' + n % 10) ∷ out))

-- A text that starts with a digit.
abbrev pub StartsDigit : List ℕ → Type 0
StartsDigit [] = ⊥
StartsDigit (c ∷ p) = is_digit c ≡ true

emit-StartsDigit : (fuel n : ℕ) (out : List ℕ) → StartsDigit out → StartsDigit (emit fuel n out)
unfolding emit
emit-StartsDigit zero n out h = h
emit-StartsDigit (suc fuel) n out h = elim (Bool-cases (n == 0)) [
  | inl e ↦ rw e h
  | inr e ↦ rw e (emit-StartsDigit fuel (n / 10) ((b'0' + n % 10) ∷ out) (digit_of n))
]

suc-ne-zero : (n : ℕ) → (suc n == 0) ≡ false
suc-ne-zero n = ground arith

format_nat-eq-emit : (n : ℕ) → format_nat (suc n) ≡ emit (suc n) (suc n) []
unfolding format_nat
format_nat-eq-emit n = rw (suc-ne-zero n)

format_nat-suc : (n : ℕ) (rest : List ℕ) → format_nat (suc n) ++ rest ≡ emit (suc n) (suc n) rest
format_nat-suc n rest = rw (format_nat-eq-emit n) (sym (emit-append (suc n) (suc n) [] rest))

emit-suc :
    (fuel n : ℕ) (out : List ℕ)
    → emit (suc fuel) (suc n) out ≡ emit fuel (suc n / 10) ((b'0' + suc n % 10) ∷ out)
unfolding emit
emit-suc fuel n out = rw (suc-ne-zero n)

pub format_nat-StartsDigit : (n : ℕ) (rest : List ℕ) → StartsDigit (format_nat n ++ rest)
format_nat-StartsDigit zero rest = unfold format_nat in refl
format_nat-StartsDigit (suc n) rest =
    rw (format_nat-suc n rest, emit-suc n n rest)
      (emit-StartsDigit n (suc n / 10) ((b'0' + suc n % 10) ∷ rest) (digit_of (suc n)))

-- A text that does not start with a digit.
abbrev pub IsStop : List ℕ → Type 0
IsStop rest = ((n : ℕ) → atoi n rest ≡ n) × (skip_digits rest ≡ rest)

pub atoi-format_nat : (n : ℕ) (rest : List ℕ) → IsStop rest → atoi 0 (format_nat n ++ rest) ≡ n
atoi-format_nat zero rest stop = unfold format_nat atoi in stop.0 0
atoi-format_nat (suc n) rest stop =
    rw (format_nat-suc n rest) (atoi-emit (suc n) (suc n) rest (omega arith) ∙ stop.0 (suc n))

pub skip_digits-format_nat :
    (n : ℕ) (rest : List ℕ) → IsStop rest → skip_digits (format_nat n ++ rest) ≡ rest
skip_digits-format_nat zero rest stop = unfold format_nat skip_digits in stop.1
skip_digits-format_nat (suc n) rest stop =
    rw (format_nat-suc n rest) (skip_digits-emit (suc n) (suc n) rest ∙ stop.1)

parse_number :
    (p : List ℕ) (fuel room : ℕ)
    → StartsDigit p
    → parse_entries (suc fuel) (suc room) p ≡ atoi 0 p ∷ parse_entries fuel room (skip_digits p)
unfolding parse_entries
parse_number [] fuel room h = absurd h
parse_number (c ∷ p) fuel room h = let e : (c == b']') ≡ false = ground arith in rw (e, h)

separated-IsStop : (xs : List ℤ) → IsStop (separated xs)
unfolding separated atoi skip_digits
separated-IsStop [] = ((λ n. refl), refl)
separated-IsStop (x ∷ xs) = ((λ n. refl), refl)

-- One number and what follows it.
parse_format :
    (n fuel room : ℕ) (rest : List ℕ)
    → IsStop rest
    → parse_entries (suc fuel) (suc room) (format_nat n ++ rest) ≡ n ∷ parse_entries fuel room rest
parse_format n fuel room rest stop = rw (
  parse_number (format_nat n ++ rest) fuel room (format_nat-StartsDigit n rest),
  atoi-format_nat n rest stop,
  skip_digits-format_nat n rest stop,
)

StartsDigit-pos : (p : List ℕ) → StartsDigit p → 0 < length p
StartsDigit-pos [] h = absurd h
StartsDigit-pos (c ∷ p) h = omega arith

format_nat-pos : (n : ℕ) (rest : List ℕ) → length rest < length (format_nat n ++ rest)
format_nat-pos n rest = omega (
  arith,
  length-append (format_nat n) rest,
  StartsDigit-pos (format_nat n)
      (subst StartsDigit (append-nil (format_nat n)) (format_nat-StartsDigit n [])),
)

-- What is read back of an id: its digits.
abbrev pub magnitude : ℤ → ℕ
magnitude (pos n) = n
magnitude (negsuc n) = n + 1

-- The rest of the array, with enough room and fuel.
parse_separated :
    (xs : List ℤ) (fuel room : ℕ)
    → length xs ≤ room
    → length (separated xs) ≤ fuel
    → parse_entries fuel room (separated xs) ≡ map magnitude xs
unfolding separated parse_entries format_int
parse_separated [] zero room r h = absurd (omega arith)
parse_separated [] (suc fuel) zero r h = refl
parse_separated [] (suc fuel) (suc room) r h = refl
parse_separated (x ∷ xs) zero room r h = absurd (omega arith)
parse_separated (x ∷ xs) (suc fuel) zero r h = absurd (omega arith)
parse_separated (pos n ∷ xs) (suc zero) (suc room) r h =
    absurd (omega (arith, format_nat-pos n (separated xs)))
parse_separated (pos n ∷ xs) (suc (suc fuel)) (suc room) r h =
    parse_format n fuel room (separated xs) (separated-IsStop xs)
    ∙ ap (λ t. n ∷ t)
        (parse_separated xs fuel room (omega arith)
          (omega (arith, format_nat-pos n (separated xs))))
parse_separated (negsuc n ∷ xs) (suc zero) (suc room) r h =
    absurd (omega (arith, format_nat-pos (n + 1) (separated xs)))
parse_separated (negsuc n ∷ xs) (suc (suc zero)) (suc room) r h =
    absurd (omega (arith, format_nat-pos (n + 1) (separated xs)))
parse_separated (negsuc n ∷ xs) (suc (suc (suc fuel))) (suc room) r h =
    parse_format (n + 1) fuel room (separated xs) (separated-IsStop xs)
    ∙ ap (λ t. (n + 1) ∷ t)
        (parse_separated xs fuel room (omega arith)
          (omega (arith, format_nat-pos (n + 1) (separated xs))))

parse_all :
    (x : ℕ) (xs : List ℤ) (fuel : ℕ)
    → length xs < max_skins
    → length (format_nat x ++ separated xs) ≤ fuel
    → parse_entries fuel max_skins (format_nat x ++ separated xs) ≡ x ∷ map magnitude xs
parse_all x xs zero r h = absurd (omega (arith, format_nat-pos x (separated xs)))
parse_all x xs (suc fuel) r h =
    parse_format x fuel 9 (separated xs) (separated-IsStop xs)
    ∙ ap (λ t. x ∷ t)
        (parse_separated xs fuel 9 (omega arith) (omega (arith, format_nat-pos x (separated xs))))

-- An array of at most ten ids is read back with the digits of each: where one is negative, its sign
-- is lost.
pub parse_skins-magnitude :
    (xs : List ℤ) → length xs ≤ max_skins → parse_skins (serialize xs) ≡ map magnitude xs
unfolding parse_skins serialize entries format_int
parse_skins-magnitude [] h = refl
parse_skins-magnitude (pos n ∷ xs) h =
    parse_all n xs (length (format_nat n ++ separated xs)) (omega arith) (omega arith)
parse_skins-magnitude (negsuc n ∷ xs) h =
    parse_all (n + 1) xs (length (format_nat (n + 1) ++ separated xs)) (omega arith) (omega arith)

magnitudes : (xs : List ℕ) → map magnitude (map pos xs) ≡ xs
magnitudes [] = refl
magnitudes (x ∷ xs) = ap (λ t. x ∷ t) (magnitudes xs)

lengths : (xs : List ℕ) → length (map pos xs) ≡ length xs
lengths [] = refl
lengths (x ∷ xs) = ap suc (lengths xs)

-- An array of at most ten ids that are not negative is read back as it was written.
pub parse_skins-serialize :
    (xs : List ℕ) → length xs ≤ max_skins → parse_skins (serialize (map pos xs)) ≡ xs
parse_skins-serialize xs h =
    parse_skins-magnitude (map pos xs) (omega (arith, lengths xs)) ∙ magnitudes xs
