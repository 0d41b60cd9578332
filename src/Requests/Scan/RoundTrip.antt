-- ===== src/Requests/Scan/RoundTrip.antt =====
-- Two printed ids are read back.
use cs.Base.{ℕ, ◌<◌, ◌≡◌, refl, ◌∙◌, false, some, List, [], ◌∷◌, ◌++◌, arith, append-nil, sym}
use cs.Db.IntArray.{format_nat, atoi, skip_digits}
use cs.Db.IntArray.RoundTrip.{
  StartsDigit, IsStop, format_nat-StartsDigit, atoi-format_nat, skip_digits-format_nat,
}
use cs.Requests.Scan.{skip_spaces, to_unsigned, scan_number, scan_one, scan_two}

-- `snprintf(payload, ..., "%u:%u", u, v)`
abbrev pub two_ids : ℕ → ℕ → List ℕ
two_ids u v = format_nat u ++ (b':' ∷ format_nat v)

scan_digit :
    (p : List ℕ)
    → StartsDigit p
    → scan_number to_unsigned p ≡ some (to_unsigned false (atoi 0 p), skip_digits p)
unfolding scan_number skip_spaces
scan_digit [] h = absurd h
scan_digit (c ∷ p) h = ground arith

small : (n : ℕ) → n < 4294967296 → to_unsigned false n ≡ n
small n h = ground arith

scan_number-format_nat :
    (n : ℕ) (rest : List ℕ)
    → n < 4294967296
    → IsStop rest
    → scan_number to_unsigned (format_nat n ++ rest) ≡ some (n, rest)
scan_number-format_nat n rest h stop =
    scan_digit (format_nat n ++ rest) (format_nat-StartsDigit n rest)
    ∙ rw (atoi-format_nat n rest stop, skip_digits-format_nat n rest stop, small n h) refl

scan_one-format_nat : (n : ℕ) → n < 4294967296 → scan_one (format_nat n) ≡ some n
unfolding scan_one atoi skip_digits
scan_one-format_nat n h =
    rw (sym (append-nil (format_nat n)), scan_number-format_nat n [] h ((λ _. refl), refl)) refl

pub scan_two-two_ids :
    (u v : ℕ) → u < 4294967296 → v < 4294967296 → scan_two (two_ids u v) ≡ some (u, v)
unfolding scan_two atoi skip_digits
scan_two-two_ids u v h k =
    rw
      (
        scan_number-format_nat u (b':' ∷ format_nat v) h ((λ _. refl), refl),
        scan_one-format_nat v k,
      )
      refl
