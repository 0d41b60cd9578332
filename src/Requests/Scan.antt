-- ===== src/Requests/Scan.antt =====
-- `sscanf` and `strchr` as the handlers use them, on the bytes of a payload.
pub mod RoundTrip
use cs.Base.{
  ℕ, zero, suc, ◌-◌, ◌%◌, Bool, true, false, ◌&&◌, ◌||◌, Option, none, some, List, [], ◌∷◌, ltb,
  leb, ◌==◌, if◌then◌else◌,
}
use cs.Db.IntArray.{is_digit, atoi, skip_digits}

-- The text of a payload ends at its first zero.
unfoldable pub c_string : List ℕ → List ℕ
c_string [] = []
c_string (c ∷ p) = let rest = c_string p in if c == 0 then [] else c ∷ rest

abbrev is_space : ℕ → Bool
is_space c = c == 32 || (leb 9 c && leb c 13)

unfoldable pub skip_spaces : List ℕ → List ℕ
skip_spaces [] = []
skip_spaces (c ∷ p) = if is_space c then skip_spaces p else c ∷ p

-- `%u`: the `unsigned long` of `strtoul`, cut to 32 bits; true is a minus sign.
abbrev pub to_unsigned : Bool → ℕ → ℕ
to_unsigned minus n =
    if ltb 18446744073709551615 n
    then 4294967295
    else if minus
    then (4294967296 - n % 4294967296) % 4294967296
    else n % 4294967296

abbrev least : ℕ → ℕ → ℕ
least m n = if ltb m n then m else n

-- `%d`: the `long` of `strtol`, cut to the 32 bits of an `int`.
abbrev pub to_int : Bool → ℕ → ℕ
to_int minus n =
    if minus
    then (4294967296 - least 9223372036854775808 n % 4294967296) % 4294967296
    else least 9223372036854775807 n % 4294967296

module _ (convert : Bool → ℕ → ℕ) where
  abbrev scan_digits : Bool → List ℕ → Option (ℕ × List ℕ)
  scan_digits minus [] = none
  scan_digits minus (c ∷ p) =
      if is_digit c then some (convert minus (atoi 0 (c ∷ p)), skip_digits (c ∷ p)) else none

  abbrev scan_sign : List ℕ → Option (ℕ × List ℕ)
  scan_sign [] = none
  scan_sign (c ∷ p) =
      if c == b'-'
      then scan_digits true p
      else if c == b'+'
      then scan_digits false p
      else scan_digits false (c ∷ p)

  -- A number and what follows it.
  unfoldable pub scan_number : List ℕ → Option (ℕ × List ℕ)
  scan_number p = scan_sign (skip_spaces p)

module _ {A : Type 0} where
  -- What `f` scans behind a colon.
  abbrev behind_colon : (List ℕ → Option A) → List ℕ → Option A
  behind_colon f [] = none
  behind_colon f (c ∷ p) = if c == b':' then f p else none

  abbrev pub number_of : Option (ℕ × A) → Option ℕ
  number_of none = none
  number_of (some (n, _)) = some n

  abbrev paired : ℕ → Option A → Option (ℕ × A)
  paired n none = none
  paired n (some a) = some (n, a)

  abbrev number_then : (List ℕ → Option A) → Option (ℕ × List ℕ) → Option (ℕ × A)
  number_then f none = none
  number_then f (some (n, p)) = paired n (behind_colon f p)

unfoldable pub scan_one : List ℕ → Option ℕ
scan_one p = number_of (scan_number to_unsigned p)

unfoldable pub scan_two : List ℕ → Option (ℕ × ℕ)
scan_two p = number_then scan_one (scan_number to_unsigned p)

-- `"%u:%u:%d"`
unfoldable pub scan_three : List ℕ → Option (ℕ × (ℕ × ℕ))
scan_three p =
    number_then
      (λ q. number_then (λ r. number_of (scan_number to_int r)) (scan_number to_unsigned q))
      (scan_number to_unsigned p)

-- At most `room` characters before `stop`, and the rest of the text.
unfoldable pub scan_until : ℕ → ℕ → List ℕ → List ℕ × List ℕ
scan_until zero stop p = ([], p)
scan_until (suc room) stop [] = ([], [])
scan_until (suc room) stop (c ∷ p) =
    let (l, rest) = scan_until room stop p in if c == stop then ([], c ∷ p) else (c ∷ l, rest)

-- `%31[^:]`, which needs a character.
abbrev pub some_text : List ℕ × List ℕ → Option (List ℕ × List ℕ)
some_text ([], rest) = none
some_text (c ∷ l, rest) = some (c ∷ l, rest)

abbrev text_of : Option (List ℕ × List ℕ) → Option (List ℕ)
text_of none = none
text_of (some (l, _)) = some l

abbrev name_then : Option (List ℕ × List ℕ) → Option (List ℕ × List ℕ)
name_then none = none
name_then (some (name, p)) =
    elim (behind_colon (λ q. text_of (some_text (scan_until 255 b'\n' q))) p) [
      | none ↦ none
      | some message ↦ some (name, message)
    ]

-- `"%u:%31[^:]:%255[^\n]"`
unfoldable pub scan_chat : List ℕ → Option (ℕ × (List ℕ × List ℕ))
scan_chat p =
    number_then (λ q. name_then (some_text (scan_until 31 b':' q)))
      (scan_number to_unsigned (c_string p))

abbrev consed : ℕ → Option (List ℕ × List ℕ) → Option (List ℕ × List ℕ)
consed c none = none
consed c (some (l, rest)) = some (c ∷ l, rest)

-- The text before and after the first colon.
unfoldable pub at_colon : List ℕ → Option (List ℕ × List ℕ)
at_colon [] = none
at_colon (c ∷ p) = let rest = consed c (at_colon p) in if c == b':' then some ([], p) else rest
