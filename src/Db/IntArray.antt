-- ===== src/Db/IntArray.antt =====
-- The JSON texts of the skin arrays: how `db_save_trade` and `db_update_trade` write them and how
-- `db_load_trade` reads them back. A text is the list of its character codes.
pub mod RoundTrip
use cs.Base.{
  ℕ, zero, suc, ◌+◌, ◌-◌, ◌*◌, ◌/◌, ◌%◌, Bool, ◌&&◌, List, [], ◌∷◌, ◌++◌, ltb, leb, ◌==◌,
  if◌then◌else◌, length, ℤ, pos, negsuc,
}

-- The digits of `sprintf("%d")`, in front of `out`; at most `fuel` of them.
unfoldable pub emit : ℕ → ℕ → List ℕ → List ℕ
emit zero n out = out
emit (suc fuel) n out =
    let rest = emit fuel (n / 10) ((b'0' + n % 10) ∷ out) in if n == 0 then out else rest

-- A number has at most as many digits as its value, and zero has one.
unfoldable pub format_nat : ℕ → List ℕ
unfolding emit
format_nat n = if n == 0 then b'0' ∷ [] else emit n n []

unfoldable pub format_int : ℤ → List ℕ
unfolding format_nat
format_int (pos n) = format_nat n
format_int (negsuc n) = b'-' ∷ format_nat (n + 1)

unfoldable pub separated : List ℤ → List ℕ
unfolding format_int
separated [] = b']' ∷ []
separated (x ∷ xs) = b',' ∷ (format_int x ++ separated xs)

unfoldable pub entries : List ℤ → List ℕ
unfolding separated format_int
entries [] = b']' ∷ []
entries (x ∷ xs) = format_int x ++ separated xs

-- The two loops with `strcat`.
unfoldable pub serialize : List ℤ → List ℕ
unfolding entries
serialize xs = b'[' ∷ entries xs

abbrev pub is_digit : ℕ → Bool
is_digit c = leb b'0' c && leb c b'9'

-- `atoi`, on a text that starts with a digit.
unfoldable pub atoi : ℕ → List ℕ → ℕ
atoi n [] = n
atoi n (c ∷ p) = if is_digit c then atoi (n * 10 + (c - b'0')) p else n

-- `while (*p >= '0' && *p <= '9') p++;`
unfoldable pub skip_digits : List ℕ → List ℕ
skip_digits [] = []
skip_digits (c ∷ p) = if is_digit c then skip_digits p else c ∷ p

-- The loop over the text; `room` is `10 - idx`, and `fuel` the length of the text.
unfoldable pub parse_entries : ℕ → ℕ → List ℕ → List ℕ
parse_entries zero room p = []
parse_entries (suc fuel) room [] = []
parse_entries (suc fuel) zero (c ∷ p) = []
parse_entries (suc fuel) (suc room) (c ∷ p) =
    let number = atoi 0 (c ∷ p) ∷ parse_entries fuel room (skip_digits (c ∷ p)) in
    let next = parse_entries fuel (suc room) p in
    if c == b']' then [] else if is_digit c then number else next

-- `idx < 10`
abbrev pub max_skins : ℕ
max_skins = 10

-- The array that is read back; its length is the count.
unfoldable pub parse_skins : List ℕ → List ℕ
unfolding parse_entries atoi skip_digits
parse_skins [] = []
parse_skins (c ∷ p) = if c == b'[' then parse_entries (length p) max_skins p else []
