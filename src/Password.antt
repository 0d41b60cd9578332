-- ===== src/Password.antt =====
-- src/server/auth.c: how a password is hashed and verified.
pub mod Hash
use cs.Base.{
  ℕ, zero, suc, ◌+◌, ◌-◌, ◌*◌, ◌/◌, ◌%◌, Bool, true, false, ◌&&◌, List, [], ◌∷◌, ltb, ◌==◌,
  if◌then◌else◌,
}

-- The modulus of `unsigned long`.
abbrev pub two64 : ℕ
two64 = 18446744073709551616

-- A byte as `char`, which is signed: added to an `unsigned long` it is a sum with wrap-around.
abbrev pub char_value : ℕ → ℕ
char_value c = if ltb c 128 then c else c + (two64 - 256)

-- `((hash << 5) + hash) + c`
abbrev pub hash_step : ℕ → ℕ → ℕ
hash_step hash c = (((hash * 32) % two64 + hash) % two64 + char_value c) % two64

-- The loop over the bytes before the terminating zero.
unfoldable pub hash_bytes : ℕ → List ℕ → ℕ
hash_bytes hash [] = hash
hash_bytes hash (c ∷ str) = hash_bytes (hash_step hash c) str

abbrev pub hex_digit : ℕ → ℕ
hex_digit d = if ltb d 10 then 48 + d else 87 + d

-- `n` in hexadecimal with `width` digits, before `out`.
unfoldable pub print_hex : ℕ → ℕ → List ℕ → List ℕ
print_hex zero n out = out
print_hex (suc width) n out = print_hex width (n / 16) (hex_digit (n % 16) ∷ out)

-- `%016lx`
unfoldable pub hash_password : List ℕ → List ℕ
hash_password password = print_hex 16 (hash_bytes 5381 password) []

-- `strcmp(a, b) == 0`
unfoldable pub same_text : List ℕ → List ℕ → Bool
same_text [] [] = true
same_text (a ∷ s) (b ∷ t) = a == b && same_text s t
same_text _ _ = false

unfoldable pub verify_password : List ℕ → List ℕ → Bool
verify_password password hash = same_text (hash_password password) hash
