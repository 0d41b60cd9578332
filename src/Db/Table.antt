-- ===== src/Db/Table.antt =====
-- A table with an integer primary key: its rows by key, and the key that AUTOINCREMENT gives next.
use cs.Base.{
  ℕ, ◌+◌, ◌≡◌, ◌≢◌, refl, Bool, Option, none, some, List, [], ◌∷◌, arith, ◌==◌, if◌then◌else◌,
}

-- The rows of a table, each under its key.
abbrev pub Rows : Type 0 → Type 0
Rows R = List (ℕ × R)

module _ {R : Type 0} where
  -- SELECT … WHERE key = ?
  abbrev pub find : ℕ → Rows R → Option R
  find k [] = none
  find k ((j, r) ∷ t) = if j == k then some r else find k t

  -- UPDATE … WHERE key = ?; without such a row nothing changes.
  abbrev pub put : ℕ → R → Rows R → Rows R
  put k r [] = []
  put k r ((j, q) ∷ t) = if j == k then (j, r) ∷ t else (j, q) ∷ put k r t

  -- DELETE … WHERE key = ?
  abbrev pub delete : ℕ → Rows R → Rows R
  delete k [] = []
  delete k ((j, q) ∷ t) = if j == k then t else (j, q) ∷ delete k t

  -- INSERT OR REPLACE
  abbrev pub replace : ℕ → R → Rows R → Rows R
  replace k r [] = (k, r) ∷ []
  replace k r ((j, q) ∷ t) = if j == k then (j, r) ∷ t else (j, q) ∷ replace k r t

  -- UPDATE … SET … WHERE a test of the row holds
  abbrev pub update_where : (R → Bool) → (R → R) → Rows R → Rows R
  update_where p f [] = []
  update_where p f ((j, q) ∷ t) = (j, if p q then f q else q) ∷ update_where p f t

  -- Whether the key has a row.
  abbrev pub has : ℕ → Rows R → Bool
  has k t = elim (find k t) [ none ↦ Bool.false | some _ ↦ Bool.true ]

  -- The sum of a column.
  abbrev pub sum_of : (R → ℕ) → Rows R → ℕ
  sum_of f [] = 0
  sum_of f ((_, r) ∷ t) = f r + sum_of f t

  pub find-put_self :
      (k : ℕ) (r old : R) (t : Rows R) → find k t ≡ some old → find k (put k r t) ≡ some r
  find-put_self k r old [] h = ground arith
  find-put_self k r old (e ∷ t) h = ground (arith, find-put_self k r old t)

  pub find-put_ne : (j k : ℕ) (r : R) (t : Rows R) → k ≢ j → find j (put k r t) ≡ find j t
  find-put_ne j k r [] h = refl
  find-put_ne j k r (e ∷ t) h = ground (arith, find-put_ne j k r t h)

  pub find-replace_self : (k : ℕ) (r : R) (t : Rows R) → find k (replace k r t) ≡ some r
  find-replace_self k r [] = ground arith
  find-replace_self k r (e ∷ t) = ground (arith, find-replace_self k r t)

  pub has-put : (j k : ℕ) (r : R) (t : Rows R) → has j (put k r t) ≡ has j t
  has-put j k r [] = refl
  has-put j k r (e ∷ t) = ground (arith, has-put j k r t)

  -- What an update of one row does to the sum of a column.
  pub sum_of-put :
      (f : R → ℕ) (k : ℕ) (r old : R) (t : Rows R)
      → find k t ≡ some old
      → sum_of f (put k r t) + f old ≡ sum_of f t + f r
  sum_of-put f k r old [] h = ground arith
  sum_of-put f k r old (e ∷ t) h = ground (arith, sum_of-put f k r old t)
