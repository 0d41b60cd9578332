-- ===== src/Db/Monad.antt =====
-- A function of the server: it reads and changes the database and returns 0 with its outputs, or
-- an error code. `err n` is `return -n`. What was written before an error stays written.
pub mod Preserves
pub mod Transaction
pub mod Atomic
pub mod Quiet
pub mod Returns
pub mod Frame
use cs.Base.{ℕ, Bool, true, false, Option, none, some, List, [], ◌∷◌, if◌then◌else◌}
use cs.Db.Tables.{Tables}

pub data Result (A : Type 0) : Type 0 where
  ok : A → Result A
  err : ℕ → Result A

-- The one connection of the server. `saved` is what ROLLBACK goes back to while a transaction is
-- open, `now` is the clock, and `faults` says of each statement to come whether sqlite refuses it.
pub record Db : Type 0 where
  pub tables : Tables
  pub saved : Option Tables
  pub now : ℕ
  pub faults : List Bool

abbrev pub M : Type 0 → Type 0
M A = Db → Result A × Db

-- Whether sqlite refuses the next statement; none is refused once the list has ended.
abbrev pub refused : List Bool → Bool
refused [] = false
refused (b ∷ _) = b

abbrev pub later : List Bool → List Bool
later [] = []
later (_ ∷ bs) = bs

abbrev pub spent : Db → Db
spent d = record d { faults = later d.faults }

module _ {A : Type 0} where
  unfoldable pub pure : A → M A
  pure a d = (ok a, d)

  unfoldable pub fail : ℕ → M A
  fail n d = (err n, d)

  abbrev pub found : Option A → Db → Result A × Db
  found none d = (err 1, d)
  found (some a) d = (ok a, d)

  -- A SELECT: it fails if sqlite refuses it or there is no row.
  unfoldable pub select : (Tables → Option A) → M A
  select f d = if refused d.faults then (err 1, spent d) else found (f d.tables) (spent d)

  abbrev wrote : Option (A × Tables) → Db → Result A × Db
  wrote none d = (err 1, d)
  wrote (some (a, t)) d = (ok a, record d { tables = t })

  -- An INSERT, UPDATE or DELETE: it fails if sqlite refuses it or a constraint is violated.
  unfoldable pub write : (Tables → Option (A × Tables)) → M A
  write f d = if refused d.faults then (err 1, spent d) else wrote (f d.tables) (spent d)

  abbrev pub coded : ℕ → Result A × Db → Result A × Db
  coded n (ok a, d) = (ok a, d)
  coded n (err _, d) = (err n, d)

  -- `if (m != 0) return -n;`
  unfoldable pub or_return : ℕ → M A → M A
  or_return n m d = coded n (m d)

  abbrev pub attempted : Result A × Db → Result (Option A) × Db
  attempted (ok a, d) = (ok (some a), d)
  attempted (err _, d) = (ok none, d)

  -- A call whose result is tested, or not looked at.
  unfoldable pub attempt : M A → M (Option A)
  attempt m d = attempted (m d)

module _ {A B : Type 0} where
  abbrev pub continue : Result A → (A → M B) → M B
  continue (ok a) f d = f a d
  continue (err n) f d = (err n, d)

  infixl 5 ◌>>=◌ ◌>>◌
  unfoldable pub ◌>>=◌ : M A → (A → M B) → M B
  ◌>>=◌ m f d = let (r, d') = m d in continue r f d'

  abbrev pub ◌>>◌ : M A → M B → M B
  m >> n = m >>= λ _. n

-- `if (b) return -n;`
unfoldable pub return_if : Bool → ℕ → M (Unit {0})
return_if true n d = (err n, d)
return_if false n d = (ok tt, d)

-- `time(NULL)`: the clock stands still during a call.
unfoldable pub clock : M ℕ
clock d = (ok d.now, d)

-- BEGIN IMMEDIATE: refused inside a transaction.
unfoldable pub db_begin_transaction : M (Unit {0})
db_begin_transaction d = if refused d.faults then (err 1, spent d) else elim d.saved [
  | none ↦ (ok tt, record (spent d) { saved = some d.tables })
  | some _ ↦ (err 1, spent d)
]

-- COMMIT: refused outside a transaction. A COMMIT that fails leaves the transaction open.
unfoldable pub db_commit_transaction : M (Unit {0})
db_commit_transaction d = if refused d.faults then (err 1, spent d) else elim d.saved [
  | none ↦ (err 1, spent d)
  | some _ ↦ (ok tt, record (spent d) { saved = none })
]

-- ROLLBACK: it fails only outside a transaction.
unfoldable pub db_rollback_transaction : M (Unit {0})
db_rollback_transaction d = elim d.saved [
  | none ↦ (err 1, d)
  | some t ↦ (ok tt, record d { tables = t; saved = none })
]

module _ {A : Type 0} where
  abbrev rolled_back : (ℕ → ℕ) → Result A × Db → Result A × Db
  rolled_back f (ok a, d) = (ok a, d)
  rolled_back f (err n, d) = (err (f n), (db_rollback_transaction d).1)

  -- A ROLLBACK where `m` fails, and a return by what `f` makes of its code.
  unfoldable pub or_rollback_by : (ℕ → ℕ) → M A → M A
  or_rollback_by f m d = rolled_back f (m d)

  -- `if (m != 0) { db_rollback_transaction(); return -n; }`
  abbrev pub or_rollback : ℕ → M A → M A
  or_rollback n m = or_rollback_by (λ _. n) m
