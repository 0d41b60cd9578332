-- ===== src/Db/Monad/Preserves.antt =====
-- Invariants of the tables: one rule for each way to build a function of the server. The invariant
-- is kept by the tables and by what a ROLLBACK would go back to.
use cs.Base.{
  ℕ, ◌≡◌, refl, inl, inr, Bool, true, false, Option, none, some, if◌then◌else◌, Bool-cases, arith,
}
use cs.Db.Tables.{Tables}
use cs.Db.Monad.{
  Result, ok, err, Db, M, refused, spent, pure, fail, select, wrote, write, coded, or_return,
  attempted, attempt, continue, ◌>>=◌, return_if, clock, rolled_back, db_begin_transaction,
  db_commit_transaction, db_rollback_transaction, or_rollback_by,
}

abbrev pub SavedHolds : (Tables → Type 0) → Option Tables → Type 0
SavedHolds Q none = Unit {0}
SavedHolds Q (some t) = Q t

abbrev pub Inv : (Tables → Type 0) → Db → Type 0
Inv Q d = Q d.tables × SavedHolds Q d.saved

-- `m` keeps `Q`, however it ends.
pub record Preserves {A : Type 0} (Q : Tables → Type 0) (m : M A) : Type 0 where
  pub at : (d : Db) → Inv Q d → Inv Q (m d).1

-- How a result is renamed or looked at changes no table.
module _ (Q : Tables → Type 0) {A : Type 0} where
  coded-Inv : (n : ℕ) (r : Result A) (d : Db) → Inv Q d → Inv Q (coded n (r, d)).1
  coded-Inv n (ok a) d i = i
  coded-Inv n (err _) d i = i

  attempted-Inv : (r : Result A) (d : Db) → Inv Q d → Inv Q (attempted (r, d)).1
  attempted-Inv (ok a) d i = i
  attempted-Inv (err _) d i = i

module _ {Q : Tables → Type 0} {A : Type 0} where
  pub Preserves-pure : (a : A) → Preserves Q (pure a)
  unfolding pure
  Preserves-pure a = record { at = λ d h. h }

  pub Preserves-fail : (n : ℕ) → Preserves Q (fail {A = A} n)
  unfolding fail
  Preserves-fail n = record { at = λ d h. h }

  pub Preserves-select : (f : Tables → Option A) → Preserves Q (select f)
  unfolding select
  Preserves-select f = record { at = λ d h. ground arith }

  wrote-Inv :
      (o : Option (A × Tables)) (d : Db)
      → Inv Q d
      → ((a : A) (t : Tables) → o ≡ some (a, t) → Q t)
      → Inv Q (wrote o d).1
  wrote-Inv none d i h = i
  wrote-Inv (some (a, t)) d i h = (h a t refl, i.1)

  pub Preserves-write :
      (f : Tables → Option (A × Tables))
      → ((t : Tables) → Q t → (a : A) (t' : Tables) → f t ≡ some (a, t') → Q t')
      → Preserves Q (write f)
  unfolding write
  Preserves-write f h = record {
    at = λ d i. elim (Bool-cases (refused d.faults)) [
      | inl no_luck ↦ rw no_luck i
      | inr luck ↦ rw luck (wrote-Inv (f d.tables) (spent d) i (h d.tables i.0))
    ];
  }

  pub Preserves-or_return : (n : ℕ) (m : M A) → Preserves Q m → Preserves Q (or_return n m)
  unfolding or_return
  Preserves-or_return n m p = record {
    at = λ d i. let (r, d') = m d in coded-Inv Q n r d' (p.at d i);
  }

  pub Preserves-attempt : (m : M A) → Preserves Q m → Preserves Q (attempt m)
  unfolding attempt
  Preserves-attempt m p = record {
    at = λ d i. let (r, d') = m d in attempted-Inv Q r d' (p.at d i);
  }

  pub Preserves-if :
      (b : Bool) (m n : M A)
      → (b ≡ true → Preserves Q m)
      → (b ≡ false → Preserves Q n)
      → Preserves Q (if b then m else n)
  Preserves-if true m n p q = p refl
  Preserves-if false m n p q = q refl

module _ {Q : Tables → Type 0} {A B : Type 0} where
  continue-Inv :
      (r : Result A) (f : A → M B) (d : Db)
      → Inv Q d
      → ((a : A) → Preserves Q (f a))
      → Inv Q (continue r f d).1
  continue-Inv (ok a) f d i p = (p a).at d i
  continue-Inv (err n) f d i p = i

  pub Preserves-bind :
      (m : M A) (f : A → M B)
      → Preserves Q m
      → ((a : A) → Preserves Q (f a))
      → Preserves Q (m >>= f)
  unfolding ◌>>=◌
  Preserves-bind m f p q = record {
    at = λ d i. let (r, d') = m d in continue-Inv r f d' (p.at d i) q;
  }

module _ {Q : Tables → Type 0} where
  pub Preserves-return_if : (b : Bool) (n : ℕ) → Preserves Q (return_if b n)
  unfolding return_if
  Preserves-return_if true n = record { at = λ d i. i }
  Preserves-return_if false n = record { at = λ d i. i }

  pub Preserves-clock : Preserves Q clock
  unfolding clock
  Preserves-clock = record { at = λ d i. i }

  pub Preserves-begin : Preserves Q db_begin_transaction
  unfolding db_begin_transaction
  Preserves-begin = record { at = λ d i. ground arith }

  pub Preserves-commit : Preserves Q db_commit_transaction
  unfolding db_commit_transaction
  Preserves-commit = record { at = λ d i. ground arith }

  pub Preserves-rollback : Preserves Q db_rollback_transaction
  unfolding db_rollback_transaction
  Preserves-rollback = record { at = λ d i. ground arith }

module _ (Q : Tables → Type 0) {A : Type 0} where
  rolled_back-Inv : (f : ℕ → ℕ) (r : Result A) (d : Db) → Inv Q d → Inv Q (rolled_back f (r, d)).1
  rolled_back-Inv f (ok a) d i = i
  rolled_back-Inv f (err _) d i = Preserves-rollback.at d i

module _ {Q : Tables → Type 0} {A : Type 0} where
  pub Preserves-or_rollback :
      (f : ℕ → ℕ) (m : M A) → Preserves Q m → Preserves Q (or_rollback_by f m)
  unfolding or_rollback_by
  Preserves-or_rollback f m p = record {
    at = λ d i. let (r, d') = m d in rolled_back-Inv Q f r d' (p.at d i);
  }

pub ruleset preserves_rules = (
  Preserves-pure, Preserves-fail, Preserves-select, Preserves-or_return, Preserves-attempt,
  Preserves-if, Preserves-bind, Preserves-return_if, Preserves-clock, Preserves-begin,
  Preserves-commit, Preserves-rollback, Preserves-or_rollback,
)
