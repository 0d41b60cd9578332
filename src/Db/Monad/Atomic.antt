-- ===== src/Db/Monad/Atomic.antt =====
-- From BEGIN to COMMIT: a function that changes the tables whole or not at all.
use cs.Base.{ℕ, ◌≡◌, refl, subst, ◌∙◌, Bool, true, false, Option, none, some, if◌then◌else◌, arith}
use cs.Db.Tables.{Tables}
use cs.Db.Monad.{
  Result, ok, err, Db, M, pure, fail, select, coded, or_return, attempted, attempt, continue, ◌>>=◌,
  return_if, clock, rolled_back, db_begin_transaction, db_commit_transaction,
  db_rollback_transaction, or_rollback_by,
}
use cs.Db.Monad.Transaction.{Stays, Ends, InTransaction}

-- No transaction is open, and the tables are `t`.
abbrev pub Settled : Tables → Db → Type 0
Settled t d = (d.saved ≡ none) × (d.tables ≡ t)

abbrev pub Rolled : {A : Type 0} → Tables → Result A × Db → Type 0
Rolled t (ok _, d) = d.saved ≡ some t
Rolled t (err _, d) = Settled t d

-- Inside a transaction that began at `t`: where `m` fails it has rolled back.
pub record Rolls {A : Type 0} (t : Tables) (m : M A) : Type 0 where
  pub at : (d : Db) → d.saved ≡ some t → Rolled t (m d)

abbrev pub Done : {A : Type 0} → Tables → Result A × Db → Type 0
Done t (ok _, d) = d.saved ≡ none
Done t (err _, d) = Settled t d

-- Inside a transaction that began at `t`: `m` commits, or fails and has rolled back.
pub record Closes {A : Type 0} (t : Tables) (m : M A) : Type 0 where
  pub at : (d : Db) → d.saved ≡ some t → Done t (m d)

-- Outside a transaction: `m` ends outside one, and where it fails the tables are as before.
pub record Atomic {A : Type 0} (m : M A) : Type 0 where
  pub at : (d : Db) → d.saved ≡ none → Done d.tables (m d)

-- `m` changes neither the tables nor the transaction.
pub record ReadOnly {A : Type 0} (m : M A) : Type 0 where
  pub at : (d : Db) → ((m d).1.tables ≡ d.tables) × ((m d).1.saved ≡ d.saved)

module _ (t : Tables) {A : Type 0} where
  rolled_back-Rolled :
      (f : ℕ → ℕ) (r : Result A) (d : Db) → Ends t (r, d) → Rolled t (rolled_back f (r, d))
  unfolding db_rollback_transaction
  rolled_back-Rolled f (ok a) d i = i
  rolled_back-Rolled f (err _) d i = ground arith

  attempted-Rolled : (r : Result A) (d : Db) → d.saved ≡ some t → Rolled t (attempted (r, d))
  attempted-Rolled (ok a) d i = i
  attempted-Rolled (err _) d i = i

module _ {t : Tables} {A : Type 0} where
  pub Rolls-or_rollback : (f : ℕ → ℕ) (m : M A) → InTransaction t m → Rolls t (or_rollback_by f m)
  unfolding or_rollback_by
  Rolls-or_rollback f m p = record {
    at = λ d i. let (r, d') = m d in rolled_back-Rolled t f r d' (p.at d i);
  }

module _ {t : Tables} where
  pub Closes-commit : (f : ℕ → ℕ) → Closes t (or_rollback_by f db_commit_transaction)
  unfolding or_rollback_by db_commit_transaction db_rollback_transaction
  Closes-commit f = record { at = λ d i. ground arith }

module _ {t : Tables} {A : Type 0} where
  pub Closes-fail : (f : ℕ → ℕ) (n : ℕ) → Closes t (or_rollback_by f (fail {A = A} n))
  unfolding or_rollback_by db_rollback_transaction fail
  Closes-fail f n = record { at = λ d i. ground arith }

  pub Rolls-pure : (a : A) → Rolls t (pure a)
  unfolding pure
  Rolls-pure a = record { at = λ d i. i }

  pub Rolls-if : (b : Bool) (m n : M A) → Rolls t m → Rolls t n → Rolls t (if b then m else n)
  Rolls-if true m n p q = p
  Rolls-if false m n p q = q

  pub Rolls-attempt : (m : M A) → Stays (some t) m → Rolls t (attempt m)
  unfolding attempt
  Rolls-attempt m p = record { at = λ d i. let (r, d') = m d in attempted-Rolled t r d' (p.at d i) }

module _ {t : Tables} where
  pub Rolls-clock : Rolls t clock
  unfolding clock
  Rolls-clock = record { at = λ d i. i }

-- What comes after the COMMIT, if it only returns.
module _ (t : Tables) {A B : Type 0} where
  after_commit :
      (b : B) (r : Result A) (d : Db) → Done t (r, d) → Done t (continue r (λ _. pure b) d)
  unfolding pure
  after_commit b (ok a) d i = i
  after_commit b (err n) d i = i

module _ {t : Tables} {A B : Type 0} where
  continue-Rolled :
      (r : Result A) (f : A → M B) (d : Db)
      → Rolled t (r, d)
      → ((a : A) → Rolls t (f a))
      → Rolled t (continue r f d)
  continue-Rolled (ok a) f d i p = (p a).at d i
  continue-Rolled (err n) f d i p = i

  pub Rolls-bind :
      (m : M A) (f : A → M B) → Rolls t m → ((a : A) → Rolls t (f a)) → Rolls t (m >>= f)
  unfolding ◌>>=◌
  Rolls-bind m f p q = record {
    at = λ d i. let (r, d') = m d in continue-Rolled r f d' (p.at d i) q;
  }

  continue-Done :
      (r : Result A) (f : A → M B) (d : Db)
      → Rolled t (r, d)
      → ((a : A) → Closes t (f a))
      → Done t (continue r f d)
  continue-Done (ok a) f d i p = (p a).at d i
  continue-Done (err n) f d i p = i

  pub Closes-bind :
      (m : M A) (f : A → M B) → Rolls t m → ((a : A) → Closes t (f a)) → Closes t (m >>= f)
  unfolding ◌>>=◌
  Closes-bind m f p q = record {
    at = λ d i. let (r, d') = m d in continue-Done r f d' (p.at d i) q;
  }

  pub Closes-pure : (m : M A) (b : B) → Closes t m → Closes t (m >>= λ _. pure b)
  unfolding ◌>>=◌
  Closes-pure m b p = record { at = λ d i. let (r, d') = m d in after_commit t b r d' (p.at d i) }

module _ {A : Type 0} where
  begin-Done :
      (f : Unit {0} → M A) (d : Db) (r : Result (Unit {0}) × Db)
      → d.saved ≡ none
      → db_begin_transaction d ≡ r
      → ((t : Tables) → Closes t (f tt))
      → (n : ℕ) → Done d.tables (continue (coded n r).0 f (coded n r).1)
  unfolding db_begin_transaction
  begin-Done f d (ok _, d') i e p n = (p d.tables).at d' (ground arith)
  begin-Done f d (err _, d') i e p n = ground arith

  pub Atomic-begin :
      (n : ℕ) (f : Unit {0} → M A)
      → ((t : Tables) → Closes t (f tt))
      → Atomic (or_return n db_begin_transaction >>= f)
  unfolding ◌>>=◌ or_return
  Atomic-begin n f p = record { at = λ d i. begin-Done f d (db_begin_transaction d) i refl p n }

  pub Atomic-if : (b : Bool) (m n : M A) → Atomic m → Atomic n → Atomic (if b then m else n)
  Atomic-if true m n p q = p
  Atomic-if false m n p q = q

module _ {A : Type 0} where
  pub ReadOnly-pure : (a : A) → ReadOnly (pure a)
  unfolding pure
  ReadOnly-pure a = record { at = λ d. (refl, refl) }

  pub ReadOnly-fail : (n : ℕ) → ReadOnly (fail {A = A} n)
  unfolding fail
  ReadOnly-fail n = record { at = λ d. (refl, refl) }

  pub ReadOnly-select : (f : Tables → Option A) → ReadOnly (select f)
  unfolding select
  ReadOnly-select f = record { at = λ d. ground arith }

  pub ReadOnly-or_return : (n : ℕ) (m : M A) → ReadOnly m → ReadOnly (or_return n m)
  unfolding or_return
  ReadOnly-or_return n m p = record { at = λ d. ground (arith, p.at d) }

  pub ReadOnly-attempt : (m : M A) → ReadOnly m → ReadOnly (attempt m)
  unfolding attempt
  ReadOnly-attempt m p = record { at = λ d. ground (arith, p.at d) }

  pub ReadOnly-if : (b : Bool) (m n : M A) → ReadOnly m → ReadOnly n → ReadOnly (if b then m else n)
  ReadOnly-if true m n p q = p
  ReadOnly-if false m n p q = q

module _ {A B : Type 0} where
  continue-ReadOnly :
      (r : Result A) (f : A → M B) (d : Db)
      → ((a : A) → ReadOnly (f a))
      → ((continue r f d).1.tables ≡ d.tables) × ((continue r f d).1.saved ≡ d.saved)
  continue-ReadOnly (ok a) f d p = (p a).at d
  continue-ReadOnly (err n) f d p = (refl, refl)

  pub ReadOnly-bind :
      (m : M A) (f : A → M B) → ReadOnly m → ((a : A) → ReadOnly (f a)) → ReadOnly (m >>= f)
  unfolding ◌>>=◌
  ReadOnly-bind m f p q = record {
    at = λ d.
        let (r, d') = m d in
        let (t, s) = continue-ReadOnly r f d' q in let (t', s') = p.at d in (t ∙ t', s ∙ s');
  }

  continue-Atomic :
      (t : Tables) (r : Result A) (f : A → M B) (d : Db)
      → Settled t d
      → ((a : A) → Atomic (f a))
      → Done t (continue r f d)
  continue-Atomic t (ok a) f d (i, e) p = subst (λ u. Done u (f a d)) e ((p a).at d i)
  continue-Atomic t (err n) f d i p = i

  -- What is read before the BEGIN changes nothing.
  pub Atomic-bind :
      (m : M A) (f : A → M B) → ReadOnly m → ((a : A) → Atomic (f a)) → Atomic (m >>= f)
  unfolding ◌>>=◌
  Atomic-bind m f p q = record {
    at = λ d i.
        let (r, d') = m d in let (t, s) = p.at d in continue-Atomic d.tables r f d' (s ∙ i, t) q;
  }

pub ReadOnly-return_if : (b : Bool) (n : ℕ) → ReadOnly (return_if b n)
unfolding return_if
ReadOnly-return_if true n = record { at = λ d. (refl, refl) }
ReadOnly-return_if false n = record { at = λ d. (refl, refl) }

pub ReadOnly-clock : ReadOnly clock
unfolding clock
ReadOnly-clock = record { at = λ d. (refl, refl) }

pub ruleset read_rules = (
  ReadOnly-pure, ReadOnly-fail, ReadOnly-select, ReadOnly-or_return, ReadOnly-attempt, ReadOnly-if,
  ReadOnly-bind, ReadOnly-return_if, ReadOnly-clock,
)
