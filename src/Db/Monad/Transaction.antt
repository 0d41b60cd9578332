-- ===== src/Db/Monad/Transaction.antt =====
-- Transactions: what a function that runs inside one leaves behind.
use cs.Base.{ℕ, ◌≡◌, ◌⊎◌, inl, Bool, true, false, Option, none, some, if◌then◌else◌, arith}
use cs.Db.Tables.{Tables}
use cs.Db.Monad.{
  Result, ok, err, Db, M, pure, fail, select, write, coded, or_return, attempted, attempt, continue,
  ◌>>=◌, return_if, clock, rolled_back, db_rollback_transaction, or_rollback_by,
}

-- `m` leaves an open transaction open, or none open where none was.
pub record Stays {A : Type 0} (o : Option Tables) (m : M A) : Type 0 where
  pub at : (d : Db) → d.saved ≡ o → (m d).1.saved ≡ o

-- A ROLLBACK leads to `t`, or has led there.
abbrev pub Undoable : Tables → Db → Type 0
Undoable t d = (d.saved ≡ some t) ⊎ ((d.saved ≡ none) × (d.tables ≡ t))

abbrev pub Ends : {A : Type 0} → Tables → Result A × Db → Type 0
Ends t (ok _, d) = d.saved ≡ some t
Ends t (err _, d) = Undoable t d

-- Inside a transaction that began at `t`, `m` returns inside it, and where it fails the
-- transaction can be undone or has been.
pub record InTransaction {A : Type 0} (t : Tables) (m : M A) : Type 0 where
  pub at : (d : Db) → d.saved ≡ some t → Ends t (m d)

module _ (o : Option Tables) {A : Type 0} where
  coded-saved : (n : ℕ) (r : Result A) (d : Db) → d.saved ≡ o → (coded n (r, d)).1.saved ≡ o
  coded-saved n (ok a) d i = i
  coded-saved n (err _) d i = i

  attempted-saved : (r : Result A) (d : Db) → d.saved ≡ o → (attempted (r, d)).1.saved ≡ o
  attempted-saved (ok a) d i = i
  attempted-saved (err _) d i = i

module _ (t : Tables) {A : Type 0} where
  coded-Ends : (n : ℕ) (r : Result A) (d : Db) → Ends t (r, d) → Ends t (coded n (r, d))
  coded-Ends n (ok a) d i = i
  coded-Ends n (err _) d i = i

  rolled_back-Ends :
      (f : ℕ → ℕ) (r : Result A) (d : Db) → Ends t (r, d) → Ends t (rolled_back f (r, d))
  unfolding db_rollback_transaction
  rolled_back-Ends f (ok a) d i = i
  rolled_back-Ends f (err _) d i = ground arith

  Stays-Ends : (r : Result A) (d : Db) → d.saved ≡ some t → Ends t (r, d)
  Stays-Ends (ok a) d i = i
  Stays-Ends (err _) d i = inl i

module _ {o : Option Tables} {A : Type 0} where
  pub Stays-pure : (a : A) → Stays o (pure a)
  unfolding pure
  Stays-pure a = record { at = λ d h. h }

  pub Stays-fail : (n : ℕ) → Stays o (fail {A = A} n)
  unfolding fail
  Stays-fail n = record { at = λ d h. h }

  pub Stays-select : (f : Tables → Option A) → Stays o (select f)
  unfolding select
  Stays-select f = record { at = λ d h. ground arith }

  pub Stays-write : (f : Tables → Option (A × Tables)) → Stays o (write f)
  unfolding write
  Stays-write f = record { at = λ d h. ground arith }

  pub Stays-or_return : (n : ℕ) (m : M A) → Stays o m → Stays o (or_return n m)
  unfolding or_return
  Stays-or_return n m p = record {
    at = λ d i. let (r, d') = m d in coded-saved o n r d' (p.at d i);
  }

  pub Stays-attempt : (m : M A) → Stays o m → Stays o (attempt m)
  unfolding attempt
  Stays-attempt m p = record { at = λ d i. let (r, d') = m d in attempted-saved o r d' (p.at d i) }

  pub Stays-if : (b : Bool) (m n : M A) → Stays o m → Stays o n → Stays o (if b then m else n)
  Stays-if true m n p q = p
  Stays-if false m n p q = q

module _ {t : Tables} {A : Type 0} where
  pub InTransaction-of : (m : M A) → Stays (some t) m → InTransaction t m
  InTransaction-of m p = record { at = λ d i. let (r, d') = m d in Stays-Ends t r d' (p.at d i) }

  pub InTransaction-or_return :
      (n : ℕ) (m : M A) → InTransaction t m → InTransaction t (or_return n m)
  unfolding or_return
  InTransaction-or_return n m p = record {
    at = λ d i. let (r, d') = m d in coded-Ends t n r d' (p.at d i);
  }

  pub InTransaction-or_rollback :
      (f : ℕ → ℕ) (m : M A) → InTransaction t m → InTransaction t (or_rollback_by f m)
  unfolding or_rollback_by
  InTransaction-or_rollback f m p = record {
    at = λ d i. let (r, d') = m d in rolled_back-Ends t f r d' (p.at d i);
  }

module _ {o : Option Tables} {A B : Type 0} where
  continue-Stays :
      (r : Result A) (f : A → M B) (d : Db)
      → d.saved ≡ o
      → ((a : A) → Stays o (f a))
      → (continue r f d).1.saved ≡ o
  continue-Stays (ok a) f d i p = (p a).at d i
  continue-Stays (err n) f d i p = i

  pub Stays-bind :
      (m : M A) (f : A → M B) → Stays o m → ((a : A) → Stays o (f a)) → Stays o (m >>= f)
  unfolding ◌>>=◌
  Stays-bind m f p q = record {
    at = λ d i. let (r, d') = m d in continue-Stays r f d' (p.at d i) q;
  }

module _ {t : Tables} {A B : Type 0} where
  continue-Ends :
      (r : Result A) (f : A → M B) (d : Db)
      → Ends t (r, d)
      → ((a : A) → InTransaction t (f a))
      → Ends t (continue r f d)
  continue-Ends (ok a) f d i p = (p a).at d i
  continue-Ends (err n) f d i p = i

  pub InTransaction-bind :
      (m : M A) (f : A → M B)
      → InTransaction t m
      → ((a : A) → InTransaction t (f a))
      → InTransaction t (m >>= f)
  unfolding ◌>>=◌
  InTransaction-bind m f p q = record {
    at = λ d i. let (r, d') = m d in continue-Ends r f d' (p.at d i) q;
  }

module _ {o : Option Tables} where
  pub Stays-return_if : (b : Bool) (n : ℕ) → Stays o (return_if b n)
  unfolding return_if
  Stays-return_if true n = record { at = λ d i. i }
  Stays-return_if false n = record { at = λ d i. i }

  pub Stays-clock : Stays o clock
  unfolding clock
  Stays-clock = record { at = λ d i. i }

pub ruleset stays_rules = (
  Stays-pure, Stays-fail, Stays-select, Stays-write, Stays-or_return, Stays-attempt, Stays-if,
  Stays-bind, Stays-return_if, Stays-clock,
)
