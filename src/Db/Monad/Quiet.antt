-- ===== src/Db/Monad/Quiet.antt =====
-- What follows a COMMIT: work that cannot fail and leaves no transaction open.
use cs.Base.{◌≡◌, ◌∙◌, Bool, true, false, none, if◌then◌else◌}
use cs.Db.Tables.{Tables}
use cs.Db.Monad.{Result, ok, err, Db, M, pure, attempted, attempt, continue, ◌>>=◌, clock}
use cs.Db.Monad.Transaction.{Stays}
use cs.Db.Monad.Atomic.{Done, Atomic, ReadOnly}

abbrev pub IsOk : {A : Type 0} → Result A → Type 0
IsOk (ok _) = Unit {0}
IsOk (err _) = ⊥

-- Outside a transaction, `m` ends outside one.
pub record Settles {A : Type 0} (m : M A) : Type 0 where
  pub at : (d : Db) → d.saved ≡ none → (m d).1.saved ≡ none

-- Outside a transaction, `m` returns, and ends outside one.
pub record Quiet {A : Type 0} (m : M A) : Type 0 where
  pub at : (d : Db) → d.saved ≡ none → IsOk (m d).0 × ((m d).1.saved ≡ none)

module _ {A : Type 0} where
  Done-saved : (t : Tables) (r : Result A) (d : Db) → Done t (r, d) → d.saved ≡ none
  Done-saved t (ok a) d h = h
  Done-saved t (err n) d h = h.0

  pub Settles-Atomic : (m : M A) → Atomic m → Settles m
  Settles-Atomic m p = record {
    at = λ d i. let (r, d') = m d in Done-saved d.tables r d' (p.at d i);
  }

  pub Settles-read : (m : M A) → ReadOnly m → Settles m
  Settles-read m p = record { at = λ d i. (p.at d).1 ∙ i }

  pub Settles-Stays : (m : M A) → Stays none m → Settles m
  Settles-Stays m p = record { at = λ d i. p.at d i }

  pub Settles-Quiet : (m : M A) → Quiet m → Settles m
  Settles-Quiet m p = record { at = λ d i. (p.at d i).1 }

  pub Quiet-pure : (a : A) → Quiet (pure a)
  unfolding pure
  Quiet-pure a = record { at = λ d i. (tt, i) }

  attempted-Quiet :
      (r : Result A) (d : Db)
      → d.saved ≡ none
      → IsOk (attempted (r, d)).0 × ((attempted (r, d)).1.saved ≡ none)
  attempted-Quiet (ok a) d i = (tt, i)
  attempted-Quiet (err _) d i = (tt, i)

  pub Quiet-attempt : (m : M A) → Settles m → Quiet (attempt m)
  unfolding attempt
  Quiet-attempt m p = record { at = λ d i. let (r, d') = m d in attempted-Quiet r d' (p.at d i) }

  pub Quiet-if : (b : Bool) (m n : M A) → Quiet m → Quiet n → Quiet (if b then m else n)
  Quiet-if true m n p q = p
  Quiet-if false m n p q = q

pub Quiet-clock : Quiet clock
unfolding clock
Quiet-clock = record { at = λ d i. (tt, i) }

module _ {A B : Type 0} where
  continue-Quiet :
      (r : Result A) (f : A → M B) (d : Db)
      → IsOk r × (d.saved ≡ none)
      → ((a : A) → Quiet (f a))
      → IsOk (continue r f d).0 × ((continue r f d).1.saved ≡ none)
  continue-Quiet (ok a) f d i p = (p a).at d i.1
  continue-Quiet (err n) f d i p = absurd i.0

  pub Quiet-bind : (m : M A) (f : A → M B) → Quiet m → ((a : A) → Quiet (f a)) → Quiet (m >>= f)
  unfolding ◌>>=◌
  Quiet-bind m f p q = record {
    at = λ d i. let (r, d') = m d in continue-Quiet r f d' (p.at d i) q;
  }

module _ (t : Tables) {B : Type 0} where
  IsOk-Done : (r : Result B) (d : Db) → IsOk r × (d.saved ≡ none) → Done t (r, d)
  IsOk-Done (ok _) d h = h.1
  IsOk-Done (err _) d h = absurd h.0

module _ {A B : Type 0} where
  ended_by :
      (t : Tables) (r : Result A) (f : A → M B) (d : Db)
      → Done t (r, d)
      → ((a : A) → Quiet (f a))
      → Done t (continue r f d)
  ended_by t (ok a) f d i q = let (r, d') = f a d in IsOk-Done t r d' ((q a).at d i)
  ended_by t (err _) f d i q = i

  -- Work that cannot fail may follow a transaction.
  pub Atomic-then : (m : M A) (f : A → M B) → Atomic m → ((a : A) → Quiet (f a)) → Atomic (m >>= f)
  unfolding ◌>>=◌
  Atomic-then m f p q = record {
    at = λ d i. let (r, d') = m d in ended_by d.tables r f d' (p.at d i) q;
  }

pub ruleset quiet_rules =
    (Quiet-pure, Quiet-clock, Quiet-if, Quiet-attempt, Quiet-bind, Settles-Stays, Settles-read)
