-- ===== src/Db/Monad/Returns.antt =====
-- What cannot fail: its result is looked at nowhere.
use cs.Base.{◌≡◌, refl, Bool, true, false, if◌then◌else◌}
use cs.Db.Monad.{Result, ok, err, Db, M, pure, attempted, attempt, continue, ◌>>=◌, clock}
use cs.Db.Monad.Quiet.{IsOk}

-- `m` returns no error, whatever sqlite refuses.
pub record Returns {A : Type 0} (m : M A) : Type 0 where
  pub at : (d : Db) → IsOk (m d).0

module _ {A : Type 0} where
  attempted-IsOk : (r : Result A) (d : Db) → IsOk (attempted (r, d)).0
  attempted-IsOk (ok a) d = tt
  attempted-IsOk (err _) d = tt

  pub Returns-pure : (a : A) → Returns (pure a)
  unfolding pure
  Returns-pure a = record { at = λ d. tt }

  pub Returns-attempt : (m : M A) → Returns (attempt m)
  unfolding attempt
  Returns-attempt m = record { at = λ d. let (r, d') = m d in attempted-IsOk r d' }

  pub Returns-if : (b : Bool) (m n : M A) → Returns m → Returns n → Returns (if b then m else n)
  Returns-if true m n p q = p
  Returns-if false m n p q = q

pub Returns-clock : Returns clock
unfolding clock
Returns-clock = record { at = λ d. tt }

module _ {A B : Type 0} where
  continue-Returns :
      (r : Result A) (f : A → M B) (d : Db)
      → IsOk r
      → ((a : A) → Returns (f a))
      → IsOk (continue r f d).0
  continue-Returns (ok a) f d i p = (p a).at d
  continue-Returns (err n) f d i p = absurd i

  pub Returns-bind :
      (m : M A) (f : A → M B) → Returns m → ((a : A) → Returns (f a)) → Returns (m >>= f)
  unfolding ◌>>=◌
  Returns-bind m f p q = record {
    at = λ d. let (r, d') = m d in continue-Returns r f d' (p.at d) q;
  }

  ended : (r : Result A) (d : Db) (b : B) → IsOk r → (continue r (λ _ d'. (ok b, d')) d).0 ≡ ok b
  ended (ok a) d b i = refl
  ended (err n) d b i = absurd i

  -- What comes back from a function that cannot fail.
  pub after-Returns : (m : M A) (b : B) (d : Db) → Returns m → ((m >>= λ _. pure b) d).0 ≡ ok b
  unfolding ◌>>=◌ pure
  after-Returns m b d p = let (r, d') = m d in ended r d' b (p.at d)

pub ruleset returns_rules = (Returns-pure, Returns-attempt, Returns-if, Returns-clock, Returns-bind)
