-- ===== src/Db/Monad/Frame.antt =====
-- What a part of a transaction leaves alone, and what holds where it succeeds.
use cs.Base.{
  ℕ, ◌≡◌, refl, ◌∙◌, inl, inr, Bool, true, false, Option, none, some, if◌then◌else◌, Bool-cases,
  arith,
}
use cs.Db.Tables.{Tables}
use cs.Db.Monad.{
  db_commit_transaction, Result, ok, err, Db, M, refused, spent, pure, fail, found, select, wrote,
  write, coded, or_return, attempted, attempt, continue, ◌>>=◌, return_if, clock, rolled_back,
  db_begin_transaction, or_rollback_by,
}

-- What is said of a success; nothing is said of a failure.
abbrev pub IfOk : {A : Type 0} → (A → Db → Type 0) → Result A × Db → Type 0
IfOk Q (ok a, d) = Q a d
IfOk Q (err _, d) = Unit {0}

module _ {A B : Type 0} (Q : B → Db → Type 0) where
  continue-IfOk :
      (r : Result A) (f : A → M B) (d : Db)
      → IfOk (λ a d'. IfOk Q (f a d')) (r, d)
      → IfOk Q (continue r f d)
  continue-IfOk (ok a) f d h = h
  continue-IfOk (err _) f d h = tt

  pub IfOk-bind :
      (m : M A) (f : A → M B) (d : Db) → IfOk (λ a d'. IfOk Q (f a d')) (m d) → IfOk Q ((m >>= f) d)
  unfolding ◌>>=◌
  IfOk-bind m f d h = let (r, d') = m d in continue-IfOk r f d' h

module _ {A : Type 0} (Q : A → Db → Type 0) where
  rolled_back-IfOk :
      (g : ℕ → ℕ) (r : Result A) (d : Db) → IfOk Q (r, d) → IfOk Q (rolled_back g (r, d))
  rolled_back-IfOk g (ok a) d h = h
  rolled_back-IfOk g (err _) d h = tt

  pub IfOk-or_rollback :
      (g : ℕ → ℕ) (m : M A) (d : Db) → IfOk Q (m d) → IfOk Q (or_rollback_by g m d)
  unfolding or_rollback_by
  IfOk-or_rollback g m d h = let (r, d') = m d in rolled_back-IfOk g r d' h

  coded-IfOk : (n : ℕ) (r : Result A) (d : Db) → IfOk Q (r, d) → IfOk Q (coded n (r, d))
  coded-IfOk n (ok a) d h = h
  coded-IfOk n (err _) d h = tt

  pub IfOk-or_return : (n : ℕ) (m : M A) (d : Db) → IfOk Q (m d) → IfOk Q (or_return n m d)
  unfolding or_return
  IfOk-or_return n m d h = let (r, d') = m d in coded-IfOk n r d' h

  found-IfOk : (o : Option A) (d : Db) → ((a : A) → o ≡ some a → Q a d) → IfOk Q (found o d)
  found-IfOk none d h = tt
  found-IfOk (some a) d h = h a refl

  pub IfOk-select :
      (f : Tables → Option A) (d : Db)
      → ((a : A) → f d.tables ≡ some a → Q a (spent d))
      → IfOk Q (select f d)
  unfolding select
  IfOk-select f d h = elim (Bool-cases (refused d.faults)) [
    | inl e ↦ rw e tt
    | inr e ↦ rw e (found-IfOk (f d.tables) (spent d) h)
  ]

  wrote-IfOk :
      (o : Option (A × Tables)) (d : Db)
      → ((a : A) (t : Tables) → o ≡ some (a, t) → Q a (record d { tables = t }))
      → IfOk Q (wrote o d)
  wrote-IfOk none d h = tt
  wrote-IfOk (some (a, t)) d h = h a t refl

  pub IfOk-write :
      (f : Tables → Option (A × Tables)) (d : Db)
      → ((a : A) (t : Tables) → f d.tables ≡ some (a, t) → Q a (record (spent d) { tables = t }))
      → IfOk Q (write f d)
  unfolding write
  IfOk-write f d h = elim (Bool-cases (refused d.faults)) [
    | inl e ↦ rw e tt
    | inr e ↦ rw e (wrote-IfOk (f d.tables) (spent d) h)
  ]

  pub IfOk-always : (r : Result A) (d : Db) → ((a : A) (d' : Db) → Q a d') → IfOk Q (r, d)
  IfOk-always (ok a) d h = h a d
  IfOk-always (err _) d h = tt

  pub IfOk-mono :
      (P : A → Db → Type 0) (r : Result A) (d : Db)
      → ((a : A) (d' : Db) → P a d' → Q a d')
      → IfOk P (r, d)
      → IfOk Q (r, d)
  IfOk-mono P (ok a) d h p = h a d p
  IfOk-mono P (err _) d h p = tt

module _ (Q : Unit {0} → Db → Type 0) where
  pub IfOk-return_if : (b : Bool) (n : ℕ) (d : Db) → (b ≡ false → Q tt d) → IfOk Q (return_if b n d)
  unfolding return_if
  IfOk-return_if true n d h = tt
  IfOk-return_if false n d h = h refl

module _ {X : Type 0} where
  -- The open transaction is `o`, and `g` of the tables is `x`.
  abbrev pub Within : Option Tables → (Tables → X) → X → Db → Type 0
  Within o g x d = (d.saved ≡ o) × (g d.tables ≡ x)

  -- What a statement writes has `x` as its `g`.
  abbrev pub Leaves : {A : Type 0} → (Tables → X) → X → Option (A × Tables) → Type 0
  Leaves g x none = Unit {0}
  Leaves g x (some (a, s)) = g s ≡ x

  pub Leaves-if :
      {A : Type 0} (g : Tables → X) (x : X) (b : Bool) (a : A) (s : Tables)
      → g s ≡ x
      → Leaves g x (if b then some (a, s) else none)
  Leaves-if g x true a s e = e
  Leaves-if g x false a s e = tt

  -- However `m` ends, it leaves `g` of the tables alone.
  pub record Keeps {A : Type 0} (o : Option Tables) (g : Tables → X) (m : M A) : Type 0 where
    pub at : (x : X) (d : Db) → Within o g x d → Within o g x (m d).1

  -- Where `m` succeeds, it has left `g` of the tables alone.
  pub record Frame {A : Type 0} (o : Option Tables) (g : Tables → X) (m : M A) : Type 0 where
    pub at : (x : X) (d : Db) → Within o g x d → IfOk (λ _. Within o g x) (m d)

module _ {X : Type 0} (o : Option Tables) (g : Tables → X) (x : X) {A : Type 0} where
  coded-Within : (n : ℕ) (r : Result A) (d : Db) → Within o g x d → Within o g x (coded n (r, d)).1
  coded-Within n (ok a) d i = i
  coded-Within n (err _) d i = i

  attempted-Within : (r : Result A) (d : Db) → Within o g x d → Within o g x (attempted (r, d)).1
  attempted-Within (ok a) d i = i
  attempted-Within (err _) d i = i

  Within-IfOk : (r : Result A) (d : Db) → Within o g x d → IfOk (λ _. Within o g x) (r, d)
  Within-IfOk (ok a) d i = i
  Within-IfOk (err _) d i = tt

  found-Within : (r : Option A) (d : Db) → Within o g x d → Within o g x (found r d).1
  found-Within none d i = i
  found-Within (some a) d i = i

  wrote-Within :
      (r : Option (A × Tables)) (d : Db)
      → Within o g x d
      → Leaves g (g d.tables) r
      → Within o g x (wrote r d).1
  wrote-Within none d i h = i
  wrote-Within (some (a, s)) d i h = (i.0, h ∙ i.1)

module _ {X : Type 0} {o : Option Tables} {g : Tables → X} {A : Type 0} where
  pub Keeps-pure : (a : A) → Keeps o g (pure a)
  unfolding pure
  Keeps-pure a = record { at = λ x d i. i }

  pub Keeps-fail : (n : ℕ) → Keeps o g (fail {A = A} n)
  unfolding fail
  Keeps-fail n = record { at = λ x d i. i }

  pub Keeps-select : (f : Tables → Option A) → Keeps o g (select f)
  unfolding select
  Keeps-select f = record {
    at = λ x d i. elim (Bool-cases (refused d.faults)) [
      | inl e ↦ rw e i
      | inr e ↦ rw e (found-Within o g x (f d.tables) (spent d) i)
    ];
  }

  pub Keeps-write :
      (f : Tables → Option (A × Tables))
      → ((s : Tables) → Leaves g (g s) (f s))
      → Keeps o g (write f)
  unfolding write
  Keeps-write f h = record {
    at = λ x d i. elim (Bool-cases (refused d.faults)) [
      | inl e ↦ rw e i
      | inr e ↦ rw e (wrote-Within o g x (f d.tables) (spent d) i (h d.tables))
    ];
  }

  pub Keeps-or_return : (n : ℕ) (m : M A) → Keeps o g m → Keeps o g (or_return n m)
  unfolding or_return
  Keeps-or_return n m p = record {
    at = λ x d i. let (r, d') = m d in coded-Within o g x n r d' (p.at x d i);
  }

  pub Keeps-attempt : (m : M A) → Keeps o g m → Keeps o g (attempt m)
  unfolding attempt
  Keeps-attempt m p = record {
    at = λ x d i. let (r, d') = m d in attempted-Within o g x r d' (p.at x d i);
  }

  pub Keeps-if : (b : Bool) (m n : M A) → Keeps o g m → Keeps o g n → Keeps o g (if b then m else n)
  Keeps-if true m n p q = p
  Keeps-if false m n p q = q

  pub Frame-of : (m : M A) → Keeps o g m → Frame o g m
  Frame-of m p = record { at = λ x d i. let (r, d') = m d in Within-IfOk o g x r d' (p.at x d i) }

  pub Frame-or_rollback : (f : ℕ → ℕ) (m : M A) → Frame o g m → Frame o g (or_rollback_by f m)
  Frame-or_rollback f m p = record {
    at = λ x d i. IfOk-or_rollback (λ _. Within o g x) f m d (p.at x d i);
  }

module _ {X : Type 0} {o : Option Tables} {g : Tables → X} where
  pub Keeps-return_if : (b : Bool) (n : ℕ) → Keeps o g (return_if b n)
  unfolding return_if
  Keeps-return_if true n = record { at = λ x d i. i }
  Keeps-return_if false n = record { at = λ x d i. i }

  pub Keeps-clock : Keeps o g clock
  unfolding clock
  Keeps-clock = record { at = λ x d i. i }

module _ {X : Type 0} {o : Option Tables} {g : Tables → X} {A B : Type 0} where
  continue-Within :
      (x : X) (r : Result A) (f : A → M B) (d : Db)
      → Within o g x d
      → ((a : A) → Keeps o g (f a))
      → Within o g x (continue r f d).1
  continue-Within x (ok a) f d i p = (p a).at x d i
  continue-Within x (err n) f d i p = i

  pub Keeps-bind :
      (m : M A) (f : A → M B) → Keeps o g m → ((a : A) → Keeps o g (f a)) → Keeps o g (m >>= f)
  unfolding ◌>>=◌
  Keeps-bind m f p q = record {
    at = λ x d i. let (r, d') = m d in continue-Within x r f d' (p.at x d i) q;
  }

  pub Frame-bind :
      (m : M A) (f : A → M B) → Frame o g m → ((a : A) → Frame o g (f a)) → Frame o g (m >>= f)
  Frame-bind m f p q = record {
    at = λ x d i.
        IfOk-bind (λ _. Within o g x) m f d
          (let (r, d') = m d in
            IfOk-mono (λ a e. IfOk (λ _. Within o g x) (f a e)) (λ _. Within o g x) r d'
              (λ a e j. (q a).at x e j) (p.at x d i));
  }

module _ {X : Type 0} {t : Tables} {g : Tables → X} {A : Type 0} where
  -- What follows a BEGIN inside a transaction is never reached.
  pub Keeps-nested :
      (n : ℕ) (f : Unit {0} → M A) → Keeps (some t) g (or_return n db_begin_transaction >>= f)
  unfolding or_return db_begin_transaction ◌>>=◌
  Keeps-nested n f = record { at = λ x d i. ground arith }

-- What follows a BEGIN.
module _ {X : Type 0} (g : Tables → X) {A : Type 0} (Q : A → Db → Type 0) where
  pub begin-IfOk :
      (n : ℕ) (f : Unit {0} → M A) (d : Db)
      → d.saved ≡ none
      → ((d' : Db) → Within (some d.tables) g (g d.tables) d' → IfOk Q (f tt d'))
      → IfOk Q ((or_return n db_begin_transaction >>= f) d)
  unfolding or_return db_begin_transaction ◌>>=◌
  begin-IfOk n f d i h = elim (Bool-cases (refused d.faults)) [
    | inl e ↦ rw e tt
    | inr e ↦ rw (e, i) (h (record (spent d) { saved = some d.tables }) (refl, refl))
  ]

-- A COMMIT, and what may come before it.
module _ {X : Type 0} (g : Tables → X) where
  pub commit-IfOk :
      (t : Tables) (x : X) (f : ℕ → ℕ) (d : Db)
      → Within (some t) g x d
      → IfOk
          (λ _ d'. (d'.saved ≡ none) × (g d'.tables ≡ x))
          (or_rollback_by f db_commit_transaction d)
  unfolding or_rollback_by db_commit_transaction
  commit-IfOk t x f d i = elim (Bool-cases (refused d.faults)) [
    | inl e ↦ rw e tt
    | inr e ↦ rw (e, i.0) (refl, i.1)
  ]

module _ {X : Type 0} {o : Option Tables} {g : Tables → X} {A B : Type 0} where
  pub Frame-then :
      (Q : B → Db → Type 0) (m : M A) (f : A → M B) (x : X) (d : Db)
      → Frame o g m
      → Within o g x d
      → ((a : A) (d' : Db) → Within o g x d' → IfOk Q (f a d'))
      → IfOk Q ((m >>= f) d)
  Frame-then Q m f x d p i q = IfOk-bind Q m f d (
      let (r, d') = m d in
      IfOk-mono (λ a e. IfOk Q (f a e)) (λ _. Within o g x) r d' q (p.at x d i))

pub ruleset keeps_rules = (
  Keeps-pure, Keeps-fail, Keeps-select, Keeps-or_return, Keeps-attempt, Keeps-if, Keeps-bind,
  Keeps-return_if, Keeps-clock,
)
