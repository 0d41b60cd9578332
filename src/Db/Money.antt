-- ===== src/Db/Money.antt =====
-- The sum of all balances, and what moves it.
use cs.Base.{
  ℕ, ◌+◌, ◌≤◌, ◌≡◌, ◌≢◌, refl, sym, ap, ◌∙◌, Bool, false, Option, none, some, arith, Bool-cases,
  inl, inr,
}
use cs.Types.{User, MarketListing}
use cs.Db.Table.{Rows, find, put, sum_of, sum_of-put, find-put_ne}
use cs.Db.Tables.{Tables}
use cs.Db.Monad.{return_if, Db, M, refused, spent, write, ◌>>=◌, ◌>>◌, or_rollback_by, or_rollback}
use cs.Db.Monad.Frame.{
  IfOk-select, IfOk-return_if, IfOk, IfOk-bind, IfOk-or_rollback, Keeps, Keeps-write, Keeps-bind,
  Keeps-select, Keeps-return_if, keeps_rules,
}
use cs.Db.Apart.{Apart, apart_rules}
use cs.Db.Users.{user_at, db_load_user, db_update_user}
use cs.Db.Listings.{sell_row, db_atomic_mark_listing_sold}

abbrev pub money : Tables → ℕ
money t = sum_of (λ u. u.balance) t.users

abbrev keyed : ℕ → Option User → Option User
keyed a none = none
keyed a (some row) = some (record row { user_id = a })

keyed-row :
    (a : ℕ) (o : Option User) (u : User)
    → keyed a o ≡ some u
    → (row : User) × (o ≡ some row) × (u ≡ record row { user_id = a })
keyed-row a none u e = ground arith
keyed-row a (some row) u e = (row, refl, sym (ap (λ o. elim o [ none ↦ row | some w ↦ w ]) e))

-- Whether `user_at` finds a row is whether `keyed` does.
user_at-keyed :
    (a : ℕ) (t : Tables) (o : Option User) → find a t.users ≡ o → user_at a t ≡ keyed a o
user_at-keyed a t none e = rw (user_at, e) refl
user_at-keyed a t (some row) e = rw (user_at, e) refl

-- A row read by `db_load_user`.
pub user_at-row :
    (a : ℕ) (t : Tables) (u : User)
    → user_at a t ≡ some u
    → (row : User) × (find a t.users ≡ some row) × (u ≡ record row { user_id = a })
user_at-row a t u e = keyed-row a (find a t.users) u (sym (user_at-keyed a t _ refl) ∙ e)

-- The sum after the rows of two users have been written anew.
two_rows :
    (a b p q : ℕ) (r s : User) (t : Rows User)
    → a ≢ b
    → find a t ≡ some r
    → find b t ≡ some s
    → sum_of
          (λ w. w.balance)
          (put b
            (record s { user_id = b; balance = q })
            (put a (record r { user_id = a; balance = p }) t))
        + (r.balance + s.balance)
      ≡ sum_of (λ w. w.balance) t + (p + q)
two_rows a b p q r s t ne e f =
    let r' : User = record r { user_id = a; balance = p } in
    let s' : User = record s { user_id = b; balance = q } in
    let first = sum_of-put (λ w. w.balance) a r' r t e in
    let second = sum_of-put (λ w. w.balance) b s' s (put a r' t) (find-put_ne b a r' t ne ∙ f) in
    omega arith

pub two_updates :
    (t : Tables) (a b p q : ℕ) (u v : User)
    → a ≢ b
    → user_at a t ≡ some u
    → user_at b t ≡ some v
    → sum_of
          (λ w. w.balance)
          (put v.user_id
            (record v { balance = q })
            (put u.user_id (record u { balance = p }) t.users))
        + (u.balance + v.balance)
      ≡ money t + (p + q)
two_updates t a b p q u v ne e f =
    let (r, e', eu) = user_at-row a t u e in
    let (s, f', ev) = user_at-row b t v f in rw (eu, ev) (two_rows a b p q r s t.users ne e' f')

-- Two users hold no more than all do.
pub pair-money :
    (t : Tables) (a b : ℕ) (u v : User)
    → a ≢ b
    → user_at a t ≡ some u
    → user_at b t ≡ some v
    → u.balance + v.balance ≤ money t
pair-money t a b u v ne e f = let emptied = two_updates t a b 0 0 u v ne e f in omega arith

pub sell_row-money :
    (k : ℕ) (o : Option MarketListing) (s : Tables) → money (sell_row k o s).1 ≡ money s
sell_row-money k none s = refl
sell_row-money k (some l) s = ground arith

-- An update of a user either is refused or writes the row.
pub db_update_user-IfOk :
    (Q : Unit {0} → Db → Type 0) (n : ℕ) (u : User) (d : Db)
    → Q tt
        (record (spent d) { tables = record d.tables { users = put u.user_id u d.tables.users } })
    → IfOk Q (or_rollback n (db_update_user u) d)
unfolding db_update_user write or_rollback_by
db_update_user-IfOk Q n u d h = elim (Bool-cases (refused d.faults)) [
  | inl e ↦ rw e tt
  | inr e ↦ rw e h
]

-- The last two statements of a transfer: one balance becomes `p`, the other `q`.
pub pair_updates :
    (m n a b p q : ℕ) (u v : User) (t : Tables) (d : Db)
    → d.saved ≡ some t
    → a ≢ b
    → user_at a d.tables ≡ some u
    → user_at b d.tables ≡ some v
    → IfOk
        (λ _ d'.
          (d'.saved ≡ some t)
          × (money d'.tables + (u.balance + v.balance) ≡ money d.tables + (p + q)))
        ((or_rollback m (db_update_user (record u { balance = p }))
            >> or_rollback n (db_update_user (record v { balance = q })))
          d)
pair_updates m n a b p q u v t d i ne e f = IfOk-bind _ _ _ d (
    db_update_user-IfOk _ m (record u { balance = p }) d
      (db_update_user-IfOk _ n (record v { balance = q }) _
        (i, two_updates d.tables a b p q u v ne e f)))

-- A read and a test, each with a ROLLBACK where it fails.
module _ {B : Type 0} (Q : B → Db → Type 0) where
  pub load_user_then :
      (n a : ℕ) (f : User → M B) (d : Db)
      → ((u : User) → user_at a d.tables ≡ some u → IfOk Q (f u (spent d)))
      → IfOk Q ((or_rollback n (db_load_user a) >>= f) d)
  unfolding db_load_user
  load_user_then n a f d h =
      IfOk-bind Q _ f d (IfOk-or_rollback _ _ _ d (IfOk-select _ (user_at a) d h))

  pub test_then :
      (b : Bool) (n m : ℕ) (f : Unit {0} → M B) (d : Db)
      → (b ≡ false → IfOk Q (f tt d))
      → IfOk Q ((or_rollback n (return_if b m) >>= f) d)
  test_then b n m f d h = IfOk-bind Q _ f d (IfOk-or_rollback _ _ _ d (IfOk-return_if _ b m d h))

pub money-Apart : Apart money
money-Apart = record {
  inventories = λ t v. refl;
  instances = λ t v. refl;
  logs = λ t v. refl;
  prices = λ t v. refl;
  quests = λ t v. refl;
  challenges = λ t v. refl;
}

module _ {o : Option Tables} where
  pub db_atomic_mark_listing_sold-Keeps : (k : ℕ) → Keeps o money (db_atomic_mark_listing_sold k)
  unfolding db_atomic_mark_listing_sold
  db_atomic_mark_listing_sold-Keeps k = Keeps-bind _ _ (Keeps-select _) λ l.
      Keeps-bind _ _ (Keeps-return_if _ 2) λ _.
        Keeps-bind _ _ (Keeps-write _ λ s. sell_row-money k (find k s.listings) s)
          λ changed. search keeps_rules

pub ruleset money_rules = (apart_rules, money-Apart, db_atomic_mark_listing_sold-Keeps)
