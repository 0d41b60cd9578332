-- ===== src/Trading/Outcome.antt =====
-- What `accept_trade` leaves behind, however it ends.
use cs.Base.{
  ℕ, ◌+◌, ◌≡◌, refl, subst, ◌∙◌, ◌⊎◌, inl, inr, Bool, true, false, ◌||◌, Option, none, some, List,
  [], ◌∷◌, ◌==◌, ℤ, arith, Bool-cases,
}
use cs.Types.{trade_expired, SkinInstance, TradeOffer}
use cs.Db.Tables.{Tables}
use cs.Db.Monad.{
  Result, ok, err, Db, M, fail, select, write, or_return, attempt, continue, ◌>>=◌, return_if,
  refused, spent, found, coded,
}
use cs.Db.Monad.Transaction.{InTransaction-of}
use cs.Db.Monad.Atomic.{
  Settled, Done, Atomic, Rolls-or_rollback, Closes-bind, Closes-commit, Atomic-begin, ReadOnly,
  read_rules,
}
use cs.Db.Monad.Quiet.{IsOk, Quiet, Quiet-pure, Quiet-bind, quiet_rules}
use cs.Db.Stays.{db_log_transaction-Stays, db_atomic_accept_trade-Stays}
use cs.Db.Users.{db_load_inventory}
use cs.Db.Prices.{db_calculate_skin_price-Quiet}
use cs.Db.Instances.{db_load_skin_instance}
use cs.Challenges.{item_value}
use cs.Db.Trades.{trade_at, with_trade, db_load_trade, db_update_trade}
use cs.Trading.{instance_of, expire, expire_if, check_loaded, check_entry, check_entries}
use cs.Trading.Accept.{entry_value, skins_value, settle, log_accepted, accept_loaded, accept_trade}
use cs.Trading.Atomic.{execute_trade_internal-InTransaction}

-- The transaction of `accept_trade` is atomic.
pub settle-Atomic : (trade : TradeOffer) → Atomic (settle trade)
unfolding settle
settle-Atomic trade = Atomic-begin 19 _ λ t.
    Closes-bind _ _
      (Rolls-or_rollback _ _ (InTransaction-of _ (db_atomic_accept_trade-Stays trade.trade_id)))
      λ _.
        Closes-bind _ _ (Rolls-or_rollback _ _ (execute_trade_internal-InTransaction trade))
          λ _. Closes-commit _

-- The tables with the row of a trade written anew from the offer, with the status expired. The
-- offer is as it was read, so that in the skin arrays of the new row an id has no sign.
abbrev pub expired_in : TradeOffer → Tables → Tables
expired_in trade t = with_trade (record trade { status = trade_expired }) t

-- No transaction is open, and the tables are as at the start or with the row of the trade written
-- anew as expired.
abbrev pub AtMostExpired : Tables → TradeOffer → Db → Type 0
AtMostExpired t trade d = (d.saved ≡ none) × ((d.tables ≡ t) ⊎ (d.tables ≡ expired_in trade t))

abbrev Checked : {A : Type 0} → Tables → TradeOffer → Result A × Db → Type 0
Checked t trade (ok _, d) = Settled t d
Checked t trade (err _, d) = AtMostExpired t trade d

-- One of the checks: it lets the trade pass and changes nothing, or marks it expired at most.
record Checks {A : Type 0} (t : Tables) (trade : TradeOffer) (m : M A) : Type 0 where
  at : (d : Db) → Settled t d → Checked t trade (m d)

module _ {t : Tables} {trade : TradeOffer} {A B : Type 0} where
  continue-Checked :
      (r : Result A) (f : A → M B) (d : Db)
      → Checked t trade (r, d)
      → ((a : A) → Checks t trade (f a))
      → Checked t trade (continue r f d)
  continue-Checked (ok a) f d i p = (p a).at d i
  continue-Checked (err n) f d i p = i

  Checks-bind :
      (m : M A) (f : A → M B)
      → Checks t trade m
      → ((a : A) → Checks t trade (f a))
      → Checks t trade (m >>= f)
  unfolding ◌>>=◌
  Checks-bind m f p q = record {
    at = λ d i. let (r, d') = m d in continue-Checked r f d' (p.at d i) q;
  }

module _ (t : Tables) (trade : TradeOffer) {A : Type 0} where
  ReadOnly-Checked :
      (r : Result A) (d d' : Db)
      → Settled t d
      → (d'.tables ≡ d.tables) × (d'.saved ≡ d.saved)
      → Checked t trade (r, d')
  ReadOnly-Checked (ok a) d d' (i, e) (u, v) = (v ∙ i, u ∙ e)
  ReadOnly-Checked (err n) d d' (i, e) (u, v) = (v ∙ i, inl (u ∙ e))

module _ {t : Tables} {trade : TradeOffer} {A : Type 0} where
  Checks-of : (m : M A) → ReadOnly m → Checks t trade m
  Checks-of m p = record {
    at = λ d i. let (r, d') = m d in ReadOnly-Checked t trade r d d' i (p.at d);
  }

module _ {t : Tables} {trade : TradeOffer} where
  expire-Checks : (n : ℕ) → Checks t trade (expire trade n)
  unfolding expire attempt db_update_trade write fail ◌>>=◌
  expire-Checks n = record { at = λ d i. ground arith }

  expire_if-Checks : (b : Bool) (n : ℕ) → Checks t trade (expire_if b trade n)
  unfolding expire_if
  expire_if-Checks true n = expire-Checks n
  expire_if-Checks false n = search (Checks-of, read_rules)

  check_loaded-Checks :
      (u i : ℕ) (s : Option SkinInstance) → Checks t trade (check_loaded trade u i s)
  unfolding check_loaded db_load_inventory
  check_loaded-Checks u i none = expire-Checks 6
  check_loaded-Checks u i (some s) =
      search (Checks-of, Checks-bind, expire_if-Checks, read_rules) depth 8

  check_entry-Checks : (u : ℕ) (x : Option ℕ) → Checks t trade (check_entry trade u x)
  unfolding check_entry db_load_skin_instance
  check_entry-Checks u none = search (Checks-of, read_rules)
  check_entry-Checks u (some i) =
      search (Checks-of, Checks-bind, check_loaded-Checks, read_rules) depth 8

  check_entries-Checks : (u : ℕ) (xs : List ℤ) → Checks t trade (check_entries trade u xs)
  unfolding check_entries
  check_entries-Checks u [] = search (Checks-of, read_rules)
  check_entries-Checks u (x ∷ xs) =
      Checks-bind _ _ (check_entry-Checks u (instance_of x)) λ _. check_entries-Checks u xs

-- How the whole function may end: with `Q` where it succeeds.
abbrev pub Ended :
    {A : Type 0} → (Tables → Db → Type 0) → Tables → TradeOffer → Result A × Db → Type 0
Ended Q t trade (ok _, d) = Q t d
Ended Q t trade (err _, d) = AtMostExpired t trade d

pub record EndsWell {A : Type 0} (Q : Tables → Db → Type 0) (t : Tables) (trade : TradeOffer)
    (m : M A) : Type 0 where
  pub at : (d : Db) → Settled t d → Ended Q t trade (m d)

module _ {Q : Tables → Db → Type 0} {t : Tables} {trade : TradeOffer} {A B : Type 0} where
  continue-Ended :
      (r : Result A) (f : A → M B) (d : Db)
      → Checked t trade (r, d)
      → ((a : A) → EndsWell Q t trade (f a))
      → Ended Q t trade (continue r f d)
  continue-Ended (ok a) f d i p = (p a).at d i
  continue-Ended (err n) f d i p = i

  EndsWell-bind :
      (m : M A) (f : A → M B)
      → Checks t trade m
      → ((a : A) → EndsWell Q t trade (f a))
      → EndsWell Q t trade (m >>= f)
  unfolding ◌>>=◌
  EndsWell-bind m f p q = record {
    at = λ d i. let (r, d') = m d in continue-Ended r f d' (p.at d i) q;
  }

item_value-Quiet : (s : Option SkinInstance) → Quiet (item_value s)
unfolding item_value
item_value-Quiet none = Quiet-pure 0
item_value-Quiet (some s) = db_calculate_skin_price-Quiet s.definition_id s.rarity s.wear

entry_value-Quiet : (x : Option ℕ) → Quiet (entry_value x)
unfolding entry_value db_load_skin_instance
entry_value-Quiet none = Quiet-pure 0
entry_value-Quiet (some i) = search (quiet_rules, item_value-Quiet, read_rules) depth 8

skins_value-Quiet : (xs : List ℤ) → Quiet (skins_value xs)
unfolding skins_value
skins_value-Quiet [] = Quiet-pure 0
skins_value-Quiet (x ∷ xs) =
    Quiet-bind _ _ (entry_value-Quiet (instance_of x))
      λ value. Quiet-bind _ _ (skins_value-Quiet xs) λ rest. Quiet-pure (value + rest)

-- The log is written outside any transaction, and its failure is not noticed.
pub log_accepted-Quiet : (u : ℕ) (trade : TradeOffer) → Quiet (log_accepted u trade)
unfolding log_accepted
log_accepted-Quiet u trade =
    search (quiet_rules, skins_value-Quiet, db_log_transaction-Stays) depth 12

-- The success of the whole function, where the transaction and the log do not fail.
module _ (Q : Tables → Db → Type 0) (t : Tables) (trade : TradeOffer) where
  pub IsOk-Ended : (r : Result Unit) (d : Db) → IsOk r × Q t d → Ended Q t trade (r, d)
  IsOk-Ended (ok _) d h = h.1
  IsOk-Ended (err _) d h = absurd h.0

-- `accept_trade` is its checks and then `settle` and the log.
module _ (Q : Tables → Db → Type 0) (t : Tables) (trade : TradeOffer) (u : ℕ)
    (settles : EndsWell Q t trade (settle trade >>= λ _. log_accepted u trade)) where
  pub accept_loaded-EndsWell : EndsWell Q t trade (accept_loaded u trade)
  unfolding accept_loaded
  accept_loaded-EndsWell =
      search (EndsWell-bind, Checks-of, expire_if-Checks, check_entries-Checks, settles, read_rules)
        depth 12

-- How an `accept_trade` of a trade id may end, from the tables `t`.
abbrev pub AcceptOutcome :
    {A : Type 0} → (Tables → Db → Type 0) → ℕ → Tables → Result A × Db → Type 0
AcceptOutcome Q trade_id t (ok _, d) = Q t d
AcceptOutcome Q trade_id t (err _, d) =
    (d.saved ≡ none)
    × ((d.tables ≡ t)
        ⊎ ((trade : TradeOffer) × (trade_at trade_id t ≡ some trade)
            × (d.tables ≡ expired_in trade t)))

module _ (Q : Tables → Db → Type 0) where
  Ended-AcceptOutcome :
      (k : ℕ) (t : Tables) (trade : TradeOffer) (r : Result Unit) (d : Db)
      → trade_at k t ≡ some trade
      → Ended Q t trade (r, d)
      → AcceptOutcome Q k t (r, d)
  Ended-AcceptOutcome k t trade (ok _) d e h = h
  Ended-AcceptOutcome k t trade (err _) d e (i, inl same) = (i, inl same)
  Ended-AcceptOutcome k t trade (err _) d e (i, inr expired) = (i, inr (trade, e, expired))

  abbrev Settling : ℕ → ℕ → Tables → Type 0
  Settling u k t =
      (trade : TradeOffer)
      → trade_at k t ≡ some trade
      → EndsWell Q t trade (settle trade >>= λ _. log_accepted u trade)

  -- What the load of the trade leads to.
  loaded_outcome :
      (u k : ℕ) (d : Db) (o : Option TradeOffer)
      → d.saved ≡ none
      → trade_at k d.tables ≡ o
      → Settling u k d.tables
      → AcceptOutcome Q k d.tables (
          continue
            (coded 1 (found o (spent d))).0
            (accept_loaded u)
            (coded 1 (found o (spent d))).1)
  loaded_outcome u k d none i e s = (i, inl refl)
  loaded_outcome u k d (some trade) i e s =
      let (r, d') = accept_loaded u trade (spent d) in
      Ended-AcceptOutcome k d.tables trade r d' e
        ((accept_loaded-EndsWell Q d.tables trade u (s trade e)).at (spent d) (i, refl))

  after_load :
      (u k : ℕ) (d : Db)
      → d.saved ≡ none
      → Settling u k d.tables
      → AcceptOutcome Q k d.tables ((or_return 1 (db_load_trade k) >>= accept_loaded u) d)
  unfolding or_return db_load_trade select ◌>>=◌
  after_load u k d i s = elim (Bool-cases (refused d.faults)) [
    | inl e ↦ rw e (i, inl refl)
    | inr e ↦ rw e (loaded_outcome u k d (trade_at k d.tables) i refl s)
  ]

  pub accept_trade-AcceptOutcome :
      (u k : ℕ) (d : Db)
      → d.saved ≡ none
      → Settling u k d.tables
      → AcceptOutcome Q k d.tables (accept_trade u k d)
  unfolding accept_trade return_if ◌>>=◌
  accept_trade-AcceptOutcome u k d i s = elim (Bool-cases (u == 0 || k == 0)) [
    | inl e ↦ rw e (i, inl refl)
    | inr e ↦ rw e (after_load u k d i s)
  ]

-- No transaction is open.
abbrev pub Closed : Tables → Db → Type 0
Closed t d = d.saved ≡ none

module _ (t : Tables) (trade : TradeOffer) where
  settled-Ended :
      (u : ℕ) (r : Result Unit) (d : Db)
      → Done t (r, d)
      → Ended Closed t trade (continue r (λ _. log_accepted u trade) d)
  settled-Ended u (ok _) d i =
      let (r, d') = log_accepted u trade d in
      IsOk-Ended Closed t trade r d' ((log_accepted-Quiet u trade).at d i)
  settled-Ended u (err n) d i = (i.0, inl i.1)

  settle-EndsWell : (u : ℕ) → EndsWell Closed t trade (settle trade >>= λ _. log_accepted u trade)
  unfolding ◌>>=◌
  settle-EndsWell u = record {
    at = λ d (i, e).
        let (r, d') = settle trade d in
        settled-Ended u r d' (subst (λ v. Done v (r, d')) e ((settle-Atomic trade).at d i));
  }

-- From outside a transaction, whatever statement sqlite refuses on the way: `accept_trade` ends
-- outside a transaction, and if it returns an error code, then the tables are as they were before,
-- or the row of this one trade has been written anew from the offer that `db_load_trade` reads in it
-- (which drops the sign of a negative id in its skin arrays), with the status `trade_expired`.
pub accept_trade_atomic :
    (user_id trade_id : ℕ) (d : Db)
    → d.saved ≡ none
    → AcceptOutcome Closed trade_id d.tables (accept_trade user_id trade_id d)
accept_trade_atomic u k d i =
    accept_trade-AcceptOutcome Closed u k d i λ trade e. settle-EndsWell d.tables trade u
