-- ===== src/Trading/Conserve.antt =====
-- `accept_trade` neither makes nor loses money, but for what `float`s round away.
use cs.Base.{
  arith, ℕ, ◌≡◌, ◌≢◌, refl, sym, ap, subst, inl, inr, Option, none, some, List, [], ◌∷◌, ℤ,
}
use cs.Types.{TradeOffer}
use cs.Db.Tables.{Tables}
use cs.Db.Monad.{Result, ok, err, Db, or_rollback, db_commit_transaction, write, continue, ◌>>=◌}
use cs.Db.Monad.Atomic.{Done}
use cs.Db.Monad.Frame.{
  IfOk, IfOk-bind, IfOk-mono, IfOk-or_rollback, Keeps, Keeps-bind, Frame-of, Frame-then,
  Frame-or_rollback, begin-IfOk, commit-IfOk, Keeps-write, keeps_rules,
}
use cs.Db.Apart.{Apart, apart_rules}
use cs.Db.Money.{money-Apart, money}
use cs.Db.Trades.{
  trade_at, accept_row, accept_result, Change, accepted, already_processed, not_found,
  db_atomic_accept_trade,
}
use cs.Db.Table.{find}
use cs.Db.Tables.{TradeRow}
use cs.Trading.{instance_of}
use cs.Trading.Accept.{entry_value, skins_value, log_accepted, settle, accept_trade}
use cs.Trading.Rewards.{item_value-Keeps}
use cs.Trading.Money.{Close, same-Near, execute_trade_internal-IfOk}
use cs.Float.{Near}
use cs.Trading.Outcome.{
  Ended, EndsWell, IsOk-Ended, log_accepted-Quiet, settle-Atomic, AcceptOutcome,
  accept_trade-AcceptOutcome,
}

-- No transaction is open, and the money is as it was, up to one part in 2^22.
abbrev CloseMoney : Tables → Db → Type 0
CloseMoney t d = (d.saved ≡ none) × Near 22 (money d.tables) (money t)

accept_row-money : (k : ℕ) (o : Option TradeRow) (s : Tables) → money (accept_row k o s).1 ≡ money s
accept_row-money k none s = refl
accept_row-money k (some r) s = ground arith

module _ {o : Option Tables} where
  accept_result-Keeps : (c : Change) → Keeps o money (accept_result c)
  unfolding accept_result
  accept_result-Keeps accepted = search keeps_rules
  accept_result-Keeps already_processed = search keeps_rules
  accept_result-Keeps not_found = search keeps_rules

  accept_write-Keeps : (k : ℕ) → Keeps o money (write λ t. some (accept_row k (find k t.trades) t))
  accept_write-Keeps k = Keeps-write _ λ s. accept_row-money k (find k s.trades) s

  db_atomic_accept_trade-Keeps : (k : ℕ) → Keeps o money (db_atomic_accept_trade k)
  unfolding db_atomic_accept_trade
  db_atomic_accept_trade-Keeps k = search (keeps_rules, accept_write-Keeps, accept_result-Keeps)

module _ {o : Option Tables} {X : Type 0} {g : Tables → X} (apart : Apart g) where
  entry_value-Keeps : (x : Option ℕ) → Keeps o g (entry_value x)
  unfolding entry_value
  entry_value-Keeps none = search keeps_rules
  entry_value-Keeps (some i) = search (apart_rules, apart, item_value-Keeps)

  skins_value-Keeps : (xs : List ℤ) → Keeps o g (skins_value xs)
  unfolding skins_value
  skins_value-Keeps [] = search keeps_rules
  skins_value-Keeps (x ∷ xs) =
      Keeps-bind _ _ (entry_value-Keeps (instance_of x))
        λ value. Keeps-bind _ _ (skins_value-Keeps xs) λ rest. search keeps_rules

  pub log_accepted-Keeps : (u : ℕ) (trade : TradeOffer) → Keeps o g (log_accepted u trade)
  unfolding log_accepted
  log_accepted-Keeps u trade = search (apart_rules, apart, skins_value-Keeps) depth 12

-- The COMMIT.
committed :
    (t : Tables) (x : ℕ) (d : Db)
    → Close 22 t x d
    → IfOk
        (λ _ d'. (d'.saved ≡ none) × Near 22 (money d'.tables) x)
        (or_rollback 20 db_commit_transaction d)
committed t x d h =
    IfOk-mono {A = Unit {0}} (λ _ d'. (d'.saved ≡ none) × Near 22 (money d'.tables) x) _ _ _
      (λ _ d' closed. (closed.0, subst (λ n. Near 22 n x) (sym closed.1) h.1))
      (commit-IfOk money t (money d.tables) _ d (h.0, refl))

-- From BEGIN to COMMIT.
settle-CloseMoney :
    (trade : TradeOffer) (d : Db)
    → d.saved ≡ none
    → trade.from_user_id ≢ trade.to_user_id
    → IfOk (λ _. CloseMoney d.tables) (settle trade d)
unfolding settle
settle-CloseMoney trade d i ne = begin-IfOk money _ 19 _ d i λ d' j.
    Frame-then _ _ _ (money d.tables) d'
      (Frame-or_rollback _ _ (Frame-of _ (db_atomic_accept_trade-Keeps trade.trade_id))) j
      λ _ e k. IfOk-bind _ _ _ e (
        IfOk-or_rollback _ _ _ e (
          IfOk-mono {A = Unit {0}}
            (λ _ e'. IfOk (λ _. CloseMoney d.tables) (or_rollback 20 db_commit_transaction e')) _ _
            _ (λ _ e' l. committed d.tables (money d.tables) e' l)
            (execute_trade_internal-IfOk trade (money d.tables) e ne k)))

module _ (t : Tables) (trade : TradeOffer) (u : ℕ) where
  after_settle :
      (r : Result Unit) (d : Db)
      → Done t (r, d)
      → IfOk (λ _. CloseMoney t) (r, d)
      → Ended CloseMoney t trade (continue r (λ _. log_accepted u trade) d)
  after_settle (ok _) d i same =
      let (r, d') = log_accepted u trade d in
      let kept =
        (log_accepted-Keeps {o = none} money-Apart u trade).at (money d.tables) d (same.0, refl) in
      IsOk-Ended CloseMoney t trade r d' (
        ((log_accepted-Quiet u trade).at d i).0,
        (kept.0, subst (λ n. Near 22 n (money t)) (sym kept.1) same.1),
      )
  after_settle (err n) d i same = (i.0, inl i.1)

  settle-EndsWell :
      trade.from_user_id ≢ trade.to_user_id
      → EndsWell CloseMoney t trade (settle trade >>= λ _. log_accepted u trade)
  unfolding ◌>>=◌
  settle-EndsWell ne = record {
    at = λ d (i, e).
        let (r, d') = settle trade d in
        after_settle r d' (subst (λ v. Done v (r, d')) e ((settle-Atomic trade).at d i))
          (subst (λ v. IfOk (λ _. CloseMoney v) (r, d')) e (settle-CloseMoney trade d i ne));
  }

outcome-money :
    (k : ℕ) (t : Tables) (r : Result Unit) (d : Db)
    → AcceptOutcome CloseMoney k t (r, d)
    → Near 22 (money d.tables) (money t)
outcome-money k t (ok _) d h = h.1
outcome-money k t (err _) d (i, inl same) =
    subst (λ n. Near 22 n (money t)) (sym (ap money same)) (same-Near 22 (money t))
outcome-money k t (err _) d (i, inr (trade, e, expired)) =
    subst (λ n. Near 22 n (money t)) (sym (ap money expired)) (same-Near 22 (money t))

-- From outside a transaction, and if the trade with this id, where there is one, is between two
-- different users: however `accept_trade` ends and whatever statement sqlite refuses, the sum of
-- all balances is what it was up to one part in 2^22, which is what the four `float` additions and
-- subtractions of a trade round.
pub accept_trade_keeps_money :
    (user_id trade_id : ℕ) (d : Db)
    → d.saved ≡ none
    → ((trade : TradeOffer)
        → trade_at trade_id d.tables ≡ some trade
        → trade.from_user_id ≢ trade.to_user_id)
    → Near 22 (money (accept_trade user_id trade_id d).1.tables) (money d.tables)
accept_trade_keeps_money u k d i ne =
    let (r, d') = accept_trade u k d in
    outcome-money k d.tables r d' (
      accept_trade-AcceptOutcome CloseMoney u k d i
        λ trade e. settle-EndsWell d.tables trade u (ne trade e))
