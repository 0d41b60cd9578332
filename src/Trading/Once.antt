-- ===== src/Trading/Once.antt =====
-- No trade is accepted twice.
use cs.Base.{
  ℕ, ◌≡◌, refl, sym, subst, inl, inr, Bool, false, not, Option, none, some, arith, ◌==◌, Bool-cases,
  ltb,
}
use cs.Types.{User, trade_accepted, TradeOffer}
use cs.Db.Table.{Rows, find, find-put_self}
use cs.Db.Tables.{Tables, TradeRow}
use cs.Db.Monad.{
  db_commit_transaction, Result, ok, err, Db, refused, spent, pure, fail, select, write, continue,
  ◌>>=◌, or_return, or_rollback,
}
use cs.Db.Monad.Atomic.{Done}
use cs.Db.Monad.Frame.{
  IfOk, IfOk-bind, IfOk-or_rollback, IfOk-select, IfOk-return_if, IfOk-mono, IfOk-always, Keeps,
  Keeps-write, Frame, Frame-of, Frame-bind, Frame-or_rollback, Frame-then, begin-IfOk, commit-IfOk,
  keeps_rules,
}
use cs.Db.Apart.{Apart, db_load_user-Keeps}
use cs.Db.Users.{db_update_user}
use cs.Db.Trades.{
  is_pending, trade_at, db_load_trade, accept_row, accept_result, db_atomic_accept_trade,
}
use cs.Trading.{pay_offered, pay_requested, execute_trade_internal}
use cs.Trading.Accept.{log_accepted, settle, accept_loaded, accept_trade}
use cs.Trading.Loaded.{Processed, trade_at-id, loaded_status}
use cs.Trading.Moves.{move_entries-Frame, after_trade-Keeps}
use cs.Trading.Conserve.{log_accepted-Keeps}
use cs.Trading.Guards.{coded-IfOk}
use cs.Trading.Outcome.{
  Ended, EndsWell, IsOk-Ended, log_accepted-Quiet, settle-Atomic, AcceptOutcome,
  accept_trade-AcceptOutcome,
}

abbrev trades_of : Tables → Rows TradeRow
trades_of t = t.trades

trades_of-Apart : Apart trades_of
trades_of-Apart = record {
  inventories = λ t v. refl;
  instances = λ t v. refl;
  logs = λ t v. refl;
  prices = λ t v. refl;
  quests = λ t v. refl;
  challenges = λ t v. refl;
}

-- No transaction is open, and the trade is no longer pending.
abbrev ClosedWith : ℕ → Tables → Db → Type 0
ClosedWith k t d = (d.saved ≡ none) × Processed k d.tables.trades

module _ {t : Tables} where
  db_update_user-Keeps : (u : User) → Keeps (some t) trades_of (db_update_user u)
  unfolding db_update_user
  db_update_user-Keeps u = Keeps-write _ λ s. refl

  ruleset pay_rules = (
    Frame-bind, Frame-or_rollback, Frame-of, db_load_user-Keeps, db_update_user-Keeps, keeps_rules,
  )

  pay_offered-Frame : (o : TradeOffer) → Frame (some t) trades_of (pay_offered o)
  unfolding pay_offered
  pay_offered-Frame o = elim (Bool-cases (ltb 0 o.offered_cash)) [
    | inl e ↦ rw e (search pay_rules depth 12)
    | inr e ↦ rw e (search pay_rules)
  ]

  pay_requested-Frame : (o : TradeOffer) → Frame (some t) trades_of (pay_requested o)
  unfolding pay_requested
  pay_requested-Frame o = elim (Bool-cases (ltb 0 o.requested_cash)) [
    | inl e ↦ rw e (search pay_rules depth 12)
    | inr e ↦ rw e (search pay_rules)
  ]

  execute-Frame : (o : TradeOffer) → Frame (some t) trades_of (execute_trade_internal o)
  unfolding execute_trade_internal
  execute-Frame o =
      Frame-bind _ _ (move_entries-Frame trades_of-Apart _ _ 2 3 4 o.offered_skins) λ _.
        Frame-bind _ _ (move_entries-Frame trades_of-Apart _ _ 5 6 7 o.requested_skins) λ _.
          Frame-bind _ _ (pay_offered-Frame o) λ _.
            Frame-bind _ _ (pay_requested-Frame o)
              λ _. Frame-of _ (after_trade-Keeps trades_of-Apart o.from_user_id o.to_user_id)

module _ (t : Tables) (k : ℕ) where
  -- Inside the transaction that began at `t`, with the trade processed.
  abbrev Accepting : Db → Type 0
  Accepting d = (d.saved ≡ some t) × Processed k d.tables.trades

  accepted_result :
      (o : Option TradeRow) (d : Db)
      → d.saved ≡ some t
      → find k d.tables.trades ≡ o
      → let (change, tables) = accept_row k o d.tables in
        IfOk (λ _. Accepting) (accept_result change (record (spent d) { tables = tables }))
  unfolding accept_result fail pure
  accepted_result none d i e = IfOk-bind _ _ _ _ (IfOk-always _ _ _ λ _ _. tt)
  accepted_result (some r) d i e = elim (Bool-cases (is_pending r.status)) [
    | inl p ↦
        rw p
          (i, (record r { status = trade_accepted }, (find-put_self k _ r d.tables.trades e, refl)))
    | inr p ↦ rw p (IfOk-bind _ _ _ _ (IfOk-always _ _ _ λ _ _. tt))
  ]

  atomic_accept-Accepting :
      (d : Db) → d.saved ≡ some t → IfOk (λ _. Accepting) (db_atomic_accept_trade k d)
  unfolding db_atomic_accept_trade write fail ◌>>=◌
  atomic_accept-Accepting d i = elim (Bool-cases (k == 0)) [
    | inl e ↦ rw e tt
    | inr e ↦ rw e (elim (Bool-cases (refused d.faults)) [
      | inl f ↦ rw f tt
      | inr f ↦ rw f (accepted_result (find k d.tables.trades) d i refl)
    ])
  ]

settle-ClosedWith :
    (trade : TradeOffer) (d : Db)
    → d.saved ≡ none
    → IfOk (λ _. ClosedWith trade.trade_id d.tables) (settle trade d)
unfolding settle
settle-ClosedWith trade d i = begin-IfOk trades_of _ 19 _ d i λ d' j. IfOk-bind _ _ _ d' (
    IfOk-or_rollback _ _ _ d' (
      let (r, c) = db_atomic_accept_trade trade.trade_id d' in
      IfOk-mono _ _ r c
        (λ _ e h.
          Frame-then _ _ _ e.tables.trades e (Frame-or_rollback _ _ (execute-Frame trade))
            (h.0, refl)
            λ _ e' l.
              let (q, f) = or_rollback 20 db_commit_transaction e' in
              IfOk-mono _ _ q f
                (λ _ f' closed. (closed.0, subst (Processed trade.trade_id) (sym closed.1) h.1))
                (commit-IfOk trades_of d.tables e.tables.trades _ e' l))
        (atomic_accept-Accepting d.tables trade.trade_id d' j.0)))

module _ (t : Tables) (trade : TradeOffer) (u : ℕ) where
  abbrev Q : Tables → Db → Type 0
  Q = ClosedWith trade.trade_id

  after_settle :
      (r : Result Unit) (d : Db)
      → Done t (r, d)
      → IfOk (λ _. Q t) (r, d)
      → Ended Q t trade (continue r (λ _. log_accepted u trade) d)
  after_settle (ok _) d i h =
      let (r, d') = log_accepted u trade d in
      let kept = (log_accepted-Keeps trades_of-Apart u trade).at d.tables.trades d (h.0, refl) in
      IsOk-Ended Q t trade r d' (
        ((log_accepted-Quiet u trade).at d i).0,
        (kept.0, subst (Processed trade.trade_id) (sym kept.1) h.1),
      )
  after_settle (err n) d i h = (i.0, inl i.1)

  settle-EndsWell : EndsWell Q t trade (settle trade >>= λ _. log_accepted u trade)
  unfolding ◌>>=◌
  settle-EndsWell = record {
    at = λ d (i, e).
        let (r, d') = settle trade d in
        after_settle r d' (subst (λ v. Done v (r, d')) e ((settle-Atomic trade).at d i))
          (settle-ClosedWith trade d i);
  }

impossible : (b : Bool) → b ≡ false → not b ≡ false → ⊥
impossible b e f = ground arith

not_accepted_again :
    (u k : ℕ) (d : Db) → ClosedWith k d.tables d → IfOk (λ _ _. ⊥) (accept_trade u k d)
unfolding accept_trade db_load_trade or_return accept_loaded
not_accepted_again u k d (i, done) = IfOk-bind _ _ _ d (
    IfOk-return_if _ _ 1 d λ _. IfOk-bind _ _ _ d (
      let (r, d') = select (trade_at k) d in
      coded-IfOk _ 1 r d' (
        IfOk-select _ (trade_at k) d λ trade e. IfOk-bind _ _ _ (spent d) (
          IfOk-return_if _ _ 2 (spent d) λ _. IfOk-bind _ _ _ (spent d) (
            IfOk-return_if _ _ 3 (spent d)
              λ pending. absurd (impossible _ (loaded_status k d.tables trade done e) pending))))))

outcome-IfOk :
    (P : Tables → Db → Type 0) (k : ℕ) (t : Tables) (r : Result Unit) (d : Db)
    → AcceptOutcome P k t (r, d)
    → IfOk (λ _. P t) (r, d)
outcome-IfOk P k t (ok _) d h = h
outcome-IfOk P k t (err _) d h = tt

-- Whatever statement sqlite refuses: from outside a transaction, once `accept_trade` has succeeded
-- for a trade, no `accept_trade` of this trade succeeds on the database that it left, whoever
-- calls it.
pub trade_accepted_once :
    (first second trade_id : ℕ) (d : Db)
    → d.saved ≡ none
    → IfOk
        (λ _ d'. IfOk (λ _ _. ⊥) (accept_trade second trade_id d'))
        (accept_trade first trade_id d)
trade_accepted_once u v k d i =
    let (r, d') = accept_trade u k d in
    IfOk-mono _ _ r d' (λ _ e h. not_accepted_again v k e h)
      (outcome-IfOk (ClosedWith k) k d.tables r d' (
        accept_trade-AcceptOutcome (ClosedWith k) u k d i λ trade e.
          subst
            (λ n.
              EndsWell (ClosedWith n) d.tables trade (settle trade >>= λ _. log_accepted u trade))
            (trade_at-id k d.tables trade e) (settle-EndsWell d.tables trade u)))
