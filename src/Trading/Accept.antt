-- ===== src/Trading/Accept.antt =====
-- `accept_trade`, `decline_trade` and `cancel_trade` of src/server/trading.c.
use cs.Base.{ℕ, ◌+◌, not, ◌||◌, Option, none, some, List, [], ◌∷◌, ltb, ◌==◌, if◌then◌else◌, ℤ}
use cs.Types.{TradeStatus, trade_declined, trade_cancelled, TradeOffer}
use cs.Db.Monad.{
  M, pure, or_return, attempt, ◌>>=◌, ◌>>◌, return_if, clock, db_begin_transaction,
  db_commit_transaction, or_rollback_by, or_rollback,
}
use cs.Db.Users.{db_log_transaction}
use cs.Db.Instances.{db_load_skin_instance}
use cs.Db.Trades.{is_pending, db_load_trade, db_update_trade, db_atomic_accept_trade}
use cs.Challenges.{item_value}
use cs.Trading.{instance_of, trade_log, expire_if, check_entries, execute_trade_internal}

-- The price of one entry, 0 for one that is skipped or cannot be read.
unfoldable pub entry_value : Option ℕ → M ℕ
entry_value none = pure 0
entry_value (some instance_id) = do s ← attempt (db_load_skin_instance instance_id); item_value s

-- The sum of the prices in the loops that follow the commit.
unfoldable pub skins_value : List ℤ → M ℕ
skins_value [] = pure 0
skins_value (x ∷ xs) = do
  value ← entry_value (instance_of x)
  rest ← skins_value xs
  pure (value + rest)

-- The log rows of the receiver and the sender: the trade, what was given and what was received.
unfoldable pub log_accepted : ℕ → TradeOffer → M (Unit {0})
log_accepted user_id trade = do
  offered ← skins_value trade.offered_skins
  requested ← skins_value trade.requested_skins
  now ← clock
  let gave = trade.requested_cash + requested
  let received = trade.offered_cash + offered
  attempt (db_log_transaction (trade_log user_id (trade.trade_id ∷ gave ∷ received ∷ []) now))
  attempt (
      db_log_transaction (trade_log trade.from_user_id (trade.trade_id ∷ received ∷ gave ∷ []) now))
  pure tt

-- -1 stays -1, and -2 becomes -3.
abbrev accept_code : ℕ → ℕ
accept_code n = if n == 2 then 3 else 1

-- From BEGIN to COMMIT.
unfoldable pub settle : TradeOffer → M (Unit {0})
settle trade = do
  or_return 19 db_begin_transaction
  or_rollback_by accept_code (db_atomic_accept_trade trade.trade_id)
  or_rollback 5 (execute_trade_internal trade)
  or_rollback 20 db_commit_transaction

-- What `accept_trade` does with the trade that it has loaded.
unfoldable pub accept_loaded : ℕ → TradeOffer → M (Unit {0})
accept_loaded user_id trade = do
  return_if (not (trade.to_user_id == user_id)) 2
  return_if (not (is_pending trade.status)) 3
  now ← clock
  expire_if (ltb trade.expires_at now) trade 4
  check_entries trade trade.from_user_id trade.offered_skins
  check_entries trade trade.to_user_id trade.requested_skins
  settle trade
  log_accepted user_id trade

unfoldable pub accept_trade : ℕ → ℕ → M (Unit {0})
accept_trade user_id trade_id = do
  return_if (user_id == 0 || trade_id == 0) 1
  trade ← or_return 1 (db_load_trade trade_id)
  accept_loaded user_id trade

-- What `decline_trade` and `cancel_trade` share: they differ in the user who may call them, which
-- `side` reads from the trade, and in the new status.
unfoldable pub close_trade : (TradeOffer → ℕ) → TradeStatus → ℕ → ℕ → M (Unit {0})
close_trade side new_status user_id trade_id = do
  return_if (user_id == 0 || trade_id == 0) 1
  trade ← or_return 1 (db_load_trade trade_id)
  return_if (not (side trade == user_id)) 2
  return_if (not (is_pending trade.status)) 3
  attempt (db_update_trade (record trade { status = new_status }))
  now ← clock
  attempt (db_log_transaction (trade_log user_id (trade_id ∷ []) now))
  pure tt

unfoldable pub decline_trade : ℕ → ℕ → M (Unit {0})
unfolding close_trade
decline_trade = close_trade (λ t. t.to_user_id) trade_declined

unfoldable pub cancel_trade : ℕ → ℕ → M (Unit {0})
unfolding close_trade
cancel_trade = close_trade (λ t. t.from_user_id) trade_cancelled
