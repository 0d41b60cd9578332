-- ===== src/Trading.antt =====
-- src/server/trading.c: trade offers between two users.
pub mod Accept
pub mod Atomic
pub mod Outcome
pub mod Rewards
pub mod Moves
pub mod Money
pub mod Conserve
pub mod Guards
pub mod Loaded
pub mod Once
use cs.Base.{
  ℕ, zero, suc, ◌+◌, ◌-◌, ◌*◌, Bool, true, false, not, ◌&&◌, ◌||◌, Option, none, some, List, [],
  ◌∷◌, ltb, ◌==◌, if◌then◌else◌, length, ℤ, pos, negsuc,
}
use cs.Float.{rounded}
use cs.Types.{
  trade_pending, trade_declined, trade_cancelled, trade_expired, log_trade, QuestType, first_steps,
  social_trader, first_trade, User, SkinInstance, TradeOffer, TransactionLog,
}
use cs.Db.Monad.{
  M, pure, fail, or_return, attempt, ◌>>=◌, ◌>>◌, return_if, clock, db_begin_transaction,
  db_commit_transaction, or_rollback, Result, ok, err, Db,
}
use cs.Db.Users.{
  db_load_user, db_update_user, db_load_inventory, db_add_to_inventory, db_remove_from_inventory,
  db_log_transaction,
}
use cs.Db.Instances.{
  db_load_skin_instance, db_update_skin_instance_owner, db_apply_trade_lock, db_check_trade_lock,
  db_unlock_expired_trades, db_calculate_skin_price,
}
use cs.Db.Trades.{
  is_pending, db_save_trade, db_load_trade, db_clean_expired_trades, db_update_trade,
  db_is_instance_in_pending_trade, db_atomic_accept_trade,
}
use cs.Quests.{update_quest_progress, check_quest_completion}
use cs.Achievements.{unlock_achievement}
use cs.Challenges.{item_value, update_user_active_challenges}

abbrev pub trade_expiry_seconds : ℕ
trade_expiry_seconds = 15 * 60

-- The instance that an entry of a skin array names: entries `<= 0` are skipped.
abbrev pub instance_of : ℤ → Option ℕ
instance_of (pos zero) = none
instance_of (pos (suc n)) = some (suc n)
instance_of (negsuc n) = none

-- A log row about a trade.
abbrev trade_log : ℕ → List ℕ → ℕ → TransactionLog
trade_log user_id details now = record {
  type = log_trade;
  user_id = user_id;
  details = details;
  timestamp = now;
}

-- One entry of the loops in `validate_trade`, with the return codes for an instance that is not
-- there, has another owner, or is in a pending trade. The result is 1 for an entry that counts.
unfoldable pub validate_entry : ℕ → ℕ → ℕ → ℕ → Option ℕ → M ℕ
validate_entry owner_id missing not_owner in_trade none = pure 0
validate_entry owner_id missing not_owner in_trade (some instance_id) = do
  s ← or_return missing (db_load_skin_instance instance_id)
  return_if (not (s.owner_id == owner_id)) not_owner
  busy ← db_is_instance_in_pending_trade instance_id
  return_if busy in_trade
  pure 1

unfoldable pub validate_entries : ℕ → ℕ → ℕ → ℕ → List ℤ → M ℕ
validate_entries owner_id missing not_owner in_trade [] = pure 0
validate_entries owner_id missing not_owner in_trade (x ∷ xs) = do
  n ← validate_entry owner_id missing not_owner in_trade (instance_of x)
  rest ← validate_entries owner_id missing not_owner in_trade xs
  pure (n + rest)

-- The check of a cash amount against a balance.
unfoldable pub validate_cash : ℕ → ℕ → ℕ → ℕ → M (Unit {0})
validate_cash user_id cash missing insufficient =
    if ltb 0 cash
    then (do
      u ← or_return missing (db_load_user user_id)
      return_if (ltb u.balance cash) insufficient)
    else pure tt

unfoldable pub validate_trade : TradeOffer → M (Unit {0})
validate_trade offer = do
  valid_offered ← validate_entries offer.from_user_id 2 3 13 offer.offered_skins
  valid_requested ← validate_entries offer.to_user_id 5 6 14 offer.requested_skins
  validate_cash offer.from_user_id offer.offered_cash 8 9
  validate_cash offer.to_user_id offer.requested_cash 10 11
  return_if
      (valid_offered == 0
        && (offer.offered_cash == 0 && (valid_requested == 0 && offer.requested_cash == 0)))
      12
  return_if (ltb 0 (length offer.offered_skins) && valid_offered == 0) 12
  return_if (ltb 0 (length offer.requested_skins) && valid_requested == 0) 12

-- The result is the id of the new trade.
unfoldable pub send_trade_offer : ℕ → ℕ → TradeOffer → M ℕ
send_trade_offer from_user to_user offer = do
  return_if (from_user == 0 || (to_user == 0 || from_user == to_user)) 1
  or_return 2 (validate_trade offer)
  now ← clock
  let stored = record offer {
    from_user_id = from_user;
    to_user_id = to_user;
    status = trade_pending;
    created_at = now;
    expires_at = now + trade_expiry_seconds;
    trade_id = 0;
  }
  trade_id ← or_return 3 (db_save_trade stored)
  attempt (db_log_transaction (trade_log from_user (trade_id ∷ to_user ∷ []) now))
  pure trade_id

-- `trade.status = TRADE_EXPIRED; db_update_trade(&trade); return -n;`
unfoldable pub expire : TradeOffer → ℕ → M (Unit {0})
expire trade n = do attempt (db_update_trade (record trade { status = trade_expired })); fail n

unfoldable pub expire_if : Bool → TradeOffer → ℕ → M (Unit {0})
expire_if true trade n = expire trade n
expire_if false trade n = pure tt

-- The loop over `inv.skin_ids`.
abbrev pub contains : ℕ → List ℕ → Bool
contains i [] = false
contains i (j ∷ js) = j == i || contains i js

unfoldable pub check_loaded : TradeOffer → ℕ → ℕ → Option SkinInstance → M (Unit {0})
check_loaded trade owner_id instance_id none = expire trade 6
check_loaded trade owner_id instance_id (some s) = do
  expire_if (not (s.owner_id == owner_id)) trade 6
  inv ← db_load_inventory owner_id
  expire_if (not (contains instance_id inv)) trade 6

-- One entry of the checks in `accept_trade`: still there, owned and in the inventory.
unfoldable pub check_entry : TradeOffer → ℕ → Option ℕ → M (Unit {0})
check_entry trade owner_id none = pure tt
check_entry trade owner_id (some instance_id) = do
  s ← attempt (db_load_skin_instance instance_id)
  check_loaded trade owner_id instance_id s

unfoldable pub check_entries : TradeOffer → ℕ → List ℤ → M (Unit {0})
check_entries trade owner_id [] = pure tt
check_entries trade owner_id (x ∷ xs) =
    check_entry trade owner_id (instance_of x) >> check_entries trade owner_id xs

-- One entry of the loops in `execute_trade_internal`, with its return codes.
unfoldable pub move_entry : ℕ → ℕ → ℕ → ℕ → ℕ → Option ℕ → M (Unit {0})
move_entry giver taker removing owning adding none = pure tt
move_entry giver taker removing owning adding (some instance_id) = do
  or_rollback removing (db_remove_from_inventory giver instance_id)
  or_rollback owning (db_update_skin_instance_owner instance_id taker)
  or_rollback adding (db_add_to_inventory taker instance_id)
  attempt (db_apply_trade_lock instance_id)
  pure tt

unfoldable pub move_entries : ℕ → ℕ → ℕ → ℕ → ℕ → List ℤ → M (Unit {0})
move_entries giver taker removing owning adding [] = pure tt
move_entries giver taker removing owning adding (x ∷ xs) =
    move_entry giver taker removing owning adding (instance_of x)
    >> move_entries giver taker removing owning adding xs

-- Both users are loaded, then the one who pays is debited and the other credited; `first` and
-- `second` name the users in the order of the loads and of the updates.
unfoldable pub pay_offered : TradeOffer → M (Unit {0})
pay_offered offer =
    if ltb 0 offer.offered_cash
    then (do
      from_user ← or_rollback 8 (db_load_user offer.from_user_id)
      to_user ← or_rollback 9 (db_load_user offer.to_user_id)
      or_rollback 10 (return_if (ltb from_user.balance offer.offered_cash) 10)
      or_rollback 11 (
          db_update_user
            (record from_user { balance = rounded (from_user.balance - offer.offered_cash) }))
      or_rollback 12 (
          db_update_user
            (record to_user { balance = rounded (to_user.balance + offer.offered_cash) })))
    else pure tt

unfoldable pub pay_requested : TradeOffer → M (Unit {0})
pay_requested offer =
    if ltb 0 offer.requested_cash
    then (do
      from_user ← or_rollback 13 (db_load_user offer.from_user_id)
      to_user ← or_rollback 14 (db_load_user offer.to_user_id)
      or_rollback 15 (return_if (ltb to_user.balance offer.requested_cash) 15)
      or_rollback 16 (
          db_update_user
            (record from_user { balance = rounded (from_user.balance + offer.requested_cash) }))
      or_rollback 17 (
          db_update_user
            (record to_user { balance = rounded (to_user.balance - offer.requested_cash) })))
    else pure tt

-- The quests, achievements and challenges of both sides; no result is looked at.
unfoldable pub after_trade : ℕ → ℕ → M (Unit {0})
after_trade from_user to_user = do
  attempt (update_quest_progress from_user first_steps 1)
  attempt (update_quest_progress to_user first_steps 1)
  attempt (update_quest_progress from_user social_trader 1)
  attempt (update_quest_progress to_user social_trader 1)
  attempt (unlock_achievement from_user first_trade)
  attempt (unlock_achievement to_user first_trade)
  check_quest_completion from_user
  check_quest_completion to_user
  update_user_active_challenges from_user
  update_user_active_challenges to_user

unfoldable pub execute_trade_internal : TradeOffer → M (Unit {0})
execute_trade_internal offer = do
  move_entries offer.from_user_id offer.to_user_id 2 3 4 offer.offered_skins
  move_entries offer.to_user_id offer.from_user_id 5 6 7 offer.requested_skins
  pay_offered offer
  pay_requested offer
  after_trade offer.from_user_id offer.to_user_id

unfoldable pub clean_expired_trades : M (Unit {0})
clean_expired_trades = attempt db_clean_expired_trades >> pure tt

abbrev or_locked : Option Bool → Bool
or_locked none = true
or_locked (some locked) = locked

-- An instance that cannot be read counts as locked.
unfoldable pub is_trade_locked : ℕ → M Bool
is_trade_locked instance_id = do
  locked ← attempt (db_check_trade_lock instance_id)
  pure (or_locked locked)

unfoldable pub apply_trade_lock : ℕ → M (Unit {0})
apply_trade_lock instance_id = attempt (db_apply_trade_lock instance_id) >> pure tt

unfoldable pub check_expired_locks : M (Unit {0})
check_expired_locks = attempt db_unlock_expired_trades >> pure tt
