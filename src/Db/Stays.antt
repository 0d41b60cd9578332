-- ===== src/Db/Stays.antt =====
-- No function of the data layer ends or begins a transaction, and a BEGIN inside one is refused.
use cs.Base.{ℕ, Option, some, arith}
use cs.Types.{SkinRarity, User, TransactionLog, Quest, Achievement, LoginStreak}
use cs.Db.Tables.{Tables}
use cs.Db.Monad.{M, or_return, ◌>>=◌, db_begin_transaction}
use cs.Db.Monad.Transaction.{Stays, Stays-bind, Stays-if, stays_rules}
use cs.Db.Users.{
  db_load_user, db_update_user, db_load_inventory, db_add_to_inventory, db_remove_from_inventory,
  db_log_transaction,
}
use cs.Db.Instances.{
  db_load_skin_instance, db_update_skin_instance_owner, db_apply_trade_lock,
  db_get_rarity_multiplier, db_get_wear_multiplier, db_load_skin_definition,
  db_calculate_skin_price,
}
use cs.Db.Trades.{
  Change, accepted, already_processed, not_found, accept_result, db_atomic_accept_trade,
}
use cs.Db.Listings.{db_save_listing_v2, db_atomic_mark_listing_sold, db_save_price_history}
use cs.Db.Rewards.{
  db_load_user_quests, db_update_quest, db_save_quest, db_load_user_achievements,
  db_save_achievement, db_update_achievement, db_load_login_streak, db_save_login_streak,
}

module _ {t : Tables} where
  -- What follows a BEGIN inside a transaction is never reached.
  pub Stays-nested :
      {A : Type 0} (n : ℕ) (f : Unit {0} → M A)
      → Stays (some t) (or_return n db_begin_transaction >>= f)
  unfolding or_return db_begin_transaction ◌>>=◌
  Stays-nested n f = record { at = λ d h. ground arith }

module _ {o : Option Tables} where
  pub db_load_user-Stays : (u : ℕ) → Stays o (db_load_user u)
  unfolding db_load_user
  db_load_user-Stays u = search stays_rules

  pub db_update_user-Stays : (u : User) → Stays o (db_update_user u)
  unfolding db_update_user
  db_update_user-Stays u = search stays_rules

  pub db_load_inventory-Stays : (u : ℕ) → Stays o (db_load_inventory u)
  unfolding db_load_inventory
  db_load_inventory-Stays u = search stays_rules

  pub db_add_to_inventory-Stays : (u i : ℕ) → Stays o (db_add_to_inventory u i)
  unfolding db_add_to_inventory
  db_add_to_inventory-Stays u i = search stays_rules

  pub db_remove_from_inventory-Stays : (u i : ℕ) → Stays o (db_remove_from_inventory u i)
  unfolding db_remove_from_inventory
  db_remove_from_inventory-Stays u i = search stays_rules

  pub db_log_transaction-Stays : (l : TransactionLog) → Stays o (db_log_transaction l)
  unfolding db_log_transaction
  db_log_transaction-Stays l = search stays_rules

  pub db_load_skin_instance-Stays : (i : ℕ) → Stays o (db_load_skin_instance i)
  unfolding db_load_skin_instance
  db_load_skin_instance-Stays i = search stays_rules

  pub db_update_skin_instance_owner-Stays : (i u : ℕ) → Stays o (db_update_skin_instance_owner i u)
  unfolding db_update_skin_instance_owner
  db_update_skin_instance_owner-Stays i u = search stays_rules

  pub db_apply_trade_lock-Stays : (i : ℕ) → Stays o (db_apply_trade_lock i)
  unfolding db_apply_trade_lock
  db_apply_trade_lock-Stays i = search stays_rules

  pub db_calculate_skin_price-Stays :
      (d : ℕ) (r : SkinRarity) (w : ℕ) → Stays o (db_calculate_skin_price d r w)
  unfolding db_calculate_skin_price db_load_skin_definition db_get_rarity_multiplier
      db_get_wear_multiplier
  db_calculate_skin_price-Stays d r w = search stays_rules depth 12

  accept_result-Stays : (c : Change) → Stays o (accept_result c)
  unfolding accept_result
  accept_result-Stays accepted = search stays_rules
  accept_result-Stays already_processed = search stays_rules
  accept_result-Stays not_found = search stays_rules

  pub db_atomic_accept_trade-Stays : (k : ℕ) → Stays o (db_atomic_accept_trade k)
  unfolding db_atomic_accept_trade
  db_atomic_accept_trade-Stays k = search (stays_rules, accept_result-Stays)

  pub db_save_listing_v2-Stays : (s i p : ℕ) → Stays o (db_save_listing_v2 s i p)
  unfolding db_save_listing_v2
  db_save_listing_v2-Stays s i p = search stays_rules

  pub db_atomic_mark_listing_sold-Stays : (l : ℕ) → Stays o (db_atomic_mark_listing_sold l)
  unfolding db_atomic_mark_listing_sold
  db_atomic_mark_listing_sold-Stays l = search stays_rules depth 8

  pub db_save_price_history-Stays : (d p k : ℕ) → Stays o (db_save_price_history d p k)
  unfolding db_save_price_history
  db_save_price_history-Stays d p k = search stays_rules

  pub db_load_user_quests-Stays : (u : ℕ) → Stays o (db_load_user_quests u)
  unfolding db_load_user_quests
  db_load_user_quests-Stays u = search stays_rules

  pub db_update_quest-Stays : (q : Quest) → Stays o (db_update_quest q)
  unfolding db_update_quest
  db_update_quest-Stays q = search stays_rules

  pub db_save_quest-Stays : (q : Quest) → Stays o (db_save_quest q)
  unfolding db_save_quest
  db_save_quest-Stays q = search stays_rules

  pub db_load_user_achievements-Stays : (u : ℕ) → Stays o (db_load_user_achievements u)
  unfolding db_load_user_achievements
  db_load_user_achievements-Stays u = search stays_rules

  pub db_save_achievement-Stays : (a : Achievement) → Stays o (db_save_achievement a)
  unfolding db_save_achievement
  db_save_achievement-Stays a = search stays_rules

  pub db_update_achievement-Stays : (a : Achievement) → Stays o (db_update_achievement a)
  unfolding db_update_achievement
  db_update_achievement-Stays a = search stays_rules

  pub db_load_login_streak-Stays : (u : ℕ) → Stays o (db_load_login_streak u)
  unfolding db_load_login_streak
  db_load_login_streak-Stays u = search stays_rules

  pub db_save_login_streak-Stays : (s : LoginStreak) → Stays o (db_save_login_streak s)
  unfolding db_save_login_streak
  db_save_login_streak-Stays s = search stays_rules

pub ruleset db_stays = (
  stays_rules, db_load_user-Stays, db_update_user-Stays, db_load_inventory-Stays,
  db_add_to_inventory-Stays, db_remove_from_inventory-Stays, db_log_transaction-Stays,
  db_load_skin_instance-Stays, db_update_skin_instance_owner-Stays, db_apply_trade_lock-Stays,
  db_calculate_skin_price-Stays, db_atomic_accept_trade-Stays, db_save_listing_v2-Stays,
  db_atomic_mark_listing_sold-Stays, db_save_price_history-Stays, db_load_user_quests-Stays,
  db_update_quest-Stays, db_save_quest-Stays, db_load_user_achievements-Stays,
  db_save_achievement-Stays, db_update_achievement-Stays, db_load_login_streak-Stays,
  db_save_login_streak-Stays,
)
