-- ===== src/Tests/Runs.antt =====
-- The sale and the trade of the shop go through.
use cs.Base.{◌≡◌, refl}
use cs.Db.Monad.{ok}
use cs.Tests.{open_shop}
use cs.Float.{spacing, nearest, rounded}
use cs.Db.Monad.{
  ◌>>=◌, return_if, or_return, db_begin_transaction, or_rollback_by, select, write, pure, attempt,
  clock, db_commit_transaction, db_rollback_transaction, fail,
}
use cs.Market.{
  sell, pay_seller, hand_over, after_sale, save_price_history, seller_payout, buy_from_market,
}
use cs.Db.Listings.{db_atomic_mark_listing_sold, db_save_price_history}
use cs.Db.Users.{
  db_load_user, db_update_user, db_remove_from_inventory, db_add_to_inventory, db_load_inventory,
  db_log_transaction,
}
use cs.Db.Instances.{
  db_update_skin_instance_owner, db_apply_trade_lock, db_calculate_skin_price,
  db_get_rarity_multiplier, db_get_wear_multiplier, db_load_skin_definition, db_load_skin_instance,
}
use cs.Challenges.{
  calculate_net_worth, get_challenge, get_user_challenges, item_value, items_value, net_worth_of,
  update_active, update_challenge, update_challenge_progress, update_listed,
  update_user_active_challenges,
}
use cs.Db.Rewards.{db_load_user_quests, db_update_quest}
use cs.Quests.{
  advance_found, check_quest_completion, complete_loaded, complete_quest, complete_reached,
  update_quest_progress,
}
use cs.Trading.{
  expire, expire_if, check_loaded, check_entry, check_entries, move_entry, move_entries,
  pay_offered, pay_requested, after_trade, execute_trade_internal,
}
use cs.Trading.Accept.{entry_value, skins_value, log_accepted, settle, accept_loaded, accept_trade}
use cs.Db.Trades.{row_of, offer_of, db_load_trade, accept_result, db_atomic_accept_trade}
use cs.Db.IntArray.{
  emit, format_nat, format_int, separated, entries, serialize, atoi, skip_digits, parse_entries,
  parse_skins,
}
use cs.Achievements.{unlock_achievement, unlock_unless}

sale_runs : (buy_from_market 2 4 open_shop).0 ≡ ok tt
unfolding rounded spacing nearest ◌>>=◌ return_if or_return db_begin_transaction or_rollback_by
    select write pure attempt clock db_commit_transaction db_rollback_transaction fail sell
    pay_seller hand_over after_sale save_price_history seller_payout buy_from_market
    db_atomic_mark_listing_sold db_save_price_history db_load_user db_update_user
    db_remove_from_inventory db_add_to_inventory db_load_inventory db_log_transaction
    db_update_skin_instance_owner db_apply_trade_lock db_calculate_skin_price
    db_get_rarity_multiplier db_get_wear_multiplier db_load_skin_definition db_load_skin_instance
    calculate_net_worth get_challenge get_user_challenges item_value items_value net_worth_of
    update_active update_challenge update_challenge_progress update_listed
    update_user_active_challenges db_load_user_quests db_update_quest advance_found
    check_quest_completion complete_loaded complete_quest complete_reached update_quest_progress
sale_runs = refl

trade_runs : (accept_trade 2 7 open_shop).0 ≡ ok tt
unfolding rounded spacing nearest ◌>>=◌ return_if or_return db_begin_transaction or_rollback_by
    select write pure attempt clock db_commit_transaction db_rollback_transaction fail db_load_user
    db_update_user db_remove_from_inventory db_add_to_inventory db_load_inventory db_log_transaction
    db_update_skin_instance_owner db_apply_trade_lock db_calculate_skin_price
    db_get_rarity_multiplier db_get_wear_multiplier db_load_skin_definition db_load_skin_instance
    calculate_net_worth get_challenge get_user_challenges item_value items_value net_worth_of
    update_active update_challenge update_challenge_progress update_listed
    update_user_active_challenges db_load_user_quests db_update_quest advance_found
    check_quest_completion complete_loaded complete_quest complete_reached update_quest_progress
    expire expire_if check_loaded check_entry check_entries move_entry move_entries pay_offered
    pay_requested after_trade execute_trade_internal entry_value skins_value log_accepted settle
    accept_loaded accept_trade row_of offer_of db_load_trade accept_result db_atomic_accept_trade
    emit format_nat format_int separated entries serialize atoi skip_digits parse_entries
    parse_skins unlock_achievement unlock_unless
trade_runs = refl
