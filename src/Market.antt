-- ===== src/Market.antt =====
-- src/server/market.c: listings, sales and their fees.
pub mod Atomic
pub mod Aftermath
pub mod Once
pub mod Money
use cs.Base.{
  ℕ, ◌+◌, ◌-◌, ◌*◌, ◌/◌, Bool, true, false, not, ◌||◌, Option, none, some, List, [], ◌∷◌, ltb, ◌==◌,
  if◌then◌else◌,
}
use cs.Float.{rounded}
use cs.Types.{
  usd, User, LogType, log_market_buy, log_market_sell, SkinRarity, SkinInstance, MarketListing,
  market_explorer, profit_maker, TransactionLog,
}
use cs.Db.Table.{Rows}
use cs.Db.Monad.{
  M, pure, fail, or_return, attempt, ◌>>=◌, ◌>>◌, return_if, clock, db_begin_transaction,
  db_commit_transaction, or_rollback_by, or_rollback,
}
use cs.Db.Users.{
  db_load_user, db_update_user, db_add_to_inventory, db_remove_from_inventory, db_log_transaction,
}
use cs.Db.Instances.{
  db_load_skin_instance, db_update_skin_instance_owner, db_apply_trade_lock,
  db_calculate_skin_price,
}
use cs.Db.Trades.{db_is_instance_in_pending_trade}
use cs.Db.Listings.{
  db_save_listing_v2, db_get_listing_v2, db_remove_listing_v2, db_atomic_mark_listing_sold,
  db_save_price_history, db_load_listings_v2, db_load_user_listing_history,
}
use cs.Quests.{update_quest_progress, check_quest_completion}
use cs.Challenges.{update_user_active_challenges}

-- LISTING_FEE
abbrev pub listing_fee : ℕ
listing_fee = usd / 2

-- `price * MARKET_FEE_RATE`: the `float` 0.15f is 10066330 / 2^26. The quotient is exact for a
-- `float` of 2^-99 dollars or more.
abbrev pub market_fee : ℕ → ℕ
market_fee price = rounded (price * 10066330 / 67108864)

-- What the seller receives: the price less the fee, and then the listing fee.
unfoldable pub seller_payout : ℕ → ℕ
seller_payout price = rounded (rounded (price - market_fee price) + listing_fee)

-- From BEGIN to COMMIT; the balance is the one that was read before.
unfoldable pub create_listing : ℕ → ℕ → ℕ → M (Unit {0})
create_listing user_id instance_id price = do
  user ← or_return 4 (db_load_user user_id)
  return_if (ltb user.balance listing_fee) 5
  or_return 8 db_begin_transaction
  or_rollback 6 (db_update_user (record user { balance = rounded (user.balance - listing_fee) }))
  or_rollback 7 (db_remove_from_inventory user_id instance_id)
  or_rollback 3 (db_save_listing_v2 user_id instance_id price)
  or_rollback 9 db_commit_transaction

unfoldable pub list_skin_on_market : ℕ → ℕ → ℕ → M (Unit {0})
list_skin_on_market user_id instance_id price = do
  return_if (user_id == 0 || (instance_id == 0 || price == 0)) 1
  s ← or_return 1 (db_load_skin_instance instance_id)
  return_if (not (s.owner_id == user_id)) 2
  busy ← db_is_instance_in_pending_trade instance_id
  return_if busy 7
  create_listing user_id instance_id price

-- -1 stays -1 and -2 stays -2.
abbrev sold_code : ℕ → ℕ
sold_code n = if n == 2 then 2 else 1

-- The two rows of the price history, if the instance can be read.
unfoldable pub save_price_history : ℕ → Option SkinInstance → M (Unit {0})
save_price_history price none = pure tt
save_price_history price (some s) = do
  attempt (db_save_price_history s.definition_id price 0)
  attempt (db_save_price_history s.definition_id price 1)
  pure tt

-- Both balances, read before either is written.
unfoldable pub pay_seller : ℕ → MarketListing → M (Unit {0})
pay_seller buyer_id l = do
  or_rollback 3 (return_if (l.seller_id == buyer_id) 3)
  buyer ← or_rollback 4 (db_load_user buyer_id)
  or_rollback 5 (return_if (ltb buyer.balance l.price) 5)
  seller ← or_rollback 6 (db_load_user l.seller_id)
  or_rollback 7 (db_update_user (record buyer { balance = rounded (buyer.balance - l.price) }))
  or_rollback 8 (
      db_update_user (record seller { balance = rounded (seller.balance + seller_payout l.price) }))

-- The item goes to the buyer, locked.
unfoldable pub hand_over : ℕ → MarketListing → M (Unit {0})
hand_over buyer_id l = do
  or_rollback 10 (db_update_skin_instance_owner l.instance_id buyer_id)
  attempt (db_remove_from_inventory l.seller_id l.instance_id)
  or_rollback 11 (db_add_to_inventory buyer_id l.instance_id)
  attempt (db_apply_trade_lock l.instance_id)
  s ← attempt (db_load_skin_instance l.instance_id)
  save_price_history l.price s

-- A log row of a sale.
abbrev sale_log : LogType → ℕ → List ℕ → ℕ → TransactionLog
sale_log type user_id details now = record {
  type = type;
  user_id = user_id;
  details = details;
  timestamp = now;
}

-- The logs, quests and challenges that follow the COMMIT; no result is looked at. The increment
-- of the second quest is the payout in whole dollars.
unfoldable pub after_sale : ℕ → MarketListing → M (Unit {0})
after_sale buyer_id l = do
  now ← clock
  attempt (db_log_transaction (sale_log log_market_buy buyer_id (l.instance_id ∷ l.price ∷ []) now))
  attempt (
      db_log_transaction (
        sale_log log_market_sell l.seller_id
          (l.instance_id
            ∷ l.price
            ∷ rounded (seller_payout l.price - listing_fee)
            ∷ listing_fee
            ∷ [])
          now))
  attempt (update_quest_progress buyer_id market_explorer 1)
  attempt (update_quest_progress l.seller_id profit_maker (seller_payout l.price / usd))
  attempt (check_quest_completion buyer_id)
  attempt (check_quest_completion l.seller_id)
  attempt (update_user_active_challenges buyer_id)
  attempt (update_user_active_challenges l.seller_id)
  pure tt

-- From BEGIN to COMMIT.
unfoldable pub sell : ℕ → ℕ → M MarketListing
sell buyer_id listing_id = do
  or_return 12 db_begin_transaction
  l ← or_rollback_by sold_code (db_atomic_mark_listing_sold listing_id)
  pay_seller buyer_id l
  hand_over buyer_id l
  or_rollback 13 db_commit_transaction
  pure l

unfoldable pub buy_from_market : ℕ → ℕ → M (Unit {0})
buy_from_market buyer_id listing_id = do
  return_if (buyer_id == 0 || listing_id == 0) 1
  l ← sell buyer_id listing_id
  after_sale buyer_id l

-- The refund of `remove_listing`, if the seller can be read.
unfoldable pub refund : Option User → M (Unit {0})
refund none = pure tt
refund (some seller) =
    attempt (db_update_user (record seller { balance = rounded (seller.balance + listing_fee) }))
    >> pure tt

-- The return of the item: the listing is removed either way.
unfoldable pub return_item : ℕ → Option (Unit {0}) → M (Unit {0})
return_item listing_id none = attempt (db_remove_listing_v2 listing_id) >> fail 3
return_item listing_id (some _) = or_return 1 (db_remove_listing_v2 listing_id)

unfoldable pub remove_listing : ℕ → M (Unit {0})
remove_listing listing_id = do
  return_if (listing_id == 0) 1
  l ← or_return 1 (db_get_listing_v2 listing_id)
  return_if l.is_sold 2
  seller ← attempt (db_load_user l.seller_id)
  refund seller
  added ← attempt (db_add_to_inventory l.seller_id l.instance_id)
  return_item listing_id added

unfoldable pub get_current_price : ℕ → SkinRarity → ℕ → M ℕ
get_current_price definition_id rarity wear = db_calculate_skin_price definition_id rarity wear

unfoldable pub get_market_listings : M (Rows MarketListing)
get_market_listings = db_load_listings_v2

unfoldable pub get_user_listing_history : ℕ → M (Rows MarketListing)
get_user_listing_history user_id =
    if user_id == 0 then fail 1 else db_load_user_listing_history user_id
