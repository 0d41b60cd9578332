-- ===== src/Market/Atomic.antt =====
-- The transactions of the market are whole or nothing.
use cs.Base.{ℕ, ◌≡◌, Bool, true, false, Option, none, some}
use cs.Types.{SkinInstance, MarketListing}
use cs.Db.Tables.{Tables}
use cs.Db.Monad.{Db, M}
use cs.Db.Monad.Transaction.{InTransaction-of}
use cs.Db.Monad.Atomic.{
  Done, Rolls, Rolls-bind, Rolls-pure, Rolls-attempt, Rolls-or_rollback, Closes-bind, Closes-commit,
  Closes-pure, Atomic, Atomic-begin, Atomic-bind, ReadOnly, read_rules,
}
use cs.Db.Monad.Quiet.{Quiet, Settles-Atomic, quiet_rules, Atomic-then}
use cs.Db.Stays.{db_stays}
use cs.Db.Trades.{
  prepare, pending_query, first_pending, or_pending, db_is_instance_in_pending_trade,
}
use cs.Db.Instances.{db_load_skin_instance}
use cs.Db.Users.{db_load_user}
use cs.Quests.Atomic.{update_quest_progress-Atomic}
use cs.Quests.Stays.{check_quest_completion-Stays}
use cs.Challenges.Stays.{update_user_active_challenges-Stays}
use cs.Market.{
  create_listing, list_skin_on_market, save_price_history, pay_seller, hand_over, after_sale, sell,
  buy_from_market,
}

ruleset sale_rules =
    (Rolls-bind, Rolls-attempt, Rolls-pure, Rolls-or_rollback, InTransaction-of, db_stays)

module _ {t : Tables} where
  save_price_history-Rolls : (p : ℕ) (s : Option SkinInstance) → Rolls t (save_price_history p s)
  unfolding save_price_history
  save_price_history-Rolls p none = search sale_rules
  save_price_history-Rolls p (some s) = search sale_rules depth 8

  pay_seller-Rolls : (b : ℕ) (l : MarketListing) → Rolls t (pay_seller b l)
  unfolding pay_seller
  pay_seller-Rolls b l = search sale_rules depth 12

  hand_over-Rolls : (b : ℕ) (l : MarketListing) → Rolls t (hand_over b l)
  unfolding hand_over
  hand_over-Rolls b l = search (sale_rules, save_price_history-Rolls) depth 12

pub sell-Atomic : (b k : ℕ) → Atomic (sell b k)
unfolding sell
sell-Atomic b k = Atomic-begin 12 _ λ t. Closes-bind _ _ (search sale_rules) λ l.
    Closes-bind _ _ (pay_seller-Rolls b l)
      λ _. Closes-bind _ _ (hand_over-Rolls b l) λ _. Closes-pure _ l (Closes-commit _)

pub after_sale-Quiet : (b : ℕ) (l : MarketListing) → Quiet (after_sale b l)
unfolding after_sale
after_sale-Quiet b l =
    search
      (
        quiet_rules, Settles-Atomic, update_quest_progress-Atomic, check_quest_completion-Stays,
        update_user_active_challenges-Stays, db_stays,
      )
      depth 20

pub buy_from_market-Atomic : (b k : ℕ) → Atomic (buy_from_market b k)
unfolding buy_from_market
buy_from_market-Atomic b k =
    Atomic-bind _ _ (search read_rules) λ _. Atomic-then _ _ (sell-Atomic b k) (after_sale-Quiet b)

first_pending-ReadOnly :
    (q : Option (Unit {0})) (m : M Bool) → ReadOnly m → ReadOnly (first_pending q m)
unfolding first_pending
first_pending-ReadOnly none m p = search read_rules
first_pending-ReadOnly (some _) m p = p

or_pending-ReadOnly : (q : Option Bool) (m : M Bool) → ReadOnly m → ReadOnly (or_pending q m)
unfolding or_pending
or_pending-ReadOnly none m p = p
or_pending-ReadOnly (some true) m p = search read_rules
or_pending-ReadOnly (some false) m p = p

db_is_instance_in_pending_trade-ReadOnly : (i : ℕ) → ReadOnly (db_is_instance_in_pending_trade i)
unfolding db_is_instance_in_pending_trade pending_query prepare
db_is_instance_in_pending_trade-ReadOnly i =
    search (read_rules, first_pending-ReadOnly, or_pending-ReadOnly) depth 16

create_listing-Atomic : (u i p : ℕ) → Atomic (create_listing u i p)
unfolding create_listing db_load_user
create_listing-Atomic u i p = Atomic-bind _ _ (search read_rules) λ user.
    Atomic-bind _ _ (search read_rules)
      λ _. Atomic-begin 8 _ λ t. search (Closes-bind, Closes-commit, sale_rules) depth 10

list_skin_on_market-Atomic : (u i p : ℕ) → Atomic (list_skin_on_market u i p)
unfolding list_skin_on_market db_load_skin_instance
list_skin_on_market-Atomic u i p = Atomic-bind _ _ (search read_rules) λ _.
    Atomic-bind _ _ (search read_rules) λ s. Atomic-bind _ _ (search read_rules) λ _.
      Atomic-bind _ _ (db_is_instance_in_pending_trade-ReadOnly i)
        λ busy. Atomic-bind _ _ (search read_rules) λ _. create_listing-Atomic u i p

-- Whatever statement sqlite refuses, `buy_from_market` outside a transaction ends outside one, and
-- where it returns an error the tables are as they were.
pub buy_from_market_atomic :
    (buyer_id listing_id : ℕ) (d : Db)
    → d.saved ≡ none
    → Done d.tables (buy_from_market buyer_id listing_id d)
buy_from_market_atomic b k d i = (buy_from_market-Atomic b k).at d i

-- Whatever statement sqlite refuses, `list_skin_on_market` outside a transaction ends outside one,
-- and where it returns an error the tables are as they were.
pub list_skin_on_market_atomic :
    (user_id instance_id price : ℕ) (d : Db)
    → d.saved ≡ none
    → Done d.tables (list_skin_on_market user_id instance_id price d)
list_skin_on_market_atomic u k p d i = (list_skin_on_market-Atomic u k p).at d i
