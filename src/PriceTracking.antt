-- ===== src/PriceTracking.antt =====
-- src/server/price_tracking.c: the prices of a day.
use cs.Base.{ℕ, ◌*◌, ◌&&◌, Option, none, some, List, [], ◌∷◌, ltb, ◌==◌, if◌then◌else◌, ℤ, sub_ℕ}
use cs.Types.{PriceHistoryEntry}
use cs.Db.Monad.{M, pure, fail, attempt, return_if, ◌>>=◌, ◌>>◌}
use cs.Db.Listings.{db_save_price_history}
use cs.Db.Sales.{db_get_price_history_24h, db_get_price_24h_ago}

pub data Trend : Type 0 where
  unchanged rising falling : Trend

-- `price_change_percent` is `price_change` over `price_24h_ago`, in percent.
pub record PriceTrend : Type 0 where
  pub definition_id : ℕ
  pub current_price : ℕ
  pub price_24h_ago : ℕ
  pub price_change : ℤ
  pub trend_symbol : Trend

unfoldable pub save_price_history : ℕ → ℕ → ℕ → M (Unit {0})
save_price_history definition_id price transaction_type =
    db_save_price_history definition_id price transaction_type

unfoldable pub get_price_history_24h : ℕ → M (List PriceHistoryEntry)
get_price_history_24h definition_id = db_get_price_history_24h definition_id

-- `history[history_count - 1].price`
abbrev pub last_price : PriceHistoryEntry → List PriceHistoryEntry → ℕ
last_price e [] = e.price
last_price e (x ∷ l) = last_price x l

-- A change of more than 0.1 %. Without an old price there is none.
abbrev pub trend_of : ℕ → ℕ → Trend
trend_of current ago =
    if ltb 0 ago && ltb (ago * 1001) (current * 1000)
    then rising
    else if ltb 0 ago && ltb (current * 1000) (ago * 999)
    then falling
    else unchanged

abbrev or_current : ℕ → Option ℕ → ℕ
or_current current none = current
or_current current (some p) = p

unfoldable pub trend_from : ℕ → Option (List PriceHistoryEntry) → M PriceTrend
trend_from definition_id none = fail 1
trend_from definition_id (some []) = fail 1
trend_from definition_id (some (e ∷ l)) = do
  let current = last_price e l
  old ← attempt (db_get_price_24h_ago definition_id)
  let ago = or_current current old
  pure (record {
    definition_id = definition_id;
    current_price = current;
    price_24h_ago = ago;
    price_change = sub_ℕ current ago;
    trend_symbol = trend_of current ago;
  })

unfoldable pub calculate_price_trend : ℕ → M PriceTrend
calculate_price_trend definition_id = do
  return_if (definition_id == 0) 1
  history ← attempt (db_get_price_history_24h definition_id)
  trend_from definition_id history

unfoldable pub get_price_trend : ℕ → M PriceTrend
get_price_trend definition_id = calculate_price_trend definition_id
