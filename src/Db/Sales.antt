-- ===== src/Db/Sales.antt =====
-- The `db_` functions that read the sales of a day.
use cs.Base.{
  ℕ, ◌+◌, ◌*◌, Bool, ◌&&◌, Option, none, some, List, [], ◌∷◌, leb, ◌==◌, take, if◌then◌else◌,
}
use cs.Types.{PriceHistoryEntry}
use cs.Db.Monad.{M, pure, fail, select, attempt, clock, ◌>>=◌}

-- `timestamp >= now - 24 h`
abbrev pub in_last_day : ℕ → ℕ → PriceHistoryEntry → Bool
in_last_day definition_id now e =
    e.definition_id == definition_id && leb now (e.timestamp + 24 * 60 * 60)

-- Oldest first; rows of the same second in the order of insertion.
abbrev pub insert_by_time : PriceHistoryEntry → List PriceHistoryEntry → List PriceHistoryEntry
insert_by_time e [] = e ∷ []
insert_by_time e (x ∷ l) =
    let rest = insert_by_time e l in if leb e.timestamp x.timestamp then e ∷ x ∷ l else x ∷ rest

abbrev pub sales_of_day : ℕ → ℕ → List PriceHistoryEntry → List PriceHistoryEntry
sales_of_day definition_id now [] = []
sales_of_day definition_id now (e ∷ l) =
    let rest = sales_of_day definition_id now l in
    if in_last_day definition_id now e then insert_by_time e rest else rest

abbrev or_no_entries : Option (List PriceHistoryEntry) → List PriceHistoryEntry
or_no_entries none = []
or_no_entries (some l) = l

-- A query that fails gives no entry.
unfoldable pub db_get_price_history_24h : ℕ → M (List PriceHistoryEntry)
db_get_price_history_24h definition_id = if definition_id == 0 then fail 1 else do
  now ← clock
  rows ← attempt (select λ t. some (take 100 (sales_of_day definition_id now t.prices)))
  pure (or_no_entries rows)

abbrev pub first_price : List PriceHistoryEntry → Option ℕ
first_price [] = none
first_price (e ∷ _) = some e.price

unfoldable pub db_get_price_24h_ago : ℕ → M ℕ
db_get_price_24h_ago definition_id =
    if definition_id == 0
    then fail 1
    else do now ← clock; select λ t. first_price (sales_of_day definition_id now t.prices)
