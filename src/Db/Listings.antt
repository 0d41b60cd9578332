-- ===== src/Db/Listings.antt =====
-- The rows of `market_listings_v2` and `price_history`.
use cs.Base.{
  ℕ, suc, Bool, true, false, not, leb, take, ◌&&◌, ◌||◌, ◌==◌, Option, none, some, [], ◌∷◌, ◌++◌,
  if◌then◌else◌,
}
use cs.Types.{MarketListing, PriceHistoryEntry}
use cs.Db.Table.{Rows, find, put, delete, has}
use cs.Db.Tables.{Tables}
use cs.Db.Monad.{M, pure, fail, select, write, attempt, ◌>>=◌, ◌>>◌, return_if, clock}

-- The seller and the instance must exist. The result is the id of the new row.
unfoldable pub db_save_listing_v2 : ℕ → ℕ → ℕ → M ℕ
db_save_listing_v2 seller_id instance_id price = do
  now ← clock
  write λ t.
      let l : MarketListing = record {
        seller_id = seller_id;
        instance_id = instance_id;
        price = price;
        listed_at = now;
        is_sold = false;
      } in
      if has seller_id t.users && has instance_id t.instances
      then some (
        t.next_listing,
        record t {
          listings = t.listings ++ ((t.next_listing, l) ∷ []);
          next_listing = suc t.next_listing;
        },
      )
      else none

unfoldable pub db_get_listing_v2 : ℕ → M MarketListing
db_get_listing_v2 listing_id = select λ t. find listing_id t.listings

unfoldable pub db_remove_listing_v2 : ℕ → M (Unit {0})
db_remove_listing_v2 listing_id =
    write λ t. some (tt, record t { listings = delete listing_id t.listings })

abbrev pub sell_row : ℕ → Option MarketListing → Tables → Bool × Tables
sell_row listing_id none t = (false, t)
sell_row listing_id (some l) t =
    if l.is_sold
    then (false, t)
    else (true, record t { listings = put listing_id (record l { is_sold = true }) t.listings })

-- The result is the listing as it was read.
unfoldable pub db_atomic_mark_listing_sold : ℕ → M MarketListing
db_atomic_mark_listing_sold listing_id = do
  l ← select (λ t. find listing_id t.listings)
  return_if l.is_sold 2
  changed ← write (λ t. some (sell_row listing_id (find listing_id t.listings) t))
  if changed then pure l else fail 2

-- The definition must exist.
unfoldable pub db_save_price_history : ℕ → ℕ → ℕ → M (Unit {0})
db_save_price_history definition_id price transaction_type = do
  return_if (definition_id == 0 || price == 0) 1
  now ← clock
  write λ t.
      let e : PriceHistoryEntry = record {
        definition_id = definition_id;
        price = price;
        timestamp = now;
        transaction_type = transaction_type;
      } in
      if has definition_id t.definitions
      then some (tt, record t { prices = t.prices ++ (e ∷ []) })
      else none

-- Whatever the row says; without such a row nothing changes.
abbrev mark_sold : ℕ → Option MarketListing → Tables → Tables
mark_sold listing_id none t = t
mark_sold listing_id (some l) t = record t {
  listings = put listing_id (record l { is_sold = true }) t.listings;
}

unfoldable pub db_mark_listing_sold : ℕ → M (Unit {0})
db_mark_listing_sold listing_id =
    write λ t. some (tt, mark_sold listing_id (find listing_id t.listings) t)

-- Newest first; rows of the same second in the order of insertion.
abbrev insert_by_age : ℕ × MarketListing → Rows MarketListing → Rows MarketListing
insert_by_age e [] = e ∷ []
insert_by_age (k, l) ((j, x) ∷ t) =
    let rest = insert_by_age (k, l) t in
    if leb x.listed_at l.listed_at then (k, l) ∷ (j, x) ∷ t else (j, x) ∷ rest

abbrev by_age : (MarketListing → Bool) → Rows MarketListing → Rows MarketListing
by_age wanted [] = []
by_age wanted ((k, l) ∷ t) =
    let rest = by_age wanted t in if wanted l then insert_by_age (k, l) rest else rest

abbrev pub or_no_listings : Option (Rows MarketListing) → Rows MarketListing
or_no_listings none = []
or_no_listings (some t) = t

-- A query that fails gives no listing.
unfoldable pub db_load_listings_v2 : M (Rows MarketListing)
db_load_listings_v2 = do
  rows ← attempt (select λ t. some (take 100 (by_age (λ l. not l.is_sold) t.listings)))
  pure (or_no_listings rows)

unfoldable pub db_load_user_listing_history : ℕ → M (Rows MarketListing)
db_load_user_listing_history user_id = if user_id == 0 then fail 1 else do
  rows ← attempt (select λ t. some (take 100 (by_age (λ l. l.seller_id == user_id) t.listings)))
  pure (or_no_listings rows)
