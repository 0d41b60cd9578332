-- ===== src/Requests/Market.antt =====
-- The cases of `handle_market_request` that change the market, and of `handle_unbox_request`.
use cs.Base.{ℕ, ◌||◌, not, Option, none, some, List, ◌==◌, if◌then◌else◌}
use cs.Types.{MarketListing}
use cs.Db.Monad.{M, pure, attempt, ◌>>=◌}
use cs.Db.Listings.{db_get_listing_v2}
use cs.Market.{buy_from_market, remove_listing}
use cs.Auth.{err_database_error}
use cs.Unbox.{unbox_case, err_insufficient_funds}
use cs.Requests.{
  err_no_funds, err_item_not_found, err_permission_denied, err_invalid_request, of_skin, Response,
  error_response, respond, negative, nothing, with_two,
}

abbrev pub msg_buy_from_market : ℕ
msg_buy_from_market = 0x12

abbrev pub msg_remove_from_market : ℕ
msg_remove_from_market = 0x14

abbrev pub msg_unbox_case : ℕ
msg_unbox_case = 0x80

abbrev pub msg_unbox_result : ℕ
msg_unbox_result = 0x81

-- The code that is sent where `buy_from_market` returns -n.
abbrev pub buy_error : ℕ → ℕ
buy_error n =
    if n == 1 || n == 2
    then err_item_not_found
    else if n == 3
    then err_permission_denied
    else if n == 4 || n == 6
    then err_item_not_found
    else if n == 5
    then err_no_funds
    else err_database_error

unfoldable pub handle_buy_from_market : List ℕ → M Response
handle_buy_from_market payload = with_two msg_buy_from_market payload λ user_id listing_id.
    respond msg_buy_from_market buy_error msg_buy_from_market nothing
      (buy_from_market user_id listing_id)

unfoldable pub remove_found : ℕ → ℕ → Option MarketListing → M Response
remove_found user_id listing_id none =
    pure (error_response msg_remove_from_market err_item_not_found)
remove_found user_id listing_id (some l) =
    if not (l.seller_id == user_id)
    then pure (error_response msg_remove_from_market err_permission_denied)
    else if l.is_sold
    then pure (error_response msg_remove_from_market err_invalid_request)
    else respond msg_remove_from_market negative msg_remove_from_market nothing
        (remove_listing listing_id)

unfoldable pub handle_remove_from_market : List ℕ → M Response
handle_remove_from_market payload = with_two msg_remove_from_market payload λ user_id listing_id. do
  l ← attempt (db_get_listing_v2 listing_id)
  remove_found user_id listing_id l

-- Of the result -n; the positive result is sent as it is.
abbrev pub map_unbox_error : ℕ → ℕ
map_unbox_error n =
    if n == 1
    then err_invalid_request
    else if n == 2 || n == 3
    then err_item_not_found
    else if n == err_insufficient_funds
    then err_no_funds
    else err_database_error

unfoldable pub handle_unbox_case : (ℕ → ℕ) → ℕ → List ℕ → M Response
handle_unbox_case rand rand_max payload = with_two msg_unbox_case payload λ user_id case_id.
    respond msg_unbox_case map_unbox_error msg_unbox_result of_skin
      (unbox_case rand rand_max user_id case_id)
