-- ===== src/Requests.antt =====
-- src/server/request_handler.c: what the server does for a request and what it answers. A case of
-- a `handle_` function is a function of its own; the text of a payload ends where a zero or the
-- payload does.
pub mod Scan
pub mod Market
pub mod Trades
pub mod Rewards
pub mod Races
pub mod Accounts
pub mod Lists
pub mod Tells
pub mod Answers
use cs.Base.{ℕ, ◌-◌, Option, none, some, List, [], ◌∷◌, ltb, ◌==◌, if◌then◌else◌}
use cs.Types.{
  User, Skin, MarketListing, TradingChallenge, Quest, Achievement, PriceHistoryEntry, ChatMessage,
}
use cs.PriceTracking.{PriceTrend}
use cs.Db.Table.{Rows}
use cs.Db.Monad.{Result, ok, err, Db, M, pure, ◌>>=◌}
use cs.Requests.Scan.{scan_one, scan_two}

abbrev pub err_no_funds : ℕ
err_no_funds = 3

abbrev pub err_item_not_found : ℕ
err_item_not_found = 4

abbrev pub err_permission_denied : ℕ
err_permission_denied = 5

abbrev pub err_invalid_request : ℕ
err_invalid_request = 12

-- The bytes of a response: a structure is sent as the machine stores it.
pub data Body : Type 0 where
  no_data : Body
  of_number : ℕ → Body
  of_text : List ℕ → Body
  of_user : User → Body
  of_inventory : ℕ → List ℕ → Body
  of_skin : Skin → Body
  of_challenge : TradingChallenge → Body
  of_challenges : List TradingChallenge → Body
  of_quests : List Quest → Body
  of_achievements : List Achievement → Body
  of_prices : List PriceHistoryEntry → Body
  of_trend : PriceTrend → Body
  of_listings : Rows MarketListing → Body
  of_messages : List ChatMessage → Body

-- `create_error_response` and `create_success_response`
pub data Response : Type 0 where
  error_response : ℕ → ℕ → Response
  success_response : ℕ → Body → Response

module _ {A : Type 0} where
  abbrev pub returned : Result A × Db → Result (Result A) × Db
  returned (r, d) = (ok r, d)

  -- A call whose result decides on the response.
  unfoldable pub outcome : M A → M (Result A)
  outcome m d = returned (m d)

  -- The response to a request of this type, where `m` succeeds and where it fails.
  abbrev pub answer : ℕ → (ℕ → ℕ) → ℕ → (A → Body) → Result A → Response
  answer request code response body (ok a) = success_response response (body a)
  answer request code response body (err n) = error_response request (code n)

  unfoldable pub respond : ℕ → (ℕ → ℕ) → ℕ → (A → Body) → M A → M Response
  respond request code response body m = do
    r ← outcome m
    pure (answer request code response body r)

-- A negative result that is sent as an `uint32_t`.
abbrev pub negative : ℕ → ℕ
negative n = 4294967296 - n

abbrev pub nothing : {A : Type 0} → A → Body
nothing _ = no_data

-- The cast `(int)`. A negative id is of no row, and is read as 0.
abbrev pub as_id : ℕ → ℕ
as_id n = if ltb n 2147483648 then n else 0

abbrev if_one : ℕ → (ℕ → M Response) → Option ℕ → M Response
if_one request f none = pure (error_response request err_invalid_request)
if_one request f (some u) = f (as_id u)

-- `sscanf(payload, "%u", ...)`
unfoldable pub with_one : ℕ → List ℕ → (ℕ → M Response) → M Response
with_one request payload f = if_one request f (scan_one payload)

abbrev if_two : ℕ → (ℕ → ℕ → M Response) → Option (ℕ × ℕ) → M Response
if_two request f none = pure (error_response request err_invalid_request)
if_two request f (some (u, v)) = f (as_id u) (as_id v)

-- `sscanf(payload, "%u:%u", ...)`
unfoldable pub with_two : ℕ → List ℕ → (ℕ → ℕ → M Response) → M Response
with_two request payload f = if_two request f (scan_two payload)
