-- ===== src/Requests/Lists.antt =====
-- The cases that send a list: quests, achievements, challenges, prices and chat messages.
use cs.Base.{ℕ, ◌||◌, Option, none, some, List, [], ◌∷◌, ltb, ◌==◌, if◌then◌else◌}
use cs.Types.{Quest, Achievement, TradingChallenge, PriceHistoryEntry, MarketListing}
use cs.Db.Table.{Rows}
use cs.Db.Monad.{M, pure, fail, attempt, ◌>>=◌}
use cs.Db.Rewards.{db_load_user_achievements}
use cs.Market.{get_market_listings, get_user_listing_history}
use cs.Challenges.{get_user_challenges}
use cs.PriceTracking.{get_price_history_24h, get_price_trend}
use cs.Chat.{get_recent_chat_messages}
use cs.Auth.{err_database_error}
use cs.Requests.{
  err_item_not_found, no_data, of_challenges, of_quests, of_achievements, of_prices, of_trend,
  of_listings, of_messages, Response, success_response, respond, as_id, with_one,
}
use cs.Requests.Scan.{to_int, scan_number, number_of}
use cs.Requests.Rewards.{get_user_quests}

abbrev pub msg_market_data : ℕ
msg_market_data = 0x11

abbrev pub msg_get_market_history : ℕ
msg_get_market_history = 0x1b

abbrev pub msg_market_history_data : ℕ
msg_market_history_data = 0x1c

abbrev pub msg_get_price_history : ℕ
msg_get_price_history = 0x17

abbrev pub msg_price_history_data : ℕ
msg_price_history_data = 0x18

abbrev pub msg_get_price_trend : ℕ
msg_get_price_trend = 0x19

abbrev pub msg_price_trend_data : ℕ
msg_price_trend_data = 0x1a

abbrev pub msg_get_user_challenges : ℕ
msg_get_user_challenges = 0x4e

abbrev pub msg_user_challenges_data : ℕ
msg_user_challenges_data = 0x4f

abbrev pub msg_get_chat_history : ℕ
msg_get_chat_history = 0x63

abbrev pub msg_chat_history_data : ℕ
msg_chat_history_data = 0x64

abbrev pub msg_get_quests : ℕ
msg_get_quests = 0x70

abbrev pub msg_quests_data : ℕ
msg_quests_data = 0x71

abbrev pub msg_get_achievements : ℕ
msg_get_achievements = 0x73

abbrev pub msg_achievements_data : ℕ
msg_achievements_data = 0x74

-- A list that cannot be read is sent as an empty one.
abbrev quests_response : Option (List Quest) → Response
quests_response none = success_response msg_quests_data no_data
quests_response (some l) = success_response msg_quests_data (of_quests l)

unfoldable pub handle_get_quests : List ℕ → M Response
handle_get_quests payload =
    with_one msg_get_quests payload
      λ user_id. do l ← attempt (get_user_quests user_id); pure (quests_response l)

unfoldable pub get_user_achievements : ℕ → M (List Achievement)
get_user_achievements user_id = if user_id == 0 then fail 1 else db_load_user_achievements user_id

abbrev achievements_response : Option (List Achievement) → Response
achievements_response none = success_response msg_achievements_data no_data
achievements_response (some l) = success_response msg_achievements_data (of_achievements l)

unfoldable pub handle_get_achievements : List ℕ → M Response
handle_get_achievements payload =
    with_one msg_get_achievements payload
      λ user_id. do l ← attempt (get_user_achievements user_id); pure (achievements_response l)

abbrev challenges_response : Option (List TradingChallenge) → Response
challenges_response none = success_response msg_user_challenges_data no_data
challenges_response (some []) = success_response msg_user_challenges_data no_data
challenges_response (some (c ∷ l)) =
    success_response msg_user_challenges_data (of_challenges (c ∷ l))

unfoldable pub handle_get_user_challenges : List ℕ → M Response
handle_get_user_challenges payload =
    with_one msg_get_user_challenges payload
      λ user_id. do l ← attempt (get_user_challenges user_id); pure (challenges_response l)

abbrev prices_response : Option (List PriceHistoryEntry) → Response
prices_response none = success_response msg_price_history_data no_data
prices_response (some []) = success_response msg_price_history_data no_data
prices_response (some (e ∷ l)) = success_response msg_price_history_data (of_prices (e ∷ l))

unfoldable pub handle_get_price_history : List ℕ → M Response
handle_get_price_history payload =
    with_one msg_get_price_history payload λ definition_id. do
      l ← attempt (get_price_history_24h definition_id)
      pure (prices_response l)

unfoldable pub handle_get_price_trend : List ℕ → M Response
handle_get_price_trend payload = with_one msg_get_price_trend payload λ definition_id.
    respond msg_get_price_trend (λ _. err_item_not_found) msg_price_trend_data of_trend
      (get_price_trend definition_id)

-- `atoi`, 0 where there is no number, and the default of 50.
abbrev pub history_limit : Option ℕ → ℕ
history_limit none = 50
history_limit (some n) = if as_id n == 0 || ltb 100 (as_id n) then 50 else n

unfoldable pub handle_get_chat_history : List ℕ → M Response
handle_get_chat_history payload =
    respond msg_get_chat_history (λ _. err_database_error) msg_chat_history_data of_messages
      (get_recent_chat_messages (history_limit (number_of (scan_number to_int payload))))

abbrev listings_response : ℕ → Option (Rows MarketListing) → Response
listings_response response none = success_response response no_data
listings_response response (some []) = success_response response no_data
listings_response response (some (e ∷ l)) = success_response response (of_listings (e ∷ l))

unfoldable pub handle_get_market_listings : M Response
handle_get_market_listings = do
  l ← attempt get_market_listings
  pure (listings_response msg_market_data l)

unfoldable pub handle_get_market_history : List ℕ → M Response
handle_get_market_history payload = with_one msg_get_market_history payload λ user_id. do
  l ← attempt (get_user_listing_history user_id)
  pure (listings_response msg_market_history_data l)
