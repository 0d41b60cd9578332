-- ===== src/Types.antt =====
-- The structures of include/types.h and the constants of the headers. Ids, counts and times are
-- naturals; an amount of money, a `float`, is a natural number of 2^-149 dollars.
use cs.Base.{ℕ, ◌*◌, ◌^◌, Bool, List, ltb, if◌then◌else◌, ℤ}

-- One dollar in the unit of every amount, which is the least positive `float`.
abbrev pub usd : ℕ
usd = 2 ^ 149

abbrev pub day_seconds : ℕ
day_seconds = 24 * 3600

pub data SkinRarity : Type 0 where
  consumer industrial mil_spec restricted classified covert contraband : SkinRarity

-- The order of the C enumeration.
abbrev pub rarity_index : SkinRarity → ℕ
rarity_index consumer = 0
rarity_index industrial = 1
rarity_index mil_spec = 2
rarity_index restricted = 3
rarity_index classified = 4
rarity_index covert = 5
rarity_index contraband = 6

pub data WearConditionName : Type 0 where
  wear_fn wear_mw wear_ft wear_ww wear_bs : WearConditionName

pub data TradeStatus : Type 0 where
  trade_pending trade_accepted trade_declined trade_cancelled trade_expired : TradeStatus

pub data LogType : Type 0 where
  log_login log_trade log_unbox log_market_buy log_market_sell : LogType

pub data QuestType : Type 0 where
  first_steps market_explorer lucky_gambler profit_maker social_trader : QuestType

pub data AchievementType : Type 0 where
  first_trade first_knife profit_1000 trades_100 : AchievementType

-- A user's row; `username` and `password_hash` are texts of codes.
pub record User : Type 0 where
  pub user_id : ℕ
  pub username : List ℕ
  pub password_hash : List ℕ
  pub balance : ℕ
  pub created_at : ℕ
  pub last_login : ℕ
  pub is_banned : Bool

-- The columns that `db_load_skin_instance` returns. A wear is in units of 10^-10.
pub record SkinInstance : Type 0 where
  pub definition_id : ℕ
  pub rarity : SkinRarity
  pub wear : ℕ
  pub pattern_seed : ℕ
  pub is_stattrak : Bool
  pub owner_id : ℕ
  pub acquired_at : ℕ
  pub is_tradable : Bool

-- What a client is shown of an instance.
pub record Skin : Type 0 where
  pub skin_id : ℕ
  pub name : List ℕ
  pub rarity : SkinRarity
  pub wear : ℕ
  pub pattern_seed : ℕ
  pub is_stattrak : Bool
  pub base_price : ℕ
  pub current_price : ℕ
  pub owner_id : ℕ
  pub acquired_at : ℕ
  pub is_tradable : Bool

-- An entry of a skin array comes from the client and may be negative.
pub record TradeOffer : Type 0 where
  pub trade_id : ℕ
  pub from_user_id : ℕ
  pub to_user_id : ℕ
  pub offered_skins : List ℤ
  pub offered_cash : ℕ
  pub requested_skins : List ℤ
  pub requested_cash : ℕ
  pub status : TradeStatus
  pub created_at : ℕ
  pub expires_at : ℕ

pub record MarketListing : Type 0 where
  pub seller_id : ℕ
  pub instance_id : ℕ
  pub price : ℕ
  pub listed_at : ℕ
  pub is_sold : Bool

pub record Quest : Type 0 where
  pub quest_id : ℕ
  pub user_id : ℕ
  pub quest_type : QuestType
  pub progress : ℕ
  pub target : ℕ
  pub is_completed : Bool
  pub is_claimed : Bool
  pub started_at : ℕ
  pub completed_at : ℕ

pub record Achievement : Type 0 where
  pub achievement_id : ℕ
  pub user_id : ℕ
  pub achievement_type : AchievementType
  pub is_unlocked : Bool
  pub is_claimed : Bool
  pub unlocked_at : ℕ

pub record LoginStreak : Type 0 where
  pub user_id : ℕ
  pub current_streak : ℕ
  pub last_login_date : ℕ
  pub last_reward_date : ℕ

-- What a log row is about; the text of `details` is these numbers in a sentence.
pub record TransactionLog : Type 0 where
  pub type : LogType
  pub user_id : ℕ
  pub details : List ℕ
  pub timestamp : ℕ

-- A row of price_history; `transaction_type` is 0 for a buy and 1 for a sale.
pub record PriceHistoryEntry : Type 0 where
  pub definition_id : ℕ
  pub price : ℕ
  pub timestamp : ℕ
  pub transaction_type : ℕ

pub record Session : Type 0 where
  pub session_token : List ℕ
  pub user_id : ℕ
  pub login_time : ℕ
  pub last_activity : ℕ
  pub is_active : Bool

pub record Report : Type 0 where
  pub reporter_id : ℕ
  pub reported_id : ℕ
  pub reason : List ℕ
  pub created_at : ℕ
  pub is_resolved : Bool

pub record ChatMessage : Type 0 where
  pub user_id : ℕ
  pub username : List ℕ
  pub message : List ℕ
  pub timestamp : ℕ

pub data ChallengeType : Type 0 where
  profit_race : ChallengeType

pub data ChallengeStatus : Type 0 where
  challenge_pending challenge_active challenge_completed challenge_cancelled : ChallengeStatus

-- A profit is signed.
pub record TradingChallenge : Type 0 where
  pub challenge_id : ℕ
  pub challenger_id : ℕ
  pub opponent_id : ℕ
  pub type : ChallengeType
  pub status : ChallengeStatus
  pub challenger_start_balance : ℕ
  pub opponent_start_balance : ℕ
  pub challenger_current_profit : ℤ
  pub opponent_current_profit : ℤ
  pub start_time : ℕ
  pub end_time : ℕ
  pub duration_minutes : ℕ
  pub challenger_cancel_vote : Bool
  pub opponent_cancel_vote : Bool

-- A wear of `n` hundredths.
abbrev pub hundredths : ℕ → ℕ
hundredths n = n * 100000000

-- `get_wear_condition`, on a wear in units of 10^-10.
abbrev pub get_wear_condition : ℕ → WearConditionName
get_wear_condition w =
    if ltb w (hundredths 7)
    then wear_fn
    else if ltb w (hundredths 15)
    then wear_mw
    else if ltb w (hundredths 37)
    then wear_ft
    else if ltb w (hundredths 45)
    then wear_ww
    else wear_bs
