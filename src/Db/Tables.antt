-- ===== src/Db/Tables.antt =====
-- The tables of the schema in `db_init`, with the next AUTOINCREMENT keys.
use cs.Base.{ℕ, List}
use cs.Types.{
  SkinRarity, User, SkinInstance, TradeStatus, MarketListing, Quest, Achievement, LoginStreak,
  TransactionLog, PriceHistoryEntry, TradingChallenge, Session, Report, ChatMessage,
}
use cs.Db.Table.{Rows}

-- A row of `trades`: the skin arrays are texts.
pub record TradeRow : Type 0 where
  pub from_user_id : ℕ
  pub to_user_id : ℕ
  pub offered_skins : List ℕ
  pub offered_count : ℕ
  pub offered_cash : ℕ
  pub requested_skins : List ℕ
  pub requested_count : ℕ
  pub requested_cash : ℕ
  pub status : TradeStatus
  pub created_at : ℕ
  pub expires_at : ℕ

-- A row of `skin_definitions`; `name` is a text of codes.
pub record SkinDefinition : Type 0 where
  pub name : List ℕ
  pub base_price : ℕ
  pub rarity : SkinRarity

-- A row of `cases`: the two arrays are texts, and `possible_skins` is not used any more.
pub record CaseRow : Type 0 where
  pub name : List ℕ
  pub price : ℕ

-- `case_skins` is the list of its pairs (case_id, definition_id), and `sessions` has a text as its
-- key. `inventories` is the list of its pairs (user_id, instance_id), in order of insertion.
pub record Tables : Type 0 where
  pub users : Rows User
  pub inventories : List (ℕ × ℕ)
  pub trades : Rows TradeRow
  pub next_trade : ℕ
  pub instances : Rows SkinInstance
  pub next_instance : ℕ
  pub listings : Rows MarketListing
  pub next_listing : ℕ
  pub logs : List TransactionLog
  pub quests : Rows Quest
  pub next_quest : ℕ
  pub achievements : Rows Achievement
  pub next_achievement : ℕ
  pub streaks : Rows LoginStreak
  pub prices : List PriceHistoryEntry
  pub definitions : Rows SkinDefinition
  pub challenges : Rows TradingChallenge
  pub next_challenge : ℕ
  pub cases : Rows CaseRow
  pub case_skins : List (ℕ × ℕ)
  pub sessions : List Session
  pub next_user : ℕ
  pub reports : Rows Report
  pub next_report : ℕ
  pub messages : List ChatMessage
