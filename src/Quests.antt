-- ===== src/Quests.antt =====
-- src/server/quests.c: the five daily quests of a user.
pub mod Stays
pub mod Atomic
pub mod Claims
use cs.Base.{
  ℕ, zero, suc, ◌+◌, ◌*◌, ◌/◌, Bool, true, false, not, ◌&&◌, ◌||◌, Option, none, some, List, [],
  ◌∷◌, ltb, leb, ◌==◌, if◌then◌else◌,
}
use cs.Float.{rounded}
use cs.Types.{
  usd, User, QuestType, first_steps, market_explorer, lucky_gambler, profit_maker, social_trader,
  Quest,
}
use cs.Db.Table.{Rows}
use cs.Db.Tables.{Tables}
use cs.Db.Monad.{
  M, pure, fail, write, or_return, attempt, ◌>>=◌, ◌>>◌, return_if, clock, db_begin_transaction,
  db_commit_transaction, or_rollback,
}
use cs.Db.Users.{db_load_user, db_update_user}
use cs.Db.Rewards.{quest_index, db_load_user_quests, db_update_quest, db_save_quest}

-- The rewards of include/quests.h.
abbrev pub quest_reward : QuestType → ℕ
quest_reward first_steps = 15 * usd
quest_reward market_explorer = 10 * usd
quest_reward lucky_gambler = 25 * usd
quest_reward profit_maker = 30 * usd
quest_reward social_trader = 50 * usd

-- The targets; that of `profit_maker` is in dollars.
abbrev pub quest_target : QuestType → ℕ
quest_target first_steps = 3
quest_target market_explorer = 5
quest_target lucky_gambler = 5
quest_target profit_maker = 50
quest_target social_trader = 10

abbrev any_old : ℕ → List Quest → Bool
any_old now [] = false
any_old now (q ∷ qs) = leb (q.started_at + 86400) now || any_old now qs

abbrev needs_reset : ℕ → Option (List Quest) → Bool
needs_reset now none = true
needs_reset now (some []) = true
needs_reset now (some (q ∷ qs)) = any_old now (q ∷ qs)

unfoldable pub should_reset_quests : ℕ → M Bool
should_reset_quests user_id = if user_id == 0 then pure false else do
  quests ← attempt (db_load_user_quests user_id)
  now ← clock
  pure (needs_reset now quests)

abbrev pub drop_unclaimed : ℕ → Rows Quest → Rows Quest
drop_unclaimed user_id [] = []
drop_unclaimed user_id ((j, q) ∷ t) =
    let rest = drop_unclaimed user_id t in
    if q.user_id == user_id && not q.is_claimed then rest else (j, q) ∷ rest

-- One of the five new quests.
abbrev pub fresh_quest : ℕ → ℕ → QuestType → Quest
fresh_quest user_id now quest_type = record {
  quest_id = 0;
  user_id = user_id;
  quest_type = quest_type;
  progress = 0;
  target = quest_target quest_type;
  is_completed = false;
  is_claimed = false;
  started_at = now;
  completed_at = 0;
}

unfoldable pub save_quests : ℕ → ℕ → List QuestType → M (Unit {0})
save_quests user_id now [] = pure tt
save_quests user_id now (k ∷ ks) =
    attempt (db_save_quest (fresh_quest user_id now k)) >> save_quests user_id now ks

abbrev pub all_quests : List QuestType
all_quests = first_steps ∷ market_explorer ∷ lucky_gambler ∷ profit_maker ∷ social_trader ∷ []

-- The DELETE runs on a second connection, outside any open transaction; its failure is not noticed.
unfoldable pub init_daily_quests : ℕ → M (Unit {0})
init_daily_quests user_id = do
  return_if (user_id == 0) 1
  attempt (write λ t. some (tt, record t { quests = drop_unclaimed user_id t.quests }))
  now ← clock
  save_quests user_id now all_quests

unfoldable pub check_and_reset_daily_quests : ℕ → M (Unit {0})
check_and_reset_daily_quests user_id = do
  return_if (user_id == 0) 1
  reset ← should_reset_quests user_id
  if reset then init_daily_quests user_id else pure tt

-- The first quest of this type that is not completed.
abbrev pub find_open : QuestType → List Quest → Option Quest
find_open k [] = none
find_open k (q ∷ qs) =
    if quest_index q.quest_type == quest_index k && not q.is_completed
    then some q
    else find_open k qs

abbrev pub advance_quest : ℕ → ℕ → Quest → Quest
advance_quest now increment q =
    if leb q.target (q.progress + increment)
    then record q { progress = q.progress + increment; is_completed = true; completed_at = now }
    else record q { progress = q.progress + increment }

unfoldable pub advance_found : ℕ → Option Quest → M (Unit {0})
advance_found increment none = or_rollback 1 (fail 1)
advance_found increment (some q) = do
  now ← clock
  or_rollback 1 (db_update_quest (advance_quest now increment q))
  or_rollback 1 db_commit_transaction

unfoldable pub update_quest_progress : ℕ → QuestType → ℕ → M (Unit {0})
update_quest_progress user_id quest_type increment = do
  return_if (user_id == 0 || increment == 0) 1
  or_return 1 db_begin_transaction
  quests ← or_rollback 1 (db_load_user_quests user_id)
  advance_found increment (find_open quest_type quests)

abbrev pub find_quest : ℕ → List Quest → Option Quest
find_quest quest_id [] = none
find_quest quest_id (q ∷ qs) = if q.quest_id == quest_id then some q else find_quest quest_id qs

-- The balance is read again and compared, if it can be read.
unfoldable pub verify_balance : ℕ → Option User → M (Unit {0})
verify_balance balance none = pure tt
verify_balance balance (some u) = return_if (not (u.balance == balance)) 7

unfoldable pub claim_found : ℕ → Option Quest → M (Unit {0})
claim_found user_id none = fail 1
claim_found user_id (some q) = do
  return_if (not q.is_completed) 2
  return_if q.is_claimed 3
  u ← or_return 4 (db_load_user user_id)
  let balance = rounded (u.balance + quest_reward q.quest_type)
  or_return 5 (db_update_user (record u { balance = balance }))
  verify_user ← attempt (db_load_user user_id)
  verify_balance balance verify_user
  or_return 6 (db_update_quest (record q { is_claimed = true }))

unfoldable pub claim_quest_reward : ℕ → ℕ → M (Unit {0})
claim_quest_reward user_id quest_id = do
  return_if (user_id == 0 || quest_id == 0) 1
  quests ← or_return 1 (db_load_user_quests user_id)
  claim_found user_id (find_quest quest_id quests)

-- One round of the loop: the result of the update is not looked at.
unfoldable pub complete_quest : ℕ → Quest → M (Unit {0})
complete_quest now q =
    if not q.is_completed && leb q.target q.progress
    then attempt (db_update_quest (record q { is_completed = true; completed_at = now })) >> pure tt
    else pure tt

unfoldable pub complete_reached : List Quest → M (Unit {0})
complete_reached [] = pure tt
complete_reached (q ∷ qs) = do now ← clock; complete_quest now q; complete_reached qs

unfoldable pub complete_loaded : Option (List Quest) → M (Unit {0})
complete_loaded none = pure tt
complete_loaded (some qs) = complete_reached qs

unfoldable pub check_quest_completion : ℕ → M (Unit {0})
check_quest_completion user_id = do
  quests ← attempt (db_load_user_quests user_id)
  complete_loaded quests
