-- ===== src/Achievements.antt =====
-- src/server/achievements.c.
pub mod Stays
pub mod Atomic
use cs.Base.{
  ℕ, ◌*◌, Bool, true, false, not, ◌&&◌, ◌||◌, Option, none, some, List, [], ◌∷◌, ◌==◌,
  if◌then◌else◌, ◌+◌,
}
use cs.Float.{rounded}
use cs.Types.{usd, AchievementType, first_trade, first_knife, profit_1000, trades_100, Achievement}
use cs.Db.Monad.{
  M, pure, fail, or_return, attempt, ◌>>=◌, ◌>>◌, return_if, clock, db_begin_transaction,
  db_commit_transaction, db_rollback_transaction, or_rollback,
}
use cs.Db.Users.{db_load_user, db_update_user}
use cs.Db.Rewards.{
  achievement_index, db_load_user_achievements, db_save_achievement, db_update_achievement,
}

-- The rewards of include/achievements.h.
abbrev pub achievement_reward : AchievementType → ℕ
achievement_reward first_trade = 20 * usd
achievement_reward first_knife = 500 * usd
achievement_reward profit_1000 = 100 * usd
achievement_reward trades_100 = 200 * usd

abbrev pub any_unlocked : AchievementType → List Achievement → Bool
any_unlocked k [] = false
any_unlocked k (a ∷ l) =
    achievement_index a.achievement_type == achievement_index k && a.is_unlocked || any_unlocked k l

-- A list that cannot be read counts as one without the achievement.
abbrev already_unlocked : AchievementType → Option (List Achievement) → Bool
already_unlocked k none = false
already_unlocked k (some l) = any_unlocked k l

abbrev new_achievement : ℕ → AchievementType → ℕ → Achievement
new_achievement user_id achievement_type now = record {
  achievement_id = 0;
  user_id = user_id;
  achievement_type = achievement_type;
  is_unlocked = true;
  is_claimed = false;
  unlocked_at = now;
}

-- The rest of the transaction, once the list has been searched.
unfoldable pub unlock_unless : Bool → Achievement → M (Unit {0})
unlock_unless true a = attempt db_rollback_transaction >> pure tt
unlock_unless false a = or_rollback 1 (db_save_achievement a) >> or_rollback 1 db_commit_transaction

unfoldable pub unlock_achievement : ℕ → AchievementType → M (Unit {0})
unlock_achievement user_id achievement_type = do
  return_if (user_id == 0) 1
  or_return 1 db_begin_transaction
  l ← attempt (db_load_user_achievements user_id)
  now ← clock
  unlock_unless (already_unlocked achievement_type l) (new_achievement user_id achievement_type now)

abbrev pub find_achievement : ℕ → List Achievement → Option Achievement
find_achievement achievement_id [] = none
find_achievement achievement_id (a ∷ l) =
    if a.achievement_id == achievement_id then some a else find_achievement achievement_id l

unfoldable pub claim_found : ℕ → Option Achievement → M (Unit {0})
claim_found user_id none = fail 1
claim_found user_id (some a) = do
  return_if (not a.is_unlocked) 2
  return_if a.is_claimed 3
  u ← or_return 4 (db_load_user user_id)
  or_return 5 (
      db_update_user
        (record u { balance = rounded (u.balance + achievement_reward a.achievement_type) }))
  or_return 6 (db_update_achievement (record a { is_claimed = true }))

unfoldable pub claim_achievement_reward : ℕ → ℕ → M (Unit {0})
claim_achievement_reward user_id achievement_id = do
  return_if (user_id == 0 || achievement_id == 0) 1
  l ← or_return 1 (db_load_user_achievements user_id)
  claim_found user_id (find_achievement achievement_id l)
