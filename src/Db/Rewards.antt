-- ===== src/Db/Rewards.antt =====
-- The rows of `quests`, `achievements` and `login_streaks`.
use cs.Base.{ℕ, suc, not, ◌&&◌, Option, none, some, List, [], ◌∷◌, ◌++◌, ◌==◌, if◌then◌else◌, take}
use cs.Types.{
  QuestType, first_steps, market_explorer, lucky_gambler, profit_maker, social_trader,
  AchievementType, first_trade, first_knife, profit_1000, trades_100, Quest, Achievement,
  LoginStreak,
}
use cs.Db.Table.{Rows, find, put, replace, has}
use cs.Db.Tables.{Tables}
use cs.Db.Monad.{M, select, write}

abbrev pub quest_index : QuestType → ℕ
quest_index first_steps = 0
quest_index market_explorer = 1
quest_index lucky_gambler = 2
quest_index profit_maker = 3
quest_index social_trader = 4

abbrev pub achievement_index : AchievementType → ℕ
achievement_index first_trade = 0
achievement_index first_knife = 1
achievement_index profit_1000 = 2
achievement_index trades_100 = 3

-- The unclaimed quests of a user of one type.
abbrev pub quests_of_type : ℕ → ℕ → Rows Quest → List Quest
quests_of_type user_id k [] = []
quests_of_type user_id k ((j, q) ∷ t) =
    if q.user_id == user_id && (not q.is_claimed && quest_index q.quest_type == k)
    then record q { quest_id = j } ∷ quests_of_type user_id k t
    else quests_of_type user_id k t

-- WHERE user_id = ? AND is_claimed = 0 ORDER BY quest_type, at most ten rows.
abbrev pub user_quests : ℕ → Rows Quest → List Quest
user_quests user_id t = take 10 (
    quests_of_type user_id 0 t
    ++ (quests_of_type user_id 1 t
        ++ (quests_of_type user_id 2 t
            ++ (quests_of_type user_id 3 t ++ quests_of_type user_id 4 t))))

unfoldable pub db_load_user_quests : ℕ → M (List Quest)
db_load_user_quests user_id = select λ t. some (user_quests user_id t.quests)

-- Only the progress and the flags are written.
abbrev pub quest_update : Quest → Option Quest → Tables → Tables
quest_update q none t = t
quest_update q (some r) t = record t {
  quests =
      put q.quest_id
        (record r {
          progress = q.progress;
          is_completed = q.is_completed;
          is_claimed = q.is_claimed;
          completed_at = q.completed_at;
        })
        t.quests;
}

unfoldable pub db_update_quest : Quest → M (Unit {0})
db_update_quest q = write λ t. some (tt, quest_update q (find q.quest_id t.quests) t)

unfoldable pub db_save_quest : Quest → M ℕ
db_save_quest q = write λ t.
    if has q.user_id t.users
    then some (
      t.next_quest,
      record t { quests = t.quests ++ ((t.next_quest, q) ∷ []); next_quest = suc t.next_quest },
    )
    else none

abbrev pub achievements_of_type : ℕ → ℕ → Rows Achievement → List Achievement
achievements_of_type user_id k [] = []
achievements_of_type user_id k ((j, a) ∷ t) =
    if a.user_id == user_id && achievement_index a.achievement_type == k
    then record a { achievement_id = j } ∷ achievements_of_type user_id k t
    else achievements_of_type user_id k t

-- ORDER BY achievement_type, at most ten rows.
abbrev pub user_achievements : ℕ → Rows Achievement → List Achievement
user_achievements user_id t = take 10 (
    achievements_of_type user_id 0 t
    ++ (achievements_of_type user_id 1 t
        ++ (achievements_of_type user_id 2 t ++ achievements_of_type user_id 3 t)))

unfoldable pub db_load_user_achievements : ℕ → M (List Achievement)
db_load_user_achievements user_id = select λ t. some (user_achievements user_id t.achievements)

-- The row of the same user and type that INSERT OR REPLACE takes away.
abbrev pub without_achievement : Achievement → Rows Achievement → Rows Achievement
without_achievement a [] = []
without_achievement a ((j, b) ∷ t) =
    let rest = without_achievement a t in
    if b.user_id == a.user_id
      && achievement_index b.achievement_type == achievement_index a.achievement_type
    then rest
    else (j, b) ∷ rest

unfoldable pub db_save_achievement : Achievement → M ℕ
db_save_achievement a = write λ t.
    if has a.user_id t.users
    then some (
      t.next_achievement,
      record t {
        achievements = without_achievement a t.achievements ++ ((t.next_achievement, a) ∷ []);
        next_achievement = suc t.next_achievement;
      },
    )
    else none

abbrev pub achievement_update : Achievement → Option Achievement → Tables → Tables
achievement_update a none t = t
achievement_update a (some r) t = record t {
  achievements =
      put a.achievement_id
        (record r {
          is_unlocked = a.is_unlocked;
          is_claimed = a.is_claimed;
          unlocked_at = a.unlocked_at;
        })
        t.achievements;
}

unfoldable pub db_update_achievement : Achievement → M (Unit {0})
db_update_achievement a =
    write λ t. some (tt, achievement_update a (find a.achievement_id t.achievements) t)

-- INSERT OR REPLACE; the user must exist.
unfoldable pub db_save_login_streak : LoginStreak → M (Unit {0})
db_save_login_streak s = write λ t.
    if has s.user_id t.users
    then some (tt, record t { streaks = replace s.user_id s t.streaks })
    else none

-- The row with its key as `user_id`.
abbrev pub streak_at : ℕ → Tables → Option LoginStreak
streak_at user_id t = elim (find user_id t.streaks) [
  | none ↦ none
  | some s ↦ some (record s { user_id = user_id })
]

unfoldable pub db_load_login_streak : ℕ → M LoginStreak
db_load_login_streak user_id = select (streak_at user_id)
