-- ===== src/LoginRewards.antt =====
-- src/server/login_rewards.c, and `db_atomic_claim_daily_reward` of database_sqlite.c. The last
-- midnight before a time, by `localtime` and `mktime`, is the argument `midnight`.
pub mod Streak
pub mod Claims
use cs.Base.{
  ℕ, suc, ◌+◌, ◌-◌, ◌*◌, ◌/◌, Bool, true, false, ◌&&◌, Option, none, some, ltb, ◌==◌, if◌then◌else◌,
}
use cs.Float.{rounded}
use cs.Types.{usd, day_seconds, LoginStreak}
use cs.Db.Monad.{
  M, pure, fail, or_return, attempt, ◌>>=◌, ◌>>◌, return_if, clock, db_begin_transaction,
  db_commit_transaction, or_rollback,
}
use cs.Db.Users.{db_load_user, db_update_user}
use cs.Db.Rewards.{db_save_login_streak, db_load_login_streak}

-- The rewards of include/login_rewards.h; `default` is the reward of day 1.
unfoldable pub streak_reward : ℕ → ℕ
streak_reward day =
    if day == 1
    then 5 * usd
    else if day == 2
    then 8 * usd
    else if day == 3
    then 12 * usd
    else if day == 4
    then 15 * usd
    else if day == 5
    then 20 * usd
    else if day == 6
    then 25 * usd
    else if day == 7
    then 50 * usd
    else 5 * usd

-- The day of the streak that is paid: `default` sets it to 1.
unfoldable pub paid_day : ℕ → ℕ
paid_day day = if ltb 0 day && ltb day 8 then day else 1

-- `days_diff` is 0 also where the last login lies in the future.
abbrev pub days_diff : ℕ → ℕ → ℕ
days_diff today last_login_date = (today - last_login_date) / day_seconds

unfoldable pub next_streak : ℕ → LoginStreak → ℕ
next_streak today s =
    if days_diff today s.last_login_date == 1
    then (if ltb 7 (s.current_streak + 1) then 1 else s.current_streak + 1)
    else if ltb 1 (days_diff today s.last_login_date)
    then 1
    else if s.current_streak == 0
    then 1
    else s.current_streak

abbrev pub new_streak : ℕ → LoginStreak
new_streak user_id = record {
  user_id = user_id;
  current_streak = 0;
  last_login_date = 0;
  last_reward_date = 0;
}

abbrev pub or_new : ℕ → Option LoginStreak → LoginStreak
or_new user_id none = new_streak user_id
or_new user_id (some s) = s

unfoldable pub get_login_streak : ℕ → M LoginStreak
get_login_streak user_id = do
  return_if (user_id == 0) 1
  s ← attempt (db_load_login_streak user_id)
  pure (or_new user_id s)

module _ (midnight : ℕ → ℕ) where
  -- The result is the reward and the day of the streak.
  unfoldable pub claim_daily_reward : ℕ → M (ℕ × ℕ)
  claim_daily_reward user_id = do
    return_if (user_id == 0) 1
    s ← or_return 1 (get_login_streak user_id)
    now ← clock
    let today = midnight now
    return_if (s.last_reward_date == today) 2
    let day = next_streak today s
    u ← or_return 3 (db_load_user user_id)
    or_return 4 (db_update_user (record u { balance = rounded (u.balance + streak_reward day) }))
    or_return 5 (
        db_save_login_streak (record s {
          current_streak = paid_day day;
          last_login_date = today;
          last_reward_date = today;
        }))
    pure (streak_reward day, paid_day day)

  unfoldable pub update_login_streak : ℕ → M (Unit {0})
  update_login_streak user_id = do
    return_if (user_id == 0) 1
    s ← or_return 1 (get_login_streak user_id)
    now ← clock
    db_save_login_streak (record s { last_login_date = midnight now })

  unfoldable pub db_atomic_claim_daily_reward : ℕ → M (ℕ × ℕ)
  db_atomic_claim_daily_reward user_id = do
    return_if (user_id == 0) 1
    or_return 1 db_begin_transaction
    loaded ← attempt (db_load_login_streak user_id)
    let s = or_new user_id loaded
    now ← clock
    let today = midnight now
    or_rollback 2 (return_if (s.last_reward_date == today) 2)
    let day = next_streak today s
    u ← or_rollback 1 (db_load_user user_id)
    or_rollback 1 (db_update_user (record u { balance = rounded (u.balance + streak_reward day) }))
    or_rollback 1 (
        db_save_login_streak (record s {
          current_streak = paid_day day;
          last_login_date = today;
          last_reward_date = today;
        }))
    or_rollback 1 db_commit_transaction
    pure (streak_reward day, paid_day day)
