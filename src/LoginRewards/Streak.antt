-- ===== src/LoginRewards/Streak.antt =====
-- The day of the streak and the rewards of src/server/login_rewards.c.
use cs.Base.{ℕ, ◌+◌, ◌≤◌, ◌≡◌, refl, true, false, Option, none, some, [], arith, ◌==◌}
use cs.Float.{rounded}
use cs.Types.{User, LoginStreak}
use cs.Db.Table.{find, put, replace, has-put}
use cs.Db.Tables.{Tables}
use cs.Db.Monad.{
  ok, err, Db, pure, or_return, attempt, select, write, ◌>>=◌, return_if, clock,
  db_begin_transaction, db_commit_transaction, db_rollback_transaction, or_rollback_by,
}
use cs.Db.Users.{db_load_user, db_update_user}
use cs.Db.Rewards.{db_save_login_streak, db_load_login_streak}
use cs.LoginRewards.{
  streak_reward, paid_day, next_streak, new_streak, get_login_streak, claim_daily_reward,
  update_login_streak, db_atomic_claim_daily_reward,
}

-- A database in which no statement is refused and no transaction is open.
abbrev pub healthy : Tables → ℕ → Db
healthy t now = record { tables = t; saved = none; now = now; faults = [] }

-- From a streak of at most seven days, the day that is paid is one of the seven.
pub next_streak-bounds :
    (today : ℕ) (s : LoginStreak)
    → s.current_streak ≤ 7
    → (1 ≤ next_streak today s) × (next_streak today s ≤ 7)
unfolding next_streak
next_streak-bounds today s h = ground arith

-- What a claim that succeeds does to the tables.
abbrev pub claimed : ℕ → ℕ → ℕ → User → LoginStreak → Tables → Tables
claimed u day today user s t = record t {
  users =
      put u (record user { user_id = u; balance = rounded (user.balance + streak_reward day) })
        t.users;
  streaks =
      replace u
        (record s {
          user_id = u;
          current_streak = paid_day day;
          last_login_date = today;
          last_reward_date = today;
        })
        t.streaks;
}

-- The streak that the functions work on, for the row of the user.
abbrev pub streak_of : ℕ → Option LoginStreak → LoginStreak
streak_of u none = new_streak u
streak_of u (some s) = record s { user_id = u }

module _ (midnight : ℕ → ℕ) where
  -- The state after a claim that pays.
  abbrev pub after_claim : ℕ → ℕ → User → LoginStreak → Tables → Db
  after_claim u now user s t =
      healthy (claimed u (next_streak (midnight now) s) (midnight now) user s t) now

  pub claim_pays :
      (u now : ℕ) (t : Tables) (user : User) (o : Option LoginStreak)
      → (u == 0) ≡ false
      → find u t.users ≡ some user
      → find u t.streaks ≡ o
      → ((streak_of u o).last_reward_date == midnight now) ≡ false
      → db_atomic_claim_daily_reward midnight u (healthy t now) ≡ (
        ok (
          streak_reward (next_streak (midnight now) (streak_of u o)),
          paid_day (next_streak (midnight now) (streak_of u o)),
        ),
        after_claim u now user (streak_of u o) t,
      )
  unfolding db_atomic_claim_daily_reward ◌>>=◌ return_if or_return or_rollback_by attempt clock
      db_begin_transaction db_commit_transaction db_load_user db_update_user db_load_login_streak
      db_save_login_streak select write pure
  claim_pays u now t user none h f e l = rw (h, e, l, f, has-put, f) refl
  claim_pays u now t user (some s) h f e l = rw (h, e, l, f, has-put, f) refl

  -- A second claim on the same day.
  pub claim_again :
      (u now : ℕ) (t : Tables) (s : LoginStreak)
      → (u == 0) ≡ false
      → find u t.streaks ≡ some s
      → (s.last_reward_date == midnight now) ≡ true
      → db_atomic_claim_daily_reward midnight u (healthy t now) ≡ (err 2, healthy t now)
  unfolding db_atomic_claim_daily_reward ◌>>=◌ return_if or_return or_rollback_by attempt clock
      db_begin_transaction db_rollback_transaction db_load_login_streak select
  claim_again u now t s h e l = rw (h, e, l) refl

  pub plain_pays :
      (u now : ℕ) (t : Tables) (user : User) (o : Option LoginStreak)
      → (u == 0) ≡ false
      → find u t.users ≡ some user
      → find u t.streaks ≡ o
      → ((streak_of u o).last_reward_date == midnight now) ≡ false
      → claim_daily_reward midnight u (healthy t now) ≡ (
        ok (
          streak_reward (next_streak (midnight now) (streak_of u o)),
          paid_day (next_streak (midnight now) (streak_of u o)),
        ),
        after_claim u now user (streak_of u o) t,
      )
  unfolding claim_daily_reward ◌>>=◌ return_if or_return attempt clock get_login_streak db_load_user
      db_update_user db_load_login_streak db_save_login_streak select write pure
  plain_pays u now t user none h f e l = rw (h, e, l, f, has-put, f) refl
  plain_pays u now t user (some s) h f e l = rw (h, e, l, f, has-put, f) refl

  pub refusals_agree :
      (u now : ℕ) (t : Tables) (o : Option LoginStreak)
      → (u == 0) ≡ false
      → find u t.streaks ≡ o
      → ((streak_of u o).last_reward_date == midnight now) ≡ true
      → claim_daily_reward midnight u (healthy t now)
        ≡ db_atomic_claim_daily_reward midnight u (healthy t now)
  unfolding claim_daily_reward db_atomic_claim_daily_reward ◌>>=◌ return_if or_return or_rollback_by
      attempt clock get_login_streak db_begin_transaction db_rollback_transaction
      db_load_login_streak select pure
  refusals_agree u now t none h e l = rw (h, e, l) refl
  refusals_agree u now t (some s) h e l = rw (h, e, l) refl

  pub zero_agrees :
      (now : ℕ) (t : Tables)
      → claim_daily_reward midnight 0 (healthy t now)
        ≡ db_atomic_claim_daily_reward midnight 0 (healthy t now)
  unfolding claim_daily_reward db_atomic_claim_daily_reward ◌>>=◌ return_if
  zero_agrees now t = refl

  pub login_runs :
      (u now : ℕ) (t : Tables) (user : User) (s : LoginStreak)
      → (u == 0) ≡ false
      → find u t.users ≡ some user
      → find u t.streaks ≡ some s
      → (update_login_streak midnight u (healthy t now)).1
        ≡ healthy
            (record t {
              streaks =
                  replace u (record s { user_id = u; last_login_date = midnight now }) t.streaks;
            })
            now
  unfolding update_login_streak ◌>>=◌ return_if or_return attempt clock get_login_streak
      db_load_login_streak db_save_login_streak select write pure
  login_runs u now t user s h f e = rw (h, e, f) refl
