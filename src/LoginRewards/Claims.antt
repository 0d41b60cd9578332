-- ===== src/LoginRewards/Claims.antt =====
-- What a daily claim of src/server/login_rewards.c and database_sqlite.c pays, and how often.
use cs.Base.{
  ℕ, zero, suc, ◌≤◌, ◌≡◌, ◌+◌, refl, sym, ap, ◌∙◌, true, false, none, some, arith, ◌==◌, Bool-cases,
  inl, inr,
}
use cs.Float.{rounded}
use cs.Types.{User, LoginStreak}
use cs.Db.Table.{find, put, replace, find-replace_self}
use cs.Db.Tables.{Tables}
use cs.Db.Monad.{ok, err, Db}
use cs.Db.Monad.Transaction.{InTransaction-of}
use cs.Db.Monad.Atomic.{
  Done, Atomic, Atomic-begin, Atomic-bind, Closes-bind, Closes-commit, Closes-pure, Rolls-attempt,
  Rolls-clock, Rolls-or_rollback, read_rules,
}
use cs.Db.Stays.{db_stays}
use cs.LoginRewards.{
  streak_reward, paid_day, next_streak, claim_daily_reward, update_login_streak,
  db_atomic_claim_daily_reward,
}
use cs.LoginRewards.Streak.{
  healthy, after_claim, streak_of, claim_pays, claim_again, plain_pays, refusals_agree, zero_agrees,
  login_runs,
}

same_day : (n : ℕ) → (n == n) ≡ true
same_day n = ground arith

non_zero : (n : ℕ) → (suc n == 0) ≡ false
non_zero n = ground arith

next_streak_after_login :
    (today : ℕ) (s : LoginStreak)
    → 1 ≤ s.current_streak
    → next_streak today (record s { last_login_date = today }) ≡ s.current_streak
unfolding next_streak
next_streak_after_login today s h = ground arith

paid_day_of_seven : (day : ℕ) → 1 ≤ day → day ≤ 7 → paid_day day ≡ day
unfolding paid_day
paid_day_of_seven day low high = ground arith

module _ (midnight : ℕ → ℕ) where
  db_atomic_claim_daily_reward-Atomic : (u : ℕ) → Atomic (db_atomic_claim_daily_reward midnight u)
  unfolding db_atomic_claim_daily_reward
  db_atomic_claim_daily_reward-Atomic u = Atomic-bind _ _ (search read_rules) λ _.
      Atomic-begin 1 _ λ t.
        search
          (
            Closes-bind, Closes-commit, Closes-pure, Rolls-attempt, Rolls-clock, Rolls-or_rollback,
            InTransaction-of, db_stays,
          )
          depth 16

  -- Whatever statement sqlite refuses, `db_atomic_claim_daily_reward` outside a transaction ends
  -- outside one, and where it returns an error the tables are as they were.
  pub claim_atomic :
      (user_id : ℕ) (d : Db)
      → d.saved ≡ none
      → Done d.tables (db_atomic_claim_daily_reward midnight user_id d)
  claim_atomic u d i = (db_atomic_claim_daily_reward-Atomic u).at d i

  -- On a database where no statement is refused, for a user who exists, whose id is not 0 and who
  -- has not claimed today: a claim pays the reward of the next day of the streak into the balance,
  -- writes the streak and nothing else, and a second claim at any later time of the same day returns
  -- -2 and changes nothing.
  pub claim_once_a_day :
      (u now later : ℕ) (t : Tables) (user : User)
      → (u == 0) ≡ false
      → find u t.users ≡ some user
      → ((streak_of u (find u t.streaks)).last_reward_date == midnight now) ≡ false
      → midnight later ≡ midnight now
      → let s = streak_of u (find u t.streaks) in
        let day = next_streak (midnight now) s in
        let d = record (db_atomic_claim_daily_reward midnight u (healthy t now)).1 {
          now = later;
        } in
        (db_atomic_claim_daily_reward midnight u (healthy t now) ≡ (
          ok (streak_reward day, paid_day day),
          healthy
              (record t {
                users =
                    put u
                      (record user {
                        user_id = u;
                        balance = rounded (user.balance + streak_reward day);
                      })
                      t.users;
                streaks =
                    replace u
                      (record s {
                        user_id = u;
                        current_streak = paid_day day;
                        last_login_date = midnight now;
                        last_reward_date = midnight now;
                      })
                      t.streaks;
              })
              now,
        ))
        × (db_atomic_claim_daily_reward midnight u d ≡ (err 2, d))
  claim_once_a_day u now later t user h f l same =
      rw (claim_pays midnight u now t user (find u t.streaks) h f refl l) (
        refl,
        claim_again midnight u later
            (after_claim midnight u now user (streak_of u (find u t.streaks)) t).tables _ h
            (find-replace_self u _ t.streaks)
            (ap (λ day. midnight now == day) same ∙ same_day (midnight now)),
      )

  -- On a database where no statement is refused, and for a user who exists, the claim of
  -- login_rewards.c and the one of database_sqlite.c have the same result and leave the same
  -- tables.
  pub claim_equivalence :
      (u now : ℕ) (t : Tables) (user : User)
      → find u t.users ≡ some user
      → claim_daily_reward midnight u (healthy t now)
        ≡ db_atomic_claim_daily_reward midnight u (healthy t now)
  claim_equivalence zero now t user f = zero_agrees midnight now t
  claim_equivalence (suc u) now t user f =
      elim (Bool-cases
        ((streak_of (suc u) (find (suc u) t.streaks)).last_reward_date == midnight now)) [
          | inl e ↦
              refusals_agree midnight (suc u) now t (find (suc u) t.streaks) (non_zero u) refl e
          | inr e ↦
              plain_pays midnight (suc u) now t user (find (suc u) t.streaks) (non_zero u) f refl e
              ∙ sym (
                  claim_pays midnight (suc u) now t user (find (suc u) t.streaks) (non_zero u) f
                    refl e)
        ]

  -- On a database where no statement is refused, for a user who exists, whose id is not 0, whose
  -- streak is from 1 to 7 and who has not claimed today: once a login has been recorded today, a
  -- claim at any later time of the day pays the day that the streak is at, not the next one, however
  -- many days have passed, and the balance rises by the reward of that day.
  pub login_stops_streak :
      (u now later : ℕ) (t : Tables) (user : User) (s : LoginStreak)
      → (u == 0) ≡ false
      → find u t.users ≡ some user
      → find u t.streaks ≡ some s
      → (s.last_reward_date == midnight now) ≡ false
      → midnight later ≡ midnight now
      → 1 ≤ s.current_streak
      → s.current_streak ≤ 7
      → let d = (update_login_streak midnight u (healthy t now)).1 in
        let (r, d') = db_atomic_claim_daily_reward midnight u (record d { now = later }) in
        (r ≡ ok (streak_reward s.current_streak, s.current_streak))
        × (d'.tables.users
            ≡ put u
                (record user {
                  user_id = u;
                  balance = rounded (user.balance + streak_reward s.current_streak);
                })
                t.users)
  login_stops_streak u now later t user s h f e l same low high =
      let next = next_streak_after_login (midnight now) (record s { user_id = u }) low in
      rw
        (
          login_runs midnight u now t user s h f e,
          claim_pays midnight u later
              (record t {
                streaks =
                    replace u (record s { user_id = u; last_login_date = midnight now }) t.streaks;
              })
              user _ h f (find-replace_self u _ t.streaks)
              (ap (λ day. s.last_reward_date == day) same ∙ l),
          same,
          next,
          paid_day_of_seven s.current_streak low high,
        )
        (refl, refl)
