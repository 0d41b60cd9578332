-- ===== src/Quests/Claims.antt =====
-- What a claim of a quest's reward pays.
use cs.Base.{ℕ, ◌+◌, ◌≡◌, refl, Bool, true, false, not, ◌||◌, none, some, [], ◌∷◌, ◌==◌, arith}
use cs.Float.{rounded}
use cs.Types.{User, Quest}
use cs.Db.Table.{find, put, find-put_self}
use cs.Db.Tables.{Tables}
use cs.Db.Monad.{err, Db, select, write, pure, or_return, attempt, ◌>>=◌, return_if}
use cs.Db.Users.{db_load_user, db_update_user}
use cs.Db.Rewards.{user_quests, db_load_user_quests, db_update_quest}
use cs.Quests.{quest_reward, find_quest, verify_balance, claim_found, claim_quest_reward}

-- The tables with the reward paid to the user.
abbrev pub rewarded : ℕ → User → Quest → Tables → Tables
rewarded u user q t = record t {
  users =
      put u
        (record user { user_id = u; balance = rounded (user.balance + quest_reward q.quest_type) })
        t.users;
}

-- The statements of a claim, and whether the last one is refused.
abbrev pub claiming : Bool → Tables → ℕ → Db
claiming refused t now = record {
  tables = t;
  saved = none;
  now = now;
  faults = false ∷ false ∷ false ∷ false ∷ refused ∷ [];
}

same_balance : (n : ℕ) → not (n == n) ≡ false
same_balance n = ground arith

module _ (u k now : ℕ) (t : Tables) (user : User) (q : Quest) (ids : u == 0 || k == 0 ≡ false)
    (listed : find_quest k (user_quests u t.quests) ≡ some q) (done : q.is_completed ≡ true)
    (unclaimed : q.is_claimed ≡ false) (known : find u t.users ≡ some user) where
  -- For a user who exists and a quest of the user that is completed and not claimed: where sqlite
  -- refuses the last statement of `claim_quest_reward` and no other, the call returns -6, and the
  -- tables are those before with the reward paid, the quest still unclaimed.
  pub claim_failure_keeps_reward :
      claim_quest_reward u k (claiming true t now)
      ≡ (err 6, record (claiming true (rewarded u user q t) now) { faults = [] })
  unfolding claim_quest_reward claim_found verify_balance ◌>>=◌ return_if or_return attempt select
      write pure db_load_user db_update_user db_load_user_quests db_update_quest
  claim_failure_keeps_reward =
      let found_again =
        find-put_self u
          (record user {
            user_id = u;
            balance = rounded (user.balance + quest_reward q.quest_type);
          })
          user t.users known in
      rw (ids, listed, done, unclaimed, known, found_again, same_balance) refl
