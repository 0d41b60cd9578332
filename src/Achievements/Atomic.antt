-- ===== src/Achievements/Atomic.antt =====
-- The transaction of `unlock_achievement` in src/server/achievements.c.
use cs.Base.{arith, ℕ, ◌≡◌, Bool, true, false, none, some}
use cs.Types.{AchievementType, Achievement}
use cs.Db.Tables.{Tables}
use cs.Db.Monad.{
  err, Db, or_return, return_if, attempt, pure, db_begin_transaction, db_rollback_transaction,
  ◌>>=◌,
}
use cs.Db.Monad.Transaction.{InTransaction-of}
use cs.Db.Monad.Atomic.{
  Done, Closes, Closes-bind, Closes-commit, Rolls-or_rollback, Rolls-attempt, Rolls-clock, Atomic,
  Atomic-begin, Atomic-bind, ReadOnly-return_if,
}
use cs.Db.Stays.{db_stays}
use cs.Achievements.{unlock_unless, unlock_achievement}

module _ {t : Tables} where
  unlock_unless-Closes : (b : Bool) (a : Achievement) → Closes t (unlock_unless b a)
  unfolding unlock_unless attempt db_rollback_transaction ◌>>=◌ pure
  unlock_unless-Closes true a = record { at = λ d i. ground arith }
  unlock_unless-Closes false a =
      search (Closes-bind, Closes-commit, Rolls-or_rollback, InTransaction-of, db_stays)

pub unlock_achievement-Atomic : (u : ℕ) (k : AchievementType) → Atomic (unlock_achievement u k)
unfolding unlock_achievement
unlock_achievement-Atomic u k = Atomic-bind _ _ (ReadOnly-return_if _ 1) λ _. Atomic-begin 1 _ λ t.
    Closes-bind _ _ (search (Rolls-attempt, db_stays))
      λ l. Closes-bind _ _ Rolls-clock λ now. unlock_unless-Closes _ _

-- Whatever statement sqlite refuses, `unlock_achievement` outside a transaction ends outside one,
-- and where it returns an error the tables are as they were.
pub unlock_achievement_atomic :
    (user_id : ℕ) (achievement_type : AchievementType) (d : Db)
    → d.saved ≡ none
    → Done d.tables (unlock_achievement user_id achievement_type d)
unlock_achievement_atomic u k d i = (unlock_achievement-Atomic u k).at d i

-- Inside a transaction of its caller, `unlock_achievement` returns -1 and leaves the tables
-- as they are.
pub unlock_achievement_in_transaction :
    (user_id : ℕ) (achievement_type : AchievementType) (d : Db) (t : Tables)
    → d.saved ≡ some t
    → ((unlock_achievement user_id achievement_type d).0 ≡ err 1)
      × ((unlock_achievement user_id achievement_type d).1.tables ≡ d.tables)
unfolding unlock_achievement return_if or_return db_begin_transaction ◌>>=◌
unlock_achievement_in_transaction u k d t i = ground arith
