-- ===== src/Quests/Atomic.antt =====
-- The transactions of src/server/quests.c.
use cs.Base.{arith, ℕ, ◌≡◌, Option, none, some}
use cs.Types.{QuestType, Quest}
use cs.Db.Tables.{Tables}
use cs.Db.Monad.{err, Db, or_return, return_if, db_begin_transaction, ◌>>=◌}
use cs.Db.Monad.Transaction.{InTransaction-of}
use cs.Db.Monad.Atomic.{
  Done, Closes, Closes-fail, Closes-bind, Closes-commit, Rolls-or_rollback, Rolls-clock, Atomic,
  Atomic-begin, Atomic-bind, ReadOnly-return_if,
}
use cs.Db.Stays.{db_stays}
use cs.Quests.{find_open, advance_found, update_quest_progress}

module _ {t : Tables} where
  advance_found-Closes : (n : ℕ) (q : Option Quest) → Closes t (advance_found n q)
  unfolding advance_found
  advance_found-Closes n none = search (Closes-fail, InTransaction-of, db_stays)
  advance_found-Closes n (some q) =
      search
        (Closes-bind, Closes-commit, Rolls-clock, Rolls-or_rollback, InTransaction-of, db_stays)
        depth 10

pub update_quest_progress-Atomic :
    (u : ℕ) (k : QuestType) (n : ℕ) → Atomic (update_quest_progress u k n)
unfolding update_quest_progress
update_quest_progress-Atomic u k n = Atomic-bind _ _ (ReadOnly-return_if _ 1) λ _.
    Atomic-begin 1 _ λ t.
      Closes-bind _ _ (search (Rolls-or_rollback, InTransaction-of, db_stays))
        λ l. advance_found-Closes n (find_open k l)

-- Whatever statement sqlite refuses, `update_quest_progress` outside a transaction ends outside
-- one, and where it returns an error the tables are as they were.
pub update_quest_progress_atomic :
    (user_id : ℕ) (quest_type : QuestType) (increment : ℕ) (d : Db)
    → d.saved ≡ none
    → Done d.tables (update_quest_progress user_id quest_type increment d)
update_quest_progress_atomic u k n d i = (update_quest_progress-Atomic u k n).at d i

-- Inside a transaction of its caller, `update_quest_progress` returns -1 and leaves the
-- tables as they are.
pub update_quest_progress_in_transaction :
    (user_id : ℕ) (quest_type : QuestType) (increment : ℕ) (d : Db) (t : Tables)
    → d.saved ≡ some t
    → ((update_quest_progress user_id quest_type increment d).0 ≡ err 1)
      × ((update_quest_progress user_id quest_type increment d).1.tables ≡ d.tables)
unfolding update_quest_progress return_if or_return db_begin_transaction ◌>>=◌
update_quest_progress_in_transaction u k n d t i = ground arith
