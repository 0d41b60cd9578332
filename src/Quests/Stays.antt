-- ===== src/Quests/Stays.antt =====
-- The quest functions that run inside a transaction of another part leave it open:
-- `update_quest_progress` cannot begin its own there, and gives up.
use cs.Base.{ℕ, Option, none, some, List, [], ◌∷◌}
use cs.Types.{QuestType, Quest}
use cs.Db.Tables.{Tables}
use cs.Db.Monad.Transaction.{Stays, Stays-bind, Stays-return_if}
use cs.Db.Stays.{Stays-nested, db_stays}
use cs.Quests.{
  update_quest_progress, complete_quest, complete_reached, complete_loaded, check_quest_completion,
}

module _ {t : Tables} where
  pub update_quest_progress-Stays :
      (u : ℕ) (k : QuestType) (n : ℕ) → Stays (some t) (update_quest_progress u k n)
  unfolding update_quest_progress
  update_quest_progress-Stays u k n = Stays-bind _ _ (Stays-return_if _ 1) (λ _. Stays-nested 1 _)

module _ {o : Option Tables} where
  complete_quest-Stays : (now : ℕ) (q : Quest) → Stays o (complete_quest now q)
  unfolding complete_quest
  complete_quest-Stays now q = search db_stays

  complete_reached-Stays : (l : List Quest) → Stays o (complete_reached l)
  unfolding complete_reached
  complete_reached-Stays [] = search db_stays
  complete_reached-Stays (q ∷ l) =
      Stays-bind _ _ (search db_stays)
        λ now. Stays-bind _ _ (complete_quest-Stays now q) λ _. complete_reached-Stays l

  complete_loaded-Stays : (l : Option (List Quest)) → Stays o (complete_loaded l)
  unfolding complete_loaded
  complete_loaded-Stays none = search db_stays
  complete_loaded-Stays (some l) = complete_reached-Stays l

  pub check_quest_completion-Stays : (u : ℕ) → Stays o (check_quest_completion u)
  unfolding check_quest_completion
  check_quest_completion-Stays u = search (db_stays, complete_loaded-Stays)
