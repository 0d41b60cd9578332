-- ===== src/Trading/Moves.antt =====
-- The items of a trade, and what follows it, leave other columns alone.
use cs.Base.{ℕ, Option, none, some, List, [], ◌∷◌, ℤ}
use cs.Db.Tables.{Tables}
use cs.Db.Monad.Frame.{Keeps, Frame, Frame-of, Frame-bind, Frame-or_rollback}
use cs.Db.Apart.{Apart, apart_rules}
use cs.Trading.Rewards.{
  update_quest_progress-Keeps, unlock_achievement-Keeps, check_quest_completion-Keeps,
  update_user_active_challenges-Keeps,
}
use cs.Trading.{instance_of, move_entry, move_entries, after_trade}

module _ {t : Tables} {X : Type 0} {g : Tables → X} (apart : Apart g) where
  move_entry-Frame : (a b r o i : ℕ) (x : Option ℕ) → Frame (some t) g (move_entry a b r o i x)
  unfolding move_entry
  move_entry-Frame a b r o i none = search (Frame-of, apart_rules, apart)
  move_entry-Frame a b r o i (some x) =
      search (Frame-bind, Frame-or_rollback, Frame-of, apart_rules, apart) depth 12

  pub move_entries-Frame :
      (a b r o i : ℕ) (xs : List ℤ) → Frame (some t) g (move_entries a b r o i xs)
  unfolding move_entries
  move_entries-Frame a b r o i [] = search (Frame-of, apart_rules, apart)
  move_entries-Frame a b r o i (x ∷ xs) =
      Frame-bind _ _ (move_entry-Frame a b r o i (instance_of x))
        λ _. move_entries-Frame a b r o i xs

  pub after_trade-Keeps : (a b : ℕ) → Keeps (some t) g (after_trade a b)
  unfolding after_trade
  after_trade-Keeps a b =
      search
        (
          apart_rules, apart, update_quest_progress-Keeps, unlock_achievement-Keeps,
          check_quest_completion-Keeps, update_user_active_challenges-Keeps,
        )
        depth 16
