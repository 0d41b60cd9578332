-- ===== src/Trading/Atomic.antt =====
-- A trade happens whole or not at all: whatever statement sqlite refuses on the way, an
-- `accept_trade` that fails leaves the tables as they were, or with the trade marked expired.
use cs.Base.{ℕ, inl, inr, Option, none, some, List, [], ◌∷◌, ltb, ℤ, Bool-cases}
use cs.Types.{TradeOffer}
use cs.Db.Tables.{Tables}
use cs.Db.Monad.Transaction.{
  InTransaction, InTransaction-of, InTransaction-bind, InTransaction-or_rollback, Stays,
}
use cs.Db.Stays.{db_stays}
use cs.Quests.Stays.{update_quest_progress-Stays, check_quest_completion-Stays}
use cs.Achievements.Stays.{unlock_achievement-Stays}
use cs.Challenges.Stays.{update_user_active_challenges-Stays}
use cs.Trading.{
  instance_of, move_entry, move_entries, pay_offered, pay_requested, after_trade,
  execute_trade_internal,
}

ruleset transaction_rules =
    (InTransaction-or_rollback, InTransaction-of, InTransaction-bind, db_stays)

module _ {t : Tables} where
  after_trade-Stays : (a b : ℕ) → Stays (some t) (after_trade a b)
  unfolding after_trade
  after_trade-Stays a b =
      search
        (
          db_stays, update_quest_progress-Stays, unlock_achievement-Stays,
          check_quest_completion-Stays, update_user_active_challenges-Stays,
        )
        depth 16

  move_entry-InTransaction :
      (a b r o i : ℕ) (x : Option ℕ) → InTransaction t (move_entry a b r o i x)
  unfolding move_entry
  move_entry-InTransaction a b r o i none = search transaction_rules
  move_entry-InTransaction a b r o i (some x) = search transaction_rules depth 12

  move_entries-InTransaction :
      (a b r o i : ℕ) (xs : List ℤ) → InTransaction t (move_entries a b r o i xs)
  unfolding move_entries
  move_entries-InTransaction a b r o i [] = search transaction_rules
  move_entries-InTransaction a b r o i (x ∷ xs) =
      InTransaction-bind _ _ (move_entry-InTransaction a b r o i (instance_of x))
        λ _. move_entries-InTransaction a b r o i xs

  pay_offered-InTransaction : (o : TradeOffer) → InTransaction t (pay_offered o)
  unfolding pay_offered
  pay_offered-InTransaction o = elim (Bool-cases (ltb 0 o.offered_cash)) [
    | inl e ↦ rw e (search transaction_rules depth 12)
    | inr e ↦ rw e (search transaction_rules)
  ]

  pay_requested-InTransaction : (o : TradeOffer) → InTransaction t (pay_requested o)
  unfolding pay_requested
  pay_requested-InTransaction o = elim (Bool-cases (ltb 0 o.requested_cash)) [
    | inl e ↦ rw e (search transaction_rules depth 12)
    | inr e ↦ rw e (search transaction_rules)
  ]

  pub execute_trade_internal-InTransaction :
      (o : TradeOffer) → InTransaction t (execute_trade_internal o)
  unfolding execute_trade_internal
  execute_trade_internal-InTransaction o =
      search
        (
          transaction_rules, move_entries-InTransaction, pay_offered-InTransaction,
          pay_requested-InTransaction, after_trade-Stays,
        )
        depth 12
