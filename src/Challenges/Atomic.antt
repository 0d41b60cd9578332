-- ===== src/Challenges/Atomic.antt =====
-- The transactions of src/server/trading_challenges.c.
use cs.Base.{ℕ, ◌≡◌, Option, none, some}
use cs.Types.{User, TradingChallenge}
use cs.Db.Tables.{Tables}
use cs.Db.Monad.{Db}
use cs.Db.Monad.Transaction.{InTransaction-of}
use cs.Db.Monad.Atomic.{
  Done, Rolls, Rolls-pure, Rolls-bind, Rolls-attempt, Rolls-clock, Rolls-or_rollback, Rolls-if,
  Closes-bind, Closes-commit, Closes-pure, Atomic, Atomic-begin,
}
use cs.Db.Stays.{db_stays}
use cs.Challenges.Stays.{update_challenge-Stays}
use cs.Challenges.Finish.{reward_user, reward_winner, award, penalise}

ruleset challenge_rules = (
  Rolls-pure, Rolls-bind, Rolls-attempt, Rolls-clock, Rolls-or_rollback, InTransaction-of,
  update_challenge-Stays, db_stays,
)

module _ {t : Tables} where
  reward_user-Rolls : (u : Option User) → Rolls t (reward_user u)
  unfolding reward_user
  reward_user-Rolls none = search challenge_rules
  reward_user-Rolls (some u) = search challenge_rules

  reward_winner-Rolls : (w : ℕ) → Rolls t (reward_winner w)
  unfolding reward_winner
  reward_winner-Rolls w = search (challenge_rules, Rolls-if, reward_user-Rolls)

award-Atomic : (c w : ℕ) → Atomic (award c w)
unfolding award
award-Atomic c w = Atomic-begin 3 _ λ t.
    Closes-bind _ _ (reward_winner-Rolls w)
      λ _. search (Closes-bind, Closes-pure, Closes-commit, challenge_rules) depth 10

penalise-Atomic : (k : ℕ) (c : TradingChallenge) → Atomic (penalise k c)
unfolding penalise
penalise-Atomic k c =
    Atomic-begin 4 _ λ t. search (Closes-bind, Closes-commit, challenge_rules) depth 10

-- Whatever statement sqlite refuses, the end of a challenge outside a transaction ends outside
-- one, and where it returns an error the tables are as they were.
pub award_atomic :
    (challenge_id winner_id : ℕ) (d : Db)
    → d.saved ≡ none
    → Done d.tables (award challenge_id winner_id d)
award_atomic c w d i = (award-Atomic c w).at d i

-- Whatever statement sqlite refuses, the penalty for a cancelled challenge outside a transaction
-- ends outside one, and where it returns an error the tables are as they were.
pub penalise_atomic :
    (challenge_id : ℕ) (challenge : TradingChallenge) (d : Db)
    → d.saved ≡ none
    → Done d.tables (penalise challenge_id challenge d)
penalise_atomic k c d i = (penalise-Atomic k c).at d i
