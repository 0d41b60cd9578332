-- ===== src/Tests/Races.antt =====
-- The race of the shop comes to its end.
use cs.Base.{◌*◌, ◌≡◌, refl, none, some, [], ◌∷◌}
use cs.Float.{rounded, spacing, nearest}
use cs.Types.{usd, TradingChallenge, challenge_completed}
use cs.Db.Table.{find}
use cs.Db.Monad.{
  ok, Db, ◌>>=◌, return_if, or_return, select, write, pure, attempt, clock, or_rollback_by,
  db_begin_transaction, db_commit_transaction,
}
use cs.Db.Monad.Frame.{IfOk}
use cs.Db.Users.{db_load_user, db_update_user, db_load_inventory}
use cs.Challenges.{
  net_worth_of, items_value, calculate_net_worth, get_challenge, update_challenge,
  update_challenge_progress, accept_challenge,
}
use cs.Challenges.Finish.{
  winner_of, reward_user, reward_winner, award, complete_challenge, cancel_challenge,
}
use cs.Challenges.Closed.{still, accepts, cancels, closed_challenge_stays}
use cs.Challenges.Prize.{prize_paid_once}
use cs.Tests.{shop, challenge, user}

-- The inventories are empty, so that the balances decide: user 1 has won a dollar.
abbrev race_db : Db
race_db = record {
  tables = record shop {
    inventories = [];
    users = (1, user 1 (11 * usd)) ∷ (2, user 2 (100 * usd)) ∷ [];
  };
  saved = none;
  now = 500;
  faults = [];
}

abbrev ended : TradingChallenge
ended = record challenge { status = challenge_completed }

abbrev ended_db : Db
ended_db = record race_db { tables = record shop { challenges = (3, ended) ∷ [] } }

closed_challenge_stays_example :
    find 3 (cancel_challenge 3 1 (accept_challenge 3 2 ended_db).1).1.tables.challenges ≡ some ended
closed_challenge_stays_example =
    closed_challenge_stays 3 ended ended_db
      (cancel_challenge 3 1 (accept_challenge 3 2 ended_db).1).1 tt refl refl
      (cancels 3 1 (accepts 3 2 still))

abbrev completed_db : Db
completed_db = (complete_challenge 3 race_db).1

race_completed : complete_challenge 3 race_db ≡ (ok 1, completed_db)
unfolding ◌>>=◌ return_if or_return select write pure attempt clock or_rollback_by
    db_begin_transaction db_commit_transaction db_load_user db_update_user db_load_inventory rounded
    spacing nearest net_worth_of items_value calculate_net_worth get_challenge update_challenge
    update_challenge_progress winner_of reward_user reward_winner award complete_challenge
race_completed = refl

prize_paid_once_example :
    IfOk (λ _ _. ⊥) (complete_challenge 3 (cancel_challenge 3 1 completed_db).1)
prize_paid_once_example =
    prize_paid_once 3 1 challenge race_db completed_db (cancel_challenge 3 1 completed_db).1 refl
      refl race_completed (cancels 3 1 still)
