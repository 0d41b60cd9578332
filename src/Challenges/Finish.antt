-- ===== src/Challenges/Finish.antt =====
-- `complete_challenge` and `cancel_challenge` of src/server/trading_challenges.c.
use cs.Base.{
  ℕ, ◌-◌, ◌+◌, ◌*◌, Bool, true, not, ◌&&◌, ◌||◌, Option, none, some, ltb, leb, ◌==◌, if◌then◌else◌,
  ltb_ℤ,
}
use cs.Float.{rounded}
use cs.Types.{usd, User, challenge_completed, challenge_cancelled, TradingChallenge}
use cs.Db.Monad.{
  M, pure, or_return, attempt, ◌>>=◌, ◌>>◌, return_if, clock, db_begin_transaction,
  db_commit_transaction, or_rollback,
}
use cs.Db.Users.{db_load_user, db_update_user}
use cs.Challenges.{is_active, is_open, get_challenge, update_challenge, update_challenge_progress}

abbrev challenge_winner_reward_amount : ℕ
challenge_winner_reward_amount = 500 * usd

abbrev challenge_cancel_penalty_amount : ℕ
challenge_cancel_penalty_amount = 100 * usd

abbrev challenge_cancel_timeout_seconds : ℕ
challenge_cancel_timeout_seconds = 24 * 60 * 60

-- The user with the greater profit, 0 for a tie.
unfoldable pub winner_of : TradingChallenge → ℕ
winner_of c =
    if ltb_ℤ c.opponent_current_profit c.challenger_current_profit
    then c.challenger_id
    else if ltb_ℤ c.challenger_current_profit c.opponent_current_profit
    then c.opponent_id
    else 0

-- A winner who cannot be read gets nothing.
unfoldable pub reward_user : Option User → M (Unit {0})
reward_user none = pure tt
reward_user (some u) =
    or_rollback 3
      (db_update_user (record u { balance = rounded (u.balance + challenge_winner_reward_amount) }))

unfoldable pub reward_winner : ℕ → M (Unit {0})
reward_winner winner_id =
    if winner_id == 0 then pure tt else do u ← attempt (db_load_user winner_id); reward_user u

-- The challenge that is read again, or the old one where that fails.
abbrev pub reloaded : TradingChallenge → Option TradingChallenge → TradingChallenge
reloaded old none = old
reloaded old (some c) = c

-- From BEGIN to COMMIT.
unfoldable pub award : ℕ → ℕ → M ℕ
award challenge_id winner_id = do
  or_return 3 db_begin_transaction
  reward_winner winner_id
  now ← clock
  or_rollback 3
      (update_challenge challenge_id λ c. record c { status = challenge_completed; end_time = now })
  or_rollback 3 db_commit_transaction
  pure winner_id

-- The result is the id of the winner.
unfoldable pub complete_challenge : ℕ → M ℕ
complete_challenge challenge_id = do
  challenge ← or_return 1 (get_challenge challenge_id)
  return_if (not (is_active challenge.status)) 2
  attempt (update_challenge_progress challenge_id)
  again ← attempt (get_challenge challenge_id)
  award challenge_id (winner_of (reloaded challenge again))

abbrev has_voted : ℕ → TradingChallenge → Bool
has_voted user_id c =
    if user_id == c.challenger_id then c.challenger_cancel_vote else c.opponent_cancel_vote

abbrev vote : ℕ → TradingChallenge → TradingChallenge → TradingChallenge
vote user_id challenge c =
    if user_id == challenge.challenger_id
    then record c { challenger_cancel_vote = true }
    else record c { opponent_cancel_vote = true }

-- The challenger pays, down to nothing, and the challenge is cancelled.
unfoldable pub penalise : ℕ → TradingChallenge → M (Unit {0})
penalise challenge_id c = do
  or_return 4 db_begin_transaction
  u ← or_rollback 4 (db_load_user c.challenger_id)
  or_rollback 4 (
      db_update_user (record u { balance = rounded (u.balance - challenge_cancel_penalty_amount) }))
  or_rollback 4 (update_challenge challenge_id λ r. record r { status = challenge_cancelled })
  or_rollback 4 db_commit_transaction

-- What follows a vote, on the challenge that is read again.
unfoldable pub after_vote : ℕ → TradingChallenge → M (Unit {0})
after_vote challenge_id c = do
  now ← clock
  if c.challenger_cancel_vote && c.opponent_cancel_vote
      then attempt (update_challenge challenge_id λ r. record r { status = challenge_cancelled })
        >> pure tt
      else if is_active c.status
          && (ltb 0 c.start_time && leb (c.start_time + challenge_cancel_timeout_seconds) now)
      then penalise challenge_id c
      else pure tt

unfoldable pub cancel_challenge : ℕ → ℕ → M (Unit {0})
cancel_challenge challenge_id user_id = do
  challenge ← or_return 1 (get_challenge challenge_id)
  return_if (not (challenge.challenger_id == user_id || challenge.opponent_id == user_id)) 2
  return_if (not (is_open challenge.status)) 3
  return_if (has_voted user_id challenge) 5
  or_return 4 (update_challenge challenge_id (vote user_id challenge))
  again ← or_return 4 (get_challenge challenge_id)
  after_vote challenge_id again
