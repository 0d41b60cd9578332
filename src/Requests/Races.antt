-- ===== src/Requests/Races.antt =====
-- The cases of `handle_trading_challenges_request` that change a challenge.
use cs.Base.{ℕ, ◌||◌, Option, none, some, List, ◌==◌, if◌then◌else◌}
use cs.Types.{TradingChallenge}
use cs.Db.Monad.{Result, ok, err, M, pure, attempt, ◌>>=◌}
use cs.Challenges.{
  create_profit_race_challenge, get_challenge, update_challenge_progress, accept_challenge,
}
use cs.Challenges.Finish.{complete_challenge, cancel_challenge}
use cs.Auth.{err_database_error}
use cs.Requests.{
  err_item_not_found, err_permission_denied, err_invalid_request, of_number, of_challenge, Response,
  error_response, success_response, outcome, respond, nothing, as_id, with_one, with_two,
}
use cs.Requests.Scan.{scan_three}

abbrev pub msg_create_challenge : ℕ
msg_create_challenge = 0x4c

abbrev pub msg_create_challenge_response : ℕ
msg_create_challenge_response = 0x4d

abbrev pub msg_accept_challenge : ℕ
msg_accept_challenge = 0x50

abbrev pub msg_accept_challenge_response : ℕ
msg_accept_challenge_response = 0x51

abbrev pub msg_update_challenge_progress : ℕ
msg_update_challenge_progress = 0x52

abbrev pub msg_update_challenge_progress_response : ℕ
msg_update_challenge_progress_response = 0x53

abbrev pub msg_complete_challenge : ℕ
msg_complete_challenge = 0x54

abbrev pub msg_complete_challenge_response : ℕ
msg_complete_challenge_response = 0x55

abbrev pub msg_cancel_challenge : ℕ
msg_cancel_challenge = 0x56

abbrev pub msg_cancel_challenge_response : ℕ
msg_cancel_challenge_response = 0x57

abbrev create_error : ℕ → ℕ
create_error n =
    if n == 2
    then err_invalid_request
    else if n == 3 || n == 4
    then err_item_not_found
    else err_database_error

abbrev create_scanned : Option (ℕ × (ℕ × ℕ)) → M Response
create_scanned none = pure (error_response msg_create_challenge err_invalid_request)
create_scanned (some (challenger_id, (opponent_id, minutes))) =
    respond msg_create_challenge create_error msg_create_challenge_response of_number
      (create_profit_race_challenge (as_id challenger_id) (as_id opponent_id) (as_id minutes))

unfoldable pub handle_create_challenge : List ℕ → M Response
handle_create_challenge payload = create_scanned (scan_three payload)

-- The codes for `accept_challenge` and `cancel_challenge`.
abbrev challenge_error : ℕ → ℕ
challenge_error n =
    if n == 1
    then err_item_not_found
    else if n == 2
    then err_permission_denied
    else if n == 3
    then err_invalid_request
    else err_database_error

unfoldable pub handle_accept_challenge : List ℕ → M Response
handle_accept_challenge payload = with_two msg_accept_challenge payload λ challenge_id user_id.
    respond msg_accept_challenge challenge_error msg_accept_challenge_response nothing
      (accept_challenge challenge_id user_id)

abbrev shown : Option TradingChallenge → Response
shown none = error_response msg_update_challenge_progress err_database_error
shown (some c) = success_response msg_update_challenge_progress_response (of_challenge c)

unfoldable pub show_updated : ℕ → Result (Unit {0}) → M Response
show_updated challenge_id (err _) =
    pure (error_response msg_update_challenge_progress err_database_error)
show_updated challenge_id (ok _) = do c ← attempt (get_challenge challenge_id); pure (shown c)

unfoldable pub handle_update_challenge_progress : List ℕ → M Response
handle_update_challenge_progress payload =
    with_one msg_update_challenge_progress payload λ challenge_id. do
      r ← outcome (update_challenge_progress challenge_id)
      show_updated challenge_id r

unfoldable pub handle_complete_challenge : List ℕ → M Response
handle_complete_challenge payload = with_one msg_complete_challenge payload λ challenge_id.
    respond msg_complete_challenge (λ _. err_database_error) msg_complete_challenge_response
      of_number (complete_challenge challenge_id)

unfoldable pub handle_cancel_challenge : List ℕ → M Response
handle_cancel_challenge payload = with_two msg_cancel_challenge payload λ challenge_id user_id.
    respond msg_cancel_challenge challenge_error msg_cancel_challenge_response nothing
      (cancel_challenge challenge_id user_id)
