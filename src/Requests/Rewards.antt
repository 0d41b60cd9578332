-- ===== src/Requests/Rewards.antt =====
-- The cases of `handle_quests_request` that pay a reward, and a chat message.
use cs.Base.{ℕ, ◌+◌, ◌*◌, ◌/◌, ◌%◌, Option, none, some, List, [], ◌∷◌, ◌++◌, ◌==◌, if◌then◌else◌}
use cs.Types.{usd, Quest}
use cs.Db.Monad.{M, pure, fail, attempt, ◌>>=◌}
use cs.Db.IntArray.{format_nat}
use cs.Db.Rewards.{db_load_user_quests}
use cs.Quests.{quest_reward, claim_quest_reward}
use cs.Achievements.{claim_achievement_reward}
use cs.LoginRewards.{claim_daily_reward}
use cs.Chat.{send_chat_message}
use cs.Auth.{err_database_error}
use cs.Requests.{
  err_invalid_request, of_text, Body, Response, error_response, respond, nothing, as_id, with_one,
  with_two,
}
use cs.Requests.Scan.{scan_chat}

abbrev pub msg_chat_global : ℕ
msg_chat_global = 0x60

abbrev pub msg_claim_quest_reward : ℕ
msg_claim_quest_reward = 0x72

abbrev pub msg_claim_achievement : ℕ
msg_claim_achievement = 0x75

abbrev pub msg_get_login_reward : ℕ
msg_get_login_reward = 0x76

abbrev pub msg_login_reward_data : ℕ
msg_login_reward_data = 0x77

-- `%.2f` of an amount in whole cents.
abbrev pub format_money : ℕ → List ℕ
format_money n =
    let cents = n * 100 / usd % 100 in
    format_nat (n / usd) ++ (b'.' ∷ (b'0' + cents / 10) ∷ (b'0' + cents % 10) ∷ [])

-- The reward of the first quest with this id, or 0.
abbrev pub reward_amount : ℕ → List Quest → ℕ
reward_amount quest_id [] = 0
reward_amount quest_id (q ∷ l) =
    if q.quest_id == quest_id then quest_reward q.quest_type else reward_amount quest_id l

abbrev or_no_reward : ℕ → Option (List Quest) → ℕ
or_no_reward quest_id none = 0
or_no_reward quest_id (some l) = reward_amount quest_id l

unfoldable pub get_user_quests : ℕ → M (List Quest)
get_user_quests user_id = if user_id == 0 then fail 1 else db_load_user_quests user_id

abbrev claim_error : ℕ → ℕ
claim_error n =
    if n == 2
    then err_invalid_request
    else if n == 3
    then err_invalid_request
    else err_database_error

unfoldable pub handle_claim_quest_reward : List ℕ → M Response
handle_claim_quest_reward payload = with_two msg_claim_quest_reward payload λ user_id quest_id. do
  quests ← attempt (get_user_quests user_id)
  respond msg_claim_quest_reward claim_error msg_claim_quest_reward
      (λ _. of_text (format_money (or_no_reward quest_id quests)))
      (claim_quest_reward user_id quest_id)

unfoldable pub handle_claim_achievement : List ℕ → M Response
handle_claim_achievement payload = with_two msg_claim_achievement payload λ user_id achievement_id.
    respond msg_claim_achievement (λ _. err_invalid_request) msg_claim_achievement nothing
      (claim_achievement_reward user_id achievement_id)

abbrev login_reward_text : ℕ × ℕ → Body
login_reward_text (amount, day) = of_text (format_money amount ++ (b':' ∷ format_nat day))

unfoldable pub handle_get_login_reward : (ℕ → ℕ) → List ℕ → M Response
handle_get_login_reward midnight payload = with_one msg_get_login_reward payload λ user_id.
    respond msg_get_login_reward (λ n. if n == 2 then err_invalid_request else err_database_error)
      msg_login_reward_data login_reward_text (claim_daily_reward midnight user_id)

abbrev chat_scanned : Option (ℕ × (List ℕ × List ℕ)) → M Response
chat_scanned none = pure (error_response msg_chat_global err_invalid_request)
chat_scanned (some (user_id, (username, message))) =
    respond msg_chat_global (λ _. err_database_error) msg_chat_global nothing
      (send_chat_message (as_id user_id) username message)

unfoldable pub handle_chat_global : List ℕ → M Response
handle_chat_global payload = chat_scanned (scan_chat payload)
