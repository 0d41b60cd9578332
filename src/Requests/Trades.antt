-- ===== src/Requests/Trades.antt =====
-- The cases of `handle_trading_request` for a trade that exists.
use cs.Base.{ℕ, List}
use cs.Db.Monad.{M, pure, attempt, ◌>>◌}
use cs.Trading.Accept.{accept_trade, decline_trade, cancel_trade}
use cs.Requests.{no_data, Response, success_response, respond, negative, nothing, with_two}

abbrev pub msg_accept_trade : ℕ
msg_accept_trade = 0x22

abbrev pub msg_decline_trade : ℕ
msg_decline_trade = 0x23

abbrev pub msg_cancel_trade : ℕ
msg_cancel_trade = 0x24

abbrev pub msg_trade_completed : ℕ
msg_trade_completed = 0x25

unfoldable pub handle_accept_trade : List ℕ → M Response
handle_accept_trade payload = with_two msg_accept_trade payload λ user_id trade_id.
    respond msg_accept_trade negative msg_trade_completed nothing (accept_trade user_id trade_id)

-- The result is not looked at.
unfoldable pub handle_decline_trade : List ℕ → M Response
handle_decline_trade payload = with_two msg_decline_trade payload λ user_id trade_id.
    attempt (decline_trade user_id trade_id) >> pure (success_response msg_decline_trade no_data)

unfoldable pub handle_cancel_trade : List ℕ → M Response
handle_cancel_trade payload = with_two msg_cancel_trade payload λ user_id trade_id.
    attempt (cancel_trade user_id trade_id) >> pure (success_response msg_cancel_trade no_data)
