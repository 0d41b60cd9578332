-- ===== src/Tests/Requests.antt =====
-- Requests of the users of the shop.
use cs.Base.{◌-◌, ◌^◌, refl, arith}
use cs.Db.Monad.Frame.{IfOk}
use cs.Market.{buy_from_market}
use cs.Trading.Accept.{accept_trade}
use cs.Unbox.{unbox_case}
use cs.Requests.{no_data, of_skin}
use cs.Requests.Scan.RoundTrip.{two_ids}
use cs.Requests.Market.{handle_buy_from_market, handle_remove_from_market, handle_unbox_case}
use cs.Requests.Trades.{handle_accept_trade}
use cs.Requests.Answers.{
  Answered, Removable, request_run_for_payload, error_keeps_tables, remove_request_guards,
}
use cs.Requests.Tells.{Tells, code_in, buy_codes, unbox_codes}
use cs.Tests.{open_shop}
use cs.Tests.Cases.{rand, rand_max, case_shop, case_db}

request_run_for_payload_example :
    Tells 0x12 0x12
      (code_in buy_codes)
      (λ _. no_data)
      (buy_from_market 2 1 case_db)
      (handle_buy_from_market (two_ids 2 1) case_db)
    × (Tells 0x80 0x81
          (code_in unbox_codes)
          of_skin
          (unbox_case rand rand_max 2 1 case_db)
          (handle_unbox_case rand rand_max (two_ids 2 1) case_db)
        × Tells 0x22 0x25
            (λ n. 2 ^ 32 - n)
            (λ _. no_data)
            (accept_trade 2 1 case_db)
            (handle_accept_trade (two_ids 2 1) case_db))
request_run_for_payload_example =
    request_run_for_payload rand rand_max 2 1 case_db (omega arith) (omega arith)

error_keeps_tables_example :
    Answered case_shop (handle_buy_from_market (two_ids 2 1) case_db)
    × Answered case_shop (handle_unbox_case rand rand_max (two_ids 2 1) case_db)
error_keeps_tables_example = error_keeps_tables rand rand_max (two_ids 2 1) case_db refl

-- User 1 sells listing 4.
remove_request_guards_example :
    IfOk
      (λ a _. Removable (two_ids 1 4) open_shop.tables a)
      (handle_remove_from_market (two_ids 1 4) open_shop)
remove_request_guards_example = remove_request_guards (two_ids 1 4) open_shop
