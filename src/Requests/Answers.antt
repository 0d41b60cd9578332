-- ===== src/Requests/Answers.antt =====
-- What an answer to a request means.
use cs.Base.{
  ℕ, ◌<◌, ◌-◌, ◌^◌, ◌≡◌, refl, sym, subst, false, none, some, List, ◌==◌, arith, Bool-cases,
  Option-cases, inl, inr, ==→eq,
}
use cs.Types.{MarketListing}
use cs.Db.Table.{find}
use cs.Db.Tables.{Tables}
use cs.Db.Monad.{Result, ok, err, Db, M, refused, spent, select, attempt, ◌>>=◌, pure}
use cs.Db.Monad.Atomic.{Done}
use cs.Db.Monad.Frame.{IfOk}
use cs.Db.Listings.{db_get_listing_v2}
use cs.Market.{buy_from_market, remove_listing}
use cs.Market.Atomic.{buy_from_market_atomic}
use cs.Trading.Accept.{accept_trade}
use cs.Unbox.{unbox_case}
use cs.Unbox.Atomic.{unbox_case_atomic}
use cs.Requests.{
  Body, Response, error_response, success_response, no_data, of_skin, as_id, nothing, negative,
  respond, with_two,
}
use cs.Requests.Scan.{scan_two}
use cs.Requests.Scan.RoundTrip.{two_ids, scan_two-two_ids}
use cs.Requests.Market.{
  msg_buy_from_market, msg_unbox_case, buy_error, map_unbox_error, handle_buy_from_market,
  remove_found, handle_remove_from_market, handle_unbox_case,
}
use cs.Requests.Trades.{msg_accept_trade, handle_accept_trade}
use cs.Requests.Tells.{
  Answer, respond_lem, Tells, respond-Tells, code_in, buy_codes, unbox_codes, buy_error-in,
  map_unbox_error-in,
}

id_kept : (n : ℕ) → n < 2147483648 → as_id n ≡ n
id_kept n h = ground arith

module _ (request u v : ℕ) (f : ℕ → ℕ → M Response) (hu : u < 2147483648)
    (hv : v < 2147483648) where
  with_two-two_ids : (d : Db) → with_two request (two_ids u v) f d ≡ f u v d
  unfolding with_two
  with_two-two_ids d =
      rw (scan_two-two_ids u v (omega arith) (omega arith), id_kept u hu, id_kept v hv) refl

-- A request to buy, to unbox or to accept a trade whose payload names the ids `u` and `v`, below
-- 2^31, is run as a call for the user `u`, whoever sends it: the handlers see no session. The answer
-- is a success exactly where the call succeeds; an error has the code of the protocol's table for
-- the result of the call, or, for a trade, 2^32 - n for the result -n.
pub request_run_for_payload :
    (rand : ℕ → ℕ) (rand_max u v : ℕ) (d : Db)
    → u < 2147483648
    → v < 2147483648
    → Tells 0x12 0x12
        (code_in buy_codes)
        (λ _. no_data)
        (buy_from_market u v d)
        (handle_buy_from_market (two_ids u v) d)
      × (Tells 0x80 0x81
            (code_in unbox_codes)
            of_skin
            (unbox_case rand rand_max u v d)
            (handle_unbox_case rand rand_max (two_ids u v) d)
          × Tells 0x22 0x25
              (λ n. 2 ^ 32 - n)
              (λ _. no_data)
              (accept_trade u v d)
              (handle_accept_trade (two_ids u v) d))
unfolding handle_buy_from_market handle_unbox_case handle_accept_trade
request_run_for_payload rand rand_max u v d hu hv =
    let buys =
      respond-Tells 0x12 0x12 buy_error (code_in buy_codes) (λ _. no_data) (buy_from_market u v) d
        buy_error-in in
    let opens =
      respond-Tells 0x80 0x81 map_unbox_error (code_in unbox_codes) of_skin
        (unbox_case rand rand_max u v) d map_unbox_error-in in
    let accepts =
      respond-Tells 0x22 0x25 negative (λ n. 2 ^ 32 - n) (λ _. no_data) (accept_trade u v) d
        (λ n. refl) in
    (
      rw (with_two-two_ids msg_buy_from_market u v _ hu hv d) buys,
      (
        rw (with_two-two_ids msg_unbox_case u v _ hu hv d) opens,
        rw (with_two-two_ids msg_accept_trade u v _ hu hv d) accepts,
      ),
    )

-- A handler that answers ends outside a transaction, and where the answer is an error the tables
-- are `t`.
abbrev pub Answered : Tables → Result Response × Db → Type 0
Answered t (err _, d) = ⊥
Answered t (ok (error_response _ _), d) = (d.saved ≡ none) × (d.tables ≡ t)
Answered t (ok (success_response _ _), d) = d.saved ≡ none

Answer-Answered :
    {A : Type 0} (request : ℕ) (code : ℕ → ℕ) (response : ℕ) (body : A → Body) (t : Tables)
    (r : Result A) (d : Db)
    → Done t (r, d)
    → Answered t (Answer request code response body (r, d))
Answer-Answered request code response body t (ok a) d h = h
Answer-Answered request code response body t (err n) d h = h

with_two-Answered :
    (request : ℕ) (payload : List ℕ) (f : ℕ → ℕ → M Response) (d : Db)
    → d.saved ≡ none
    → ((u v : ℕ) → Answered d.tables (f u v d))
    → Answered d.tables (with_two request payload f d)
unfolding with_two pure
with_two-Answered request payload f d i h = elim (Option-cases (scan_two payload)) [
  | inl e ↦ rw e (i, refl)
  | inr ((u, v), e) ↦ rw e (h (as_id u) (as_id v))
]

respond-Answered :
    {A : Type 0} (request : ℕ) (code : ℕ → ℕ) (response : ℕ) (body : A → Body) (t : Tables)
    (m : M A) (d : Db)
    → Done t (m d)
    → Answered t (respond request code response body m d)
respond-Answered request code response body t m d h =
    subst (Answered t) (sym (respond_lem request code response body m d))
      (let (r, d') = m d in Answer-Answered request code response body t r d' h)

-- Outside a transaction, whatever the payload is and whatever statement sqlite refuses: a request
-- to buy and one to unbox are answered outside a transaction, and where the answer is an error the
-- tables are as they were.
pub error_keeps_tables :
    (rand : ℕ → ℕ) (rand_max : ℕ) (payload : List ℕ) (d : Db)
    → d.saved ≡ none
    → Answered d.tables (handle_buy_from_market payload d)
      × Answered d.tables (handle_unbox_case rand rand_max payload d)
unfolding handle_buy_from_market handle_unbox_case
error_keeps_tables rand rand_max payload d i = (
  with_two-Answered _ payload _ d i
      λ u v. respond-Answered _ _ _ _ d.tables _ d (buy_from_market_atomic u v d i),
  with_two-Answered _ payload _ d i
      λ u v. respond-Answered _ _ _ _ d.tables _ d (unbox_case_atomic rand rand_max u v d i),
)

-- What a success for this payload says of the listing before.
abbrev pub Removable : List ℕ → Tables → Response → Type 0
Removable payload t (error_response _ _) = Unit {0}
Removable payload t (success_response _ _) =
    (u : ℕ) × ((v : ℕ) × ((scan_two payload ≡ some (u, v))
        × ((l : MarketListing) × ((find (as_id v) t.listings ≡ some l)
              × ((l.seller_id ≡ as_id u) × (l.is_sold ≡ false))))))

Answer-IfOk :
    {A : Type 0} (request : ℕ) (code : ℕ → ℕ) (response : ℕ) (body : A → Body) (payload : List ℕ)
    (t : Tables) (r : Result A) (d : Db)
    → Removable payload t (success_response response no_data)
    → IfOk (λ a _. Removable payload t a) (Answer request code response body (r, d))
Answer-IfOk request code response body payload t (ok a) d h = h
Answer-IfOk request code response body payload t (err n) d h = tt

remove_found-IfOk :
    (payload : List ℕ) (t : Tables) (u v : ℕ) (l : MarketListing) (d : Db)
    → scan_two payload ≡ some (u, v)
    → find (as_id v) t.listings ≡ some l
    → IfOk (λ a _. Removable payload t a) (remove_found (as_id u) (as_id v) (some l) d)
unfolding remove_found pure
remove_found-IfOk payload t u v l d e at = elim (Bool-cases (l.seller_id == as_id u)) [
  | inr other ↦ rw other tt
  | inl same ↦ elim (Bool-cases l.is_sold) [
    | inl sold ↦ rw (same, sold) tt
    | inr free ↦
        rw (same, free)
          (subst (IfOk λ a _. Removable payload t a)
            (sym (respond_lem _ negative _ nothing (remove_listing (as_id v)) d))
            (let (r, d') = remove_listing (as_id v) d in
              Answer-IfOk _ negative _ nothing payload t r d'
                (u, (v, (e, (l, (at, (==→eq _ _ same, free))))))))
  ]
]

remove_loaded-IfOk :
    (payload : List ℕ) (u v : ℕ) (d : Db)
    → scan_two payload ≡ some (u, v)
    → IfOk
        (λ a _. Removable payload d.tables a)
        ((attempt (db_get_listing_v2 (as_id v)) >>= λ l. remove_found (as_id u) (as_id v) l) d)
unfolding attempt db_get_listing_v2 select ◌>>=◌ remove_found pure
remove_loaded-IfOk payload u v d e = elim (Bool-cases (refused d.faults)) [
  | inl so ↦ rw so tt
  | inr well ↦ elim (Option-cases (find (as_id v) d.tables.listings)) [
    | inl none_there ↦ rw (well, none_there) tt
    | inr (l, at) ↦ rw (well, at) (remove_found-IfOk payload d.tables u v l (spent d) e at)
  ]
]

-- A request to take a listing off the market that is answered with a success named, in its
-- payload, the seller of the listing and a listing that was there and not sold.
pub remove_request_guards :
    (payload : List ℕ) (d : Db)
    → IfOk (λ a _. Removable payload d.tables a) (handle_remove_from_market payload d)
unfolding handle_remove_from_market with_two pure
remove_request_guards payload d = elim (Option-cases (scan_two payload)) [
  | inl e ↦ rw e tt
  | inr ((u, v), e) ↦ rw e (remove_loaded-IfOk payload u v d e)
]
