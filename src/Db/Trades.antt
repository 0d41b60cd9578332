-- ===== src/Db/Trades.antt =====
-- The rows of `trades`.
pub mod Pending
use cs.Base.{
  ℕ, suc, Bool, true, false, ◌&&◌, ◌||◌, Option, none, some, List, [], ◌∷◌, ◌++◌, map, ltb, ◌==◌,
  if◌then◌else◌, length, pos,
}
use cs.Types.{TradeStatus, trade_pending, trade_accepted, trade_expired, TradeOffer}
use cs.Db.Table.{Rows, find, put, has, update_where}
use cs.Db.Tables.{Tables, TradeRow}
use cs.Db.Monad.{M, pure, fail, select, write, attempt, ◌>>=◌, clock}
use cs.Db.IntArray.{format_nat, serialize, parse_skins}

abbrev pub is_pending : TradeStatus → Bool
is_pending trade_pending = true
is_pending _ = false

-- The row that is written for an offer.
unfoldable pub row_of : TradeOffer → TradeRow
row_of trade = record {
  from_user_id = trade.from_user_id;
  to_user_id = trade.to_user_id;
  offered_skins = serialize trade.offered_skins;
  offered_count = length trade.offered_skins;
  offered_cash = trade.offered_cash;
  requested_skins = serialize trade.requested_skins;
  requested_count = length trade.requested_skins;
  requested_cash = trade.requested_cash;
  status = trade.status;
  created_at = trade.created_at;
  expires_at = trade.expires_at;
}

-- The offer that is read from a row; each count is that of the parsed array.
unfoldable pub offer_of : ℕ → TradeRow → TradeOffer
offer_of trade_id r = record {
  trade_id = trade_id;
  from_user_id = r.from_user_id;
  to_user_id = r.to_user_id;
  offered_skins = map pos (parse_skins r.offered_skins);
  offered_cash = r.offered_cash;
  requested_skins = map pos (parse_skins r.requested_skins);
  requested_cash = r.requested_cash;
  status = r.status;
  created_at = r.created_at;
  expires_at = r.expires_at;
}

-- Both users must exist. The result is the id of the new row.
unfoldable pub db_save_trade : TradeOffer → M ℕ
db_save_trade trade = write λ t.
    if has trade.from_user_id t.users && has trade.to_user_id t.users
    then some (
      t.next_trade,
      record t {
        trades = t.trades ++ ((t.next_trade, row_of trade) ∷ []);
        next_trade = suc t.next_trade;
      },
    )
    else none

abbrev pub trade_at : ℕ → Tables → Option TradeOffer
trade_at trade_id t = elim (find trade_id t.trades) [
  | none ↦ none
  | some r ↦ some (offer_of trade_id r)
]

unfoldable pub db_load_trade : ℕ → M TradeOffer
db_load_trade trade_id = select (trade_at trade_id)

-- The tables with the row of a trade written anew.
abbrev pub with_trade : TradeOffer → Tables → Tables
with_trade trade t = record t { trades = put trade.trade_id (row_of trade) t.trades }

-- The users of a stored trade exist, so the foreign keys hold.
unfoldable pub db_update_trade : TradeOffer → M (Unit {0})
db_update_trade trade = write λ t. some (tt, with_trade trade t)

-- LIKE with a pattern that has no wildcard: the texts are equal.
abbrev pub like : List ℕ → List ℕ → Bool
like [] [] = true
like (a ∷ p) (b ∷ q) = a == b && like p q
like _ _ = false

-- Whether the query counts a pending row for the pattern.
abbrev pub pending_like : List ℕ → Rows TradeRow → Bool
pending_like p [] = false
pending_like p ((_, r) ∷ t) =
    is_pending r.status && (like r.offered_skins p || like r.requested_skins p) || pending_like p t

unfoldable pub pending_query : List ℕ → M Bool
pending_query p = select λ t. some (pending_like p t.trades)

-- A query that fails counts as one that finds nothing; the rest is then tried.
unfoldable pub or_pending : Option Bool → M Bool → M Bool
or_pending (some true) rest = pure true
or_pending (some false) rest = rest
or_pending none rest = rest

-- If the first query cannot be prepared, the item counts as free. A query that is prepared and
-- refused at its step is one that finds nothing.
unfoldable pub first_pending : Option (Unit {0}) → M Bool → M Bool
first_pending none rest = pure false
first_pending (some _) rest = rest

-- `sqlite3_prepare_v2`: of the first query only, as for the others it makes no difference whether
-- they are refused when prepared or at their step.
unfoldable pub prepare : M (Unit {0})
prepare = select λ t. some tt

-- The four patterns [id], [id,  ,id,  ,id] for an instance.
unfoldable pub pattern1 : ℕ → List ℕ
pattern1 i = b'[' ∷ (format_nat i ++ (b']' ∷ []))

unfoldable pub pattern2 : ℕ → List ℕ
pattern2 i = b'[' ∷ (format_nat i ++ (b',' ∷ []))

unfoldable pub pattern3 : ℕ → List ℕ
pattern3 i = b',' ∷ (format_nat i ++ (b',' ∷ []))

unfoldable pub pattern4 : ℕ → List ℕ
pattern4 i = b',' ∷ (format_nat i ++ (b']' ∷ []))

unfoldable pub db_is_instance_in_pending_trade : ℕ → M Bool
db_is_instance_in_pending_trade instance_id = if instance_id == 0 then pure false else do
  prepared ← attempt prepare
  first_pending prepared do
    q1 ← attempt (pending_query (pattern1 instance_id))
    or_pending q1 do
      q2 ← attempt (pending_query (pattern2 instance_id))
      or_pending q2 do
        q3 ← attempt (pending_query (pattern3 instance_id))
        or_pending q3
            do q4 ← attempt (pending_query (pattern4 instance_id)); or_pending q4 (pure false)

abbrev pub expires : ℕ → TradeRow → Bool
expires now r = is_pending r.status && ltb r.expires_at now

unfoldable pub db_clean_expired_trades : M (Unit {0})
db_clean_expired_trades = do
  now ← clock
  write λ t. some (
    tt,
    record t {
      trades = update_where (expires now) (λ r. record r { status = trade_expired }) t.trades;
    },
  )

-- How many rows an UPDATE of this trade's pending row changes, and whether the row exists.
pub data Change : Type 0 where
  accepted already_processed not_found : Change

abbrev pub accept_row : ℕ → Option TradeRow → Tables → Change × Tables
accept_row trade_id none t = (not_found, t)
accept_row trade_id (some r) t =
    if is_pending r.status
    then (
      accepted,
      record t { trades = put trade_id (record r { status = trade_accepted }) t.trades },
    )
    else (already_processed, t)

-- After an UPDATE that changed no row: a SELECT tells -2, the row exists, from -1.
unfoldable pub accept_result : Change → M (Unit {0})
accept_result accepted = pure tt
accept_result already_processed = do
  row ← attempt (select λ t. some tt)
  fail (elim row [ none ↦ 1 | some _ ↦ 2 ])
accept_result not_found = do row ← attempt (select λ t. some tt); fail 1

unfoldable pub db_atomic_accept_trade : ℕ → M (Unit {0})
db_atomic_accept_trade trade_id = if trade_id == 0 then fail 1 else do
  change ← write λ t. some (accept_row trade_id (find trade_id t.trades) t)
  accept_result change
