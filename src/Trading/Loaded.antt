-- ===== src/Trading/Loaded.antt =====
-- The trade that `db_load_trade` makes of a row.
use cs.Base.{ℕ, ◌≡◌, refl, sym, ap, ◌∙◌, false, Option, none, some, arith}
use cs.Types.{TradeOffer}
use cs.Db.Table.{Rows, find}
use cs.Db.Tables.{Tables, TradeRow}
use cs.Db.Trades.{is_pending, offer_of, trade_at}

-- The trade `k` is there, and is no longer pending.
abbrev pub Processed : ℕ → Rows TradeRow → Type 0
Processed k rows = (r : TradeRow) × ((find k rows ≡ some r) × (is_pending r.status ≡ false))

abbrev opened : ℕ → Option TradeRow → Option TradeOffer
opened k none = none
opened k (some r) = some (offer_of k r)

trade_at-opened :
    (k : ℕ) (t : Tables) (o : Option TradeRow) → find k t.trades ≡ o → trade_at k t ≡ opened k o
trade_at-opened k t none e = rw (trade_at, e) refl
trade_at-opened k t (some r) e = rw (trade_at, e) refl

opened-row :
    (k : ℕ) (o : Option TradeRow) (trade : TradeOffer)
    → opened k o ≡ some trade
    → (r : TradeRow) × ((o ≡ some r) × (trade ≡ offer_of k r))
opened-row k none trade e = ground arith
opened-row k (some r) trade e =
    (r, (refl, sym (ap (λ o. elim o [ none ↦ offer_of k r | some w ↦ w ]) e)))

-- A loaded trade is one of the rows.
loaded_row :
    (k : ℕ) (t : Tables) (trade : TradeOffer)
    → trade_at k t ≡ some trade
    → (r : TradeRow) × ((find k t.trades ≡ some r) × (trade ≡ offer_of k r))
loaded_row k t trade e = opened-row k (find k t.trades) trade (sym (trade_at-opened k t _ refl) ∙ e)

pub trade_at-id :
    (k : ℕ) (t : Tables) (trade : TradeOffer) → trade_at k t ≡ some trade → trade.trade_id ≡ k
unfolding offer_of
trade_at-id k t trade e = let (r, (_, same)) = loaded_row k t trade e in ap (λ w. w.trade_id) same

-- A trade that has been processed is not pending when it is loaded.
pub loaded_status :
    (k : ℕ) (t : Tables) (trade : TradeOffer)
    → Processed k t.trades
    → trade_at k t ≡ some trade
    → is_pending trade.status ≡ false
unfolding offer_of
loaded_status k t trade (done, (e, settled)) f =
    let (r, (g, same)) = loaded_row k t trade f in
    let one : r ≡ done = ap (λ o. elim o [ none ↦ r | some w ↦ w ]) (sym g ∙ e) in
    ap (λ w. is_pending w.status) same ∙ (ap (λ w. is_pending w.status) one ∙ settled)
