-- ===== src/Trading/Guards.antt =====
-- Who may accept which trade, and when.
use cs.Base.{ℕ, ◌≡◌, refl, sym, Bool, true, false, not, some, ◌==◌, ltb, arith}
use cs.Types.{TradeOffer}
use cs.Db.Monad.{
  Result, ok, err, Db, pure, fail, write, attempt, spent, select, or_return, coded, ◌>>=◌, clock,
}
use cs.Db.Monad.Frame.{IfOk, IfOk-mono, IfOk-bind, IfOk-select, IfOk-return_if}
use cs.Db.Trades.{is_pending, trade_at, db_load_trade, db_update_trade}
use cs.Trading.{expire, expire_if}
use cs.Trading.Accept.{accept_loaded, accept_trade}

-- The trade is addressed to this user, pending, and not expired at this time.
abbrev pub Acceptable : ℕ → ℕ → TradeOffer → Type 0
Acceptable user_id now trade =
    (trade.to_user_id ≡ user_id)
    × ((is_pending trade.status ≡ true) × (ltb trade.expires_at now ≡ false))

module _ (P : Type 0) {A : Type 0} where
  IfOk-const : (r : Result A) (d : Db) → P → IfOk (λ _ _. P) (r, d)
  IfOk-const (ok a) d p = p
  IfOk-const (err n) d p = tt

module _ {A : Type 0} where
  pub coded-IfOk :
      (Q : A → Db → Type 0) (n : ℕ) (r : Result A) (d : Db)
      → IfOk Q (r, d)
      → IfOk Q (coded n (r, d))
  coded-IfOk Q n (ok a) d h = h
  coded-IfOk Q n (err _) d h = tt

expire_if-IfOk :
    (Q : Unit {0} → Db → Type 0) (b : Bool) (trade : TradeOffer) (n : ℕ) (d : Db)
    → (b ≡ false → Q tt d)
    → IfOk Q (expire_if b trade n d)
unfolding expire_if expire attempt db_update_trade write fail pure ◌>>=◌
expire_if-IfOk Q true trade n d h = ground arith
expire_if-IfOk Q false trade n d h = h refl

same_user : (a b : ℕ) → not (a == b) ≡ false → a ≡ b
same_user a b h = ground arith

negated : (b : Bool) → not b ≡ false → b ≡ true
negated true h = refl
negated false h = sym h

accept_loaded-Acceptable :
    (u : ℕ) (trade : TradeOffer) (d : Db)
    → IfOk (λ _ _. Acceptable u d.now trade) (accept_loaded u trade d)
unfolding accept_loaded clock
accept_loaded-Acceptable u trade d = IfOk-bind _ _ _ d (
    IfOk-return_if _ _ 2 d λ to. IfOk-bind _ _ _ d (
      IfOk-return_if _ _ 3 d λ pending. IfOk-bind _ clock _ d (
        IfOk-bind _ _ _ d (
          expire_if-IfOk _ _ trade 4 d λ in_time.
            IfOk-const (Acceptable u d.now trade) _ _
              (same_user _ _ to, (negated _ pending, in_time))))))

load_then :
    (u k : ℕ) (d : Db)
    → IfOk
        (λ _ _.
          (trade : TradeOffer) × ((trade_at k d.tables ≡ some trade) × Acceptable u d.now trade))
        ((or_return 1 (db_load_trade k) >>= accept_loaded u) d)
unfolding db_load_trade or_return
load_then u k d = IfOk-bind _ _ _ d (
    let (r, d') = select (trade_at k) d in
    coded-IfOk _ 1 r d' (
      IfOk-select _ (trade_at k) d λ trade e.
        let (q, c) = accept_loaded u trade (spent d) in
        IfOk-mono _ _ q c (λ _ _ fits. (trade, (e, fits)))
          (accept_loaded-Acceptable u trade (spent d))))

-- Where `accept_trade` succeeds, the trade was there, addressed to the user, pending, and its time
-- of expiry had not passed.
pub accept_trade_guards :
    (user_id trade_id : ℕ) (d : Db)
    → IfOk
        (λ _ _.
          (trade : TradeOffer) × ((trade_at trade_id d.tables ≡ some trade)
            × Acceptable user_id d.now trade))
        (accept_trade user_id trade_id d)
unfolding accept_trade
accept_trade_guards u k d = IfOk-bind _ _ _ d (IfOk-return_if _ _ 1 d λ _. load_then u k d)
