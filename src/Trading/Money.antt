-- ===== src/Trading/Money.antt =====
-- A trade moves money between its two users, and makes and loses none but by rounding.
use cs.Base.{
  ℕ, ◌+◌, ◌-◌, ◌≤◌, ◌≡◌, ◌≢◌, refl, sym, subst, inl, inr, false, some, arith, ltb, Bool-cases,
}
use cs.Float.{rounded, rounded-Near, Near}
use cs.Types.{User, TradeOffer}
use cs.Db.Tables.{Tables}
use cs.Db.Monad.{Db, spent, ◌>>◌, or_rollback, pure}
use cs.Db.Monad.Frame.{IfOk, IfOk-bind, IfOk-mono, Within, Frame-of, Frame-then}
use cs.Db.Users.{user_at, db_update_user}
use cs.Db.Money.{money, pair_updates, pair-money, load_user_then, test_then}
use cs.Trading.Moves.{move_entries-Frame, after_trade-Keeps}
use cs.Db.Money.{money-Apart}
use cs.Trading.{after_trade, pay_offered, pay_requested, execute_trade_internal}

-- What one has less the other has more, but for the rounding of the two balances.
payment :
    (m' m u v c : ℕ)
    → ltb u c ≡ false
    → u + v ≤ m
    → m' + (u + v) ≡ m + (rounded (u - c) + rounded (v + c))
    → Near 24 m' m
payment m' m u v c h low e =
    let paid = rounded-Near (u - c) in
    let received = rounded-Near (v + c) in
    let enough : c ≤ u = ground arith in (omega arith, omega arith)

payback :
    (m' m u v c : ℕ)
    → ltb v c ≡ false
    → u + v ≤ m
    → m' + (u + v) ≡ m + (rounded (u + c) + rounded (v - c))
    → Near 24 m' m
payback m' m u v c h low e =
    let paid = rounded-Near (v - c) in
    let received = rounded-Near (u + c) in
    let enough : c ≤ v = ground arith in (omega arith, omega arith)

pub same-Near : (k m : ℕ) → Near k m m
same-Near k m = (grind arith, grind arith)

two_payments : (a b c : ℕ) → Near 24 a b → Near 24 b c → Near 22 a c
two_payments a b c h k = (omega arith, omega arith)

-- The transaction that began with `t` is open, and the sum is near to `x`.
abbrev pub Close : ℕ → Tables → ℕ → Db → Type 0
Close k t x d = (d.saved ≡ some t) × Near k (money d.tables) x

module _ {t : Tables} where
  -- Where the payer has the cash, the two updates cancel out.
  offered_moves :
      (o : TradeOffer) (d : Db) (u v : User)
      → o.from_user_id ≢ o.to_user_id
      → d.saved ≡ some t
      → user_at o.from_user_id d.tables ≡ some u
      → user_at o.to_user_id d.tables ≡ some v
      → ltb u.balance o.offered_cash ≡ false
      → IfOk
          (λ _. Close 24 t (money d.tables))
          ((or_rollback 11
                (db_update_user (record u { balance = rounded (u.balance - o.offered_cash) }))
              >> or_rollback 12
                  (db_update_user (record v { balance = rounded (v.balance + o.offered_cash) })))
            d)
  offered_moves o d u v ne i e f enough =
      IfOk-mono {A = Unit {0}} (λ _. Close 24 t (money d.tables)) _ _ _
        (λ _ e' h. (
          h.0,
          payment (money e'.tables) (money d.tables) u.balance v.balance o.offered_cash enough
              (pair-money d.tables o.from_user_id o.to_user_id u v ne e f) h.1,
        ))
        (pair_updates 11 12 o.from_user_id o.to_user_id (rounded (u.balance - o.offered_cash))
          (rounded (v.balance + o.offered_cash)) u v t d i ne e f)

  pay_offered-IfOk :
      (o : TradeOffer) (d : Db)
      → o.from_user_id ≢ o.to_user_id
      → d.saved ≡ some t
      → IfOk (λ _. Close 24 t (money d.tables)) (pay_offered o d)
  unfolding pay_offered pure
  pay_offered-IfOk o d ne i = elim (Bool-cases (ltb 0 o.offered_cash)) [
    | inl e ↦ rw e (
        load_user_then _ 8 o.from_user_id _ d λ u eu.
          load_user_then _ 9 o.to_user_id _ (spent d) λ v ev.
            test_then _ _ 10 10 _ (spent (spent d))
              λ enough. offered_moves o (spent (spent d)) u v ne i eu ev enough)
    | inr e ↦ rw e (i, same-Near 24 (money d.tables))
  ]

  requested_moves :
      (o : TradeOffer) (d : Db) (u v : User)
      → o.from_user_id ≢ o.to_user_id
      → d.saved ≡ some t
      → user_at o.from_user_id d.tables ≡ some u
      → user_at o.to_user_id d.tables ≡ some v
      → ltb v.balance o.requested_cash ≡ false
      → IfOk
          (λ _. Close 24 t (money d.tables))
          ((or_rollback 16
                (db_update_user (record u { balance = rounded (u.balance + o.requested_cash) }))
              >> or_rollback 17
                  (db_update_user (record v { balance = rounded (v.balance - o.requested_cash) })))
            d)
  requested_moves o d u v ne i e f enough =
      IfOk-mono {A = Unit {0}} (λ _. Close 24 t (money d.tables)) _ _ _
        (λ _ e' h. (
          h.0,
          payback (money e'.tables) (money d.tables) u.balance v.balance o.requested_cash enough
              (pair-money d.tables o.from_user_id o.to_user_id u v ne e f) h.1,
        ))
        (pair_updates 16 17 o.from_user_id o.to_user_id (rounded (u.balance + o.requested_cash))
          (rounded (v.balance - o.requested_cash)) u v t d i ne e f)

  pay_requested-IfOk :
      (o : TradeOffer) (d : Db)
      → o.from_user_id ≢ o.to_user_id
      → d.saved ≡ some t
      → IfOk (λ _. Close 24 t (money d.tables)) (pay_requested o d)
  unfolding pay_requested pure
  pay_requested-IfOk o d ne i = elim (Bool-cases (ltb 0 o.requested_cash)) [
    | inl e ↦ rw e (
        load_user_then _ 13 o.from_user_id _ d λ u eu.
          load_user_then _ 14 o.to_user_id _ (spent d) λ v ev.
            test_then _ _ 15 15 _ (spent (spent d))
              λ enough. requested_moves o (spent (spent d)) u v ne i eu ev enough)
    | inr e ↦ rw e (i, same-Near 24 (money d.tables))
  ]

  -- The two payments and what follows them.
  payments-IfOk :
      (o : TradeOffer) (d : Db)
      → o.from_user_id ≢ o.to_user_id
      → d.saved ≡ some t
      → IfOk
          (λ _. Close 22 t (money d.tables))
          ((pay_offered o >> (pay_requested o >> after_trade o.from_user_id o.to_user_id)) d)
  payments-IfOk o d ne i = IfOk-bind _ _ _ d (
      IfOk-mono {A = Unit {0}}
        (λ _ e.
          IfOk (λ _. Close 22 t (money d.tables))
            ((pay_requested o >> after_trade o.from_user_id o.to_user_id) e))
        _ _ _
        (λ _ e h. IfOk-bind _ _ _ e (
          IfOk-mono {A = Unit {0}}
            (λ _ e'.
              IfOk (λ _. Close 22 t (money d.tables)) (after_trade o.from_user_id o.to_user_id e'))
            _ _ _
            (λ _ e' k.
              IfOk-mono {A = Unit {0}} (λ _. Close 22 t (money d.tables)) _ _ _
                (λ _ e'' l. (
                  l.0,
                  subst (λ n. Near 22 n (money d.tables)) (sym l.1)
                      (two_payments (money e'.tables) (money e.tables) (money d.tables) k.1 h.1),
                ))
                ((Frame-of _ (after_trade-Keeps money-Apart o.from_user_id o.to_user_id)).at
                  (money e'.tables) e' (k.0, refl)))
            (pay_requested-IfOk o e ne h.0)))
        (pay_offered-IfOk o d ne i))

  pub execute_trade_internal-IfOk :
      (o : TradeOffer) (x : ℕ) (d : Db)
      → o.from_user_id ≢ o.to_user_id
      → Within (some t) money x d
      → IfOk (λ _. Close 22 t x) (execute_trade_internal o d)
  unfolding execute_trade_internal
  execute_trade_internal-IfOk o x d ne i =
      Frame-then _ _ _ x d (move_entries-Frame money-Apart _ _ 2 3 4 o.offered_skins) i λ _ e j.
        Frame-then _ _ _ x e (move_entries-Frame money-Apart _ _ 5 6 7 o.requested_skins) j
          λ _ e' k.
            subst
              (λ n.
                IfOk (λ _. Close 22 t n)
                  ((pay_offered o >> (pay_requested o >> after_trade o.from_user_id o.to_user_id))
                    e'))
              k.1 (payments-IfOk o e' ne k.0)
