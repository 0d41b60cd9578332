-- ===== src/Market/Money.antt =====
-- The money of a sale on the market.
use cs.Base.{
  ℕ, ◌+◌, ◌-◌, ◌*◌, ◌/◌, ◌≤◌, ◌≡◌, ◌≢◌, refl, sym, subst, ap, inl, inr, Bool, true, false, none,
  some, arith, ltb, ◌==◌, Bool-cases, if◌then◌else◌, ◌||◌,
}
use cs.Float.{rounded, rounded-Near, Near}
use cs.Types.{User, MarketListing}
use cs.Db.Table.{find}
use cs.Db.Tables.{Tables}
use cs.Db.Monad.{
  Result, ok, err, Db, spent, pure, fail, write, continue, ◌>>=◌, ◌>>◌, return_if, or_rollback,
  db_commit_transaction,
}
use cs.Db.Monad.Preserves.{SavedHolds}
use cs.Db.Monad.Frame.{
  IfOk, IfOk-bind, IfOk-or_rollback, IfOk-select, IfOk-return_if, IfOk-mono, Within, Frame,
  Frame-of, Frame-then, begin-IfOk, commit-IfOk, Keeps-write,
}
use cs.Db.Monad.Atomic.{Done}
use cs.Db.Monad.Quiet.{IsOk}
use cs.Db.Users.{user_at, db_update_user}
use cs.Db.Listings.{sell_row, db_atomic_mark_listing_sold}
use cs.Db.Money.{
  money-Apart, money, pair_updates, pair-money, load_user_then, test_then, sell_row-money,
}
use cs.Market.{
  listing_fee, market_fee, seller_payout, pay_seller, hand_over, after_sale, sell, buy_from_market,
}
use cs.Market.Aftermath.{hand_over-Frame, after_sale-Preserves}
use cs.Market.Atomic.{sell-Atomic, after_sale-Quiet}

-- After a sale at this price the sum of all balances is the sum before, less 15 % of the price and
-- with the listing fee, up to one part in 2^21.
abbrev pub Balanced : ℕ → ℕ → ℕ → Type 0
Balanced after before price = Near 21 (after * 20 + price * 3) ((before + listing_fee) * 20)

-- What the seller receives is 85 % of the price and the listing fee, up to one part in 2^22.
payout-Near :
    (p fee : ℕ)
    → 16777216 ≤ fee
    → Near 22 (rounded (rounded (p - market_fee p) + fee) * 20) (p * 17 + fee * 20)
payout-Near p fee h =
    let charged = rounded-Near (p * 10066330 / 67108864) in
    let left = rounded-Near (p - market_fee p) in
    let paid = rounded-Near (rounded (p - market_fee p) + fee) in (omega arith, omega arith)

sale :
    (m' m u v p : ℕ)
    → ltb u p ≡ false
    → u + v ≤ m
    → m' + (u + v) ≡ m + (rounded (u - p) + rounded (v + seller_payout p))
    → Balanced m' m p
unfolding seller_payout
sale m' m u v p h low e =
    let debited = rounded-Near (u - p) in
    let credited = rounded-Near (v + rounded (rounded (p - market_fee p) + listing_fee)) in
    let paid = payout-Near p listing_fee (omega arith) in
    let enough : p ≤ u = ground arith in (omega arith, omega arith)

other_user : (s b : ℕ) → (s == b) ≡ false → b ≢ s
other_user s b e = ground arith

-- What the sale of the listing `k` for the price of `l` leaves, from the tables `t`.
abbrev Paid : Tables → ℕ → MarketListing → Db → Type 0
Paid t k l d =
    (find k t.listings ≡ some l)
    × ((l.is_sold ≡ false) × Balanced (money d.tables) (money t) l.price)

-- The listing `k` was in the tables `t`, and was not sold.
abbrev Marked : Tables → ℕ → MarketListing → Db → Type 0
Marked t k l d =
    Within (some t) money (money t) d × ((find k t.listings ≡ some l) × (l.is_sold ≡ false))

if_changed :
    (Q : MarketListing → Db → Type 0) (changed : Bool) (l : MarketListing) (d : Db)
    → Q l d
    → IfOk Q ((if changed then pure l else fail 2) d)
unfolding pure fail
if_changed Q true l d h = h
if_changed Q false l d h = tt

mark_write-Frame :
    (t : Tables) (k : ℕ) → Frame (some t) money (write λ s. some (sell_row k (find k s.listings) s))
mark_write-Frame t k = Frame-of _ (Keeps-write _ λ s. sell_row-money k (find k s.listings) s)

module _ (t : Tables) where
  updates :
      (b : ℕ) (l : MarketListing) (d : Db) (u v : User)
      → Within (some t) money (money t) d
      → b ≢ l.seller_id
      → user_at b d.tables ≡ some u
      → user_at l.seller_id d.tables ≡ some v
      → ltb u.balance l.price ≡ false
      → IfOk
          (λ _ d'. (d'.saved ≡ some t) × Balanced (money d'.tables) (money t) l.price)
          ((or_rollback 7 (db_update_user (record u { balance = rounded (u.balance - l.price) }))
              >> or_rollback 8 (
                  db_update_user
                    (record v { balance = rounded (v.balance + seller_payout l.price) })))
            d)
  updates b l d u v i ne e f enough =
      let p = rounded (u.balance - l.price) in
      let q = rounded (v.balance + seller_payout l.price) in
      IfOk-mono {A = Unit {0}}
        (λ _ d'. (d'.saved ≡ some t) × Balanced (money d'.tables) (money t) l.price) _ _ _
        (λ _ d'' h. (
          h.0,
          subst (λ n. Balanced (money d''.tables) n l.price) i.1
              (sale (money d''.tables) (money d.tables) u.balance v.balance l.price enough
                (pair-money d.tables b l.seller_id u v ne e f) h.1),
        ))
        (pair_updates 7 8 b l.seller_id p q u v t d i.0 ne e f)

  pay_seller-IfOk :
      (b : ℕ) (l : MarketListing) (d : Db)
      → Within (some t) money (money t) d
      → IfOk
          (λ _ d'. (d'.saved ≡ some t) × Balanced (money d'.tables) (money t) l.price)
          (pay_seller b l d)
  unfolding pay_seller
  pay_seller-IfOk b l d i = test_then _ _ 3 3 _ d λ other. load_user_then _ 4 b _ d λ u eu.
      test_then _ _ 5 5 _ (spent d) λ enough.
        load_user_then _ 6 l.seller_id _ (spent d)
          λ v ev. updates b l (spent (spent d)) u v i (other_user l.seller_id b other) eu ev enough

  -- The listing that is sold is the row that was not sold before.
  mark-IfOk :
      (k : ℕ) (d : Db)
      → Within (some t) (λ s. s) t d
      → IfOk (Marked t k) (db_atomic_mark_listing_sold k d)
  unfolding db_atomic_mark_listing_sold
  mark-IfOk k d i = IfOk-bind _ _ _ d (
      IfOk-select _ _ d λ l e. IfOk-bind _ _ _ (spent d) (
        IfOk-return_if _ l.is_sold 2 (spent d) λ unsold.
          Frame-then _ _ _ (money t) (spent d) (mark_write-Frame t k) (i.0, ap money i.1)
            λ changed d' j.
              if_changed (Marked t k) changed l d'
                (j, (subst (λ s. find k s.listings ≡ some l) i.1 e, unsold))))

  -- The rest of the transaction, once the listing has been marked.
  rest-IfOk :
      (b k : ℕ) (l : MarketListing) (d : Db)
      → Marked t k l d
      → IfOk
          (λ l' d'. (d'.saved ≡ none) × Paid t k l' d')
          ((pay_seller b l >> (hand_over b l >> (or_rollback 13 db_commit_transaction >> pure l)))
            d)
  unfolding pure
  rest-IfOk b k l d (i, h) = IfOk-bind _ _ _ d (
      let (r, d') = pay_seller b l d in
      IfOk-mono _ _ r d'
        (λ _ e paid.
          Frame-then _ _ _ (money e.tables) e (hand_over-Frame money-Apart b l) (paid.0, refl)
            λ _ e' j. IfOk-bind _ _ _ e' (
              let (q, c) = or_rollback 13 db_commit_transaction e' in
              IfOk-mono _ _ q c
                (λ _ c' closed. (
                  closed.0,
                  (h.0, (h.1, subst (λ n. Balanced n (money t) l.price) (sym closed.1) paid.1)),
                ))
                (commit-IfOk money t (money e.tables) _ e' j)))
        (pay_seller-IfOk b l d i))

-- From BEGIN to COMMIT.
sell-IfOk :
    (b k : ℕ) (d : Db)
    → d.saved ≡ none
    → IfOk (λ l d'. (d'.saved ≡ none) × Paid d.tables k l d') (sell b k d)
unfolding sell
sell-IfOk b k d i =
    begin-IfOk (λ s. s) _ 12 _ d i
      λ d' j. IfOk-bind _ _ _ d' (
        IfOk-or_rollback _ _ _ d' (
          let (r, c) = db_atomic_mark_listing_sold k d' in
          IfOk-mono _ _ r c (λ l e h. rest-IfOk d.tables b k l e h) (mark-IfOk d.tables k d' j)))

-- The row of `listing_id` was for sale, and the sum of all balances falls by 15 % of its price and
-- rises by the listing fee.
abbrev pub Sold : {A : Type 0} → ℕ → Tables → Result A × Db → Type 0
Sold listing_id t (err _, d) = d.tables ≡ t
Sold listing_id t (ok _, d) = (l : MarketListing) × Paid t listing_id l d

module _ (b k : ℕ) (t : Tables) where
  -- What follows the COMMIT leaves the money as it is.
  kept_money :
      (l : MarketListing) (d : Db)
      → d.saved ≡ none
      → money (after_sale b l d).1.tables ≡ money d.tables
  kept_money l d closed =
      ((after_sale-Preserves money-Apart b l).at d
        (refl, subst (SavedHolds (λ s. money s ≡ money d.tables)) (sym closed) tt)).0

  quiet_Sold :
      (l : MarketListing) (r : Result Unit) (d : Db) → IsOk r → Paid t k l d → Sold k t (r, d)
  quiet_Sold l (ok _) d h p = (l, p)
  quiet_Sold l (err _) d h p = absurd h

  after_sell :
      (r : Result MarketListing) (d : Db)
      → Done t (r, d)
      → IfOk (λ l d'. (d'.saved ≡ none) × Paid t k l d') (r, d)
      → Sold k t (continue r (after_sale b) d)
  after_sell (err _) d i h = i.1
  after_sell (ok l) d i (closed, (listed, (unsold, paid))) =
      let (r, d') = after_sale b l d in
      quiet_Sold l r d' ((after_sale-Quiet b l).at d closed).0 (
        listed,
        (unsold, subst (λ n. Balanced n (money t) l.price) (sym (kept_money l d closed)) paid),
      )

-- From outside a transaction, whatever statement sqlite refuses: where `buy_from_market` succeeds,
-- the listing existed and was not sold before, and the sum of all balances and 15 % of its price are
-- the sum before and the listing fee, up to one part in 2^21, which is what the `float` operations of
-- a sale round. Where it fails, the tables are as they were.
pub buy_from_market_money :
    (buyer_id listing_id : ℕ) (d : Db)
    → d.saved ≡ none
    → Sold listing_id d.tables (buy_from_market buyer_id listing_id d)
unfolding buy_from_market return_if ◌>>=◌
buy_from_market_money b k d i = elim (Bool-cases (b == 0 || k == 0)) [
  | inl e ↦ rw e refl
  | inr e ↦ rw e (
      let (r, d') = sell b k d in
      after_sell b k d.tables r d' ((sell-Atomic b k).at d i) (sell-IfOk b k d i))
]
