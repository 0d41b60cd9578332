-- ===== src/Market/Once.antt =====
-- No listing is sold twice.
use cs.Base.{
  ℕ, ◌≡◌, ◌≢◌, refl, sym, ap, subst, ◌∙◌, inl, inr, Bool, true, false, none, some, arith,
  Bool-cases, if◌then◌else◌,
}
use cs.Types.{User, MarketListing}
use cs.Db.Table.{Rows, find, find-put_self}
use cs.Db.Tables.{Tables}
use cs.Db.Monad.{
  Result, ok, err, Db, refused, spent, pure, fail, write, ◌>>◌, or_rollback, db_commit_transaction,
}
use cs.Db.Monad.Preserves.{SavedHolds}
use cs.Db.Monad.Frame.{
  IfOk, IfOk-bind, IfOk-or_rollback, IfOk-select, IfOk-return_if, IfOk-mono, Keeps, Keeps-write,
  Frame, Frame-of, Frame-bind, Frame-or_rollback, Frame-then, begin-IfOk, commit-IfOk, keeps_rules,
}
use cs.Db.Apart.{Apart, db_load_user-Keeps}
use cs.Db.Users.{db_update_user}
use cs.Db.Listings.{sell_row, db_atomic_mark_listing_sold}
use cs.Market.{pay_seller, hand_over, after_sale, sell, buy_from_market}
use cs.Market.Atomic.{after_sale-Quiet}
use cs.Market.Aftermath.{hand_over-Frame, after_sale-Preserves}

abbrev listings_of : Tables → Rows MarketListing
listings_of t = t.listings

listings_of-Apart : Apart listings_of
listings_of-Apart = record {
  inventories = λ t v. refl;
  instances = λ t v. refl;
  logs = λ t v. refl;
  prices = λ t v. refl;
  quests = λ t v. refl;
  challenges = λ t v. refl;
}

-- The listing `k` is there, and is sold.
abbrev SoldRow : ℕ → Rows MarketListing → Type 0
SoldRow k rows = (l : MarketListing) × ((find k rows ≡ some l) × (l.is_sold ≡ true))

-- Inside the transaction that began at `t`, with the listing sold.
abbrev Selling : Tables → ℕ → Db → Type 0
Selling t k d = (d.saved ≡ some t) × SoldRow k d.tables.listings

module _ {t : Tables} where
  db_update_user-Keeps : (u : User) → Keeps (some t) listings_of (db_update_user u)
  unfolding db_update_user
  db_update_user-Keeps u = Keeps-write _ λ s. refl

  pay_seller-Frame : (b : ℕ) (l : MarketListing) → Frame (some t) listings_of (pay_seller b l)
  unfolding pay_seller
  pay_seller-Frame b l =
      search
        (
          Frame-bind, Frame-or_rollback, Frame-of, db_load_user-Keeps, db_update_user-Keeps,
          keeps_rules,
        )
        depth 12

module _ (t : Tables) (k : ℕ) where
  marked_write :
      (l : MarketListing) (d : Db)
      → d.saved ≡ some t
      → find k d.tables.listings ≡ some l
      → l.is_sold ≡ false
      → IfOk (λ _. Selling t k) (write (λ s. some (sell_row k (find k s.listings) s)) d)
  unfolding write
  marked_write l d i e unsold = elim (Bool-cases (refused d.faults)) [
    | inl f ↦ rw f tt
    | inr f ↦
        rw (f, e, unsold)
          (i, (record l { is_sold = true }, (find-put_self k _ l d.tables.listings e, refl)))
  ]

  changed_or_fail :
      (changed : Bool) (l : MarketListing) (d : Db)
      → Selling t k d
      → IfOk (λ _. Selling t k) ((if changed then pure l else fail 2) d)
  unfolding pure fail
  changed_or_fail true l d h = h
  changed_or_fail false l d h = tt

  mark-Selling :
      (d : Db) → d.saved ≡ some t → IfOk (λ _. Selling t k) (db_atomic_mark_listing_sold k d)
  unfolding db_atomic_mark_listing_sold
  mark-Selling d i = IfOk-bind _ _ _ d (
      IfOk-select _ _ d λ l e. IfOk-bind _ _ _ (spent d) (
        IfOk-return_if _ l.is_sold 2 (spent d) λ unsold. IfOk-bind _ _ _ (spent d) (
          let (r, d') = write (λ s. some (sell_row k (find k s.listings) s)) (spent d) in
          IfOk-mono _ _ r d' (λ changed c h. changed_or_fail changed l c h)
            (marked_write l (spent d) i e unsold))))

  rest-Sold :
      (b : ℕ) (l : MarketListing) (d : Db)
      → Selling t k d
      → IfOk
          (λ _ d'. (d'.saved ≡ none) × SoldRow k d'.tables.listings)
          ((pay_seller b l >> (hand_over b l >> (or_rollback 13 db_commit_transaction >> pure l)))
            d)
  unfolding pure
  rest-Sold b l d (i, sold) =
      Frame-then _ _ _ d.tables.listings d (pay_seller-Frame b l) (i, refl)
        λ _ e j.
          Frame-then _ _ _ d.tables.listings e (hand_over-Frame listings_of-Apart b l) j λ _ e' j'.
            IfOk-bind _ _ _ e' (
              let (r, c) = or_rollback 13 db_commit_transaction e' in
              IfOk-mono _ _ r c (λ _ c' closed. (closed.0, subst (SoldRow k) (sym closed.1) sold))
                (commit-IfOk listings_of t d.tables.listings _ e' j'))

sell-Sold :
    (b k : ℕ) (d : Db)
    → d.saved ≡ none
    → IfOk (λ _ d'. (d'.saved ≡ none) × SoldRow k d'.tables.listings) (sell b k d)
unfolding sell
sell-Sold b k d i = begin-IfOk listings_of _ 12 _ d i λ d' j. IfOk-bind _ _ _ d' (
    IfOk-or_rollback _ _ _ d' (
      let (r, c) = db_atomic_mark_listing_sold k d' in
      IfOk-mono _ _ r c (λ l e h. rest-Sold d.tables k b l e h) (mark-Selling d.tables k d' j.0)))

after_sale-Sold :
    (b k : ℕ) (l : MarketListing) (d : Db)
    → (d.saved ≡ none) × SoldRow k d.tables.listings
    → ((after_sale b l d).1.saved ≡ none) × SoldRow k (after_sale b l d).1.tables.listings
after_sale-Sold b k l d (closed, sold) = (
  ((after_sale-Quiet b l).at d closed).1,
  subst (SoldRow k)
      (sym
        ((after_sale-Preserves listings_of-Apart b l).at d
          (refl, subst (SavedHolds (λ s. s.listings ≡ d.tables.listings)) (sym closed) tt)).0)
      sold,
)

module _ (P : Db → Type 0) {A : Type 0} where
  any_result : (r : Result A) (d : Db) → P d → IfOk (λ _. P) (r, d)
  any_result (ok a) d h = h
  any_result (err n) d h = tt

buy_from_market-Sold :
    (b k : ℕ) (d : Db)
    → d.saved ≡ none
    → IfOk (λ _ d'. (d'.saved ≡ none) × SoldRow k d'.tables.listings) (buy_from_market b k d)
unfolding buy_from_market
buy_from_market-Sold b k d i = IfOk-bind _ _ _ d (
    IfOk-return_if _ _ 1 d λ _. IfOk-bind _ _ _ d (
      let (r, d') = sell b k d in
      IfOk-mono _ _ r d'
        (λ l e h. let (q, c) = after_sale b l e in any_result _ q c (after_sale-Sold b k l e h))
        (sell-Sold b k d i)))

true_not_false : true ≢ false
true_not_false e = ground arith

-- A sold listing stays unsold to everyone else.
same_row :
    (k : ℕ) (rows : Rows MarketListing) (l : MarketListing)
    → SoldRow k rows
    → find k rows ≡ some l
    → l.is_sold ≡ true
same_row k rows l (sold, (e, is)) f =
    ap (λ o. elim o [ none ↦ true | some w ↦ w.is_sold ]) (sym f ∙ e) ∙ is

not_sold_again :
    (b k : ℕ) (d : Db)
    → (d.saved ≡ none) × SoldRow k d.tables.listings
    → IfOk (λ _ _. ⊥) (buy_from_market b k d)
unfolding buy_from_market sell db_atomic_mark_listing_sold
not_sold_again b k d (i, sold) = IfOk-bind _ _ _ d (
    IfOk-return_if _ _ 1 d λ _. IfOk-bind _ _ _ d (
      begin-IfOk listings_of _ 12 _ d i λ d' j. IfOk-bind _ _ _ d' (
        IfOk-or_rollback _ _ _ d' (
          IfOk-bind _ _ _ d' (
            IfOk-select _ _ d' λ l e. IfOk-bind _ _ _ (spent d') (
              IfOk-return_if _ l.is_sold 2 (spent d') λ unsold. absurd (
                true_not_false (
                  sym (same_row k _ l sold (subst (λ rows. find k rows ≡ some l) j.1 e))
                  ∙ unsold))))))))

-- Whatever statement sqlite refuses: from outside a transaction, once `buy_from_market` has
-- succeeded for a listing, no later `buy_from_market` for this listing succeeds on the database that
-- it left, whoever buys.
pub listing_sold_once :
    (first second listing_id : ℕ) (d : Db)
    → d.saved ≡ none
    → IfOk
        (λ _ d'. IfOk (λ _ _. ⊥) (buy_from_market second listing_id d'))
        (buy_from_market first listing_id d)
listing_sold_once b c k d i =
    let (r, d') = buy_from_market b k d in
    IfOk-mono _ _ r d' (λ _ e h. not_sold_again c k e h) (buy_from_market-Sold b k d i)
