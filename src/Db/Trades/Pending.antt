-- ===== src/Db/Trades/Pending.antt =====
-- What `db_is_instance_in_pending_trade` finds: its patterns have no wildcard.
use cs.Base.{
  ℕ, ◌≤◌, ◌≡◌, ◌≢◌, refl, sym, ap, ◌∙◌, inl, inr, Bool, true, false, Option, none, some, List, [],
  ◌∷◌, ◌++◌, map, arith, ◌==◌, length, pos, All, Bool-cases,
}
use cs.Db.Table.{Rows, find}
use cs.Db.Tables.{TradeRow}
use cs.Db.Monad.{ok, Db, M, refused, spent, select, pure, attempt, ◌>>=◌}
use cs.Db.IntArray.{serialize, entries, separated, format_int, format_nat, parse_skins, max_skins}
use cs.Db.IntArray.RoundTrip.{parse_skins-serialize}
use cs.Db.Trades.{
  prepare, is_pending, like, pending_like, pending_query, or_pending, first_pending, pattern1,
  pattern2, pattern3, pattern4, db_is_instance_in_pending_trade,
}

like-equal : (p q : List ℕ) → like p q ≡ true → p ≡ q
like-equal [] [] h = refl
like-equal [] (b ∷ q) h = ground arith
like-equal (a ∷ p) [] h = ground arith
like-equal (a ∷ p) (b ∷ q) h = ground (arith, like-equal p q)

last_or : ℕ → List ℕ → ℕ
last_or d [] = d
last_or d (x ∷ xs) = last_or x xs

last_or-append : (d : ℕ) (xs ys : List ℕ) → last_or d (xs ++ ys) ≡ last_or (last_or d xs) ys
unfolding last_or
last_or-append d [] ys = refl
last_or-append d (x ∷ xs) ys = last_or-append x xs ys

first_or : ℕ → List ℕ → ℕ
first_or d [] = d
first_or d (x ∷ xs) = x

-- The text of an array of at most `max_skins` ids, and not of exactly one.
abbrev pub NotOne : List ℕ → Type 0
NotOne text =
    (xs : List ℕ) × ((text ≡ serialize (map pos xs)) × ((length xs ≤ max_skins) × (length xs ≢ 1)))

pattern1-serialize : (i : ℕ) → pattern1 i ≡ serialize (map pos (i ∷ []))
unfolding pattern1 serialize entries separated format_int
pattern1-serialize i = refl

starts : (xs : List ℕ) → first_or 0 (serialize (map pos xs)) ≡ b'['
unfolding first_or serialize
starts xs = refl

separated-last : (xs : List ℕ) (d : ℕ) → last_or d (separated (map pos xs)) ≡ b']'
unfolding separated last_or
separated-last [] d = refl
separated-last (x ∷ xs) d =
    last_or-append b',' (format_int (pos x)) (separated (map pos xs))
    ∙ separated-last xs (last_or b',' (format_int (pos x)))

ends : (xs : List ℕ) → last_or 0 (serialize (map pos xs)) ≡ b']'
unfolding serialize entries last_or
ends [] = refl
ends (x ∷ xs) =
    last_or-append b'[' (format_int (pos x)) (separated (map pos xs))
    ∙ separated-last xs (last_or b'[' (format_int (pos x)))

pattern2-last : (i : ℕ) → last_or 0 (pattern2 i) ≡ b','
unfolding pattern2 last_or
pattern2-last i = last_or-append b'[' (format_nat i) (b',' ∷ [])

-- The codes of `]`, `[` and the comma.
not_comma : ¬ (◌≡◌ {A = ℕ} 93 44)
not_comma e = omega arith

not_bracket : ¬ (◌≡◌ {A = ℕ} 91 44)
not_bracket e = omega arith

-- A text that is not that of one id is like none of the patterns.
module _ (i : ℕ) (text : List ℕ) (several : NotOne text) where
  unlike1 : text ≢ pattern1 i
  unlike1 e =
      let (xs, (is, (few, ne))) = several in
      let same = ap parse_skins (sym is ∙ (e ∙ pattern1-serialize i)) in
      ne (
        ap length (
          sym (parse_skins-serialize xs few)
          ∙ (same ∙ parse_skins-serialize (i ∷ []) (omega arith))))

  unlike2 : text ≢ pattern2 i
  unlike2 e =
      let (xs, (is, _)) = several in
      not_comma (sym (ends xs) ∙ (ap (last_or 0) (sym is ∙ e) ∙ pattern2-last i))

  unlike_comma : (rest : List ℕ) → text ≢ b',' ∷ rest
  unfolding first_or
  unlike_comma rest e =
      let (xs, (is, _)) = several in not_bracket (sym (starts xs) ∙ ap (first_or 0) (sym is ∙ e))

-- None of the texts of a row is that of one id.
abbrev pub SeveralItems : ℕ × TradeRow → Type 0
SeveralItems (_, r) = NotOne r.offered_skins × NotOne r.requested_skins

-- A pattern that no array of several items is like.
abbrev Misses : List ℕ → Type 0
Misses p = (text : List ℕ) → NotOne text → text ≢ p

not_like : (p text : List ℕ) → Misses p → NotOne text → like text p ≡ false
not_like p text misses several = elim (Bool-cases (like text p)) [
  | inl so ↦ absurd (misses text several (like-equal text p so))
  | inr other ↦ other
]

pending_like-none :
    (p : List ℕ) (t : Rows TradeRow) → Misses p → All SeveralItems t → pending_like p t ≡ false
pending_like-none p [] misses several = refl
pending_like-none p ((_, r) ∷ t) misses ((offered, requested), several) =
    let no1 = not_like p r.offered_skins misses offered in
    let no2 = not_like p r.requested_skins misses requested in
    let rest = pending_like-none p t misses several in ground arith

-- What a query that finds nothing gives: nothing, or none where it is refused.
answer : Bool → Option Bool
answer true = none
answer false = some false

query-none :
    (p : List ℕ) (d : Db)
    → Misses p
    → All SeveralItems d.tables.trades
    → attempt (pending_query p) d ≡ (ok (answer (refused d.faults)), spent d)
unfolding attempt pending_query select answer
query-none p d misses several =
    let none_like = pending_like-none p d.tables.trades misses several in
    elim (Bool-cases (refused d.faults)) [
      | inl so ↦ rw (so) refl
      | inr other ↦ rw (other, none_like) refl
    ]

or_pending-answer : (b : Bool) (rest : M Bool) → or_pending (answer b) rest ≡ rest
unfolding or_pending answer
or_pending-answer true rest = refl
or_pending-answer false rest = refl

-- The last two patterns start with a comma.
module _ (i : ℕ) where
  unlike3 : Misses (pattern3 i)
  unfolding pattern3
  unlike3 text several = unlike_comma i text several (format_nat i ++ (b',' ∷ []))

  unlike4 : Misses (pattern4 i)
  unfolding pattern4
  unlike4 text several = unlike_comma i text several (format_nat i ++ (b']' ∷ []))

-- The four queries find nothing.
queries-none :
    (i : ℕ) (d : Db)
    → All SeveralItems d.tables.trades
    → ((attempt (pending_query (pattern1 i)) >>= λ q1. or_pending q1 (
          attempt (pending_query (pattern2 i)) >>= λ q2. or_pending q2 (
            attempt (pending_query (pattern3 i)) >>= λ q3.
            or_pending q3
              (attempt (pending_query (pattern4 i)) >>= λ q4. or_pending q4 (pure false)))))
        d).0
      ≡ ok false
unfolding ◌>>=◌ pure
queries-none i d several =
    let q1 = query-none (pattern1 i) d (unlike1 i) several in
    let q2 = query-none (pattern2 i) (spent d) (unlike2 i) several in
    let q3 = query-none (pattern3 i) (spent (spent d)) (unlike3 i) several in
    let q4 = query-none (pattern4 i) (spent (spent (spent d))) (unlike4 i) several in
    rw (q1, or_pending-answer, q2, or_pending-answer, q3, or_pending-answer, q4, or_pending-answer)
      refl

-- Where every array of every trade holds at most `max_skins` ids and not exactly one,
-- `db_is_instance_in_pending_trade` answers 0 for every instance, also for one that a pending
-- trade offers among several, and whichever of its queries sqlite refuses.
pub pending_only_alone :
    (i : ℕ) (d : Db)
    → All SeveralItems d.tables.trades
    → (db_is_instance_in_pending_trade i d).0 ≡ ok false
unfolding db_is_instance_in_pending_trade ◌>>=◌ pure first_pending attempt prepare select
pending_only_alone i d several = elim (Bool-cases (i == 0)) [
  | inl so ↦ rw (so) refl
  | inr other ↦ elim (Bool-cases (refused d.faults)) [
    | inl so ↦ rw (other, so) refl
    | inr well ↦ rw (other, well) (queries-none i (spent d) several)
  ]
]

like_refl : (p : List ℕ) → like p p ≡ true
like_refl [] = refl
like_refl (a ∷ p) = ground (arith, like_refl p)

pending_like-found :
    (p : List ℕ) (k : ℕ) (row : TradeRow) (t : Rows TradeRow)
    → find k t ≡ some row
    → is_pending row.status ≡ true
    → like row.offered_skins p ≡ true
    → pending_like p t ≡ true
pending_like-found p k row [] found pending alike = ground arith
pending_like-found p k row ((j, r) ∷ t) found pending alike =
    ground (arith, pending_like-found p k row t)

-- Where sqlite does not refuse the first query, neither when it is prepared nor at its step, and a pending trade offers exactly the one
-- instance, `db_is_instance_in_pending_trade` answers 1.
pub pending_alone_found :
    (i k : ℕ) (row : TradeRow) (d : Db)
    → i == 0 ≡ false
    → refused d.faults ≡ false
    → refused (spent d).faults ≡ false
    → find k d.tables.trades ≡ some row
    → is_pending row.status ≡ true
    → row.offered_skins ≡ serialize (pos i ∷ [])
    → (db_is_instance_in_pending_trade i d).0 ≡ ok true
unfolding db_is_instance_in_pending_trade ◌>>=◌ attempt pending_query select first_pending prepare
    or_pending pure
pending_alone_found i k row d known well again found pending alone =
    let alike : like row.offered_skins (pattern1 i) ≡ true =
      ap (λ s. like s (pattern1 i)) (alone ∙ sym (pattern1-serialize i)) ∙ like_refl (pattern1 i) in
    rw
      (
        known,
        well,
        again,
        pending_like-found (pattern1 i) k row d.tables.trades found pending alike,
      )
      refl
