-- ===== src/Challenges/Closed.antt =====
-- The states of a challenge: one that is completed or cancelled stays as it is.
use cs.Base.{
  ℕ, ◌≡◌, ◌≢◌, refl, sym, subst, ap, ◌∙◌, inl, inr, Bool, true, false, not, Option, none, some, [],
  ◌∷◌, ◌++◌, ◌==◌, arith, Bool-cases, Option-cases, if◌then◌else◌, ==→eq,
}
use cs.Types.{
  User, TradingChallenge, ChallengeStatus, challenge_pending, challenge_active, challenge_completed,
  challenge_cancelled,
}
use cs.Db.Table.{Rows, find}
use cs.Db.Tables.{Tables}
use cs.Db.Monad.{Db, M, refused, spent, select, or_return, ◌>>=◌, return_if}
use cs.Db.Monad.Preserves.{
  SavedHolds, Inv, Preserves, Preserves-write, Preserves-bind, preserves_rules,
}
use cs.Challenges.{
  insert_challenge, create_profit_race_challenge, get_challenge, update_challenge_progress,
  accept_challenge, is_active, is_open, is_challenge_pending,
}
use cs.Challenges.Finish.{
  reward_user, reward_winner, award, complete_challenge, penalise, after_vote, cancel_challenge,
}
use cs.Challenges.Kept.{
  calculate_net_worth-Preserves, db_load_user-Preserves, get_challenge-Preserves, blocked-Preserves,
  written, Row, update_challenge-Row, db_update_user-Row,
}

abbrev pub IsClosed : ChallengeStatus → Type 0
IsClosed challenge_pending = ⊥
IsClosed challenge_active = ⊥
IsClosed challenge_completed = Unit {0}
IsClosed challenge_cancelled = Unit {0}

pub not_active : (s : ChallengeStatus) → IsClosed s → not (is_active s) ≡ true
not_active challenge_pending h = absurd h
not_active challenge_active h = absurd h
not_active challenge_completed h = refl
not_active challenge_cancelled h = refl

not_open : (s : ChallengeStatus) → IsClosed s → not (is_open s) ≡ true
not_open challenge_pending h = absurd h
not_open challenge_active h = absurd h
not_open challenge_completed h = refl
not_open challenge_cancelled h = refl

not_pending : (s : ChallengeStatus) → IsClosed s → not (is_challenge_pending s) ≡ true
not_pending challenge_pending h = absurd h
not_pending challenge_active h = absurd h
not_pending challenge_completed h = refl
not_pending challenge_cancelled h = refl

row_is : (c x : TradingChallenge) (o : Option TradingChallenge) → o ≡ some c → o ≡ some x → c ≡ x
row_is c x o e f = ap (λ p. elim p [ none ↦ c | some r ↦ r ]) (sym e ∙ f)

differs : (j k : ℕ) → (j == k) ≡ false → j ≢ k
differs j k h e = ground arith

module _ (k : ℕ) (c : TradingChallenge) {B : Type 0} where
  -- A call on challenge `j` that reads it first: `f` can count on the row that it gets.
  read_then :
      (j n : ℕ) (f : TradingChallenge → M B)
      → ((x : TradingChallenge) → (j ≡ k → c ≡ x) → Preserves (Row k c) (f x))
      → Preserves (Row k c) (or_return n (get_challenge j) >>= f)
  unfolding get_challenge or_return select return_if ◌>>=◌
  read_then j n f h = record {
    at = λ d i. elim (Bool-cases (j == 0)) [
      | inl zero ↦ rw zero i
      | inr id ↦ elim (Bool-cases (refused d.faults)) [
        | inl so ↦ rw (id, so) i
        | inr well ↦ elim (Option-cases (find j d.tables.challenges)) [
          | inl nowhere ↦ rw (id, well, nowhere) i
          | inr (x, at) ↦
              rw (id, well, at)
                ((h x (λ same.
                    row_is c x (find k d.tables.challenges) i.0
                      (subst (λ m. find m d.tables.challenges ≡ some x) same at))).at
                  (spent d) i)
        ]
      ]
    ];
  }

  -- The two cases of a call on challenge `j`: it is `k`, and its row is `c`, or it is another.
  own_or_other :
      (j n : ℕ) (f : TradingChallenge → M B)
      → Preserves (Row k c) (f c)
      → (j ≢ k → (x : TradingChallenge) → Preserves (Row k c) (f x))
      → Preserves (Row k c) (or_return n (get_challenge j) >>= f)
  own_or_other j n f same other = elim (Bool-cases (j == k)) [
    | inl is ↦ read_then j n f λ x e. subst (λ y. Preserves (Row k c) (f y)) (e (==→eq j k is)) same
    | inr apart ↦ read_then j n f λ x e. other (differs j k apart) x
  ]

module _ (k : ℕ) (c : TradingChallenge) (closed : IsClosed c.status) where
  update_challenge_progress-Row : (j : ℕ) → Preserves (Row k c) (update_challenge_progress j)
  unfolding update_challenge_progress
  update_challenge_progress-Row j =
      own_or_other k c j 1 _ (blocked-Preserves _ 2 _ (not_active c.status closed))
        λ ne x. search (preserves_rules, calculate_net_worth-Preserves, update_challenge-Row, ne)

  accept_challenge-Row : (j u : ℕ) → Preserves (Row k c) (accept_challenge j u)
  unfolding accept_challenge
  accept_challenge-Row j u =
      own_or_other k c j 1 _
        (Preserves-bind _ _ (search preserves_rules)
          λ _. blocked-Preserves _ 3 _ (not_pending c.status closed))
        λ ne x. search (preserves_rules, update_challenge-Row, ne)

  reward_user-Row : (u : Option User) → Preserves (Row k c) (reward_user u)
  unfolding reward_user
  reward_user-Row none = search preserves_rules
  reward_user-Row (some u) = search (preserves_rules, db_update_user-Row)

  reward_winner-Row : (w : ℕ) → Preserves (Row k c) (reward_winner w)
  unfolding reward_winner
  reward_winner-Row w = search (preserves_rules, db_load_user-Preserves, reward_user-Row)

  award-Row : (j w : ℕ) → j ≢ k → Preserves (Row k c) (award j w)
  unfolding award
  award-Row j w ne = search (preserves_rules, reward_winner-Row, update_challenge-Row, ne) depth 12

  complete_challenge-Row : (j : ℕ) → Preserves (Row k c) (complete_challenge j)
  unfolding complete_challenge
  complete_challenge-Row j =
      own_or_other k c j 1 _ (blocked-Preserves _ 2 _ (not_active c.status closed)) λ ne x.
        search
          (preserves_rules, update_challenge_progress-Row, get_challenge-Preserves, award-Row, ne)
          depth 10

  penalise-Row : (j : ℕ) (x : TradingChallenge) → j ≢ k → Preserves (Row k c) (penalise j x)
  unfolding penalise
  penalise-Row j x ne =
      search (preserves_rules, db_load_user-Preserves, db_update_user-Row, update_challenge-Row, ne)
        depth 12

  after_vote-Row : (j : ℕ) (x : TradingChallenge) → j ≢ k → Preserves (Row k c) (after_vote j x)
  unfolding after_vote
  after_vote-Row j x ne = search (preserves_rules, update_challenge-Row, penalise-Row, ne) depth 10

  cancel_challenge-Row : (j u : ℕ) → Preserves (Row k c) (cancel_challenge j u)
  unfolding cancel_challenge
  cancel_challenge-Row j u =
      own_or_other k c j 1 _
        (Preserves-bind _ _ (search preserves_rules)
          λ _. blocked-Preserves _ 3 _ (not_open c.status closed))
        λ ne x.
          search
            (preserves_rules, update_challenge-Row, get_challenge-Preserves, after_vote-Row, ne)
            depth 12

find-append :
    {R : Type 0} (k : ℕ) (r : R) (t u : Rows R) → find k t ≡ some r → find k (t ++ u) ≡ some r
find-append k r [] u h = ground arith
find-append k r (e ∷ t) u h = ground (arith, find-append k r t u)

module _ (k : ℕ) (c : TradingChallenge) where
  written_if :
      {A : Type 0} (b : Bool) (a a' : A) (s t' : Tables)
      → Row k c s
      → if◌then◌else◌ {A = Option (A × Tables)} b (some (a, s)) none ≡ some (a', t')
      → Row k c t'
  written_if true a a' s t' h e = subst (Row k c) (ap (written s) e) h
  written_if false a a' s t' h e = ground arith

  insert_challenge-Row : (u v p q now n : ℕ) → Preserves (Row k c) (insert_challenge u v p q now n)
  unfolding insert_challenge
  insert_challenge-Row u v p q now n =
      Preserves-write _ λ t h a t' e. written_if _ _ a _ t' (find-append k c t.challenges _ h) e

  create-Row : (u v n : ℕ) → Preserves (Row k c) (create_profit_race_challenge u v n)
  unfolding create_profit_race_challenge
  create-Row u v n =
      search
        (
          preserves_rules, db_load_user-Preserves, calculate_net_worth-Preserves,
          insert_challenge-Row,
        )
        depth 14

-- The calls on challenges, one after the other, whatever user asks for each and whatever statement
-- sqlite refuses; between two of them time passes.
pub data Run : Db → Db → Type 0 where
  still : {d : Db} → Run d d
  passes : {d d' : Db} (e : Db) → Run d d' → e.tables ≡ d'.tables → e.saved ≡ d'.saved → Run d e
  creates :
      {d d' : Db} (u v minutes : ℕ)
      → Run d d'
      → Run d (create_profit_race_challenge u v minutes d').1
  accepts : {d d' : Db} (j u : ℕ) → Run d d' → Run d (accept_challenge j u d').1
  progresses : {d d' : Db} (j : ℕ) → Run d d' → Run d (update_challenge_progress j d').1
  completes : {d d' : Db} (j : ℕ) → Run d d' → Run d (complete_challenge j d').1
  cancels : {d d' : Db} (j u : ℕ) → Run d d' → Run d (cancel_challenge j u d').1

Run-Row :
    (k : ℕ) (c : TradingChallenge) {d d' : Db}
    → IsClosed c.status
    → Run d d'
    → Inv (Row k c) d
    → Inv (Row k c) d'
Run-Row k c closed still i = i
Run-Row k c closed (passes e r t s) i =
    let j = Run-Row k c closed r i in
    (subst (Row k c) (sym t) j.0, subst (SavedHolds (Row k c)) (sym s) j.1)
Run-Row k c closed (creates {d} {d'} u v n r) i =
    (create-Row k c u v n).at d' (Run-Row k c closed r i)
Run-Row k c closed (accepts {d} {d'} j u r) i =
    (accept_challenge-Row k c closed j u).at d' (Run-Row k c closed r i)
Run-Row k c closed (progresses {d} {d'} j r) i =
    (update_challenge_progress-Row k c closed j).at d' (Run-Row k c closed r i)
Run-Row k c closed (completes {d} {d'} j r) i =
    (complete_challenge-Row k c closed j).at d' (Run-Row k c closed r i)
Run-Row k c closed (cancels {d} {d'} j u r) i =
    (cancel_challenge-Row k c closed j u).at d' (Run-Row k c closed r i)

-- In every run from outside a transaction, a challenge that is completed or cancelled keeps its
-- row, and with it its status, its profits and its times.
pub closed_challenge_stays :
    (k : ℕ) (c : TradingChallenge) (d d' : Db)
    → IsClosed c.status
    → d.saved ≡ none
    → find k d.tables.challenges ≡ some c
    → Run d d'
    → find k d'.tables.challenges ≡ some c
closed_challenge_stays k c d d' closed outside at r =
    (Run-Row k c closed r (at, subst (SavedHolds (Row k c)) (sym outside) tt)).0
