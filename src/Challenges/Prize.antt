-- ===== src/Challenges/Prize.antt =====
-- The prize of a challenge is paid once.
use cs.Base.{
  ℕ, ◌≡◌, refl, sym, subst, ap, ◌∙◌, inl, inr, true, false, Option, none, some, ◌==◌, arith,
  Bool-cases, Option-cases,
}
use cs.Types.{User, TradingChallenge, challenge_completed}
use cs.Db.Table.{find, has, has-put, find-put_self}
use cs.Db.Tables.{Tables}
use cs.Db.Monad.{
  Result, ok, err, Db, M, refused, select, or_return, continue, ◌>>=◌, return_if, pure,
  db_commit_transaction, or_rollback,
}
use cs.Db.Monad.Preserves.{SavedHolds, Inv, Preserves, Preserves-write, preserves_rules}
use cs.Db.Monad.Frame.{IfOk, IfOk-bind, IfOk-mono, IfOk-or_rollback, IfOk-write}
use cs.Db.Users.{db_update_user}
use cs.Challenges.{get_challenge, challenge_update, update_challenge, update_challenge_progress}
use cs.Challenges.Finish.{
  reward_user, reward_winner, winner_of, reloaded, award, complete_challenge,
}
use cs.Challenges.Kept.{
  calculate_net_worth-Preserves, db_load_user-Preserves, get_challenge-Preserves, written, Row,
}
use cs.Challenges.Closed.{IsClosed, not_active, Run, closed_challenge_stays}

module _ {Q : Tables → Type 0} {A B : Type 0} (R : B → Db → Type 0) where
  continue-IfOk :
      (r : Result A) (f : A → M B) (d : Db)
      → Inv Q d
      → ((a : A) (e : Db) → Inv Q e → IfOk R (f a e))
      → IfOk R (continue r f d)
  continue-IfOk (ok a) f d i h = h a d i
  continue-IfOk (err n) f d i h = tt

  -- What follows a call that keeps `Q`.
  kept_then :
      (m : M A) (f : A → M B) (d : Db)
      → Preserves Q m
      → Inv Q d
      → ((a : A) (e : Db) → Inv Q e → IfOk R (f a e))
      → IfOk R ((m >>= f) d)
  unfolding ◌>>=◌
  kept_then m f d p i h = let (r, d') = m d in continue-IfOk r f d' (p.at d i) h

-- What follows a call of which `P` is known.
ok_then :
    {A B : Type 0} (P : A → Db → Type 0) (R : B → Db → Type 0) (m : M A) (f : A → M B) (d : Db)
    → IfOk P (m d)
    → ((a : A) (e : Db) → P a e → IfOk R (f a e))
    → IfOk R ((m >>= f) d)
ok_then P R m f d p h =
    IfOk-bind R m f d (let (r, d') = m d in IfOk-mono (λ a e. IfOk R (f a e)) P r d' h p)

-- A COMMIT that succeeds.
commit_lem :
    (d : Db)
    → IfOk (λ _ e. (e.saved ≡ none) × (e.tables ≡ d.tables)) (or_rollback 3 db_commit_transaction d)
unfolding db_commit_transaction
commit_lem d = IfOk-or_rollback _ _ _ d (elim (Bool-cases (refused d.faults)) [
  | inl so ↦ rw so tt
  | inr well ↦ elim (Option-cases d.saved) [
    | inl outside ↦ rw (well, outside) tt
    | inr (t, inside) ↦ rw (well, inside) (refl, refl)
  ]
])

none_listed : false ≡ true → ⊥
none_listed e = ground arith

module _ (k : ℕ) where
  -- Challenge `k` has a row.
  abbrev Listed : Tables → Type 0
  Listed t = has k t.challenges ≡ true

  challenge_update-Listed :
      (j : ℕ) (f : TradingChallenge → TradingChallenge) (o : Option TradingChallenge) (t : Tables)
      → Listed t
      → Listed (challenge_update j f o t)
  challenge_update-Listed j f none t h = h
  challenge_update-Listed j f (some x) t h = has-put k j (f x) t.challenges ∙ h

  update_challenge-Listed :
      (j : ℕ) (f : TradingChallenge → TradingChallenge) → Preserves Listed (update_challenge j f)
  unfolding update_challenge
  update_challenge-Listed j f = Preserves-write _ λ t h a t' e.
      subst Listed (ap (written t) e) (challenge_update-Listed j f (find j t.challenges) t h)

  update_challenge_progress-Listed : (j : ℕ) → Preserves Listed (update_challenge_progress j)
  unfolding update_challenge_progress
  update_challenge_progress-Listed j =
      search
        (
          preserves_rules, get_challenge-Preserves, calculate_net_worth-Preserves,
          update_challenge-Listed,
        )
        depth 12

  db_update_user-Listed : (u : User) → Preserves Listed (db_update_user u)
  unfolding db_update_user
  db_update_user-Listed u = Preserves-write _ λ t h a t' e. subst Listed (ap (written t) e) h

  reward_user-Listed : (u : Option User) → Preserves Listed (reward_user u)
  unfolding reward_user
  reward_user-Listed none = search preserves_rules
  reward_user-Listed (some u) = search (preserves_rules, db_update_user-Listed)

  reward_winner-Listed : (w : ℕ) → Preserves Listed (reward_winner w)
  unfolding reward_winner
  reward_winner-Listed w = search (preserves_rules, db_load_user-Preserves, reward_user-Listed)

  -- The row of challenge `k` is closed.
  abbrev ClosedRow : Tables → Type 0
  ClosedRow t = (c : TradingChallenge) × (IsClosed c.status × Row k c t)

  completed :
      (now : ℕ) (o : Option TradingChallenge) (t : Tables)
      → o ≡ find k t.challenges
      → Listed t
      → ClosedRow
          (challenge_update k (λ c. record c { status = challenge_completed; end_time = now }) o t)
  completed now none t e h =
      absurd (none_listed (ap (λ o. elim o [ none ↦ false | some _ ↦ true ]) e ∙ h))
  completed now (some c) t e h = (
    record c { status = challenge_completed; end_time = now },
    (tt, find-put_self k _ c t.challenges (sym e)),
  )

  -- The UPDATE that completes the challenge.
  completing :
      (now : ℕ) (d : Db)
      → Listed d.tables
      → IfOk
          (λ _ e. ClosedRow e.tables)
          (or_rollback 3
            (update_challenge k λ c. record c { status = challenge_completed; end_time = now })
            d)
  unfolding update_challenge
  completing now d h = IfOk-or_rollback _ _ _ d (
      IfOk-write _ _ d
        λ a t e. subst ClosedRow (ap (written d.tables) e) (completed now _ d.tables refl h))

  award-Closed :
      (w : ℕ) (d : Db)
      → Inv Listed d
      → IfOk (λ _ e. (e.saved ≡ none) × ClosedRow e.tables) (award k w d)
  unfolding award pure
  award-Closed w d i = kept_then _ _ _ d (search preserves_rules) i λ _ d1 i1.
      kept_then _ _ _ d1 (reward_winner-Listed w) i1 λ _ d2 i2.
        kept_then _ _ _ d2 (search preserves_rules) i2 λ now d3 i3.
          ok_then (λ _ e. ClosedRow e.tables) _ _ _ d3 (completing now d3 i3.0)
            λ _ d4 closed.
              ok_then (λ _ e. (e.saved ≡ none) × (e.tables ≡ d4.tables)) _ _ _ d4 (commit_lem d4)
                λ _ d5 (outside, same). (outside, subst ClosedRow (sym same) closed)

  complete_challenge-Closed :
      (d : Db)
      → Inv Listed d
      → IfOk (λ _ e. (e.saved ≡ none) × ClosedRow e.tables) (complete_challenge k d)
  unfolding complete_challenge
  complete_challenge-Closed d i =
      kept_then _ _ _ d (search (preserves_rules, get_challenge-Preserves)) i λ c d1 i1.
        kept_then _ _ _ d1 (search preserves_rules) i1 λ _ d2 i2.
          kept_then _ _ _ d2 (search (preserves_rules, update_challenge_progress-Listed)) i2
            λ _ d3 i3.
              kept_then _ _ _ d3 (search (preserves_rules, get_challenge-Preserves)) i3
                λ again d4 i4. award-Closed (winner_of (reloaded c again)) d4 i4

-- A challenge that is closed is not completed again.
complete_refused :
    (k : ℕ) (c : TradingChallenge) (d : Db)
    → IsClosed c.status
    → Row k c d.tables
    → IfOk (λ _ _. ⊥) (complete_challenge k d)
unfolding complete_challenge get_challenge or_return select return_if ◌>>=◌
complete_refused k c d closed at = elim (Bool-cases (k == 0)) [
  | inl zero ↦ rw zero tt
  | inr id ↦ elim (Bool-cases (refused d.faults)) [
    | inl so ↦ rw (id, so) tt
    | inr well ↦ rw (id, well, at, not_active c.status closed) tt
  ]
]

-- Once a `complete_challenge` of a challenge with a row, called outside a transaction, has
-- succeeded, none of this challenge succeeds at the end of any run: the prize is paid once.
pub prize_paid_once :
    (k w : ℕ) (c : TradingChallenge) (d d' e : Db)
    → d.saved ≡ none
    → find k d.tables.challenges ≡ some c
    → complete_challenge k d ≡ (ok w, d')
    → Run d' e
    → IfOk (λ _ _. ⊥) (complete_challenge k e)
prize_paid_once k w c d d' e outside at done r =
    let listed : Listed k d.tables = ap (λ o. elim o [ none ↦ false | some _ ↦ true ]) at in
    let (out, (c', (closed, at'))) =
      subst (IfOk λ _ e. (e.saved ≡ none) × ClosedRow k e.tables) done
        (complete_challenge-Closed k d (listed, subst (SavedHolds (Listed k)) (sym outside) tt)) in
    complete_refused k c' e closed (closed_challenge_stays k c' d' e closed out at' r)
