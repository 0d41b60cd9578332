-- ===== src/Auth/Register.antt =====
-- What registration saves, and that the new user can log in.
use cs.Base.{
  ℕ, suc, ◌≤◌, ◌<◌, ◌≡◌, refl, sym, ap, subst, ◌∙◌, inl, inr, Bool, true, false, ◌||◌, some, List,
  [], ◌∷◌, ◌++◌, ltb, leb, length, arith, Bool-cases,
}
use cs.Types.{User}
use cs.Password.{same_text, hash_password, verify_password}
use cs.Password.Hash.{same_text_refl}
use cs.Db.Table.{Rows, has}
use cs.Db.Tables.{Tables}
use cs.Db.Monad.{
  ok, Db, refused, spent, pure, select, write, or_return, attempt, ◌>>=◌, return_if, clock,
}
use cs.Db.Monad.Frame.{
  IfOk, IfOk-bind, IfOk-or_return, IfOk-write, IfOk-return_if, Frame-then, Frame-of, Keeps-attempt,
}
use cs.Db.Accounts.{
  user_named, name_taken, insert_user, token_used, db_user_exists, db_save_user,
  db_load_user_by_username, db_save_session,
}
use cs.Db.Monad.Returns.{Returns, after-Returns, returns_rules}
use cs.Auth.{
  max_username_len, new_user, register_user, new_session, generate_session_token, after_login,
  login_user,
}
use cs.Auth.Keeps.{Aside, give_free_skin-Keeps, init_daily_quests-Keeps}

abbrev users_of : Tables → Rows User
users_of t = t.users

users_of-Aside : Aside users_of
users_of-Aside = record {
  quests = λ t v. refl;
  new_quest = λ t v n. refl;
  streaks = λ t v. refl;
  new_instance = λ t v n. refl;
  inventories = λ t v. refl;
}

-- The lengths are in range, no user had the name, and the users are those before and `u`, a new
-- user with the starting balance and the password's hash.
abbrev pub Registered : List ℕ → List ℕ → Db → User → Db → Type 0
Registered username password d u d' =
    ((3 ≤ length username) × (length username < max_username_len))
    × (((6 ≤ length password) × (length password ≤ 64))
        × ((name_taken username d.tables.users ≡ false)
            × ((u ≡ record (new_user username password d.now) { user_id = u.user_id })
                × (d'.tables.users ≡ d.tables.users ++ ((u.user_id, u) ∷ [])))))

in_range : (low high n : ℕ) → ltb n low || leb high n ≡ false → (low ≤ n) × (n < high)
in_range low high n h = ground arith

in_length : (low high n : ℕ) → ltb n low || ltb high n ≡ false → (low ≤ n) × (n ≤ high)
in_length low high n h = ground arith

not_taken : (b c : Bool) → b || c ≡ false → b ≡ false
not_taken true c h = ground arith
not_taken false c h = refl

-- What the INSERT of a new user leaves.
insert_new :
    (username password : List ℕ) (now k : ℕ) (t t' : Tables)
    → insert_user t.next_user (new_user username password now) (suc t.next_user) t ≡ some (k, t')
    → (name_taken username t.users ≡ false)
      × (t'.users ≡ t.users ++ ((k, record (new_user username password now) { user_id = k }) ∷ []))
unfolding new_user
insert_new username password now k t t' e = ground arith

-- Whatever the query gives, only a statement is spent.
user_exists_lem :
    (username : List ℕ) (d : Db) → (b : Bool) × (db_user_exists username d ≡ (ok b, spent d))
unfolding db_user_exists attempt select ◌>>=◌ pure
user_exists_lem username d = elim (Bool-cases (refused d.faults)) [
  | inl so ↦ (false, rw so refl)
  | inr well ↦ (name_taken username d.tables.users, rw well refl)
]

module _ (username password : List ℕ) where
  -- Where `register_user` succeeds, the name has 3 to 31 characters and the password 6 to 64, no
  -- user had the name, and the users are those before and the returned one, who is not banned and
  -- has the starting balance and the password's hash.
  pub register_user_outcome :
      (d : Db) → IfOk (Registered username password d) (register_user username password d)
  unfolding register_user clock pure db_save_user new_user
  register_user_outcome d = IfOk-bind _ _ _ d (
      IfOk-return_if _ _ _ d λ named. IfOk-bind _ _ _ d (
        IfOk-return_if _ _ _ d λ worded. IfOk-bind _ _ _ d (
          let (b, is) = user_exists_lem username d in
          subst (IfOk _) (sym is) (
            IfOk-bind _ _ _ (spent d) (
              IfOk-return_if _ _ _ (spent d) λ free. IfOk-bind _ _ _ (spent d) (
                IfOk-bind _ _ _ (spent d) (
                  IfOk-or_return _ _ _ (spent d) (
                    IfOk-write _ _ (spent d) λ k t e.
                      Frame-then _ _ _ t.users (record (spent (spent d)) { tables = t })
                        (Frame-of _ (give_free_skin-Keeps users_of-Aside k)) (refl, refl)
                        λ _ d' w.
                          Frame-then _ _ _ t.users d'
                            (Frame-of _
                              (Keeps-attempt _ (init_daily_quests-Keeps users_of-Aside k)))
                            w
                            λ _ d'' w'.
                              let (new, is') = insert_new username password d.now k d.tables t e in
                              (
                                in_range 3 max_username_len (length username) named,
                                (
                                  in_length 6 64 (length password) worded,
                                  (new, (refl, w'.1 ∙ is')),
                                ),
                              )))))))))

-- A name that no user had is found in the row added for it.
user_named_new :
    (username : List ℕ) (t : Rows User) (u : User)
    → name_taken username t ≡ false
    → same_text u.username username ≡ true
    → user_named username (t ++ ((u.user_id, u) ∷ [])) ≡ some u
user_named_new username [] u new same = ground arith
user_named_new username ((j, r) ∷ t) u new same = ground (arith, user_named_new username t u)

has_new : (k : ℕ) (t : Rows User) (u : User) → has k (t ++ ((k, u) ∷ [])) ≡ true
has_new k [] u = ground arith
has_new k ((j, r) ∷ t) u = ground (arith, has_new k t u)

module _ (midnight : ℕ → ℕ) (rand_after : ℕ → ℕ → ℕ) where
  after_login-Returns : (u : User) → Returns (after_login midnight rand_after u)
  unfolding after_login
  after_login-Returns u = search returns_rules depth 8

  -- After a registration, on every database with the same users where sqlite refuses neither of
  -- the next two statements and the token of this second is not in use: `login_user` with the same
  -- name and password returns a new session of the new user.
  pub registered_can_log_in :
      (username password : List ℕ) (u : User) (d d' e : Db)
      → register_user username password d ≡ (ok u, d')
      → e.tables.users ≡ d'.tables.users
      → refused e.faults ≡ false
      → refused (spent e).faults ≡ false
      → token_used (generate_session_token midnight rand_after e.now) e.tables.sessions ≡ false
      → (login_user midnight rand_after username password e).0
        ≡ ok (new_session midnight rand_after u.user_id e.now)
  unfolding login_user db_load_user_by_username db_save_session or_return select write ◌>>=◌
      return_if clock pure new_user new_session verify_password
  registered_can_log_in username password u d d' e done same well well' fresh =
      let (_, (_, (new, (is, users)))) =
        subst (IfOk (Registered username password d)) done
          (register_user_outcome username password d) in
      let rows : e.tables.users ≡ d.tables.users ++ ((u.user_id, u) ∷ []) = same ∙ users in
      let named : user_named username e.tables.users ≡ some u =
        ap (user_named username) rows
        ∙ user_named_new username d.tables.users u new
            (ap (λ (r : User). same_text r.username username) is ∙ same_text_refl username) in
      let there : has u.user_id e.tables.users ≡ true =
        ap (has u.user_id) rows ∙ has_new u.user_id d.tables.users u in
      let free : u.is_banned ≡ false = ap (λ (r : User). r.is_banned) is in
      let known : same_text (hash_password password) u.password_hash ≡ true =
        ap (λ (r : User). same_text (hash_password password) r.password_hash) is
        ∙ same_text_refl (hash_password password) in
      rw (well, named, free, known, well', fresh, there)
        (after-Returns (after_login midnight rand_after (record u { is_banned = false }))
          (new_session midnight rand_after u.user_id e.now) _
          (after_login-Returns (record u { is_banned = false })))
