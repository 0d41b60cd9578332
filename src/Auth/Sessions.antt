-- ===== src/Auth/Sessions.antt =====
-- The life of a session: login, validation and logout.
use cs.Base.{
  ℕ, ◌+◌, ◌≡◌, refl, sym, ap, subst, ◌∙◌, inl, inr, true, false, Option, none, some, List, ltb,
  arith, Bool-cases, if◌then◌else◌,
}
use cs.Types.{User, Session}
use cs.Password.{verify_password}
use cs.Db.Tables.{Tables}
use cs.Db.Monad.{
  ok, err, Db, refused, spent, pure, select, write, or_return, attempt, ◌>>=◌, return_if, clock,
}
use cs.Db.Monad.Frame.{
  IfOk, IfOk-bind, IfOk-or_return, IfOk-select, IfOk-write, IfOk-return_if, IfOk-mono, Frame-then,
  Frame-of, Keeps, Keeps-write, Keeps-bind, Keeps-clock, Keeps-attempt, Keeps-pure,
}
use cs.Db.Users.{db_update_user}
use cs.Db.Accounts.{
  user_named, find_session, db_load_user_by_username, db_save_session, db_load_session,
  db_delete_session,
}
use cs.Auth.{
  err_session_expired, generate_session_token, new_session, after_login, login_user,
  validate_session, logout_user,
}
use cs.Auth.Keeps.{update_login_streak-Keeps, check_and_reset_daily_quests-Keeps}
use cs.Auth.Stored.{
  sessions_of, sessions_of-Aside, find_session-drop_session, not-false, insert_session_lem,
}

module _ (midnight : ℕ → ℕ) (rand_after : ℕ → ℕ → ℕ) where
  after_login-Keeps :
      {o : Option Tables} (u : User) → Keeps o sessions_of (after_login midnight rand_after u)
  unfolding after_login db_update_user
  after_login-Keeps u = Keeps-bind _ _ Keeps-clock λ now.
      Keeps-bind _ _ (Keeps-attempt _ (Keeps-write _ λ s. refl)) λ _.
        Keeps-bind _ _ (Keeps-attempt _ (update_login_streak-Keeps sessions_of-Aside midnight _))
          λ _.
            Keeps-bind _ _
              (Keeps-attempt _ (check_and_reset_daily_quests-Keeps sessions_of-Aside _))
              λ _. Keeps-pure tt

  -- The name is that of a user who is not banned and whose password this is, and the new session
  -- is that user's, under a token that no session had.
  abbrev pub Opened : List ℕ → List ℕ → Db → Session → Db → Type 0
  Opened username password d s d' =
      (u : User) × ((user_named username d.tables.users ≡ some u)
        × ((u.is_banned ≡ false)
            × ((verify_password password u.password_hash ≡ true)
                × ((s ≡ new_session midnight rand_after u.user_id d.now)
                    × ((find_session s.session_token d'.tables.sessions ≡ some s)
                        × (find_session s.session_token d.tables.sessions ≡ none))))))

  -- Where `login_user` succeeds, the name is that of a user who is not banned, the password's hash
  -- is the stored one, and the returned session is this user's, active since now, under a token
  -- that no session had before and that now finds it.
  pub login_user_guards :
      (username password : List ℕ) (d : Db)
      → IfOk (Opened username password d) (login_user midnight rand_after username password d)
  unfolding login_user db_load_user_by_username db_save_session clock pure
  login_user_guards username password d = IfOk-bind _ _ _ d (
      IfOk-or_return _ _ _ d (
        IfOk-select _ _ d λ u named. IfOk-bind _ _ _ (spent d) (
          IfOk-return_if _ _ _ (spent d) λ free. IfOk-bind _ _ _ (spent d) (
            IfOk-return_if _ _ _ (spent d) λ known. IfOk-bind _ _ _ (spent d) (
              let session = new_session midnight rand_after u.user_id d.now in
              IfOk-bind _ _ _ (spent d) (
                IfOk-or_return _ _ _ (spent d) (
                  IfOk-write _ _ (spent d) λ a t e.
                    Frame-then _ _ _ t.sessions (record (spent (spent d)) { tables = t })
                      (Frame-of _ (after_login-Keeps u)) (refl, refl)
                      λ _ d' w. (
                        u,
                        (
                          named,
                          (
                            free,
                            (
                              not-false _ known,
                              (
                                refl,
                                (
                                  subst (λ l. find_session session.session_token l ≡ some session)
                                      (sym w.1) (insert_session_lem session d.tables t a e).0,
                                  (insert_session_lem session d.tables t a e).1,
                                ),
                              ),
                            ),
                          ),
                        ),
                      ))))))))

-- A session that is found, is active and was last active at `then`: what `validate_session`
-- answers, and what it answers once `logout_user` has deleted the session.
validate_found :
    (s : Session) (e : Db)
    → find_session s.session_token e.tables.sessions ≡ some s
    → s.is_active ≡ true
    → refused e.faults ≡ false
    → (validate_session s.session_token e).0
      ≡ (if ltb (s.last_activity + 3600) e.now then err err_session_expired else ok s)
unfolding validate_session db_load_session or_return select ◌>>=◌ return_if clock pure
validate_found s e found active well = elim (Bool-cases (ltb (s.last_activity + 3600) e.now)) [
  | inl late ↦ rw (well, found, active, late) refl
  | inr early ↦ rw (well, found, active, early) refl
]

validate_none :
    (token : List ℕ) (e : Db)
    → find_session token e.tables.sessions ≡ none
    → (validate_session token e).0 ≡ err err_session_expired
unfolding validate_session db_load_session or_return select ◌>>=◌
validate_none token e gone = elim (Bool-cases (refused e.faults)) [
  | inl so ↦ rw so refl
  | inr well ↦ rw (well, gone) refl
]

validate_logged_out :
    (token : List ℕ) (e : Db)
    → refused e.faults ≡ false
    → (validate_session token (logout_user token e).1).0 ≡ err err_session_expired
unfolding logout_user db_delete_session attempt write ◌>>=◌ pure
validate_logged_out token e well =
    rw well (validate_none token _ (find_session-drop_session token e.tables.sessions))

-- After a login that returned the session `s` at a time, on every later database with the same
-- sessions where sqlite does not refuse the next statement: `validate_session` accepts the token
-- with the session up to an hour after the login and answers ERR_SESSION_EXPIRED later, and it
-- answers ERR_SESSION_EXPIRED once `logout_user` was called.
pub session_life :
    (midnight : ℕ → ℕ) (rand_after : ℕ → ℕ → ℕ) (username password : List ℕ) (s : Session)
    (d d' e : Db)
    → login_user midnight rand_after username password d ≡ (ok s, d')
    → e.tables.sessions ≡ d'.tables.sessions
    → refused e.faults ≡ false
    → ((validate_session s.session_token e).0
        ≡ (if ltb (d.now + 3600) e.now then err err_session_expired else ok s))
      × ((validate_session s.session_token (logout_user s.session_token e).1).0
          ≡ err err_session_expired)
unfolding new_session
session_life midnight rand_after username password s d d' e logged same well =
    let (u, (named, (free, (known, (is, (found, _)))))) =
      subst (IfOk (Opened midnight rand_after username password d)) logged
        (login_user_guards midnight rand_after username password d) in
    (
      validate_found s e (subst (λ l. find_session s.session_token l ≡ some s) (sym same) found)
            (ap (λ (r : Session). r.is_active) is) well
          ∙ ap (λ n. if ltb (n + 3600) e.now then err err_session_expired else ok s)
              (ap (λ (r : Session). r.last_activity) is),
      validate_logged_out s.session_token e well,
    )

none_not_some : (s : Session) (o : Option Session) → o ≡ none → o ≡ some s → ⊥
none_not_some s o e f = ground arith

-- The token depends on nothing but the second: after a login that succeeded no login of any user
-- succeeds at the same time on a database with the same sessions.
pub one_login_a_second :
    (midnight : ℕ → ℕ) (rand_after : ℕ → ℕ → ℕ) (username password other secret : List ℕ)
    (s : Session) (d d' e : Db)
    → login_user midnight rand_after username password d ≡ (ok s, d')
    → e.tables.sessions ≡ d'.tables.sessions
    → e.now ≡ d.now
    → IfOk (λ _ _. ⊥) (login_user midnight rand_after other secret e)
unfolding new_session
one_login_a_second midnight rand_after username password other secret s d d' e logged same at =
    let (u, (_, (_, (_, (is, (found, _)))))) =
      subst (IfOk (Opened midnight rand_after username password d)) logged
        (login_user_guards midnight rand_after username password d) in
    let (r, e') = login_user midnight rand_after other secret e in
    IfOk-mono _ _ r e'
      (λ s' _ opened.
        let (v, (_, (_, (_, (is', (_, fresh)))))) = opened in
        let token : s'.session_token ≡ s.session_token =
          ap (λ (r : Session). r.session_token) is'
          ∙ (ap (generate_session_token midnight rand_after) at
              ∙ sym (ap (λ (r : Session). r.session_token) is)) in
        none_not_some s (find_session s.session_token d'.tables.sessions)
          (subst (λ l. find_session s.session_token l ≡ none) same
            (subst (λ k. find_session k e.tables.sessions ≡ none) token fresh))
          found)
      (login_user_guards midnight rand_after other secret e)
