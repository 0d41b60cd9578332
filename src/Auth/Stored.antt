-- ===== src/Auth/Stored.antt =====
-- Sessions that are saved, found and deleted.
use cs.Base.{
  ℕ, ◌≡◌, refl, ap, subst, Bool, true, false, not, ◌&&◌, none, some, List, [], ◌∷◌, ◌++◌, arith,
  if_some,
}
use cs.Types.{Session}
use cs.Password.Hash.{same_text_refl}
use cs.Db.Table.{has}
use cs.Db.Tables.{Tables}
use cs.Db.Accounts.{find_session, token_used, drop_session, insert_session}
use cs.Auth.Keeps.{Aside}

abbrev pub sessions_of : Tables → List Session
sessions_of t = t.sessions

pub sessions_of-Aside : Aside sessions_of
sessions_of-Aside = record {
  quests = λ t v. refl;
  new_quest = λ t v n. refl;
  streaks = λ t v. refl;
  new_instance = λ t v n. refl;
  inventories = λ t v. refl;
}

find_session_new :
    (l : List Session) (s : Session)
    → token_used s.session_token l ≡ false
    → find_session s.session_token (l ++ (s ∷ [])) ≡ some s
find_session_new [] s h = ground (arith, same_text_refl s.session_token)
find_session_new (r ∷ l) s h = ground (arith, find_session_new l s)

pub find_session-drop_session :
    (token : List ℕ) (l : List Session) → find_session token (drop_session token l) ≡ none
find_session-drop_session token [] = refl
find_session-drop_session token (r ∷ l) = ground (arith, find_session-drop_session token l)

not-true : (b c : Bool) → not b && c ≡ true → b ≡ false
not-true true c h = ground arith
not-true false c h = refl

pub not-false : (b : Bool) → not b ≡ false → b ≡ true
not-false true h = refl
not-false false h = ground arith

unused :
    (token : List ℕ) (l : List Session) → token_used token l ≡ false → find_session token l ≡ none
unused token l h = ground arith

-- What is saved is found again, and was not there before.
pub insert_session_lem :
    (s : Session) (t t' : Tables) (a : Unit {0})
    → insert_session s t ≡ some (a, t')
    → (find_session s.session_token t'.sessions ≡ some s)
      × (find_session s.session_token t.sessions ≡ none)
insert_session_lem s t t' a e =
    let (new, is) =
      if_some {A = Unit {0} × Tables}
        (not (token_used s.session_token t.sessions) && has s.user_id t.users)
        (tt, record t { sessions = t.sessions ++ (s ∷ []) }) (a, t') e in
    let free = not-true _ _ new in
    (
      subst (λ l. find_session s.session_token l ≡ some s) (ap (λ p. p.1.sessions) is)
          (find_session_new t.sessions s free),
      unused s.session_token t.sessions free,
    )
