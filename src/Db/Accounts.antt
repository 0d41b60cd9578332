-- ===== src/Db/Accounts.antt =====
-- The `db_` functions for accounts and sessions.
use cs.Base.{
  ℕ, suc, Bool, true, false, not, ◌&&◌, ◌||◌, Option, none, some, List, [], ◌∷◌, ◌++◌, ◌==◌,
  if◌then◌else◌,
}
use cs.Types.{User, Session}
use cs.Password.{same_text}
use cs.Db.Table.{Rows, has}
use cs.Db.Tables.{Tables}
use cs.Db.Monad.{M, pure, select, write, attempt, ◌>>=◌}

-- The row with this `username`, which is UNIQUE, and its key as `user_id`.
abbrev pub user_named : List ℕ → Rows User → Option User
user_named username [] = none
user_named username ((k, u) ∷ t) =
    if same_text u.username username then some (record u { user_id = k }) else user_named username t

abbrev pub name_taken : List ℕ → Rows User → Bool
name_taken username t = elim (user_named username t) [ none ↦ false | some _ ↦ true ]

unfoldable pub db_load_user_by_username : List ℕ → M User
db_load_user_by_username username = select λ t. user_named username t.users

abbrev or_false : Option Bool → Bool
or_false none = false
or_false (some b) = b

-- A query that fails counts as one that finds no user.
unfoldable pub db_user_exists : List ℕ → M Bool
db_user_exists username = do
  count ← attempt (select λ t. some (name_taken username t.users))
  pure (or_false count)

-- `last_login` is no column of the INSERT: it is NULL, and is read as 0.
abbrev pub user_row : User → User
user_row u = record u { last_login = 0 }

abbrev pub insert_user : ℕ → User → ℕ → Tables → Option (ℕ × Tables)
insert_user k u next t =
    if name_taken u.username t.users || has k t.users
    then none
    else some (
      k,
      record t {
        users = t.users ++ ((k, record (user_row u) { user_id = k }) ∷ []);
        next_user = next;
      },
    )

-- AUTOINCREMENT gives the key of a user with `user_id` 0.
unfoldable pub db_save_user : User → M ℕ
db_save_user u = write λ t.
    if u.user_id == 0
    then insert_user t.next_user u (suc t.next_user) t
    else insert_user u.user_id u t.next_user t

-- The session with this token, which is the primary key.
abbrev pub find_session : List ℕ → List Session → Option Session
find_session token [] = none
find_session token (s ∷ l) =
    if same_text s.session_token token then some s else find_session token l

abbrev pub token_used : List ℕ → List Session → Bool
token_used token l = elim (find_session token l) [ none ↦ false | some _ ↦ true ]

abbrev pub insert_session : Session → Tables → Option (Unit {0} × Tables)
insert_session s t =
    if not (token_used s.session_token t.sessions) && has s.user_id t.users
    then some (tt, record t { sessions = t.sessions ++ (s ∷ []) })
    else none

unfoldable pub db_save_session : Session → M (Unit {0})
db_save_session s = write (insert_session s)

unfoldable pub db_load_session : List ℕ → M Session
db_load_session token = select λ t. find_session token t.sessions

abbrev pub drop_session : List ℕ → List Session → List Session
drop_session token [] = []
drop_session token (s ∷ l) =
    let rest = drop_session token l in if same_text s.session_token token then rest else s ∷ rest

unfoldable pub db_delete_session : List ℕ → M (Unit {0})
db_delete_session token =
    write λ t. some (tt, record t { sessions = drop_session token t.sessions })
