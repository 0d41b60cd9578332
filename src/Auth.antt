-- ===== src/Auth.antt =====
-- src/server/auth.c: registration, login and sessions. `err n` is `return n` here, with the codes
-- of include/protocol.h. `rand_after seed i` is what the i-th `rand()` after `srand(seed)` gives.
pub mod Keeps
pub mod Stored
pub mod Sessions
pub mod Register
use cs.Base.{
  ℕ, zero, suc, ◌+◌, ◌*◌, ◌%◌, Bool, true, false, not, ◌||◌, Option, none, some, List, [], ◌∷◌,
  ◌++◌, ltb, leb, ◌==◌, length, if◌then◌else◌,
}
use cs.Types.{usd, User, Session, SkinRarity, consumer, rarity_index, hundredths}
use cs.Password.{print_hex, hash_password, verify_password}
use cs.Db.Table.{Rows}
use cs.Db.Tables.{SkinDefinition}
use cs.Db.Monad.{M, pure, select, or_return, attempt, ◌>>=◌, ◌>>◌, return_if, clock}
use cs.Db.Users.{db_update_user, db_add_to_inventory}
use cs.Db.Instances.{db_create_skin_instance}
use cs.Db.Accounts.{
  db_load_user_by_username, db_user_exists, db_save_user, db_save_session, db_load_session,
  db_delete_session,
}
use cs.Quests.{init_daily_quests, check_and_reset_daily_quests}
use cs.LoginRewards.{update_login_streak}

abbrev pub err_invalid_credentials : ℕ
err_invalid_credentials = 1

abbrev pub err_user_exists : ℕ
err_user_exists = 2

abbrev pub err_session_expired : ℕ
err_session_expired = 8

abbrev pub err_banned : ℕ
err_banned = 10

abbrev pub err_database_error : ℕ
err_database_error = 13

abbrev pub max_username_len : ℕ
max_username_len = 32

-- The row of a new user. The name has been tested to fit into its array.
unfoldable pub new_user : List ℕ → List ℕ → ℕ → User
new_user username password now = record {
  user_id = 0;
  username = username;
  password_hash = hash_password password;
  balance = 100 * usd;
  created_at = now;
  last_login = 0;
  is_banned = false;
}

-- The first definition of this rarity.
abbrev pub first_definition : SkinRarity → Rows SkinDefinition → Option ℕ
first_definition r [] = none
first_definition r ((k, s) ∷ t) =
    if rarity_index s.rarity == rarity_index r then some k else first_definition r t

unfoldable pub add_free_skin : ℕ → Option ℕ → M (Unit {0})
add_free_skin user_id none = pure tt
add_free_skin user_id (some instance_id) =
    attempt (db_add_to_inventory user_id instance_id) >> pure tt

unfoldable pub create_free_skin : ℕ → Option ℕ → M (Unit {0})
create_free_skin user_id none = pure tt
create_free_skin user_id (some definition_id) = if definition_id == 0 then pure tt else do
  created ← attempt (db_create_skin_instance definition_id consumer (hundredths 5) 0 false user_id)
  add_free_skin user_id created

-- The query runs on a second connection. No failure is noticed.
unfoldable pub give_free_skin : ℕ → M (Unit {0})
give_free_skin user_id = do
  definition_id ← attempt (select λ t. first_definition consumer t.definitions)
  create_free_skin user_id definition_id

unfoldable pub register_user : List ℕ → List ℕ → M User
register_user username password = do
  return_if (ltb (length username) 3 || leb max_username_len (length username))
      err_invalid_credentials
  return_if (ltb (length password) 6 || ltb 64 (length password)) err_invalid_credentials
  exists ← db_user_exists username
  return_if exists err_user_exists
  now ← clock
  user_id ← or_return err_database_error (db_save_user (new_user username password now))
  give_free_skin user_id
  attempt (init_daily_quests user_id)
  pure (record (new_user username password now) { user_id = user_id })

-- `validate_session`: a session of more than an hour without activity has expired.
unfoldable pub validate_session : List ℕ → M Session
validate_session token = do
  s ← or_return err_session_expired (db_load_session token)
  return_if (not s.is_active) err_session_expired
  now ← clock
  return_if (ltb (s.last_activity + 3600) now) err_session_expired
  pure s

unfoldable pub logout_user : List ℕ → M (Unit {0})
logout_user session_token = attempt (db_delete_session session_token) >> pure tt

module _ (midnight : ℕ → ℕ) (rand_after : ℕ → ℕ → ℕ) where
  -- The bytes from the i-th on, `n` of them.
  unfoldable pub token_bytes : ℕ → ℕ → ℕ → List ℕ
  token_bytes seed i zero = []
  token_bytes seed i (suc n) =
      print_hex 2 (rand_after seed i % 256) [] ++ token_bytes seed (suc i) n

  -- `srand(time(NULL))` and sixteen `%02x`; the seed is an `unsigned int`.
  unfoldable pub generate_session_token : ℕ → List ℕ
  generate_session_token now = token_bytes (now % 4294967296) 0 16

  unfoldable pub new_session : ℕ → ℕ → Session
  new_session user_id now = record {
    session_token = generate_session_token now;
    user_id = user_id;
    login_time = now;
    last_activity = now;
    is_active = true;
  }

  -- What follows the saved session; no result is looked at.
  unfoldable pub after_login : User → M (Unit {0})
  after_login user = do
    now ← clock
    attempt (db_update_user (record user { last_login = now }))
    attempt (update_login_streak midnight user.user_id)
    attempt (check_and_reset_daily_quests user.user_id)
    pure tt

  unfoldable pub login_user : List ℕ → List ℕ → M Session
  login_user username password = do
    user ← or_return err_invalid_credentials (db_load_user_by_username username)
    return_if user.is_banned err_banned
    return_if (not (verify_password password user.password_hash)) err_invalid_credentials
    now ← clock
    let session = new_session user.user_id now
    or_return err_database_error (db_save_session session)
    after_login user
    pure session
