-- ===== src/Tests/Accounts.antt =====
-- A new user registers and logs in.
use cs.Base.{ℕ, ◌+◌, ◌≡◌, refl, none, List, [], ◌∷◌, if◌then◌else◌, ltb}
use cs.Types.{User, Session}
use cs.Db.Monad.{ok, err, Db, ◌>>=◌, return_if, or_return, select, write, pure, attempt, clock}
use cs.Db.Monad.Frame.{IfOk}
use cs.Db.Users.{db_update_user, db_add_to_inventory}
use cs.Db.Instances.{db_create_skin_instance}
use cs.Db.Accounts.{db_load_user_by_username, db_user_exists, db_save_user, db_save_session}
use cs.Db.Rewards.{db_load_user_quests, db_save_quest, db_load_login_streak, db_save_login_streak}
use cs.Quests.{save_quests, init_daily_quests, should_reset_quests, check_and_reset_daily_quests}
use cs.LoginRewards.{get_login_streak, update_login_streak}
use cs.Password.{hash_bytes, print_hex, hash_password, same_text, verify_password}
use cs.Auth.{
  err_session_expired, new_user, add_free_skin, create_free_skin, give_free_skin, register_user,
  validate_session, logout_user, token_bytes, generate_session_token, new_session, after_login,
  login_user,
}
use cs.Auth.Sessions.{Opened, login_user_guards, session_life, one_login_a_second}
use cs.Auth.Register.{Registered, register_user_outcome, registered_can_log_in}
use cs.Tests.{shop, open_shop, day}

abbrev name : List ℕ
name = b'b' ∷ b'o' ∷ b'b' ∷ []

abbrev word : List ℕ
word = b's' ∷ b'e' ∷ b'c' ∷ b'r' ∷ b'e' ∷ b't' ∷ []

abbrev rand_after : ℕ → ℕ → ℕ
rand_after seed i = seed + i

abbrev registered_db : Db
registered_db = (register_user name word open_shop).1

abbrev bob : User
bob = record (new_user name word 500) { user_id = 3 }

registered : register_user name word open_shop ≡ (ok bob, registered_db)
unfolding ◌>>=◌ return_if or_return select write pure attempt clock db_user_exists db_save_user
    db_create_skin_instance db_add_to_inventory save_quests init_daily_quests db_save_quest new_user
    add_free_skin create_free_skin give_free_skin register_user same_text
registered = refl

-- The users after the registration, in a database of a later time.
abbrev later_db : Db
later_db = record {
  tables = record shop { users = registered_db.tables.users };
  saved = none;
  now = 600;
  faults = [];
}

register_user_outcome_example :
    IfOk (Registered name word open_shop) (register_user name word open_shop)
register_user_outcome_example = register_user_outcome name word open_shop

registered_can_log_in_example :
    (login_user day rand_after name word later_db).0
    ≡ ok (new_session day rand_after bob.user_id 600)
registered_can_log_in_example =
    registered_can_log_in day rand_after name word bob open_shop registered_db later_db registered
      refl refl refl refl

login_user_guards_example :
    IfOk (Opened day rand_after name word later_db) (login_user day rand_after name word later_db)
login_user_guards_example = login_user_guards day rand_after name word later_db

abbrev session : Session
session = new_session day rand_after 3 600

abbrev logged_db : Db
logged_db = (login_user day rand_after name word later_db).1

logged : login_user day rand_after name word later_db ≡ (ok session, logged_db)
unfolding ◌>>=◌ return_if or_return select write pure attempt clock db_user_exists db_save_user
    db_create_skin_instance db_add_to_inventory save_quests init_daily_quests db_save_quest new_user
    add_free_skin create_free_skin give_free_skin register_user db_update_user
    db_load_user_by_username db_save_session db_load_user_quests db_load_login_streak
    db_save_login_streak should_reset_quests check_and_reset_daily_quests get_login_streak
    update_login_streak hash_bytes print_hex hash_password same_text verify_password token_bytes
    generate_session_token new_session after_login login_user
logged = refl

-- Two hours later.
abbrev hours_later : Db
hours_later = record { tables = logged_db.tables; saved = none; now = 7800; faults = [] }

session_life_example :
    ((validate_session session.session_token hours_later).0
      ≡ (if ltb 4200 7800 then err err_session_expired else ok session))
    × ((validate_session session.session_token (logout_user session.session_token hours_later).1).0
        ≡ err err_session_expired)
session_life_example =
    session_life day rand_after name word session later_db logged_db hours_later logged refl refl

-- The same second.
abbrev at_once : Db
at_once = record { tables = logged_db.tables; saved = none; now = 600; faults = [] }

one_login_a_second_example : IfOk (λ _ _. ⊥) (login_user day rand_after name word at_once)
one_login_a_second_example =
    one_login_a_second day rand_after name word name word session later_db logged_db at_once logged
      refl refl
