-- ===== src/Requests/Accounts.antt =====
-- The cases of `handle_auth_request`, and of `handle_inventory_request` that look up an id.
use cs.Base.{ℕ, ◌*◌, ◌/◌, Option, none, some, List, ◌∷◌, ◌++◌}
use cs.Types.{User, Session, SkinInstance}
use cs.Db.Tables.{SkinDefinition}
use cs.Db.Monad.{M, pure, attempt, ◌>>=◌, ◌>>◌}
use cs.Db.IntArray.{format_nat}
use cs.Db.Users.{db_load_user, db_load_inventory}
use cs.Db.Instances.{db_load_skin_instance, db_calculate_skin_price, db_get_rarity_multiplier}
use cs.Db.Cases.{db_load_skin_definition_with_rarity}
use cs.Unbox.{or_one}
use cs.Auth.{register_user, login_user, logout_user}
use cs.Requests.{
  err_item_not_found, err_invalid_request, no_data, of_number, of_text, of_user, of_inventory,
  of_skin, Body, Response, error_response, success_response, respond, with_one,
}
use cs.Requests.Scan.{c_string, at_colon}

abbrev pub msg_register_request : ℕ
msg_register_request = 0x01

abbrev pub msg_register_response : ℕ
msg_register_response = 0x02

abbrev pub msg_login_request : ℕ
msg_login_request = 0x03

abbrev pub msg_login_response : ℕ
msg_login_response = 0x04

abbrev pub msg_logout : ℕ
msg_logout = 0x05

abbrev pub msg_get_inventory : ℕ
msg_get_inventory = 0x30

abbrev pub msg_inventory_data : ℕ
msg_inventory_data = 0x31

abbrev pub msg_get_user_profile : ℕ
msg_get_user_profile = 0x32

abbrev pub msg_user_profile_data : ℕ
msg_user_profile_data = 0x33

abbrev pub msg_get_skin_details : ℕ
msg_get_skin_details = 0x34

abbrev pub msg_skin_details_data : ℕ
msg_skin_details_data = 0x35

-- A name and a password, with a colon between them.
abbrev with_names : ℕ → (List ℕ → List ℕ → M Response) → Option (List ℕ × List ℕ) → M Response
with_names request f none = pure (error_response request err_invalid_request)
with_names request f (some (username, password)) = f username password

-- The codes of auth.c are those of the protocol.
abbrev same_code : ℕ → ℕ
same_code n = n

abbrev user_id_of : User → Body
user_id_of u = of_number u.user_id

unfoldable pub handle_register_request : List ℕ → M Response
handle_register_request payload =
    with_names msg_register_request
      (λ username password.
        respond msg_register_request same_code msg_register_response user_id_of
          (register_user username password))
      (at_colon (c_string payload))

abbrev login_text : Session → Body
login_text s = of_text (s.session_token ++ (b':' ∷ format_nat s.user_id))

unfoldable pub handle_login_request : (ℕ → ℕ) → (ℕ → ℕ → ℕ) → List ℕ → M Response
handle_login_request midnight rand_after payload =
    with_names msg_login_request
      (λ username password.
        respond msg_login_request same_code msg_login_response login_text
          (login_user midnight rand_after username password))
      (at_colon (c_string payload))

unfoldable pub handle_logout : List ℕ → M Response
handle_logout payload = logout_user (c_string payload) >> pure (success_response msg_logout no_data)

unfoldable pub handle_get_inventory : List ℕ → M Response
handle_get_inventory payload = with_one msg_get_inventory payload λ user_id.
    respond msg_get_inventory (λ _. err_item_not_found) msg_inventory_data (of_inventory user_id)
      (db_load_inventory user_id)

-- The whole structure is sent.
unfoldable pub handle_get_user_profile : List ℕ → M Response
handle_get_user_profile payload = with_one msg_get_user_profile payload λ user_id.
    respond msg_get_user_profile (λ _. err_item_not_found) msg_user_profile_data of_user
      (db_load_user user_id)

unfoldable pub show_skin : ℕ → SkinInstance → Option SkinDefinition → M Response
show_skin instance_id i none = pure (error_response msg_get_skin_details err_item_not_found)
show_skin instance_id i (some s) = do
  price ← db_calculate_skin_price i.definition_id s.rarity i.wear
  rarity_mult ← attempt (db_get_rarity_multiplier s.rarity)
  pure (
      success_response msg_skin_details_data (
        of_skin (record {
          skin_id = instance_id;
          name = s.name;
          rarity = s.rarity;
          wear = i.wear;
          pattern_seed = i.pattern_seed;
          is_stattrak = i.is_stattrak;
          base_price = s.base_price * or_one rarity_mult / 100;
          current_price = price;
          owner_id = i.owner_id;
          acquired_at = i.acquired_at;
          is_tradable = i.is_tradable;
        })))

unfoldable pub details_of : ℕ → Option SkinInstance → M Response
details_of instance_id none = pure (error_response msg_get_skin_details err_item_not_found)
details_of instance_id (some i) = do
  s ← attempt (db_load_skin_definition_with_rarity i.definition_id)
  show_skin instance_id i s

unfoldable pub handle_get_skin_details : List ℕ → M Response
handle_get_skin_details payload =
    with_one msg_get_skin_details payload
      λ instance_id. do i ← attempt (db_load_skin_instance instance_id); details_of instance_id i
