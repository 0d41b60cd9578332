-- ===== src/Unbox.antt =====
-- src/server/unbox.c: opening a case and its preview. `rand i` is what the i-th `rand()` of a call
-- gives, and `rand_max` is RAND_MAX; where C leaves the order of two calls open, it is left to
-- right. The positive code ERR_INSUFFICIENT_FUNDS is `err 103`.
pub mod Rolls
pub mod Preview
pub mod Atomic
pub mod Aftermath
pub mod Drawn
pub mod Outcome
use cs.Base.{
  ℕ, zero, suc, ◌+◌, ◌-◌, ◌*◌, ◌/◌, ◌%◌, Bool, true, false, not, ◌&&◌, ◌||◌, Option, none, some,
  List, [], ◌∷◌, ltb, leb, ◌==◌, length, get_or, if◌then◌else◌,
}
use cs.Types.{
  usd, User, SkinRarity, consumer, industrial, mil_spec, restricted, classified, covert, contraband,
  rarity_index, hundredths, Skin, TransactionLog, log_unbox, lucky_gambler, profit_maker,
  first_knife,
}
use cs.Db.Tables.{SkinDefinition, CaseRow}
use cs.Db.Monad.{
  M, pure, or_return, attempt, ◌>>=◌, ◌>>◌, return_if, clock, db_begin_transaction,
  db_commit_transaction, or_rollback,
}
use cs.Db.Users.{db_load_user, db_update_user, db_add_to_inventory, db_log_transaction}
use cs.Db.Instances.{db_create_skin_instance, db_calculate_skin_price, db_get_rarity_multiplier}
use cs.Db.Cases.{db_load_case, db_load_skin_definition_with_rarity, db_get_case_skins_by_rarity}
use cs.Db.Community.{db_save_chat_message}
use cs.Quests.{update_quest_progress, check_quest_completion}
use cs.Achievements.{unlock_achievement}
use cs.Challenges.{update_user_active_challenges}

abbrev pub case_key_price : ℕ
case_key_price = 25000

abbrev pub err_insufficient_funds : ℕ
err_insufficient_funds = 103

abbrev pub all_rarities : List SkinRarity
all_rarities = consumer ∷ industrial ∷ mil_spec ∷ restricted ∷ classified ∷ covert ∷ contraband ∷ []

-- Whether the rarity is among those.
abbrev pub offers : SkinRarity → List SkinRarity → Bool
offers r [] = false
offers r (q ∷ l) = rarity_index q == rarity_index r || offers r l

-- A rarity that the roll reaches and the case has, or what the next ones give.
abbrev pub or_try : Bool → SkinRarity → List SkinRarity → SkinRarity → SkinRarity
or_try reached r available next = if reached && offers r available then r else next

abbrev first_of : List SkinRarity → SkinRarity
first_of [] = mil_spec
first_of (r ∷ _) = r

abbrev pub has_none : {A : Type 0} → List A → Bool
has_none [] = true
has_none (_ ∷ _) = false

abbrev pub add_if_any : SkinRarity → Option (List ℕ) → List SkinRarity → List SkinRarity
add_if_any r none rest = rest
add_if_any r (some []) rest = rest
add_if_any r (some (_ ∷ _)) rest = r ∷ rest

-- The rarities that the case has; a query that fails counts as one that finds none.
unfoldable pub available_rarities : ℕ → List SkinRarity → M (List SkinRarity)
available_rarities case_id [] = pure []
available_rarities case_id (r ∷ l) = do
  ids ← attempt (db_get_case_skins_by_rarity case_id r)
  rest ← available_rarities case_id l
  pure (add_if_any r ids rest)

abbrev pub is_contraband : SkinRarity → Bool
is_contraband r = rarity_index r == rarity_index contraband

abbrev pub is_covert : SkinRarity → Bool
is_covert r = rarity_index r == rarity_index covert

-- What a transaction of `unbox_case` creates.
pub record Unboxed : Type 0 where
  pub instance_id : ℕ
  pub definition_id : ℕ
  pub definition : SkinDefinition
  pub wear : ℕ
  pub pattern_seed : ℕ
  pub is_stattrak : Bool

module _ (rand : ℕ → ℕ) (rand_max : ℕ) where
  -- `rand() / RAND_MAX * 100 < n / 100`
  abbrev pub under : ℕ → ℕ → Bool
  under i n = ltb (rand i * 10000) (n * rand_max)

  -- `roll_rarity`
  unfoldable pub roll_rarity : ℕ → SkinRarity
  roll_rarity i =
      if under i 26
      then contraband
      else if under i 90
      then covert
      else if under i 410
      then classified
      else if under i 2008
      then restricted
      else mil_spec

  -- The rolled rarity, among those that the case has.
  unfoldable pub roll_available : ℕ → List SkinRarity → SkinRarity
  roll_available i available = or_try (under i 26) contraband available (
      or_try (under i 90) covert available (
        or_try (under i 410) classified available (
          or_try (under i 2008) restricted available
            (or_try true mil_spec available (first_of available)))))

  -- A uniform integer below 2^31 over 2^31 - 1, rounded down to ten decimals.
  unfoldable pub roll_wear : ℕ → ℕ
  roll_wear i = (rand i * 65536 + rand (i + 1) % 65536) % 2147483648 * hundredths 100 / 2147483647

  -- Nine in ten are none, and contraband is never one: that roll is not made.
  unfoldable pub roll_stattrak : ℕ → SkinRarity → Bool
  roll_stattrak i r = if is_contraband r then false else leb (rand i * 10) rand_max

  unfoldable pub roll_pattern : ℕ → SkinRarity → ℕ
  roll_pattern i r = if is_contraband r then rand i % 1000 else rand (i + 1) % 1000

  -- From BEGIN to COMMIT.
  unfoldable pub open_case : ℕ → ℕ → ℕ → User → M Unboxed
  open_case user_id case_id total_cost user = do
    or_return 8 db_begin_transaction
    or_rollback 4 (db_update_user (record user { balance = user.balance - total_cost }))
    rarities ← available_rarities case_id all_rarities
    or_rollback 5 (return_if (has_none rarities) 5)
    ids ← or_rollback 5 (db_get_case_skins_by_rarity case_id (roll_available 0 rarities))
    or_rollback 5 (return_if (has_none ids) 5)
    let definition_id = get_or ids (rand 1 % length ids) 0
    s ← or_rollback 6 (db_load_skin_definition_with_rarity definition_id)
    instance_id ← or_rollback 6 (
        db_create_skin_instance definition_id s.rarity (roll_wear 2) (roll_pattern 4 s.rarity)
          (roll_stattrak 4 s.rarity) user_id)
    or_rollback 7 (db_add_to_inventory user_id instance_id)
    or_rollback 9 db_commit_transaction
    pure (record {
      instance_id = instance_id;
      definition_id = definition_id;
      definition = s;
      wear = roll_wear 2;
      pattern_seed = roll_pattern 4 s.rarity;
      is_stattrak = roll_stattrak 4 s.rarity;
    })

-- The announcement of a rare drop, a text about the skin and its price: the sockets of the clients
-- are not modelled.
unfoldable pub announce : Option User → Skin → M (Unit {0})
announce none s = pure tt
announce (some u) s =
    attempt (
      db_save_chat_message 0 (b'S' ∷ b'Y' ∷ b'S' ∷ b'T' ∷ b'E' ∷ b'M' ∷ [])
        (s.current_price ∷ s.name))
    >> pure tt

unfoldable pub broadcast_rare_unbox : ℕ → Skin → M (Unit {0})
broadcast_rare_unbox user_id s =
    if not (is_contraband s.rarity || is_covert s.rarity) then pure tt else do
      now ← clock
      attempt (
          db_log_transaction (record {
            type = log_unbox;
            user_id = user_id;
            details = s.wear ∷ s.current_price ∷ [];
            timestamp = now;
          }))
      user ← attempt (db_load_user user_id)
      announce user s

-- The profit in whole dollars goes to the quest.
unfoldable pub count_profit : ℕ → ℕ → M (Unit {0})
count_profit user_id profit =
    if profit == 0
    then pure tt
    else attempt (update_quest_progress user_id profit_maker (profit / usd)) >> pure tt

unfoldable pub count_knife : ℕ → SkinRarity → M (Unit {0})
count_knife user_id r =
    if is_contraband r then attempt (unlock_achievement user_id first_knife) >> pure tt else pure tt

-- A multiplier in percent; 1.0 where it cannot be read.
abbrev pub or_one : Option ℕ → ℕ
or_one none = 100
or_one (some m) = m

-- What follows the COMMIT; no result is looked at.
unfoldable pub after_unbox : ℕ → ℕ → ℕ → Unboxed → M Skin
after_unbox user_id case_id total_cost x = do
  price ← db_calculate_skin_price x.definition_id x.definition.rarity x.wear
  rarity_mult ← attempt (db_get_rarity_multiplier x.definition.rarity)
  now ← clock
  let s : Skin = record {
    skin_id = x.instance_id;
    name = x.definition.name;
    rarity = x.definition.rarity;
    wear = x.wear;
    pattern_seed = x.pattern_seed;
    is_stattrak = x.is_stattrak;
    base_price = x.definition.base_price * or_one rarity_mult / 100;
    current_price = price;
    owner_id = user_id;
    acquired_at = now;
    is_tradable = true;
  }
  attempt (
      db_log_transaction (record {
        type = log_unbox;
        user_id = user_id;
        details = case_id ∷ x.instance_id ∷ x.definition_id ∷ total_cost ∷ price ∷ [];
        timestamp = now;
      }))
  attempt (update_quest_progress user_id lucky_gambler 1)
  count_profit user_id (price - total_cost)
  count_knife user_id x.definition.rarity
  attempt (check_quest_completion user_id)
  attempt (update_user_active_challenges user_id)
  broadcast_rare_unbox user_id s
  pure s

module _ (rand : ℕ → ℕ) (rand_max : ℕ) where
  unfoldable pub unbox_case : ℕ → ℕ → M Skin
  unbox_case user_id case_id = do
    return_if (user_id == 0 || case_id == 0) 1
    c ← or_return 2 (db_load_case case_id)
    user ← or_return 3 (db_load_user user_id)
    let total_cost = c.price + case_key_price
    return_if (ltb user.balance total_cost) err_insufficient_funds
    x ← open_case rand rand_max user_id case_id total_cost user
    after_unbox user_id case_id total_cost x
