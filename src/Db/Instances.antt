-- ===== src/Db/Instances.antt =====
-- The rows of `skin_instances`: ownership and trade locks; and the price of a skin.
use cs.Base.{
  ℕ, suc, ◌+◌, ◌*◌, ◌/◌, Bool, true, false, not, ◌&&◌, ◌||◌, Option, none, some, List, [], ◌∷◌,
  ◌++◌, ltb, leb, if◌then◌else◌,
}
use cs.Types.{
  SkinRarity, consumer, industrial, mil_spec, restricted, classified, covert, contraband,
  SkinInstance, day_seconds, hundredths,
}
use cs.Db.Table.{find, put, has, update_where}
use cs.Db.Tables.{Tables, SkinDefinition}
use cs.Db.Monad.{M, pure, select, write, attempt, ◌>>=◌, ◌>>◌, return_if, clock}

unfoldable pub db_load_skin_instance : ℕ → M SkinInstance
db_load_skin_instance instance_id = select λ t. find instance_id t.instances

-- The new instance is tradable. The definition and the owner must exist.
unfoldable pub db_create_skin_instance : ℕ → SkinRarity → ℕ → ℕ → Bool → ℕ → M ℕ
db_create_skin_instance definition_id rarity wear pattern_seed is_stattrak owner_id = do
  now ← clock
  write λ t.
      let s : SkinInstance = record {
        definition_id = definition_id;
        rarity = rarity;
        wear = wear;
        pattern_seed = pattern_seed;
        is_stattrak = is_stattrak;
        owner_id = owner_id;
        acquired_at = now;
        is_tradable = true;
      } in
      if has definition_id t.definitions && has owner_id t.users
      then some (
        t.next_instance,
        record t {
          instances = t.instances ++ ((t.next_instance, s) ∷ []);
          next_instance = suc t.next_instance;
        },
      )
      else none

abbrev pub with_owner : ℕ → ℕ → Option SkinInstance → Tables → Option (Unit {0} × Tables)
with_owner instance_id owner none t = some (tt, t)
with_owner instance_id owner (some s) t =
    if has owner t.users
    then some
        (tt, record t { instances = put instance_id (record s { owner_id = owner }) t.instances })
    else none

-- The new owner must exist, if the instance does.
unfoldable pub db_update_skin_instance_owner : ℕ → ℕ → M (Unit {0})
db_update_skin_instance_owner instance_id new_owner_id =
    write λ t. with_owner instance_id new_owner_id (find instance_id t.instances) t

abbrev pub locked : ℕ → ℕ → Option SkinInstance → Tables → Tables
locked now instance_id none t = t
locked now instance_id (some s) t = record t {
  instances = put instance_id (record s { is_tradable = false; acquired_at = now }) t.instances;
}

unfoldable pub db_apply_trade_lock : ℕ → M (Unit {0})
db_apply_trade_lock instance_id = do
  now ← clock
  write λ t. some (tt, locked now instance_id (find instance_id t.instances) t)

abbrev pub trade_lock_duration_seconds : ℕ
trade_lock_duration_seconds = 7 * day_seconds

-- `now - acquired_at` is signed: an instance acquired in the future is locked.
abbrev pub lock_holds : ℕ → SkinInstance → Bool
lock_holds now s = not s.is_tradable || ltb now (s.acquired_at + trade_lock_duration_seconds)

unfoldable pub db_check_trade_lock : ℕ → M Bool
db_check_trade_lock instance_id = do
  s ← select (λ t. find instance_id t.instances)
  now ← clock
  pure (lock_holds now s)

-- `acquired_at <= now - lock_duration`, in signed arithmetic.
abbrev pub lock_expired : ℕ → SkinInstance → Bool
lock_expired now s = not s.is_tradable && leb (s.acquired_at + trade_lock_duration_seconds) now

unfoldable pub db_unlock_expired_trades : M (Unit {0})
db_unlock_expired_trades = do
  now ← clock
  write λ t. some (
    tt,
    record t {
      instances =
          update_where (lock_expired now) (λ s. record s { is_tradable = true }) t.instances;
    },
  )

-- The rows of `rarity_multipliers`, in percent.
abbrev pub rarity_multiplier : SkinRarity → ℕ
rarity_multiplier consumer = 10
rarity_multiplier industrial = 15
rarity_multiplier mil_spec = 30
rarity_multiplier restricted = 50
rarity_multiplier classified = 75
rarity_multiplier covert = 100
rarity_multiplier contraband = 150

unfoldable pub db_get_rarity_multiplier : SkinRarity → M ℕ
db_get_rarity_multiplier r = select λ t. some (rarity_multiplier r)

-- The rows of `wear_multipliers`: minimum and maximum, the multiplier in percent.
abbrev pub wear_multipliers : List (ℕ × ℕ × ℕ)
wear_multipliers =
    (0, hundredths 7, 100)
    ∷ (hundredths 7, hundredths 15, 92)
    ∷ (hundredths 15, hundredths 37, 78)
    ∷ (hundredths 37, hundredths 45, 65)
    ∷ (hundredths 45, hundredths 100, 52)
    ∷ []

-- The first row with `wear_min <= w <= wear_max`.
abbrev pub wear_multiplier : ℕ → List (ℕ × ℕ × ℕ) → Option ℕ
wear_multiplier w [] = none
wear_multiplier w ((low, high, m) ∷ rows) =
    if leb low w && leb w high then some m else wear_multiplier w rows

-- A wear above 1.00 is refused.
unfoldable pub db_get_wear_multiplier : ℕ → M ℕ
db_get_wear_multiplier w = do
  return_if (ltb (hundredths 100) w) 1
  select λ t. wear_multiplier w wear_multipliers

unfoldable pub db_load_skin_definition : ℕ → M SkinDefinition
db_load_skin_definition definition_id = select λ t. find definition_id t.definitions

abbrev or_zero : Option ℕ → ℕ
or_zero none = 0
or_zero (some price) = price

-- base price * rarity multiplier * wear multiplier, or 0 where one of them cannot be read.
unfoldable pub db_calculate_skin_price : ℕ → SkinRarity → ℕ → M ℕ
db_calculate_skin_price definition_id rarity wear = do
  price ← attempt do
    definition ← db_load_skin_definition definition_id
    rarity_mult ← db_get_rarity_multiplier rarity
    wear_mult ← db_get_wear_multiplier wear
    pure (definition.base_price * rarity_mult * wear_mult / 10000)
  pure (or_zero price)
