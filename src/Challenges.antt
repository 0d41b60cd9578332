-- ===== src/Challenges.antt =====
-- src/server/trading_challenges.c: one-against-one profit races.
pub mod Stays
pub mod Finish
pub mod Atomic
pub mod Kept
pub mod Closed
pub mod Prize
use cs.Base.{
  ℕ, suc, ◌+◌, ◌-◌, ◌*◌, Bool, true, false, not, ◌&&◌, ◌||◌, Option, none, some, List, [], ◌∷◌,
  ◌++◌, ltb, leb, ◌==◌, if◌then◌else◌, take, ℤ, pos, ltb_ℤ, sub_ℕ,
}
use cs.Float.{rounded}
use cs.Types.{
  usd, User, SkinInstance, ChallengeType, profit_race, ChallengeStatus, challenge_pending,
  challenge_active, challenge_completed, challenge_cancelled, TradingChallenge,
}
use cs.Db.Table.{Rows, find, put, has}
use cs.Db.Tables.{Tables}
use cs.Db.Monad.{
  M, pure, fail, select, write, or_return, attempt, ◌>>=◌, ◌>>◌, return_if, clock,
  db_begin_transaction, db_commit_transaction, or_rollback,
}
use cs.Db.Users.{db_load_user, db_update_user, db_load_inventory}
use cs.Db.Instances.{db_load_skin_instance, db_calculate_skin_price}

-- The price of one item of an inventory, 0 where it cannot be read.
unfoldable pub item_value : Option SkinInstance → M ℕ
item_value none = pure 0
item_value (some s) = db_calculate_skin_price s.definition_id s.rarity s.wear

-- The loop that adds the prices to `total`.
unfoldable pub items_value : ℕ → List ℕ → M ℕ
items_value total [] = pure total
items_value total (instance_id ∷ ids) = do
  s ← attempt (db_load_skin_instance instance_id)
  price ← item_value s
  items_value (rounded (total + price)) ids

-- The net worth of a user who could be loaded.
unfoldable pub net_worth_of : Option User → M ℕ
net_worth_of none = pure 0
net_worth_of (some u) = do inv ← db_load_inventory u.user_id; items_value u.balance inv

-- Balance and the prices of the inventory.
unfoldable pub calculate_net_worth : ℕ → M ℕ
calculate_net_worth user_id = do u ← attempt (db_load_user user_id); net_worth_of u

-- The new row: pending, with no profit yet. Both users must exist.
unfoldable pub insert_challenge : ℕ → ℕ → ℕ → ℕ → ℕ → ℕ → M ℕ
insert_challenge challenger_id opponent_id challenger_start opponent_start now duration_minutes =
    write λ t.
      let c : TradingChallenge = record {
        challenge_id = t.next_challenge;
        challenger_id = challenger_id;
        opponent_id = opponent_id;
        type = profit_race;
        status = challenge_pending;
        challenger_start_balance = challenger_start;
        opponent_start_balance = opponent_start;
        challenger_current_profit = pos 0;
        opponent_current_profit = pos 0;
        start_time = now;
        end_time = 0;
        duration_minutes = duration_minutes;
        challenger_cancel_vote = false;
        opponent_cancel_vote = false;
      } in
      if has challenger_id t.users && has opponent_id t.users
      then some (
        t.next_challenge,
        record t {
          challenges = t.challenges ++ ((t.next_challenge, c) ∷ []);
          next_challenge = suc t.next_challenge;
        },
      )
      else none

unfoldable pub create_profit_race_challenge : ℕ → ℕ → ℕ → M ℕ
create_profit_race_challenge challenger_id opponent_id duration_minutes = do
  return_if (challenger_id == 0 || (opponent_id == 0 || duration_minutes == 0)) 1
  return_if (challenger_id == opponent_id) 2
  challenger ← or_return 3 (db_load_user challenger_id)
  opponent ← or_return 4 (db_load_user opponent_id)
  challenger_start ← calculate_net_worth challenger_id
  opponent_start ← calculate_net_worth opponent_id
  now ← clock
  or_return 5 (
      insert_challenge challenger_id opponent_id challenger_start opponent_start now
        duration_minutes)

unfoldable pub get_challenge : ℕ → M TradingChallenge
get_challenge challenge_id = do
  return_if (challenge_id == 0) 1
  select λ t. find challenge_id t.challenges

abbrev pub is_active : ChallengeStatus → Bool
is_active challenge_active = true
is_active _ = false

abbrev pub is_open : ChallengeStatus → Bool
is_open challenge_pending = true
is_open challenge_active = true
is_open _ = false

abbrev open_of : ℕ → Rows TradingChallenge → List TradingChallenge
open_of user_id [] = []
open_of user_id ((j, c) ∷ t) =
    if (c.challenger_id == user_id || c.opponent_id == user_id) && is_open c.status
    then record c { challenge_id = j } ∷ open_of user_id t
    else open_of user_id t

abbrev insert_by_start : TradingChallenge → List TradingChallenge → List TradingChallenge
insert_by_start c [] = c ∷ []
insert_by_start c (b ∷ l) =
    if leb b.start_time c.start_time then c ∷ (b ∷ l) else b ∷ insert_by_start c l

-- ORDER BY start_time DESC
abbrev by_start : List TradingChallenge → List TradingChallenge
by_start [] = []
by_start (c ∷ l) = insert_by_start c (by_start l)

unfoldable pub get_user_challenges : ℕ → M (List TradingChallenge)
get_user_challenges user_id = do
  return_if (user_id == 0) 1
  select λ t. some (take 50 (by_start (open_of user_id t.challenges)))

abbrev pub challenge_update :
    ℕ → (TradingChallenge → TradingChallenge) → Option TradingChallenge → Tables → Tables
challenge_update challenge_id f none t = t
challenge_update challenge_id f (some c) t = record t {
  challenges = put challenge_id (f c) t.challenges;
}

-- An UPDATE of one challenge's row.
unfoldable pub update_challenge : ℕ → (TradingChallenge → TradingChallenge) → M (Unit {0})
update_challenge challenge_id f =
    write λ t. some (tt, challenge_update challenge_id f (find challenge_id t.challenges) t)

unfoldable pub update_challenge_progress : ℕ → M (Unit {0})
update_challenge_progress challenge_id = do
  challenge ← or_return 1 (get_challenge challenge_id)
  return_if (not (is_active challenge.status)) 2
  challenger_current ← calculate_net_worth challenge.challenger_id
  opponent_current ← calculate_net_worth challenge.opponent_id
  or_return 3 (
      update_challenge challenge_id λ c. record c {
        challenger_current_profit = sub_ℕ challenger_current challenge.challenger_start_balance;
        opponent_current_profit = sub_ℕ opponent_current challenge.opponent_start_balance;
      })

abbrev pub is_challenge_pending : ChallengeStatus → Bool
is_challenge_pending challenge_pending = true
is_challenge_pending _ = false

unfoldable pub accept_challenge : ℕ → ℕ → M (Unit {0})
accept_challenge challenge_id user_id = do
  challenge ← or_return 1 (get_challenge challenge_id)
  return_if (not (challenge.opponent_id == user_id)) 2
  return_if (not (is_challenge_pending challenge.status)) 3
  now ← clock
  or_return 4
      (update_challenge challenge_id λ c. record c { status = challenge_active; start_time = now })

unfoldable pub update_active : List TradingChallenge → M (Unit {0})
update_active [] = pure tt
update_active (c ∷ l) =
    let rest = update_active l in
    if is_active c.status then attempt (update_challenge_progress c.challenge_id) >> rest else rest

unfoldable pub update_listed : Option (List TradingChallenge) → M (Unit {0})
update_listed none = pure tt
update_listed (some l) = update_active l

unfoldable pub update_user_active_challenges : ℕ → M (Unit {0})
update_user_active_challenges user_id = do
  listed ← attempt (get_user_challenges user_id)
  update_listed listed
