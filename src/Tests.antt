-- ===== src/Tests.antt =====
-- A small shop on which the theorems are applied.
mod Runs
pub mod Accounts
pub mod Cases
pub mod Messages
pub mod Requests
pub mod Races
use cs.Base.{
  set, arith, map, ◌+◌, ◌≤◌, ℕ, List, ◌*◌, ◌≡◌, ◌≢◌, refl, ap, true, false, none, some, [], ◌∷◌,
  ◌/◌, pos, negsuc,
}
use cs.Types.{
  TradingChallenge, profit_race, challenge_active, usd, day_seconds, User, SkinInstance, covert,
  Quest, TradeOffer, trade_pending, MarketListing, LoginStreak, first_steps, first_trade,
}
use cs.Db.Table.{put, replace}
use cs.Float.{spacing, nearest, rounded, Near}
use cs.Db.Tables.{Tables, SkinDefinition}
use cs.Db.Monad.{Db, ok, err}
use cs.Db.Monad.Atomic.{Done}
use cs.Db.Monad.Frame.{IfOk}
use cs.Db.Money.{money}
use cs.Db.IntArray.{serialize, parse_skins}
use cs.Db.IntArray.RoundTrip.{parse_skins-serialize, parse_skins-magnitude}
use cs.Db.Trades.{db_is_instance_in_pending_trade, trade_at, row_of, offer_of}
use cs.Db.Trades.Pending.{pending_alone_found, pending_only_alone}
use cs.Trading.Accept.{accept_trade}
use cs.Trading.Outcome.{AcceptOutcome, Closed, accept_trade_atomic}
use cs.Trading.Conserve.{accept_trade_keeps_money}
use cs.Trading.Once.{trade_accepted_once}
use cs.Market.Once.{listing_sold_once}
use cs.Trading.Guards.{Acceptable, accept_trade_guards}
use cs.Market.{seller_payout, buy_from_market, list_skin_on_market}
use cs.Market.Atomic.{buy_from_market_atomic, list_skin_on_market_atomic}
use cs.Market.Money.{Sold, buy_from_market_money}
use cs.Quests.Claims.{rewarded, claiming, claim_failure_keeps_reward}
use cs.Quests.{claim_quest_reward, update_quest_progress}
use cs.Quests.Atomic.{update_quest_progress_atomic, update_quest_progress_in_transaction}
use cs.Achievements.{unlock_achievement}
use cs.Achievements.Atomic.{unlock_achievement_atomic, unlock_achievement_in_transaction}
use cs.Challenges.Finish.{award, penalise}
use cs.Challenges.Atomic.{award_atomic, penalise_atomic}
use cs.ThreadPool.{
  Job, JobQueue, Reached, begun, accepts, starts, stops, thread_pool_init, thread_pool_add_job,
  worker_thread, added, took, thread_pool_shutdown, exits, slots, worker_rounds,
}
use cs.ThreadPool.Ring.{jobs_from, waiting, WellFormed}
use cs.ThreadPool.Drain.{worker_rounds-waiting}
use cs.ThreadPool.Fifo.{AddMeans, TakeMeans, thread_pool_add_job-waiting, worker_thread-waiting}
use cs.ThreadPool.Runs.{InOrder, Reached-InOrder, worker_leaves_nothing, init-InOrder}
use cs.LoginRewards.{
  streak_reward, paid_day, next_streak, claim_daily_reward, update_login_streak,
  db_atomic_claim_daily_reward,
}
use cs.LoginRewards.Streak.{healthy, next_streak-bounds}
use cs.LoginRewards.Claims.{claim_atomic, claim_once_a_day, claim_equivalence, login_stops_streak}

abbrev pub user : ℕ → ℕ → User
user id balance = record {
  user_id = id;
  username = [];
  password_hash = [];
  balance = balance;
  created_at = 0;
  last_login = 0;
  is_banned = false;
}

abbrev skin : ℕ → SkinInstance
skin owner = record {
  definition_id = 1;
  rarity = covert;
  wear = 500000000;
  pattern_seed = 0;
  is_stattrak = false;
  owner_id = owner;
  acquired_at = 0;
  is_tradable = true;
}

-- User 1 offers skin 5 to user 2 for 30 dollars.
abbrev offer : TradeOffer
offer = record {
  trade_id = 7;
  from_user_id = 1;
  to_user_id = 2;
  offered_skins = pos 5 ∷ [];
  offered_cash = 0;
  requested_skins = [];
  requested_cash = 30 * usd;
  status = trade_pending;
  created_at = 100;
  expires_at = 1000;
}

abbrev listing : MarketListing
listing = record {
  seller_id = 1;
  instance_id = 6;
  price = 20 * usd;
  listed_at = 0;
  is_sold = false;
}

abbrev streak : LoginStreak
streak = record { user_id = 1; current_streak = 3; last_login_date = 0; last_reward_date = 0 }

abbrev definition : SkinDefinition
definition = record { name = b'A' ∷ []; base_price = 10 * usd; rarity = covert }

abbrev pub challenge : TradingChallenge
challenge = record {
  challenge_id = 3;
  challenger_id = 1;
  opponent_id = 2;
  type = profit_race;
  status = challenge_active;
  challenger_start_balance = 10 * usd;
  opponent_start_balance = 100 * usd;
  challenger_current_profit = pos 0;
  opponent_current_profit = pos 5;
  start_time = 1;
  end_time = 0;
  duration_minutes = 60;
  challenger_cancel_vote = true;
  opponent_cancel_vote = false;
}

abbrev finished : Quest
finished = record {
  quest_id = 9;
  user_id = 1;
  quest_type = first_steps;
  progress = 5;
  target = 5;
  is_completed = true;
  is_claimed = false;
  started_at = 100;
  completed_at = 200;
}

abbrev pub shop : Tables
shop = record {
  users = (1, user 1 (10 * usd)) ∷ (2, user 2 (100 * usd)) ∷ [];
  inventories = (1, 5) ∷ [];
  trades = (7, row_of offer) ∷ [];
  next_trade = 8;
  instances = (5, skin 1) ∷ (6, skin 1) ∷ [];
  next_instance = 7;
  listings = (4, listing) ∷ [];
  next_listing = 5;
  logs = [];
  quests = (9, finished) ∷ [];
  next_quest = 10;
  achievements = [];
  next_achievement = 1;
  streaks = (1, streak) ∷ [];
  prices = [];
  definitions = (1, definition) ∷ [];
  challenges = (3, challenge) ∷ [];
  next_challenge = 4;
  cases = [];
  case_skins = [];
  sessions = [];
  next_user = 3;
  reports = [];
  next_report = 1;
  messages = [];
}

-- The third statement is refused.
abbrev pub faulty : Db
faulty = record { tables = shop; saved = none; now = 500; faults = false ∷ false ∷ true ∷ [] }

abbrev pub open_shop : Db
open_shop = healthy shop 500

abbrev in_transaction : Db
in_transaction = record open_shop { saved = some shop }

abbrev pub day : ℕ → ℕ
day t = t / day_seconds * day_seconds

accept_trade_atomic_example : AcceptOutcome Closed 7 shop (accept_trade 2 7 faulty)
accept_trade_atomic_example = accept_trade_atomic 2 7 faulty refl

-- The trade of the shop is between users 1 and 2.
between_two :
    (trade : TradeOffer) → trade_at 7 shop ≡ some trade → trade.from_user_id ≢ trade.to_user_id
unfolding row_of offer_of
between_two trade e same =
    let from : 1 ≡ trade.from_user_id = ap (λ o. elim o [ none ↦ 0 | some w ↦ w.from_user_id ]) e in
    let to : 2 ≡ trade.to_user_id = ap (λ o. elim o [ none ↦ 0 | some w ↦ w.to_user_id ]) e in
    omega arith

accept_trade_keeps_money_example :
    Near 22 (money (accept_trade 2 7 open_shop).1.tables) (money shop)
accept_trade_keeps_money_example = accept_trade_keeps_money 2 7 open_shop refl between_two

accept_trade_guards_example :
    IfOk
      (λ _ _. (trade : TradeOffer) × ((trade_at 7 shop ≡ some trade) × Acceptable 2 500 trade))
      (accept_trade 2 7 open_shop)
accept_trade_guards_example = accept_trade_guards 2 7 open_shop

buy_from_market_atomic_example : Done shop (buy_from_market 2 4 faulty)
buy_from_market_atomic_example = buy_from_market_atomic 2 4 faulty refl

buy_from_market_money_example : Sold 4 shop (buy_from_market 2 4 open_shop)
buy_from_market_money_example = buy_from_market_money 2 4 open_shop refl

list_skin_on_market_atomic_example : Done shop (list_skin_on_market 1 5 (3 * usd) faulty)
list_skin_on_market_atomic_example = list_skin_on_market_atomic 1 5 (3 * usd) faulty refl

update_quest_progress_in_transaction_example :
    ((update_quest_progress 1 first_steps 1 in_transaction).0 ≡ err 1)
    × ((update_quest_progress 1 first_steps 1 in_transaction).1.tables ≡ shop)
update_quest_progress_in_transaction_example =
    update_quest_progress_in_transaction 1 first_steps 1 in_transaction shop refl

claim_once_a_day_example :
    let now = 4 * day_seconds in
    let today = day now in
    let later = record (db_atomic_claim_daily_reward day 1 (healthy shop now)).1 {
      now = now + 50;
    } in
    (db_atomic_claim_daily_reward day 1 (healthy shop now) ≡ (
      ok (streak_reward (next_streak today streak), paid_day (next_streak today streak)),
      healthy
          (record shop {
            users =
                put 1
                  (user 1 (rounded (10 * usd + streak_reward (next_streak today streak))))
                  shop.users;
            streaks =
                replace 1
                  (record streak {
                    current_streak = paid_day (next_streak today streak);
                    last_login_date = today;
                    last_reward_date = today;
                  })
                  shop.streaks;
          })
          now,
    ))
    × (db_atomic_claim_daily_reward day 1 later ≡ (err 2, later))
claim_once_a_day_example =
    claim_once_a_day day 1 (4 * day_seconds) (4 * day_seconds + 50) shop (user 1 (10 * usd)) refl
      refl refl refl

claim_equivalence_example :
    claim_daily_reward day 1 (healthy shop 90000)
    ≡ db_atomic_claim_daily_reward day 1 (healthy shop 90000)
claim_equivalence_example = claim_equivalence day 1 90000 shop (user 1 (10 * usd)) refl

login_stops_streak_example :
    let d = record (update_login_streak day 1 (healthy shop 90000)).1 { now = 90005 } in
    ((db_atomic_claim_daily_reward day 1 d).0 ≡ ok (streak_reward 3, 3))
    × ((db_atomic_claim_daily_reward day 1 d).1.tables.users
        ≡ put 1 (user 1 (rounded (10 * usd + streak_reward 3))) shop.users)
login_stops_streak_example =
    login_stops_streak day 1 90000 90005 shop (user 1 (10 * usd)) streak refl refl refl refl refl
      (omega arith) (omega arith)

next_streak-bounds_example :
    (1 ≤ next_streak (2 * day_seconds) streak) × (next_streak (2 * day_seconds) streak ≤ 7)
next_streak-bounds_example = next_streak-bounds (2 * day_seconds) streak (omega arith)

parse_skins-serialize_example :
    parse_skins (serialize (map pos (5 ∷ 12 ∷ 300 ∷ []))) ≡ 5 ∷ 12 ∷ 300 ∷ []
parse_skins-serialize_example = parse_skins-serialize (5 ∷ 12 ∷ 300 ∷ []) (omega arith)

-- 2^24 + 1 is half way between two `float`s.
half_way_down : rounded 16777217 ≡ 16777216
unfolding rounded spacing nearest
half_way_down = refl

-- From 2^18 dollars on, a cent more or less is rounded away.
cent_lost : rounded (262144 * usd + usd / 100) ≡ 262144 * usd
unfolding rounded spacing nearest
cent_lost = refl

-- 20 dollars less 3, and the listing fee: the excess of 0.15f is rounded off.
payout_of_twenty : seller_payout (20 * usd) ≡ 17 * usd + usd / 2
unfolding seller_payout rounded spacing nearest
payout_of_twenty = refl

parse_skins-magnitude_example :
    parse_skins (serialize (pos 7 ∷ negsuc 4 ∷ pos 12 ∷ [])) ≡ 7 ∷ 5 ∷ 12 ∷ []
parse_skins-magnitude_example = parse_skins-magnitude (pos 7 ∷ negsuc 4 ∷ pos 12 ∷ []) (omega arith)

abbrev job : Job
job = record { client_fd = 5; request = 1 ∷ 2 ∷ [] }

-- The queue with one job.
abbrev one_job : JobQueue
one_job = record thread_pool_init { queue = set thread_pool_init.queue 0 job; tail = 1; count = 1 }

abbrev no_jobs : JobQueue
no_jobs = record one_job { head = 1; count = 0 }

one_added : thread_pool_add_job job thread_pool_init ≡ added one_job
unfolding thread_pool_add_job thread_pool_init
one_added = refl

one_taken : worker_thread one_job ≡ took job no_jobs
unfolding worker_thread thread_pool_init slots
one_taken = refl

a_run : Reached (job ∷ []) (job ∷ []) no_jobs
a_run = starts job (accepts job begun one_added) one_taken

Reached-InOrder_example : InOrder (job ∷ []) (job ∷ []) no_jobs
Reached-InOrder_example = Reached-InOrder a_run

one_left : worker_thread (thread_pool_shutdown no_jobs) ≡ exits
unfolding worker_thread thread_pool_shutdown
one_left = refl

worker_leaves_nothing_example :
    (job ∷ [] ≡ job ∷ []) × ((thread_pool_shutdown no_jobs).shutdown ≡ true)
worker_leaves_nothing_example = worker_leaves_nothing (stops a_run) one_left

thread_pool_add_job-waiting_example :
    AddMeans job thread_pool_init (thread_pool_add_job job thread_pool_init)
thread_pool_add_job-waiting_example =
    thread_pool_add_job-waiting job thread_pool_init init-InOrder.0

trade_accepted_once_example :
    IfOk (λ _ d'. IfOk (λ _ _. ⊥) (accept_trade 2 7 d')) (accept_trade 2 7 open_shop)
trade_accepted_once_example = trade_accepted_once 2 2 7 open_shop refl

listing_sold_once_example :
    IfOk (λ _ d'. IfOk (λ _ _. ⊥) (buy_from_market 2 4 d')) (buy_from_market 2 4 open_shop)
listing_sold_once_example = listing_sold_once 2 2 4 open_shop refl

claim_failure_keeps_reward_example : claim_quest_reward 1 9 (claiming true shop 500) ≡ (
  err 6,
  record (claiming true (rewarded 1 (user 1 (10 * usd)) finished shop) 500) { faults = [] },
)
claim_failure_keeps_reward_example =
    claim_failure_keeps_reward 1 9 500 shop (user 1 (10 * usd)) finished refl refl refl refl refl

-- User 1 offers the skins 5 and 6 together.
abbrev two_offered : Tables
two_offered = record shop {
  trades = (7, row_of (record offer { offered_skins = pos 5 ∷ pos 6 ∷ [] })) ∷ [];
}

pending_only_alone_example :
    (db_is_instance_in_pending_trade 5 (healthy two_offered 500)).0 ≡ ok false
unfolding row_of
pending_only_alone_example = pending_only_alone 5 (healthy two_offered 500) (
  (
    (5 ∷ 6 ∷ [], (refl, (omega arith, λ e. omega arith))),
    ([], (refl, (omega arith, λ e. omega arith))),
  ),
  tt,
)

-- The texts "secret" and one with a byte above 127.
abbrev secret : List ℕ
secret = 115 ∷ 101 ∷ 99 ∷ 114 ∷ 101 ∷ 116 ∷ []

abbrev accented : List ℕ
accented = 115 ∷ 195 ∷ 169 ∷ 99 ∷ 114 ∷ 101 ∷ 116 ∷ []

one_left_to_do : waiting (thread_pool_shutdown one_job) ≡ job ∷ []
unfolding waiting jobs_from thread_pool_shutdown thread_pool_init slots
one_left_to_do = refl

worker_rounds-waiting_example : worker_rounds 2 (thread_pool_shutdown one_job) ≡ some (job ∷ [])
unfolding thread_pool_shutdown
worker_rounds-waiting_example =
    worker_rounds-waiting (thread_pool_shutdown one_job) (job ∷ [])
      (Reached-InOrder (stops (accepts job begun one_added))).0 refl one_left_to_do
