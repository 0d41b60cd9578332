-- ===== src/Lib.antt =====
-- The CS2 skin trading server: users hold skins and money, trade with each other, buy and sell on a
-- market, and earn rewards from quests, achievements, daily logins and challenges.
--
-- Parts and files. The server is C over one sqlite connection. Each part is a module that calls the
-- data layer, and the modules here are laid out the same way.
--
--   Float           the rounding of C's `float`
--   Types           include/types.h, include/trading_challenges.h: the structures
--   Db              src/server/database_sqlite.c: the data layer. Db/Tables has the tables of
--                   `db_init`, Db/Monad the functions of the server as state passing with error
--                   codes and the three transaction functions, Db/IntArray the text of skin
--                   arrays, and Db/Users, Accounts, Instances, Cases, Trades, Listings, Sales,
--                   Rewards and Community the `db_` functions, under their names
--   Trading         src/server/trading.c: `send_trade_offer`, `validate_trade` and
--                   `execute_trade_internal`; Trading/Accept has `accept_trade`, `decline_trade`
--                   and `cancel_trade`
--   Market          src/server/market.c
--   Quests          src/server/quests.c
--   Achievements    src/server/achievements.c
--   LoginRewards    src/server/login_rewards.c and `db_atomic_claim_daily_reward`
--   Challenges      src/server/trading_challenges.c; Challenges/Finish has `complete_challenge` and
--                   `cancel_challenge`, and Challenges/Closed the runs of the operations as a relation
--   ThreadPool      src/server/thread_pool.c: the queue of jobs as a ring, and its runs as a relation
--   Unbox           src/server/unbox.c: `unbox_case`; Unbox/Preview has `generate_unbox_preview`
--   Password        src/server/auth.c: `hash_password` and `verify_password`, on the bytes of a text
--                   before its terminating zero; an `unsigned long` has 64 bits and `char` is signed
--   Auth            src/server/auth.c: registration, login and sessions. `err n` is `return n` there
--   Wire            src/common/protocol.c, and `receive_message` and `send_response` of
--                   src/server/request_handler.c, on the list of what each call of the socket meets
--   Reports, Chat,
--   PriceTracking   src/server/report.c, chat.c and price_tracking.c
--   Requests        src/server/request_handler.c: a case of a `handle_` function is a function from the
--                   bytes of the payload to the response. Requests/Scan is `sscanf` and `strchr`,
--                   Market, Trades, Rewards, Races, Accounts and Lists have the cases, and
--                   Tells and Answers say what a response means
--   Tests           a small shop on which the theorems are applied
--
-- How the code corresponds. A C function that returns 0 or a negative code is a function of the
-- database state `Db`, and `err n` is `return -n`. Out-parameters are the result of `ok`. What a
-- function wrote before it returns an error stays written, unless it rolls back. Helpers carve up the
-- longer C functions: a loop body, or what follows a test, is a function of its own, and the loops are
-- recursion on the list that they run over, so that nothing needs fuel. The exceptions are the decimal
-- text of a number, whose fuel is the number itself and more than its digits, and the search for the
-- step of a rounded number, whose fuel is the 254 doublings up to 2^278 units.
--
-- The rules of Db/Monad: `Preserves` is an invariant of the tables, `Stays` that a function neither
-- begins nor ends a transaction, `InTransaction`, `Rolls` and `Closes` are the parts of a transaction,
-- `Atomic` a whole one, `Quiet` what follows a COMMIT, and `Keeps`, `Frame` and `IfOk` say what a
-- function leaves alone and what holds where it succeeds. `Done` and the other outcomes are functions
-- of how a call ended.
--
-- sqlite. A statement reads or changes the tables at once, or is refused: `faults` says which of the
-- statements to come is refused, so that a theorem about every `Db` is about every pattern of refusals.
-- BEGIN is refused inside a transaction, COMMIT outside one, and a refused COMMIT leaves the
-- transaction open; ROLLBACK succeeds inside a transaction. The tables keep their foreign keys where
-- the code relies on them. A call has the connection for itself from its first statement to its last,
-- and the clock stands still during it. That is an assumption: the workers of the server share one
-- connection, sqlite lets one call of its interface at a time through, and the handlers take no lock,
-- so that in the server the statements of two handlers can mix, also inside a transaction; such runs
-- are not modelled. The second connection that `init_daily_quests` opens is taken to open, and works
-- on the same tables. A query without ORDER BY gives its rows in the order of the table.
--
-- Numbers. Ids, counts and times are naturals: a negative id is of no row and is read as 0, and a
-- `<= 0` test is a test for 0. An amount of money is a `float`: a natural number of 2^-149 dollars, the
-- least positive `float`, and Float has the rounding to 24 significant bits after each operation of a
-- balance, a fee or a payout. An overflow to infinity is not modelled, a negative cash amount, which
-- the request handler refuses, cannot be written. Exact in the code too, and written without a
-- rounding: the deduction in `unbox_case`, as the prices of case and key are halves of a dollar (for a
-- balance below 2^23 dollars). Not rounded in the model: the prices that are a product with a
-- multiplier. Skin
-- arrays come from the client, so that their entries are integers and may be negative. A wear is in
-- units of 10^-10, to which the code rounds it, and a multiplier in percent. A roll is compared with
-- the drop rates as a fraction.
--
-- Parameters. `midnight` stands for `localtime` and `mktime`: the last midnight before a time. The
-- theorems hold for every `rand`, which gives the values of the calls of `rand()` in order, every
-- `rand_max`, and every `rand_after`, which does the same after an `srand`.
--
-- Not modelled: the client, the server loop, the logger, the leaderboards and trade statistics, which
-- only read, and the set-up tools. Of the requests, the dispatch by type, the sale with its `%f`, the
-- offer of a trade, which is copied as a structure, the searches, and the lists of trades and cases. Of
-- unbox.c, the draw by the probabilities of a `Case`, which nothing calls any more, and the list of the
-- cases. The text of a log row or an announcement is the list of the numbers in it. Pointers are not
-- null and the database is open.
pub mod Base
pub mod Types
pub mod Float
pub mod Db
pub mod Challenges
pub mod Quests
pub mod Achievements
pub mod Trading
pub mod Market
pub mod LoginRewards
pub mod Unbox
pub mod ThreadPool
pub mod Password
pub mod Auth
pub mod Reports
pub mod Chat
pub mod PriceTracking
pub mod Wire
pub mod Requests
pub mod Tests
