-- ===== src/Db.antt =====
-- The data layer (src/server/database_sqlite.c).
pub mod Table
pub mod Tables
pub mod Monad
pub mod IntArray
pub mod Users
pub mod Accounts
pub mod Cases
pub mod Community
pub mod Instances
pub mod Trades
pub mod Listings
pub mod Sales
pub mod Rewards
pub mod Stays
pub mod Prices
pub mod Apart
pub mod Money
