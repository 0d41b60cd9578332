-- ===== src/Db/Prices.antt =====
-- The price of a skin can always be computed.
use cs.Base.{ℕ}
use cs.Types.{SkinRarity}
use cs.Db.Monad.Atomic.{read_rules}
use cs.Db.Monad.Quiet.{Quiet, quiet_rules}
use cs.Db.Instances.{
  db_get_rarity_multiplier, db_get_wear_multiplier, db_load_skin_definition,
  db_calculate_skin_price,
}

pub db_calculate_skin_price-Quiet :
    (k : ℕ) (r : SkinRarity) (w : ℕ) → Quiet (db_calculate_skin_price k r w)
unfolding db_calculate_skin_price db_load_skin_definition db_get_rarity_multiplier
    db_get_wear_multiplier
db_calculate_skin_price-Quiet k r w = search (quiet_rules, read_rules) depth 12
