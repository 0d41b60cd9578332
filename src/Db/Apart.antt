-- ===== src/Db/Apart.antt =====
-- What a function of the data layer leaves alone: everything that does not look at the columns that
-- it writes.
use cs.Base.{ℕ, ◌≡◌, refl, Option, none, some, List}
use cs.Types.{SkinInstance, TransactionLog, Quest, TradingChallenge, PriceHistoryEntry}
use cs.Db.Table.{Rows, find}
use cs.Db.Tables.{Tables}
use cs.Db.Monad.Frame.{
  Keeps, Keeps-write, Keeps-bind, Keeps-clock, Keeps-return_if, Leaves, Leaves-if, keeps_rules,
}
use cs.Db.Users.{
  db_load_user, db_load_inventory, db_add_to_inventory, db_remove_from_inventory,
  db_log_transaction,
}
use cs.Db.Instances.{
  with_owner, locked, db_load_skin_instance, db_update_skin_instance_owner, db_apply_trade_lock,
}
use cs.Db.Listings.{db_save_price_history}
use cs.Db.Rewards.{db_update_quest, quest_update}

-- `g` looks at none of the columns that items, logs, prices, quests and challenges are in.
pub record Apart {X : Type 0} (g : Tables → X) : Type 0 where
  pub inventories : (t : Tables) (v : List (ℕ × ℕ)) → g (record t { inventories = v }) ≡ g t
  pub instances : (t : Tables) (v : Rows SkinInstance) → g (record t { instances = v }) ≡ g t
  pub logs : (t : Tables) (v : List TransactionLog) → g (record t { logs = v }) ≡ g t
  pub prices : (t : Tables) (v : List PriceHistoryEntry) → g (record t { prices = v }) ≡ g t
  pub quests : (t : Tables) (v : Rows Quest) → g (record t { quests = v }) ≡ g t
  pub challenges : (t : Tables) (v : Rows TradingChallenge) → g (record t { challenges = v }) ≡ g t

module _ {o : Option Tables} {X : Type 0} {g : Tables → X} where
  pub db_load_user-Keeps : (u : ℕ) → Keeps o g (db_load_user u)
  unfolding db_load_user
  db_load_user-Keeps u = search keeps_rules

  pub db_load_inventory-Keeps : (u : ℕ) → Keeps o g (db_load_inventory u)
  unfolding db_load_inventory
  db_load_inventory-Keeps u = search keeps_rules

  pub db_load_skin_instance-Keeps : (i : ℕ) → Keeps o g (db_load_skin_instance i)
  unfolding db_load_skin_instance
  db_load_skin_instance-Keeps i = search keeps_rules

module _ {X : Type 0} {g : Tables → X} (apart : Apart g) where
  with_owner-Leaves :
      (i u : ℕ) (r : Option SkinInstance) (s : Tables) → Leaves g (g s) (with_owner i u r s)
  with_owner-Leaves i u none s = refl
  with_owner-Leaves i u (some r) s = Leaves-if g _ _ tt _ (apart.instances s _)

  locked-Apart : (now i : ℕ) (r : Option SkinInstance) (s : Tables) → g (locked now i r s) ≡ g s
  locked-Apart now i none s = refl
  locked-Apart now i (some r) s = apart.instances s _

  quest_update-Apart : (q : Quest) (r : Option Quest) (s : Tables) → g (quest_update q r s) ≡ g s
  quest_update-Apart q none s = refl
  quest_update-Apart q (some r) s = apart.quests s _

module _ {o : Option Tables} {X : Type 0} {g : Tables → X} (apart : Apart g) where
  pub db_add_to_inventory-Keeps : (u i : ℕ) → Keeps o g (db_add_to_inventory u i)
  unfolding db_add_to_inventory
  db_add_to_inventory-Keeps u i = Keeps-write _ λ s. Leaves-if g _ _ tt _ (apart.inventories s _)

  pub db_remove_from_inventory-Keeps : (u i : ℕ) → Keeps o g (db_remove_from_inventory u i)
  unfolding db_remove_from_inventory
  db_remove_from_inventory-Keeps u i = Keeps-write _ λ s. apart.inventories s _

  pub db_update_skin_instance_owner-Keeps :
      (i u : ℕ) → Keeps o g (db_update_skin_instance_owner i u)
  unfolding db_update_skin_instance_owner
  db_update_skin_instance_owner-Keeps i u =
      Keeps-write _ λ s. with_owner-Leaves apart i u (find i s.instances) s

  pub db_apply_trade_lock-Keeps : (i : ℕ) → Keeps o g (db_apply_trade_lock i)
  unfolding db_apply_trade_lock
  db_apply_trade_lock-Keeps i =
      Keeps-bind _ _ Keeps-clock
        λ now. Keeps-write _ λ s. locked-Apart apart now i (find i s.instances) s

  pub db_save_price_history-Keeps : (k p n : ℕ) → Keeps o g (db_save_price_history k p n)
  unfolding db_save_price_history
  db_save_price_history-Keeps k p n = Keeps-bind _ _ (Keeps-return_if _ 1) λ _.
      Keeps-bind _ _ Keeps-clock λ now. Keeps-write _ λ s. Leaves-if g _ _ tt _ (apart.prices s _)

  pub db_log_transaction-Keeps : (l : TransactionLog) → Keeps o g (db_log_transaction l)
  unfolding db_log_transaction
  db_log_transaction-Keeps l = Keeps-write _ λ s. Leaves-if g _ _ tt _ (apart.logs s _)

  pub db_update_quest-Keeps : (q : Quest) → Keeps o g (db_update_quest q)
  unfolding db_update_quest
  db_update_quest-Keeps q =
      Keeps-write _ λ s. quest_update-Apart apart q (find q.quest_id s.quests) s

pub ruleset apart_rules = (
  keeps_rules, db_load_user-Keeps, db_load_inventory-Keeps, db_load_skin_instance-Keeps,
  db_add_to_inventory-Keeps, db_remove_from_inventory-Keeps, db_update_skin_instance_owner-Keeps,
  db_apply_trade_lock-Keeps, db_save_price_history-Keeps, db_log_transaction-Keeps,
  db_update_quest-Keeps,
)
