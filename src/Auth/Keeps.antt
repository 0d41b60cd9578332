-- ===== src/Auth/Keeps.antt =====
-- What registration and login leave alone.
use cs.Base.{ℕ, ◌≡◌, Bool, Option, none, some, List, [], ◌∷◌}
use cs.Types.{Quest, QuestType, SkinInstance, LoginStreak, SkinRarity}
use cs.Db.Table.{Rows}
use cs.Db.Tables.{Tables}
use cs.Db.Monad.Frame.{
  Keeps, Keeps-bind, Keeps-clock, Keeps-attempt, Keeps-return_if, Keeps-write, Leaves-if,
  keeps_rules,
}
use cs.Db.Users.{db_add_to_inventory}
use cs.Db.Instances.{db_create_skin_instance}
use cs.Db.Rewards.{db_save_quest, db_load_user_quests, db_save_login_streak, db_load_login_streak}
use cs.Quests.{
  should_reset_quests, save_quests, init_daily_quests, check_and_reset_daily_quests, fresh_quest,
  all_quests,
}
use cs.LoginRewards.{get_login_streak, update_login_streak}
use cs.Auth.{add_free_skin, create_free_skin, give_free_skin}

-- `g` looks at none of the columns that quests, streaks and a new item are in.
pub record Aside {X : Type 0} (g : Tables → X) : Type 0 where
  pub quests : (t : Tables) (v : Rows Quest) → g (record t { quests = v }) ≡ g t
  pub new_quest :
      (t : Tables) (v : Rows Quest) (n : ℕ) → g (record t { quests = v; next_quest = n }) ≡ g t
  pub streaks : (t : Tables) (v : Rows LoginStreak) → g (record t { streaks = v }) ≡ g t
  pub new_instance :
      (t : Tables) (v : Rows SkinInstance) (n : ℕ)
      → g (record t { instances = v; next_instance = n }) ≡ g t
  pub inventories : (t : Tables) (v : List (ℕ × ℕ)) → g (record t { inventories = v }) ≡ g t

module _ {o : Option Tables} {X : Type 0} {g : Tables → X} (aside : Aside g) where
  db_save_quest-Keeps : (q : Quest) → Keeps o g (db_save_quest q)
  unfolding db_save_quest
  db_save_quest-Keeps q = Keeps-write _ λ s. Leaves-if g _ _ _ _ (aside.new_quest s _ _)

  save_quests-Keeps : (u now : ℕ) (ks : List QuestType) → Keeps o g (save_quests u now ks)
  unfolding save_quests
  save_quests-Keeps u now [] = search keeps_rules
  save_quests-Keeps u now (k ∷ ks) =
      Keeps-bind _ _ (Keeps-attempt _ (db_save_quest-Keeps (fresh_quest u now k)))
        λ _. save_quests-Keeps u now ks

  pub init_daily_quests-Keeps : (u : ℕ) → Keeps o g (init_daily_quests u)
  unfolding init_daily_quests
  init_daily_quests-Keeps u = Keeps-bind _ _ (Keeps-return_if _ 1) λ _.
      Keeps-bind _ _ (Keeps-attempt _ (Keeps-write _ λ s. aside.quests s _))
        λ _. Keeps-bind _ _ Keeps-clock λ now. save_quests-Keeps u now all_quests

  should_reset_quests-Keeps : (u : ℕ) → Keeps o g (should_reset_quests u)
  unfolding should_reset_quests db_load_user_quests
  should_reset_quests-Keeps u = search keeps_rules depth 8

  pub check_and_reset_daily_quests-Keeps : (u : ℕ) → Keeps o g (check_and_reset_daily_quests u)
  unfolding check_and_reset_daily_quests
  check_and_reset_daily_quests-Keeps u =
      search (keeps_rules, should_reset_quests-Keeps, init_daily_quests-Keeps) depth 8

  db_save_login_streak-Keeps : (s : LoginStreak) → Keeps o g (db_save_login_streak s)
  unfolding db_save_login_streak
  db_save_login_streak-Keeps s = Keeps-write _ λ t. Leaves-if g _ _ tt _ (aside.streaks t _)

  get_login_streak-Keeps : (u : ℕ) → Keeps o g (get_login_streak u)
  unfolding get_login_streak db_load_login_streak
  get_login_streak-Keeps u = search keeps_rules depth 8

  pub update_login_streak-Keeps :
      (midnight : ℕ → ℕ) (u : ℕ) → Keeps o g (update_login_streak midnight u)
  unfolding update_login_streak
  update_login_streak-Keeps midnight u =
      search (keeps_rules, get_login_streak-Keeps, db_save_login_streak-Keeps) depth 8

  pub db_create_skin_instance-Keeps :
      (k : ℕ) (r : SkinRarity) (w p : ℕ) (s : Bool) (u : ℕ)
      → Keeps o g (db_create_skin_instance k r w p s u)
  unfolding db_create_skin_instance
  db_create_skin_instance-Keeps k r w p s u =
      Keeps-bind _ _ Keeps-clock
        λ now. Keeps-write _ λ t. Leaves-if g _ _ _ _ (aside.new_instance t _ _)

  db_add_to_inventory-Keeps : (u i : ℕ) → Keeps o g (db_add_to_inventory u i)
  unfolding db_add_to_inventory
  db_add_to_inventory-Keeps u i = Keeps-write _ λ t. Leaves-if g _ _ tt _ (aside.inventories t _)

  add_free_skin-Keeps : (u : ℕ) (i : Option ℕ) → Keeps o g (add_free_skin u i)
  unfolding add_free_skin
  add_free_skin-Keeps u none = search keeps_rules
  add_free_skin-Keeps u (some i) = search (keeps_rules, db_add_to_inventory-Keeps)

  create_free_skin-Keeps : (u : ℕ) (k : Option ℕ) → Keeps o g (create_free_skin u k)
  unfolding create_free_skin
  create_free_skin-Keeps u none = search keeps_rules
  create_free_skin-Keeps u (some k) =
      search (keeps_rules, db_create_skin_instance-Keeps, add_free_skin-Keeps) depth 8

  pub give_free_skin-Keeps : (u : ℕ) → Keeps o g (give_free_skin u)
  unfolding give_free_skin
  give_free_skin-Keeps u = search (keeps_rules, create_free_skin-Keeps)
