-- ===== src/Unbox/Atomic.antt =====
-- `unbox_case` is whole or nothing.
use cs.Base.{ℕ, ◌≡◌, Option, none, some, List, [], ◌∷◌}
use cs.Types.{SkinRarity, User, Skin}
use cs.Db.Tables.{Tables}
use cs.Db.Monad.{Db}
use cs.Db.Monad.Transaction.{Stays, InTransaction-of}
use cs.Db.Monad.Atomic.{
  Done, Rolls, Rolls-bind, Rolls-pure, Rolls-attempt, Rolls-or_rollback, Closes-bind, Closes-commit,
  Closes-pure, Atomic, Atomic-begin, Atomic-bind, read_rules,
}
use cs.Db.Monad.Quiet.{Quiet, Settles-Atomic, quiet_rules, Atomic-then}
use cs.Db.Stays.{db_stays}
use cs.Db.Users.{db_load_user}
use cs.Db.Instances.{db_create_skin_instance, db_get_rarity_multiplier}
use cs.Db.Cases.{db_load_case, db_load_skin_definition_with_rarity, db_get_case_skins_by_rarity}
use cs.Db.Community.{db_save_chat_message}
use cs.Db.Prices.{db_calculate_skin_price-Quiet}
use cs.Quests.Atomic.{update_quest_progress-Atomic}
use cs.Quests.Stays.{check_quest_completion-Stays}
use cs.Achievements.Atomic.{unlock_achievement-Atomic}
use cs.Challenges.Stays.{update_user_active_challenges-Stays}
use cs.Unbox.{
  Unboxed, available_rarities, open_case, announce, broadcast_rare_unbox, count_profit, count_knife,
  after_unbox, unbox_case,
}

module _ {o : Option Tables} where
  db_get_case_skins_by_rarity-Stays :
      (c : ℕ) (r : SkinRarity) → Stays o (db_get_case_skins_by_rarity c r)
  unfolding db_get_case_skins_by_rarity
  db_get_case_skins_by_rarity-Stays c r = search db_stays

  db_load_skin_definition_with_rarity-Stays :
      (k : ℕ) → Stays o (db_load_skin_definition_with_rarity k)
  unfolding db_load_skin_definition_with_rarity
  db_load_skin_definition_with_rarity-Stays k = search db_stays

  db_create_skin_instance-Stays :
      (k : ℕ) (r : SkinRarity) (w p : ℕ) (s : _) (u : ℕ)
      → Stays o (db_create_skin_instance k r w p s u)
  unfolding db_create_skin_instance
  db_create_skin_instance-Stays k r w p s u = search db_stays

  db_get_rarity_multiplier-Stays : (r : SkinRarity) → Stays o (db_get_rarity_multiplier r)
  unfolding db_get_rarity_multiplier
  db_get_rarity_multiplier-Stays r = search db_stays

  db_save_chat_message-Stays : (u : ℕ) (n m : List ℕ) → Stays o (db_save_chat_message u n m)
  unfolding db_save_chat_message
  db_save_chat_message-Stays u n m = search db_stays

module _ {t : Tables} where
  available_rarities-Rolls : (c : ℕ) (l : List SkinRarity) → Rolls t (available_rarities c l)
  unfolding available_rarities
  available_rarities-Rolls c [] = search (Rolls-pure)
  available_rarities-Rolls c (r ∷ l) =
      Rolls-bind _ _ (Rolls-attempt _ (db_get_case_skins_by_rarity-Stays c r))
        λ ids. Rolls-bind _ _ (available_rarities-Rolls c l) λ rest. Rolls-pure _

module _ (rand : ℕ → ℕ) (rand_max : ℕ) where
  pub open_case-Atomic :
      (u c total : ℕ) (user : User) → Atomic (open_case rand rand_max u c total user)
  unfolding open_case
  open_case-Atomic u c total user = Atomic-begin 8 _ λ t.
      search
        (
          Closes-bind, Closes-commit, Closes-pure, Rolls-bind, Rolls-or_rollback, InTransaction-of,
          available_rarities-Rolls, db_get_case_skins_by_rarity-Stays,
          db_load_skin_definition_with_rarity-Stays, db_create_skin_instance-Stays, db_stays,
        )
        depth 20

count_profit-Quiet : (u p : ℕ) → Quiet (count_profit u p)
unfolding count_profit
count_profit-Quiet u p = search (quiet_rules, Settles-Atomic, update_quest_progress-Atomic)

count_knife-Quiet : (u : ℕ) (r : SkinRarity) → Quiet (count_knife u r)
unfolding count_knife
count_knife-Quiet u r = search (quiet_rules, Settles-Atomic, unlock_achievement-Atomic)

announce-Quiet : (u : Option User) (s : Skin) → Quiet (announce u s)
unfolding announce
announce-Quiet none s = search quiet_rules
announce-Quiet (some u) s = search (quiet_rules, db_save_chat_message-Stays)

broadcast_rare_unbox-Quiet : (u : ℕ) (s : Skin) → Quiet (broadcast_rare_unbox u s)
unfolding broadcast_rare_unbox
broadcast_rare_unbox-Quiet u s = search (quiet_rules, announce-Quiet, db_stays) depth 10

pub after_unbox-Quiet : (u c total : ℕ) (x : Unboxed) → Quiet (after_unbox u c total x)
unfolding after_unbox
after_unbox-Quiet u c total x =
    search
      (
        quiet_rules, Settles-Atomic, db_calculate_skin_price-Quiet, db_get_rarity_multiplier-Stays,
        update_quest_progress-Atomic, count_profit-Quiet, count_knife-Quiet,
        check_quest_completion-Stays, update_user_active_challenges-Stays,
        broadcast_rare_unbox-Quiet, db_stays,
      )
      depth 24

module _ (rand : ℕ → ℕ) (rand_max : ℕ) where
  unbox_case-Atomic : (u c : ℕ) → Atomic (unbox_case rand rand_max u c)
  unfolding unbox_case db_load_case db_load_user
  unbox_case-Atomic u c = Atomic-bind _ _ (search read_rules) λ _.
      Atomic-bind _ _ (search read_rules) λ row. Atomic-bind _ _ (search read_rules) λ user.
        Atomic-bind _ _ (search read_rules)
          λ _. Atomic-then _ _ (open_case-Atomic rand rand_max u c _ user) (after_unbox-Quiet u c _)

-- Whatever statement sqlite refuses and whatever is rolled, `unbox_case` outside a transaction ends
-- outside one, and where it returns an error the tables are as they were.
pub unbox_case_atomic :
    (rand : ℕ → ℕ) (rand_max user_id case_id : ℕ) (d : Db)
    → d.saved ≡ none
    → Done d.tables (unbox_case rand rand_max user_id case_id d)
unbox_case_atomic rand rand_max u c d i = (unbox_case-Atomic rand rand_max u c).at d i
