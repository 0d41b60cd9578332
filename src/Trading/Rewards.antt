-- ===== src/Trading/Rewards.antt =====
-- The quests, achievements and challenges that a trade touches inside its transaction leave
-- other columns alone.
use cs.Base.{ℕ, ◌≡◌, refl, Option, none, some, List, [], ◌∷◌}
use cs.Types.{SkinRarity, User, QuestType, AchievementType, Quest, SkinInstance, TradingChallenge}
use cs.Db.Table.{find}
use cs.Db.Tables.{Tables}
use cs.Db.Monad.Frame.{
  Keeps, Keeps-bind, Keeps-if, Keeps-write, Keeps-nested, Keeps-return_if, keeps_rules,
}
use cs.Db.Apart.{Apart, apart_rules}
use cs.Db.Instances.{
  db_get_rarity_multiplier, db_get_wear_multiplier, db_load_skin_definition,
  db_calculate_skin_price,
}
use cs.Db.Rewards.{db_load_user_quests}
use cs.Quests.{
  update_quest_progress, complete_quest, complete_reached, complete_loaded, check_quest_completion,
}
use cs.Achievements.{unlock_achievement}
use cs.Challenges.{
  item_value, items_value, net_worth_of, calculate_net_worth, get_challenge, get_user_challenges,
  is_active, challenge_update, update_challenge, update_challenge_progress, update_active,
  update_listed, update_user_active_challenges,
}

module _ {X : Type 0} {g : Tables → X} (apart : Apart g) where
  challenge_update-Apart :
      (c : ℕ) (f : TradingChallenge → TradingChallenge) (r : Option TradingChallenge) (s : Tables)
      → g (challenge_update c f r s) ≡ g s
  challenge_update-Apart c f none s = refl
  challenge_update-Apart c f (some r) s = apart.challenges s _

module _ {t : Tables} {X : Type 0} {g : Tables → X} where
  pub update_quest_progress-Keeps :
      (u : ℕ) (k : QuestType) (n : ℕ) → Keeps (some t) g (update_quest_progress u k n)
  unfolding update_quest_progress
  update_quest_progress-Keeps u k n = Keeps-bind _ _ (Keeps-return_if _ 1) λ _. Keeps-nested 1 _

  pub unlock_achievement-Keeps :
      (u : ℕ) (k : AchievementType) → Keeps (some t) g (unlock_achievement u k)
  unfolding unlock_achievement
  unlock_achievement-Keeps u k = Keeps-bind _ _ (Keeps-return_if _ 1) λ _. Keeps-nested 1 _

module _ {o : Option Tables} {X : Type 0} {g : Tables → X} (apart : Apart g) where
  complete_quest-Keeps : (now : ℕ) (q : Quest) → Keeps o g (complete_quest now q)
  unfolding complete_quest
  complete_quest-Keeps now q = search (apart_rules, apart)

  complete_reached-Keeps : (l : List Quest) → Keeps o g (complete_reached l)
  unfolding complete_reached
  complete_reached-Keeps [] = search keeps_rules
  complete_reached-Keeps (q ∷ l) =
      Keeps-bind _ _ (search keeps_rules)
        λ now. Keeps-bind _ _ (complete_quest-Keeps now q) λ _. complete_reached-Keeps l

  complete_loaded-Keeps : (l : Option (List Quest)) → Keeps o g (complete_loaded l)
  unfolding complete_loaded
  complete_loaded-Keeps none = search keeps_rules
  complete_loaded-Keeps (some l) = complete_reached-Keeps l

  pub check_quest_completion-Keeps : (u : ℕ) → Keeps o g (check_quest_completion u)
  unfolding check_quest_completion db_load_user_quests
  check_quest_completion-Keeps u = search (keeps_rules, complete_loaded-Keeps)

  db_calculate_skin_price-Keeps :
      (d : ℕ) (r : SkinRarity) (w : ℕ) → Keeps o g (db_calculate_skin_price d r w)
  unfolding db_calculate_skin_price db_load_skin_definition db_get_rarity_multiplier
      db_get_wear_multiplier
  db_calculate_skin_price-Keeps d r w = search keeps_rules depth 12

  pub item_value-Keeps : (s : Option SkinInstance) → Keeps o g (item_value s)
  unfolding item_value
  item_value-Keeps none = search keeps_rules
  item_value-Keeps (some s) = db_calculate_skin_price-Keeps s.definition_id s.rarity s.wear

  items_value-Keeps : (ids : List ℕ) (total : ℕ) → Keeps o g (items_value total ids)
  unfolding items_value
  items_value-Keeps [] total = search keeps_rules
  items_value-Keeps (i ∷ ids) total =
      Keeps-bind _ _ (search (apart_rules, apart))
        λ s. Keeps-bind _ _ (item_value-Keeps s) λ price. items_value-Keeps ids _

  net_worth_of-Keeps : (u : Option User) → Keeps o g (net_worth_of u)
  unfolding net_worth_of
  net_worth_of-Keeps none = search keeps_rules
  net_worth_of-Keeps (some u) = search (apart_rules, apart, items_value-Keeps)

  calculate_net_worth-Keeps : (u : ℕ) → Keeps o g (calculate_net_worth u)
  unfolding calculate_net_worth
  calculate_net_worth-Keeps u = search (apart_rules, apart, net_worth_of-Keeps)

  get_challenge-Keeps : (c : ℕ) → Keeps o g (get_challenge c)
  unfolding get_challenge
  get_challenge-Keeps c = search keeps_rules

  update_challenge-Keeps :
      (c : ℕ) (f : TradingChallenge → TradingChallenge) → Keeps o g (update_challenge c f)
  unfolding update_challenge
  update_challenge-Keeps c f =
      Keeps-write _ λ s. challenge_update-Apart apart c f (find c s.challenges) s

  update_challenge_progress-Keeps : (c : ℕ) → Keeps o g (update_challenge_progress c)
  unfolding update_challenge_progress
  update_challenge_progress-Keeps c =
      search (keeps_rules, get_challenge-Keeps, calculate_net_worth-Keeps, update_challenge-Keeps)
        depth 12

  update_active-Keeps : (l : List TradingChallenge) → Keeps o g (update_active l)
  unfolding update_active
  update_active-Keeps [] = search keeps_rules
  update_active-Keeps (c ∷ l) =
      Keeps-if (is_active c.status) _ _
        (Keeps-bind _ _ (search (keeps_rules, update_challenge_progress-Keeps))
          λ _. update_active-Keeps l)
        (update_active-Keeps l)

  update_listed-Keeps : (l : Option (List TradingChallenge)) → Keeps o g (update_listed l)
  unfolding update_listed
  update_listed-Keeps none = search keeps_rules
  update_listed-Keeps (some l) = update_active-Keeps l

  get_user_challenges-Keeps : (u : ℕ) → Keeps o g (get_user_challenges u)
  unfolding get_user_challenges
  get_user_challenges-Keeps u = search keeps_rules

  pub update_user_active_challenges-Keeps : (u : ℕ) → Keeps o g (update_user_active_challenges u)
  unfolding update_user_active_challenges
  update_user_active_challenges-Keeps u =
      search (keeps_rules, get_user_challenges-Keeps, update_listed-Keeps)
