-- ===== src/Unbox/Aftermath.antt =====
-- What follows the transaction of an unboxing moves no money.
use cs.Base.{ℕ, ◌≡◌, refl, Bool, true, false, Option, none, some, List}
use cs.Types.{SkinRarity, QuestType, TransactionLog, AchievementType, Achievement, User, Skin}
use cs.Db.Tables.{Tables}
use cs.Db.Monad.{M, attempt}
use cs.Db.Monad.Preserves.{
  Preserves, Preserves-bind, Preserves-attempt, Preserves-pure, Preserves-clock,
  Preserves-or_rollback, preserves_rules,
}
use cs.Db.Monad.Frame.{Keeps, Keeps-write, Keeps-bind, Keeps-clock, Leaves-if, keeps_rules}
use cs.Db.Apart.{db_log_transaction-Keeps, db_load_user-Keeps}
use cs.Db.Money.{money, money-Apart}
use cs.Db.Instances.{
  db_get_rarity_multiplier, db_get_wear_multiplier, db_load_skin_definition,
  db_calculate_skin_price,
}
use cs.Db.Rewards.{db_save_achievement, db_load_user_achievements}
use cs.Db.Community.{db_save_chat_message}
use cs.Db.Users.{db_load_user, db_log_transaction}
use cs.Quests.{update_quest_progress}
use cs.Achievements.{unlock_unless, unlock_achievement}
use cs.Trading.Rewards.{check_quest_completion-Keeps, update_user_active_challenges-Keeps}
use cs.Market.Aftermath.{Preserves-Keeps, update_quest_progress-Preserves, attempt_kept}
use cs.Unbox.{Unboxed, announce, broadcast_rare_unbox, count_profit, count_knife, after_unbox}

module _ {o : Option Tables} where
  db_save_achievement-Keeps : (a : Achievement) → Keeps o money (db_save_achievement a)
  unfolding db_save_achievement
  db_save_achievement-Keeps a = Keeps-write _ λ s. Leaves-if money _ _ _ _ refl

  db_save_chat_message-Keeps : (u : ℕ) (n m : List ℕ) → Keeps o money (db_save_chat_message u n m)
  unfolding db_save_chat_message
  db_save_chat_message-Keeps u n m =
      Keeps-bind _ _ Keeps-clock λ now. Keeps-write _ λ s. Leaves-if money _ _ tt _ refl

module _ {x : ℕ} where
  kept :
      {A : Type 0} (m : M A)
      → ((o : Option Tables) → Keeps o money m)
      → Preserves (λ s. money s ≡ x) (attempt m)
  kept m p = attempt_kept money-Apart m p

  unlock_unless-Preserves :
      (b : Bool) (a : Achievement) → Preserves (λ s. money s ≡ x) (unlock_unless b a)
  unfolding unlock_unless
  unlock_unless-Preserves true a = search preserves_rules depth 8
  unlock_unless-Preserves false a =
      Preserves-bind _ _
        (Preserves-or_rollback _ _ (Preserves-Keeps _ λ o. db_save_achievement-Keeps a))
        λ _. search preserves_rules depth 8

  unlock_achievement-Preserves :
      (u : ℕ) (k : AchievementType) → Preserves (λ s. money s ≡ x) (unlock_achievement u k)
  unfolding unlock_achievement db_load_user_achievements
  unlock_achievement-Preserves u k = search (preserves_rules, unlock_unless-Preserves) depth 12

  quest-Preserves :
      (u : ℕ) (k : QuestType) (n : ℕ) → Preserves (λ s. money s ≡ x) (update_quest_progress u k n)
  quest-Preserves u k n = update_quest_progress-Preserves money-Apart u k n

  log-Preserves : (l : TransactionLog) → Preserves (λ s. money s ≡ x) (db_log_transaction l)
  log-Preserves l = Preserves-Keeps _ λ o. db_log_transaction-Keeps money-Apart l

  load-Preserves : (u : ℕ) → Preserves (λ s. money s ≡ x) (db_load_user u)
  load-Preserves u = Preserves-Keeps _ λ o. db_load_user-Keeps u

  chat-Preserves :
      (u : ℕ) (n m : List ℕ) → Preserves (λ s. money s ≡ x) (db_save_chat_message u n m)
  chat-Preserves u n m = Preserves-Keeps _ λ o. db_save_chat_message-Keeps u n m

  count_profit-Preserves : (u p : ℕ) → Preserves (λ s. money s ≡ x) (count_profit u p)
  unfolding count_profit
  count_profit-Preserves u p = search (preserves_rules, quest-Preserves)

  count_knife-Preserves : (u : ℕ) (r : SkinRarity) → Preserves (λ s. money s ≡ x) (count_knife u r)
  unfolding count_knife
  count_knife-Preserves u r = search (preserves_rules, unlock_achievement-Preserves)

  announce-Preserves : (u : Option User) (s : Skin) → Preserves (λ t. money t ≡ x) (announce u s)
  unfolding announce
  announce-Preserves none s = search preserves_rules
  announce-Preserves (some u) s = search (preserves_rules, chat-Preserves)

  broadcast_rare_unbox-Preserves :
      (u : ℕ) (s : Skin) → Preserves (λ t. money t ≡ x) (broadcast_rare_unbox u s)
  unfolding broadcast_rare_unbox
  broadcast_rare_unbox-Preserves u s =
      search (preserves_rules, log-Preserves, load-Preserves, announce-Preserves) depth 10

  pub after_unbox-Preserves :
      (u c total : ℕ) (y : Unboxed) → Preserves (λ t. money t ≡ x) (after_unbox u c total y)
  unfolding after_unbox db_calculate_skin_price db_load_skin_definition db_get_rarity_multiplier
      db_get_wear_multiplier
  after_unbox-Preserves u c total y =
      Preserves-bind _ _ (Preserves-Keeps _ λ o. search keeps_rules depth 12) λ price.
        Preserves-bind _ _ (kept _ λ o. search keeps_rules) λ m.
          Preserves-bind _ _ Preserves-clock λ now.
            Preserves-bind _ _ (kept _ λ o. db_log_transaction-Keeps money-Apart _) λ _.
              Preserves-bind _ _
                (Preserves-attempt _ (update_quest_progress-Preserves money-Apart _ _ _))
                λ _. Preserves-bind _ _ (count_profit-Preserves u _) λ _.
                  Preserves-bind _ _ (count_knife-Preserves u _) λ _.
                    Preserves-bind _ _ (kept _ λ o. check_quest_completion-Keeps money-Apart u) λ _.
                      Preserves-bind _ _
                        (kept _ λ o. update_user_active_challenges-Keeps money-Apart u)
                        λ _.
                          Preserves-bind _ _ (broadcast_rare_unbox-Preserves u _)
                            λ _. Preserves-pure _
