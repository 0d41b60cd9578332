-- ===== src/Market/Aftermath.antt =====
-- The item of a sale, and what follows it, leave other columns alone.
use cs.Base.{ℕ, ◌≡◌, refl, sym, subst, Option, none, some}
use cs.Types.{QuestType, Quest, SkinInstance, MarketListing}
use cs.Db.Tables.{Tables}
use cs.Db.Monad.{M, attempt}
use cs.Db.Monad.Preserves.{
  SavedHolds, Preserves, Preserves-bind, Preserves-attempt, Preserves-pure, Preserves-clock,
  Preserves-or_rollback, preserves_rules,
}
use cs.Db.Monad.Frame.{Keeps, Frame, Frame-bind, Frame-or_rollback, Frame-of}
use cs.Db.Rewards.{db_load_user_quests}
use cs.Quests.{advance_found, update_quest_progress}
use cs.Trading.Rewards.{check_quest_completion-Keeps, update_user_active_challenges-Keeps}
use cs.Db.Apart.{Apart, apart_rules, db_log_transaction-Keeps, db_update_quest-Keeps}
use cs.Market.{save_price_history, hand_over, after_sale}

module _ {t : Tables} {X : Type 0} {g : Tables → X} (apart : Apart g) where
  save_price_history-Keeps :
      (p : ℕ) (s : Option SkinInstance) → Keeps (some t) g (save_price_history p s)
  unfolding save_price_history
  save_price_history-Keeps p none = search (apart_rules, apart)
  save_price_history-Keeps p (some s) = search (apart_rules, apart) depth 8

  pub hand_over-Frame : (b : ℕ) (l : MarketListing) → Frame (some t) g (hand_over b l)
  unfolding hand_over
  hand_over-Frame b l =
      search (Frame-bind, Frame-or_rollback, Frame-of, apart_rules, apart, save_price_history-Keeps)
        depth 12

-- What keeps a column whether or not a transaction is open keeps it across a ROLLBACK too.
module _ {X : Type 0} {g : Tables → X} {x : X} {A : Type 0} where
  pub Preserves-Keeps : (m : M A) → ((o : Option Tables) → Keeps o g m) → Preserves (λ s. g s ≡ x) m
  Preserves-Keeps m p = record {
    at = λ d i.
        let (saved, same) = (p d.saved).at x d (refl, i.0) in
        (same, subst (SavedHolds (λ s. g s ≡ x)) (sym saved) i.1);
  }

module _ {X : Type 0} {g : Tables → X} (apart : Apart g) {x : X} where
  advance_found-Preserves :
      (n : ℕ) (q : Option Quest) → Preserves (λ s. g s ≡ x) (advance_found n q)
  unfolding advance_found
  advance_found-Preserves n none = search preserves_rules
  advance_found-Preserves n (some q) = Preserves-bind _ _ (search preserves_rules) λ now.
      Preserves-bind _ _
        (Preserves-or_rollback _ _ (Preserves-Keeps _ λ o. db_update_quest-Keeps apart _))
        λ _. search preserves_rules

  pub update_quest_progress-Preserves :
      (u : ℕ) (k : QuestType) (n : ℕ) → Preserves (λ s. g s ≡ x) (update_quest_progress u k n)
  unfolding update_quest_progress db_load_user_quests
  update_quest_progress-Preserves u k n = search (preserves_rules, advance_found-Preserves) depth 10

  pub attempt_kept :
      {A : Type 0} (m : M A)
      → ((o : Option Tables) → Keeps o g m)
      → Preserves (λ s. g s ≡ x) (attempt m)
  attempt_kept m p = Preserves-attempt _ (Preserves-Keeps m p)

  pub after_sale-Preserves : (b : ℕ) (l : MarketListing) → Preserves (λ s. g s ≡ x) (after_sale b l)
  unfolding after_sale
  after_sale-Preserves b l = Preserves-bind _ _ Preserves-clock λ now.
      Preserves-bind _ _ (attempt_kept _ λ o. db_log_transaction-Keeps apart _) λ _.
        Preserves-bind _ _ (attempt_kept _ λ o. db_log_transaction-Keeps apart _) λ _.
          Preserves-bind _ _ (Preserves-attempt _ (update_quest_progress-Preserves _ _ _)) λ _.
            Preserves-bind _ _ (Preserves-attempt _ (update_quest_progress-Preserves _ _ _)) λ _.
              Preserves-bind _ _ (attempt_kept _ λ o. check_quest_completion-Keeps apart _) λ _.
                Preserves-bind _ _ (attempt_kept _ λ o. check_quest_completion-Keeps apart _) λ _.
                  Preserves-bind _ _
                    (attempt_kept _ λ o. update_user_active_challenges-Keeps apart _)
                    λ _.
                      Preserves-bind _ _
                        (attempt_kept _ λ o. update_user_active_challenges-Keeps apart _)
                        λ _. Preserves-pure _
