-- ===== src/Challenges/Kept.antt =====
-- What leaves the row of a challenge as it is.
use cs.Base.{
  ℕ, ◌≡◌, ◌≢◌, subst, ap, ◌∙◌, Bool, true, false, Option, none, some, List, [], ◌∷◌, arith,
}
use cs.Types.{User, SkinInstance, SkinRarity, TradingChallenge}
use cs.Db.Table.{find, find-put_ne}
use cs.Db.Tables.{Tables}
use cs.Db.Monad.{M, ◌>>=◌, return_if}
use cs.Db.Monad.Preserves.{Preserves, Preserves-write, Preserves-bind, preserves_rules}
use cs.Db.Users.{db_load_user, db_update_user, db_load_inventory}
use cs.Db.Instances.{
  db_load_skin_instance, db_load_skin_definition, db_get_rarity_multiplier, db_get_wear_multiplier,
  db_calculate_skin_price,
}
use cs.Challenges.{
  item_value, items_value, net_worth_of, calculate_net_worth, get_challenge, challenge_update,
  update_challenge,
}

-- What is only read changes no table.
module _ {Q : Tables → Type 0} where
  price-Preserves : (d : ℕ) (r : SkinRarity) (w : ℕ) → Preserves Q (db_calculate_skin_price d r w)
  unfolding db_calculate_skin_price db_load_skin_definition db_get_rarity_multiplier
      db_get_wear_multiplier
  price-Preserves d r w = search preserves_rules depth 12

  item_value-Preserves : (s : Option SkinInstance) → Preserves Q (item_value s)
  unfolding item_value
  item_value-Preserves none = search preserves_rules
  item_value-Preserves (some s) = price-Preserves s.definition_id s.rarity s.wear

  items_value-Preserves : (ids : List ℕ) (total : ℕ) → Preserves Q (items_value total ids)
  unfolding items_value db_load_skin_instance
  items_value-Preserves [] total = search preserves_rules
  items_value-Preserves (i ∷ ids) total =
      Preserves-bind _ _ (search preserves_rules)
        λ s. Preserves-bind _ _ (item_value-Preserves s) λ price. items_value-Preserves ids _

  net_worth_of-Preserves : (u : Option User) → Preserves Q (net_worth_of u)
  unfolding net_worth_of db_load_inventory
  net_worth_of-Preserves none = search preserves_rules
  net_worth_of-Preserves (some u) = search (preserves_rules, items_value-Preserves)

  pub calculate_net_worth-Preserves : (u : ℕ) → Preserves Q (calculate_net_worth u)
  unfolding calculate_net_worth db_load_user
  calculate_net_worth-Preserves u = search (preserves_rules, net_worth_of-Preserves)

  pub db_load_user-Preserves : (u : ℕ) → Preserves Q (db_load_user u)
  unfolding db_load_user
  db_load_user-Preserves u = search preserves_rules

  pub get_challenge-Preserves : (j : ℕ) → Preserves Q (get_challenge j)
  unfolding get_challenge
  get_challenge-Preserves j = search preserves_rules

  -- A test that holds.
  pub blocked-Preserves :
      {A : Type 0} (b : Bool) (n : ℕ) (f : Unit {0} → M A)
      → b ≡ true
      → Preserves Q (return_if b n >>= f)
  unfolding return_if ◌>>=◌
  blocked-Preserves true n f e = record { at = λ d i. i }
  blocked-Preserves false n f e = ground arith

abbrev pub written : {A : Type 0} → Tables → Option (A × Tables) → Tables
written t none = t
written t (some (_, s)) = s

module _ (k : ℕ) (c : TradingChallenge) where
  -- The row of challenge `k` is `c`.
  abbrev pub Row : Tables → Type 0
  Row t = find k t.challenges ≡ some c

  challenge_update-Row :
      (j : ℕ) (f : TradingChallenge → TradingChallenge) (o : Option TradingChallenge) (t : Tables)
      → j ≢ k
      → Row t
      → Row (challenge_update j f o t)
  challenge_update-Row j f none t ne h = h
  challenge_update-Row j f (some x) t ne h = find-put_ne k j (f x) t.challenges ne ∙ h

  pub update_challenge-Row :
      (j : ℕ) (f : TradingChallenge → TradingChallenge)
      → j ≢ k
      → Preserves Row (update_challenge j f)
  unfolding update_challenge
  update_challenge-Row j f ne = Preserves-write _ λ t h a t' e.
      subst Row (ap (written t) e) (challenge_update-Row j f (find j t.challenges) t ne h)

  pub db_update_user-Row : (u : User) → Preserves Row (db_update_user u)
  unfolding db_update_user
  db_update_user-Row u = Preserves-write _ λ t h a t' e. subst Row (ap (written t) e) h
