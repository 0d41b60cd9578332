-- ===== src/Challenges/Stays.antt =====
-- The challenge functions that run inside a transaction of another part leave it open.
use cs.Base.{ℕ, Option, none, some, List, [], ◌∷◌}
use cs.Types.{User, SkinInstance, TradingChallenge}
use cs.Db.Tables.{Tables}
use cs.Db.Monad.Transaction.{Stays, Stays-bind, Stays-if}
use cs.Db.Stays.{db_stays}
use cs.Challenges.{
  item_value, items_value, net_worth_of, calculate_net_worth, get_challenge, get_user_challenges,
  is_active, update_challenge, update_challenge_progress, update_active, update_listed,
  update_user_active_challenges,
}

module _ {o : Option Tables} where
  item_value-Stays : (s : Option SkinInstance) → Stays o (item_value s)
  unfolding item_value
  item_value-Stays none = search db_stays
  item_value-Stays (some s) = search db_stays

  items_value-Stays : (ids : List ℕ) (total : ℕ) → Stays o (items_value total ids)
  unfolding items_value
  items_value-Stays [] total = search db_stays
  items_value-Stays (i ∷ ids) total =
      Stays-bind _ _ (search db_stays)
        λ s. Stays-bind _ _ (item_value-Stays s) λ price. items_value-Stays ids _

  net_worth_of-Stays : (u : Option User) → Stays o (net_worth_of u)
  unfolding net_worth_of
  net_worth_of-Stays none = search db_stays
  net_worth_of-Stays (some u) = search (db_stays, items_value-Stays)

  calculate_net_worth-Stays : (u : ℕ) → Stays o (calculate_net_worth u)
  unfolding calculate_net_worth
  calculate_net_worth-Stays u = search (db_stays, net_worth_of-Stays)

  get_challenge-Stays : (c : ℕ) → Stays o (get_challenge c)
  unfolding get_challenge
  get_challenge-Stays c = search db_stays

  pub update_challenge-Stays :
      (c : ℕ) (f : TradingChallenge → TradingChallenge) → Stays o (update_challenge c f)
  unfolding update_challenge
  update_challenge-Stays c f = search db_stays

  update_challenge_progress-Stays : (c : ℕ) → Stays o (update_challenge_progress c)
  unfolding update_challenge_progress
  update_challenge_progress-Stays c =
      search (db_stays, get_challenge-Stays, calculate_net_worth-Stays, update_challenge-Stays)
        depth 12

  update_active-Stays : (l : List TradingChallenge) → Stays o (update_active l)
  unfolding update_active
  update_active-Stays [] = search db_stays
  update_active-Stays (c ∷ l) =
      Stays-if (is_active c.status) _ _
        (Stays-bind _ _ (search (db_stays, update_challenge_progress-Stays))
          λ _. update_active-Stays l)
        (update_active-Stays l)

  update_listed-Stays : (l : Option (List TradingChallenge)) → Stays o (update_listed l)
  unfolding update_listed
  update_listed-Stays none = search db_stays
  update_listed-Stays (some l) = update_active-Stays l

  get_user_challenges-Stays : (u : ℕ) → Stays o (get_user_challenges u)
  unfolding get_user_challenges
  get_user_challenges-Stays u = search db_stays

  pub update_user_active_challenges-Stays : (u : ℕ) → Stays o (update_user_active_challenges u)
  unfolding update_user_active_challenges
  update_user_active_challenges-Stays u =
      search (db_stays, get_user_challenges-Stays, update_listed-Stays)
