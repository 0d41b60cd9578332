-- ===== src/Unbox/Rolls.antt =====
-- The rarity that is rolled among those that a case has.
use cs.Base.{ℕ, ◌≡◌, Bool, true, false, ◌&&◌, List, [], ◌∷◌, arith, Bool-cases, inl, inr}
use cs.Types.{SkinRarity, mil_spec, restricted, classified, covert, contraband}
use cs.Unbox.{offers, has_none, or_try, under, roll_rarity, roll_available}

right_of : (b c : Bool) → b && c ≡ true → c ≡ true
right_of true c h = h
right_of false c h = ground arith

rarity_index_refl : (r : SkinRarity) (l : List SkinRarity) → offers r (r ∷ l) ≡ true
rarity_index_refl r l = ground arith

or_try-offers :
    (b : Bool) (r next : SkinRarity) (l : List SkinRarity)
    → offers next l ≡ true
    → offers (or_try b r l next) l ≡ true
or_try-offers b r next l h = elim (Bool-cases (b && offers r l)) [
  | inl taken ↦ rw taken (right_of b (offers r l) taken)
  | inr other ↦ rw other h
]

module _ (rand : ℕ → ℕ) (rand_max i : ℕ) where
  -- Where the case has a rarity at all, `unbox_case` rolls one that it has.
  pub roll_available-offers :
      (available : List SkinRarity)
      → has_none available ≡ false
      → offers (roll_available rand rand_max i available) available ≡ true
  unfolding roll_available
  roll_available-offers [] h = ground arith
  roll_available-offers (r ∷ l) h =
      let l' = r ∷ l in
      let e = or_try true mil_spec l' r in
      let d = or_try (under rand rand_max i 2008) restricted l' e in
      let c = or_try (under rand rand_max i 410) classified l' d in
      let b = or_try (under rand rand_max i 90) covert l' c in
      or_try-offers (under rand rand_max i 26) contraband b l' (
        or_try-offers (under rand rand_max i 90) covert c l' (
          or_try-offers (under rand rand_max i 410) classified d l' (
            or_try-offers (under rand rand_max i 2008) restricted e l'
              (or_try-offers true mil_spec r l' (rarity_index_refl r l)))))

  -- Where the case has the rarity that the standard drop rates give, `unbox_case` rolls it: the
  -- two routines agree.
  pub roll_available-roll_rarity :
      (available : List SkinRarity)
      → offers (roll_rarity rand rand_max i) available ≡ true
      → roll_available rand rand_max i available ≡ roll_rarity rand rand_max i
  unfolding roll_available roll_rarity
  roll_available-roll_rarity available h = ground arith
