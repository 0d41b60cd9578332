-- ===== src/Unbox/Preview.antt =====
-- `generate_unbox_preview`: the skins that the animation shows.
pub mod Weights
use cs.Base.{
  ℕ, zero, suc, ◌+◌, ◌-◌, ◌*◌, ◌/◌, ◌%◌, ◌≤◌, ◌<◌, ◌≡◌, refl, ap, ◌∙◌, inl, inr, Bool, true, false,
  ◌||◌, Option, none, some, List, [], ◌∷◌, ◌++◌, ltb, leb, ◌==◌, length, arith, Bool-cases,
  if◌then◌else◌,
}
use cs.Types.{
  SkinRarity, consumer, industrial, mil_spec, restricted, classified, covert, contraband, Skin,
}
use cs.Db.Table.{Rows}
use cs.Db.Tables.{SkinDefinition}
use cs.Db.Monad.{M, pure, fail, or_return, attempt, ◌>>=◌, return_if, ◌>>◌}
use cs.Db.Instances.{db_get_rarity_multiplier, db_calculate_skin_price}
use cs.Db.Cases.{db_fetch_full_case_info}
use cs.Unbox.{has_none, is_contraband, roll_wear, roll_stattrak, roll_pattern, or_one}

-- `default` is for the two rarities that no case drops.
unfoldable pub get_visual_weight : SkinRarity → ℕ
get_visual_weight mil_spec = 7992
get_visual_weight restricted = 1598
get_visual_weight classified = 320
get_visual_weight covert = 64
get_visual_weight contraband = 26
get_visual_weight consumer = 100
get_visual_weight industrial = 100

abbrev pub weight : ℕ × SkinDefinition → ℕ
weight (_, s) = get_visual_weight s.rarity

unfoldable pub total_weight : Rows SkinDefinition → ℕ
total_weight [] = 0
total_weight (e ∷ l) = weight e + total_weight l

-- The first entry whose cumulated weight is above the value, or `first`, that of index 0.
unfoldable pub select_weighted :
    ℕ → ℕ → ℕ × SkinDefinition → Rows SkinDefinition → ℕ × SkinDefinition
select_weighted r_val current_weight first [] = first
select_weighted r_val current_weight first (e ∷ l) =
    let rest = select_weighted r_val (current_weight + weight e) first l in
    if ltb r_val (current_weight + weight e) then e else rest

-- An entry without a key or a name is skipped.
abbrev is_invalid : ℕ × SkinDefinition → Bool
is_invalid (k, s) = k == 0 || has_none s.name

-- The rolls of a preview: one for the entry, and, unless it is skipped, two for the wear, one for
-- StatTrak except for contraband, and one for the pattern.
abbrev rolls_of : ℕ × SkinDefinition → ℕ
rolls_of (k, s) = if is_invalid (k, s) then 1 else if is_contraband s.rarity then 4 else 5

module _ (rand : ℕ → ℕ) (rand_max : ℕ) where
  -- The skin of one round, whose attributes are rolled from the i-th roll on.
  unfoldable pub preview_skin : ℕ → ℕ × SkinDefinition → M Skin
  preview_skin i (k, s) = do
    rarity_mult ← attempt (db_get_rarity_multiplier s.rarity)
    price ← db_calculate_skin_price k s.rarity (roll_wear rand rand_max i)
    pure (record {
      skin_id = 0;
      name = s.name;
      rarity = s.rarity;
      wear = roll_wear rand rand_max i;
      pattern_seed = roll_pattern rand rand_max (i + 2) s.rarity;
      is_stattrak = roll_stattrak rand rand_max (i + 2) s.rarity;
      base_price = s.base_price * or_one rarity_mult / 100;
      current_price = price;
      owner_id = 0;
      acquired_at = 0;
      is_tradable = false;
    })

  -- The entry of a round that starts at the i-th roll.
  abbrev entry_at : ℕ → ℕ × SkinDefinition → Rows SkinDefinition → ℕ × SkinDefinition
  entry_at i first skins = select_weighted (rand i % total_weight skins) 0 first skins

  abbrev preview_or_skip : ℕ → ℕ × SkinDefinition → M (List Skin) → M (List Skin)
  preview_or_skip i e rest =
      if is_invalid e then rest else do s ← preview_skin (i + 1) e; l ← rest; pure (s ∷ l)

  -- The rounds left, from the i-th roll on.
  unfoldable pub previews : ℕ → ℕ → ℕ × SkinDefinition → Rows SkinDefinition → M (List Skin)
  previews zero i first skins = pure []
  previews (suc n) i first skins =
      let e = entry_at i first skins in
      preview_or_skip i e (previews n (i + rolls_of e) first skins)

  abbrev min_count : ℕ → ℕ
  min_count n = if ltb n 50 then n else 50

  unfoldable pub previews_of : ℕ → Rows SkinDefinition → M (List Skin)
  previews_of count [] = fail 2
  previews_of count (e ∷ l) = do
    return_if (total_weight (e ∷ l) == 0) 3
    previews (min_count count) 0 e (e ∷ l)

  -- The result is the list of the previews; its length is what the code returns.
  unfoldable pub generate_unbox_preview : ℕ → ℕ → M (List Skin)
  generate_unbox_preview case_id preview_count = do
    return_if (preview_count == 0) 1
    skins ← or_return 2 (db_fetch_full_case_info case_id)
    previews_of preview_count skins
