-- ===== src/Tests/Cases.antt =====
-- A user opens a case.
use cs.Base.{ℕ, ◌+◌, ◌*◌, ◌≡◌, refl, none, [], ◌∷◌, arith}
use cs.Types.{usd, covert, mil_spec}
use cs.Db.Tables.{Tables, SkinDefinition}
use cs.Db.Monad.{Db}
use cs.Db.Monad.Atomic.{Done}
use cs.Unbox.{roll_rarity, roll_available, unbox_case}
use cs.Unbox.Atomic.{unbox_case_atomic}
use cs.Unbox.Rolls.{roll_available-roll_rarity}
use cs.Unbox.Preview.{select_weighted, get_visual_weight, total_weight}
use cs.Unbox.Preview.Weights.{select_weighted_lem}
use cs.Tests.{shop, faulty}

-- Case 1 costs 2 dollars and has the one definition of the shop.
abbrev pub case_shop : Tables
case_shop = record shop {
  cases = (1, record { name = b'C' ∷ []; price = 2 * usd }) ∷ [];
  case_skins = (1, 1) ∷ [];
}

abbrev pub case_db : Db
case_db = record { tables = case_shop; saved = none; now = 500; faults = [] }

abbrev pub rand : ℕ → ℕ
rand i = i * 1000 + 7

abbrev pub rand_max : ℕ
rand_max = 2147483647

-- The third statement is refused.
unbox_case_atomic_example :
    Done case_shop (unbox_case rand rand_max 2 1 (record faulty { tables = case_shop }))
unbox_case_atomic_example =
    unbox_case_atomic rand rand_max 2 1 (record faulty { tables = case_shop }) refl

-- A value below the first threshold of all gives contraband; 50 % gives mil-spec.
roll_available-roll_rarity_example :
    roll_available (λ _. 1000000000) rand_max 0 (mil_spec ∷ covert ∷ [])
    ≡ roll_rarity (λ _. 1000000000) rand_max 0
unfolding roll_rarity
roll_available-roll_rarity_example =
    roll_available-roll_rarity (λ _. 1000000000) rand_max 0 (mil_spec ∷ covert ∷ []) refl

abbrev plain : ℕ × SkinDefinition
plain = (1, record { name = b'P' ∷ []; base_price = usd; rarity = mil_spec })

abbrev rare : ℕ × SkinDefinition
rare = (2, record { name = b'R' ∷ []; base_price = 100 * usd; rarity = covert })

select_weighted_lem_example : select_weighted 8000 0 plain (plain ∷ rare ∷ []) ≡ rare
unfolding total_weight get_visual_weight
select_weighted_lem_example =
    select_weighted_lem 8000 plain rare (plain ∷ []) [] (omega arith) (omega arith)
