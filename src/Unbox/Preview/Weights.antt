-- ===== src/Unbox/Preview/Weights.antt =====
-- The weighted selection of `generate_unbox_preview`.
use cs.Base.{ℕ, ◌+◌, ◌≤◌, ◌<◌, ◌≡◌, [], ◌∷◌, ◌++◌, arith}
use cs.Db.Table.{Rows}
use cs.Db.Tables.{SkinDefinition}
use cs.Unbox.Preview.{weight, total_weight, select_weighted}

-- The entries before the one that is selected weigh no more than the value.
select_after :
    (r acc : ℕ) (first e : ℕ × SkinDefinition) (before after : Rows SkinDefinition)
    → acc + total_weight before ≤ r
    → r < acc + total_weight before + weight e
    → select_weighted r acc first (before ++ (e ∷ after)) ≡ e
unfolding select_weighted total_weight
select_after r acc first e [] after low high = ground arith
select_after r acc first e (b ∷ before) after low high =
    ground (arith, select_after r (acc + weight b) first e before after)

-- Each entry is selected by as many of the values below the total as it weighs: by those from the
-- weight of the entries before it to that and its own.
pub select_weighted_lem :
    (r : ℕ) (first e : ℕ × SkinDefinition) (before after : Rows SkinDefinition)
    → total_weight before ≤ r
    → r < total_weight before + weight e
    → select_weighted r 0 first (before ++ (e ∷ after)) ≡ e
select_weighted_lem r first e before after low high =
    select_after r 0 first e before after (omega arith) (omega arith)
