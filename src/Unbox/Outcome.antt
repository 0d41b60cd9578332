-- ===== src/Unbox/Outcome.antt =====
-- What a case that was opened costs and gives.
use cs.Base.{ℕ, ◌+◌, ◌≡◌, true, some}
use cs.Types.{Skin}
use cs.Db.Table.{find}
use cs.Db.Tables.{Tables, SkinDefinition, CaseRow}
use cs.Db.Monad.{Db}
use cs.Db.Money.{money}
use cs.Unbox.{case_key_price, Unboxed}
use cs.Unbox.Drawn.{in_case, InRange}

-- What the transaction leaves, from the tables `t`: the cost is paid, and the skin is one of the
-- case with attributes in their ranges.
abbrev pub Drawn : ℕ → ℕ → Tables → Unboxed → Db → Type 0
Drawn c total t x d =
    (money d.tables + total ≡ money t)
    × ((in_case c x.definition_id t.case_skins ≡ true)
        × ((find x.definition_id t.definitions ≡ some x.definition)
            × InRange x.wear x.pattern_seed x.is_stattrak x.definition.rarity))

-- What `unbox_case` leaves where it succeeds, from the tables `t`: the case was there, the cost is
-- paid, and the skin that is returned is one of the case with attributes in their ranges.
abbrev pub Opened : ℕ → Tables → Skin → Db → Type 0
Opened case_id t s d =
    (c : CaseRow) × ((find case_id t.cases ≡ some c)
      × ((money d.tables + (c.price + case_key_price) ≡ money t)
          × ((k : ℕ) × ((definition : SkinDefinition) × ((in_case case_id k t.case_skins ≡ true)
                  × ((find k t.definitions ≡ some definition)
                      × ((s.rarity ≡ definition.rarity)
                          × InRange s.wear s.pattern_seed s.is_stattrak s.rarity)))))))

-- The skin that is returned is the one that was drawn.
abbrev Shows : Unboxed → Skin → Db → Type 0
Shows x s d =
    (s.rarity ≡ x.definition.rarity)
    × ((s.wear ≡ x.wear) × ((s.pattern_seed ≡ x.pattern_seed) × (s.is_stattrak ≡ x.is_stattrak)))
