-- ===== src/Db/Cases.antt =====
-- The `db_` functions for cases.
use cs.Base.{
  ℕ, Bool, false, ◌&&◌, Option, none, some, List, [], ◌∷◌, leb, ◌==◌, take, if◌then◌else◌,
}
use cs.Types.{SkinRarity, rarity_index}
use cs.Db.Table.{Rows, find}
use cs.Db.Tables.{SkinDefinition, CaseRow}
use cs.Db.Monad.{M, select, attempt, pure, ◌>>=◌}

unfoldable pub db_load_case : ℕ → M CaseRow
db_load_case case_id = select λ t. find case_id t.cases

unfoldable pub db_load_skin_definition_with_rarity : ℕ → M SkinDefinition
db_load_skin_definition_with_rarity definition_id = select λ t. find definition_id t.definitions

-- Whether the definition is there and has the rarity.
abbrev pub of_rarity : SkinRarity → Option SkinDefinition → Bool
of_rarity r none = false
of_rarity r (some s) = rarity_index s.rarity == rarity_index r

-- The definitions of a case with a rarity: the JOIN, in the order of the rows.
abbrev pub case_skins_of : ℕ → SkinRarity → List (ℕ × ℕ) → Rows SkinDefinition → List ℕ
case_skins_of case_id r [] definitions = []
case_skins_of case_id r ((c, k) ∷ l) definitions =
    let rest = case_skins_of case_id r l definitions in
    if c == case_id && of_rarity r (find k definitions) then k ∷ rest else rest

-- At most a hundred rows.
unfoldable pub db_get_case_skins_by_rarity : ℕ → SkinRarity → M (List ℕ)
db_get_case_skins_by_rarity case_id rarity =
    select λ t. some (take 100 (case_skins_of case_id rarity t.case_skins t.definitions))

abbrev skins_in : ℕ → List (ℕ × ℕ) → List ℕ
skins_in case_id [] = []
skins_in case_id ((c, k) ∷ l) =
    let rest = skins_in case_id l in if c == case_id then k ∷ rest else rest

abbrev or_no_ids : Option (List ℕ) → List ℕ
or_no_ids none = []
or_no_ids (some l) = l

-- It always returns 0: a query that fails gives no definition.
unfoldable pub db_get_case_skins : ℕ → M (List ℕ)
db_get_case_skins case_id = do
  rows ← attempt (select λ t. some (take 100 (skins_in case_id t.case_skins)))
  pure (or_no_ids rows)

abbrev insert_by_key : ℕ × SkinDefinition → Rows SkinDefinition → Rows SkinDefinition
insert_by_key e [] = e ∷ []
insert_by_key (k, s) ((j, r) ∷ t) =
    let rest = insert_by_key (k, s) t in if leb k j then (k, s) ∷ (j, r) ∷ t else (j, r) ∷ rest

abbrev add_definition : ℕ → Option SkinDefinition → Rows SkinDefinition → Rows SkinDefinition
add_definition k none rest = rest
add_definition k (some s) rest = insert_by_key (k, s) rest

-- The definitions of a case, ORDER BY definition_id.
abbrev pub case_info : ℕ → List (ℕ × ℕ) → Rows SkinDefinition → Rows SkinDefinition
case_info case_id [] definitions = []
case_info case_id ((c, k) ∷ l) definitions =
    let rest = case_info case_id l definitions in
    if c == case_id then add_definition k (find k definitions) rest else rest

unfoldable pub db_fetch_full_case_info : ℕ → M (Rows SkinDefinition)
db_fetch_full_case_info case_id =
    select λ t. some (take 100 (case_info case_id t.case_skins t.definitions))
