-- ===== src/Unbox/Drawn.antt =====
-- What is drawn from a case, what it costs, and what leaves the contents of cases as they are.
use cs.Base.{
  ℕ, zero, suc, ◌+◌, ◌-◌, ◌%◌, ◌≤◌, ◌<◌, ◌≡◌, refl, sym, ap, subst, ◌∙◌, Bool, true, false, ◌&&◌,
  ◌||◌, Option, none, some, List, [], ◌∷◌, ltb, ◌==◌, length, get_or, take, arith,
}
use cs.Types.{User, SkinRarity, hundredths}
use cs.Db.Table.{Rows, put, sum_of, sum_of-put}
use cs.Db.Tables.{Tables, SkinDefinition}
use cs.Db.Monad.Frame.{
  Keeps, Keeps-bind, Keeps-attempt, Keeps-pure, Keeps-select, Keeps-write, Keeps-clock, Leaves-if,
}
use cs.Db.Money.{money, user_at-row}
use cs.Db.Users.{user_at, db_add_to_inventory}
use cs.Db.Instances.{db_create_skin_instance}
use cs.Db.Cases.{case_skins_of, db_get_case_skins_by_rarity}
use cs.Unbox.{has_none, is_contraband, available_rarities, roll_wear, roll_stattrak, roll_pattern}

-- Whether the pair (case_id, definition_id) has a row.
abbrev pub in_case : ℕ → ℕ → List (ℕ × ℕ) → Bool
in_case case_id k [] = false
in_case case_id k ((c, j) ∷ l) = c == case_id && j == k || in_case case_id k l

abbrev has_id : ℕ → List ℕ → Bool
has_id k [] = false
has_id k (j ∷ l) = j == k || has_id k l

has_id-get_or : (i : ℕ) (l : List ℕ) → i < length l → has_id (get_or l i 0) l ≡ true
has_id-get_or i [] h = absurd (omega arith)
has_id-get_or zero (j ∷ l) h = ground arith
has_id-get_or (suc i) (j ∷ l) h = ground (arith, has_id-get_or i l)

has_id-take : (k n : ℕ) (l : List ℕ) → has_id k (take n l) ≡ true → has_id k l ≡ true
has_id-take k zero l h = ground arith
has_id-take k (suc n) [] h = ground arith
has_id-take k (suc n) (j ∷ l) h = ground (arith, has_id-take k n l)

in_case-case_skins_of :
    (c k : ℕ) (r : SkinRarity) (l : List (ℕ × ℕ)) (s : Rows SkinDefinition)
    → has_id k (case_skins_of c r l s) ≡ true
    → in_case c k l ≡ true
in_case-case_skins_of c k r [] s h = ground arith
in_case-case_skins_of c k r ((d, j) ∷ l) s h = ground (arith, in_case-case_skins_of c k r l s)

drawn_index : (n : ℕ) (l : List ℕ) → has_none l ≡ false → n % length l < length l
drawn_index n [] h = ground arith
drawn_index n (j ∷ l) h = omega arith

-- A skin that was drawn is of the case.
pub drawn :
    (c n : ℕ) (r : SkinRarity) (t : Tables) (ids : List ℕ)
    → take 100 (case_skins_of c r t.case_skins t.definitions) ≡ ids
    → has_none ids ≡ false
    → in_case c (get_or ids (n % length ids) 0) t.case_skins ≡ true
drawn c n r t ids is some_ids =
    let k = get_or ids (n % length ids) 0 in
    in_case-case_skins_of c k r t.case_skins t.definitions (
      has_id-take k 100 (case_skins_of c r t.case_skins t.definitions) (
        subst (λ l. has_id k l ≡ true) (sym is)
          (has_id-get_or (n % length ids) ids (drawn_index n ids some_ids))))

-- The ranges of the attributes.
abbrev pub InRange : ℕ → ℕ → Bool → SkinRarity → Type 0
InRange wear pattern_seed is_stattrak r =
    (wear ≤ hundredths 100) × ((pattern_seed < 1000) × (is_stattrak && is_contraband r ≡ false))

module _ (rand : ℕ → ℕ) (rand_max : ℕ) where
  pub rolls_range :
      (i j : ℕ) (r : SkinRarity)
      → InRange
          (roll_wear rand rand_max i)
          (roll_pattern rand rand_max j r)
          (roll_stattrak rand rand_max j r)
          r
  unfolding roll_wear roll_pattern roll_stattrak
  rolls_range i j r = (omega arith, (ground arith, ground arith))

-- The money, and the columns that say what is in a case.
abbrev pub Columns : Type 0
Columns = ℕ × (List (ℕ × ℕ) × Rows SkinDefinition)

abbrev pub columns : Tables → Columns
columns t = (money t, (t.case_skins, t.definitions))

module _ {o : Option Tables} where
  pub available_rarities-Keeps :
      (c : ℕ) (l : List SkinRarity) → Keeps o columns (available_rarities c l)
  unfolding available_rarities db_get_case_skins_by_rarity
  available_rarities-Keeps c [] = Keeps-pure []
  available_rarities-Keeps c (r ∷ l) =
      Keeps-bind _ _ (Keeps-attempt _ (Keeps-select _))
        λ ids. Keeps-bind _ _ (available_rarities-Keeps c l) λ rest. Keeps-pure _

  pub db_create_skin_instance-Keeps :
      (k : ℕ) (r : SkinRarity) (w p : ℕ) (s : Bool) (u : ℕ)
      → Keeps o columns (db_create_skin_instance k r w p s u)
  unfolding db_create_skin_instance
  db_create_skin_instance-Keeps k r w p s u =
      Keeps-bind _ _ Keeps-clock λ now. Keeps-write _ λ t. Leaves-if columns _ _ _ _ refl

  pub db_add_to_inventory-Keeps : (u i : ℕ) → Keeps o columns (db_add_to_inventory u i)
  unfolding db_add_to_inventory
  db_add_to_inventory-Keeps u i = Keeps-write _ λ t. Leaves-if columns _ _ tt _ refl

-- The balance that is written falls by the cost.
pub pay :
    (t : Tables) (u total : ℕ) (user : User)
    → user_at u t ≡ some user
    → ltb user.balance total ≡ false
    → sum_of
          (λ w. w.balance)
          (put user.user_id (record user { balance = user.balance - total }) t.users)
        + total
      ≡ money t
pay t u total user at enough =
    let (row, found, is) = user_at-row u t user at in
    rw is (
      let same =
        sum_of-put (λ w. w.balance) u (record row { user_id = u; balance = row.balance - total })
          row t.users found in
      let enough' : ltb row.balance total ≡ false =
        ap (λ (w : User). ltb w.balance total) (sym is) ∙ enough in
      ground arith)

pub unwrapped : (l m : List ℕ) → some l ≡ some m → l ≡ m
unwrapped l m e = ap (λ o. elim o [ none ↦ l | some x ↦ x ]) e
