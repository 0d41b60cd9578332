-- ===== src/Db/Users.antt =====
-- The rows of `users`, `inventories` and `transaction_logs`.
use cs.Base.{
  ℕ, Bool, true, false, ◌&&◌, Option, none, some, List, [], ◌∷◌, ◌++◌, ◌==◌, if◌then◌else◌, take,
}
use cs.Types.{User, TransactionLog}
use cs.Db.Table.{find, put, has}
use cs.Db.Tables.{Tables}
use cs.Db.Monad.{M, pure, select, write, attempt, ◌>>=◌}

-- The row with its key as `user_id`.
abbrev pub user_at : ℕ → Tables → Option User
user_at user_id t = elim (find user_id t.users) [
  | none ↦ none
  | some u ↦ some (record u { user_id = user_id })
]

unfoldable pub db_load_user : ℕ → M User
db_load_user user_id = select (user_at user_id)

-- An UPDATE that meets no row changes nothing and succeeds.
unfoldable pub db_update_user : User → M (Unit {0})
db_update_user u = write λ t. some (tt, record t { users = put u.user_id u t.users })

abbrev pub max_inventory_size : ℕ
max_inventory_size = 200

-- The instances of one user.
abbrev pub held_by : ℕ → List (ℕ × ℕ) → List ℕ
held_by u [] = []
held_by u ((v, i) ∷ l) = if v == u then i ∷ held_by u l else held_by u l

-- Whether the pair (user, instance) has a row.
abbrev pub holds : ℕ → ℕ → List (ℕ × ℕ) → Bool
holds u i [] = false
holds u i ((v, j) ∷ l) = if v == u && j == i then true else holds u i l

abbrev or_empty : Option (List ℕ) → List ℕ
or_empty none = []
or_empty (some l) = l

-- It always returns 0: a query that fails gives an empty inventory. The query has no ORDER BY, so
-- that sqlite is free in the order of the rows and, of a user with more than
-- `max_inventory_size` of them, in which it returns: here they come in the order of the table.
unfoldable pub db_load_inventory : ℕ → M (List ℕ)
db_load_inventory user_id = do
  rows ← attempt (select λ t. some (take max_inventory_size (held_by user_id t.inventories)))
  pure (or_empty rows)

abbrev pub add_pair : ℕ → ℕ → List (ℕ × ℕ) → List (ℕ × ℕ)
add_pair u i l = if holds u i l then l else l ++ ((u, i) ∷ [])

abbrev pub remove_pair : ℕ → ℕ → List (ℕ × ℕ) → List (ℕ × ℕ)
remove_pair u i [] = []
remove_pair u i ((v, j) ∷ l) =
    let rest = remove_pair u i l in if v == u && j == i then rest else (v, j) ∷ rest

-- INSERT OR IGNORE, under the foreign keys of the user and the instance.
unfoldable pub db_add_to_inventory : ℕ → ℕ → M (Unit {0})
db_add_to_inventory user_id instance_id = write λ t.
    if has user_id t.users && has instance_id t.instances
    then some (tt, record t { inventories = add_pair user_id instance_id t.inventories })
    else none

unfoldable pub db_remove_from_inventory : ℕ → ℕ → M (Unit {0})
db_remove_from_inventory user_id instance_id =
    write λ t. some (tt, record t { inventories = remove_pair user_id instance_id t.inventories })

-- A log row needs its user.
unfoldable pub db_log_transaction : TransactionLog → M (Unit {0})
db_log_transaction log = write λ t.
    if has log.user_id t.users then some (tt, record t { logs = t.logs ++ (log ∷ []) }) else none
