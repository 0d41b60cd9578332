-- ===== src/Db/Community.antt =====
-- The `db_` functions for reports and chat messages.
use cs.Base.{
  ℕ, suc, Bool, not, ◌&&◌, ◌||◌, none, some, List, [], ◌∷◌, ◌++◌, leb, ltb, ◌==◌, take,
  if◌then◌else◌,
}
use cs.Types.{Report, ChatMessage}
use cs.Db.Table.{Rows, has}
use cs.Db.Monad.{M, select, write, ◌>>=◌, clock}

-- A report needs its reporter and the reported user.
unfoldable pub db_save_report : Report → M ℕ
db_save_report r = write λ t.
    if has r.reporter_id t.users && has r.reported_id t.users
    then some (
      t.next_report,
      record t {
        reports = t.reports ++ ((t.next_report, r) ∷ []);
        next_report = suc t.next_report;
      },
    )
    else none

abbrev pub open_against : ℕ → Report → Bool
open_against user_id r = r.reported_id == user_id && not r.is_resolved

abbrev pub count_open : ℕ → Rows Report → ℕ
count_open user_id [] = 0
count_open user_id ((_, r) ∷ t) =
    let rest = count_open user_id t in if open_against user_id r then suc rest else rest

-- -1 where the query cannot be prepared, which is below every threshold.
unfoldable pub db_get_report_count : ℕ → M ℕ
db_get_report_count user_id = select λ t. some (count_open user_id t.reports)

-- Newest first; rows of the same second in the order of insertion.
abbrev insert_report : Report → List Report → List Report
insert_report r [] = r ∷ []
insert_report r (q ∷ l) =
    let rest = insert_report r l in if leb q.created_at r.created_at then r ∷ q ∷ l else q ∷ rest

abbrev reports_against : ℕ → Rows Report → List Report
reports_against user_id [] = []
reports_against user_id ((_, r) ∷ t) =
    let rest = reports_against user_id t in
    if open_against user_id r then insert_report r rest else rest

unfoldable pub db_load_reports_for_user : ℕ → M (List Report)
db_load_reports_for_user user_id = select λ t. some (take 100 (reports_against user_id t.reports))

-- A message needs its user.
unfoldable pub db_save_chat_message : ℕ → List ℕ → List ℕ → M (Unit {0})
db_save_chat_message user_id username message = do
  now ← clock
  write λ t.
      let m : ChatMessage = record {
        user_id = user_id;
        username = username;
        message = message;
        timestamp = now;
      } in
      if has user_id t.users
      then some (tt, record t { messages = t.messages ++ (m ∷ []) })
      else none

abbrev pub max_chat_history : ℕ
max_chat_history = 50

abbrev insert_message : ChatMessage → List ChatMessage → List ChatMessage
insert_message m [] = m ∷ []
insert_message m (n ∷ l) =
    let rest = insert_message m l in if leb n.timestamp m.timestamp then m ∷ n ∷ l else n ∷ rest

abbrev newest_first : List ChatMessage → List ChatMessage
newest_first [] = []
newest_first (m ∷ l) = insert_message m (newest_first l)

abbrev chat_limit : ℕ → ℕ
chat_limit n = if n == 0 || ltb max_chat_history n then max_chat_history else n

unfoldable pub db_load_recent_chat_messages : ℕ → M (List ChatMessage)
db_load_recent_chat_messages limit =
    select λ t. some (take (chat_limit limit) (newest_first t.messages))
