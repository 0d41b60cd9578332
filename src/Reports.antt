-- ===== src/Reports.antt =====
-- src/server/report.c: reports about users.
use cs.Base.{
  ℕ, Bool, false, not, ◌||◌, Option, none, some, List, ◌∷◌, ltb, leb, ◌==◌, length, if◌then◌else◌,
}
use cs.Types.{User, Report, log_trade}
use cs.Db.Monad.{M, pure, fail, or_return, attempt, ◌>>=◌, ◌>>◌, return_if, clock}
use cs.Db.Users.{db_load_user, db_log_transaction}
use cs.Db.Community.{db_save_report, db_get_report_count, db_load_reports_for_user}

abbrev pub report_warning_threshold : ℕ
report_warning_threshold = 5

-- A count that cannot be read is below every threshold.
abbrev reaches : Option ℕ → Bool
reaches none = false
reaches (some n) = leb report_warning_threshold n

abbrev or_no_reports : Option ℕ → ℕ
or_no_reports none = 0
or_no_reports (some n) = n

unfoldable pub warn_about : ℕ → Option User → M (Unit {0})
warn_about user_id none = pure tt
warn_about user_id (some u) = do
  count ← attempt (db_get_report_count user_id)
  now ← clock
  if not (reaches count)
      then pure tt
      else attempt (
          db_log_transaction (record {
            type = log_trade;
            user_id = user_id;
            details = user_id ∷ or_no_reports count ∷ u.username;
            timestamp = now;
          }))
        >> pure tt

unfoldable pub broadcast_warning : ℕ → M (Unit {0})
broadcast_warning user_id =
    if user_id == 0 then pure tt else do u ← attempt (db_load_user user_id); warn_about user_id u

unfoldable pub report_user : ℕ → ℕ → List ℕ → M (Unit {0})
report_user reporter_id reported_id reason = do
  return_if (reporter_id == 0 || reported_id == 0) 1
  return_if (reporter_id == reported_id) 2
  or_return 3 (db_load_user reporter_id)
  or_return 4 (db_load_user reported_id)
  return_if (length reason == 0 || ltb 255 (length reason)) 5
  now ← clock
  or_return 6 (
      db_save_report (record {
        reporter_id = reporter_id;
        reported_id = reported_id;
        reason = reason;
        created_at = now;
        is_resolved = false;
      }))
  attempt (
      db_log_transaction (record {
        type = log_trade;
        user_id = reporter_id;
        details = reporter_id ∷ reported_id ∷ reason;
        timestamp = now;
      }))
  count ← attempt (db_get_report_count reported_id)
  if reaches count then broadcast_warning reported_id else pure tt

unfoldable pub get_reports_for_user : ℕ → M (List Report)
get_reports_for_user user_id = if user_id == 0 then fail 1 else db_load_reports_for_user user_id

unfoldable pub get_report_count : ℕ → M ℕ
get_report_count user_id = if user_id == 0 then fail 1 else db_get_report_count user_id

unfoldable pub should_warn_user : ℕ → M Bool
should_warn_user user_id =
    if user_id == 0
    then pure false
    else do count ← attempt (db_get_report_count user_id); pure (reaches count)
