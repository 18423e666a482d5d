-- ===== src/Queue/Repository.antt =====
-- The writes to `runs` outside queue-store.ts: `enqueue` and `requestCancel` of
-- apps/web/server/repositories/runs.repo.ts, and the settlement and the launch of
-- apps/runner/src/agent/ingestion.ts.
use nodejs_movy_data.Prelude.{
  ℕ, Bool, not, ◌&&◌, String, Option, none, some, List, ◌∷◌, map, str_eq, ◌==◌, any, if◌then◌else◌,
}
use nodejs_movy_data.Queue.Tables.{
  RunStatus, queued, cancelling, is_busy, is_terminal, RunRow, RunSpec, Db, same_key,
}

-- The row to insert carries what the caller chose; the statement sets the org and the status. `none`
-- is the primary key's refusal, which aborts the transaction.
unfoldable pub enqueue : String → RunRow → RunSpec → Db → Option Db
enqueue org_id row spec db =
    if any (λ r. r.id == row.id) db.runs
    then none
    else some (record db {
      runs = record row { org_id = org_id; status = queued } ∷ db.runs;
      specs = record spec { run_id = row.id } ∷ db.specs;
    })

unfoldable pub is_cancel_target : String → ℕ → RunRow → Bool
is_cancel_target org_id run_id r =
    r.id == run_id && (str_eq r.org_id org_id && not (is_terminal r.status))

unfoldable pub mark_cancelling : String → ℕ → String → ℕ → RunRow → RunRow
mark_cancelling org_id run_id user_id now r =
    if is_cancel_target org_id run_id r
    then record r {
      status = cancelling;
      cancel_requested_at = some now;
      cancel_requested_by = some user_id;
      updated_at = now;
    }
    else r

-- A row that becomes busy under a key that another busy row holds: the unique index refuses it.
unfoldable pub collides : (RunRow → Bool) → List RunRow → Bool
collides hit rs =
    any
      (λ r.
        hit r
        && any
            (λ b.
              not (b.id == r.id)
              && (is_busy b.status && same_key r.target_lock_key b.target_lock_key))
            rs)
      rs

-- `none` is the index's refusal.
unfoldable pub request_cancel : String → ℕ → String → ℕ → Db → Option (Db × Bool)
request_cancel org_id run_id user_id now db =
    if collides (is_cancel_target org_id run_id) db.runs
    then none
    else some (
      record db { runs = map (mark_cancelling org_id run_id user_id now) db.runs },
      any (is_cancel_target org_id run_id) db.runs,
    )

-- `markRunLaunched`
unfoldable pub launch_row : ℕ → ℕ → String → ℕ → RunRow → RunRow
launch_row run_id pid path now r =
    if r.id == run_id
    then record r { pid = some pid; journal_path = some path; updated_at = now }
    else r

unfoldable pub mark_run_launched : ℕ → ℕ → String → ℕ → Db → Db
mark_run_launched run_id pid path now db = record db {
  runs = map (launch_row run_id pid path now) db.runs;
}

unfoldable pub finalise_row : ℕ → RunStatus → Option String → Option String → ℕ → RunRow → RunRow
finalise_row run_id outcome name message now r =
    if r.id == run_id && not (is_terminal r.status)
    then record r {
      status = outcome;
      error_name = name;
      error_message = message;
      finished_at = some now;
      updated_at = now;
    }
    else r

unfoldable pub finalise_run_if_unsettled :
    ℕ → RunStatus → Option String → Option String → ℕ → Db → Db × Bool
finalise_run_if_unsettled run_id outcome name message now db = (
  record db { runs = map (finalise_row run_id outcome name message now) db.runs },
  any (λ r. r.id == run_id && not (is_terminal r.status)) db.runs,
)
