-- ===== src/Queue/Statements.antt =====
-- The statements of queue-store.ts, each a function of the tables as it finds them. `now` is the
-- transaction's timestamp. Notifications (`pg_notify`) only wake their listeners and are left out.
use nodejs_movy_data.Prelude.{
  ℕ, suc, ◌+◌, Bool, true, false, not, ◌&&◌, String, Option, none, some, List, [], ◌∷◌, map, str_eq,
  ◌==◌, any, filter, if◌then◌else◌, or_else, holds,
}
use nodejs_movy_data.Queue.Tables.{
  RunStatus, running, cancelled, is_busy, is_queued, is_terminal, is_cancelling, RunRow, RunSpec,
  RunnerRow, online, is_offline, Db, same_key, before,
}

-- What one claim statement meets: the tables as they are when it writes, the older snapshot that its
-- NOT EXISTS reads, the rows that other transactions have locked, and an error of the driver's.
pub record View : Type 0 where
  pub tables : Db
  pub snapshot : List RunRow
  pub is_locked : ℕ → Bool
  pub now : ℕ
  pub fault : Option String

pub data Attempt : Type 0 where
  claimed : RunRow → Db → Attempt
  empty : Attempt
  unique_violation : Attempt
  refused : String → Attempt

-- EXISTS (… b.target_lock_key = q.target_lock_key AND b.status IN ('running', 'cancelling'))
unfoldable pub is_held : List RunRow → Option String → Bool
is_held rs key = any (λ b. same_key key b.target_lock_key && is_busy b.status) rs

unfoldable pub is_claimable : View → String → RunRow → Bool
is_claimable v cls q =
    is_queued q.status
    && (str_eq q.runner_class cls
        && (not (is_held v.snapshot q.target_lock_key) && not (v.is_locked q.id)))

-- ORDER BY q.created_at, q.id … LIMIT 1
unfoldable pub oldest : List RunRow → Option RunRow
oldest [] = none
oldest (r ∷ rs) = elim (oldest rs) [ none ↦ some r | some s ↦ some (if before s r then s else r) ]

unfoldable pub take_claim : String → ℕ → ℕ → RunRow → RunRow
take_claim runner_id now lease_ms r = record r {
  status = running;
  runner_id = some runner_id;
  claimed_at = some now;
  started_at = or_else r.started_at (some now);
  updated_at = now;
  lease_expires_at = some (now + lease_ms);
}

-- Another busy row under the key, which `runs_target_busy_uq` refuses.
unfoldable pub is_taken : RunRow → List RunRow → Bool
is_taken q rs =
    any
      (λ b.
        not (b.id == q.id) && (is_busy b.status && same_key q.target_lock_key b.target_lock_key))
      rs

-- UPDATE … WHERE id = the row's
abbrev pub swap_in : RunRow → RunRow → RunRow → RunRow
swap_in q q' r = if r.id == q.id then q' else r

unfoldable pub write_row : RunRow → RunRow → Db → Db
write_row q q' db = record db { runs = map (swap_in q q') db.runs }

-- The claiming UPDATE.
unfoldable pub claim_attempt : View → String → String → ℕ → Attempt
claim_attempt v runner_id cls lease_ms = elim v.fault [
  | some e ↦ refused e
  | none ↦ elim (oldest (filter (is_claimable v cls) v.tables.runs)) [
    | none ↦ empty
    | some q ↦
        if is_taken q v.tables.runs
        then unique_violation
        else claimed (take_claim runner_id v.now lease_ms q)
            (write_row q (take_claim runner_id v.now lease_ms q) v.tables)
  ]
]

pub data Claim : Type 0 where
  taken : RunRow → Db → Claim
  nobody : Claim
  thrown : String → Claim

abbrev pub max_claim_attempts : ℕ
max_claim_attempts = 5

-- The loop of `claimNextRun`, over what its k-th attempt meets.
unfoldable pub claim_loop : ℕ → ℕ → (ℕ → View) → String → String → ℕ → Claim
claim_loop ℕ.zero k views runner_id cls lease_ms = nobody
claim_loop (suc n) k views runner_id cls lease_ms =
    let rest = claim_loop n (suc k) views runner_id cls lease_ms in
    elim (claim_attempt (views k) runner_id cls lease_ms) [
      | claimed r db ↦ taken r db
      | empty ↦ nobody
      | unique_violation ↦ rest
      | refused e ↦ thrown e
    ]

unfoldable pub claim_next_run : (ℕ → View) → String → String → ℕ → Claim
claim_next_run views runner_id cls lease_ms =
    claim_loop max_claim_attempts 0 views runner_id cls lease_ms

-- DELETE FROM run_specs … RETURNING
unfoldable pub take_run_spec : ℕ → Db → Db × List RunSpec
take_run_spec run_id db = (
  record db { specs = filter (λ s. not (s.run_id == run_id)) db.specs },
  filter (λ s. s.run_id == run_id) db.specs,
)

-- The rows a heartbeat renews: this runner's, running or cancelling.
unfoldable pub is_owned : String → RunRow → Bool
is_owned runner_id r = holds r.runner_id runner_id && is_busy r.status

pub record HeartbeatResult : Type 0 where
  pub held : List ℕ
  pub cancels : List ℕ

unfoldable pub beat : String → ℕ → ℕ → RunnerRow → RunnerRow
beat runner_id busy now w =
    if str_eq w.id runner_id
    then record w {
      last_heartbeat_at = now;
      busy = busy;
      state = if is_offline w.state then online else w.state;
    }
    else w

unfoldable pub renew : String → ℕ → ℕ → RunRow → RunRow
renew runner_id now lease_ms r =
    if is_owned runner_id r then record r { lease_expires_at = some (now + lease_ms) } else r

unfoldable pub heartbeat : String → ℕ → ℕ → ℕ → Db → Db × HeartbeatResult
unfolding beat renew
heartbeat runner_id busy now lease_ms db =
    let rows = filter (is_owned runner_id) db.runs in
    (
      record db {
        runners = map (beat runner_id busy now) db.runners;
        runs = map (renew runner_id now lease_ms) db.runs;
      },
      record {
        held = map (λ r. r.id) rows;
        cancels = map (λ r. r.id) (filter (λ r. is_cancelling r.status) rows);
      },
    )

pub record Settlement : Type 0 where
  pub outcome : RunStatus
  pub settled_name : String
  pub settled_message : String

unfoldable pub is_open : ℕ → RunRow → Bool
is_open run_id r = r.id == run_id && not (is_terminal r.status)

unfoldable pub settle_row : ℕ → Settlement → ℕ → RunRow → RunRow
settle_row run_id o now r =
    if is_open run_id r
    then record r {
      status = o.outcome;
      error_name = some o.settled_name;
      error_message = some o.settled_message;
      finished_at = some now;
      updated_at = now;
    }
    else r

unfoldable pub settle_claimed_run : ℕ → Settlement → ℕ → Db → Db × Bool
settle_claimed_run run_id o now db =
    (record db { runs = map (settle_row run_id o now) db.runs }, any (is_open run_id) db.runs)

unfoldable pub is_cancellable : String → ℕ → RunRow → Bool
is_cancellable org_id run_id r = r.id == run_id && (str_eq r.org_id org_id && is_queued r.status)

unfoldable pub cancel_row : String → ℕ → String → ℕ → RunRow → RunRow
cancel_row org_id run_id user_id now r =
    if is_cancellable org_id run_id r
    then record r {
      status = cancelled;
      cancel_requested_at = some now;
      cancel_requested_by = some user_id;
      finished_at = some now;
      updated_at = now;
    }
    else r

unfoldable pub cancel_queued_run : String → ℕ → String → ℕ → Db → Db × Bool
cancel_queued_run org_id run_id user_id now db =
    let hit = any (is_cancellable org_id run_id) db.runs in
    (
      record db {
        runs = map (cancel_row org_id run_id user_id now) db.runs;
        specs = if hit then filter (λ s. not (s.run_id == run_id)) db.specs else db.specs;
      },
      hit,
    )

pub record Reattachable : Type 0 where
  pub id : ℕ
  pub pid : Option ℕ
  pub journal_path : String
  pub last_seq : ℕ
  pub leased : Bool

abbrev is_mine : Option String → String → Bool → Bool
is_mine none runner_id include_ownerless = include_ownerless
is_mine (some r) runner_id include_ownerless = str_eq r runner_id

reattachable_row : String → Bool → RunRow → List Reattachable → List Reattachable
reattachable_row runner_id include_ownerless r rest = elim r.journal_path [
  | none ↦ rest
  | some path ↦
      if is_busy r.status && is_mine r.runner_id runner_id include_ownerless
      then record {
        id = r.id;
        pid = r.pid;
        journal_path = path;
        last_seq = r.last_seq;
        leased = elim r.lease_expires_at [ none ↦ false | some t ↦ true ];
      }
        ∷ rest
      else rest
]

unfoldable pub reattachable_runs : String → Bool → List RunRow → List Reattachable
unfolding reattachable_row
reattachable_runs runner_id include_ownerless [] = []
reattachable_runs runner_id include_ownerless (r ∷ rs) =
    reattachable_row runner_id include_ownerless r
      (reattachable_runs runner_id include_ownerless rs)
