-- ===== src/Queue/Sweep.antt =====
-- `sweep`, `registerRunner` and `setRunnerState` of queue-store.ts. The parts of the sweep's one
-- statement all read the tables as they were when it began.
use nodejs_movy_data.Prelude.{
  ℕ, ◌+◌, ◌*◌, Bool, true, false, not, ◌&&◌, String, Option, none, some, List, [], ◌∷◌, map, str_eq,
  ltb, leb, ◌==◌, any, filter, if◌then◌else◌, get_or,
}
use nodejs_movy_data.Queue.Tables.{
  failed, cancelled, is_busy, is_terminal, is_cancelling, RunRow, RunSpec, RunnerRow, RunnerState,
  online, offline, is_offline, Db,
}

-- `lease_expires_at < now()`, which is not true of NULL
unfoldable pub is_expired : ℕ → RunRow → Bool
is_expired now r = is_busy r.status && elim r.lease_expires_at [ none ↦ false | some t ↦ ltb t now ]

unfoldable pub settle_expired : String → ℕ → RunRow → RunRow
settle_expired message now r =
    if is_expired now r
    then record r {
      status = if is_cancelling r.status then cancelled else failed;
      error_name = some "RunnerVanished";
      error_message = some message;
      finished_at = some now;
      updated_at = now;
    }
    else r

unfoldable pub is_silent : ℕ → ℕ → RunnerRow → Bool
is_silent offline_after_ms now w =
    not (is_offline w.state) && ltb (w.last_heartbeat_at + offline_after_ms) now

take_offline : ℕ → ℕ → RunnerRow → RunnerRow
take_offline offline_after_ms now w =
    if is_silent offline_after_ms now w then record w { state = offline } else w

abbrev day_ms : ℕ
day_ms = 24 * 60 * 60 * 1000

unfoldable pub is_forgotten : ℕ → RunnerRow → Bool
is_forgotten now w = is_offline w.state && ltb (w.last_heartbeat_at + day_ms) now

has_settled : List RunRow → RunSpec → Bool
has_settled rs s = any (λ r. r.id == s.run_id && is_terminal r.status) rs

pub record SweepResult : Type 0 where
  pub swept : Bool
  pub offline_runners : List String
  pub settled_runs : List ℕ

-- `ok` is what pg_try_advisory_xact_lock answered.
unfoldable pub sweep : Bool → String → ℕ → ℕ → Db → Db × SweepResult
unfolding take_offline has_settled
sweep false message offline_after_ms now db =
    (db, record { swept = false; offline_runners = []; settled_runs = [] })
sweep true message offline_after_ms now db = (
  record {
    runs = map (settle_expired message now) db.runs;
    specs = filter (λ s. not (has_settled db.runs s)) db.specs;
    runners =
        map (take_offline offline_after_ms now) (filter (λ w. not (is_forgotten now w)) db.runners);
    probes = filter (λ p. leb now p.expires_at) db.probes;
  },
  record {
    swept = true;
    offline_runners = map (λ w. w.id) (filter (is_silent offline_after_ms now) db.runners);
    settled_runs = map (λ r. r.id) (filter (is_expired now) db.runs);
  },
)

pub record Registration : Type 0 where
  pub id : String
  pub runner_class : String
  pub version : String
  pub slots : ℕ
  pub probe_slots : Option ℕ
  pub provisioned_by : Option String

registered : Registration → ℕ → RunnerRow
registered g now = record {
  id = g.id;
  runner_class = g.runner_class;
  version = g.version;
  slots = g.slots;
  probe_slots = get_or g.probe_slots 2;
  busy = 0;
  state = online;
  provisioned_by = g.provisioned_by;
  started_at = now;
  last_heartbeat_at = now;
}

-- INSERT … ON CONFLICT (id) DO UPDATE, which sets every column.
unfoldable pub register_runner : Registration → ℕ → List RunnerRow → List RunnerRow
unfolding registered
register_runner g now [] = registered g now ∷ []
register_runner g now (w ∷ ws) =
    if str_eq w.id g.id then registered g now ∷ ws else w ∷ register_runner g now ws

unfoldable pub set_runner_state : String → RunnerState → List RunnerRow → List RunnerRow
set_runner_state runner_id state = map (λ w.
    if str_eq w.id runner_id
    then record w { state = state; busy = if is_offline state then 0 else w.busy }
    else w)
