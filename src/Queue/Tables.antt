-- ===== src/Queue/Tables.antt =====
-- The tables `runs`, `run_specs`, `runners` and `runner_probes`
-- (packages/db/src/schema/runs.ts, runners.ts), with the columns that the queue reads or writes.
-- A uuid is the number that its 128 bits stand for, and a timestamp is in milliseconds.
use nodejs_movy_data.Prelude.{
  ℕ, ◌≡◌, Bool, true, false, ◌&&◌, ◌||◌, String, Option, none, some, List, [], ◌∷◌, All, str_eq,
  ltb, ◌==◌,
}

pub data RunStatus : Type 0 where
  queued running cancelling succeeded failed cancelled : RunStatus

-- status IN ('running', 'cancelling')
abbrev pub is_busy : RunStatus → Bool
is_busy running = true
is_busy cancelling = true
is_busy _ = false

abbrev pub is_queued : RunStatus → Bool
is_queued queued = true
is_queued _ = false

-- status IN ('succeeded', 'failed', 'cancelled')
abbrev pub is_terminal : RunStatus → Bool
is_terminal succeeded = true
is_terminal failed = true
is_terminal cancelled = true
is_terminal _ = false

abbrev pub is_cancelling : RunStatus → Bool
is_cancelling cancelling = true
is_cancelling _ = false

pub record RunRow : Type 0 where
  pub id : ℕ
  pub org_id : String
  pub status : RunStatus
  pub runner_class : String
  pub runner_id : Option String
  pub target_lock_key : Option String
  pub simulated : Bool
  pub error_name : Option String
  pub error_message : Option String
  pub cancel_requested_by : Option String
  pub cancel_requested_at : Option ℕ
  pub claimed_at : Option ℕ
  pub lease_expires_at : Option ℕ
  pub started_at : Option ℕ
  pub finished_at : Option ℕ
  pub created_at : ℕ
  pub updated_at : ℕ
  pub pid : Option ℕ
  pub journal_path : Option String
  pub last_seq : ℕ

pub record RunSpec : Type 0 where
  pub run_id : ℕ
  pub spec_version : ℕ
  pub ciphertext : List ℕ

pub data RunnerState : Type 0 where
  online draining offline : RunnerState

abbrev pub is_offline : RunnerState → Bool
is_offline offline = true
is_offline _ = false

pub record RunnerRow : Type 0 where
  pub id : String
  pub runner_class : String
  pub version : String
  pub slots : ℕ
  pub probe_slots : ℕ
  pub busy : ℕ
  pub state : RunnerState
  pub provisioned_by : Option String
  pub started_at : ℕ
  pub last_heartbeat_at : ℕ

pub record ProbeRow : Type 0 where
  pub id : ℕ
  pub expires_at : ℕ

pub record Db : Type 0 where
  pub runs : List RunRow
  pub specs : List RunSpec
  pub runners : List RunnerRow
  pub probes : List ProbeRow

-- Two target lock keys are one destination; NULL is none.
abbrev pub same_key : Option String → Option String → Bool
same_key none k = false
same_key (some j) none = false
same_key (some j) (some k) = str_eq j k

-- What the primary key and the partial unique index `runs_target_busy_uq` forbid of two rows.
abbrev pub clash : RunRow → RunRow → Bool
clash r s =
    r.id == s.id
    || (is_busy r.status && (is_busy s.status && same_key r.target_lock_key s.target_lock_key))

abbrev pub IsConsistent : List RunRow → Type 0
IsConsistent [] = Unit
IsConsistent (r ∷ rs) = All (λ s. clash r s ≡ false) rs × IsConsistent rs

-- ORDER BY created_at, id
abbrev pub before : RunRow → RunRow → Bool
before r s = ltb r.created_at s.created_at || (r.created_at == s.created_at && ltb r.id s.id)
