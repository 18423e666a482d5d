-- ===== src/Queue/Tests.antt =====
-- The queue's theorems at a small table, and runs of its statements.
use mathlib.Core.List.{Perm}
use nodejs_movy_data.Prelude.{
  ◌≢◌, ◌⊎◌, ◌++◌, ℕ, ◌<◌, ◌≡◌, refl, inl, inr, ◌↔◌, true, false, String, Option, none, some, [],
  ◌∷◌, arith, All, Has,
}
use nodejs_movy_data.Queue.Tables.{
  RunStatus, queued, running, cancelling, succeeded, cancelled, RunRow, Db, IsConsistent,
}
use nodejs_movy_data.Queue.Statements.{
  View, claim_next_run, claim_loop, claim_attempt, taken, oldest, is_claimable, is_held, is_taken,
  take_claim, write_row, heartbeat, cancel_queued_run, is_cancellable, take_run_spec, is_owned,
}
use nodejs_movy_data.Queue.Sweep.{sweep}
use nodejs_movy_data.Queue.Picked.{Picks}
use nodejs_movy_data.Queue.Claims.{claim_next_run-Picks, Completes, claim_next_run_complete}
use nodejs_movy_data.Queue.Steps.{Reach, here, next, sweeps, Reach-IsConsistent}
use nodejs_movy_data.Queue.Frozen.{Keeps, outcome_final, cancel_queued_final}
use nodejs_movy_data.Queue.Leases.{heartbeat_held, heartbeat-sweep, take_run_spec_once}

abbrev sample : ℕ → RunStatus → Option String → Option String → Option ℕ → RunRow
sample id status runner key lease = record {
  id = id;
  org_id = "acme";
  status = status;
  runner_class = "default";
  runner_id = runner;
  target_lock_key = key;
  simulated = false;
  error_name = none;
  error_message = none;
  cancel_requested_by = none;
  cancel_requested_at = none;
  claimed_at = none;
  lease_expires_at = lease;
  started_at = none;
  finished_at = none;
  created_at = id;
  updated_at = 0;
  pid = none;
  journal_path = none;
  last_seq = 0;
}

abbrev busy_run : RunRow
busy_run = sample 1 running (some "r1") (some "db-a") (some 100)

abbrev blocked_run : RunRow
blocked_run = sample 2 queued none (some "db-a") none

abbrev waiting_run : RunRow
waiting_run = sample 3 queued none (some "db-b") none

abbrev done_run : RunRow
done_run = sample 4 succeeded (some "r1") (some "db-a") (some 50)

abbrev tables : Db
tables = record {
  runs = busy_run ∷ blocked_run ∷ waiting_run ∷ done_run ∷ [];
  specs =
      record { run_id = 3; spec_version = 1; ciphertext = 7 ∷ [] }
      ∷ record { run_id = 2; spec_version = 1; ciphertext = 8 ∷ [] }
      ∷ [];
  runners = [];
  probes = [];
}

tables-IsConsistent : IsConsistent tables.runs
tables-IsConsistent = ((refl, (refl, (refl, tt))), ((refl, (refl, tt)), ((refl, tt), (tt, tt))))

abbrev calm : ℕ → View
calm k = record {
  tables = tables;
  snapshot = tables.runs;
  is_locked = λ i. false;
  now = 10;
  fault = none;
}

-- The older run waits for its destination, and the younger one is claimed.
claims_third :
    claim_next_run calm "r2" "default" 30
    ≡ taken
        (take_claim "r2" 10 30 waiting_run)
        (write_row waiting_run (take_claim "r2" 10 30 waiting_run) tables)
unfolding claim_next_run claim_loop claim_attempt oldest is_claimable is_held is_taken take_claim
    write_row
claims_third = refl

claim_next_run-Picks_example :
    (j : ℕ) × (j < 5)
    × Picks
        (calm j)
        "r2"
        "default"
        30
        (take_claim "r2" 10 30 waiting_run)
        (write_row waiting_run (take_claim "r2" 10 30 waiting_run) tables)
claim_next_run-Picks_example = claim_next_run-Picks calm "r2" "default" 30 claims_third

claim_next_run_complete_example : Completes calm "r2" "default" 30
claim_next_run_complete_example = claim_next_run_complete calm "r2" "default" 30 refl refl

abbrev swept_tables : Db
swept_tables = (sweep true "gone" 20 200 tables).0

swept_history : Reach tables swept_tables
swept_history = next here (sweeps true "gone" 20 200 refl)

Reach-IsConsistent_example : IsConsistent swept_tables.runs
Reach-IsConsistent_example = Reach-IsConsistent swept_history tables-IsConsistent

outcome_final_example : Keeps done_run swept_tables.runs
outcome_final_example =
    outcome_final done_run swept_history tables-IsConsistent refl (inr (inr (inr (inl refl))))

cancels_third : (cancel_queued_run "acme" 3 "ann" 20 tables).1 ≡ true
unfolding cancel_queued_run is_cancellable
cancels_third = refl

cancel_queued_final_example :
    (r : RunRow) × Has r (cancel_queued_run "acme" 3 "ann" 20 tables).0.runs
    × (r.id ≡ 3)
    × (r.status ≡ cancelled)
cancel_queued_final_example =
    cancel_queued_final "acme" 3 "ann" 20 tables tables-IsConsistent cancels_third here

heartbeat_held_example :
    (Has busy_run.id (heartbeat "r1" 1 60 30 tables).1.held ↔ (
      (busy_run.runner_id ≡ some "r1")
      × ((busy_run.status ≡ running) ⊎ (busy_run.status ≡ cancelling))))
    × (Has busy_run.id (heartbeat "r1" 1 60 30 tables).1.cancels
        ↔ ((busy_run.runner_id ≡ some "r1") × (busy_run.status ≡ cancelling)))
heartbeat_held_example = heartbeat_held "r1" 1 60 30 tables busy_run tables-IsConsistent (inl refl)

owns_first : is_owned "r1" busy_run ≡ true
unfolding is_owned
owns_first = refl

heartbeat-sweep_example :
    Has
      (record busy_run { lease_expires_at = some 90 })
      (sweep true "gone" 20 85 (heartbeat "r1" 1 60 30 tables).0).0.runs
heartbeat-sweep_example =
    heartbeat-sweep "r1" "gone" 1 60 30 20 85 true tables busy_run (inl refl) owns_first
      (omega arith)

take_run_spec_once_example :
    All (λ s. s.run_id ≡ 3) (take_run_spec 3 tables).1
    × All (λ s. s.run_id ≢ 3) (take_run_spec 3 tables).0.specs
    × Perm ((take_run_spec 3 tables).1 ++ (take_run_spec 3 tables).0.specs) tables.specs
    × ((take_run_spec 3 tables).0 ≡ record tables { specs = (take_run_spec 3 tables).0.specs })
    × (take_run_spec 3 (take_run_spec 3 tables).0 ≡ ((take_run_spec 3 tables).0, []))
take_run_spec_once_example = take_run_spec_once 3 tables

takes_third :
    (take_run_spec 3 tables).1 ≡ record { run_id = 3; spec_version = 1; ciphertext = 7 ∷ [] } ∷ []
unfolding take_run_spec
takes_third = refl
