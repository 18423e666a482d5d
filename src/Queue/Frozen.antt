-- ===== src/Queue/Frozen.antt =====
-- An outcome is final: no statement changes the status of a settled run.
use mathlib.Core.Option.{some-injective}
use nodejs_movy_data.Prelude.{
  ℕ, ◌≡◌, refl, sym, ap, ◌∙◌, subst, inl, inr, Bool, true, false, String, Option, some, List, ◌∷◌,
  map, arith, All-Has, Has, Has-map, any, any-true, ◌==◌, Bool-cases,
}
use nodejs_movy_data.Queue.Tables.{
  RunStatus, queued, cancelled, is_busy, is_queued, is_terminal, RunRow, RunSpec, Db, IsConsistent,
}
use nodejs_movy_data.Queue.Statements.{
  View, is_claimable, write_row, swap_in, renew, heartbeat, Settlement, settle_row, is_open,
  settle_claimed_run, cancel_row, cancel_queued_run, is_cancellable, take_run_spec,
}
use nodejs_movy_data.Queue.Sweep.{settle_expired, is_expired, sweep}
use nodejs_movy_data.Queue.Repository.{
  enqueue, request_cancel, mark_cancelling, is_cancel_target, collides, launch_row,
  mark_run_launched, finalise_row, finalise_run_if_unsettled,
}
use nodejs_movy_data.Queue.Exclusion.{ids_apart}
use nodejs_movy_data.Queue.Picked.{Picks, Picks-claimable}
use nodejs_movy_data.Queue.Claims.{claim_attempt-Picks}
use nodejs_movy_data.Queue.Steps.{
  Step, enqueues, claims, takes_spec, beats, settles, cancels_queued, requests_cancel, launches,
  finalises, sweeps, Reach, here, next, Step-IsConsistent, Reach-IsConsistent,
}

-- The same run with the same outcome.
abbrev pub IsSameOutcome : RunRow → RunRow → Type 0
IsSameOutcome r r' =
    (r'.id ≡ r.id)
    × (r'.status ≡ r.status)
    × (r'.finished_at ≡ r.finished_at)
    × (r'.error_name ≡ r.error_name)
    × (r'.error_message ≡ r.error_message)

abbrev pub Keeps : RunRow → List RunRow → Type 0
Keeps r rs = (r' : RunRow) × Has r' rs × IsSameOutcome r r'

Keeps-map :
    (g : RunRow → RunRow)
    → ((r : RunRow) → is_terminal r.status ≡ true → IsSameOutcome r (g r))
    → (r : RunRow) (rs : List RunRow) → is_terminal r.status ≡ true
    → Has r rs
    → Keeps r (map g rs)
Keeps-map g h r rs t m = (g r, Has-map g r rs m, h r t)

unchanged : (r : RunRow) → IsSameOutcome r r
unchanged r = (refl, refl, refl, refl, refl)

not-busy-terminal : (s : RunStatus) → is_terminal s ≡ true → is_busy s ≡ false
not-busy-terminal s h = ground arith

renew_keeps :
    (runner_id : String) (now lease_ms : ℕ) (r : RunRow)
    → is_terminal r.status ≡ true
    → IsSameOutcome r (renew runner_id now lease_ms r)
unfolding renew
renew_keeps runner_id now lease_ms r t = ground arith

settle_row_keeps :
    (run_id : ℕ) (o : Settlement) (now : ℕ) (r : RunRow)
    → is_terminal r.status ≡ true
    → IsSameOutcome r (settle_row run_id o now r)
unfolding settle_row is_open
settle_row_keeps run_id o now r t = ground arith

cancel_row_keeps :
    (org : String) (run_id : ℕ) (user : String) (now : ℕ) (r : RunRow)
    → is_terminal r.status ≡ true
    → IsSameOutcome r (cancel_row org run_id user now r)
unfolding cancel_row is_cancellable
cancel_row_keeps org run_id user now r t = ground arith

mark_cancelling_keeps :
    (org : String) (run_id : ℕ) (user : String) (now : ℕ) (r : RunRow)
    → is_terminal r.status ≡ true
    → IsSameOutcome r (mark_cancelling org run_id user now r)
unfolding mark_cancelling is_cancel_target
mark_cancelling_keeps org run_id user now r t = ground arith

launch_row_keeps :
    (run_id pid : ℕ) (path : String) (now : ℕ) (r : RunRow)
    → is_terminal r.status ≡ true
    → IsSameOutcome r (launch_row run_id pid path now r)
unfolding launch_row
launch_row_keeps run_id pid path now r t = ground arith

finalise_row_keeps :
    (run_id : ℕ) (outcome : RunStatus) (name message : Option String) (now : ℕ) (r : RunRow)
    → is_terminal r.status ≡ true
    → IsSameOutcome r (finalise_row run_id outcome name message now r)
unfolding finalise_row
finalise_row_keeps run_id outcome name message now r t = ground arith

settle_expired_keeps :
    (message : String) (now : ℕ) (r : RunRow)
    → is_terminal r.status ≡ true
    → IsSameOutcome r (settle_expired message now r)
unfolding settle_expired is_expired
settle_expired_keeps message now r t = ground arith

claimable_queued :
    (v : View) (cls : String) (q : RunRow) → is_claimable v cls q ≡ true → is_queued q.status ≡ true
unfolding is_claimable
claimable_queued v cls q h = ground arith

not-queued-terminal : (s : RunStatus) → is_terminal s ≡ true → ¬ (is_queued s ≡ true)
not-queued-terminal s h q = ground arith

-- A claim writes only to the row that it picked, which was queued.
Picks-Keeps :
    (v : View) (runner_id cls : String) (lease_ms : ℕ) (q : RunRow) (db : Db)
    → Picks v runner_id cls lease_ms q db
    → IsConsistent v.tables.runs
    → (r : RunRow) → is_terminal r.status ≡ true
    → Has r v.tables.runs
    → Keeps r db.runs
unfolding write_row
Picks-Keeps v runner_id cls lease_ms q db p c r t m =
    elim (All-Has _ r v.tables.runs (ids_apart p.row v.tables.runs c p.stored) m) [
      | inl e ↦
          absurd (
            not-queued-terminal r.status t
              (rw e (claimable_queued v cls p.row (Picks-claimable p))))
      | inr n ↦
          subst (λ d. Keeps r d.runs) (sym p.changed)
            (
              r,
              subst (λ x. Has x (map (swap_in p.row q) v.tables.runs)) (rw n)
                  (Has-map (swap_in p.row q) r v.tables.runs m),
              unchanged r,
            )
    ]

runs-enqueue :
    (org : String) (row : RunRow) (spec : RunSpec) (d e : Db)
    → enqueue org row spec d ≡ some e
    → e.runs ≡ record row { org_id = org; status = queued } ∷ d.runs
unfolding enqueue
runs-enqueue org row spec d e h = elim (Bool-cases (any (λ r. r.id == row.id) d.runs)) [
  | inl t ↦ cc (rw (t, enqueue) at h)
  | inr f ↦ sym (ap (λ x. x.runs) (some-injective _ e (rw (f, enqueue) at h)))
]

runs-request_cancel :
    (org : String) (run_id : ℕ) (user : String) (now : ℕ) (d e : Db) (hit : Bool)
    → request_cancel org run_id user now d ≡ some (e, hit)
    → e.runs ≡ map (mark_cancelling org run_id user now) d.runs
unfolding request_cancel
runs-request_cancel org run_id user now d e hit h =
    elim (Bool-cases (collides (is_cancel_target org run_id) d.runs)) [
      | inl t ↦ cc (rw (t, request_cancel) at h)
      | inr f ↦ sym (ap (λ x. x.0.runs) (some-injective _ (e, hit) (rw (f, request_cancel) at h)))
    ]

-- The statements, one by one.
pub Step-Keeps :
    {d e : Db} (s : Step d e) (r : RunRow)
    → IsConsistent d.runs
    → is_terminal r.status ≡ true
    → Has r d.runs
    → Keeps r e.runs
unfolding enqueue take_run_spec heartbeat settle_claimed_run cancel_queued_run request_cancel
    mark_run_launched finalise_run_if_unsettled sweep
Step-Keeps {d} {e} (enqueues org row spec h) r c t m =
    subst (Keeps r) (sym (runs-enqueue org row spec d e h)) (r, inr m, unchanged r)
Step-Keeps {d} {e} (claims v runner_id cls lease_ms q tables h) r c t m =
    Picks-Keeps v runner_id cls lease_ms q e (claim_attempt-Picks v runner_id cls lease_ms h)
      (subst (λ x. IsConsistent x.runs) (sym tables) c) r t
      (subst (λ x. Has r x.runs) (sym tables) m)
Step-Keeps (takes_spec run_id h) r c t m = subst (λ x. Keeps r x.runs) (sym h) (r, m, unchanged r)
Step-Keeps {d} (beats runner_id busy now lease_ms h) r c t m =
    subst (λ x. Keeps r x.runs) (sym h)
      (Keeps-map _ (renew_keeps runner_id now lease_ms) r d.runs t m)
Step-Keeps {d} (settles run_id o now _ h) r c t m =
    subst (λ x. Keeps r x.runs) (sym h) (Keeps-map _ (settle_row_keeps run_id o now) r d.runs t m)
Step-Keeps {d} (cancels_queued org run_id user now h) r c t m =
    subst (λ x. Keeps r x.runs) (sym h)
      (Keeps-map _ (cancel_row_keeps org run_id user now) r d.runs t m)
Step-Keeps {d} {e} (requests_cancel org run_id user now hit h) r c t m =
    subst (Keeps r) (sym (runs-request_cancel org run_id user now d e hit h))
      (Keeps-map _ (mark_cancelling_keeps org run_id user now) r d.runs t m)
Step-Keeps {d} (launches run_id pid path now h) r c t m =
    subst (λ x. Keeps r x.runs) (sym h)
      (Keeps-map _ (launch_row_keeps run_id pid path now) r d.runs t m)
Step-Keeps {d} (finalises run_id outcome name message now _ h) r c t m =
    subst (λ x. Keeps r x.runs) (sym h)
      (Keeps-map _ (finalise_row_keeps run_id outcome name message now) r d.runs t m)
Step-Keeps (sweeps false message offline_after_ms now h) r c t m =
    subst (λ x. Keeps r x.runs) (sym h) (r, m, unchanged r)
Step-Keeps {d} (sweeps true message offline_after_ms now h) r c t m =
    subst (λ x. Keeps r x.runs) (sym h)
      (Keeps-map _ (settle_expired_keeps message now) r d.runs t m)

-- From a table where no two rows have one id and no two busy rows one destination key, a run that has
-- settled keeps its status, its error and its finishing time through every history of enqueues, claims,
-- spec reads, heartbeats, settlements, cancellations, launches and sweeps; stored events are no part of
-- such a history.
pub outcome_final :
    {d e : Db} (r : RunRow)
    → Reach d e
    → IsConsistent d.runs
    → is_terminal r.status ≡ true
    → Has r d.runs
    → Keeps r e.runs
outcome_final r here c t m = (r, m, unchanged r)
outcome_final r (next before s) c t m =
    let (r', m', same) = outcome_final r before c t m in
    let (r'', m'', again) = Step-Keeps s r' (Reach-IsConsistent before c) (rw (same.1) t) m' in
    (r'', m'', joined r r' r'' same again)
  where
    joined : (r r' r'' : RunRow) → IsSameOutcome r r' → IsSameOutcome r' r'' → IsSameOutcome r r''
    joined r r' r'' a b = (b.0 ∙ a.0, b.1 ∙ a.1, b.2 ∙ a.2, b.3 ∙ a.3, b.4 ∙ a.4)

cancelled_row :
    (org : String) (run_id : ℕ) (user : String) (now : ℕ) (r : RunRow)
    → is_cancellable org run_id r ≡ true
    → ((cancel_row org run_id user now r).id ≡ run_id)
      × ((cancel_row org run_id user now r).status ≡ cancelled)
unfolding cancel_row is_cancellable
cancelled_row org run_id user now r h = ground arith

-- From a table where no two rows have one id and no two busy rows one destination key, a queued run
-- whose cancellation succeeded is cancelled for good: no history of enqueues, claims, spec reads,
-- heartbeats, settlements, cancellations, launches and sweeps gives it another status.
pub cancel_queued_final :
    (org : String) (run_id : ℕ) (user : String) (now : ℕ) (d : Db) {e : Db}
    → IsConsistent d.runs
    → (cancel_queued_run org run_id user now d).1 ≡ true
    → Reach (cancel_queued_run org run_id user now d).0 e
    → (r : RunRow) × Has r e.runs × (r.id ≡ run_id) × (r.status ≡ cancelled)
unfolding cancel_queued_run
cancel_queued_final org run_id user now d c hit later =
    let (q, m, t) = any-true _ d.runs hit in
    let (same_id, over) = cancelled_row org run_id user now q t in
    let after = Step-IsConsistent {d = d} (cancels_queued org run_id user now refl) c in
    let (r, m', same) =
      outcome_final (cancel_row org run_id user now q) later after (rw over refl)
        (Has-map (cancel_row org run_id user now) q d.runs m) in
    (r, m', same.0 ∙ same_id, same.1 ∙ over)
