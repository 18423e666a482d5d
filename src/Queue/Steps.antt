-- ===== src/Queue/Steps.antt =====
-- The queue as a transition system: every statement that writes `runs`, by any agent, console or
-- sweeper, in any order.
use mathlib.Core.Option.{some-injective}
use nodejs_movy_data.Prelude.{
  ℕ, ◌≡◌, refl, sym, ◌∙◌, subst, inl, inr, Bool, true, false, not, ◌&&◌, ◌||◌, String, Option, some,
  List, [], ◌∷◌, map, arith, All, All-Has, Has, any, any-false, ◌==◌, Bool-cases,
}
use nodejs_movy_data.Queue.Tables.{
  RunStatus, queued, running, cancelling, succeeded, failed, cancelled, is_busy, is_terminal,
  RunRow, RunSpec, Db, IsConsistent, clash, same_key,
}
use nodejs_movy_data.Queue.Statements.{
  View, claimed, claim_attempt, take_claim, write_row, renew, heartbeat, Settlement, settle_row,
  settle_claimed_run, cancel_row, cancel_queued_run, take_run_spec,
}
use nodejs_movy_data.Queue.Sweep.{settle_expired, is_expired, sweep}
use nodejs_movy_data.Queue.Repository.{
  enqueue, is_cancel_target, mark_cancelling, collides, request_cancel, launch_row,
  mark_run_launched, finalise_row, finalise_run_if_unsettled,
}
use nodejs_movy_data.Queue.Exclusion.{
  IsTame, map-IsConsistent, swap_in-IsConsistent, IsApart-of_free, clash-same, same_key_comm,
  clash_ids,
}
use nodejs_movy_data.Queue.Picked.{Picks, Picks-free}
use nodejs_movy_data.Queue.Claims.{claim_attempt-Picks}

-- A write against the tables `d` that leaves `e`. What a batch of a run's events writes to its row
-- (`applyProjection`) is not among these.
pub data Step (d e : Db) : Type 0 where
  enqueues :
      (org : String) (row : RunRow) (spec : RunSpec) → enqueue org row spec d ≡ some e → Step d e
  claims :
      (v : View) (runner_id cls : String) (lease_ms : ℕ) (r : RunRow)
      → v.tables ≡ d
      → claim_attempt v runner_id cls lease_ms ≡ claimed r e
      → Step d e
  takes_spec : (run_id : ℕ) → e ≡ (take_run_spec run_id d).0 → Step d e
  beats :
      (runner_id : String) (busy now lease_ms : ℕ)
      → e ≡ (heartbeat runner_id busy now lease_ms d).0
      → Step d e
  settles :
      (run_id : ℕ) (o : Settlement) (now : ℕ)
      → is_terminal o.outcome ≡ true
      → e ≡ (settle_claimed_run run_id o now d).0
      → Step d e
  cancels_queued :
      (org : String) (run_id : ℕ) (user : String) (now : ℕ)
      → e ≡ (cancel_queued_run org run_id user now d).0
      → Step d e
  requests_cancel :
      (org : String) (run_id : ℕ) (user : String) (now : ℕ) (hit : Bool)
      → request_cancel org run_id user now d ≡ some (e, hit)
      → Step d e
  launches :
      (run_id pid : ℕ) (path : String) (now : ℕ)
      → e ≡ mark_run_launched run_id pid path now d
      → Step d e
  finalises :
      (run_id : ℕ) (outcome : RunStatus) (name message : Option String) (now : ℕ)
      → is_terminal outcome ≡ true
      → e ≡ (finalise_run_if_unsettled run_id outcome name message now d).0
      → Step d e
  sweeps :
      (ok : Bool) (message : String) (offline_after_ms now : ℕ)
      → e ≡ (sweep ok message offline_after_ms now d).0
      → Step d e

pub data Reach (d : Db) : Db → Type 0 where
  here : Reach d d
  next : {e f : Db} → Reach d e → Step e f → Reach d f

terminal-not-busy : (s : RunStatus) → is_terminal s ≡ true → is_busy s ≡ false
terminal-not-busy queued h = cc
terminal-not-busy running h = cc
terminal-not-busy cancelling h = cc
terminal-not-busy succeeded h = refl
terminal-not-busy failed h = refl
terminal-not-busy cancelled h = refl

renew-IsTame : (runner_id : String) (now lease_ms : ℕ) → IsTame (renew runner_id now lease_ms)
unfolding renew
renew-IsTame runner_id now lease_ms r = ground arith

settle_row-IsTame :
    (run_id : ℕ) (o : Settlement) (now : ℕ)
    → is_terminal o.outcome ≡ true
    → IsTame (settle_row run_id o now)
unfolding settle_row
settle_row-IsTame run_id o now t r = ground (arith, terminal-not-busy o.outcome t)

cancel_row-IsTame :
    (org : String) (run_id : ℕ) (user : String) (now : ℕ) → IsTame (cancel_row org run_id user now)
unfolding cancel_row
cancel_row-IsTame org run_id user now r = ground arith

launch_row-IsTame :
    (run_id pid : ℕ) (path : String) (now : ℕ) → IsTame (launch_row run_id pid path now)
unfolding launch_row
launch_row-IsTame run_id pid path now r = ground arith

finalise_row-IsTame :
    (run_id : ℕ) (outcome : RunStatus) (name message : Option String) (now : ℕ)
    → is_terminal outcome ≡ true
    → IsTame (finalise_row run_id outcome name message now)
unfolding finalise_row
finalise_row-IsTame run_id outcome name message now t r =
    ground (arith, terminal-not-busy outcome t)

settle_expired-IsTame : (message : String) (now : ℕ) → IsTame (settle_expired message now)
unfolding settle_expired is_expired
settle_expired-IsTame message now r = ground arith

-- Rows that the index allows `requestCancel` to change.
abbrev IsFree : (RunRow → Bool) → RunRow → RunRow → Type 0
IsFree hit r b =
    hit r ≡ true
    → (not (b.id == r.id) && (is_busy b.status && same_key r.target_lock_key b.target_lock_key))
      ≡ false

IsFree-of_not-collides :
    (hit : RunRow → Bool) (rs : List RunRow)
    → collides hit rs ≡ false
    → (r b : RunRow) → Has r rs
    → Has b rs
    → IsFree hit r b
unfolding collides
IsFree-of_not-collides hit rs c r b mr mb h =
    let p =
      All-Has
        (λ x.
          (hit x
            && any
                (λ b.
                  not (b.id == x.id)
                  && (is_busy b.status && same_key x.target_lock_key b.target_lock_key))
                rs)
          ≡ false)
        r rs (any-false _ rs c) mr in
    All-Has
      (λ b.
        (not (b.id == r.id) && (is_busy b.status && same_key r.target_lock_key b.target_lock_key))
        ≡ false)
      b rs (any-false _ rs (rw h at p)) mb

free_pair :
    (i p k : Bool) → (not i && (p && k)) ≡ false → i ≡ false → (i || (p && (true && k))) ≡ false
free_pair i p k f e = ground arith

cancel_target_id :
    (org : String) (run_id : ℕ) (r : RunRow) → is_cancel_target org run_id r ≡ true → r.id ≡ run_id
unfolding is_cancel_target
cancel_target_id org run_id r h = ground arith

marked_left :
    (r s : RunRow)
    → (not (s.id == r.id) && (is_busy s.status && same_key r.target_lock_key s.target_lock_key))
      ≡ false
    → clash r s ≡ false
    → (r.id == s.id || (true && (is_busy s.status && same_key r.target_lock_key s.target_lock_key)))
      ≡ false
marked_left r s f h = ground arith

marked_right :
    (r s : RunRow)
    → same_key r.target_lock_key s.target_lock_key ≡ same_key s.target_lock_key r.target_lock_key
    → (not (r.id == s.id) && (is_busy r.status && same_key s.target_lock_key r.target_lock_key))
      ≡ false
    → clash r s ≡ false
    → (r.id == s.id || (is_busy r.status && (true && same_key r.target_lock_key s.target_lock_key)))
      ≡ false
marked_right r s c f h = rw c (free_pair (r.id == s.id) (is_busy r.status) _ f (clash_ids r s h))

mark-clash :
    (org : String) (run_id : ℕ) (user : String) (now : ℕ) (r s : RunRow)
    → IsFree (is_cancel_target org run_id) r s
    → IsFree (is_cancel_target org run_id) s r
    → clash r s ≡ false
    → clash (mark_cancelling org run_id user now r) (mark_cancelling org run_id user now s) ≡ false
unfolding mark_cancelling
mark-clash org run_id user now r s f g h = elim (Bool-cases (is_cancel_target org run_id r)) [
  | inl hr ↦ elim (Bool-cases (is_cancel_target org run_id s)) [
    | inl hs ↦ absurd (
        clash-same r s (cancel_target_id org run_id r hr ∙ sym (cancel_target_id org run_id s hs))
          h)
    | inr hs ↦ rw (hr, hs) (marked_left r s (f hr) h)
  ]
  | inr hr ↦ elim (Bool-cases (is_cancel_target org run_id s)) [
    | inl hs ↦
        rw (hr, hs) (marked_right r s (same_key_comm r.target_lock_key s.target_lock_key) (g hs) h)
    | inr hs ↦ rw (hr, hs) h
  ]
]

mark-IsConsistent :
    (org : String) (run_id : ℕ) (user : String) (now : ℕ) (rs : List RunRow)
    → ((r b : RunRow) → Has r rs → Has b rs → IsFree (is_cancel_target org run_id) r b)
    → IsConsistent rs
    → IsConsistent (map (mark_cancelling org run_id user now) rs)
mark-IsConsistent org run_id user now [] f h = tt
mark-IsConsistent org run_id user now (r ∷ rs) f (h, hs) = (
  go rs (λ x m. inr m) h,
  mark-IsConsistent org run_id user now rs (λ a b ma mb. f a b (inr ma) (inr mb)) hs,
)
  where
    go :
        (ss : List RunRow)
        → ((x : RunRow) → Has x ss → Has x (r ∷ rs))
        → All (λ s. clash r s ≡ false) ss
        → All
            (λ s. clash (mark_cancelling org run_id user now r) s ≡ false)
            (map (mark_cancelling org run_id user now) ss)
    go [] sub k = tt
    go (s ∷ ss) sub (k, ks) = (
      mark-clash org run_id user now r s (f r s (inl refl) (sub s (inl refl)))
          (f s r (sub s (inl refl)) (inl refl)) k,
      go ss (λ x m. sub x (inr m)) ks,
    )

fresh-clash :
    (org : String) (row : RunRow) (rs : List RunRow)
    → All (λ r. (r.id == row.id) ≡ false) rs
    → All (λ s. clash (record row { org_id = org; status = queued }) s ≡ false) rs
fresh-clash org row [] h = tt
fresh-clash org row (s ∷ rs) h = (ground (arith, h.0), fresh-clash org row rs h.1)

take_claim_fields :
    (runner_id : String) (now lease_ms : ℕ) (r : RunRow)
    → ((take_claim runner_id now lease_ms r).id ≡ r.id)
      × ((take_claim runner_id now lease_ms r).target_lock_key ≡ r.target_lock_key)
unfolding take_claim
take_claim_fields runner_id now lease_ms r = (refl, refl)

Picks-IsConsistent :
    (v : View) (runner_id cls : String) (lease_ms : ℕ) (r : RunRow) (db : Db)
    → Picks v runner_id cls lease_ms r db
    → IsConsistent v.tables.runs
    → IsConsistent db.runs
unfolding write_row take_claim
Picks-IsConsistent v runner_id cls lease_ms r db p h =
    let q' = take_claim runner_id v.now lease_ms p.row in
    let (a, b) = take_claim_fields runner_id v.now lease_ms p.row in
    subst (λ d. IsConsistent d.runs) (sym p.changed)
      (subst (λ x. IsConsistent (write_row p.row x v.tables).runs) (sym p.result)
        (swap_in-IsConsistent p.row q' a b v.tables.runs
          (IsApart-of_free p.row v.tables.runs h p.stored (Picks-free p)) h))

IsConsistent-enqueue :
    (org : String) (row : RunRow) (spec : RunSpec) (d e : Db)
    → enqueue org row spec d ≡ some e
    → IsConsistent d.runs
    → IsConsistent e.runs
unfolding enqueue
IsConsistent-enqueue org row spec d e h c = elim (Bool-cases (any (λ r. r.id == row.id) d.runs)) [
  | inl t ↦ cc (rw (t, enqueue) at h)
  | inr f ↦
      subst (λ x. IsConsistent x.runs) (some-injective _ e (rw (f, enqueue) at h))
        (fresh-clash org row d.runs (any-false _ d.runs f), c)
]

IsConsistent-request_cancel :
    (org : String) (run_id : ℕ) (user : String) (now : ℕ) (d e : Db) (hit : Bool)
    → request_cancel org run_id user now d ≡ some (e, hit)
    → IsConsistent d.runs
    → IsConsistent e.runs
unfolding request_cancel
IsConsistent-request_cancel org run_id user now d e hit h c =
    elim (Bool-cases (collides (is_cancel_target org run_id) d.runs)) [
      | inl t ↦ cc (rw (t, request_cancel) at h)
      | inr f ↦
          subst (λ x. IsConsistent x.0.runs)
            (some-injective _ (e, hit) (rw (f, request_cancel) at h))
            (mark-IsConsistent org run_id user now d.runs
              (IsFree-of_not-collides (is_cancel_target org run_id) d.runs f) c)
    ]

-- No statement, whoever runs it and whatever it races with, gives two rows one id or lets two running or
-- cancelling runs write to one destination.
pub Step-IsConsistent : {d e : Db} → Step d e → IsConsistent d.runs → IsConsistent e.runs
unfolding take_run_spec heartbeat settle_claimed_run cancel_queued_run mark_run_launched
    finalise_run_if_unsettled sweep
Step-IsConsistent {d} {e} (enqueues org row spec h) c = IsConsistent-enqueue org row spec d e h c
Step-IsConsistent {d} {e} (claims v runner_id cls lease_ms r t h) c =
    Picks-IsConsistent v runner_id cls lease_ms r e (claim_attempt-Picks v runner_id cls lease_ms h)
      (subst (λ x. IsConsistent x.runs) (sym t) c)
Step-IsConsistent (takes_spec run_id h) c = subst (λ x. IsConsistent x.runs) (sym h) c
Step-IsConsistent {d} (beats runner_id busy now lease_ms h) c =
    subst (λ x. IsConsistent x.runs) (sym h)
      (map-IsConsistent _ (renew-IsTame runner_id now lease_ms) d.runs c)
Step-IsConsistent {d} (settles run_id o now t h) c =
    subst (λ x. IsConsistent x.runs) (sym h)
      (map-IsConsistent _ (settle_row-IsTame run_id o now t) d.runs c)
Step-IsConsistent {d} (cancels_queued org run_id user now h) c =
    subst (λ x. IsConsistent x.runs) (sym h)
      (map-IsConsistent _ (cancel_row-IsTame org run_id user now) d.runs c)
Step-IsConsistent {d} {e} (requests_cancel org run_id user now hit h) c =
    IsConsistent-request_cancel org run_id user now d e hit h c
Step-IsConsistent {d} (launches run_id pid path now h) c =
    subst (λ x. IsConsistent x.runs) (sym h)
      (map-IsConsistent _ (launch_row-IsTame run_id pid path now) d.runs c)
Step-IsConsistent {d} (finalises run_id outcome name message now t h) c =
    subst (λ x. IsConsistent x.runs) (sym h)
      (map-IsConsistent _ (finalise_row-IsTame run_id outcome name message now t) d.runs c)
Step-IsConsistent (sweeps false message offline_after_ms now h) c =
    subst (λ x. IsConsistent x.runs) (sym h) c
Step-IsConsistent {d} (sweeps true message offline_after_ms now h) c =
    subst (λ x. IsConsistent x.runs) (sym h)
      (map-IsConsistent _ (settle_expired-IsTame message now) d.runs c)

-- Where no two rows have one id and no two busy rows one destination key, no history of enqueues,
-- claims, spec reads, heartbeats, settlements, cancellations, launches and sweeps, in any order and
-- whatever snapshot and locks each claim meets, reaches a table where they do.
pub Reach-IsConsistent : {d e : Db} → Reach d e → IsConsistent d.runs → IsConsistent e.runs
Reach-IsConsistent here c = c
Reach-IsConsistent (next r s) c = Step-IsConsistent s (Reach-IsConsistent r c)
