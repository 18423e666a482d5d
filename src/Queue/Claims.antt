-- ===== src/Queue/Claims.antt =====
-- What `claimNextRun` takes: the oldest run that it may, and nothing only when there is none.
use nodejs_movy_data.Prelude.{
  All-Has, filter-Has, ℕ, zero, suc, ◌+◌, ◌<◌, ◌≡◌, refl, sym, ap, ◌∙◌, ◌≢◌, ◌⊎◌, inl, inr, Bool,
  true, false, not, ◌&&◌, String, none, List, [], ◌∷◌, arith, All, Has-filter, any-Has, any-true,
  ◌==◌, Bool-cases, Option-cases, filter,
}
use nodejs_movy_data.Queue.Tables.{is_busy, RunRow, Db, same_key, before}
use nodejs_movy_data.Queue.Picked.{
  oldest_lem, oldest-empty, Picks, claimable-Waits, not_before, taken_free,
}
use nodejs_movy_data.Queue.Statements.{
  View, Attempt, claimed, empty, unique_violation, refused, is_held, is_claimable, oldest,
  take_claim, is_taken, write_row, claim_attempt, taken, nobody, claim_loop, claim_next_run,
}

claimed_fields : {r s : RunRow} {d e : Db} → claimed r d ≡ claimed s e → (r ≡ s) × (d ≡ e)
claimed_fields h = ground arith

claimable_free :
    (v : View) (cls : String) (q : RunRow)
    → is_claimable v cls q ≡ true
    → is_held v.snapshot q.target_lock_key ≡ false
unfolding is_claimable
claimable_free v cls q h = ground arith

swap_and : (a b c : Bool) → (a && (b && c)) ≡ true → (c && b) ≡ true
swap_and a b c h = ground arith

taken_held :
    (q : RunRow) (rs : List RunRow) → is_taken q rs ≡ true → is_held rs q.target_lock_key ≡ true
unfolding is_taken is_held
taken_held q rs t =
    let (b, m, p) = any-true _ rs t in
    any-Has _ b rs m (
      swap_and (not (b.id == q.id)) (is_busy b.status)
        (same_key q.target_lock_key b.target_lock_key) p)

module _ (v : View) (runner_id cls : String) (lease_ms : ℕ) where
  pub claim_attempt-Picks :
      {r : RunRow} {db : Db}
      → claim_attempt v runner_id cls lease_ms ≡ claimed r db
      → Picks v runner_id cls lease_ms r db
  unfolding claim_attempt take_claim write_row
  claim_attempt-Picks {r} {db} h = elim (Option-cases v.fault) [
    | inr (e, f) ↦ cc (rw (f, claim_attempt) at h)
    | inl f ↦ elim (Option-cases (oldest (filter (is_claimable v cls) v.tables.runs))) [
      | inl n ↦ cc (rw (f, n, claim_attempt) at h)
      | inr (q, o) ↦ elim (Bool-cases (is_taken q v.tables.runs)) [
        | inl t ↦ cc (rw (f, o, t, claim_attempt) at h)
        | inr t ↦
            let (a, b) = claimed_fields {s = r} {e = db} (rw (f, o, t, claim_attempt) at h) in
            let (m, least) = oldest_lem (filter (is_claimable v cls) v.tables.runs) o in
            let (k, c) = Has-filter (is_claimable v cls) q v.tables.runs m in
            record {
              row = q;
              stored = k;
              fits = (claimable-Waits v cls q).0 c;
              first = λ x mx w. not_before x q (
                  All-Has (λ y. before y q ≡ false) x _ least
                    (filter-Has (is_claimable v cls) x v.tables.runs mx
                      ((claimable-Waits v cls x).1 w)));
              free = taken_free q v.tables.runs t;
              result = sym a;
              changed = sym b ∙ ap (λ x. write_row q x v.tables) a;
            }
      ]
    ]
  ]

  -- Unless another transaction commits between its snapshot and its write, an attempt is never refused by
  -- the unique index.
  pub claim_attempt_quiet :
      v.snapshot ≡ v.tables.runs → claim_attempt v runner_id cls lease_ms ≢ unique_violation
  unfolding claim_attempt
  claim_attempt_quiet same h = elim (Option-cases v.fault) [
    | inr (e, f) ↦ cc (rw (f, claim_attempt) at h)
    | inl f ↦ elim (Option-cases (oldest (filter (is_claimable v cls) v.tables.runs))) [
      | inl n ↦ cc (rw (f, n, claim_attempt) at h)
      | inr (q, o) ↦ elim (Bool-cases (is_taken q v.tables.runs)) [
        | inr t ↦ cc (rw (f, o, t, claim_attempt) at h)
        | inl t ↦
            let (m, least) = oldest_lem (filter (is_claimable v cls) v.tables.runs) o in
            let (k, c) = Has-filter (is_claimable v cls) q v.tables.runs m in
            cc (rw same at (claimable_free v cls q c), taken_held q v.tables.runs t)
      ]
    ]
  ]

taken_claimed : {r s : RunRow} {d e : Db} → taken r d ≡ taken s e → claimed r d ≡ claimed s e
taken_claimed h = ground arith

-- The loop claims what one of its attempts claims.
claim_loop-taken :
    (n k : ℕ) (views : ℕ → View) (runner_id cls : String) (lease_ms : ℕ) {r : RunRow} {db : Db}
    → claim_loop n k views runner_id cls lease_ms ≡ taken r db
    → (j : ℕ) × (j < k + n) × (claim_attempt (views j) runner_id cls lease_ms ≡ claimed r db)
unfolding claim_loop
claim_loop-taken zero k views runner_id cls lease_ms h = cc
claim_loop-taken (suc n) k views runner_id cls lease_ms {r} {db} h =
    go (claim_attempt (views k) runner_id cls lease_ms) refl
      (claim_loop-taken n (suc k) views runner_id cls lease_ms)
  where
    go :
        (a : Attempt)
        → claim_attempt (views k) runner_id cls lease_ms ≡ a
        → (claim_loop n (suc k) views runner_id cls lease_ms ≡ taken r db
            → (j : ℕ) × (j < suc k + n)
              × (claim_attempt (views j) runner_id cls lease_ms ≡ claimed r db))
        → (j : ℕ) × (j < k + suc n)
          × (claim_attempt (views j) runner_id cls lease_ms ≡ claimed r db)
    go (claimed q d) e rec = (k, omega arith, e ∙ taken_claimed (rw (e, claim_loop) at h))
    go empty e rec = cc (rw (e, claim_loop) at h)
    go unique_violation e rec = let (j, l, p) = rec (rw (e, claim_loop) at h) in (j, omega arith, p)
    go (refused m) e rec = cc (rw (e, claim_loop) at h)

-- The run that `claimNextRun` returns is the one that an attempt, of the five at most, picked: a queued
-- run of the runner's class that nobody had locked and whose destination no other running or cancelling
-- run held, in the attempt's snapshot or in the tables. Of all the runs that are queued, of the class,
-- unlocked and free in the snapshot it was created first (the smaller id of two). It is returned with
-- its status running, its runner this one and its lease counted from now; the table has it in place of
-- the queued row and is otherwise as that attempt found it.
pub claim_next_run-Picks :
    (views : ℕ → View) (runner_id cls : String) (lease_ms : ℕ) {r : RunRow} {db : Db}
    → claim_next_run views runner_id cls lease_ms ≡ taken r db
    → (j : ℕ) × (j < 5) × Picks (views j) runner_id cls lease_ms r db
unfolding claim_next_run
claim_next_run-Picks views runner_id cls lease_ms h =
    let (j, l, p) = claim_loop-taken 5 0 views runner_id cls lease_ms h in
    (j, omega arith, claim_attempt-Picks (views j) runner_id cls lease_ms p)

filter-empty : (p : RunRow → Bool) (xs : List RunRow) → filter p xs ≡ [] → All (λ x. p x ≡ false) xs
filter-empty p [] h = tt
filter-empty p (x ∷ xs) h = elim (Bool-cases (p x)) [
  | inl t ↦ cc (rw t at h)
  | inr f ↦ (f, filter-empty p xs (rw f at h))
]

abbrev pub Completes : (ℕ → View) → String → String → ℕ → Type 0
Completes views runner_id cls lease_ms =
    ((r : RunRow) × (db : Db) × (claim_next_run views runner_id cls lease_ms ≡ taken r db)
      × Picks (views 0) runner_id cls lease_ms r db)
    ⊎ ((claim_next_run views runner_id cls lease_ms ≡ nobody)
        × All (λ q. is_claimable (views 0) cls q ≡ false) (views 0).tables.runs)

claim_attempt-empty :
    (v : View) (runner_id cls : String) (lease_ms : ℕ)
    → claim_attempt v runner_id cls lease_ms ≡ empty
    → All (λ q. is_claimable v cls q ≡ false) v.tables.runs
unfolding claim_attempt
claim_attempt-empty v runner_id cls lease_ms h = elim (Option-cases v.fault) [
  | inr (e, f) ↦ cc (rw (f, claim_attempt) at h)
  | inl f ↦ elim (Option-cases (oldest (filter (is_claimable v cls) v.tables.runs))) [
    | inl n ↦ filter-empty (is_claimable v cls) v.tables.runs (oldest-empty _ n)
    | inr (q, o) ↦ elim (Bool-cases (is_taken q v.tables.runs)) [
      | inr t ↦ cc (rw (f, o, t, claim_attempt) at h)
      | inl t ↦ cc (rw (f, o, t, claim_attempt) at h)
    ]
  ]
]

claim_attempt-refused :
    (v : View) (runner_id cls : String) (lease_ms : ℕ)
    → v.fault ≡ none
    → (m : String) → claim_attempt v runner_id cls lease_ms ≢ refused m
unfolding claim_attempt
claim_attempt-refused v runner_id cls lease_ms f m h =
    elim (Option-cases (oldest (filter (is_claimable v cls) v.tables.runs))) [
      | inl n ↦ cc (rw (f, n, claim_attempt) at h)
      | inr (q, o) ↦ elim (Bool-cases (is_taken q v.tables.runs)) [
        | inr t ↦ cc (rw (f, o, t, claim_attempt) at h)
        | inl t ↦ cc (rw (f, o, t, claim_attempt) at h)
      ]
    ]

-- Where no other transaction interferes with the first attempt and the driver does not fail,
-- `claimNextRun` answers in one attempt, and answers nothing only if no run can be claimed.
pub claim_next_run_complete :
    (views : ℕ → View) (runner_id cls : String) (lease_ms : ℕ)
    → (views 0).fault ≡ none
    → (views 0).snapshot ≡ (views 0).tables.runs
    → Completes views runner_id cls lease_ms
unfolding claim_next_run claim_loop
claim_next_run_complete views runner_id cls lease_ms f same =
    go (claim_attempt (views 0) runner_id cls lease_ms) refl
  where
    go :
        (a : Attempt)
        → claim_attempt (views 0) runner_id cls lease_ms ≡ a
        → Completes views runner_id cls lease_ms
    go (claimed r db) e =
        inl (r, db, rw (e, claim_loop), claim_attempt-Picks (views 0) runner_id cls lease_ms e)
    go empty e = inr (rw (e, claim_loop), claim_attempt-empty (views 0) runner_id cls lease_ms e)
    go unique_violation e = absurd (claim_attempt_quiet (views 0) runner_id cls lease_ms same e)
    go (refused m) e = absurd (claim_attempt-refused (views 0) runner_id cls lease_ms f m e)
