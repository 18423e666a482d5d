-- ===== src/Queue/Leases.antt =====
-- Leases: what a heartbeat renews and reports, and what the sweeper settles.
use mathlib.Core.List.{Perm, perm_middle}
use mathlib.Core.List.Perm
use nodejs_movy_data.Prelude.{
  holds, ==_iff, ap, ◌++◌, ◌≢◌, ℕ, ◌+◌, ◌≤◌, ◌≡◌, refl, sym, ◌∙◌, subst, ◌⊎◌, inl, inr, ◌↔◌, Bool,
  true, false, not, String, some, List, [], ◌∷◌, map, arith, All, All-Has, Has, Has-map,
  Has-map_inv, Has-filter, filter-Has, ◌==◌, if◌then◌else◌, Bool-cases, filter,
}
use nodejs_movy_data.Queue.Tables.{
  running, cancelling, is_busy, cancelled, failed, is_cancelling, RunRow, RunSpec, Db, IsConsistent,
}
use nodejs_movy_data.Queue.Rows.{IsBusy, is_busy_iff, is_cancelling_iff, holds_iff, and_iff}
use nodejs_movy_data.Queue.Statements.{is_owned, renew, heartbeat, take_run_spec}
use nodejs_movy_data.Queue.Sweep.{is_expired, settle_expired, sweep}
use nodejs_movy_data.Queue.Exclusion.{ids_apart}

row_of_id :
    (q r : RunRow) (rs : List RunRow) → IsConsistent rs → Has q rs → Has r rs → r.id ≡ q.id → r ≡ q
row_of_id q r rs c mq mr e = elim (All-Has _ r rs (ids_apart q rs c mq) mr) [
  | inl same ↦ same
  | inr apart ↦ absurd (other r.id q.id e apart)
]
  where
    other : (a b : ℕ) → a ≡ b → ¬ ((a == b) ≡ false)
    other a b e h = ground arith

is_owned_iff :
    (runner_id : String) (r : RunRow)
    → (is_owned runner_id r ≡ true) ↔ ((r.runner_id ≡ some runner_id) × IsBusy r.status)
unfolding is_owned
is_owned_iff runner_id r = (
  λ h.
      let (a, b) = (and_iff (holds r.runner_id runner_id) (is_busy r.status)).0 h in
      ((holds_iff r.runner_id runner_id).0 a, (is_busy_iff r.status).0 b),
  λ (a, b). rw ((holds_iff r.runner_id runner_id).1 a, (is_busy_iff r.status).1 b) refl,
)

-- The id of a row is among some rows' only if the row is.
id_listed :
    (r : RunRow) (rs ys : List RunRow)
    → IsConsistent rs
    → Has r rs
    → ((q : RunRow) → Has q ys → Has q rs)
    → Has r.id (map (λ x. x.id) ys) ↔ Has r ys
id_listed r rs ys c m sub = (
  λ h.
      let (q, mq, e) = Has-map_inv (λ (x : RunRow). x.id) r.id ys h in
      subst (λ x. Has x ys) (sym (row_of_id q r rs c (sub q mq) m (sym e))) mq,
  λ h. Has-map (λ (x : RunRow). x.id) r ys h,
)

-- A heartbeat answers with exactly the runs of this runner that are still running or cancelling, so that
-- one that it executes and that is missing has been taken from it, and it asks to cancel exactly those
-- that are cancelling; in tables that the unique indexes allow.
pub heartbeat_held :
    (runner_id : String) (busy now lease_ms : ℕ) (d : Db) (r : RunRow)
    → IsConsistent d.runs
    → Has r d.runs
    → (Has r.id (heartbeat runner_id busy now lease_ms d).1.held
        ↔ ((r.runner_id ≡ some runner_id) × ((r.status ≡ running) ⊎ (r.status ≡ cancelling))))
      × (Has r.id (heartbeat runner_id busy now lease_ms d).1.cancels
          ↔ ((r.runner_id ≡ some runner_id) × (r.status ≡ cancelling)))
unfolding heartbeat
heartbeat_held runner_id busy now lease_ms d r c m =
    let mine = filter (is_owned runner_id) d.runs in
    let asked = filter (λ x. is_cancelling x.status) mine in
    let (a, b) = id_listed r d.runs mine c m (λ q h. (Has-filter (is_owned runner_id) q _ h).0) in
    let (a', b') = id_listed r d.runs asked c m (λ q h.
      (Has-filter (is_owned runner_id) q _
        (Has-filter (λ (x : RunRow). is_cancelling x.status) q mine h).0).0) in
    let own = is_owned_iff runner_id r in
    let cancels = is_cancelling_iff r.status in
    let own_row =
      λ (t : is_owned runner_id r ≡ true). filter-Has (is_owned runner_id) r d.runs m t in
    (
      (λ h. own.0 (Has-filter (is_owned runner_id) r d.runs (a h)).1, λ h. b (own_row (own.1 h))),
      (
        λ h.
            let (k, t) = Has-filter (λ (x : RunRow). is_cancelling x.status) r mine (a' h) in
            ((own.0 (Has-filter (is_owned runner_id) r d.runs k).1).0, cancels.0 t),
        λ (o, t). b' (
            filter-Has (λ (x : RunRow). is_cancelling x.status) r mine (own_row (own.1 (o, inr t)))
              (cancels.1 t)),
      ),
    )

spared :
    (runner_id message : String) (now lease_ms later : ℕ) (r : RunRow)
    → is_owned runner_id r ≡ true
    → later ≤ now + lease_ms
    → settle_expired message later (renew runner_id now lease_ms r) ≡ renew runner_id now lease_ms r
unfolding settle_expired renew is_expired
spared runner_id message now lease_ms later r t h = rw t (ground arith)

renew_owned :
    (runner_id : String) (now lease_ms : ℕ) (r : RunRow)
    → is_owned runner_id r ≡ true
    → renew runner_id now lease_ms r ≡ record r { lease_expires_at = some (now + lease_ms) }
unfolding renew
renew_owned runner_id now lease_ms r t = rw t refl

-- A run whose runner has just sent its heartbeat is safe from every sweep until the lease runs out:
-- the row is there after it, with only the lease moved.
pub heartbeat-sweep :
    (runner_id message : String) (busy now lease_ms offline_after_ms later : ℕ) (ok : Bool) (d : Db)
    (r : RunRow)
    → Has r d.runs
    → is_owned runner_id r ≡ true
    → later ≤ now + lease_ms
    → Has
        (record r { lease_expires_at = some (now + lease_ms) })
        (sweep ok message offline_after_ms later (heartbeat runner_id busy now lease_ms d).0).0.runs
unfolding heartbeat sweep
heartbeat-sweep runner_id message busy now lease_ms offline_after_ms later false d r m t h =
    subst (λ x. Has x (map (renew runner_id now lease_ms) d.runs))
      (renew_owned runner_id now lease_ms r t) (Has-map _ r d.runs m)
heartbeat-sweep runner_id message busy now lease_ms offline_after_ms later true d r m t h =
    subst
      (λ x. Has x (map (settle_expired message later) (map (renew runner_id now lease_ms) d.runs)))
      (spared runner_id message now lease_ms later r t h ∙ renew_owned runner_id now lease_ms r t)
      (Has-map (settle_expired message later) _ _
        (Has-map (renew runner_id now lease_ms) r d.runs m))

-- What the sweeper makes of one run.
abbrev pub Swept : String → ℕ → RunRow → List RunRow → List ℕ → Type 0
Swept message now r rows settled =
    ((is_expired now r ≡ true)
      × Has r.id settled
      × ((r' : RunRow) × Has r' rows
          × (r'.id ≡ r.id)
          × (r'.status ≡ (if is_cancelling r.status then cancelled else failed))
          × (r'.error_name ≡ some "RunnerVanished")))
    ⊎ ((is_expired now r ≡ false) × Has r rows)

-- The specs of a run and the others are all the specs.
halves :
    (p : RunSpec → Bool) (ss : List RunSpec) → Perm (filter p ss ++ filter (λ s. not (p s)) ss) ss
halves p [] = Perm.refl []
halves p (s ∷ ss) = elim (Bool-cases (p s)) [
  | inl t ↦ rw t (Perm.cons s (halves p ss))
  | inr f ↦ rw f (Perm.trans (perm_middle (filter p ss) _) (Perm.cons s (halves p ss)))
]

All-filter :
    (p : RunSpec → Bool) (Q : RunSpec → Type 0)
    → ((s : RunSpec) → p s ≡ true → Q s)
    → (ss : List RunSpec) → All Q (filter p ss)
All-filter p Q f [] = tt
All-filter p Q f (s ∷ ss) = elim (Bool-cases (p s)) [
  | inl t ↦ rw t (f s t, All-filter p Q f ss)
  | inr n ↦ rw n (All-filter p Q f ss)
]

unequal : (a b : ℕ) → not (a == b) ≡ true → a ≢ b
unequal a b h e = ground arith

kept_out :
    (run_id : ℕ) (ss : List RunSpec)
    → All (λ s. s.run_id ≢ run_id) ss
    → (filter (λ s. s.run_id == run_id) ss ≡ []) × (filter (λ s. not (s.run_id == run_id)) ss ≡ ss)
kept_out run_id [] h = (refl, refl)
kept_out run_id (s ∷ ss) (n, h) = elim (Bool-cases (s.run_id == run_id)) [
  | inl t ↦ absurd (n ((==_iff s.run_id run_id).0 t))
  | inr f ↦ rw f ((kept_out run_id ss h).0, ap (◌∷◌ s) (kept_out run_id ss h).1)
]

-- Reading a run's sealed spec gives exactly the specs of that run, takes those and no others out of the
-- table, and touches no other table; and a second read finds nothing and changes nothing.
pub take_run_spec_once :
    (run_id : ℕ) (d : Db)
    → All (λ s. s.run_id ≡ run_id) (take_run_spec run_id d).1
      × All (λ s. s.run_id ≢ run_id) (take_run_spec run_id d).0.specs
      × Perm ((take_run_spec run_id d).1 ++ (take_run_spec run_id d).0.specs) d.specs
      × ((take_run_spec run_id d).0 ≡ record d { specs = (take_run_spec run_id d).0.specs })
      × (take_run_spec run_id (take_run_spec run_id d).0 ≡ ((take_run_spec run_id d).0, []))
unfolding take_run_spec
take_run_spec_once run_id d =
    let others =
      All-filter (λ s. not (s.run_id == run_id)) (λ s. s.run_id ≢ run_id)
        (λ s t. unequal s.run_id run_id t) d.specs in
    let (nothing, rest) = kept_out run_id _ others in
    (
      All-filter (λ s. s.run_id == run_id) (λ s. s.run_id ≡ run_id)
          (λ s. (==_iff s.run_id run_id).0) d.specs,
      others,
      halves (λ s. s.run_id == run_id) d.specs,
      refl,
      rw (take_run_spec, nothing, rest) refl,
    )
