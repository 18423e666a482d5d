-- ===== src/Queue/Picked.antt =====
-- What `claimNextRun` picks, said of the rows themselves, and that the statement's tests say the same.
use mathlib.Core.Option.{some-injective}
use nodejs_movy_data.Prelude.{
  eq_iff, any, map, or_else, ◌↔◌, ◌≤◌, ℕ, ◌+◌, ◌<◌, ◌≡◌, refl, sym, subst, ◌≢◌, ◌⊎◌, inl, inr, Bool,
  true, false, not, ◌&&◌, String, none, some, List, [], ◌∷◌, arith, All, Has, any-Has, any-true,
  ◌==◌, if◌then◌else◌, Bool-cases, Option-cases,
}
use nodejs_movy_data.Queue.Tables.{
  queued, running, is_busy, cancelling, RunRow, Db, same_key, before,
}
use nodejs_movy_data.Queue.Rows.{IsBusy, is_busy_iff, is_queued_iff, same_key_iff, and_iff}
use nodejs_movy_data.Queue.Statements.{View, is_held, is_claimable, oldest, is_taken}

before_total : (r s : RunRow) → before r s ≡ true → before s r ≡ false
before_total r s h = ground arith

before_irrefl : (r : RunRow) → before r r ≡ false
before_irrefl r = ground arith

-- `x` is not before `s`, and `s` is not before `r`.
chain : (x r s : RunRow) → before x s ≡ false → before s r ≡ false → before x r ≡ false
chain x r s a b = ground arith

All-chain :
    (r s : RunRow) (xs : List RunRow)
    → before s r ≡ false
    → All (λ x. before x s ≡ false) xs
    → All (λ x. before x r ≡ false) xs
All-chain r s [] b h = tt
All-chain r s (x ∷ xs) b h = (chain x r s h.0 b, All-chain r s xs b h.1)

pub oldest-empty : (xs : List RunRow) → oldest xs ≡ none → xs ≡ []
unfolding oldest
oldest-empty [] h = refl
oldest-empty (x ∷ xs) h = elim (Option-cases (oldest xs)) [
  | inl e ↦ cc (rw (e, oldest) at h)
  | inr (s, e) ↦ cc (rw (e, oldest) at h)
]

abbrev pub IsOldest : List RunRow → RunRow → Type 0
IsOldest xs m = Has m xs × All (λ x. before x m ≡ false) xs

keep :
    (r s : RunRow) (rs : List RunRow)
    → IsOldest rs s
    → IsOldest (r ∷ rs) (if before s r then s else r)
keep r s rs (m, a) = elim (Bool-cases (before s r)) [
  | inl t ↦
      subst (λ b. IsOldest (r ∷ rs) (if b then s else r)) (sym t) (inr m, (before_total s r t, a))
  | inr f ↦
      subst (λ b. IsOldest (r ∷ rs) (if b then s else r)) (sym f)
        (inl refl, (before_irrefl r, All-chain r s rs f a))
]

-- `oldest` is in the list, and nothing in the list is before it.
pub oldest_lem : (xs : List RunRow) {m : RunRow} → oldest xs ≡ some m → IsOldest xs m
unfolding oldest
oldest_lem [] h = cc
oldest_lem (r ∷ rs) {m} h = elim (Option-cases (oldest rs)) [
  | inl e ↦
      subst (IsOldest (r ∷ rs)) (some-injective _ _ (rw (e, oldest) at h))
        (inl refl, (before_irrefl r, rw (oldest-empty rs e) tt))
  | inr (s, e) ↦
      subst (IsOldest (r ∷ rs)) (some-injective _ _ (rw (e, oldest) at h))
        (keep r s rs (oldest_lem rs e))
]

-- No busy run among the rows is for the row's destination; a row without a key is for none.
abbrev pub IsFree : RunRow → List RunRow → Type 0
IsFree q rs =
    (b : RunRow) (k : String)
    → Has b rs
    → (b.status ≡ running) ⊎ (b.status ≡ cancelling)
    → q.target_lock_key ≡ some k
    → b.target_lock_key ≢ some k

-- A run that a runner of the class may take.
pub record Waits (v : View) (cls : String) (q : RunRow) : Type 0 where
  pub waiting : q.status ≡ queued
  pub of_class : q.runner_class ≡ cls
  pub unheld : IsFree q v.snapshot
  pub unlocked : v.is_locked q.id ≡ false

-- What an attempt that claims has taken.
pub record Picks (v : View) (runner_id cls : String) (lease_ms : ℕ) (r : RunRow) (db : Db)
    : Type 0 where
  pub row : RunRow
  pub stored : Has row v.tables.runs
  pub fits : Waits v cls row
  pub first :
      (x : RunRow)
      → Has x v.tables.runs
      → Waits v cls x
      → (row.created_at < x.created_at) ⊎ ((row.created_at ≡ x.created_at) × (row.id ≤ x.id))
  pub free :
      (b : RunRow) (k : String)
      → Has b v.tables.runs
      → b.id ≢ row.id
      → (b.status ≡ running) ⊎ (b.status ≡ cancelling)
      → row.target_lock_key ≡ some k
      → b.target_lock_key ≢ some k
  pub result : r ≡ record row {
    status = running;
    runner_id = some runner_id;
    claimed_at = some v.now;
    started_at = or_else row.started_at (some v.now);
    updated_at = v.now;
    lease_expires_at = some (v.now + lease_ms);
  }
  pub changed :
      db ≡ record v.tables { runs = map (λ x. if x.id == row.id then r else x) v.tables.runs }

is_held-IsFree :
    (q : RunRow) (rs : List RunRow) → (is_held rs q.target_lock_key ≡ false) ↔ IsFree q rs
unfolding is_held
is_held-IsFree q rs = (forth, back)
  where
    busy_under : RunRow → Bool
    busy_under b = same_key q.target_lock_key b.target_lock_key && is_busy b.status

    forth : any busy_under rs ≡ false → IsFree q rs
    forth h b k m s e f = cc (
      h,
      any-Has busy_under b rs m (
          rw
            (
              (same_key_iff q.target_lock_key b.target_lock_key).1 (k, e, f),
              (is_busy_iff b.status).1 s,
            )
            refl),
    )

    back : IsFree q rs → any busy_under rs ≡ false
    back f = elim (Bool-cases (any busy_under rs)) [
      | inr n ↦ n
      | inl t ↦
          let (b, m, p) = any-true busy_under rs t in
          let (x, y) = (and_iff _ (is_busy b.status)).0 p in
          let (k, e, g) = (same_key_iff q.target_lock_key b.target_lock_key).0 x in
          absurd (f b k m ((is_busy_iff b.status).0 y) e g)
    ]

pub claimable-Waits :
    (v : View) (cls : String) (q : RunRow) → (is_claimable v cls q ≡ true) ↔ Waits v cls q
unfolding is_claimable
claimable-Waits v cls q = (
  λ h.
      let (a, b, c, d) = parts _ _ _ _ h in
      record {
        waiting = (is_queued_iff q.status).0 a;
        of_class = (eq_iff q.runner_class cls).0 b;
        unheld = (is_held-IsFree q v.snapshot).0 c;
        unlocked = d;
      },
  λ w.
      rw
        (
          (is_queued_iff q.status).1 w.waiting,
          (eq_iff q.runner_class cls).1 w.of_class,
          (is_held-IsFree q v.snapshot).1 w.unheld,
          w.unlocked,
        )
        refl,
)
  where
    parts :
        (a b c d : Bool)
        → (a && (b && (not c && not d))) ≡ true
        → (a ≡ true) × (b ≡ true) × (c ≡ false) × (d ≡ false)
    parts a b c d h = ground arith

pub not_before :
    (x r : RunRow)
    → before x r ≡ false
    → (r.created_at < x.created_at) ⊎ ((r.created_at ≡ x.created_at) × (r.id ≤ x.id))
not_before x r h = ground arith

pub taken_free :
    (q : RunRow) (rs : List RunRow)
    → is_taken q rs ≡ false
    → (b : RunRow) (k : String) → Has b rs
    → b.id ≢ q.id
    → IsBusy b.status
    → q.target_lock_key ≡ some k
    → b.target_lock_key ≢ some k
unfolding is_taken
taken_free q rs h b k m n s e f = cc (
  h,
  any-Has
      (λ (x : RunRow).
        not (x.id == q.id) && (is_busy x.status && same_key q.target_lock_key x.target_lock_key))
      b rs m
      (rw
        (
          unequal b.id q.id n,
          (is_busy_iff b.status).1 s,
          (same_key_iff q.target_lock_key b.target_lock_key).1 (k, e, f),
        )
        refl),
)
  where
    unequal : (i j : ℕ) → i ≢ j → (i == j) ≡ false
    unequal i j d = ground arith

-- Two things that the code tests of the row that it picks.
module _ {v : View} {runner_id cls : String} {lease_ms : ℕ} {r : RunRow} {db : Db} where
  pub Picks-claimable : (p : Picks v runner_id cls lease_ms r db) → is_claimable v cls p.row ≡ true
  Picks-claimable p = (claimable-Waits v cls p.row).1 p.fits

  pub Picks-free : (p : Picks v runner_id cls lease_ms r db) → is_taken p.row v.tables.runs ≡ false
  unfolding is_taken
  Picks-free p = elim (Bool-cases (is_taken p.row v.tables.runs)) [
    | inr n ↦ n
    | inl t ↦
        let (b, m, h) = any-true _ v.tables.runs t in
        let (x, y) = (and_iff _ _).0 h in
        let (s, z) = (and_iff (is_busy b.status) _).0 y in
        let (k, e, f) = (same_key_iff p.row.target_lock_key b.target_lock_key).0 z in
        absurd (p.free b k m (unequal b.id p.row.id x) ((is_busy_iff b.status).0 s) e f)
  ]
    where
      unequal : (i j : ℕ) → not (i == j) ≡ true → i ≢ j
      unequal i j h e = ground arith
