-- ===== src/Migrate/Levels.antt =====
-- The loop of the planner: what a visit does to the degrees, the queue and the candidates.
use nodejs_movy_data.Prelude.{
  ℕ, ◌+◌, ◌-◌, ◌≤◌, String, Bool, true, false, not, ◌&&◌, ◌||◌, some, List, ◌∷◌, str_eq, eq_iff,
  ◌==◌, if◌then◌else◌, ◌≡◌, refl, arith, Bool-cases, inl, inr, lookup, lookup-insert, get_or,
}
use nodejs_movy_data.Migrate.Planner.{has, Graph, Walk, related, degree, visit_child}
use nodejs_movy_data.Migrate.Counting.{count, count-add, has-add, missing}

abbrev pub ind : Bool → ℕ
ind b = if b then 1 else 0

-- The test of `visit_child`.
abbrev pub is_freed : Walk → String → Bool
is_freed w child = degree child w == 1 && (not (has child w.visited) && not (has child w.queued))

pub visit_child-visited : (w : Walk) (child : String) → (visit_child w child).visited ≡ w.visited
unfolding visit_child
visit_child-visited w child = elim (Bool-cases (is_freed w child)) [
  | inl t ↦ rw t refl
  | inr f ↦ rw f refl
]

visit_child-degree :
    (w : Walk) (child c : String)
    → degree c (visit_child w child) ≡ (if str_eq child c then degree child w - 1 else degree c w)
unfolding visit_child
visit_child-degree w child c =
    let new = lookup-insert child c (degree child w - 1) w.indegree in
    elim (Bool-cases (is_freed w child)) [
      | inl t ↦ rw (t, new) (given (str_eq child c))
      | inr f ↦ rw (f, new) (given (str_eq child c))
    ]
  where
    given :
        (b : Bool)
        → get_or (if b then some (degree child w - 1) else lookup c w.indegree) 0
          ≡ (if b then degree child w - 1 else degree c w)
    given true = refl
    given false = refl

-- A name stands once among the tables left in the level, the candidates and the visited, if queued, and
-- nowhere if not.
abbrev pub Line : Walk → List String → Type 0
Line w ts =
    (n : String) → count n ts + count n w.candidates + ind (has n w.visited) ≤ ind (has n w.queued)

pub visit_child-Line :
    (w : Walk) (ts : List String) (child : String) → Line w ts → Line (visit_child w child) ts
unfolding visit_child
visit_child-Line w ts child h n = elim (Bool-cases (is_freed w child)) [
  | inl t ↦
      let same : child ≡ n → has n w.queued ≡ has child w.queued = λ e. rw e refl in
      rw (t, count-add n child w.candidates, has-add n child w.queued)
        (ground (arith, h n, eq_iff child n, same))
  | inr f ↦ rw f (h n)
]

abbrev pub Known : List String → Walk → Type 0
Known names w = (n : String) → has n w.queued ≡ true → has n names ≡ true

pub visit_child-Known :
    (names : List String) (w : Walk) (child : String)
    → has child names ≡ true
    → Known names w
    → Known names (visit_child w child)
unfolding visit_child
visit_child-Known names w child c h n = elim (Bool-cases (is_freed w child)) [
  | inl t ↦ rw (t, has-add n child w.queued) known
  | inr f ↦ rw f (h n)
]
  where
    known : (has n w.queued || str_eq child n) ≡ true → has n names ≡ true
    known q = elim (Bool-cases (has n w.queued)) [
      | inl t ↦ h n t
      | inr f ↦ rw (← (eq_iff child n).0 (rw f at q)) c
    ]

-- The degrees, while the children `cs` of the visited are still to be counted down.
abbrev pub Counted : Graph → Walk → List String → Type 0
Counted g w cs = (c : String) → degree c w ≡ missing w.visited (related c g.parents) + count c cs

pub visit_child-Counted :
    (g : Graph) (w : Walk) (child : String) (cs : List String)
    → Counted g w (child ∷ cs)
    → Counted g (visit_child w child) cs
unfolding count
visit_child-Counted g w child cs h c =
    rw (visit_child-degree w child c, visit_child-visited w child)
      (ground (arith, h c, h child, eq_iff child c))

-- The candidates have no parent left.
abbrev pub Freed : Graph → Walk → Type 0
Freed g w = (n : String) → has n w.candidates ≡ true → missing w.visited (related n g.parents) ≡ 0

pub visit_child-Freed :
    (g : Graph) (w : Walk) (child : String) (cs : List String)
    → Counted g w (child ∷ cs)
    → Freed g w
    → Freed g (visit_child w child)
unfolding visit_child count
visit_child-Freed g w child cs k h n = elim (Bool-cases (is_freed w child)) [
  | inl t ↦ rw (t, has-add n child w.candidates) (freed t)
  | inr f ↦ rw f (h n)
]
  where
    child_freed : is_freed w child ≡ true → missing w.visited (related child g.parents) ≡ 0
    child_freed t = ground (arith, k child, eq_iff child child)

    freed :
        is_freed w child ≡ true
        → (has n w.candidates || str_eq child n) ≡ true
        → missing w.visited (related n g.parents) ≡ 0
    freed t q = elim (Bool-cases (has n w.candidates)) [
      | inl y ↦ h n y
      | inr f ↦ rw (← (eq_iff child n).0 (rw f at q)) (child_freed t)
    ]
