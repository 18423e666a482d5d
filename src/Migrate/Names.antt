-- ===== src/Migrate/Names.antt =====
-- Names in sets, in the planner's degrees and in its levels.
use nodejs_movy_data.Prelude.{
  ℕ, ◌+◌, ◌≤◌, ◌<◌, String, Bool, true, false, not, ◌||◌, List, [], ◌∷◌, ◌++◌, map, filter, length,
  str_eq, eq_iff, ltb, ◌==◌, if◌then◌else◌, ◌≡◌, refl, ◌∙◌, arith, Bool-cases, inl, inr, Dict,
  lookup, get_or, keys, Has, ==_iff,
}
use nodejs_movy_data.Migrate.Schema.{TableSchema}
use nodejs_movy_data.Migrate.Planner.{has, add, set_from, flat, Graph, related, degrees, free_names}
use nodejs_movy_data.Migrate.Counting.{
  count, has-count, count-add, has-add, count-append, has-append, missing, missing-cong,
}
use nodejs_movy_data.Migrate.Rounds.{ParentsFirst}

abbrev pub names_of : List TableSchema → List String
names_of tables = map (λ t. t.name) tables

pub has-set_from :
    (n : String) (seen ns : List String) → has n (set_from seen ns) ≡ (has n seen || has n ns)
has-set_from n seen [] = ground arith
has-set_from n seen (m ∷ ns) =
    rw (has-set_from n (add m seen) ns, has-add n m seen)
      (assoc (has n seen) (str_eq m n) (has n ns))
  where
    assoc : (a b c : Bool) → ((a || b) || c) ≡ (a || (b || c))
    assoc a b c = ground arith

pub count-set_from-le :
    (n : String) (seen ns : List String) → count n seen ≤ 1 → count n (set_from seen ns) ≤ 1
count-set_from-le n seen [] h = h
count-set_from-le n seen (m ∷ ns) h = count-set_from-le n (add m seen) ns (
    rw (count-add n m seen)
      (ground (arith, h, eq_iff m n, has-count n seen, has-count m seen, same)))
  where
    same : m ≡ n → count m seen ≡ count n seen
    same e = rw e refl

pub has_of_Has : (n : String) (ns : List String) → Has n ns → has n ns ≡ true
has_of_Has n [] h = absurd h
has_of_Has n (m ∷ ns) (inl e) = rw ((eq_iff m n).1 e) refl
has_of_Has n (m ∷ ns) (inr h) = rw (has_of_Has n ns h) (or_true (str_eq m n))
  where
    or_true : (b : Bool) → (b || true) ≡ true
    or_true b = ground arith

-- A name without parents by its degree has none in the graph.
pub count-free_names-le :
    (n : String) (d : Dict (List String)) → count n (free_names (degrees d)) ≤ count n (keys d)
unfolding count
count-free_names-le n [] = omega arith
count-free_names-le n (e ∷ d) = elim (Bool-cases (length e.1 == 0)) [
  | inl t ↦ rw t (omega (arith, count-free_names-le n d))
  | inr f ↦ rw f (omega (arith, count-free_names-le n d))
]

pub free_names-related :
    (n : String) (d : Dict (List String))
    → count n (keys d) ≤ 1
    → has n (free_names (degrees d)) ≡ true
    → length (related n d) ≡ 0
unfolding count lookup
free_names-related n [] once h = cc
free_names-related n (e ∷ d) once h = elim (Bool-cases (length e.1 == 0)) [
  | inl t ↦ elim (Bool-cases (str_eq e.0 n)) [
    | inl y ↦ rw y ((==_iff (length e.1) 0).0 t)
    | inr k ↦ rw k (free_names-related n d (omega (arith, once)) (rw (t, k) at h))
  ]
  | inr f ↦ elim (Bool-cases (str_eq e.0 n)) [
    | inl y ↦ absurd (twice (rw y at once) (rw f at h))
    | inr k ↦ rw k (free_names-related n d (omega (arith, once)) (rw f at h))
  ]
]
  where
    twice : 1 + count n (keys d) ≤ 1 → has n (free_names (degrees d)) ≡ true → ⊥
    twice o m = ground (arith, o, m, count-free_names-le n d, has-count n (free_names (degrees d)))

pub degree-related :
    (n : String) (d : Dict (List String)) → get_or (lookup n (degrees d)) 0 ≡ length (related n d)
unfolding lookup
degree-related n [] = refl
degree-related n (e ∷ d) = elim (Bool-cases (str_eq e.0 n)) [
  | inl t ↦ rw t refl
  | inr f ↦ rw f (degree-related n d)
]

pub missing-le : (loaded ns : List String) → missing loaded ns ≤ length ns
unfolding missing
missing-le loaded [] = omega arith
missing-le loaded (m ∷ ns) = ground (arith, missing-le loaded ns)

pub missing-lt :
    (n : String) (loaded ns : List String)
    → has n loaded ≡ true
    → has n ns ≡ true
    → missing loaded ns < length ns
unfolding missing
missing-lt n loaded [] h m = cc
missing-lt n loaded (k ∷ ns) h m = elim (Bool-cases (str_eq k n)) [
  | inl y ↦ rw ((eq_iff k n).0 y, h) (omega (arith, missing-le loaded ns))
  | inr f ↦ ground (arith, missing-lt n loaded ns h (rw f at m))
]

pub has_some : (ns : List String) → 0 < length ns → (n : String) × (has n ns ≡ true)
has_some [] h = absurd (omega (arith, h))
has_some (n ∷ ns) h = (n, rw ((eq_iff n n).1 refl) refl)

-- What a list without the visited names holds of each name.
pub count-unvisited :
    (visited : List String) (n : String) (ns : List String)
    → count n (filter (λ m. not (has m visited)) ns) ≡ (if has n visited then 0 else count n ns)
unfolding count
count-unvisited visited n [] = ground arith
count-unvisited visited n (m ∷ ns) =
    let same : m ≡ n → has m visited ≡ has n visited = λ e. rw e refl in
    let rest = count-unvisited visited n ns in
    elim (Bool-cases (has m visited)) [
      | inl t ↦ rw t (ground (arith, rest, eq_iff m n, same, t))
      | inr f ↦ rw f (ground (arith, rest, eq_iff m n, same, f))
    ]

pub count-flat :
    (n : String) (ls : List (List String)) (c : List String)
    → count n (flat (ls ++ (c ∷ []))) ≡ count n (flat ls) + count n c
unfolding count
count-flat n [] c = rw (count-append n c []) (omega arith)
count-flat n (l ∷ ls) c =
    rw (count-append n l (flat (ls ++ (c ∷ []))), count-append n l (flat ls), count-flat n ls c)
      (omega arith)

-- The level of the cyclic tables is there if it has any.
pub count-levels :
    (n : String) (ls : List (List String)) (c : List String)
    → count n (flat (if ltb 0 (length c) then ls ++ (c ∷ []) else ls))
      ≡ count n (flat ls) + count n c
unfolding count
count-levels n ls [] = omega arith
count-levels n ls (x ∷ c) = elim (Bool-cases (ltb 0 (length (x ∷ c)))) [
  | inl t ↦ rw t (count-flat n ls (x ∷ c))
  | inr f ↦ absurd (ground (arith, f))
]

-- None missing: every parent is loaded.
pub missing-none :
    (r : String) (loaded ps : List String)
    → missing loaded ps ≡ 0
    → has r ps ≡ true
    → has r loaded ≡ true
unfolding missing
missing-none r loaded [] z m = cc
missing-none r loaded (p ∷ ps) z m = elim (Bool-cases (str_eq p r)) [
  | inl y ↦ rw (← (eq_iff p r).0 y) (ground (arith, z))
  | inr f ↦ missing-none r loaded ps (ground (arith, z)) (rw f at m)
]

-- Levels in which all tables but those of `cyc` have their parents in earlier levels, or in `loaded`.
module _ (g : Graph) (cyc : List String) where
  abbrev pub FreeLevels : List String → List (List String) → Type 0
  FreeLevels loaded [] = Unit
  FreeLevels loaded (l ∷ ls) =
      ((n : String) → has n l ≡ true → has n cyc ≡ false → missing loaded (related n g.parents) ≡ 0)
      × FreeLevels (loaded ++ l) ls

  pub first-FreeLevels :
      (before_text : String → String → Bool) (estimates : Dict ℕ) (names loaded : List String)
      (b : Bool) (ls : List (List String))
      → ParentsFirst before_text estimates g names loaded ls
      → FreeLevels loaded (if b then ls ++ (cyc ∷ []) else ls)
  first-FreeLevels before_text estimates names loaded true [] h = ((λ n m f. cc), tt)
  first-FreeLevels before_text estimates names loaded false [] h = tt
  first-FreeLevels before_text estimates names loaded true (l ∷ ls) h =
      ((λ n m f. h.0 n m), first-FreeLevels before_text estimates names (loaded ++ l) true ls h.1)
  first-FreeLevels before_text estimates names loaded false (l ∷ ls) h =
      ((λ n m f. h.0 n m), first-FreeLevels before_text estimates names (loaded ++ l) false ls h.1)

  pub FreeLevels-at :
      (before : List (List String)) (level : List String) (after : List (List String))
      (loaded : List String) (n : String)
      → FreeLevels loaded (before ++ (level ∷ after))
      → has n level ≡ true
      → has n cyc ≡ false
      → missing (loaded ++ flat before) (related n g.parents) ≡ 0
  FreeLevels-at [] level after loaded n h m f =
      missing-cong (loaded ++ []) loaded (related n g.parents)
        (λ x. rw (has-append x loaded []) (or_false (has x loaded)))
      ∙ h.0 n m f
    where
      or_false : (b : Bool) → (b || false) ≡ b
      or_false b = ground arith
  FreeLevels-at (l ∷ before) level after loaded n h m f =
      missing-cong (loaded ++ (l ++ flat before)) ((loaded ++ l) ++ flat before)
        (related n g.parents)
        (λ x.
          rw
            (
              has-append x loaded (l ++ flat before),
              has-append x l (flat before),
              has-append x (loaded ++ l) (flat before),
              has-append x loaded l,
            )
            (assoc (has x loaded) (has x l) (has x (flat before))))
      ∙ FreeLevels-at before level after (loaded ++ l) n h.1 m f
    where
      assoc : (a b c : Bool) → (a || (b || c)) ≡ ((a || b) || c)
      assoc a b c = ground arith
