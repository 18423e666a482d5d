-- ===== src/Migrate/Edges.antt =====
-- What the planner's graph holds: names of the run's tables only, each once, and every foreign key
-- between two of them.
use nodejs_movy_data.Prelude.{
  ◌≤◌, String, Bool, true, false, not, ◌||◌, Option, none, some, List, [], ◌∷◌, ◌++◌, str_eq,
  eq_iff, if◌then◌else◌, ◌≡◌, refl, sym, subst, arith, Bool-cases, inl, inr, Dict, lookup, insert,
  lookup-insert, keys, Has,
}
use nodejs_movy_data.Migrate.Schema.{TableSchema, ConstraintSchema}
use nodejs_movy_data.Migrate.Planner.{
  has, add, Graph, related, relate, clear_graph, referenced, link, link_constraints, link_tables,
}
use nodejs_movy_data.Migrate.Counting.{count, has-count, count-add, has-add, related-relate}

-- Writing to a map adds the key to its keys.
keys-insert :
    (k : String) (v : List String) (d : Dict (List String)) → keys (insert k v d) ≡ add k (keys d)
unfolding insert
keys-insert k v [] = refl
keys-insert k v (e ∷ d) = elim (Bool-cases (str_eq e.0 k)) [
  | inl t ↦ rw t refl
  | inr f ↦ rw (f, keys-insert k v d) (go (has k (keys d)) refl)
]
  where
    go :
        (b : Bool)
        → has k (keys d) ≡ b
        → e.0 ∷ (if has k (keys d) then keys d else keys d ++ (k ∷ []))
          ≡ (if has k (keys d) then e.0 ∷ keys d else e.0 ∷ (keys d ++ (k ∷ [])))
    go true h = rw h refl
    go false h = rw h refl

pub record Proper (names : List String) (g : Graph) : Type 0 where
  pub once : (n : String) → count n (keys g.parents) ≤ 1
  pub keys_known : (n : String) → has n (keys g.parents) ≡ true → has n names ≡ true
  pub children_known : (t c : String) → has c (related t g.children) ≡ true → has c names ≡ true

keys_once :
    (n k : String) (v : List String) (d : Dict (List String))
    → count n (keys d) ≤ 1
    → count n (keys (insert k v d)) ≤ 1
keys_once n k v d h =
    rw (keys-insert k v d, count-add n k (keys d))
      (ground (arith, h, eq_iff k n, has-count n (keys d), has-count k (keys d), same))
  where
    same : k ≡ n → count k (keys d) ≡ count n (keys d)
    same e = rw e refl

insert_known :
    (names : List String) (n k : String) (v : List String) (d : Dict (List String))
    → has k names ≡ true
    → (has n (keys d) ≡ true → has n names ≡ true)
    → has n (keys (insert k v d)) ≡ true
    → has n names ≡ true
insert_known names n k v d q h m = elim (Bool-cases (str_eq k n)) [
  | inl t ↦ rw (← (eq_iff k n).0 t) q
  | inr f ↦ h (keep f (rw (keys-insert k v d, has-add n k (keys d)) at m))
]
  where
    keep : str_eq k n ≡ false → (has n (keys d) || str_eq k n) ≡ true → has n (keys d) ≡ true
    keep f m = ground arith

relate-known :
    (names : List String) (t c name other : String) (d : Dict (List String))
    → has other names ≡ true
    → ((u : String) → has c (related u d) ≡ true → has c names ≡ true)
    → has c (related t (relate name other d)) ≡ true
    → has c names ≡ true
relate-known names t c name other d q h m = elim (Bool-cases (str_eq name t)) [
  | inl y ↦ elim (Bool-cases (str_eq other c)) [
    | inl o ↦ rw (← (eq_iff other c).0 o) q
    | inr o ↦
        h name
          (keep o (rw (related-relate t name other d, y, has-add c other (related name d)) at m))
  ]
  | inr n ↦ h t (rw (related-relate t name other d, n) at m)
]
  where
    keep :
        str_eq other c ≡ false
        → (has c (related name d) || str_eq other c) ≡ true
        → has c (related name d) ≡ true
    keep f m = ground arith

pub clear_graph-Proper :
    (names : List String) (ts : List TableSchema) (g : Graph)
    → ((t : TableSchema) → Has t ts → has t.name names ≡ true)
    → Proper names g
    → Proper names (clear_graph ts g)
unfolding clear_graph
clear_graph-Proper names [] g q p = p
clear_graph-Proper names (t ∷ ts) g q p =
    clear_graph-Proper names ts _ (λ u m. q u (inr m))
      (record {
        once = λ n. keys_once n t.name [] g.parents (p.once n);
        keys_known =
            λ n. insert_known names n t.name [] g.parents (q t (inl refl)) (p.keys_known n);
        children_known = λ u c m. cleared u c (lookup-insert t.name u [] g.children) m;
      })
  where
    cleared :
        (u c : String)
        → lookup u (insert t.name [] g.children)
          ≡ (if str_eq t.name u then some [] else lookup u g.children)
        → has c (related u (insert t.name [] g.children)) ≡ true
        → has c names ≡ true
    cleared u c e m = elim (Bool-cases (str_eq t.name u)) [
      | inl y ↦ absurd (nothing (rw (e, y) at m))
      | inr n ↦ p.children_known u c (rw (e, n) at m)
    ]
      where
        nothing : false ≡ true → ⊥
        nothing e = cc

link-Proper :
    (names : List String) (table : String) (g : Graph) (r : Option String)
    → has table names ≡ true
    → Proper names g
    → Proper names (link names table g r)
link-Proper names table g none q p = p
link-Proper names table g (some r) q p = elim (Bool-cases (not (has r names) || str_eq r table)) [
  | inl y ↦ rw y p
  | inr n ↦ rw n (record {
    once = λ x. keys_once x table _ g.parents (p.once x);
    keys_known = λ x. insert_known names x table _ g.parents q (p.keys_known x);
    children_known = λ t c. relate-known names t c r table g.children q (λ u. p.children_known u c);
  })
]

link_constraints-Proper :
    (names : List String) (table : String) (cs : List ConstraintSchema) (g : Graph)
    → has table names ≡ true
    → Proper names g
    → Proper names (link_constraints names table cs g)
unfolding link_constraints
link_constraints-Proper names table [] g q p = p
link_constraints-Proper names table (c ∷ cs) g q p =
    link_constraints-Proper names table cs _ q (link-Proper names table g (referenced c) q p)

pub link_tables-Proper :
    (names : List String) (ts : List TableSchema) (g : Graph)
    → ((t : TableSchema) → Has t ts → has t.name names ≡ true)
    → Proper names g
    → Proper names (link_tables names ts g)
unfolding link_tables
link_tables-Proper names [] g q p = p
link_tables-Proper names (t ∷ ts) g q p =
    link_tables-Proper names ts _ (λ u m. q u (inr m))
      (link_constraints-Proper names t.name t.constraints g (q t (inl refl)) p)

-- An edge that is there stays.
abbrev IsEdge : Graph → String → String → Type 0
IsEdge g child parent = has parent (related child g.parents) ≡ true

link-keeps :
    (names : List String) (table c p : String) (g : Graph) (r : Option String)
    → IsEdge g c p
    → IsEdge (link names table g r) c p
link-keeps names table c p g none h = h
link-keeps names table c p g (some r) h = elim (Bool-cases (not (has r names) || str_eq r table)) [
  | inl y ↦ rw y h
  | inr n ↦ rw (n, related-relate c table r g.parents) (kept (str_eq table c) refl)
]
  where
    kept :
        (b : Bool)
        → str_eq table c ≡ b
        → has p (if b then add r (related table g.parents) else related c g.parents) ≡ true
    kept true e = rw (has-add p r (related table g.parents), (eq_iff table c).0 e, h) refl
    kept false e = h

link_constraints-keeps :
    (names : List String) (table c p : String) (cs : List ConstraintSchema) (g : Graph)
    → IsEdge g c p
    → IsEdge (link_constraints names table cs g) c p
unfolding link_constraints
link_constraints-keeps names table c p [] g h = h
link_constraints-keeps names table c p (k ∷ cs) g h =
    link_constraints-keeps names table c p cs _ (link-keeps names table c p g (referenced k) h)

link_tables-keeps :
    (names : List String) (c p : String) (ts : List TableSchema) (g : Graph)
    → IsEdge g c p
    → IsEdge (link_tables names ts g) c p
unfolding link_tables
link_tables-keeps names c p [] g h = h
link_tables-keeps names c p (t ∷ ts) g h =
    link_tables-keeps names c p ts _ (link_constraints-keeps names t.name c p t.constraints g h)

-- What makes a constraint an edge of the graph.
abbrev pub Refers : List String → String → ConstraintSchema → String → Type 0
Refers names table k r = (referenced k ≡ some r) × (has r names ≡ true) × (str_eq r table ≡ false)

link_constraints-finds :
    (names : List String) (table r : String) (k : ConstraintSchema) (cs : List ConstraintSchema)
    (g : Graph)
    → Has k cs
    → Refers names table k r
    → IsEdge (link_constraints names table cs g) table r
unfolding link_constraints
link_constraints-finds names table r k [] g m f = absurd m
link_constraints-finds names table r k (c ∷ cs) g (inl e) f =
    link_constraints-keeps names table table r cs _ (
      rw
        (
          e,
          f.0,
          f.1,
          f.2,
          related-relate table table r g.parents,
          (eq_iff table table).1 refl,
          has-add r r (related table g.parents),
          (eq_iff r r).1 refl,
        )
        (or_true _))
  where
    or_true : (b : Bool) → (b || true) ≡ true
    or_true b = ground arith
link_constraints-finds names table r k (c ∷ cs) g (inr m) f =
    link_constraints-finds names table r k cs _ m f

pub link_tables-finds :
    (names : List String) (r : String) (t : TableSchema) (k : ConstraintSchema)
    (ts : List TableSchema) (g : Graph)
    → Has t ts
    → Has k t.constraints
    → Refers names t.name k r
    → IsEdge (link_tables names ts g) t.name r
unfolding link_tables
link_tables-finds names r t k [] g m q f = absurd m
link_tables-finds names r t k (u ∷ ts) g (inl e) q f = link_tables-keeps names t.name r ts _ (
    subst (λ x. IsEdge (link_constraints names x.name x.constraints g) t.name r) (sym e)
      (link_constraints-finds names t.name r k t.constraints g q f))
link_tables-finds names r t k (u ∷ ts) g (inr m) q f = link_tables-finds names r t k ts _ m q f
