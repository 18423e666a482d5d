-- ===== src/Migrate/Symmetry.antt =====
-- The graph of the planner: a table is as often a child of another as that one is its parent, and every
-- child is a table of the run.
use nodejs_movy_data.Prelude.{
  String, not, ◌||◌, Option, none, some, List, [], ◌∷◌, str_eq, eq_iff, ◌≡◌, refl, arith,
  Bool-cases, inl, inr, Dict, lookup, insert, lookup-insert, and_false,
}
use nodejs_movy_data.Migrate.Schema.{TableSchema, ConstraintSchema}
use nodejs_movy_data.Migrate.Planner.{
  has, Graph, related, relate, clear_graph, referenced, link, link_constraints, link_tables,
  graph_of,
}
use nodejs_movy_data.Migrate.Counting.{count, has-count, count-add, related-relate}

abbrev pub IsSymmetric : Graph → Type 0
IsSymmetric g = (t c : String) → count c (related t g.children) ≡ count t (related c g.parents)

related-clear :
    (at name : String) (d : Dict (List String))
    → related at d ≡ []
    → related at (insert name [] d) ≡ []
related-clear at name d h =
    rw (lookup-insert name at [] d)
      (elim (Bool-cases (str_eq name at)) [ inl t ↦ rw t refl | inr f ↦ rw f h ])

clear_graph-IsSymmetric :
    (ts : List TableSchema) (g : Graph)
    → ((x : String) → (related x g.children ≡ []) × (related x g.parents ≡ []))
    → IsSymmetric (clear_graph ts g)
unfolding clear_graph count
clear_graph-IsSymmetric [] g h t c = rw ((h t).0, (h c).1) refl
clear_graph-IsSymmetric (u ∷ ts) g h t c =
    clear_graph-IsSymmetric ts _
      (λ x. (related-clear x u.name g.children (h x).0, related-clear x u.name g.parents (h x).1)) t
      c

link-IsSymmetric :
    (names : List String) (table : String) (g : Graph) (r : Option String)
    → IsSymmetric g
    → IsSymmetric (link names table g r)
link-IsSymmetric names table g none h = h
link-IsSymmetric names table g (some r) h =
    elim (Bool-cases (not (has r names) || str_eq r table)) [ inl y ↦ rw y h | inr n ↦ rw n linked ]
  where
    same : has table (related r g.children) ≡ has r (related table g.parents)
    same =
        rw
          (has-count table (related r g.children), has-count r (related table g.parents), h r table)
          refl

    linked :
        (t c : String)
        → count c (related t (relate r table g.children))
          ≡ count t (related c (relate table r g.parents))
    linked t c =
        rw (related-relate t r table g.children, related-relate c table r g.parents)
          (elim (Bool-cases (str_eq r t)) [
            | inl a ↦ elim (Bool-cases (str_eq table c)) [
              | inl b ↦
                  let e = (eq_iff r t).0 a in
                  let f = (eq_iff table c).0 b in
                  rw
                    (
                      a,
                      b,
                      count-add c table (related r g.children),
                      count-add t r (related table g.parents),
                      same,
                      a,
                      b,
                      e,
                      f,
                      h t c,
                    )
                    refl
              | inr b ↦
                  rw
                    (
                      a,
                      b,
                      count-add c table (related r g.children),
                      b,
                      and_false _,
                      (eq_iff r t).0 a,
                      h t c,
                    )
                    (omega arith)
            ]
            | inr a ↦ elim (Bool-cases (str_eq table c)) [
              | inl b ↦
                  rw
                    (
                      a,
                      b,
                      count-add t r (related table g.parents),
                      a,
                      and_false _,
                      (eq_iff table c).0 b,
                      h t c,
                    )
                    (omega arith)
              | inr b ↦ rw (a, b) (h t c)
            ]
          ])

link_constraints-IsSymmetric :
    (names : List String) (table : String) (cs : List ConstraintSchema) (g : Graph)
    → IsSymmetric g
    → IsSymmetric (link_constraints names table cs g)
unfolding link_constraints
link_constraints-IsSymmetric names table [] g h = h
link_constraints-IsSymmetric names table (c ∷ cs) g h =
    link_constraints-IsSymmetric names table cs _ (link-IsSymmetric names table g (referenced c) h)

link_tables-IsSymmetric :
    (names : List String) (ts : List TableSchema) (g : Graph)
    → IsSymmetric g
    → IsSymmetric (link_tables names ts g)
unfolding link_tables
link_tables-IsSymmetric names [] g h = h
link_tables-IsSymmetric names (t ∷ ts) g h =
    link_tables-IsSymmetric names ts _ (link_constraints-IsSymmetric names t.name t.constraints g h)

pub graph_of-IsSymmetric : (tables : List TableSchema) → IsSymmetric (graph_of tables)
unfolding graph_of lookup
graph_of-IsSymmetric tables =
    link_tables-IsSymmetric _ tables _
      (clear_graph-IsSymmetric tables (record { parents = []; children = [] }) (λ x. (refl, refl)))
