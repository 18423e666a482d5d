-- ===== src/Migrate/Plans.antt =====
-- The planner as a whole: it always has a plan, the plan loads every table once, and a table after the
-- tables it refers to.
use nodejs_movy_data.Prelude.{
  ℕ, String, Bool, true, false, not, some, List, [], ◌∷◌, ◌++◌, filter, length, if◌then◌else◌, ◌≡◌,
  refl, sym, ap, ◌∙◌, subst, arith, Dict, lookup, keys, Has, Has-map,
}
use mathlib.Core.Option.{some-injective}
use nodejs_movy_data.Events.Types.{TableMigrationPlan}
use nodejs_movy_data.Migrate.Schema.{TableSchema, ConstraintSchema}
use nodejs_movy_data.Migrate.Planner.{
  has, set_of, flat, Graph, Walk, related, graph_of, degrees, free_names, sort_tables, level_loop,
  first_level, start_walk, finish_plan, finished, plan,
}
use nodejs_movy_data.Migrate.Counting.{count, has-count, missing-nil}
use nodejs_movy_data.Migrate.Symmetry.{graph_of-IsSymmetric}
use nodejs_movy_data.Migrate.Edges.{
  Proper, clear_graph-Proper, link_tables-Proper, Refers, link_tables-finds,
}
use nodejs_movy_data.Migrate.Rounds.{
  count-sort_tables, has-sort_tables, Ready, Ended, level_loop-Ended,
}
use nodejs_movy_data.Migrate.Names.{
  names_of, has-set_from, count-set_from-le, has_of_Has, count-free_names-le, free_names-related,
  degree-related, missing-lt, has_some, count-unvisited, count-levels, missing-none, FreeLevels,
  first-FreeLevels, FreeLevels-at,
}

module _ (tables : List TableSchema) where
  graph : Graph
  graph = graph_of tables

  abbrev names : List String
  names = set_of (names_of tables)

  table_known : (t : TableSchema) → Has t tables → has t.name names ≡ true
  table_known t m =
      rw (has-set_from t.name [] (names_of tables))
        (has_of_Has t.name (names_of tables) (Has-map (λ u. u.name) t tables m))

  graph-Proper : Proper names graph
  unfolding graph graph_of lookup count
  graph-Proper = link_tables-Proper names tables _ table_known (
      clear_graph-Proper names tables (record { parents = []; children = [] }) table_known
        (record { once = λ n. omega arith; keys_known = λ n m. cc; children_known = λ t c m. cc }))

  module _ (before_text : String → String → Bool) (estimates : Dict ℕ) where
    abbrev start : Walk
    start = start_walk before_text estimates graph

    abbrev first : List String
    first = first_level before_text estimates graph

    first-free :
        (n : String) → has n first ≡ true → has n (free_names (degrees graph.parents)) ≡ true
    first-free n m =
        sym (has-sort_tables before_text estimates n (free_names (degrees graph.parents))) ∙ m

    first-known : (n : String) → has n first ≡ true → has n names ≡ true
    first-known n m = graph-Proper.keys_known n (
        ground (
          arith,
          first-free n m,
          has-count n (free_names (degrees graph.parents)),
          has-count n (keys graph.parents),
          count-free_names-le n graph.parents,
        ))

    queued-first : (n : String) → has n start.queued ≡ has n first
    queued-first n = has-set_from n [] first

    start-Ready : Ready before_text estimates graph names (length names) start first
    unfolding count
    start-Ready = record {
      sound = record {
        line = λ n. rw (queued-first n) (
            ground (
              arith,
              has-count n first,
              graph-Proper.once n,
              count-free_names-le n graph.parents,
              count-sort_tables before_text estimates n (free_names (degrees graph.parents)),
            ));
        known = λ n m. first-known n (sym (queued-first n) ∙ m);
        freed = λ n m. cc;
      };
      counted =
          λ c. omega (arith, degree-related c graph.parents, missing-nil (related c graph.parents));
      free = λ n m.
          missing-nil (related n graph.parents)
          ∙ free_names-related n graph.parents (graph-Proper.once n) (first-free n m);
      enough = λ some_left.
          let (n, m) = has_some first some_left in
          missing-lt n start.queued names (queued-first n ∙ m) (first-known n m);
    }

    rounds :
        (r : List (List String) × List String) × (level_loop before_text estimates
            (length names)
            graph
            start
            first
          ≡ some r)
        × Ended before_text estimates graph names start r
    unfolding graph
    rounds =
        level_loop-Ended before_text estimates graph names (graph_of-IsSymmetric tables)
          graph-Proper.children_known (length names) start first start-Ready

    -- The planner's loop ends: every list of tables, cyclic or not, has a plan.
    pub plan_total : (p : TableMigrationPlan) × (plan before_text estimates tables ≡ some p)
    unfolding plan graph
    plan_total =
        let (r, e, k) = rounds in
        (finish_plan before_text estimates names r, ap (finished before_text estimates names) e)

    plan_is :
        (p : TableMigrationPlan)
        → plan before_text estimates tables ≡ some p
        → p ≡ finish_plan before_text estimates names rounds.0
    unfolding plan graph
    plan_is p h =
        some-injective p (finish_plan before_text estimates names rounds.0)
          (sym h ∙ ap (finished before_text estimates names) rounds.1)

    -- The load order has every table's name exactly once, and no other name.
    pub plan_loads_once :
        (p : TableMigrationPlan)
        → plan before_text estimates tables ≡ some p
        → (n : String) → count n p.load_order ≡ (if has n (names_of tables) then 1 else 0)
    unfolding count
    plan_loads_once p h n =
        let (r, e, k) = rounds in
        let cyclic = filter (λ m. not (has m r.1)) names in
        subst (λ q. count n q.load_order ≡ (if has n (names_of tables) then 1 else 0))
          (sym (plan_is p h))
          (rw
            (
              count-levels n r.0 (sort_tables before_text estimates cyclic),
              count-sort_tables before_text estimates n cyclic,
              count-unvisited r.1 n names,
            )
            (ground (
              arith,
              k.once n,
              k.known n,
              count-set_from-le n [] (names_of tables),
              has-set_from n [] (names_of tables),
              has-count n names,
            )))

    -- In the plan's levels a table stands, if it is not among the cyclic ones, in a level after all the
    -- levels of the other tables of the run that its foreign keys refer to.
    pub plan_parents_first :
        (p : TableMigrationPlan)
        → plan before_text estimates tables ≡ some p
        → (before : List (List String)) (level : List String) (after : List (List String))
        → p.levels ≡ before ++ (level ∷ after)
        → (t : TableSchema) → Has t tables
        → (k : ConstraintSchema) → Has k t.constraints
        → (r : String) → Refers (names_of tables) t.name k r
        → has t.name level ≡ true
        → has t.name p.cyclic_tables ≡ false
        → has r (flat before) ≡ true
    unfolding graph graph_of
    plan_parents_first p h before level after e t m k q r f inside acyclic =
        let (x, loop, ended) = rounds in
        let cyc = p.cyclic_tables in
        let free : FreeLevels graph cyc [] p.levels =
          subst (λ z. FreeLevels graph z.cyclic_tables [] z.levels) (sym (plan_is p h))
            (first-FreeLevels graph _ before_text estimates names [] _ x.0
              (ended.first [] (λ n. refl))) in
        missing-none r (flat before) (related t.name graph.parents)
          (FreeLevels-at graph cyc before level after [] t.name
            (subst (FreeLevels graph cyc []) e free) inside acyclic)
          (link_tables-finds names r t k tables _ m q
            (f.0, has-set_from r [] (names_of tables) ∙ f.1, f.2))
