-- ===== src/Migrate/Planner.antt =====
-- `TableMigrationPlanner` of
-- packages/core/src/application/services/table-migration-planner.service.ts: levels of tables, those
-- without an unloaded parent first. A Set is a list without repetitions, in insertion order.
use nodejs_movy_data.Prelude.{
  ℕ, zero, suc, ◌-◌, String, Bool, true, false, not, ◌&&◌, ◌||◌, Option, none, some, List, [], ◌∷◌,
  ◌++◌, map, filter, any, length, get_or, ltb, str_eq, ◌==◌, if◌then◌else◌, Dict, lookup, insert,
}
use nodejs_movy_data.Events.Types.{TableMigrationPlan}
use nodejs_movy_data.Migrate.Schema.{ConstraintSchema, ConstraintType, foreign_key, TableSchema}

-- `set.has(name)`
abbrev pub has : String → List String → Bool
has name names = any (λ n. str_eq n name) names

-- `set.add(name)`
abbrev pub add : String → List String → List String
add name names = if has name names then names else names ++ (name ∷ [])

abbrev pub flat : List (List String) → List String
flat [] = []
flat (l ∷ ls) = l ++ flat ls

-- `new Set(names)`
abbrev pub set_from : List String → List String → List String
set_from seen [] = seen
set_from seen (n ∷ ns) = set_from (add n seen) ns

abbrev pub set_of : List String → List String
set_of names = set_from [] names

abbrev pub is_foreign_key : ConstraintType → Bool
is_foreign_key foreign_key = true
is_foreign_key _ = false

pub record Graph : Type 0 where
  pub parents : Dict (List String)
  pub children : Dict (List String)

abbrev pub related : String → Dict (List String) → List String
related name d = get_or (lookup name d) []

abbrev pub relate : String → String → Dict (List String) → Dict (List String)
relate name other d = insert name (add other (related name d)) d

unfoldable pub clear_graph : List TableSchema → Graph → Graph
clear_graph [] g = g
clear_graph (t ∷ ts) g =
    clear_graph ts
      (record { parents = insert t.name [] g.parents; children = insert t.name [] g.children })

-- The empty text is falsy.
abbrev pub referenced : ConstraintSchema → Option String
referenced c = elim c.referenced_table [
  | none ↦ none
  | some r ↦ if is_foreign_key c.type_of && not (str_eq r "") then some r else none
]

abbrev pub link : List String → String → Graph → Option String → Graph
link names table g none = g
link names table g (some r) =
    if not (has r names) || str_eq r table
    then g
    else record { parents = relate table r g.parents; children = relate r table g.children }

unfoldable pub link_constraints : List String → String → List ConstraintSchema → Graph → Graph
link_constraints names table [] g = g
link_constraints names table (c ∷ cs) g =
    link_constraints names table cs (link names table g (referenced c))

unfoldable pub link_tables : List String → List TableSchema → Graph → Graph
link_tables names [] g = g
link_tables names (t ∷ ts) g = link_tables names ts (link_constraints names t.name t.constraints g)

unfoldable pub graph_of : List TableSchema → Graph
graph_of tables =
    let names = set_of (map (λ t. t.name) tables) in
    link_tables names tables (clear_graph tables (record { parents = []; children = [] }))

-- The state of the loop: a degree of 0 here stands for 0 and for what is below it, since neither
-- becomes 0 by one less.
pub record Walk : Type 0 where
  pub indegree : Dict ℕ
  pub queued : List String
  pub visited : List String
  pub candidates : List String

abbrev pub degrees : Dict (List String) → Dict ℕ
degrees d = map (λ e. (e.0, length e.1)) d

abbrev pub free_names : Dict ℕ → List String
free_names d = map (λ e. e.0) (filter (λ e. e.1 == 0) d)

abbrev pub degree : String → Walk → ℕ
degree name w = get_or (lookup name w.indegree) 0

unfoldable pub visit_child : Walk → String → Walk
visit_child w child =
    let w' = record w { indegree = insert child (degree child w - 1) w.indegree } in
    if degree child w == 1 && (not (has child w.visited) && not (has child w.queued))
    then record w' { candidates = add child w.candidates; queued = add child w.queued }
    else w'

unfoldable pub visit_children : Walk → List String → Walk
visit_children w [] = w
visit_children w (c ∷ cs) = visit_children (visit_child w c) cs

unfoldable pub visit_level : Graph → Walk → List String → Walk
visit_level g w [] = w
visit_level g w (t ∷ ts) =
    visit_level g (visit_children (record w { visited = add t w.visited }) (related t g.children))
      ts

-- `levels.push(currentLevel)`, before the levels of the rounds that follow.
abbrev pub with_level :
    List String
    → Option (List (List String) × List String)
    → Option (List (List String) × List String)
with_level level none = none
with_level level (some r) = some (level ∷ r.0, r.1)

-- `before_text a b` says that `a.localeCompare(b)` is negative; `estimates` are the row estimates.
module _ (before_text : String → String → Bool) (estimates : Dict ℕ) where
  abbrev pub estimate : String → ℕ
  estimate name = get_or (lookup name estimates) 0

  -- The comparison of `sortTables`: more rows first, then by name.
  abbrev pub comes_before : String → String → Bool
  comes_before a b =
      if estimate a == estimate b then before_text a b else ltb (estimate b) (estimate a)

  -- A stable sort, as `Array.prototype.sort` is: an element goes behind those that come before it.
  unfoldable pub place : String → List String → List String
  place a [] = a ∷ []
  place a (b ∷ bs) = let rest = place a bs in if comes_before b a then b ∷ rest else a ∷ b ∷ bs

  unfoldable pub sort_tables : List String → List String
  sort_tables [] = []
  sort_tables (a ∷ rest) = place a (sort_tables rest)

  -- The `while` loop, from a level on: the levels and what was visited, `none` without fuel.
  unfoldable pub level_loop :
      ℕ → Graph → Walk → List String → Option (List (List String) × List String)
  level_loop fuel g w [] = some ([], w.visited)
  level_loop zero g w (t ∷ ts) = none
  level_loop (suc fuel) g w (t ∷ ts) =
      let w' = visit_level g (record w { candidates = [] }) (t ∷ ts) in
      with_level (t ∷ ts) (level_loop fuel g w' (sort_tables w'.candidates))

  abbrev pub first_level : Graph → List String
  first_level g = sort_tables (free_names (degrees g.parents))

  abbrev pub start_walk : Graph → Walk
  start_walk g = record {
    indegree = degrees g.parents;
    queued = set_of (first_level g);
    visited = [];
    candidates = [];
  }

  abbrev pub reverse : List String → List String
  reverse [] = []
  reverse (x ∷ xs) = reverse xs ++ (x ∷ [])

  abbrev pub finish_plan : List String → List (List String) × List String → TableMigrationPlan
  finish_plan names r =
      let cyclic = sort_tables (filter (λ n. not (has n r.1)) names) in
      let levels = if ltb 0 (length cyclic) then r.0 ++ (cyclic ∷ []) else r.0 in
      let load_order = flat levels in
      record {
        load_order = load_order;
        cleanup_order = reverse load_order;
        levels = levels;
        cyclic_tables = cyclic;
      }

  abbrev pub finished :
      List String → Option (List (List String) × List String) → Option TableMigrationPlan
  finished names none = none
  finished names (some r) = some (finish_plan names r)

  -- Each round visits a table of its own, so one round per table is enough: `none` does not happen.
  unfoldable pub plan : List TableSchema → Option TableMigrationPlan
  plan tables =
      let g = graph_of tables in
      let names = set_of (map (λ t. t.name) tables) in
      finished names (level_loop (length names) g (start_walk g) (first_level g))
