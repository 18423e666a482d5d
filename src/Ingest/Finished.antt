-- ===== src/Ingest/Finished.antt =====
-- A table that has finished: neither the fold of a batch nor its storing walks it back.
use nodejs_movy_data.Prelude.{
  ℕ, ◌≤◌, ◌≡◌, refl, sym, ap, ◌∙◌, ◌⊎◌, inl, inr, Bool, true, false, not, ◌&&◌, String, Option,
  some, List, [], ◌∷◌, arith, eq_iff, Dict, lookup, insert, lookup-insert, str_eq, if◌then◌else◌,
  Bool-cases,
}
use nodejs_movy_data.Events.Types.{EventInput, MigrationEvent}
use nodejs_movy_data.Client.State.{Platform, TableStatus}
use nodejs_movy_data.Client.Fold.{is_over}
use nodejs_movy_data.Ingest.Project.{
  TablePatch, Projected, Projection, over_table, merge_table, upsert_table, plan_tables,
  finished_table, project_body, project_event, project_loop,
}
use nodejs_movy_data.Ingest.Store.{
  TableRow, RunStore, put_table, store_tables, no_events, is_empty_patch, write_projection,
  apply_projection,
}

kept_over :
    (a b : TableStatus)
    → is_over a ≡ true
    → is_over (if is_over a && not (is_over b) then a else b) ≡ true
kept_over a b h = elim (Bool-cases (is_over b)) [ inl t ↦ rw (h, t) t | inr f ↦ rw (h, f) h ]

module _ {P : Type 0} where
  -- A stored table that is over stays over and loses no rows.
  abbrev pub StaysOver : TableRow P → TableRow P → Type 0
  StaysOver row row' =
      (is_over row'.status ≡ true)
      × (row.rows_done ≤ row'.rows_done)
      × (row.rows_total ≤ row'.rows_total)

module _ {P : Type 0} ⦃o : Platform P⦄ where
  put_table-StaysOver :
      (p : TablePatch P) (row : TableRow P)
      → is_over row.status ≡ true
      → StaysOver row (put_table p (some row))
  unfolding put_table
  put_table-StaysOver p row h = (kept_over row.status p.status h, omega arith, omega arith)

  store_tables-StaysOver :
      (ps : List (TablePatch P)) (m : Dict (TableRow P)) (k : String) (row : TableRow P)
      → lookup k m ≡ some row
      → is_over row.status ≡ true
      → (row' : TableRow P) × (lookup k (store_tables ps m) ≡ some row') × StaysOver row row'
  unfolding store_tables
  store_tables-StaysOver [] m k row e h = (row, e, (h, omega arith, omega arith))
  store_tables-StaysOver (p ∷ ps) m k row e h = elim (Bool-cases (str_eq p.table_name k)) [
    | inl t ↦
        let first = put_table-StaysOver p row h in
        let (row', e', next) =
          store_tables-StaysOver ps (insert p.table_name (put_table p (lookup p.table_name m)) m) k
            (put_table p (some row))
            (lookup-insert p.table_name k (put_table p (lookup p.table_name m)) m
              ∙ ap (λ b. if b then some (put_table p (lookup p.table_name m)) else lookup k m) t
              ∙ ap (λ i. some (put_table p (lookup i m))) ((eq_iff p.table_name k).0 t)
              ∙ ap (λ x. some (put_table p x)) e)
            first.0 in
        (row', e', (next.0, omega (arith, first, next), omega (arith, first, next)))
    | inr f ↦
        store_tables-StaysOver ps (insert p.table_name (put_table p (lookup p.table_name m)) m) k
          row
          (lookup-insert p.table_name k (put_table p (lookup p.table_name m)) m
            ∙ ap (λ b. if b then some (put_table p (lookup p.table_name m)) else lookup k m) f
            ∙ e)
          h
  ]

-- In the fold of a batch.
module _ {P : Type 0} where
  abbrev pub StaysFinished : TablePatch P → TablePatch P → Type 0
  StaysFinished t t' = (is_over t'.status ≡ true) × (t.rows_total ≤ t'.rows_total)

  abbrev Finished : String → TablePatch P → Dict (TablePatch P) → Type 0
  Finished k t m = (t' : TablePatch P) × (lookup k m ≡ some t') × StaysFinished t t'

  merge_table-StaysFinished :
      (p t : TablePatch P)
      → is_over t.status ≡ true
      → (is_over p.status ≡ false) ⊎ (t.rows_total ≤ p.rows_total)
      → StaysFinished t (merge_table t p)
  unfolding merge_table
  merge_table-StaysFinished p t h c = elim (Bool-cases (is_over p.status)) [
    | inl y ↦ rw (h, y) (y, omega (arith, total y))
    | inr n ↦ rw (h, n) (h, omega arith)
  ]
    where
      total : is_over p.status ≡ true → t.rows_total ≤ p.rows_total
      total y = elim c [ inl n ↦ cc | inr le ↦ le ]

  upsert_table-Finished :
      (p : TablePatch P) (m : Dict (TablePatch P)) (k : String) (t : TablePatch P)
      → lookup k m ≡ some t
      → is_over t.status ≡ true
      → (p.table_name ≡ k → (is_over p.status ≡ false) ⊎ (t.rows_total ≤ p.rows_total))
      → Finished k t (upsert_table p m)
  unfolding upsert_table
  upsert_table-Finished p m k t e h c = elim (Bool-cases (str_eq p.table_name k)) [
    | inl y ↦
        let same = (eq_iff p.table_name k).0 y in
        (
          merge_table t p,
          lookup-insert p.table_name k (over_table p (lookup p.table_name m)) m
              ∙ ap (λ b. if b then some (over_table p (lookup p.table_name m)) else lookup k m) y
              ∙ ap (λ i. some (over_table p (lookup i m))) same
              ∙ ap (λ x. some (over_table p x)) e,
          merge_table-StaysFinished p t h (c same),
        )
    | inr n ↦ (
      t,
      lookup-insert p.table_name k (over_table p (lookup p.table_name m)) m
          ∙ ap (λ b. if b then some (over_table p (lookup p.table_name m)) else lookup k m) n
          ∙ e,
      (h, omega arith),
    )
  ]

module _ {P : Type 0} ⦃o : Platform P⦄ where
  plan_tables-Finished :
      (est : Dict ℕ) (names : List String) (m : Dict (TablePatch P)) (total : ℕ) (k : String)
      (t : TablePatch P)
      → lookup k m ≡ some t
      → is_over t.status ≡ true
      → Finished k t (plan_tables est names m total).0
  unfolding plan_tables
  plan_tables-Finished est [] m total k t e h = (t, e, (h, omega arith))
  plan_tables-Finished est (name ∷ names) m total k t e h =
      let (t', e', s) = upsert_table-Finished _ m k t e h (λ q. inl refl) in
      let (t'', e'', s') = plan_tables-Finished est names _ _ k t' e' s.0 in
      (t'', e'', (s'.0, omega (arith, s, s')))

  finished_table-total :
      (m : Dict (TablePatch P)) (at name : String) (n ms : ℕ) (ok : Bool) (error : Option String)
      (t : TablePatch P)
      → lookup name m ≡ some t
      → t.rows_total ≤ (finished_table m at name n ms ok error).rows_total
  unfolding finished_table
  finished_table-total m at name n ms ok error t e = rw e (omega arith)

  finished_table-name :
      (m : Dict (TablePatch P)) (at name : String) (n ms : ℕ) (ok : Bool) (error : Option String)
      → (finished_table m at name n ms ok error).table_name ≡ name
  unfolding finished_table
  finished_table-name m at name n ms ok error = refl

module _ {P D : Type 0} ⦃o : Platform P⦄ where
  project_body-Finished :
      (at : String) (b : EventInput P D) (s : Projected P D) (k : String) (t : TablePatch P)
      → lookup k s.tables ≡ some t
      → is_over t.status ≡ true
      → Finished k t (project_body at b s).tables
  unfolding project_body
  project_body-Finished at (EventInput.plan_ready plan est n) s k t e h =
      plan_tables-Finished est plan.load_order s.tables 0 k t e h
  project_body-Finished at (EventInput.table_progress name x y z) s k t e h =
      upsert_table-Finished _ s.tables k t e h (λ q. inl refl)
  project_body-Finished at (EventInput.table_finished name n ms ok error) s k t e h =
      upsert_table-Finished (finished_table s.tables at name n ms ok error) s.tables k t e h (λ q.
        inr (
          finished_table-total s.tables at name n ms ok error t (
            ap (λ i. lookup i s.tables)
              (sym (finished_table-name s.tables at name n ms ok error) ∙ q)
            ∙ e)))
  project_body-Finished at _ s k t e h = (t, e, (h, omega arith))

  -- In the fold of a batch, a table that is done or failed stays so and its total never shrinks, whatever
  -- events follow.
  pub project_loop-Finished :
      (es : List (MigrationEvent P D)) (s : Projected P D) (k : String) (t : TablePatch P)
      → lookup k s.tables ≡ some t
      → is_over t.status ≡ true
      → Finished k t (project_loop es s).tables
  unfolding project_loop project_event
  project_loop-Finished [] s k t e h = (t, e, (h, omega arith))
  project_loop-Finished (x ∷ es) s k t e h =
      let (t', e', q) = project_body-Finished x.at x.body _ k t e h in
      let (t'', e'', r) = project_loop-Finished es (project_event x s) k t' e' q.0 in
      (t'', e'', (r.0, omega (arith, q, r)))

  -- A table that is stored as done or failed stays so through any batch that is stored later, and the rows
  -- that it shows as copied and as its total never shrink.
  pub apply_projection-StaysOver :
      (now : ℕ) (p : Projection P D) (s : RunStore P D) (k : String) (row : TableRow P)
      → lookup k s.tables ≡ some row
      → is_over row.status ≡ true
      → (row' : TableRow P) × (lookup k (apply_projection now p s).tables ≡ some row')
        × StaysOver row row'
  unfolding apply_projection write_projection
  apply_projection-StaysOver now p s k row e h =
      elim (Bool-cases (no_events p.events && is_empty_patch p.run)) [
        | inl t ↦ rw t (row, e, (h, omega arith, omega arith))
        | inr f ↦ rw f (store_tables-StaysOver p.tables s.tables k row e h)
      ]
