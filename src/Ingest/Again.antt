-- ===== src/Ingest/Again.antt =====
-- A batch that is stored twice: the journal tailer re-delivers what IPC has delivered.
use nodejs_movy_data.Prelude.{
  ℕ, max, ◌≡◌, refl, sym, ap, ◌∙◌, inl, inr, Bool, true, false, not, ◌&&◌, ◌||◌, String, Option,
  none, some, List, [], ◌∷◌, ◌++◌, arith, All, All-Has, Has-of_lookup, Dict, lookup, IsMap,
  insert-IsMap, any, ◌==◌, if◌then◌else◌, Bool-cases, or_else,
}
use nodejs_movy_data.Events.Types.{EventInput, MigrationEvent}
use nodejs_movy_data.Client.State.{Platform, TableStatus}
use nodejs_movy_data.Client.Fold.{is_over}
use nodejs_movy_data.Client.Keyed.{IsDistinct, IsKeyed, insert-IsKeyed, values-IsDistinct}
use nodejs_movy_data.Ingest.Project.{
  Slot, absent, given, slot_or, RunPatch, StepPatch, TablePatch, EventRow, Projected, Projection,
  over_step, over_table, merge_step, upsert_step, merge_table, upsert_table, plan_tables,
  project_body, project_event, project_loop, empty_projected, project_events,
}
use nodejs_movy_data.Ingest.Store.{
  nullable, flat, RunColumns, StepRow, TableRow, RunStore, store_events, put_step, store_steps,
  put_table, store_tables, stored_status, stored_seq, some_or, store_run, no_events, is_empty_patch,
  write_projection, apply_projection,
}
use nodejs_movy_data.Ingest.Upserts.{upsert_all, upsert_all_twice}

module _ {P D : Type 0} where
  abbrev is_stored : EventRow P D → List (EventRow P D) → Bool
  is_stored e rows = any (λ (r : EventRow P D). r.seq == e.seq) rows

  is_stored-append :
      (e : EventRow P D) (xs ys : List (EventRow P D))
      → is_stored e (xs ++ ys) ≡ (is_stored e xs || is_stored e ys)
  is_stored-append e [] ys = refl
  is_stored-append e (x ∷ xs) ys = elim (Bool-cases (x.seq == e.seq)) [
    | inl t ↦ rw t refl
    | inr f ↦ rw f (is_stored-append e xs ys)
  ]

  store_events-keeps :
      (e : EventRow P D) (es rows : List (EventRow P D))
      → is_stored e rows ≡ true
      → is_stored e (store_events es rows) ≡ true
  unfolding store_events
  store_events-keeps e [] rows h = h
  store_events-keeps e (x ∷ es) rows h = elim (Bool-cases (is_stored x rows)) [
    | inl t ↦ rw t (store_events-keeps e es rows h)
    | inr f ↦
        rw f
          (store_events-keeps e es (rows ++ x ∷ []) (is_stored-append e rows (x ∷ []) ∙ rw h refl))
  ]

  store_events_stores :
      (es rows : List (EventRow P D)) → All (λ e. is_stored e (store_events es rows) ≡ true) es
  unfolding store_events
  store_events_stores [] rows = tt
  store_events_stores (e ∷ es) rows = (store_events-keeps e es _ now, store_events_stores es _)
    where
      at_end : (b : Bool) → (b || (e.seq == e.seq || false)) ≡ true
      at_end b = ground arith

      now : is_stored e (if is_stored e rows then rows else rows ++ e ∷ []) ≡ true
      now = elim (Bool-cases (is_stored e rows)) [
        | inl t ↦ rw t t
        | inr f ↦ rw f (is_stored-append e rows (e ∷ []) ∙ at_end (is_stored e rows))
      ]

  store_events-none :
      (es rows : List (EventRow P D))
      → All (λ e. is_stored e rows ≡ true) es
      → store_events es rows ≡ rows
  unfolding store_events
  store_events-none [] rows h = refl
  store_events-none (e ∷ es) rows (t, h) = rw t (store_events-none es rows h)

  store_events_twice :
      (es rows : List (EventRow P D))
      → store_events es (store_events es rows) ≡ store_events es rows
  store_events_twice es rows =
      store_events-none es (store_events es rows) (store_events_stores es rows)

module _ {A : Type 0} where
  or_else_self : (a : Option A) → or_else a a ≡ a
  or_else_self none = refl
  or_else_self (some a) = refl

  or_else_again : (a b : Option A) → or_else a (or_else a b) ≡ or_else a b
  or_else_again none b = refl
  or_else_again (some a) b = refl

  or_else_after : (a b : Option A) → or_else (or_else b a) a ≡ or_else b a
  or_else_after none none = refl
  or_else_after (some a) none = refl
  or_else_after a (some b) = refl

  slot_or_again : (p : Slot A) (a : A) → slot_or p (slot_or p a) ≡ slot_or p a
  slot_or_again absent a = refl
  slot_or_again (given b) a = refl

put_step_twice :
    {D : Type 0} (p : StepPatch D) (x : Option (StepRow D))
    → put_step p (some (put_step p x)) ≡ put_step p x
unfolding put_step
put_step_twice p none =
    rw
      (
        or_else_self (flat p.detail),
        or_else_self (nullable p.duration_ms),
        or_else_self (nullable p.started_at),
        or_else_self (nullable p.finished_at),
      )
      refl
put_step_twice p (some row) =
    rw
      (
        or_else_again (flat p.detail) row.detail,
        or_else_again (nullable p.duration_ms) row.duration_ms,
        or_else_after (nullable p.started_at) row.started_at,
        or_else_again (nullable p.finished_at) row.finished_at,
      )
      refl

stored_status_twice :
    (old : String) (p : Slot String) → stored_status (stored_status old p) p ≡ stored_status old p
unfolding stored_status
stored_status_twice old absent = refl
stored_status_twice old (given s) = ground arith

stored_seq_twice : (old : ℕ) (p : Slot ℕ) → stored_seq (stored_seq old p) p ≡ stored_seq old p
unfolding stored_seq
stored_seq_twice old absent = refl
stored_seq_twice old (given n) = omega arith

status_self : (a : TableStatus) → (if is_over a && not (is_over a) then a else a) ≡ a
status_self a = elim (Bool-cases (is_over a && not (is_over a))) [
  | inl t ↦ rw t refl
  | inr f ↦ rw f refl
]

abbrev kept_status : TableStatus → TableStatus → TableStatus
kept_status old new = if is_over old && not (is_over new) then old else new

kept_status_again :
    (old new : TableStatus) → kept_status (kept_status old new) new ≡ kept_status old new
kept_status_again old new = elim (Bool-cases (is_over old && not (is_over new))) [
  | inl t ↦ rw (t, t) refl
  | inr f ↦ rw f (status_self new)
]

max_self : (n : ℕ) → max n n ≡ n
max_self n = omega arith

max_again : (m n : ℕ) → max (max m n) n ≡ max m n
max_again m n = omega arith

module _ {P : Type 0} ⦃o : Platform P⦄ where
  put_table_twice :
      (same : (a : P) → o.larger a a ≡ a)
      (again : (a b : P) → o.larger (o.larger a b) b ≡ o.larger a b) (p : TablePatch P)
      (x : Option (TableRow P))
      → put_table p (some (put_table p x)) ≡ put_table p x
  unfolding put_table
  put_table_twice same again p none =
      rw
        (
          status_self p.status,
          max_self p.rows_done,
          max_self p.rows_total,
          same p.pct,
          or_else_self (nullable p.duration_ms),
          or_else_self (flat p.error),
          or_else_self (nullable p.finished_at),
        )
        refl
  put_table_twice same again p (some row) =
      rw
        (
          kept_status_again row.status p.status,
          max_again row.rows_done p.rows_done,
          max_again row.rows_total p.rows_total,
          again row.pct p.pct,
          or_else_again (nullable p.duration_ms) row.duration_ms,
          or_else_again (flat p.error) row.error,
          or_else_again (nullable p.finished_at) row.finished_at,
        )
        refl

some_or_again : {A : Type 0} (p : Slot A) (x : Option A) → some_or p (some_or p x) ≡ some_or p x
some_or_again absent x = refl
some_or_again (given a) x = refl

store_run_twice :
    (now : ℕ) (p : RunPatch) (row : RunColumns)
    → store_run now p (store_run now p row) ≡ store_run now p row
unfolding store_run
store_run_twice now p row =
    rw
      (
        stored_status_twice row.status p.status,
        stored_seq_twice row.last_seq p.last_seq,
        slot_or_again p.rows_done row.rows_done,
        slot_or_again p.rows_total row.rows_total,
        slot_or_again p.tables_done row.tables_done,
        slot_or_again p.tables_total row.tables_total,
        some_or_again p.started_at row.started_at,
        some_or_again p.finished_at row.finished_at,
        some_or_again p.duration_ms row.duration_ms,
        slot_or_again p.error_name row.error_name,
        slot_or_again p.error_message row.error_message,
      )
      refl

lookup_key :
    {A : Type 0} (key : A → String) (k : String) (v : A) (m : Dict A)
    → IsKeyed key m
    → lookup k m ≡ some v
    → key v ≡ k
lookup_key key k v m h e = All-Has (λ x. key x.1 ≡ x.0) (k, v) m h (Has-of_lookup k v m e)

abbrev IsKeyMap : {A : Type 0} → (A → String) → Dict A → Type 0
IsKeyMap key m = IsMap m × IsKeyed key m

module _ {D : Type 0} where
  upsert_step-IsKeyMap :
      (p : StepPatch D) (m : Dict (StepPatch D))
      → IsKeyMap (λ s. s.step_id) m
      → IsKeyMap (λ s. s.step_id) (upsert_step p m)
  unfolding upsert_step merge_step
  upsert_step-IsKeyMap p m (u, k) = (
    insert-IsMap p.step_id _ m u,
    insert-IsKeyed (λ s. s.step_id) _ m p.step_id (named (lookup p.step_id m)) k,
  )
    where
      named : (x : Option (StepPatch D)) → (over_step p x).step_id ≡ p.step_id
      named none = refl
      named (some v) = refl

module _ {P : Type 0} where
  upsert_table-IsKeyMap :
      (p : TablePatch P) (m : Dict (TablePatch P))
      → IsKeyMap (λ t. t.table_name) m
      → IsKeyMap (λ t. t.table_name) (upsert_table p m)
  unfolding upsert_table merge_table
  upsert_table-IsKeyMap p m (u, k) = (
    insert-IsMap p.table_name _ m u,
    insert-IsKeyed (λ t. t.table_name) _ m p.table_name (named (lookup p.table_name m) refl) k,
  )
    where
      named :
          (x : Option (TablePatch P))
          → lookup p.table_name m ≡ x
          → (over_table p x).table_name ≡ p.table_name
      named none h = refl
      named (some v) h = elim (Bool-cases (is_over v.status && not (is_over p.status))) [
        | inl t ↦ rw t (lookup_key (λ t. t.table_name) p.table_name v m k h)
        | inr f ↦ rw f refl
      ]

abbrev IsWell : {P D : Type 0} → Projected P D → Type 0
IsWell s = IsKeyMap (λ x. x.step_id) s.steps × IsKeyMap (λ x. x.table_name) s.tables

module _ {P : Type 0} ⦃o : Platform P⦄ where
  plan_tables-IsKeyMap :
      (est : Dict ℕ) (names : List String) (m : Dict (TablePatch P)) (total : ℕ)
      → IsKeyMap (λ t. t.table_name) m
      → IsKeyMap (λ t. t.table_name) (plan_tables est names m total).0
  unfolding plan_tables
  plan_tables-IsKeyMap est [] m total h = h
  plan_tables-IsKeyMap est (name ∷ names) m total h =
      plan_tables-IsKeyMap est names _ _ (upsert_table-IsKeyMap _ m h)

module _ {D : Type 0} where
  store_steps-upsert :
      (ps : List (StepPatch D)) (m : Dict (StepRow D))
      → store_steps ps m ≡ upsert_all (λ p. p.step_id) put_step ps m
  unfolding store_steps
  store_steps-upsert [] m = refl
  store_steps-upsert (p ∷ ps) m = store_steps-upsert ps _

module _ {P : Type 0} ⦃o : Platform P⦄ where
  store_tables-upsert :
      (ps : List (TablePatch P)) (m : Dict (TableRow P))
      → store_tables ps m ≡ upsert_all (λ p. p.table_name) put_table ps m
  unfolding store_tables
  store_tables-upsert [] m = refl
  store_tables-upsert (p ∷ ps) m = store_tables-upsert ps _

module _ {P D : Type 0} ⦃o : Platform P⦄ where
  project_body-IsWell :
      (at : String) (b : EventInput P D) (s : Projected P D)
      → IsWell s
      → IsWell (project_body at b s)
  unfolding project_body
  project_body-IsWell at (EventInput.step_started step_id ordinal) s (a, b) =
      (upsert_step-IsKeyMap _ s.steps a, b)
  project_body-IsWell at (EventInput.step_finished step_id status ms detail error) s (a, b) =
      (upsert_step-IsKeyMap _ s.steps a, b)
  project_body-IsWell at (EventInput.plan_ready plan est n) s (a, b) =
      (a, plan_tables-IsKeyMap est plan.load_order s.tables 0 b)
  project_body-IsWell at (EventInput.table_progress name x y z) s (a, b) =
      (a, upsert_table-IsKeyMap _ s.tables b)
  project_body-IsWell at (EventInput.table_finished name x y z w) s (a, b) =
      (a, upsert_table-IsKeyMap _ s.tables b)
  project_body-IsWell at _ s h = h

  project_loop-IsWell :
      (es : List (MigrationEvent P D)) (s : Projected P D) → IsWell s → IsWell (project_loop es s)
  unfolding project_loop project_event
  project_loop-IsWell [] s h = h
  project_loop-IsWell (e ∷ es) s h = project_loop-IsWell es _ (project_body-IsWell e.at e.body _ h)

  -- A projection lists no step and no table twice.
  project_events-IsDistinct :
      (es : List (MigrationEvent P D))
      → IsDistinct (λ x. x.step_id) (project_events es).steps
        × IsDistinct (λ x. x.table_name) (project_events es).tables
  unfolding project_events empty_projected
  project_events-IsDistinct es =
      let ((u, k), (u', k')) = project_loop-IsWell es empty_projected ((tt, tt), (tt, tt)) in
      (values-IsDistinct (λ x. x.step_id) _ u k, values-IsDistinct (λ x. x.table_name) _ u' k')

  write_projection_twice :
      (same : (a : P) → o.larger a a ≡ a)
      (again : (a b : P) → o.larger (o.larger a b) b ≡ o.larger a b) (now : ℕ) (p : Projection P D)
      (s : RunStore P D)
      → IsDistinct (λ x. x.step_id) p.steps × IsDistinct (λ x. x.table_name) p.tables
      → write_projection now p (write_projection now p s) ≡ write_projection now p s
  unfolding write_projection
  write_projection_twice same again now p s (d, d') =
      rw (store_run_twice now p.run s.run, store_events_twice p.events s.events, steps, tables) refl
    where
      steps : store_steps p.steps (store_steps p.steps s.steps) ≡ store_steps p.steps s.steps
      steps =
          store_steps-upsert p.steps (store_steps p.steps s.steps)
          ∙ ap (upsert_all (λ x. x.step_id) put_step p.steps) (store_steps-upsert p.steps s.steps)
          ∙ upsert_all_twice (λ x. x.step_id) put_step p.steps s.steps put_step_twice d
          ∙ sym (store_steps-upsert p.steps s.steps)

      tables :
          store_tables p.tables (store_tables p.tables s.tables) ≡ store_tables p.tables s.tables
      tables =
          store_tables-upsert p.tables (store_tables p.tables s.tables)
          ∙ ap (upsert_all (λ x. x.table_name) put_table p.tables)
              (store_tables-upsert p.tables s.tables)
          ∙ upsert_all_twice (λ x. x.table_name) put_table p.tables s.tables
              (put_table_twice same again) d'
          ∙ sym (store_tables-upsert p.tables s.tables)

  -- Storing a batch of events a second time, at the same clock reading, changes nothing: no event is
  -- doubled, the cursor, the run's columns and every step and table row stay as the first time left them.
  -- Of the database's GREATEST on percentages it uses only that the larger of a value and itself is that
  -- value and that taking the larger with one value twice is taking it once.
  pub apply_projection_twice :
      (same : (a : P) → o.larger a a ≡ a)
      (again : (a b : P) → o.larger (o.larger a b) b ≡ o.larger a b) (now : ℕ)
      (es : List (MigrationEvent P D)) (s : RunStore P D)
      → apply_projection now (project_events es) (apply_projection now (project_events es) s)
        ≡ apply_projection now (project_events es) s
  unfolding apply_projection write_projection
  apply_projection_twice same again now es s =
      twice (no_events (project_events es).events && is_empty_patch (project_events es).run)
    where
      p : Projection P D
      p = project_events es

      written : write_projection now p (write_projection now p s) ≡ write_projection now p s
      written = write_projection_twice same again now p s (project_events-IsDistinct es)

      twice :
          (b : Bool)
          → (if b
              then (if b then s else write_projection now p s)
              else write_projection now p (if b then s else write_projection now p s))
            ≡ (if b then s else write_projection now p s)
      twice true = refl
      twice false = written
