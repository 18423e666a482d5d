-- ===== src/Ingest/Outcome.antt =====
-- The cursor and the run's outcome after a batch is stored.
use nodejs_movy_data.Prelude.{
  ℕ, max, ◌≤◌, ◌≡◌, refl, sym, ap, ◌∙◌, subst, Bool, true, false, String, Option, List, [], ◌∷◌,
  ◌++◌, arith, All, str_eq,
}
use nodejs_movy_data.Events.Types.{EventInput, MigrationEvent, SerialisedError}
use nodejs_movy_data.Client.State.{Platform}
use nodejs_movy_data.Ingest.Project.{
  Slot, absent, given, slot_or, RunPatch, EventRow, Projected, Projection, project_body,
  project_event, project_loop, empty_projected, project_events,
}
use nodejs_movy_data.Ingest.Store.{
  RunStore, stored_status, stored_seq, store_run, no_events, write_projection, apply_projection,
}

stored_seq-le : (old : ℕ) (p : Slot ℕ) → (old ≤ stored_seq old p) × (slot_or p 0 ≤ stored_seq old p)
unfolding stored_seq
stored_seq-le old absent = (omega arith, omega arith)
stored_seq-le old (given n) = (omega arith, omega arith)

stored_status-end :
    (old status : String)
    → str_eq status "running" ≡ false
    → stored_status old (given status) ≡ status
unfolding stored_status
stored_status-end old status h = rw h refl

module _ {P D : Type 0} where
  abbrev silent : EventInput P D → Bool
  silent (EventInput.run_started mode source target) = false
  silent (EventInput.run_finished status ms result error) = false
  silent _ = true

module _ {P D : Type 0} ⦃o : Platform P⦄ where
  -- The run's patch after one event.
  last_seq-project_body :
      (at : String) (b : EventInput P D) (s : Projected P D)
      → (project_body at b s).run.last_seq ≡ s.run.last_seq
  unfolding project_body
  last_seq-project_body at (EventInput.run_started mode source target) s = refl
  last_seq-project_body at _ s = refl

  project_event_seq :
      (e : MigrationEvent P D) (s : Projected P D)
      → (project_event e s).run.last_seq ≡ given (max (slot_or s.run.last_seq 0) e.seq)
  unfolding project_event
  project_event_seq e s = last_seq-project_body e.at e.body _

  -- The cursor of a patch, 0 where it has none.
  abbrev cursor : Projected P D → ℕ
  cursor s = slot_or s.run.last_seq 0

  cursor-project_event :
      (e : MigrationEvent P D) (s : Projected P D)
      → cursor (project_event e s) ≡ max (cursor s) e.seq
  cursor-project_event e s = ap (λ (x : Slot ℕ). slot_or x 0) (project_event_seq e s)

  cursor-project_loop :
      (es : List (MigrationEvent P D)) (s : Projected P D)
      → (cursor s ≤ cursor (project_loop es s)) × All (λ e. e.seq ≤ cursor (project_loop es s)) es
  unfolding project_loop
  cursor-project_loop [] s = (omega arith, tt)
  cursor-project_loop (e ∷ es) s =
      let (a, b) = cursor-project_loop es (project_event e s) in
      (omega (arith, a, cursor-project_event e s), (omega (arith, a, cursor-project_event e s), b))

  last_seq-write_projection :
      (now : ℕ) (p : Projection P D) (s : RunStore P D)
      → (write_projection now p s).run.last_seq ≡ stored_seq s.run.last_seq p.run.last_seq
  unfolding write_projection store_run
  last_seq-write_projection now p s = refl

  events-project_body :
      (at : String) (b : EventInput P D) (s : Projected P D) → (project_body at b s).rows ≡ s.rows
  unfolding project_body
  events-project_body at (EventInput.run_started mode source target) s = refl
  events-project_body at _ s = refl

  rows-project_event :
      (e : MigrationEvent P D) (s : Projected P D) → no_events (project_event e s).rows ≡ false
  unfolding project_event
  rows-project_event e s = ap no_events (events-project_body e.at e.body _) ∙ at_end s.rows _
    where
      at_end : (xs : List (EventRow P D)) (x : EventRow P D) → no_events (xs ++ x ∷ []) ≡ false
      at_end [] x = refl
      at_end (y ∷ ys) x = refl

  rows-project_loop :
      (es : List (MigrationEvent P D)) (s : Projected P D)
      → no_events s.rows ≡ false
      → no_events (project_loop es s).rows ≡ false
  unfolding project_loop
  rows-project_loop [] s h = h
  rows-project_loop (e ∷ es) s h = rows-project_loop es (project_event e s) (rows-project_event e s)

  -- A batch with an event is written.
  apply_projection-write :
      (now : ℕ) (e : MigrationEvent P D) (es : List (MigrationEvent P D)) (s : RunStore P D)
      → apply_projection now (project_events (e ∷ es)) s
        ≡ write_projection now (project_events (e ∷ es)) s
  unfolding apply_projection project_events project_loop
  apply_projection-write now e es s =
      rw
        (rows-project_loop es (project_event e empty_projected)
          (rows-project_event e empty_projected))
        refl

  project_events-run :
      (es : List (MigrationEvent P D))
      → (project_events es).run ≡ (project_loop es empty_projected).run
  unfolding project_events
  project_events-run es = refl

  written_seq :
      (now : ℕ) (e : MigrationEvent P D) (es : List (MigrationEvent P D)) (s : RunStore P D)
      → (apply_projection now (project_events (e ∷ es)) s).run.last_seq
        ≡ stored_seq s.run.last_seq (project_loop (e ∷ es) empty_projected).run.last_seq
  written_seq now e es s =
      ap (λ (t : RunStore P D). t.run.last_seq) (apply_projection-write now e es s)
      ∙ last_seq-write_projection now (project_events (e ∷ es)) s
      ∙ ap (λ (p : RunPatch). stored_seq s.run.last_seq p.last_seq) (project_events-run (e ∷ es))

  unwritten_seq :
      (now : ℕ) (t : RunStore P D)
      → t.run.last_seq ≤ (apply_projection now (project_events {P = P} {D = D} []) t).run.last_seq
  unfolding apply_projection project_events project_loop empty_projected
  unwritten_seq now t = omega arith

  -- The stored cursor never goes back, and covers every event of the batch.
  pub cursor_climbs :
      (now : ℕ) (es : List (MigrationEvent P D)) (s : RunStore P D)
      → (s.run.last_seq ≤ (apply_projection now (project_events es) s).run.last_seq)
        × All (λ e. e.seq ≤ (apply_projection now (project_events es) s).run.last_seq) es
  cursor_climbs now [] s = (unwritten_seq now s, tt)
  cursor_climbs now (e ∷ es) s =
      let p : Slot ℕ = (project_loop (e ∷ es) empty_projected).run.last_seq in
      let (old, new) = stored_seq-le s.run.last_seq p in
      let (_, covered) = cursor-project_loop (e ∷ es) empty_projected in
      subst (λ n. (s.run.last_seq ≤ n) × All (λ x. x.seq ≤ n) (e ∷ es))
        (sym (written_seq now e es s)) (old, raise (e ∷ es) _ _ new covered)
    where
      raise :
          (xs : List (MigrationEvent P D)) (m n : ℕ)
          → m ≤ n
          → All (λ x. x.seq ≤ m) xs
          → All (λ x. x.seq ≤ n) xs
      raise [] m n h a = tt
      raise (x ∷ xs) m n h (a, b) = (omega (arith, h, a), raise xs m n h b)

  -- Events that set no status.
  abbrev pub is_quiet : MigrationEvent P D → Bool
  is_quiet e = silent e.body

  status-project_body :
      (at : String) (b : EventInput P D) (s : Projected P D)
      → silent b ≡ true
      → (project_body at b s).run.status ≡ s.run.status
  unfolding project_body
  status-project_body at (EventInput.run_started mode source target) s h = cc
  status-project_body at (EventInput.run_finished status ms result error) s h = cc
  status-project_body at _ s h = refl

  status-project_loop :
      (es : List (MigrationEvent P D)) (s : Projected P D)
      → All (λ e. is_quiet e ≡ true) es
      → (project_loop es s).run.status ≡ s.run.status
  unfolding project_loop project_event
  status-project_loop [] s h = refl
  status-project_loop (e ∷ es) s (q, h) =
      status-project_loop es _ h ∙ status-project_body e.at e.body _ q

  status-after :
      (e : MigrationEvent P D) (es : List (MigrationEvent P D)) (s : Projected P D)
      → All (λ x. is_quiet x ≡ true) es
      → (project_loop (e ∷ es) s).run.status ≡ (project_event e s).run.status
  unfolding project_loop
  status-after e es s q = status-project_loop es (project_event e s) q

  project_loop-append :
      (xs ys : List (MigrationEvent P D)) (s : Projected P D)
      → project_loop (xs ++ ys) s ≡ project_loop ys (project_loop xs s)
  unfolding project_loop
  project_loop-append [] ys s = refl
  project_loop-append (x ∷ xs) ys s = project_loop-append xs ys (project_event x s)

  status-project_event :
      (run_id at status : String) (seq duration_ms : ℕ) (result : Option D)
      (error : Option SerialisedError) (s : Projected P D)
      → (project_event
          (record {
            run_id = run_id;
            seq = seq;
            at = at;
            body = EventInput.run_finished status duration_ms result error;
          })
          s).run.status
        ≡ given status
  unfolding project_event project_body
  status-project_event run_id at status seq ms result error s = refl

  status-write_projection :
      (now : ℕ) (p : Projection P D) (s : RunStore P D)
      → (write_projection now p s).run.status ≡ stored_status s.run.status p.run.status
  unfolding write_projection store_run
  status-write_projection now p s = refl

  -- The outcome that `run_finished` reports is the one stored, whatever came before it in the batch and
  -- whatever events but another start or end come after it.
  pub outcome_stored :
      (now : ℕ) (xs ys : List (MigrationEvent P D)) (run_id at status : String)
      (seq duration_ms : ℕ) (result : Option D) (error : Option SerialisedError) (s : RunStore P D)
      → str_eq status "running" ≡ false
      → All (λ e. is_quiet e ≡ true) ys
      → (apply_projection now
          (project_events (
            xs
            ++ record {
              run_id = run_id;
              seq = seq;
              at = at;
              body = EventInput.run_finished status duration_ms result error;
            }
              ∷ ys))
          s).run.status
        ≡ status
  outcome_stored now xs ys run_id at status seq ms result error s h q = stored xs
    where
      fin : MigrationEvent P D
      fin = record {
        run_id = run_id;
        seq = seq;
        at = at;
        body = EventInput.run_finished status ms result error;
      }

      patched :
          (zs : List (MigrationEvent P D))
          → (project_events (zs ++ fin ∷ ys)).run.status ≡ given status
      patched zs =
          ap (λ (p : RunPatch). p.status) (project_events-run (zs ++ fin ∷ ys))
          ∙ ap (λ (t : Projected P D). t.run.status)
              (project_loop-append zs (fin ∷ ys) empty_projected)
          ∙ status-after fin ys (project_loop zs empty_projected) q
          ∙ status-project_event run_id at status seq ms result error
              (project_loop zs empty_projected)

      stored :
          (zs : List (MigrationEvent P D))
          → (apply_projection now (project_events (zs ++ fin ∷ ys)) s).run.status ≡ status
      stored [] =
          ap (λ (t : RunStore P D). t.run.status) (apply_projection-write now fin ys s)
          ∙ status-write_projection now _ s
          ∙ ap (stored_status s.run.status) (patched [])
          ∙ stored_status-end s.run.status status h
      stored (z ∷ zs) =
          ap (λ (t : RunStore P D). t.run.status) (apply_projection-write now z (zs ++ fin ∷ ys) s)
          ∙ status-write_projection now _ s
          ∙ ap (stored_status s.run.status) (patched (z ∷ zs))
          ∙ stored_status-end s.run.status status h
