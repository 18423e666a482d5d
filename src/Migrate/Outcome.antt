-- ===== src/Migrate/Outcome.antt =====
-- The whole run against the machine of Migrate.Lifecycle.
use nodejs_movy_data.Prelude.{
  ℕ, suc, String, true, false, ◌&&◌, Option, none, some, List, map, ◌≡◌, refl, inl, inr, Bool,
  arith, ◌⊎◌, if◌then◌else◌, Bool-cases, ◌==◌, str_eq,
}
use nodejs_movy_data.Events.Types.{LogLevel, log, run_finished}
use nodejs_movy_data.Migrate.Schema.{DatabaseSchema, SchemaDiff, MigrationResult, StepDetail}
use nodejs_movy_data.Migrate.Failure.{Failure, is_cancelled}
use nodejs_movy_data.Migrate.Effects.{
  Result, ok, err, Session, Action, called, and_then, pure, ◌>>=◌,
}
use nodejs_movy_data.Migrate.Orchestrator.{
  step, validate_connections, create_database, compare_schemas, sync_schema, copy_data,
  enable_triggers, load_steps, run_steps, compensate, warned, settled, finished_with, begin, run,
}
use nodejs_movy_data.Migrate.Ports.{Config, Ports, index_of, migration_step_order}
use nodejs_movy_data.Migrate.Triples.{
  Post, and_then-Post, Post-of_kept, Post-weaken, Keeps, and_then-kept,
}
use nodejs_movy_data.Migrate.Actions.{
  validate_connections-kept, create_database-kept, compare_schemas-kept, copy_data-Post,
}
use nodejs_movy_data.Migrate.Lifecycle.{
  Phase, idle, broken, told, over, between, inside, advance, trace, last_step, copy_step, name_at,
  may_report,
}
use nodejs_movy_data.Migrate.Stages.{At, Calm, Calm-At, emitted-At, emitted-Calm, Stopped, step-At}

module _ {W P : Type 0} (cfg : Config) (ports : Ports W P) (watched : cfg.watched ≡ true) where
  -- What an action inside a step comes to.
  abbrev Ends : {A : Type 0} → ℕ → Action W P A → Type 0
  Ends n action =
      (s : Session W P)
      → Calm (inside n) s
      → Post (λ a. Calm (inside n)) (λ e. At (inside n)) (action s)

  kept-Ends :
      {A : Type 0} (n : ℕ) (action : Action W P A) → Keeps (Calm (inside n)) action → Ends n action
  kept-Ends n action k s h =
      Post-weaken (action s) (Post-of_kept (Calm (inside n)) (action s) (k s h)) (λ a u j. j)
        (λ e u j. Calm-At (inside n) u j)

  sync-Ends : (n : ℕ) (d : SchemaDiff) → Ends n (sync_schema cfg ports d)
  unfolding sync_schema
  sync-Ends n d = kept-Ends n _ (λ s h. h)

  enable-Ends : (n : ℕ) (names : List String) → Ends n (enable_triggers cfg ports names)
  unfolding enable_triggers
  enable-Ends n names = kept-Ends n _ (λ s h.
      and_then-kept (Calm (inside n)) _ (called s (ports.enable_triggers names s.outside))
        (λ a u k. k) h)

  copy-Ends : (schema : DatabaseSchema) → Ends copy_step (copy_data cfg ports schema)
  copy-Ends schema =
      copy_data-Post cfg ports (Calm (inside copy_step)) (At (inside copy_step)) schema
        (λ e u c k. emitted-Calm cfg.watched (inside copy_step) (inside copy_step) e u watched c k)
        (λ u k. Calm-At (inside copy_step) u k) (λ l u r k. (k.0, inr (refl, r))) (λ u k. k)
        (λ p n est u k. k)

  -- A step with what follows it.
  next :
      {A B : Type 0} (n : ℕ) (step_id : String) (action : Action W P A)
      (detail : A → Option StepDetail) (f : A → Action W P B)
      → (n == last_step) ≡ false
      → index_of step_id migration_step_order ≡ n
      → str_eq step_id (name_at n migration_step_order) ≡ true
      → Ends n action
      → ((a : A) (s : Session W P)
          → Calm (between (suc n)) s
          → Post (λ r. Calm (between 9)) Stopped (f a s))
      → (s : Session W P) → Calm (between n) s
      → Post (λ r. Calm (between 9)) Stopped ((step cfg ports step_id action detail >>= f) s)
  next n step_id action detail f m i q k after s h =
      and_then-Post (λ a. Calm (between (suc n))) (λ r. Calm (between 9)) Stopped f _
        (step-At cfg ports watched n step_id action detail s m i q k h) after

  -- Steps 4 to 8, from the last to the first.
  load-Calm :
      (schema : DatabaseSchema) (d : SchemaDiff) (s : Session W P)
      → Calm (between 4) s
      → Post (λ r. Calm (between 9)) Stopped (load_steps cfg ports schema d s)
  unfolding load_steps index_of and_then
  load-Calm schema d s h =
      let names = map (λ t. t.name) schema.tables in
      next 4 "disable_triggers" _ _ _ refl refl refl (kept-Ends 4 _ (λ u k. k))
        (λ a.
          next 5 "migrate_data" (copy_data cfg ports schema) _ _ refl refl refl (copy-Ends schema)
            (λ r.
              next 6 "enable_triggers" (enable_triggers cfg ports names) _ _ refl refl refl
                (enable-Ends 6 names)
                (λ b. next 7 "create_indexes" _ _ _ refl refl refl (kept-Ends 7 _ (λ u k. k)) (λ c.
                  next 8 "reset_sequences" _ _ (λ x. pure r) refl refl refl
                    (kept-Ends 8 _ (λ u k. k)) (λ x u k. k)))))
        _ h

  run_steps-Calm :
      (s : Session W P)
      → Calm (between 0) s
      → Post (λ r. Calm (between 9)) Stopped (run_steps cfg ports s)
  unfolding run_steps index_of
  run_steps-Calm =
      next 0 "validate_connections" (validate_connections cfg ports) _ _ refl refl refl
        (kept-Ends 0 _ (
          validate_connections-kept cfg ports (Calm (inside 0)) (λ d u k. k) (λ u k. k) (λ u k. k)))
        (λ a.
          next 1 "create_database" (create_database cfg ports) _ _ refl refl refl
            (kept-Ends 1 _
              (create_database-kept cfg ports (Calm (inside 1)) (λ d u k. k) (λ u k. k) (λ u k. k)))
            (λ b.
              next 2 "inspect_and_diff" (compare_schemas cfg ports) _ _ refl refl refl
                (kept-Ends 2 _
                  (compare_schemas-kept cfg ports (Calm (inside 2)) (λ u k. k) (λ u k. k)))
                (λ c.
                  next 3 "sync_schema" (sync_schema cfg ports c.1) _ _ refl refl refl
                    (sync-Ends 3 c.1) (λ x. load-Calm c.0 c.1))))

  -- The compensation says nothing, or warns, and then only of a cancelled run.
  module _ (p : Phase) (b : Bool)
      (warns : (m : String) → advance {P = P} p (log LogLevel.warn m none) ≡ some (told b))
      (mild : may_report p ≡ true → b ≡ true) where
    warned-At :
        (r : Result Unit × Session W P)
        → At p r.1
        → At p (warned cfg ports r) ⊎ At (told b) (warned cfg ports r)
    warned-At (ok a, s) h = inl h
    warned-At (err e, s) h = inr (emitted-At cfg.watched p (told b) _ s watched (warns _) mild h)

    compensate-At :
        (e : Failure) (s : Session W P)
        → At p s
        → At p (compensate cfg ports e s)
          ⊎ ((is_cancelled e ≡ true) × At (told b) (compensate cfg ports e s))
    unfolding compensate
    compensate-At e s h = elim (Bool-cases (is_cancelled e && s.triggers_disabled)) [
      | inl t ↦
          rw t (elim (warned-At (called s (ports.enable_triggers s.disabled_tables s.outside)) h) [
            | inl k ↦ inl k
            | inr k ↦ inr ((and_true _ _ t), k)
          ])
      | inr f ↦ rw f (inl h)
    ]
      where
        and_true : (x y : Bool) → (x && y) ≡ true → x ≡ true
        and_true x y q = ground arith

    ended-At :
        (t : ℕ) (e : Failure) (s : Session W P)
        → ((d : _) (x : _) (f : _)
            → advance {P = P} p
                (run_finished (if is_cancelled e then "cancelled" else "failed") d x f)
              ≡ some (over b))
        → At p s
        → At (over b) (finished_with cfg ports t e (compensate cfg ports e s)).1
    unfolding advance
    ended-At t e s ends h = elim (compensate-At e s h) [
      | inl k ↦
          emitted-At cfg.watched p (over b) _ (compensate cfg ports e s) watched (ends _ _ _) mild k
      | inr (c, k) ↦
          emitted-At cfg.watched (told b) (over b) _ (compensate cfg ports e s) watched (rw c refl)
            (λ m. m) k
    ]

  finished_with-At :
      (t : ℕ) (e : Failure) (s : Session W P)
      → Stopped e s
      → (b : Bool) × At (over b) (finished_with cfg ports t e (compensate cfg ports e s)).1
  unfolding advance
  finished_with-At t e s (inl (b, h)) = (
    b,
    ended-At (broken b) b (λ m. refl) (λ m. m) t e s
        (λ d x f. elim (Bool-cases (is_cancelled e)) [ inl c ↦ rw c refl | inr c ↦ rw c refl ]) h,
  )
  finished_with-At t e s (inr (n, more, h, c)) = (
    false,
    ended-At (between n) false (λ m. rw more refl) (λ m. m) t e s (λ d x f. rw (c, more) refl)
        (Calm-At (between n) s h),
  )

  settled-At :
      (t : ℕ) (r : Result MigrationResult × Session W P)
      → Post (λ x. Calm (between 9)) Stopped r
      → (b : Bool) × At (over b) (settled cfg ports t r).1
  unfolding advance
  settled-At t (ok x, s) h =
      let (k, l) =
        emitted-Calm cfg.watched (between 9) (over false) _ s watched
          (elim (Bool-cases x.success) [ inl y ↦ rw y refl | inr n ↦ rw n refl ]) h in
      (false, (k, inl l))
  settled-At t (err e, s) h = finished_with-At t e s h

  -- Whatever the databases, the clock and the abort signal do, and wherever the workers of a copy that
  -- threw report late, the events of a run that has a context are accepted by the machine of
  -- Migrate.Lifecycle from its first phase to its last: the run starts once; its steps come in the order
  -- of the list, each finished before the next starts; tables are reported only inside the copying step,
  -- or at any point after it if it was the step that failed; apart from these reports nothing follows a
  -- failed step but the end, and before that one warning at most, which only a cancelled run gives;
  -- success is told only after all nine steps; and nothing but such reports follows the end.
  pub run-refines_lifecycle :
      (w : W) → (late : Bool) × (trace (some idle) (run cfg ports w).1.events ≡ some (over late))
  unfolding run trace advance
  run-refines_lifecycle w =
      let (b, h) =
        settled-At (ports.now w) (run_steps cfg ports (begin cfg ports w))
          (run_steps-Calm (begin cfg ports w) (rw watched (refl, refl))) in
      (b, h.0)
