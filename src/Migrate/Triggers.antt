-- ===== src/Migrate/Triggers.antt =====
-- What becomes of the destination's triggers.
use nodejs_movy_data.Prelude.{
  ℕ, String, Bool, true, false, ◌&&◌, Option, none, List, ◌∷◌, map, ◌≡◌, refl, sym, subst, ◌⊎◌, inl,
  inr, Bool-cases, if◌then◌else◌, Has, Has-append_left, Has-append_right, Dict,
}
use nodejs_movy_data.Events.Types.{LogLevel, log, TableMigrationPlan}
use nodejs_movy_data.Migrate.Schema.{DatabaseSchema, SchemaDiff, MigrationResult, StepDetail}
use nodejs_movy_data.Migrate.Failure.{Failure, is_cancelled}
use nodejs_movy_data.Migrate.Effects.{
  Result, ok, err, Event, Session, Action, called, emitted, first, and_then, pure, ◌>>=◌,
}
use nodejs_movy_data.Migrate.Orchestrator.{
  step, finish_step, validate_connections, create_database, compare_schemas, sync_schema, copy_data,
  enable_triggers, note_enabled, load_steps, run_steps, compensate, warned, could_not, settled,
  close_connections, started, fresh, begin, run, finished_with,
}
use nodejs_movy_data.Migrate.Ports.{Config, Ports}
use nodejs_movy_data.Migrate.Triples.{Post, and_then-Post, Post-of_kept, Post-weaken, Keeps}
use nodejs_movy_data.Migrate.Actions.{
  validate_connections-kept, create_database-kept, compare_schemas-kept, copy_data-Post,
}

module _ {W P : Type 0} where
  -- What the adapters say of the triggers in the destination: `Off names w`, that none is disabled but
  -- on the tables of `names`; `On w`, that none is. Enabling works if it returns; a call that has
  -- nothing to do with triggers leaves them.
  pub record TriggerContract (ports : Ports W P) (On : W → Type 0) (Off : List String → W → Type 0)
      : Type 0 where
    pub on_off : (names : List String) (w : W) → On w → Off names w
    pub disables :
        (names : List String) (w : W) → Off names w → Off names (ports.disable_triggers names w).1
    pub enables :
        (names : List String) (w : W)
        → Off names w
        → (ports.enable_triggers names w).0 ≡ ok tt
        → On (ports.enable_triggers names w).1
    pub tries :
        (names : List String) (w : W) → Off names w → Off names (ports.enable_triggers names w).1
    pub wait_on : (d : ℕ) (w : W) → On w → On (ports.wait d w)
    pub source_on : (w : W) → On w → On (ports.connect_source w).1
    pub admin_on : (w : W) → On w → On (ports.connect_admin w).1
    pub dest_on : (w : W) → On w → On (ports.connect_dest w).1
    pub ensure_on : (d : String) (w : W) → On w → On (ports.ensure_database d w).1
    pub inspect_source_on : (w : W) → On w → On (ports.inspect_source w).1
    pub inspect_dest_on : (w : W) → On w → On (ports.inspect_dest w).1
    pub apply_on : (d : SchemaDiff) (w : W) → On w → On (ports.apply d w).1
    pub estimates_off : (ns : List String) (w : W) → Off ns w → Off ns (ports.row_estimates w).1
    pub migrate_off :
        (ns : List String) (p : TableMigrationPlan) (n : ℕ) (est : Dict ℕ) (w : W)
        → Off ns w
        → Off ns (ports.migrate p n est w).1.1
    pub indexes_on : (d : SchemaDiff) (w : W) → On w → On (ports.create_indexes d w).1
    pub sequences_on : (d : DatabaseSchema) (w : W) → On w → On (ports.reset_sequences d w).1
    pub end_on : (w : W) → On w → On (ports.end_connections w)

  module _ (cfg : Config) (ports : Ports W P) (On : W → Type 0) (Off : List String → W → Type 0)
      (contract : TriggerContract ports On Off) where
    -- Before the triggers are disabled; while they may be; when a step threw.
    abbrev Guarded : Session W P → Type 0
    Guarded s = On s.outside × (s.triggers_disabled ≡ false)

    abbrev Loading : List String → Session W P → Type 0
    Loading names s =
        Off names s.outside × (s.disabled_tables ≡ names) × (s.triggers_disabled ≡ true)

    abbrev Left : Session W P → Type 0
    Left s =
        (On s.outside × (s.triggers_disabled ≡ false))
        ⊎ (Off s.disabled_tables s.outside × (s.triggers_disabled ≡ true))

    Loading-Left : (names : List String) (s : Session W P) → Loading names s → Left s
    Loading-Left names s (off, e, t) = inr (rw e off, t)

    -- No event touches them.
    abbrev Silent : (Session W P → Type 0) → Type 0
    Silent I = (b : Bool) (e : Event P) (s : Session W P) → I s → I (emitted b e s)

    Guarded-Silent : Silent Guarded
    Guarded-Silent true e s h = h
    Guarded-Silent false e s h = h

    Loading-Silent : (names : List String) → Silent (Loading names)
    Loading-Silent names true e s h = h
    Loading-Silent names false e s h = h

    Left-Silent : Silent Left
    Left-Silent true e s h = h
    Left-Silent false e s h = h

    finish_step-Left :
        {A : Type 0} (step_id : String) (t : ℕ) (detail : A → Option StepDetail)
        (Q : Session W P → Type 0) (r : Result A × Session W P)
        → Silent Q
        → Post (λ a. Q) (λ e. Left) r
        → Post (λ a. Q) (λ e. Left) (finish_step cfg ports step_id t detail r)
    finish_step-Left step_id t detail Q (ok a, s) q h = q cfg.watched _ s h
    finish_step-Left step_id t detail Q (err e, s) q h = Left-Silent cfg.watched _ s h

    step_alone-Left :
        {A : Type 0} (I Q : Session W P → Type 0) (step_id : String) (action : Action W P A)
        (detail : A → Option StepDetail)
        → Silent I
        → Silent Q
        → ((s : Session W P) → I s → Left s)
        → ((s : Session W P) → I s → Post (λ a. Q) (λ e. Left) (action s))
        → (s : Session W P) → I s
        → Post (λ a. Q) (λ e. Left) (step cfg ports step_id action detail s)
    unfolding step
    step_alone-Left I Q step_id action detail i q left act s h =
        elim (Bool-cases (cfg.watched && ports.aborted s.outside)) [
          | inl t ↦ rw t (left s h)
          | inr f ↦ rw f (finish_step-Left step_id _ detail Q _ q (act _ (i cfg.watched _ s h)))
        ]

    -- A step with what follows it.
    step-Left :
        {A B : Type 0} (I Q R : Session W P → Type 0) (step_id : String) (action : Action W P A)
        (detail : A → Option StepDetail) (f : A → Action W P B)
        → Silent I
        → Silent Q
        → ((s : Session W P) → I s → Left s)
        → ((s : Session W P) → I s → Post (λ a. Q) (λ e. Left) (action s))
        → ((a : A) (s : Session W P) → Q s → Post (λ b. R) (λ e. Left) (f a s))
        → (s : Session W P) → I s
        → Post (λ b. R) (λ e. Left) ((step cfg ports step_id action detail >>= f) s)
    step-Left I Q R step_id action detail f i q left act after s h =
        and_then-Post (λ a. Q) (λ b. R) (λ e. Left) f _
          (step_alone-Left I Q step_id action detail i q left act s h) after

    -- An action that keeps a statement under which the triggers are in a known state.
    kept-Left :
        {A : Type 0} (I : Session W P → Type 0) (action : Action W P A)
        → ((s : Session W P) → I s → Left s)
        → Keeps I action
        → (s : Session W P) → I s
        → Post (λ a. I) (λ e. Left) (action s)
    kept-Left I action left k s h =
        Post-weaken (action s) (Post-of_kept I (action s) (k s h)) (λ a u j. j) (λ e u j. left u j)

    next-Guarded :
        {A B : Type 0} (step_id : String) (action : Action W P A) (detail : A → Option StepDetail)
        (f : A → Action W P B)
        → Keeps Guarded action
        → ((a : A) (s : Session W P) → Guarded s → Post (λ b. Guarded) (λ e. Left) (f a s))
        → (s : Session W P) → Guarded s
        → Post (λ b. Guarded) (λ e. Left) ((step cfg ports step_id action detail >>= f) s)
    next-Guarded step_id action detail f k =
        step-Left Guarded Guarded Guarded step_id action detail f Guarded-Silent Guarded-Silent
          (λ u j. inl j) (kept-Left Guarded action (λ u j. inl j) k)

    next-Loading :
        {A B : Type 0} (names : List String) (step_id : String) (action : Action W P A)
        (detail : A → Option StepDetail) (f : A → Action W P B)
        → Keeps (Loading names) action
        → ((a : A) (s : Session W P) → Loading names s → Post (λ b. Guarded) (λ e. Left) (f a s))
        → (s : Session W P) → Loading names s
        → Post (λ b. Guarded) (λ e. Left) ((step cfg ports step_id action detail >>= f) s)
    next-Loading names step_id action detail f k =
        step-Left (Loading names) (Loading names) Guarded step_id action detail f
          (Loading-Silent names) (Loading-Silent names) (Loading-Left names)
          (kept-Left (Loading names) action (Loading-Left names) k)

    enable_triggers-Left :
        (names : List String) (s : Session W P)
        → Loading names s
        → Post (λ a. Guarded) (λ e. Left) (enable_triggers cfg ports names s)
    unfolding enable_triggers and_then
    enable_triggers-Left names s (off, d, t) =
        go (ports.enable_triggers names s.outside) (contract.enables names s.outside off)
          (contract.tries names s.outside off)
      where
        go :
            (r : Result Unit × W)
            → (r.0 ≡ ok tt → On r.1)
            → Off names r.1
            → Post (λ a. Guarded) (λ e. Left) (and_then (λ a. note_enabled cfg ports) (called s r))
        go (ok a, w) on k = (on refl, refl)
        go (err e, w) on k = inr (rw d k, t)

    load_steps-Left :
        (schema : DatabaseSchema) (d : SchemaDiff) (s : Session W P)
        → Guarded s
        → Post (λ r. Guarded) (λ e. Left) (load_steps cfg ports schema d s)
    unfolding load_steps and_then
    load_steps-Left schema d s (on, flag) =
        let names = map (λ t. t.name) schema.tables in
        next-Loading names "disable_triggers" _ _ _
          (λ u k. (contract.disables names u.outside k.0, k.1, k.2))
          (λ a.
            step-Left (Loading names) (Loading names) Guarded "migrate_data"
              (copy_data cfg ports schema) _ _ (Loading-Silent names) (Loading-Silent names)
              (Loading-Left names)
              (copy_data-Post cfg ports (Loading names) Left schema
                (λ e u c k. Loading-Silent names cfg.watched e u k) (Loading-Left names)
                (λ l u r k. Loading-Left names (record u { late = l }) k)
                (λ u k. (contract.estimates_off names u.outside k.0, k.1, k.2))
                (λ p n est u k. (contract.migrate_off names p n est u.outside k.0, k.1, k.2)))
              (λ r.
                step-Left (Loading names) Guarded Guarded "enable_triggers"
                  (enable_triggers cfg ports names) _ _ (Loading-Silent names) Guarded-Silent
                  (Loading-Left names) (enable_triggers-Left names)
                  (λ b.
                    next-Guarded "create_indexes" _ _ _
                      (λ u k. (contract.indexes_on d u.outside k.0, k.1))
                      (λ c.
                        next-Guarded "reset_sequences" _ _ (λ x. pure r)
                          (λ u k. (contract.sequences_on schema u.outside k.0, k.1))
                          (λ x u k. k)))))
          _ (contract.on_off names s.outside on, refl, refl)

    waits-Guarded :
        (d : ℕ) (s : Session W P)
        → Guarded s
        → Guarded (record s { outside = ports.wait d s.outside })
    waits-Guarded d s h = (contract.wait_on d s.outside h.0, h.1)

    sync-Guarded : (d : SchemaDiff) → Keeps Guarded (sync_schema cfg ports d)
    unfolding sync_schema
    sync-Guarded d s h = (contract.apply_on _ s.outside h.0, h.1)

    run_steps-Left :
        (s : Session W P) → Guarded s → Post (λ r. Guarded) (λ e. Left) (run_steps cfg ports s)
    unfolding run_steps
    run_steps-Left =
        next-Guarded "validate_connections" (validate_connections cfg ports) _ _
          (validate_connections-kept cfg ports Guarded waits-Guarded
            (λ u k. (contract.source_on u.outside k.0, k.1))
            (λ u k. (contract.admin_on u.outside k.0, k.1)))
          (λ a.
            next-Guarded "create_database" (create_database cfg ports) _ _
              (create_database-kept cfg ports Guarded waits-Guarded
                (λ u k. (contract.ensure_on cfg.dest_database u.outside k.0, k.1))
                (λ u k. (contract.dest_on u.outside k.0, k.1)))
              (λ b.
                next-Guarded "inspect_and_diff" (compare_schemas cfg ports) _ _
                  (compare_schemas-kept cfg ports Guarded
                    (λ u k. (contract.inspect_source_on u.outside k.0, k.1))
                    (λ u k. (contract.inspect_dest_on u.outside k.0, k.1)))
                  (λ c.
                    next-Guarded "sync_schema" (sync_schema cfg ports c.1) _ _ (sync-Guarded c.1)
                      (λ x. load_steps-Left c.0 c.1))))

    -- On, or the warning stands among the events.
    abbrev Restored : Session W P → Type 0
    Restored s =
        On s.outside
        ⊎ ((e : Failure) × Has (log LogLevel.warn (could_not cfg ports e) none) s.events)

    module _ (watched : cfg.watched ≡ true) where
      warned-Restored :
          (r : Result Unit × Session W P)
          → (r.0 ≡ ok tt → On r.1.outside)
          → Restored (warned cfg ports r)
      warned-Restored (ok a, s) on = inl (on refl)
      warned-Restored (err e, s) on =
          inr (e, rw watched (Has-append_right _ s.events (_ ∷ first s.late) (inl refl)))

      compensate-Restored :
          (e : Failure) (s : Session W P)
          → Left s
          → is_cancelled e ≡ true
          → Restored (compensate cfg ports e s)
      unfolding compensate
      compensate-Restored e s (inl (on, t)) c = rw (c, t) (inl on)
      compensate-Restored e s (inr (off, t)) c =
          let tried = called s (ports.enable_triggers s.disabled_tables s.outside) in
          rw c (
            subst (λ b. Restored (if b then warned cfg ports tried else s)) (sym t)
              (warned-Restored tried (contract.enables s.disabled_tables s.outside off)))

      Restored-Silent :
          (b : Bool) (e : Event P) (s : Session W P) → Restored s → Restored (emitted b e s)
      Restored-Silent true e s (inl on) = inl on
      Restored-Silent true e s (inr (f, h)) =
          inr (f, Has-append_left _ s.events (e ∷ first s.late) h)
      Restored-Silent false e s h = h

      end-Restored :
          (s : Session W P)
          → Restored s
          → Restored (record s { outside = ports.end_connections s.outside })
      end-Restored s (inl on) = inl (contract.end_on s.outside on)
      end-Restored s (inr h) = inr h

      closed :
          (t : ℕ) (r : Result MigrationResult × Session W P)
          → Post (λ x. Guarded) (λ e. Left) r
          → Post
              (λ x s. On s.outside)
              (λ e s. is_cancelled e ≡ true → Restored s)
              (close_connections cfg ports (settled cfg ports t r))
      closed t (ok x, s) h = contract.end_on _ (Guarded-Silent cfg.watched _ s h).0
      closed t (err e, s) h = λ c.
          end-Restored (finished_with cfg ports t e (compensate cfg ports e s)).1
            (Restored-Silent cfg.watched _ (compensate cfg ports e s) (compensate-Restored e s h c))

      -- A run that starts with the destination's triggers on has them on again at its end when it
      -- returned, and when it was cancelled, wherever that was, unless the event that says that they
      -- could not be re-enabled was emitted; for adapters that keep the contract and a run with a
      -- context.
      pub run_restores_triggers :
          (w : W)
          → On w
          → Post
              (λ x s. On s.outside)
              (λ e s.
                is_cancelled e ≡ true
                → On s.outside
                  ⊎ ((f : Failure) × Has (log LogLevel.warn (could_not cfg ports f) none) s.events))
              (run cfg ports w)
      unfolding run
      run_restores_triggers w on = closed (ports.now w) (run_steps cfg ports (begin cfg ports w)) (
          run_steps-Left (begin cfg ports w)
            (Guarded-Silent cfg.watched (started cfg ports) (fresh cfg ports w) (on, refl)))
