-- ===== src/Migrate/Kept.antt =====
-- What the retried connections and the copy of the data keep, for any statement about the session.
use nodejs_movy_data.Prelude.{
  ℕ, zero, suc, String, Bool, true, false, Option, none, some, List, [], ◌∷◌, ◌≡◌, refl, subst,
  Bool-cases, All, inl, inr, Dict,
}
use nodejs_movy_data.Migrate.Schema.{TableMigrationResult, TableSchema}
use nodejs_movy_data.Events.Types.{TableMigrationPlan}
use nodejs_movy_data.Migrate.Failure.{Failure}
use nodejs_movy_data.Migrate.Effects.{
  Result, ok, err, Event, Call, Session, Action, called, emitted, and_then,
}
use nodejs_movy_data.Migrate.Carry.{DatabaseType}
use nodejs_movy_data.Migrate.Planner.{plan, has}
use nodejs_movy_data.Migrate.Progress.{
  Sample, Progress, no_progress, Percent, Copy, is_completion, count_sample, sample_event, Ending,
  returned, threw, report_samples, report_late, report_results, emit_all, end_copy, copy_tables,
  follow, migrate_data,
}
use nodejs_movy_data.Migrate.Orchestrator.{retried, pause, retry_connect, connect_or_explain}
use nodejs_movy_data.Migrate.Ports.{Config, Ports}
use nodejs_movy_data.Migrate.Triples.{Post, Keeps}
use nodejs_movy_data.Migrate.Lifecycle.{inside, advance, copy_step, is_report}

module _ {W P : Type 0} where
  retried-kept :
      (I : Session W P → Type 0) (again : Failure → Action W P Unit) (r : Result Unit × Session W P)
      → ((e : Failure) → Keeps I (again e))
      → I r.1
      → I (retried again r).1
  retried-kept I again (ok a, s) k h = h
  retried-kept I again (err e, s) k h = k e s h

  module _ (cfg : Config) (ports : Ports W P) (I : Session W P → Type 0)
      (connect : Call W Unit) where
    module _ (connects : (s : Session W P) → I s → I (called s (connect s.outside)).1)
        (waits : (d : ℕ) (s : Session W P)
          → I s
          → I (record s { outside = ports.wait d s.outside })) where
      pause-kept : (b : Bool) (d : ℕ) (s : Session W P) → I s → I (pause cfg ports b d s)
      pause-kept true d s h = waits d s h
      pause-kept false d s h = h

      retry_connect-kept :
          (left attempt : ℕ) (e : Failure)
          → Keeps I (retry_connect cfg ports left attempt connect e)
      unfolding retry_connect
      retry_connect-kept zero attempt e s h = h
      retry_connect-kept (suc left) attempt e s h =
          retried-kept I _ (called s (connect s.outside))
            (λ f u k. retry_connect-kept left (suc attempt) _ _ (pause-kept _ _ u k)) (connects s h)

      pub connect_or_explain-kept :
          (role : String) → Keeps I (connect_or_explain cfg ports role connect)
      unfolding connect_or_explain
      connect_or_explain-kept role s h =
          retried-kept I _ _ (λ f u k. k) (retry_connect-kept _ _ _ s h)

module _ {P : Type 0} where
  -- The events of the copying step.
  abbrev pub Copying : Event P → Type 0
  Copying e = advance (inside copy_step) e ≡ some (inside copy_step)

  -- Those that tell how far it is.
  abbrev pub IsReport : Event P → Type 0
  IsReport e = is_report e ≡ true

  report-Copying : (e : Event P) → IsReport e → Copying e
  unfolding advance
  report-Copying e h = rw h refl

  module _ (percent : Percent P) where
    sample_event-IsReport : (x : Sample) (p : Progress) → IsReport (sample_event percent x p)
    sample_event-IsReport x p = elim (Bool-cases (is_completion x)) [
      | inl t ↦ rw t refl
      | inr f ↦ rw f refl
    ]

    report_samples-IsReport :
        (order : List String) (est : Dict ℕ) (p : Progress) (xs : List Sample)
        → All IsReport (report_samples percent order est p xs).1
    unfolding report_samples
    report_samples-IsReport order est p [] = tt
    report_samples-IsReport order est p (x ∷ xs) = (
      sample_event-IsReport x (count_sample x p),
      (refl, report_samples-IsReport order est (count_sample x p) xs),
    )

    report_late-IsReport :
        (order : List String) (est : Dict ℕ) (p : Progress) (xss : List (List Sample))
        → All (All IsReport) (report_late percent order est p xss)
    unfolding report_late
    report_late-IsReport order est p [] = tt
    report_late-IsReport order est p (xs ∷ xss) = (
      report_samples-IsReport order est p xs,
      report_late-IsReport order est (report_samples percent order est p xs).0 xss,
    )

    report_results-IsReport :
        (done : List String) (ts : List TableMigrationResult)
        → All IsReport (report_results percent done ts)
    unfolding report_results
    report_results-IsReport done [] = tt
    report_results-IsReport done (t ∷ ts) = elim (Bool-cases (has t.table_name done)) [
      | inl y ↦ rw y (report_results-IsReport done ts)
      | inr n ↦ rw n (refl, report_results-IsReport done ts)
    ]

module _ {W P : Type 0} (watched : Bool) (percent : Percent P) (I J : Session W P → Type 0) where
  emitted-outside :
      (e : Event P) (s : Session W P) (w : W)
      → emitted watched e (record s { outside = w }) ≡ record (emitted watched e s) { outside = w }
  emitted-outside e s w = elim (Bool-cases watched) [ inl t ↦ rw t refl | inr f ↦ rw f refl ]

  -- What is emitted and what happens outside do not touch each other.
  emit_all-outside :
      (es : List (Event P)) (s : Session W P) (w : W)
      → emit_all watched percent es (record s { outside = w })
        ≡ record (emit_all watched percent es s) { outside = w }
  unfolding emit_all
  emit_all-outside [] s w = refl
  emit_all-outside (e ∷ es) s w =
      rw (emitted-outside e s w) (emit_all-outside es (emitted watched e s) w)

  -- `I` is kept up to the end of a copy that returns, and `J` follows for one that threw.
  module _ (emits : (e : Event P) (s : Session W P) → Copying e → I s → I (emitted watched e s))
      (weaken : (s : Session W P) → I s → J s)
      (strays : (l : List (List (Event P))) (s : Session W P)
        → All (All IsReport) l
        → I s
        → J (record s { late = l })) where
    emit_all-kept :
        (es : List (Event P)) (s : Session W P)
        → All IsReport es
        → I s
        → I (emit_all watched percent es s)
    unfolding emit_all
    emit_all-kept [] s c h = h
    emit_all-kept (e ∷ es) s c h = emit_all-kept es _ c.1 (emits e s (report-Copying e c.0) h)

    end_copy-Post :
        (order : List String) (est : Dict ℕ) (p : Progress) (r : Ending × W) (s : Session W P)
        → I (record s { outside = r.1 })
        → Post (λ a. I) (λ e. J) (end_copy watched percent order est p r s)
    unfolding end_copy
    end_copy-Post order est p (returned r, w) s h =
        emit_all-kept _ (record s { outside = w }) (report_results-IsReport percent _ r.tables) h
    end_copy-Post order est p (threw e later, w) s h =
        strays _ (record s { outside = w }) (report_late-IsReport percent order est p later) h

    module _ (copy : Copy W)
        (copies : (p : TableMigrationPlan) (n : ℕ) (est : Dict ℕ) (s : Session W P)
          → I s
          → I (record s { outside = (copy p n est s.outside).1.1 })) where
      copy_tables-Post :
          (p : TableMigrationPlan) (n : ℕ) (est : Dict ℕ) (s : Session W P)
          → I s
          → Post (λ a. I) (λ e. J) (copy_tables watched percent copy p n est s)
      unfolding copy_tables
      copy_tables-Post p n est s h =
          let run = copy p n est s.outside in
          let reported = report_samples percent p.load_order est no_progress run.0 in
          end_copy-Post p.load_order est reported.0 run.1 (emit_all watched percent reported.1 s) (
            subst I (emit_all-outside reported.1 s run.1.1) (
              emit_all-kept reported.1 _ (report_samples-IsReport percent _ _ _ run.0)
                (copies p n est s h)))

      follow-Post :
          (source dest : DatabaseType) (est : Dict ℕ) (p : Option TableMigrationPlan)
          (s : Session W P)
          → I s
          → Post (λ a. I) (λ e. J) (follow watched percent copy source dest est p s)
      unfolding follow advance and_then
      follow-Post source dest est none s h = weaken s h
      follow-Post source dest est (some p) s h = copy_tables-Post p _ est _ (emits _ s refl h)

      pub migrate_data-Post :
          (before_text : String → String → Bool) (source dest : DatabaseType)
          (tables : List TableSchema) (est : Dict ℕ) (s : Session W P)
          → I s
          → Post
              (λ a. I)
              (λ e. J)
              (migrate_data watched percent before_text copy source dest tables est s)
      unfolding migrate_data
      migrate_data-Post before_text source dest tables est =
          follow-Post source dest est (plan before_text est tables)
