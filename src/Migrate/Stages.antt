-- ===== src/Migrate/Stages.antt =====
-- Each step of the orchestrator moves the machine of Migrate.Lifecycle on by one step.
use nodejs_movy_data.Prelude.{
  ℕ, suc, String, Bool, true, false, ◌&&◌, Option, some, List, [], ◌∷◌, All, ◌≡◌, refl, ◌⊎◌, inl,
  inr, str_eq, ◌==◌, ==_iff, Bool-cases,
}
use nodejs_movy_data.Migrate.Schema.{StepDetail}
use nodejs_movy_data.Migrate.Failure.{Failure, is_cancelled}
use nodejs_movy_data.Migrate.Effects.{Result, ok, err, Event, Session, Action, emitted, first, rest}
use nodejs_movy_data.Migrate.Orchestrator.{step, finish_step}
use nodejs_movy_data.Migrate.Ports.{Config, Ports, migration_step_order, index_of}
use nodejs_movy_data.Migrate.Triples.{Post}
use nodejs_movy_data.Migrate.Kept.{IsReport}
use nodejs_movy_data.Migrate.Lifecycle.{
  Phase, idle, broken, between, inside, name_at, advance, trace, trace-concat, trace-reports,
  may_report, last_step, copy_step,
}

module _ {P : Type 0} where
  first-All : (l : List (List (Event P))) → All (All IsReport) l → All IsReport (first l)
  first-All [] h = tt
  first-All (xs ∷ xss) h = h.0

  rest-All : (l : List (List (Event P))) → All (All IsReport) l → All (All IsReport) (rest l)
  rest-All [] h = tt
  rest-All (xs ∷ xss) h = h.1

module _ {W P : Type 0} where
  -- The events of the session have led to `p`, and none is to come but those that are emitted.
  abbrev pub Calm : Phase → Session W P → Type 0
  Calm p s = (trace (some idle) s.events ≡ some p) × (s.late ≡ [])

  -- The same, with reports still to come if `p` admits them.
  abbrev pub At : Phase → Session W P → Type 0
  At p s =
      (trace (some idle) s.events ≡ some p)
      × ((s.late ≡ []) ⊎ ((may_report p ≡ true) × All (All IsReport) s.late))

  pub Calm-At : (p : Phase) (s : Session W P) → Calm p s → At p s
  Calm-At p s (h, l) = (h, inl l)

  pub emitted-Calm :
      (watched : Bool) (p q : Phase) (e : Event P) (s : Session W P)
      → watched ≡ true
      → advance p e ≡ some q
      → Calm p s
      → Calm q (emitted watched e s)
  unfolding trace
  emitted-Calm watched p q e s w a (h, l) =
      rw (w, l) (trace-concat (some idle) p q s.events [] e h a refl, refl)

  pub emitted-At :
      (watched : Bool) (p q : Phase) (e : Event P) (s : Session W P)
      → watched ≡ true
      → advance p e ≡ some q
      → (may_report p ≡ true → may_report q ≡ true)
      → At p s
      → At q (emitted watched e s)
  emitted-At watched p q e s w a m (h, inl l) =
      Calm-At q (emitted watched e s) (emitted-Calm watched p q e s w a (h, l))
  emitted-At watched p q e s w a m (h, inr (k, r)) = rw w (
    trace-concat (some idle) p q s.events (first s.late) e h a
        (trace-reports q (first s.late) (m k) (first-All s.late r)),
    inr (m k, rest-All s.late r),
  )

  -- Where a thrown failure leaves the events: after a failed step, or between two steps if the run was
  -- cancelled there.
  abbrev pub Stopped : Failure → Session W P → Type 0
  Stopped e s =
      ((b : Bool) × At (broken b) s)
      ⊎ ((n : ℕ) × ((n == last_step) ≡ false) × Calm (between n) s × (is_cancelled e ≡ true))

  module _ (cfg : Config) (ports : Ports W P) (watched : cfg.watched ≡ true) where
    finish_step-At :
        {A : Type 0} (n : ℕ) (step_id : String) (t : ℕ) (detail : A → Option StepDetail)
        (r : Result A × Session W P)
        → str_eq step_id (name_at n migration_step_order) ≡ true
        → Post (λ a. Calm (inside n)) (λ e. At (inside n)) r
        → Post (λ a. Calm (between (suc n))) Stopped (finish_step cfg ports step_id t detail r)
    unfolding advance
    finish_step-At n step_id t detail (ok a, s) name h =
        emitted-Calm cfg.watched (inside n) (between (suc n)) _ s watched (rw name refl) h
    finish_step-At n step_id t detail (err e, s) name h = inl (
      n == copy_step,
      emitted-At cfg.watched (inside n) (broken (n == copy_step)) _ s watched (rw name refl)
          (λ m. m) h,
    )

    -- A step that finds the machine before it leaves it after the step, or stopped.
    pub step-At :
        {A : Type 0} (n : ℕ) (step_id : String) (action : Action W P A)
        (detail : A → Option StepDetail) (s : Session W P)
        → (n == last_step) ≡ false
        → index_of step_id migration_step_order ≡ n
        → str_eq step_id (name_at n migration_step_order) ≡ true
        → ((u : Session W P)
            → Calm (inside n) u
            → Post (λ a. Calm (inside n)) (λ e. At (inside n)) (action u))
        → Calm (between n) s
        → Post (λ a. Calm (between (suc n))) Stopped (step cfg ports step_id action detail s)
    unfolding step advance is_cancelled
    step-At n step_id action detail s more index name keeps h =
        elim (Bool-cases (cfg.watched && ports.aborted s.outside)) [
          | inl t ↦ rw t (inr (n, more, h, refl))
          | inr f ↦ rw f (
              finish_step-At n step_id (ports.now s.outside) detail _ name (
                keeps _ (
                  emitted-Calm cfg.watched (between n) (inside n) _ s watched
                    (rw (index, name, ((==_iff n n).1 refl)) refl) h)))
        ]
