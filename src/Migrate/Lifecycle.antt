-- ===== src/Migrate/Lifecycle.antt =====
-- The order of a run's events, as a state machine that is independent of the orchestrator.
use nodejs_movy_data.Prelude.{
  ℕ, zero, suc, String, Bool, true, false, not, All, ◌&&◌, ◌||◌, Option, none, some, List, [], ◌∷◌,
  ◌++◌, ◌≡◌, refl, str_eq, ◌==◌, if◌then◌else◌,
}
use nodejs_movy_data.Events.Types.{
  LogLevel, run_started, run_finished, step_started, step_finished, plan_ready, table_progress,
  table_finished, overall_progress, log,
}
use nodejs_movy_data.Migrate.Effects.{Event}
use nodejs_movy_data.Migrate.Ports.{migration_step_order}

-- Before the run, between steps (the next one's number), inside a step, after a failed step, after the
-- warning that a cancelled run ends with, after the run. The flag of the last three says that it was the
-- copying step that failed.
pub data Phase : Type 0 where
  idle : Phase
  between inside : ℕ → Phase
  broken told over : Bool → Phase

abbrev pub name_at : ℕ → List String → String
name_at n [] = ""
name_at zero (x ∷ xs) = x
name_at (suc n) (x ∷ xs) = name_at n xs

abbrev pub gate : Bool → Phase → Option Phase
gate b p = if b then some p else none

abbrev pub last_step : ℕ
last_step = 9

abbrev pub copy_step : ℕ
copy_step = 5

abbrev pub one_of : String → String → String → Bool
one_of s a b = str_eq s a || str_eq s b

-- A run between two steps ends only by cancellation, one with all nine behind it only with an outcome.
abbrev pub may_end : ℕ → String → Bool
may_end n status =
    if n == last_step then one_of status "succeeded" "failed" else str_eq status "cancelled"

abbrev pub closing : ℕ → String → String → Option Phase
closing n step_id status =
    if str_eq step_id (name_at n migration_step_order)
    then (if str_eq status "ok"
        then some (between (suc n))
        else gate (str_eq status "failed") (broken (n == copy_step)))
    else none

-- Tables are reported while they are copied, and by workers that outlive a copy that failed.
abbrev pub may_report : Phase → Bool
may_report (inside n) = n == copy_step
may_report (broken b) = b
may_report (told b) = b
may_report (over b) = b
may_report _ = false

module _ {P : Type 0} where
  abbrev pub is_report : Event P → Bool
  is_report (table_progress t d r p) = true
  is_report (table_finished t r d s e) = true
  is_report (overall_progress d r p t u) = true
  is_report _ = false

  -- The one log that the machine knows is a warning: on a run that a cancellation stopped, before its
  -- end.
  abbrev pub govern : Phase → Event P → Option Phase
  govern idle (run_started mode source target) = some (between 0)
  govern (between n) (step_started step_id ordinal) =
      gate (ordinal == n && str_eq step_id (name_at n migration_step_order)) (inside n)
  govern (between n) (run_finished status d r e) = gate (may_end n status) (over false)
  govern (between n) (log LogLevel.warn m i) = gate (not (n == last_step)) (told false)
  govern (inside n) (step_finished step_id status d x e) = closing n step_id status
  govern (inside n) (plan_ready p r w) = gate (n == copy_step) (inside n)
  govern (broken b) (log LogLevel.warn m i) = some (told b)
  govern (broken b) (run_finished status d r e) = gate (one_of status "failed" "cancelled") (over b)
  govern (told b) (run_finished status d r e) = gate (str_eq status "cancelled") (over b)
  govern _ _ = none

  unfoldable pub advance : Phase → Event P → Option Phase
  advance p e = if is_report e then gate (may_report p) p else govern p e

  abbrev pub advance_from : Option Phase → Event P → Option Phase
  advance_from none e = none
  advance_from (some p) e = advance p e

  -- Where a list of events leads, `none` if the machine refuses one of them.
  unfoldable pub trace : Option Phase → List (Event P) → Option Phase
  trace p [] = p
  trace p (e ∷ es) = trace (advance_from p e) es

  pub trace-append :
      (p : Option Phase) (xs ys : List (Event P)) → trace p (xs ++ ys) ≡ trace (trace p xs) ys
  unfolding trace
  trace-append p [] ys = refl
  trace-append p (x ∷ xs) ys = trace-append (advance_from p x) xs ys

  -- Reports leave a phase that admits them.
  pub trace-reports :
      (p : Phase) (xs : List (Event P))
      → may_report p ≡ true
      → All (λ x. is_report x ≡ true) xs
      → trace (some p) xs ≡ some p
  unfolding trace advance
  trace-reports p [] m h = refl
  trace-reports p (x ∷ xs) m (r, h) = rw (r, m) (trace-reports p xs m h)

  -- An event with reports after it.
  pub trace-concat :
      (o : Option Phase) (p q : Phase) (xs ys : List (Event P)) (e : Event P)
      → trace o xs ≡ some p
      → advance p e ≡ some q
      → trace (some q) ys ≡ some q
      → trace o (xs ++ (e ∷ ys)) ≡ some q
  unfolding trace
  trace-concat o p q xs ys e h k r = rw (trace-append o xs (e ∷ ys), h, k) r
