-- ===== src/Client/Rows.antt =====
-- A run row read over REST, and the snapshot.
use nodejs_movy_data.Prelude.{
  ℕ, ◌≤◌, ◌<◌, ◌≡◌, refl, sym, subst, ◌⊎◌, inl, inr, Bool, true, ◌||◌, String, none, some, arith,
  leb, str_eq, eq_iff, Option-cases, Bool-cases,
}
use nodejs_movy_data.Client.State.{Platform, WireRun, WireRunStatus, RunState}
use nodejs_movy_data.Client.Fold.{status_rank, is_terminal, advance_run, apply_run_row, run_is_over}

-- How far a status shown has come; 0 where no run is shown.
abbrev pub shown_rank : {P D : Type 0} → RunState P D → ℕ
shown_rank s = elim s.run [ none ↦ 0 | some r ↦ status_rank r.status ]

three_cases : (a b c : Bool) → (a || (b || c)) ≡ true → (a ≡ true) ⊎ ((b ≡ true) ⊎ (c ≡ true))
three_cases a b c h = ground arith

rank_over : (st : String) → is_terminal st ≡ true → status_rank st ≡ 4
unfolding status_rank is_terminal
rank_over st h =
    elim (three_cases (str_eq st "succeeded") (str_eq st "failed") (str_eq st "cancelled") h) [
      | inl t ↦ rw ((eq_iff st "succeeded").0 t) refl
      | inr (inl t) ↦ rw ((eq_iff st "failed").0 t) refl
      | inr (inr t) ↦ rw ((eq_iff st "cancelled").0 t) refl
    ]

rank_at_most : (st : String) → status_rank st ≤ 4
unfolding status_rank
rank_at_most st = ground arith

-- What a row read over REST may do to the state.
abbrev pub Advances : {P D : Type 0} → RunState P D → RunState P D → Type 0
Advances s t =
    (shown_rank s < shown_rank t)
    × (t.steps ≡ s.steps)
    × (t.tables ≡ s.tables)
    × (t.logs ≡ s.logs)
    × (t.last_seq ≡ s.last_seq)

module _ {P D : Type 0} where
  shown_rank_at_most : (s : RunState P D) → shown_rank s ≤ 4
  shown_rank_at_most s = elim (Option-cases s.run) [
    | inl n ↦ rw n (omega arith)
    | inr (r, e) ↦ rw e (rank_at_most r.status)
  ]

module _ {P D : Type 0} ⦃o : Platform P⦄ where
  shown_rank_over : (s : RunState P D) → run_is_over s ≡ true → shown_rank s ≡ 4
  unfolding run_is_over
  shown_rank_over s h = elim (Option-cases s.run) [
    | inl n ↦ cc (rw (n, run_is_over) at h)
    | inr (r, e) ↦ rw e (rank_over r.status (rw (e, run_is_over) at h))
  ]

  row_ahead :
      (s : RunState P D) (row : WireRunStatus) (current : WireRun P)
      → s.run ≡ some current
      → (apply_run_row s row ≡ s) ⊎ Advances s (advance_run row current s)
  unfolding apply_run_row
  row_ahead s row current e = elim (Bool-cases (str_eq current.id row.id)) [
    | inr other ↦ inl (ground arith)
    | inl same ↦ elim (Bool-cases (leb (status_rank row.status) (status_rank current.status))) [
      | inl late ↦ inl (ground arith)
      | inr ahead ↦ inr (rw (same, ahead) ((rw e (ground arith), refl, refl, refl, refl)))
    ]
  ]

  apply_run_row-some :
      (s : RunState P D) (row : WireRunStatus) (current : WireRun P)
      → s.run ≡ some current
      → apply_run_row s row ≡ advance_run row current s
  unfolding apply_run_row
  apply_run_row-some s row current e = ground arith

  apply_run_row-none :
      (s : RunState P D) (row : WireRunStatus) → s.run ≡ none → apply_run_row s row ≡ s
  unfolding apply_run_row
  apply_run_row-none s row e = ground arith

  -- A row read over REST is ignored or moves the status strictly forward, and touches no step, table, log
  -- line or cursor; so no stale row changes a run that is over.
  pub apply_run_row_forward :
      (s : RunState P D) (row : WireRunStatus)
      → ((apply_run_row s row ≡ s) ⊎ Advances s (apply_run_row s row))
        × (run_is_over s ≡ true → apply_run_row s row ≡ s)
  apply_run_row_forward s row = (split, over)
    where
      split : (apply_run_row s row ≡ s) ⊎ Advances s (apply_run_row s row)
      split = elim (Option-cases s.run) [
        | inl n ↦ inl (apply_run_row-none s row n)
        | inr (current, e) ↦ elim (row_ahead s row current e) [
          | inl same ↦ inl same
          | inr moved ↦ inr (subst (Advances s) (sym (apply_run_row-some s row current e)) moved)
        ]
      ]

      over : run_is_over s ≡ true → apply_run_row s row ≡ s
      over h = elim split [
        | inl same ↦ same
        | inr moved ↦
            absurd (
              omega (arith, moved.0, shown_rank_over s h, shown_rank_at_most (apply_run_row s row)))
      ]
