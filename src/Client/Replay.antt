-- ===== src/Client/Replay.antt =====
-- Delivery: events that come twice, late or in several batches.
use nodejs_movy_data.Prelude.{
  ℕ, ◌-◌, ◌≤◌, ◌≡◌, refl, sym, ap, ◌∙◌, subst, ◌⊎◌, inl, inr, Bool, true, false, List, [], ◌∷◌,
  arith, max, All, length, length-drop, leb, ltb, if◌then◌else◌, Bool-cases,
}
use nodejs_movy_data.Client.State.{Platform, WireEvent, Payload, RunState, LogLine}
use nodejs_movy_data.Client.Fold.{
  Fold, apply_payload, fold_event, fold_events, start_fold, finish_fold, apply_events, cap_logs,
  max_log_lines,
}

length-cap_logs : (lines : List LogLine) → length (cap_logs lines) ≤ max_log_lines
unfolding cap_logs
length-cap_logs lines = elim (Bool-cases (leb (length lines) max_log_lines)) [
  | inl t ↦ rw t (few (length lines) t)
  | inr n ↦ rw n (omega (arith, length-drop (length lines - max_log_lines) lines))
]
  where
    few : (n : ℕ) → leb n 2000 ≡ true → n ≤ 2000
    few n h = ground arith

module _ {P D : Type 0} ⦃o : Platform P⦄ where
  pub last_seq-apply_payload :
      (e : WireEvent P D) (p : Payload P D) (f : Fold P D)
      → (apply_payload e p f).last_seq ≡ f.last_seq
  unfolding apply_payload
  last_seq-apply_payload e (Payload.run_started) f = refl
  last_seq-apply_payload e _ f = refl

  pub last_seq-fold_event :
      (f : Fold P D) (e : WireEvent P D) → (fold_event f e).last_seq ≡ max f.last_seq e.seq
  unfolding fold_event
  last_seq-fold_event f e = elim (Bool-cases (leb e.seq f.last_seq)) [
    | inl t ↦ rw t (at_most f.last_seq e.seq t)
    | inr n ↦ rw n (
        last_seq-apply_payload e e.payload (record f { last_seq = e.seq })
        ∙ above f.last_seq e.seq n)
  ]
    where
      at_most : (a b : ℕ) → leb b a ≡ true → a ≡ max a b
      at_most a b h = ground arith

      above : (a b : ℕ) → leb b a ≡ false → b ≡ max a b
      above a b h = ground arith

  pub fold_event-cases :
      (f : Fold P D) (e : WireEvent P D)
      → (fold_event f e ≡ f)
        ⊎ (fold_event f e ≡ apply_payload e e.payload (record f { last_seq = e.seq }))
  unfolding fold_event
  fold_event-cases f e = elim (Bool-cases (leb e.seq f.last_seq)) [
    | inl t ↦ inl (rw t refl)
    | inr n ↦ inr (rw n refl)
  ]

  -- `applyEvents` reads a late event as no event.
  abbrev pub IsStale : ℕ → WireEvent P D → Type 0
  IsStale n e = e.seq ≤ n

  fold_event-stale : (f : Fold P D) (e : WireEvent P D) → e.seq ≤ f.last_seq → fold_event f e ≡ f
  unfolding fold_event
  fold_event-stale f e h = rw (late e.seq f.last_seq h)
    where
      late : (a b : ℕ) → a ≤ b → leb a b ≡ true
      late a b h = ground arith

  fold_events-stale :
      (f : Fold P D) (es : List (WireEvent P D))
      → All (IsStale f.last_seq) es
      → fold_events f es ≡ f
  unfolding fold_events
  fold_events-stale f [] h = refl
  fold_events-stale f (e ∷ es) h =
      ap (λ g. fold_events g es) (fold_event-stale f e h.0) ∙ fold_events-stale f es h.1

  finish_fold-start_fold : (s : RunState P D) → finish_fold s (start_fold s) ≡ s
  unfolding finish_fold start_fold
  finish_fold-start_fold s = refl

  pub apply_events-fold :
      (s : RunState P D) (es : List (WireEvent P D))
      → apply_events s es ≡ finish_fold s (fold_events (start_fold s) es)
  unfolding apply_events fold_events
  apply_events-fold s [] = sym (finish_fold-start_fold s)
  apply_events-fold s (e ∷ es) = refl

  pub last_seq-start_fold : (s : RunState P D) → (start_fold s).last_seq ≡ s.last_seq
  unfolding start_fold
  last_seq-start_fold s = refl

  -- A batch of which every event has been applied already changes nothing.
  pub apply_events-stale :
      (s : RunState P D) (es : List (WireEvent P D))
      → All (IsStale s.last_seq) es
      → apply_events s es ≡ s
  apply_events-stale s es h =
      apply_events-fold s es
      ∙ ap (finish_fold s) (
          fold_events-stale (start_fold s) es
            (subst (λ n. All (IsStale n) es) (sym (last_seq-start_fold s)) h))
      ∙ finish_fold-start_fold s

  last_seq-fold_events-le :
      (f : Fold P D) (es : List (WireEvent P D)) → f.last_seq ≤ (fold_events f es).last_seq
  unfolding fold_events
  last_seq-fold_events-le f [] = omega arith
  last_seq-fold_events-le f (e ∷ es) =
      omega (arith, last_seq-fold_event f e, last_seq-fold_events-le (fold_event f e) es)

  fold_events_covers :
      (f : Fold P D) (es : List (WireEvent P D)) → All (IsStale (fold_events f es).last_seq) es
  unfolding fold_events
  fold_events_covers f [] = tt
  fold_events_covers f (e ∷ es) = (
    omega (arith, last_seq-fold_event f e, last_seq-fold_events-le (fold_event f e) es),
    fold_events_covers (fold_event f e) es,
  )

  last_seq-finish_fold : (s : RunState P D) (f : Fold P D) → (finish_fold s f).last_seq ≡ f.last_seq
  unfolding finish_fold
  last_seq-finish_fold s f = refl

  last_seq-apply_events :
      (s : RunState P D) (es : List (WireEvent P D))
      → (apply_events s es).last_seq ≡ (fold_events (start_fold s) es).last_seq
  last_seq-apply_events s es =
      ap (λ (t : RunState P D). t.last_seq) (apply_events-fold s es)
      ∙ last_seq-finish_fold s (fold_events (start_fold s) es)

  -- Delivering a batch a second time changes nothing, in whatever order its events came, and the cursor
  -- never goes back.
  pub apply_events_twice :
      (s : RunState P D) (es : List (WireEvent P D))
      → (apply_events (apply_events s es) es ≡ apply_events s es)
        × (s.last_seq ≤ (apply_events s es).last_seq)
  apply_events_twice s es = (
    apply_events-stale (apply_events s es) es (
        subst (λ n. All (IsStale n) es) (sym (last_seq-apply_events s es))
          (fold_events_covers (start_fold s) es)),
    omega (
      arith,
      last_seq-apply_events s es,
      last_seq-start_fold s,
      last_seq-fold_events-le (start_fold s) es,
    ),
  )

  -- However many events arrive, a tab that holds at most 2,000 log lines goes on holding at most 2,000.
  pub logs_bounded :
      (s : RunState P D) (es : List (WireEvent P D))
      → length s.logs ≤ max_log_lines
      → length (apply_events s es).logs ≤ max_log_lines
  unfolding finish_fold
  logs_bounded s es h =
      subst (λ (t : RunState P D). length t.logs ≤ max_log_lines) (sym (apply_events-fold s es))
        (either (ltb 0 (length (fold_events (start_fold s) es).logs)) _)
    where
      either :
          (b : Bool) (ls : List LogLine)
          → length (if b then cap_logs ls else s.logs) ≤ max_log_lines
      either true ls = length-cap_logs ls
      either false ls = h
