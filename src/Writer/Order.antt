-- ===== src/Writer/Order.antt =====
-- Batches keep every accepted event, in order, whatever writes are in flight.
use mathlib.Core.List.{append-nil, append_assoc}
use nodejs_movy_data.Prelude.{
  ℕ, ◌≡◌, refl, sym, ap, ◌∙◌, inl, inr, false, String, Option, none, some, List, [], ◌∷◌, ◌++◌,
  eq_iff, lookup, lookup-insert, lookup-delete, length, str_eq, leb, if◌then◌else◌, Bool-cases,
  get_or, is_some,
}
use nodejs_movy_data.Events.Types.{MigrationEvent}
use nodejs_movy_data.Writer.State.{
  Writer, Sent, Call, is_log, record_and_maybe_cap, held, start_write, drain, drain_each, all_ids,
  push_buffer, keep, push_event, call, calls,
}

module _ {P D : Type 0} where
  -- The events of one run in what was handed to the store.
  abbrev pub sent_of : String → Sent P D → List (MigrationEvent P D)
  sent_of r [] = []
  sent_of r (b ∷ out) = (if str_eq b.0 r then b.1 else []) ++ sent_of r out

  sent_of-append :
      (r : String) (xs ys : Sent P D) → sent_of r (xs ++ ys) ≡ sent_of r xs ++ sent_of r ys
  sent_of-append r [] ys = refl
  sent_of-append r (b ∷ xs) ys =
      ap (◌++◌ (if str_eq b.0 r then b.1 else [])) (sent_of-append r xs ys)
      ∙ sym (append_assoc (if str_eq b.0 r then b.1 else []) (sent_of r xs) (sent_of r ys))

  -- What is held is partly sent, the rest stays held.
  abbrev Moves : Writer P D → Writer P D × Sent P D → Type 0
  Moves w res = (r : String) → sent_of r res.1 ++ held r res.0 ≡ held r w

  Moves-trans :
      (w w₁ w₂ : Writer P D) (out rest : Sent P D)
      → Moves w (w₁, out)
      → Moves w₁ (w₂, rest)
      → Moves w (w₂, out ++ rest)
  Moves-trans w w₁ w₂ out rest a b r =
      ap (λ l. l ++ held r w₂) (sent_of-append r out rest)
      ∙ append_assoc (sent_of r out) (sent_of r rest) (held r w₂)
      ∙ ap (◌++◌ (sent_of r out)) (b r)
      ∙ a r

  start_write-Moves : (k : String) (w : Writer P D) → Moves w (start_write k w)
  unfolding start_write held
  start_write-Moves k w r = go (lookup k w.buffers) refl
    where
      go :
          (b : Option (List (MigrationEvent P D)))
          → lookup k w.buffers ≡ b
          → sent_of r (start_write k w).1 ++ held r (start_write k w).0 ≡ held r w
      go none e = rw (e, start_write) refl
      go (some []) e = rw (e, start_write) refl
      go (some (x ∷ xs)) e =
          rw (e, start_write, lookup-delete k r w.buffers)
            (elim (Bool-cases (str_eq k r)) [
              | inl t ↦ rw t (
                  append-nil ((x ∷ xs) ++ [])
                  ∙ append-nil (x ∷ xs)
                  ∙ sym (
                      ap (λ b. get_or b [])
                        (ap (λ i. lookup i w.buffers) (sym ((eq_iff k r).0 t)) ∙ e)))
              | inr f ↦ rw f refl
            ])

  drain-Moves : (k : String) (w : Writer P D) → Moves w (drain k w)
  unfolding drain held
  drain-Moves k w r = elim (Bool-cases (is_some (lookup k w.in_flight))) [
    | inl t ↦ rw t refl
    | inr f ↦ rw f (start_write-Moves k w r)
  ]

  drain_each-Moves : (ks : List String) (w : Writer P D) → Moves w (drain_each ks w)
  unfolding drain_each
  drain_each-Moves [] w r = refl
  drain_each-Moves (k ∷ ks) w r =
      let (w₁, out) = drain k w in
      let (w₂, rest) = drain_each ks w₁ in
      Moves-trans w w₁ w₂ out rest (drain-Moves k w) (drain_each-Moves ks w₁) r

  -- What a call adds to a run's events.
  abbrev pub one : String → String → Option (MigrationEvent P D) → List (MigrationEvent P D)
  one r k none = []
  one r k (some e) = if str_eq k r then e ∷ [] else []

  abbrev pub accepted : ℕ → String → String → Call P D → Writer P D → List (MigrationEvent P D)
  accepted max_logs text r (Call.push k e) w = one r k (record_and_maybe_cap max_logs text k e w).1
  accepted max_logs text r _ w = []

  held-push_buffer :
      (r k : String) (e : MigrationEvent P D) (w : Writer P D)
      → held r (push_buffer k e w) ≡ held r w ++ one r k (some e)
  unfolding held push_buffer
  held-push_buffer r k e w =
      ap (λ b. get_or b []) (lookup-insert k r (get_or (lookup k w.buffers) [] ++ e ∷ []) w.buffers)
      ∙ elim (Bool-cases (str_eq k r)) [
        | inl t ↦ rw (t, (eq_iff k r).0 t) refl
        | inr f ↦ rw f (sym (append-nil (get_or (lookup r w.buffers) [])))
      ]

  keep-adds :
      (max_batch : ℕ) (k : String) (e : MigrationEvent P D) (w : Writer P D) (r : String)
      → sent_of r (keep max_batch k e w).1 ++ held r (keep max_batch k e w).0
        ≡ held r w ++ one r k (some e)
  unfolding keep held
  keep-adds max_batch k e w r =
      elim (Bool-cases (leb max_batch (length (held k (push_buffer k e w))))) [
        | inl t ↦ rw t (drain-Moves k (push_buffer k e w) r ∙ held-push_buffer r k e w)
        | inr f ↦ rw f (held-push_buffer r k e w)
      ]

  held-counts :
      (r k : String) (max_logs : ℕ) (text : String) (e : MigrationEvent P D) (w : Writer P D)
      → held r (record_and_maybe_cap max_logs text k e w).0 ≡ held r w
  unfolding held record_and_maybe_cap
  held-counts r k max_logs text e w = elim (Bool-cases (is_log e)) [
    | inl t ↦ rw t refl
    | inr f ↦ rw f refl
  ]

  push_event-adds :
      (max_batch max_logs : ℕ) (text k : String) (e : MigrationEvent P D) (w : Writer P D)
      (r : String)
      → sent_of r (push_event max_batch max_logs text k e w).1
          ++ held r (push_event max_batch max_logs text k e w).0
        ≡ held r w ++ one r k (record_and_maybe_cap max_logs text k e w).1
  unfolding push_event
  push_event-adds max_batch max_logs text k e w r =
      go (record_and_maybe_cap max_logs text k e w).1 refl
    where
      w' : Writer P D
      w' = (record_and_maybe_cap max_logs text k e w).0

      go :
          (o : Option (MigrationEvent P D))
          → (record_and_maybe_cap max_logs text k e w).1 ≡ o
          → sent_of r (push_event max_batch max_logs text k e w).1
              ++ held r (push_event max_batch max_logs text k e w).0
            ≡ held r w ++ one r k o
      go none q =
          rw (q, push_event) (held-counts r k max_logs text e w ∙ sym (append-nil (held r w)))
      go (some e') q =
          rw (q, push_event)
            (keep-adds max_batch k e' w' r
              ∙ ap (λ l. l ++ one r k (some e')) (held-counts r k max_logs text e w))

  call-adds :
      (max_batch max_logs : ℕ) (text : String) (c : Call P D) (w : Writer P D) (r : String)
      → sent_of r (call max_batch max_logs text c w).1
          ++ held r (call max_batch max_logs text c w).0
        ≡ held r w ++ accepted max_logs text r c w
  unfolding call held all_ids
  call-adds max_batch max_logs text (Call.push k e) w r =
      push_event-adds max_batch max_logs text k e w r
  call-adds max_batch max_logs text (Call.flush k) w r =
      drain-Moves k w r ∙ sym (append-nil (held r w))
  call-adds max_batch max_logs text Call.flush_all w r =
      drain_each-Moves (all_ids w) w r ∙ sym (append-nil (held r w))
  call-adds max_batch max_logs text Call.timer_fires w r = elim (Bool-cases w.timer) [
    | inl t ↦
        rw t (
          drain_each-Moves (all_ids w) (record w { timer = false }) r ∙ sym (append-nil (held r w)))
    | inr f ↦ rw f (sym (append-nil (held r w)))
  ]
  call-adds max_batch max_logs text (Call.finish k) w r =
      drain_each-Moves _ _ r ∙ sym (append-nil (held r w))
  call-adds max_batch max_logs text (Call.forget k) w r = sym (append-nil (held r w))
  call-adds max_batch max_logs text Call.close w r =
      drain_each-Moves (all_ids w) (record w { timer = false }) r ∙ sym (append-nil (held r w))

  -- What a sequence of calls adds, each call judged by the state that it meets.
  unfoldable pub accepted_all :
      ℕ → ℕ → String → String → List (Call P D) → Writer P D → List (MigrationEvent P D)
  accepted_all max_batch max_logs text r [] w = []
  accepted_all max_batch max_logs text r (c ∷ cs) w =
      accepted max_logs text r c w
      ++ accepted_all max_batch max_logs text r cs (call max_batch max_logs text c w).0

  pub calls-adds :
      (max_batch max_logs : ℕ) (text : String) (cs : List (Call P D)) (w : Writer P D) (r : String)
      → sent_of r (calls max_batch max_logs text cs w).1
          ++ held r (calls max_batch max_logs text cs w).0
        ≡ held r w ++ accepted_all max_batch max_logs text r cs w
  unfolding calls accepted_all
  calls-adds max_batch max_logs text [] w r = sym (append-nil (held r w))
  calls-adds max_batch max_logs text (c ∷ cs) w r =
      let (w₁, out) = call max_batch max_logs text c w in
      let (w₂, rest) = calls max_batch max_logs text cs w₁ in
      ap (λ l. l ++ held r w₂) (sent_of-append r out rest)
      ∙ append_assoc (sent_of r out) (sent_of r rest) (held r w₂)
      ∙ ap (◌++◌ (sent_of r out)) (calls-adds max_batch max_logs text cs w₁ r)
      ∙ sym (append_assoc (sent_of r out) (held r w₁) _)
      ∙ ap (λ l. l ++ accepted_all max_batch max_logs text r cs w₁)
          (call-adds max_batch max_logs text c w r)
      ∙ append_assoc (held r w) (accepted max_logs text r c w) _
