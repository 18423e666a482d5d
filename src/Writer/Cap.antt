-- ===== src/Writer/Cap.antt =====
-- The cap on log events: nothing else is dropped, and of logs no more than the cap is kept.
use nodejs_movy_data.Prelude.{
  ℕ, suc, ◌+◌, ◌-◌, ◌≤◌, ◌<◌, ◌≡◌, refl, sym, ap, ◌∙◌, subst, inl, inr, Bool, true, false, not,
  String, Option, none, some, List, [], ◌∷◌, ◌++◌, arith, eq_iff, All, lookup, insert, delete,
  lookup-insert, lookup-delete, filter, filter-append, length, length-append, str_eq, ltb, leb,
  ◌==◌, ==_iff, if◌then◌else◌, Bool-cases, get_or, is_some,
}
use nodejs_movy_data.Events.Types.{EventInput, MigrationEvent}
use nodejs_movy_data.Writer.State.{
  Writer, Call, is_log_input, is_log, with_notice, notice, capped, seen_after, record_and_maybe_cap,
  held, start_write, drain, drain_each, all_ids, push_buffer, keep, push_event, call, calls,
  empty_writer,
}
use nodejs_movy_data.Writer.Order.{sent_of, one, accepted, accepted_all, calls-adds}

module _ {P D : Type 0} where
  abbrev pub is_kept : MigrationEvent P D → Bool
  is_kept e = not (is_log e)

  -- The events pushed for a run.
  abbrev pub pushed : String → List (Call P D) → List (MigrationEvent P D)
  pushed r [] = []
  pushed r (Call.push k e ∷ cs) = one r k (some e) ++ pushed r cs
  pushed r (_ ∷ cs) = pushed r cs

  notice-is_log :
      (text : String) (b : EventInput P D) → is_log_input (with_notice text b) ≡ is_log_input b
  notice-is_log text (EventInput.log level message step_id) = refl
  notice-is_log text (EventInput.run_started a b c) = refl
  notice-is_log text (EventInput.run_finished a b c d) = refl
  notice-is_log text (EventInput.step_started a b) = refl
  notice-is_log text (EventInput.step_finished a b c d e) = refl
  notice-is_log text (EventInput.plan_ready a b c) = refl
  notice-is_log text (EventInput.table_progress a b c d) = refl
  notice-is_log text (EventInput.table_finished a b c d e) = refl
  notice-is_log text (EventInput.overall_progress a b c d e) = refl

  one-log :
      (r k : String) (e : MigrationEvent P D)
      → is_log e ≡ true
      → filter is_kept (one r k (some e)) ≡ []
  one-log r k e h = elim (Bool-cases (str_eq k r)) [ inl t ↦ rw (t, h) refl | inr f ↦ rw f refl ]

  capped-log :
      (max_logs seen : ℕ) (text r k : String) (e : MigrationEvent P D)
      → is_log e ≡ true
      → filter is_kept (one r k (capped max_logs text seen e)) ≡ []
  unfolding capped notice
  capped-log max_logs seen text r k e h = elim (Bool-cases (ltb seen max_logs)) [
    | inl t ↦ rw t (one-log r k e h)
    | inr f ↦ rw f (elim (Bool-cases (seen == max_logs)) [
      | inl t ↦ rw t (one-log r k (notice text e) (notice-is_log text e.body ∙ h))
      | inr g ↦ rw g refl
    ])
  ]

  accepted-kept :
      (max_logs : ℕ) (text r k : String) (e : MigrationEvent P D) (w : Writer P D)
      → filter is_kept (one r k (record_and_maybe_cap max_logs text k e w).1)
        ≡ filter is_kept (one r k (some e))
  unfolding record_and_maybe_cap
  accepted-kept max_logs text r k e w = elim (Bool-cases (is_log e)) [
    | inl t ↦ rw t (capped-log max_logs (seen_after k w) text r k e t ∙ sym (one-log r k e t))
    | inr f ↦ rw f refl
  ]

  accepted_all-kept :
      (max_batch max_logs : ℕ) (text r : String) (cs : List (Call P D)) (w : Writer P D)
      → filter is_kept (accepted_all max_batch max_logs text r cs w) ≡ filter is_kept (pushed r cs)
  unfolding accepted_all
  accepted_all-kept max_batch max_logs text r [] w = refl
  accepted_all-kept max_batch max_logs text r (Call.push k e ∷ cs) w =
      filter-append is_kept (accepted max_logs text r (Call.push k e) w) _
      ∙ ap
          (λ l.
            l
            ++ filter is_kept (
                accepted_all max_batch max_logs text r cs
                  (call max_batch max_logs text (Call.push k e) w).0))
          (accepted-kept max_logs text r k e w)
      ∙ ap (◌++◌ (filter is_kept (one r k (some e))))
          (accepted_all-kept max_batch max_logs text r cs _)
      ∙ sym (filter-append is_kept (one r k (some e)) (pushed r cs))
  accepted_all-kept max_batch max_logs text r (Call.flush k ∷ cs) w =
      accepted_all-kept max_batch max_logs text r cs _
  accepted_all-kept max_batch max_logs text r (Call.flush_all ∷ cs) w =
      accepted_all-kept max_batch max_logs text r cs _
  accepted_all-kept max_batch max_logs text r (Call.timer_fires ∷ cs) w =
      accepted_all-kept max_batch max_logs text r cs _
  accepted_all-kept max_batch max_logs text r (Call.finish k ∷ cs) w =
      accepted_all-kept max_batch max_logs text r cs _
  accepted_all-kept max_batch max_logs text r (Call.forget k ∷ cs) w =
      accepted_all-kept max_batch max_logs text r cs _
  accepted_all-kept max_batch max_logs text r (Call.close ∷ cs) w =
      accepted_all-kept max_batch max_logs text r cs _

  held-empty_writer : (r : String) → held {P = P} {D = D} r empty_writer ≡ []
  unfolding held empty_writer lookup
  held-empty_writer r = refl

  -- However pushes, flushes, ends of writes and the timer interleave, a run's events but its logs are
  -- handed to the store in the order they were pushed, each once, or are still held, in order, behind
  -- those: none is lost, doubled or overtaken.
  pub structural_kept :
      (max_batch max_logs : ℕ) (text : String) (cs : List (Call P D)) (r : String)
      → filter is_kept (sent_of r (calls max_batch max_logs text cs empty_writer).1)
          ++ filter is_kept (held r (calls max_batch max_logs text cs empty_writer).0)
        ≡ filter is_kept (pushed r cs)
  structural_kept max_batch max_logs text cs r =
      sym (filter-append is_kept (sent_of r (calls max_batch max_logs text cs empty_writer).1) _)
      ∙ ap (filter is_kept) (calls-adds max_batch max_logs text cs empty_writer r)
      ∙ ap (λ l. filter is_kept (l ++ accepted_all max_batch max_logs text r cs empty_writer))
          (held-empty_writer r)
      ∙ accepted_all-kept max_batch max_logs text r cs empty_writer

count-empty_writer :
    (P D : Type 0) (r : String) → get_or (lookup r (empty_writer {P = P} {D = D}).log_counts) 0 ≡ 0
unfolding empty_writer lookup
count-empty_writer P D r = refl

module _ {P D : Type 0} where
  -- How many logs of a run have been counted.
  abbrev count : String → Writer P D → ℕ
  count r w = get_or (lookup r w.log_counts) 0

  abbrev logs_in : List (MigrationEvent P D) → ℕ
  logs_in es = length (filter is_log es)

  counts-drain : (k : String) (w : Writer P D) → (drain k w).0.log_counts ≡ w.log_counts
  unfolding drain start_write
  counts-drain k w = elim (Bool-cases (is_some (lookup k w.in_flight))) [
    | inl t ↦ rw t refl
    | inr f ↦ rw f (go (lookup k w.buffers) refl)
  ]
    where
      go :
          (b : Option (List (MigrationEvent P D)))
          → lookup k w.buffers ≡ b
          → (start_write k w).0.log_counts ≡ w.log_counts
      go none e = rw (e, start_write) refl
      go (some []) e = rw (e, start_write) refl
      go (some (x ∷ xs)) e = rw (e, start_write) refl

  counts-drain_each :
      (ks : List String) (w : Writer P D) → (drain_each ks w).0.log_counts ≡ w.log_counts
  unfolding drain_each
  counts-drain_each [] w = refl
  counts-drain_each (k ∷ ks) w = counts-drain_each ks (drain k w).0 ∙ counts-drain k w

  counts-keep :
      (max_batch : ℕ) (k : String) (e : MigrationEvent P D) (w : Writer P D)
      → (keep max_batch k e w).0.log_counts ≡ w.log_counts
  unfolding keep push_buffer
  counts-keep max_batch k e w =
      elim (Bool-cases (leb max_batch (length (held k (push_buffer k e w))))) [
        | inl t ↦ rw t (counts-drain k (push_buffer k e w))
        | inr f ↦ rw f refl
      ]

  counts-push_event :
      (max_batch max_logs : ℕ) (text k : String) (e : MigrationEvent P D) (w : Writer P D)
      → (push_event max_batch max_logs text k e w).0.log_counts
        ≡ (record_and_maybe_cap max_logs text k e w).0.log_counts
  unfolding push_event
  counts-push_event max_batch max_logs text k e w =
      go (record_and_maybe_cap max_logs text k e w).1 refl
    where
      go :
          (o : Option (MigrationEvent P D))
          → (record_and_maybe_cap max_logs text k e w).1 ≡ o
          → (push_event max_batch max_logs text k e w).0.log_counts
            ≡ (record_and_maybe_cap max_logs text k e w).0.log_counts
      go none q = rw (q, push_event) refl
      go (some e') q = rw (q, push_event) (counts-keep max_batch k e' _)

  one-length : (r k : String) (e : MigrationEvent P D) → logs_in (one r k (some e)) ≤ 1
  one-length r k e = elim (Bool-cases (str_eq k r)) [
    | inl t ↦
        rw t
          (elim (Bool-cases (is_log e)) [ inl y ↦ rw y (omega arith) | inr n ↦ rw n (omega arith) ])
    | inr f ↦ rw f (omega arith)
  ]

  one-quiet :
      (r k : String) (e : MigrationEvent P D) → is_log e ≡ false → logs_in (one r k (some e)) ≡ 0
  one-quiet r k e h = elim (Bool-cases (str_eq k r)) [ inl t ↦ rw (t, h) refl | inr f ↦ rw f refl ]

  one-other : (r k : String) (x : Option (MigrationEvent P D)) → str_eq k r ≡ false → one r k x ≡ []
  one-other r k none h = refl
  one-other r k (some e) h = rw h refl

  capped-room :
      (max_logs n : ℕ) (text k : String) (e : MigrationEvent P D)
      → logs_in (one k k (capped max_logs text (suc n) e)) + (max_logs - suc n) ≤ max_logs - n
  unfolding capped
  capped-room max_logs n text k e = elim (Bool-cases (ltb (suc n) max_logs)) [
    | inl t ↦ rw t (omega (arith, one-length k k e, below (suc n) max_logs t))
    | inr f ↦ rw f (elim (Bool-cases (suc n == max_logs)) [
      | inl t ↦ rw t (omega (arith, one-length k k (notice text e), (==_iff (suc n) max_logs).0 t))
      | inr g ↦ rw g (omega arith)
    ])
  ]
    where
      below : (a b : ℕ) → ltb a b ≡ true → a < b
      below a b h = ground arith

  push-room :
      (max_logs : ℕ) (text r k : String) (e : MigrationEvent P D) (w : Writer P D)
      → logs_in (one r k (record_and_maybe_cap max_logs text k e w).1)
          + (max_logs - count r (record_and_maybe_cap max_logs text k e w).0)
        ≤ max_logs - count r w
  unfolding record_and_maybe_cap seen_after
  push-room max_logs text r k e w = elim (Bool-cases (is_log e)) [
    | inr n ↦ rw n (omega (arith, one-quiet r k e n))
    | inl y ↦ rw y (elim (Bool-cases (str_eq k r)) [
      | inl t ↦ subst (λ i. room i) ((eq_iff k r).0 t) mine
      | inr f ↦
          let other = one-other r k (capped max_logs text (suc (count k w)) e) f in
          let same = lookup-insert k r (suc (count k w)) w.log_counts in
          rw (other, same, f) (omega arith)
    ])
  ]
    where
      room : String → Type 0
      room i =
          logs_in (one i k (capped max_logs text (suc (count k w)) e))
            + (max_logs - get_or (lookup i (insert k (suc (count k w)) w.log_counts)) 0)
          ≤ max_logs - count i w

      mine : room k
      mine =
          rw (lookup-insert k k (suc (count k w)) w.log_counts, (eq_iff k k).1 refl)
            (capped-room max_logs (count k w) text k e)

  -- The call does not start a run's count again.
  abbrev pub keeps_count : String → Call P D → Bool
  keeps_count r (Call.forget k) = not (str_eq k r)
  keeps_count r _ = true

  same_room :
      (max_logs : ℕ) (r : String) (w w' : Writer P D)
      → w'.log_counts ≡ w.log_counts
      → 0 + (max_logs - count r w') ≤ max_logs - count r w
  same_room max_logs r w w' h = rw h (omega arith)

  call-room :
      (max_batch max_logs : ℕ) (text r : String) (c : Call P D) (w : Writer P D)
      → keeps_count r c ≡ true
      → logs_in (accepted max_logs text r c w)
          + (max_logs - count r (call max_batch max_logs text c w).0)
        ≤ max_logs - count r w
  unfolding call
  call-room max_batch max_logs text r (Call.push k e) w h =
      rw (counts-push_event max_batch max_logs text k e w) (push-room max_logs text r k e w)
  call-room max_batch max_logs text r (Call.flush k) w h = rw (counts-drain k w) (omega arith)
  call-room max_batch max_logs text r Call.flush_all w h =
      rw (counts-drain_each (all_ids w) w) (omega arith)
  call-room max_batch max_logs text r Call.timer_fires w h = tick w.timer
    where
      tick :
          (b : Bool)
          → 0
              + (max_logs
                  - count r
                      (if b
                        then drain_each (all_ids w) (record w { timer = false })
                        else (w, [])).0)
            ≤ max_logs - count r w
      tick true =
          same_room max_logs r w (drain_each (all_ids w) (record w { timer = false })).0
            (counts-drain_each (all_ids w) (record w { timer = false }))
      tick false = omega arith
  call-room max_batch max_logs text r (Call.finish k) w h =
      same_room max_logs r w
        (drain_each waiting (record w {
          in_flight = delete k w.in_flight;
          waiters = filter (λ x. not (str_eq x k)) w.waiters;
        })).0
        (counts-drain_each waiting _)
    where
      waiting : List String
      waiting = filter (λ x. str_eq x k) w.waiters
  call-room max_batch max_logs text r (Call.forget k) w h = elim (Bool-cases (str_eq k r)) [
    | inl t ↦ cc (rw t at h)
    | inr f ↦ rw (lookup-delete k r w.log_counts, f) (omega arith)
  ]
  call-room max_batch max_logs text r Call.close w h =
      rw (counts-drain_each (all_ids w) (record w { timer = false })) (omega arith)

  accepted_all-room :
      (max_batch max_logs : ℕ) (text r : String) (cs : List (Call P D)) (w : Writer P D)
      → All (λ c. keeps_count r c ≡ true) cs
      → logs_in (accepted_all max_batch max_logs text r cs w) ≤ max_logs - count r w
  unfolding accepted_all
  accepted_all-room max_batch max_logs text r [] w h = omega arith
  accepted_all-room max_batch max_logs text r (c ∷ cs) w (k, h) =
      let now = accepted max_logs text r c w in
      let later = accepted_all max_batch max_logs text r cs (call max_batch max_logs text c w).0 in
      omega (
        arith,
        ap length (filter-append is_log now later),
        length-append (filter is_log now) (filter is_log later),
        call-room max_batch max_logs text r c w k,
        accepted_all-room max_batch max_logs text r cs (call max_batch max_logs text c w).0 h,
      )

  -- However many logs a run emits, at most `max_logs` of them are handed to the store or held, as long as
  -- the run's count is not forgotten.
  pub logs_capped :
      (max_batch max_logs : ℕ) (text : String) (cs : List (Call P D)) (r : String)
      → All (λ c. keeps_count r c ≡ true) cs
      → length (
          filter is_log (
            sent_of r (calls max_batch max_logs text cs empty_writer).1
            ++ held r (calls max_batch max_logs text cs empty_writer).0))
        ≤ max_logs
  logs_capped max_batch max_logs text cs r h = omega (
    arith,
    ap (λ l. length (filter is_log l)) (calls-adds max_batch max_logs text cs empty_writer r),
    ap (λ l. length (filter is_log (l ++ accepted_all max_batch max_logs text r cs empty_writer)))
        (held-empty_writer r),
    accepted_all-room max_batch max_logs text r cs empty_writer h,
    count-empty_writer P D r,
  )
