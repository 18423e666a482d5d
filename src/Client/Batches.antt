-- ===== src/Client/Batches.antt =====
-- One batch or two: the fold does not depend on how the stream was cut.
use mathlib.Core.List.{append-nil, append_assoc}
use nodejs_movy_data.Prelude.{
  ℕ, ◌≡◌, refl, sym, ap, ◌∙◌, subst, inl, inr, ◌↔◌, Bool, true, false, String, some, List, [], ◌∷◌,
  ◌++◌, All-Has, Has-of_lookup, Option-cases, Dict, lookup, insert, lookup-insert, str_eq,
  if◌then◌else◌, get_or, is_some, leb,
}
use nodejs_movy_data.Client.State.{Platform, WireEvent, Payload, RunState, TableView}
use nodejs_movy_data.Client.Fold.{
  Fold, set_table, new_table, seed_tables, progress_table, finish_table, apply_payload, fold_event,
  fold_events, start_fold, finish_fold, apply_events,
}
use nodejs_movy_data.Client.Replay.{apply_events-fold, last_seq-apply_payload}
use nodejs_movy_data.Client.Keyed.{IsDistinct, IsKeyed, Has-iff-load, load_all}
use nodejs_movy_data.Client.Tables.{
  table_key, Shown, Shown-tables, fold_events-IsTableMap, tables-start_fold, IsTableMap,
}
use nodejs_movy_data.Client.Logs.{appended, appended-append}

-- Two maps that answer alike.
abbrev pub Alike : {V : Type 0} → Dict V → Dict V → Type 0
Alike m n = (k : String) → lookup k m ≡ lookup k n

module _ {V : Type 0} where
  insert-Alike :
      (k : String) (v : V) (m n : Dict V) → Alike m n → Alike (insert k v m) (insert k v n)
  insert-Alike k v m n h j =
      lookup-insert k j v m
      ∙ ap (λ x. if str_eq k j then some v else x) (h j)
      ∙ sym (lookup-insert k j v n)

module _ {P : Type 0} ⦃o : Platform P⦄ where
  set_table-Alike :
      (name : String) (g : TableView P → TableView P) (m n : Dict (TableView P))
      → Alike m n
      → Alike (set_table name g m) (set_table name g n)
  unfolding set_table
  set_table-Alike name g m n h =
      rw (h name) (insert-Alike name (g (get_or (lookup name n) (new_table name 0))) m n h)

  seed_tables-Alike :
      (est : Dict ℕ) (names : List String) (m n : Dict (TableView P))
      → Alike m n
      → Alike (seed_tables est names m) (seed_tables est names n)
  unfolding seed_tables
  seed_tables-Alike est [] m n h = h
  seed_tables-Alike est (name ∷ names) m n h =
      seed_tables-Alike est names _ _
        (choice (is_some (lookup name m)) (is_some (lookup name n)) (ap is_some (h name)))
    where
      seeded : TableView P
      seeded = new_table name (get_or (lookup name est) 0)

      choice :
          (a b : Bool)
          → a ≡ b
          → Alike (if a then m else insert name seeded m) (if b then n else insert name seeded n)
      choice true true e = h
      choice false false e = insert-Alike name seeded m n h
      choice true false e = cc
      choice false true e = cc

module _ {P : Type 0} where
  lookup_name :
      (k : String) (v : TableView P) (m : Dict (TableView P))
      → IsKeyed table_key m
      → lookup k m ≡ some v
      → table_key v ≡ k
  lookup_name k v m h e =
      All-Has (λ (x : String × TableView P). table_key x.1 ≡ x.0) (k, v) m h (Has-of_lookup k v m e)

  same_entries :
      (m n : Dict (TableView P))
      → IsTableMap m
      → IsTableMap n
      → ((t : TableView P) → (lookup (table_key t) m ≡ some t) ↔ (lookup (table_key t) n ≡ some t))
      → Alike m n
  same_entries m n (um, km) (un, kn) h k = elim (Option-cases (lookup k m)) [
    | inl a ↦ elim (Option-cases (lookup k n)) [
      | inl b ↦ a ∙ sym b
      | inr (v, b) ↦
          let name = lookup_name k v n kn b in
          cc (
            sym a ∙ subst (λ i. lookup i m ≡ some v) name ((h v).1 (ap (λ i. lookup i n) name ∙ b)))
    ]
    | inr (v, a) ↦
        let name = lookup_name k v m km a in
        a ∙ sym (subst (λ i. lookup i n ≡ some v) name ((h v).0 (ap (λ i. lookup i m) name ∙ a)))
  ]

-- The loop's variables agree, but for the order in the tables' map, and for the logs.
pub record Agrees {P D : Type 0} (f g : Fold P D) : Type 0 where
  pub run : f.run ≡ g.run
  pub last_seq : f.last_seq ≡ g.last_seq
  pub tables : Alike f.tables g.tables

module _ {P D : Type 0} ⦃o : Platform P⦄ where
  Agrees-refl : (f : Fold P D) → Agrees f f
  Agrees-refl f = record { run = refl; last_seq = refl; tables = λ k. refl }

  apply_payload-Agrees :
      (e : WireEvent P D) (p : Payload P D) (f g : Fold P D)
      → Agrees f g
      → Agrees (apply_payload e p f) (apply_payload e p g)
  unfolding apply_payload
  apply_payload-Agrees e (Payload.plan_ready names est) f g h = record {
    run = h.run;
    last_seq = h.last_seq;
    tables = seed_tables-Alike est names f.tables g.tables h.tables;
  }
  apply_payload-Agrees e (Payload.table_progress name a b c) f g h = record {
    run = h.run;
    last_seq = h.last_seq;
    tables = set_table-Alike name (progress_table a b c) f.tables g.tables h.tables;
  }
  apply_payload-Agrees e (Payload.table_finished name a b c d) f g h = record {
    run = h.run;
    last_seq = h.last_seq;
    tables = set_table-Alike name (finish_table a b c d) f.tables g.tables h.tables;
  }
  apply_payload-Agrees e _ f g h = record {
    run = rw (h.run) refl;
    last_seq = h.last_seq;
    tables = h.tables;
  }

  fold_event-Agrees :
      (f g : Fold P D) (e : WireEvent P D) → Agrees f g → Agrees (fold_event f e) (fold_event g e)
  unfolding fold_event
  fold_event-Agrees f g e h =
      choice (leb e.seq f.last_seq) (leb e.seq g.last_seq) (ap (leb e.seq) h.last_seq)
    where
      choice :
          (a b : Bool)
          → a ≡ b
          → Agrees
              (if a then f else apply_payload e e.payload (record f { last_seq = e.seq }))
              (if b then g else apply_payload e e.payload (record g { last_seq = e.seq }))
      choice true true q = h
      choice false false q =
          apply_payload-Agrees e e.payload (record f { last_seq = e.seq })
            (record g { last_seq = e.seq })
            (record { run = h.run; last_seq = refl; tables = h.tables })
      choice true false q = cc
      choice false true q = cc

  fold_events-Agrees :
      (f g : Fold P D) (es : List (WireEvent P D))
      → Agrees f g
      → Agrees (fold_events f es) (fold_events g es)
  unfolding fold_events
  fold_events-Agrees f g [] h = h
  fold_events-Agrees f g (e ∷ es) h =
      fold_events-Agrees (fold_event f e) (fold_event g e) es (fold_event-Agrees f g e h)

  fold_events-append :
      (f : Fold P D) (xs ys : List (WireEvent P D))
      → fold_events f (xs ++ ys) ≡ fold_events (fold_events f xs) ys
  unfolding fold_events
  fold_events-append f [] ys = refl
  fold_events-append f (x ∷ xs) ys = fold_events-append (fold_event f x) xs ys

  -- What the log pane gains does not depend on what it holds.
  abbrev log_less : Fold P D → Fold P D
  log_less f = record f { logs = [] }

  apply_payload-logs :
      (e : WireEvent P D) (p : Payload P D) (f g : Fold P D)
      → (apply_payload e p f).logs ≡ f.logs ++ (apply_payload e p (log_less g)).logs
  unfolding apply_payload
  apply_payload-logs e (Payload.log message step_id) f g = refl
  apply_payload-logs e _ f g = sym (append-nil f.logs)

  fold_event-logs :
      (f g : Fold P D) (e : WireEvent P D)
      → f.last_seq ≡ g.last_seq
      → ((fold_event f e).logs ≡ f.logs ++ (fold_event (log_less g) e).logs)
        × ((fold_event f e).last_seq ≡ (fold_event (log_less g) e).last_seq)
  unfolding fold_event
  fold_event-logs f g e h = choice (leb e.seq f.last_seq) (leb e.seq g.last_seq) (ap (leb e.seq) h)
    where
      old : Fold P D
      old = record f { last_seq = e.seq }

      new : Fold P D
      new = record (log_less g) { last_seq = e.seq }

      choice :
          (a b : Bool)
          → a ≡ b
          → ((if a then f else apply_payload e e.payload old).logs
              ≡ f.logs ++ (if b then log_less g else apply_payload e e.payload new).logs)
            × ((if a then f else apply_payload e e.payload old).last_seq
                ≡ (if b then log_less g else apply_payload e e.payload new).last_seq)
      choice true true q = (sym (append-nil f.logs), h)
      choice false false q = (
        apply_payload-logs e e.payload old new,
        last_seq-apply_payload e e.payload old ∙ sym (last_seq-apply_payload e e.payload new),
      )
      choice true false q = cc
      choice false true q = cc

  fold_events-logs :
      (f g : Fold P D) (es : List (WireEvent P D))
      → f.last_seq ≡ g.last_seq
      → (fold_events f es).logs ≡ f.logs ++ (fold_events (log_less g) es).logs
  unfolding fold_events
  fold_events-logs f g [] h = sym (append-nil f.logs)
  fold_events-logs f g (e ∷ es) h =
      let (now, seq) = fold_event-logs f g e h in
      fold_events-logs (fold_event f e) (fold_event (log_less g) e) es seq
      ∙ ap (λ l. l ++ (fold_events (log_less (fold_event (log_less g) e)) es).logs) now
      ∙ append_assoc f.logs _ _
      ∙ ap (◌++◌ f.logs)
          (sym (fold_events-logs (fold_event (log_less g) e) (fold_event (log_less g) e) es refl))

  -- The loop's maps, and what is shown of them.
  apply_events-logs :
      (s : RunState P D) (es : List (WireEvent P D))
      → (apply_events s es).logs ≡ appended s.logs (fold_events (start_fold s) es).logs
  unfolding finish_fold
  apply_events-logs s es = rw (apply_events-fold s es) refl

  apply_events-run :
      (s : RunState P D) (es : List (WireEvent P D))
      → ((apply_events s es).run ≡ (fold_events (start_fold s) es).run)
        × ((apply_events s es).last_seq ≡ (fold_events (start_fold s) es).last_seq)
  unfolding finish_fold
  apply_events-run s es = rw (apply_events-fold s es) (refl, refl)

  start_fold-facts :
      (s : RunState P D)
      → ((start_fold s).run ≡ s.run)
        × ((start_fold s).last_seq ≡ s.last_seq)
        × ((start_fold s).logs ≡ [])
  unfolding start_fold
  start_fold-facts s = (refl, refl, refl)

  start_fold-IsTableMap : (s : RunState P D) → IsTableMap (start_fold s).tables
  start_fold-IsTableMap s = rw (tables-start_fold s) (load_all table_key s.tables)

  -- Loading the state that a batch leaves gives the loop's variables at the batch's end, but for the logs.
  reload-Agrees :
      (s : RunState P D) (xs : List (WireEvent P D))
      → IsDistinct table_key s.tables
      → Agrees (start_fold (apply_events s xs)) (fold_events (start_fold s) xs)
  reload-Agrees s xs d =
      let (run, seq) = apply_events-run s xs in
      let (run', seq', _) = start_fold-facts (apply_events s xs) in
      let (d', shown) = Shown-tables s xs d in
      record {
        run = run' ∙ run;
        last_seq = seq' ∙ seq;
        tables =
            same_entries _ _ (start_fold-IsTableMap (apply_events s xs))
              (fold_events-IsTableMap (start_fold s) xs (start_fold-IsTableMap s))
              (λ t.
                let loaded = Has-iff-load table_key t (apply_events s xs).tables d' in
                (
                  λ e. (shown t).0 (
                      loaded.1 (
                        ap (lookup (table_key t)) (sym (tables-start_fold (apply_events s xs)))
                        ∙ e)),
                  λ e.
                      ap (lookup (table_key t)) (tables-start_fold (apply_events s xs))
                      ∙ loaded.0 ((shown t).1 e),
                ));
      }

  logs-append :
      (s : RunState P D) (xs ys : List (WireEvent P D))
      → (start_fold (apply_events s xs)).last_seq ≡ (fold_events (start_fold s) xs).last_seq
      → (apply_events (apply_events s xs) ys).logs ≡ (apply_events s (xs ++ ys)).logs
  logs-append s xs ys seq =
      apply_events-logs mid ys
      ∙ ap (λ l. appended l (fold_events (start_fold mid) ys).logs) (apply_events-logs s xs)
      ∙ ap (appended (appended s.logs f.logs)) new
      ∙ appended-append s.logs f.logs (fold_events (log_less f) ys).logs
      ∙ ap (appended s.logs) (sym (fold_events-logs f f ys refl))
      ∙ ap (λ (g : Fold P D). appended s.logs g.logs)
          (sym (fold_events-append (start_fold s) xs ys))
      ∙ sym (apply_events-logs s (xs ++ ys))
    where
      mid : RunState P D
      mid = apply_events s xs

      f : Fold P D
      f = fold_events (start_fold s) xs

      new : (fold_events (start_fold mid) ys).logs ≡ (fold_events (log_less f) ys).logs
      new =
          fold_events-logs (start_fold mid) f ys seq
          ∙ ap (λ l. l ++ (fold_events (log_less f) ys).logs) (start_fold-facts mid).2

  abbrev pub SameView : RunState P D → RunState P D → Type 0
  SameView a b =
      (a.run ≡ b.run)
      × (a.last_seq ≡ b.last_seq)
      × (a.logs ≡ b.logs)
      × ((t : TableView P) → Shown t a ↔ Shown t b)

  -- Two batches, one after the other, show what the one batch of all their events shows: the same run
  -- header, cursor and log pane and the same tables, if no table is listed twice to start with.
  pub apply_events-append :
      (s : RunState P D) (xs ys : List (WireEvent P D))
      → IsDistinct table_key s.tables
      → SameView (apply_events (apply_events s xs) ys) (apply_events s (xs ++ ys))
  apply_events-append s xs ys d =
      let mid : RunState P D = apply_events s xs in
      let f : Fold P D = fold_events (start_fold s) xs in
      let whole = fold_events-append (start_fold s) xs ys in
      let h = fold_events-Agrees (start_fold mid) f ys (reload-Agrees s xs d) in
      let (run₁, seq₁) = apply_events-run mid ys in
      let (run₂, seq₂) = apply_events-run s (xs ++ ys) in
      let shown₁ = (Shown-tables mid ys (Shown-tables s xs d).0).1 in
      let shown₂ = (Shown-tables s (xs ++ ys) d).1 in
      let tables : (t : TableView P)
          → lookup (table_key t) (fold_events (start_fold mid) ys).tables
            ≡ lookup (table_key t) (fold_events (start_fold s) (xs ++ ys)).tables =
        λ t.
          h.tables (table_key t)
          ∙ ap (λ (g : Fold P D). lookup (table_key t) g.tables) (sym whole) in
      (
        run₁ ∙ h.run ∙ ap (λ (g : Fold P D). g.run) (sym whole) ∙ sym run₂,
        seq₁ ∙ h.last_seq ∙ ap (λ (g : Fold P D). g.last_seq) (sym whole) ∙ sym seq₂,
        logs-append s xs ys (reload-Agrees s xs d).last_seq,
        λ t. (
          λ m. (shown₂ t).1 (sym (tables t) ∙ (shown₁ t).0 m),
          λ m. (shown₁ t).1 (tables t ∙ (shown₂ t).0 m),
        ),
      )
