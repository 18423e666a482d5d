-- ===== src/Client/Tables.antt =====
-- The tables and steps shown: what a batch of events makes of them.
use nodejs_movy_data.Prelude.{
  ℕ, ◌≤◌, ◌≡◌, refl, sym, ap, ◌∙◌, subst, inl, inr, ◌↔◌, Bool, true, false, String, Option, some,
  List, [], ◌∷◌, arith, eq_iff, Has, Dict, lookup, lookup-insert, IsMap, insert-IsMap, str_eq,
  Bool-cases, get_or, is_some, leb,
}
use nodejs_movy_data.Client.State.{Platform, WireEvent, Payload, RunState, TableView}
use nodejs_movy_data.Client.Fold.{
  Fold, is_over, set_table, new_table, progress_table, finish_table, seed_tables, apply_payload,
  fold_event, fold_events, start_fold, finish_fold, apply_events, load, by_table_name,
}
use nodejs_movy_data.Client.Replay.{apply_events-fold, fold_event-cases}
use nodejs_movy_data.Client.Keyed.{
  IsDistinct, IsKeyed, insert-IsKeyed, load_all, Has-iff-load, Has-iff-values,
  sort-values-IsDistinct,
}

abbrev pub table_key : {P : Type 0} → TableView P → String
table_key t = t.table_name

-- What the loop keeps of the table map: keys are names, none twice.
abbrev pub IsTableMap : {P : Type 0} → Dict (TableView P) → Type 0
IsTableMap m = IsMap m × IsKeyed table_key m

new_table_name :
    (P : Type 0) ⦃o : Platform P⦄ (name : String) (n : ℕ)
    → (new_table {P = P} name n).table_name ≡ name
unfolding new_table
new_table_name P name n = refl

module _ {P : Type 0} ⦃o : Platform P⦄ where
  -- An update that keeps the name.
  abbrev IsNamed : (TableView P → TableView P) → Type 0
  IsNamed g = (t : TableView P) → (g t).table_name ≡ t.table_name

  progress_table_name : (a b : Option ℕ) (c : Option P) → IsNamed (progress_table a b c)
  unfolding progress_table
  progress_table_name a b c t = refl

  finish_table_name :
      (a : Option ℕ) (b : Bool) (c : Option ℕ) (d : Option String) → IsNamed (finish_table a b c d)
  unfolding finish_table
  finish_table_name a b c d t = refl

  keyed-lookup :
      (name : String) (m : Dict (TableView P))
      → IsKeyed table_key m
      → (get_or (lookup name m) (new_table name 0)).table_name ≡ name
  unfolding lookup
  keyed-lookup name [] k = new_table_name P name 0
  keyed-lookup name ((j, w) ∷ m) (p, k) = elim (Bool-cases (str_eq j name)) [
    | inl t ↦ rw t (p ∙ (eq_iff j name).0 t)
    | inr f ↦ rw f (keyed-lookup name m k)
  ]

  set_table-IsTableMap :
      (name : String) (g : TableView P → TableView P) (m : Dict (TableView P))
      → IsNamed g
      → IsTableMap m
      → IsTableMap (set_table name g m)
  unfolding set_table
  set_table-IsTableMap name g m n (u, k) =
      (insert-IsMap name _ m u, insert-IsKeyed table_key _ m name (n _ ∙ keyed-lookup name m k) k)

  seed_tables-IsTableMap :
      (est : Dict ℕ) (names : List String) (m : Dict (TableView P))
      → IsTableMap m
      → IsTableMap (seed_tables est names m)
  unfolding seed_tables
  seed_tables-IsTableMap est [] m h = h
  seed_tables-IsTableMap est (name ∷ names) m (u, k) = elim (Bool-cases (is_some (lookup name m))) [
    | inl t ↦ rw t (seed_tables-IsTableMap est names m (u, k))
    | inr f ↦ rw f (
        seed_tables-IsTableMap est names _
          (insert-IsMap name _ m u, insert-IsKeyed table_key _ m name (new_table_name P name _) k))
  ]

  -- A table that is over stays over, and keeps at least its total.
  abbrev pub StaysOver : TableView P → TableView P → Type 0
  StaysOver t t' =
      (t'.table_name ≡ t.table_name) × (is_over t'.status ≡ true) × (t.rows_total ≤ t'.rows_total)

  progress_table_over :
      (a b : Option ℕ) (c : Option P) (t : TableView P)
      → is_over t.status ≡ true
      → StaysOver t (progress_table a b c t)
  unfolding progress_table
  progress_table_over a b c t h = (refl, rw h h, omega arith)

  finish_table_over :
      (a : Option ℕ) (b : Bool) (c : Option ℕ) (d : Option String) (t : TableView P)
      → StaysOver t (finish_table a b c d t)
  unfolding finish_table
  finish_table_over a true c d t = (refl, refl, omega arith)
  finish_table_over a false c d t = (refl, refl, omega arith)

  abbrev Over : String → TableView P → Dict (TableView P) → Type 0
  Over name t m = (t' : TableView P) × (lookup name m ≡ some t') × StaysOver t t'

  set_table-Over :
      (name j : String) (g : TableView P → TableView P) (m : Dict (TableView P)) (t : TableView P)
      → ((s : TableView P) → is_over s.status ≡ true → StaysOver s (g s))
      → lookup j m ≡ some t
      → is_over t.status ≡ true
      → Over j t (set_table name g m)
  unfolding set_table
  set_table-Over name j g m t keep e h = elim (Bool-cases (str_eq name j)) [
    | inl same ↦
        (g t, lookup-insert name j _ m ∙ rw (same, (eq_iff name j).0 same, e) refl, keep t h)
    | inr other ↦ (t, lookup-insert name j _ m ∙ rw other e, (refl, h, omega arith))
  ]

  seed_tables_over :
      (est : Dict ℕ) (names : List String) (j : String) (m : Dict (TableView P)) (t : TableView P)
      → lookup j m ≡ some t
      → lookup j (seed_tables est names m) ≡ some t
  unfolding seed_tables
  seed_tables_over est [] j m t e = e
  seed_tables_over est (name ∷ names) j m t e = elim (Bool-cases (is_some (lookup name m))) [
    | inl s ↦ rw s (seed_tables_over est names j m t e)
    | inr s ↦ rw s (
        seed_tables_over est names j _ t (elim (Bool-cases (str_eq name j)) [
          | inl same ↦ cc (rw ((eq_iff name j).0 same, e) at s)
          | inr other ↦ lookup-insert name j _ m ∙ rw other e
        ]))
  ]

module _ {P D : Type 0} ⦃o : Platform P⦄ where
  apply_payload-IsTableMap :
      (e : WireEvent P D) (p : Payload P D) (f : Fold P D)
      → IsTableMap f.tables
      → IsTableMap (apply_payload e p f).tables
  unfolding apply_payload
  apply_payload-IsTableMap e (Payload.plan_ready names est) f h =
      seed_tables-IsTableMap est names f.tables h
  apply_payload-IsTableMap e (Payload.table_progress name a b c) f h =
      set_table-IsTableMap name (progress_table a b c) f.tables (progress_table_name a b c) h
  apply_payload-IsTableMap e (Payload.table_finished name a b c d) f h =
      set_table-IsTableMap name (finish_table a b c d) f.tables (finish_table_name a b c d) h
  apply_payload-IsTableMap e _ f h = h

  pub fold_events-IsTableMap :
      (f : Fold P D) (es : List (WireEvent P D))
      → IsTableMap f.tables
      → IsTableMap (fold_events f es).tables
  unfolding fold_events fold_event
  fold_events-IsTableMap f [] h = h
  fold_events-IsTableMap f (e ∷ es) h =
      fold_events-IsTableMap (fold_event f e) es (elim (Bool-cases (leb e.seq f.last_seq)) [
        | inl t ↦ rw t h
        | inr n ↦ rw n (apply_payload-IsTableMap e e.payload (record f { last_seq = e.seq }) h)
      ])

  apply_payload-Over :
      (e : WireEvent P D) (p : Payload P D) (f : Fold P D) (j : String) (t : TableView P)
      → lookup j f.tables ≡ some t
      → is_over t.status ≡ true
      → Over j t (apply_payload e p f).tables
  unfolding apply_payload
  apply_payload-Over e (Payload.plan_ready names est) f j t q h =
      (t, seed_tables_over est names j f.tables t q, (refl, h, omega arith))
  apply_payload-Over e (Payload.table_progress name a b c) f j t q h =
      set_table-Over name j (progress_table a b c) f.tables t (progress_table_over a b c) q h
  apply_payload-Over e (Payload.table_finished name a b c d) f j t q h =
      set_table-Over name j (finish_table a b c d) f.tables t (λ s _. finish_table_over a b c d s) q
        h
  apply_payload-Over e _ f j t q h = (t, q, (refl, h, omega arith))

  fold_events-Over :
      (f : Fold P D) (es : List (WireEvent P D)) (j : String) (t : TableView P)
      → lookup j f.tables ≡ some t
      → is_over t.status ≡ true
      → Over j t (fold_events f es).tables
  unfolding fold_events fold_event
  fold_events-Over f [] j t q h = (t, q, (refl, h, omega arith))
  fold_events-Over f (e ∷ es) j t q h = elim (fold_event-cases f e) [
    | inl late ↦
        subst (λ g. Over j t (fold_events g es).tables) (sym late) (fold_events-Over f es j t q h)
    | inr new ↦
        let (t', q', k) = apply_payload-Over e e.payload (record f { last_seq = e.seq }) j t q h in
        let (t'', q'', k') =
          fold_events-Over (apply_payload e e.payload (record f { last_seq = e.seq })) es j t' q'
            k.1 in
        subst (λ g. Over j t (fold_events g es).tables) (sym new)
          (t'', q'', (k'.0 ∙ k.0, k'.1, omega arith))
  ]

  -- Whether the loop has touched the tables or not, its map and the list that it leaves agree.
  untouched :
      (e : WireEvent P D) (p : Payload P D) (f : Fold P D)
      → (apply_payload e p f).touched_tables ≡ false
      → ((apply_payload e p f).tables ≡ f.tables) × (f.touched_tables ≡ false)
  unfolding apply_payload
  untouched e (Payload.plan_ready names est) f h = cc
  untouched e (Payload.table_progress name a b c) f h = cc
  untouched e (Payload.table_finished name a b c d) f h = cc
  untouched e _ f h = (refl, h)

  fold_events_untouched :
      (f : Fold P D) (es : List (WireEvent P D))
      → (fold_events f es).touched_tables ≡ false
      → ((fold_events f es).tables ≡ f.tables) × (f.touched_tables ≡ false)
  unfolding fold_events fold_event
  fold_events_untouched f [] h = (refl, h)
  fold_events_untouched f (e ∷ es) h =
      let (a, b) = fold_events_untouched (fold_event f e) es h in
      elim (fold_event-cases f e) [
        | inl late ↦ (
          a ∙ ap (λ (g : Fold P D). g.tables) late,
          sym (ap (λ (g : Fold P D). g.touched_tables) late) ∙ b,
        )
        | inr new ↦
            let (c, d) =
              untouched e e.payload (record f { last_seq = e.seq })
                (sym (ap (λ (g : Fold P D). g.touched_tables) new) ∙ b) in
            (a ∙ ap (λ (g : Fold P D). g.tables) new ∙ c, d)
      ]

  pub tables-start_fold : (s : RunState P D) → (start_fold s).tables ≡ load table_key [] s.tables
  unfolding start_fold
  tables-start_fold s = refl

  abbrev pub Shown : TableView P → RunState P D → Type 0
  Shown t s = Has t s.tables

  -- The tables shown after a batch are exactly the entries of the loop's map, each under its name once.
  pub Shown-tables :
      (s : RunState P D) (es : List (WireEvent P D))
      → IsDistinct table_key s.tables
      → IsDistinct table_key (apply_events s es).tables
        × ((t : TableView P)
            → Shown t (apply_events s es)
              ↔ (lookup t.table_name (fold_events (start_fold s) es).tables ≡ some t))
  unfolding finish_fold
  Shown-tables s es d = rw (apply_events-fold s es) (elim (Bool-cases f.touched_tables) [
    | inl t ↦ rw t (
      sort-values-IsDistinct table_key by_table_name f.tables good.0 good.1,
      λ v. Has-iff-values table_key by_table_name v f.tables good.0 good.1,
    )
    | inr n ↦
        let same = (fold_events_untouched (start_fold s) es n).0 ∙ tables-start_fold s in
        rw n (d, λ v. rw same (Has-iff-load table_key v s.tables d))
  ])
    where
      f : Fold P D
      f = fold_events (start_fold s) es

      good : IsTableMap f.tables
      good =
          fold_events-IsTableMap (start_fold s) es
            (rw (tables-start_fold s) (load_all table_key s.tables))

  -- From a state whose tables have distinct names, by any batch of events given to `applyEvents` (a
  -- snapshot, which replaces the tables, is not one): a table shown as done or failed is still shown,
  -- as done or failed and with no fewer rows in total, and the tables' names are still distinct.
  pub over-StaysOver :
      (s : RunState P D) (es : List (WireEvent P D)) (t : TableView P)
      → IsDistinct table_key s.tables
      → Shown t s
      → is_over t.status ≡ true
      → IsDistinct table_key (apply_events s es).tables
        × ((t' : TableView P) × Shown t' (apply_events s es) × StaysOver t t')
  over-StaysOver s es t d m h =
      let q : lookup t.table_name (start_fold s).tables ≡ some t =
        rw (tables-start_fold s) ((Has-iff-load table_key t s.tables d).0 m) in
      let (t', q', k) = fold_events-Over (start_fold s) es t.table_name t q h in
      let (d', iff) = Shown-tables s es d in
      (d', (t', (iff t').1 (ap (λ n. lookup n (fold_events (start_fold s) es).tables) k.0 ∙ q'), k))
