-- ===== src/Events/Samples.antt =====
-- What throttling keeps: every event that is no sample, in order, and the newest sample of each key.
use mathlib.Core.List.{append-nil}
use mathlib.Core.Option.{some-injective}
use nodejs_movy_data.Prelude.{
  ℕ, suc, ◌≡◌, refl, sym, ap, ◌∙◌, subst, ◌⊎◌, inl, inr, Bool, true, false, String, Option, none,
  some, List, [], ◌∷◌, ◌++◌, map, eq_iff, Has, Has-map, Dict, lookup, insert, delete, lookup-insert,
  lookup-delete, keys, Has-of_lookup, filter, length, str_eq, if◌then◌else◌, Bool-cases,
  Option-cases, holds, or_else,
}
use nodejs_movy_data.Events.Types.{EventInput, MigrationEvent}
use nodejs_movy_data.Events.Sinks.{
  key_of, table_key, Throttle, is_due, empty_throttle, flush_key, sample, pass_on, throttle,
  throttle_all, flush_keys, flush, number_all, emitted,
}

-- What is there, if anything.
abbrev pub to_list : {A : Type 0} → Option A → List A
to_list none = []
to_list (some a) = a ∷ []

starts_with_t : String → Bool
starts_with_t String.[] = false
starts_with_t (String.◌∷◌ c s) = str_eq (String.◌∷◌ c String.[]) "t"

table_key_other : (name : String) → str_eq (table_key name) "overall" ≡ false
unfolding table_key starts_with_t
table_key_other name = elim (Bool-cases (str_eq (table_key name) "overall")) [
  | inl t ↦ cc (ap starts_with_t ((eq_iff (table_key name) "overall").0 t))
  | inr f ↦ f
]

module _ {P D : Type 0} where
  -- The events that are not samples.
  abbrev pub is_structural : EventInput P D → Bool
  is_structural e = elim (key_of e) [ none ↦ true | some k ↦ false ]

  abbrev pub structural : List (EventInput P D) → List (EventInput P D)
  structural = filter is_structural

  structural-sample :
      (e : EventInput P D) (key : String) → key_of e ≡ some key → structural (e ∷ []) ≡ []
  structural-sample e key h =
      ap (λ (o : Option String). if (elim o [ none ↦ true | some k ↦ false ]) then e ∷ [] else []) h

  -- The newest sample under a key.
  abbrev pub newest :
      String → Option (EventInput P D) → List (EventInput P D) → Option (EventInput P D)
  newest k acc [] = acc
  newest k acc (e ∷ es) = newest k (if holds (key_of e) k then some e else acc) es

  structural-append :
      (xs ys : List (EventInput P D)) → structural (xs ++ ys) ≡ structural xs ++ structural ys
  structural-append [] ys = refl
  structural-append (x ∷ xs) ys = elim (Bool-cases (is_structural x)) [
    | inl t ↦ rw (t, structural-append xs ys) refl
    | inr f ↦ rw (f, structural-append xs ys) refl
  ]

  newest-append :
      (k : String) (acc : Option (EventInput P D)) (xs ys : List (EventInput P D))
      → newest k acc (xs ++ ys) ≡ newest k (newest k acc xs) ys
  newest-append k acc [] ys = refl
  newest-append k acc (x ∷ xs) ys =
      newest-append k (if holds (key_of x) k then some x else acc) xs ys

  -- Every held event is a sample, held under its own key.
  abbrev IsFiled : Dict (EventInput P D) → Type 0
  IsFiled m = (k : String) (e : EventInput P D) → lookup k m ≡ some e → key_of e ≡ some k

  insert-IsFiled :
      (k : String) (e : EventInput P D) (m : Dict (EventInput P D))
      → key_of e ≡ some k
      → IsFiled m
      → IsFiled (insert k e m)
  insert-IsFiled k e m h f j x q = elim (Bool-cases (str_eq k j)) [
    | inl t ↦
        let same : some e ≡ some x =
          sym (lookup-insert k j e m ∙ ap (λ b. if b then some e else lookup j m) t) ∙ q in
        ap key_of (sym (some-injective e x same)) ∙ h ∙ ap some ((eq_iff k j).0 t)
    | inr n ↦ f j x (sym (lookup-insert k j e m ∙ ap (λ b. if b then some e else lookup j m) n) ∙ q)
  ]

  delete-IsFiled : (k : String) (m : Dict (EventInput P D)) → IsFiled m → IsFiled (delete k m)
  delete-IsFiled k m f j x q = elim (Bool-cases (str_eq k j)) [
    | inl t ↦ cc (sym (lookup-delete k j m ∙ ap (λ b. if b then none else lookup j m) t) ∙ q)
    | inr n ↦ f j x (sym (lookup-delete k j m ∙ ap (λ b. if b then none else lookup j m) n) ∙ q)
  ]

-- One step of a sink: what it passes on of each kind, and what it holds afterwards.
pub record Keeps {P D : Type 0} (given : List (EventInput P D)) (s s' : Throttle P D)
    (out : List (EventInput P D)) : Type 0 where
  pub filed : IsFiled s'.pending
  pub same_structural : structural out ≡ structural given
  pub same_newest :
      (k : String) (acc : Option (EventInput P D))
      → or_else (lookup k s'.pending) (newest k acc out)
        ≡ newest k (or_else (lookup k s.pending) acc) given

module _ {P D : Type 0} where
  -- A held sample that is let go is the newest of its key.
  newest-let_go :
      (key k : String) (held : EventInput P D) (m : Dict (EventInput P D))
      (acc : Option (EventInput P D))
      → key_of held ≡ some key
      → lookup key m ≡ some held
      → or_else (lookup k (delete key m)) (newest k acc (held ∷ [])) ≡ or_else (lookup k m) acc
  newest-let_go key k held m acc h q =
      rw (h, lookup-delete key k m)
        (elim (Bool-cases (str_eq key k)) [
          | inl t ↦ rw (t, subst (λ i. lookup i m ≡ some held) ((eq_iff key k).0 t) q) refl
          | inr n ↦ rw n refl
        ])

  Keeps-trans :
      (xs ys : List (EventInput P D)) (s t u : Throttle P D) (out rest : List (EventInput P D))
      → Keeps xs s t out
      → Keeps ys t u rest
      → Keeps (xs ++ ys) s u (out ++ rest)
  Keeps-trans xs ys s t u out rest a b = record {
    filed = b.filed;
    same_structural =
        structural-append out rest
        ∙ ap (λ l. l ++ structural rest) a.same_structural
        ∙ ap (◌++◌ (structural xs)) b.same_structural
        ∙ sym (structural-append xs ys);
    same_newest = λ k acc.
        ap (or_else (lookup k u.pending)) (newest-append k acc out rest)
        ∙ b.same_newest k (newest k acc out)
        ∙ ap (λ o. newest k o ys) (a.same_newest k acc)
        ∙ sym (newest-append k (or_else (lookup k s.pending) acc) xs ys);
  }

module _ {P D : Type 0} (interval_ms : ℕ) (clock : ℕ → ℕ) where
  flush_key-none :
      (key : String) (s : Throttle P D)
      → lookup key s.pending ≡ none
      → flush_key interval_ms clock key s ≡ (s, [])
  unfolding flush_key
  flush_key-none key s h = rw (h, flush_key) refl

  flush_key-some :
      (key : String) (held : EventInput P D) (s : Throttle P D)
      → lookup key s.pending ≡ some held
      → flush_key interval_ms clock key s ≡ (
        record {
          last_sent_at = insert key (clock s.reads) s.last_sent_at;
          pending = delete key s.pending;
          reads = suc s.reads;
        },
        held ∷ [],
      )
  unfolding flush_key
  flush_key-some key held s h = rw (h, flush_key) refl

  flush_key-Keeps :
      (key : String) (s : Throttle P D)
      → IsFiled s.pending
      → Keeps [] s (flush_key interval_ms clock key s).0 (flush_key interval_ms clock key s).1
  flush_key-Keeps key s f = elim (Option-cases (lookup key s.pending)) [
    | inl n ↦
        subst (λ (r : Throttle P D × List (EventInput P D)). Keeps [] s r.0 r.1)
          (sym (flush_key-none key s n))
          (record { filed = f; same_structural = refl; same_newest = λ k acc. refl })
    | inr (held, h) ↦
        subst (λ (r : Throttle P D × List (EventInput P D)). Keeps [] s r.0 r.1)
          (sym (flush_key-some key held s h))
          (record {
            filed = delete-IsFiled key s.pending f;
            same_structural = structural-sample held key (f key held h);
            same_newest = λ k acc. newest-let_go key k held s.pending acc (f key held h) h;
          })
  ]

  sample-Keeps :
      (key : String) (e : EventInput P D) (s : Throttle P D)
      → key_of e ≡ some key
      → IsFiled s.pending
      → Keeps (e ∷ []) s (sample interval_ms clock key e s).0 (sample interval_ms clock key e s).1
  unfolding sample
  sample-Keeps key e s h f =
      elim (Bool-cases (is_due interval_ms (clock s.reads) (lookup key s.last_sent_at))) [
        | inl t ↦ rw t (record {
          filed = delete-IsFiled key s.pending f;
          same_structural = refl;
          same_newest = λ k acc.
              rw (h, lookup-delete key k s.pending)
                (elim (Bool-cases (str_eq key k)) [ inl y ↦ rw y refl | inr n ↦ rw n refl ]);
        })
        | inr n ↦ rw n (record {
          filed = insert-IsFiled key e s.pending h f;
          same_structural = sym (structural-sample e key h);
          same_newest = λ k acc.
              rw (h, lookup-insert key k e s.pending)
                (elim (Bool-cases (str_eq key k)) [ inl y ↦ rw y refl | inr n ↦ rw n refl ]);
        })
      ]

  -- Passing an event without a key on as it is.
  through-Keeps :
      (e : EventInput P D) (s : Throttle P D)
      → key_of e ≡ none
      → IsFiled s.pending
      → Keeps (e ∷ []) s s (e ∷ [])
  through-Keeps e s h f = record {
    filed = f;
    same_structural = refl;
    same_newest = λ k acc. rw h refl;
  }

  pass_on-Keeps :
      (e : EventInput P D) (s : Throttle P D)
      → key_of e ≡ none
      → IsFiled s.pending
      → Keeps (e ∷ []) s (pass_on interval_ms clock e s).0 (pass_on interval_ms clock e s).1
  unfolding pass_on
  pass_on-Keeps (EventInput.table_finished name a b c d) s h f =
      let e : EventInput P D = EventInput.table_finished name a b c d in
      let (s₁, out₁) = flush_key interval_ms clock (table_key name) s in
      let (s₂, out₂) = flush_key interval_ms clock "overall" s₁ in
      let one = flush_key-Keeps (table_key name) s f in
      let two = flush_key-Keeps "overall" s₁ one.filed in
      Keeps-trans [] (e ∷ []) s s₂ s₂ (out₁ ++ out₂) (e ∷ [])
        (Keeps-trans [] [] s s₁ s₂ out₁ out₂ one two) (through-Keeps e s₂ h two.filed)
  pass_on-Keeps e s h f = through-Keeps e s h f

  throttle-Keeps :
      (e : EventInput P D) (s : Throttle P D)
      → IsFiled s.pending
      → Keeps (e ∷ []) s (throttle interval_ms clock e s).0 (throttle interval_ms clock e s).1
  unfolding throttle
  throttle-Keeps e s f = elim (Option-cases (key_of e)) [
    | inl n ↦ rw (n, throttle) (pass_on-Keeps e s n f)
    | inr (key, h) ↦ rw (h, throttle) (sample-Keeps key e s h f)
  ]

  throttle_all-Keeps :
      (es : List (EventInput P D)) (s : Throttle P D)
      → IsFiled s.pending
      → Keeps es s (throttle_all interval_ms clock es s).0 (throttle_all interval_ms clock es s).1
  unfolding throttle_all
  throttle_all-Keeps [] s f = record {
    filed = f;
    same_structural = refl;
    same_newest = λ k acc. refl;
  }
  throttle_all-Keeps (e ∷ es) s f =
      let one = throttle-Keeps e s f in
      Keeps-trans (e ∷ []) es s _ _ _ _ one (throttle_all-Keeps es _ one.filed)

  flush_keys-Keeps :
      (ks : List String) (s : Throttle P D)
      → IsFiled s.pending
      → Keeps [] s (flush_keys interval_ms clock ks s).0 (flush_keys interval_ms clock ks s).1
  unfolding flush_keys
  flush_keys-Keeps [] s f = record {
    filed = f;
    same_structural = refl;
    same_newest = λ k acc. refl;
  }
  flush_keys-Keeps (k ∷ ks) s f =
      let one = flush_key-Keeps k s f in
      Keeps-trans [] [] s _ _ _ _ one (flush_keys-Keeps ks _ one.filed)

  flush_key_clears :
      (key k : String) (s : Throttle P D)
      → (key ≡ k) ⊎ (lookup k s.pending ≡ none)
      → lookup k (flush_key interval_ms clock key s).0.pending ≡ none
  flush_key_clears key k s h = elim (Option-cases (lookup key s.pending)) [
    | inl n ↦
        ap (λ (r : Throttle P D × List (EventInput P D)). lookup k r.0.pending)
          (flush_key-none key s n)
        ∙ elim h [ inl e ↦ subst (λ i. lookup i s.pending ≡ none) e n | inr m ↦ m ]
    | inr (held, q) ↦
        ap (λ (r : Throttle P D × List (EventInput P D)). lookup k r.0.pending)
          (flush_key-some key held s q)
        ∙ lookup-delete key k s.pending
        ∙ elim h [
          | inl e ↦ rw ((eq_iff key k).1 e) refl
          | inr m ↦ elim (Bool-cases (str_eq key k)) [ inl t ↦ rw t refl | inr f ↦ rw f m ]
        ]
  ]

  flush_keys_clears :
      (k : String) (ks : List String) (s : Throttle P D)
      → Has k ks ⊎ (lookup k s.pending ≡ none)
      → lookup k (flush_keys interval_ms clock ks s).0.pending ≡ none
  unfolding flush_keys
  flush_keys_clears k [] s (inl m) = absurd m
  flush_keys_clears k [] s (inr n) = n
  flush_keys_clears k (j ∷ ks) s (inl (inl e)) =
      flush_keys_clears k ks _ (inr (flush_key_clears j k s (inl e)))
  flush_keys_clears k (j ∷ ks) s (inl (inr m)) = flush_keys_clears k ks _ (inl m)
  flush_keys_clears k (j ∷ ks) s (inr n) =
      flush_keys_clears k ks _ (inr (flush_key_clears j k s (inr n)))

  flush_clears :
      (k : String) (s : Throttle P D) → lookup k (flush interval_ms clock s).0.pending ≡ none
  unfolding flush
  flush_clears k s =
      flush_keys_clears k (keys s.pending) s (elim (Option-cases (lookup k s.pending)) [
        | inl n ↦ inr n
        | inr (e, q) ↦ inl (
            Has-map (λ (x : String × EventInput P D). x.0) (k, e) s.pending
              (Has-of_lookup k e s.pending q))
      ])

  flush-Keeps :
      (s : Throttle P D)
      → IsFiled s.pending
      → Keeps [] s (flush interval_ms clock s).0 (flush interval_ms clock s).1
  unfolding flush
  flush-Keeps s f = flush_keys-Keeps (keys s.pending) s f

  flush_key-samples :
      (key : String) (s : Throttle P D)
      → (flush_key interval_ms clock key s).1 ≡ to_list (lookup key s.pending)
  unfolding flush_key
  flush_key-samples key s = elim (Option-cases (lookup key s.pending)) [
    | inl n ↦ rw (n, flush_key) refl
    | inr (e, h) ↦ rw (h, flush_key) refl
  ]

  -- Flushing one key leaves what another holds.
  samples-flush_key :
      (key k : String) (s : Throttle P D)
      → str_eq key k ≡ false
      → to_list (lookup k (flush_key interval_ms clock key s).0.pending)
        ≡ to_list (lookup k s.pending)
  unfolding flush_key
  samples-flush_key key k s apart = elim (Option-cases (lookup key s.pending)) [
    | inl n ↦ rw (n, flush_key) refl
    | inr (e, h) ↦ rw (h, flush_key, lookup-delete key k s.pending, apart) refl
  ]

  -- When a table finishes, what passes on is the sample held for it, if any, then the sample held for the
  -- whole, if any, then the news itself; and after it neither key holds a sample.
  pub finished_last :
      (name : String) (rows_copied duration_ms : ℕ) (success : Bool) (error : Option String)
      (s : Throttle P D)
      → ((throttle interval_ms clock
            (EventInput.table_finished name rows_copied duration_ms success error)
            s).1
          ≡ to_list (lookup (table_key name) s.pending)
            ++ to_list (lookup "overall" s.pending)
            ++ EventInput.table_finished name rows_copied duration_ms success error ∷ [])
        × (lookup
              (table_key name)
              (throttle interval_ms clock
                (EventInput.table_finished name rows_copied duration_ms success error)
                s).0.pending
            ≡ none)
        × (lookup "overall"
              (throttle interval_ms clock
                (EventInput.table_finished name rows_copied duration_ms success error)
                s).0.pending
            ≡ none)
  unfolding throttle key_of pass_on
  finished_last name a b c d s =
      let (s₁, out₁) = flush_key interval_ms clock (table_key name) s in
      (
        rw
            (
              flush_key-samples (table_key name) s,
              flush_key-samples "overall" s₁,
              samples-flush_key (table_key name) "overall" s (table_key_other name),
            )
            refl,
        flush_key_clears "overall" (table_key name) s₁
            (inr (flush_key_clears (table_key name) (table_key name) s (inl refl))),
        flush_key_clears "overall" "overall" s₁ (inl refl),
      )

abbrev pub count_from : ℕ → ℕ → List ℕ
count_from n ℕ.zero = []
count_from n (suc k) = suc n ∷ count_from (suc n) k

module _ {P D : Type 0} where
  number_all-facts :
      (run_id : String) (now : ℕ → String) (n : ℕ) (es : List (EventInput P D))
      → (map (λ (e : MigrationEvent P D). e.body) (number_all run_id now n es) ≡ es)
        × (map (λ (e : MigrationEvent P D). e.seq) (number_all run_id now n es)
            ≡ count_from n (length es))
  unfolding number_all
  number_all-facts run_id now n [] = (refl, refl)
  number_all-facts run_id now n (e ∷ es) =
      let (a, b) = number_all-facts run_id now (suc n) es in (ap (◌∷◌ e) a, ap (◌∷◌ (suc n)) b)

  empty_throttle-IsFiled : IsFiled (empty_throttle {P = P} {D = D}).pending
  unfolding empty_throttle lookup
  empty_throttle-IsFiled k e q = cc

  abbrev pub bodies : List (MigrationEvent P D) → List (EventInput P D)
  bodies = map (λ e. e.body)

  -- Of what a run emits, up to the final flush, every event that is no progress sample arrives, once and
  -- in order; of the samples, the last that arrives for each table, and for the whole run, is the last
  -- that was emitted; and what arrives is numbered 1, 2, 3 and so on without a gap.
  pub emitted_keeps :
      (run_id : String) (interval_ms : ℕ) (clock : ℕ → ℕ) (now : ℕ → String)
      (es : List (EventInput P D))
      → (structural (bodies (emitted run_id interval_ms clock now es)) ≡ structural es)
        × ((k : String)
            → newest k none (bodies (emitted run_id interval_ms clock now es)) ≡ newest k none es)
        × (map (λ e. e.seq) (emitted run_id interval_ms clock now es)
            ≡ count_from 0 (length (bodies (emitted run_id interval_ms clock now es))))
  unfolding emitted empty_throttle lookup
  emitted_keeps run_id interval_ms clock now es =
      let (s, out) = throttle_all interval_ms clock es empty_throttle in
      let (s', rest) = flush interval_ms clock s in
      let one = throttle_all-Keeps interval_ms clock es empty_throttle empty_throttle-IsFiled in
      let two = flush-Keeps interval_ms clock s one.filed in
      let all =
        subst (λ l. Keeps l empty_throttle s' (out ++ rest)) (append-nil es)
          (Keeps-trans es [] empty_throttle s s' out rest one two) in
      let (same, seqs) = number_all-facts run_id now 0 (out ++ rest) in
      (
        ap structural same ∙ all.same_structural,
        λ k.
            ap (newest k none) same
            ∙ ap (λ o. or_else o (newest k none (out ++ rest)))
                (sym (flush_clears interval_ms clock k s))
            ∙ all.same_newest k none,
        seqs ∙ ap (λ l. count_from 0 (length l)) (sym same),
      )
