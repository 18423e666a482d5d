-- ===== src/Migrate/Rounds.antt =====
-- The planner's loop: it ends, visits a table once, and only after the table's parents.
use nodejs_movy_data.Prelude.{
  ℕ, zero, suc, ◌+◌, ◌<◌, String, Bool, true, some, List, [], ◌∷◌, ◌++◌, length, ◌≡◌, refl, sym, ap,
  ◌∙◌, arith, Bool-cases, inl, inr, Dict,
}
use nodejs_movy_data.Migrate.Planner.{
  has, Graph, Walk, related, flat, visit_level, place, sort_tables, level_loop, with_level,
  comes_before,
}
use nodejs_movy_data.Migrate.Counting.{
  count, has-count, count-append, has-append, missing, missing-cong,
}
use nodejs_movy_data.Migrate.Symmetry.{IsSymmetric}
use nodejs_movy_data.Migrate.Levels.{ind, Counted}
use nodejs_movy_data.Migrate.Visits.{Sound, ChildrenKnown, Passed, visit_level-Passed}

module _ (before_text : String → String → Bool) (estimates : Dict ℕ) where
  count-place :
      (n a : String) (xs : List String)
      → count n (place before_text estimates a xs) ≡ count n (a ∷ xs)
  unfolding place count
  count-place n a [] = refl
  count-place n a (b ∷ bs) = elim (Bool-cases (comes_before before_text estimates b a)) [
    | inl t ↦ rw (t, count-place n a bs) (omega arith)
    | inr f ↦ rw f refl
  ]

  -- Sorting loses and doubles nothing.
  pub count-sort_tables :
      (n : String) (xs : List String) → count n (sort_tables before_text estimates xs) ≡ count n xs
  unfolding sort_tables count
  count-sort_tables n [] = refl
  count-sort_tables n (x ∷ xs) =
      rw (count-place n x (sort_tables before_text estimates xs), count-sort_tables n xs) refl

  pub has-sort_tables :
      (n : String) (xs : List String) → has n (sort_tables before_text estimates xs) ≡ has n xs
  has-sort_tables n xs =
      rw
        (has-count n (sort_tables before_text estimates xs), has-count n xs, count-sort_tables n xs)
        refl

  length-place :
      (a : String) (xs : List String) → length (place before_text estimates a xs) ≡ suc (length xs)
  unfolding place
  length-place a [] = refl
  length-place a (b ∷ bs) = elim (Bool-cases (comes_before before_text estimates b a)) [
    | inl t ↦ rw (t, length-place a bs) refl
    | inr f ↦ rw f refl
  ]

  length-sort_tables :
      (xs : List String) → length (sort_tables before_text estimates xs) ≡ length xs
  unfolding sort_tables
  length-sort_tables [] = refl
  length-sort_tables (x ∷ xs) =
      rw (length-place x (sort_tables before_text estimates xs), length-sort_tables xs) refl

  module _ (g : Graph) (names : List String) where
    -- Each table of a level has all its parents in earlier levels, or among the loaded to begin with.
    abbrev pub ParentsFirst : List String → List (List String) → Type 0
    ParentsFirst loaded [] = Unit
    ParentsFirst loaded (l ∷ ls) =
        ((n : String) → has n l ≡ true → missing loaded (related n g.parents) ≡ 0)
        × ParentsFirst (loaded ++ l) ls

    abbrev pub clean : Walk → Walk
    clean w = record w { candidates = [] }

    -- What holds before a round.
    pub record Ready (fuel : ℕ) (w : Walk) (current : List String) : Type 0 where
      pub sound : Sound g names (clean w) current
      pub counted : Counted g w []
      pub free : (n : String) → has n current ≡ true → missing w.visited (related n g.parents) ≡ 0
      pub enough : 0 < length current → missing w.queued names < fuel

    -- What the rounds come to.
    pub record Ended (w : Walk) (r : List (List String) × List String) : Type 0 where
      pub once : (n : String) → count n (flat r.0) + ind (has n w.visited) ≡ ind (has n r.1)
      pub known : (n : String) → has n r.1 ≡ true → has n names ≡ true
      pub first :
          (loaded : List String)
          → ((n : String) → has n loaded ≡ has n w.visited)
          → ParentsFirst loaded r.0

    module _ (symmetric : IsSymmetric g) (children : ChildrenKnown g names) where
      next_round : Walk → List String → Walk
      next_round w current = visit_level g (clean w) current

      passed :
          (fuel : ℕ) (w : Walk) (current : List String)
          → Ready fuel w current
          → Passed g names symmetric children (clean w) (next_round w current) current
      unfolding next_round
      passed fuel w current r =
          visit_level-Passed g names symmetric children current (clean w) r.sound r.counted

      next-Ready :
          (fuel : ℕ) (w : Walk) (t : String) (ts : List String)
          → Ready (suc fuel) w (t ∷ ts)
          → Ready fuel
              (next_round w (t ∷ ts))
              (sort_tables before_text estimates (next_round w (t ∷ ts)).candidates)
      unfolding count
      next-Ready fuel w t ts r =
          let p = passed (suc fuel) w (t ∷ ts) r in
          let w' = next_round w (t ∷ ts) in
          record {
            sound = record {
              line = λ n. omega (arith, p.sound.line n, count-sort_tables n w'.candidates);
              known = p.sound.known;
              freed = λ n m. cc;
            };
            counted = p.counted;
            free = λ n m. p.sound.freed n (sym (has-sort_tables n w'.candidates) ∙ m);
            enough = λ some_left. omega (
              arith,
              some_left,
              length-sort_tables w'.candidates,
              p.opens,
              r.enough (omega arith),
            );
          }

      over-Ended : (fuel : ℕ) (w : Walk) → Ready fuel w [] → Ended w ([], w.visited)
      unfolding count
      over-Ended fuel w r = record {
        once = λ n. omega arith;
        known = λ n m. r.sound.known n (ground (arith, r.sound.line n, m));
        first = λ loaded e. tt;
      }

      round-Ended :
          (fuel : ℕ) (w : Walk) (t : String) (ts : List String)
          (r : List (List String) × List String)
          → Ready (suc fuel) w (t ∷ ts)
          → Ended (next_round w (t ∷ ts)) r
          → Ended w ((t ∷ ts) ∷ r.0, r.1)
      round-Ended fuel w t ts r h e =
          let p = passed (suc fuel) w (t ∷ ts) h in
          record {
            once = λ n.
                let whole = count-append n (t ∷ ts) (flat r.0) in
                ground (arith, whole, e.once n, p.seen n, h.sound.line n, has-count n (t ∷ ts));
            known = e.known;
            first = λ loaded same. (
              λ n m. rw (missing-cong loaded w.visited (related n g.parents) same) (h.free n m),
              e.first (loaded ++ (t ∷ ts))
                  (λ n. rw (has-append n loaded (t ∷ ts), p.seen n, same n) refl),
            );
          }

      -- With more rounds than names that no one queued the loop ends, and ends well.
      pub level_loop-Ended :
          (fuel : ℕ) (w : Walk) (current : List String)
          → Ready fuel w current
          → (r : List (List String) × List String) × (level_loop before_text estimates fuel g w
                current
              ≡ some r)
            × Ended w r
      unfolding level_loop next_round
      level_loop-Ended zero w [] h = (([], w.visited), refl, over-Ended zero w h)
      level_loop-Ended (suc fuel) w [] h = (([], w.visited), refl, over-Ended (suc fuel) w h)
      level_loop-Ended zero w (t ∷ ts) h = absurd (omega (arith, h.enough (omega arith)))
      level_loop-Ended (suc fuel) w (t ∷ ts) h =
          let (r, e, k) = level_loop-Ended fuel _ _ (next-Ready fuel w t ts h) in
          (((t ∷ ts) ∷ r.0, r.1), ap (with_level (t ∷ ts)) e, round-Ended fuel w t ts r h k)
