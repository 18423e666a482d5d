-- ===== src/Migrate/Visits.antt =====
-- A level of the planner's loop: the tables are visited one after the other, each with its children.
use nodejs_movy_data.Prelude.{
  ℕ, suc, ◌+◌, ◌≤◌, String, Bool, true, false, ◌||◌, List, [], ◌∷◌, length, str_eq, eq_iff, ◌≡◌,
  refl, arith, Bool-cases, inl, inr, length-append,
}
use nodejs_movy_data.Migrate.Planner.{
  has, add, Graph, Walk, related, visit_child, visit_children, visit_level,
}
use nodejs_movy_data.Migrate.Counting.{
  count, has-count, has-add, missing, missing-add, missing-add-le,
}
use nodejs_movy_data.Migrate.Symmetry.{IsSymmetric}
use nodejs_movy_data.Migrate.Levels.{
  is_freed, Line, Known, Counted, Freed, visit_child-visited, visit_child-Line, visit_child-Known,
  visit_child-Counted, visit_child-Freed,
}

-- The candidates and the names that no one queued: what the loop can still come to.
abbrev pub open_names : List String → Walk → ℕ
open_names names w = length w.candidates + missing w.queued names

length-add-le : (x : String) (xs : List String) → length (add x xs) ≤ suc (length xs)
length-add-le x xs = elim (Bool-cases (has x xs)) [
  | inl t ↦ rw t (omega arith)
  | inr f ↦ rw (f, length-append xs (x ∷ [])) (omega arith)
]

visit_child-open-le :
    (names : List String) (w : Walk) (child : String)
    → has child names ≡ true
    → open_names names (visit_child w child) ≤ open_names names w
unfolding visit_child
visit_child-open-le names w child c = elim (Bool-cases (is_freed w child)) [
  | inl t ↦ rw t (
      ground (
        arith,
        length-add-le child w.candidates,
        missing-add child w.queued names,
        has-count child names,
      ))
  | inr f ↦ rw f (omega arith)
]

module _ (g : Graph) (names : List String) where
  pub record Sound (w : Walk) (ts : List String) : Type 0 where
    pub line : Line w ts
    pub known : Known names w
    pub freed : Freed g w

  -- The children of a table are tables of the run.
  abbrev pub ChildrenKnown : Type 0
  ChildrenKnown = (t c : String) → has c (related t g.children) ≡ true → has c names ≡ true

  pub record Visited (w w' : Walk) (ts : List String) : Type 0 where
    pub sound : Sound w' ts
    pub counted : Counted g w' []
    pub same : w'.visited ≡ w.visited
    pub opens : open_names names w' ≤ open_names names w

  visit_children-Visited :
      (cs : List String) (w : Walk) (ts : List String)
      → ((c : String) → has c cs ≡ true → has c names ≡ true)
      → Sound w ts
      → Counted g w cs
      → Visited w (visit_children w cs) ts
  unfolding visit_children
  visit_children-Visited [] w ts k s h = record {
    sound = s;
    counted = h;
    same = refl;
    opens = omega arith;
  }
  visit_children-Visited (c ∷ cs) w ts k s h =
      let head = k c (rw ((eq_iff c c).1 refl) refl) in
      let rest =
        visit_children-Visited cs (visit_child w c) ts (λ d m. k d (tail_has d m))
          (record {
            line = visit_child-Line w ts c s.line;
            known = visit_child-Known names w c head s.known;
            freed = visit_child-Freed g w c cs h s.freed;
          })
          (visit_child-Counted g w c cs h) in
      record {
        sound = rest.sound;
        counted = rest.counted;
        same = rw (rest.same) (visit_child-visited w c);
        opens = omega (arith, rest.opens, visit_child-open-le names w c head);
      }
    where
      tail_has : (d : String) → has d cs ≡ true → has d (c ∷ cs) ≡ true
      tail_has d m = ground (arith, m)

  module _ (symmetric : IsSymmetric g) (children : ChildrenKnown) where
    -- A table of the level that is marked as visited: its children are still to be counted.
    marked : Walk → String → Walk
    marked w t = record w { visited = add t w.visited }

    marked-Sound :
        (w : Walk) (t : String) (ts : List String) → Sound w (t ∷ ts) → Sound (marked w t) ts
    unfolding marked count
    marked-Sound w t ts s = record {
      line = λ n. rw (has-add n t w.visited) (ground (arith, s.line n));
      known = s.known;
      freed = λ n m. omega (arith, s.freed n m, missing-add-le t w.visited (related n g.parents));
    }

    marked-Counted :
        (w : Walk) (t : String) (ts : List String)
        → Sound w (t ∷ ts)
        → Counted g w []
        → Counted g (marked w t) (related t g.children)
    unfolding marked count
    marked-Counted w t ts s h c =
        omega (arith, h c, missing-add t w.visited (related c g.parents) unseen, symmetric t c)
      where
        unseen : has t w.visited ≡ false
        unseen = ground (arith, s.line t, eq_iff t t)

    visit_one :
        (w : Walk) (t : String) (ts : List String)
        → Sound w (t ∷ ts)
        → Counted g w []
        → Visited (marked w t) (visit_children (marked w t) (related t g.children)) ts
    visit_one w t ts s h =
        visit_children-Visited (related t g.children) (marked w t) ts (children t)
          (marked-Sound w t ts s) (marked-Counted w t ts s h)

    -- After a level its tables are visited as well, and every candidate is freed.
    pub record Passed (w w' : Walk) (ts : List String) : Type 0 where
      pub sound : Sound w' []
      pub counted : Counted g w' []
      pub seen : (n : String) → has n w'.visited ≡ (has n w.visited || has n ts)
      pub opens : open_names names w' ≤ open_names names w

    pub visit_level-Passed :
        (ts : List String) (w : Walk)
        → Sound w ts
        → Counted g w []
        → Passed w (visit_level g w ts) ts
    unfolding visit_level marked
    visit_level-Passed [] w s h = record {
      sound = s;
      counted = h;
      seen = λ n. ground arith;
      opens = omega arith;
    }
    visit_level-Passed (t ∷ ts) w s h =
        let one = visit_one w t ts s h in
        let rest = visit_level-Passed ts _ one.sound one.counted in
        record {
          sound = rest.sound;
          counted = rest.counted;
          seen = λ n.
              rw (rest.seen n, one.same, has-add n t w.visited)
                (assoc (has n w.visited) (str_eq t n) (has n ts));
          opens = omega (arith, rest.opens, one.opens);
        }
      where
        assoc : (a b c : Bool) → ((a || b) || c) ≡ (a || (b || c))
        assoc a b c = ground arith
