-- ===== src/Migrate/Counting.antt =====
-- How often a name stands in a list, and how many parents of a table are still to be loaded.
use nodejs_movy_data.Prelude.{
  ℕ, ◌+◌, ◌≤◌, String, true, false, not, ◌&&◌, ◌||◌, List, [], ◌∷◌, ◌++◌, length, str_eq, eq_iff,
  ltb, if◌then◌else◌, ◌≡◌, refl, arith, Bool-cases, inl, inr, Dict, lookup-insert,
}
use nodejs_movy_data.Migrate.Planner.{has, add, related, relate}

unfoldable pub count : String → List String → ℕ
count x [] = 0
count x (y ∷ ys) = (if str_eq y x then 1 else 0) + count x ys

pub has-count : (x : String) (xs : List String) → has x xs ≡ ltb 0 (count x xs)
unfolding count
has-count x [] = refl
has-count x (y ∷ ys) = ground (arith, has-count x ys)

pub count-append : (x : String) (xs ys : List String) → count x (xs ++ ys) ≡ count x xs + count x ys
unfolding count
count-append x [] ys = omega arith
count-append x (y ∷ xs) ys = ground (arith, count-append x xs ys)

pub count-add :
    (x y : String) (xs : List String)
    → count x (add y xs) ≡ count x xs + (if not (has y xs) && str_eq y x then 1 else 0)
unfolding count
count-add x y xs = elim (Bool-cases (has y xs)) [
  | inl t ↦ rw t (omega arith)
  | inr f ↦ rw (f, count-append x xs (y ∷ [])) (omega arith)
]

pub has-append : (x : String) (xs ys : List String) → has x (xs ++ ys) ≡ (has x xs || has x ys)
has-append x [] ys = refl
has-append x (y ∷ xs) ys = ground (arith, has-append x xs ys)

pub has-add : (x y : String) (xs : List String) → has x (add y xs) ≡ (has x xs || str_eq y x)
has-add x y xs = elim (Bool-cases (has y xs)) [
  | inl t ↦ rw t (there xs t)
  | inr f ↦ rw (f, has-append x xs (y ∷ [])) (ground arith)
]
  where
    there : (zs : List String) → has y zs ≡ true → has x zs ≡ (has x zs || str_eq y x)
    there [] h = cc
    there (z ∷ zs) h = ground (arith, eq_iff z y, eq_iff z x, eq_iff y x, there zs)

-- The parents that are not among the loaded tables.
unfoldable pub missing : List String → List String → ℕ
missing loaded [] = 0
missing loaded (p ∷ ps) = (if has p loaded then 0 else 1) + missing loaded ps

pub missing-nil : (ps : List String) → missing [] ps ≡ length ps
unfolding missing
missing-nil [] = refl
missing-nil (p ∷ ps) = omega (arith, missing-nil ps)

-- Loading one more table takes as many parents off as name it.
pub missing-add :
    (t : String) (loaded ps : List String)
    → has t loaded ≡ false
    → missing loaded ps ≡ missing (add t loaded) ps + count t ps
unfolding missing count
missing-add t loaded [] h = refl
missing-add t loaded (p ∷ ps) h =
    let same : t ≡ p → has p loaded ≡ false = λ e. rw (← e) h in
    let rest = missing-add t loaded ps h in
    rw (has-add p t loaded) (ground (arith, eq_iff t p, eq_iff p t, same, rest))

pub missing-cong :
    (a b ps : List String) → ((x : String) → has x a ≡ has x b) → missing a ps ≡ missing b ps
unfolding missing
missing-cong a b [] h = refl
missing-cong a b (p ∷ ps) h = rw (h p, missing-cong a b ps h) refl

pub missing-add-le :
    (t : String) (loaded ps : List String) → missing (add t loaded) ps ≤ missing loaded ps
unfolding missing
missing-add-le t loaded [] = omega arith
missing-add-le t loaded (p ∷ ps) =
    rw (has-add p t loaded) (ground (arith, missing-add-le t loaded ps))

pub related-relate :
    (at name other : String) (d : Dict (List String))
    → related at (relate name other d)
      ≡ (if str_eq name at then add other (related name d) else related at d)
related-relate at name other d =
    rw (lookup-insert name at (add other (related name d)) d)
      (elim (Bool-cases (str_eq name at)) [ inl t ↦ rw t refl | inr f ↦ rw f refl ])
