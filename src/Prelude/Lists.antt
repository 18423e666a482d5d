-- ===== src/Prelude/Lists.antt =====
-- Lists measured by native numbers, and predicates on all their elements.
use Prim.Native.Nat.{ℕ, zero, suc, ◌+◌, ◌-◌, ◌≤◌}
use mathlib.Core.Path.{◌≡◌, refl, subst, ap}
use mathlib.Core.Logic.{◌⊎◌, inl, inr}
use mathlib.Core.Bool.{Bool, true, false, ◌||◌}
use mathlib.Core.Option.{Option, none, some}
use mathlib.Core.List.{List, [], ◌∷◌, ◌++◌, map}
use native.Mathlib.Omega.{arith}
use nodejs_movy_data.Prelude.Tests.{if◌then◌else◌, Bool-cases}

module _ {ℓ} {A : Type ℓ} where
  abbrev pub length : List A → ℕ
  length [] = 0
  length (x ∷ xs) = suc (length xs)

  abbrev pub take : ℕ → List A → List A
  take zero xs = []
  take (suc n) [] = []
  take (suc n) (x ∷ xs) = x ∷ take n xs

  abbrev pub drop : ℕ → List A → List A
  drop zero xs = xs
  drop (suc n) [] = []
  drop (suc n) (x ∷ xs) = drop n xs

  -- `xs.filter(p)`
  abbrev pub filter : (A → Bool) → List A → List A
  filter p [] = []
  filter p (x ∷ xs) = let rest = filter p xs in if p x then x ∷ rest else rest

  -- `xs.find(p)`
  abbrev pub find : (A → Bool) → List A → Option A
  find p [] = none
  find p (x ∷ xs) = if p x then some x else find p xs

  -- `xs.some(p)`
  abbrev pub any : (A → Bool) → List A → Bool
  any p [] = false
  any p (x ∷ xs) = p x || any p xs

  abbrev pub last? : List A → Option A
  last? [] = none
  last? (x ∷ []) = some x
  last? (x ∷ y ∷ xs) = last? (y ∷ xs)

  pub length-append : (xs ys : List A) → length (xs ++ ys) ≡ length xs + length ys
  length-append [] ys = omega arith
  length-append (x ∷ xs) ys = omega (arith, length-append xs ys)

  pub length-take-le : (n : ℕ) (xs : List A) → length (take n xs) ≤ n
  length-take-le zero xs = omega arith
  length-take-le (suc n) [] = omega arith
  length-take-le (suc n) (x ∷ xs) = omega (arith, length-take-le n xs)

  pub length-drop : (n : ℕ) (xs : List A) → length (drop n xs) ≡ length xs - n
  length-drop zero xs = omega arith
  length-drop (suc n) [] = omega arith
  length-drop (suc n) (x ∷ xs) = omega (arith, length-drop n xs)

  pub length-filter-le : (p : A → Bool) (xs : List A) → length (filter p xs) ≤ length xs
  length-filter-le p [] = omega arith
  length-filter-le p (x ∷ xs) = ground (arith, length-filter-le p xs)

  abbrev pub All {κ} : (A → Type κ) → List A → Type κ
  All P [] = Unit
  All P (x ∷ xs) = P x × All P xs

module _ {A : Type 0} where
  -- Membership, by recursion, so that tactics take it apart.
  abbrev pub Has : A → List A → Type 0
  Has a [] = ⊥
  Has a (x ∷ xs) = (x ≡ a) ⊎ Has a xs

module _ {A B : Type 0} where
  pub Has-map : (f : A → B) (a : A) (xs : List A) → Has a xs → Has (f a) (map f xs)
  Has-map f a [] h = absurd h
  Has-map f a (x ∷ xs) (inl e) = inl (ap f e)
  Has-map f a (x ∷ xs) (inr h) = inr (Has-map f a xs h)

  pub Has-map_inv :
      (f : A → B) (b : B) (xs : List A) → Has b (map f xs) → (a : A) × Has a xs × (f a ≡ b)
  Has-map_inv f b [] h = absurd h
  Has-map_inv f b (x ∷ xs) (inl e) = (x, inl refl, e)
  Has-map_inv f b (x ∷ xs) (inr h) = let (a, m, e) = Has-map_inv f b xs h in (a, inr m, e)

module _ {A : Type 0} where
  pub Has-filter :
      (p : A → Bool) (a : A) (xs : List A) → Has a (filter p xs) → Has a xs × (p a ≡ true)
  Has-filter p a [] h = absurd h
  Has-filter p a (x ∷ xs) h = elim (Bool-cases (p x)) [
    | inl t ↦ elim (rw t at h) [
      | inl e ↦ (inl e, rw (← e) t)
      | inr k ↦ (inr (Has-filter p a xs k).0, (Has-filter p a xs k).1)
    ]
    | inr f ↦ (inr (Has-filter p a xs (rw f at h)).0, (Has-filter p a xs (rw f at h)).1)
  ]

  pub filter-Has :
      (p : A → Bool) (a : A) (xs : List A) → Has a xs → p a ≡ true → Has a (filter p xs)
  filter-Has p a [] h t = absurd h
  filter-Has p a (x ∷ xs) (inl e) t = rw (e, t) (inl refl)
  filter-Has p a (x ∷ xs) (inr h) t = elim (Bool-cases (p x)) [
    | inl y ↦ rw y (inr (filter-Has p a xs h t))
    | inr n ↦ rw n (filter-Has p a xs h t)
  ]

  pub Has-append_left : (a : A) (xs ys : List A) → Has a xs → Has a (xs ++ ys)
  Has-append_left a [] ys h = absurd h
  Has-append_left a (x ∷ xs) ys (inl e) = inl e
  Has-append_left a (x ∷ xs) ys (inr h) = inr (Has-append_left a xs ys h)

  pub Has-append_right : (a : A) (xs ys : List A) → Has a ys → Has a (xs ++ ys)
  Has-append_right a [] ys h = h
  Has-append_right a (x ∷ xs) ys h = inr (Has-append_right a xs ys h)

  pub filter-append :
      (p : A → Bool) (xs ys : List A) → filter p (xs ++ ys) ≡ filter p xs ++ filter p ys
  filter-append p [] ys = refl
  filter-append p (x ∷ xs) ys = elim (Bool-cases (p x)) [
    | inl t ↦ rw t (ap (◌∷◌ x) (filter-append p xs ys))
    | inr f ↦ rw f (filter-append p xs ys)
  ]

  pub filter-none : (p : A → Bool) (xs : List A) → All (λ x. p x ≡ false) xs → filter p xs ≡ []
  filter-none p [] h = refl
  filter-none p (x ∷ xs) h = rw (h.0) (filter-none p xs h.1)

  pub any-false : (p : A → Bool) (xs : List A) → any p xs ≡ false → All (λ x. p x ≡ false) xs
  any-false p [] h = tt
  any-false p (x ∷ xs) h = (ground arith, any-false p xs (ground arith))

  pub any-Has : (p : A → Bool) (a : A) (xs : List A) → Has a xs → p a ≡ true → any p xs ≡ true
  any-Has p a [] h t = absurd h
  any-Has p a (x ∷ xs) (inl e) t = rw (e, t)
  any-Has p a (x ∷ xs) (inr h) t = rw (any-Has p a xs h t) (or_true (p x))
    where
      or_true : (b : Bool) → (b || true) ≡ true
      or_true b = ground arith

  pub any-true : (p : A → Bool) (xs : List A) → any p xs ≡ true → (a : A) × Has a xs × (p a ≡ true)
  any-true p [] h = cc
  any-true p (x ∷ xs) h = elim (Bool-cases (p x)) [
    | inl t ↦ (x, inl refl, t)
    | inr f ↦ let (a, m, t) = any-true p xs (rw f at h) in (a, inr m, t)
  ]

  pub All-Has {κ} : (P : A → Type κ) (a : A) (xs : List A) → All P xs → Has a xs → P a
  All-Has P a [] h m = absurd m
  All-Has P a (x ∷ xs) h (inl e) = subst P e h.0
  All-Has P a (x ∷ xs) h (inr m) = All-Has P a xs h.1 m

module _ {ℓ κ} {A : Type ℓ} (P : A → Type κ) where
  pub All-append : (xs ys : List A) → All P xs → All P ys → All P (xs ++ ys)
  All-append [] ys hx hy = hy
  All-append (x ∷ xs) ys hx hy = (hx.0, All-append xs ys hx.1 hy)

  pub All-intro : (xs : List A) → ((x : A) → P x) → All P xs
  All-intro [] h = tt
  All-intro (x ∷ xs) h = (h x, All-intro xs h)
