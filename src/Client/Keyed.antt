-- ===== src/Client/Keyed.antt =====
-- The round that a list of views makes through a `Map` and a sort: `new Map(xs.map((x) => [key(x), x]))`
-- and `[...map.values()].sort(…)`.
use mathlib.Core.Option.{some-injective}
use nodejs_movy_data.Prelude.{
  ◌≡◌, refl, sym, ap, ◌∙◌, subst, inl, inr, ◌↔◌, ◌⊎◌, Bool, false, String, some, List, [], ◌∷◌,
  arith, eq_iff, All, All-Has, Has, Has-map, Has-map_inv, Dict, lookup, insert, lookup-insert,
  values, IsMap, insert-IsMap, lookup_of_Has, Has-of_lookup, str_eq, Bool-cases,
}
use nodejs_movy_data.Client.Fold.{load, insert_by, sort_from, sort}

module _ {A : Type 0} (lt : A → A → Bool) where
  Has-insert_by : (a x : A) (ys : List A) → Has a (insert_by lt x ys) → (x ≡ a) ⊎ Has a ys
  unfolding insert_by
  Has-insert_by a x [] (inl e) = inl e
  Has-insert_by a x [] (inr h) = absurd h
  Has-insert_by a x (y ∷ ys) h = elim (Bool-cases (lt x y)) [
    | inl t ↦ rw t at h
    | inr f ↦ elim (rw f at h) [
      | inl e ↦ inr (inl e)
      | inr k ↦ elim (Has-insert_by a x ys k) [ inl e ↦ inl e | inr m ↦ inr (inr m) ]
    ]
  ]

  insert_by-Has : (a x : A) (ys : List A) → (x ≡ a) ⊎ Has a ys → Has a (insert_by lt x ys)
  unfolding insert_by
  insert_by-Has a x [] (inl e) = inl e
  insert_by-Has a x [] (inr h) = absurd h
  insert_by-Has a x (y ∷ ys) h = elim (Bool-cases (lt x y)) [
    | inl t ↦ rw t h
    | inr f ↦ rw f (elim h [
      | inl e ↦ inr (insert_by-Has a x ys (inl e))
      | inr (inl e) ↦ inl e
      | inr (inr m) ↦ inr (insert_by-Has a x ys (inr m))
    ])
  ]

  Has-sort_from : (a : A) (acc xs : List A) → Has a (sort_from lt acc xs) → Has a acc ⊎ Has a xs
  unfolding sort_from
  Has-sort_from a acc [] h = inl h
  Has-sort_from a acc (x ∷ xs) h = elim (Has-sort_from a (insert_by lt x acc) xs h) [
    | inr m ↦ inr (inr m)
    | inl m ↦ elim (Has-insert_by a x acc m) [ inl e ↦ inr (inl e) | inr k ↦ inl k ]
  ]

  sort_from-Has : (a : A) (acc xs : List A) → Has a acc ⊎ Has a xs → Has a (sort_from lt acc xs)
  unfolding sort_from
  sort_from-Has a acc [] (inl h) = h
  sort_from-Has a acc [] (inr h) = absurd h
  sort_from-Has a acc (x ∷ xs) h = sort_from-Has a (insert_by lt x acc) xs (elim h [
    | inl m ↦ inl (insert_by-Has a x acc (inr m))
    | inr (inl e) ↦ inl (insert_by-Has a x acc (inl e))
    | inr (inr m) ↦ inr m
  ])

  -- Sorting keeps the elements.
  pub Has-sort : (a : A) (xs : List A) → Has a (sort lt xs) ↔ Has a xs
  unfolding sort
  Has-sort a xs = (
    λ h. elim (Has-sort_from a [] xs h) [ inl m ↦ absurd m | inr m ↦ m ],
    λ h. sort_from-Has a [] xs (inr h),
  )

module _ {A : Type 0} (key : A → String) where
  -- No two elements of one key.
  abbrev pub IsDistinct : List A → Type 0
  IsDistinct [] = Unit
  IsDistinct (x ∷ xs) = All (λ y. str_eq (key x) (key y) ≡ false) xs × IsDistinct xs

  -- Every entry stands under its own key.
  abbrev pub IsKeyed : Dict A → Type 0
  IsKeyed m = All (λ e. key e.1 ≡ e.0) m

  pub insert-IsKeyed :
      (a : A) (m : Dict A) (k : String) → key a ≡ k → IsKeyed m → IsKeyed (insert k a m)
  unfolding insert
  insert-IsKeyed a [] k e h = (e, tt)
  insert-IsKeyed a ((j, w) ∷ m) k e (p, h) = elim (Bool-cases (str_eq j k)) [
    | inl t ↦ rw t (e ∙ sym ((eq_iff j k).0 t), h)
    | inr f ↦ rw f (p, insert-IsKeyed a m k e h)
  ]

  load-IsMap : (m : Dict A) (xs : List A) → IsMap m → IsMap (load key m xs)
  unfolding load
  load-IsMap m [] h = h
  load-IsMap m (x ∷ xs) h = load-IsMap (insert (key x) x m) xs (insert-IsMap (key x) x m h)

  load-IsKeyed : (m : Dict A) (xs : List A) → IsKeyed m → IsKeyed (load key m xs)
  unfolding load
  load-IsKeyed m [] h = h
  load-IsKeyed m (x ∷ xs) h =
      load-IsKeyed (insert (key x) x m) xs (insert-IsKeyed x m (key x) refl h)

  lookup-load_miss :
      (k : String) (m : Dict A) (xs : List A)
      → All (λ y. str_eq k (key y) ≡ false) xs
      → lookup k (load key m xs) ≡ lookup k m
  unfolding load
  lookup-load_miss k m [] h = refl
  lookup-load_miss k m (x ∷ xs) (p, h) =
      lookup-load_miss k (insert (key x) x m) xs h
      ∙ lookup-insert (key x) k x m
      ∙ ground (arith, eq_iff (key x) k, eq_iff k (key x))

  lookup-load_hit :
      (a : A) (m : Dict A) (xs : List A)
      → IsDistinct xs
      → Has a xs
      → lookup (key a) (load key m xs) ≡ some a
  unfolding load
  lookup-load_hit a m [] d h = absurd h
  lookup-load_hit a m (x ∷ xs) (p, d) (inl e) =
      subst (λ b. lookup (key b) (load key (insert (key x) x m) xs) ≡ some b) e
        (lookup-load_miss (key x) (insert (key x) x m) xs p
          ∙ lookup-insert (key x) (key x) x m
          ∙ ground (arith, eq_iff (key x) (key x)))
  lookup-load_hit a m (x ∷ xs) (p, d) (inr h) = lookup-load_hit a (insert (key x) x m) xs d h

  Has-load :
      (k : String) (a : A) (m : Dict A) (xs : List A)
      → lookup k (load key m xs) ≡ some a
      → Has a xs ⊎ (lookup k m ≡ some a)
  unfolding load
  Has-load k a m [] h = inr h
  Has-load k a m (x ∷ xs) h = elim (Has-load k a (insert (key x) x m) xs h) [
    | inl q ↦ inl (inr q)
    | inr q ↦ elim (Bool-cases (str_eq (key x) k)) [
      | inl t ↦ inl (inl (some-injective x a (sym (lookup-insert (key x) k x m ∙ rw t refl) ∙ q)))
      | inr f ↦ inr (sym (lookup-insert (key x) k x m ∙ rw f refl) ∙ q)
    ]
  ]

  pub load_all : (xs : List A) → IsMap (load key [] xs) × IsKeyed (load key [] xs)
  load_all xs = (load-IsMap [] xs tt, load-IsKeyed [] xs tt)

  -- A distinct list and the map that is made of it hold the same.
  pub Has-iff-load :
      (a : A) (xs : List A) → IsDistinct xs → Has a xs ↔ (lookup (key a) (load key [] xs) ≡ some a)
  unfolding lookup
  Has-iff-load a xs d =
      (lookup-load_hit a [] xs d, λ h. elim (Has-load (key a) a [] xs h) [ inl q ↦ q | inr q ↦ cc ])

  -- So do a map and its sorted values.
  pub Has-iff-values :
      (lt : A → A → Bool) (a : A) (m : Dict A)
      → IsMap m
      → IsKeyed m
      → Has a (sort lt (values m)) ↔ (lookup (key a) m ≡ some a)
  Has-iff-values lt a m u k = (forth, back)
    where
      forth : Has a (sort lt (values m)) → lookup (key a) m ≡ some a
      forth h =
          let (e, q, p) =
            Has-map_inv (λ (x : String × A). x.1) a m ((Has-sort lt a (values m)).0 h) in
          let under : key e.1 ≡ e.0 = All-Has (λ x. key x.1 ≡ x.0) e m k q in
          subst (λ b. lookup (key b) m ≡ some b) p
            (ap (λ i. lookup i m) under ∙ lookup_of_Has e.0 e.1 m u q)

      back : lookup (key a) m ≡ some a → Has a (sort lt (values m))
      back h =
          (Has-sort lt a (values m)).1
            (Has-map (λ (x : String × A). x.1) (key a, a) m (Has-of_lookup (key a) a m h))

  str_eq_flip : (s t : String) → str_eq s t ≡ false → str_eq t s ≡ false
  str_eq_flip s t h = ground (arith, eq_iff s t, eq_iff t s)

  All-apart :
      (k : String) (xs : List A)
      → ((a : A) → Has a xs → str_eq k (key a) ≡ false)
      → All (λ y. str_eq k (key y) ≡ false) xs
  All-apart k [] h = tt
  All-apart k (x ∷ xs) h = (h x (inl refl), All-apart k xs (λ a m. h a (inr m)))

  insert_by-IsDistinct :
      (lt : A → A → Bool) (x : A) (ys : List A)
      → ((a : A) → Has a ys → str_eq (key x) (key a) ≡ false)
      → IsDistinct ys
      → IsDistinct (insert_by lt x ys)
  unfolding insert_by
  insert_by-IsDistinct lt x [] h d = (tt, tt)
  insert_by-IsDistinct lt x (y ∷ ys) h (p, d) = elim (Bool-cases (lt x y)) [
    | inl t ↦ rw t (All-apart (key x) (y ∷ ys) h, (p, d))
    | inr f ↦ rw f (
      All-apart (key y) (insert_by lt x ys) (λ a m. elim (Has-insert_by lt a x ys m) [
        | inl e ↦
            subst (λ b. str_eq (key y) (key b) ≡ false) e
              (str_eq_flip (key x) (key y) (h y (inl refl)))
        | inr k ↦ All-Has (λ b. str_eq (key y) (key b) ≡ false) a ys p k
      ]),
      insert_by-IsDistinct lt x ys (λ a m. h a (inr m)) d,
    )
  ]

  sort_from-IsDistinct :
      (lt : A → A → Bool) (acc xs : List A)
      → ((x a : A) → Has x xs → Has a acc → str_eq (key x) (key a) ≡ false)
      → IsDistinct acc
      → IsDistinct xs
      → IsDistinct (sort_from lt acc xs)
  unfolding sort_from
  sort_from-IsDistinct lt acc [] h d e = d
  sort_from-IsDistinct lt acc (x ∷ xs) h d (p, e) =
      sort_from-IsDistinct lt (insert_by lt x acc) xs
        (λ y a my ma. elim (Has-insert_by lt a x acc ma) [
          | inl same ↦
              subst (λ b. str_eq (key y) (key b) ≡ false) same
                (str_eq_flip (key x) (key y)
                  (All-Has (λ b. str_eq (key x) (key b) ≡ false) y xs p my))
          | inr k ↦ h y a (inr my) k
        ])
        (insert_by-IsDistinct lt x acc (λ a m. h x a (inl refl) m) d) e

  pub values-IsDistinct : (m : Dict A) → IsMap m → IsKeyed m → IsDistinct (values m)
  values-IsDistinct [] u k = tt
  values-IsDistinct ((i, v) ∷ m) (p, u) (q, k) = (rw q (go m p k), values-IsDistinct m u k)
    where
      go :
          (n : Dict A)
          → All (λ e. str_eq i e.0 ≡ false) n
          → All (λ e. key e.1 ≡ e.0) n
          → All (λ y. str_eq i (key y) ≡ false) (values n)
      go [] a b = tt
      go (e ∷ n) (a, r) (b, s) = (rw b a, go n r s)

  -- The sorted values of a map are distinct.
  pub sort-values-IsDistinct :
      (lt : A → A → Bool) (m : Dict A) → IsMap m → IsKeyed m → IsDistinct (sort lt (values m))
  unfolding sort
  sort-values-IsDistinct lt m u k =
      sort_from-IsDistinct lt [] (values m) (λ x a mx ma. absurd ma) tt (values-IsDistinct m u k)
