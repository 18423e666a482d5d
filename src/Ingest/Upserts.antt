-- ===== src/Ingest/Upserts.antt =====
-- A loop of `INSERT … ON CONFLICT DO UPDATE`, each on its own key: where one upsert done twice is one,
-- so is the whole loop.
use mathlib.Core.Option.{some-injective}
use nodejs_movy_data.Prelude.{
  ◌≡◌, refl, sym, ap, ◌∙◌, inl, inr, false, String, Option, some, List, [], ◌∷◌, arith, eq_iff, All,
  Dict, lookup, insert, lookup-insert, str_eq, if◌then◌else◌, Bool-cases,
}
use nodejs_movy_data.Client.Keyed.{IsDistinct}

insert-known :
    {R : Type 0} (k : String) (r : R) (m : Dict R) → lookup k m ≡ some r → insert k r m ≡ m
unfolding insert lookup
insert-known k r [] h = cc
insert-known k r ((j, w) ∷ m) h = elim (Bool-cases (str_eq j k)) [
  | inl t ↦ rw t (ap (λ v. (j, v) ∷ m) (sym (some-injective w r (rw t at h))))
  | inr f ↦ rw f (ap (◌∷◌ (j, w)) (insert-known k r m (rw f at h)))
]

module _ {A R : Type 0} (key : A → String) (put : A → Option R → R) where
  abbrev pub upsert : A → Dict R → Dict R
  upsert a m = insert (key a) (put a (lookup (key a) m)) m

  abbrev pub upsert_all : List A → Dict R → Dict R
  upsert_all [] m = m
  upsert_all (a ∷ as') m = upsert_all as' (upsert a m)

  -- The row under the key of `a` is one that `a` leaves as it is.
  abbrev IsSettled : Dict R → A → Type 0
  IsSettled m a = (r : R) × (lookup (key a) m ≡ some r) × (put a (some r) ≡ r)

  upsert-IsSettled_self :
      (a : A) (m : Dict R)
      → ((x : Option R) → put a (some (put a x)) ≡ put a x)
      → IsSettled (upsert a m) a
  upsert-IsSettled_self a m again = (
    put a (lookup (key a) m),
    lookup-insert (key a) (key a) (put a (lookup (key a) m)) m
        ∙ rw ((eq_iff (key a) (key a)).1 refl) refl,
    again (lookup (key a) m),
  )

  upsert_all-IsSettled :
      (a : A) (bs : List A) (m : Dict R)
      → All (λ b. str_eq (key a) (key b) ≡ false) bs
      → IsSettled m a
      → IsSettled (upsert_all bs m) a
  upsert_all-IsSettled a [] m p h = h
  upsert_all-IsSettled a (b ∷ bs) m (p, q) (r, at, keep) =
      upsert_all-IsSettled a bs (upsert b m) q (
        r,
        lookup-insert (key b) (key a) (put b (lookup (key b) m)) m
            ∙ ap (λ t. if t then some (put b (lookup (key b) m)) else lookup (key a) m) apart
            ∙ at,
        keep,
      )
    where
      apart : str_eq (key b) (key a) ≡ false
      apart = ground (arith, eq_iff (key a) (key b), eq_iff (key b) (key a), p)

  upsert_all-IsSettled_each :
      (bs : List A) (m : Dict R)
      → ((a : A) (x : Option R) → put a (some (put a x)) ≡ put a x)
      → IsDistinct key bs
      → All (IsSettled (upsert_all bs m)) bs
  upsert_all-IsSettled_each [] m again d = tt
  upsert_all-IsSettled_each (b ∷ bs) m again (p, d) = (
    upsert_all-IsSettled b bs (upsert b m) p (upsert-IsSettled_self b m (again b)),
    upsert_all-IsSettled_each bs (upsert b m) again d,
  )

  settled_stays : (bs : List A) (m : Dict R) → All (IsSettled m) bs → upsert_all bs m ≡ m
  settled_stays [] m h = refl
  settled_stays (b ∷ bs) m ((r, at, keep), h) = ap (upsert_all bs) same ∙ settled_stays bs m h
    where
      same : upsert b m ≡ m
      same =
          ap (λ x. insert (key b) (put b x) m) at
          ∙ ap (λ x. insert (key b) x m) keep
          ∙ insert-known (key b) r m at

  pub upsert_all_twice :
      (bs : List A) (m : Dict R)
      → ((a : A) (x : Option R) → put a (some (put a x)) ≡ put a x)
      → IsDistinct key bs
      → upsert_all bs (upsert_all bs m) ≡ upsert_all bs m
  upsert_all_twice bs m again d =
      settled_stays bs (upsert_all bs m) (upsert_all-IsSettled_each bs m again d)
