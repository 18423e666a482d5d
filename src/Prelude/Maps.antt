-- ===== src/Prelude/Maps.antt =====
-- JavaScript's `Map` with string keys: entries in insertion order, a write to a key that is there
-- keeps its place.
use Prim.Native.String.{String}
use mathlib.Core.Path.{◌≡◌, refl, ap}
use mathlib.Core.Logic.{inl, inr}
use mathlib.Core.Bool.{false}
use mathlib.Core.Option.{Option, none, some, some-injective}
use mathlib.Core.List.{List, [], ◌∷◌, map}
use native.Mathlib.Omega.{arith}
use text.Mathlib.TextEquality.{eq_iff}
use nodejs_movy_data.Prelude.Tests.{str_eq, if◌then◌else◌, Bool-cases}
use nodejs_movy_data.Prelude.Lists.{All, All-Has, Has}

abbrev pub Dict {ℓ} : Type ℓ → Type ℓ
Dict V = List (String × V)

module _ {ℓ} {V : Type ℓ} where
  -- `m.get(k)`
  unfoldable pub lookup : String → Dict V → Option V
  lookup key [] = none
  lookup key (e ∷ rest) = if str_eq e.0 key then some e.1 else lookup key rest

  -- `m.set(k, v)`
  unfoldable pub insert : String → V → Dict V → Dict V
  insert key v [] = (key, v) ∷ []
  insert key v (e ∷ rest) = if str_eq e.0 key then (e.0, v) ∷ rest else e ∷ insert key v rest

  -- `m.delete(k)`
  unfoldable pub delete : String → Dict V → Dict V
  delete k [] = []
  delete k ((j, v) ∷ m) = let rest = delete k m in if str_eq j k then rest else (j, v) ∷ rest

  abbrev pub keys : Dict V → List String
  keys = map (λ e. e.0)

  abbrev pub values : Dict V → List V
  values = map (λ e. e.1)

  pub lookup-insert :
      (key at : String) (v : V) (m : Dict V)
      → lookup at (insert key v m) ≡ (if str_eq key at then some v else lookup at m)
  unfolding lookup insert
  lookup-insert key at v [] = refl
  lookup-insert key at v (e ∷ rest) =
      let below = lookup-insert key at v rest in
      ground (arith, eq_iff e.0 key, eq_iff e.0 at, eq_iff key at, below)

  pub lookup-delete :
      (k j : String) (m : Dict V)
      → lookup j (delete k m) ≡ (if str_eq k j then none else lookup j m)
  unfolding lookup delete
  lookup-delete k j [] = ground arith
  lookup-delete k j ((i, v) ∷ m) =
      ground (arith, lookup-delete k j m, eq_iff i k, eq_iff i j, eq_iff k j)

-- No key twice.
module _ {V : Type 0} where
  abbrev pub IsMap : Dict V → Type 0
  IsMap [] = Unit
  IsMap ((k, v) ∷ m) = All (λ e. str_eq k e.0 ≡ false) m × IsMap m

  All-insert :
      (P : String → Type 0) (k : String) (v : V) (m : Dict V)
      → P k
      → All (λ e. P e.0) m
      → All (λ e. P e.0) (insert k v m)
  unfolding insert
  All-insert P k v [] p h = (p, tt)
  All-insert P k v ((j, w) ∷ m) p (q, h) = elim (Bool-cases (str_eq j k)) [
    | inl t ↦ rw t (q, h)
    | inr f ↦ rw f (q, All-insert P k v m p h)
  ]

  pub insert-IsMap : (k : String) (v : V) (m : Dict V) → IsMap m → IsMap (insert k v m)
  unfolding insert
  insert-IsMap k v [] h = (tt, tt)
  insert-IsMap k v ((j, w) ∷ m) (a, h) = elim (Bool-cases (str_eq j k)) [
    | inl t ↦ rw t (a, h)
    | inr f ↦ rw f (All-insert (λ i. str_eq j i ≡ false) k v m f a, insert-IsMap k v m h)
  ]

  pub lookup_of_Has :
      (k : String) (v : V) (m : Dict V) → IsMap m → Has (k, v) m → lookup k m ≡ some v
  unfolding lookup
  lookup_of_Has k v [] h q = absurd q
  lookup_of_Has k v ((j, w) ∷ m) (a, h) (inl e) =
      rw ((eq_iff j k).1 (ap (λ x. x.0) e)) (ap (λ x. some x.1) e)
  lookup_of_Has k v ((j, w) ∷ m) (a, h) (inr q) =
      rw (All-Has (λ e. str_eq j e.0 ≡ false) (k, v) m a q) (lookup_of_Has k v m h q)

  pub Has-of_lookup : (k : String) (v : V) (m : Dict V) → lookup k m ≡ some v → Has (k, v) m
  unfolding lookup
  Has-of_lookup k v [] h = cc
  Has-of_lookup k v ((j, w) ∷ m) h = elim (Bool-cases (str_eq j k)) [
    | inl t ↦ inl (pair j w ((eq_iff j k).0 t) (some-injective w v (rw t at h)))
    | inr f ↦ inr (Has-of_lookup k v m (rw f at h))
  ]
    where
      pair : (i : String) (u : V) → i ≡ k → u ≡ v → ◌≡◌ {A = String × V} (i, u) (k, v)
      pair i u p q = λ n. (p n, q n)

pub ruleset dict_laws = (lookup-insert, lookup-delete)
