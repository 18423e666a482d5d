-- ===== src/Queue/Exclusion.antt =====
-- One run per destination: no statement lets two running or cancelling runs hold one target lock key,
-- nor two rows one id.
use nodejs_movy_data.Prelude.{
  ℕ, ◌≡◌, refl, ◌⊎◌, inl, inr, Bool, true, false, not, ◌&&◌, ◌||◌, String, Option, none, some, List,
  [], ◌∷◌, map, arith, eq_iff, All, All-Has, Has, any-false, ◌==◌,
}
use nodejs_movy_data.Queue.Tables.{is_busy, RunRow, same_key, clash, IsConsistent}
use nodejs_movy_data.Queue.Statements.{is_taken, swap_in}

-- A change of rows that keeps ids and keys, and makes no row busy.
abbrev pub IsTame : (RunRow → RunRow) → Type 0
IsTame g =
    (r : RunRow)
    → ((g r).id ≡ r.id)
      × ((g r).target_lock_key ≡ r.target_lock_key)
      × ((is_busy (g r).status ≡ true) → is_busy r.status ≡ true)

clash_mono :
    (i k p q p' q' : Bool)
    → (p' ≡ true → p ≡ true)
    → (q' ≡ true → q ≡ true)
    → (i || (p && (q && k))) ≡ false
    → (i || (p' && (q' && k))) ≡ false
clash_mono i k p q p' q' e f h = ground arith

clash-tame :
    (r s r' s' : RunRow)
    → r'.id ≡ r.id
    → s'.id ≡ s.id
    → r'.target_lock_key ≡ r.target_lock_key
    → s'.target_lock_key ≡ s.target_lock_key
    → (is_busy r'.status ≡ true → is_busy r.status ≡ true)
    → (is_busy s'.status ≡ true → is_busy s.status ≡ true)
    → clash r s ≡ false
    → clash r' s' ≡ false
clash-tame r s r' s' a b c d e f h =
    rw (a, b, c, d)
      (clash_mono (r.id == s.id) (same_key r.target_lock_key s.target_lock_key) (is_busy r.status)
        (is_busy s.status) (is_busy r'.status) (is_busy s'.status) e f h)

pub map-IsConsistent :
    (g : RunRow → RunRow)
    → IsTame g
    → (rs : List RunRow) → IsConsistent rs
    → IsConsistent (map g rs)
map-IsConsistent g t [] h = tt
map-IsConsistent g t (r ∷ rs) (h, hs) = (go rs h, map-IsConsistent g t rs hs)
  where
    go :
        (ss : List RunRow)
        → All (λ s. clash r s ≡ false) ss
        → All (λ s. clash (g r) s ≡ false) (map g ss)
    go [] k = tt
    go (s ∷ ss) (k, ks) =
        (clash-tame r s (g r) (g s) (t r).0 (t s).0 (t r).1 (t s).1 (t r).2 (t s).2 k, go ss ks)

pub clash-same : (r s : RunRow) → r.id ≡ s.id → ¬ (clash r s ≡ false)
clash-same r s e k = ground arith

pub same_key_comm : (j k : Option String) → same_key j k ≡ same_key k j
same_key_comm none none = refl
same_key_comm none (some k) = refl
same_key_comm (some j) none = refl
same_key_comm (some j) (some k) = ground (arith, eq_iff j k, eq_iff k j)

pub eq_refl : (n : ℕ) → (n == n) ≡ true
eq_refl n = ground arith

pub eq_comm : (m n : ℕ) → (m == n) ≡ (n == m)
eq_comm m n = ground arith

and_false : (p : Bool) → (p && false) ≡ false
and_false p = ground arith

clash_of_apart : (p k q : Bool) → (p && k) ≡ false → (p && (q && k)) ≡ false
clash_of_apart p k q h = ground arith

-- Every row is the claimed one, or another with another id that does not hold its key.
abbrev pub IsApart : RunRow → RunRow → Type 0
IsApart q s =
    (s ≡ q)
    ⊎ (((s.id == q.id) ≡ false)
        × ((is_busy s.status && same_key q.target_lock_key s.target_lock_key) ≡ false))

-- A claim makes one row busy, whose key no other busy row holds.
module _ (q q' : RunRow) (same_id : q'.id ≡ q.id)
    (same_lock : q'.target_lock_key ≡ q.target_lock_key) where
  swap_in-apart :
      (r s : RunRow)
      → IsApart q r
      → IsApart q s
      → clash r s ≡ false
      → clash (swap_in q q' r) (swap_in q q' s) ≡ false
  swap_in-apart r s (inl a) (inl b) k = absurd (clash-same r s (rw (a, b)) k)
  swap_in-apart r s (inl a) (inr (b, c)) k =
      rw (a, eq_refl q.id, b, same_id, same_lock, eq_comm q.id s.id, b, c)
        (and_false (is_busy q'.status))
  swap_in-apart r s (inr (a, c)) (inl b) k =
      rw
        (
          b,
          eq_refl q.id,
          a,
          same_id,
          same_lock,
          a,
          same_key_comm r.target_lock_key q.target_lock_key,
        )
        (clash_of_apart (is_busy r.status) _ (is_busy q'.status) c)
  swap_in-apart r s (inr (a, _)) (inr (b, _)) k = rw (a, b) k

  pub swap_in-IsConsistent :
      (rs : List RunRow)
      → All (IsApart q) rs
      → IsConsistent rs
      → IsConsistent (map (swap_in q q') rs)
  swap_in-IsConsistent [] a h = tt
  swap_in-IsConsistent (r ∷ rs) (a, ps) (h, hs) = (go rs ps h, swap_in-IsConsistent rs ps hs)
    where
      go :
          (ss : List RunRow)
          → All (IsApart q) ss
          → All (λ s. clash r s ≡ false) ss
          → All (λ s. clash (swap_in q q' r) s ≡ false) (map (swap_in q q') ss)
      go [] b k = tt
      go (s ∷ ss) (b, bs) (k, ks) = (swap_in-apart r s a b k, go ss bs ks)

pub clash_ids : (r s : RunRow) → clash r s ≡ false → (r.id == s.id) ≡ false
clash_ids r s h = ground arith

-- A row of a consistent table shares its id with no other row.
pub ids_apart :
    (q : RunRow) (rs : List RunRow)
    → IsConsistent rs
    → Has q rs
    → All (λ s. (s ≡ q) ⊎ ((s.id == q.id) ≡ false)) rs
ids_apart q [] h m = tt
ids_apart q (r ∷ rs) (h, hs) (inl e) = (inl e, go rs h)
  where
    go :
        (ss : List RunRow)
        → All (λ s. clash r s ≡ false) ss
        → All (λ s. (s ≡ q) ⊎ ((s.id == q.id) ≡ false)) ss
    go [] k = tt
    go (s ∷ ss) (k, ks) = (inr (rw (← e, eq_comm s.id r.id) (clash_ids r s k)), go ss ks)
ids_apart q (r ∷ rs) (h, hs) (inr m) =
    (inr (clash_ids r q (All-Has (λ s. clash r s ≡ false) q rs h m)), ids_apart q rs hs m)

pub IsApart-of_free :
    (q : RunRow) (rs : List RunRow)
    → IsConsistent rs
    → Has q rs
    → is_taken q rs ≡ false
    → All (IsApart q) rs
unfolding is_taken
IsApart-of_free q rs c m free = go rs (ids_apart q rs c m) (any-false _ rs free)
  where
    go :
        (ss : List RunRow)
        → All (λ s. (s ≡ q) ⊎ ((s.id == q.id) ≡ false)) ss
        → All
            (λ b.
              (not (b.id == q.id)
                && (is_busy b.status && same_key q.target_lock_key b.target_lock_key))
              ≡ false)
            ss
        → All (IsApart q) ss
    go [] a b = tt
    go (s ∷ ss) (inl e, a) (b, bs) = (inl e, go ss a bs)
    go (s ∷ ss) (inr n, a) (b, bs) = (inr (n, rw n at b), go ss a bs)
