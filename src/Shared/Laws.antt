-- ===== src/Shared/Laws.antt =====
-- Chunks put together again are the list, and a retried operation ends as its first success does.
use nodejs_movy_data.Prelude.{
  ℕ, zero, suc, ◌+◌, ◌-◌, ◌*◌, ◌^◌, ◌≤◌, ◌<◌, ◌≡◌, refl, ap, ◌∙◌, true, String, List, [], ◌∷◌, ◌++◌,
  arith, All, take, drop, length, length-drop, length-take-le, ltb,
}
use nodejs_movy_data.Shared.Utils.{
  chunk_loop, chunk_array, Outcome, returned, thrown, retry_loop, retry_with_backoff,
}

abbrev pub joined : {A : Type 0} → List (List A) → List A
joined [] = []
joined (c ∷ cs) = c ++ joined cs

-- The delays between `n` attempts, of which the first has the number `k`.
abbrev pub backoff : ℕ → ℕ → ℕ → List ℕ
backoff base k zero = []
backoff base k (suc n) = base * 2 ^ (k - 1) ∷ backoff base (suc k) n

module _ {A : Type 0} where
  take-drop : (n : ℕ) (xs : List A) → take n xs ++ drop n xs ≡ xs
  take-drop zero xs = refl
  take-drop (suc n) [] = refl
  take-drop (suc n) (x ∷ xs) = ap (◌∷◌ x) (take-drop n xs)

  chunk_loop-joined :
      (fuel size : ℕ) (xs : List A)
      → 1 ≤ size
      → length xs ≤ fuel
      → joined (chunk_loop fuel size xs) ≡ xs
  unfolding chunk_loop
  chunk_loop-joined zero size [] h f = refl
  chunk_loop-joined zero size (x ∷ xs) h f = absurd (omega arith)
  chunk_loop-joined (suc fuel) size [] h f = refl
  chunk_loop-joined (suc fuel) size (x ∷ xs) h f =
      ap (◌++◌ (take size (x ∷ xs))) (
        chunk_loop-joined fuel size (drop size (x ∷ xs)) h
          (omega (arith, length-drop size (x ∷ xs))))
      ∙ take-drop size (x ∷ xs)

  some_taken : (size : ℕ) (x : A) (xs : List A) → 1 ≤ size → 1 ≤ length (take size (x ∷ xs))
  some_taken zero x xs h = absurd (omega arith)
  some_taken (suc n) x xs h = omega arith

  chunk_loop-sizes :
      (fuel size : ℕ) (xs : List A)
      → 1 ≤ size
      → All (λ c. (1 ≤ length c) × (length c ≤ size)) (chunk_loop fuel size xs)
  unfolding chunk_loop
  chunk_loop-sizes zero size xs h = tt
  chunk_loop-sizes (suc fuel) size [] h = tt
  chunk_loop-sizes (suc fuel) size (x ∷ xs) h = (
    (some_taken size x xs h, length-take-le size (x ∷ xs)),
    chunk_loop-sizes fuel size (drop size (x ∷ xs)) h,
  )

  -- With chunks of at least one element, the chunks put together again are the list, and none is empty or
  -- longer than asked.
  pub chunk_array-joined :
      (size : ℕ) (xs : List A)
      → 1 ≤ size
      → (joined (chunk_array size xs) ≡ xs)
        × All (λ c. (1 ≤ length c) × (length c ≤ size)) (chunk_array size xs)
  unfolding chunk_array
  chunk_array-joined size xs h = (
    chunk_loop-joined (length xs) size xs h (omega arith),
    chunk_loop-sizes (length xs) size xs h,
  )

  retry_loop-first :
      (fails left k max_retries base : ℕ) (operation : ℕ → Outcome A) (e : String) (a : A)
      → fails < left
      → k + left ≡ suc max_retries
      → ((i : ℕ) → i < fails → (m : String) × (operation (k + i) ≡ thrown m))
      → operation (k + fails) ≡ returned a
      → retry_loop left k max_retries base operation e
        ≡ record { outcome = returned a; delays = backoff base k fails }
  unfolding retry_loop
  retry_loop-first zero zero k mx base op e a lt total bad good = absurd (omega arith)
  retry_loop-first zero (suc left) k mx base op e a lt total bad good =
      rw (ap op (plain k) ∙ good, retry_loop) refl
    where
      plain : (n : ℕ) → n ≡ n + 0
      plain n = omega arith
  retry_loop-first (suc f) zero k mx base op e a lt total bad good = absurd (omega arith)
  retry_loop-first (suc f) (suc left) k mx base op e a lt total bad good =
      let (m, now) = bad 0 (omega arith) in
      let failed : op k ≡ thrown m = ap op (plain k) ∙ now in
      let rest =
        retry_loop-first f left (suc k) mx base op m a (omega arith) (omega arith)
          (λ i h. let (m', q) = bad (suc i) (omega arith) in (m', ap op (shift k i) ∙ q))
          (ap op (shift k f) ∙ good) in
      rw (failed, retry_loop, more k mx (omega arith), rest) refl
    where
      plain : (n : ℕ) → n ≡ n + 0
      plain n = omega arith

      shift : (n i : ℕ) → suc n + i ≡ n + suc i
      shift n i = omega arith

      more : (x y : ℕ) → x < y → ltb x y ≡ true
      more x y h = ground arith

  -- If some attempt within the limit is the first to succeed, its value is returned, and the waits before
  -- it double from the base delay on, one for each failure.
  pub retry_with_backoff-first :
      (fails max_retries base : ℕ) (operation : ℕ → Outcome A) (a : A)
      → fails < max_retries
      → ((i : ℕ) → i < fails → (m : String) × (operation (1 + i) ≡ thrown m))
      → operation (1 + fails) ≡ returned a
      → retry_with_backoff max_retries base operation
        ≡ record { outcome = returned a; delays = backoff base 1 fails }
  unfolding retry_with_backoff
  retry_with_backoff-first fails mx base op a lt bad good =
      retry_loop-first fails mx 1 mx base op "Unknown error" a lt (omega arith) bad good
