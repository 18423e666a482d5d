-- ===== src/Shared/Utils.antt =====
-- `chunkArray` and `retryWithBackoff`.
use nodejs_movy_data.Prelude.{
  ℕ, zero, suc, ◌-◌, ◌*◌, ◌^◌, String, List, [], ◌∷◌, take, drop, length, ltb, if◌then◌else◌,
}

-- The loop over `i`, on what is left from `i` on; with chunks of at least one element it ends within as
-- many rounds as there are elements.
unfoldable pub chunk_loop : {A : Type 0} → ℕ → ℕ → List A → List (List A)
chunk_loop zero size xs = []
chunk_loop (suc fuel) size [] = []
chunk_loop (suc fuel) size (x ∷ xs) = take size (x ∷ xs) ∷ chunk_loop fuel size (drop size (x ∷ xs))

unfoldable pub chunk_array : {A : Type 0} → ℕ → List A → List (List A)
chunk_array size xs = chunk_loop (length xs) size xs

-- What an awaited operation comes to.
pub data Outcome (A : Type 0) : Type 0 where
  returned : A → Outcome A
  thrown : String → Outcome A

-- A retried operation: how it ends, and the delays waited for.
pub record Retried (A : Type 0) : Type 0 where
  pub outcome : Outcome A
  pub delays : List ℕ

abbrev pub waited : {A : Type 0} → ℕ → Retried A → Retried A
waited d r = record r { delays = d ∷ r.delays }

-- The loop, with `left` attempts to make, of which the next is number `attempt`.
unfoldable pub retry_loop : {A : Type 0} → ℕ → ℕ → ℕ → ℕ → (ℕ → Outcome A) → String → Retried A
retry_loop zero attempt max_retries base_delay_ms operation last_error = record {
  outcome = thrown last_error;
  delays = [];
}
retry_loop (suc left) attempt max_retries base_delay_ms operation last_error =
    elim (operation attempt) [
      | returned a ↦ record { outcome = returned a; delays = [] }
      | thrown e ↦
          let rest = retry_loop left (suc attempt) max_retries base_delay_ms operation e in
          if ltb attempt max_retries then waited (base_delay_ms * 2 ^ (attempt - 1)) rest else rest
    ]

unfoldable pub retry_with_backoff : {A : Type 0} → ℕ → ℕ → (ℕ → Outcome A) → Retried A
retry_with_backoff max_retries base_delay_ms operation =
    retry_loop max_retries 1 max_retries base_delay_ms operation "Unknown error"
