-- ===== src/Shared/Tests.antt =====
-- The helpers on small inputs.
use nodejs_movy_data.Prelude.{
  ℕ, ◌+◌, ◌<◌, ◌≤◌, ◌≡◌, refl, String, List, [], ◌∷◌, All, length, arith, ltb, if◌then◌else◌,
}
use nodejs_movy_data.Shared.Utils.{chunk_array, Outcome, returned, thrown, retry_with_backoff}
use nodejs_movy_data.Shared.Laws.{joined, chunk_array-joined, retry_with_backoff-first}

abbrev three : List ℕ
three = 1 ∷ 2 ∷ 3 ∷ []

chunk_array-joined_example :
    (joined (chunk_array 2 three) ≡ three)
    × All (λ c. (1 ≤ length c) × (length c ≤ 2)) (chunk_array 2 three)
chunk_array-joined_example = chunk_array-joined 2 three (omega arith)

-- Fails once, then succeeds.
abbrev second_try : ℕ → Outcome ℕ
second_try n = if ltb n 2 then thrown "connection reset" else returned n

fails_first : (i : ℕ) → i < 1 → (m : String) × (second_try (1 + i) ≡ thrown m)
fails_first i h = ("connection reset", ground arith)

retry_with_backoff-first_example :
    retry_with_backoff 3 1000 second_try ≡ record { outcome = returned 2; delays = 1000 ∷ [] }
retry_with_backoff-first_example =
    retry_with_backoff-first 1 3 1000 second_try 2 (omega arith) fails_first refl
