-- ===== src/Client/Logs.antt =====
-- The log pane keeps the last 2,000 lines, however they were batched.
use nodejs_movy_data.Prelude.{
  ℕ, zero, suc, ◌+◌, ◌-◌, ◌≤◌, ◌≡◌, refl, sym, ap, ◌∙◌, inl, inr, true, List, [], ◌∷◌, ◌++◌, arith,
  if◌then◌else◌, Bool-cases, leb, ltb, length, drop, length-append, length-drop,
}
use mathlib.Core.List.{append-nil, append_assoc}
use nodejs_movy_data.Client.State.{LogLine}
use nodejs_movy_data.Client.Fold.{cap_logs, max_log_lines}

module _ {A : Type 0} where
  drop-append : (n : ℕ) (xs ys : List A) → n ≤ length xs → drop n (xs ++ ys) ≡ drop n xs ++ ys
  drop-append zero xs ys h = refl
  drop-append (suc n) [] ys h = absurd (omega arith)
  drop-append (suc n) (x ∷ xs) ys h = drop-append n xs ys (omega arith)

  drop-nil : (n : ℕ) → ◌≡◌ {A = List A} (drop n []) []
  drop-nil zero = refl
  drop-nil (suc n) = refl

  drop-drop : (m n : ℕ) (xs : List A) → drop n (drop m xs) ≡ drop (m + n) xs
  drop-drop zero n xs = ap (λ k. drop k xs) (zero_add n)
    where
      zero_add : (k : ℕ) → k ≡ 0 + k
      zero_add k = omega arith
  drop-drop (suc m) n [] = drop-nil n ∙ sym (drop-nil (suc m + n))
  drop-drop (suc m) n (x ∷ xs) = drop-drop m n xs ∙ ap (λ k. drop k (x ∷ xs)) (suc_add m n)
    where
      suc_add : (a b : ℕ) → suc (a + b) ≡ suc a + b
      suc_add a b = omega arith

cap_logs-drop : (xs : List LogLine) → cap_logs xs ≡ drop (length xs - max_log_lines) xs
unfolding cap_logs
cap_logs-drop xs = elim (Bool-cases (leb (length xs) max_log_lines)) [
  | inl t ↦ rw t (ap (λ n. drop n xs) (none_over (length xs) t))
  | inr f ↦ rw f refl
]
  where
    none_over : (n : ℕ) → leb n 2000 ≡ true → 0 ≡ n - 2000
    none_over n h = ground arith

-- Dropping the oldest lines batch by batch leaves what dropping them once does.
pub cap_logs_again : (xs ys : List LogLine) → cap_logs (cap_logs xs ++ ys) ≡ cap_logs (xs ++ ys)
cap_logs_again xs ys =
    ap (λ l. cap_logs (l ++ ys)) (cap_logs-drop xs)
    ∙ ap cap_logs (sym (drop-append over xs ys fits))
    ∙ cap_logs-drop (drop over (xs ++ ys))
    ∙ drop-drop over (length (drop over (xs ++ ys)) - max_log_lines) (xs ++ ys)
    ∙ ap (λ n. drop n (xs ++ ys)) count
    ∙ sym (cap_logs-drop (xs ++ ys))
  where
    over : ℕ
    over = length xs - max_log_lines

    fits : length xs - max_log_lines ≤ length xs
    fits = omega arith

    count :
        over + (length (drop over (xs ++ ys)) - max_log_lines) ≡ length (xs ++ ys) - max_log_lines
    count = omega (arith, length-drop over (xs ++ ys), length-append xs ys)

-- The pane after a batch that adds `new` lines.
abbrev pub appended : List LogLine → List LogLine → List LogLine
appended old new = if ltb 0 (length new) then cap_logs (old ++ new) else old

some_lines : (x : LogLine) (xs : List LogLine) → ltb 0 (length (x ∷ xs)) ≡ true
some_lines x xs = more (length xs)
  where
    more : (n : ℕ) → ltb 0 (suc n) ≡ true
    more n = ground arith

appended-cons :
    (old : List LogLine) (x : LogLine) (xs : List LogLine)
    → appended old (x ∷ xs) ≡ cap_logs (old ++ x ∷ xs)
appended-cons old x xs = rw (some_lines x xs) refl

pub appended-append :
    (old xs ys : List LogLine) → appended (appended old xs) ys ≡ appended old (xs ++ ys)
appended-append old [] ys = refl
appended-append old (x ∷ xs) [] = ap (appended old) (sym (append-nil (x ∷ xs)))
appended-append old (x ∷ xs) (y ∷ ys) =
    ap (λ l. appended l (y ∷ ys)) (appended-cons old x xs)
    ∙ appended-cons (cap_logs (old ++ x ∷ xs)) y ys
    ∙ cap_logs_again (old ++ x ∷ xs) (y ∷ ys)
    ∙ ap cap_logs (append_assoc old (x ∷ xs) (y ∷ ys))
    ∙ sym (appended-cons old x (xs ++ y ∷ ys))
