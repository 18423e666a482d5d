-- ===== src/Queue/Rows.antt =====
-- The tests of the statements' WHERE clauses, and what each says of a row.
use mathlib.Core.Option.{some-injective}
use nodejs_movy_data.Prelude.{
  ◌≡◌, refl, ap, ◌⊎◌, inl, inr, ◌↔◌, Bool, true, ◌&&◌, String, Option, none, some, eq_iff, holds,
  arith, sym, ◌∙◌,
}
use nodejs_movy_data.Queue.Tables.{
  RunStatus, queued, running, cancelling, succeeded, failed, cancelled, is_busy, is_queued,
  is_cancelling, same_key,
}

-- status IN ('running', 'cancelling')
abbrev pub IsBusy : RunStatus → Type 0
IsBusy x = (x ≡ running) ⊎ (x ≡ cancelling)

pub is_busy_iff : (x : RunStatus) → (is_busy x ≡ true) ↔ IsBusy x
is_busy_iff queued = (λ h. cc h, λ h. elim h [ inl e ↦ cc e | inr e ↦ cc e ])
is_busy_iff running = (λ h. inl refl, λ h. refl)
is_busy_iff cancelling = (λ h. inr refl, λ h. refl)
is_busy_iff succeeded = (λ h. cc h, λ h. elim h [ inl e ↦ cc e | inr e ↦ cc e ])
is_busy_iff failed = (λ h. cc h, λ h. elim h [ inl e ↦ cc e | inr e ↦ cc e ])
is_busy_iff cancelled = (λ h. cc h, λ h. elim h [ inl e ↦ cc e | inr e ↦ cc e ])

pub is_queued_iff : (x : RunStatus) → (is_queued x ≡ true) ↔ (x ≡ queued)
is_queued_iff queued = (λ h. refl, λ h. refl)
is_queued_iff running = (λ h. cc h, λ h. cc h)
is_queued_iff cancelling = (λ h. cc h, λ h. cc h)
is_queued_iff succeeded = (λ h. cc h, λ h. cc h)
is_queued_iff failed = (λ h. cc h, λ h. cc h)
is_queued_iff cancelled = (λ h. cc h, λ h. cc h)

pub is_cancelling_iff : (x : RunStatus) → (is_cancelling x ≡ true) ↔ (x ≡ cancelling)
is_cancelling_iff queued = (λ h. cc h, λ h. cc h)
is_cancelling_iff running = (λ h. cc h, λ h. cc h)
is_cancelling_iff cancelling = (λ h. refl, λ h. refl)
is_cancelling_iff succeeded = (λ h. cc h, λ h. cc h)
is_cancelling_iff failed = (λ h. cc h, λ h. cc h)
is_cancelling_iff cancelled = (λ h. cc h, λ h. cc h)

pub holds_iff : (o : Option String) (s : String) → (holds o s ≡ true) ↔ (o ≡ some s)
holds_iff none s = (λ h. cc h, λ h. cc h)
holds_iff (some t) s = (λ h. ap some ((eq_iff t s).0 h), λ h. (eq_iff t s).1 (some-injective t s h))

-- NULL is the same key as nothing.
pub same_key_iff :
    (a b : Option String) → (same_key a b ≡ true) ↔ ((k : String) × (a ≡ some k) × (b ≡ some k))
same_key_iff none b = (λ h. cc h, λ (k, e, f). cc e)
same_key_iff (some j) none = (λ h. cc h, λ (k, e, f). cc f)
same_key_iff (some j) (some k) = (
  λ h. (j, refl, ap some (sym ((eq_iff j k).0 h))),
  λ (i, e, f). (eq_iff j k).1 (some-injective j i e ∙ sym (some-injective k i f)),
)

pub and_iff : (a b : Bool) → ((a && b) ≡ true) ↔ ((a ≡ true) × (b ≡ true))
and_iff a b = ground arith
