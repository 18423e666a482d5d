-- ===== src/Migrate/Effects.antt =====
-- Awaited code: it reads and changes the outside world, emits events and returns or throws. `W` is the
-- world beyond the code (the databases, the clock, the abort signal) and `P` the type of percentages.
use nodejs_movy_data.Prelude.{String, Bool, List, [], ◌∷◌, ◌++◌, if◌then◌else◌}
use nodejs_movy_data.Events.Types.{EventInput}
use nodejs_movy_data.Migrate.Schema.{Carried}
use nodejs_movy_data.Migrate.Failure.{Failure}

pub data Result (A : Type 0) : Type 0 where
  ok : A → Result A
  err : Failure → Result A

abbrev pub Event : Type 0 → Type 0
Event P = EventInput P Carried

-- A call of code beyond the model: what it comes to, and the world after it.
abbrev pub Call : Type 0 → Type 0 → Type 0
Call W A = W → Result A × W

-- `triggers_disabled` and `disabled_tables` are the variables of `run`; `events` what it emitted. `late`
-- are the reports that the workers of a copy that threw have still to make: those that come after the
-- next emit and before the one after it, and so on; the last ones come when the run is over.
pub record Session (W P : Type 0) : Type 0 where
  pub outside : W
  pub events : List (Event P)
  pub triggers_disabled : Bool
  pub disabled_tables : List String
  pub late : List (List (Event P))

abbrev pub Action : Type 0 → Type 0 → Type 0 → Type 0
Action W P A = Session W P → Result A × Session W P

module _ {A : Type 0} where
  abbrev pub first : List (List A) → List A
  first [] = []
  first (xs ∷ xss) = xs

  abbrev pub rest : List (List A) → List (List A)
  rest [] = []
  rest (xs ∷ xss) = xss

module _ {W P : Type 0} where
  abbrev pub called : {A : Type 0} → Session W P → Result A × W → Result A × Session W P
  called s (r, w) = (r, record s { outside = w })

  abbrev pub call : {A : Type 0} → Call W A → Action W P A
  call f s = called s (f s.outside)

  -- `ctx?.emit`, and the late reports that come after it: `watched` says that there is a context.
  abbrev pub emitted : Bool → Event P → Session W P → Session W P
  emitted watched e s =
      if watched
      then record s { events = s.events ++ (e ∷ first s.late); late = rest s.late }
      else s

  abbrev pub emit : Bool → Event P → Action W P Unit
  emit watched e s = (ok tt, emitted watched e s)

  abbrev pub throw : {A : Type 0} → Failure → Action W P A
  throw e s = (err e, s)

  abbrev pub pure : {A : Type 0} → A → Action W P A
  pure a s = (ok a, s)

  abbrev pub get : Action W P (Session W P)
  get s = (ok s, s)

  module _ {A B : Type 0} where
    unfoldable pub and_then : (A → Action W P B) → Result A × Session W P → Result B × Session W P
    and_then f (ok a, s) = f a s
    and_then f (err e, s) = (err e, s)

    infixl 5 ◌>>=◌ ◌>>◌
    abbrev pub ◌>>=◌ : Action W P A → (A → Action W P B) → Action W P B
    m >>= f = λ s. and_then f (m s)

    abbrev pub ◌>>◌ : Action W P A → Action W P B → Action W P B
    m >> k = m >>= λ a. k
