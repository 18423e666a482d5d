-- ===== src/Migrate/Triples.antt =====
-- What holds after an action, when it returns and when it throws, and how that passes through the
-- operations of Migrate.Effects and the steps of the orchestrator.
use nodejs_movy_data.Migrate.Failure.{Failure}
use nodejs_movy_data.Migrate.Effects.{Result, ok, err, Session, Action, and_then}

module _ {W P : Type 0} where
  -- `Q` of what it returned, `E` of what it threw.
  abbrev pub Post :
      {A : Type 0}
      → (A → Session W P → Type 0)
      → (Failure → Session W P → Type 0)
      → Result A × Session W P
      → Type 0
  Post Q E (ok a, s) = Q a s
  Post Q E (err e, s) = E e s

  pub and_then-Post :
      {A B : Type 0} (Q : A → Session W P → Type 0) (R : B → Session W P → Type 0)
      (E : Failure → Session W P → Type 0) (f : A → Action W P B) (r : Result A × Session W P)
      → Post Q E r
      → ((a : A) (s : Session W P) → Q a s → Post R E (f a s))
      → Post R E (and_then f r)
  unfolding and_then
  and_then-Post Q R E f (ok a, s) h k = k a s h
  and_then-Post Q R E f (err e, s) h k = h

  -- A statement about the session that an action keeps.
  pub Post-of_kept :
      {A : Type 0} (I : Session W P → Type 0) (r : Result A × Session W P)
      → I r.1
      → Post (λ a. I) (λ e. I) r
  Post-of_kept I (ok a, s) h = h
  Post-of_kept I (err e, s) h = h

  pub kept_of-Post :
      {A : Type 0} (I : Session W P → Type 0) (r : Result A × Session W P)
      → Post (λ a. I) (λ e. I) r
      → I r.1
  kept_of-Post I (ok a, s) h = h
  kept_of-Post I (err e, s) h = h

  pub Post-weaken :
      {A : Type 0} {Q R : A → Session W P → Type 0} {E F : Failure → Session W P → Type 0}
      (r : Result A × Session W P)
      → Post Q E r
      → ((a : A) (s : Session W P) → Q a s → R a s)
      → ((e : Failure) (s : Session W P) → E e s → F e s)
      → Post R F r
  Post-weaken (ok a, s) h f g = f a s h
  Post-weaken (err e, s) h f g = g e s h

  -- The action, however it ends, keeps the statement.
  abbrev pub Keeps : {A : Type 0} → (Session W P → Type 0) → Action W P A → Type 0
  Keeps I m = (s : Session W P) → I s → I (m s).1

  pub and_then-kept :
      {A B : Type 0} (I : Session W P → Type 0) (f : A → Action W P B) (r : Result A × Session W P)
      → ((a : A) → Keeps I (f a))
      → I r.1
      → I (and_then f r).1
  unfolding and_then
  and_then-kept I f (ok a, s) k h = k a s h
  and_then-kept I f (err e, s) k h = h
