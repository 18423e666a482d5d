-- ===== src/Writer/State.antt =====
-- The writer's state and methods. A write that is in flight is the batch that it writes; a `drain` that
-- waits for one is an entry of `waiters`. Each method gives the new state and the batches handed to the
-- store, in order; `finish` is a write's end, whether it succeeded or failed.
use nodejs_movy_data.Prelude.{
  ℕ, suc, Bool, true, false, not, String, Option, none, some, List, [], ◌∷◌, ◌++◌, Dict, lookup,
  insert, delete, keys, filter, length, str_eq, ltb, leb, ◌==◌, if◌then◌else◌, get_or, is_some,
}
use nodejs_movy_data.Events.Types.{EventInput, MigrationEvent, warn}

pub record Writer (P D : Type 0) : Type 0 where
  pub buffers : Dict (List (MigrationEvent P D))
  pub in_flight : Dict (List (MigrationEvent P D))
  pub log_counts : Dict ℕ
  pub timer : Bool
  pub waiters : List String

-- Batches handed to `store.apply`, with their runs.
abbrev pub Sent : (P D : Type 0) → Type 0
Sent P D = List (String × List (MigrationEvent P D))

pub data Call (P D : Type 0) : Type 0 where
  push : (run_id : String) (event : MigrationEvent P D) → Call P D
  flush : (run_id : String) → Call P D
  flush_all : Call P D
  timer_fires : Call P D
  finish : (run_id : String) → Call P D
  forget : (run_id : String) → Call P D
  close : Call P D

module _ {P D : Type 0} where
  unfoldable pub empty_writer : Writer P D
  empty_writer = record {
    buffers = [];
    in_flight = [];
    log_counts = [];
    timer = false;
    waiters = [];
  }

  abbrev pub is_log_input : EventInput P D → Bool
  is_log_input (EventInput.log level message step_id) = true
  is_log_input _ = false

  abbrev pub is_log : MigrationEvent P D → Bool
  is_log e = is_log_input e.body

  abbrev pub with_notice : String → EventInput P D → EventInput P D
  with_notice text (EventInput.log level message step_id) = EventInput.log warn text step_id
  with_notice text b = b

  unfoldable pub notice : String → MigrationEvent P D → MigrationEvent P D
  notice text e = record e { body = with_notice text e.body }

  -- What `recordAndMaybeCap` returns for a run's `seen`-th log event.
  unfoldable pub capped : ℕ → String → ℕ → MigrationEvent P D → Option (MigrationEvent P D)
  capped max_logs text seen e =
      if ltb seen max_logs then some e else if seen == max_logs then some (notice text e) else none

  unfoldable pub seen_after : String → Writer P D → ℕ
  seen_after run_id w = suc (get_or (lookup run_id w.log_counts) 0)

  unfoldable pub record_and_maybe_cap :
      ℕ
      → String
      → String
      → MigrationEvent P D
      → Writer P D
      → Writer P D × Option (MigrationEvent P D)
  unfolding seen_after
  record_and_maybe_cap max_logs text run_id e w =
      if is_log e
      then (
        record w { log_counts = insert run_id (seen_after run_id w) w.log_counts },
        capped max_logs text (seen_after run_id w) e,
      )
      else (w, some e)

  unfoldable pub held : String → Writer P D → List (MigrationEvent P D)
  held run_id w = get_or (lookup run_id w.buffers) []

  -- The part of `drain` with no write in flight.
  unfoldable pub start_write : String → Writer P D → Writer P D × Sent P D
  start_write run_id w = elim (lookup run_id w.buffers) [
    | none ↦ (w, [])
    | some [] ↦ (w, [])
    | some (e ∷ es) ↦ (
      record w {
        buffers = delete run_id w.buffers;
        in_flight = insert run_id (e ∷ es) w.in_flight;
      },
      (run_id, e ∷ es) ∷ [],
    )
  ]

  unfoldable pub drain : String → Writer P D → Writer P D × Sent P D
  drain run_id w =
      if is_some (lookup run_id w.in_flight)
      then (record w { waiters = w.waiters ++ run_id ∷ [] }, [])
      else start_write run_id w

  unfoldable pub drain_each : List String → Writer P D → Writer P D × Sent P D
  drain_each [] w = (w, [])
  drain_each (r ∷ rs) w =
      let (w₁, out) = drain r w in let (w₂, rest) = drain_each rs w₁ in (w₂, out ++ rest)

  -- `new Set([...buffers.keys(), ...inFlight.keys()])`
  unfoldable pub all_ids : Writer P D → List String
  all_ids w = keys w.buffers ++ filter (λ k. not (is_some (lookup k w.buffers))) (keys w.in_flight)

  unfoldable pub push_buffer : String → MigrationEvent P D → Writer P D → Writer P D
  unfolding held
  push_buffer run_id e w = record w { buffers = insert run_id (held run_id w ++ e ∷ []) w.buffers }

  unfoldable pub keep : ℕ → String → MigrationEvent P D → Writer P D → Writer P D × Sent P D
  keep max_batch run_id e w =
      let w' = push_buffer run_id e w in
      if leb max_batch (length (held run_id w'))
      then drain run_id w'
      else (record w' { timer = true }, [])

  unfoldable pub push_event :
      ℕ → ℕ → String → String → MigrationEvent P D → Writer P D → Writer P D × Sent P D
  push_event max_batch max_logs text run_id e w =
      let (w', stored) = record_and_maybe_cap max_logs text run_id e w in
      elim stored [ none ↦ (w', []) | some e' ↦ keep max_batch run_id e' w' ]

  unfoldable pub call : ℕ → ℕ → String → Call P D → Writer P D → Writer P D × Sent P D
  call max_batch max_logs text (Call.push run_id e) w =
      push_event max_batch max_logs text run_id e w
  call max_batch max_logs text (Call.flush run_id) w = drain run_id w
  call max_batch max_logs text Call.flush_all w = drain_each (all_ids w) w
  call max_batch max_logs text Call.timer_fires w =
      if w.timer then drain_each (all_ids w) (record w { timer = false }) else (w, [])
  call max_batch max_logs text (Call.finish run_id) w =
      drain_each (filter (λ r. str_eq r run_id) w.waiters) (record w {
        in_flight = delete run_id w.in_flight;
        waiters = filter (λ r. not (str_eq r run_id)) w.waiters;
      })
  call max_batch max_logs text (Call.forget run_id) w =
      (record w { log_counts = delete run_id w.log_counts }, [])
  call max_batch max_logs text Call.close w = drain_each (all_ids w) (record w { timer = false })

  unfoldable pub calls : ℕ → ℕ → String → List (Call P D) → Writer P D → Writer P D × Sent P D
  calls max_batch max_logs text [] w = (w, [])
  calls max_batch max_logs text (c ∷ cs) w =
      let (w₁, out) = call max_batch max_logs text c w in
      let (w₂, rest) = calls max_batch max_logs text cs w₁ in (w₂, out ++ rest)
