-- ===== src/Events/Sinks.antt =====
-- seq-sink.ts and throttled-sink.ts. A sink is a step from its state to its state and what it passes on.
-- `clock` is the reading of the n-th call of `now`.
use nodejs_movy_data.Prelude.{
  ℕ, suc, ◌+◌, Bool, true, String, Option, none, some, List, [], ◌∷◌, ◌++◌, Dict, lookup, insert,
  delete, keys, leb, if◌then◌else◌,
}
use nodejs_movy_data.Events.Types.{EventInput, MigrationEvent}

-- `${s}${t}`
abbrev pub str_append : String → String → String
str_append String.[] t = t
str_append (String.◌∷◌ c s) t = String.◌∷◌ c (str_append s t)

unfoldable pub table_key : String → String
table_key name = str_append "table:" name

module _ {P D : Type 0} where
  unfoldable pub key_of : EventInput P D → Option String
  key_of (EventInput.table_progress name rows_done rows_total pct) = some (table_key name)
  key_of (EventInput.overall_progress rows_done rows_total pct tables_done tables_total) =
      some "overall"
  key_of _ = none

pub record Throttle (P D : Type 0) : Type 0 where
  pub last_sent_at : Dict ℕ
  pub pending : Dict (EventInput P D)
  pub reads : ℕ

-- `now() - (lastSentAt.get(key) ?? -Infinity) >= intervalMs`
unfoldable pub is_due : ℕ → ℕ → Option ℕ → Bool
is_due interval_ms now none = true
is_due interval_ms now (some sent) = leb (sent + interval_ms) now

unfoldable pub empty_throttle : {P D : Type 0} → Throttle P D
empty_throttle = record { last_sent_at = []; pending = []; reads = 0 }

module _ {P D : Type 0} (interval_ms : ℕ) (clock : ℕ → ℕ) where
  unfoldable pub flush_key : String → Throttle P D → Throttle P D × List (EventInput P D)
  flush_key key s = elim (lookup key s.pending) [
    | none ↦ (s, [])
    | some held ↦ (
      record {
        last_sent_at = insert key (clock s.reads) s.last_sent_at;
        pending = delete key s.pending;
        reads = suc s.reads;
      },
      held ∷ [],
    )
  ]

  unfoldable pub sample :
      String → EventInput P D → Throttle P D → Throttle P D × List (EventInput P D)
  sample key e s =
      if is_due interval_ms (clock s.reads) (lookup key s.last_sent_at)
      then (
        record {
          last_sent_at = insert key (clock (suc s.reads)) s.last_sent_at;
          pending = delete key s.pending;
          reads = suc (suc s.reads);
        },
        e ∷ [],
      )
      else (record s { pending = insert key e s.pending; reads = suc s.reads }, [])

  -- An event without a key: a finished table's held samples land before it.
  unfoldable pub pass_on : EventInput P D → Throttle P D → Throttle P D × List (EventInput P D)
  pass_on (EventInput.table_finished name rows_copied duration_ms success error) s =
      let (s₁, table) = flush_key (table_key name) s in
      let (s₂, overall) = flush_key "overall" s₁ in
      (
        s₂,
        table
            ++ overall
            ++ EventInput.table_finished name rows_copied duration_ms success error ∷ [],
      )
  pass_on e s = (s, e ∷ [])

  unfoldable pub throttle : EventInput P D → Throttle P D → Throttle P D × List (EventInput P D)
  throttle e s = elim (key_of e) [ none ↦ pass_on e s | some key ↦ sample key e s ]

  unfoldable pub throttle_all :
      List (EventInput P D) → Throttle P D → Throttle P D × List (EventInput P D)
  throttle_all [] s = (s, [])
  throttle_all (e ∷ es) s =
      let (s₁, out) = throttle e s in let (s₂, rest) = throttle_all es s₁ in (s₂, out ++ rest)

  unfoldable pub flush_keys : List String → Throttle P D → Throttle P D × List (EventInput P D)
  flush_keys [] s = (s, [])
  flush_keys (k ∷ ks) s =
      let (s₁, out) = flush_key k s in let (s₂, rest) = flush_keys ks s₁ in (s₂, out ++ rest)

  -- `sink.flush`
  unfoldable pub flush : Throttle P D → Throttle P D × List (EventInput P D)
  flush s = flush_keys (keys s.pending) s

-- The sink that numbers events, from its counter and the timestamps it reads.
module _ {P D : Type 0} (run_id : String) (now : ℕ → String) where
  unfoldable pub number : ℕ → EventInput P D → ℕ × MigrationEvent P D
  number seq e = (suc seq, record { run_id = run_id; seq = suc seq; at = now seq; body = e })

  unfoldable pub number_all : ℕ → List (EventInput P D) → List (MigrationEvent P D)
  unfolding number
  number_all seq [] = []
  number_all seq (e ∷ es) = (number seq e).1 ∷ number_all (number seq e).0 es

-- `composeSink` with no secrets and a target that does not throw: a run's whole emission, up to `flush`.
unfoldable pub emitted :
    {P D : Type 0}
    → String
    → ℕ
    → (ℕ → ℕ)
    → (ℕ → String)
    → List (EventInput P D)
    → List (MigrationEvent P D)
emitted run_id interval_ms clock now es =
    let (s, out) = throttle_all interval_ms clock es empty_throttle in
    number_all run_id now 0 (out ++ (flush interval_ms clock s).1)
