-- ===== src/Events/Tests.antt =====
-- The sinks' theorems at a short stream, and a run of the throttle.
use nodejs_movy_data.Prelude.{
  ℕ, ◌*◌, ◌≡◌, refl, true, String, none, List, [], ◌∷◌, ◌++◌, map, length, lookup, insert, delete,
}
use nodejs_movy_data.Events.Types.{EventInput, info}
use nodejs_movy_data.Events.Sinks.{
  Throttle, throttle, throttle_all, empty_throttle, emitted, table_key, key_of, sample, is_due,
  pass_on, flush_key,
}
use nodejs_movy_data.Events.Samples.{
  structural, newest, bodies, count_from, emitted_keeps, to_list, finished_last,
}

abbrev progress : ℕ → EventInput ℕ String
progress n = EventInput.table_progress "users" n 100 n

abbrev finished : EventInput ℕ String
finished = EventInput.table_finished "users" 100 7 true none

abbrev stream : List (EventInput ℕ String)
stream = progress 1 ∷ progress 2 ∷ progress 3 ∷ EventInput.log info "copying" none ∷ finished ∷ []

-- A clock that moves by 10 ms a reading.
abbrev ticks : ℕ → ℕ
ticks n = n * 10

-- The second sample is replaced by the third, which waits for the end of its table.
stream_throttled :
    (throttle_all 250 ticks stream empty_throttle).1
    ≡ progress 1 ∷ EventInput.log info "copying" none ∷ progress 3 ∷ finished ∷ []
unfolding throttle_all throttle sample pass_on flush_key is_due key_of table_key empty_throttle
    lookup insert delete
stream_throttled = refl

emitted_keeps_example :
    (structural (bodies (emitted "run-1" 250 ticks (λ n. "t") stream)) ≡ structural stream)
    × ((k : String)
        → newest k none (bodies (emitted "run-1" 250 ticks (λ n. "t") stream))
          ≡ newest k none stream)
    × (map (λ e. e.seq) (emitted "run-1" 250 ticks (λ n. "t") stream)
        ≡ count_from 0 (length (bodies (emitted "run-1" 250 ticks (λ n. "t") stream))))
emitted_keeps_example = emitted_keeps "run-1" 250 ticks (λ n. "t") stream

abbrev holding : Throttle ℕ String
holding = record {
  last_sent_at = (table_key "users", 0) ∷ [];
  pending = (table_key "users", progress 3) ∷ [];
  reads = 3;
}

finished_last_example :
    ((throttle 250 ticks finished holding).1
      ≡ to_list (lookup (table_key "users") holding.pending)
        ++ to_list (lookup "overall" holding.pending)
        ++ finished ∷ [])
    × (lookup (table_key "users") (throttle 250 ticks finished holding).0.pending ≡ none)
    × (lookup "overall" (throttle 250 ticks finished holding).0.pending ≡ none)
finished_last_example = finished_last 250 ticks "users" 100 7 true none holding
