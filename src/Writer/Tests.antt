-- ===== src/Writer/Tests.antt =====
-- The writer's theorems at a short sequence of calls, and a run of it.
use nodejs_movy_data.Prelude.{
  ℕ, ◌≡◌, ◌≤◌, refl, String, none, List, [], ◌∷◌, ◌++◌, filter, length, lookup, insert, delete,
}
use nodejs_movy_data.Events.Types.{EventInput, MigrationEvent, info}
use nodejs_movy_data.Writer.State.{
  Call, calls, call, empty_writer, is_log, held, push_event, record_and_maybe_cap, seen_after,
  capped, notice, keep, push_buffer, drain, start_write, drain_each,
}
use nodejs_movy_data.Writer.Order.{sent_of}
use nodejs_movy_data.Writer.Cap.{is_kept, pushed, structural_kept, logs_capped}

abbrev event : ℕ → EventInput ℕ String → MigrationEvent ℕ String
event n b = record { run_id = "run-1"; seq = n; at = "t"; body = b }

abbrev line : ℕ → MigrationEvent ℕ String
line n = event n (EventInput.log info "copying" none)

abbrev step : ℕ → MigrationEvent ℕ String
step n = event n (EventInput.step_started "migrate_data" 5)

-- A full buffer is written, the next events wait behind the write.
abbrev script : List (Call ℕ String)
script =
    Call.push "run-1" (step 1)
    ∷ Call.push "run-1" (line 2)
    ∷ Call.push "run-1" (step 3)
    ∷ Call.push "run-1" (line 4)
    ∷ Call.flush "run-1"
    ∷ Call.finish "run-1"
    ∷ []

script_sent :
    (calls 2 1 "no more logs" script empty_writer).1
    ≡ ("run-1", step 1 ∷ notice "no more logs" (line 2) ∷ []) ∷ ("run-1", step 3 ∷ []) ∷ []
unfolding calls call empty_writer held push_event record_and_maybe_cap seen_after capped notice keep
    push_buffer drain start_write drain_each lookup insert delete
script_sent = refl

structural_kept_example :
    filter is_kept (sent_of "run-1" (calls 2 1 "no more logs" script empty_writer).1)
      ++ filter is_kept (held "run-1" (calls 2 1 "no more logs" script empty_writer).0)
    ≡ filter is_kept (pushed "run-1" script)
structural_kept_example = structural_kept 2 1 "no more logs" script "run-1"

logs_capped_example :
    length (
      filter is_log (
        sent_of "run-1" (calls 2 1 "no more logs" script empty_writer).1
        ++ held "run-1" (calls 2 1 "no more logs" script empty_writer).0))
    ≤ 1
logs_capped_example =
    logs_capped 2 1 "no more logs" script "run-1" (refl, (refl, (refl, (refl, (refl, (refl, tt))))))
