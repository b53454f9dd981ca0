-- ===== src/Tests/ScopeRuns.antt =====
-- The scope, the objects and the end of the loader under given schedules.
use mcpfz_probe.Base.{◌≡◌, refl, String, Option, some, List, [], ◌∷◌}
use mathlib.Core.Option
use mcpfz_probe.Base.Digits.{print}
use mcpfz_probe.Base.Text.{trim}
use mcpfz_probe.Io.{Result, ok}
use mcpfz_probe.LoaderState.{World, Label, attributed, bucket_of}
use mcpfz_probe.Loader.{control_step, main_step}
use mcpfz_probe.Base.{arith, is_some, true, ◌↔◌}
use mcpfz_probe.Events.{ptrace_bytes}
use mcpfz_probe.Decode.{decode, ptrace_object}
use mcpfz_probe.Decode.Types.{type_of}
use mcpfz_probe.Loader.Objects.{attributed-decode}
use mcpfz_probe.Base.Int.{ℤ, pos}
use mcpfz_probe.Base.Digits.{parse_i32}
use mcpfz_probe.Events.{le_value, field}
use mcpfz_probe.ProcStat.{process_pgid}
use mcpfz_probe.LoaderState.{emitting, new_batch, same_pgid}
use mcpfz_probe.LoaderState.{stopped, draining, finished}
use mcpfz_probe.Loader.Shutdown.{main_steps, steps_left, main_steps-finished}
use mcpfz_probe.Loader.Scope.{WasIn, at_record, Run-WasIn}
use mcpfz_probe.Loader.Rounds.{Taken, Run-Taken}
use mcpfz_probe.Loader.Run.{started, Run, here, by_main}
use mcpfz_probe.Base.Digits.{parse_u64}
use mcpfz_probe.Tests.JsonText.{lex_between}
use mcpfz_probe.Tests.Deserialize.{sample_reader, read_control}
use mcpfz_probe.Tests.Samples.{sample_json, vec_writer, text, number, get, sample_json-IsLawful}
use mcpfz_probe.Tests.Schedules.{
  Turn, control, main, kernel, ticks, proc_files, turn, play, play-Run, of_nine, in_call, attach,
}

attach_object : decode 7 (ptrace_bytes 0 attach) ≡ some (ptrace_object attach)
unfolding decode ptrace_bytes
attach_object = refl

attributed-decode_example :
    (get (attributed in_call 9 (ptrace_object attach)) "call_id" ≡ Option.map text (some "c9"))
    × (get (attributed in_call 9 (ptrace_object attach)) "bucket" ≡ some (text (bucket_of in_call)))
    × ((bucket_of in_call ≡ "call") ↔ (is_some in_call.active_call ≡ true))
    × (get (attributed in_call 9 (ptrace_object attach)) "pid" ≡ some (number (print 10 9)))
    × (get (attributed in_call 9 (ptrace_object attach)) "type" ≡ Option.map text (type_of 7))
attributed-decode_example =
    attributed-decode ⦃L = sample_json-IsLawful⦄ in_call 7 9 (ptrace_bytes 0 attach)
      (ptrace_object attach) attach_object

abbrev scope_line : Result String String
scope_line = ok "{\"op\":\"scope\",\"pgid\":42,\"generation\":1}"

-- A scope is set, and then a record of process 9 is in the ring.
abbrev scoped_turns : List Turn
unfolding ptrace_bytes
scoped_turns = main ∷ control ∷ control ∷ main ∷ kernel (ptrace_bytes 0 attach) ∷ []

abbrev after_scope : List Label × World
unfolding play scoped_turns
after_scope = play scoped_turns ([], started (scope_line ∷ []) [])

after_scope-Run :
    Run ticks proc_files
      (started (scope_line ∷ []) [])
      after_scope.0
      (at_record ticks proc_files after_scope.1 new_batch (ptrace_bytes 0 attach) [])
unfolding after_scope control_step main_step trim read_control lex_between get parse_u64
after_scope-Run = play-Run (scope_line ∷ []) scoped_turns ([], started (scope_line ∷ []) []) here

scope_is_set : after_scope.1.state.scoped ≡ true
unfolding after_scope control_step main_step trim read_control lex_between get parse_u64
scope_is_set = refl

emits_attach :
    (main_step ticks proc_files
      (at_record ticks proc_files after_scope.1 new_batch (ptrace_bytes 0 attach) [])).1.main
    ≡ emitting
        (record { drained = 1; pgid_cache = (9, some (pos 42)) ∷ [] })
        (attributed after_scope.1.state 9 (ptrace_object attach))
unfolding after_scope control_step main_step trim read_control lex_between get parse_u64
    ptrace_bytes process_pgid parse_i32
emits_attach = refl

Run-WasIn_example :
    (g : Option ℤ) × (WasIn proc_files (le_value (field 4 4 (ptrace_bytes 0 attach))) g
      × (same_pgid g after_scope.1.state.scope_pgid ≡ true))
Run-WasIn_example =
    Run-WasIn ticks proc_files (scope_line ∷ []) [] after_scope.1 new_batch (ptrace_bytes 0 attach)
      [] after_scope-Run scope_is_set emits_attach

-- A shutdown while a record and an end mark wait.
abbrev stopping : World
stopping = record (started [] []) {
  state = record in_call { pending_ends = some "c9" ∷ [] };
  shutdown = true;
  ring = (7 ∷ []) ∷ [];
  control = stopped;
  main = draining new_batch;
}

main_steps-finished_example :
    (main_steps ticks proc_files (steps_left stopping) stopping).main ≡ finished
main_steps-finished_example = main_steps-finished ticks proc_files stopping refl

-- The batch has room for one more record, and the ring never runs empty.
abbrev nearly_full : World
nearly_full = record stopping {
  ring = of_nine ∷ of_nine ∷ of_nine ∷ [];
  main = draining (record { drained = 8191; pgid_cache = [] });
}

Run-Taken_example : Taken (play (main ∷ main ∷ main ∷ main ∷ []) ([], nearly_full)).0
unfolding play turn
Run-Taken_example =
    Run-Taken ticks proc_files nearly_full (by_main (by_main (by_main (by_main here)))) tt
      (omega arith)
