-- ===== src/Tests/AttributionRuns.antt =====
-- Runs in which the main thread is about to write about a record and about an end mark.
use mcpfz_probe.Base.{◌≡◌, refl, none, some, List, [], ◌∷◌}
use mcpfz_probe.Base.Text.{trim}
use mcpfz_probe.Events.{ptrace_bytes}
use mcpfz_probe.LoaderState.{World, Label, reporting_end, optional, write_line}
use mcpfz_probe.Loader.{control_step, main_step}
use mcpfz_probe.Loader.Attribution.{Run-ended}
use mcpfz_probe.Loader.Run.{started, Run, here}
use mcpfz_probe.Loader.Trace.{call_of_record, call_of_end}
use mcpfz_probe.Tests.JsonText.{lex_between}
use mcpfz_probe.Tests.Deserialize.{sample_reader, read_control}
use mcpfz_probe.Tests.Samples.{Fields, text, get, sample_json, vec_writer, sample_json-IsLawful}
use mcpfz_probe.Tests.Schedules.{
  Turn, control, main, kernel, ticks, proc_files, play, begin_c9, end_c9, begin_c10, play-Run,
  attach,
}

-- A record of a call is taken out, and the end mark of the call has arrived.
abbrev record_turns : List Turn
record_turns =
    main ∷ control ∷ control ∷ kernel (ptrace_bytes 0 attach) ∷ control ∷ main ∷ main ∷ []

abbrev taken_out : List Label × World
unfolding play
taken_out = play record_turns ([], started (begin_c9 ∷ end_c9 ∷ []) [])

its_call : call_of_record none none taken_out.0 ≡ some "c9"
unfolding taken_out control_step main_step trim read_control lex_between get ptrace_bytes
its_call = refl

-- The end mark of a call is applied after the next call has begun, and ends that one.
abbrev end_turns : List Turn
end_turns = main ∷ control ∷ control ∷ control ∷ control ∷ control ∷ main ∷ main ∷ main ∷ main ∷ []

abbrev two_calls : List Label × World
unfolding play
two_calls = play end_turns ([], started (begin_c9 ∷ end_c9 ∷ begin_c10 ∷ []) [])

two_calls-Run :
    Run ticks proc_files (started (begin_c9 ∷ end_c9 ∷ begin_c10 ∷ []) []) two_calls.0 two_calls.1
unfolding two_calls
two_calls-Run =
    play-Run (begin_c9 ∷ end_c9 ∷ begin_c10 ∷ []) end_turns
      ([], started (begin_c9 ∷ end_c9 ∷ begin_c10 ∷ []) []) here

ends_c10 :
    two_calls.1.main ≡ reporting_end (record { drained = 0; pgid_cache = [] }) (some "c10") []
unfolding two_calls control_step main_step trim read_control lex_between get
ends_c10 = refl

ended_call : call_of_end none none two_calls.0 ≡ some "c10"
unfolding two_calls control_step main_step trim read_control lex_between get
ended_call = refl

Run-ended_example :
    (line : Fields) × ((main_step ticks proc_files two_calls.1).1.out
      ≡ write_line line two_calls.1.out)
    × (get line "message" ≡ some (text "end"))
    × (get line "call_id" ≡ some (optional (call_of_end none none two_calls.0)))
Run-ended_example =
    Run-ended ticks proc_files (begin_c9 ∷ end_c9 ∷ begin_c10 ∷ []) [] ⦃L = sample_json-IsLawful⦄
      (record { drained = 0; pgid_cache = [] }) (some "c10") [] two_calls-Run ends_c10
