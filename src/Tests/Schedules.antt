-- ===== src/Tests/Schedules.antt =====
-- Schedules of the threads of the loader and of the kernel, and the runs that follow them.
use mcpfz_probe.Base.{ℕ, ◌+◌, String, Option, none, some, List, [], ◌∷◌, ◌++◌}
use mcpfz_probe.Io.{Result, ok}
use mcpfz_probe.LoaderState.{World, State, Label, push, arrived}
use mcpfz_probe.Loader.{control_step, main_step}
use mcpfz_probe.Base.{true}
use mcpfz_probe.Events.{PtraceEvent}
use mcpfz_probe.Base.{◌==◌, if◌then◌else◌}
use mcpfz_probe.Loader.Run.{started, Run, by_control, by_main, by_kernel}
use mcpfz_probe.Tests.Deserialize.{sample_reader}
use mcpfz_probe.Tests.Samples.{sample_json, vec_writer}

pub data Turn : Type 0 where
  control main : Turn
  kernel : List ℕ → Turn

abbrev pub ticks : ℕ → ℕ
ticks n = n + 1

-- Process 9 is in group 42; no other process has a readable file.
abbrev pub proc_files : ℕ → ℕ → Option String
proc_files moment pid = if pid == 9 then some "9 (sh) S 1 42 42 0" else none

unfoldable pub turn : Turn → List Label × World → List Label × World
unfolding control_step main_step
turn control (trace, w) =
    (trace ++ (control_step ticks proc_files w).0, (control_step ticks proc_files w).1)
turn main (trace, w) = (trace ++ (main_step ticks proc_files w).0, (main_step ticks proc_files w).1)
turn (kernel bytes) (trace, w) = (trace ++ (arrived bytes ∷ []), push bytes w)

unfoldable pub play : List Turn → List Label × World → List Label × World
unfolding turn
play [] p = p
play (t ∷ rest) p = play rest (turn t p)

abbrev pub begin_c9 : Result String String
begin_c9 = ok "{\"op\":\"mark\",\"phase\":\"begin\",\"call_id\":\"c9\",\"tool\":\"t\"}"

abbrev pub end_c9 : Result String String
end_c9 = ok "{\"op\":\"mark\",\"phase\":\"end\",\"call_id\":\"c9\"}"

abbrev pub begin_c10 : Result String String
begin_c10 = ok "{\"op\":\"mark\",\"phase\":\"begin\",\"call_id\":\"c10\"}"

module _ (lines : List (Result String String)) where
  turn-Run :
      (t : Turn) (p : List Label × World)
      → Run ticks proc_files (started lines []) p.0 p.1
      → Run ticks proc_files (started lines []) (turn t p).0 (turn t p).1
  unfolding turn
  turn-Run control (trace, w) run = by_control run
  turn-Run main (trace, w) run = by_main run
  turn-Run (kernel bytes) (trace, w) run = by_kernel bytes run

  pub play-Run :
      (turns : List Turn) (p : List Label × World)
      → Run ticks proc_files (started lines []) p.0 p.1
      → Run ticks proc_files (started lines []) (play turns p).0 (play turns p).1
  unfolding play
  play-Run [] p run = run
  play-Run (t ∷ rest) p run = play-Run rest (turn t p) (turn-Run t p run)

-- The header of a record of process 9.
abbrev pub of_nine : List ℕ
of_nine = 7 ∷ 0 ∷ 0 ∷ 0 ∷ 9 ∷ 0 ∷ 0 ∷ 0 ∷ []

abbrev pub in_call : State
in_call = record { active_call = some "c9"; scope_pgid = none; scoped = true; pending_ends = [] }

abbrev pub attach : PtraceEvent
attach = record {
  kind = 7;
  pid = 9;
  tid = 9;
  request = 16;
  target_pid = 4242;
  comm = 97 ∷ 0 ∷ 0 ∷ 0 ∷ 0 ∷ 0 ∷ 0 ∷ 0 ∷ 0 ∷ 0 ∷ 0 ∷ 0 ∷ 0 ∷ 0 ∷ 0 ∷ 0 ∷ [];
}
