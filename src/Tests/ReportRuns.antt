-- ===== src/Tests/ReportRuns.antt =====
-- A system call that is captured, and the line that the loader writes about it.
use mcpfz_probe.Kernel.Sound.{process_id}
use mcpfz_probe.Base.{◌++◌, ◌≡◌, refl, false, none, some, [], ◌∷◌, arith, inl}
use mcpfz_probe.Decode.Objects.{Says}
use mcpfz_probe.LoaderState.{World, draining, new_batch, write_line}
use mcpfz_probe.Loader.{main_step}
use mcpfz_probe.Loader.Run.{started}
use mcpfz_probe.Kernel.{sys_enter_execve}
use mcpfz_probe.Kernel.Report.{event_says, Captured-Says}
use mcpfz_probe.Tests.Samples.{sample_json, vec_writer, text, texts, sample_json-IsLawful}
use mcpfz_probe.Base.Utf8.{as_bytes}
use mcpfz_probe.Kernel.Capture.{Captured, sys_enter_execve-Captured}
use mcpfz_probe.Tests.Processes.{shell, shell-IsSound, shell-PointsTo, process-Runs, junk, https}
use mcpfz_probe.Tests.Schedules.{ticks, proc_files}

-- A call is active and no scope is set.
abbrev waiting_for_exec : World
waiting_for_exec = record (started [] []) {
  state = record { active_call = some "c9"; scope_pgid = none; scoped = false; pending_ends = [] };
}

shell-Captured :
    Captured shell []
      (sys_enter_execve shell [])
      (("argv", texts ("/bin/sh" ∷ [])) ∷ ("comm", text "node") ∷ ("type", text "exec") ∷ [])
unfolding as_bytes
shell-Captured =
    sys_enter_execve-Captured ⦃L = sample_json-IsLawful⦄ shell shell-IsSound [] "node" (junk 284) 16
      "/bin/sh" refl refl (shell-PointsTo 16) (omega arith)
      (process-Runs (as_bytes "/bin/sh") https)

Captured-Says_example :
    (o : sample_json.Map) × Says o (
      event_says waiting_for_exec.state
        (process_id shell)
        1
        (("argv", texts ("/bin/sh" ∷ [])) ∷ ("comm", text "node") ∷ ("type", text "exec") ∷ []))
    × ((main_step ticks proc_files
          (main_step ticks proc_files (record waiting_for_exec {
            main = draining new_batch;
            ring = (sys_enter_execve shell []).1 ++ ((1 ∷ []) ∷ []);
          })).1).1.out
        ≡ write_line o [])
Captured-Says_example =
    Captured-Says ticks proc_files ⦃L = sample_json-IsLawful⦄ shell waiting_for_exec new_batch
      (sys_enter_execve shell []) ((1 ∷ []) ∷ [])
      (("argv", texts ("/bin/sh" ∷ [])) ∷ ("comm", text "node") ∷ ("type", text "exec") ∷ [])
      (
        (refl, (refl, (refl, tt))),
        (refl, (refl, (refl, tt))),
        (refl, (refl, (refl, tt))),
        (refl, (refl, (refl, tt))),
      )
      shell-Captured (omega arith) (inl refl)
