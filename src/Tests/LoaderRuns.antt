-- ===== src/Tests/LoaderRuns.antt =====
-- Calls and end marks in the loader under given schedules.
use mcpfz_probe.Base.{◌≡◌, refl, none, some, List, [], ◌∷◌, ◌++◌}
use mcpfz_probe.Base.Text.{trim}
use mcpfz_probe.LoaderState.{
  World, Label, began, ended, end_marked, looked, arrived, removed, closed, took,
}
use mcpfz_probe.Loader.{control_step, main_step}
use mcpfz_probe.Base.{true}
use mcpfz_probe.LoaderState.{finished}
use mcpfz_probe.Loader.Machine.{Moves, opened}
use mcpfz_probe.Loader.Refinement.{view, Run-Moves}
use mcpfz_probe.Loader.Ledger.{Timely, blank}
use mcpfz_probe.Loader.Order.{Run-Timely}
use mcpfz_probe.LoaderState.{polling, stopped}
use mcpfz_probe.Loader.Polling.{Run-polling}
use mcpfz_probe.Loader.Join.{Run-finished}
use mcpfz_probe.Loader.Trace.{last_closed}
use mcpfz_probe.Loader.Run.{started, Run, here}
use mcpfz_probe.Loader.Trace.{marked, applied}
use mcpfz_probe.Loader.Ends.{waiting, Run-marked}
use mcpfz_probe.Tests.JsonText.{lex_between}
use mcpfz_probe.Tests.Deserialize.{sample_reader, read_control}
use mcpfz_probe.Tests.Samples.{get, sample_json, vec_writer}
use mcpfz_probe.Tests.Schedules.{
  Turn, control, main, kernel, ticks, proc_files, play, begin_c9, end_c9, begin_c10, play-Run,
  of_nine,
}

-- The end mark arrives while a record of the call is still in the ring.
abbrev late_end : List Turn
late_end =
    main
    ∷ control
    ∷ control
    ∷ kernel of_nine
    ∷ control
    ∷ main
    ∷ main
    ∷ main
    ∷ main
    ∷ main
    ∷ main
    ∷ []

abbrev after_late_end : List Label × World
unfolding play
after_late_end = play late_end ([], started (begin_c9 ∷ end_c9 ∷ []) [])

-- The record is attributed to the call, and the mark is applied after it.
late_end_labels :
    after_late_end.0
    ≡ began (some "c9")
      ∷ arrived of_nine
      ∷ end_marked (some "c9")
      ∷ removed of_nine
      ∷ looked (some "c9")
      ∷ closed true
      ∷ took
      ∷ ended (some "c9") (some "c9")
      ∷ []
unfolding after_late_end control_step main_step trim read_control lex_between get
late_end_labels = refl

late_end-Run :
    Run ticks proc_files (started (begin_c9 ∷ end_c9 ∷ []) []) after_late_end.0 after_late_end.1
unfolding after_late_end
late_end-Run =
    play-Run (begin_c9 ∷ end_c9 ∷ []) late_end ([], started (begin_c9 ∷ end_c9 ∷ []) []) here

Run-marked_example :
    marked after_late_end.0 ≡ applied after_late_end.0 ++ waiting (view after_late_end.1)
Run-marked_example = Run-marked ticks proc_files (begin_c9 ∷ end_c9 ∷ []) [] late_end-Run

Run-Moves_example : Moves opened after_late_end.0 (view after_late_end.1)
Run-Moves_example = Run-Moves ticks proc_files (begin_c9 ∷ end_c9 ∷ []) [] late_end-Run

Run-Timely_example : Timely blank after_late_end.0
Run-Timely_example = Run-Timely ticks proc_files (begin_c9 ∷ end_c9 ∷ []) [] late_end-Run

-- A record of the call and then its end mark arrive when the ring was found empty and the queue is not
-- taken yet: the mark is applied, and the record is looked at outside of the call.
abbrev raced : List Label × World
unfolding play
raced =
    play
      (main
        ∷ control
        ∷ control
        ∷ main
        ∷ main
        ∷ kernel of_nine
        ∷ control
        ∷ main
        ∷ main
        ∷ main
        ∷ main
        ∷ main
        ∷ main
        ∷ main
        ∷ [])
      ([], started (begin_c9 ∷ end_c9 ∷ []) [])

raced_labels :
    raced.0
    ≡ began (some "c9")
      ∷ closed true
      ∷ arrived of_nine
      ∷ end_marked (some "c9")
      ∷ took
      ∷ ended (some "c9") (some "c9")
      ∷ removed of_nine
      ∷ looked none
      ∷ []
unfolding raced control_step main_step trim read_control lex_between get
raced_labels = refl

-- A call begins before the end mark of the one before it is applied: the mark then ends the new call.
abbrev early_begin : List Turn
early_begin =
    main ∷ control ∷ control ∷ control ∷ control ∷ control ∷ main ∷ main ∷ main ∷ main ∷ main ∷ []

abbrev after_early_begin : List Label × World
unfolding play
after_early_begin = play early_begin ([], started (begin_c9 ∷ end_c9 ∷ begin_c10 ∷ []) [])

early_begin_labels :
    after_early_begin.0
    ≡ began (some "c9")
      ∷ end_marked (some "c9")
      ∷ began (some "c10")
      ∷ closed true
      ∷ took
      ∷ ended (some "c9") (some "c10")
      ∷ []
unfolding after_early_begin control_step main_step trim read_control lex_between get
early_begin_labels = refl

-- A shutdown right behind an end mark: the loop is left before the mark is applied.
abbrev hurried : List Label × World
unfolding play
hurried =
    play (main ∷ control ∷ control ∷ control ∷ control ∷ main ∷ main ∷ [])
      ([], started (begin_c9 ∷ end_c9 ∷ []) [])

hurried_labels : hurried.0 ≡ began (some "c9") ∷ end_marked (some "c9") ∷ []
unfolding hurried control_step main_step trim read_control lex_between get
hurried_labels = refl

hurried_finished : (hurried.1.main ≡ finished) × (waiting (view hurried.1) ≡ some "c9" ∷ [])
unfolding hurried control_step main_step trim read_control lex_between get
hurried_finished = (refl, refl)

hurried_left : hurried.1.main ≡ finished
unfolding hurried control_step main_step trim read_control lex_between get
hurried_left = refl

hurried-Run : Run ticks proc_files (started (begin_c9 ∷ end_c9 ∷ []) []) hurried.0 hurried.1
unfolding hurried
hurried-Run =
    play-Run (begin_c9 ∷ end_c9 ∷ [])
      (main ∷ control ∷ control ∷ control ∷ control ∷ main ∷ main ∷ [])
      ([], started (begin_c9 ∷ end_c9 ∷ []) []) here

Run-finished_example : hurried.1.control ≡ stopped
Run-finished_example =
    Run-finished ticks proc_files (begin_c9 ∷ end_c9 ∷ []) [] hurried-Run hurried_left

-- A round over an empty ring, and then the main thread sleeps.
abbrev sleepy : List Label × World
unfolding play
sleepy = play (main ∷ main ∷ main ∷ main ∷ main ∷ []) ([], started [] [])

sleepy-Run : Run ticks proc_files (started [] []) sleepy.0 sleepy.1
unfolding sleepy
sleepy-Run = play-Run [] (main ∷ main ∷ main ∷ main ∷ main ∷ []) ([], started [] []) here

sleepy_polls : sleepy.1.main ≡ polling
unfolding sleepy main_step
sleepy_polls = refl

Run-polling_example : last_closed sleepy.0 ≡ some true
Run-polling_example = Run-polling ticks proc_files [] [] sleepy-Run sleepy_polls
