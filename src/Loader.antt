-- ===== src/Loader.antt =====
-- crates/mcpfz-probe/src/ebpf.rs, lines 85 to 231: the two threads of the loader. Each function below
-- is one step of a thread, up to the next lock that it takes or the end of a round of records, so that a run is any interleaving of
-- such steps and of records that the kernel puts into the ring.
pub mod Run
pub mod Machine
pub mod Looking
pub mod Refinement
pub mod Trace
pub mod Ends
pub mod Objects
pub mod Protocol
pub mod Ledger
pub mod Order
pub mod Scope
pub mod Shutdown
pub mod Rounds
pub mod Apart
pub mod Polling
pub mod Attribution
pub mod Join
use mcpfz_probe.Base.{
  ℕ, ◌+◌, ◌%◌, ◌^◌, String, Bool, true, false, Option, none, some, List, [], ◌∷◌, ◌++◌, ltb,
}
use mcpfz_probe.Base.{length, take, drop, str_eq, ◌==◌, or_else, if◌then◌else◌}
use mcpfz_probe.Base.Int.{ℤ, pos, negsuc, as_i32}
use mcpfz_probe.Base.Text.{trim, is_empty}
use mcpfz_probe.Io.{Result, ok, err, Write}
use mcpfz_probe.Json.{Json}
use mcpfz_probe.Script.{Control, scope, mark, shutdown, Reader}
use mcpfz_probe.Events.{le_value, field}
use mcpfz_probe.Decode.{decode}
use mcpfz_probe.ProcStat.{process_pgid}
use mcpfz_probe.LoaderState.{
  polling, taking, arrived, removed, closed, took, Batch, ControlPoint, Label, MainPoint, State,
  World, attributed, began, bucket_of, cached, checking, control_status, drain_batch, draining,
  emitting, end_marked, end_status, ended, ending, finished, int_eq, looked, new_batch, optional,
  push, reading, ready_status, reporting, reporting_end, same_pgid, starting, status, stopped,
  with_call, with_time, write_line,
}

module _ ⦃W : Write⦄ ⦃J : Json⦄ where
  -- The process is given by its clock and by what `/proc/<pid>/stat` holds, at each reading of them.
  module _ (clock : ℕ → ℕ) (stat : ℕ → ℕ → Option String) where
    -- An object is stamped and written.
    abbrev report : J.Map → World → World
    report o w = record w {
      out = write_line (with_time (clock w.now_reads) o) w.out;
      now_reads = w.now_reads + 1;
    }

    abbrev stop : World → World
    stop w = record w { shutdown = true; control = stopped }

    -- The locked part of a message, and the line that is still to be written for it.
    abbrev pub update : Control → World → List Label × World
    update (scope pgid generation) w = (
      [],
      record w {
        state = record w.state { scope_pgid = some (as_i32 pgid); scoped = true };
        control = reporting (scope pgid generation);
      },
    )
    update (mark phase call tool) w =
        if str_eq phase "begin"
        then (
          began call ∷ [],
          record w {
            state = record w.state { active_call = call };
            control = reporting (mark phase call tool);
          },
        )
        else if str_eq phase "end"
        then (
          end_marked call ∷ [],
          record w {
            state = record w.state { pending_ends = w.state.pending_ends ++ (call ∷ []) };
          },
        )
        else ([], w)
    update shutdown w = ([], stop w)

    abbrev pub on_message : ⦃R : Reader⦄ → Result Control R.ParseError → World → List Label × World
    on_message (ok message) w = update message w
    on_message (err e) w = ([], w)

    abbrev pub on_line : ⦃R : Reader⦄ → List (Result String W.Error) → World → List Label × World
    on_line [] w = ([], stop w)
    on_line (err e ∷ rest) w = ([], stop (record w { lines = rest }))
    on_line ⦃R⦄ (ok line ∷ rest) w =
        if is_empty (trim line)
        then ([], record w { lines = rest })
        else on_message (R.control_from_str (trim line)) (record w { lines = rest })

    -- A step of the control thread.
    unfoldable pub control_step : ⦃R : Reader⦄ → World → List Label × World
    unfolding trim control_status write_line
    control_step w = elim (w.control) [
      | reading ↦ on_line w.lines w
      | reporting message ↦ ([], record (report (control_status message) w) { control = reading })
      | stopped ↦ ([], w)
    ]

    -- `entry(pid).or_insert_with(|| process_pgid(pid))`, where `found` is what the cache has.
    abbrev pub group : Option (Option ℤ) → ℕ → Batch → World → Option ℤ × (Batch × World)
    group (some g) pid b w = (g, (b, w))
    group none pid b w =
        let g : Option ℤ = process_pgid (stat w.stat_reads) pid in
        (
          g,
          (
            record b { pgid_cache = (pid, g) ∷ b.pgid_cache },
            record w { stat_reads = w.stat_reads + 1 },
          ),
        )

    abbrev pub decoded : State → ℕ → Option J.Map → Batch → World → World
    decoded s pid none b w = record w { main = draining b }
    decoded s pid (some o) b w = record w { main = emitting b (attributed s pid o) }

    abbrev pub in_group : State → ℕ → Option J.Map → Option ℤ × (Batch × World) → World
    in_group s pid o (g, (b, w)) =
        if same_pgid g s.scope_pgid then decoded s pid o b w else record w { main = draining b }

    abbrev pub in_scope : State → ℕ → Option J.Map → Batch → World → World
    in_scope s pid o b w =
        if s.scoped
        then in_group s pid o (group (cached pid b.pgid_cache) pid b w)
        else decoded s pid o b w

    abbrev pub identified : ℕ → ℕ → List ℕ → Batch → World → World
    identified kind pid bytes b w = in_scope w.state pid (decode kind bytes) b w

    -- A record, from `ring.next()` to its JSON object, under the state that it finds.
    abbrev pub look : List ℕ → Batch → World → List Label × World
    look bytes b w =
        if ltb (length bytes) 8 then (removed bytes ∷ [], record w { main = draining b }) else (
          removed bytes ∷ looked w.state.active_call ∷ [],
          identified (le_value (field 0 4 bytes)) (le_value (field 4 4 bytes)) bytes b w,
        )

    -- The queued end marks are taken.
    abbrev take_ends : Batch → World → List Label × World
    take_ends b w = (
      took ∷ [],
      record w {
        state = record w.state { pending_ends = [] };
        main = ending b w.state.pending_ends;
      },
    )

    -- `ring.next()`.
    abbrev pub next : List (List ℕ) → Batch → World → List Label × World
    next [] b w = (closed true ∷ [], record w { main = taking b })
    next (bytes ∷ rest) b w =
        look bytes (record b { drained = b.drained + 1 }) (record w { ring = rest })

    -- A round takes records until the batch is full or the ring is empty.
    abbrev pub drain : List (List ℕ) → Batch → World → List Label × World
    drain ring b w =
        if ltb b.drained drain_batch
        then next ring b w
        else (closed false ∷ [], record w { main = taking b })

    -- An end mark ends the call that is active when it is applied.
    abbrev end_call : Batch → Option String → List (Option String) → World → List Label × World
    end_call b call rest w =
        let over : Option String = or_else w.state.active_call call in
        (
          ended call over ∷ [],
          record w {
            state = record w.state { active_call = none };
            main = reporting_end b over rest;
          },
        )

    -- The end of a round: only after one that did not fill the batch, the thread sleeps.
    abbrev pub after_ends : Batch → World → World
    after_ends b w = record w { main = if ltb b.drained drain_batch then polling else checking }

    -- `poll_readable` returns, because the ring can be read or after 200 ms.
    abbrev poll_readable : World → World
    poll_readable w = record w { main = checking }

    -- A step of the main thread.
    unfoldable pub main_step : World → List Label × World
    unfolding process_pgid decode attributed ready_status end_status field write_line
    main_step w = elim (w.main) [
      | starting ↦ ([], record (report ready_status w) { main = checking })
      | checking ↦ ([], record w { main = if w.shutdown then finished else draining new_batch })
      | draining b ↦ drain w.ring b w
      | emitting b o ↦ ([], record (report o w) { main = draining b })
      | taking b ↦ take_ends b w
      | ending b [] ↦ ([], after_ends b w)
      | ending b (call ∷ rest) ↦ end_call b call rest w
      | reporting_end b over rest ↦
          ([], record (report (end_status over) w) { main = ending b rest })
      | polling ↦ ([], poll_readable w)
      | finished ↦ ([], w)
    ]
