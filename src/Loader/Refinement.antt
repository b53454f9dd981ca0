-- ===== src/Loader/Refinement.antt =====
-- The threads of the loader against the abstract machine.
use mcpfz_probe.Base.{
  ℕ, ◌+◌, String, ◌≡◌, refl, sym, Bool, true, false, Bool-cases, inl, inr, Option, List, [], ◌∷◌,
  length, ltb, str_eq,
}
use mathlib.Core.Path.{subst}
use mcpfz_probe.Base.Text.{trim, is_empty}
use mcpfz_probe.Io.{Result, ok, err, Write}
use mcpfz_probe.Json.{Json}
use mcpfz_probe.Events.{le_value, field}
use mcpfz_probe.Decode.{decode}
use mcpfz_probe.Script.{Control, scope, mark, shutdown, Reader}
use mcpfz_probe.LoaderState.{
  World, Label, MainPoint, starting, checking, draining, emitting, taking, ending, reporting_end,
  polling, finished, State, reading, reporting, stopped, ControlPoint, drain_batch, Batch, removed,
  looked,
}
use mcpfz_probe.Loader.{control_step, main_step, update, on_message, on_line, drain, in_scope}
use mcpfz_probe.Loader.Machine.{View, Move, Moves, opened}
use mcpfz_probe.Loader.Looking.{in_scope-any}
use mcpfz_probe.Loader.Run.{started, Run, here, by_control, by_main, by_kernel}

module _ ⦃W : Write⦄ ⦃J : Json⦄ where
  abbrev at_main : MainPoint → List (Option String)
  at_main (ending b rest) = rest
  at_main (reporting_end b over rest) = rest
  at_main _ = []

  abbrev is_taking : MainPoint → Bool
  is_taking (taking b) = true
  is_taking _ = false

  -- What the abstract machine sees of a world.
  abbrev pub view : World → View
  view w = record {
    ring = w.ring;
    pending = w.state.pending_ends;
    taken = at_main w.main;
    closing = is_taking w.main;
    active = w.state.active_call;
  }

  abbrev Moved : World → List Label × World → Type 0
  Moved w (labels, w') = Move (view w) labels (view w')

  module _ (clock : ℕ → ℕ) (stat : ℕ → ℕ → Option String) where
    update-Moved : (message : Control) (w : World) → Moved w (update clock stat message w)
    update-Moved (scope pgid generation) w = Move.idle
    update-Moved (mark phase call tool) w = elim (Bool-cases (str_eq phase "begin")) [
      | inl is_begin ↦ rw is_begin (Move.begin call)
      | inr not_begin ↦ elim (Bool-cases (str_eq phase "end")) [
        | inl is_end ↦ rw (not_begin, is_end) (Move.mark_end call)
        | inr not_end ↦ rw (not_begin, not_end) Move.idle
      ]
    ]
    update-Moved shutdown w = Move.idle

    on_message-Moved :
        ⦃R : Reader⦄ (message : Result Control R.ParseError) (w : World)
        → Moved w (on_message clock stat message w)
    on_message-Moved (ok message) w = update-Moved message w
    on_message-Moved (err e) w = Move.idle

    on_line-Moved :
        ⦃R : Reader⦄ (lines : List (Result String W.Error)) (w : World)
        → Moved w (on_line clock stat lines w)
    on_line-Moved [] w = Move.idle
    on_line-Moved (err e ∷ rest) w = Move.idle
    on_line-Moved ⦃R⦄ (ok line ∷ rest) w = elim (Bool-cases (is_empty (trim line))) [
      | inl blank ↦ rw blank Move.idle
      | inr full ↦
          rw full (on_message-Moved (R.control_from_str (trim line)) (record w { lines = rest }))
    ]

    control-Moved :
        ⦃R : Reader⦄ (c : ControlPoint) (w : World)
        → Moved (record w { control = c }) (control_step clock stat (record w { control = c }))
    unfolding control_step
    control-Moved reading w = on_line-Moved w.lines (record w { control = reading })
    control-Moved (reporting message) w = Move.idle
    control-Moved stopped w = Move.idle

    -- What is seen of the main thread while it looks at records.
    abbrev seen : World → View
    seen w = record (view w) { taken = []; closing = false }

    in_scope-seen :
        (s : State) (pid : ℕ) (o : Option J.Map) (b : Batch) (w : World)
        → view (in_scope clock stat s pid o b w) ≡ seen w
    in_scope-seen s pid o b w =
        in_scope-any clock stat (λ x. view x ≡ seen w) b w (λ n cache. refl) (λ n cache o'. refl) s
          pid o

    drain-Moved :
        (ring : List (List ℕ)) (b : Batch) (w : World)
        → Moved
            (record w { main = draining b; ring = ring })
            (drain clock stat ring b (record w { main = draining b; ring = ring }))
    drain-Moved [] b w = elim (Bool-cases (ltb b.drained drain_batch)) [
      | inl room ↦ rw room Move.close_empty
      | inr full ↦ rw full Move.close_full
    ]
    drain-Moved (bytes ∷ rest) b w = elim (Bool-cases (ltb b.drained drain_batch)) [
      | inl room ↦ elim (Bool-cases (ltb (length bytes) 8)) [
        | inl short ↦ rw (room, short) (Move.skip bytes)
        | inr long ↦
            rw (room, long)
              (subst
                (λ u.
                  Move (view (record w { main = draining b; ring = bytes ∷ rest }))
                    (removed bytes ∷ looked w.state.active_call ∷ []) u)
                (sym (
                  in_scope-seen w.state (le_value (field 4 4 bytes))
                    (decode (le_value (field 0 4 bytes)) bytes)
                    (record b { drained = b.drained + 1 })
                    (record w { ring = rest; main = draining b })))
                (Move.look bytes))
      ]
      | inr full ↦ rw full Move.close_full
    ]

    main-Moved :
        (m : MainPoint) (w : World)
        → Moved (record w { main = m }) (main_step clock stat (record w { main = m }))
    unfolding main_step
    main-Moved starting w = Move.idle
    main-Moved checking w = elim (Bool-cases w.shutdown) [
      | inl over ↦ rw over Move.idle
      | inr on ↦ rw on Move.idle
    ]
    main-Moved (draining b) w = drain-Moved w.ring b w
    main-Moved (emitting b o) w = Move.idle
    main-Moved (taking b) w = Move.take
    main-Moved (ending b []) w = elim (Bool-cases (ltb b.drained drain_batch)) [
      | inl idle ↦ rw idle Move.idle
      | inr full ↦ rw full Move.idle
    ]
    main-Moved (ending b (call ∷ rest)) w = Move.apply call
    main-Moved (reporting_end b over rest) w = Move.idle
    main-Moved polling w = Move.idle
    main-Moved finished w = Move.idle

    -- In every interleaving of the threads and the kernel, the loader does nothing to the ring, the
    -- queue of end marks and the active call but what the abstract machine can do, step for step and
    -- with the same labels.
    pub Run-Moves :
        ⦃R : Reader⦄ (lines : List (Result String W.Error)) (out : W.State) {trace : List Label}
        {w : World}
        → Run clock stat (started lines out) trace w
        → Moves opened trace (view w)
    Run-Moves lines out here = Moves.here
    Run-Moves lines out (by_control {w} run) =
        Moves.then_move (Run-Moves lines out run) (control-Moved w.control w)
    Run-Moves lines out (by_main {w} run) =
        Moves.then_move (Run-Moves lines out run) (main-Moved w.main w)
    Run-Moves lines out (by_kernel bytes run) =
        Moves.then_move (Run-Moves lines out run) (Move.arrive bytes)
