-- ===== src/Loader/Polling.antt =====
-- When the main thread of the loader sleeps.
use mcpfz_probe.Base.{
  ℕ, ◌+◌, String, ◌≡◌, refl, ap, ◌∙◌, Bool, true, Bool-cases, inl, inr, Option, some, List, [], ◌∷◌,
  length, ltb, or_else,
}
use mathlib.Core.Path.{subst}
use mcpfz_probe.Loader.Scope.{control_step_main}
use mcpfz_probe.Io.{Result, Write}
use mcpfz_probe.Json.{Json}
use mcpfz_probe.Events.{le_value, field}
use mcpfz_probe.Decode.{decode}
use mcpfz_probe.Script.{Reader}
use mcpfz_probe.LoaderState.{
  World, Batch, Label, MainPoint, starting, checking, draining, emitting, taking, ending,
  reporting_end, polling, finished, drain_batch, arrived,
}
use mcpfz_probe.Loader.{control_step, drain, next, main_step}
use mcpfz_probe.Loader.Looking.{in_scope-any}
use mcpfz_probe.Loader.Run.{started, Run, here, by_control, by_main, by_kernel}
use mcpfz_probe.Loader.Trace.{last_closed, last_closed-append}
use mcpfz_probe.Loader.Apart.{control-Apart}

module _ ⦃W : Write⦄ ⦃J : Json⦄ where
  -- What the end of the round was, where the main thread has one behind it.
  abbrev AtPoint : MainPoint → Option Bool → Type 0
  AtPoint (taking b) l = l ≡ some (ltb b.drained drain_batch)
  AtPoint (ending b rest) l = l ≡ some (ltb b.drained drain_batch)
  AtPoint (reporting_end b over rest) l = l ≡ some (ltb b.drained drain_batch)
  AtPoint polling l = l ≡ some true
  AtPoint _ l = Unit {0}

  module _ (clock : ℕ → ℕ) (stat : ℕ → ℕ → Option String) where
    -- A step of the main thread, and how the last round ended before it.
    abbrev Sees : Option Bool → List Label × World → Type 0
    Sees l (labels, w) = AtPoint w.main (or_else (last_closed labels) l)

    drain-Sees :
        (ring : List (List ℕ)) (b : Batch) (w : World) (l : Option Bool)
        → w.main ≡ draining b
        → Sees l (drain clock stat ring b w)
    drain-Sees ring b w l e = elim (Bool-cases (ltb b.drained drain_batch)) [
      | inl room ↦ rw room (next_sees ring room)
      | inr full ↦ rw (full, full) refl
    ]
      where
        next_sees :
            (ring : List (List ℕ))
            → ltb b.drained drain_batch ≡ true
            → Sees l (next clock stat ring b w)
        next_sees [] room = rw room refl
        next_sees (bytes ∷ rest) room = elim (Bool-cases (ltb (length bytes) 8)) [
          | inl short ↦ rw short tt
          | inr long ↦ rw long (
              in_scope-any clock stat (λ x. AtPoint x.main l) (record b { drained = b.drained + 1 })
                (record w { ring = rest }) (λ n cache. tt) (λ n cache o. tt) w.state
                (le_value (field 4 4 bytes)) (decode (le_value (field 0 4 bytes)) bytes))
        ]

    main-Sees :
        (m : MainPoint) (w : World) (l : Option Bool)
        → AtPoint m l
        → Sees l (main_step clock stat (record w { main = m }))
    unfolding main_step
    main-Sees starting w l h = tt
    main-Sees checking w l h = elim (Bool-cases w.shutdown) [
      | inl over ↦ rw over tt
      | inr on ↦ rw on tt
    ]
    main-Sees (draining b) w l h = drain-Sees w.ring b (record w { main = draining b }) l refl
    main-Sees (emitting b o) w l h = tt
    main-Sees (taking b) w l h = h
    main-Sees (ending b []) w l h = elim (Bool-cases (ltb b.drained drain_batch)) [
      | inl idle ↦ rw idle (h ∙ ap (λ t. some t) idle)
      | inr full ↦ rw full tt
    ]
    main-Sees (ending b (call ∷ rest)) w l h = h
    main-Sees (reporting_end b over rest) w l h = h
    main-Sees polling w l h = tt
    main-Sees finished w l h = tt

    module _ ⦃R : Reader⦄ (lines : List (Result String W.Error)) (out : W.State) where
      Run-AtPoint :
          {trace : List Label} {w : World}
          → Run clock stat (started lines out) trace w
          → AtPoint w.main (last_closed trace)
      Run-AtPoint here = tt
      Run-AtPoint (by_control {trace} {w} run) =
          let a = control-Apart clock stat w.control w in
          rw
            (
              control_step_main clock stat w.control w,
              last_closed-append trace (control_step clock stat w).0,
              a.closes,
            )
            (Run-AtPoint run)
      Run-AtPoint (by_main {trace} {w} run) =
          rw (last_closed-append trace (main_step clock stat w).0)
            (main-Sees w.main w (last_closed trace) (Run-AtPoint run))
      Run-AtPoint (by_kernel {trace} bytes run) =
          rw (last_closed-append trace (arrived bytes ∷ [])) (Run-AtPoint run)

      -- In every interleaving, when the main thread waits in `poll_readable`, its last round ended
      -- because the ring was empty, and not because the batch was full.
      pub Run-polling :
          {trace : List Label} {w : World}
          → Run clock stat (started lines out) trace w
          → w.main ≡ polling
          → last_closed trace ≡ some true
      Run-polling {trace} run e = subst (λ m. AtPoint m (last_closed trace)) e (Run-AtPoint run)
