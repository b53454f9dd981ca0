-- ===== src/Loader/Join.antt =====
-- Where the control thread of the loader stands when the main thread has left its loop.
use mcpfz_probe.Base.{
  ℕ, ◌+◌, String, ◌≡◌, refl, sym, ◌∙◌, true, Bool-cases, inl, inr, ◌⊎◌, Option, List, [], ◌∷◌,
  length, ltb,
}
use mcpfz_probe.Loader.Scope.{control_step_main}
use mcpfz_probe.Io.{Result, Write}
use mcpfz_probe.Json.{Json}
use mcpfz_probe.Events.{le_value, field}
use mcpfz_probe.Decode.{decode}
use mcpfz_probe.Script.{Reader}
use mcpfz_probe.LoaderState.{
  World, Batch, Label, MainPoint, starting, checking, draining, emitting, taking, ending,
  reporting_end, polling, finished, stopped, drain_batch,
}
use mcpfz_probe.Loader.{drain, main_step}
use mcpfz_probe.Loader.Looking.{in_scope-any}
use mcpfz_probe.Loader.Run.{started, Run, here, by_control, by_main, by_kernel}
use mcpfz_probe.Loader.Apart.{control-Apart}

module _ ⦃W : Write⦄ ⦃J : Json⦄ where
  -- The control thread has ended once `shutdown` is set, and it is set once the loop is left.
  record Joined (w : World) : Type 0 where
    ended_first : w.shutdown ≡ true → w.control ≡ stopped
    left : w.main ≡ finished → w.shutdown ≡ true

  module _ (clock : ℕ → ℕ) (stat : ℕ → ℕ → Option String) where
    -- What the steps of the main thread keep of the other thread.
    record Beside (w w' : World) : Type 0 where
      flag : w'.shutdown ≡ w.shutdown
      thread : w'.control ≡ w.control
      left : w'.main ≡ finished → (w.shutdown ≡ true) ⊎ (w.main ≡ finished)

    drain-Beside :
        (ring : List (List ℕ)) (b : Batch) (w : World) → Beside w (drain clock stat ring b w).1
    drain-Beside [] b w = elim (Bool-cases (ltb b.drained drain_batch)) [
      | inl room ↦ rw room (record { flag = refl; thread = refl; left = λ e. cc })
      | inr full ↦ rw full (record { flag = refl; thread = refl; left = λ e. cc })
    ]
    drain-Beside (bytes ∷ rest) b w = elim (Bool-cases (ltb b.drained drain_batch)) [
      | inl room ↦ elim (Bool-cases (ltb (length bytes) 8)) [
        | inl short ↦ rw (room, short) (record { flag = refl; thread = refl; left = λ e. cc })
        | inr long ↦
            rw (room, long)
              (in_scope-any clock stat (Beside w) (record b { drained = b.drained + 1 })
                (record w { ring = rest })
                (λ n cache. record { flag = refl; thread = refl; left = λ e. cc })
                (λ n cache o. record { flag = refl; thread = refl; left = λ e. cc }) w.state
                (le_value (field 4 4 bytes)) (decode (le_value (field 0 4 bytes)) bytes))
      ]
      | inr full ↦ rw full (record { flag = refl; thread = refl; left = λ e. cc })
    ]

    main-Beside :
        (m : MainPoint) (w : World)
        → Beside (record w { main = m }) (main_step clock stat (record w { main = m })).1
    unfolding main_step
    main-Beside starting w = record { flag = refl; thread = refl; left = λ e. cc }
    main-Beside checking w = elim (Bool-cases w.shutdown) [
      | inl over ↦ rw over (record { flag = refl; thread = refl; left = λ e. inl refl })
      | inr on ↦ rw on (record { flag = refl; thread = refl; left = λ e. cc })
    ]
    main-Beside (draining b) w = drain-Beside w.ring b (record w { main = draining b })
    main-Beside (emitting b o) w = record { flag = refl; thread = refl; left = λ e. cc }
    main-Beside (taking b) w = record { flag = refl; thread = refl; left = λ e. cc }
    main-Beside (ending b []) w = elim (Bool-cases (ltb b.drained drain_batch)) [
      | inl idle ↦ rw idle (record { flag = refl; thread = refl; left = λ e. cc })
      | inr full ↦ rw full (record { flag = refl; thread = refl; left = λ e. cc })
    ]
    main-Beside (ending b (call ∷ rest)) w = record { flag = refl; thread = refl; left = λ e. cc }
    main-Beside (reporting_end b over rest) w = record {
      flag = refl;
      thread = refl;
      left = λ e. cc;
    }
    main-Beside polling w = record { flag = refl; thread = refl; left = λ e. cc }
    main-Beside finished w = record { flag = refl; thread = refl; left = λ e. inr refl }

    module _ ⦃R : Reader⦄ (lines : List (Result String W.Error)) (out : W.State) where
      Run-Joined :
          {trace : List Label} {w : World} → Run clock stat (started lines out) trace w → Joined w
      Run-Joined here = record { ended_first = λ e. cc; left = λ e. cc }
      Run-Joined (by_control {w} run) =
          let a = control-Apart clock stat w.control w in
          let j = Run-Joined run in
          record {
            ended_first = a.ends j.ended_first;
            left = λ e. a.keeps (j.left (sym (control_step_main clock stat w.control w) ∙ e));
          }
      Run-Joined (by_main {w} run) =
          let b = main-Beside w.main w in
          let j = Run-Joined run in
          record {
            ended_first = λ e. b.thread ∙ j.ended_first (sym b.flag ∙ e);
            left = λ e. b.flag ∙ elim (b.left e) [ inl on ↦ on | inr over ↦ j.left over ];
          }
      Run-Joined (by_kernel bytes run) =
          let j = Run-Joined run in record { ended_first = j.ended_first; left = j.left }

      -- In every interleaving, once the main thread has left its loop, the control thread has
      -- ended, so that the join returns at once.
      pub Run-finished :
          {trace : List Label} {w : World}
          → Run clock stat (started lines out) trace w
          → w.main ≡ finished
          → w.control ≡ stopped
      Run-finished run e = let j = Run-Joined run in j.ended_first (j.left e)
