-- ===== src/Loader/Shutdown.antt =====
-- How the main thread of the loader ends after a shutdown.
use mcpfz_probe.Base.{
  ℕ, zero, suc, ◌+◌, ◌*◌, ◌≤◌, String, ◌≡◌, refl, Bool, true, false, Bool-cases, inl, inr, Option,
  List, [], ◌∷◌, arith, ltb, length, if◌then◌else◌,
}
use mcpfz_probe.Io.{Write}
use mcpfz_probe.Json.{Json}
use mcpfz_probe.Events.{le_value, field}
use mcpfz_probe.Decode.{decode}
use mcpfz_probe.LoaderState.{
  World, State, Batch, MainPoint, starting, checking, draining, emitting, taking, ending,
  reporting_end, polling, finished, drain_batch,
}
use mcpfz_probe.Loader.Looking.{in_scope-any}
use mcpfz_probe.Loader.{in_scope, drain, main_step}

module _ ⦃W : Write⦄ ⦃J : Json⦄ where
  -- How many steps the main thread still takes after a shutdown, at most, with `r` records in the
  -- ring and `p` end marks in the queue.
  abbrev steps_at : MainPoint → (r p : ℕ) → ℕ
  steps_at starting r p = 2
  steps_at checking r p = 1
  steps_at (draining b) r p = 2 * r + 2 * p + 5
  steps_at (emitting b o) r p = 2 * r + 2 * p + 6
  steps_at (taking b) r p = 2 * p + 4
  steps_at (ending b rest) r p = 2 * length rest + 3
  steps_at (reporting_end b over rest) r p = 2 * length rest + 4
  steps_at polling r p = 2
  steps_at finished r p = 0

  abbrev pub steps_left : World → ℕ
  steps_left w = steps_at w.main (length w.ring) (length w.state.pending_ends)

  -- A world that is to stop, with at most so many steps.
  record Below (n : ℕ) (w : World) : Type 0 where
    few : steps_left w ≤ n
    over : w.shutdown ≡ true

  -- A choice of where to go on.
  Below-main :
      (n : ℕ) (t : Bool) (w : World) (x y : MainPoint)
      → steps_at x (length w.ring) (length w.state.pending_ends) ≤ n
      → steps_at y (length w.ring) (length w.state.pending_ends) ≤ n
      → w.shutdown ≡ true
      → Below n (record w { main = if t then x else y })
  Below-main n true w x y hx hy e = record { few = hx; over = e }
  Below-main n false w x y hx hy e = record { few = hy; over = e }

  module _ (clock : ℕ → ℕ) (stat : ℕ → ℕ → Option String) where
    -- The main thread alone, for so many steps.
    abbrev pub main_steps : ℕ → World → World
    main_steps zero w = w
    main_steps (suc n) w = main_steps n (main_step clock stat w).1

    in_scope-Below :
        (n : ℕ) (s : State) (pid : ℕ) (o : Option J.Map) (b : Batch) (w : World)
        → 2 * length w.ring + 2 * length w.state.pending_ends + 6 ≤ n
        → w.shutdown ≡ true
        → Below n (in_scope clock stat s pid o b w)
    in_scope-Below n s pid o b w h e =
        in_scope-any clock stat (Below n) b w
          (λ m cache. record { few = omega (arith, h); over = e })
          (λ m cache o'. record { few = omega (arith, h); over = e }) s pid o

    drain-Below :
        (n : ℕ) (ring : List (List ℕ)) (b : Batch) (w : World)
        → 2 * length ring + 2 * length w.state.pending_ends + 5 ≤ suc n
        → w.shutdown ≡ true
        → Below n (drain clock stat ring b w).1
    drain-Below n [] b w h e = elim (Bool-cases (ltb b.drained drain_batch)) [
      | inl room ↦ rw room (record { few = omega (arith, h); over = e })
      | inr full ↦ rw full (record { few = omega (arith, h); over = e })
    ]
    drain-Below n (bytes ∷ rest) b w h e = elim (Bool-cases (ltb b.drained drain_batch)) [
      | inl room ↦ elim (Bool-cases (ltb (length bytes) 8)) [
        | inl short ↦ rw (room, short) (record { few = omega (arith, h); over = e })
        | inr long ↦
            rw (room, long)
              (in_scope-Below n w.state (le_value (field 4 4 bytes))
                (decode (le_value (field 0 4 bytes)) bytes) (record b { drained = b.drained + 1 })
                (record w { ring = rest }) (omega (arith, h)) e)
      ]
      | inr full ↦ rw full (record { few = omega (arith, h); over = e })
    ]

    main-Below :
        (n : ℕ) (m : MainPoint) (w : World)
        → steps_at m (length w.ring) (length w.state.pending_ends) ≤ suc n
        → w.shutdown ≡ true
        → Below n (main_step clock stat (record w { main = m })).1
    unfolding main_step
    main-Below n starting w h e = record { few = omega (arith, h); over = e }
    main-Below n checking w h e = rw e (record { few = omega arith; over = refl })
    main-Below n (draining b) w h e = drain-Below n w.ring b (record w { main = draining b }) h e
    main-Below n (emitting b o) w h e = record { few = omega (arith, h); over = e }
    main-Below n (taking b) w h e = record { few = omega (arith, h); over = e }
    main-Below n (ending b []) w h e =
        Below-main n (ltb b.drained drain_batch) w polling checking (omega (arith, h))
          (omega (arith, h)) e
    main-Below n (ending b (call ∷ rest)) w h e = record { few = omega (arith, h); over = e }
    main-Below n (reporting_end b over rest) w h e = record { few = omega (arith, h); over = e }
    main-Below n polling w h e = record { few = omega (arith, h); over = e }
    main-Below n finished w h e = record { few = omega arith; over = e }

    no_steps : (m : MainPoint) (r p : ℕ) → steps_at m r p ≤ 0 → m ≡ finished
    no_steps starting r p h = absurd (omega (arith, h))
    no_steps checking r p h = absurd (omega (arith, h))
    no_steps (draining b) r p h = absurd (omega (arith, h))
    no_steps (emitting b o) r p h = absurd (omega (arith, h))
    no_steps (taking b) r p h = absurd (omega (arith, h))
    no_steps (ending b rest) r p h = absurd (omega (arith, h))
    no_steps (reporting_end b over rest) r p h = absurd (omega (arith, h))
    no_steps polling r p h = absurd (omega (arith, h))
    no_steps finished r p h = refl

    main_steps-Below : (n : ℕ) (w : World) → Below n w → (main_steps n w).main ≡ finished
    main_steps-Below zero w b = no_steps w.main _ _ b.few
    main_steps-Below (suc n) w b =
        main_steps-Below n (main_step clock stat w).1 (main-Below n w.main w b.few b.over)

    -- Once `shutdown` is set, the main thread leaves its loop: from any world, with no more records
    -- coming in, `steps_left` of its steps suffice, two for each record in the ring and each end
    -- mark, and at most six more.
    pub main_steps-finished :
        (w : World) → w.shutdown ≡ true → (main_steps (steps_left w) w).main ≡ finished
    main_steps-finished w e =
        main_steps-Below (steps_left w) w (record { few = omega arith; over = e })
