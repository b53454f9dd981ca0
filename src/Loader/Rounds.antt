-- ===== src/Loader/Rounds.antt =====
-- How long a round of records lasts, at most, before the queue of end marks is taken.
use mcpfz_probe.Base.{
  ℕ, suc, ◌+◌, ◌-◌, ◌*◌, ◌≤◌, String, ◌⊎◌, Bool-cases, inl, inr, Option, List, [], ◌∷◌, ◌++◌, arith,
  ltb, ltb→lt, length,
}
use mcpfz_probe.Io.{Write}
use mcpfz_probe.Json.{Json}
use mcpfz_probe.Script.{Reader}
use mcpfz_probe.Events.{le_value, field}
use mcpfz_probe.Decode.{decode}
use mcpfz_probe.LoaderState.{
  World, State, Batch, Label, MainPoint, starting, checking, draining, emitting, taking, ending,
  reporting_end, polling, finished, drain_batch, took,
}
use mcpfz_probe.Loader.{in_scope, drain, main_step}
use mcpfz_probe.Loader.Scope.{control_step_main}
use mcpfz_probe.Loader.Looking.{in_scope-any}
use mcpfz_probe.Loader.Run.{Run, here, by_control, by_main, by_kernel}

-- The queue was taken somewhere in a trace.
pub data Taken : List Label → Type 0 where
  now : {rest : List Label} → Taken (took ∷ rest)
  later : {label : Label} {rest : List Label} → Taken rest → Taken (label ∷ rest)

Taken-append : {s : List Label} (t : List Label) → Taken s → Taken (s ++ t)
Taken-append t Taken.now = Taken.now
Taken-append t (Taken.later h) = Taken.later (Taken-append t h)

Taken-after : (s : List Label) {t : List Label} → Taken t → Taken (s ++ t)
Taken-after [] h = h
Taken-after (label ∷ s) h = Taken.later (Taken-after s h)

module _ ⦃W : Write⦄ ⦃J : Json⦄ where
  -- The main thread looks at records, or is about to take the queue.
  abbrev pub InRound : MainPoint → Type 0
  InRound (draining b) = Unit {0}
  InRound (emitting b o) = Unit {0}
  InRound (taking b) = Unit {0}
  InRound _ = ⊥

  -- How many steps of the main thread are left in the round, at most: two for each record that the
  -- batch still has room for.
  abbrev pub round_left : MainPoint → ℕ
  round_left (draining b) = 2 * (drain_batch - b.drained) + 2
  round_left (emitting b o) = 2 * (drain_batch - b.drained) + 3
  round_left (taking b) = 1
  round_left _ = 0

  -- The round goes on, for so many steps at most.
  record Near (n : ℕ) (w : World) : Type 0 where
    inside : InRound w.main
    few : round_left w.main ≤ n

  module _ (clock : ℕ → ℕ) (stat : ℕ → ℕ → Option String) where
    in_scope-Near :
        (n : ℕ) (s : State) (pid : ℕ) (o : Option J.Map) (b : Batch) (w : World)
        → 2 * (drain_batch - b.drained) + 3 ≤ n
        → Near n (in_scope clock stat s pid o b w)
    in_scope-Near n s pid o b w h =
        in_scope-any clock stat (Near n) b w
          (λ m cache. record { inside = tt; few = omega (arith, h) })
          (λ m cache o'. record { inside = tt; few = h }) s pid o

    -- A step of the main thread in a round takes the queue, or leaves fewer steps.
    abbrev Closer : ℕ → List Label × World → Type 0
    Closer n (labels, w) = Taken labels ⊎ Near n w

    drain-Closer :
        (n : ℕ) (ring : List (List ℕ)) (b : Batch) (w : World)
        → 2 * (drain_batch - b.drained) + 2 ≤ suc n
        → Closer n (drain clock stat ring b w)
    drain-Closer n [] b w h = elim (Bool-cases (ltb b.drained drain_batch)) [
      | inl room ↦ rw room (inr (record { inside = tt; few = omega (arith, h) }))
      | inr full ↦ rw full (inr (record { inside = tt; few = omega (arith, h) }))
    ]
    drain-Closer n (bytes ∷ rest) b w h = elim (Bool-cases (ltb b.drained drain_batch)) [
      | inl room ↦
          let lt = ltb→lt b.drained drain_batch room in
          elim (Bool-cases (ltb (length bytes) 8)) [
            | inl short ↦
                rw (room, short) (inr (record { inside = tt; few = omega (arith, h, lt) }))
            | inr long ↦
                rw (room, long)
                  (inr (
                    in_scope-Near n w.state (le_value (field 4 4 bytes))
                      (decode (le_value (field 0 4 bytes)) bytes)
                      (record b { drained = b.drained + 1 }) (record w { ring = rest })
                      (omega (arith, h, lt))))
          ]
      | inr full ↦ rw full (inr (record { inside = tt; few = omega (arith, h) }))
    ]

    main-Closer :
        (n : ℕ) (m : MainPoint) (w : World)
        → InRound m
        → round_left m ≤ suc n
        → Closer n (main_step clock stat (record w { main = m }))
    unfolding main_step
    main-Closer n (draining b) w inside h =
        drain-Closer n w.ring b (record w { main = draining b }) h
    main-Closer n (emitting b o) w inside h = inr (record { inside = tt; few = omega (arith, h) })
    main-Closer n (taking b) w inside h = inl Taken.now
    main-Closer n starting w inside h = absurd inside
    main-Closer n checking w inside h = absurd inside
    main-Closer n (ending b rest) w inside h = absurd inside
    main-Closer n (reporting_end b over rest) w inside h = absurd inside
    main-Closer n polling w inside h = absurd inside
    main-Closer n finished w inside h = absurd inside

    module _ ⦃R : Reader⦄ where
      -- The steps of the main thread in a run.
      abbrev pub mains : {start w : World} {trace : List Label} → Run clock stat start trace w → ℕ
      mains here = 0
      mains (by_control run) = mains run
      mains (by_main run) = suc (mains run)
      mains (by_kernel bytes run) = mains run

      round_left-pos : (m : MainPoint) → InRound m → 1 ≤ round_left m
      round_left-pos (draining b) h = omega arith
      round_left-pos (emitting b o) h = omega arith
      round_left-pos (taking b) h = omega arith
      round_left-pos starting h = absurd h
      round_left-pos checking h = absurd h
      round_left-pos (ending b rest) h = absurd h
      round_left-pos (reporting_end b over rest) h = absurd h
      round_left-pos polling h = absurd h
      round_left-pos finished h = absurd h

      -- The queue was taken, or the round goes on and so many steps fewer are left.
      abbrev Goes : World → List Label → World → ℕ → Type 0
      Goes start trace w steps =
          Taken trace ⊎ (InRound w.main × (round_left w.main + steps ≤ round_left start.main))

      Goes-main :
          (start w : World) (trace : List Label) (steps : ℕ)
          → Goes start trace w steps
          → Goes start (trace ++ (main_step clock stat w).0) (main_step clock stat w).1 (suc steps)
      Goes-main start w trace steps (inl h) = inl (Taken-append _ h)
      Goes-main start w trace steps (inr (inside, left)) =
          let pos = round_left-pos w.main inside in
          elim (main-Closer (round_left w.main - 1) w.main w inside (omega arith)) [
            | inl h ↦ inl (Taken-after trace h)
            | inr near ↦ inr (near.inside, omega (arith, near.few, left, pos))
          ]

      Run-Goes :
          {start w : World} {trace : List Label}
          → InRound start.main
          → (run : Run clock stat start trace w) → Goes start trace w (mains run)
      Run-Goes inside here = inr (inside, omega arith)
      Run-Goes {start} inside (by_control {trace} {w} run) = elim (Run-Goes inside run) [
        | inl h ↦ inl (Taken-append _ h)
        | inr go ↦ inr (rw (control_step_main clock stat w.control w) go)
      ]
      Run-Goes {start} inside (by_main {trace} {w} run) =
          Goes-main start w trace (mains run) (Run-Goes inside run)
      Run-Goes inside (by_kernel bytes run) = elim (Run-Goes inside run) [
        | inl h ↦ inl (Taken-append _ h)
        | inr go ↦ inr go
      ]

      -- Once a round has begun, the queue of end marks is taken within `round_left` steps of the main
      -- thread, two for each record that the batch has room for and at most three more, whatever
      -- the kernel and the control thread do meanwhile.
      pub Run-Taken :
          (start : World) {w : World} {trace : List Label} (run : Run clock stat start trace w)
          → InRound start.main
          → round_left start.main ≤ mains run
          → Taken trace
      Run-Taken start {w} run inside enough = elim (Run-Goes inside run) [
        | inl h ↦ h
        | inr (still, left) ↦
            let pos = round_left-pos w.main still in absurd (omega (arith, left, enough, pos))
      ]
