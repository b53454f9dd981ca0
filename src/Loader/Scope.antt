-- ===== src/Loader/Scope.antt =====
-- The scope filter of the loader and its cache of process groups.
use mcpfz_probe.Base.{
  ℕ, ◌+◌, String, ◌≡◌, refl, Bool, true, false, Bool-cases, inl, inr, Option, none, some, List, [],
  ◌∷◌, ltb, length, str_eq, ◌==◌, ==_iff, All, if◌then◌else◌, sym,
}
use mathlib.Core.Option
use mathlib.Core.Path.{subst}
use mcpfz_probe.Base.Int.{ℤ}
use mcpfz_probe.Base.Text.{trim, is_empty}
use mcpfz_probe.Io.{Result, ok, err, Write}
use mcpfz_probe.Json.{Json}
use mcpfz_probe.Script.{Control, scope, mark, shutdown, Reader}
use mcpfz_probe.Events.{le_value, field}
use mcpfz_probe.ProcStat.{process_pgid}
use mcpfz_probe.Decode.{decode}
use mcpfz_probe.LoaderState.{
  World, State, Batch, Label, MainPoint, starting, checking, draining, emitting, taking, ending,
  reporting_end, polling, finished, ControlPoint, reading, reporting, stopped, cached, same_pgid,
  drain_batch,
}
use mcpfz_probe.Loader.{
  update, on_message, on_line, control_step, group, decoded, in_group, in_scope, drain, main_step,
}
use mcpfz_probe.Loader.Run.{started, Run, here, by_control, by_main, by_kernel}

-- The file of the process named this group at some moment.
abbrev pub WasIn : (stat : ℕ → ℕ → Option String) → ℕ → Option ℤ → Type 0
WasIn stat pid g = (moment : ℕ) × (process_pgid (stat moment) pid ≡ g)

module _ (stat : ℕ → ℕ → Option String) where
  abbrev Sound : List (ℕ × Option ℤ) → Type 0
  Sound = All (λ entry. WasIn stat entry.0 entry.1)

  cached-Sound :
      (pid : ℕ) (cache : List (ℕ × Option ℤ)) {g : Option ℤ}
      → Sound cache
      → cached pid cache ≡ some g
      → WasIn stat pid g
  cached-Sound pid [] h e = cc
  cached-Sound pid ((p, g') ∷ rest) {g} (was, h) e = elim (Bool-cases (p == pid)) [
    | inl same ↦
        let eq : p ≡ pid = (==_iff p pid).0 same in
        let eq' : g' ≡ g = Option.some_inj.0 (rw same at e) in rw (← eq, ← eq') was
    | inr other ↦ cached-Sound pid rest h (rw other at e)
  ]

module _ ⦃W : Write⦄ ⦃J : Json⦄ (clock : ℕ → ℕ) (stat : ℕ → ℕ → Option String) where
  abbrev SoundAt : MainPoint → Type 0
  SoundAt (draining b) = Sound stat b.pgid_cache
  SoundAt (emitting b o) = Sound stat b.pgid_cache
  SoundAt _ = Unit {0}

  -- What the steps that look at a record keep and promise: the cache stays sound, and an event is
  -- written only if its process was found in the group of the scope.
  record Filtered (s : State) (pid : ℕ) (w : World) : Type 0 where
    sound : SoundAt w.main
    member :
        {b : Batch} {o : J.Map}
        → w.main ≡ emitting b o
        → (g : Option ℤ) × (WasIn stat pid g × (same_pgid g s.scope_pgid ≡ true))

  decoded-SoundAt :
      (s : State) (pid : ℕ) (o : Option J.Map) (b : Batch) (w : World)
      → Sound stat b.pgid_cache
      → SoundAt (decoded clock stat s pid o b w).main
  decoded-SoundAt s pid none b w h = h
  decoded-SoundAt s pid (some o) b w h = h

  in_group-Filtered :
      (s : State) (pid : ℕ) (o : Option J.Map) (g : Option ℤ) (b : Batch) (w : World)
      → Sound stat b.pgid_cache
      → WasIn stat pid g
      → Filtered s pid (in_group clock stat s pid o (g, (b, w)))
  in_group-Filtered s pid o g b w h was = elim (Bool-cases (same_pgid g s.scope_pgid)) [
    | inl same ↦
        rw same (record { sound = decoded-SoundAt s pid o b w h; member = λ e. (g, (was, same)) })
    | inr other ↦ rw other (record { sound = h; member = λ e. cc })
  ]

  group-Filtered :
      (found : Option (Option ℤ)) (s : State) (pid : ℕ) (o : Option J.Map) (b : Batch) (w : World)
      → cached pid b.pgid_cache ≡ found
      → Sound stat b.pgid_cache
      → Filtered s pid (in_group clock stat s pid o (group clock stat found pid b w))
  group-Filtered (some g) s pid o b w e h =
      in_group-Filtered s pid o g b w h (cached-Sound stat pid b.pgid_cache h e)
  group-Filtered none s pid o b w e h =
      let was : WasIn stat pid (process_pgid (stat w.stat_reads) pid) = (w.stat_reads, refl) in
      in_group-Filtered s pid o (process_pgid (stat w.stat_reads) pid) _ _ (was, h) was

  if_true : (t : Bool) (x y : World) → t ≡ true → (if t then x else y) ≡ x
  if_true true x y e = refl
  if_true false x y e = cc

  SoundAt-if :
      (t : Bool) (x y : World) → SoundAt x.main → SoundAt y.main → SoundAt (if t then x else y).main
  SoundAt-if true x y hx hy = hx
  SoundAt-if false x y hx hy = hy

  in_scope-Filtered :
      (s : State) (pid : ℕ) (o : Option J.Map) (b : Batch) (w : World)
      → Sound stat b.pgid_cache
      → s.scoped ≡ true
      → Filtered s pid (in_scope clock stat s pid o b w)
  in_scope-Filtered s pid o b w h scoped =
      subst (λ x. Filtered s pid x) (sym (if_true s.scoped _ _ scoped))
        (group-Filtered (cached pid b.pgid_cache) s pid o b w refl h)

  in_scope-SoundAt :
      (s : State) (pid : ℕ) (o : Option J.Map) (b : Batch) (w : World)
      → Sound stat b.pgid_cache
      → SoundAt (in_scope clock stat s pid o b w).main
  in_scope-SoundAt s pid o b w h =
      SoundAt-if s.scoped _ _ (group-Filtered (cached pid b.pgid_cache) s pid o b w refl h).sound
        (decoded-SoundAt s pid o b w h)

  drain-SoundAt :
      (ring : List (List ℕ)) (b : Batch) (w : World)
      → Sound stat b.pgid_cache
      → w.main ≡ draining b
      → SoundAt (drain clock stat ring b w).1.main
  drain-SoundAt [] b w h e = elim (Bool-cases (ltb b.drained drain_batch)) [
    | inl room ↦ rw room tt
    | inr full ↦ rw full tt
  ]
  drain-SoundAt (bytes ∷ rest) b w h e = elim (Bool-cases (ltb b.drained drain_batch)) [
    | inl room ↦ elim (Bool-cases (ltb (length bytes) 8)) [
      | inl short ↦ rw (room, short) h
      | inr long ↦
          rw (room, long)
            (in_scope-SoundAt w.state (le_value (field 4 4 bytes))
              (decode (le_value (field 0 4 bytes)) bytes) (record b { drained = b.drained + 1 })
              (record w { ring = rest }) h)
    ]
    | inr full ↦ rw full tt
  ]

  -- A world whose main thread is about to take a record.
  abbrev pub at_record : World → Batch → List ℕ → List (List ℕ) → World
  at_record w b bytes rest = record w { main = draining b; ring = bytes ∷ rest }

  drain-member :
      (bytes : List ℕ) (rest : List (List ℕ)) (b : Batch) (w : World) {b' : Batch} {o : J.Map}
      → Sound stat b.pgid_cache
      → w.state.scoped ≡ true
      → (drain clock stat (bytes ∷ rest) b w).1.main ≡ emitting b' o
      → (g : Option ℤ) × (WasIn stat (le_value (field 4 4 bytes)) g
          × (same_pgid g w.state.scope_pgid ≡ true))
  drain-member bytes rest b w h scoped e = elim (Bool-cases (ltb b.drained drain_batch)) [
    | inl room ↦ elim (Bool-cases (ltb (length bytes) 8)) [
      | inl short ↦ absurd (cc (rw (room, short) at e))
      | inr long ↦
          (in_scope-Filtered w.state (le_value (field 4 4 bytes))
              (decode (le_value (field 0 4 bytes)) bytes) (record b { drained = b.drained + 1 })
              (record w { ring = rest }) h scoped).member
            (rw (room, long) at e)
    ]
    | inr full ↦ absurd (cc (rw full at e))
  ]

  main-SoundAt :
      (m : MainPoint) (w : World)
      → SoundAt m
      → SoundAt (main_step clock stat (record w { main = m })).1.main
  unfolding main_step
  main-SoundAt starting w h = tt
  main-SoundAt checking w h = elim (Bool-cases w.shutdown) [
    | inl over ↦ rw over tt
    | inr on ↦ rw on tt
  ]
  main-SoundAt (draining b) w h = drain-SoundAt w.ring b (record w { main = draining b }) h refl
  main-SoundAt (emitting b o) w h = h
  main-SoundAt (taking b) w h = tt
  main-SoundAt (ending b []) w h = elim (Bool-cases (ltb b.drained drain_batch)) [
    | inl idle ↦ rw idle tt
    | inr full ↦ rw full tt
  ]
  main-SoundAt (ending b (call ∷ rest)) w h = tt
  main-SoundAt (reporting_end b over rest) w h = tt
  main-SoundAt polling w h = tt
  main-SoundAt finished w h = tt

  update_main : (message : Control) (w : World) → (update clock stat message w).1.main ≡ w.main
  update_main (scope pgid generation) w = refl
  update_main (mark phase call tool) w = elim (Bool-cases (str_eq phase "begin")) [
    | inl is_begin ↦ rw is_begin refl
    | inr not_begin ↦ elim (Bool-cases (str_eq phase "end")) [
      | inl is_end ↦ rw (not_begin, is_end) refl
      | inr not_end ↦ rw (not_begin, not_end) refl
    ]
  ]
  update_main shutdown w = refl

  module _ ⦃R : Reader⦄ where
    on_message_main :
        (message : Result Control R.ParseError) (w : World)
        → (on_message clock stat message w).1.main ≡ w.main
    on_message_main (ok message) w = update_main message w
    on_message_main (err e) w = refl

    on_line_main :
        (lines : List (Result String W.Error)) (w : World)
        → (on_line clock stat lines w).1.main ≡ w.main
    on_line_main [] w = refl
    on_line_main (err e ∷ rest) w = refl
    on_line_main (ok line ∷ rest) w = elim (Bool-cases (is_empty (trim line))) [
      | inl blank ↦ rw blank refl
      | inr full ↦
          rw full (on_message_main (R.control_from_str (trim line)) (record w { lines = rest }))
    ]

    pub control_step_main :
        (c : ControlPoint) (w : World)
        → (control_step clock stat (record w { control = c })).1.main ≡ w.main
    unfolding control_step
    control_step_main reading w = on_line_main w.lines (record w { control = reading })
    control_step_main (reporting message) w = refl
    control_step_main stopped w = refl

    module _ (lines : List (Result String W.Error)) (out : W.State) where
      Run-SoundAt :
          {trace : List Label} {w : World}
          → Run clock stat (started lines out) trace w
          → SoundAt w.main
      Run-SoundAt here = tt
      Run-SoundAt (by_control {w} run) = rw (control_step_main w.control w) (Run-SoundAt run)
      Run-SoundAt (by_main {w} run) = main-SoundAt w.main w (Run-SoundAt run)
      Run-SoundAt (by_kernel bytes run) = Run-SoundAt run

      -- In every run, while a scope is set, an event comes only of a record whose process was found in
      -- the group of the scope, in a file that was read at some moment.
      pub Run-WasIn :
          {trace : List Label} (w : World) (b : Batch) (bytes : List ℕ) (rest : List (List ℕ))
          {b' : Batch} {o : J.Map}
          → Run clock stat (started lines out) trace (at_record w b bytes rest)
          → w.state.scoped ≡ true
          → (main_step clock stat (at_record w b bytes rest)).1.main ≡ emitting b' o
          → (g : Option ℤ) × (WasIn stat (le_value (field 4 4 bytes)) g
              × (same_pgid g w.state.scope_pgid ≡ true))
      unfolding main_step
      Run-WasIn w b bytes rest run scoped emits =
          drain-member bytes rest b (at_record w b bytes rest) (Run-SoundAt run) scoped emits
