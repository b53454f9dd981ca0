-- ===== src/Kernel/Report.antt =====
-- From a system call to the line that the loader writes about it: the record goes through the ring, and
-- the main thread takes it out, looks at it and writes its event.
use mcpfz_probe.Kernel.Sound.{process_id}
use mcpfz_probe.Base.{
  ℕ, ◌+◌, ◌^◌, ◌%◌, ◌<◌, ◌≤◌, ◌≡◌, refl, sym, ap, ◌∙◌, String, Bool, true, false, ◌⊎◌, inl, inr,
  Option, none, some, List, [], ◌∷◌, ◌++◌, length, ltb, lt→ltb, arith, str_eq, if◌then◌else◌,
  Bool-cases,
}
use mathlib.Core.Path.{subst}
use mcpfz_probe.Base.Int.{ℤ}
use mcpfz_probe.Io.{Write}
use mcpfz_probe.Json.{Json, IsLawful, or_value}
use mcpfz_probe.ProcStat.{process_pgid}
use mcpfz_probe.Events.{le_value, field}
use mcpfz_probe.Decode.{decode}
use mcpfz_probe.Decode.Objects.{Says, Fresh, Gives, Says-insert}
use mcpfz_probe.LoaderState.{
  World, State, Batch, MainPoint, draining, emitting, attributed, bucket_of, cached, same_pgid,
  drain_batch, with_time, write_line, with_call,
}
use mcpfz_probe.Loader.{main_step, drain, in_scope, in_group, group}
use mcpfz_probe.Kernel.{Context, Ring}
use mcpfz_probe.Kernel.Capture.{Captured}

module _ ⦃J : Json⦄ where
  -- What the loader adds to an object, by the state that it finds.
  abbrev pub call_part : Option String → List (String × J.Value)
  call_part none = []
  call_part (some call) = ("call_id", J.string call) ∷ []

  abbrev pub event_says :
      State → (process ts : ℕ) → List (String × J.Value) → List (String × J.Value)
  event_says s process ts fields =
      ("ts_ns", J.unsigned (ts % 2 ^ 64))
      ∷ ("pid", J.unsigned process)
      ∷ (call_part s.active_call ++ (("bucket", J.string (bucket_of s)) ∷ fields))

  -- The names that the loader adds do not stand in the object already.
  abbrev pub Unused : List (String × J.Value) → Type 0
  Unused fields =
      Fresh "bucket" fields × Fresh "call_id" fields × Fresh "pid" fields × Fresh "ts_ns" fields

  module _ ⦃L : IsLawful⦄ where
    with_call-Says :
        (call : Option String) (o : J.Map) (v : J.Value) (fields : List (String × J.Value))
        → Unused fields
        → Says o fields
        → Says (with_call call (J.insert o "bucket" v)) (call_part call ++ (("bucket", v) ∷ fields))
    with_call-Says none o v fields unused says = Says-insert unused.0 says
    with_call-Says (some c) o v fields unused says =
        Says-insert (refl, unused.1) (Says-insert unused.0 says)

    Fresh-call_part :
        (call : Option String) (k : String) (v : J.Value) (fields : List (String × J.Value))
        → str_eq k "call_id" ≡ false
        → str_eq k "bucket" ≡ false
        → Fresh k fields
        → Fresh k (call_part call ++ (("bucket", v) ∷ fields))
    Fresh-call_part none k v fields other not_bucket fresh = (not_bucket, fresh)
    Fresh-call_part (some c) k v fields other not_bucket fresh = (other, (not_bucket, fresh))

    decoded_object :
        (found : Option J.Map) (fields : List (String × J.Value))
        → Gives found fields
        → (o : J.Map) × (found ≡ some o) × Says o fields
    decoded_object none fields h = absurd h
    decoded_object (some o) fields h = (o, refl, h)

    event-Says :
        (s : State) (process ts : ℕ) (o : J.Map) (fields : List (String × J.Value))
        → Unused fields
        → Says o fields
        → Says (with_time ts (attributed s process o)) (event_says s process ts fields)
    unfolding attributed
    event-Says s process ts o fields unused says =
        Says-insert (refl, Fresh-call_part s.active_call "ts_ns" _ fields refl refl unused.3)
          (Says-insert (Fresh-call_part s.active_call "pid" _ fields refl refl unused.2)
            (with_call-Says s.active_call o _ fields unused says))

if-true : {A : Type 0} (t : Bool) (x y : A) → t ≡ true → (if t then x else y) ≡ x
if-true true x y e = refl
if-true false x y e = cc

if-false : {A : Type 0} (t : Bool) (x y : A) → t ≡ false → (if t then x else y) ≡ y
if-false false x y e = refl
if-false true x y e = cc

module _ ⦃W : Write⦄ ⦃J : Json⦄ (clock : ℕ → ℕ) (stat : ℕ → ℕ → Option String) where
  -- No scope is set, or the process is found in the group of the scope.
  abbrev pub InScope : World → Batch → (process : ℕ) → Type 0
  InScope w b process =
      (w.state.scoped ≡ false)
      ⊎ (same_pgid
            (or_value (cached process b.pgid_cache) (process_pgid (stat w.stat_reads) process))
            w.state.scope_pgid
          ≡ true)

  -- The main thread is about to write an event, and has written nothing yet.
  record Writes (w : World) (o : J.Map) (x : World) : Type 0 where
    batch : Batch
    main : x.main ≡ emitting batch o
    out : x.out ≡ w.out
    now : x.now_reads ≡ w.now_reads

  in_group-Writes :
      (w : World) (found : Option (Option ℤ)) (process : ℕ) (o : J.Map) (b : Batch)
      → same_pgid (or_value found (process_pgid (stat w.stat_reads) process)) w.state.scope_pgid
        ≡ true
      → Writes w
          (attributed w.state process o)
          (in_group clock stat w.state process (some o) (group clock stat found process b w))
  in_group-Writes w (some g) process o b same =
      rw same (record { batch = b; main = refl; out = refl; now = refl })
  in_group-Writes w none process o b same =
      rw same (record { batch = _; main = refl; out = refl; now = refl })

  in_scope-Writes :
      (w : World) (process : ℕ) (o : J.Map) (b : Batch)
      → InScope w b process
      → Writes w (attributed w.state process o) (in_scope clock stat w.state process (some o) b w)
  in_scope-Writes w process o b (inl unscoped) =
      subst (λ x. Writes w (attributed w.state process o) x)
        (sym (if-false w.state.scoped _ _ unscoped))
        (record { batch = b; main = refl; out = refl; now = refl })
  in_scope-Writes w process o b (inr same) = elim (Bool-cases w.state.scoped) [
    | inl scoped ↦
        subst (λ x. Writes w (attributed w.state process o) x)
          (sym (if-true w.state.scoped _ _ scoped))
          (in_group-Writes w (cached process b.pgid_cache) process o b same)
    | inr unscoped ↦
        subst (λ x. Writes w (attributed w.state process o) x)
          (sym (if-false w.state.scoped _ _ unscoped))
          (record { batch = b; main = refl; out = refl; now = refl })
  ]

  -- The main thread takes a record out of the ring, and goes on to its event.
  abbrev at_ring : World → Batch → Ring → World
  at_ring w b ring = record w { main = draining b; ring = ring }

  look-Writes :
      (w : World) (b : Batch) (bytes : List ℕ) (rest : Ring) (process : ℕ) (o : J.Map)
      → b.drained < drain_batch
      → 8 ≤ length bytes
      → le_value (field 4 4 bytes) ≡ process
      → decode (le_value (field 0 4 bytes)) bytes ≡ some o
      → InScope w b process
      → Writes w
          (attributed w.state process o)
          (drain clock stat (bytes ∷ rest) b (at_ring w b (bytes ∷ rest))).1
  look-Writes w b bytes rest process o room long runs found inside =
      let fits : ltb (length bytes) 8 ≡ false = ground (arith, long) in
      let x =
        in_scope-Writes (at_ring w b rest) process o (record b { drained = b.drained + 1 })
          inside in
      rw (lt→ltb b.drained drain_batch room, fits, runs, found)
        (record { batch = x.batch; main = x.main; out = x.out; now = x.now })

  drain_step :
      (w : World) (b : Batch) (ring : Ring)
      → (main_step clock stat (at_ring w b ring)).1 ≡ (drain clock stat ring b (at_ring w b ring)).1
  unfolding main_step
  drain_step w b ring = refl

  -- The event is written.
  emit_step :
      (m : MainPoint) (x : World) (b : Batch) (o : J.Map)
      → m ≡ emitting b o
      → (main_step clock stat (record x { main = m })).1.out
        ≡ write_line (with_time (clock x.now_reads) o) x.out
  unfolding main_step
  emit_step m x b o e = ap (λ m'. (main_step clock stat (record x { main = m' })).1.out) e

  module _ ⦃L : IsLawful⦄ where
    -- With a lawful JSON library: where a program of the kernel captured a system call into an empty
    -- ring, whatever records have come after it, the batch has room and the process is in scope, the
    -- next two steps of the main thread write one line about it. The object of the line says what the call was, which process made
    -- it, when it is written, and the bucket and the call that are active.
    pub Captured-Says :
        (ctx : Context) (w : World) (b : Batch) (p : ℕ × Ring) (more : Ring)
        (fields : List (String × J.Value))
        → Unused fields
        → Captured ctx [] p fields
        → b.drained < drain_batch
        → InScope w b (process_id ctx)
        → (o : J.Map) × Says o (event_says w.state (process_id ctx) (clock w.now_reads) fields)
          × ((main_step clock stat (main_step clock stat (at_ring w b (p.1 ++ more))).1).1.out
              ≡ write_line o w.out)
    Captured-Says ctx w b p more fields unused (bytes, added, long, runs, gives) room inside =
        let (o, found, says) =
          decoded_object (decode (le_value (field 0 4 bytes)) bytes) fields gives in
        let x = look-Writes w b bytes more (process_id ctx) o room long runs found inside in
        let after = (drain clock stat (bytes ∷ more) b (at_ring w b (bytes ∷ more))).1 in
        (
          with_time (clock w.now_reads) (attributed w.state (process_id ctx) o),
          event-Says w.state (process_id ctx) (clock w.now_reads) o fields unused says,
          ap (λ r. (main_step clock stat (main_step clock stat (at_ring w b (r ++ more))).1).1.out)
                added
              ∙ ap (λ y. (main_step clock stat y).1.out) (drain_step w b (bytes ∷ more))
              ∙ emit_step after.main after x.batch (attributed w.state (process_id ctx) o) x.main
              ∙ (λ i.
                  write_line (with_time (clock (x.now i)) (attributed w.state (process_id ctx) o))
                    (x.out i)),
        )
