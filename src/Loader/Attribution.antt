-- ===== src/Loader/Attribution.antt =====
-- To which call the lines belong that the main thread writes.
use mcpfz_probe.Base.{
  ℕ, ◌+◌, String, ◌≡◌, refl, ap, ◌∙◌, ◌↔◌, true, Bool-cases, inl, inr, Option, none, some, List, [],
  ◌∷◌, length, ltb, is_some,
}
use mathlib.Core.Path.{subst}
use mathlib.Core.Option
use mcpfz_probe.Io.{Result, Write}
use mcpfz_probe.Json.{Json, IsLawful}
use mcpfz_probe.Script.{Reader}
use mcpfz_probe.Events.{le_value, field}
use mcpfz_probe.Decode.{decode}
use mcpfz_probe.LoaderState.{
  arrived, World, Label, MainPoint, starting, checking, draining, emitting, taking, ending,
  reporting_end, polling, finished, State, Batch, drain_batch, attributed, with_time, write_line,
  end_status, optional,
}
use mcpfz_probe.Loader.{control_step, main_step, drain}
use mcpfz_probe.Loader.Apart.{control-Apart}
use mcpfz_probe.Loader.Ends.{Run-active}
use mcpfz_probe.Loader.Looking.{in_scope-made}
use mcpfz_probe.Loader.Scope.{control_step_main}
use mcpfz_probe.Loader.Run.{started, Run, here, by_control, by_main, by_kernel}
use mcpfz_probe.Loader.Trace.{
  call_after, call_of_record, call_of_end, call_of_record-append, call_of_end-append,
}

module _ ⦃J : Json⦄ where
  -- The object is made of a decoded record, under a state with this active call.
  record Made (call : Option String) (o : J.Map) : Type 0 where
    state : State
    kind : ℕ
    pid : ℕ
    bytes : List ℕ
    fields : J.Map
    found : decode kind bytes ≡ some fields
    object : o ≡ attributed state pid fields
    under : state.active_call ≡ call

  -- Where the main thread is about to write, whose line it is: `l` is the call of the last record, `e`
  -- that of the last end mark.
  abbrev Origin : MainPoint → (l e : Option String) → Type 0
  Origin (emitting b o) l e = Made l o
  Origin (reporting_end b over rest) l e = over ≡ e
  Origin _ l e = Unit {0}

  -- A line names a call and stands in the bucket `call`, or it names none and stands in another.
  abbrev pub NamesCall : J.Map → Option String → Type 0
  NamesCall line call =
      (J.get line "call_id" ≡ Option.map J.string call)
      × ((bucket : String) × (J.get line "bucket" ≡ some (J.string bucket))
          × ((bucket ≡ "call") ↔ (is_some call ≡ true)))

module _ ⦃W : Write⦄ ⦃J : Json⦄ (clock : ℕ → ℕ) (stat : ℕ → ℕ → Option String) where
  abbrev Leads : World → (l e : Option String) → List Label × World → Type 0
  Leads w l e (labels, w') =
      Origin w'.main (call_of_record w.state.active_call l labels)
        (call_of_end w.state.active_call e labels)

  drain-Leads :
      (ring : List (List ℕ)) (b : Batch) (w : World) (l e : Option String)
      → Leads w l e (drain clock stat ring b w)
  drain-Leads [] b w l e = elim (Bool-cases (ltb b.drained drain_batch)) [
    | inl room ↦ rw room tt
    | inr full ↦ rw full tt
  ]
  drain-Leads (bytes ∷ rest) b w l e = elim (Bool-cases (ltb b.drained drain_batch)) [
    | inr full ↦ rw full tt
    | inl room ↦ elim (Bool-cases (ltb (length bytes) 8)) [
      | inl short ↦ rw (room, short) tt
      | inr long ↦
          rw (room, long)
            (in_scope-made clock stat (λ x. Origin x.main w.state.active_call e)
              (record b { drained = b.drained + 1 }) (record w { ring = rest }) w.state
              (le_value (field 4 4 bytes)) (decode (le_value (field 0 4 bytes)) bytes)
              (λ n cache. tt)
              (λ n cache o found. record {
                state = w.state;
                kind = _;
                pid = _;
                bytes = bytes;
                fields = o;
                found = found;
                object = refl;
                under = refl;
              }))
    ]
  ]

  main-Leads :
      (m : MainPoint) (w : World) (l e : Option String)
      → Leads w l e (main_step clock stat (record w { main = m }))
  unfolding main_step
  main-Leads starting w l e = tt
  main-Leads checking w l e = elim (Bool-cases w.shutdown) [
    | inl over ↦ rw over tt
    | inr on ↦ rw on tt
  ]
  main-Leads (draining b) w l e = drain-Leads w.ring b (record w { main = draining b }) l e
  main-Leads (emitting b o) w l e = tt
  main-Leads (taking b) w l e = tt
  main-Leads (ending b []) w l e = elim (Bool-cases (ltb b.drained drain_batch)) [
    | inl idle ↦ rw idle tt
    | inr full ↦ rw full tt
  ]
  main-Leads (ending b (call ∷ rest)) w l e = refl
  main-Leads (reporting_end b over rest) w l e = tt
  main-Leads polling w l e = tt
  main-Leads finished w l e = tt

  end_out :
      (m : MainPoint) (w : World) (b : Batch) (over : Option String) (rest : List (Option String))
      → m ≡ reporting_end b over rest
      → (main_step clock stat (record w { main = m })).1.out
        ≡ write_line (with_time (clock w.now_reads) (end_status over)) w.out
  unfolding main_step
  end_out m w b over rest e = ap (λ m'. (main_step clock stat (record w { main = m' })).1.out) e

  module _ ⦃R : Reader⦄ (lines : List (Result String W.Error)) (out : W.State) where
    Run-Origin :
        {trace : List Label} {w : World}
        → Run clock stat (started lines out) trace w
        → Origin w.main (call_of_record none none trace) (call_of_end none none trace)
    Run-Origin here = tt
    Run-Origin (by_control {trace} {w} run) =
        let a = control-Apart clock stat w.control w in
        let labels = (control_step clock stat w).0 in
        rw
          (
            control_step_main clock stat w.control w,
            call_of_record-append none none trace labels,
            call_of_end-append none none trace labels,
            (a.quiet (call_after none trace) (call_of_record none none trace)).0,
            (a.quiet (call_after none trace) (call_of_end none none trace)).1,
          )
          (Run-Origin run)
    Run-Origin (by_main {trace} {w} run) =
        let labels = (main_step clock stat w).0 in
        rw
          (
            call_of_record-append none none trace labels,
            call_of_end-append none none trace labels,
            ← Run-active clock stat lines out run,
          )
          (main-Leads w.main w (call_of_record none none trace) (call_of_end none none trace))
    Run-Origin (by_kernel {trace} bytes run) =
        rw
          (
            call_of_record-append none none trace (arrived bytes ∷ []),
            call_of_end-append none none trace (arrived bytes ∷ []),
          )
          (Run-Origin run)

    module _ ⦃L : IsLawful⦄ where
      end_status-says :
          (ts : ℕ) (over : Option String)
          → (J.get (with_time ts (end_status over)) "message" ≡ some (J.string "end"))
            × (J.get (with_time ts (end_status over)) "call_id" ≡ some (optional over))
      unfolding end_status
      end_status-says ts over = (simp (L.get-insert), simp (L.get-insert))

      -- With a lawful JSON library, in every interleaving of the threads and the kernel: the line that
      -- the main thread writes after it has applied an end mark is an end status that names the call
      -- that was active when the mark was applied, or the call of the mark where none was active.
      pub Run-ended :
          {trace : List Label} {w : World} (b : Batch) (over : Option String)
          (rest : List (Option String))
          → Run clock stat (started lines out) trace w
          → w.main ≡ reporting_end b over rest
          → (line : J.Map) × ((main_step clock stat w).1.out ≡ write_line line w.out)
            × (J.get line "message" ≡ some (J.string "end"))
            × (J.get line "call_id" ≡ some (optional (call_of_end none none trace)))
      Run-ended {trace} {w} b over rest run at =
          let same : over ≡ call_of_end none none trace =
            subst (λ m. Origin m (call_of_record none none trace) (call_of_end none none trace)) at
              (Run-Origin run) in
          let says = end_status-says (clock w.now_reads) over in
          (
            with_time (clock w.now_reads) (end_status over),
            end_out w.main w b over rest at,
            says.0,
            says.1 ∙ ap (λ c. some (optional c)) same,
          )
