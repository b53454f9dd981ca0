-- ===== src/Fake/Refinement.antt =====
-- The fake backend writes its transcript, whatever the writer does.
use mcpfz_probe.Base.{
  ℕ, arith, ◌≡◌, ap, String, Bool, true, false, Option, none, map, List, [], ◌∷◌, ◌++◌,
}
use mcpfz_probe.Base.{or_else, str_eq, Bool-cases, inl, inr, if◌then◌else◌}
use mcpfz_probe.Base.Text.{trim, is_empty}
use mcpfz_probe.Io.{Result, ok, err, Write}
use mcpfz_probe.Exec.{pure, ◌>>=◌, ◌>>◌}
use mcpfz_probe.Json.{Json}
use mcpfz_probe.Script.{Control, scope, mark, shutdown, Reader}
use mcpfz_probe.Fake
use mcpfz_probe.Fake.{FakeBackend, Session, Action}
use mcpfz_probe.Fake.Writes.{Progress, write_lines, Agrees}
use mcpfz_probe.Fake.Spec.{
  Event, Input, events_of, window_after, fired, status, parsed, input_of, parse_error, replies,
  last_window, answer, ready, stamp,
}
use mcpfz_probe.Fake.Emits.{Emits, window}
use mcpfz_probe.Fake.Emits.{
  Emits-emit, Emits-pure, Emits-then, Emits-then_pure, Emits-bind, Emits-gets, Emits-set_active,
  Emits-emit_all,
}

module _ ⦃J : Json⦄ ⦃W : Write⦄ where
  Emits-fire :
      (trigger : String) (tool : Option String) (bucket : String) (call_id : Option String)
      (b : FakeBackend)
      → Emits
          (Fake.fire trigger tool bucket call_id)
          b
          (fired b.script trigger tool bucket call_id)
          (window b)
          (ok tt)
  unfolding Fake.fire
  Emits-fire trigger tool bucket call_id b =
      Emits-gets (λ b'. b'.script)
        (λ entries. Fake.emit_all (Fake.matches entries trigger tool) bucket call_id)
        (Emits-emit_all _ bucket call_id b)

  Emits-on_begin :
      (call_id tool : Option String) (b : FakeBackend)
      → Emits
          (Fake.on_begin call_id tool)
          b
          (record { obj = status "begin"; bucket = "call"; call_id = call_id }
            ∷ fired b.script "begin" tool "call" call_id)
          (record { call = call_id; tool = tool })
          (ok tt)
  unfolding Fake.on_begin Fake.emit_status
  Emits-on_begin call_id tool b =
      Emits-then _ _ (Emits-set_active call_id tool b)
        (Emits-then _ _ (Emits-emit _ _) (Emits-fire "begin" tool "call" call_id _))

  -- What `on_end` does once it has read the window of the backend.
  abbrev end_of : Option String → Option String → FakeBackend → Action (Unit {0})
  end_of call_id tool self = do
    let cid = or_else call_id self.active_call
    Fake.fire "end" (or_else tool self.active_tool) "call" cid
    Fake.emit_status "call" cid "end"
    Fake.set_active none none

  Emits-on_end :
      (call_id tool : Option String) (b : FakeBackend)
      → Emits
          (Fake.on_end call_id tool)
          b
          (fired b.script "end" (or_else tool b.active_tool) "call" (or_else call_id b.active_call)
            ++ (record {
              obj = status "end";
              bucket = "call";
              call_id = or_else call_id b.active_call;
            }
                ∷ []))
          (record { call = none; tool = none })
          (ok tt)
  unfolding Fake.on_end Fake.emit_status
  Emits-on_end call_id tool b =
      Emits-gets (λ b'. b') (end_of call_id tool)
        (Emits-then _ _ (Emits-fire "end" (or_else tool b.active_tool) "call" cid b)
          (Emits-then _ _ (Emits-emit _ _) (Emits-set_active none none _)))
    where
      cid : Option String
      cid = or_else call_id b.active_call

  Emits-on_mark :
      (phase : String) (call_id tool : Option String) (b : FakeBackend)
      → Emits
          (Fake.on_mark phase call_id tool)
          b
          (events_of b.script (window b) (mark phase call_id tool))
          (window_after b.script (window b) (mark phase call_id tool))
          (ok tt)
  unfolding Fake.on_mark
  Emits-on_mark phase call_id tool b = elim (Bool-cases (str_eq phase "begin")) [
    | inl begins ↦ rw begins (Emits-on_begin call_id tool b)
    | inr other ↦ elim (Bool-cases (str_eq phase "end")) [
      | inl ends ↦ rw (other, ends) (Emits-on_end call_id tool b)
      | inr unknown ↦ rw (other, unknown) (Emits-emit _ b)
    ]
  ]

  abbrev goes_on : Control → Bool
  goes_on shutdown = false
  goes_on _ = true

  pub Emits-apply :
      (c : Control) (b : FakeBackend)
      → Emits
          (Fake.apply c)
          b
          (events_of b.script (window b) c)
          (window_after b.script (window b) c)
          (ok (goes_on c))
  unfolding Fake.apply
  Emits-apply (scope pgid generation) b =
      Emits-then _ _ (Emits-emit _ b)
        (Emits-then_pure _ true (Emits-fire "scope" none "ambient" none _))
  Emits-apply (mark phase call_id tool) b =
      Emits-then_pure _ true (Emits-on_mark phase call_id tool b)
  Emits-apply shutdown b = Emits-pure false b

  module _ ⦃R : Reader⦄ where
    -- The run of the lines that follow, from any backend.
    abbrev Follows : Action (Unit {0}) → List Input → Type 0
    Follows n inputs =
        (b : FakeBackend)
        → Emits n b (replies b.script (window b) inputs) (last_window b.script (window b) inputs)
            (answer inputs)

    abbrev next : Action (Unit {0}) → Bool → Action (Unit {0})
    next n go_on = if go_on then n else pure tt

    Follows-respond :
        (r : Result Control R.ParseError) (n : Action (Unit {0})) (inputs : List Input)
        → Follows n inputs
        → Follows (Fake.respond r >>= next n) (parsed r ∷ inputs)
    unfolding Fake.respond
    Follows-respond (ok shutdown) n inputs ih b =
        Emits-bind _ (next n) (Emits-apply shutdown b) (Emits-pure tt _)
    Follows-respond (ok (scope pgid generation)) n inputs ih b =
        Emits-bind _ (next n) (Emits-apply (scope pgid generation) b) (ih _)
    Follows-respond (ok (mark phase call_id tool)) n inputs ih b =
        Emits-bind _ (next n) (Emits-apply (mark phase call_id tool) b) (ih _)
    Follows-respond (err e) n inputs ih b =
        Emits-bind _ (next n) (Emits-then_pure _ true (Emits-emit (parse_error e) b)) (ih _)

    Follows-handle_line :
        (text : String) (n : Action (Unit {0})) (inputs : List Input)
        → Follows n inputs
        → Follows (Fake.handle_line text >>= next n) (input_of (ok text) ∷ inputs)
    unfolding Fake.handle_line
    Follows-handle_line text n inputs ih b = elim (Bool-cases (is_empty (trim text))) [
      | inl empty ↦ rw empty (ih b)
      | inr full ↦ rw full (Follows-respond (R.control_from_str (trim text)) n inputs ih b)
    ]

    Follows-serve :
        (lines : List (Result String W.Error)) → Follows (Fake.serve lines) (map input_of lines)
    unfolding Fake.serve
    Follows-serve [] b = Emits-pure tt b
    Follows-serve (err e ∷ lines) b = record { writes = record { at = λ w. ground arith } }
    Follows-serve (ok text ∷ lines) b =
        Follows-handle_line text (Fake.serve lines) (map input_of lines) (Follows-serve lines) b

    -- The transcript of a run: the `ready` status, the startup events and the replies.
    abbrev pub transcript : FakeBackend → List Input → List Event
    transcript b inputs =
        (ready b.grace_ms ∷ fired b.script "startup" none "startup" none)
        ++ replies b.script (window b) inputs

    abbrev start_of : ℕ → Action (Unit {0})
    start_of grace =
        Fake.emit (ready grace).obj "startup" none >> Fake.fire "startup" none "startup" none

    Emits-on_start :
        (b : FakeBackend)
        → Emits Fake.on_start b
            (ready b.grace_ms ∷ fired b.script "startup" none "startup" none)
            (window b)
            (ok tt)
    unfolding Fake.on_start
    Emits-on_start b =
        Emits-gets (λ b'. b'.grace_ms) start_of
          (Emits-then _ _ (Emits-emit (ready b.grace_ms) b)
            (Emits-fire "startup" none "startup" none _))

    Emits-run :
        (lines : List (Result String W.Error)) (b : FakeBackend)
        → Emits
            (Fake.run lines)
            b
            (transcript b (map input_of lines))
            (last_window b.script (window b) (map input_of lines))
            (answer (map input_of lines))
    unfolding Fake.run
    Emits-run lines b = Emits-then _ _ (Emits-on_start b) (Follows-serve lines _)

    -- The outcome where the lines were written, and else the error of the writer.
    abbrev pub conclude :
        Result (Unit {0}) W.Error → Result (Unit {0}) W.Error → Result (Unit {0}) W.Error
    conclude (ok u) r = r
    conclude (err e) r = err e

    Agrees-conclude :
        (p : Result (Unit {0}) W.Error × Session) (q : Progress) (b : FakeBackend)
        (r : Result (Unit {0}) W.Error)
        → Agrees p q b r
        → (p.0 ≡ conclude q.0 r) × (p.1.out ≡ q.1)
    Agrees-conclude (r', s) (ok u, w) b r (e, e') = (e, ap (λ x. x.out) e')
    Agrees-conclude (r', s) (err e, w) b r h = h

    -- Whatever the writer does, a run is the writing of its transcript: it calls the writer with the
    -- lines of the transcript, each followed by a flush, up to the first error of the writer, and
    -- returns that error, or else the error of the input where a line could not be read.
    pub run-transcript :
        (b : FakeBackend) (w : W.State) (lines : List (Result String W.Error))
        → let after_run = Fake.run lines (record { backend = b; out = w }) in
          let written = write_lines (stamp b.clock b.reads (transcript b (map input_of lines))) w in
          (after_run.0 ≡ conclude written.0 (answer (map input_of lines)))
          × (after_run.1.out ≡ written.1)
    run-transcript b w lines = Agrees-conclude _ _ _ _ ((Emits-run lines b).writes.at w)
