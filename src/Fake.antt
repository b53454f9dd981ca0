-- ===== src/Fake.antt =====
-- crates/mcpfz-probe/src/fake.rs, lines 69 to 256: the fake backend. A method of `FakeBackend` that
-- takes `out` is an action on a `Session`, the backend together with its writer.
pub mod Writes
pub mod Emits
pub mod Spec
pub mod Refinement
pub mod Objects
pub mod Grace
use mcpfz_probe.Base.{ℕ, suc, ◌%◌, ◌^◌, String, Bool, true, false, not, Option, none, some}
use mcpfz_probe.Base.{List, [], ◌∷◌, map, filter, str_eq, if◌then◌else◌, or_else}
use mcpfz_probe.Base.Int.{ℤ}
use mcpfz_probe.Base.Text.{trim, is_empty}
use mcpfz_probe.Io.{Result, ok, err, Write}
use mcpfz_probe.Exec.{Exec, pure, modify, gets, ◌>>=◌, ◌>>◌}
use mcpfz_probe.Json.{Json}
use mcpfz_probe.Script.{Control, scope, mark, shutdown, ScriptEntry, Reader}

module _ ⦃J : Json⦄ where
  -- `clock` is an `FnMut`: `clock n` is the answer to its call number `n`, `reads` counts the calls.
  pub record FakeBackend : Type 0 where
    pub script : List ScriptEntry
    pub active_call : Option String
    pub active_tool : Option String
    pub grace_ms : ℕ
    pub clock : ℕ → ℕ
    pub reads : ℕ

  -- `now_ns` is the clock of the process, `super::now_ns`.
  unfoldable pub new_backend : (now_ns : ℕ → ℕ) → List ScriptEntry → ℕ → FakeBackend
  new_backend now_ns entries grace = record {
    script = entries;
    active_call = none;
    active_tool = none;
    grace_ms = grace;
    clock = now_ns;
    reads = 0;
  }

  -- The tests put another clock in place; it has not been called yet.
  unfoldable pub with_clock : FakeBackend → (clock : ℕ → ℕ) → FakeBackend
  with_clock self clock = record self { clock = clock; reads = 0 }

  -- The filter on `e.tool` in `fire`.
  unfoldable pub accepts_tool : Option String → Option String → Bool
  accepts_tool (some want) (some have) = str_eq want have
  accepts_tool (some want) none = false
  accepts_tool none have = true

  -- The list `matches` of `fire`.
  unfoldable pub matches : List ScriptEntry → String → Option String → List J.Map
  unfolding accepts_tool
  matches entries trigger tool =
      map (λ (e : ScriptEntry). e.event)
        (filter (λ (e : ScriptEntry). accepts_tool e.tool tool)
          (filter (λ (e : ScriptEntry). str_eq e.trigger trigger) entries))

  abbrev pub with_call_id : J.Map → Option String → J.Map
  with_call_id obj none = obj
  with_call_id obj (some cid) = J.or_insert obj "call_id" (J.string cid)

  -- What `emit` makes of an object before it prints it; `ts as u64` keeps 64 bits.
  unfoldable pub stamped : J.Map → String → Option String → ℕ → J.Map
  stamped obj bucket call_id ts =
      J.insert (with_call_id (J.or_insert obj "bucket" (J.string bucket)) call_id) "ts_ns"
        (J.unsigned (ts % 2 ^ 64))

  module _ ⦃W : Write⦄ where
    pub record Session : Type 0 where
      pub backend : FakeBackend
      pub out : W.State

    abbrev pub Action : Type 0 → Type 0
    Action = Exec Session W.Error

    abbrev pub write_out : (W.State → Result (Unit {0}) W.Error × W.State) → Action (Unit {0})
    write_out f s = let (r, out') = f s.out in (r, record s { out = out' })

    now : Action ℕ
    now s = (
      ok (s.backend.clock s.backend.reads),
      record s { backend = record s.backend { reads = suc s.backend.reads } },
    )

    unfoldable pub emit : J.Map → String → Option String → Action (Unit {0})
    unfolding now stamped
    emit obj bucket call_id = if not (J.contains_key obj "type") then pure tt else do
      ts ← now
      write_out (W.writeln (J.render (J.object (stamped obj bucket call_id ts))))
      write_out W.flush

    unfoldable pub emit_status : String → Option String → String → Action (Unit {0})
    unfolding emit
    emit_status bucket call_id message =
        emit (J.insert (J.insert J.new "type" (J.string "status")) "message" (J.string message))
          bucket call_id

    -- The loop of `fire`, which leaves at the first error.
    unfoldable pub emit_all : List J.Map → String → Option String → Action (Unit {0})
    unfolding emit
    emit_all [] bucket call_id = pure tt
    emit_all (obj ∷ rest) bucket call_id =
        let more = emit_all rest bucket call_id in emit obj bucket call_id >> more

    unfoldable pub fire : String → Option String → String → Option String → Action (Unit {0})
    unfolding emit_all matches
    fire trigger tool bucket call_id = do
      entries ← gets (λ s. s.backend.script)
      emit_all (matches entries trigger tool) bucket call_id

    unfoldable pub on_start : Action (Unit {0})
    unfolding emit fire
    on_start = do
      grace ← gets (λ s. s.backend.grace_ms)
      let obj = J.insert (J.insert J.new "type" (J.string "status")) "message" (J.string "ready")
      let obj' = J.insert (J.insert obj "backend" (J.string "fake")) "grace_ms" (J.unsigned grace)
      emit obj' "startup" none
      fire "startup" none "startup" none

    abbrev set_active : Option String → Option String → Action (Unit {0})
    set_active call_id tool =
        modify (λ s. record s {
          backend = record s.backend { active_call = call_id; active_tool = tool };
        })

    on_begin : Option String → Option String → Action (Unit {0})
    unfolding emit_status fire
    on_begin call_id tool = do
      set_active call_id tool
      emit_status "call" call_id "begin"
      fire "begin" tool "call" call_id

    on_end : Option String → Option String → Action (Unit {0})
    unfolding emit_status fire
    on_end call_id tool = do
      self ← gets (λ s. s.backend)
      let cid = or_else call_id self.active_call
      fire "end" (or_else tool self.active_tool) "call" cid
      emit_status "call" cid "end"
      set_active none none

    abbrev phase_object : String → J.Map
    phase_object phase =
        J.insert
          (J.insert (J.insert J.new "type" (J.string "status")) "message"
            (J.string "unknown_phase"))
          "phase" (J.string phase)

    on_mark : String → Option String → Option String → Action (Unit {0})
    unfolding on_begin on_end emit
    on_mark phase call_id tool =
        if str_eq phase "begin"
        then on_begin call_id tool
        else if str_eq phase "end"
        then on_end call_id tool
        else emit (phase_object phase) "ambient" none

    abbrev scope_object : ℤ → ℤ → J.Map
    scope_object pgid generation =
        J.insert
          (J.insert
            (J.insert (J.insert J.new "type" (J.string "status")) "message" (J.string "scope"))
            "pgid" (J.signed pgid))
          "generation" (J.signed generation)

    -- The `match control` of `handle_line`: `true` to go on, `false` to stop the loop.
    unfoldable pub apply : Control → Action Bool
    unfolding on_mark emit fire
    apply (scope pgid generation) = do
      emit (scope_object pgid generation) "ambient" none
      fire "scope" none "ambient" none
      pure true
    apply (mark phase call_id tool) = do on_mark phase call_id tool; pure true
    apply shutdown = pure false

    module _ ⦃R : Reader⦄ where
      abbrev error_object : R.ParseError → J.Map
      error_object e =
          J.insert
            (J.insert (J.insert J.new "type" (J.string "status")) "message"
              (J.string "parse_error"))
            "error" (J.string (R.describe e))

      respond : Result Control R.ParseError → Action Bool
      unfolding apply
      respond (ok control) = apply control
      respond (err e) = do emit (error_object e) "ambient" none; pure true

      unfoldable pub handle_line : String → Action Bool
      unfolding respond trim
      handle_line line =
          if is_empty (trim line) then pure true else respond (R.control_from_str (trim line))

      -- The loop of `run` over `reader.lines()`; a line is a text or a read error.
      unfoldable pub serve : List (Result String W.Error) → Action (Unit {0})
      unfolding handle_line
      serve [] = pure tt
      serve (err e ∷ lines) = λ s. (err e, s)
      serve (ok line ∷ lines) =
          let rest = serve lines in do go_on ← handle_line line; if go_on then rest else pure tt

      unfoldable pub run : List (Result String W.Error) → Action (Unit {0})
      unfolding on_start serve
      run lines = do on_start; serve lines
