-- ===== src/Fake/Spec.antt =====
-- The transcript of the fake backend, as a description of its own: the controls of the input decide
-- a list of events, the events with a `type` are numbered, and event number `n` carries the clock's
-- answer number `n`.
use mcpfz_probe.Base.{ℕ, suc, String, Bool, Option, none}
use mcpfz_probe.Base.{List, [], ◌∷◌, ◌++◌, map, filter, str_eq, if◌then◌else◌, or_else}
use mcpfz_probe.Base.Text.{trim, is_empty}
use mcpfz_probe.Io.{Result, ok, err, Write}
use mcpfz_probe.Json.{Json}
use mcpfz_probe.Script.{Control, scope, mark, shutdown, ScriptEntry, Reader}
use mcpfz_probe.Fake.{matches, stamped}

-- The call window: what the last `begin` mark opened, nothing after an `end` mark.
pub record Window : Type 0 where
  pub call : Option String
  pub tool : Option String

abbrev pub closed : Window
closed = record { call = none; tool = none }

module _ ⦃J : Json⦄ where
  -- An event before it is stamped, with the bucket and the call that it belongs to.
  pub record Event : Type 0 where
    pub obj : J.Map
    pub bucket : String
    pub call_id : Option String

  abbrev pub has_type : Event → Bool
  has_type e = J.contains_key e.obj "type"

  -- The line of an event that is stamped with `ts`.
  abbrev pub line : Event → ℕ → String
  line e ts = J.render (J.object (stamped e.obj e.bucket e.call_id ts))

  abbrev pub number : (ℕ → ℕ) → ℕ → List Event → List String
  number clock n [] = []
  number clock n (e ∷ es) = line e (clock n) ∷ number clock (suc n) es

  -- The lines of events, the first of which is stamped with the clock's answer number `n`.
  abbrev pub stamp : (ℕ → ℕ) → ℕ → List Event → List String
  stamp clock n es = number clock n (filter has_type es)

  abbrev pub status : String → J.Map
  status message = J.insert (J.insert J.new "type" (J.string "status")) "message" (J.string message)

  abbrev pub ready : ℕ → Event
  ready grace_ms = record {
    obj =
        J.insert (J.insert (status "ready") "backend" (J.string "fake")) "grace_ms"
          (J.unsigned grace_ms);
    bucket = "startup";
    call_id = none;
  }

  module _ (script : List ScriptEntry) where
    -- The script's events for a trigger.
    abbrev pub fired : String → Option String → String → Option String → List Event
    fired trigger tool bucket call_id =
        map (λ o. record { obj = o; bucket = bucket; call_id = call_id })
          (matches script trigger tool)

    abbrev pub window_after : Window → Control → Window
    window_after w (scope pgid generation) = w
    window_after w (mark phase call_id tool) =
        if str_eq phase "begin"
        then record { call = call_id; tool = tool }
        else if str_eq phase "end"
        then closed
        else w
    window_after w shutdown = w

    abbrev pub events_of : Window → Control → List Event
    events_of w (scope pgid generation) =
        record {
          obj =
              J.insert (J.insert (status "scope") "pgid" (J.signed pgid)) "generation"
                (J.signed generation);
          bucket = "ambient";
          call_id = none;
        }
        ∷ fired "scope" none "ambient" none
    events_of w (mark phase call_id tool) =
        if str_eq phase "begin"
        then record { obj = status "begin"; bucket = "call"; call_id = call_id }
          ∷ fired "begin" tool "call" call_id
        else if str_eq phase "end"
        then fired "end" (or_else tool w.tool) "call" (or_else call_id w.call)
          ++ (record { obj = status "end"; bucket = "call"; call_id = or_else call_id w.call } ∷ [])
        else record {
          obj = J.insert (status "unknown_phase") "phase" (J.string phase);
          bucket = "ambient";
          call_id = none;
        }
          ∷ []
    events_of w shutdown = []

module _ ⦃J : Json⦄ ⦃R : Reader⦄ where
  abbrev pub parse_error : R.ParseError → Event
  parse_error e = record {
    obj = J.insert (status "parse_error") "error" (J.string (R.describe e));
    bucket = "ambient";
    call_id = none;
  }

  module _ ⦃W : Write⦄ where
    -- What a line of the input says.
    pub data Input : Type 0 where
      unreadable : W.Error → Input
      blank : Input
      malformed : R.ParseError → Input
      control : Control → Input

    abbrev pub parsed : Result Control R.ParseError → Input
    parsed (ok c) = control c
    parsed (err e) = malformed e

    abbrev pub input_of : Result String W.Error → Input
    input_of (err e) = unreadable e
    input_of (ok text) =
        if is_empty (trim text) then blank else parsed (R.control_from_str (trim text))

    module _ (script : List ScriptEntry) where
      -- The events of an input, and what the run ends with: nothing after `shutdown` or a read error.
      abbrev pub replies : Window → List Input → List Event
      replies w [] = []
      replies w (unreadable e ∷ rest) = []
      replies w (blank ∷ rest) = replies w rest
      replies w (malformed e ∷ rest) = parse_error e ∷ replies w rest
      replies w (control shutdown ∷ rest) = []
      replies w (control c ∷ rest) = events_of script w c ++ replies (window_after script w c) rest

      abbrev pub last_window : Window → List Input → Window
      last_window w [] = w
      last_window w (unreadable e ∷ rest) = w
      last_window w (control shutdown ∷ rest) = w
      last_window w (control c ∷ rest) = last_window (window_after script w c) rest
      last_window w (_ ∷ rest) = last_window w rest

    -- What the run returns, if every line could be written.
    abbrev pub answer : List Input → Result (Unit {0}) W.Error
    answer [] = ok tt
    answer (unreadable e ∷ rest) = err e
    answer (control shutdown ∷ rest) = ok tt
    answer (_ ∷ rest) = answer rest
