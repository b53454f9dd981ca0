-- ===== src/Script.antt =====
-- crates/mcpfz-probe/src/fake.rs, lines 16 to 67: the control messages and the event scripts.
-- Their `Deserialize` code is generated by serde, so reading one from text is a parameter.
use mcpfz_probe.Base.{String, Option, List}
use mcpfz_probe.Base.Int.{ℤ}
use mcpfz_probe.Io.{Result, ok, err}
use mcpfz_probe.Json.{Json}

pub data Control : Type 0 where
  scope : (pgid generation : ℤ) → Control
  mark : (phase : String) → (call_id tool : Option String) → Control
  shutdown : Control

module _ ⦃J : Json⦄ where
  pub record ScriptEntry : Type 0 where
    pub trigger : String
    pub tool : Option String
    pub event : J.Map

  pub record ScriptFile : Type 0 where
    pub events : List ScriptEntry

-- `serde_json::from_str` at the three types that the program reads, and the error's `Display`.
pub record Reader ⦃J : Json⦄ : Type 1 where
  pub ParseError : Type 0
  pub describe : ParseError → String
  pub control_from_str : String → Result Control ParseError
  pub script_file_from_str : String → Result ScriptFile ParseError
  pub entries_from_str : String → Result (List ScriptEntry) ParseError

module _ ⦃J : Json⦄ ⦃R : Reader⦄ where
  abbrev events_or :
      Result ScriptFile R.ParseError → String → Result (List ScriptEntry) R.ParseError
  events_or (ok file) text = ok file.events
  events_or (err e) text = R.entries_from_str text

  -- `{"events": [...]}` or a bare `[...]`.
  unfoldable pub parse_script : String → Result (List ScriptEntry) R.ParseError
  parse_script text = events_or (R.script_file_from_str text) text
