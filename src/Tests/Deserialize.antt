-- ===== src/Tests/Deserialize.antt =====
-- The `Deserialize` code of `Control` and of the event scripts, as a reader that looks up the names of
-- their fields in a JSON text.
use mcpfz_probe.Base.{String, Option, none, some, List, [], ◌∷◌, str_eq, and_then, if◌then◌else◌}
use mcpfz_probe.Base.Int.{ℤ, pos}
use mcpfz_probe.Base.Digits.{parse_u64}
use mcpfz_probe.Io.{Result, ok, err}
use mcpfz_probe.Script.{Control, scope, mark, shutdown, ScriptEntry, ScriptFile, Reader}
use mcpfz_probe.Tests.Samples.{
  Value, Values, Fields, null, text, number, array, object, none_left, item, get, sample_json,
}
use mcpfz_probe.Tests.JsonText.{read_json}

abbrev pub field_of : Value → String → Option Value
field_of (object m) k = get m k
field_of _ k = none

abbrev pub text_of : Value → Option String
text_of (text s) = some s
text_of _ = none

abbrev pub integer_of : Value → Option ℤ
integer_of (number s) = and_then (parse_u64 s) (λ n. some (pos n))
integer_of _ = none

-- A field of type `i64` under `#[serde(default)]`.
abbrev pub integer_or_zero : Option Value → Option ℤ
integer_or_zero none = some (pos 0)
integer_or_zero (some v) = integer_of v

-- A field of type `Option<String>` under `#[serde(default)]`: a missing name and a null are `None`.
abbrev pub optional_text : Option Value → Option (Option String)
optional_text none = some none
optional_text (some null) = some none
optional_text (some (text s)) = some (some s)
optional_text (some _) = none

abbrev pub control_named : String → Value → Option Control
control_named op v =
    if str_eq op "scope"
    then and_then (and_then (field_of v "pgid") integer_of) (λ pgid.
      and_then (integer_or_zero (field_of v "generation"))
        (λ generation. some (scope pgid generation)))
    else if str_eq op "mark"
    then and_then (and_then (field_of v "phase") text_of) (λ phase.
      and_then (optional_text (field_of v "call_id")) (λ call_id.
        and_then (optional_text (field_of v "tool")) (λ tool. some (mark phase call_id tool))))
    else if str_eq op "shutdown"
    then some shutdown
    else none

abbrev pub control_of : Value → Option Control
control_of v = and_then (and_then (field_of v "op") text_of) (λ op. control_named op v)

abbrev pub event_of : Value → Option Fields
event_of (object m) = some m
event_of _ = none

abbrev pub entry_of : Value → Option ScriptEntry
entry_of v = and_then (and_then (field_of v "trigger") text_of) (λ trigger.
    and_then (optional_text (field_of v "tool")) (λ tool.
      and_then (and_then (field_of v "event") event_of)
        (λ event. some (record { trigger = trigger; tool = tool; event = event }))))

abbrev pub entries_in : Values → Option (List ScriptEntry)
entries_in none_left = some []
entries_in (item v l) =
    and_then (entry_of v) (λ entry. and_then (entries_in l) (λ rest. some (entry ∷ rest)))

abbrev pub entries_of : Value → Option (List ScriptEntry)
entries_of (array l) = entries_in l
entries_of _ = none

abbrev pub events_or_none : Option Value → Option (List ScriptEntry)
events_or_none none = some []
events_or_none (some v) = entries_of v

abbrev pub file_of : Value → Option ScriptFile
file_of (object m) =
    and_then (events_or_none (field_of (object m) "events"))
      (λ entries. some (record { events = entries }))
file_of _ = none

abbrev pub or_refused : {A : Type 0} → Option A → Result A String
or_refused (some a) = ok a
or_refused none = err "expected value"

unfoldable pub read_control : String → Result Control String
unfolding read_json
read_control s = or_refused (and_then (read_json s) control_of)

unfoldable pub read_file : String → Result ScriptFile String
unfolding read_json
read_file s = or_refused (and_then (read_json s) file_of)

unfoldable pub read_entries : String → Result (List ScriptEntry) String
unfolding read_json
read_entries s = or_refused (and_then (read_json s) entries_of)

instance abbrev pub sample_reader : Reader
sample_reader = record {
  ParseError = String;
  describe = λ e. e;
  control_from_str = read_control;
  script_file_from_str = read_file;
  entries_from_str = read_entries;
}
