-- ===== src/Tests/FakeTests.antt =====
-- crates/mcpfz-probe/src/fake.rs, lines 258 to 360: the tests of the fake backend, which the model
-- passes. A test that panics is false. The lines that a run writes are read again as JSON.
use mcpfz_probe.Base.{
  ℕ, ◌+◌, String, ◌<>◌, ◌≡◌, refl, Bool, true, false, not, ◌&&◌, Option, none, some, List, [], ◌∷◌,
  map, length, ◌==◌, str_eq, and_then, is_some, if◌then◌else◌,
}
use Prim.Native.Char.{code}
use Prim.Native.String.{[] as ε, ◌∷◌ as ◌▹◌}
use mcpfz_probe.Base.Digits.{print, parse_u64}
use mcpfz_probe.Base.Text.{trim}
use mcpfz_probe.Io.{Result, ok, err}
use mcpfz_probe.Script.{ScriptEntry, parse_script}
use mcpfz_probe.Fake
use mcpfz_probe.Fake.{Session}
use mcpfz_probe.Tests.Samples.{Value, text, array, item, get, insert, show, sample_json, vec_writer}
use mcpfz_probe.Tests.JsonText.{read_json, lex_between}
use mcpfz_probe.Tests.Deserialize.{sample_reader, read_control, read_file, read_entries, field_of}

-- `BufRead::lines`
abbrev lines_onto : String → String → List String
lines_onto ε ε = []
lines_onto line ε = line ∷ []
lines_onto line (c ▹ s) = elim (code c == 10) [
  | true ↦ line ∷ lines_onto "" s
  | false ↦ lines_onto (line <> (c ▹ ε)) s
]

abbrev lines_of : String → List (Result String String)
lines_of s = map (λ l. ok l) (lines_onto "" s)

-- `serde_json::from_str(l).unwrap()` of each line.
abbrev values_in : List String → Option (List Value)
values_in [] = some []
values_in (l ∷ rest) = and_then (read_json l) (λ v. and_then (values_in rest) (λ vs. some (v ∷ vs)))

abbrev written : Result (Unit {0}) String × Session → Option (List Value)
written (ok u, s) = values_in s.out
written (err e, s) = none

abbrev drive_script : Result (List ScriptEntry) String → String → Option (List Value)
drive_script (ok entries) input = written (
    Fake.run (lines_of input) (record {
      backend = Fake.with_clock (Fake.new_backend (λ n. 0) entries 50) (λ counter. counter + 1);
      out = [];
    }))
drive_script (err e) input = none

unfoldable drive : (script input : String) → Option (List Value)
drive script input = drive_script (parse_script script) input

-- `e[k] == s`, for a text `s`.
abbrev equals : Option Value → String → Bool
equals (some (text t)) s = str_eq t s
equals _ s = false

abbrev says : Value → String → String → Bool
says e k s = equals (field_of e k) s

-- `e[k][0]`
abbrev first_of : Option Value → Option Value
first_of (some (array (item v l))) = some v
first_of _ = none

abbrev any_of : (Value → Bool) → List Value → Bool
any_of p [] = false
any_of p (v ∷ vs) = if p v then true else any_of p vs

abbrev find : (Value → Bool) → List Value → Option Value
find p [] = none
find p (v ∷ vs) = if p v then some v else find p vs

-- A panic is a test that fails.
abbrev on : {A : Type 0} → Option A → (A → Bool) → Bool
on none p = false
on (some a) p = p a

abbrev event_in : String → List Value → Option Value
event_in kind out = find (λ e. says e "type" kind) out

abbrev entries_are : ℕ → Result (List ScriptEntry) String → Bool
entries_are n (ok entries) = length entries == n
entries_are n (err e) = false

unfoldable parses_both_script_shapes : Bool
parses_both_script_shapes =
    entries_are 0 (parse_script "[]")
    && entries_are 0 (parse_script "{\"events\":[]}")
    && entries_are 1 (
        parse_script
          "[{\"trigger\":\"scope\",\"event\":{\"type\":\"connect\",\"dst\":\"1.2.3.4:53\"}}]")

parses_both_script_shapes_passes : parses_both_script_shapes ≡ true
unfolding parses_both_script_shapes parse_script read_file read_entries lex_between get
parses_both_script_shapes_passes = refl

unfoldable attributes_begin_events_to_active_call : Bool
unfolding drive
attributes_begin_events_to_active_call =
    on
      (drive
        "[\n            {\"trigger\":\"begin\",\"tool\":\"get_weather\",\"event\":{\"type\":\"exec\",\"argv\":[\"/bin/sh\",\"-c\",\"curl x\"]}}\n        ]"
        ("{\"op\":\"mark\",\"phase\":\"begin\",\"call_id\":\"c1\",\"tool\":\"get_weather\"}\n"
          <> "{\"op\":\"mark\",\"phase\":\"end\",\"call_id\":\"c1\"}\n"
          <> "{\"op\":\"shutdown\"}\n"))
      (λ out. on (event_in "exec" out) (λ exec.
        says exec "bucket" "call"
        && says exec "call_id" "c1"
        && equals (first_of (field_of exec "argv")) "/bin/sh"))

attributes_begin_events_to_active_call_passes : attributes_begin_events_to_active_call ≡ true
unfolding attributes_begin_events_to_active_call drive parse_script Fake.run Fake.new_backend
    Fake.with_clock read_json read_control read_file read_entries lex_between get insert show trim
    print parse_u64
attributes_begin_events_to_active_call_passes = refl

unfoldable tool_filter_excludes_other_tools : Bool
unfolding drive
tool_filter_excludes_other_tools =
    on
      (drive
        "[\n            {\"trigger\":\"begin\",\"tool\":\"only_this\",\"event\":{\"type\":\"exec\",\"argv\":[\"/bin/sh\"]}}\n        ]"
        ("{\"op\":\"mark\",\"phase\":\"begin\",\"call_id\":\"c1\",\"tool\":\"other\"}\n"
          <> "{\"op\":\"shutdown\"}\n"))
      (λ out. not (any_of (λ e. says e "type" "exec") out))

tool_filter_excludes_other_tools_passes : tool_filter_excludes_other_tools ≡ true
unfolding tool_filter_excludes_other_tools drive parse_script Fake.run Fake.new_backend
    Fake.with_clock read_json read_control read_file read_entries lex_between get insert show trim
    print parse_u64
tool_filter_excludes_other_tools_passes = refl

unfoldable startup_and_scope_events_land_in_right_buckets : Bool
unfolding drive
startup_and_scope_events_land_in_right_buckets =
    on
      (drive
        "[\n            {\"trigger\":\"startup\",\"event\":{\"type\":\"exec\",\"argv\":[\"/init\"]}},\n            {\"trigger\":\"scope\",\"event\":{\"type\":\"connect\",\"dst\":\"10.0.0.1:53\"}}\n        ]"
        ("{\"op\":\"scope\",\"pgid\":42,\"generation\":1}\n" <> "{\"op\":\"shutdown\"}\n"))
      (λ out. on (event_in "exec" out) (λ exec. on (event_in "connect" out) (λ connect.
        says exec "bucket" "startup"
        && not (is_some (field_of exec "call_id"))
        && says connect "bucket" "ambient")))

startup_and_scope_events_land_in_right_buckets_passes :
    startup_and_scope_events_land_in_right_buckets ≡ true
unfolding startup_and_scope_events_land_in_right_buckets drive parse_script Fake.run
    Fake.new_backend Fake.with_clock read_json read_control read_file read_entries lex_between get
    insert show trim print parse_u64
startup_and_scope_events_land_in_right_buckets_passes = refl

unfoldable end_events_keep_call_id_as_grace_window : Bool
unfolding drive
end_events_keep_call_id_as_grace_window =
    on
      (drive
        "[\n            {\"trigger\":\"end\",\"event\":{\"type\":\"connect\",\"dst\":\"203.0.113.7:443\"}}\n        ]"
        ("{\"op\":\"mark\",\"phase\":\"begin\",\"call_id\":\"c9\",\"tool\":\"t\"}\n"
          <> "{\"op\":\"mark\",\"phase\":\"end\",\"call_id\":\"c9\"}\n"
          <> "{\"op\":\"shutdown\"}\n"))
      (λ out.
        on (event_in "connect" out)
          (λ connect. says connect "call_id" "c9" && says connect "bucket" "call"))

end_events_keep_call_id_as_grace_window_passes : end_events_keep_call_id_as_grace_window ≡ true
unfolding end_events_keep_call_id_as_grace_window drive parse_script Fake.run Fake.new_backend
    Fake.with_clock read_json read_control read_file read_entries lex_between get insert show trim
    print parse_u64
end_events_keep_call_id_as_grace_window_passes = refl

unfoldable malformed_control_line_reports_parse_error : Bool
unfolding drive
malformed_control_line_reports_parse_error =
    on (drive "[]" "not json\n{\"op\":\"shutdown\"}\n")
      (λ out. any_of (λ e. says e "type" "status" && says e "message" "parse_error") out)

malformed_control_line_reports_parse_error_passes :
    malformed_control_line_reports_parse_error ≡ true
unfolding malformed_control_line_reports_parse_error drive parse_script Fake.run Fake.new_backend
    Fake.with_clock read_json read_control read_file read_entries lex_between get insert show trim
    print parse_u64
malformed_control_line_reports_parse_error_passes = refl
