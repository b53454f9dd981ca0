-- ===== src/Tests/FakeRuns.antt =====
-- The fake backend on small inputs.
use mcpfz_probe.Base.{◌+◌, String, ◌≡◌, refl, map}
use mcpfz_probe.Base.{List, [], ◌∷◌}
use mcpfz_probe.Base.Text.{trim}
use mcpfz_probe.Base.Digits.{print}
use mcpfz_probe.Io.{Result, ok}
use mcpfz_probe.Fake
use mcpfz_probe.Fake.{Session, FakeBackend}
use mcpfz_probe.Fake.Refinement.{run-transcript, transcript, conclude}
use mcpfz_probe.Base.{ℕ, none, some}
use mcpfz_probe.Script.{mark}
use mcpfz_probe.Fake.{stamped}
use mcpfz_probe.Fake.Spec as Spec
use mcpfz_probe.Fake.Spec.{line, ready}
use mcpfz_probe.Fake.Objects.{says, stamped-says}
use mcpfz_probe.Fake.Grace.{run-grace}
use mcpfz_probe.LoaderState.{with_time, control_status}
use mcpfz_probe.Fake.Writes.{write_lines}
use mcpfz_probe.Fake.Spec.{stamp, input_of, answer}
use mcpfz_probe.Tests.JsonText.{lex_between}
use mcpfz_probe.Tests.Deserialize.{sample_reader, read_control}
use mcpfz_probe.Tests.Samples.{
  get, insert, show, sample_json, vec_writer, at_end, text, sample_json-IsLawful,
}

abbrev ticking : FakeBackend
unfolding Fake.new_backend
ticking = Fake.new_backend (λ n. n + 1) (at_end ∷ []) 50

abbrev begin_line : String
begin_line = "{\"op\":\"mark\",\"phase\":\"begin\",\"call_id\":\"c9\",\"tool\":\"t\"}"

abbrev end_line : String
end_line = "  {\"op\":\"mark\",\"phase\":\"end\"} "

abbrev call_lines : List (Result String String)
call_lines =
    ok begin_line
    ∷ ok ""
    ∷ ok "junk"
    ∷ ok end_line
    ∷ ok "{\"op\":\"shutdown\"}"
    ∷ ok begin_line
    ∷ []

abbrev expected : List String
expected =
    "{\"type\":\"status\",\"message\":\"ready\",\"backend\":\"fake\",\"grace_ms\":50,\"bucket\":\"startup\",\"ts_ns\":1}"
    ∷ "{\"type\":\"status\",\"message\":\"begin\",\"bucket\":\"call\",\"call_id\":\"c9\",\"ts_ns\":2}"
    ∷ "{\"type\":\"status\",\"message\":\"parse_error\",\"error\":\"expected value\",\"bucket\":\"ambient\",\"ts_ns\":3}"
    ∷ "{\"type\":\"connect\",\"dst\":\"203.0.113.7:443\",\"bucket\":\"call\",\"call_id\":\"c9\",\"ts_ns\":4}"
    ∷ "{\"type\":\"status\",\"message\":\"end\",\"bucket\":\"call\",\"call_id\":\"c9\",\"ts_ns\":5}"
    ∷ []

run_call : (Fake.run call_lines (record { backend = ticking; out = [] })).1.out ≡ expected
unfolding Fake.run Fake.new_backend get insert show trim print read_control lex_between
run_call = refl

run-transcript_example :
    let after_run = Fake.run call_lines (record { backend = ticking; out = [] }) in
    let written =
      write_lines
        (stamp ticking.clock ticking.reads (transcript ticking (map input_of call_lines)))
        [] in
    (after_run.0 ≡ conclude written.0 (answer (map input_of call_lines)))
    × (after_run.1.out ≡ written.1)
run-transcript_example = run-transcript ticking [] call_lines

-- An event of the script that names its bucket.
stamped-says_example :
    get (stamped (insert sample_json.new "bucket" (text "mine")) "call" (some "c9") 5) "bucket"
    ≡ says (insert sample_json.new "bucket" (text "mine")) "call" (some "c9") 5 "bucket"
stamped-says_example =
    stamped-says ⦃L = sample_json-IsLawful⦄ (insert sample_json.new "bucket" (text "mine")) "call"
      (some "c9") 5 "bucket"

its_bucket :
    says (insert sample_json.new "bucket" (text "mine")) "call" (some "c9") 5 "bucket"
    ≡ some (text "mine")
unfolding get insert
its_bucket = refl

run-grace_example :
    (rest : List String) × ((grace : ℕ)
      → (Fake.run call_lines
          (record { backend = record ticking { grace_ms = grace }; out = [] })).1.out
        ≡ (write_lines (line (ready grace) (ticking.clock ticking.reads) ∷ rest) []).1)
run-grace_example = run-grace ⦃L = sample_json-IsLawful⦄ ticking [] call_lines

-- Without a call, the eBPF backend writes a null for it and the fake backend leaves the name out.
begin_nulls :
    (get (with_time 5 (control_status (mark "begin" none none))) "call_id" ≡ some sample_json.null)
    × (get (stamped (Spec.status "begin") "call" none 5) "call_id" ≡ none)
unfolding control_status stamped get insert
begin_nulls = (refl, refl)
