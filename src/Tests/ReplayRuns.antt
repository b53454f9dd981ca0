-- ===== src/Tests/ReplayRuns.antt =====
-- A process that replays an events file.
use mcpfz_probe.Base.{◌≡◌, refl, String, some, List, [], ◌∷◌, map}
use mcpfz_probe.Base.Digits.{print, parse_u64}
use mcpfz_probe.Base.Text.{trim}
use mcpfz_probe.Io.{ok}
use mcpfz_probe.Script.{parse_script}
use mcpfz_probe.Fake
use mcpfz_probe.Fake.Spec.{stamp, input_of, answer}
use mcpfz_probe.Fake.Writes.{write_lines}
use mcpfz_probe.Fake.Refinement.{transcript, conclude}
use mcpfz_probe.Cli.{fake, Args, run, parse_args}
use mcpfz_probe.Process.{Environment, code, main, now_ns, load_script, stub_run}
use mcpfz_probe.Process.Replay.{ended, backend_of, main-transcript}
use mcpfz_probe.Tests.Samples.{get, insert, show, sample_json, vec_writer, at_end}
use mcpfz_probe.Tests.JsonText.{lex_between}
use mcpfz_probe.Tests.Deserialize.{sample_reader, read_control, read_file}

abbrev replay_args : Args
replay_args = record { backend = fake; events_file = some "events.json"; grace_ms = 250 }

abbrev replay_argv : List String
replay_argv = "--events-file" ∷ "events.json" ∷ "--backend" ∷ "fake" ∷ "--grace-ms" ∷ "250" ∷ []

abbrev events_json : String
events_json =
    "{\"events\": [{\"trigger\": \"end\", \"tool\": \"t\",\n  \"event\": {\"type\": \"connect\", \"dst\": \"203.0.113.7:443\"}}]}"

abbrev desk : Environment
unfolding stub_run
desk = record {
  read_to_string = λ path. ok events_json;
  lines =
      ok "{\"op\":\"mark\",\"phase\":\"begin\",\"call_id\":\"c9\",\"tool\":\"t\"}"
      ∷ ok "{\"op\":\"mark\",\"phase\":\"end\"}"
      ∷ ok "{\"op\":\"shutdown\"}"
      ∷ [];
  since_epoch = λ n. some n;
  describe = λ e. e;
  ebpf_run = stub_run;
}

parses_replay : parse_args replay_argv ≡ run replay_args
unfolding parse_args parse_u64
parses_replay = refl

loads_events : load_script desk (some "events.json") ≡ ok (at_end ∷ [])
unfolding desk load_script parse_script read_file lex_between get
loads_events = refl

main-transcript_example :
    let inputs = map input_of desk.lines in
    let written =
      write_lines
        (stamp (now_ns desk) 0 (transcript (backend_of desk replay_args (at_end ∷ [])) inputs))
        [] in
    main desk replay_argv [] ≡ ended desk (conclude written.0 (answer inputs)) written.1
main-transcript_example =
    main-transcript desk replay_argv replay_args (at_end ∷ []) [] parses_replay refl loads_events

replays : main desk replay_argv [] ≡ record {
  exit = code 0;
  stderr = [];
  stdout =
      "{\"type\":\"status\",\"message\":\"ready\",\"backend\":\"fake\",\"grace_ms\":250,\"bucket\":\"startup\",\"ts_ns\":0}"
      ∷ "{\"type\":\"status\",\"message\":\"begin\",\"bucket\":\"call\",\"call_id\":\"c9\",\"ts_ns\":1}"
      ∷ "{\"type\":\"connect\",\"dst\":\"203.0.113.7:443\",\"bucket\":\"call\",\"call_id\":\"c9\",\"ts_ns\":2}"
      ∷ "{\"type\":\"status\",\"message\":\"end\",\"bucket\":\"call\",\"call_id\":\"c9\",\"ts_ns\":3}"
      ∷ [];
}
unfolding desk main parse_args parse_u64 parse_script now_ns Fake.run Fake.new_backend read_file
    read_control lex_between get insert show trim print
replays = refl
