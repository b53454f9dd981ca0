-- ===== src/Tests/CliRuns.antt =====
-- The command line and the process on small inputs.
use mcpfz_probe.Base.{◌≡◌, ◌↔◌, refl, String, some, List, [], ◌∷◌, arith}
use mcpfz_probe.Base.Digits.{parse_u64}
use mcpfz_probe.Io.{Result, err}
use mcpfz_probe.Cli.{fake, Args, run, error, parse_args, defaults}
use mcpfz_probe.Cli.Grammar.{Accepts, parse_args-Accepts}
use mcpfz_probe.Cli.RoundTrip.{command_line, parse_args-command_line}
use mcpfz_probe.Process.{Environment, code, main, stub_run}
use mcpfz_probe.Process.Laws.{Refusal, main_two}
use mcpfz_probe.Cli.Refusal.{Bad, parse_args-Bad}
use mcpfz_probe.Tests.Deserialize.{sample_reader}
use mcpfz_probe.Tests.Samples.{sample_json, vec_writer}

abbrev fake_args : Args
fake_args = record { backend = fake; events_file = some "events.json"; grace_ms = 250 }

abbrev fake_argv : List String
fake_argv = "--backend" ∷ "fake" ∷ "--events-file" ∷ "events.json" ∷ "--grace-ms" ∷ "+250" ∷ []

parses : parse_args fake_argv ≡ run fake_args
unfolding parse_args parse_u64
parses = refl

refuses :
    parse_args ("--grace-ms" ∷ "18446744073709551616" ∷ [])
    ≡ error "invalid --grace-ms value '18446744073709551616'"
unfolding parse_args parse_u64
refuses = refl

parse_args-Accepts_example :
    (parse_args fake_argv ≡ run fake_args) ↔ Accepts defaults fake_argv fake_args
parse_args-Accepts_example = parse_args-Accepts fake_argv fake_args

parse_args-command_line_example : parse_args (command_line fake_args) ≡ run fake_args
parse_args-command_line_example = parse_args-command_line fake_args (omega arith)

parse_args-Bad_example :
    ((m : String) × (parse_args ("--grace-ms" ∷ "soon" ∷ []) ≡ error m))
    ↔ Bad ("--grace-ms" ∷ "soon" ∷ [])
parse_args-Bad_example = parse_args-Bad ("--grace-ms" ∷ "soon" ∷ [])

abbrev files : String → Result String String
files path = err "No such file or directory (os error 2)"

abbrev host : Environment
unfolding stub_run
host = record {
  read_to_string = files;
  lines = [];
  since_epoch = λ n. some n;
  describe = λ e. e;
  ebpf_run = stub_run;
}

missing_file : main host fake_argv [] ≡ record {
  exit = code 2;
  stderr =
      "mcpfz-probe: failed to read events file 'events.json': No such file or directory (os error 2)"
      ∷ [];
  stdout = [];
}
unfolding main parse_args parse_u64 host
missing_file = refl

main_two_example :
    (((main host fake_argv []).exit ≡ code 2) ↔ Refusal host fake_argv)
    × ((main host fake_argv []).exit ≡ code 2 → (main host fake_argv []).stdout ≡ [])
main_two_example = main_two host fake_argv []
