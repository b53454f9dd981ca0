-- ===== src/Process.antt =====
-- crates/mcpfz-probe/src/main.rs, lines 20 to 34, 55 to 117 and 158 to 164: the process, and the backend of a
-- build without the feature `ebpf` (crates/mcpfz-probe/src/ebpf.rs, lines 369 to 372).
pub mod Laws
pub mod Replay
use mcpfz_probe.Base.{ℕ, String, ◌<>◌, Option, none, some, List, [], ◌∷◌}
use mcpfz_probe.Io.{Result, ok, err, Write}
use mcpfz_probe.Json.{Json}
use mcpfz_probe.Script.{ScriptEntry, Reader, parse_script}
use mcpfz_probe.Fake
use mcpfz_probe.Fake.{Session}
use mcpfz_probe.Cli.{Backend, fake, ebpf, Args, Parsed, run, help, version, error, parse_args}

abbrev pub usage : String
usage =
    "mcpfz-probe — runtime probe sidecar for MCP server fuzzing\n\n"
    <> "USAGE:\n    mcpfz-probe [OPTIONS]\n\nOPTIONS:\n"
    <> "    --backend <fake|ebpf>   Backend to run (default: ebpf)\n"
    <> "    --events-file <PATH>    Fake backend: JSON script of events to replay\n"
    <> "    --grace-ms <MS>         Trailing window after a call end mark (default: 100)\n"
    <> "    -h, --help              Print this help and exit\n"
    <> "    -V, --version           Print version and exit\n\n"
    <> "The sidecar reads NDJSON control messages on stdin and writes NDJSON runtime\n"
    <> "events on stdout. See docs/protocol.md."

-- `CARGO_PKG_VERSION` of crates/mcpfz-probe/Cargo.toml.
abbrev pub package_version : String
package_version = "0.1.2"

-- How the process ends: an exit code, or a panic of `println!` on a closed stdout.
pub data Exit : Type 0 where
  code : ℕ → Exit
  panicked : Exit

module _ ⦃W : Write⦄ where
  -- What the process finds: files, the lines of stdin, the nanoseconds since the epoch at each reading
  -- of the clock, none before the epoch, the `Display` of an `io::Error`, and the function
  -- `ebpf::run` of the build.
  pub record Environment : Type 0 where
    pub read_to_string : String → Result String W.Error
    pub lines : List (Result String W.Error)
    pub since_epoch : ℕ → Option ℕ
    pub describe : W.Error → String
    pub ebpf_run : W.State → Result (Unit {0}) String × W.State

  pub record Outcome : Type 0 where
    pub exit : Exit
    pub stderr : List String
    pub stdout : W.State

  -- `ebpf::run` without the feature.
  unfoldable pub stub_run : W.State → Result (Unit {0}) String × W.State
  stub_run out = (err "eBPF backend not compiled in; rebuild on Linux with --features ebpf", out)

  abbrev finish : ℕ → List String → W.State → Outcome
  finish n errors out = record { exit = code n; stderr = errors; stdout = out }

  abbrev printed : Result (Unit {0}) W.Error × W.State → Outcome
  printed (ok u, out) = finish 0 [] out
  printed (err e, out) = record { exit = panicked; stderr = []; stdout = out }

  -- `println!` as the last act.
  unfoldable pub print_line : String → W.State → Outcome
  print_line text out = printed (W.writeln text out)

  -- `unwrap_or(0)`
  abbrev pub or_epoch : Option ℕ → ℕ
  or_epoch none = 0
  or_epoch (some ns) = ns

  module _ (env : Environment) where
    unfoldable pub now_ns : ℕ → ℕ
    now_ns reading = or_epoch (env.since_epoch reading)

    abbrev ebpf_outcome : Result (Unit {0}) String × W.State → Outcome
    ebpf_outcome (ok u, out) = finish 0 [] out
    ebpf_outcome (err e, out) = finish 69 (("mcpfz-probe: " <> e) ∷ []) out

    abbrev fake_outcome : ⦃J : Json⦄ → Result (Unit {0}) W.Error × Session → Outcome
    fake_outcome (ok u, s) = finish 0 [] s.out
    fake_outcome (err e, s) = finish 1 (("mcpfz-probe: io error: " <> env.describe e) ∷ []) s.out

    module _ ⦃J : Json⦄ ⦃R : Reader⦄ where
      abbrev script_of :
          String → Result (List ScriptEntry) R.ParseError → Result (List ScriptEntry) String
      script_of path (ok entries) = ok entries
      script_of path (err e) =
          err ("mcpfz-probe: failed to parse events file '" <> path <> "': " <> R.describe e)

      abbrev script_in : String → Result String W.Error → Result (List ScriptEntry) String
      script_in path (ok text) = script_of path (parse_script text)
      script_in path (err e) =
          err ("mcpfz-probe: failed to read events file '" <> path <> "': " <> env.describe e)

      -- The `match &args.events_file` of `run_fake`: the script, or the line for stderr.
      unfoldable pub load_script : Option String → Result (List ScriptEntry) String
      unfolding parse_script
      load_script none = ok []
      load_script (some path) = script_in path (env.read_to_string path)

      abbrev replay : ℕ → Result (List ScriptEntry) String → W.State → Outcome
      replay grace (err message) out = finish 2 (message ∷ []) out
      replay grace (ok entries) out = fake_outcome (
          Fake.run env.lines
            (record { backend = Fake.new_backend now_ns entries grace; out = out }))

      unfoldable pub run_fake : Args → W.State → Outcome
      unfolding load_script
      run_fake args out = replay args.grace_ms (load_script args.events_file) out

      abbrev pub run_backend : Backend → Args → W.State → Outcome
      run_backend fake args out = run_fake args out
      run_backend ebpf args out = ebpf_outcome (env.ebpf_run out)

      abbrev dispatch : Parsed → W.State → Outcome
      dispatch help out = print_line usage out
      dispatch version out = print_line ("mcpfz-probe " <> package_version) out
      dispatch (error message) out =
          finish 2 (("mcpfz-probe: " <> message) ∷ "try 'mcpfz-probe --help'" ∷ []) out
      dispatch (run args) out = run_backend args.backend args out

      unfoldable pub main : List String → W.State → Outcome
      unfolding run_fake print_line
      main argv out = dispatch (parse_args argv) out
