-- ===== src/Process/Replay.antt =====
-- A process with the fake backend, from its arguments to its exit code and its stdout.
use mcpfz_probe.Base.{String, ◌<>◌, ◌≡◌, refl, ap, ◌∙◌, List, [], ◌∷◌, map}
use mcpfz_probe.Io.{Result, ok, err, Write}
use mcpfz_probe.Json.{Json}
use mcpfz_probe.Script.{ScriptEntry, Reader}
use mcpfz_probe.Fake
use mcpfz_probe.Fake.{Session, FakeBackend}
use mcpfz_probe.Fake.Spec.{stamp, input_of, answer}
use mcpfz_probe.Fake.Writes.{write_lines}
use mcpfz_probe.Fake.Refinement.{transcript, conclude, run-transcript}
use mcpfz_probe.Cli.{fake, Args, run, parse_args}
use mcpfz_probe.Process.{
  Environment, Outcome, code, now_ns, load_script, main, run_fake, run_backend, dispatch, replay,
  fake_outcome,
}

module _ ⦃W : Write⦄ ⦃J : Json⦄ ⦃R : Reader⦄ (env : Environment) where
  -- How a replay ends: well, or with a line about the error.
  abbrev pub ended : Result (Unit {0}) W.Error → W.State → Outcome
  ended (ok u) out = record { exit = code 0; stderr = []; stdout = out }
  ended (err e) out = record {
    exit = code 1;
    stderr = ("mcpfz-probe: io error: " <> env.describe e) ∷ [];
    stdout = out;
  }

  -- The backend of the settings, before its first event.
  abbrev pub backend_of : Args → List ScriptEntry → FakeBackend
  backend_of args entries = Fake.new_backend (now_ns env) entries args.grace_ms

  fake_outcome-ended :
      (p : Result (Unit {0}) W.Error × Session) → fake_outcome env p ≡ ended p.0 p.1.out
  fake_outcome-ended (ok u, s) = refl
  fake_outcome-ended (err e, s) = refl

  dispatch_fake :
      (args : Args) (out : W.State)
      → args.backend ≡ fake
      → dispatch env (run args) out
        ≡ replay env args.grace_ms (load_script env args.events_file) out
  unfolding run_fake
  dispatch_fake args out e = ap (λ k. run_backend env k args out) e

  -- Where the arguments ask for the fake backend and its events can be loaded, the process writes the
  -- transcript of the backend, and exits with code 0, or with code 1 and a line on stderr about the
  -- first error of stdout, or else about the error of stdin.
  pub main-transcript :
      (argv : List String) (args : Args) (entries : List ScriptEntry) (out : W.State)
      → parse_args argv ≡ run args
      → args.backend ≡ fake
      → load_script env args.events_file ≡ ok entries
      → let inputs = map input_of env.lines in
        let written =
          write_lines (stamp (now_ns env) 0 (transcript (backend_of args entries) inputs)) out in
        main env argv out ≡ ended (conclude written.0 (answer inputs)) written.1
  unfolding main Fake.new_backend
  main-transcript argv args entries out parsed selected loaded =
      let run_is = run-transcript (backend_of args entries) out env.lines in
      ap (λ p. dispatch env p out) parsed
      ∙ dispatch_fake args out selected
      ∙ ap (λ r. replay env args.grace_ms r out) loaded
      ∙ fake_outcome-ended _
      ∙ (λ i. ended (run_is.0 i) (run_is.1 i))
