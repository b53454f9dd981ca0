-- ===== src/Process/Laws.antt =====
-- What the exit codes of the process say.
use mathlib.Core.Path.{subst}
use mcpfz_probe.Base.{
  ℕ, String, ◌≡◌, ◌≢◌, ◌↔◌, ◌⊎◌, inl, inr, refl, sym, Option, none, some, List, arith,
}
use mcpfz_probe.Io.{Result, ok, err, Result-cases, Write}
use mcpfz_probe.Json.{Json}
use mcpfz_probe.Script.{ScriptEntry, Reader, parse_script}
use mcpfz_probe.Fake.{Session}
use mcpfz_probe.Cli.{
  Backend, fake, ebpf, Args, Parsed, run, help, version, error, parse_args, defaults,
}
use mcpfz_probe.Cli.Grammar.{Accepts, parse_args-Accepts}
use mcpfz_probe.Cli.Refusal.{Bad, parse_args-Bad}
use mcpfz_probe.Process.{Environment, code, load_script, main, run_fake, print_line}
use mcpfz_probe.Process.{fake_outcome, ebpf_outcome, dispatch, replay, printed}

module _ ⦃W : Write⦄ ⦃J : Json⦄ ⦃R : Reader⦄ (env : Environment) where
  fake_outcome_not_two :
      (p : Result (Unit {0}) W.Error × Session) → (fake_outcome env p).exit ≢ code 2
  fake_outcome_not_two (ok u, s) e = ground arith
  fake_outcome_not_two (err x, s) e = ground arith

  ebpf_outcome_not_two :
      (p : Result (Unit {0}) String × W.State) → (ebpf_outcome env p).exit ≢ code 2
  ebpf_outcome_not_two (ok u, s) e = ground arith
  ebpf_outcome_not_two (err x, s) e = ground arith

  printed_not_two : (p : Result (Unit {0}) W.Error × W.State) → (printed p).exit ≢ code 2
  printed_not_two (ok u, s) e = ground arith
  printed_not_two (err x, s) e = ground arith

  replay_two :
      (grace : ℕ) (r : Result (List ScriptEntry) String) (out : W.State)
      → (replay env grace r out).exit ≡ code 2
      → ((message : String) × (r ≡ err message)) × ((replay env grace r out).stdout ≡ out)
  replay_two grace (ok entries) out e = absurd (fake_outcome_not_two _ e)
  replay_two grace (err m) out e = ((m, refl), refl)

  -- Why a command line is refused.
  abbrev Refused : Parsed → Type 0
  Refused (error message) = Unit {0}
  Refused (run args) =
      (args.backend ≡ fake)
      × ((message : String) × (load_script env args.events_file ≡ err message))
  Refused _ = ⊥

  backend_two :
      (k : Backend) (args : Args) (out : W.State)
      → args.backend ≡ k
      → (dispatch env (run (record args { backend = k })) out).exit ≡ code 2
      → Refused (run (record args { backend = k }))
        × ((dispatch env (run (record args { backend = k })) out).stdout ≡ out)
  unfolding run_fake
  backend_two fake args out h e = let (m, same) = replay_two _ _ out e in ((refl, m), same)
  backend_two ebpf args out h e = absurd (ebpf_outcome_not_two _ e)

  dispatch_two :
      (p : Parsed) (out : W.State)
      → (dispatch env p out).exit ≡ code 2
      → Refused p × ((dispatch env p out).stdout ≡ out)
  unfolding print_line
  dispatch_two help out e = absurd (printed_not_two _ e)
  dispatch_two version out e = absurd (printed_not_two _ e)
  dispatch_two (error m) out e = (tt, refl)
  dispatch_two (run args) out e = backend_two args.backend args out refl e

  replay-err :
      (grace : ℕ) (r : Result (List ScriptEntry) String) (message : String) (out : W.State)
      → r ≡ err message
      → (replay env grace r out).exit ≡ code 2
  replay-err grace r message out e = rw e

  backend-Refused :
      (k : Backend) (args : Args) (out : W.State)
      → Refused (run (record args { backend = k }))
      → (dispatch env (run (record args { backend = k })) out).exit ≡ code 2
  unfolding run_fake
  backend-Refused fake args out (k, (message, e)) = replay-err _ _ message out e
  backend-Refused ebpf args out (k, m) = cc

  dispatch-Refused : (p : Parsed) (out : W.State) → Refused p → (dispatch env p out).exit ≡ code 2
  dispatch-Refused (error m) out h = refl
  dispatch-Refused (run args) out h = backend-Refused args.backend args out h
  dispatch-Refused help out h = absurd h
  dispatch-Refused version out h = absurd h

  -- The file at the path cannot be read, or its text is neither a map with events nor a list of them.
  abbrev pub BadFile : String → Type 0
  BadFile path =
      ((e : W.Error) × (env.read_to_string path ≡ err e))
      ⊎ ((text : String) × (env.read_to_string path ≡ ok text)
          × ((e : R.ParseError) × (R.script_file_from_str text ≡ err e))
          × ((e : R.ParseError) × (R.entries_from_str text ≡ err e)))

  -- An events file is asked for that is bad.
  abbrev pub BadEvents : Option String → Type 0
  BadEvents file = (path : String) × (file ≡ some path) × BadFile path

  load_script-BadEvents :
      (file : Option String) (message : String)
      → load_script env file ≡ err message
      → BadEvents file
  unfolding load_script parse_script
  load_script-BadEvents none message e = cc
  load_script-BadEvents (some path) message e = elim (Result-cases (env.read_to_string path)) [
    | inr unread ↦ (path, refl, inl unread)
    | inl (text, read) ↦ elim (Result-cases (R.script_file_from_str text)) [
      | inl (file, parsed) ↦ absurd (cc (rw (read, parsed) at e))
      | inr no_file ↦ elim (Result-cases (R.entries_from_str text)) [
        | inl (entries, parsed) ↦ absurd (cc (rw (read, no_file.1, parsed) at e))
        | inr no_list ↦ (path, refl, inr (text, read, no_file, no_list))
      ]
    ]
  ]

  BadEvents-load_script :
      (file : Option String)
      → BadEvents file
      → (message : String) × (load_script env file ≡ err message)
  unfolding load_script parse_script
  BadEvents-load_script file (path, e, inl (x, unread)) = rw (e, unread) (_, refl)
  BadEvents-load_script file (path, e, inr (text, read, no_file, no_list)) =
      rw (e, read, no_file.1, no_list.1) (_, refl)

  -- The command line is bad, or it selects the fake backend with an events file that is bad.
  abbrev pub Refusal : List String → Type 0
  Refusal argv =
      Bad argv
      ⊎ ((a : Args) × Accepts defaults argv a × (a.backend ≡ fake) × BadEvents a.events_file)

  Refused-Refusal :
      (argv : List String) (p : Parsed) → parse_args argv ≡ p → Refused p → Refusal argv
  Refused-Refusal argv (error m) e h = inl ((parse_args-Bad argv).0 (m, e))
  Refused-Refusal argv (run a) e (selected, (m, failed)) =
      inr
        (a, (parse_args-Accepts argv a).0 e, selected, load_script-BadEvents a.events_file m failed)
  Refused-Refusal argv help e h = absurd h
  Refused-Refusal argv version e h = absurd h

  Refusal-Refused : (argv : List String) → Refusal argv → Refused (parse_args argv)
  Refusal-Refused argv (inl bad) = let (m, e) = (parse_args-Bad argv).1 bad in rw e tt
  Refusal-Refused argv (inr (a, accepted, selected, bad)) =
      subst Refused (sym ((parse_args-Accepts argv a).1 accepted))
        (selected, BadEvents-load_script a.events_file bad)

  -- The process exits with code 2 exactly when the command line neither sets the settings nor asks for
  -- help or the version, or when it selects the fake backend and an events file that cannot be read or
  -- has neither a map with events nor a list of them; it has then written nothing to stdout.
  pub main_two :
      (argv : List String) (out : W.State)
      → (((main env argv out).exit ≡ code 2) ↔ Refusal argv)
        × ((main env argv out).exit ≡ code 2 → (main env argv out).stdout ≡ out)
  unfolding main
  main_two argv out = (
    (
      λ e. Refused-Refusal argv (parse_args argv) refl (dispatch_two (parse_args argv) out e).0,
      λ h. dispatch-Refused (parse_args argv) out (Refusal-Refused argv h),
    ),
    λ e. (dispatch_two (parse_args argv) out e).1,
  )
