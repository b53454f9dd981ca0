-- ===== src/Tests/CliTests.antt =====
-- crates/mcpfz-probe/src/main.rs, lines 166 to 216: the tests of the command line, which the model
-- passes. A test that panics is false.
use mcpfz_probe.Base.{
  String, ◌≡◌, refl, Bool, true, false, ◌&&◌, Option, none, some, List, [], ◌∷◌, ◌==◌, str_eq,
}
use mcpfz_probe.Base.Digits.{parse_u64}
use mcpfz_probe.Cli.{Backend, fake, ebpf, Args, Parsed, run, help, version, error, parse_args}

unfoldable parse : List String → Parsed
parse args = parse_args args

abbrev backend_eq : Backend → Backend → Bool
backend_eq fake fake = true
backend_eq ebpf ebpf = true
backend_eq _ _ = false

abbrev path_is : Option String → String → Bool
path_is (some path) want = str_eq path want
path_is none want = false

-- `match` on a `Parsed::Run`, where anything else panics.
abbrev on_run : Parsed → (Args → Bool) → Bool
on_run (run args) p = p args
on_run _ p = false

abbrev is_help : Parsed → Bool
is_help help = true
is_help _ = false

abbrev is_version : Parsed → Bool
is_version version = true
is_version _ = false

abbrev is_error : Parsed → Bool
is_error (error message) = true
is_error _ = false

unfoldable defaults_to_ebpf_backend : Bool
unfolding parse
defaults_to_ebpf_backend =
    on_run (parse []) (λ args. backend_eq args.backend ebpf && (args.grace_ms == 100))

defaults_to_ebpf_backend_passes : defaults_to_ebpf_backend ≡ true
unfolding defaults_to_ebpf_backend parse parse_args
defaults_to_ebpf_backend_passes = refl

unfoldable parses_fake_backend_options : Bool
unfolding parse
parses_fake_backend_options =
    on_run (parse ("--backend" ∷ "fake" ∷ "--events-file" ∷ "e.json" ∷ "--grace-ms" ∷ "250" ∷ []))
      (λ args.
        backend_eq args.backend fake && path_is args.events_file "e.json" && (args.grace_ms == 250))

parses_fake_backend_options_passes : parses_fake_backend_options ≡ true
unfolding parses_fake_backend_options parse parse_args parse_u64
parses_fake_backend_options_passes = refl

unfoldable help_and_version_short_circuit : Bool
unfolding parse
help_and_version_short_circuit = is_help (parse ("--help" ∷ [])) && is_version (parse ("-V" ∷ []))

help_and_version_short_circuit_passes : help_and_version_short_circuit ≡ true
unfolding help_and_version_short_circuit parse parse_args
help_and_version_short_circuit_passes = refl

unfoldable rejects_unknown_backend_and_bad_grace : Bool
unfolding parse
rejects_unknown_backend_and_bad_grace =
    is_error (parse ("--backend" ∷ "nope" ∷ []))
    && is_error (parse ("--grace-ms" ∷ "abc" ∷ []))
    && is_error (parse ("--stray" ∷ []))

rejects_unknown_backend_and_bad_grace_passes : rejects_unknown_backend_and_bad_grace ≡ true
unfolding rejects_unknown_backend_and_bad_grace parse parse_args parse_u64
rejects_unknown_backend_and_bad_grace_passes = refl
