-- ===== src/Cli/RoundTrip.antt =====
-- Settings written as arguments, and requests for help.
use mcpfz_probe.Base.{◌^◌, ◌<◌, String, ◌≡◌, ◌⊎◌, inl, inr, refl, ◌∙◌, Option, none, some}
use mcpfz_probe.Base.{List, [], ◌∷◌, ◌++◌}
use mcpfz_probe.Base.Digits.{print}
use mcpfz_probe.Base.Digits.RoundTrip.{parse_u64-print}
use mcpfz_probe.Cli.{Backend, fake, ebpf, Args, run, help, defaults}
use mcpfz_probe.Cli.{stop, step, parse_loop, parse_args}
use mcpfz_probe.Cli.Grammar.{Takes, fake_backend, ebpf_backend, events_file, grace_ms}
use mcpfz_probe.Cli.Grammar.{Accepts, done, option, parse_args-Accepts, parse_loop-append}

abbrev pub backend_name : Backend → String
backend_name fake = "fake"
backend_name ebpf = "ebpf"

abbrev pub events_args : Option String → List String → List String
events_args none rest = rest
events_args (some path) rest = "--events-file" ∷ path ∷ rest

-- The arguments that ask for given settings.
abbrev pub command_line : Args → List String
command_line a =
    "--backend"
    ∷ backend_name a.backend
    ∷ "--grace-ms"
    ∷ print 10 a.grace_ms
    ∷ events_args a.events_file []

Accepts-events_args :
    (a : Args) (file : Option String)
    → a.events_file ≡ none
    → Accepts a (events_args file []) (record a { events_file = file })
Accepts-events_args a none h = rw (← h) done
Accepts-events_args a (some path) h = option (events_file refl refl) done

Takes-backend :
    (a : Args) (k : Backend) → Takes a "--backend" (backend_name k) (record a { backend = k })
Takes-backend a fake = fake_backend refl refl refl
Takes-backend a ebpf = ebpf_backend refl refl refl

-- Every setting can be asked for: the arguments for it are parsed to it, where `grace_ms` fits the
-- 64 bits of its type.
pub parse_args-command_line : (a : Args) → a.grace_ms < 2 ^ 64 → parse_args (command_line a) ≡ run a
parse_args-command_line a h = (parse_args-Accepts (command_line a) a).1 (
    option (Takes-backend defaults a.backend) (
      option (grace_ms refl (parse_u64-print a.grace_ms h) refl) (
        Accepts-events_args
          (record { backend = a.backend; events_file = none; grace_ms = a.grace_ms }) a.events_file
          refl)))

step-help :
    (a : Args) (next : Option String) (flag : String)
    → (flag ≡ "-h") ⊎ (flag ≡ "--help")
    → step a flag next ≡ stop help
unfolding step
step-help a next flag (inl e) = rw e
step-help a next flag (inr e) = rw e

parse_loop-help :
    (a : Args) (rest : List String) (flag : String)
    → (flag ≡ "-h") ⊎ (flag ≡ "--help")
    → parse_loop a (flag ∷ rest) ≡ help
unfolding parse_loop
parse_loop-help a [] flag h = rw (step-help a none flag h, parse_loop)
parse_loop-help a (next ∷ rest) flag h = rw (step-help a (some next) flag h, parse_loop)

-- A request for help after valid options is answered, whatever follows it.
pub parse_args-help :
    (before rest : List String) (a : Args) (flag : String)
    → Accepts defaults before a
    → (flag ≡ "-h") ⊎ (flag ≡ "--help")
    → parse_args (before ++ (flag ∷ rest)) ≡ help
unfolding parse_args
parse_args-help before rest a flag h k =
    parse_loop-append (flag ∷ rest) h ∙ parse_loop-help a rest flag k
