-- ===== src/Cli.antt =====
-- crates/mcpfz-probe/src/main.rs, lines 36 to 53 and 119 to 156: the command line.
pub mod Grammar
pub mod RoundTrip
pub mod Refusal
use Prim.Native.Nat.{ℕ}
use mcpfz_probe.Base.{String, ◌<>◌, ◌||◌, Option, none, some, List, [], ◌∷◌, str_eq}
use mcpfz_probe.Base.{if◌then◌else◌}
use mcpfz_probe.Base.Digits.{parse_u64}

pub data Backend : Type 0 where
  fake ebpf : Backend

pub record Args : Type 0 where
  pub backend : Backend
  pub events_file : Option String
  pub grace_ms : ℕ

pub data Parsed : Type 0 where
  run : Args → Parsed
  help version : Parsed
  error : String → Parsed

-- The variables of `parse_args` at its start.
abbrev pub defaults : Args
defaults = record { backend = ebpf; events_file = none; grace_ms = 100 }

-- One round of the `while let`: it returns, or goes on with other variables.
pub data Step : Type 0 where
  stop : Parsed → Step
  go_on : Args → Step

unfoldable pub take_backend : Args → Option String → Step
take_backend a none = stop (error "--backend requires a value")
take_backend a (some value) =
    if str_eq value "fake"
    then go_on (record a { backend = fake })
    else if str_eq value "ebpf"
    then go_on (record a { backend = ebpf })
    else stop (error ("unknown backend '" <> value <> "'"))

unfoldable pub take_events_file : Args → Option String → Step
take_events_file a none = stop (error "--events-file requires a value")
take_events_file a (some value) = go_on (record a { events_file = some value })

unfoldable pub take_grace_ms : Args → Option String → Step
take_grace_ms a none = stop (error "--grace-ms requires a value")
take_grace_ms a (some value) = elim (parse_u64 value) [
  | some ms ↦ go_on (record a { grace_ms = ms })
  | none ↦ stop (error ("invalid --grace-ms value '" <> value <> "'"))
]

-- `next` is what `args.next()` answers in the round; an argument that is no option with a value
-- ends the loop, so every round that goes on has taken two arguments.
unfoldable pub step : Args → String → Option String → Step
unfolding take_backend take_events_file take_grace_ms
step a arg next =
    if str_eq arg "-h" || str_eq arg "--help"
    then stop help
    else if str_eq arg "-V" || str_eq arg "--version"
    then stop version
    else if str_eq arg "--backend"
    then take_backend a next
    else if str_eq arg "--events-file"
    then take_events_file a next
    else if str_eq arg "--grace-ms"
    then take_grace_ms a next
    else stop (error ("unexpected argument '" <> arg <> "'"))

unfoldable pub parse_loop : Args → List String → Parsed
unfolding step
parse_loop a [] = run a
parse_loop a (arg ∷ []) = elim (step a arg none) [ stop p ↦ p | go_on a' ↦ run a' ]
parse_loop a (arg ∷ value ∷ rest) = elim (step a arg (some value)) [
  | stop p ↦ p
  | go_on a' ↦ parse_loop a' rest
]

unfoldable pub parse_args : List String → Parsed
unfolding parse_loop
parse_args = parse_loop defaults
