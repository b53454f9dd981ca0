-- ===== src/Cli/Grammar.antt =====
-- The command lines that are accepted, as a grammar, and `parse_args` against it.
use mcpfz_probe.Base.{ℕ, String, ◌≡◌, ◌≢◌, refl, ◌↔◌, ◌||◌, Option, none, some}
use mcpfz_probe.Base.{
  ◌⊎◌, append-nil, List, [], ◌∷◌, ◌++◌, arith, str_eq, eq_iff, Bool-cases, inl, inr,
}
use mcpfz_probe.Base.{Option-cases}
use mcpfz_probe.Base.Digits.{parse_u64}
use mcpfz_probe.Cli.{
  Step, Args, Parsed, run, fake, ebpf, go_on, stop, step, parse_loop, defaults, parse_args,
}
use mcpfz_probe.Cli.{take_backend, take_events_file, take_grace_ms}

-- An option with its value, and what it sets.
pub data Takes (a : Args) (arg value : String) (b : Args) : Type 0 where
  fake_backend :
      arg ≡ "--backend" → value ≡ "fake" → b ≡ record a { backend = fake } → Takes a arg value b
  ebpf_backend :
      arg ≡ "--backend" → value ≡ "ebpf" → b ≡ record a { backend = ebpf } → Takes a arg value b
  events_file :
      arg ≡ "--events-file" → b ≡ record a { events_file = some value } → Takes a arg value b
  grace_ms :
      {ms : ℕ}
      → arg ≡ "--grace-ms"
      → parse_u64 value ≡ some ms
      → b ≡ record a { grace_ms = ms }
      → Takes a arg value b

-- A sequence of options with their values; a later one overrides an earlier one.
pub data Accepts : Args → List String → Args → Type 0 where
  done : {a : Args} → Accepts a [] a
  option :
      {a b c : Args} {arg value : String} {rest : List String}
      → Takes a arg value b
      → Accepts b rest c
      → Accepts a (arg ∷ value ∷ rest) c

pub step-none : (a : Args) (arg : String) {b : Args} → step a arg none ≢ go_on b
unfolding step
step-none a arg e = ground arith

take_backend-Takes :
    (a : Args) (value : String) {b : Args}
    → take_backend a (some value) ≡ go_on b
    → Takes a "--backend" value b
unfolding take_backend
take_backend-Takes a value {b} e = elim (Bool-cases (str_eq value "fake")) [
  | inl f ↦ fake_backend refl ((eq_iff value "fake").0 f) (cc (rw f at e))
  | inr not_fake ↦ elim (Bool-cases (str_eq value "ebpf")) [
    | inl k ↦ ebpf_backend refl ((eq_iff value "ebpf").0 k) (cc (rw (not_fake, k) at e))
    | inr unknown ↦ absurd (cc (rw (not_fake, unknown) at e))
  ]
]

take_grace_ms-Takes :
    (a : Args) (value : String) {b : Args}
    → take_grace_ms a (some value) ≡ go_on b
    → Takes a "--grace-ms" value b
unfolding take_grace_ms
take_grace_ms-Takes a value {b} e = elim (Option-cases (parse_u64 value)) [
  | inl bad ↦ absurd (cc (rw (bad, take_grace_ms) at e))
  | inr (ms, good) ↦ grace_ms refl good (cc (rw (good, take_grace_ms) at e))
]

pub step-Takes :
    (a : Args) (arg value : String) {b : Args}
    → step a arg (some value) ≡ go_on b
    → Takes a arg value b
unfolding step
step-Takes a arg value {b} e = elim (Bool-cases (str_eq arg "-h" || str_eq arg "--help")) [
  | inl h ↦ absurd (cc (rw h at e))
  | inr no_help ↦ elim (Bool-cases (str_eq arg "-V" || str_eq arg "--version")) [
    | inl v ↦ absurd (cc (rw (no_help, v) at e))
    | inr no_version ↦ elim (Bool-cases (str_eq arg "--backend")) [
      | inl k ↦
          rw ((eq_iff arg "--backend").0 k)
            (take_backend-Takes a value (rw (no_help, no_version, k) at e))
      | inr no_backend ↦ elim (Bool-cases (str_eq arg "--events-file")) [
        | inl f ↦
            events_file ((eq_iff arg "--events-file").0 f)
              (cc (rw (no_help, no_version, no_backend, f) at e))
        | inr no_file ↦ elim (Bool-cases (str_eq arg "--grace-ms")) [
          | inl g ↦
              rw ((eq_iff arg "--grace-ms").0 g) (
                take_grace_ms-Takes a value (rw (no_help, no_version, no_backend, no_file, g) at e))
          | inr no_grace ↦
              absurd (cc (rw (no_help, no_version, no_backend, no_file, no_grace) at e))
        ]
      ]
    ]
  ]
]

Takes-step :
    {a b : Args} {arg value : String} → Takes a arg value b → step a arg (some value) ≡ go_on b
unfolding step
Takes-step (fake_backend p q r) = rw (p, q, r)
Takes-step (ebpf_backend p q r) = rw (p, q, r)
Takes-step (events_file p r) = rw (p, r)
Takes-step (grace_ms p q r) = rw (p, r, q, take_grace_ms)

-- What follows an accepted sequence of options is parsed from the variables that it leaves.
pub parse_loop-append :
    {a b : Args} {argv : List String} (rest : List String)
    → Accepts a argv b
    → parse_loop a (argv ++ rest) ≡ parse_loop b rest
unfolding parse_loop
parse_loop-append rest done = refl
parse_loop-append rest (option t more) = rw (Takes-step t, parse_loop) (parse_loop-append rest more)

step-ne-run :
    (a : Args) (arg : String) (next : Option String) (b : Args) → step a arg next ≢ stop (run b)
unfolding step take_backend take_events_file take_grace_ms
step-ne-run a arg none b e = ground arith
step-ne-run a arg (some value) b e = ground arith

pub Step-cases : (s : Step) → ((p : Parsed) × (s ≡ stop p)) ⊎ ((b : Args) × (s ≡ go_on b))
Step-cases (stop p) = inl (p, refl)
Step-cases (go_on b) = inr (b, refl)

parse_loop-Accepts :
    (a : Args) (argv : List String) {b : Args} → parse_loop a argv ≡ run b → Accepts a argv b
unfolding parse_loop
parse_loop-Accepts a [] {b} e = let same : a ≡ b = cc in rw (← same) done
parse_loop-Accepts a (arg ∷ []) {b} e = elim (Step-cases (step a arg none)) [
  | inl (p, stops) ↦ absurd (step-ne-run a arg none b (cc (stops, rw (stops, parse_loop) at e)))
  | inr (c, goes) ↦ absurd (step-none a arg goes)
]
parse_loop-Accepts a (arg ∷ value ∷ rest) {b} e = elim (Step-cases (step a arg (some value))) [
  | inl (p, stops) ↦
      absurd (step-ne-run a arg (some value) b (cc (stops, rw (stops, parse_loop) at e)))
  | inr (c, goes) ↦
      option (step-Takes a arg value goes) (parse_loop-Accepts c rest (rw (goes, parse_loop) at e))
]

-- A command line is accepted, with certain settings, exactly when it is a sequence of options with
-- valid values that sets them from the defaults.
pub parse_args-Accepts :
    (argv : List String) (b : Args) → (parse_args argv ≡ run b) ↔ Accepts defaults argv b
unfolding parse_args
parse_args-Accepts argv b =
    (parse_loop-Accepts defaults argv, λ h. rw append-nil at (parse_loop-append [] h))
