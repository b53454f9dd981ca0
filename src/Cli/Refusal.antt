-- ===== src/Cli/Refusal.antt =====
-- Which command lines are refused: those that neither set the settings nor ask for information.
use mathlib.Core.Path.{subst}
use mcpfz_probe.Base.{
  String, ◌≡◌, ◌≢◌, refl, sym, ◌∙◌, ap, ◌⊎◌, inl, inr, ◌↔◌, ◌||◌, Option, none, some, List, [], ◌∷◌,
  ◌++◌, arith, str_eq, eq_iff, Bool-cases, true, false,
}
use mcpfz_probe.Cli.{
  Args, Parsed, run, help, version, error, stop, step, parse_loop, defaults, parse_args,
  take_backend, take_events_file, take_grace_ms,
}
use mcpfz_probe.Cli.Grammar.{
  Accepts, done, option, step-Takes, step-none, parse_loop-append, parse_args-Accepts, Step-cases,
}

-- A flag that asks for the help or the version.
abbrev pub IsFlag : String → Type 0
IsFlag flag = ((flag ≡ "-h") ⊎ (flag ≡ "--help")) ⊎ ((flag ≡ "-V") ⊎ (flag ≡ "--version"))

-- Such a flag after valid options.
abbrev pub Informs : Args → List String → Type 0
Informs a argv =
    (before : List String) × (b : Args) × (flag : String) × (rest : List String) × (argv
      ≡ before ++ (flag ∷ rest))
    × Accepts a before b
    × IsFlag flag

abbrev Answer : Parsed → Type 0
Answer help = Unit {0}
Answer version = Unit {0}
Answer _ = ⊥

either :
    (x y : String) (arg : String) → (str_eq arg x || str_eq arg y) ≡ true → (arg ≡ x) ⊎ (arg ≡ y)
either x y arg e = elim (Bool-cases (str_eq arg x)) [
  | inl first ↦ inl ((eq_iff arg x).0 first)
  | inr not_first ↦ inr ((eq_iff arg y).0 (rw not_first at e))
]

-- An argument that is no such flag is not answered.
step_not_answered :
    (a : Args) (arg : String) (next : Option String) (p : Parsed)
    → (str_eq arg "-h" || str_eq arg "--help") ≡ false
    → (str_eq arg "-V" || str_eq arg "--version") ≡ false
    → step a arg next ≡ stop p
    → Answer p
    → ⊥
unfolding step take_backend take_events_file take_grace_ms
step_not_answered a arg none help h v e asks = ground arith
step_not_answered a arg none version h v e asks = ground arith
step_not_answered a arg (some value) help h v e asks = ground arith
step_not_answered a arg (some value) version h v e asks = ground arith
step_not_answered a arg next (run b) h v e asks = asks
step_not_answered a arg next (error m) h v e asks = asks

step-IsFlag :
    (a : Args) (arg : String) (next : Option String) (p : Parsed)
    → step a arg next ≡ stop p
    → Answer p
    → IsFlag arg
step-IsFlag a arg next p e asks = elim (Bool-cases (str_eq arg "-h" || str_eq arg "--help")) [
  | inl h ↦ inl (either "-h" "--help" arg h)
  | inr no_help ↦ elim (Bool-cases (str_eq arg "-V" || str_eq arg "--version")) [
    | inl v ↦ inr (either "-V" "--version" arg v)
    | inr no_version ↦ absurd (step_not_answered a arg next p no_help no_version e asks)
  ]
]

-- A command line that is answered asks for it.
parse_loop-Informs :
    (a : Args) (argv : List String) (p : Parsed) → parse_loop a argv ≡ p → Answer p → Informs a argv
unfolding parse_loop
parse_loop-Informs a [] p e asks = absurd (subst Answer (sym e) asks)
parse_loop-Informs a (arg ∷ []) p e asks = elim (Step-cases (step a arg none)) [
  | inl (q, stops) ↦
      let same : q ≡ p = rw (stops, parse_loop) at e in
      ([], a, arg, [], refl, done, step-IsFlag a arg none p (stops ∙ ap stop same) asks)
  | inr (c, goes) ↦ absurd (step-none a arg goes)
]
parse_loop-Informs a (arg ∷ value ∷ rest) p e asks = elim (Step-cases (step a arg (some value))) [
  | inl (q, stops) ↦
      let same : q ≡ p = rw (stops, parse_loop) at e in
      (
        [],
        a,
        arg,
        value ∷ rest,
        refl,
        done,
        step-IsFlag a arg (some value) p (stops ∙ ap stop same) asks,
      )
  | inr (c, goes) ↦
      let (before, b, flag, after, split, accepted, asked) =
        parse_loop-Informs c rest p (rw (goes, parse_loop) at e) asks in
      (
        arg ∷ value ∷ before,
        b,
        flag,
        after,
        ap (λ l. arg ∷ value ∷ l) split,
        option (step-Takes a arg value goes) accepted,
        asked,
      )
]

step_flag :
    (a : Args) (flag : String) (next : Option String)
    → IsFlag flag
    → (p : Parsed) × (step a flag next ≡ stop p) × Answer p
unfolding step
step_flag a flag next (inl (inl e)) = (help, rw e, tt)
step_flag a flag next (inl (inr e)) = (help, rw e, tt)
step_flag a flag next (inr (inl e)) = (version, rw e, tt)
step_flag a flag next (inr (inr e)) = (version, rw e, tt)

parse_loop_flag :
    (a : Args) (flag : String) (rest : List String)
    → IsFlag flag
    → Answer (parse_loop a (flag ∷ rest))
unfolding parse_loop
parse_loop_flag a flag [] h =
    let (p, stops, asks) = step_flag a flag none h in rw (stops, parse_loop) asks
parse_loop_flag a flag (value ∷ rest) h =
    let (p, stops, asks) = step_flag a flag (some value) h in rw (stops, parse_loop) asks

Informs-Answer : (argv : List String) → Informs defaults argv → Answer (parse_args argv)
unfolding parse_args
Informs-Answer argv (before, b, flag, rest, split, accepted, asked) =
    subst Answer (sym (ap (parse_loop defaults) split ∙ parse_loop-append (flag ∷ rest) accepted))
      (parse_loop_flag b flag rest asked)

-- A command line that neither sets settings nor asks for information.
abbrev pub Bad : List String → Type 0
Bad argv = ((a : Args) → Accepts defaults argv a → ⊥) × (Informs defaults argv → ⊥)

error_not_run : {m : String} {b : Args} → error m ≢ run b
error_not_run e = ground arith

-- `parse_args` refuses exactly the bad command lines: those that are no sequence of options with valid
-- values, and that do not ask for the help or the version after such a sequence.
pub parse_args-Bad : (argv : List String) → ((m : String) × (parse_args argv ≡ error m)) ↔ Bad argv
unfolding parse_args
parse_args-Bad argv = (
  λ (m, e). (
    λ a h. error_not_run (sym e ∙ (parse_args-Accepts argv a).1 h),
    λ h. subst Answer e (Informs-Answer argv h),
  ),
  λ bad. refused (parse_args argv) refl bad,
)
  where
    refused :
        (p : Parsed) → parse_args argv ≡ p → Bad argv → (m : String) × (parse_args argv ≡ error m)
    refused (error m) e bad = (m, e)
    refused (run a) e bad = absurd (bad.0 a ((parse_args-Accepts argv a).0 e))
    refused help e bad = absurd (bad.1 (parse_loop-Informs defaults argv help e tt))
    refused version e bad = absurd (bad.1 (parse_loop-Informs defaults argv version e tt))
