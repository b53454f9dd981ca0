-- ===== src/Build/Laws.antt =====
-- When the build copies an object file into place, and which.
use mcpfz_probe.Base.{
  String, ◌<>◌, ◌≡◌, refl, sym, ◌≢◌, Bool, true, false, Bool-cases, Option, none, some, List, [],
  ◌∷◌, ◌++◌, append-nil, append_assoc, ap, ◌∙◌, ◌⊎◌, inl, inr,
}
use mathlib.Core.Path.{subst}
use mcpfz_probe.Io.{Result, ok, err}
use mcpfz_probe.Build.{
  Environment, Effect, ran, copying, printed, Command, stage, main, announce, cargo_build,
  ebpf_dir_of, target_dir_of, object_of, staged_of,
}

module _ (env : Environment) where
  -- The effects of a script begin no copy.
  abbrev pub Unstaged : List Effect → Type 0
  Unstaged [] = Unit {0}
  Unstaged (copying source target ∷ rest) = ⊥
  Unstaged (_ ∷ rest) = Unstaged rest

  -- The object file was built, and then its copy to the place in the build was begun, once.
  pub record Built (effects : List Effect) : Type 0 where
    pub out_dir : String
    pub manifest_dir : String
    pub rest : List Effect
    pub out : env.var "OUT_DIR" ≡ some out_dir
    pub manifest : env.var "CARGO_MANIFEST_DIR" ≡ some manifest_dir
    pub succeeded :
        env.status (cargo_build env (ebpf_dir_of env manifest_dir) (target_dir_of env out_dir))
        ≡ some true
    pub order :
        effects
        ≡ ran (cargo_build env (ebpf_dir_of env manifest_dir) (target_dir_of env out_dir))
          ∷ copying (object_of env out_dir) (staged_of env out_dir)
          ∷ rest
    pub once : Unstaged rest

  status_cases : (status : Option Bool) → (status ≡ some true) ⊎ (status ≢ some true)
  status_cases none = inr (λ e. cc e)
  status_cases (some true) = inl refl
  status_cases (some false) = inr (λ e. cc e)

  -- A script ends well with the object built and copied, or it panics: before a copy was begun, or
  -- after the object was built.
  abbrev pub Stages : Result (Unit {0}) String × List Effect → Type 0
  Stages (ok u, effects) =
      (b : Built effects) × (env.copy (object_of env b.out_dir) (staged_of env b.out_dir) ≡ ok tt)
  Stages (err e, effects) = Unstaged effects ⊎ Built effects

  abbrev command_of : (out_dir manifest_dir : String) → Command
  command_of out_dir manifest_dir =
      cargo_build env (ebpf_dir_of env manifest_dir) (target_dir_of env out_dir)

  Result-cases : (r : Result (Unit {0}) String) → (r ≡ ok tt) ⊎ ((e : String) × (r ≡ err e))
  Result-cases (ok u) = inl refl
  Result-cases (err e) = inr (e, refl)

  -- What the lines for cargo add to the effects.
  announced :
      (dir : String) (done : List Effect)
      → (r : Result (Unit {0}) String) × (rest : List Effect) × (announce env dir done
          ≡ (r, done ++ rest))
        × Unstaged rest
  announced dir done = elim (Result-cases (env.print_line src)) [
    | inr (e, h) ↦ (err ("failed printing to stdout: " <> e), [], rw (h, append-nil) refl, tt)
    | inl h ↦ elim (Result-cases (env.print_line toml)) [
      | inr (e, k) ↦
          (err ("failed printing to stdout: " <> e), printed src ∷ [], rw (h, k) refl, tt)
      | inl k ↦ elim (Result-cases (env.print_line common)) [
        | inr (e, l) ↦ (
          err ("failed printing to stdout: " <> e),
          printed src ∷ printed toml ∷ [],
          rw (h, k, l)
              (ap (λ x. (err ("failed printing to stdout: " <> e), x)) (append_assoc done _ _)),
          tt,
        )
        | inl l ↦ (
          ok tt,
          printed src ∷ printed toml ∷ printed common ∷ [],
          rw (h, k, l)
              (ap (λ x. (ok tt, x))
                (ap (λ x. x ++ (printed common ∷ [])) (append_assoc done _ _)
                  ∙ append_assoc done _ _)),
          tt,
        )
      ]
    ]
  ]
    where
      src : String
      src = "cargo:rerun-if-changed=" <> env.join dir "src"

      toml : String
      toml = "cargo:rerun-if-changed=" <> env.join dir "Cargo.toml"

      common : String
      common = "cargo:rerun-if-changed=../mcpfz-probe-ebpf-common/src/lib.rs"

  stage_no_out : env.var "OUT_DIR" ≡ none → stage env [] ≡ (err "OUT_DIR set by cargo", [])
  unfolding stage
  stage_no_out e = rw e refl

  module _ (out_dir manifest_dir : String) (out : env.var "OUT_DIR" ≡ some out_dir) where
    stage_no_manifest :
        env.var "CARGO_MANIFEST_DIR" ≡ none
        → stage env [] ≡ (err "called `Result::unwrap()` on an `Err` value", [])
    unfolding stage
    stage_no_manifest e = rw (out, e) refl

    module _ (manifest : env.var "CARGO_MANIFEST_DIR" ≡ some manifest_dir) where
      stage_failed :
          (status : Option Bool)
          → env.status (command_of out_dir manifest_dir) ≡ status
          → status ≢ some true
          → Stages (stage env [])
      unfolding stage
      stage_failed none e h =
          let eq : stage env [] ≡ (
            err "failed to invoke cargo for the eBPF crate",
            ran (command_of out_dir manifest_dir) ∷ [],
          ) =
            rw (out, manifest, e) refl in
          subst Stages (sym eq) (inl tt)
      stage_failed (some false) e h =
          let eq : stage env []
              ≡ (err "eBPF crate build failed", ran (command_of out_dir manifest_dir) ∷ []) =
            rw (out, manifest, e) refl in
          subst Stages (sym eq) (inl tt)
      stage_failed (some true) e h = absurd (h refl)

      begun : List Effect → List Effect
      begun rest =
          ran (command_of out_dir manifest_dir)
          ∷ copying (object_of env out_dir) (staged_of env out_dir)
          ∷ rest

      module _ (good : env.status (command_of out_dir manifest_dir) ≡ some true) where
        begun-Built : (rest : List Effect) → Unstaged rest → Built (begun rest)
        unfolding begun
        begun-Built rest once = record {
          out_dir = out_dir;
          manifest_dir = manifest_dir;
          rest = rest;
          out = out;
          manifest = manifest;
          succeeded = good;
          order = refl;
          once = once;
        }

        begun-Stages :
            env.copy (object_of env out_dir) (staged_of env out_dir) ≡ ok tt
            → (r : Result (Unit {0}) String) (rest : List Effect) → Unstaged rest
            → Stages (r, begun rest)
        unfolding begun-Built
        begun-Stages copies (ok u) rest once = (begun-Built rest once, copies)
        begun-Stages copies (err e) rest once = inr (begun-Built rest once)

        stage_built :
            (copied : Result (Unit {0}) String)
            → env.copy (object_of env out_dir) (staged_of env out_dir) ≡ copied
            → Stages (stage env [])
        unfolding stage begun
        stage_built (err e) failed =
            let eq : stage env [] ≡ (
              err (
                  "copy " <> object_of env out_dir <> " -> " <> staged_of env out_dir <> ": " <> e),
              begun [],
            ) =
              rw (out, manifest, good, failed) refl in
            subst Stages (sym eq) (inr (begun-Built [] tt))
        stage_built (ok u) copies =
            let eq : stage env [] ≡ announce env (ebpf_dir_of env manifest_dir) (begun []) =
              rw (out, manifest, good, copies) refl in
            let (r, rest, tail, once) = announced (ebpf_dir_of env manifest_dir) (begun []) in
            subst Stages (sym (eq ∙ tail)) (begun-Stages copies r rest once)

  stage-Stages :
      (out manifest : Option String)
      → env.var "OUT_DIR" ≡ out
      → env.var "CARGO_MANIFEST_DIR" ≡ manifest
      → Stages (stage env [])
  stage-Stages none manifest e f = subst Stages (sym (stage_no_out e)) (inl tt)
  stage-Stages (some out_dir) none e f =
      subst Stages (sym (stage_no_manifest out_dir "" e f)) (inl tt)
  stage-Stages (some out_dir) (some manifest_dir) e f =
      elim (status_cases (env.status (command_of out_dir manifest_dir))) [
        | inl good ↦
            stage_built out_dir manifest_dir e f good
              (env.copy (object_of env out_dir) (staged_of env out_dir)) refl
        | inr bad ↦ stage_failed out_dir manifest_dir e f _ refl bad
      ]

  -- A build without the feature does nothing. One with it ends well only after the object file was
  -- built and copied to its place in the build, in this order and once. If it panics, it has begun
  -- no copy, or it has begun this one copy after the object file was built.
  pub main-Stages :
      ((env.has_var "CARGO_FEATURE_EBPF" ≡ false) × (main env [] ≡ (ok tt, [])))
      ⊎ ((env.has_var "CARGO_FEATURE_EBPF" ≡ true) × Stages (main env []))
  unfolding main
  main-Stages = elim (Bool-cases (env.has_var "CARGO_FEATURE_EBPF")) [
    | inl on ↦
        inr (on, rw on (stage-Stages (env.var "OUT_DIR") (env.var "CARGO_MANIFEST_DIR") refl refl))
    | inr off ↦ inl (off, rw off refl)
  ]
