-- ===== src/Build.antt =====
-- crates/mcpfz-probe/build.rs: how the object file of the kernel program gets into the build.
pub mod Laws
use mcpfz_probe.Base.{
  String, ◌<>◌, Bool, true, false, Option, none, some, List, [], ◌∷◌, ◌++◌, if◌then◌else◌,
}
use mcpfz_probe.Io.{Result, ok, err}
use mcpfz_probe.Exec.{Exec, pure, modify, ◌>>=◌, ◌>>◌}

-- A `Command`, with the variables that it sets and removes.
pub record Command : Type 0 where
  pub program : String
  pub args : List String
  pub current_dir : String
  pub sets : List (String × String)
  pub removes : List String

pub data Effect : Type 0 where
  ran : Command → Effect
  -- a copy was begun: the target may have changed, even if the copy fails
  copying : (source target : String) → Effect
  printed : String → Effect

-- What the script finds: the variables of the environment, how a command ends, if it can be run,
-- whether a copy succeeds, whether a line can be written to stdout, and `PathBuf::join`.
pub record Environment : Type 0 where
  pub has_var : String → Bool
  pub var : String → Option String
  pub status : Command → Option Bool
  pub copy : (source target : String) → Result (Unit {0}) String
  pub print_line : String → Result (Unit {0}) String
  pub join : String → String → String

-- The script: it panics with a text, and its effects stay.
abbrev pub Script : Type 0 → Type 0
Script A = Exec (List Effect) String A

module _ (env : Environment) where
  abbrev pub ebpf_dir_of : (manifest_dir : String) → String
  ebpf_dir_of manifest_dir = env.join (env.join manifest_dir "..") "mcpfz-probe-ebpf"

  abbrev pub target_dir_of : (out_dir : String) → String
  target_dir_of out_dir = env.join out_dir "ebpf-target"

  abbrev pub object_of : (out_dir : String) → String
  object_of out_dir =
      env.join (env.join (env.join (target_dir_of out_dir) "bpfel-unknown-none") "release")
        "mcpfz-probe-ebpf"

  abbrev pub staged_of : (out_dir : String) → String
  staged_of out_dir = env.join out_dir "mcpfz-probe-ebpf.bpf.o"

  abbrev pub cargo_build : (ebpf_dir target_dir : String) → Command
  cargo_build ebpf_dir target_dir = record {
    program = "cargo";
    args =
        "+nightly" ∷ "build" ∷ "--release" ∷ "--target" ∷ "bpfel-unknown-none" ∷ "-Z"
        ∷ "build-std=core" ∷ [];
    current_dir = ebpf_dir;
    sets = ("CARGO_TARGET_DIR", target_dir) ∷ ("RUSTUP_TOOLCHAIN", "nightly") ∷ [];
    removes =
        "CARGO" ∷ "RUSTC" ∷ "RUSTC_WORKSPACE_WRAPPER" ∷ "RUSTFLAGS" ∷ "CARGO_ENCODED_RUSTFLAGS"
        ∷ [];
  }

  abbrev panic : {A : Type 0} → String → Script A
  panic message done = (err message, done)

  -- `env::var(name)`, under `expect` or `unwrap`.
  abbrev wanted : Option String → (message : String) → Script String
  wanted none message = panic message
  wanted (some value) message = pure value

  abbrev want : (name message : String) → Script String
  want name message = wanted (env.var name) message

  abbrev log : Effect → Script (Unit {0})
  log effect = modify (λ done. done ++ (effect ∷ []))

  -- The status of the command, once it ran.
  abbrev ended : Option Bool → Script (Unit {0})
  ended none = panic "failed to invoke cargo for the eBPF crate"
  ended (some false) = panic "eBPF crate build failed"
  ended (some true) = pure tt

  abbrev invoke : Command → Script (Unit {0})
  invoke command = do log (ran command); ended (env.status command)

  abbrev copy_result : (source target : String) → Result (Unit {0}) String → Script (Unit {0})
  copy_result source target (ok u) = pure tt
  copy_result source target (err e) = panic ("copy " <> source <> " -> " <> target <> ": " <> e)

  abbrev copy_to : (source target : String) → Script (Unit {0})
  copy_to source target = do
    log (copying source target)
    copy_result source target (env.copy source target)

  abbrev print_result : String → Result (Unit {0}) String → Script (Unit {0})
  print_result text (ok u) = log (printed text)
  print_result text (err e) = panic ("failed printing to stdout: " <> e)

  -- `println!`, which panics where stdout cannot be written.
  abbrev pub print : String → Script (Unit {0})
  print text = print_result text (env.print_line text)

  -- The lines for cargo, which are printed last.
  abbrev pub announce : (ebpf_dir : String) → Script (Unit {0})
  announce ebpf_dir = do
    print ("cargo:rerun-if-changed=" <> env.join ebpf_dir "src")
    print ("cargo:rerun-if-changed=" <> env.join ebpf_dir "Cargo.toml")
    print "cargo:rerun-if-changed=../mcpfz-probe-ebpf-common/src/lib.rs"

  -- The part for a build with the feature.
  unfoldable pub stage : Script (Unit {0})
  stage = do
    out_dir ← want "OUT_DIR" "OUT_DIR set by cargo"
    manifest_dir ← want "CARGO_MANIFEST_DIR" "called `Result::unwrap()` on an `Err` value"
    invoke (cargo_build (ebpf_dir_of manifest_dir) (target_dir_of out_dir))
    copy_to (object_of out_dir) (staged_of out_dir)
    announce (ebpf_dir_of manifest_dir)

  unfoldable pub main : Script (Unit {0})
  unfolding stage
  main = if env.has_var "CARGO_FEATURE_EBPF" then stage else pure tt
