-- ===== src/Tests/BuildRuns.antt =====
-- The build script in a small environment, and an instance of its theorem.
use mcpfz_probe.Base.{
  String, ◌<>◌, ◌≡◌, refl, Bool, true, false, some, List, [], ◌∷◌, ◌⊎◌, str_eq, if◌then◌else◌,
}
use mcpfz_probe.Io.{ok, err}
use mcpfz_probe.Build.{Environment, Effect, copying, main}
use mcpfz_probe.Build.Laws.{Stages, main-Stages}

abbrev building : (feature : Bool) → (status : Bool) → Environment
building feature status = record {
  has_var = λ name. feature;
  var = λ name. if str_eq name "OUT_DIR" then some "/out" else some "/src";
  status = λ command. some status;
  copy = λ source target. ok tt;
  print_line = λ text. ok tt;
  join = λ a b. a <> "/" <> b;
}

main-Stages_example :
    ((true ≡ false) × (main (building true true) [] ≡ (ok tt, [])))
    ⊎ ((true ≡ true) × Stages (building true true) (main (building true true) []))
main-Stages_example = main-Stages (building true true)

-- The file that `ebpf.rs` includes.
abbrev staged : List Effect → String
staged (e ∷ copying source target ∷ rest) = target
staged _ = ""

staged_file : staged (main (building true true) []).1 ≡ "/out" <> "/mcpfz-probe-ebpf.bpf.o"
unfolding main
staged_file = refl

failed_build : (main (building true false) []).0 ≡ err "eBPF crate build failed"
unfolding main
failed_build = refl
