-- ===== src/Tests/SetupRuns.antt =====
-- The start of the loader with a small library, and instances of its theorems.
use mcpfz_probe.Base.{
  String, ◌≡◌, refl, none, some, List, [], ◌∷◌, ◌++◌, map, str_eq, if◌then◌else◌,
}
use mathlib.Core.Bool.{not}
use mathlib.Core.List.{Perm}
use mcpfz_probe.Io.{ok, err}
use mcpfz_probe.Kernel.{handlers}
use mcpfz_probe.Setup.{Aya, Tracepoint, programs, attach_each, open_ring}
use mcpfz_probe.Setup.Laws.{Works, Stops, hook, attach_each-Stops, programs-handlers}

-- A library that keeps a list of what is attached, and that lacks one program.
abbrev library : (lacks : String) → Aya
library lacks = record {
  Ebpf = List Tracepoint;
  Map = Unit {0};
  Ring = Unit {0};
  Error = String;
  describe = λ e. e;
  load_object = ok [];
  has_program = λ name bpf. not (str_eq name lacks);
  as_tracepoint = λ name bpf. ok tt;
  load = λ name bpf. (ok tt, bpf);
  attach = λ name category event bpf.
      (ok tt, bpf ++ (record { name = name; category = category; event = event } ∷ []));
  take_map = λ name bpf. (if str_eq name "EVENTS" then some tt else none, bpf);
  ring_of = λ m. ok tt;
}

library-Works : Works ⦃A = library ""⦄ (λ bpf. bpf)
unfolding handlers
library-Works = record {
  has = (
    λ b. refl,
    (
      λ b. refl,
      (λ b. refl, (λ b. refl, (λ b. refl, (λ b. refl, (λ b. refl, (λ b. refl, (λ b. refl, tt))))))),
    ),
  );
  typed = λ name bpf. refl;
  loads = λ name bpf. refl;
  load_keeps = λ name bpf. refl;
  attaches = λ name category event bpf. refl;
  attach_adds = λ name category event bpf. refl;
}

programs-handlers_example :
    (after : List Tracepoint) × (attach_each ⦃A = library ""⦄ programs [] ≡ (ok tt, after))
    × (after ≡ [] ++ programs)
    × Perm programs (map (hook ⦃A = library ""⦄) handlers)
programs-handlers_example = programs-handlers ⦃A = library ""⦄ (λ bpf. bpf) library-Works []

attach_each-Stops_example :
    Stops ⦃A = library "sys_enter_sendto"⦄ programs []
      (attach_each ⦃A = library "sys_enter_sendto"⦄ programs [])
attach_each-Stops_example = attach_each-Stops ⦃A = library "sys_enter_sendto"⦄ programs []

-- The error names the program that is missing.
missing_program :
    open_ring ⦃A = library "sys_enter_sendto"⦄ ≡ err "bpf program 'sys_enter_sendto' not found"
unfolding open_ring
missing_program = refl

opened : open_ring ⦃A = library ""⦄ ≡ ok tt
unfolding open_ring
opened = refl
