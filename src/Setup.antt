-- ===== src/Setup.antt =====
-- crates/mcpfz-probe/src/ebpf.rs, lines 35 to 62: how the loader loads and attaches the programs of
-- the kernel before it starts its threads. `aya` is an interface; its errors are boxed as texts.
pub mod Laws
use mcpfz_probe.Base.{String, ◌<>◌, Bool, Option, none, some, List, [], ◌∷◌, if◌then◌else◌}
use mcpfz_probe.Io.{Result, ok, err}
use mcpfz_probe.Exec.{Exec, pure, gets, ◌>>=◌, ◌>>◌}

-- What `run` calls of `aya`: `Ebpf`, its programs by name, its maps and `RingBuf`.
pub record Aya : Type 1 where
  pub Ebpf : Type 0
  pub Map : Type 0
  pub Ring : Type 0
  pub Error : Type 0
  -- `Display`
  pub describe : Error → String
  -- `Ebpf::load` of the object file in the build
  pub load_object : Result Ebpf Error
  -- `program_mut`, and `try_into` of a program that is found
  pub has_program : String → Ebpf → Bool
  pub as_tracepoint : String → Ebpf → Result (Unit {0}) Error
  -- `TracePoint::load` and `TracePoint::attach` of a program
  pub load : String → Exec Ebpf Error (Unit {0})
  pub attach : String → (category event : String) → Exec Ebpf Error (Unit {0})
  pub take_map : String → Ebpf → Option Map × Ebpf
  -- `RingBuf::try_from`
  pub ring_of : Map → Result Ring Error

-- A program: its name, and the category and the event of its tracepoint.
pub record Tracepoint : Type 0 where
  pub name : String
  pub category : String
  pub event : String

abbrev syscall : String → Tracepoint
syscall name = record { name = name; category = "syscalls"; event = name }

-- `PROGRAMS`.
abbrev pub programs : List Tracepoint
programs =
    syscall "sys_enter_execve"
    ∷ syscall "sys_enter_connect"
    ∷ syscall "sys_enter_sendto"
    ∷ syscall "sys_enter_openat"
    ∷ syscall "sys_enter_unlinkat"
    ∷ syscall "sys_enter_unlink"
    ∷ syscall "sys_enter_fchmodat"
    ∷ syscall "sys_enter_chmod"
    ∷ syscall "sys_enter_ptrace"
    ∷ []

module _ ⦃A : Aya⦄ where
  abbrev boxed : {B : Type 0} → Result B A.Error → Result B String
  boxed (ok b) = ok b
  boxed (err e) = err (A.describe e)

  -- A call of the library under `?`.
  abbrev pub call : {B : Type 0} → Exec A.Ebpf A.Error B → Exec A.Ebpf String B
  call m bpf = let (r, bpf') = m bpf in (boxed r, bpf')

  abbrev pub found : String → A.Ebpf → Result (Unit {0}) String
  found name bpf =
      if A.has_program name bpf
      then boxed (A.as_tracepoint name bpf)
      else err ("bpf program '" <> name <> "' not found")

  -- The body of the loop over `PROGRAMS`.
  unfoldable pub attach_program : Tracepoint → Exec A.Ebpf String (Unit {0})
  attach_program p = do
    (λ bpf. (found p.name bpf, bpf))
    call (A.load p.name)
    call (A.attach p.name p.category p.event)

  unfoldable pub attach_each : List Tracepoint → Exec A.Ebpf String (Unit {0})
  unfolding attach_program
  attach_each [] = pure tt
  attach_each (p ∷ rest) = let more = attach_each rest in attach_program p >> more

  abbrev ring_in : Option A.Map → Result A.Ring String
  ring_in none = err "map 'EVENTS' not found"
  ring_in (some m) = boxed (A.ring_of m)

  abbrev pub take_ring : Exec A.Ebpf String A.Ring
  take_ring bpf = let (m, bpf') = A.take_map "EVENTS" bpf in (ring_in m, bpf')

  -- `bpf` after its programs are attached, and the ring, or the error that `run` returns.
  unfoldable pub prepare : A.Ebpf → Result A.Ring String × A.Ebpf
  unfolding attach_each
  prepare = attach_each programs >> take_ring

  abbrev prepared : Result A.Ebpf String → Result A.Ring String
  unfolding prepare
  prepared (ok bpf) = (prepare bpf).0
  prepared (err e) = err e

  unfoldable pub open_ring : Result A.Ring String
  unfolding prepared
  open_ring = prepared (boxed A.load_object)
