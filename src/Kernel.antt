-- ===== src/Kernel.antt =====
-- crates/mcpfz-probe-ebpf/src/main.rs: the kernel program. The helpers of `aya_ebpf` are an interface;
-- the ring is the list of the records that were submitted and not taken yet.
pub mod Sound
pub mod Header
pub mod Memory
pub mod Capture
pub mod Path
pub mod Net
pub mod Ptrace
pub mod Report
use mcpfz_probe.Base.{
  ℕ, ◌+◌, ◌/◌, ◌%◌, ◌^◌, String, Option, none, some, List, [], ◌∷◌, ◌++◌, ◌==◌, if◌then◌else◌,
}
use mcpfz_probe.Base.Int.{ℤ, pos}
use mcpfz_probe.Io.{Result, ok, err}
use mcpfz_probe.Events.{
  ExecEvent, NetEvent, PathEvent, PtraceEvent, exec_bytes, net_bytes, path_bytes, ptrace_bytes,
  kind_exec, kind_connect, kind_sendto, kind_file_open, kind_unlink, kind_chmod, kind_ptrace,
  le_value, field, filename_len,
}

-- What one run of a program is given: the helpers' answers to it.
pub record Context : Type 0 where
  -- `ctx.read_at` of the 8 bytes at an offset
  pub read_at : ℕ → Option ℕ
  -- `bpf_get_current_pid_tgid` and `bpf_get_current_comm`
  pub pid_tgid : ℕ
  pub current_comm : Option (List ℕ)
  -- `bpf_probe_read_user` of so many bytes at an address
  pub read_user : (size address : ℕ) → Option (List ℕ)
  -- what the buffer holds after `bpf_probe_read_user_str_bytes` at an address, whose result the
  -- program drops
  pub read_user_str : (address : ℕ) → (buffer : List ℕ) → List ℕ
  -- `EVENTS.reserve` of so many bytes: what the memory of the entry holds, if the ring has room
  pub reserve : (size : ℕ) → Option (List ℕ)

abbrev pub af_inet : ℕ
af_inet = 2

abbrev pub af_inet6 : ℕ
af_inet6 = 10

abbrev pub arg0 : ℕ
arg0 = 16

abbrev pub arg1 : ℕ
arg1 = 24

abbrev pub arg2 : ℕ
arg2 = 32

abbrev pub arg4 : ℕ
arg4 = 48

abbrev pub or_zero : Option ℕ → ℕ
or_zero none = 0
or_zero (some n) = n

abbrev pub word_of : Option (List ℕ) → ℕ
word_of none = 0
word_of (some bytes) = le_value bytes

abbrev pub or_bytes : Option (List ℕ) → List ℕ → List ℕ
or_bytes none bytes = bytes
or_bytes (some read) bytes = read

-- An array of zeros, `[0u8; 16]`.
abbrev pub zeros_4 : List ℕ
zeros_4 = 0 ∷ 0 ∷ 0 ∷ 0 ∷ []

abbrev pub zeros_12 : List ℕ
zeros_12 = zeros_4 ++ (zeros_4 ++ zeros_4)

abbrev pub zeros_16 : List ℕ
zeros_16 = zeros_4 ++ zeros_12

-- `buffer[0] = 0`
abbrev pub cleared : List ℕ → List ℕ
cleared [] = []
cleared (b ∷ rest) = 0 ∷ rest

-- The padding of a record stays as it was in memory.
abbrev pub padding_of : List ℕ → ℕ
padding_of memory = le_value (field 12 4 memory)

abbrev pub Ring : Type 0
Ring = List (List ℕ)

-- A body that reserves an entry: it fails with 0 if there is no room, and else submits the record.
abbrev pub submitted : Option (List ℕ) → (List ℕ → List ℕ) → Ring → Result (Unit {0}) ℤ × Ring
submitted none record_of ring = (err (pos 0), ring)
submitted (some memory) record_of ring = (ok tt, ring ++ (record_of memory ∷ []))

module _ (ctx : Context) where
  -- The two halves of `pid_tid`.
  abbrev pub pid : ℕ
  pid = ctx.pid_tgid / 2 ^ 32

  abbrev pub tid : ℕ
  tid = ctx.pid_tgid % 2 ^ 32

  abbrev pub comm : List ℕ
  comm = or_bytes ctx.current_comm zeros_16

  -- The buffer of a path: emptied, and filled from the address in an argument.
  abbrev pub filled : Option ℕ → List ℕ → List ℕ
  filled none buffer = cleared buffer
  filled (some address) buffer = ctx.read_user_str address (cleared buffer)

  unfoldable pub exec_event : (memory : List ℕ) → ExecEvent
  exec_event memory = record {
    kind = kind_exec;
    pid = pid;
    tid = tid;
    filename = filled (ctx.read_at arg0) (field 12 filename_len memory);
    comm = comm;
  }

  unfoldable pub try_exec : Ring → Result (Unit {0}) ℤ × Ring
  unfolding exec_event exec_bytes
  try_exec = submitted (ctx.reserve 284) (λ memory. exec_bytes (exec_event memory))

  -- The value of a `u16` in user memory; the address wraps around at 64 bits.
  abbrev pub read_u16 : ℕ → ℕ
  read_u16 address = word_of (ctx.read_user 2 (address % 2 ^ 64))

  abbrev pub address_bytes : (af uaddr : ℕ) → List ℕ
  address_bytes af uaddr =
      if af == af_inet
      then or_bytes (ctx.read_user 4 ((uaddr + 4) % 2 ^ 64)) zeros_4 ++ zeros_12
      else if af == af_inet6
      then or_bytes (ctx.read_user 16 ((uaddr + 8) % 2 ^ 64)) zeros_16
      else zeros_16

  unfoldable pub net_event : (kind uaddr : ℕ) → NetEvent
  net_event kind uaddr = record {
    kind = kind;
    pid = pid;
    tid = tid;
    af = read_u16 uaddr;
    port_be = read_u16 (uaddr + 2);
    addr = address_bytes (read_u16 uaddr) uaddr;
    comm = comm;
  }

  abbrev pub net_at : (kind uaddr : ℕ) → Ring → Result (Unit {0}) ℤ × Ring
  unfolding net_event net_bytes
  net_at kind uaddr ring =
      if uaddr == 0
      then (ok tt, ring)
      else submitted (ctx.reserve 48) (λ memory. net_bytes (net_event kind uaddr)) ring

  unfoldable pub try_net : (kind addr_off : ℕ) → Ring → Result (Unit {0}) ℤ × Ring
  unfolding net_at
  try_net kind addr_off = net_at kind (or_zero (ctx.read_at addr_off))

  unfoldable pub path_event : (kind path_off arg_off : ℕ) → (memory : List ℕ) → PathEvent
  path_event kind path_off arg_off memory = record {
    kind = kind;
    pid = pid;
    tid = tid;
    arg = or_zero (ctx.read_at arg_off);
    filename = filled (ctx.read_at path_off) (field 24 filename_len memory);
    comm = comm;
  }

  unfoldable pub try_path : (kind path_off arg_off : ℕ) → Ring → Result (Unit {0}) ℤ × Ring
  unfolding path_event path_bytes
  try_path kind path_off arg_off =
      submitted (ctx.reserve 296)
        (λ memory. path_bytes (padding_of memory) (path_event kind path_off arg_off memory))

  unfoldable pub ptrace_event : PtraceEvent
  ptrace_event = record {
    kind = kind_ptrace;
    pid = pid;
    tid = tid;
    request = or_zero (ctx.read_at arg0);
    target_pid = or_zero (ctx.read_at arg1);
    comm = comm;
  }

  unfoldable pub try_ptrace : Ring → Result (Unit {0}) ℤ × Ring
  unfolding ptrace_event ptrace_bytes
  try_ptrace = submitted (ctx.reserve 48) (λ memory. ptrace_bytes (padding_of memory) ptrace_event)

-- A tracepoint program: it runs a body, drops its result and returns 0.
abbrev pub Program : Type 0
Program = Context → Ring → ℕ × Ring

abbrev pub returning_zero : (Context → Ring → Result (Unit {0}) ℤ × Ring) → Program
returning_zero body ctx ring = (0, (body ctx ring).1)

unfoldable pub sys_enter_execve : Program
unfolding try_exec
sys_enter_execve = returning_zero try_exec

unfoldable pub sys_enter_connect : Program
unfolding try_net
sys_enter_connect = returning_zero (λ ctx. try_net ctx kind_connect arg1)

unfoldable pub sys_enter_sendto : Program
unfolding try_net
sys_enter_sendto = returning_zero (λ ctx. try_net ctx kind_sendto arg4)

unfoldable pub sys_enter_openat : Program
unfolding try_path
sys_enter_openat = returning_zero (λ ctx. try_path ctx kind_file_open arg1 arg2)

unfoldable pub sys_enter_unlinkat : Program
unfolding try_path
sys_enter_unlinkat = returning_zero (λ ctx. try_path ctx kind_unlink arg1 arg2)

unfoldable pub sys_enter_fchmodat : Program
unfolding try_path
sys_enter_fchmodat = returning_zero (λ ctx. try_path ctx kind_chmod arg1 arg2)

unfoldable pub sys_enter_unlink : Program
unfolding try_path
sys_enter_unlink = returning_zero (λ ctx. try_path ctx kind_unlink arg0 arg0)

unfoldable pub sys_enter_chmod : Program
unfolding try_path
sys_enter_chmod = returning_zero (λ ctx. try_path ctx kind_chmod arg0 arg1)

unfoldable pub sys_enter_ptrace : Program
unfolding try_ptrace
sys_enter_ptrace = returning_zero try_ptrace

-- The programs of the object file, by the names of their symbols.
unfoldable pub handlers : List (String × Program)
unfolding sys_enter_execve sys_enter_connect sys_enter_sendto sys_enter_openat sys_enter_unlinkat
    sys_enter_unlink sys_enter_fchmodat sys_enter_chmod sys_enter_ptrace
handlers =
    ("sys_enter_execve", sys_enter_execve)
    ∷ ("sys_enter_connect", sys_enter_connect)
    ∷ ("sys_enter_sendto", sys_enter_sendto)
    ∷ ("sys_enter_openat", sys_enter_openat)
    ∷ ("sys_enter_unlinkat", sys_enter_unlinkat)
    ∷ ("sys_enter_fchmodat", sys_enter_fchmodat)
    ∷ ("sys_enter_unlink", sys_enter_unlink)
    ∷ ("sys_enter_chmod", sys_enter_chmod)
    ∷ ("sys_enter_ptrace", sys_enter_ptrace)
    ∷ []
