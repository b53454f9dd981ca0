-- ===== src/Kernel/Header.antt =====
-- What a program of the kernel puts into the ring, for the loader to read.
use mcpfz_probe.Kernel.Sound.{process_id}
use mcpfz_probe.Base.{
  ℕ, ◌^◌, ◌<◌, ◌≤◌, ◌≡◌, refl, ap, ◌∙◌, Option, none, some, List, [], ◌∷◌, ◌++◌, length,
  length-append, arith, ◌⊎◌, inl, inr, Bool-cases, ◌==◌, ==_iff,
}
use mcpfz_probe.Events.{
  ExecEvent, NetEvent, PathEvent, PtraceEvent, exec_bytes, net_bytes, path_bytes, ptrace_bytes,
  kind_exec, kind_connect, kind_sendto, kind_file_open, kind_unlink, kind_chmod, kind_ptrace,
  le_value, field,
}
use mcpfz_probe.Events.Layout.{le_value_4}
use mcpfz_probe.Decode.Records.{ExecFits, NetFits, PathFits, PtraceFits}
use mcpfz_probe.Decode.Types.{size_of}
use mcpfz_probe.Decode.Objects.{PathKind}
use mcpfz_probe.Kernel.{
  Context, Ring, submitted, arg0, arg1, arg2, arg4, or_zero, exec_event, net_event, path_event,
  ptrace_event, padding_of, try_exec, try_net, net_at, try_path, try_ptrace, sys_enter_execve,
  sys_enter_connect, sys_enter_sendto, sys_enter_openat, sys_enter_unlinkat, sys_enter_fchmodat,
  sys_enter_unlink, sys_enter_chmod, sys_enter_ptrace,
}
use mcpfz_probe.Kernel.Sound.{
  IsSound, exec_event-ExecFits, net_event-NetFits, path_event-PathFits, ptrace_event-PtraceFits,
}

-- The bytes begin with a kind and a process, and are as many as a record of the kind has.
pub record HasHeader (kind process : ℕ) (bytes : List ℕ) : Type 0 where
  pub kind_field : le_value (field 0 4 bytes) ≡ kind
  pub pid_field : le_value (field 4 4 bytes) ≡ process
  pub size : length bytes ≡ size_of kind
  pub has_header : 8 ≤ length bytes

pub exec_bytes-HasHeader :
    (e : ExecEvent) → ExecFits e → e.kind ≡ kind_exec → HasHeader e.kind e.pid (exec_bytes e)
unfolding exec_bytes field
exec_bytes-HasHeader e h k = record {
  kind_field = le_value_4 e.kind h.kind;
  pid_field = le_value_4 e.pid h.pid;
  size =
      let n : size_of e.kind ≡ 284 = rw k in
      omega (arith, n, length-append e.filename e.comm, h.filename, h.comm);
  has_header = omega (arith, length-append e.filename e.comm, h.filename, h.comm);
}

abbrev pub NetKind : ℕ → Type 0
NetKind kind = (kind ≡ kind_connect) ⊎ (kind ≡ kind_sendto)

size_of-NetKind : (kind : ℕ) → NetKind kind → size_of kind ≡ 48
size_of-NetKind kind (inl k) = rw k
size_of-NetKind kind (inr k) = rw k

size_of-PathKind : (kind : ℕ) → PathKind kind → size_of kind ≡ 296
size_of-PathKind kind (inl k) = rw k
size_of-PathKind kind (inr (inl k)) = rw k
size_of-PathKind kind (inr (inr k)) = rw k

pub net_bytes-HasHeader :
    (e : NetEvent) → NetFits e → NetKind e.kind → HasHeader e.kind e.pid (net_bytes e)
unfolding net_bytes field
net_bytes-HasHeader e h k = record {
  kind_field = le_value_4 e.kind h.kind;
  pid_field = le_value_4 e.pid h.pid;
  size = omega (arith, size_of-NetKind e.kind k, length-append e.addr e.comm, h.addr, h.comm);
  has_header = omega (arith, length-append e.addr e.comm, h.addr, h.comm);
}

pub path_bytes-HasHeader :
    (padding : ℕ) (e : PathEvent)
    → PathFits e
    → PathKind e.kind
    → HasHeader e.kind e.pid (path_bytes padding e)
unfolding path_bytes field
path_bytes-HasHeader padding e h k = record {
  kind_field = le_value_4 e.kind h.kind;
  pid_field = le_value_4 e.pid h.pid;
  size =
      omega (arith, size_of-PathKind e.kind k, length-append e.filename e.comm, h.filename, h.comm);
  has_header = omega (arith, length-append e.filename e.comm, h.filename, h.comm);
}

pub ptrace_bytes-HasHeader :
    (padding : ℕ) (e : PtraceEvent)
    → PtraceFits e
    → e.kind ≡ kind_ptrace
    → HasHeader e.kind e.pid (ptrace_bytes padding e)
unfolding ptrace_bytes field
ptrace_bytes-HasHeader padding e h k = record {
  kind_field = le_value_4 e.kind h.kind;
  pid_field = le_value_4 e.pid h.pid;
  size = let n : size_of e.kind ≡ 48 = rw k in omega (arith, n, h.comm);
  has_header = omega (arith, h.comm);
}

-- Why a program puts nothing into the ring.
pub data Silent (ctx : Context) (kind : ℕ) : Type 0 where
  full : ctx.reserve (size_of kind) ≡ none → Silent ctx kind
  no_address :
      (offset : ℕ)
      → ((kind ≡ kind_connect) × (offset ≡ arg1)) ⊎ ((kind ≡ kind_sendto) × (offset ≡ arg4))
      → or_zero (ctx.read_at offset) ≡ 0
      → Silent ctx kind

-- A program returns 0. It puts one record at the end of the ring, with the process that runs, or
-- leaves the ring alone, for a reason.
abbrev pub Submits : (ctx : Context) (kind : ℕ) (ring : Ring) → ℕ × Ring → Type 0
Submits ctx kind ring (result, ring') =
    (result ≡ 0)
    × (((ring' ≡ ring) × Silent ctx kind)
        ⊎ ((bytes : List ℕ) × (ring' ≡ ring ++ (bytes ∷ []))
            × HasHeader kind (process_id ctx) bytes))

submitted-Submits :
    (ctx : Context) (kind : ℕ) (ring : Ring) (found : Option (List ℕ)) (record_of : List ℕ → List ℕ)
    → ctx.reserve (size_of kind) ≡ found
    → ((memory : List ℕ) → found ≡ some memory → HasHeader kind (process_id ctx) (record_of memory))
    → Submits ctx kind ring (0, (submitted found record_of ring).1)
submitted-Submits ctx kind ring none record_of e good = (refl, inl (refl, full e))
submitted-Submits ctx kind ring (some memory) record_of e good =
    (refl, inr (record_of memory, refl, good memory refl))

module _ (ctx : Context) (sound : IsSound ctx) (ring : Ring) where
  try_exec-Submits : Submits ctx kind_exec ring (0, (try_exec ctx ring).1)
  unfolding try_exec
  try_exec-Submits = submitted-Submits ctx kind_exec ring (ctx.reserve 284) _ refl (λ memory e.
      exec_bytes-HasHeader (exec_event ctx memory)
        (exec_event-ExecFits sound memory (sound.entries 284 memory e)) refl)

  try_path-Submits :
      (kind path_off arg_off : ℕ)
      → kind < 2 ^ 32
      → PathKind kind
      → Submits ctx kind ring (0, (try_path ctx kind path_off arg_off ring).1)
  unfolding try_path
  try_path-Submits kind path_off arg_off small k =
      submitted-Submits ctx kind ring (ctx.reserve 296) _
        (ap (λ n. ctx.reserve n) (size_of-PathKind kind k))
        (λ memory e.
          path_bytes-HasHeader (padding_of memory) (path_event ctx kind path_off arg_off memory)
            (path_event-PathFits sound kind path_off arg_off memory small
              (sound.entries 296 memory e))
            k)

  net_at-Submits :
      (kind offset uaddr : ℕ)
      → kind < 2 ^ 32
      → ((kind ≡ kind_connect) × (offset ≡ arg1)) ⊎ ((kind ≡ kind_sendto) × (offset ≡ arg4))
      → or_zero (ctx.read_at offset) ≡ uaddr
      → Submits ctx kind ring (0, (net_at ctx kind uaddr ring).1)
  unfolding net_at
  net_at-Submits kind offset uaddr small k e = elim (Bool-cases (uaddr == 0)) [
    | inl null ↦ rw null (refl, inl (refl, no_address offset k (e ∙ (==_iff _ _).0 null)))
    | inr address ↦
        let kinds : NetKind kind = net_kind kind offset k in
        rw address (
          submitted-Submits ctx kind ring (ctx.reserve 48) _
            (ap (λ n. ctx.reserve n) (size_of-NetKind kind kinds))
            (λ memory e.
              net_bytes-HasHeader (net_event ctx kind uaddr)
                (net_event-NetFits sound kind uaddr small) kinds))
  ]
    where
      net_kind :
          (kind offset : ℕ)
          → ((kind ≡ kind_connect) × (offset ≡ arg1)) ⊎ ((kind ≡ kind_sendto) × (offset ≡ arg4))
          → NetKind kind
      net_kind kind offset (inl h) = inl h.0
      net_kind kind offset (inr h) = inr h.0

  try_net-Submits :
      (kind offset : ℕ)
      → kind < 2 ^ 32
      → ((kind ≡ kind_connect) × (offset ≡ arg1)) ⊎ ((kind ≡ kind_sendto) × (offset ≡ arg4))
      → Submits ctx kind ring (0, (try_net ctx kind offset ring).1)
  unfolding try_net
  try_net-Submits kind offset small k =
      net_at-Submits kind offset (or_zero (ctx.read_at offset)) small k refl

  try_ptrace-Submits : Submits ctx kind_ptrace ring (0, (try_ptrace ctx ring).1)
  unfolding try_ptrace
  try_ptrace-Submits = submitted-Submits ctx kind_ptrace ring (ctx.reserve 48) _ refl (λ memory e.
      ptrace_bytes-HasHeader (padding_of memory) (ptrace_event ctx) (ptrace_event-PtraceFits sound)
        refl)

-- Each program of the kernel returns 0. It puts one record at the end of the ring, which names the
-- process that runs and has the size of the kind that the program captures, or it leaves the ring
-- alone: because no entry can be reserved, or because there is no address to connect or send to.
pub programs-Submits :
    (ctx : Context) (ring : Ring)
    → IsSound ctx
    → Submits ctx kind_exec ring (sys_enter_execve ctx ring)
      × Submits ctx kind_connect ring (sys_enter_connect ctx ring)
      × Submits ctx kind_sendto ring (sys_enter_sendto ctx ring)
      × Submits ctx kind_file_open ring (sys_enter_openat ctx ring)
      × Submits ctx kind_unlink ring (sys_enter_unlinkat ctx ring)
      × Submits ctx kind_unlink ring (sys_enter_unlink ctx ring)
      × Submits ctx kind_chmod ring (sys_enter_fchmodat ctx ring)
      × Submits ctx kind_chmod ring (sys_enter_chmod ctx ring)
      × Submits ctx kind_ptrace ring (sys_enter_ptrace ctx ring)
unfolding sys_enter_execve sys_enter_connect sys_enter_sendto sys_enter_openat sys_enter_unlinkat
    sys_enter_unlink sys_enter_fchmodat sys_enter_chmod sys_enter_ptrace
programs-Submits ctx ring sound = (
  try_exec-Submits ctx sound ring,
  try_net-Submits ctx sound ring kind_connect arg1 (omega arith) (inl (refl, refl)),
  try_net-Submits ctx sound ring kind_sendto arg4 (omega arith) (inr (refl, refl)),
  try_path-Submits ctx sound ring kind_file_open arg1 arg2 (omega arith) (inl refl),
  try_path-Submits ctx sound ring kind_unlink arg1 arg2 (omega arith) (inr (inr refl)),
  try_path-Submits ctx sound ring kind_unlink arg0 arg0 (omega arith) (inr (inr refl)),
  try_path-Submits ctx sound ring kind_chmod arg1 arg2 (omega arith) (inr (inl refl)),
  try_path-Submits ctx sound ring kind_chmod arg0 arg1 (omega arith) (inr (inl refl)),
  try_ptrace-Submits ctx sound ring,
)
