-- ===== src/Decode/Records.antt =====
-- Records against their bytes in memory.
use mcpfz_probe.Base.{ℕ, ◌^◌, ◌<◌, ◌≡◌, some}
use mcpfz_probe.Base.{List, arith, ◌≤◌, false, length, length-append, ltb}
use mcpfz_probe.Events.{ExecEvent, NetEvent, PathEvent, PtraceEvent}
use mcpfz_probe.Events.{exec_bytes, net_bytes, path_bytes, ptrace_bytes}
use mcpfz_probe.Events.Layout.{
  take_all, take_first, take_second, le_value_2, le_value_4, le_value_8,
}
use mcpfz_probe.Decode.{sized, read_exec, read_net, read_path, read_ptrace}

pub record ExecFits (e : ExecEvent) : Type 0 where
  pub kind : e.kind < 2 ^ 32
  pub pid : e.pid < 2 ^ 32
  pub tid : e.tid < 2 ^ 32
  pub filename : length e.filename ≡ 256
  pub comm : length e.comm ≡ 16

pub record NetFits (e : NetEvent) : Type 0 where
  pub kind : e.kind < 2 ^ 32
  pub pid : e.pid < 2 ^ 32
  pub tid : e.tid < 2 ^ 32
  pub af : e.af < 2 ^ 16
  pub port_be : e.port_be < 2 ^ 16
  pub addr : length e.addr ≡ 16
  pub comm : length e.comm ≡ 16

pub record PathFits (e : PathEvent) : Type 0 where
  pub kind : e.kind < 2 ^ 32
  pub pid : e.pid < 2 ^ 32
  pub tid : e.tid < 2 ^ 32
  pub arg : e.arg < 2 ^ 64
  pub filename : length e.filename ≡ 256
  pub comm : length e.comm ≡ 16

pub record PtraceFits (e : PtraceEvent) : Type 0 where
  pub kind : e.kind < 2 ^ 32
  pub pid : e.pid < 2 ^ 32
  pub tid : e.tid < 2 ^ 32
  pub request : e.request < 2 ^ 64
  pub target_pid : e.target_pid < 2 ^ 64
  pub comm : length e.comm ≡ 16

sized_eq :
    {A : Type 0} (size : ℕ) (bytes : List ℕ) (a : A) {b : A}
    → size ≤ length bytes
    → a ≡ b
    → sized size bytes a ≡ some b
sized_eq size bytes a h e =
    let long : ltb (length bytes) size ≡ false = ground arith in rw (long, e)

-- An ExecEvent whose fields fit their types is read back from its bytes.
pub read_exec-exec_bytes : (e : ExecEvent) → ExecFits e → read_exec (exec_bytes e) ≡ some e
unfolding read_exec exec_bytes
read_exec-exec_bytes e h =
    sized_eq 284 (exec_bytes e) _
      (omega (arith, length-append e.filename e.comm, h.filename, h.comm))
      (λ i. record {
        kind = le_value_4 e.kind h.kind i;
        pid = le_value_4 e.pid h.pid i;
        tid = le_value_4 e.tid h.tid i;
        filename = take_first 256 16 e.filename e.comm h.filename h.comm i;
        comm = take_second 256 16 e.filename e.comm h.filename h.comm i;
      })

-- A NetEvent whose fields fit their types is read back from its bytes.
pub read_net-net_bytes : (e : NetEvent) → NetFits e → read_net (net_bytes e) ≡ some e
unfolding read_net net_bytes
read_net-net_bytes e h =
    sized_eq 48 (net_bytes e) _ (omega (arith, length-append e.addr e.comm, h.addr, h.comm)) (λ i.
      record {
        kind = le_value_4 e.kind h.kind i;
        pid = le_value_4 e.pid h.pid i;
        tid = le_value_4 e.tid h.tid i;
        af = le_value_2 e.af h.af i;
        port_be = le_value_2 e.port_be h.port_be i;
        addr = take_first 16 16 e.addr e.comm h.addr h.comm i;
        comm = take_second 16 16 e.addr e.comm h.addr h.comm i;
      })

-- A PathEvent whose fields fit their types is read back from its bytes, whatever the padding holds.
pub read_path-path_bytes :
    (padding : ℕ) (e : PathEvent) → PathFits e → read_path (path_bytes padding e) ≡ some e
unfolding read_path path_bytes
read_path-path_bytes padding e h =
    sized_eq 296 (path_bytes padding e) _
      (omega (arith, length-append e.filename e.comm, h.filename, h.comm))
      (λ i. record {
        kind = le_value_4 e.kind h.kind i;
        pid = le_value_4 e.pid h.pid i;
        tid = le_value_4 e.tid h.tid i;
        arg = le_value_8 e.arg h.arg i;
        filename = take_first 256 16 e.filename e.comm h.filename h.comm i;
        comm = take_second 256 16 e.filename e.comm h.filename h.comm i;
      })

-- A PtraceEvent whose fields fit their types is read back from its bytes, whatever the padding holds.
pub read_ptrace-ptrace_bytes :
    (padding : ℕ) (e : PtraceEvent) → PtraceFits e → read_ptrace (ptrace_bytes padding e) ≡ some e
unfolding read_ptrace ptrace_bytes
read_ptrace-ptrace_bytes padding e h =
    sized_eq 48 (ptrace_bytes padding e) _ (omega (arith, h.comm)) (λ i. record {
      kind = le_value_4 e.kind h.kind i;
      pid = le_value_4 e.pid h.pid i;
      tid = le_value_4 e.tid h.tid i;
      request = le_value_8 e.request h.request i;
      target_pid = le_value_8 e.target_pid h.target_pid i;
      comm = take_all 16 e.comm h.comm i;
    })

-- A record of any kind whose fields fit their types is read back from its bytes, whatever the
-- padding of its layout holds.
pub read-bytes :
    (padding : ℕ) (x : ExecEvent) (n : NetEvent) (p : PathEvent) (t : PtraceEvent)
    → ExecFits x
    → NetFits n
    → PathFits p
    → PtraceFits t
    → (read_exec (exec_bytes x) ≡ some x)
      × (read_net (net_bytes n) ≡ some n)
      × (read_path (path_bytes padding p) ≡ some p)
      × (read_ptrace (ptrace_bytes padding t) ≡ some t)
read-bytes padding x n p t hx hn hp ht = (
  read_exec-exec_bytes x hx,
  read_net-net_bytes n hn,
  read_path-path_bytes padding p hp,
  read_ptrace-ptrace_bytes padding t ht,
)
