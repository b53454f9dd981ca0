-- ===== src/Events.antt =====
-- crates/mcpfz-probe-ebpf-common/src/lib.rs: the records that the kernel program writes and the
-- loader reads. A byte is a number below 256, an unsigned field its value, and an `i64` its 64-bit
-- pattern. The layout is that of `repr(C)` on a little-endian machine (the target `bpfel`).
pub mod Text
pub mod Layout
use mcpfz_probe.Base.{ℕ, ◌+◌, ◌*◌, ◌/◌, ◌%◌, suc, zero, Bool, String, Option, none, some}
use mcpfz_probe.Base.{List, [], ◌∷◌, ◌++◌, length, take, drop, ltb, ◌==◌, if◌then◌else◌}
use mcpfz_probe.Base.Utf8.{from_utf8}

abbrev pub filename_len : ℕ
filename_len = 256

abbrev pub comm_len : ℕ
comm_len = 16

abbrev pub addr_len : ℕ
addr_len = 16

abbrev pub kind_exec : ℕ
kind_exec = 1

abbrev pub kind_connect : ℕ
kind_connect = 2

abbrev pub kind_sendto : ℕ
kind_sendto = 3

abbrev pub kind_file_open : ℕ
kind_file_open = 4

abbrev pub kind_unlink : ℕ
kind_unlink = 5

abbrev pub kind_chmod : ℕ
kind_chmod = 6

abbrev pub kind_ptrace : ℕ
kind_ptrace = 7

pub record ExecEvent : Type 0 where
  pub kind : ℕ
  pub pid : ℕ
  pub tid : ℕ
  pub filename : List ℕ
  pub comm : List ℕ

pub record NetEvent : Type 0 where
  pub kind : ℕ
  pub pid : ℕ
  pub tid : ℕ
  pub af : ℕ
  pub port_be : ℕ
  pub addr : List ℕ
  pub comm : List ℕ

pub record PathEvent : Type 0 where
  pub kind : ℕ
  pub pid : ℕ
  pub tid : ℕ
  pub arg : ℕ
  pub filename : List ℕ
  pub comm : List ℕ

pub record PtraceEvent : Type 0 where
  pub kind : ℕ
  pub pid : ℕ
  pub tid : ℕ
  pub request : ℕ
  pub target_pid : ℕ
  pub comm : List ℕ

-- `&buf[..end]`, where `end` is the position of the first NUL, or the length.
abbrev pub until_nul : List ℕ → List ℕ
until_nul [] = []
until_nul (b ∷ bs) = let rest = until_nul bs in if b == 0 then [] else b ∷ rest

abbrev pub or_empty : Option String → String
or_empty none = ""
or_empty (some s) = s

unfoldable pub as_str : List ℕ → String
unfolding from_utf8
as_str buf = or_empty (from_utf8 (until_nul buf))

-- The bytes of an unsigned field of `k` bytes, the lowest first, and their value.
abbrev pub le_bytes : ℕ → ℕ → List ℕ
le_bytes zero n = []
le_bytes (suc k) n = (n % 256) ∷ le_bytes k (n / 256)

abbrev pub le_value : List ℕ → ℕ
le_value [] = 0
le_value (b ∷ bs) = b + 256 * le_value bs

-- The field of a record at an offset.
unfoldable pub field : ℕ → ℕ → List ℕ → List ℕ
field offset len bytes = take len (drop offset bytes)

-- The records in memory. The compiler puts 4 bytes before an aligned `i64`;
-- `padding` is what they happen to hold.
unfoldable pub exec_bytes : ExecEvent → List ℕ
exec_bytes e =
    le_bytes 4 e.kind ++ (le_bytes 4 e.pid ++ (le_bytes 4 e.tid ++ (e.filename ++ e.comm)))

unfoldable pub net_bytes : NetEvent → List ℕ
net_bytes e =
    le_bytes 4 e.kind
    ++ (le_bytes 4 e.pid
        ++ (le_bytes 4 e.tid ++ (le_bytes 2 e.af ++ (le_bytes 2 e.port_be ++ (e.addr ++ e.comm)))))

unfoldable pub path_bytes : (padding : ℕ) → PathEvent → List ℕ
path_bytes padding e =
    le_bytes 4 e.kind
    ++ (le_bytes 4 e.pid
        ++ (le_bytes 4 e.tid
            ++ (le_bytes 4 padding ++ (le_bytes 8 e.arg ++ (e.filename ++ e.comm)))))

unfoldable pub ptrace_bytes : (padding : ℕ) → PtraceEvent → List ℕ
ptrace_bytes padding e =
    le_bytes 4 e.kind
    ++ (le_bytes 4 e.pid
        ++ (le_bytes 4 e.tid
            ++ (le_bytes 4 padding
                ++ (le_bytes 8 e.request ++ (le_bytes 8 e.target_pid ++ e.comm)))))
