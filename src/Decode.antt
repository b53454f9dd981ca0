-- ===== src/Decode.antt =====
-- crates/mcpfz-probe/src/ebpf.rs, lines 233 to 339: from a record of the ring buffer to the fields of
-- a JSON object.
pub mod Records
pub mod Objects
pub mod Types
pub mod Network
pub mod Ptrace
use mcpfz_probe.Base.{ℕ, suc, zero, ◌+◌, ◌*◌, ◌/◌, ◌%◌, ◌^◌, String, ◌<>◌, Bool, ◌&&◌, ◌||◌, not}
use mcpfz_probe.Base.{Option, none, some, List, [], ◌∷◌, ◌++◌, map, length, ltb, ◌==◌}
use mcpfz_probe.Base.{if◌then◌else◌, and_then}
use mcpfz_probe.Base.Int.{ℤ, signed64}
use mcpfz_probe.Base.Digits.{print}
use mathlib.Core.Option
use mcpfz_probe.Flags.{flags_to_string}
use mcpfz_probe.Address.{fmt_addr}
use mcpfz_probe.Json.{Json}
use mcpfz_probe.Events.{ExecEvent, NetEvent, PathEvent, PtraceEvent, field, le_value, as_str}
use mcpfz_probe.Events.{
  kind_exec, kind_connect, kind_sendto, kind_file_open, kind_unlink, kind_chmod,
}
use mcpfz_probe.Events.{kind_ptrace, filename_len, comm_len, addr_len}

-- `read::<T>`: the sizes are those of `repr(C)`, 284, 48, 296 and 48.
abbrev pub sized : {A : Type 0} → ℕ → List ℕ → A → Option A
sized size bytes a = if ltb (length bytes) size then none else some a

unfoldable pub read_exec : List ℕ → Option ExecEvent
unfolding field
read_exec bytes = sized 284 bytes (record {
  kind = le_value (field 0 4 bytes);
  pid = le_value (field 4 4 bytes);
  tid = le_value (field 8 4 bytes);
  filename = field 12 filename_len bytes;
  comm = field 268 comm_len bytes;
})

unfoldable pub read_net : List ℕ → Option NetEvent
unfolding field
read_net bytes = sized 48 bytes (record {
  kind = le_value (field 0 4 bytes);
  pid = le_value (field 4 4 bytes);
  tid = le_value (field 8 4 bytes);
  af = le_value (field 12 2 bytes);
  port_be = le_value (field 14 2 bytes);
  addr = field 16 addr_len bytes;
  comm = field 32 comm_len bytes;
})

unfoldable pub read_path : List ℕ → Option PathEvent
unfolding field
read_path bytes = sized 296 bytes (record {
  kind = le_value (field 0 4 bytes);
  pid = le_value (field 4 4 bytes);
  tid = le_value (field 8 4 bytes);
  arg = le_value (field 16 8 bytes);
  filename = field 24 filename_len bytes;
  comm = field 280 comm_len bytes;
})

unfoldable pub read_ptrace : List ℕ → Option PtraceEvent
unfolding field
read_ptrace bytes = sized 48 bytes (record {
  kind = le_value (field 0 4 bytes);
  pid = le_value (field 4 4 bytes);
  tid = le_value (field 8 4 bytes);
  request = le_value (field 16 8 bytes);
  target_pid = le_value (field 24 8 bytes);
  comm = field 32 comm_len bytes;
})

-- `u16::from_be`: the two bytes of a little-endian word, swapped.
abbrev pub from_be : ℕ → ℕ
from_be w = w % 256 * 256 + w / 256

module _ ⦃J : Json⦄ where
  abbrev tagged : String → J.Map
  tagged name = J.insert J.new "type" (J.string name)

  unfoldable pub exec_object : ExecEvent → J.Map
  unfolding as_str
  exec_object ev =
      J.insert (J.insert (tagged "exec") "comm" (J.string (as_str ev.comm))) "argv"
        (J.strings (as_str ev.filename ∷ []))

  -- `format!("{}:{}", ...)`
  abbrev pub destination : NetEvent → String
  destination ev = fmt_addr ev.af ev.addr <> ":" <> print 10 (from_be ev.port_be)

  -- An event with no usable destination is skipped.
  unfoldable pub net_object : ℕ → NetEvent → Option J.Map
  unfolding as_str fmt_addr
  net_object kind ev =
      if not (ev.af == 2) && not (ev.af == 10)
      then none
      else some (
          J.insert
            (J.insert
              (J.insert (tagged "connect") "proto"
                (J.string (if kind == kind_sendto then "udp" else "tcp")))
              "dst" (J.string (destination ev)))
            "comm" (J.string (as_str ev.comm)))

  abbrev path_fields : J.Map → PathEvent → J.Map
  path_fields o ev = J.insert o "path" (J.string (as_str ev.filename))

  abbrev with_comm : J.Map → List ℕ → J.Map
  with_comm o comm = J.insert o "comm" (J.string (as_str comm))

  -- `ev.arg as i32` keeps the low 32 bits.
  unfoldable pub open_object : PathEvent → J.Map
  unfolding as_str flags_to_string
  open_object ev =
      with_comm
        (J.insert (path_fields (tagged "file_open") ev) "flags"
          (J.string (flags_to_string (ev.arg % 2 ^ 32))))
        ev.comm

  unfoldable pub unlink_object : PathEvent → J.Map
  unfolding as_str
  unlink_object ev = with_comm (path_fields (tagged "file_delete") ev) ev.comm

  -- `format!("{:o}", ev.arg & 0o7777)`
  unfoldable pub chmod_object : PathEvent → J.Map
  unfolding as_str print
  chmod_object ev =
      with_comm
        (J.insert (path_fields (tagged "chmod") ev) "mode" (J.string (print 8 (ev.arg % 4096))))
        ev.comm

  unfoldable pub ptrace_object : PtraceEvent → J.Map
  unfolding as_str
  ptrace_object ev =
      with_comm
        (J.insert (J.insert (tagged "ptrace") "request" (J.signed (signed64 ev.request)))
          "target_pid" (J.signed (signed64 ev.target_pid)))
        ev.comm

  unfoldable pub decode : ℕ → List ℕ → Option J.Map
  unfolding read_exec read_net read_path read_ptrace exec_object net_object open_object
      unlink_object chmod_object ptrace_object
  decode kind bytes =
      if kind == kind_exec
      then Option.map exec_object (read_exec bytes)
      else if kind == kind_connect || kind == kind_sendto
      then and_then (read_net bytes) (net_object kind)
      else if kind == kind_file_open
      then Option.map open_object (read_path bytes)
      else if kind == kind_unlink
      then Option.map unlink_object (read_path bytes)
      else if kind == kind_chmod
      then Option.map chmod_object (read_path bytes)
      else if kind == kind_ptrace
      then Option.map ptrace_object (read_ptrace bytes)
      else none
