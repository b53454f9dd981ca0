-- ===== src/Tests/RecordRuns.antt =====
-- Records, addresses, flags and the files of `/proc` on small inputs.
use mcpfz_probe.Base.{
  ℕ, suc, zero, ◌<>◌, ◌≡◌, ◌≤◌, refl, false, true, some, List, [], ◌∷◌, ◌++◌, length, arith, inl,
}
use mathlib.Core.Option
use mcpfz_probe.Base.Int.{pos}
use mcpfz_probe.Base.Digits.{print}
use mcpfz_probe.Base.Utf8.{as_bytes}
use mcpfz_probe.Events.{
  ExecEvent, NetEvent, PathEvent, PtraceEvent, as_str, exec_bytes, net_bytes, path_bytes,
  ptrace_bytes,
}
use mcpfz_probe.Events.Text.{as_str-as_bytes}
use mcpfz_probe.Flags.{flags_to_string}
use mcpfz_probe.Flags.Laws.{Answers, flags_to_string-Answers}
use mcpfz_probe.Address.{fmt_addr}
use mcpfz_probe.Address.Reader.{read_ipv4, read_ipv6}
use mcpfz_probe.Address.RoundTrip.{read-fmt_addr}
use mcpfz_probe.Decode.{decode, read_exec, read_net, read_path, read_ptrace, ptrace_object}
use mcpfz_probe.Decode.Records.{read-bytes}
use mcpfz_probe.Decode.Records.{ExecFits, NetFits, PathFits, PtraceFits}
use Prim.Native.String.{◌∷◌ as ◌∷ˢ◌}
use mcpfz_probe.Decode.Objects.{Holds, Gives, path_says, decode-exec_bytes, decode-path_bytes}
use mcpfz_probe.Decode.Network.{protocol, ipv4, decode-net_bytes}
use mcpfz_probe.Address.{show_ipv4}
use mcpfz_probe.Decode.Types.{type_of, size_of, decode-type_of}
use mcpfz_probe.Base.Text.{is_whitespace}
use mcpfz_probe.ProcStat.{stat_pgid}
use mcpfz_probe.ProcStat.Laws.{fields_of, stat_pgid-fields_of}
use mcpfz_probe.Tests.Samples.{text, texts, get, sample_json, sample_json-IsLawful}

abbrev zeros : ℕ → List ℕ
zeros zero = []
zeros (suc n) = 0 ∷ zeros n

abbrev shell : ExecEvent
unfolding as_bytes
shell = record {
  kind = 1;
  pid = 4242;
  tid = 4243;
  filename = as_bytes "/bin/sh" ++ (0 ∷ zeros 248);
  comm = as_bytes "node" ++ (0 ∷ zeros 11);
}

abbrev https : NetEvent
https = record {
  kind = 2;
  pid = 7;
  tid = 7;
  af = 2;
  port_be = 47873;
  addr = 203 ∷ 0 ∷ 113 ∷ 7 ∷ zeros 12;
  comm = zeros 16;
}

abbrev opened : PathEvent
unfolding as_bytes
opened = record {
  kind = 4;
  pid = 4242;
  tid = 4242;
  arg = 0o1101;
  filename = as_bytes "/tmp/é" ++ (0 ∷ zeros 248);
  comm = as_bytes "node" ++ (0 ∷ zeros 11);
}

abbrev attach : PtraceEvent
attach = record { kind = 7; pid = 9; tid = 9; request = 16; target_pid = 4242; comm = zeros 16 }

loopback : fmt_addr 10 (zeros 15 ++ (1 ∷ [])) ≡ "::1"
unfolding fmt_addr
loopback = refl

first_run :
    fmt_addr 10 (0x20 ∷ 1 ∷ 0xd ∷ 0xb8 ∷ zeros 4 ++ (0 ∷ 1 ∷ zeros 5 ++ (1 ∷ [])))
    ≡ "2001:db8::1:0:0:1"
unfolding fmt_addr
first_run = refl

mapped : fmt_addr 10 (zeros 10 ++ (255 ∷ 255 ∷ 127 ∷ 0 ∷ 0 ∷ 1 ∷ [])) ≡ "::ffff:127.0.0.1"
unfolding fmt_addr
mapped = refl

truncating : flags_to_string 0o1101 ≡ "O_WRONLY|O_CREAT|O_TRUNC"
unfolding flags_to_string
truncating = refl

as_str-as_bytes_example : as_str (as_bytes "node" ++ (0 ∷ 255 ∷ 7 ∷ [])) ≡ "node"
unfolding as_bytes
as_str-as_bytes_example = as_str-as_bytes "node" (255 ∷ 7 ∷ []) (omega arith)

flags_to_string-Answers_example : Answers (flags_to_string 0o1101) true false true false true false
flags_to_string-Answers_example = flags_to_string-Answers 0o1101

shell_fits : ExecFits shell
unfolding shell as_bytes
shell_fits = record {
  kind = omega arith;
  pid = omega arith;
  tid = omega arith;
  filename = refl;
  comm = refl;
}

https_fits : NetFits https
https_fits = record {
  kind = omega arith;
  pid = omega arith;
  tid = omega arith;
  af = omega arith;
  port_be = omega arith;
  addr = refl;
  comm = refl;
}

opened_fits : PathFits opened
unfolding opened as_bytes
opened_fits = record {
  kind = omega arith;
  pid = omega arith;
  tid = omega arith;
  arg = omega arith;
  filename = refl;
  comm = refl;
}

attach_fits : PtraceFits attach
attach_fits = record {
  kind = omega arith;
  pid = omega arith;
  tid = omega arith;
  request = omega arith;
  target_pid = omega arith;
  comm = refl;
}

read-bytes_example :
    (read_exec (exec_bytes shell) ≡ some shell)
    × (read_net (net_bytes https) ≡ some https)
    × (read_path (path_bytes 99 opened) ≡ some opened)
    × (read_ptrace (ptrace_bytes 99 attach) ≡ some attach)
read-bytes_example =
    read-bytes 99 shell https opened attach shell_fits https_fits opened_fits attach_fits

shell_path : Holds shell.filename "/bin/sh"
unfolding shell as_bytes
shell_path = (omega arith, (zeros 248, refl))

shell_comm : Holds shell.comm "node"
unfolding shell as_bytes
shell_comm = (omega arith, (zeros 11, refl))

decode-exec_bytes_example :
    Gives
      (decode 1 (exec_bytes shell))
      (("argv", texts ("/bin/sh" ∷ [])) ∷ ("comm", text "node") ∷ ("type", text "exec") ∷ [])
unfolding shell
decode-exec_bytes_example =
    decode-exec_bytes ⦃L = sample_json-IsLawful⦄ shell "/bin/sh" "node" shell_fits refl shell_path
      shell_comm

opened_path : Holds opened.filename "/tmp/é"
unfolding opened as_bytes
opened_path = (omega arith, (zeros 248, refl))

opened_comm : Holds opened.comm "node"
unfolding opened as_bytes
opened_comm = (omega arith, (zeros 11, refl))

decode-path_bytes_example :
    Gives (decode 4 (path_bytes 99 opened)) (path_says 4 0o1101 "/tmp/é" "node")
unfolding opened
decode-path_bytes_example =
    decode-path_bytes ⦃L = sample_json-IsLawful⦄ 99 opened "/tmp/é" "node" opened_fits (inl refl)
      opened_path opened_comm

attach_object : decode 7 (ptrace_bytes 99 attach) ≡ some (ptrace_object attach)
unfolding decode ptrace_bytes
attach_object = refl

decode-type_of_example :
    (get (ptrace_object attach) "type" ≡ Option.map text (type_of 7))
    × (size_of 7 ≤ length (ptrace_bytes 99 attach))
decode-type_of_example =
    decode-type_of ⦃L = sample_json-IsLawful⦄ 7 (ptrace_bytes 99 attach) (ptrace_object attach)
      attach_object

-- A command that is called `a) b (`.
stat_pgid-fields_of_example :
    stat_pgid ("7 (a) b (" <> (")" ∷ˢ fields_of "S" "1" (print 10 42) "42 0\n")) ≡ some (pos 42)
unfolding is_whitespace
stat_pgid-fields_of_example =
    stat_pgid-fields_of "7 (a) b (" "S" "1" "42 0\n" 42 (refl, ((refl, tt), (omega arith, tt)))
      (refl, ((refl, tt), (omega arith, tt))) (omega arith) (omega arith)

https_comm : Holds https.comm ""
unfolding as_bytes
https_comm = (tt, (zeros 15, refl))

decode-net_bytes_example : Gives (decode 2 (net_bytes https)) (
    ("comm", text "")
    ∷ ("dst", text (show_ipv4 203 0 113 7 <> ":" <> print 10 443))
    ∷ ("proto", text (protocol 2))
    ∷ ("type", text "connect")
    ∷ [])
decode-net_bytes_example =
    decode-net_bytes ⦃L = sample_json-IsLawful⦄ https (show_ipv4 203 0 113 7) 443 "" https_fits
      (inl refl) ipv4 (omega arith) refl https_comm

https_dst : show_ipv4 203 0 113 7 <> ":" <> print 10 443 ≡ "203.0.113.7:443"
unfolding show_ipv4 print
https_dst = refl

-- The IPv4-mapped form of 192.0.2.1.
abbrev mapped_address : List ℕ
mapped_address = 0 ∷ 0 ∷ 0 ∷ 0 ∷ 0 ∷ 0 ∷ 0 ∷ 0 ∷ 0 ∷ 0 ∷ 255 ∷ 255 ∷ 192 ∷ 0 ∷ 2 ∷ 1 ∷ []

read-fmt_addr_example :
    (read_ipv4 (fmt_addr 2 mapped_address) ≡ some (0 ∷ 0 ∷ 0 ∷ 0 ∷ []))
    × (read_ipv6 (fmt_addr 10 mapped_address)
        ≡ some (0 ∷ 0 ∷ 0 ∷ 0 ∷ 0 ∷ 0xffff ∷ 0xc000 ∷ 0x201 ∷ []))
read-fmt_addr_example = read-fmt_addr mapped_address refl (omega arith)
