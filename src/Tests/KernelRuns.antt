-- ===== src/Tests/KernelRuns.antt =====
-- The programs of the kernel on a small memory, and instances of their theorems.
use mcpfz_probe.Base.{
  ℕ, zero, suc, ◌+◌, ◌*◌, ◌≡◌, refl, String, ◌<>◌, none, some, List, [], ◌∷◌, ◌++◌, drop, arith,
}
use mcpfz_probe.Base.Int.{signed64}
use mcpfz_probe.Base.Digits.{print}
use mcpfz_probe.Base.Utf8.{as_bytes, char_bytes}
use mcpfz_probe.Address.{show_ipv4, fmt_addr}
use mcpfz_probe.Address.Reader.{read_ipv6}
use mcpfz_probe.Base.Digits.Hex.{read_hex}
use mcpfz_probe.Events.{
  as_str, le_value, field, kind_exec, kind_connect, kind_sendto, kind_file_open, kind_unlink,
  kind_chmod, kind_ptrace,
}
use mcpfz_probe.Decode.{decode}
use mcpfz_probe.Decode.Objects.{path_says}
use mcpfz_probe.Decode.Network.{protocol, IsHost}
use mcpfz_probe.Kernel.{
  Context, zeros_12, sys_enter_execve, sys_enter_connect, sys_enter_sendto, sys_enter_openat,
  sys_enter_unlinkat, sys_enter_fchmodat, sys_enter_unlink, sys_enter_chmod, sys_enter_ptrace,
}
use mcpfz_probe.Kernel.Header.{Submits, programs-Submits}
use mcpfz_probe.Kernel.Capture.{Captured, sys_enter_execve-Captured}
use mcpfz_probe.Kernel.Path.{OnPath, OnPath-Captured, OnPath-Captured_cut}
use mcpfz_probe.Kernel.Net.{OnSocket, HasAddress, OnSocket-Captured, OnSocket-skipped}
use mcpfz_probe.Kernel.Ptrace.{sys_enter_ptrace-Captured}
use mcpfz_probe.Tests.Samples.{text, texts, sample_json, sample_json-IsLawful}
use mcpfz_probe.Tests.Processes.{
  junk, process, process-IsSound, process-PointsTo, process-Runs, https, local, shell,
  shell-IsSound, shell-PointsTo,
}

-- Nothing is captured where the call has no address.
no_address : sys_enter_connect (record shell { read_at = λ offset. none }) [] ≡ (0, [])
unfolding sys_enter_connect
no_address = refl

-- A ring without room loses the record.
no_room : sys_enter_ptrace (record shell { reserve = λ size. none }) [] ≡ (0, [])
unfolding sys_enter_ptrace
no_room = refl

programs-Submits_example :
    Submits shell kind_exec [] (sys_enter_execve shell [])
    × Submits shell kind_connect [] (sys_enter_connect shell [])
    × Submits shell kind_sendto [] (sys_enter_sendto shell [])
    × Submits shell kind_file_open [] (sys_enter_openat shell [])
    × Submits shell kind_unlink [] (sys_enter_unlinkat shell [])
    × Submits shell kind_unlink [] (sys_enter_unlink shell [])
    × Submits shell kind_chmod [] (sys_enter_fchmodat shell [])
    × Submits shell kind_chmod [] (sys_enter_chmod shell [])
    × Submits shell kind_ptrace [] (sys_enter_ptrace shell [])
programs-Submits_example = programs-Submits shell [] shell-IsSound

sys_enter_execve-Captured_example :
    Captured shell []
      (sys_enter_execve shell [])
      (("argv", texts ("/bin/sh" ∷ [])) ∷ ("comm", text "node") ∷ ("type", text "exec") ∷ [])
unfolding as_bytes
sys_enter_execve-Captured_example =
    sys_enter_execve-Captured ⦃L = sample_json-IsLawful⦄ shell shell-IsSound [] "node" (junk 284) 16
      "/bin/sh" refl refl (shell-PointsTo 16) (omega arith)
      (process-Runs (as_bytes "/bin/sh") https)

OnPath-Captured_example :
    Captured shell [] (sys_enter_openat shell []) (path_says 4 0o1101 "/bin/sh" "node")
unfolding as_bytes as_str
OnPath-Captured_example =
    OnPath-Captured ⦃L = sample_json-IsLawful⦄ shell shell-IsSound [] "node" (junk 296) 4096 0o1101
      (as_bytes "/bin/sh") OnPath.openat refl refl refl (shell-PointsTo 4096)
      (process-Runs (as_bytes "/bin/sh") https)

-- 254 times `a`.
abbrev long : ℕ → String
long zero = ""
long (suc n) = "a" <> long n

abbrev cut : Context
unfolding as_bytes char_bytes
cut = process (as_bytes (long 254) ++ (char_bytes "é" ++ [])) https

OnPath-Captured_cut_example : Captured cut [] (sys_enter_chmod cut []) (path_says 6 4096 "" "node")
unfolding as_bytes char_bytes
OnPath-Captured_cut_example =
    OnPath-Captured_cut ⦃L = sample_json-IsLawful⦄ cut
      (process-IsSound (as_bytes (long 254) ++ (char_bytes "é" ++ [])) https (omega arith)) []
      "node" (junk 296) 16 4096 (long 254) "é" [] OnPath.chmod refl refl refl
      (process-PointsTo (as_bytes (long 254) ++ (char_bytes "é" ++ [])) https 16 (omega arith))
      (omega arith) (omega arith) (omega arith)
      (process-Runs (as_bytes (long 254) ++ (char_bytes "é" ++ [])) https)

OnSocket-Captured_example : Captured shell [] (sys_enter_sendto shell []) (
    ("comm", text "node")
    ∷ ("dst", text (show_ipv4 203 0 113 7 <> ":" <> print 10 (1 * 256 + 187)))
    ∷ ("proto", text (protocol 3))
    ∷ ("type", text "connect")
    ∷ [])
unfolding as_bytes
OnSocket-Captured_example =
    OnSocket-Captured ⦃L = sample_json-IsLawful⦄ shell shell-IsSound [] (junk 48) refl 4096 2 1 187
      (203 ∷ 0 ∷ 113 ∷ 7 ∷ zeros_12) (show_ipv4 203 0 113 7) "node" OnSocket.sendto refl
      (record {
        family = refl;
        port = refl;
        address = HasAddress.sockaddr_in refl;
        not_null = omega arith;
        inside = omega arith;
      })
      IsHost.ipv4 (process-Runs (as_bytes "/bin/sh") https)

-- A `sockaddr_in6` for port 443 of 2001:db8::1.
abbrev https_v6 : List ℕ
https_v6 =
    10 ∷ 0 ∷ 1 ∷ 187 ∷ 0 ∷ 0 ∷ 0 ∷ 0 ∷ 0x20 ∷ 0x01 ∷ 0x0d ∷ 0xb8 ∷ 0 ∷ 0 ∷ 0 ∷ 0 ∷ 0 ∷ 0 ∷ 0 ∷ 0 ∷ 0
    ∷ 0 ∷ 0 ∷ 1 ∷ []

connects_over_v6 : Captured (process [] https_v6) [] (sys_enter_connect (process [] https_v6) []) (
    ("comm", text "node")
    ∷ ("dst", text (fmt_addr 10 (drop 8 https_v6) <> ":" <> print 10 (1 * 256 + 187)))
    ∷ ("proto", text (protocol 2))
    ∷ ("type", text "connect")
    ∷ [])
unfolding fmt_addr
connects_over_v6 =
    OnSocket-Captured ⦃L = sample_json-IsLawful⦄ (process [] https_v6)
      (process-IsSound [] https_v6 (omega arith)) [] (junk 48) refl 4096 10 1 187 (drop 8 https_v6)
      (fmt_addr 10 (drop 8 https_v6)) "node" OnSocket.connect refl
      (record {
        family = refl;
        port = refl;
        address = HasAddress.sockaddr_in6 refl;
        not_null = omega arith;
        inside = omega arith;
      })
      IsHost.ipv6 (process-Runs [] https_v6)

v6_text : fmt_addr 10 (drop 8 https_v6) ≡ "2001:db8::1"
unfolding fmt_addr print
v6_text = refl

-- The destination with its port is the text of another address, 2001:db8::1:443.
v6_destination :
    read_ipv6 (fmt_addr 10 (drop 8 https_v6) <> ":" <> print 10 (1 * 256 + 187))
    ≡ some (0x2001 ∷ 0xdb8 ∷ 0 ∷ 0 ∷ 0 ∷ 0 ∷ 1 ∷ 0x443 ∷ [])
unfolding fmt_addr print read_ipv6 read_hex
v6_destination = refl

OnSocket-skipped_example :
    (bytes : List ℕ) × ((sys_enter_connect (process [] local) []).1 ≡ [] ++ (bytes ∷ []))
    × (decode (le_value (field 0 4 bytes)) bytes ≡ none)
OnSocket-skipped_example =
    OnSocket-skipped ⦃L = sample_json-IsLawful⦄ (process [] local)
      (process-IsSound [] local (omega arith)) [] (junk 48) refl 4096 local OnSocket.connect refl
      (omega arith) (omega arith) refl (omega arith) (omega arith)

sys_enter_ptrace-Captured_example : Captured shell [] (sys_enter_ptrace shell []) (
    ("comm", text "node")
    ∷ ("target_pid", sample_json.signed (signed64 4096))
    ∷ ("request", sample_json.signed (signed64 16))
    ∷ ("type", text "ptrace")
    ∷ [])
unfolding as_bytes
sys_enter_ptrace-Captured_example =
    sys_enter_ptrace-Captured ⦃L = sample_json-IsLawful⦄ shell shell-IsSound [] (junk 48) refl 16
      4096 "node" refl refl (process-Runs (as_bytes "/bin/sh") https)
