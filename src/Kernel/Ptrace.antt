-- ===== src/Kernel/Ptrace.antt =====
-- The system call `ptrace`, from the kernel to the JSON object of the loader.
use mathlib.Core.Path.{subst}
use mcpfz_probe.Base.{ℕ, ◌≡◌, refl, String, some, List, [], ◌∷◌, ◌++◌}
use mcpfz_probe.Base.Int.{signed64}
use mcpfz_probe.Json.{Json, IsLawful}
use mcpfz_probe.Events.{ptrace_bytes, as_str, kind_ptrace}
use mcpfz_probe.Decode.{decode}
use mcpfz_probe.Decode.Objects.{Gives}
use mcpfz_probe.Decode.Ptrace.{decode-ptrace_bytes}
use mcpfz_probe.Kernel.{Context, Ring, padding_of, ptrace_event, try_ptrace, sys_enter_ptrace}
use mcpfz_probe.Kernel.Sound.{IsSound, ptrace_event-PtraceFits}
use mcpfz_probe.Kernel.Header.{ptrace_bytes-HasHeader}
use mcpfz_probe.Kernel.Memory.{Runs, argument, as_str-comm}
use mcpfz_probe.Kernel.Capture.{Captured, captured}

ptrace_event_kind : (ctx : Context) → (ptrace_event ctx).kind ≡ kind_ptrace
unfolding ptrace_event
ptrace_event_kind ctx = refl

ptrace_comm :
    (ctx : Context) (command : String) → Runs ctx command → as_str (ptrace_event ctx).comm ≡ command
unfolding ptrace_event
ptrace_comm ctx command runs = as_str-comm ctx command runs

ptrace_ring :
    (ctx : Context) (ring : Ring) (memory : List ℕ)
    → ctx.reserve 48 ≡ some memory
    → (sys_enter_ptrace ctx ring).1
      ≡ ring ++ (ptrace_bytes (padding_of memory) (ptrace_event ctx) ∷ [])
unfolding sys_enter_ptrace try_ptrace
ptrace_ring ctx ring memory room = rw room refl

ptrace_args :
    (ctx : Context) (request target : ℕ)
    → argument ctx 0 ≡ some request
    → argument ctx 1 ≡ some target
    → ((ptrace_event ctx).request ≡ request) × ((ptrace_event ctx).target_pid ≡ target)
unfolding ptrace_event
ptrace_args ctx request target r t = (rw r refl, rw t refl)

module _ ⦃J : Json⦄ ⦃L : IsLawful⦄ (ctx : Context) (sound : IsSound ctx) (ring : Ring)
    (memory : List ℕ) (room : ctx.reserve 48 ≡ some memory) where
  -- With a lawful JSON library and sound helpers: where an entry can be reserved, the loader decodes
  -- what the program for `ptrace` puts into the ring to a `ptrace` with the command that runs and the
  -- request and the target of the call, as signed numbers. The record names the process that runs.
  pub sys_enter_ptrace-Captured :
      (request target : ℕ) (command : String)
      → argument ctx 0 ≡ some request
      → argument ctx 1 ≡ some target
      → Runs ctx command
      → Captured ctx ring (sys_enter_ptrace ctx ring) (
          ("comm", J.string command)
          ∷ ("target_pid", J.signed (signed64 target))
          ∷ ("request", J.signed (signed64 request))
          ∷ ("type", J.string "ptrace")
          ∷ [])
  unfolding ptrace_event
  sys_enter_ptrace-Captured request target command r t runs =
      let e = ptrace_event ctx in
      let fits = ptrace_event-PtraceFits sound in
      let args = ptrace_args ctx request target r t in
      captured ctx ring (sys_enter_ptrace ctx ring) 7 e.pid (ptrace_bytes (padding_of memory) e) _
        (ptrace_ring ctx ring memory room)
        (ptrace_bytes-HasHeader (padding_of memory) e fits (ptrace_event_kind ctx)) refl
        (subst (λ fields. Gives (decode 7 (ptrace_bytes (padding_of memory) e)) fields)
          (λ i.
            ("comm", J.string (ptrace_comm ctx command runs i))
            ∷ ("target_pid", J.signed (signed64 (args.1 i)))
            ∷ ("request", J.signed (signed64 (args.0 i)))
            ∷ ("type", J.string "ptrace")
            ∷ [])
          (decode-ptrace_bytes (padding_of memory) e fits (ptrace_event_kind ctx)))
