-- ===== src/Kernel/Capture.antt =====
-- System calls on a file, and a program that is run, from the kernel to the JSON object of the loader.
use mcpfz_probe.Kernel.Sound.{process_id}
use mcpfz_probe.Base.{
  ℕ, ◌<◌, ◌≤◌, ◌≡◌, refl, sym, ap, ◌∙◌, String, some, List, [], ◌∷◌, ◌++◌, length, arith,
}
use mathlib.Core.Path.{subst}
use mcpfz_probe.Base.Utf8.{as_bytes}
use mcpfz_probe.Json.{Json, IsLawful}
use mcpfz_probe.Events.{exec_bytes, as_str, field, le_value, filename_len}
use mcpfz_probe.Decode.{decode}
use mcpfz_probe.Decode.Objects.{Gives, decode_read_exec}
use mcpfz_probe.Kernel.{Context, Ring, filled, exec_event, try_exec, sys_enter_execve}
use mcpfz_probe.Kernel.Sound.{IsSound, length-field, exec_event-ExecFits}
use mcpfz_probe.Kernel.Header.{HasHeader, exec_bytes-HasHeader}
use mcpfz_probe.Kernel.Memory.{PointsTo, Runs, argument, as_str-comm, as_str-filled_fits}

execve_ring :
    (ctx : Context) (ring : Ring) (memory : List ℕ)
    → ctx.reserve 284 ≡ some memory
    → (sys_enter_execve ctx ring).1 ≡ ring ++ (exec_bytes (exec_event ctx memory) ∷ [])
unfolding sys_enter_execve
execve_ring ctx ring memory room = rw (room, try_exec) refl

exec_comm :
    (ctx : Context) (memory : List ℕ) (command : String)
    → Runs ctx command
    → as_str (exec_event ctx memory).comm ≡ command
unfolding exec_event
exec_comm ctx memory command runs = as_str-comm ctx command runs

exec_path :
    (ctx : Context) (sound : IsSound ctx) (memory : List ℕ) (address : ℕ) (path : String)
    → length memory ≡ 284
    → argument ctx 0 ≡ some address
    → PointsTo ctx address (as_bytes path)
    → length (as_bytes path) < 256
    → as_str (exec_event ctx memory).filename ≡ path
unfolding exec_event
exec_path ctx sound memory address path size arg points short =
    let len = length-field 12 filename_len memory (omega (arith, size)) in
    ap (λ a. as_str (filled ctx a (field 12 filename_len memory))) arg
    ∙ as_str-filled_fits ctx address path (field 12 filename_len memory) points
        (omega (arith, len, short))

module _ ⦃J : Json⦄ where
  -- One record of the process that runs was put at the end of the ring, and the loader decodes it, by
  -- the kind that it reads in it, to an object with the given fields.
  abbrev pub Captured : Context → Ring → ℕ × Ring → List (String × J.Value) → Type 0
  Captured ctx ring p fields =
      (bytes : List ℕ) × (p.1 ≡ ring ++ (bytes ∷ []))
      × (8 ≤ length bytes)
      × (le_value (field 4 4 bytes) ≡ process_id ctx)
      × Gives (decode (le_value (field 0 4 bytes)) bytes) fields

  pub captured :
      (ctx : Context) (ring : Ring) (p : ℕ × Ring) (kind process : ℕ) (bytes : List ℕ)
      (fields : List (String × J.Value))
      → p.1 ≡ ring ++ (bytes ∷ [])
      → HasHeader kind process bytes
      → process ≡ process_id ctx
      → Gives (decode kind bytes) fields
      → Captured ctx ring p fields
  captured ctx ring p kind process bytes fields added header runs gives = (
    bytes,
    added,
    header.has_header,
    header.pid_field ∙ runs,
    subst (λ k. Gives (decode k bytes) fields) (sym header.kind_field) gives,
  )

  module _ ⦃L : IsLawful⦄ (ctx : Context) (sound : IsSound ctx) (ring : Ring)
      (command : String) where
    -- With a lawful JSON library and sound helpers: where an entry can be reserved and the first
    -- argument of `execve` points to a path shorter than 256 bytes, the loader decodes what the
    -- program puts into the ring to an `exec` of that path by the command that runs, whatever the
    -- reserved memory held. The record names the process that runs.
    pub sys_enter_execve-Captured :
        (memory : List ℕ) (address : ℕ) (path : String)
        → ctx.reserve 284 ≡ some memory
        → argument ctx 0 ≡ some address
        → PointsTo ctx address (as_bytes path)
        → length (as_bytes path) < 256
        → Runs ctx command
        → Captured ctx ring (sys_enter_execve ctx ring) (
            ("argv", J.strings (path ∷ []))
            ∷ ("comm", J.string command)
            ∷ ("type", J.string "exec")
            ∷ [])
    unfolding exec_event
    sys_enter_execve-Captured memory address path room arg points short runs =
        let size = sound.entries 284 memory room in
        let fits = exec_event-ExecFits sound memory size in
        captured ctx ring (sys_enter_execve ctx ring) 1 (exec_event ctx memory).pid
          (exec_bytes (exec_event ctx memory)) _ (execve_ring ctx ring memory room)
          (exec_bytes-HasHeader (exec_event ctx memory) fits refl) refl
          (rw
            (
              exec_path ctx sound memory address path size arg points short,
              exec_comm ctx memory command runs,
            )
            at (decode_read_exec (exec_event ctx memory) fits refl))
