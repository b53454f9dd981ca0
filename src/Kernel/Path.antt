-- ===== src/Kernel/Path.antt =====
-- System calls on a path, from the kernel to the JSON object of the loader.
use mcpfz_probe.Kernel.Sound.{process_id}
use mcpfz_probe.Base.{
  ℕ, zero, suc, ◌≤◌, ◌≢◌, All-prefix, ◌+◌, ◌^◌, ◌-◌, take, ◌<◌, ◌≡◌, refl, sym, ap, ◌∙◌, String,
  some, List, [], ◌∷◌, ◌++◌, length, arith, inl, inr,
}
use mathlib.Core.Path.{subst}
use Prim.Native.Char.{Char, code}
use mcpfz_probe.Base.Utf8.{as_bytes, char_bytes}
use mcpfz_probe.Events.Text.{NulFree, as_str-cut}
use mcpfz_probe.Json.{Json, IsLawful}
use mcpfz_probe.Events.{
  path_bytes, as_str, field, kind_file_open, kind_unlink, kind_chmod, filename_len,
}
use mcpfz_probe.Decode.{decode}
use mcpfz_probe.Decode.Objects.{Gives, path_says, decode_read, PathKind}
use mcpfz_probe.Kernel.{
  Context, Ring, Program, filled, padding_of, arg0, arg1, arg2, path_event, try_path,
  sys_enter_openat, sys_enter_unlinkat, sys_enter_fchmodat, sys_enter_unlink, sys_enter_chmod,
}
use mcpfz_probe.Kernel.Sound.{IsSound, length-field, path_event-PathFits}
use mcpfz_probe.Kernel.Header.{path_bytes-HasHeader}
use mcpfz_probe.Kernel.Memory.{PointsTo, Runs, argument, as_str-comm, as_str-filled}
use mcpfz_probe.Kernel.Capture.{Captured, captured}

-- The text in the path of an event, for a path in user memory.
path_text :
    (ctx : Context) (sound : IsSound ctx) (kind path_off arg_off : ℕ) (memory : List ℕ)
    (address : ℕ) (text : List ℕ)
    → length memory ≡ 296
    → ctx.read_at path_off ≡ some address
    → PointsTo ctx address text
    → as_str (path_event ctx kind path_off arg_off memory).filename ≡ as_str (take 255 text)
unfolding path_event
path_text ctx sound kind path_off arg_off memory address text size arg points =
    let len = length-field 24 filename_len memory (omega (arith, size)) in
    ap (λ a. as_str (filled ctx a (field 24 filename_len memory))) arg
    ∙ as_str-filled ctx address text (field 24 filename_len memory) points (omega (arith, len))
    ∙ ap (λ n. as_str (take (n - 1) text)) len

path_comm :
    (ctx : Context) (kind path_off arg_off : ℕ) (memory : List ℕ) (command : String)
    → Runs ctx command
    → as_str (path_event ctx kind path_off arg_off memory).comm ≡ command
unfolding path_event
path_comm ctx kind path_off arg_off memory command runs = as_str-comm ctx command runs

path_arg :
    (ctx : Context) (kind path_off arg_off : ℕ) (memory : List ℕ) (arg : ℕ)
    → ctx.read_at arg_off ≡ some arg
    → (path_event ctx kind path_off arg_off memory).arg ≡ arg
unfolding path_event
path_arg ctx kind path_off arg_off memory arg e = rw e refl

take-append_part :
    (k : ℕ) (xs ys zs : List ℕ)
    → k ≤ length ys
    → take (length xs + k) (xs ++ (ys ++ zs)) ≡ xs ++ take k ys
take-append_part k [] ys zs h = ap (λ n. take n (ys ++ zs)) (omega arith) ∙ take-prefix k ys zs h
  where
    take-prefix : (k : ℕ) (ys zs : List ℕ) → k ≤ length ys → take k (ys ++ zs) ≡ take k ys
    take-prefix zero ys zs h = refl
    take-prefix (suc k) [] zs h = absurd (omega arith)
    take-prefix (suc k) (y ∷ ys) zs h = ap (λ l. y ∷ l) (take-prefix k ys zs (omega arith))
take-append_part k (x ∷ xs) ys zs h =
    let e : suc (length xs) + k ≡ suc (length xs + k) = omega arith in
    rw e (ap (λ l. x ∷ l) (take-append_part k xs ys zs h))

-- The part of the path that fits its buffer ends inside a character.
as_str-take_cut :
    (s : String) (c : Char) (more : List ℕ)
    → NulFree (as_bytes s ++ (char_bytes c ++ more))
    → 0 < code c
    → length (as_bytes s) < 255
    → 255 < length (as_bytes s) + length (char_bytes c)
    → as_str (take 255 (as_bytes s ++ (char_bytes c ++ more))) ≡ ""
as_str-take_cut s c more free visible before across =
    let k = 255 - length (as_bytes s) in
    let e : length (as_bytes s) + k ≡ 255 = omega arith in
    ap as_str (
      ap (λ n. take n (as_bytes s ++ (char_bytes c ++ more))) (sym e)
      ∙ take-append_part k (as_bytes s) (char_bytes c) more (omega arith))
    ∙ as_str-cut s c k (All-prefix (λ b. b ≢ 0) (as_bytes s) _ free) visible (omega arith)
        (omega arith)

path_kind :
    (ctx : Context) (kind path_off arg_off : ℕ) (memory : List ℕ)
    → (path_event ctx kind path_off arg_off memory).kind ≡ kind
unfolding path_event
path_kind ctx kind path_off arg_off memory = refl

path_pid :
    (ctx : Context) (kind path_off arg_off : ℕ) (memory : List ℕ)
    → (path_event ctx kind path_off arg_off memory).pid ≡ process_id ctx
unfolding path_event
path_pid ctx kind path_off arg_off memory = refl

path_ring :
    (ctx : Context) (ring : Ring) (kind path_off arg_off : ℕ) (memory : List ℕ)
    → ctx.reserve 296 ≡ some memory
    → (try_path ctx kind path_off arg_off ring).1
      ≡ ring ++ (path_bytes (padding_of memory) (path_event ctx kind path_off arg_off memory) ∷ [])
unfolding try_path
path_ring ctx ring kind path_off arg_off memory room = rw room refl

-- The programs for system calls on a path: what they capture, and which arguments of the call are the
-- path and the flags or the mode. A delete has none of these.
pub data OnPath : Program → (kind path_arg arg : ℕ) → Type 0 where
  openat : OnPath sys_enter_openat kind_file_open 1 2
  unlinkat : OnPath sys_enter_unlinkat kind_unlink 1 2
  fchmodat : OnPath sys_enter_fchmodat kind_chmod 1 2
  unlink : OnPath sys_enter_unlink kind_unlink 0 0
  chmod : OnPath sys_enter_chmod kind_chmod 0 1

module _ ⦃J : Json⦄ ⦃L : IsLawful⦄ (ctx : Context) (sound : IsSound ctx) (ring : Ring)
    (command : String) where
  try_path-Captured :
      (kind path_off arg_off : ℕ) (memory : List ℕ) (address arg : ℕ) (text : List ℕ)
      → kind < 2 ^ 32
      → PathKind kind
      → ctx.reserve 296 ≡ some memory
      → ctx.read_at path_off ≡ some address
      → ctx.read_at arg_off ≡ some arg
      → PointsTo ctx address text
      → Runs ctx command
      → Captured ctx ring
          (0, (try_path ctx kind path_off arg_off ring).1)
          (path_says kind arg (as_str (take 255 text)) command)
  try_path-Captured kind path_off arg_off memory address arg text small k room at found points
        runs =
      let e = path_event ctx kind path_off arg_off memory in
      let size = sound.entries 296 memory room in
      let fits = path_event-PathFits sound kind path_off arg_off memory small size in
      let k' = subst PathKind (sym (path_kind ctx kind path_off arg_off memory)) k in
      captured ctx ring (0, (try_path ctx kind path_off arg_off ring).1) e.kind e.pid
        (path_bytes (padding_of memory) e) _ (path_ring ctx ring kind path_off arg_off memory room)
        (path_bytes-HasHeader (padding_of memory) e fits k')
        (path_pid ctx kind path_off arg_off memory)
        (subst (λ fields. Gives (decode e.kind (path_bytes (padding_of memory) e)) fields)
          (λ t.
            path_says (path_kind ctx kind path_off arg_off memory t)
              (path_arg ctx kind path_off arg_off memory arg found t)
              (path_text ctx sound kind path_off arg_off memory address text size at points t)
              (path_comm ctx kind path_off arg_off memory command runs t))
          (decode_read (padding_of memory) e.kind e k' fits))

  -- With a lawful JSON library and sound helpers: where an entry can be reserved and the path of a
  -- system call can be read in user memory, the loader decodes what the program for the call puts
  -- into the ring to an object of the type for the call, with the command that runs, the flags or
  -- the mode where the call has them, and what `as_str` makes of the first 255 bytes of the path,
  -- whatever the reserved memory held. The record names the process that runs.
  pub OnPath-Captured :
      {program : Program} {kind i j : ℕ} (memory : List ℕ) (address arg : ℕ) (text : List ℕ)
      → OnPath program kind i j
      → ctx.reserve 296 ≡ some memory
      → argument ctx i ≡ some address
      → argument ctx j ≡ some arg
      → PointsTo ctx address text
      → Runs ctx command
      → Captured ctx ring (program ctx ring) (path_says kind arg (as_str (take 255 text)) command)
  unfolding sys_enter_openat sys_enter_unlinkat sys_enter_fchmodat sys_enter_unlink sys_enter_chmod
  OnPath-Captured memory address arg text openat room at found points runs =
      try_path-Captured kind_file_open arg1 arg2 memory address arg text (omega arith) (inl refl)
        room at found points runs
  OnPath-Captured memory address arg text unlinkat room at found points runs =
      try_path-Captured kind_unlink arg1 arg2 memory address arg text (omega arith) (inr (inr refl))
        room at found points runs
  OnPath-Captured memory address arg text fchmodat room at found points runs =
      try_path-Captured kind_chmod arg1 arg2 memory address arg text (omega arith) (inr (inl refl))
        room at found points runs
  OnPath-Captured memory address arg text unlink room at found points runs =
      try_path-Captured kind_unlink arg0 arg0 memory address arg text (omega arith) (inr (inr refl))
        room at found points runs
  OnPath-Captured memory address arg text chmod room at found points runs =
      try_path-Captured kind_chmod arg0 arg1 memory address arg text (omega arith) (inr (inl refl))
        room at found points runs

  -- With a lawful JSON library and sound helpers: where an entry can be reserved and the path of a
  -- system call can be read in user memory, a path that has one character, itself not NUL, across its
  -- byte 255 is reported as the empty text. The record names the process that runs.
  pub OnPath-Captured_cut :
      {program : Program} {kind i j : ℕ} (memory : List ℕ) (address arg : ℕ) (s : String) (c : Char)
      (more : List ℕ)
      → OnPath program kind i j
      → ctx.reserve 296 ≡ some memory
      → argument ctx i ≡ some address
      → argument ctx j ≡ some arg
      → PointsTo ctx address (as_bytes s ++ (char_bytes c ++ more))
      → 0 < code c
      → length (as_bytes s) < 255
      → 255 < length (as_bytes s) + length (char_bytes c)
      → Runs ctx command
      → Captured ctx ring (program ctx ring) (path_says kind arg "" command)
  OnPath-Captured_cut {program} {kind} memory address arg s c more call room at found points visible
        before across runs =
      subst (λ path. Captured ctx ring (program ctx ring) (path_says kind arg path command))
        (as_str-take_cut s c more points.no_nul visible before across)
        (OnPath-Captured memory address arg _ call room at found points runs)
