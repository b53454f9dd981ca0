-- ===== src/Kernel/Memory.antt =====
-- What the buffer of a path holds after the kernel has copied a text from user memory.
use mcpfz_probe.Base.{
  ℕ, zero, suc, ◌+◌, ◌-◌, ◌*◌, ◌<◌, ◌≤◌, ◌≡◌, refl, ap, ◌∙◌, String, Option, some, List, [], ◌∷◌,
  ◌++◌, length, take, drop, arith, All-take, ◌≢◌,
}
use mcpfz_probe.Base.Utf8.{as_bytes}
use mcpfz_probe.Events.{as_str}
use mcpfz_probe.Events.Text.{NulFree, as_str-append_nul, as_str_full}
use mcpfz_probe.Decode.Objects.{Holds, as_str-Holds}
use mcpfz_probe.Kernel.{Context, comm, filled, cleared}
use mcpfz_probe.Kernel.Sound.{length-cleared}

-- The documented effect of `bpf_probe_read_user_str`: the text and a NUL, or what fits of the text
-- with a NUL in the last byte; the bytes behind the NUL stay.
abbrev pub copied : (text buffer : List ℕ) → List ℕ
copied text buffer =
    take (length buffer - 1) text ++ (0 ∷ drop (length (take (length buffer - 1) text) + 1) buffer)

-- A text ends with a NUL in user memory, and can be read there.
pub record PointsTo (ctx : Context) (address : ℕ) (text : List ℕ) : Type 0 where
  pub no_nul : NulFree text
  pub read :
      (buffer : List ℕ) → 0 < length buffer → ctx.read_user_str address buffer ≡ copied text buffer

-- The process has a command name.
abbrev pub Runs : Context → String → Type 0
Runs ctx command = (c : List ℕ) × (ctx.current_comm ≡ some c) × Holds c command

-- The 64-bit word of a system call's argument, counted from 0: behind 8 bytes of common fields and 8
-- bytes with the number of the call.
abbrev pub argument : Context → ℕ → Option ℕ
argument ctx i = ctx.read_at (16 + 8 * i)

pub take_all-le : (n : ℕ) (xs : List ℕ) → length xs ≤ n → take n xs ≡ xs
take_all-le zero [] h = refl
take_all-le zero (x ∷ xs) h = absurd (omega arith)
take_all-le (suc n) [] h = refl
take_all-le (suc n) (x ∷ xs) h = ap (λ l. x ∷ l) (take_all-le n xs (omega arith))

pub as_str-comm :
    (ctx : Context) (command : String) → Runs ctx command → as_str (comm ctx) ≡ command
as_str-comm ctx command (c, found, holds) = rw found (as_str-Holds c command holds)

-- The text that is read out of the buffer: as much of the text as fits.
pub as_str-filled :
    (ctx : Context) (address : ℕ) (text buffer : List ℕ)
    → PointsTo ctx address text
    → 0 < length buffer
    → as_str (filled ctx (some address) buffer) ≡ as_str (take (length buffer - 1) text)
as_str-filled ctx address text buffer points room =
    let e = length-cleared buffer in
    ap as_str (points.read (cleared buffer) (omega (arith, e)))
    ∙ rw e (
        as_str-append_nul (take (length buffer - 1) text) _
          (All-take (λ b. b ≢ 0) _ text points.no_nul))

-- A text that fits is read out as it is.
pub as_str-filled_fits :
    (ctx : Context) (address : ℕ) (path : String) (buffer : List ℕ)
    → PointsTo ctx address (as_bytes path)
    → length (as_bytes path) < length buffer
    → as_str (filled ctx (some address) buffer) ≡ path
as_str-filled_fits ctx address path buffer points fits =
    as_str-filled ctx address (as_bytes path) buffer points (omega (arith, fits))
    ∙ ap as_str (take_all-le (length buffer - 1) (as_bytes path) (omega (arith, fits)))
    ∙ as_str_full path points.no_nul
