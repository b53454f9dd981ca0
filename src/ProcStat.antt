-- ===== src/ProcStat.antt =====
-- crates/mcpfz-probe/src/ebpf.rs, lines 341 to 354: the process group in `/proc/<pid>/stat`.
pub mod Laws
use Prim.Native.Char.{Char, code}
use Prim.Native.String.{String, [], ◌∷◌}
use mcpfz_probe.Base.{ℕ, Option, none, some, ◌==◌, if◌then◌else◌, and_then}
use mcpfz_probe.Base.Int.{ℤ}
use mcpfz_probe.Base.Text.{is_whitespace, trim_start, is_empty}
use mcpfz_probe.Base.Digits.{parse_i32}

-- `stat.get(stat.rfind(')')? + 1..)?`
unfoldable pub after_paren : String → Option String
after_paren [] = none
after_paren (c ∷ s) = elim (after_paren s) [
  | some t ↦ some t
  | none ↦ if code c == 41 then some s else none
]

-- The word at the start of a text, and what follows it.
unfoldable pub take_word : String → String × String
unfolding is_whitespace
take_word [] = ([], [])
take_word (c ∷ s) =
    let (w, rest) = take_word s in if is_whitespace c then ([], c ∷ s) else (c ∷ w, rest)

-- `next` of the iterator `split_whitespace`, with the text that it has left.
unfoldable pub next_field : String → Option (String × String)
unfolding trim_start take_word
next_field s = if is_empty (trim_start s) then none else some (take_word (trim_start s))

abbrev pgrp_of : String → Option ℤ
pgrp_of after_comm = do
  (state, s1) ← next_field after_comm
  (ppid, s2) ← next_field s1
  (pgrp, s3) ← next_field s2
  parse_i32 pgrp
  where
    infixl 5 ◌>>=◌
    ◌>>=◌ : {A B : Type 0} → Option A → (A → Option B) → Option B
    m >>= f = and_then m f

-- The group in the text of the file.
unfoldable pub stat_pgid : String → Option ℤ
unfolding after_paren next_field parse_i32
stat_pgid stat = and_then (after_paren stat) pgrp_of

-- `read` answers with the text of `/proc/<pid>/stat`, if the file can be read.
unfoldable pub process_pgid : (read : ℕ → Option String) → ℕ → Option ℤ
unfolding stat_pgid
process_pgid read pid = and_then (read pid) stat_pgid
