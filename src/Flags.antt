-- ===== src/Flags.antt =====
-- crates/mcpfz-probe/src/ebpf.rs, lines 309 to 329: the flags of open(2) as a text. A word is its
-- 32-bit pattern, so `flags & 0o3` is `flags % 4`, and `flags & bit != 0`, for a power of two, asks
-- whether `flags / bit` is odd.
pub mod Laws
use mcpfz_probe.Base.{ℕ, zero, suc, ◌/◌, ◌%◌, String, ◌<>◌, Bool, List, [], ◌∷◌, ◌==◌}
use mcpfz_probe.Base.{if◌then◌else◌}

abbrev pub access_name : ℕ → String
access_name (suc zero) = "O_WRONLY"
access_name (suc (suc zero)) = "O_RDWR"
access_name _ = "O_RDONLY"

abbrev pub has_bit : ℕ → ℕ → Bool
has_bit flags bit = flags / bit % 2 == 1

abbrev pub flag_bits : List (ℕ × String)
flag_bits = (0o100, "O_CREAT") ∷ (0o200, "O_EXCL") ∷ (0o1000, "O_TRUNC") ∷ (0o2000, "O_APPEND") ∷ []

-- The loop that pushes the names of the bits that are set.
abbrev pub flag_names : ℕ → List (ℕ × String) → List String
flag_names flags [] = []
flag_names flags ((bit, name) ∷ rest) =
    let more = flag_names flags rest in if has_bit flags bit then name ∷ more else more

-- `parts.join("|")`
abbrev pub join : String → List String → String
join separator [] = ""
join separator (x ∷ []) = x
join separator (x ∷ y ∷ l) = x <> separator <> join separator (y ∷ l)

abbrev pub flag_parts : ℕ → List String
flag_parts flags = access_name (flags % 4) ∷ flag_names flags flag_bits

unfoldable pub flags_to_string : ℕ → String
flags_to_string flags = join "|" (flag_parts flags)
