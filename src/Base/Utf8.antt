-- ===== src/Base/Utf8.antt =====
-- UTF-8 as `core::str::from_utf8` checks and reads it; a byte is a number below 256.
pub mod RoundTrip
pub mod Cut
use Prim.Native.Char.{Char, char, code, IsLt, IsScalar}
use Prim.Native.Nat.{ℕ, zero, suc, ◌+◌, ◌-◌, ◌*◌, ◌/◌, ◌%◌, Ordering, compare}
use Prim.Native.String.{String, [] as ε, ◌∷◌ as ◌▹◌}
use mathlib.Core.Bool.{Bool, ◌&&◌}
use mathlib.Core.Option.{Option, none, some}
use mathlib.Core.List.{List, [], ◌∷◌, ◌++◌}
use mcpfz_probe.Base.Tests.{ltb, leb, if◌then◌else◌}
use mcpfz_probe.Base.Lists.{length}

-- The clauses of `IsScalar`, whose helpers are private.
abbrev BothLt : Ordering → Ordering → Type 0
BothLt Ordering.lt o = IsLt o
BothLt Ordering.eq _ = ⊥
BothLt Ordering.gt _ = ⊥

abbrev Scalar : Ordering → Ordering → Ordering → Type 0
Scalar Ordering.lt _ _ = Unit
Scalar Ordering.eq o p = BothLt o p
Scalar Ordering.gt o p = BothLt o p

lt? : (o : Ordering) → Option (IsLt o)
lt? Ordering.lt = some tt
lt? Ordering.eq = none
lt? Ordering.gt = none

BothLt? : (o p : Ordering) → Option (BothLt o p)
BothLt? Ordering.lt p = lt? p
BothLt? Ordering.eq p = none
BothLt? Ordering.gt p = none

scalar? : (o p q : Ordering) → Option (Scalar o p q)
scalar? Ordering.lt p q = some tt
scalar? Ordering.eq p q = BothLt? p q
scalar? Ordering.gt p q = BothLt? p q

abbrev to_char : (n : ℕ) → Option (IsScalar n) → Option Char
to_char n none = none
to_char n (some h) = some (char n h)

-- `char::from_u32`
unfoldable pub char_of : ℕ → Option Char
unfolding scalar? BothLt? lt?
char_of n = to_char n (scalar? (compare n 55296) (compare 57343 n) (compare n 1114112))

abbrev paired : Option Char → List ℕ → Option (Char × List ℕ)
paired none rest = none
paired (some c) rest = some (c, rest)

-- A character that is not below the first one of its length: a longer form than needed is refused.
abbrev from_least : ℕ → ℕ → List ℕ → Option (Char × List ℕ)
from_least least n rest = if leb least n then paired (char_of n) rest else none

abbrev is_tail : ℕ → Bool
is_tail b = leb 0x80 b && ltb b 0xc0

pub read_two : ℕ → List ℕ → Option (Char × List ℕ)
read_two a (b ∷ rest) =
    if is_tail b then from_least 0x80 ((a - 0xc0) * 64 + (b - 0x80)) rest else none
read_two a _ = none

pub read_three : ℕ → List ℕ → Option (Char × List ℕ)
read_three a (b ∷ c ∷ rest) =
    if is_tail b && is_tail c
    then from_least 0x800 ((a - 0xe0) * 4096 + (b - 0x80) * 64 + (c - 0x80)) rest
    else none
read_three a _ = none

pub read_four : ℕ → List ℕ → Option (Char × List ℕ)
read_four a (b ∷ c ∷ d ∷ rest) =
    if is_tail b && (is_tail c && is_tail d)
    then from_least 0x10000 ((a - 0xf0) * 262144 + (b - 0x80) * 4096 + (c - 0x80) * 64 + (d - 0x80))
        rest
    else none
read_four a _ = none

-- The first character and the bytes after it.
unfoldable pub read_char : List ℕ → Option (Char × List ℕ)
unfolding read_two read_three read_four char_of
read_char [] = none
read_char (a ∷ rest) =
    if ltb a 0x80
    then paired (char_of a) rest
    else if ltb a 0xc0
    then none
    else if ltb a 0xe0
    then read_two a rest
    else if ltb a 0xf0
    then read_three a rest
    else if ltb a 0xf8
    then read_four a rest
    else none

-- Each round takes a byte at least, so as many rounds as there are bytes are enough.
unfoldable pub read_chars : ℕ → List ℕ → Option String
unfolding read_char
read_chars fuel [] = some ε
read_chars zero (b ∷ bs) = none
read_chars (suc fuel) (b ∷ bs) = elim (read_char (b ∷ bs)) [
  | none ↦ none
  | some (c, rest) ↦ elim (read_chars fuel rest) [ none ↦ none | some s ↦ some (c ▹ s) ]
]

-- `core::str::from_utf8(bytes).ok()`
unfoldable pub from_utf8 : List ℕ → Option String
unfolding read_chars
from_utf8 bytes = read_chars (length bytes) bytes

-- The bytes of a character and of a text, `str::as_bytes`.
abbrev pub char_bytes_of : ℕ → List ℕ
char_bytes_of n =
    if ltb n 0x80
    then n ∷ []
    else if ltb n 0x800
    then (0xc0 + n / 64) ∷ (0x80 + n % 64) ∷ []
    else if ltb n 0x10000
    then (0xe0 + n / 4096) ∷ (0x80 + n / 64 % 64) ∷ (0x80 + n % 64) ∷ []
    else (0xf0 + n / 262144) ∷ (0x80 + n / 4096 % 64) ∷ (0x80 + n / 64 % 64) ∷ (0x80 + n % 64) ∷ []

unfoldable pub char_bytes : Char → List ℕ
char_bytes c = char_bytes_of (code c)

unfoldable pub as_bytes : String → List ℕ
unfolding char_bytes
as_bytes ε = []
as_bytes (c ▹ s) = char_bytes c ++ as_bytes s
