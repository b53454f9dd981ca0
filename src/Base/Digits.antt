-- ===== src/Base/Digits.antt =====
-- Numbers in text as Rust's `fmt` prints them (`{}`, `{:o}`, `{:x}`) and as `str::parse` reads them.
pub mod RoundTrip
pub mod Hex
use Prim.Native.Char.{Char, code, nul}
use Prim.Native.String.{String, [], ◌∷◌}
use Prim.Native.Nat.{ℕ, zero, suc, ◌+◌, ◌-◌, ◌*◌, ◌/◌, ◌%◌, ◌^◌}
use mathlib.Core.Bool.{◌&&◌}
use mathlib.Core.Option.{Option, none, some}
use mathlib.Core.Option
use mcpfz_probe.Base.Int.{ℤ, pos, negsuc}
use mcpfz_probe.Base.Tests.{ltb, leb, ◌==◌, if◌then◌else◌}

-- The digits 0 to f; any other number has none, and `nul` is never printed.
abbrev pub digit : ℕ → Char
digit zero = "0"
digit (suc zero) = "1"
digit (suc (suc zero)) = "2"
digit (suc (suc (suc zero))) = "3"
digit (suc (suc (suc (suc zero)))) = "4"
digit (suc (suc (suc (suc (suc zero))))) = "5"
digit (suc (suc (suc (suc (suc (suc zero)))))) = "6"
digit (suc (suc (suc (suc (suc (suc (suc zero))))))) = "7"
digit (suc (suc (suc (suc (suc (suc (suc (suc zero)))))))) = "8"
digit (suc (suc (suc (suc (suc (suc (suc (suc (suc zero))))))))) = "9"
digit (suc (suc (suc (suc (suc (suc (suc (suc (suc (suc n)))))))))) = letter n
  where
    letter : ℕ → Char
    letter zero = "a"
    letter (suc zero) = "b"
    letter (suc (suc zero)) = "c"
    letter (suc (suc (suc zero))) = "d"
    letter (suc (suc (suc (suc zero)))) = "e"
    letter (suc (suc (suc (suc (suc zero))))) = "f"
    letter (suc (suc (suc (suc (suc (suc m)))))) = nul

-- The digits of `n` in front of a text; each round takes one digit off.
unfoldable pub print_onto : ℕ → ℕ → ℕ → String → String
print_onto radix zero n acc = acc
print_onto radix (suc fuel) n acc =
    let more = print_onto radix fuel (n / radix) (digit (n % radix) ∷ acc) in
    if n / radix == 0 then (digit (n % radix) ∷ acc) else more

-- `n` rounds and one are enough, as a number has at most that many digits.
unfoldable pub print : ℕ → ℕ → String
unfolding print_onto
print radix n = print_onto radix (suc n) n []

-- The value of a decimal digit.
abbrev pub digit_value : Char → Option ℕ
digit_value c = if leb 48 (code c) && leb (code c) 57 then some (code c - 48) else none

-- The loop of `from_str_radix(10)`: `none` for a character that is no digit and on overflow.
unfoldable pub read_onto : ℕ → ℕ → String → Option ℕ
read_onto limit acc [] = some acc
read_onto limit acc (c ∷ s) = elim (digit_value c) [
  | none ↦ none
  | some d ↦
      let rest = read_onto limit (acc * 10 + d) s in if ltb (acc * 10 + d) limit then rest else none
]

-- A number needs a digit; `limit` is the first value that does not fit.
unfoldable pub read_digits : ℕ → String → Option ℕ
unfolding read_onto
read_digits limit [] = none
read_digits limit (c ∷ s) = read_onto limit 0 (c ∷ s)

-- `str::parse::<u64>`: digits, after a `+` if there is one.
unfoldable pub parse_u64 : String → Option ℕ
unfolding read_digits
parse_u64 [] = none
parse_u64 (c ∷ s) = if code c == 43 then read_digits (2 ^ 64) s else read_digits (2 ^ 64) (c ∷ s)

-- The integer -n.
abbrev pub negative : ℕ → ℤ
negative zero = pos 0
negative (suc n) = negsuc n

-- `str::parse::<i32>`: digits after an optional sign.
unfoldable pub parse_i32 : String → Option ℤ
unfolding read_digits
parse_i32 [] = none
parse_i32 (c ∷ s) =
    if code c == 43
    then Option.map pos (read_digits (2 ^ 31) s)
    else if code c == 45
    then Option.map negative (read_digits (2 ^ 31 + 1) s)
    else Option.map pos (read_digits (2 ^ 31) (c ∷ s))
