-- ===== src/Base/Digits/Hex.antt =====
-- Hexadecimal numbers in text: `{:x}` printed and read back.
use Prim.Native.Char.{Char, code}
use Prim.Native.String.{String, [], ◌∷◌}
use Prim.Native.Nat.{ℕ, zero, suc, ◌+◌, ◌-◌, ◌*◌, ◌/◌, ◌%◌, ◌<◌}
use mathlib.Core.Path.{◌≡◌, refl, ◌∙◌}
use mathlib.Core.Logic.{inl, inr}
use mathlib.Core.Bool.{false, ◌&&◌}
use mathlib.Core.Option.{Option, none, some}
use native.Mathlib.Omega.{arith}
use mcpfz_probe.Base.Tests.{leb, ◌==◌, ==_iff, Bool-cases, if◌then◌else◌}
use mcpfz_probe.Base.Digits.{digit, print_onto, print}
use mcpfz_probe.Base.Digits.RoundTrip.{Chars}

-- The value of a hexadecimal digit, in lower case.
abbrev pub hex_value : Char → Option ℕ
hex_value c =
    if leb 48 (code c) && leb (code c) 57
    then some (code c - 48)
    else if leb 97 (code c) && leb (code c) 102
    then some (code c - 87)
    else none

unfoldable pub read_hex : ℕ → String → Option ℕ
read_hex acc [] = some acc
read_hex acc (c ∷ s) = elim (hex_value c) [ none ↦ none | some d ↦ read_hex (acc * 16 + d) s ]

hex_value-digit : (d : ℕ) → d < 16 → hex_value (digit d) ≡ some d
hex_value-digit zero h = refl
hex_value-digit (suc zero) h = refl
hex_value-digit (suc (suc zero)) h = refl
hex_value-digit (suc (suc (suc zero))) h = refl
hex_value-digit (suc (suc (suc (suc zero)))) h = refl
hex_value-digit (suc (suc (suc (suc (suc zero))))) h = refl
hex_value-digit (suc (suc (suc (suc (suc (suc zero)))))) h = refl
hex_value-digit (suc (suc (suc (suc (suc (suc (suc zero))))))) h = refl
hex_value-digit (suc (suc (suc (suc (suc (suc (suc (suc zero)))))))) h = refl
hex_value-digit (suc (suc (suc (suc (suc (suc (suc (suc (suc zero))))))))) h = refl
hex_value-digit (suc (suc (suc (suc (suc (suc (suc (suc (suc (suc zero)))))))))) h = refl
hex_value-digit (suc (suc (suc (suc (suc (suc (suc (suc (suc (suc (suc zero))))))))))) h = refl
hex_value-digit (suc (suc (suc (suc (suc (suc (suc (suc (suc (suc (suc (suc zero)))))))))))) h =
    refl
hex_value-digit (suc (suc (suc (suc (suc (suc (suc (suc (suc (suc (suc (suc (suc zero)))))))))))))
      h =
    refl
hex_value-digit
      (suc (suc (suc (suc (suc (suc (suc (suc (suc (suc (suc (suc (suc (suc zero)))))))))))))) h =
    refl
hex_value-digit
      (suc (suc (suc (suc (suc (suc (suc (suc (suc (suc (suc (suc (suc (suc (suc zero)))))))))))))))
      h =
    refl
hex_value-digit
      (suc
        (suc (suc (suc (suc (suc (suc (suc (suc (suc (suc (suc (suc (suc (suc (suc n))))))))))))))))
      h =
    absurd (omega arith)

read_hex-digit :
    (acc d : ℕ) (s : String) → d < 16 → read_hex acc (digit d ∷ s) ≡ read_hex (acc * 16 + d) s
unfolding read_hex
read_hex-digit acc d s h = rw (hex_value-digit d h, read_hex) refl

read_hex-print_onto :
    (fuel n : ℕ) (s : String) → n < fuel → read_hex 0 (print_onto 16 fuel n s) ≡ read_hex n s
unfolding print_onto
read_hex-print_onto zero n s h = absurd (omega arith)
read_hex-print_onto (suc fuel) n s h = elim (Bool-cases (n / 16 == 0)) [
  | inl done ↦
      let small : n / 16 ≡ 0 = (==_iff _ _).0 done in
      let e : 0 * 16 + n % 16 ≡ n = omega arith in
      rw done (rw e at (read_hex-digit 0 (n % 16) s (omega arith)))
  | inr more ↦
      let big : n / 16 < n = ground arith in
      let e : n / 16 * 16 + n % 16 ≡ n = omega arith in
      rw more (
        read_hex-print_onto fuel (n / 16) (digit (n % 16) ∷ s) (omega arith)
        ∙ rw e at (read_hex-digit (n / 16) (n % 16) s (omega arith)))
]

-- Every number is read back from its hexadecimal text.
pub read_hex-print : (n : ℕ) → read_hex 0 (print 16 n) ≡ some n
unfolding print read_hex
read_hex-print n = read_hex-print_onto (suc n) n [] (omega arith)

-- A character that is neither a colon nor a dot.
abbrev pub IsPlain : Char → Type 0
IsPlain c = ((code c == 58) ≡ false) × ((code c == 46) ≡ false)

digit-IsPlain : (d : ℕ) → d < 16 → IsPlain (digit d)
digit-IsPlain zero h = (refl, refl)
digit-IsPlain (suc zero) h = (refl, refl)
digit-IsPlain (suc (suc zero)) h = (refl, refl)
digit-IsPlain (suc (suc (suc zero))) h = (refl, refl)
digit-IsPlain (suc (suc (suc (suc zero)))) h = (refl, refl)
digit-IsPlain (suc (suc (suc (suc (suc zero))))) h = (refl, refl)
digit-IsPlain (suc (suc (suc (suc (suc (suc zero)))))) h = (refl, refl)
digit-IsPlain (suc (suc (suc (suc (suc (suc (suc zero))))))) h = (refl, refl)
digit-IsPlain (suc (suc (suc (suc (suc (suc (suc (suc zero)))))))) h = (refl, refl)
digit-IsPlain (suc (suc (suc (suc (suc (suc (suc (suc (suc zero))))))))) h = (refl, refl)
digit-IsPlain (suc (suc (suc (suc (suc (suc (suc (suc (suc (suc zero)))))))))) h = (refl, refl)
digit-IsPlain (suc (suc (suc (suc (suc (suc (suc (suc (suc (suc (suc zero))))))))))) h =
    (refl, refl)
digit-IsPlain (suc (suc (suc (suc (suc (suc (suc (suc (suc (suc (suc (suc zero)))))))))))) h =
    (refl, refl)
digit-IsPlain (suc (suc (suc (suc (suc (suc (suc (suc (suc (suc (suc (suc (suc zero))))))))))))) h =
    (refl, refl)
digit-IsPlain
      (suc (suc (suc (suc (suc (suc (suc (suc (suc (suc (suc (suc (suc (suc zero)))))))))))))) h =
    (refl, refl)
digit-IsPlain
      (suc (suc (suc (suc (suc (suc (suc (suc (suc (suc (suc (suc (suc (suc (suc zero)))))))))))))))
      h =
    (refl, refl)
digit-IsPlain
      (suc
        (suc (suc (suc (suc (suc (suc (suc (suc (suc (suc (suc (suc (suc (suc (suc n))))))))))))))))
      h =
    absurd (omega arith)

print_onto-Chars :
    (P : Char → Type 0) (radix fuel n : ℕ) (s : String)
    → ((m : ℕ) → P (digit (m % radix)))
    → Chars P s
    → Chars P (print_onto radix fuel n s)
unfolding print_onto
print_onto-Chars P radix zero n s all h = h
print_onto-Chars P radix (suc fuel) n s all h = elim (Bool-cases (n / radix == 0)) [
  | inl done ↦ rw done (all n, h)
  | inr more ↦ rw more (print_onto-Chars P radix fuel (n / radix) _ all (all n, h))
]

pub print-IsPlain_hex : (n : ℕ) → Chars IsPlain (print 16 n)
unfolding print
print-IsPlain_hex n =
    print_onto-Chars IsPlain 16 (suc n) n [] (λ m. digit-IsPlain (m % 16) (omega arith)) tt

pub print-IsPlain : (n : ℕ) → Chars IsPlain (print 10 n)
unfolding print
print-IsPlain n =
    print_onto-Chars IsPlain 10 (suc n) n [] (λ m. digit-IsPlain (m % 10) (omega arith)) tt

-- A printed number is not empty.
print_onto-nonempty :
    (radix fuel n : ℕ) (c : Char) (s : String)
    → (c' : Char) × (t : String) × (print_onto radix fuel n (c ∷ s) ≡ c' ∷ t)
unfolding print_onto
print_onto-nonempty radix zero n c s = (c, s, refl)
print_onto-nonempty radix (suc fuel) n c s = elim (Bool-cases (n / radix == 0)) [
  | inl done ↦ (digit (n % radix), c ∷ s, rw done)
  | inr more ↦ rw more (print_onto-nonempty radix fuel (n / radix) (digit (n % radix)) (c ∷ s))
]

pub print-nonempty : (radix n : ℕ) → (c : Char) × (t : String) × (print radix n ≡ c ∷ t)
unfolding print
print-nonempty radix n = elim (Bool-cases (n / radix == 0)) [
  | inl done ↦ (digit (n % radix), [], rw (done, print_onto))
  | inr more ↦ rw more (print_onto-nonempty radix n (n / radix) (digit (n % radix)) [])
]
