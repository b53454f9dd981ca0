-- ===== src/Base/Digits/RoundTrip.antt =====
-- Reading a printed number gives the number back.
use Prim.Native.Char.{Char, code}
use mathlib.Core.Option
use mcpfz_probe.Base.Int.{pos}
use Prim.Native.String.{String, [], ◌∷◌, ◌++◌}
use Prim.Native.Nat.{ℕ, zero, suc, ◌+◌, ◌*◌, ◌/◌, ◌%◌, ◌^◌, ◌<◌, ◌≤◌}
use mathlib.Core.Path.{◌≡◌, refl, ◌∙◌}
use mathlib.Core.Logic.{inl, inr}
use mathlib.Core.Bool.{false}
use mathlib.Core.Option.{some}
use native.Mathlib.Omega.{arith}
use text.Mathlib.TextLemmas.{nil-append, cons-append}
use mcpfz_probe.Base.Tests.{ltb, lt→ltb, ltb→lt, ◌==◌, ==_iff, Bool-cases, Option-cases}
use mcpfz_probe.Base.Digits.{
  digit, print_onto, print, digit_value, read_onto, read_digits, parse_u64, parse_i32,
}

pub digit_value-digit : (d : ℕ) → d < 10 → digit_value (digit d) ≡ some d
digit_value-digit zero h = refl
digit_value-digit (suc zero) h = refl
digit_value-digit (suc (suc zero)) h = refl
digit_value-digit (suc (suc (suc zero))) h = refl
digit_value-digit (suc (suc (suc (suc zero)))) h = refl
digit_value-digit (suc (suc (suc (suc (suc zero))))) h = refl
digit_value-digit (suc (suc (suc (suc (suc (suc zero)))))) h = refl
digit_value-digit (suc (suc (suc (suc (suc (suc (suc zero))))))) h = refl
digit_value-digit (suc (suc (suc (suc (suc (suc (suc (suc zero)))))))) h = refl
digit_value-digit (suc (suc (suc (suc (suc (suc (suc (suc (suc zero))))))))) h = refl
digit_value-digit (suc (suc (suc (suc (suc (suc (suc (suc (suc (suc n)))))))))) h =
    absurd (omega arith)

read_onto-digit :
    (limit acc d : ℕ) (s : String)
    → d < 10
    → acc * 10 + d < limit
    → read_onto limit acc (digit d ∷ s) ≡ read_onto limit (acc * 10 + d) s
unfolding read_onto
read_onto-digit limit acc d s h fits = rw (digit_value-digit d h, read_onto, lt→ltb _ _ fits)

read_onto-print_onto :
    (limit fuel n : ℕ) (s : String)
    → n < fuel
    → n < limit
    → read_onto limit 0 (print_onto 10 fuel n s) ≡ read_onto limit n s
unfolding print_onto
read_onto-print_onto limit zero n s h fits = absurd (omega arith)
read_onto-print_onto limit (suc fuel) n s h fits = elim (Bool-cases (n / 10 == 0)) [
  | inl done ↦
      let small : n / 10 ≡ 0 = (==_iff _ _).0 done in
      let e : 0 * 10 + n % 10 ≡ n = omega arith in
      rw done (rw e at (read_onto-digit limit 0 (n % 10) s (omega arith) (omega arith)))
  | inr more ↦
      let big : n / 10 < n = ground arith in
      let e : n / 10 * 10 + n % 10 ≡ n = omega arith in
      rw more (
        read_onto-print_onto limit fuel (n / 10) (digit (n % 10) ∷ s) (omega arith) (omega arith)
        ∙ rw e at (read_onto-digit limit (n / 10) (n % 10) s (omega arith) (omega arith)))
]

-- A printed number begins with a digit.
print_onto-cons :
    (fuel n d : ℕ) (s : String)
    → d < 10
    → (d' : ℕ) × (t : String) × (d' < 10) × (print_onto 10 fuel n (digit d ∷ s) ≡ digit d' ∷ t)
unfolding print_onto
print_onto-cons zero n d s h = (d, s, h, refl)
print_onto-cons (suc fuel) n d s h = elim (Bool-cases (n / 10 == 0)) [
  | inl done ↦ (n % 10, digit d ∷ s, omega arith, rw done)
  | inr more ↦ rw more (print_onto-cons fuel (n / 10) (n % 10) (digit d ∷ s) (omega arith))
]

pub print-cons : (n : ℕ) → (d : ℕ) × (t : String) × (d < 10) × (print 10 n ≡ digit d ∷ t)
unfolding print
print-cons n = elim (Bool-cases (n / 10 == 0)) [
  | inl done ↦ (n % 10, [], omega arith, rw (done, print_onto))
  | inr more ↦ rw more (print_onto-cons n (n / 10) (n % 10) [] (omega arith))
]

not-plus-digit : (d : ℕ) → d < 10 → (code (digit d) == 43) ≡ false
not-plus-digit d h = ground (arith, digit_value-digit d h)

parse_u64-digit :
    (d : ℕ) (t : String) → d < 10 → parse_u64 (digit d ∷ t) ≡ read_onto (2 ^ 64) 0 (digit d ∷ t)
unfolding parse_u64
parse_u64-digit d t h = rw (not-plus-digit d h)

read_print : (n : ℕ) → n < 2 ^ 64 → read_onto (2 ^ 64) 0 (print 10 n) ≡ some n
unfolding print read_onto
read_print n h = read_onto-print_onto (2 ^ 64) (suc n) n [] (omega arith) h

-- Every `u64` is read back from its decimal text.
pub parse_u64-print : (n : ℕ) → n < 2 ^ 64 → parse_u64 (print 10 n) ≡ some n
parse_u64-print n h =
    let (d, t, small, e) = print-cons n in
    rw e (parse_u64-digit d t small ∙ rw (← e) (read_print n h))

parse_i32-digit :
    (d : ℕ) (t : String)
    → d < 10
    → parse_i32 (digit d ∷ t) ≡ Option.map pos (read_onto (2 ^ 31) 0 (digit d ∷ t))
unfolding parse_i32 read_digits
parse_i32-digit d t h =
    let not_plus : (code (digit d) == 43) ≡ false = ground (arith, digit_value-digit d h) in
    let not_minus : (code (digit d) == 45) ≡ false = ground (arith, digit_value-digit d h) in
    rw (not_plus, not_minus)

-- So is every `i32` that is not negative.
pub parse_i32-print : (n : ℕ) → n < 2 ^ 31 → parse_i32 (print 10 n) ≡ some (pos n)
unfolding print read_onto
parse_i32-print n h =
    let (d, t, small, e) = print-cons n in
    let read : read_onto (2 ^ 31) 0 (print 10 n) ≡ some n =
      read_onto-print_onto (2 ^ 31) (suc n) n [] (omega arith) h in
    rw e (parse_i32-digit d t small ∙ rw (← e, read))

-- A text of which every character has a property.
abbrev pub Chars : (Char → Type 0) → String → Type 0
Chars P [] = Unit {0}
Chars P (c ∷ s) = P c × Chars P s

pub Chars-append : (P : Char → Type 0) (s t : String) → Chars P s → Chars P t → Chars P (s ++ t)
Chars-append P [] t hs ht = rw nil-append ht
Chars-append P (c ∷ s) t (h, hs) ht = rw cons-append (h, Chars-append P s t hs ht)

abbrev pub IsDigit : Char → Type 0
IsDigit c = (48 ≤ code c) × (code c ≤ 57)

digit-IsDigit : (d : ℕ) → d < 10 → IsDigit (digit d)
digit-IsDigit d h = ground (arith, digit_value-digit d h)

print_onto-IsDigit :
    (fuel n : ℕ) (s : String) → Chars IsDigit s → Chars IsDigit (print_onto 10 fuel n s)
unfolding print_onto
print_onto-IsDigit zero n s h = h
print_onto-IsDigit (suc fuel) n s h =
    let last : IsDigit (digit (n % 10)) = digit-IsDigit (n % 10) (omega arith) in
    elim (Bool-cases (n / 10 == 0)) [
      | inl done ↦ rw done (last, h)
      | inr more ↦ rw more (print_onto-IsDigit fuel (n / 10) _ (last, h))
    ]

pub print-IsDigit : (n : ℕ) → Chars IsDigit (print 10 n)
unfolding print
print-IsDigit n = print_onto-IsDigit (suc n) n [] tt

read_onto-lt :
    (limit acc : ℕ) (s : String) {n : ℕ} → acc < limit → read_onto limit acc s ≡ some n → n < limit
unfolding read_onto
read_onto-lt limit acc [] h e = ground arith
read_onto-lt limit acc (c ∷ s) {n} h e = elim (Option-cases (digit_value c)) [
  | inl bad ↦ absurd (cc (rw (bad, read_onto) at e))
  | inr (d, good) ↦ elim (Bool-cases (ltb (acc * 10 + d) limit)) [
    | inl fits ↦
        read_onto-lt limit (acc * 10 + d) s (ltb→lt _ _ fits) (rw (good, read_onto, fits) at e)
    | inr over ↦ absurd (cc (rw (good, read_onto, over) at e))
  ]
]

read_digits-lt :
    (limit : ℕ) (s : String) {n : ℕ} → 0 < limit → read_digits limit s ≡ some n → n < limit
unfolding read_digits
read_digits-lt limit [] h e = cc
read_digits-lt limit (c ∷ s) h e = read_onto-lt limit 0 (c ∷ s) h e

-- What is read fits 64 bits.
pub parse_u64-lt : (s : String) {n : ℕ} → parse_u64 s ≡ some n → n < 2 ^ 64
unfolding parse_u64
parse_u64-lt [] e = cc
parse_u64-lt (c ∷ s) e = elim (Bool-cases (code c == 43)) [
  | inl plus ↦ read_digits-lt _ s (omega arith) (rw plus at e)
  | inr no_plus ↦ read_digits-lt _ (c ∷ s) (omega arith) (rw no_plus at e)
]
