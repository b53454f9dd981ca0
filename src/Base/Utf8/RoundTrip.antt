-- ===== src/Base/Utf8/RoundTrip.antt =====
-- The bytes of a text are read back as the text.
use Prim.Native.Char.{Char, char, code}
use Prim.Native.Nat.{ℕ, zero, suc, ◌+◌, ◌-◌, ◌*◌, ◌/◌, ◌%◌, ◌≤◌, ◌<◌, Ordering, compare}
use Prim.Native.String.{String, [] as ε, ◌∷◌ as ◌▹◌}
use mathlib.Core.Path.{◌≡◌, refl, ◌∙◌, ap}
use mathlib.Core.Logic.{inl, inr}
use mathlib.Core.Option.{some}
use mathlib.Core.List.{List, [], ◌∷◌, ◌++◌}
use native.Mathlib.Omega.{arith}
use mcpfz_probe.Base.Lists.{length, length-append}
use mathlib.Core.Bool.{true, false}
use mcpfz_probe.Base.Tests.{ltb, Bool-cases, lt→ltb}
use mcpfz_probe.Base.Utf8.{
  Scalar, paired, read_two, read_three, read_four, char_bytes_of, scalar?, BothLt?, lt?, to_char,
  char_of, read_char, read_chars, from_utf8, char_bytes, as_bytes,
}

scalar?-eq : (o p q : Ordering) (k : Scalar o p q) → scalar? o p q ≡ some k
unfolding scalar? BothLt? lt?
scalar?-eq Ordering.lt p q k = refl
scalar?-eq Ordering.eq Ordering.lt Ordering.lt k = refl
scalar?-eq Ordering.eq Ordering.lt Ordering.eq k = absurd k
scalar?-eq Ordering.eq Ordering.lt Ordering.gt k = absurd k
scalar?-eq Ordering.eq Ordering.eq q k = absurd k
scalar?-eq Ordering.eq Ordering.gt q k = absurd k
scalar?-eq Ordering.gt Ordering.lt Ordering.lt k = refl
scalar?-eq Ordering.gt Ordering.lt Ordering.eq k = absurd k
scalar?-eq Ordering.gt Ordering.lt Ordering.gt k = absurd k
scalar?-eq Ordering.gt Ordering.eq q k = absurd k
scalar?-eq Ordering.gt Ordering.gt q k = absurd k

char_of-code : (c : Char) → char_of (code c) ≡ some c
unfolding char_of
char_of-code (char n h) =
    ap (to_char n) (scalar?-eq (compare n 55296) (compare 57343 n) (compare n 1114112) h)

scalar-lt :
    (n : ℕ) (o p q : Ordering)
    → compare n 55296 ≡ o
    → compare n 1114112 ≡ q
    → Scalar o p q
    → n < 1114112
scalar-lt n Ordering.lt p q e f k = ground arith
scalar-lt n Ordering.eq p q e f k = ground arith
scalar-lt n Ordering.gt Ordering.lt Ordering.lt e f k = ground arith
scalar-lt n Ordering.gt Ordering.lt Ordering.eq e f k = absurd k
scalar-lt n Ordering.gt Ordering.lt Ordering.gt e f k = absurd k
scalar-lt n Ordering.gt Ordering.eq q e f k = absurd k
scalar-lt n Ordering.gt Ordering.gt q e f k = absurd k

pub code-lt : (c : Char) → code c < 1114112
code-lt (char n h) = scalar-lt n _ (compare 57343 n) _ refl refl h

read_two-lem :
    (n : ℕ) (rest : List ℕ)
    → 0x80 ≤ n
    → read_two (0xc0 + n / 64) ((0x80 + n % 64) ∷ rest) ≡ paired (char_of n) rest
unfolding read_two
read_two-lem n rest h =
    let e : (0xc0 + n / 64 - 0xc0) * 64 + (0x80 + n % 64 - 0x80) ≡ n = omega arith in
    rw e (ground arith)

read_three-lem :
    (n : ℕ) (rest : List ℕ)
    → 0x800 ≤ n
    → read_three (0xe0 + n / 4096) ((0x80 + n / 64 % 64) ∷ (0x80 + n % 64) ∷ rest)
      ≡ paired (char_of n) rest
unfolding read_three
read_three-lem n rest h =
    let e : (0xe0 + n / 4096 - 0xe0) * 4096
          + (0x80 + n / 64 % 64 - 0x80) * 64
          + (0x80 + n % 64 - 0x80)
        ≡ n =
      omega arith in
    rw e (ground arith)

read_four-lem :
    (n : ℕ) (rest : List ℕ)
    → 0x10000 ≤ n
    → read_four
        (0xf0 + n / 262144)
        ((0x80 + n / 4096 % 64) ∷ (0x80 + n / 64 % 64) ∷ (0x80 + n % 64) ∷ rest)
      ≡ paired (char_of n) rest
unfolding read_four
read_four-lem n rest h =
    let e : (0xf0 + n / 262144 - 0xf0) * 262144
          + (0x80 + n / 4096 % 64 - 0x80) * 4096
          + (0x80 + n / 64 % 64 - 0x80) * 64
          + (0x80 + n % 64 - 0x80)
        ≡ n =
      omega arith in
    rw e (ground arith)

pub read_char_two :
    (a : ℕ) (rest : List ℕ) → 0xc0 ≤ a → a < 0xe0 → read_char (a ∷ rest) ≡ read_two a rest
unfolding read_char
read_char_two a rest h k =
    let e1 : ltb a 0x80 ≡ false = ground arith in
    let e2 : ltb a 0xc0 ≡ false = ground arith in rw (e1, e2, lt→ltb a 0xe0 k)

pub read_char_three :
    (a : ℕ) (rest : List ℕ) → 0xe0 ≤ a → a < 0xf0 → read_char (a ∷ rest) ≡ read_three a rest
unfolding read_char
read_char_three a rest h k =
    let e1 : ltb a 0x80 ≡ false = ground arith in
    let e2 : ltb a 0xc0 ≡ false = ground arith in
    let e3 : ltb a 0xe0 ≡ false = ground arith in rw (e1, e2, e3, lt→ltb a 0xf0 k)

pub read_char_four :
    (a : ℕ) (rest : List ℕ) → 0xf0 ≤ a → a < 0xf8 → read_char (a ∷ rest) ≡ read_four a rest
unfolding read_char
read_char_four a rest h k =
    let e1 : ltb a 0x80 ≡ false = ground arith in
    let e2 : ltb a 0xc0 ≡ false = ground arith in
    let e3 : ltb a 0xe0 ≡ false = ground arith in
    let e4 : ltb a 0xf0 ≡ false = ground arith in rw (e1, e2, e3, e4, lt→ltb a 0xf8 k)

pub read_char_one :
    (a : ℕ) (rest : List ℕ) → ltb a 0x80 ≡ true → read_char (a ∷ rest) ≡ paired (char_of a) rest
unfolding read_char
read_char_one a rest h = rw h

read_char-char_bytes_of :
    (n : ℕ) (rest : List ℕ)
    → n < 1114112
    → read_char (char_bytes_of n ++ rest) ≡ paired (char_of n) rest
read_char-char_bytes_of n rest h = elim (Bool-cases (ltb n 0x80)) [
  | inl one ↦ rw one (read_char_one n rest one)
  | inr more ↦ elim (Bool-cases (ltb n 0x800)) [
    | inl two ↦
        rw (more, two)
          (read_char_two _ _ (ground arith) (ground arith) ∙ read_two-lem n rest (ground arith))
    | inr bigger ↦ elim (Bool-cases (ltb n 0x10000)) [
      | inl three ↦
          rw (more, bigger, three)
            (read_char_three _ _ (ground arith) (ground arith)
              ∙ read_three-lem n rest (ground arith))
      | inr four ↦
          rw (more, bigger, four)
            (read_char_four _ _ (ground arith) (ground arith) ∙ read_four-lem n rest (ground arith))
    ]
  ]
]

pub read_char-char_bytes :
    (c : Char) (rest : List ℕ) → read_char (char_bytes c ++ rest) ≡ some (c, rest)
unfolding char_bytes
read_char-char_bytes c rest = read_char-char_bytes_of (code c) rest (code-lt c) ∙ rw char_of-code

pub char_bytes-pos : (c : Char) → 1 ≤ length (char_bytes c)
unfolding char_bytes
char_bytes-pos c = ground arith

read_chars_step :
    (fuel : ℕ) (bytes rest : List ℕ) (c : Char) {s : String}
    → 1 ≤ length bytes
    → read_char bytes ≡ some (c, rest)
    → read_chars fuel rest ≡ some s
    → read_chars (suc fuel) bytes ≡ some (c ▹ s)
unfolding read_chars
read_chars_step fuel [] rest c h e f = absurd (omega arith)
read_chars_step fuel (b ∷ bs) rest c h e f = rw (e, read_chars, f)

read_chars-as_bytes :
    (s : String) (fuel : ℕ) → length (as_bytes s) ≤ fuel → read_chars fuel (as_bytes s) ≡ some s
unfolding as_bytes read_chars
read_chars-as_bytes ε fuel h = ground arith
read_chars-as_bytes (c ▹ s) zero h =
    absurd (omega (arith, length-append (char_bytes c) (as_bytes s), char_bytes-pos c))
read_chars-as_bytes (c ▹ s) (suc fuel) h =
    let whole : length (char_bytes c ++ as_bytes s) ≡ length (char_bytes c) + length (as_bytes s) =
      length-append (char_bytes c) (as_bytes s) in
    let some_byte : 1 ≤ length (char_bytes c) = char_bytes-pos c in
    read_chars_step fuel (char_bytes c ++ as_bytes s) (as_bytes s) c (omega arith)
      (read_char-char_bytes c (as_bytes s)) (read_chars-as_bytes s fuel (omega arith))

-- The bytes of a text are valid UTF-8, and stand for the text.
pub from_utf8-as_bytes : (s : String) → from_utf8 (as_bytes s) ≡ some s
unfolding from_utf8
from_utf8-as_bytes s = read_chars-as_bytes s (length (as_bytes s)) (omega arith)
