-- ===== src/Base/Utf8/Cut.antt =====
-- Bytes that end inside a character are not valid UTF-8.
use Prim.Native.Char.{Char, code}
use Prim.Native.Nat.{ℕ, zero, suc, ◌≤◌, ◌<◌}
use Prim.Native.String.{String, [] as ε, ◌∷◌ as ◌▹◌}
use mathlib.Core.Path.{◌≡◌, refl}
use mathlib.Core.Logic.{inl, inr}
use mathlib.Core.Option.{none, some}
use mathlib.Core.List.{List, [], ◌∷◌, ◌++◌, append_assoc}
use native.Mathlib.Omega.{arith}
use mcpfz_probe.Base.Lists.{length, length-append, take}
use mcpfz_probe.Base.Tests.{ltb, Bool-cases}
use mcpfz_probe.Base.Utf8.{
  char_bytes_of, char_bytes, as_bytes, read_char, read_chars, read_two, read_three, read_four,
  from_utf8,
}
use mcpfz_probe.Base.Utf8.RoundTrip.{
  read_char-char_bytes, char_bytes-pos, code-lt, read_char_two, read_char_three, read_char_four,
}

cut_two : (a b k : ℕ) → 0xc0 ≤ a → a < 0xe0 → 0 < k → k < 2 → read_char (take k (a ∷ b ∷ [])) ≡ none
unfolding read_two
cut_two a b zero lo hi p q = absurd (omega arith)
cut_two a b (suc zero) lo hi p q = read_char_two a [] lo hi
cut_two a b (suc (suc k)) lo hi p q = absurd (omega arith)

cut_three :
    (a b c k : ℕ) → 0xe0 ≤ a → a < 0xf0 → 0 < k → k < 3 → read_char (take k (a ∷ b ∷ c ∷ [])) ≡ none
unfolding read_three
cut_three a b c zero lo hi p q = absurd (omega arith)
cut_three a b c (suc zero) lo hi p q = read_char_three a [] lo hi
cut_three a b c (suc (suc zero)) lo hi p q = read_char_three a (b ∷ []) lo hi
cut_three a b c (suc (suc (suc k))) lo hi p q = absurd (omega arith)

cut_four :
    (a b c d k : ℕ)
    → 0xf0 ≤ a
    → a < 0xf8
    → 0 < k
    → k < 4
    → read_char (take k (a ∷ b ∷ c ∷ d ∷ [])) ≡ none
unfolding read_four
cut_four a b c d zero lo hi p q = absurd (omega arith)
cut_four a b c d (suc zero) lo hi p q = read_char_four a [] lo hi
cut_four a b c d (suc (suc zero)) lo hi p q = read_char_four a (b ∷ []) lo hi
cut_four a b c d (suc (suc (suc zero))) lo hi p q = read_char_four a (b ∷ c ∷ []) lo hi
cut_four a b c d (suc (suc (suc (suc k)))) lo hi p q = absurd (omega arith)

read_char-cut :
    (n k : ℕ)
    → n < 1114112
    → 0 < k
    → k < length (char_bytes_of n)
    → read_char (take k (char_bytes_of n)) ≡ none
read_char-cut n k h pos small = elim (Bool-cases (ltb n 0x80)) [
  | inl one ↦ absurd (ground arith)
  | inr more ↦ elim (Bool-cases (ltb n 0x800)) [
    | inl two ↦ rw (more, two) (cut_two _ _ k (omega arith) (ground arith) pos (ground arith))
    | inr bigger ↦ elim (Bool-cases (ltb n 0x10000)) [
      | inl three ↦
          rw (more, bigger, three)
            (cut_three _ _ _ k (omega arith) (ground arith) pos (ground arith))
      | inr four ↦
          rw (more, bigger, four)
            (cut_four _ _ _ _ k (omega arith) (ground arith) pos (ground arith))
    ]
  ]
]

read_chars-none :
    (fuel : ℕ) (bytes : List ℕ)
    → 1 ≤ length bytes
    → read_char bytes ≡ none
    → read_chars fuel bytes ≡ none
unfolding read_chars
read_chars-none fuel [] h e = absurd (omega arith)
read_chars-none zero (b ∷ tail) h e = refl
read_chars-none (suc fuel) (b ∷ tail) h e = rw (e, read_chars)

length-take_pos : (k : ℕ) (xs : List ℕ) → 0 < k → k < length xs → 1 ≤ length (take k xs)
length-take_pos zero xs h p = absurd (omega arith)
length-take_pos (suc k) [] h p = absurd (omega arith)
length-take_pos (suc k) (x ∷ xs) h p = omega arith

read_chars_skip :
    (fuel : ℕ) (bytes rest : List ℕ) (c : Char)
    → read_char bytes ≡ some (c, rest)
    → 1 ≤ length bytes
    → ((f : ℕ) → read_chars f rest ≡ none)
    → read_chars fuel bytes ≡ none
unfolding read_chars
read_chars_skip fuel [] rest c e h f = absurd (omega arith)
read_chars_skip zero (b ∷ bs) rest c e h f = refl
read_chars_skip (suc fuel) (b ∷ bs) rest c e h f = rw (e, read_chars, f fuel)

read_chars-cut :
    (s : String) (tail : List ℕ)
    → ((fuel : ℕ) → read_chars fuel tail ≡ none)
    → (fuel : ℕ) → read_chars fuel (as_bytes s ++ tail) ≡ none
unfolding as_bytes
read_chars-cut ε tail e fuel = e fuel
read_chars-cut (c ▹ s) tail e fuel = rw append_assoc (
    read_chars_skip fuel (char_bytes c ++ (as_bytes s ++ tail)) (as_bytes s ++ tail) c
      (read_char-char_bytes c (as_bytes s ++ tail))
      (omega (arith, length-append (char_bytes c) (as_bytes s ++ tail), char_bytes-pos c))
      (read_chars-cut s tail e))

-- The bytes of a text, with a proper part of a character's bytes behind them, are refused.
pub from_utf8-cut :
    (s : String) (c : Char) (k : ℕ)
    → 0 < k
    → k < length (char_bytes c)
    → from_utf8 (as_bytes s ++ take k (char_bytes c)) ≡ none
unfolding from_utf8 char_bytes
from_utf8-cut s c k pos small =
    read_chars-cut s (take k (char_bytes_of (code c)))
      (λ fuel.
        read_chars-none fuel _ (length-take_pos k _ pos small)
          (read_char-cut (code c) k (code-lt c) pos small))
      _
