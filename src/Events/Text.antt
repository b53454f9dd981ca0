-- ===== src/Events/Text.antt =====
-- What `as_str` makes of a NUL-padded field.
use Prim.Native.Char.{Char, code}
use mcpfz_probe.Base.{
  All-append, All-take, Bool-cases, inl, inr, ltb, take, length, ◌<◌, ℕ, ◌≡◌, ◌≢◌, refl, String,
  none, List, [],
}
use mcpfz_probe.Base.{◌∷◌, ◌++◌, arith, All}
use mcpfz_probe.Base.Utf8.{from_utf8, as_bytes, char_bytes, char_bytes_of}
use mcpfz_probe.Base.Utf8.RoundTrip.{from_utf8-as_bytes}
use mcpfz_probe.Base.Utf8.Cut.{from_utf8-cut}
use mcpfz_probe.Events.{until_nul, as_str}

-- No byte is NUL.
abbrev pub NulFree : List ℕ → Type 0
NulFree = All (λ b. b ≢ 0)

until_nul-append_nul : (xs junk : List ℕ) → NulFree xs → until_nul (xs ++ (0 ∷ junk)) ≡ xs
until_nul-append_nul [] junk h = refl
until_nul-append_nul (x ∷ xs) junk (ne, h) = ground (arith, until_nul-append_nul xs junk h)

until_nul-NulFree : (xs : List ℕ) → NulFree xs → until_nul xs ≡ xs
until_nul-NulFree [] h = refl
until_nul-NulFree (x ∷ xs) (ne, h) = ground (arith, until_nul-NulFree xs h)

as_str_of_invalid : (bytes : List ℕ) → NulFree bytes → from_utf8 bytes ≡ none → as_str bytes ≡ ""
unfolding as_str
as_str_of_invalid bytes h e = rw (until_nul-NulFree bytes h, e)

-- A text without NUL that the kernel put into a field is read back, whatever the field holds after
-- the NUL that ends it.
pub as_str-as_bytes :
    (s : String) (junk : List ℕ) → NulFree (as_bytes s) → as_str (as_bytes s ++ (0 ∷ junk)) ≡ s
unfolding as_str
as_str-as_bytes s junk h = rw (until_nul-append_nul (as_bytes s) junk h, from_utf8-as_bytes s)

-- A text without NUL that fills its field, with no NUL behind it, is read back too.
pub as_str_full : (s : String) → NulFree (as_bytes s) → as_str (as_bytes s) ≡ s
unfolding as_str
as_str_full s h = rw (until_nul-NulFree (as_bytes s) h, from_utf8-as_bytes s)

-- What stands behind the first NUL does not matter.
pub as_str-append_nul : (xs junk : List ℕ) → NulFree xs → as_str (xs ++ (0 ∷ junk)) ≡ as_str xs
unfolding as_str
as_str-append_nul xs junk h = rw (until_nul-append_nul xs junk h, until_nul-NulFree xs h) refl

NulFree-char_bytes_of : (n : ℕ) → 0 < n → NulFree (char_bytes_of n)
NulFree-char_bytes_of n h = elim (Bool-cases (ltb n 0x80)) [
  | inl one ↦ rw one (omega arith)
  | inr more ↦ elim (Bool-cases (ltb n 0x800)) [
    | inl two ↦ rw (more, two) (omega arith)
    | inr bigger ↦ elim (Bool-cases (ltb n 0x10000)) [
      | inl three ↦ rw (more, bigger, three) (omega arith)
      | inr four ↦ rw (more, bigger, four) (omega arith)
    ]
  ]
]

-- A text without NUL that is cut inside a character, itself not NUL, is lost as a whole.
pub as_str-cut :
    (s : String) (c : Char) (k : ℕ)
    → NulFree (as_bytes s)
    → 0 < code c
    → 0 < k
    → k < length (char_bytes c)
    → as_str (as_bytes s ++ take k (char_bytes c)) ≡ ""
unfolding char_bytes
as_str-cut s c k h nonzero pos small =
    as_str_of_invalid _
      (All-append (λ b. b ≢ 0) (as_bytes s) _ h
        (All-take _ k _ (NulFree-char_bytes_of (code c) nonzero)))
      (from_utf8-cut s c k pos small)
