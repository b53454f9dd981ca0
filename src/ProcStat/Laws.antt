-- ===== src/ProcStat/Laws.antt =====
-- Which group `process_pgid` finds.
use Prim.Native.Char.{Char, code}
use Prim.Native.String.{String, [], ◌∷◌}
use mcpfz_probe.Base.{ℕ, ◌<◌, ◌^◌, ◌<>◌, ◌≡◌, refl, ap, ◌∙◌, none, some, false}
use text.Mathlib.TextLemmas.{nil-append, cons-append}
use mcpfz_probe.Base.{arith, ◌≢◌}
use mcpfz_probe.Base.Int.{pos}
use mcpfz_probe.Base.Text.{is_whitespace, trim_start, is_empty}
use mcpfz_probe.Base.Digits.{print}
use mcpfz_probe.Base.Digits.RoundTrip.{
  print-cons, Chars, Chars-append, IsDigit, print-IsDigit, parse_i32-print,
}
use mcpfz_probe.ProcStat.{after_paren, take_word, next_field, stat_pgid}

abbrev pub NoParen : String → Type 0
NoParen = Chars (λ c. code c ≢ 41)

abbrev pub NoSpace : String → Type 0
NoSpace = Chars (λ c. is_whitespace c ≡ false)

after_paren-NoParen : (s : String) → NoParen s → after_paren s ≡ none
unfolding after_paren
after_paren-NoParen [] h = refl
after_paren-NoParen (c ∷ s) (ne, h) = rw (after_paren-NoParen s h, after_paren) (ground arith)

after_paren-append : (before s : String) → NoParen s → after_paren (before <> (")" ∷ s)) ≡ some s
unfolding after_paren
after_paren-append [] s h = rw (nil-append, after_paren-NoParen s h, after_paren) refl
after_paren-append (c ∷ before) s h =
    rw (cons-append, after_paren-append before s h, after_paren) refl

take_word-append : (w rest : String) → NoSpace w → take_word (w <> (" " ∷ rest)) ≡ (w, " " ∷ rest)
unfolding take_word is_whitespace
take_word-append [] rest h = rw nil-append refl
take_word-append (c ∷ w) rest (e, h) =
    rw (cons-append, take_word-append w rest h, take_word, e) refl

trim_start_word :
    (c : Char) (t : String) → is_whitespace c ≡ false → trim_start (" " ∷ (c ∷ t)) ≡ c ∷ t
unfolding trim_start
trim_start_word c t e = rw e refl

next_field_of :
    (s : String) {c : Char} {t : String}
    → trim_start s ≡ c ∷ t
    → next_field s ≡ some (take_word (c ∷ t))
unfolding next_field
next_field_of s e = rw e refl

-- A word between blanks is the next field.
next_field-append :
    (c : Char) (w rest : String)
    → NoSpace (c ∷ w)
    → next_field (" " ∷ ((c ∷ w) <> (" " ∷ rest))) ≡ some (c ∷ w, " " ∷ rest)
next_field-append c w rest (e, h) = rw cons-append (
    next_field_of _ (trim_start_word c (w <> (" " ∷ rest)) e)
    ∙ rw cons-append at (ap some (take_word-append (c ∷ w) rest (e, h))))

-- A field of the file: a word, which is not empty and has no blank and no closing parenthesis.
abbrev pub IsField : String → Type 0
IsField w = (is_empty w ≡ false) × (NoSpace w × NoParen w)

next_field-IsField :
    (w rest : String) → IsField w → next_field (" " ∷ (w <> (" " ∷ rest))) ≡ some (w, " " ∷ rest)
next_field-IsField [] rest (e, h) = cc
next_field-IsField (c ∷ w) rest (e, h) = next_field-append c w rest h.0

digit_not_paren : (s : String) → Chars IsDigit s → NoParen s
digit_not_paren [] h = tt
digit_not_paren (c ∷ s) (h, hs) = (λ e. omega arith, digit_not_paren s hs)

not_space : (c : Char) → IsDigit c → is_whitespace c ≡ false
unfolding is_whitespace
not_space c h = ground arith

digit_not_space : (s : String) → Chars IsDigit s → NoSpace s
digit_not_space [] h = tt
digit_not_space (c ∷ s) (h, hs) = (not_space c h, digit_not_space s hs)

-- The fields after the command: state, parent, group and the rest.
abbrev pub fields_of : String → String → String → String → String
fields_of state ppid pgrp rest = " " ∷ (state <> (" " ∷ (ppid <> (" " ∷ (pgrp <> (" " ∷ rest))))))

print-IsField : (n : ℕ) → IsField (print 10 n)
print-IsField n =
    let (d, t, small, e) = print-cons n in
    (rw e refl, (digit_not_space _ (print-IsDigit n), digit_not_paren _ (print-IsDigit n)))

fields_of-NoParen :
    (state ppid pgrp rest : String)
    → NoParen state
    → NoParen ppid
    → NoParen pgrp
    → NoParen rest
    → NoParen (fields_of state ppid pgrp rest)
fields_of-NoParen state ppid pgrp rest hs hp hg hr =
    let blank : code " " ≢ 41 = omega arith in
    (
      blank,
      Chars-append _ state _ hs
          (blank, Chars-append _ ppid _ hp (blank, Chars-append _ pgrp _ hg (blank, hr))),
    )

-- The group is found whatever the command of the process is called, parentheses and blanks
-- included: in a file that holds any text, the last `)`, the state, the parent and a group that is
-- an `i32`, with a rest without `)`.
pub stat_pgid-fields_of :
    (before state ppid rest : String) (pgrp : ℕ)
    → IsField state
    → IsField ppid
    → NoParen rest
    → pgrp < 2 ^ 31
    → stat_pgid (before <> (")" ∷ fields_of state ppid (print 10 pgrp) rest)) ≡ some (pos pgrp)
unfolding stat_pgid
stat_pgid-fields_of before state ppid rest pgrp hs hp hr fits =
    let no_paren : NoParen (fields_of state ppid (print 10 pgrp) rest) =
      fields_of-NoParen state ppid (print 10 pgrp) rest hs.1.1 hp.1.1 (print-IsField pgrp).1.1 hr in
    rw
      (
        after_paren-append before _ no_paren,
        next_field-IsField state _ hs,
        next_field-IsField ppid _ hp,
        next_field-IsField (print 10 pgrp) _ (print-IsField pgrp),
      )
      (parse_i32-print pgrp fits)
