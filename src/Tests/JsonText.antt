-- ===== src/Tests/JsonText.antt =====
-- A reader of JSON texts for the sample library. A text in it has no escapes and a number is a
-- natural number.
use mcpfz_probe.Base.{
  ℕ, zero, suc, ◌+◌, ◌*◌, String, ◌<>◌, Option, none, some, List, [], ◌∷◌, ◌++◌, length, ◌==◌, ◌≡◌,
  refl, and_then, if◌then◌else◌,
}
use Prim.Native.Char.{Char, code}
use Prim.Native.String.{[] as ε, ◌∷◌ as ◌▹◌}
use mcpfz_probe.Base.Digits.{print, digit_value}
use mcpfz_probe.Base.Text.{is_whitespace}
use mcpfz_probe.Tests.Samples.{
  Value, Values, Fields, text, number, array, object, none_left, item, end, field, sample_json,
}

pub data Token : Type 0 where
  open_brace close_brace open_bracket close_bracket colon comma : Token
  word : String → Token
  natural : ℕ → Token

-- Where the lexer is: between tokens, in a text, or in a number.
pub data Mode : Type 0 where
  between : Mode
  inside : String → Mode
  digits : ℕ → Mode

abbrev pub Lexed : Type 0
Lexed = List Token × Mode

abbrev pub lex_mark : ℕ → Option Lexed
lex_mark c =
    if c == 34
    then some ([], inside "")
    else if c == 123
    then some (open_brace ∷ [], between)
    else if c == 125
    then some (close_brace ∷ [], between)
    else if c == 91
    then some (open_bracket ∷ [], between)
    else if c == 93
    then some (close_bracket ∷ [], between)
    else if c == 58
    then some (colon ∷ [], between)
    else if c == 44
    then some (comma ∷ [], between)
    else none

unfoldable pub lex_between : Char → Option Lexed
unfolding is_whitespace
lex_between c =
    if is_whitespace c
    then some ([], between)
    else elim (digit_value c) [ some d ↦ some ([], digits d) | none ↦ lex_mark (code c) ]

abbrev pub after_number : ℕ → Option Lexed → Option Lexed
after_number n none = none
after_number n (some (tokens, mode)) = some (natural n ∷ tokens, mode)

abbrev pub lex_char : Mode → Char → Option Lexed
unfolding lex_between
lex_char between c = lex_between c
lex_char (inside s) c =
    if code c == 34 then some (word s ∷ [], between) else some ([], inside (s <> (c ▹ ε)))
lex_char (digits n) c = elim (digit_value c) [
  | some d ↦ some ([], digits (n * 10 + d))
  | none ↦ after_number n (lex_between c)
]

abbrev pub lex : Mode → String → Option (List Token)
lex between ε = some []
lex (inside s) ε = none
lex (digits n) ε = some (natural n ∷ [])
lex mode (c ▹ s) = elim (lex_char mode c) [
  | none ↦ none
  | some (tokens, mode') ↦ and_then (lex mode' s) (λ rest. some (tokens ++ rest))
]

-- Each call takes a token at least, so that as many rounds as there are tokens are enough.
unfoldable mutual
  pub read_value : ℕ → List Token → Option (Value × List Token)
  read_value (suc n) (word s ∷ rest) = some (text s, rest)
  read_value (suc n) (natural k ∷ rest) = some (number (print 10 k), rest)
  read_value (suc n) (open_brace ∷ close_brace ∷ rest) = some (object end, rest)
  read_value (suc n) (open_brace ∷ rest) =
      and_then (read_fields n rest) (λ (m, after). some (object m, after))
  read_value (suc n) (open_bracket ∷ close_bracket ∷ rest) = some (array none_left, rest)
  read_value (suc n) (open_bracket ∷ rest) =
      and_then (read_items n rest) (λ (l, after). some (array l, after))
  read_value n tokens = none

  pub read_fields : ℕ → List Token → Option (Fields × List Token)
  read_fields (suc n) (word k ∷ colon ∷ rest) = elim (read_value n rest) [
    | some (v, close_brace ∷ after) ↦ some (field k v end, after)
    | some (v, comma ∷ after) ↦
        and_then (read_fields n after) (λ (m, after'). some (field k v m, after'))
    | _ ↦ none
  ]
  read_fields n tokens = none

  pub read_items : ℕ → List Token → Option (Values × List Token)
  read_items (suc n) tokens = elim (read_value n tokens) [
    | some (v, close_bracket ∷ after) ↦ some (item v none_left, after)
    | some (v, comma ∷ after) ↦
        and_then (read_items n after) (λ (l, after'). some (item v l, after'))
    | _ ↦ none
  ]
  read_items zero tokens = none

abbrev pub whole : Value × List Token → Option Value
whole (v, []) = some v
whole (v, _ ∷ _) = none

-- `serde_json::from_str::<Value>`
unfoldable pub read_json : String → Option Value
unfolding read_value read_fields read_items lex_between
read_json s =
    and_then (lex between s) (λ tokens. and_then (read_value (length tokens) tokens) whole)

reads :
    read_json "{\"a\": [\"x\", 12], \"b\":{}}"
    ≡ some (
        object (
          field "a"
            (array (item (text "x") (item (number "12") none_left)))
            (field "b" (object end) end)))
unfolding read_json lex_between print
reads = refl
