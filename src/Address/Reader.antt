-- ===== src/Address/Reader.antt =====
-- Readers of the texts of addresses: four decimal numbers between dots, and an IPv6 address as RFC 4291, section 2.2, describes it: groups of hexadecimal
-- digits between colons, at most one `::` for the zeros that fill the address up to eight groups, and
-- two groups that may be written as an IPv4 address.
use Prim.Native.Char.{Char, code}
use Prim.Native.String.{[] as ε, ◌∷◌ as ◌▹◌}
use mcpfz_probe.Base.{
  ℕ, zero, suc, ◌+◌, ◌-◌, ◌*◌, String, Option, none, some, List, [], ◌∷◌, ◌++◌, length, ltb, ◌==◌,
  if◌then◌else◌, and_then,
}
use mcpfz_probe.Base.Digits.{parse_u64}
use mcpfz_probe.Base.Digits.Hex.{read_hex}

abbrev pub onto : Char → List String → List String
onto c [] = (c ▹ ε) ∷ []
onto c (p ∷ ps) = (c ▹ p) ∷ ps

-- The parts of a text between the characters with a code.
unfoldable pub pieces : ℕ → String → List String
pieces sep ε = ε ∷ []
pieces sep (c ▹ s) = let rest = pieces sep s in if code c == sep then ε ∷ rest else onto c rest

-- Two groups from the four numbers of an IPv4 address.
abbrev pub quad : Option ℕ → Option ℕ → Option ℕ → Option ℕ → Option (List ℕ)
quad (some a) (some b) (some c) (some d) = some ((a * 256 + b) ∷ (c * 256 + d) ∷ [])
quad _ _ _ _ = none

abbrev pub one_group : Option ℕ → Option (List ℕ)
one_group (some n) = some (n ∷ [])
one_group none = none

abbrev pub groups_of : List String → Option (List ℕ)
groups_of (p ∷ []) = one_group (read_hex 0 p)
groups_of (a ∷ b ∷ c ∷ d ∷ []) = quad (parse_u64 a) (parse_u64 b) (parse_u64 c) (parse_u64 d)
groups_of _ = none

abbrev pub and_groups : Option (List ℕ) → Option (List ℕ) → Option (List ℕ)
and_groups (some xs) (some ys) = some (xs ++ ys)
and_groups _ _ = none

unfoldable pub read_groups : List String → Option (List ℕ)
unfolding pieces
read_groups [] = some []
read_groups (p ∷ ps) = and_groups (groups_of (pieces 46 p)) (read_groups ps)

-- The parts before an empty one, and those after it.
abbrev pub before_gap :
    String → List String × Option (List String) → List String × Option (List String)
before_gap p (front, back) = (p ∷ front, back)

abbrev pub at_gap : List String → List String × Option (List String)
at_gap [] = ([], none)
at_gap (ε ∷ ps) = ([], some ps)
at_gap ((c ▹ p) ∷ ps) = before_gap (c ▹ p) (at_gap ps)

-- Two colons at an end of the text have two empty parts.
abbrev pub without_first : List String → List String
without_first (ε ∷ ε ∷ ps) = ε ∷ ps
without_first ps = ps

abbrev pub without_last : List String → List String
without_last (ε ∷ []) = []
without_last ps = ps

abbrev pub zeros : ℕ → List ℕ
zeros zero = []
zeros (suc n) = 0 ∷ zeros n

abbrev pub filled_up : List ℕ → List ℕ → Option (List ℕ)
filled_up front back =
    let n = length front + length back in
    if ltb n 8 then some (front ++ (zeros (8 - n) ++ back)) else none

abbrev pub eight : List ℕ → Option (List ℕ)
eight groups = if length groups == 8 then some groups else none

abbrev pub address_in : List String × Option (List String) → Option (List ℕ)
address_in (front, none) = and_then (read_groups front) eight
address_in (front, some back) =
    and_then (read_groups front)
      (λ xs. and_then (read_groups (without_last back)) (λ ys. filled_up xs ys))

unfoldable pub read_ipv6 : String → Option (List ℕ)
unfolding pieces read_groups
read_ipv6 text = address_in (at_gap (without_first (pieces 58 text)))

abbrev pub numbers : Option ℕ → Option ℕ → Option ℕ → Option ℕ → Option (List ℕ)
numbers (some a) (some b) (some c) (some d) = some (a ∷ b ∷ c ∷ d ∷ [])
numbers _ _ _ _ = none

abbrev pub numbers_in : List String → Option (List ℕ)
numbers_in (a ∷ b ∷ c ∷ d ∷ []) = numbers (parse_u64 a) (parse_u64 b) (parse_u64 c) (parse_u64 d)
numbers_in _ = none

unfoldable pub read_ipv4 : String → Option (List ℕ)
unfolding pieces
read_ipv4 text = numbers_in (pieces 46 text)
