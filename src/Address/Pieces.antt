-- ===== src/Address/Pieces.antt =====
-- The text of segments, cut at its colons.
use Prim.Native.Char.{Char, code}
use Prim.Native.String.{[] as ε, ◌∷◌ as ◌▹◌}
use text.Mathlib.TextLemmas.{nil-append, cons-append, append_assoc}
use mcpfz_probe.Base.{
  ℕ, ◌≡◌, refl, ap, ◌∙◌, String, ◌<>◌, false, true, List, [], ◌∷◌, ◌++◌, map, ◌==◌,
}
use mcpfz_probe.Base.Digits.{print}
use mcpfz_probe.Base.Digits.RoundTrip.{Chars}
use mcpfz_probe.Base.Digits.Hex.{IsPlain, print-IsPlain_hex, print-IsPlain}
use mcpfz_probe.Address.{show_segments}
use mcpfz_probe.Address.Reader.{pieces}

-- No character of the text has the code.
abbrev pub Free : ℕ → String → Type 0
Free sep = Chars (λ c. (code c == sep) ≡ false)

pub pieces-Free : (sep : ℕ) (p : String) → Free sep p → pieces sep p ≡ p ∷ []
unfolding pieces
pieces-Free sep ε h = refl
pieces-Free sep (c ▹ p) (ne, h) = rw (pieces, pieces-Free sep p h, ne) refl

pub pieces-append :
    (sep : ℕ) (p : String) (c : Char) (rest : String)
    → Free sep p
    → (code c == sep) ≡ true
    → pieces sep (p <> (c ▹ rest)) ≡ p ∷ pieces sep rest
unfolding pieces
pieces-append sep ε c rest h e = rw (nil-append, pieces, e) refl
pieces-append sep (d ▹ p) c rest (ne, h) e =
    rw (cons-append, pieces, pieces-append sep p c rest h e, ne) refl

pub no_colon : (p : String) → Chars IsPlain p → Free 58 p
no_colon ε h = tt
no_colon (c ▹ p) (plain, h) = (plain.0, no_colon p h)

pub no_dot : (p : String) → Chars IsPlain p → Free 46 p
no_dot ε h = tt
no_dot (c ▹ p) (plain, h) = (plain.1, no_dot p h)

hex-Free : (n : ℕ) → Free 58 (print 16 n)
hex-Free n = no_colon (print 16 n) (print-IsPlain_hex n)

pub dec-Free : (n : ℕ) → Free 46 (print 10 n)
dec-Free n = no_dot (print 10 n) (print-IsPlain n)

pub one_char : (c : Char) (t : String) → (c ▹ ε) <> t ≡ c ▹ t
one_char c t = rw (cons-append, nil-append) refl

-- The parts of the text of some segments.
abbrev pub hexes : List ℕ → List String
hexes = map (print 16)

abbrev pub parts : List ℕ → List String
parts [] = ε ∷ []
parts (s ∷ l) = print 16 s ∷ hexes l

pub pieces-show_segments : (l : List ℕ) → pieces 58 (show_segments l) ≡ parts l
unfolding show_segments pieces
pieces-show_segments [] = refl
pieces-show_segments (s ∷ []) = pieces-Free 58 (print 16 s) (hex-Free s)
pieces-show_segments (s ∷ t ∷ l) =
    ap (λ u. pieces 58 (print 16 s <> u)) (one_char ":" (show_segments (t ∷ l)))
    ∙ pieces-append 58 (print 16 s) ":" (show_segments (t ∷ l)) (hex-Free s) refl
    ∙ ap (λ ps. print 16 s ∷ ps) (pieces-show_segments (t ∷ l))

pieces-colon : (rest : String) → pieces 58 (":" ▹ rest) ≡ ε ∷ pieces 58 rest
unfolding pieces
pieces-colon rest = refl

pieces-show_append :
    (l : List ℕ) (rest : String)
    → pieces 58 (show_segments l <> (":" ▹ rest)) ≡ parts l ++ pieces 58 rest
unfolding show_segments
pieces-show_append [] rest = rw nil-append (pieces-colon rest)
pieces-show_append (s ∷ []) rest = pieces-append 58 (print 16 s) ":" rest (hex-Free s) refl
pieces-show_append (s ∷ t ∷ l) rest =
    let more = show_segments (t ∷ l) in
    ap (λ u. pieces 58 ((print 16 s <> u) <> (":" ▹ rest))) (one_char ":" more)
    ∙ ap (λ u. pieces 58 u)
        (append_assoc (print 16 s) (":" ▹ more) (":" ▹ rest)
          ∙ ap (λ u. print 16 s <> u) (cons-append ":" more (":" ▹ rest)))
    ∙ pieces-append 58 (print 16 s) ":" (more <> (":" ▹ rest)) (hex-Free s) refl
    ∙ ap (λ ps. print 16 s ∷ ps) (pieces-show_append (t ∷ l) rest)

two_colons : (t : String) → "::" <> t ≡ ":" ▹ (":" ▹ t)
two_colons t = rw (cons-append, cons-append, nil-append) refl

pub pieces-compressed :
    (a b : List ℕ)
    → pieces 58 (show_segments a <> "::" <> show_segments b) ≡ parts a ++ (ε ∷ parts b)
pieces-compressed a b =
    ap (λ u. pieces 58 (show_segments a <> u)) (two_colons (show_segments b))
    ∙ pieces-show_append a (":" ▹ show_segments b)
    ∙ ap (λ ps. parts a ++ ps)
        (pieces-colon (show_segments b) ∙ ap (λ ps. ε ∷ ps) (pieces-show_segments b))
