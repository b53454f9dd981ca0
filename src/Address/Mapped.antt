-- ===== src/Address/Mapped.antt =====
-- The text of an IPv6 address that maps an IPv4 address is read back.
use Prim.Native.String.{[] as ε, ◌∷◌ as ◌▹◌}
use text.Mathlib.TextLemmas.{cons-append, append_assoc}
use mcpfz_probe.Base.{
  ℕ, ◌+◌, ◌*◌, ◌/◌, ◌%◌, ◌^◌, ◌<◌, ◌≡◌, refl, ap, ◌∙◌, String, ◌<>◌, some, [], ◌∷◌, arith,
}
use mcpfz_probe.Base.Digits.{print}
use mcpfz_probe.Base.Digits.RoundTrip.{Chars-append, parse_u64-print}
use mcpfz_probe.Base.Digits.Hex.{read_hex, print-IsPlain}
use mcpfz_probe.Address.Reader.{
  pieces, groups_of, read_groups, at_gap, without_first, address_in, read_ipv6,
}
use mcpfz_probe.Address.Pieces.{Free, pieces-Free, pieces-append, no_colon, dec-Free, one_char}

-- An IPv4 address in the text has its four parts.
abbrev pub dotted : (a b c d : ℕ) → String
dotted a b c d = print 10 a <> "." <> print 10 b <> "." <> print 10 c <> "." <> print 10 d

pieces-dot :
    (n : ℕ) (rest : String) → pieces 46 (print 10 n <> "." <> rest) ≡ print 10 n ∷ pieces 46 rest
pieces-dot n rest =
    ap (λ u. pieces 46 (print 10 n <> u)) (one_char "." rest)
    ∙ pieces-append 46 (print 10 n) "." rest (dec-Free n) refl

pub pieces-dotted :
    (a b c d : ℕ)
    → pieces 46 (dotted a b c d) ≡ print 10 a ∷ print 10 b ∷ print 10 c ∷ print 10 d ∷ []
pieces-dotted a b c d =
    pieces-dot a (print 10 b <> "." <> print 10 c <> "." <> print 10 d)
    ∙ ap (λ ps. print 10 a ∷ ps)
        (pieces-dot b (print 10 c <> "." <> print 10 d)
          ∙ ap (λ ps. print 10 b ∷ ps)
              (pieces-dot c (print 10 d)
                ∙ ap (λ ps. print 10 c ∷ ps) (pieces-Free 46 (print 10 d) (dec-Free d))))

Free-dot : (n : ℕ) (rest : String) → Free 58 rest → Free 58 (print 10 n <> "." <> rest)
Free-dot n rest h =
    Chars-append _ (print 10 n) ("." <> rest) (no_colon (print 10 n) (print-IsPlain n))
      (Chars-append _ "." rest (refl, tt) h)

Free-dotted : (a b c d : ℕ) → Free 58 (dotted a b c d)
Free-dotted a b c d =
    Free-dot a _ (Free-dot b _ (Free-dot c _ (no_colon (print 10 d) (print-IsPlain d))))

groups_of-dotted :
    (x y : ℕ)
    → x < 2 ^ 16
    → y < 2 ^ 16
    → groups_of (pieces 46 (dotted (x / 256) (x % 256) (y / 256) (y % 256))) ≡ some (x ∷ y ∷ [])
groups_of-dotted x y hx hy =
    let x' : x / 256 * 256 + x % 256 ≡ x = omega arith in
    let y' : y / 256 * 256 + y % 256 ≡ y = omega arith in
    ap groups_of (pieces-dotted (x / 256) (x % 256) (y / 256) (y % 256))
    ∙ rw
        (
          parse_u64-print (x / 256) (omega (arith, hx)),
          parse_u64-print (x % 256) (omega arith),
          parse_u64-print (y / 256) (omega (arith, hy)),
          parse_u64-print (y % 256) (omega arith),
          x',
          y',
        )
        refl

mapped_text : (t : String) → "::ffff:" <> t ≡ ":" ▹ (":" ▹ ("ffff" <> (":" ▹ t)))
mapped_text t =
    cons-append ":" ":ffff:" t
    ∙ ap (λ u. ":" ▹ u)
        (cons-append ":" "ffff:" t
          ∙ ap (λ u. ":" ▹ u) (append_assoc "ffff" ":" t ∙ ap (λ u. "ffff" <> u) (one_char ":" t)))

pub read-mapped :
    (x y : ℕ)
    → x < 2 ^ 16
    → y < 2 ^ 16
    → read_ipv6 ("::ffff:" <> dotted (x / 256) (x % 256) (y / 256) (y % 256))
      ≡ some (0 ∷ 0 ∷ 0 ∷ 0 ∷ 0 ∷ 0xffff ∷ x ∷ y ∷ [])
unfolding read_ipv6 read_groups read_hex
read-mapped x y hx hy =
    let q = dotted (x / 256) (x % 256) (y / 256) (y % 256) in
    ap (λ u. address_in (at_gap (without_first (pieces 58 u)))) (mapped_text q)
    ∙ ap (λ ps. address_in (at_gap (without_first (ε ∷ ε ∷ ps))))
        (pieces-append 58 "ffff" ":" q (refl, (refl, (refl, (refl, tt)))) refl
          ∙ ap (λ ps. "ffff" ∷ ps) (pieces-Free 58 q (Free-dotted _ _ _ _)))
    ∙ rw (groups_of-dotted x y hx hy) refl
