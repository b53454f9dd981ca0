-- ===== src/Address/Compressed.antt =====
-- The compressed text of an IPv6 address is read back.
use Prim.Native.Char.{Char}
use Prim.Native.String.{[] as ε, ◌∷◌ as ◌▹◌}
use mcpfz_probe.Base.{
  ℕ, ◌+◌, ◌-◌, ◌<◌, ◌≡◌, refl, ap, ◌∙◌, String, ◌<>◌, true, none, some, List, [], ◌∷◌, ◌++◌, length,
  length-append, arith, ltb, ◌==◌, inl, inr, Bool-cases, ltb→lt, lt→ltb, and_then,
}
use mcpfz_probe.Base.Digits.{print}
use mcpfz_probe.Base.Digits.Hex.{read_hex-print, print-IsPlain_hex, print-nonempty}
use mcpfz_probe.Address.{show_segments, show_compressed, Span}
use mcpfz_probe.Address.Reader.{
  read_groups, before_gap, at_gap, without_first, without_last, zeros, filled_up, eight, address_in,
  read_ipv6,
}
use mcpfz_probe.Address.Zeros.{Parts, take-Parts, drop-Parts, length-zeros}
use mcpfz_probe.Address.Pieces.{
  hexes, parts, pieces-Free, no_dot, pieces-show_segments, pieces-compressed,
}

-- A printed number is a part that is not empty.
at_gap-cons :
    {p : String} {c : Char} {t : String} (ps : List String)
    → p ≡ c ▹ t
    → at_gap (p ∷ ps) ≡ before_gap p (at_gap ps)
at_gap-cons ps e = rw e refl

without_first-cons :
    {p : String} {c : Char} {t : String} (ps : List String)
    → p ≡ c ▹ t
    → without_first (p ∷ ps) ≡ p ∷ ps
without_first-cons ps e = rw e refl

without_last-cons :
    {p : String} {c : Char} {t : String} (ps : List String)
    → p ≡ c ▹ t
    → without_last (p ∷ ps) ≡ p ∷ ps
without_last-cons ps e = rw e refl

at_gap-hexes :
    (l : List ℕ) (rest : List String) → at_gap (hexes l ++ (ε ∷ rest)) ≡ (hexes l, some rest)
at_gap-hexes [] rest = refl
at_gap-hexes (s ∷ l) rest =
    at_gap-cons (hexes l ++ (ε ∷ rest)) (print-nonempty 16 s).2
    ∙ ap (λ r. before_gap (print 16 s) r) (at_gap-hexes l rest)

at_gap-hexes_only : (l : List ℕ) → at_gap (hexes l) ≡ (hexes l, none)
at_gap-hexes_only [] = refl
at_gap-hexes_only (s ∷ l) =
    at_gap-cons (hexes l) (print-nonempty 16 s).2
    ∙ ap (λ r. before_gap (print 16 s) r) (at_gap-hexes_only l)

without_first-parts :
    (a b : List ℕ) → without_first (parts a ++ (ε ∷ parts b)) ≡ hexes a ++ (ε ∷ parts b)
without_first-parts [] b = refl
without_first-parts (s ∷ l) b =
    without_first-cons (hexes l ++ (ε ∷ parts b)) (print-nonempty 16 s).2

without_last-parts : (b : List ℕ) → without_last (parts b) ≡ hexes b
without_last-parts [] = refl
without_last-parts (s ∷ l) = without_last-cons (hexes l) (print-nonempty 16 s).2

read_groups-hexes : (l : List ℕ) → read_groups (hexes l) ≡ some l
unfolding read_groups
read_groups-hexes [] = refl
read_groups-hexes (s ∷ l) =
    rw
      (
        pieces-Free 46 (print 16 s) (no_dot (print 16 s) (print-IsPlain_hex s)),
        read_hex-print s,
        read_groups-hexes l,
      )
      refl

eight_lem : (l : List ℕ) → length l ≡ 8 → eight l ≡ some l
eight_lem l h = let e : (length l == 8) ≡ true = ground (arith, h) in rw e refl

filled_up-Parts :
    (s : List ℕ) (run : Span) (p : Parts s run)
    → length s ≡ 8
    → 0 < run.len
    → filled_up p.front p.back ≡ some s
filled_up-Parts s run p h long =
    let n : length p.front + (run.len + length p.back) ≡ 8 = omega (
      arith,
      h,
      ap length p.whole,
      length-append p.front (zeros run.len ++ p.back),
      length-append (zeros run.len) p.back,
      length-zeros run.len,
    ) in
    let few : ltb (length p.front + length p.back) 8 ≡ true = lt→ltb _ _ (omega (arith, n, long)) in
    let gap : 8 - (length p.front + length p.back) ≡ run.len = omega (arith, n) in
    rw (few, gap) (ap (λ l. some l) p.whole)

read-show_segments : (s : List ℕ) → length s ≡ 8 → read_ipv6 (show_segments s) ≡ some s
unfolding read_ipv6
read-show_segments [] h = absurd (omega (arith, h))
read-show_segments (n ∷ l) h =
    ap (λ ps. address_in (at_gap (without_first ps))) (pieces-show_segments (n ∷ l))
    ∙ ap (λ ps. address_in (at_gap ps)) (without_first-cons (hexes l) (print-nonempty 16 n).2)
    ∙ ap address_in (at_gap-hexes_only (n ∷ l))
    ∙ ap (λ r. and_then r eight) (read_groups-hexes (n ∷ l))
    ∙ eight_lem (n ∷ l) h

read-gap : (a b : List ℕ) → read_ipv6 (show_segments a <> "::" <> show_segments b) ≡ filled_up a b
unfolding read_ipv6
read-gap a b =
    ap (λ ps. address_in (at_gap (without_first ps))) (pieces-compressed a b)
    ∙ ap (λ ps. address_in (at_gap ps)) (without_first-parts a b)
    ∙ ap address_in (at_gap-hexes a (parts b))
    ∙ rw (read_groups-hexes a, without_last-parts b, read_groups-hexes b) refl

pub read-show_compressed :
    (s : List ℕ) (run : Span)
    → Parts s run
    → length s ≡ 8
    → read_ipv6 (show_compressed s run) ≡ some s
read-show_compressed s run p h = elim (Bool-cases (ltb 1 run.len)) [
  | inl long ↦
      rw (long, take-Parts s run p, drop-Parts s run p)
        (read-gap p.front p.back ∙ filled_up-Parts s run p h (omega (arith, ltb→lt _ _ long)))
  | inr short ↦ rw short (read-show_segments s h)
]
