-- ===== src/Address/RoundTrip.antt =====
-- The text of an address is read back.
use mathlib.Core.Path.{subst}
use mcpfz_probe.Base.{
  ℕ, zero, suc, ◌+◌, ◌*◌, ◌/◌, ◌%◌, ◌^◌, ◌<◌, ◌≤◌, ◌≡◌, refl, sym, ap, ◌∙◌, ◌<>◌, some, List, [],
  ◌∷◌, length, take, arith, ◌==◌, inl, inr, ◌⊎◌, ==_iff, Bool-cases, All,
}
use mcpfz_probe.Base.Digits.RoundTrip.{parse_u64-print}
use mcpfz_probe.Address.{
  fmt_addr, segments, show_ipv4, show_ipv6, show_compressed, longest_zeros, empty_span,
}
use mcpfz_probe.Address.Reader.{read_ipv6, read_ipv4, numbers_in}
use mcpfz_probe.Address.Zeros.{longest_zeros-Parts_of}
use mcpfz_probe.Address.Compressed.{read-show_compressed}
use mcpfz_probe.Address.Mapped.{dotted, read-mapped, pieces-dotted}

-- The text of segments: the form for an address that maps one of IPv4, or the compressed form.
mapped_or :
    (s : List ℕ)
    → ((x y : ℕ) × (s ≡ 0 ∷ 0 ∷ 0 ∷ 0 ∷ 0 ∷ 0xffff ∷ x ∷ y ∷ [])
        × (show_ipv6 s ≡ "::ffff:" <> dotted (x / 256) (x % 256) (y / 256) (y % 256)))
      ⊎ (show_ipv6 s ≡ show_compressed s (longest_zeros 0 empty_span empty_span s))
unfolding show_ipv6 show_ipv4
mapped_or [] = inr refl
mapped_or (suc n ∷ l) = inr refl
mapped_or (zero ∷ []) = inr refl
mapped_or (zero ∷ suc n ∷ l) = inr refl
mapped_or (zero ∷ zero ∷ []) = inr refl
mapped_or (zero ∷ zero ∷ suc n ∷ l) = inr refl
mapped_or (zero ∷ zero ∷ zero ∷ []) = inr refl
mapped_or (zero ∷ zero ∷ zero ∷ suc n ∷ l) = inr refl
mapped_or (zero ∷ zero ∷ zero ∷ zero ∷ []) = inr refl
mapped_or (zero ∷ zero ∷ zero ∷ zero ∷ suc n ∷ l) = inr refl
mapped_or (zero ∷ zero ∷ zero ∷ zero ∷ zero ∷ []) = inr refl
mapped_or (zero ∷ zero ∷ zero ∷ zero ∷ zero ∷ m ∷ []) = inr refl
mapped_or (zero ∷ zero ∷ zero ∷ zero ∷ zero ∷ m ∷ x ∷ []) = inr refl
mapped_or (zero ∷ zero ∷ zero ∷ zero ∷ zero ∷ m ∷ x ∷ y ∷ z ∷ l) = inr refl
mapped_or (zero ∷ zero ∷ zero ∷ zero ∷ zero ∷ m ∷ x ∷ y ∷ []) = elim (Bool-cases (m == 0xffff)) [
  | inl is_mapped ↦
      let e : m ≡ 0xffff = (==_iff _ _).0 is_mapped in
      inl (x, y, ap (λ n. 0 ∷ 0 ∷ 0 ∷ 0 ∷ 0 ∷ n ∷ x ∷ y ∷ []) e, rw is_mapped refl)
  | inr other ↦ inr (rw other refl)
]

last_two :
    {x y : ℕ} (s : List ℕ)
    → s ≡ 0 ∷ 0 ∷ 0 ∷ 0 ∷ 0 ∷ 0xffff ∷ x ∷ y ∷ []
    → All (λ n. n < 2 ^ 16) s
    → (x < 2 ^ 16) × (y < 2 ^ 16)
last_two s e small =
    let all = subst (λ l. All (λ n. n < 2 ^ 16) l) e small in
    (all.1.1.1.1.1.1.0, all.1.1.1.1.1.1.1.0)

read_ipv6-show_ipv6 :
    (s : List ℕ) → length s ≡ 8 → All (λ n. n < 2 ^ 16) s → read_ipv6 (show_ipv6 s) ≡ some s
read_ipv6-show_ipv6 s h small = elim (mapped_or s) [
  | inl (x, y, e, text) ↦
      let (hx, hy) = last_two s e small in
      ap read_ipv6 text ∙ read-mapped x y hx hy ∙ ap (λ l. some l) (sym e)
  | inr text ↦ ap read_ipv6 text ∙ read-show_compressed s _ (longest_zeros-Parts_of s) h
]

length-segments :
    (addr : List ℕ)
    → (2 * length (segments addr) ≤ length addr) × (length addr ≤ 2 * length (segments addr) + 1)
length-segments [] = omega arith
length-segments (a ∷ []) = omega arith
length-segments (a ∷ b ∷ rest) = let h = length-segments rest in omega (arith, h.0, h.1)

segments-All : (addr : List ℕ) → All (λ b. b < 256) addr → All (λ n. n < 2 ^ 16) (segments addr)
segments-All [] h = tt
segments-All (a ∷ []) h = tt
segments-All (a ∷ b ∷ rest) (ha, (hb, h)) = (omega (arith, ha, hb), segments-All rest h)

read_ipv4-show_ipv4 :
    (a b c d : ℕ)
    → a < 256
    → b < 256
    → c < 256
    → d < 256
    → read_ipv4 (show_ipv4 a b c d) ≡ some (a ∷ b ∷ c ∷ d ∷ [])
unfolding read_ipv4 show_ipv4
read_ipv4-show_ipv4 a b c d ha hb hc hd =
    ap numbers_in (pieces-dotted a b c d)
    ∙ rw
        (
          parse_u64-print a (omega (arith, ha)),
          parse_u64-print b (omega (arith, hb)),
          parse_u64-print c (omega (arith, hc)),
          parse_u64-print d (omega (arith, hd)),
        )
        refl

read_ipv4-fmt_addr :
    (addr : List ℕ)
    → length addr ≡ 16
    → All (λ b. b < 256) addr
    → read_ipv4 (fmt_addr 2 addr) ≡ some (take 4 addr)
unfolding fmt_addr
read_ipv4-fmt_addr [] h small = absurd (omega (arith, h))
read_ipv4-fmt_addr (a ∷ []) h small = absurd (omega (arith, h))
read_ipv4-fmt_addr (a ∷ b ∷ []) h small = absurd (omega (arith, h))
read_ipv4-fmt_addr (a ∷ b ∷ c ∷ []) h small = absurd (omega (arith, h))
read_ipv4-fmt_addr (a ∷ b ∷ c ∷ d ∷ rest) h small =
    read_ipv4-show_ipv4 a b c d small.0 small.1.0 small.1.1.0 small.1.1.1.0

read_ipv6-fmt_addr :
    (addr : List ℕ)
    → length addr ≡ 16
    → All (λ b. b < 256) addr
    → read_ipv6 (fmt_addr 10 addr) ≡ some (segments addr)
unfolding fmt_addr
read_ipv6-fmt_addr addr h small =
    let n = length-segments addr in
    read_ipv6-show_ipv6 (segments addr) (omega (arith, h, n.0, n.1)) (segments-All addr small)

-- The text of an address field of 16 bytes names the address: for IPv4 its four numbers are read
-- back, and for IPv6 a reader of the notation of RFC 4291 reads its eight groups back.
pub read-fmt_addr :
    (addr : List ℕ)
    → length addr ≡ 16
    → All (λ b. b < 256) addr
    → (read_ipv4 (fmt_addr 2 addr) ≡ some (take 4 addr))
      × (read_ipv6 (fmt_addr 10 addr) ≡ some (segments addr))
read-fmt_addr addr h small = (read_ipv4-fmt_addr addr h small, read_ipv6-fmt_addr addr h small)
