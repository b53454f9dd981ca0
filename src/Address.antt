-- ===== src/Address.antt =====
-- crates/mcpfz-probe/src/ebpf.rs, lines 331 to 339: an address as a text, with the `Display` of
-- `std::net::Ipv4Addr` and `Ipv6Addr`.
pub mod Reader
pub mod Zeros
pub mod Pieces
pub mod Compressed
pub mod Mapped
pub mod RoundTrip
use mcpfz_probe.Base.{ℕ, zero, suc, ◌+◌, ◌*◌, ◌/◌, ◌%◌, String, ◌<>◌, List, [], ◌∷◌, ltb}
use mcpfz_probe.Base.{take, drop, ◌==◌, if◌then◌else◌}
use mcpfz_probe.Base.Digits.{print}

unfoldable pub show_ipv4 : ℕ → ℕ → ℕ → ℕ → String
unfolding print
show_ipv4 a b c d = print 10 a <> "." <> print 10 b <> "." <> print 10 c <> "." <> print 10 d

-- The 16-bit segments of an IPv6 address.
abbrev pub segments : List ℕ → List ℕ
segments (a ∷ b ∷ rest) = (a * 256 + b) ∷ segments rest
segments _ = []

pub record Span : Type 0 where
  pub start : ℕ
  pub len : ℕ

abbrev pub empty_span : Span
empty_span = record { start = 0; len = 0 }

abbrev pub grown : Span → ℕ → Span
grown current i = record {
  start = if current.len == 0 then i else current.start;
  len = current.len + 1;
}

-- The longest run of zero segments, the first one of several; `i` counts the segments read.
unfoldable pub longest_zeros : ℕ → Span → Span → List ℕ → Span
longest_zeros i longest current [] = longest
longest_zeros i longest current (zero ∷ rest) =
    let current' = grown current i in
    longest_zeros (i + 1) (if ltb longest.len current'.len then current' else longest) current' rest
longest_zeros i longest current (suc s ∷ rest) = longest_zeros (i + 1) longest empty_span rest

unfoldable pub show_segments : List ℕ → String
unfolding print
show_segments [] = ""
show_segments (s ∷ []) = print 16 s
show_segments (s ∷ t ∷ rest) = print 16 s <> ":" <> show_segments (t ∷ rest)

abbrev show_compressed : List ℕ → Span → String
show_compressed s longest =
    if ltb 1 longest.len
    then show_segments (take longest.start s)
      <> "::"
      <> show_segments (drop (longest.start + longest.len) s)
    else show_segments s

unfoldable pub show_ipv6 : List ℕ → String
unfolding show_ipv4 show_segments longest_zeros
show_ipv6 (zero ∷ zero ∷ zero ∷ zero ∷ zero ∷ m ∷ x ∷ y ∷ []) =
    if m == 0xffff
    then "::ffff:" <> show_ipv4 (x / 256) (x % 256) (y / 256) (y % 256)
    else show_compressed (0 ∷ 0 ∷ 0 ∷ 0 ∷ 0 ∷ m ∷ x ∷ y ∷ [])
        (longest_zeros 0 empty_span empty_span (0 ∷ 0 ∷ 0 ∷ 0 ∷ 0 ∷ m ∷ x ∷ y ∷ []))
show_ipv6 s = show_compressed s (longest_zeros 0 empty_span empty_span s)

-- `&[u8; 16]`, of which IPv4 reads the first 4.
abbrev first_four : List ℕ → String
first_four (a ∷ b ∷ c ∷ d ∷ rest) = show_ipv4 a b c d
first_four _ = ""

unfoldable pub fmt_addr : ℕ → List ℕ → String
unfolding show_ipv4 show_ipv6
fmt_addr af addr =
    if af == 2 then first_four addr else if af == 10 then show_ipv6 (segments addr) else "?"
