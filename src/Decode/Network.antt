-- ===== src/Decode/Network.antt =====
-- The JSON object of a network record, with a lawful JSON library.
use mcpfz_probe.Base.{
  ℕ, ◌+◌, ◌*◌, ◌/◌, ◌%◌, ◌^◌, ◌<◌, ◌<>◌, ◌≡◌, refl, String, not, ◌&&◌, false, List, [], ◌∷◌, ◌⊎◌,
  inl, inr, arith, ◌==◌, if◌then◌else◌, and_then,
}
use mcpfz_probe.Base.Digits.{print}
use mcpfz_probe.Json.{Json, IsLawful}
use mcpfz_probe.Address.{show_ipv4, show_ipv6, segments, fmt_addr}
use mcpfz_probe.Events.{NetEvent, as_str, net_bytes, kind_connect, kind_sendto}
use mcpfz_probe.Decode.{decode, read_net, net_object, destination, from_be}
use mcpfz_probe.Decode.Records.{NetFits, read_net-net_bytes}
use mcpfz_probe.Decode.Objects.{nothing, Gives, Says-insert, Holds, as_str-Holds}

-- A port in network byte order.
abbrev pub to_be : ℕ → ℕ
to_be port = port % 256 * 256 + port / 256

from_be-to_be : (port : ℕ) → port < 2 ^ 16 → from_be (to_be port) ≡ port
from_be-to_be port h = omega arith

abbrev pub protocol : ℕ → String
protocol kind = if kind == kind_sendto then "udp" else "tcp"

-- The text of a host, by the family of its address: a `sockaddr_in` has 4 bytes, a `sockaddr_in6` 16.
pub data IsHost : (af : ℕ) (addr : List ℕ) → String → Type 0 where
  ipv4 : {a b c d : ℕ} {rest : List ℕ} → IsHost 2 (a ∷ b ∷ c ∷ d ∷ rest) (show_ipv4 a b c d)
  ipv6 : {addr : List ℕ} → IsHost 10 addr (show_ipv6 (segments addr))

fmt_addr-IsHost :
    {af : ℕ} {addr : List ℕ} {host : String} → IsHost af addr host → fmt_addr af addr ≡ host
unfolding fmt_addr
fmt_addr-IsHost ipv4 = refl
fmt_addr-IsHost ipv6 = refl

IsHost-family :
    {af : ℕ} {addr : List ℕ} {host : String} → IsHost af addr host → (af ≡ 2) ⊎ (af ≡ 10)
IsHost-family ipv4 = inl refl
IsHost-family ipv6 = inr refl

module _ ⦃J : Json⦄ where
  pub net_lem :
      (kind : ℕ) (bytes : List ℕ)
      → (kind ≡ kind_connect) ⊎ (kind ≡ kind_sendto)
      → decode kind bytes ≡ and_then (read_net bytes) (net_object kind)
  unfolding decode
  net_lem kind bytes (inl k) = rw k refl
  net_lem kind bytes (inr k) = rw k refl

  module _ ⦃L : IsLawful⦄ where
    net_object-Says :
        (kind : ℕ) (e : NetEvent)
        → (e.af ≡ 2) ⊎ (e.af ≡ 10)
        → Gives (net_object kind e) (
            ("comm", J.string (as_str e.comm))
            ∷ ("dst", J.string (destination e))
            ∷ ("proto", J.string (protocol kind))
            ∷ ("type", J.string "connect")
            ∷ [])
    unfolding net_object
    net_object-Says kind e h = rw (usable e.af h) (
        Says-insert (refl, (refl, (refl, tt)))
          (Says-insert (refl, (refl, tt)) (Says-insert (refl, tt) (Says-insert tt nothing))))
      where
        usable : (af : ℕ) → (af ≡ 2) ⊎ (af ≡ 10) → (not (af == 2) && not (af == 10)) ≡ false
        usable af (inl four) = rw four refl
        usable af (inr six) = rw six refl

    destination_lem :
        (e : NetEvent) (host : String) (port : ℕ)
        → IsHost e.af e.addr host
        → port < 2 ^ 16
        → e.port_be ≡ to_be port
        → destination e ≡ host <> ":" <> print 10 port
    destination_lem e host port at fits be =
        rw (fmt_addr-IsHost at, be, from_be-to_be port fits) refl

    -- With a lawful JSON library: a written connect or sendto record to an IPv4 or an IPv6 address is
    -- decoded to an object of type `connect` with the protocol of its kind, the command, which ends
    -- with a NUL inside its field, and the destination, the address as the text of its family with the
    -- port, which the record has in network byte order.
    pub decode-net_bytes :
        (e : NetEvent) (host : String) (port : ℕ) (command : String)
        → NetFits e
        → (e.kind ≡ kind_connect) ⊎ (e.kind ≡ kind_sendto)
        → IsHost e.af e.addr host
        → port < 2 ^ 16
        → e.port_be ≡ to_be port
        → Holds e.comm command
        → Gives (decode e.kind (net_bytes e)) (
            ("comm", J.string command)
            ∷ ("dst", J.string (host <> ":" <> print 10 port))
            ∷ ("proto", J.string (protocol e.kind))
            ∷ ("type", J.string "connect")
            ∷ [])
    decode-net_bytes e host port command fits k at small be by =
        rw (net_lem e.kind (net_bytes e) k, read_net-net_bytes e fits)
          (rw (as_str-Holds e.comm command by, destination_lem e host port at small be) at
            (net_object-Says e.kind e (IsHost-family at)))
