-- ===== src/Kernel/Net.antt =====
-- System calls on a socket address, from the kernel to the JSON object of the loader.
use mathlib.Core.Path.{subst, transport}
use mcpfz_probe.Base.{
  ℕ, ◌+◌, ◌*◌, ◌%◌, ◌^◌, ◌<◌, ◌≡◌, ◌≢◌, refl, sym, ap, ◌∙◌, String, ◌<>◌, none, some, List, [], ◌∷◌,
  ◌++◌, arith, inl, inr, ◌==◌, false,
}
use mcpfz_probe.Base.Digits.{print}
use mcpfz_probe.Json.{Json, IsLawful}
use mcpfz_probe.Events.{NetEvent, net_bytes, field, le_value, kind_connect, kind_sendto}
use mcpfz_probe.Decode.{decode, net_object}
use mcpfz_probe.Decode.Records.{read_net-net_bytes}
use mcpfz_probe.Decode.Objects.{Holds}
use mcpfz_probe.Decode.Network.{IsHost, decode-net_bytes, net_lem, protocol, to_be}
use mcpfz_probe.Kernel.{
  Context, Ring, Program, read_u16, word_of, address_bytes, arg1, arg4, zeros_12, net_event, net_at,
  try_net, sys_enter_connect, sys_enter_sendto,
}
use mcpfz_probe.Kernel.Sound.{IsSound, net_event-NetFits}
use mcpfz_probe.Kernel.Header.{NetKind, net_bytes-HasHeader}
use mcpfz_probe.Kernel.Memory.{Runs, argument}
use mcpfz_probe.Kernel.Capture.{Captured, captured}

-- The programs for system calls on a socket address, and which argument of the call it is.
pub data OnSocket : Program → (kind address_arg : ℕ) → Type 0 where
  connect : OnSocket sys_enter_connect kind_connect 1
  sendto : OnSocket sys_enter_sendto kind_sendto 4

-- A socket address in user memory: the family, the port and the address in network byte order. The
-- family is `AF_INET` in a `sockaddr_in`, and `AF_INET6` in a `sockaddr_in6`.
pub data HasAddress (ctx : Context) (uaddr : ℕ) : (family : ℕ) (addr : List ℕ) → Type 0 where
  sockaddr_in :
      {a b c d : ℕ}
      → ctx.read_user 4 (uaddr + 4) ≡ some (a ∷ b ∷ c ∷ d ∷ [])
      → HasAddress ctx uaddr 2 (a ∷ b ∷ c ∷ d ∷ zeros_12)
  sockaddr_in6 :
      {addr : List ℕ} → ctx.read_user 16 (uaddr + 8) ≡ some addr → HasAddress ctx uaddr 10 addr

pub record IsSockaddr (ctx : Context) (uaddr af : ℕ) (addr : List ℕ) (hi lo : ℕ) : Type 0 where
  pub family : ctx.read_user 2 uaddr ≡ some (af ∷ 0 ∷ [])
  pub port : ctx.read_user 2 (uaddr + 2) ≡ some (hi ∷ lo ∷ [])
  pub address : HasAddress ctx uaddr af addr
  pub not_null : 0 < uaddr
  pub inside : uaddr + 24 < 2 ^ 64

read_u16_lem :
    (ctx : Context) (address : ℕ) (bytes : List ℕ)
    → address < 2 ^ 64
    → ctx.read_user 2 address ≡ some bytes
    → read_u16 ctx address ≡ le_value bytes
read_u16_lem ctx address bytes h found =
    let e : address % 2 ^ 64 ≡ address = omega (arith, h) in
    ap (λ a. word_of (ctx.read_user 2 a)) e ∙ ap word_of found

net_ring :
    (ctx : Context) (ring : Ring) (kind uaddr : ℕ) (memory : List ℕ)
    → 0 < uaddr
    → ctx.reserve 48 ≡ some memory
    → (net_at ctx kind uaddr ring).1 ≡ ring ++ (net_bytes (net_event ctx kind uaddr) ∷ [])
unfolding net_at
net_ring ctx ring kind uaddr memory h room =
    let not_null : (uaddr == 0) ≡ false = ground (arith, h) in rw (not_null, room) refl

net_af :
    (ctx : Context) (kind uaddr : ℕ) (bytes : List ℕ)
    → uaddr < 2 ^ 64
    → ctx.read_user 2 uaddr ≡ some bytes
    → (net_event ctx kind uaddr).af ≡ le_value bytes
unfolding net_event
net_af ctx kind uaddr bytes h found = read_u16_lem ctx uaddr bytes h found

net_port :
    (ctx : Context) (kind uaddr af : ℕ) (addr : List ℕ) (hi lo : ℕ)
    → IsSound ctx
    → IsSockaddr ctx uaddr af addr hi lo
    → (net_event ctx kind uaddr).port_be ≡ to_be (hi * 256 + lo)
unfolding net_event
net_port ctx kind uaddr af addr hi lo sound at =
    let small = sound.user_bytes 2 (uaddr + 2) (hi ∷ lo ∷ []) at.port in
    read_u16_lem ctx (uaddr + 2) (hi ∷ lo ∷ []) (omega (arith, at.inside)) at.port
    ∙ omega (arith, small.0, small.1.0)

address_bytes_lem :
    (ctx : Context) (uaddr af : ℕ) (addr : List ℕ)
    → uaddr + 24 < 2 ^ 64
    → HasAddress ctx uaddr af addr
    → address_bytes ctx af uaddr ≡ addr
address_bytes_lem ctx uaddr af addr h (sockaddr_in found) =
    let e : (uaddr + 4) % 2 ^ 64 ≡ uaddr + 4 = omega (arith, h) in rw (e, found) refl
address_bytes_lem ctx uaddr af addr h (sockaddr_in6 found) =
    let e : (uaddr + 8) % 2 ^ 64 ≡ uaddr + 8 = omega (arith, h) in rw (e, found) refl

net_family :
    (ctx : Context) (kind uaddr af : ℕ) (addr : List ℕ) (hi lo : ℕ)
    → IsSockaddr ctx uaddr af addr hi lo
    → (net_event ctx kind uaddr).af ≡ af
net_family ctx kind uaddr af addr hi lo at =
    net_af ctx kind uaddr (af ∷ 0 ∷ []) (omega (arith, at.inside)) at.family ∙ omega arith

net_addr :
    (ctx : Context) (kind uaddr af : ℕ) (addr : List ℕ) (hi lo : ℕ)
    → IsSockaddr ctx uaddr af addr hi lo
    → (net_event ctx kind uaddr).addr ≡ addr
unfolding net_event
net_addr ctx kind uaddr af addr hi lo at =
    ap (λ n. address_bytes ctx n uaddr) (net_family ctx kind uaddr af addr hi lo at)
    ∙ address_bytes_lem ctx uaddr af addr at.inside at.address

net_kind : (ctx : Context) (kind uaddr : ℕ) → (net_event ctx kind uaddr).kind ≡ kind
unfolding net_event
net_kind ctx kind uaddr = refl

net_comm :
    (ctx : Context) (kind uaddr : ℕ) (command : String)
    → Runs ctx command
    → Holds (net_event ctx kind uaddr).comm command
unfolding net_event
net_comm ctx kind uaddr command (c, found, holds) = rw found holds

net_at_argument :
    (ctx : Context) (ring : Ring) (kind offset uaddr : ℕ)
    → ctx.read_at offset ≡ some uaddr
    → (try_net ctx kind offset ring).1 ≡ (net_at ctx kind uaddr ring).1
unfolding try_net
net_at_argument ctx ring kind offset uaddr found = rw found refl

-- The program for a call on a socket address runs `net_at` at the address.
OnSocket-net_at :
    {program : Program} {kind i : ℕ} (ctx : Context) (ring : Ring) (uaddr : ℕ)
    → OnSocket program kind i
    → argument ctx i ≡ some uaddr
    → NetKind kind × (kind < 2 ^ 32) × ((program ctx ring).1 ≡ (net_at ctx kind uaddr ring).1)
unfolding sys_enter_connect sys_enter_sendto
OnSocket-net_at ctx ring uaddr connect found =
    (inl refl, omega arith, net_at_argument ctx ring kind_connect arg1 uaddr found)
OnSocket-net_at ctx ring uaddr sendto found =
    (inr refl, omega arith, net_at_argument ctx ring kind_sendto arg4 uaddr found)

net_object_other :
    ⦃J : Json⦄ (kind : ℕ) (e : NetEvent) → e.af ≢ 2 → e.af ≢ 10 → net_object kind e ≡ none
unfolding net_object
net_object_other kind e h h6 =
    let four : (e.af == 2) ≡ false = ground arith in
    let six : (e.af == 10) ≡ false = ground arith in simp (four, six)

module _ ⦃J : Json⦄ ⦃L : IsLawful⦄ (ctx : Context) (sound : IsSound ctx) (ring : Ring)
    (memory : List ℕ) (room : ctx.reserve 48 ≡ some memory) where
  -- With a lawful JSON library and sound helpers: where an entry can be reserved and the address
  -- argument of `connect` or `sendto` points to a `sockaddr_in` or a `sockaddr_in6`, the loader decodes
  -- what the program puts into the ring to a `connect` with the protocol of the call, the command that
  -- runs and the destination, the text of the address by its family with its port. The record names
  -- the process that runs.
  pub OnSocket-Captured :
      {program : Program} {kind i : ℕ} (uaddr af hi lo : ℕ) (addr : List ℕ) (host command : String)
      → OnSocket program kind i
      → argument ctx i ≡ some uaddr
      → IsSockaddr ctx uaddr af addr hi lo
      → IsHost af addr host
      → Runs ctx command
      → Captured ctx ring (program ctx ring) (
          ("comm", J.string command)
          ∷ ("dst", J.string (host <> ":" <> print 10 (hi * 256 + lo)))
          ∷ ("proto", J.string (protocol kind))
          ∷ ("type", J.string "connect")
          ∷ [])
  unfolding net_event
  OnSocket-Captured {program} {kind} uaddr af hi lo addr host command call found at host_of runs =
      let (k, small, runs_at) = OnSocket-net_at ctx ring uaddr call found in
      let e = net_event ctx kind uaddr in
      let fits = net_event-NetFits sound kind uaddr small in
      let k' : NetKind e.kind = subst NetKind (sym (net_kind ctx kind uaddr)) k in
      let port = sound.user_bytes 2 (uaddr + 2) (hi ∷ lo ∷ []) at.port in
      let family = net_family ctx kind uaddr af addr hi lo at in
      let bytes = net_addr ctx kind uaddr af addr hi lo at in
      let host_of' : IsHost e.af e.addr host =
        transport (λ i. IsHost (sym family i) (sym bytes i) host) host_of in
      captured ctx ring (program ctx ring) e.kind e.pid (net_bytes e) _
        (runs_at ∙ net_ring ctx ring kind uaddr memory at.not_null room)
        (net_bytes-HasHeader e fits k') refl
        (decode-net_bytes e host (hi * 256 + lo) command fits k' host_of'
          (omega (arith, port.0, port.1.0)) (net_port ctx kind uaddr af addr hi lo sound at)
          (net_comm ctx kind uaddr command runs))

  -- With sound helpers: where an entry can be reserved and the address of `connect` or `sendto` can be
  -- read and is of another family than `AF_INET` and `AF_INET6`, the program puts one record into the
  -- ring, and the loader skips it.
  pub OnSocket-skipped :
      {program : Program} {kind i : ℕ} (uaddr : ℕ) (family : List ℕ)
      → OnSocket program kind i
      → argument ctx i ≡ some uaddr
      → 0 < uaddr
      → uaddr < 2 ^ 64
      → ctx.read_user 2 uaddr ≡ some family
      → le_value family ≢ 2
      → le_value family ≢ 10
      → (bytes : List ℕ) × ((program ctx ring).1 ≡ ring ++ (bytes ∷ []))
        × (decode (le_value (field 0 4 bytes)) bytes ≡ none)
  OnSocket-skipped {program} {kind} uaddr family call found not_null inside read other other6 =
      let (k, small, runs_at) = OnSocket-net_at ctx ring uaddr call found in
      let e = net_event ctx kind uaddr in
      let fits = net_event-NetFits sound kind uaddr small in
      let k' : NetKind e.kind = subst NetKind (sym (net_kind ctx kind uaddr)) k in
      let af = net_af ctx kind uaddr family inside read in
      (
        net_bytes e,
        runs_at ∙ net_ring ctx ring kind uaddr memory not_null room,
        ap (λ n. decode n (net_bytes e)) (net_bytes-HasHeader e fits k').kind_field
            ∙ net_lem e.kind (net_bytes e) k'
            ∙ rw (read_net-net_bytes e fits)
                (net_object_other e.kind e (λ h. other (sym af ∙ h)) (λ h. other6 (sym af ∙ h))),
      )
