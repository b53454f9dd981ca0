-- ===== src/Kernel/Sound.antt =====
-- What the helpers of the kernel guarantee, and that the records of the programs then have the sizes
-- and ranges of their fields.
use mcpfz_probe.Base.{
  ℕ, zero, suc, ◌+◌, ◌%◌, ◌/◌, ◌^◌, ◌<◌, ◌≤◌, ◌≡◌, ◌∙◌, ap, refl, Option, none, some, List, [], ◌∷◌,
  All, length, length-append, take, drop, arith, Bool-cases, Option-cases, inl, inr, ◌==◌,
}
use mcpfz_probe.Events.{le_value, field, filename_len}
use mcpfz_probe.Decode.Records.{ExecFits, NetFits, PathFits, PtraceFits}
use mcpfz_probe.Kernel.{
  Context, or_bytes, word_of, zeros_4, zeros_12, zeros_16, cleared, filled, comm, read_u16,
  address_bytes, af_inet, af_inet6, arg0, arg1, or_zero, exec_event, net_event, path_event,
  ptrace_event,
}

-- The process that runs: `bpf_get_current_pid_tgid` documents its thread group, which user space
-- calls its process id, as the upper 32 bits.
abbrev pub process_id : Context → ℕ
process_id ctx = ctx.pid_tgid / 2 ^ 32

-- The documented behaviour of the helpers: sizes, and the ranges of bytes and words.
pub record IsSound (ctx : Context) : Type 0 where
  pub words : (offset word : ℕ) → ctx.read_at offset ≡ some word → word < 2 ^ 64
  pub ids : ctx.pid_tgid < 2 ^ 64
  pub comms : (c : List ℕ) → ctx.current_comm ≡ some c → length c ≡ 16
  pub sizes :
      (size address : ℕ) (bytes : List ℕ)
      → ctx.read_user size address ≡ some bytes
      → length bytes ≡ size
  pub user_bytes :
      (size address : ℕ) (bytes : List ℕ)
      → ctx.read_user size address ≡ some bytes
      → All (λ b. b < 256) bytes
  pub buffers :
      (address : ℕ) (buffer : List ℕ) → length (ctx.read_user_str address buffer) ≡ length buffer
  pub entries : (size : ℕ) (memory : List ℕ) → ctx.reserve size ≡ some memory → length memory ≡ size

length-take : (n : ℕ) (xs : List ℕ) → n ≤ length xs → length (take n xs) ≡ n
length-take zero xs h = refl
length-take (suc n) [] h = absurd (omega (arith, h))
length-take (suc n) (x ∷ xs) h = ap suc (length-take n xs (omega (arith, h)))

pub length-drop : (n : ℕ) (xs : List ℕ) → n ≤ length xs → length (drop n xs) + n ≡ length xs
length-drop zero xs h = omega arith
length-drop (suc n) [] h = absurd (omega (arith, h))
length-drop (suc n) (x ∷ xs) h = omega (arith, length-drop n xs (omega (arith, h)))

-- A field that lies inside its record has its size.
pub length-field :
    (offset size : ℕ) (bytes : List ℕ)
    → offset + size ≤ length bytes
    → length (field offset size bytes) ≡ size
unfolding field
length-field offset size bytes h =
    length-take size (drop offset bytes)
      (omega (arith, length-drop offset bytes (omega (arith, h))))

pub length-cleared : (buffer : List ℕ) → length (cleared buffer) ≡ length buffer
length-cleared [] = refl
length-cleared (b ∷ rest) = refl

le_value-lt_2 :
    (bytes : List ℕ) → All (λ b. b < 256) bytes → length bytes ≡ 2 → le_value bytes < 2 ^ 16
le_value-lt_2 [] h e = absurd (omega (arith, e))
le_value-lt_2 (a ∷ []) h e = absurd (omega (arith, e))
le_value-lt_2 (a ∷ b ∷ []) h e = omega (arith, h.0, h.1.0)
le_value-lt_2 (a ∷ b ∷ c ∷ rest) h e = absurd (omega (arith, e))

length-or_bytes :
    (n : ℕ) (read : Option (List ℕ)) (bytes : List ℕ)
    → ((b : List ℕ) → read ≡ some b → length b ≡ n)
    → length bytes ≡ n
    → length (or_bytes read bytes) ≡ n
length-or_bytes n none bytes h e = e
length-or_bytes n (some b) bytes h e = h b refl

module _ {ctx : Context} (sound : IsSound ctx) where
  length-comm : length (comm ctx) ≡ 16
  length-comm = length-or_bytes 16 ctx.current_comm _ sound.comms refl

  length-filled :
      (address : Option ℕ) (buffer : List ℕ) → length (filled ctx address buffer) ≡ length buffer
  length-filled none buffer = length-cleared buffer
  length-filled (some address) buffer =
      sound.buffers address (cleared buffer) ∙ length-cleared buffer

  or_zero-lt : (offset : ℕ) → or_zero (ctx.read_at offset) < 2 ^ 64
  or_zero-lt offset = elim (Option-cases (ctx.read_at offset)) [
    | inl missing ↦ rw missing (omega arith)
    | inr (word, found) ↦ rw found (sound.words offset word found)
  ]

  word_of-lt :
      (address : ℕ) (read : Option (List ℕ))
      → ctx.read_user 2 address ≡ read
      → word_of read < 2 ^ 16
  word_of-lt address none e = omega arith
  word_of-lt address (some bytes) e =
      le_value-lt_2 bytes (sound.user_bytes 2 address bytes e) (sound.sizes 2 address bytes e)

  length-address_bytes : (af uaddr : ℕ) → length (address_bytes ctx af uaddr) ≡ 16
  length-address_bytes af uaddr = elim (Bool-cases (af == af_inet)) [
    | inl v4 ↦
        let four =
          length-or_bytes 4 (ctx.read_user 4 ((uaddr + 4) % 2 ^ 64)) zeros_4 (sound.sizes 4 _)
            refl in
        rw v4 (
          omega (
            arith,
            four,
            length-append (or_bytes (ctx.read_user 4 ((uaddr + 4) % 2 ^ 64)) zeros_4) zeros_12,
          ))
    | inr other ↦ elim (Bool-cases (af == af_inet6)) [
      | inl v6 ↦
          rw (other, v6)
            (length-or_bytes 16 (ctx.read_user 16 ((uaddr + 8) % 2 ^ 64)) zeros_16
              (sound.sizes 16 _) refl)
      | inr none_of_both ↦ rw (other, none_of_both) refl
    ]
  ]

  pub exec_event-ExecFits :
      (memory : List ℕ) → length memory ≡ 284 → ExecFits (exec_event ctx memory)
  unfolding exec_event
  exec_event-ExecFits memory h = record {
    kind = omega arith;
    pid = omega (arith, sound.ids);
    tid = omega (arith, sound.ids);
    filename =
        length-filled (ctx.read_at arg0) (field 12 filename_len memory)
        ∙ length-field 12 filename_len memory (omega (arith, h));
    comm = length-comm;
  }

  pub net_event-NetFits : (kind uaddr : ℕ) → kind < 2 ^ 32 → NetFits (net_event ctx kind uaddr)
  unfolding net_event
  net_event-NetFits kind uaddr h = record {
    kind = h;
    pid = omega (arith, sound.ids);
    tid = omega (arith, sound.ids);
    af = word_of-lt _ _ refl;
    port_be = word_of-lt _ _ refl;
    addr = length-address_bytes (read_u16 ctx uaddr) uaddr;
    comm = length-comm;
  }

  pub path_event-PathFits :
      (kind path_off arg_off : ℕ) (memory : List ℕ)
      → kind < 2 ^ 32
      → length memory ≡ 296
      → PathFits (path_event ctx kind path_off arg_off memory)
  unfolding path_event
  path_event-PathFits kind path_off arg_off memory small h = record {
    kind = small;
    pid = omega (arith, sound.ids);
    tid = omega (arith, sound.ids);
    arg = or_zero-lt arg_off;
    filename =
        length-filled (ctx.read_at path_off) (field 24 filename_len memory)
        ∙ length-field 24 filename_len memory (omega (arith, h));
    comm = length-comm;
  }

  pub ptrace_event-PtraceFits : PtraceFits (ptrace_event ctx)
  unfolding ptrace_event
  ptrace_event-PtraceFits = record {
    kind = omega arith;
    pid = omega (arith, sound.ids);
    tid = omega (arith, sound.ids);
    request = or_zero-lt arg0;
    target_pid = or_zero-lt arg1;
    comm = length-comm;
  }
