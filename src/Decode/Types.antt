-- ===== src/Decode/Types.antt =====
-- The `type` that the object of a record has, by the kind of the record.
use mcpfz_probe.Base.{
  ℕ, ◌≡◌, ◌≤◌, false, String, ltb, length, Bool-cases, Option, none, some, List, inl, inr, ◌||◌,
}
use mcpfz_probe.Base.{and_then, not, ◌&&◌, Bool, true, arith, ◌==◌, if◌then◌else◌}
use mathlib.Core.Option
use mcpfz_probe.Json.{Json, IsLawful}
use mcpfz_probe.Events.{ExecEvent, NetEvent, PathEvent, PtraceEvent}
use mcpfz_probe.Events.{kind_exec, kind_file_open, kind_chmod, kind_unlink}
use mcpfz_probe.Events.{kind_connect, kind_sendto, kind_ptrace}
use mcpfz_probe.Decode.{sized, decode, read_exec, read_net, read_path, read_ptrace}
use mcpfz_probe.Decode.{
  exec_object, net_object, open_object, unlink_object, chmod_object, ptrace_object,
}

-- The value of `type` in the objects of a kind.
abbrev pub type_of : ℕ → Option String
type_of kind =
    if kind == kind_exec
    then some "exec"
    else if kind == kind_connect || kind == kind_sendto
    then some "connect"
    else if kind == kind_file_open
    then some "file_open"
    else if kind == kind_unlink
    then some "file_delete"
    else if kind == kind_chmod
    then some "chmod"
    else if kind == kind_ptrace
    then some "ptrace"
    else none

-- How many bytes the record of a kind has.
abbrev pub size_of : ℕ → ℕ
size_of kind =
    if kind == kind_exec
    then 284
    else if kind == kind_connect || kind == kind_sendto
    then 48
    else if kind == kind_file_open
    then 296
    else if kind == kind_unlink
    then 296
    else if kind == kind_chmod
    then 296
    else if kind == kind_ptrace
    then 48
    else 0

module _ ⦃J : Json⦄ ⦃L : IsLawful⦄ where
  -- An object with a type and no call id yet.
  abbrev Fields : J.Map → String → Type 0
  Fields m t = (J.get m "type" ≡ some (J.string t)) × (J.get m "call_id" ≡ none)

  exec-Fields : (e : ExecEvent) → Fields (exec_object e) "exec"
  unfolding exec_object
  exec-Fields e = (simp (L.get-insert), simp (L.get-insert, L.get-new))

  open-Fields : (e : PathEvent) → Fields (open_object e) "file_open"
  unfolding open_object
  open-Fields e = (simp (L.get-insert), simp (L.get-insert, L.get-new))

  unlink-Fields : (e : PathEvent) → Fields (unlink_object e) "file_delete"
  unfolding unlink_object
  unlink-Fields e = (simp (L.get-insert), simp (L.get-insert, L.get-new))

  chmod-Fields : (e : PathEvent) → Fields (chmod_object e) "chmod"
  unfolding chmod_object
  chmod-Fields e = (simp (L.get-insert), simp (L.get-insert, L.get-new))

  ptrace-Fields : (e : PtraceEvent) → Fields (ptrace_object e) "ptrace"
  unfolding ptrace_object
  ptrace-Fields e = (simp (L.get-insert), simp (L.get-insert, L.get-new))

  net-Fields :
      (kind : ℕ) (e : NetEvent) (m : J.Map) → net_object kind e ≡ some m → Fields m "connect"
  unfolding net_object
  net-Fields kind e m h = elim (Bool-cases (not (e.af == 2) && not (e.af == 10))) [
    | inl skipped ↦ ground (arith, rw skipped at h)
    | inr usable ↦
        rw (← Option.some_inj.0 (rw usable at h))
          (simp (L.get-insert), simp (L.get-insert, L.get-new))
  ]

  module _ (bytes : List ℕ) where
    -- An object, if there is one, has a certain type and no call id, and the record is long enough.
    record Typed (object : Option J.Map) (t : Option String) (n : ℕ) : Type 0 where
      at :
          (m : J.Map)
          → object ≡ some m
          → (J.get m "type" ≡ Option.map J.string t)
            × ((J.get m "call_id" ≡ none) × (n ≤ length bytes))

    Typed-if :
        (b : Bool) {x y : Option J.Map} {t u : Option String} {n k : ℕ}
        → Typed x t n
        → Typed y u k
        → Typed (if b then x else y) (if b then t else u) (if b then n else k)
    Typed-if true h k = h
    Typed-if false h k = k

    Typed-map :
        {A : Type 0} (size : ℕ) (a : A) (f : A → J.Map) (t : String)
        → ((a : A) → Fields (f a) t)
        → Typed (Option.map f (sized size bytes a)) (some t) size
    Typed-map size a f t typed = record {
      at = λ m h. elim (Bool-cases (ltb (length bytes) size)) [
        | inl short ↦ ground (arith, rw short at h)
        | inr long ↦
            let e : f a ≡ m = Option.some_inj.0 (rw long at h) in
            (rw (← e) (typed a).0, (rw (← e) (typed a).1, ground arith))
      ];
    }

    Typed-net : (kind : ℕ) → Typed (and_then (read_net bytes) (net_object kind)) (some "connect") 48
    unfolding read_net
    Typed-net kind = record {
      at = λ m h. elim (Bool-cases (ltb (length bytes) 48)) [
        | inl short ↦ ground (arith, rw short at h)
        | inr long ↦ let f = net-Fields kind _ m (rw long at h) in (f.0, (f.1, ground arith))
      ];
    }

  decode-Typed :
      (kind : ℕ) (bytes : List ℕ) → Typed bytes (decode kind bytes) (type_of kind) (size_of kind)
  unfolding decode read_exec read_path read_ptrace
  decode-Typed kind bytes =
      Typed-if bytes (kind == kind_exec) (Typed-map bytes 284 _ exec_object "exec" exec-Fields) (
        Typed-if bytes (kind == kind_connect || kind == kind_sendto) (Typed-net bytes kind) (
          Typed-if bytes (kind == kind_file_open)
            (Typed-map bytes 296 _ open_object "file_open" open-Fields)
            (Typed-if bytes (kind == kind_unlink)
              (Typed-map bytes 296 _ unlink_object "file_delete" unlink-Fields)
              (Typed-if bytes (kind == kind_chmod)
                (Typed-map bytes 296 _ chmod_object "chmod" chmod-Fields)
                (Typed-if bytes (kind == kind_ptrace)
                  (Typed-map bytes 48 _ ptrace_object "ptrace" ptrace-Fields)
                  (record { at = λ m h. ground arith }))))))

  -- With a lawful JSON library, whatever bytes the ring holds, an object that is decoded has the
  -- `type` that belongs to its kind, and the bytes are at least as many as that kind of record has.
  pub decode-type_of :
      (kind : ℕ) (bytes : List ℕ) (m : J.Map)
      → decode kind bytes ≡ some m
      → (J.get m "type" ≡ Option.map J.string (type_of kind)) × (size_of kind ≤ length bytes)
  decode-type_of kind bytes m h = let t = (decode-Typed kind bytes).at m h in (t.0, t.1.1)

  pub decode-call_id :
      (kind : ℕ) (bytes : List ℕ) (m : J.Map)
      → decode kind bytes ≡ some m
      → J.get m "call_id" ≡ none
  decode-call_id kind bytes m h = ((decode-Typed kind bytes).at m h).1.0
