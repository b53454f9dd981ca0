-- ===== src/Decode/Ptrace.antt =====
-- The JSON object of a ptrace record, with a lawful JSON library.
use mcpfz_probe.Base.{ℕ, ◌≡◌, refl, List, [], ◌∷◌}
use mathlib.Core.Option
use mcpfz_probe.Base.Int.{signed64}
use mcpfz_probe.Json.{Json, IsLawful}
use mcpfz_probe.Events.{PtraceEvent, as_str, ptrace_bytes, kind_ptrace}
use mcpfz_probe.Decode.{decode, read_ptrace, ptrace_object}
use mcpfz_probe.Decode.Records.{PtraceFits, read_ptrace-ptrace_bytes}
use mcpfz_probe.Decode.Objects.{Says, nothing, Gives, Says-insert}

module _ ⦃J : Json⦄ where
  ptrace_lem :
      (bytes : List ℕ) → decode kind_ptrace bytes ≡ Option.map ptrace_object (read_ptrace bytes)
  unfolding decode
  ptrace_lem bytes = refl

  module _ ⦃L : IsLawful⦄ where
    ptrace_object-Says :
        (e : PtraceEvent)
        → Says (ptrace_object e) (
            ("comm", J.string (as_str e.comm))
            ∷ ("target_pid", J.signed (signed64 e.target_pid))
            ∷ ("request", J.signed (signed64 e.request))
            ∷ ("type", J.string "ptrace")
            ∷ [])
    unfolding ptrace_object
    ptrace_object-Says e =
        Says-insert (refl, (refl, (refl, tt)))
          (Says-insert (refl, (refl, tt)) (Says-insert (refl, tt) (Says-insert tt nothing)))

    pub decode-ptrace_bytes :
        (padding : ℕ) (e : PtraceEvent)
        → PtraceFits e
        → e.kind ≡ kind_ptrace
        → Gives (decode e.kind (ptrace_bytes padding e)) (
            ("comm", J.string (as_str e.comm))
            ∷ ("target_pid", J.signed (signed64 e.target_pid))
            ∷ ("request", J.signed (signed64 e.request))
            ∷ ("type", J.string "ptrace")
            ∷ [])
    decode-ptrace_bytes padding e fits k =
        rw (k, ptrace_lem, ← k, read_ptrace-ptrace_bytes padding e fits) (ptrace_object-Says e)
