-- ===== src/Loader/Objects.antt =====
-- What the objects of the loader say of the call.
use mcpfz_probe.Base.{
  inl, inr, ◌↔◌, true, Bool-cases, eq_iff, ℕ, ◌≡◌, refl, none, some, List, is_some, Option-cases,
}
use mathlib.Core.Option
use mcpfz_probe.Json.{Json, IsLawful}
use mcpfz_probe.Decode.{decode}
use mcpfz_probe.Decode.Types.{type_of, decode-type_of, decode-call_id}
use mcpfz_probe.LoaderState.{State, attributed, bucket_of}

module _ ⦃J : Json⦄ ⦃L : IsLawful⦄ where
  bucket_of_call : (s : State) → (bucket_of s ≡ "call") ↔ (is_some s.active_call ≡ true)
  bucket_of_call s = elim (Option-cases s.active_call) [
    | inl idle ↦ elim (Bool-cases s.scoped) [
      | inl on ↦ rw (idle, on) (λ e. cc ((eq_iff "ambient" "call").1 e), λ e. cc)
      | inr off ↦ rw (idle, off) (λ e. cc ((eq_iff "startup" "call").1 e), λ e. cc)
    ]
    | inr (c, active) ↦ rw active (λ e. refl, λ e. refl)
  ]

  -- With a lawful JSON library: an event that is made of a decoded record names the active call and the bucket `call` where there is one, no call
  -- and another bucket where there is none, and keeps the type of its kind.
  pub attributed-decode :
      (s : State) (kind pid : ℕ) (bytes : List ℕ) (o : J.Map)
      → decode kind bytes ≡ some o
      → (J.get (attributed s pid o) "call_id" ≡ Option.map J.string s.active_call)
        × (J.get (attributed s pid o) "bucket" ≡ some (J.string (bucket_of s)))
        × ((bucket_of s ≡ "call") ↔ (is_some s.active_call ≡ true))
        × (J.get (attributed s pid o) "pid" ≡ some (J.unsigned pid))
        × (J.get (attributed s pid o) "type" ≡ Option.map J.string (type_of kind))
  unfolding attributed
  attributed-decode s kind pid bytes o h = elim (Option-cases s.active_call) [
    | inl idle ↦ rw idle (
      simp (L.get-insert, decode-call_id kind bytes o h),
      simp (L.get-insert),
      bucket_of_call (record s { active_call = none }),
      simp (L.get-insert),
      simp (L.get-insert, (decode-type_of kind bytes o h).0),
    )
    | inr (c, active) ↦ rw active (
      simp (L.get-insert),
      simp (L.get-insert),
      bucket_of_call (record s { active_call = some c }),
      simp (L.get-insert),
      simp (L.get-insert, (decode-type_of kind bytes o h).0),
    )
  ]
