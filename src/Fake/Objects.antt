-- ===== src/Fake/Objects.antt =====
-- What the fake backend fills into the object of an event.
use mcpfz_probe.Base.{
  ℕ, ◌%◌, ◌^◌, String, ◌≡◌, refl, sym, ap, Bool-cases, Option, none, some, inl, inr, str_eq, eq_iff,
  if◌then◌else◌,
}
use mcpfz_probe.Json.{Json, IsLawful, or_value}
use mcpfz_probe.Fake.{stamped, with_call_id}

module _ ⦃J : Json⦄ where
  -- The call that an event names: its own, or that of the window where there is one.
  abbrev pub call_or : Option J.Value → Option String → Option J.Value
  call_or own none = own
  call_or own (some call) = some (or_value own (J.string call))

  -- What an event says in the transcript under a name, by what it says itself.
  abbrev pub says : J.Map → (bucket : String) → Option String → (ts : ℕ) → String → Option J.Value
  says obj bucket call ts k =
      if str_eq "ts_ns" k
      then some (J.unsigned (ts % 2 ^ 64))
      else if str_eq "call_id" k
      then call_or (J.get obj "call_id") call
      else if str_eq "bucket" k
      then some (or_value (J.get obj "bucket") (J.string bucket))
      else J.get obj k

  module _ ⦃L : IsLawful⦄ where
    with_call_id-says :
        (obj : J.Map) (call : Option String) (k : String)
        → J.get (with_call_id obj call) k
          ≡ (if str_eq "call_id" k then call_or (J.get obj "call_id") call else J.get obj k)
    with_call_id-says obj none k = elim (Bool-cases (str_eq "call_id" k)) [
      | inl same ↦ rw same (ap (λ j. J.get obj j) (sym ((eq_iff "call_id" k).0 same)))
      | inr other ↦ rw other refl
    ]
    with_call_id-says obj (some call) k = L.get-or_insert obj "call_id" k (J.string call)

    -- With a lawful JSON library, an event is written with everything that it says itself, but for
    -- its time, which is the clock's answer in 64 bits; the bucket and the call are those of the
    -- window where it names none.
    pub stamped-says :
        (obj : J.Map) (bucket : String) (call : Option String) (ts : ℕ) (k : String)
        → J.get (stamped obj bucket call ts) k ≡ says obj bucket call ts k
    unfolding stamped
    stamped-says obj bucket call ts k =
        rw
          (L.get-insert, with_call_id-says, L.get-or_insert obj "bucket" "call_id", L.get-or_insert)
          refl
