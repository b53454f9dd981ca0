-- ===== src/Loader/Protocol.antt =====
-- The status lines of the two backends.
use mcpfz_probe.Base.{◌+◌, List, [], ◌∷◌, ◌++◌, length, String, ◌≡◌, some}
use mcpfz_probe.Base.Int.{ℤ}
use mcpfz_probe.Json.{Json, IsLawful}
use mcpfz_probe.Script.{Control}
use mcpfz_probe.Io.{Write}
use mcpfz_probe.Fake
use mcpfz_probe.Fake.{FakeBackend}
use mcpfz_probe.Fake.Spec.{Event, has_type}
use mcpfz_probe.Fake.Writes.{write_lines}
use mcpfz_probe.Fake.Spec as Spec
use mcpfz_probe.LoaderState.{with_time}

module _ ⦃J : Json⦄ where
  -- Two objects have the same values under the same names.
  abbrev pub Same : J.Map → J.Map → Type 0
  Same m n = (k : String) → J.get m k ≡ J.get n k

  -- The object of the fake backend for a scope.
  abbrev fake_scope : ℤ → ℤ → J.Map
  fake_scope pgid generation =
      J.insert (J.insert (Spec.status "scope") "pgid" (J.signed pgid)) "generation"
        (J.signed generation)

  module _ ⦃W : Write⦄ (b : FakeBackend) (out : W.State) where
    -- What the fake backend has written once it has handled a message.
    abbrev pub after_message : Control → W.State
    after_message c = (Fake.apply c (record { backend = b; out = out })).1.out

    -- The first line is the object `m`, stamped with the next answer of the clock.
    abbrev pub BeginsWith : W.State → J.Map → Type 0
    BeginsWith out' m =
        (line : J.Map) × (rest : List String) × (out'
          ≡ (write_lines (J.render (J.object line) ∷ rest) out).1)
        × Same (with_time (b.clock b.reads) m) line

    -- The last line is the object `m`, stamped with the answer of the clock after those for the lines
    -- before it.
    abbrev pub EndsWith : W.State → J.Map → Type 0
    EndsWith out' m =
        (line : J.Map) × (before : List String) × (out'
          ≡ (write_lines (before ++ (J.render (J.object line) ∷ [])) out).1)
        × Same (with_time (b.clock (b.reads + length before)) m) line

  module _ ⦃L : IsLawful⦄ where
    module _ ⦃W : Write⦄ (b : FakeBackend) (out : W.State) where
      end_event : String → Event
      end_event call = record { obj = Spec.status "end"; bucket = "call"; call_id = some call }
