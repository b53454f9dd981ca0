-- ===== src/Fake/Grace.antt =====
-- What `--grace-ms` does: it is named in the ready status, and nowhere else.
use mcpfz_probe.Base.{ℕ, suc, String, ◌≡◌, refl, ap, ◌∙◌, true, none, List, ◌∷◌, ◌++◌, map}
use mcpfz_probe.Io.{Result, Write}
use mcpfz_probe.Json.{Json, IsLawful}
use mcpfz_probe.Script.{Reader}
use mcpfz_probe.Fake
use mcpfz_probe.Fake.{FakeBackend, Session}
use mcpfz_probe.Fake.Spec.{Event, input_of, ready, has_type, line, stamp, fired, replies}
use mcpfz_probe.Fake.Writes.{write_lines}
use mcpfz_probe.Fake.Refinement.{run-transcript}
use mcpfz_probe.Fake.Emits.{window}

module _ ⦃J : Json⦄ ⦃L : IsLawful⦄ where
  ready_typed : (grace : ℕ) → has_type (ready grace) ≡ true
  ready_typed grace = L.contains_key-get (ready grace).obj "type" ∙ simp (L.get-insert)

  stamp-ready :
      (clock : ℕ → ℕ) (n grace : ℕ) (es : List Event)
      → stamp clock n (ready grace ∷ es) ≡ line (ready grace) (clock n) ∷ stamp clock (suc n) es
  stamp-ready clock n grace es = rw (ready_typed grace) refl

  module _ ⦃W : Write⦄ ⦃R : Reader⦄ where
    -- With a lawful JSON library, two runs of the fake backend that differ in `grace_ms` write the
    -- same lines after the ready status: whatever the value, a run writes the ready status with it,
    -- and then lines that do not depend on it, up to the first error of the writer.
    pub run-grace :
        (b : FakeBackend) (out : W.State) (lines : List (Result String W.Error))
        → (rest : List String) × ((grace : ℕ)
            → (Fake.run lines (record { backend = record b { grace_ms = grace }; out = out })).1.out
              ≡ (write_lines (line (ready grace) (b.clock b.reads) ∷ rest) out).1)
    run-grace b out lines = (
      stamp b.clock (suc b.reads) (
          fired b.script "startup" none "startup" none
          ++ replies b.script (window b) (map input_of lines)),
      λ grace.
          (run-transcript (record b { grace_ms = grace }) out lines).1
          ∙ ap (λ l. (write_lines l out).1) (stamp-ready b.clock b.reads grace _),
    )
