-- ===== src/Loader/Order.antt =====
-- The order of records and end marks in the runs of the loader.
use mcpfz_probe.Base.{ℕ, String, Option, List}
use mcpfz_probe.Io.{Result, Write}
use mcpfz_probe.Json.{Json}
use mcpfz_probe.Script.{Reader}
use mcpfz_probe.LoaderState.{World, Label}
use mcpfz_probe.Loader.Refinement.{Run-Moves}
use mcpfz_probe.Loader.Run.{started, Run}
use mcpfz_probe.Loader.Ledger.{Timely, blank}
use mcpfz_probe.Loader.Ledger.Kept.{Moves-Timely}

module _ ⦃W : Write⦄ ⦃J : Json⦄ ⦃R : Reader⦄ (clock : ℕ → ℕ) (stat : ℕ → ℕ → Option String)
    (lines : List (Result String W.Error)) (out : W.State) where
  -- In every interleaving, an end mark is applied only when all records that arrived before it have
  -- been taken out of the ring, unless the mark arrived between the end of a round of records and the
  -- taking of the queue, or a full batch cut a round off while the mark was in the queue.
  pub Run-Timely :
      {trace : List Label} {w : World}
      → Run clock stat (started lines out) trace w
      → Timely blank trace
  Run-Timely run = Moves-Timely (Run-Moves clock stat lines out run)
