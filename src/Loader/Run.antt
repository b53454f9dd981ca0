-- ===== src/Loader/Run.antt =====
-- Runs of the loader, as interleavings of the steps of its threads and of the kernel.
use mcpfz_probe.Base.{ℕ, String, Option, none, false, List, [], ◌∷◌, ◌++◌}
use mcpfz_probe.Io.{Result, Write}
use mcpfz_probe.Json.{Json}
use mcpfz_probe.Script.{Reader}
use mcpfz_probe.LoaderState.{World, Label, arrived, reading, starting, push}
use mcpfz_probe.Loader.{control_step, main_step}

module _ ⦃W : Write⦄ ⦃J : Json⦄ where
  -- The loader when its threads have been started: `State::default()`.
  abbrev pub started : List (Result String W.Error) → W.State → World
  started lines out = record {
    state = record { active_call = none; scope_pgid = none; scoped = false; pending_ends = [] };
    shutdown = false;
    out = out;
    now_reads = 0;
    stat_reads = 0;
    ring = [];
    lines = lines;
    control = reading;
    main = starting;
  }

  module _ ⦃R : Reader⦄ (clock : ℕ → ℕ) (stat : ℕ → ℕ → Option String) where
    -- A run from one world to another, with what its steps did in order.
    pub data Run (start : World) : List Label → World → Type 0 where
      here : Run start [] start
      by_control :
          {trace : List Label} {w : World}
          → Run start trace w
          → Run start (trace ++ (control_step clock stat w).0) (control_step clock stat w).1
      by_main :
          {trace : List Label} {w : World}
          → Run start trace w
          → Run start (trace ++ (main_step clock stat w).0) (main_step clock stat w).1
      by_kernel :
          {trace : List Label} {w : World} (bytes : List ℕ)
          → Run start trace w
          → Run start (trace ++ (arrived bytes ∷ [])) (push bytes w)
