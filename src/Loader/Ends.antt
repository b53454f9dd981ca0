-- ===== src/Loader/Ends.antt =====
-- The calls and the end marks in a run.
use mcpfz_probe.Base.{
  ℕ, String, ◌≡◌, refl, sym, ap, ◌∙◌, Option, none, List, ◌++◌, append-nil, append_assoc,
}
use mcpfz_probe.Io.{Result, Write}
use mcpfz_probe.Json.{Json}
use mcpfz_probe.Script.{Reader}
use mcpfz_probe.LoaderState.{World, Label}
use mcpfz_probe.Loader.Machine.{View, Move, Moves, opened}
use mcpfz_probe.Loader.Refinement.{view, Run-Moves}
use mcpfz_probe.Loader.Run.{started, Run}
use mcpfz_probe.Loader.Trace.{
  marked, applied, call_after, marked-append, applied-append, call_after-append,
}

-- The end marks that wait: those that the main thread has taken, then those in the queue.
abbrev pub waiting : View → List (Option String)
waiting v = v.taken ++ v.pending

-- A move keeps the books: what was waiting or is marked is applied or waits, in order, and the active
-- call follows the labels.
abbrev Keeps : View → List Label → View → Type 0
Keeps v labels u =
    (waiting v ++ marked labels ≡ applied labels ++ waiting u)
    × (u.active ≡ call_after v.active labels)

Move-Keeps : {v u : View} {labels : List Label} → Move v labels u → Keeps v labels u
Move-Keeps Move.idle = (append-nil _, refl)
Move-Keeps (Move.begin call) = (append-nil _, refl)
Move-Keeps (Move.mark_end {v} call) = (append_assoc v.taken v.pending _, refl)
Move-Keeps (Move.arrive bytes) = (append-nil _, refl)
Move-Keeps (Move.skip bytes) = (append-nil _, refl)
Move-Keeps (Move.look bytes) = (append-nil _, refl)
Move-Keeps Move.close_empty = (append-nil _, refl)
Move-Keeps Move.close_full = (append-nil _, refl)
Move-Keeps Move.take = (refl, refl)
Move-Keeps (Move.apply call) = (append-nil _, refl)

-- The books of the moves from the start.
record Books (trace : List Label) (v : View) : Type 0 where
  marks : marked trace ≡ applied trace ++ waiting v
  active : v.active ≡ call_after none trace

Books-move :
    {trace : List Label} {v u : View} (labels : List Label)
    → Books trace v
    → Keeps v labels u
    → Books (trace ++ labels) u
Books-move {trace} {v} {u} labels b (marks, active) = record {
  marks =
      marked-append trace labels
      ∙ ap (λ l. l ++ marked labels) b.marks
      ∙ append_assoc (applied trace) (waiting v) (marked labels)
      ∙ ap (λ l. applied trace ++ l) marks
      ∙ sym (append_assoc (applied trace) (applied labels) (waiting u))
      ∙ ap (λ l. l ++ waiting u) (sym (applied-append trace labels));
  active = active ∙ rw b.active (sym (call_after-append none trace labels));
}

Moves-Books : {trace : List Label} {v : View} → Moves opened trace v → Books trace v
Moves-Books Moves.here = record { marks = refl; active = refl }
Moves-Books (Moves.then_move moves move) = Books-move _ (Moves-Books moves) (Move-Keeps move)

module _ ⦃W : Write⦄ ⦃J : Json⦄ ⦃R : Reader⦄ (clock : ℕ → ℕ) (stat : ℕ → ℕ → Option String)
    (lines : List (Result String W.Error)) (out : W.State) where
  -- In every interleaving of the threads and the kernel, the end marks are applied in the order in
  -- which they arrived, each at most once, and those that are not applied yet wait in order.
  pub Run-marked :
      {trace : List Label} {w : World}
      → Run clock stat (started lines out) trace w
      → marked trace ≡ applied trace ++ waiting (view w)
  Run-marked run = (Moves-Books (Run-Moves clock stat lines out run)).marks

  -- The active call of a run is that of the last begin mark, unless an end mark was applied since.
  pub Run-active :
      {trace : List Label} {w : World}
      → Run clock stat (started lines out) trace w
      → w.state.active_call ≡ call_after none trace
  Run-active run = (Moves-Books (Run-Moves clock stat lines out run)).active
