-- ===== src/Loader/Machine.antt =====
-- What the loader does with records, calls and end marks, as an abstract machine: two queues of end
-- marks, a ring and an active call. JSON, scopes, messages and the points of the threads are
-- forgotten.
use mcpfz_probe.Base.{ℕ, String, Bool, true, false, Option, none, List, [], ◌∷◌, ◌++◌, or_else}
use mcpfz_probe.LoaderState.{
  Label, began, end_marked, looked, ended, arrived, removed, closed, took,
}

pub record View : Type 0 where
  pub ring : List (List ℕ)
  -- the end marks in the queue, and those that the main thread has taken
  pub pending : List (Option String)
  pub taken : List (Option String)
  -- the round of records is over, and the queue is not taken yet
  pub closing : Bool
  pub active : Option String

pub data Move : View → List Label → View → Type 0 where
  idle : {v : View} → Move v [] v
  begin : {v : View} (call : Option String) → Move v (began call ∷ []) (record v { active = call })
  mark_end :
      {v : View} (call : Option String)
      → Move v (end_marked call ∷ []) (record v { pending = v.pending ++ (call ∷ []) })
  arrive :
      {v : View} (bytes : List ℕ)
      → Move v (arrived bytes ∷ []) (record v { ring = v.ring ++ (bytes ∷ []) })
  -- a record that is too short for its header
  skip :
      {ring : List (List ℕ)} {pending : List (Option String)} {active : Option String}
      (bytes : List ℕ)
      → Move
          (record {
            ring = bytes ∷ ring;
            pending = pending;
            taken = [];
            closing = false;
            active = active;
          })
          (removed bytes ∷ [])
          (record { ring = ring; pending = pending; taken = []; closing = false; active = active })
  look :
      {ring : List (List ℕ)} {pending : List (Option String)} {active : Option String}
      (bytes : List ℕ)
      → Move
          (record {
            ring = bytes ∷ ring;
            pending = pending;
            taken = [];
            closing = false;
            active = active;
          })
          (removed bytes ∷ looked active ∷ [])
          (record { ring = ring; pending = pending; taken = []; closing = false; active = active })
  close_empty :
      {pending : List (Option String)} {active : Option String}
      → Move
          (record { ring = []; pending = pending; taken = []; closing = false; active = active })
          (closed true ∷ [])
          (record { ring = []; pending = pending; taken = []; closing = true; active = active })
  close_full :
      {ring : List (List ℕ)} {pending : List (Option String)} {active : Option String}
      → Move
          (record { ring = ring; pending = pending; taken = []; closing = false; active = active })
          (closed false ∷ [])
          (record { ring = ring; pending = pending; taken = []; closing = true; active = active })
  take :
      {ring : List (List ℕ)} {pending : List (Option String)} {active : Option String}
      → Move
          (record { ring = ring; pending = pending; taken = []; closing = true; active = active })
          (took ∷ [])
          (record { ring = ring; pending = []; taken = pending; closing = false; active = active })
  -- the call that an end mark ends is the active one, or its own where none is active
  apply :
      {ring : List (List ℕ)} {pending taken : List (Option String)} {active : Option String}
      (call : Option String)
      → Move
          (record {
            ring = ring;
            pending = pending;
            taken = call ∷ taken;
            closing = false;
            active = active;
          })
          (ended call (or_else active call) ∷ [])
          (record { ring = ring; pending = pending; taken = taken; closing = false; active = none })

pub data Moves (start : View) : List Label → View → Type 0 where
  here : Moves start [] start
  then_move :
      {trace labels : List Label} {v u : View}
      → Moves start trace v
      → Move v labels u
      → Moves start (trace ++ labels) u

abbrev pub opened : View
opened = record { ring = []; pending = []; taken = []; closing = false; active = none }
