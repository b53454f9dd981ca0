-- ===== src/LoaderState.antt =====
-- crates/mcpfz-probe/src/ebpf.rs, lines 65 to 83: what the threads of the loader share, where each
-- thread stands, and the JSON objects that they write.
use mcpfz_probe.Base.{
  ℕ, ◌%◌, ◌^◌, String, Bool, true, false, Option, none, some, List, [], ◌∷◌, ◌++◌,
}
use mcpfz_probe.Base.{◌==◌, if◌then◌else◌}
use mcpfz_probe.Base.Int.{ℤ, pos, negsuc}
use mcpfz_probe.Io.{Result, Write}
use mcpfz_probe.Json.{Json}
use mcpfz_probe.Script.{Control, scope, mark, shutdown}

abbrev pub drain_batch : ℕ
drain_batch = 8192

pub record State : Type 0 where
  pub active_call : Option String
  pub scope_pgid : Option ℤ
  pub scoped : Bool
  pub pending_ends : List (Option String)

-- The variables of one round of the outer loop.
pub record Batch : Type 0 where
  pub drained : ℕ
  pub pgid_cache : List (ℕ × Option ℤ)

abbrev pub new_batch : Batch
new_batch = record { drained = 0; pgid_cache = [] }

-- Where the control thread stands: before a line, before a status line that it writes, or ended.
pub data ControlPoint : Type 0 where
  reading : ControlPoint
  reporting : Control → ControlPoint
  stopped : ControlPoint

-- What a step did that other components see.
pub data Label : Type 0 where
  began : Option String → Label
  end_marked : Option String → Label
  -- a record was looked at under this active call
  looked : Option String → Label
  -- a queued end mark, and the call that its status names
  ended : Option String → Option String → Label
  -- the kernel put a record into the ring, the main thread took one out
  arrived : List ℕ → Label
  removed : List ℕ → Label
  -- a round of records is over, because the ring was empty or because the batch was full
  closed : (empty : Bool) → Label
  -- the queue of end marks was taken
  took : Label

abbrev pub int_eq : ℤ → ℤ → Bool
int_eq (pos m) (pos n) = m == n
int_eq (negsuc m) (negsuc n) = m == n
int_eq _ _ = false

-- `==` on `Option<i32>`.
abbrev pub same_pgid : Option ℤ → Option ℤ → Bool
same_pgid none none = true
same_pgid (some x) (some y) = int_eq x y
same_pgid _ _ = false

abbrev pub cached : ℕ → List (ℕ × Option ℤ) → Option (Option ℤ)
cached pid [] = none
cached pid ((p, g) ∷ rest) = if p == pid then some g else cached pid rest

-- The thread-local part of `bucket`.
abbrev pub bucket_of : State → String
bucket_of s = elim (s.active_call) [
  | some c ↦ "call"
  | none ↦ if s.scoped then "ambient" else "startup"
]

module _ ⦃J : Json⦄ where
  -- Where the main thread stands: before the `ready` status, before the test of `shutdown`, before
  -- `ring.next()`, before an event is written, before the queue of end marks is taken, before the
  -- next end mark, before its status, in `poll_readable`, or after the loop.
  pub data MainPoint : Type 0 where
    starting checking : MainPoint
    draining : Batch → MainPoint
    emitting : Batch → J.Map → MainPoint
    taking : Batch → MainPoint
    ending : Batch → List (Option String) → MainPoint
    reporting_end : Batch → Option String → List (Option String) → MainPoint
    polling : MainPoint
    finished : MainPoint

  abbrev pub with_call : Option String → J.Map → J.Map
  with_call none o = o
  with_call (some c) o = J.insert o "call_id" (J.string c)

  -- The object of a record, but for its time.
  unfoldable pub attributed : State → ℕ → J.Map → J.Map
  attributed s pid o =
      J.insert (with_call s.active_call (J.insert o "bucket" (J.string (bucket_of s)))) "pid"
        (J.unsigned pid)

  abbrev pub optional : Option String → J.Value
  optional none = J.null
  optional (some c) = J.string c

  abbrev pub status : String → String → J.Map
  status bucket message =
      J.insert (J.insert (J.insert J.new "type" (J.string "status")) "bucket" (J.string bucket))
        "message" (J.string message)

  abbrev pub with_time : ℕ → J.Map → J.Map
  with_time now o = J.insert o "ts_ns" (J.unsigned (now % 2 ^ 64))

  unfoldable pub ready_status : J.Map
  ready_status = J.insert (status "startup" "ready") "backend" (J.string "ebpf")

  unfoldable pub end_status : Option String → J.Map
  end_status call = J.insert (status "call" "end") "call_id" (optional call)

  -- The line that the control thread writes about a message.
  unfoldable pub control_status : Control → J.Map
  control_status (scope pgid generation) =
      J.insert (J.insert (status "ambient" "scope") "pgid" (J.signed pgid)) "generation"
        (J.signed generation)
  control_status (mark phase call tool) = J.insert (status "call" "begin") "call_id" (optional call)
  control_status shutdown = J.new

module _ ⦃W : Write⦄ ⦃J : Json⦄ where
  pub record World : Type 0 where
    pub state : State
    pub shutdown : Bool
    pub out : W.State
    pub now_reads : ℕ
    pub stat_reads : ℕ
    pub ring : List (List ℕ)
    pub lines : List (Result String W.Error)
    pub control : ControlPoint
    pub main : MainPoint

  -- `write_line`: errors of the writer are dropped.
  unfoldable pub write_line : J.Map → W.State → W.State
  write_line o out = (W.flush (W.writeln (J.render (J.object o)) out).1).1

  -- The kernel puts a record into the ring.
  abbrev pub push : List ℕ → World → World
  push bytes w = record w { ring = w.ring ++ (bytes ∷ []) }
