-- ===== src/Loader/Ledger/Kept.antt =====
-- The moves of the loader keep the ledger, and apply no mark too early.
use mcpfz_probe.Base.{
  ℕ, suc, ◌+◌, ◌≤◌, String, ◌≡◌, refl, sym, ap, ◌∙◌, Bool, true, false, Option, none, List, [], ◌∷◌,
  ◌++◌, length, length-append, append-nil, append_assoc, inl, inr, All, All-append, arith,
}
use mathlib.Core.Path.{subst}
use mcpfz_probe.LoaderState.{Label}
use mcpfz_probe.Loader.Machine.{View, Move, Moves, opened}
use mcpfz_probe.Loader.Ledger.{
  Mark, Ledger, Timely, blank, without_first, Done, FirstDone, notes, notes-append, Timely-append,
  excuse, excuse-append, length-excuse, excuse-Done, All-map, Done-mono,
}

-- The marks in the queue arrived before now, and are done while the queue is about to be taken.
abbrev Queued : Bool → (came gone : ℕ) → List Mark → Type 0
Queued true came gone marks = All (Done gone) marks
Queued false came gone marks = All (λ m. m.since ≤ came) marks

-- A ledger agrees with what the machine holds: the first marks were taken and are done.
record Matches (l : Ledger) (v : View) : Type 0 where
  count : l.came ≡ l.gone + length v.ring
  between : l.between ≡ v.closing
  front : List Mark
  back : List Mark
  split : l.marks ≡ front ++ back
  front_size : length front ≡ length v.taken
  back_size : length back ≡ length v.pending
  front_done : All (Done l.gone) front
  queued : Queued v.closing l.came l.gone back

Queued-arrived :
    (closing : Bool) (came gone : ℕ) (back : List Mark)
    → Queued closing came gone back
    → Queued closing (suc came) gone back
Queued-arrived true came gone back h = h
Queued-arrived false came gone back h = All-map back (λ m le. omega (arith, le)) h

Queued-marked :
    (closing between : Bool) (came gone : ℕ) (back : List Mark)
    → between ≡ closing
    → Queued closing came gone back
    → Queued closing came gone (back ++ (record { since = came; excused = between } ∷ []))
Queued-marked true between came gone back e h = All-append (Done gone) back _ h (inl e, tt)
Queued-marked false between came gone back e h =
    All-append (λ m. m.since ≤ came) back _ h (omega arith, tt)

-- The marks in the queue when the ring is empty.
Queued-emptied :
    (came gone : ℕ) (back : List Mark)
    → came ≡ gone + 0
    → Queued false came gone back
    → Queued true came gone back
Queued-emptied came gone back e h = All-map back (λ m le. inr (omega (arith, e, le))) h

-- A ledger after a move, and that the move applied no mark too early.
abbrev Kept : Ledger → List Label → View → Type 0
Kept l labels u = Timely l labels × Matches (notes labels l) u

-- A record is taken out, between two rounds of end marks.
Matches-removed :
    (l : Ledger) (bytes : List ℕ) (ring : List (List ℕ)) (pending : List (Option String))
    (active : Option String)
    → Matches l (record {
      ring = bytes ∷ ring;
      pending = pending;
      taken = [];
      closing = false;
      active = active;
    })
    → Matches
        (record l { gone = suc l.gone })
        (record { ring = ring; pending = pending; taken = []; closing = false; active = active })
Matches-removed l bytes ring pending active m = record {
  count = omega (arith, m.count);
  between = m.between;
  front = m.front;
  back = m.back;
  split = m.split;
  front_size = m.front_size;
  back_size = m.back_size;
  front_done = All-map m.front (λ x. Done-mono l.gone x) m.front_done;
  queued = m.queued;
}

-- The first mark is applied.
Matches-applied :
    (l : Ledger) (front back : List Mark) (ring : List (List ℕ))
    (pending taken : List (Option String)) (call active : Option String)
    → l.marks ≡ front ++ back
    → length front ≡ length (call ∷ taken)
    → All (Done l.gone) front
    → (m : Matches l (record {
      ring = ring;
      pending = pending;
      taken = call ∷ taken;
      closing = false;
      active = active;
    }))
    → length back ≡ length pending
    → Queued false l.came l.gone back
    → FirstDone l.gone l.marks
      × Matches
          (record l { marks = without_first l.marks })
          (record { ring = ring; pending = pending; taken = taken; closing = false; active = none })
Matches-applied l [] back ring pending taken call active split size done m bsize queued =
    absurd (omega (arith, size))
Matches-applied l (first ∷ front) back ring pending taken call active split size done m bsize
      queued =
    (
      subst (FirstDone l.gone) (sym split) done.0,
      record {
        count = m.count;
        between = m.between;
        front = front;
        back = back;
        split = ap without_first split;
        front_size = omega (arith, size);
        back_size = bsize;
        front_done = done.1;
        queued = queued;
      },
    )

empty_is : (xs : List Mark) → length xs ≡ 0 → xs ≡ []
empty_is [] e = refl
empty_is (x ∷ xs) e = absurd (omega (arith, e))

Move-Kept :
    {v u : View} (l : Ledger) (labels : List Label)
    → Matches l v
    → Move v labels u
    → Kept l labels u
Move-Kept l _ m Move.idle = (tt, m)
Move-Kept l _ m (Move.begin call) = (
  (tt, tt),
  record {
    count = m.count;
    between = m.between;
    front = m.front;
    back = m.back;
    split = m.split;
    front_size = m.front_size;
    back_size = m.back_size;
    front_done = m.front_done;
    queued = m.queued;
  },
)
Move-Kept l _ m (Move.mark_end {v} call) = (
  (tt, tt),
  record {
    count = m.count;
    between = m.between;
    front = m.front;
    back = m.back ++ (record { since = l.came; excused = l.between } ∷ []);
    split =
        ap (λ xs. xs ++ (record { since = l.came; excused = l.between } ∷ [])) m.split
        ∙ append_assoc m.front m.back _;
    front_size = m.front_size;
    back_size =
        length-append m.back _ ∙ ap (λ n. n + 1) m.back_size ∙ sym (length-append v.pending _);
    front_done = m.front_done;
    queued = Queued-marked v.closing l.between l.came l.gone m.back m.between m.queued;
  },
)
Move-Kept l _ m (Move.arrive {v} bytes) = (
  (tt, tt),
  record {
    count = omega (arith, m.count, length-append v.ring (bytes ∷ []));
    between = m.between;
    front = m.front;
    back = m.back;
    split = m.split;
    front_size = m.front_size;
    back_size = m.back_size;
    front_done = m.front_done;
    queued = Queued-arrived v.closing l.came l.gone m.back m.queued;
  },
)
Move-Kept l _ m (Move.skip bytes) = ((tt, tt), Matches-removed l bytes _ _ _ m)
Move-Kept l _ m (Move.look bytes) = ((tt, (tt, tt)), Matches-removed l bytes _ _ _ m)
Move-Kept l _ m Move.close_empty = (
  (tt, tt),
  record {
    count = m.count;
    between = refl;
    front = m.front;
    back = m.back;
    split = m.split;
    front_size = m.front_size;
    back_size = m.back_size;
    front_done = m.front_done;
    queued = Queued-emptied l.came l.gone m.back m.count m.queued;
  },
)
Move-Kept l _ m Move.close_full = (
  (tt, tt),
  record {
    count = m.count;
    between = refl;
    front = excuse m.front;
    back = excuse m.back;
    split = ap excuse m.split ∙ excuse-append m.front m.back;
    front_size = length-excuse m.front ∙ m.front_size;
    back_size = length-excuse m.back ∙ m.back_size;
    front_done = excuse-Done l.gone m.front;
    queued = excuse-Done l.gone m.back;
  },
)
Move-Kept l _ m Move.take = (
  (tt, tt),
  record {
    count = m.count;
    between = refl;
    front = m.back;
    back = [];
    split =
        m.split ∙ ap (λ xs. xs ++ m.back) (empty_is m.front m.front_size) ∙ sym (append-nil m.back);
    front_size = m.back_size;
    back_size = refl;
    front_done = m.queued;
    queued = tt;
  },
)
Move-Kept l _ m (Move.apply call) =
    let a =
      Matches-applied l m.front m.back _ _ _ call _ m.split m.front_size m.front_done m m.back_size
        m.queued in
    ((a.0, tt), a.1)

Moves-Kept : {trace : List Label} {v : View} → Moves opened trace v → Kept blank trace v
Moves-Kept Moves.here = (
  tt,
  record {
    count = refl;
    between = refl;
    front = [];
    back = [];
    split = refl;
    front_size = refl;
    back_size = refl;
    front_done = tt;
    queued = tt;
  },
)
Moves-Kept (Moves.then_move {trace} {labels} moves move) =
    let (timely, m) = Moves-Kept moves in
    let (now, m') = Move-Kept (notes trace blank) labels m move in
    (Timely-append trace labels blank timely now, rw (notes-append trace labels blank) m')

-- No move applies a mark too early.
pub Moves-Timely : {trace : List Label} {v : View} → Moves opened trace v → Timely blank trace
Moves-Timely moves = (Moves-Kept moves).0
