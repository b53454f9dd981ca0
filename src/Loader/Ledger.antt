-- ===== src/Loader/Ledger.antt =====
-- A ledger of the end marks that wait, along a trace: when an end mark is applied, which records are
-- gone.
pub mod Kept
use mcpfz_probe.Base.{
  ℕ, zero, suc, ◌+◌, ◌≤◌, String, ◌≡◌, refl, sym, ap, ◌∙◌, Bool, true, false, if◌then◌else◌, Option,
  none, List, [], ◌∷◌, ◌++◌, length, length-append, append-nil, append_assoc, ◌⊎◌, inl, inr, All,
  All-append, arith,
}
use mathlib.Core.Path.{subst}
use mcpfz_probe.Io.{Result, Write}
use mcpfz_probe.Json.{Json}
use mcpfz_probe.Script.{Reader}
use mcpfz_probe.LoaderState.{
  World, Label, began, end_marked, looked, ended, arrived, removed, closed, took,
}
use mcpfz_probe.Loader.Machine.{View, Move, Moves, opened}
use mcpfz_probe.Loader.Refinement.{view, Run-Moves}
use mcpfz_probe.Loader.Run.{started, Run}

-- An end mark that waits: how many records had arrived when it did, and whether it may come early.
-- It may if it arrived after a round and before the queue was taken, or was in the queue when a full
-- batch cut a round off.
pub record Mark : Type 0 where
  pub since : ℕ
  pub excused : Bool

pub record Ledger : Type 0 where
  pub came : ℕ
  pub gone : ℕ
  pub between : Bool
  pub marks : List Mark

abbrev pub excuse : List Mark → List Mark
excuse [] = []
excuse (m ∷ rest) = (record m { excused = true }) ∷ excuse rest

abbrev pub without_first : List Mark → List Mark
without_first [] = []
without_first (m ∷ rest) = rest

abbrev pub note : Label → Ledger → Ledger
note (arrived bytes) l = record l { came = suc l.came }
note (removed bytes) l = record l { gone = suc l.gone }
note (closed true) l = record l { between = true }
note (closed false) l = record l { between = true; marks = excuse l.marks }
note took l = record l { between = false }
note (end_marked call) l = record l {
  marks = l.marks ++ (record { since = l.came; excused = l.between } ∷ []);
}
note (ended call over) l = record l { marks = without_first l.marks }
note (began call) l = l
note (looked call) l = l

-- All records that came before the mark are gone, or the mark is excused.
abbrev pub Done : ℕ → Mark → Type 0
Done gone m = (m.excused ≡ true) ⊎ (m.since ≤ gone)

abbrev pub FirstDone : ℕ → List Mark → Type 0
FirstDone gone [] = ⊥
FirstDone gone (m ∷ rest) = Done gone m

abbrev TimelyAt : Label → Ledger → Type 0
TimelyAt (ended call over) l = FirstDone l.gone l.marks
TimelyAt _ l = Unit {0}

-- Each end mark is applied only when it is done.
abbrev pub Timely : Ledger → List Label → Type 0
Timely l [] = Unit {0}
Timely l (label ∷ rest) = TimelyAt label l × Timely (note label l) rest

abbrev pub blank : Ledger
blank = record { came = 0; gone = 0; between = false; marks = [] }

abbrev pub notes : List Label → Ledger → Ledger
notes [] l = l
notes (label ∷ rest) l = notes rest (note label l)

pub notes-append : (s t : List Label) (l : Ledger) → notes (s ++ t) l ≡ notes t (notes s l)
notes-append [] t l = refl
notes-append (label ∷ s) t l = notes-append s t (note label l)

pub Timely-append :
    (s t : List Label) (l : Ledger) → Timely l s → Timely (notes s l) t → Timely l (s ++ t)
Timely-append [] t l hs ht = ht
Timely-append (label ∷ s) t l (now, hs) ht = (now, Timely-append s t (note label l) hs ht)

pub excuse-append : (xs ys : List Mark) → excuse (xs ++ ys) ≡ excuse xs ++ excuse ys
excuse-append [] ys = refl
excuse-append (m ∷ xs) ys = ap (λ l. (record m { excused = true }) ∷ l) (excuse-append xs ys)

pub length-excuse : (xs : List Mark) → length (excuse xs) ≡ length xs
length-excuse [] = refl
length-excuse (m ∷ xs) = ap suc (length-excuse xs)

pub excuse-Done : (gone : ℕ) (xs : List Mark) → All (Done gone) (excuse xs)
excuse-Done gone [] = tt
excuse-Done gone (m ∷ xs) = (inl refl, excuse-Done gone xs)

pub All-map :
    {P Q : Mark → Type 0} (xs : List Mark) → ((m : Mark) → P m → Q m) → All P xs → All Q xs
All-map [] f h = tt
All-map (m ∷ xs) f (now, h) = (f m now, All-map xs f h)

pub Done-mono : (gone : ℕ) (m : Mark) → Done gone m → Done (suc gone) m
Done-mono gone m (inl e) = inl e
Done-mono gone m (inr h) = inr (omega (arith, h))
