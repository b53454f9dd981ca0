-- ===== src/Loader/Trace.antt =====
-- What a trace of the loader says of calls, end marks and rounds.
use mcpfz_probe.Base.{
  String, Bool, some, sym, ◌∙◌, ◌≡◌, refl, ap, Option, none, List, [], ◌∷◌, ◌++◌, or_else,
}
use mcpfz_probe.LoaderState.{
  Label, began, end_marked, looked, ended, arrived, removed, closed, took,
}

-- The end marks that a trace has seen, in order.
abbrev pub marked : List Label → List (Option String)
marked [] = []
marked (end_marked call ∷ rest) = call ∷ marked rest
marked (_ ∷ rest) = marked rest

-- Those that it has applied.
abbrev pub applied : List Label → List (Option String)
applied [] = []
applied (ended call over ∷ rest) = call ∷ applied rest
applied (_ ∷ rest) = applied rest

pub marked-append : (s t : List Label) → marked (s ++ t) ≡ marked s ++ marked t
marked-append [] t = refl
marked-append (end_marked call ∷ s) t = ap (λ l. call ∷ l) (marked-append s t)
marked-append (began c ∷ s) t = marked-append s t
marked-append (looked c ∷ s) t = marked-append s t
marked-append (arrived b ∷ s) t = marked-append s t
marked-append (removed b ∷ s) t = marked-append s t
marked-append (closed e ∷ s) t = marked-append s t
marked-append (took ∷ s) t = marked-append s t
marked-append (ended c o ∷ s) t = marked-append s t

pub applied-append : (s t : List Label) → applied (s ++ t) ≡ applied s ++ applied t
applied-append [] t = refl
applied-append (ended call o ∷ s) t = ap (λ l. call ∷ l) (applied-append s t)
applied-append (began c ∷ s) t = applied-append s t
applied-append (looked c ∷ s) t = applied-append s t
applied-append (arrived b ∷ s) t = applied-append s t
applied-append (removed b ∷ s) t = applied-append s t
applied-append (closed e ∷ s) t = applied-append s t
applied-append (took ∷ s) t = applied-append s t
applied-append (end_marked c ∷ s) t = applied-append s t

-- The active call after a trace: the last begin, unless an end mark was applied since.
abbrev pub call_after : Option String → List Label → Option String
call_after c [] = c
call_after c (began call ∷ rest) = call_after call rest
call_after c (ended call over ∷ rest) = call_after none rest
call_after c (_ ∷ rest) = call_after c rest

-- The call that was active when the last record was taken out, where `c` is active before the trace
-- and `l` is the answer so far.
abbrev pub call_of_record : (c l : Option String) → List Label → Option String
call_of_record c l [] = l
call_of_record c l (began call ∷ rest) = call_of_record call l rest
call_of_record c l (ended call over ∷ rest) = call_of_record none l rest
call_of_record c l (removed bytes ∷ rest) = call_of_record c c rest
call_of_record c l (_ ∷ rest) = call_of_record c l rest

-- The call that the last applied end mark ended: the active one, or that of the mark where none was.
abbrev pub call_of_end : (c l : Option String) → List Label → Option String
call_of_end c l [] = l
call_of_end c l (began call ∷ rest) = call_of_end call l rest
call_of_end c l (ended call over ∷ rest) = call_of_end none (or_else c call) rest
call_of_end c l (_ ∷ rest) = call_of_end c l rest

pub call_after-append :
    (c : Option String) (s t : List Label) → call_after c (s ++ t) ≡ call_after (call_after c s) t
call_after-append c [] t = refl
call_after-append c (began d ∷ s) t = call_after-append d s t
call_after-append c (ended d o ∷ s) t = call_after-append none s t
call_after-append c (looked d ∷ s) t = call_after-append c s t
call_after-append c (arrived b ∷ s) t = call_after-append c s t
call_after-append c (removed b ∷ s) t = call_after-append c s t
call_after-append c (closed e ∷ s) t = call_after-append c s t
call_after-append c (took ∷ s) t = call_after-append c s t
call_after-append c (end_marked d ∷ s) t = call_after-append c s t

pub call_of_record-append :
    (c l : Option String) (s t : List Label)
    → call_of_record c l (s ++ t) ≡ call_of_record (call_after c s) (call_of_record c l s) t
call_of_record-append c l [] t = refl
call_of_record-append c l (began d ∷ s) t = call_of_record-append d l s t
call_of_record-append c l (ended d o ∷ s) t = call_of_record-append none l s t
call_of_record-append c l (removed b ∷ s) t = call_of_record-append c c s t
call_of_record-append c l (looked d ∷ s) t = call_of_record-append c l s t
call_of_record-append c l (arrived b ∷ s) t = call_of_record-append c l s t
call_of_record-append c l (closed e ∷ s) t = call_of_record-append c l s t
call_of_record-append c l (took ∷ s) t = call_of_record-append c l s t
call_of_record-append c l (end_marked d ∷ s) t = call_of_record-append c l s t

pub call_of_end-append :
    (c l : Option String) (s t : List Label)
    → call_of_end c l (s ++ t) ≡ call_of_end (call_after c s) (call_of_end c l s) t
call_of_end-append c l [] t = refl
call_of_end-append c l (began d ∷ s) t = call_of_end-append d l s t
call_of_end-append c l (ended d o ∷ s) t = call_of_end-append none (or_else c d) s t
call_of_end-append c l (removed b ∷ s) t = call_of_end-append c l s t
call_of_end-append c l (looked d ∷ s) t = call_of_end-append c l s t
call_of_end-append c l (arrived b ∷ s) t = call_of_end-append c l s t
call_of_end-append c l (closed e ∷ s) t = call_of_end-append c l s t
call_of_end-append c l (took ∷ s) t = call_of_end-append c l s t
call_of_end-append c l (end_marked d ∷ s) t = call_of_end-append c l s t

-- How the last round of a trace ended: whether the ring was found empty.
abbrev pub last_closed : List Label → Option Bool
last_closed [] = none
last_closed (closed empty ∷ rest) = or_else (last_closed rest) (some empty)
last_closed (_ ∷ rest) = last_closed rest

or_else_assoc : {A : Type 0} (x y z : Option A) → or_else (or_else x y) z ≡ or_else x (or_else y z)
or_else_assoc none y z = refl
or_else_assoc (some a) y z = refl

or_else-none : {A : Type 0} (x : Option A) → or_else x none ≡ x
or_else-none none = refl
or_else-none (some a) = refl

pub last_closed-append :
    (s t : List Label) → last_closed (s ++ t) ≡ or_else (last_closed t) (last_closed s)
last_closed-append [] t = sym (or_else-none (last_closed t))
last_closed-append (closed e ∷ s) t =
    ap (λ o. or_else o (some e)) (last_closed-append s t)
    ∙ or_else_assoc (last_closed t) (last_closed s) (some e)
last_closed-append (began c ∷ s) t = last_closed-append s t
last_closed-append (end_marked c ∷ s) t = last_closed-append s t
last_closed-append (looked c ∷ s) t = last_closed-append s t
last_closed-append (ended c o ∷ s) t = last_closed-append s t
last_closed-append (arrived b ∷ s) t = last_closed-append s t
last_closed-append (removed b ∷ s) t = last_closed-append s t
last_closed-append (took ∷ s) t = last_closed-append s t
