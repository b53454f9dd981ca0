-- ===== src/Setup/Laws.antt =====
-- What is attached when the loader starts, and what an error leaves undone.
use mcpfz_probe.Base.{
  String, ◌≡◌, refl, sym, ap, ◌∙◌, true, List, [], ◌∷◌, ◌++◌, ◌⊎◌, inl, inr, append_assoc,
  append-nil, map, All,
}
use mathlib.Core.Path.{subst}
use mathlib.Core.List.{Perm}
use mathlib.Core.List.Perm
use mcpfz_probe.Io.{Result, ok, err}
use mcpfz_probe.Exec.{continue}
use mcpfz_probe.Setup.{Aya, Tracepoint, programs, attach_program, attach_each}
use mcpfz_probe.Kernel.{handlers, Program}

module _ ⦃A : Aya⦄ where
  abbrev pub Step : Type 0
  Step = Result (Unit {0}) String × A.Ebpf

  -- Programs are attached one after the other, each with success.
  pub data Attached : List Tracepoint → (bpf end : A.Ebpf) → Type 0 where
    done : {bpf : A.Ebpf} → Attached [] bpf bpf
    then_attach :
        {p : Tracepoint} {rest : List Tracepoint} {bpf middle end : A.Ebpf}
        → attach_program p bpf ≡ (ok tt, middle)
        → Attached rest middle end
        → Attached (p ∷ rest) bpf end

  -- All programs were attached, or those before the first that failed, whose error is returned.
  abbrev pub Stops : List Tracepoint → A.Ebpf → Step → Type 0
  Stops ps bpf end =
      ((end.0 ≡ ok tt) × Attached ps bpf end.1)
      ⊎ ((before : List Tracepoint) × (p : Tracepoint) × (after : List Tracepoint)
          × (middle : A.Ebpf) × (e : String) × (ps ≡ before ++ (p ∷ after))
          × Attached before bpf middle
          × (attach_program p middle ≡ (err e, end.1))
          × (end.0 ≡ err e))

  attach_each_next :
      (p : Tracepoint) (rest : List Tracepoint) (bpf middle : A.Ebpf)
      → attach_program p bpf ≡ (ok tt, middle)
      → attach_each (p ∷ rest) bpf ≡ attach_each rest middle
  unfolding attach_each
  attach_each_next p rest bpf middle e = ap (λ s. continue s.0 (λ u. attach_each rest) s.1) e

  attach_each_failed :
      (p : Tracepoint) (rest : List Tracepoint) (bpf middle : A.Ebpf) (e : String)
      → attach_program p bpf ≡ (err e, middle)
      → attach_each (p ∷ rest) bpf ≡ (err e, middle)
  unfolding attach_each
  attach_each_failed p rest bpf middle e h = ap (λ s. continue s.0 (λ u. attach_each rest) s.1) h

  attach_each_none : (bpf : A.Ebpf) → attach_each [] bpf ≡ (ok tt, bpf)
  unfolding attach_each
  attach_each_none bpf = refl

  step_cases : (s : Step) → (s ≡ (ok tt, s.1)) ⊎ ((e : String) × (s ≡ (err e, s.1)))
  step_cases (ok tt, b) = inl refl
  step_cases (err e, b) = inr (e, refl)

  -- Whatever the library answers, the programs are attached in order, all of them with success, or up
  -- to the first that fails: then its error is returned and none of the later ones is touched.
  pub attach_each-Stops : (ps : List Tracepoint) (bpf : A.Ebpf) → Stops ps bpf (attach_each ps bpf)
  attach_each-Stops [] bpf =
      let e = attach_each_none bpf in
      inl (ap (λ s. s.0) e, subst (λ x. Attached [] bpf x) (ap (λ s. s.1) (sym e)) done)
  attach_each-Stops (p ∷ rest) bpf = elim (step_cases (attach_program p bpf)) [
    | inr (e, h) ↦
        let all = attach_each_failed p rest bpf _ e h in
        inr
          ([], p, rest, bpf, e, refl, done, h ∙ ap (λ s. (err e, s.1)) (sym all), ap (λ s. s.0) all)
    | inl h ↦
        let all = attach_each_next p rest bpf _ h in
        elim (attach_each-Stops rest (attach_program p bpf).1) [
          | inl (good, attached) ↦ inl (
            ap (λ s. s.0) all ∙ good,
            subst (λ x. Attached (p ∷ rest) bpf x) (ap (λ s. s.1) (sym all))
                (then_attach h attached),
          )
          | inr (before, q, after, middle, e, split, attached, fails, returned) ↦ inr (
            p ∷ before,
            q,
            after,
            middle,
            e,
            ap (λ l. p ∷ l) split,
            then_attach h attached,
            fails ∙ ap (λ s. (err e, s.1)) (sym all),
            ap (λ s. s.0) all ∙ returned,
          )
        ]
  ]

  -- A library that works: it finds the programs of the kernel's object file by their names, each is a
  -- tracepoint, and `attached` tells what is attached. Loading changes nothing that is attached.
  pub record Works (attached : A.Ebpf → List Tracepoint) : Type 0 where
    pub has : All (λ h. (bpf : A.Ebpf) → A.has_program h.0 bpf ≡ true) handlers
    pub typed : (name : String) (bpf : A.Ebpf) → A.as_tracepoint name bpf ≡ ok tt
    pub loads : (name : String) (bpf : A.Ebpf) → (A.load name bpf).0 ≡ ok tt
    pub load_keeps : (name : String) (bpf : A.Ebpf) → attached (A.load name bpf).1 ≡ attached bpf
    pub attaches :
        (name category event : String) (bpf : A.Ebpf) → (A.attach name category event bpf).0 ≡ ok tt
    pub attach_adds :
        (name category event : String) (bpf : A.Ebpf)
        → attached (A.attach name category event bpf).1
          ≡ attached bpf ++ (record { name = name; category = category; event = event } ∷ [])

  -- The tracepoint of a program of the kernel: the system call of its name.
  abbrev pub hook : String × Program → Tracepoint
  hook h = record { name = h.0; category = "syscalls"; event = h.0 }

  programs_perm : Perm programs (map hook handlers)
  unfolding handlers
  programs_perm =
      Perm.cons _ (Perm.cons _ (Perm.cons _ (Perm.cons _ (Perm.cons _ (Perm.swap _ _ _)))))

  module _ (attached : A.Ebpf → List Tracepoint) (works : Works attached) where
    attach_program-attached :
        (p : Tracepoint) (bpf : A.Ebpf)
        → A.has_program p.name bpf ≡ true
        → (attach_program p bpf ≡ (ok tt, (attach_program p bpf).1))
          × (attached (attach_program p bpf).1 ≡ attached bpf ++ (p ∷ []))
    unfolding attach_program
    attach_program-attached p bpf has =
        rw
          (
            has,
            works.typed p.name bpf,
            works.loads p.name bpf,
            works.attaches p.name p.category p.event (A.load p.name bpf).1,
          )
          (
            refl,
            works.attach_adds p.name p.category p.event (A.load p.name bpf).1
                ∙ ap (λ l. l ++ (p ∷ [])) (works.load_keeps p.name bpf),
          )

    abbrev Attaches : List Tracepoint → A.Ebpf → Type 0
    Attaches ps bpf =
        (after : A.Ebpf) × (attach_each ps bpf ≡ (ok tt, after))
        × (attached after ≡ attached bpf ++ ps)

    attach_each-Attaches :
        (ps : List Tracepoint) (bpf : A.Ebpf)
        → All (λ p. (b : A.Ebpf) → A.has_program p.name b ≡ true) ps
        → Attaches ps bpf
    attach_each-Attaches [] bpf has = (bpf, attach_each_none bpf, sym (append-nil (attached bpf)))
    attach_each-Attaches (p ∷ rest) bpf (here, has) =
        let (e, added) = attach_program-attached p bpf (here bpf) in
        let (after, all, more) = attach_each-Attaches rest (attach_program p bpf).1 has in
        (
          after,
          attach_each_next p rest bpf _ e ∙ all,
          more ∙ ap (λ l. l ++ rest) added ∙ append_assoc (attached bpf) (p ∷ []) rest,
        )

    -- With a library that works, the start of the loader attaches the programs of `PROGRAMS` in order,
    -- and these are the programs of the kernel, each once, with the system call it is named after.
    pub programs-handlers :
        (bpf : A.Ebpf)
        → (after : A.Ebpf) × (attach_each programs bpf ≡ (ok tt, after))
          × (attached after ≡ attached bpf ++ programs)
          × Perm programs (map hook handlers)
    unfolding handlers
    programs-handlers bpf =
        let (a, (b, (c, (d, (e, (f, (g, rest))))))) = works.has in
        let (after, all, more) =
          attach_each-Attaches programs bpf (a, (b, (c, (d, (e, (g, (f, rest))))))) in
        (after, all, more, programs_perm)
