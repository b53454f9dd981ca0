-- ===== src/Fake/Writes.antt =====
-- What an action of the fake backend writes, for every writer. An action that `Writes` some lines
-- calls `writeln` and `flush` for each of them in order and does nothing else to the writer, and the
-- first error of the writer ends it.
use mathlib.Core.Path.{fun_ext}
use mcpfz_probe.Base.{◌≡◌, refl, ◌∙◌, ap, String, List, [], ◌∷◌, ◌++◌}
use mcpfz_probe.Io.{Result, ok, err, Write}
use mcpfz_probe.Exec.{continue, ◌>>=◌}
use mcpfz_probe.Json.{Json}
use mcpfz_probe.Fake.{FakeBackend, Session, Action}

module _ ⦃W : Write⦄ where
  abbrev pub Progress : Type 0
  Progress = Result (Unit {0}) W.Error × W.State

  abbrev pub chain : Progress → (W.State → Progress) → Progress
  chain (ok u, w) f = f w
  chain (err e, w) f = (err e, w)

  chain_assoc :
      (r : Progress) (f g : W.State → Progress) → chain (chain r f) g ≡ chain r (λ w. chain (f w) g)
  chain_assoc (ok u, w) f g = refl
  chain_assoc (err e, w) f g = refl

  -- Each line followed by a flush, up to the first error.
  abbrev pub write_lines : List String → W.State → Progress
  write_lines [] w = (ok tt, w)
  write_lines (l ∷ ls) w = chain (W.writeln l w) (λ w1. chain (W.flush w1) (write_lines ls))

  pub write_lines-append :
      (xs ys : List String) (w : W.State)
      → write_lines (xs ++ ys) w ≡ chain (write_lines xs w) (write_lines ys)
  write_lines-append [] ys w = refl
  write_lines-append (x ∷ xs) ys w =
      ap (λ f. chain (W.writeln x w) (λ w1. chain (W.flush w1) f))
        (fun_ext (write_lines-append xs ys))
      ∙ simp chain_assoc

  module _ ⦃J : Json⦄ where
    -- The action's answer beside what the writer says about the lines: where all of them are
    -- written the action ends with `r` in backend `b`, and else with the writer's error.
    abbrev pub Agrees :
        {A : Type 0}
        → Result A W.Error × Session
        → Progress
        → FakeBackend
        → Result A W.Error
        → Type 0
    Agrees (r', s) (ok u, w) b r = (r' ≡ r) × (s ≡ record { backend = b; out = w })
    Agrees (r', s) (err e, w) b r = (r' ≡ err e) × (s.out ≡ w)

    pub Agrees-out :
        {A : Type 0} (p : Result A W.Error × Session) (q : Progress) (b : FakeBackend)
        (r : Result A W.Error)
        → Agrees p q b r
        → p.1.out ≡ q.1
    Agrees-out (r', s) (ok u, w) b r h = ap (λ x. x.out) h.1
    Agrees-out (r', s) (err e, w) b r h = h.1

    pub record Writes {A : Type 0} (m : Action A) (b : FakeBackend) (ls : List String)
        (b' : FakeBackend) (r : Result A W.Error) : Type 0 where
      pub at : (w : W.State) → Agrees (m (record { backend = b; out = w })) (write_lines ls w) b' r

    Agrees-bind :
        {A B : Type 0} (p : Result A W.Error × Session) (f : A → Action B) (q : Progress)
        (b b' : FakeBackend) (a : A) (r : Result B W.Error) (ls : List String)
        → Agrees p q b (ok a)
        → ((w : W.State) → Agrees (f a (record { backend = b; out = w })) (write_lines ls w) b' r)
        → Agrees (continue p.0 f p.1) (chain q (write_lines ls)) b' r
    Agrees-bind (r', s) f (ok u, w) b b' a r ls (e, e') next = rw (e, e', continue) (next w)
    Agrees-bind (r', s) f (err x, w) b b' a r ls (e, e') next = rw (e, continue) (refl, e')

    pub Writes-bind :
        {A B : Type 0} (m : Action A) (f : A → Action B) {b b1 b2 : FakeBackend} {a : A}
        {r : Result B W.Error} (ls ks : List String)
        → Writes m b ls b1 (ok a)
        → Writes (f a) b1 ks b2 r
        → Writes (m >>= f) b (ls ++ ks) b2 r
    Writes-bind m f {b} {b1} {b2} {a} {r} ls ks hm hf = record {
      at = λ w. rw write_lines-append (
          Agrees-bind (m (record { backend = b; out = w })) f (write_lines ls w) b1 b2 a r ks
            (hm.at w) hf.at);
    }
