-- ===== src/Fake/Emits.antt =====
-- Which events an action of the fake backend writes: `Writes`, with the lines given as events that
-- are stamped in order, and the new state given as a call window.
use mcpfz_probe.Base.{ℕ, suc, ◌+◌, ◌≡◌, refl, ap, String, Option}
use mcpfz_probe.Base.{
  append-nil, List, [], ◌∷◌, ◌++◌, arith, map, filter, length, Bool-cases, inl, inr,
}
use mcpfz_probe.Io.{Result, ok, Write}
use mcpfz_probe.Exec.{pure, gets, ◌>>=◌, ◌>>◌}
use mcpfz_probe.Json.{Json}
use mcpfz_probe.Fake.{FakeBackend, Action, emit, emit_all, set_active}
use mcpfz_probe.Fake.Writes.{Writes, Writes-bind}
use mcpfz_probe.Fake.Spec.{Event, Window, has_type, line, stamp}

module _ ⦃J : Json⦄ where
  -- The backend after events, with a new call window.
  abbrev pub after : FakeBackend → List Event → Window → FakeBackend
  after b es w = record b {
    active_call = w.call;
    active_tool = w.tool;
    reads = b.reads + length (filter has_type es);
  }

  abbrev pub window : FakeBackend → Window
  window b = record { call = b.active_call; tool = b.active_tool }

  pub stamp-append :
      (clock : ℕ → ℕ) (n : ℕ) (es fs : List Event)
      → stamp clock n (es ++ fs)
        ≡ stamp clock n es ++ stamp clock (n + length (filter has_type es)) fs
  stamp-append clock n [] fs = ap (λ k. stamp clock k fs) (omega arith)
  stamp-append clock n (e ∷ es) fs = elim (Bool-cases (has_type e)) [
    | inl typed ↦
        let k : ℕ = length (filter has_type es) in
        let e1 : n + suc k ≡ suc n + k = omega arith in
        rw (typed, e1) (ap (λ ls. line e (clock n) ∷ ls) (stamp-append clock (suc n) es fs))
    | inr bare ↦ rw bare (stamp-append clock n es fs)
  ]

  pub length-stamp :
      (clock : ℕ → ℕ) (n : ℕ) (es : List Event)
      → length (stamp clock n es) ≡ length (filter has_type es)
  length-stamp clock n [] = refl
  length-stamp clock n (e ∷ es) = elim (Bool-cases (has_type e)) [
    | inl typed ↦ rw typed (ap suc (length-stamp clock (suc n) es))
    | inr bare ↦ rw bare (length-stamp clock n es)
  ]

  length-filter-append :
      (es fs : List Event)
      → length (filter has_type (es ++ fs))
        ≡ length (filter has_type es) + length (filter has_type fs)
  length-filter-append [] fs = omega arith
  length-filter-append (e ∷ es) fs = ground (arith, length-filter-append es fs)

  after-after :
      (b : FakeBackend) (es fs : List Event) (w v : Window)
      → after (after b es w) fs v ≡ after b (es ++ fs) v
  after-after b es fs w v = ground (arith, length-filter-append es fs)

  module _ ⦃W : Write⦄ where
    pub record Emits {A : Type 0} (m : Action A) (b : FakeBackend) (es : List Event) (w : Window)
        (r : Result A W.Error) : Type 0 where
      pub writes : Writes m b (stamp b.clock b.reads es) (after b es w) r

    pub Emits-emit :
        (e : Event) (b : FakeBackend)
        → Emits (emit e.obj e.bucket e.call_id) b (e ∷ []) (window b) (ok tt)
    unfolding emit
    Emits-emit e b = record { writes = record { at = λ w. ground arith } }

    pub Emits-pure : {A : Type 0} (a : A) (b : FakeBackend) → Emits (pure a) b [] (window b) (ok a)
    Emits-pure a b = record { writes = record { at = λ w. ground arith } }

    pub Emits-bind :
        {A B : Type 0} (m : Action A) (f : A → Action B) {b : FakeBackend} {es fs : List Event}
        {v w : Window} {a : A} {r : Result B W.Error}
        → Emits m b es v (ok a)
        → Emits (f a) (after b es v) fs w r
        → Emits (m >>= f) b (es ++ fs) w r
    Emits-bind m f {b} {es} {fs} {v} {w} {a} {r} hm hf = record {
      writes =
          rw (stamp-append b.clock b.reads es fs, ← after-after b es fs v w)
            (Writes-bind m f (stamp b.clock b.reads es) _ hm.writes hf.writes);
    }

    pub Emits-then :
        {B : Type 0} (m : Action (Unit {0})) (n : Action B) {b : FakeBackend} {es fs : List Event}
        {v w : Window} {r : Result B W.Error}
        → Emits m b es v (ok tt)
        → Emits n (after b es v) fs w r
        → Emits (m >> n) b (es ++ fs) w r
    Emits-then m n hm hn = Emits-bind m (λ _. n) hm hn

    pub Emits-then_pure :
        {B : Type 0} (m : Action (Unit {0})) (a : B) {b : FakeBackend} {es : List Event}
        {v : Window}
        → Emits m b es v (ok tt)
        → Emits (m >> pure a) b es v (ok a)
    Emits-then_pure m a {b} {es} {v} hm =
        let both : Emits (m >> pure a) b (es ++ []) v (ok a) =
          Emits-then m (pure a) hm (Emits-pure a (after b es v)) in
        rw append-nil at both

    pub Emits-gets :
        {A B : Type 0} (f : FakeBackend → A) (k : A → Action B) {b : FakeBackend} {es : List Event}
        {w : Window} {r : Result B W.Error}
        → Emits (k (f b)) b es w r
        → Emits (gets (λ s. f s.backend) >>= k) b es w r
    Emits-gets f k h = record { writes = record { at = h.writes.at } }

    pub Emits-set_active :
        (call tool : Option String) (b : FakeBackend)
        → Emits (set_active call tool) b [] (record { call = call; tool = tool }) (ok tt)
    Emits-set_active call tool b = record { writes = record { at = λ w. ground arith } }

    pub Emits-emit_all :
        (objs : List J.Map) (bucket : String) (call_id : Option String) (b : FakeBackend)
        → Emits
            (emit_all objs bucket call_id)
            b
            (map (λ o. record { obj = o; bucket = bucket; call_id = call_id }) objs)
            (window b)
            (ok tt)
    unfolding emit_all
    Emits-emit_all [] bucket call_id b = Emits-pure tt b
    Emits-emit_all (o ∷ objs) bucket call_id b =
        Emits-then _ _ (Emits-emit (record { obj = o; bucket = bucket; call_id = call_id }) b)
          (Emits-emit_all objs bucket call_id _)
