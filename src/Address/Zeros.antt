-- ===== src/Address/Zeros.antt =====
-- The run of zeros that an IPv6 text leaves out.
use mcpfz_probe.Base.{
  ℕ, zero, suc, ◌+◌, ◌≡◌, ◌≢◌, refl, sym, ap, ◌∙◌, List, [], ◌∷◌, ◌++◌, length, length-append,
  append_assoc, take, drop, arith, ltb, ◌==◌, inl, inr, Bool-cases, ==_iff,
}
use mcpfz_probe.Address.{Span, longest_zeros, empty_span, grown}
use mcpfz_probe.Address.Reader.{zeros}

zeros-snoc : (n : ℕ) (rest : List ℕ) → zeros n ++ (0 ∷ rest) ≡ zeros (n + 1) ++ rest
zeros-snoc zero rest = refl
zeros-snoc (suc n) rest =
    let e : suc (n + 1) ≡ suc n + 1 = omega arith in
    ap (λ l. 0 ∷ l) (zeros-snoc n rest) ∙ ap (λ m. zeros m ++ rest) e

pub length-zeros : (n : ℕ) → length (zeros n) ≡ n
length-zeros zero = refl
length-zeros (suc n) = ap suc (length-zeros n)

-- The segments with the zeros of a run between two parts.
pub record Parts (s : List ℕ) (run : Span) : Type 0 where
  pub front : List ℕ
  pub back : List ℕ
  pub start : length front ≡ run.start
  pub whole : front ++ (zeros run.len ++ back) ≡ s

-- The run that ends where the segments are read.
record Running (s : List ℕ) (i : ℕ) (run : Span) (rest : List ℕ) : Type 0 where
  front : List ℕ
  count : length front + run.len ≡ i
  start : run.len ≢ 0 → length front ≡ run.start
  whole : front ++ (zeros run.len ++ rest) ≡ s

Running-grown :
    (s : List ℕ) (i : ℕ) (run : Span) (rest : List ℕ)
    → Running s i run (0 ∷ rest)
    → Running s (i + 1) (grown run i) rest
Running-grown s i run rest r = record {
  front = r.front;
  count = omega (arith, r.count);
  start = λ h. elim (Bool-cases (run.len == 0)) [
    | inl none_yet ↦
        let e : run.len ≡ 0 = (==_iff _ _).0 none_yet in rw none_yet (omega (arith, r.count, e))
    | inr some_yet ↦ rw some_yet (r.start (λ e. absurd (ground (arith, some_yet, e))))
  ];
  whole = ap (λ l. r.front ++ l) (sym (zeros-snoc run.len rest)) ∙ r.whole;
}

Running-Parts :
    (s : List ℕ) (i : ℕ) (run : Span) (rest : List ℕ)
    → Running s (i + 1) (grown run i) rest
    → Parts s (grown run i)
Running-Parts s i run rest r = record {
  front = r.front;
  back = rest;
  start = r.start (λ e. absurd (omega (arith, e)));
  whole = r.whole;
}

Running-empty :
    (s : List ℕ) (i n : ℕ) (run : Span) (rest : List ℕ)
    → Running s i run (n ∷ rest)
    → Running s (i + 1) empty_span rest
Running-empty s i n run rest r = record {
  front = r.front ++ (zeros run.len ++ (n ∷ []));
  count = omega (
    arith,
    r.count,
    length-append r.front (zeros run.len ++ (n ∷ [])),
    length-append (zeros run.len) (n ∷ []),
    length-zeros run.len,
  );
  start = λ h. absurd (h refl);
  whole =
      append_assoc r.front (zeros run.len ++ (n ∷ [])) rest
      ∙ ap (λ l. r.front ++ l) (append_assoc (zeros run.len) (n ∷ []) rest)
      ∙ r.whole;
}

longest_zeros-Parts :
    (s : List ℕ) (i : ℕ) (longest run : Span) (rest : List ℕ)
    → Parts s longest
    → Running s i run rest
    → Parts s (longest_zeros i longest run rest)
unfolding longest_zeros
longest_zeros-Parts s i longest run [] p r = p
longest_zeros-Parts s i longest run (zero ∷ rest) p r =
    let r' = Running-grown s i run rest r in
    elim (Bool-cases (ltb longest.len (grown run i).len)) [
      | inl longer ↦ rw longer (
          longest_zeros-Parts s (i + 1) (grown run i) (grown run i) rest
            (Running-Parts s i run rest r') r')
      | inr shorter ↦ rw shorter (longest_zeros-Parts s (i + 1) longest (grown run i) rest p r')
    ]
longest_zeros-Parts s i longest run (suc n ∷ rest) p r =
    longest_zeros-Parts s (i + 1) longest empty_span rest p (Running-empty s i (suc n) run rest r)

-- The run that is left out is a run of zeros.
pub longest_zeros-Parts_of : (s : List ℕ) → Parts s (longest_zeros 0 empty_span empty_span s)
longest_zeros-Parts_of s =
    longest_zeros-Parts s 0 empty_span empty_span s
      (record { front = []; back = s; start = refl; whole = refl })
      (record { front = []; count = refl; start = λ h. absurd (h refl); whole = refl })

take-length : (xs ys : List ℕ) → take (length xs) (xs ++ ys) ≡ xs
take-length [] ys = refl
take-length (x ∷ xs) ys = ap (λ l. x ∷ l) (take-length xs ys)

drop-length : (xs ys : List ℕ) → drop (length xs) (xs ++ ys) ≡ ys
drop-length [] ys = refl
drop-length (x ∷ xs) ys = drop-length xs ys

pub take-Parts : (s : List ℕ) (run : Span) (p : Parts s run) → take run.start s ≡ p.front
take-Parts s run p =
    (λ i. take (sym p.start i) (sym p.whole i)) ∙ take-length p.front (zeros run.len ++ p.back)

pub drop-Parts : (s : List ℕ) (run : Span) (p : Parts s run) → drop (run.start + run.len) s ≡ p.back
drop-Parts s run p =
    let n : run.start + run.len ≡ length (p.front ++ zeros run.len) =
      omega (arith, p.start, length-append p.front (zeros run.len), length-zeros run.len) in
    (λ i. drop (n i) ((sym p.whole ∙ sym (append_assoc p.front (zeros run.len) p.back)) i))
    ∙ drop-length (p.front ++ zeros run.len) p.back
