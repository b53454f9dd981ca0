-- ===== src/Events/Layout.antt =====
-- Reading a field of a record in memory, and the value of its bytes.
use native.Mathlib.Nat.{pow-suc}
use mcpfz_probe.Base.{ℕ, zero, suc, ◌+◌, ◌*◌, ◌/◌, ◌^◌, ◌<◌, ◌≡◌, refl, ap, List, []}
use mcpfz_probe.Base.{◌∷◌, ◌++◌, arith, length, take, drop, append-nil}
use mcpfz_probe.Events.{le_bytes, le_value}

pub length-le_bytes : (k n : ℕ) → length (le_bytes k n) ≡ k
length-le_bytes zero n = refl
length-le_bytes (suc k) n = ap suc (length-le_bytes k (n / 256))

pub le_value-le_bytes : (k n : ℕ) → n < 256 ^ k → le_value (le_bytes k n) ≡ n
le_value-le_bytes zero n h = omega arith
le_value-le_bytes (suc k) n h =
    let e : 256 ^ suc k ≡ 256 ^ k * 256 = pow-suc 256 k in
    let small : n / 256 < 256 ^ k = omega arith in
    omega (arith, le_value-le_bytes k (n / 256) small)

pub drop-skip : (k n : ℕ) (xs ys : List ℕ) → length xs ≡ k → drop (k + n) (xs ++ ys) ≡ drop n ys
drop-skip zero n [] ys h = ap (λ m. drop m ys) (omega arith)
drop-skip zero n (x ∷ xs) ys h = absurd (omega arith)
drop-skip (suc k) n [] ys h = absurd (omega arith)
drop-skip (suc k) n (x ∷ xs) ys h =
    let e : suc k + n ≡ suc (k + n) = omega arith in rw e (drop-skip k n xs ys (omega arith))

pub take-append : (k : ℕ) (xs ys : List ℕ) → length xs ≡ k → take k (xs ++ ys) ≡ xs
take-append zero [] ys h = refl
take-append zero (x ∷ xs) ys h = absurd (omega arith)
take-append (suc k) [] ys h = absurd (omega arith)
take-append (suc k) (x ∷ xs) ys h = ap (λ l. x ∷ l) (take-append k xs ys (omega arith))

-- Two fields, one after the other, that make up the rest of a record.
module _ (n k : ℕ) (xs ys : List ℕ) (hx : length xs ≡ n) (hy : length ys ≡ k) where
  pub take_first : take n (xs ++ ys) ≡ xs
  take_first = take-append n xs ys hx

  pub take_second : take k (drop n (xs ++ ys)) ≡ ys
  take_second =
      let skipped : drop (n + 0) (xs ++ ys) ≡ ys = drop-skip n 0 xs ys hx in
      let e : n + 0 ≡ n = omega arith in
      rw (rw e at skipped) (rw append-nil at (take-append k ys [] hy))

pub le_value_4 : (n : ℕ) → n < 2 ^ 32 → le_value (le_bytes 4 n) ≡ n
le_value_4 n h = le_value-le_bytes 4 n h

pub le_value_2 : (n : ℕ) → n < 2 ^ 16 → le_value (le_bytes 2 n) ≡ n
le_value_2 n h = le_value-le_bytes 2 n h

pub le_value_8 : (n : ℕ) → n < 2 ^ 64 → le_value (le_bytes 8 n) ≡ n
le_value_8 n h = le_value-le_bytes 8 n h

pub take_all : (k : ℕ) (xs : List ℕ) → length xs ≡ k → take k xs ≡ xs
take_all k xs h = rw append-nil at (take-append k xs [] h)
