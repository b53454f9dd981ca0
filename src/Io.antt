-- ===== src/Io.antt =====
-- `std::io`: results, and the trait `Write` as an interface.
use mcpfz_probe.Base.{String, ◌≡◌, refl, ◌⊎◌, inl, inr}

-- Rust's `Result<A, E>`.
pub data Result {ℓ κ} (A : Type ℓ) (E : Type κ) : Type (ℓ ⊔ κ) where
  ok : A → Result A E
  err : E → Result A E

pub Result-cases {ℓ κ} :
    {A : Type ℓ} {E : Type κ} (r : Result A E) → ((a : A) × (r ≡ ok a)) ⊎ ((e : E) × (r ≡ err e))
Result-cases (ok a) = inl (a, refl)
Result-cases (err e) = inr (e, refl)

-- An `io::Write`: what it holds, and its two calls. A call that fails may have changed the state.
pub record Write : Type 1 where
  pub State : Type 0
  pub Error : Type 0
  pub writeln : String → State → Result (Unit {0}) Error × State
  pub flush : State → Result (Unit {0}) Error × State
