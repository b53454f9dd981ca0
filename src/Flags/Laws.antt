-- ===== src/Flags/Laws.antt =====
-- What a substring test on the text of the flags finds, as the policy engine makes it.
use text.Mathlib.Text.{find?}
use mcpfz_probe.Base.{
  ℕ, zero, suc, ◌%◌, ◌≡◌, refl, Bool, true, false, not, ◌&&◌, String, List, [], ◌∷◌,
}
use mcpfz_probe.Base.{arith, ◌==◌, is_some, if◌then◌else◌}
use mcpfz_probe.Flags.{access_name, has_bit, join, flags_to_string}

-- `name in text` of Python.
abbrev pub contains : String → String → Bool
contains text name = is_some (find? text name)

abbrev names : Bool → Bool → Bool → Bool → List String
names creat excl trunc append =
    let l3 : List String = if append then "O_APPEND" ∷ [] else [] in
    let l2 : List String = if trunc then "O_TRUNC" ∷ l3 else l3 in
    let l1 : List String = if excl then "O_EXCL" ∷ l2 else l2 in
    if creat then "O_CREAT" ∷ l1 else l1

abbrev text_of : String → Bool → Bool → Bool → Bool → String
text_of access creat excl trunc append = join "|" (access ∷ names creat excl trunc append)

-- The answers of the tests, for a text with an access mode and four bits.
abbrev pub Answers : String → Bool → Bool → Bool → Bool → Bool → Bool → Type 0
Answers text wronly rdwr creat excl trunc append =
    (contains text "O_WRONLY" ≡ wronly)
    × (contains text "O_RDWR" ≡ rdwr)
    × (contains text "O_CREAT" ≡ creat)
    × (contains text "O_EXCL" ≡ excl)
    × (contains text "O_TRUNC" ≡ trunc)
    × (contains text "O_APPEND" ≡ append)

abbrev both : (Bool → Bool) → Bool
both q = q true && q false

both_sound : (q : Bool → Bool) → both q ≡ true → (b : Bool) → q b ≡ true
both_sound q h true = ground arith
both_sound q h false = ground arith

-- A test of four bits, for all values of them.
module _ (p : Bool → Bool → Bool → Bool → Bool) where
  abbrev all_bits : Bool
  all_bits = both (λ c. both (λ e. both (λ t. both (p c e t))))

  all_bits_sound : all_bits ≡ true → (c e t a : Bool) → p c e t a ≡ true
  all_bits_sound h c e t a =
      let h1 = both_sound (λ c. both (λ e. both (λ t. both (p c e t)))) h c in
      let h2 = both_sound (λ e. both (λ t. both (p c e t))) h1 e in
      both_sound (p c e t) (both_sound (λ t. both (p c e t)) h2 t) a

abbrev same : Bool → Bool → Bool
same true b = b
same false b = not b

abbrev tests : String → Bool → Bool → Bool → Bool → Bool → Bool → Bool
tests text wronly rdwr creat excl trunc append =
    same (contains text "O_WRONLY") wronly
    && (same (contains text "O_RDWR") rdwr
        && (same (contains text "O_CREAT") creat
            && (same (contains text "O_EXCL") excl
                && (same (contains text "O_TRUNC") trunc
                    && same (contains text "O_APPEND") append))))

same_eq : (x y : Bool) → same x y ≡ true → x ≡ y
same_eq true y h = cc
same_eq false true h = cc
same_eq false false h = refl

and_left : (x y : Bool) → (x && y) ≡ true → x ≡ true
and_left x y h = ground arith

and_right : (x y : Bool) → (x && y) ≡ true → y ≡ true
and_right x y h = ground arith

tests-Answers :
    (text : String) (w r c e t a : Bool) → tests text w r c e t a ≡ true → Answers text w r c e t a
tests-Answers text w r c e t a h =
    let h1 = and_right _ _ h in
    let h2 = and_right _ _ h1 in
    let h3 = and_right _ _ h2 in
    let h4 = and_right _ _ h3 in
    (
      same_eq _ _ (and_left _ _ h),
      same_eq _ _ (and_left _ _ h1),
      same_eq _ _ (and_left _ _ h2),
      same_eq _ _ (and_left _ _ h3),
      same_eq _ _ (and_left _ _ h4),
      same_eq _ _ (and_right _ _ h4),
    )

read_table : (c e t a : Bool) → Answers (text_of "O_RDONLY" c e t a) false false c e t a
read_table c e t a = tests-Answers _ _ _ c e t a (
    all_bits_sound (λ c e t a. tests (text_of "O_RDONLY" c e t a) false false c e t a) refl c e t a)

write_table : (c e t a : Bool) → Answers (text_of "O_WRONLY" c e t a) true false c e t a
write_table c e t a =
    tests-Answers _ _ _ c e t a (
      all_bits_sound (λ c e t a. tests (text_of "O_WRONLY" c e t a) true false c e t a) refl c e t
        a)

both_table : (c e t a : Bool) → Answers (text_of "O_RDWR" c e t a) false true c e t a
both_table c e t a =
    tests-Answers _ _ _ c e t a
      (all_bits_sound (λ c e t a. tests (text_of "O_RDWR" c e t a) false true c e t a) refl c e t a)

access_table :
    (n : ℕ) (c e t a : Bool) → Answers (text_of (access_name n) c e t a) (n == 1) (n == 2) c e t a
access_table zero c e t a = read_table c e t a
access_table (suc zero) c e t a = write_table c e t a
access_table (suc (suc zero)) c e t a = both_table c e t a
access_table (suc (suc (suc n))) c e t a =
    let not_one : (suc (suc (suc n)) == 1) ≡ false = ground arith in
    let not_two : (suc (suc (suc n)) == 2) ≡ false = ground arith in
    rw (not_one, not_two) (read_table c e t a)

-- For every flags word, a name is found in the text exactly when the flag is set: the access modes by
-- the low two bits, the others by their bits.
pub flags_to_string-Answers :
    (flags : ℕ)
    → Answers
        (flags_to_string flags)
        (flags % 4 == 1)
        (flags % 4 == 2)
        (has_bit flags 0o100)
        (has_bit flags 0o200)
        (has_bit flags 0o1000)
        (has_bit flags 0o2000)
unfolding flags_to_string
flags_to_string-Answers flags = access_table (flags % 4) _ _ _ _
