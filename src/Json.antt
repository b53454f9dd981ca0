-- ===== src/Json.antt =====
-- The part of `serde_json` that the sidecar calls, as an interface: `Value`, `Map` and their
-- operations, with the documented behaviour of `Map` as laws.
use mcpfz_probe.Base.{ℕ, String, ◌≡◌, Bool, Option, none, some, List, str_eq, is_some}
use mcpfz_probe.Base.{if◌then◌else◌}
use mcpfz_probe.Base.Int.{ℤ}

pub record Json : Type 1 where
  pub Value : Type 0
  pub Map : Type 0
  pub null : Value
  pub string : String → Value
  pub unsigned : ℕ → Value
  pub signed : ℤ → Value
  pub strings : List String → Value
  pub object : Map → Value
  -- `Map::new`, `insert`, `entry(k).or_insert_with(|| v)`, `contains_key` and `get`
  pub new : Map
  pub insert : Map → String → Value → Map
  pub or_insert : Map → String → Value → Map
  pub contains_key : Map → String → Bool
  pub get : Map → String → Option Value
  -- `Display`, one line of text
  pub render : Value → String

abbrev pub or_value : {A : Type 0} → Option A → A → A
or_value none v = v
or_value (some w) v = w

pub record IsLawful ⦃J : Json⦄ : Type 0 where
  pub get-new : (k : String) → J.get J.new k ≡ none
  pub get-insert :
      (m : J.Map) (k j : String) (v : J.Value)
      → J.get (J.insert m k v) j ≡ (if str_eq k j then some v else J.get m j)
  pub get-or_insert :
      (m : J.Map) (k j : String) (v : J.Value)
      → J.get (J.or_insert m k v) j
        ≡ (if str_eq k j then some (or_value (J.get m k) v) else J.get m j)
  pub contains_key-get : (m : J.Map) (k : String) → J.contains_key m k ≡ is_some (J.get m k)
