-- ===== src/Tests/Samples.antt =====
-- A JSON library, writers and a reader of control lines, to run the model with.
use mcpfz_probe.Base.{ℕ, suc, String, ◌<>◌, ◌≡◌, refl, Option, none, some, List, [], ◌∷◌, ◌++◌}
use mcpfz_probe.Base.{arith, str_eq, eq_iff, is_some, ltb, length, if◌then◌else◌}
use mcpfz_probe.Base.Int.{ℤ, pos, negsuc}
use mcpfz_probe.Base.Digits.{print}
use mcpfz_probe.Io.{ok, err, Write}
use mcpfz_probe.Json.{Json, IsLawful, or_value}
use mcpfz_probe.Script.{ScriptEntry}

mutual
  pub data Value : Type 0 where
    null : Value
    text : String → Value
    number : String → Value
    array : Values → Value
    object : Fields → Value

  pub data Values : Type 0 where
    none_left : Values
    item : Value → Values → Values

  pub data Fields : Type 0 where
    end : Fields
    field : String → Value → Fields → Fields

unfoldable pub get : Fields → String → Option Value
get end k = none
get (field j v m) k = if str_eq j k then some v else get m k

unfoldable pub insert : Fields → String → Value → Fields
insert end k v = field k v end
insert (field j w m) k v = if str_eq j k then field k v m else field j w (insert m k v)

pub get-insert :
    (m : Fields) (k j : String) (v : Value)
    → get (insert m k v) j ≡ (if str_eq k j then some v else get m j)
unfolding get insert
get-insert end k j v = refl
get-insert (field i w m) k j v =
    ground (arith, eq_iff i k, eq_iff i j, eq_iff k j, get-insert m k j v)

pub get-insert_value :
    (m : Fields) (k j : String) (v : Value)
    → get (insert m k (or_value (get m k) v)) j
      ≡ (if str_eq k j then some (or_value (get m k) v) else get m j)
get-insert_value m k j v = get-insert m k j (or_value (get m k) v)

abbrev items : List String → Values
items [] = none_left
items (x ∷ l) = item (text x) (items l)

abbrev pub texts : List String → Value
texts l = array (items l)

abbrev quoted : String → String
quoted s = "\"" <> s <> "\""

abbrev integer : ℤ → String
integer (pos n) = print 10 n
integer (negsuc n) = "-" <> print 10 (suc n)

unfoldable mutual
  pub show : Value → String
  show null = "null"
  show (text s) = quoted s
  show (number s) = s
  show (array l) = "[" <> show_items l <> "]"
  show (object m) = "{" <> show_fields m <> "}"

  pub show_fields : Fields → String
  show_fields end = ""
  show_fields (field k v end) = quoted k <> ":" <> show v
  show_fields (field k v (field j w m)) =
      quoted k <> ":" <> show v <> "," <> show_fields (field j w m)

  show_items : Values → String
  show_items none_left = ""
  show_items (item v none_left) = show v
  show_items (item v (item w l)) = show v <> "," <> show_items (item w l)

instance abbrev pub sample_json : Json
sample_json = record {
  Value = Value;
  Map = Fields;
  null = null;
  string = text;
  unsigned = λ n. number (print 10 n);
  signed = λ x. number (integer x);
  strings = texts;
  object = object;
  new = end;
  insert = insert;
  or_insert = λ m k v. insert m k (or_value (get m k) v);
  contains_key = λ m k. is_some (get m k);
  get = get;
  render = show;
}

pub sample_json-IsLawful : IsLawful
unfolding get
sample_json-IsLawful = record {
  get-new = λ k. refl;
  get-insert = get-insert;
  get-or_insert = get-insert_value;
  contains_key-get = λ m k. refl;
}

-- A `Vec<u8>` as the list of its lines: every write succeeds.
instance abbrev pub vec_writer : Write
vec_writer = record {
  State = List String;
  Error = String;
  writeln = λ l out. (ok tt, out ++ (l ∷ []));
  flush = λ out. (ok tt, out);
}

-- A writer that takes so many lines and then fails.
abbrev pub full_after : ℕ → Write
full_after room = record {
  State = List String;
  Error = String;
  writeln = λ l out. if ltb (length out) room then (ok tt, out ++ (l ∷ [])) else (err "full", out);
  flush = λ out. (ok tt, out);
}

abbrev pub connect_event : Fields
connect_event = field "type" (text "connect") (field "dst" (text "203.0.113.7:443") end)

abbrev pub at_end : ScriptEntry
at_end = record { trigger = "end"; tool = some "t"; event = connect_event }
