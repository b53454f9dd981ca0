-- ===== src/Decode/Objects.antt =====
-- What the JSON object of a record says, with a lawful JSON library.
use mcpfz_probe.Base.{
  ℕ, ◌%◌, ◌^◌, ◌≡◌, refl, ap, ◌∙◌, false, String, Option, none, some, List, [], ◌∷◌, ◌++◌, ◌⊎◌, inl,
  inr,
}
use mcpfz_probe.Base.{◌==◌, str_eq, if◌then◌else◌}
use mcpfz_probe.Base.Digits.{print}
use mcpfz_probe.Base.Utf8.{as_bytes}
use mathlib.Core.Option
use mcpfz_probe.Base.{eq_refl}
use mcpfz_probe.Json.{Json, IsLawful}
use mcpfz_probe.Events.{ExecEvent, PathEvent, as_str}
use mcpfz_probe.Events.{exec_bytes, path_bytes, kind_exec, kind_file_open, kind_chmod, kind_unlink}
use mcpfz_probe.Events.Text.{NulFree, as_str-as_bytes}
use mcpfz_probe.Flags.{flags_to_string}
use mcpfz_probe.Decode.{decode, read_exec, read_path}
use mcpfz_probe.Decode.{exec_object, open_object, unlink_object, chmod_object}
use mcpfz_probe.Decode.Records.{ExecFits, PathFits, read_exec-exec_bytes, read_path-path_bytes}

-- The field holds a text and the NUL that ends it.
abbrev pub Holds : List ℕ → String → Type 0
Holds bytes s = NulFree (as_bytes s) × ((junk : List ℕ) × (bytes ≡ as_bytes s ++ (0 ∷ junk)))

pub as_str-Holds : (bytes : List ℕ) (s : String) → Holds bytes s → as_str bytes ≡ s
as_str-Holds bytes s (free, (junk, e)) = ap as_str e ∙ as_str-as_bytes s junk free

abbrev pub PathKind : ℕ → Type 0
PathKind kind = (kind ≡ kind_file_open) ⊎ ((kind ≡ kind_chmod) ⊎ (kind ≡ kind_unlink))

module _ ⦃J : Json⦄ where
  -- An object has the given values under the given names.
  pub data Says (m : J.Map) : List (String × J.Value) → Type 0 where
    nothing : Says m []
    also :
        {k : String} {v : J.Value} {rest : List (String × J.Value)}
        → J.get m k ≡ some v
        → Says m rest
        → Says m ((k, v) ∷ rest)

  abbrev pub Gives : Option J.Map → List (String × J.Value) → Type 0
  Gives none fields = ⊥
  Gives (some m) fields = Says m fields

  abbrev pub Fresh : String → List (String × J.Value) → Type 0
  Fresh k [] = Unit {0}
  Fresh k ((j, v) ∷ rest) = (str_eq k j ≡ false) × Fresh k rest

  -- What an object says of an event about a path, by the kind of the event.
  abbrev pub path_says : (kind arg : ℕ) → (path command : String) → List (String × J.Value)
  path_says kind arg path command =
      if kind == kind_file_open
      then ("comm", J.string command)
        ∷ ("flags", J.string (flags_to_string (arg % 2 ^ 32)))
        ∷ ("path", J.string path)
        ∷ ("type", J.string "file_open")
        ∷ []
      else if kind == kind_chmod
      then ("comm", J.string command)
        ∷ ("mode", J.string (print 8 (arg % 4096)))
        ∷ ("path", J.string path)
        ∷ ("type", J.string "chmod")
        ∷ []
      else ("comm", J.string command)
        ∷ ("path", J.string path)
        ∷ ("type", J.string "file_delete")
        ∷ []

  module _ ⦃L : IsLawful⦄ where
    Says-kept :
        {m : J.Map} (k : String) (v : J.Value) (fields : List (String × J.Value))
        → Fresh k fields
        → Says m fields
        → Says (J.insert m k v) fields
    Says-kept k v [] f nothing = nothing
    Says-kept k v ((j, w) ∷ rest) (f, fs) (also h hs) =
        also (rw (L.get-insert, f) h) (Says-kept k v rest fs hs)

    pub Says-insert :
        {m : J.Map} {k : String} {v : J.Value} {fields : List (String × J.Value)}
        → Fresh k fields
        → Says m fields
        → Says (J.insert m k v) ((k, v) ∷ fields)
    Says-insert {m} {k} {v} f h = also (rw (L.get-insert, eq_refl k) refl) (Says-kept k v _ f h)

    exec_object-Says :
        (e : ExecEvent)
        → Says (exec_object e) (
            ("argv", J.strings (as_str e.filename ∷ []))
            ∷ ("comm", J.string (as_str e.comm))
            ∷ ("type", J.string "exec")
            ∷ [])
    unfolding exec_object
    exec_object-Says e =
        Says-insert (refl, (refl, tt)) (Says-insert (refl, tt) (Says-insert tt nothing))

    open_object-Says :
        (e : PathEvent)
        → Says (open_object e) (
            ("comm", J.string (as_str e.comm))
            ∷ ("flags", J.string (flags_to_string (e.arg % 2 ^ 32)))
            ∷ ("path", J.string (as_str e.filename))
            ∷ ("type", J.string "file_open")
            ∷ [])
    unfolding open_object
    open_object-Says e =
        Says-insert (refl, (refl, (refl, tt)))
          (Says-insert (refl, (refl, tt)) (Says-insert (refl, tt) (Says-insert tt nothing)))

    chmod_object-Says :
        (e : PathEvent)
        → Says (chmod_object e) (
            ("comm", J.string (as_str e.comm))
            ∷ ("mode", J.string (print 8 (e.arg % 4096)))
            ∷ ("path", J.string (as_str e.filename))
            ∷ ("type", J.string "chmod")
            ∷ [])
    unfolding chmod_object
    chmod_object-Says e =
        Says-insert (refl, (refl, (refl, tt)))
          (Says-insert (refl, (refl, tt)) (Says-insert (refl, tt) (Says-insert tt nothing)))

    unlink_object-Says :
        (e : PathEvent)
        → Says (unlink_object e) (
            ("comm", J.string (as_str e.comm))
            ∷ ("path", J.string (as_str e.filename))
            ∷ ("type", J.string "file_delete")
            ∷ [])
    unfolding unlink_object
    unlink_object-Says e =
        Says-insert (refl, (refl, tt)) (Says-insert (refl, tt) (Says-insert tt nothing))

    decode_exec_lem :
        (bytes : List ℕ) → decode kind_exec bytes ≡ Option.map exec_object (read_exec bytes)
    unfolding decode
    decode_exec_lem bytes = refl

    pub decode_read_exec :
        (e : ExecEvent)
        → ExecFits e
        → e.kind ≡ kind_exec
        → Gives (decode e.kind (exec_bytes e)) (
            ("argv", J.strings (as_str e.filename ∷ []))
            ∷ ("comm", J.string (as_str e.comm))
            ∷ ("type", J.string "exec")
            ∷ [])
    decode_read_exec e fits k =
        rw (k, decode_exec_lem, ← k, read_exec-exec_bytes e fits) (exec_object-Says e)

    -- With a lawful JSON library: a written exec record of a program at a path, run by a command, is
    -- decoded to an object of type `exec` with that path as its argv and that command, where both
    -- texts end with a NUL inside their fields.
    pub decode-exec_bytes :
        (e : ExecEvent) (path command : String)
        → ExecFits e
        → e.kind ≡ kind_exec
        → Holds e.filename path
        → Holds e.comm command
        → Gives (decode e.kind (exec_bytes e)) (
            ("argv", J.strings (path ∷ []))
            ∷ ("comm", J.string command)
            ∷ ("type", J.string "exec")
            ∷ [])
    decode-exec_bytes e path command fits k at by =
        rw (as_str-Holds e.filename path at, as_str-Holds e.comm command by) at
          (decode_read_exec e fits k)

    open_lem :
        (bytes : List ℕ) → decode kind_file_open bytes ≡ Option.map open_object (read_path bytes)
    unfolding decode
    open_lem bytes = refl

    chmod_lem :
        (bytes : List ℕ) → decode kind_chmod bytes ≡ Option.map chmod_object (read_path bytes)
    unfolding decode
    chmod_lem bytes = refl

    unlink_lem :
        (bytes : List ℕ) → decode kind_unlink bytes ≡ Option.map unlink_object (read_path bytes)
    unfolding decode
    unlink_lem bytes = refl

    pub decode_read :
        (padding kind : ℕ) (e : PathEvent)
        → PathKind kind
        → PathFits e
        → Gives
            (decode kind (path_bytes padding e))
            (path_says kind e.arg (as_str e.filename) (as_str e.comm))
    decode_read padding kind e (inl k) fits =
        rw (k, open_lem, read_path-path_bytes padding e fits) (open_object-Says e)
    decode_read padding kind e (inr (inl k)) fits =
        rw (k, chmod_lem, read_path-path_bytes padding e fits) (chmod_object-Says e)
    decode_read padding kind e (inr (inr k)) fits =
        rw (k, unlink_lem, read_path-path_bytes padding e fits) (unlink_object-Says e)

    -- With a lawful JSON library: a written record of a file open, a chmod or a delete is decoded to
    -- an object of the type for its kind, with the path and the command of the record, and the open
    -- flags or the octal mode where the kind has them; both texts end with a NUL inside their fields.
    -- Padding does not matter.
    pub decode-path_bytes :
        (padding : ℕ) (e : PathEvent) (path command : String)
        → PathFits e
        → PathKind e.kind
        → Holds e.filename path
        → Holds e.comm command
        → Gives (decode e.kind (path_bytes padding e)) (path_says e.kind e.arg path command)
    decode-path_bytes padding e path command fits k at by =
        rw (as_str-Holds e.filename path at, as_str-Holds e.comm command by) at
          (decode_read padding e.kind e k fits)
