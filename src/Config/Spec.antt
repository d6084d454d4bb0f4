-- ===== src/Config/Spec.antt =====
-- baseplate/lib/config.py: Parser.from_spec and the parsers of keys. The callables of a
-- specification are arbitrary functions, with exceptions `X` and values `V`.
use baseplate_py.Prelude.{
  Bool, true, false, ◌||◌, Option, none, some, List, [], ◌∷◌, ◌++◌, ◌==◌, if◌then◌else◌, Result, ok,
  err, ◌>>=◌, Bytes,
}
use baseplate_py.Metrics.{bytes_eq}
use baseplate_py.Config.{has_char}

mutual
  -- CallableParser, SpecParser and DictOf
  pub data Parser (X V : Type 0) : Type 0 where
    callable : (Bytes → Result X V) → Parser X V
    spec : Entries X V → Parser X V
    dict_of : Parser X V → Parser X V

  pub data Entries (X V : Type 0) : Type 0 where
    end : Entries X V
    entry : Bytes → Parser X V → Entries X V → Entries X V

mutual
  pub data Parsed (V : Type 0) : Type 0 where
    value : V → Parsed V
    namespace : Fields V → Parsed V

  pub data Fields (V : Type 0) : Type 0 where
    empty : Fields V
    field : Bytes → Parsed V → Fields V → Fields V

-- the AssertionError is for a key with a dot in the specification
pub data ConfigError (X : Type 0) : Type 0 where
  configuration_error : Bytes → X → ConfigError X
  assertion_error : Bytes → ConfigError X

abbrev pub RawConfig : Type 0
RawConfig = List (Bytes × Bytes)

-- `raw_config.get(key_path, "")`
unfoldable pub raw_value : Bytes → RawConfig → Bytes
raw_value key [] = []
raw_value key ((k, v) ∷ raw) = if bytes_eq k key then v else raw_value key raw

-- `f"{key_path}.{key}"`, or the key alone
unfoldable pub sub_key_path : Bytes → Bytes → Bytes
sub_key_path [] key = key
sub_key_path (c ∷ path) key = (c ∷ path) ++ (46 ∷ key)

-- the root of DictOf
unfoldable pub root_of : Bytes → Bytes
root_of [] = []
root_of (c ∷ path) = (c ∷ path) ++ (46 ∷ [])

-- `[^.]+` at the start of a text; none where it does not match
unfoldable pub until_dot : Bytes → Bytes
until_dot [] = []
until_dot (c ∷ text) = let rest = until_dot text in if c == 46 then [] else c ∷ rest

abbrev pub nonempty : Bytes → Option Bytes
nonempty [] = none
nonempty (c ∷ text) = some (c ∷ text)

-- `matcher.search(key)`, for a root whose only special characters are dots
unfoldable pub subkey_of : Bytes → Bytes → Option Bytes
unfolding until_dot
subkey_of [] key = nonempty (until_dot key)
subkey_of (c ∷ root) [] = none
subkey_of (c ∷ root) (d ∷ key) = if c == d then subkey_of root key else none

unfoldable pub is_seen : Bytes → List Bytes → Bool
is_seen k [] = false
is_seen k (j ∷ seen) = bytes_eq j k || is_seen k seen

module _ {X V : Type 0} where
  abbrev pub called : Bytes → Result X V → Result (ConfigError X) (Parsed V)
  called path (ok v) = ok (value v)
  called path (err e) = err (configuration_error path e)

  -- the loop of `DictOf.parse` over the keys, with the parser of what is below a subkey
  unfoldable pub parse_groups :
      (Bytes → Result (ConfigError X) (Parsed V))
      → Bytes
      → List Bytes
      → RawConfig
      → Result (ConfigError X) (Fields V)
  unfolding subkey_of is_seen
  parse_groups subparser root seen [] = ok empty
  parse_groups subparser root seen ((key, _) ∷ raw) = elim (subkey_of root key) [
    | none ↦ parse_groups subparser root seen raw
    | some subkey ↦ elim (is_seen subkey seen) [
      | true ↦ parse_groups subparser root seen raw
      | false ↦ subparser (root ++ subkey) >>= λ parsed.
          parse_groups subparser root (subkey ∷ seen) raw >>= λ rest. ok (field subkey parsed rest)
    ]
  ]

unfoldable mutual
  unfolding raw_value sub_key_path root_of has_char

  -- `parse`, of each class
  pub parse : {X V : Type 0} → Parser X V → Bytes → RawConfig → Result (ConfigError X) (Parsed V)
  parse (callable f) path raw = called path (f (raw_value path raw))
  parse (spec entries) path raw = parse_entries entries path raw >>= λ fields. ok (namespace fields)
  parse (dict_of subparser) path raw =
      parse_groups (λ full_path. parse subparser full_path raw) (root_of path) [] raw >>= λ fields.
      ok (namespace fields)

  -- the loop of `SpecParser.parse`
  pub parse_entries :
      {X V : Type 0} → Entries X V → Bytes → RawConfig → Result (ConfigError X) (Fields V)
  parse_entries end path raw = ok empty
  parse_entries (entry key parser entries) path raw =
      if has_char 46 key
      then err (assertion_error key)
      else (parse parser (sub_key_path path key) raw >>= λ parsed.
          parse_entries entries path raw >>= λ rest. ok (field key parsed rest))

-- `parse_config`
unfoldable pub parse_config :
    {X V : Type 0} → RawConfig → Parser X V → Result (ConfigError X) (Parsed V)
parse_config raw parser = parse parser [] raw
