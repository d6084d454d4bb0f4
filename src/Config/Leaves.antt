-- ===== src/Config/Leaves.antt =====
-- What a specification reads: the values of a result, and the keys of errors.
use baseplate_py.Prelude.{
  ◌≡◌, refl, Option, none, some, List, [], ◌∷◌, ◌++◌, if◌then◌else◌, Result, ok, ◌>>=◌, Bytes,
  arith, inl, inr, Bool-cases, Result-cases, first_ok,
}
use baseplate_py.Metrics.{bytes_eq, bytes_eq→eq}
use baseplate_py.Config.{has_char}
use baseplate_py.Config.Spec.{
  Parser, callable, spec, dict_of, Entries, end, entry, Parsed, value, namespace, Fields, empty,
  field, RawConfig, raw_value, sub_key_path, root_of, called, parse, parse_entries, parse_config,
}

-- The callable that the specification has under a list of keys.
unfoldable mutual
  pub leaf_at : {X V : Type 0} → Parser X V → List Bytes → Option (Bytes → Result X V)
  leaf_at (callable f) [] = some f
  leaf_at (callable f) (k ∷ keys) = none
  leaf_at (spec entries) [] = none
  leaf_at (spec entries) (k ∷ keys) = leaf_in entries k keys
  leaf_at (dict_of p) keys = none

  pub leaf_in : {X V : Type 0} → Entries X V → Bytes → List Bytes → Option (Bytes → Result X V)
  leaf_in end k keys = none
  leaf_in (entry key p entries) k keys =
      if bytes_eq key k then leaf_at p keys else leaf_in entries k keys

-- The value that the result has under a list of keys.
unfoldable mutual
  pub value_at : {V : Type 0} → Parsed V → List Bytes → Option V
  value_at (value v) [] = some v
  value_at (value v) (k ∷ keys) = none
  value_at (namespace fields) [] = none
  value_at (namespace fields) (k ∷ keys) = value_in fields k keys

  pub value_in : {V : Type 0} → Fields V → Bytes → List Bytes → Option V
  value_in empty k keys = none
  value_in (field key parsed fields) k keys =
      if bytes_eq key k then value_at parsed keys else value_in fields k keys

-- The key of the raw configuration for a list of keys: they are joined by dots.
unfoldable pub full_path : Bytes → List Bytes → Bytes
full_path path [] = path
full_path [] (k ∷ keys) = full_path k keys
full_path (c ∷ path) (k ∷ keys) = full_path ((c ∷ path) ++ (46 ∷ k)) keys

full_path-sub_key_path :
    (path k : Bytes) (keys : List Bytes)
    → full_path path (k ∷ keys) ≡ full_path (sub_key_path path k) keys
unfolding full_path sub_key_path
full_path-sub_key_path [] k keys = refl
full_path-sub_key_path (c ∷ path) k keys = refl

-- What a leaf has read.
abbrev pub Read : {X V : Type 0} → (Bytes → Result X V) → Bytes → RawConfig → Option V → Type 0
Read {V} f key raw found = (v : V) × (f (raw_value key raw) ≡ ok v) × (found ≡ some v)

called-Read :
    {X V : Type 0} (f : Bytes → Result X V) (path : Bytes) (raw : RawConfig) (parsed : Parsed V)
    → called path (f (raw_value path raw)) ≡ ok parsed
    → Read f path raw (value_at parsed [])
unfolding value_at
called-Read {X} {V} f path raw parsed e = elim (Result-cases (f (raw_value path raw))) [
  | inl (v, r) ↦ let same : value v ≡ parsed = ground arith in (v, r, rw (← same) refl)
  | inr (x, r) ↦ absurd (ground arith)
]

-- the steps of a loop of `SpecParser.parse` that succeeds
pub parse_entries-steps :
    {X V : Type 0} (key : Bytes) (p : Parser X V) (entries : Entries X V) (path : Bytes)
    (raw : RawConfig) (fields : Fields V)
    → parse_entries (entry key p entries) path raw ≡ ok fields
    → (parsed : Parsed V) × (rest : Fields V) × (parse p (sub_key_path path key) raw ≡ ok parsed)
      × (parse_entries entries path raw ≡ ok rest)
      × (field key parsed rest ≡ fields)
unfolding parse
parse_entries-steps key p entries path raw fields e = elim (Bool-cases (has_char 46 key)) [
  | inl dotted ↦ absurd (ground arith)
  | inr undotted ↦
      let both : (parse p (sub_key_path path key) raw >>= λ parsed.
      parse_entries entries path raw >>= λ rest. ok (field key parsed rest))
          ≡ ok fields =
        ground arith in
      let (parsed, first, e') = first_ok (parse p (sub_key_path path key) raw) _ both in
      let (rest, others, made) = first_ok (parse_entries entries path raw) _ e' in
      (parsed, rest, first, others, cc)
]

mutual
  unfolding leaf_at value_at full_path parse raw_value sub_key_path root_of has_char

  parser-Read :
      {X V : Type 0} (p : Parser X V) (path : Bytes) (raw : RawConfig) (parsed : Parsed V)
      (keys : List Bytes) (f : Bytes → Result X V)
      → parse p path raw ≡ ok parsed
      → leaf_at p keys ≡ some f
      → Read f (full_path path keys) raw (value_at parsed keys)
  parser-Read (callable g) path raw parsed [] f e l =
      let same : g ≡ f = cc in called-Read f path raw parsed (rw (← same) e)
  parser-Read (callable g) path raw parsed (k ∷ keys) f e l = cc
  parser-Read (spec entries) path raw parsed [] f e l = cc
  parser-Read (spec entries) path raw parsed (k ∷ keys) f e l =
      let (fields, made, is_parsed) = first_ok (parse_entries entries path raw) _ e in
      let same : namespace fields ≡ parsed = cc in
      rw (← same) (entries-Read entries path raw fields k keys f made l)
  parser-Read (dict_of p) path raw parsed keys f e l = cc

  entries-Read :
      {X V : Type 0} (entries : Entries X V) (path : Bytes) (raw : RawConfig) (fields : Fields V)
      (k : Bytes) (keys : List Bytes) (f : Bytes → Result X V)
      → parse_entries entries path raw ≡ ok fields
      → leaf_in entries k keys ≡ some f
      → Read f (full_path path (k ∷ keys)) raw (value_in fields k keys)
  entries-Read end path raw fields k keys f e l = cc
  entries-Read (entry key p entries) path raw fields k keys f e l =
      let (parsed, rest, first, others, made) =
        parse_entries-steps key p entries path raw fields e in
      elim (Bool-cases (bytes_eq key k)) [
        | inl same ↦
            let named = bytes_eq→eq key k same in
            let (v, was, there) =
              parser-Read p (sub_key_path path key) raw parsed keys f first (ground arith) in
            (v, rw (full_path-sub_key_path path k keys) (rw named at was), ground arith)
        | inr other ↦
            let (v, was, there) =
              entries-Read entries path raw rest k keys f others (ground arith) in
            (v, was, ground arith)
      ]

-- If a configuration is parsed, then each value of the result that stands under a list of keys
-- where the specification has a callable is what that callable gives for the value of the raw
-- configuration whose key joins the keys by dots, where an empty key at the start adds no dot, or for
-- the empty text if there is none.
pub parse_config-Read :
    {X V : Type 0} (p : Parser X V) (raw : RawConfig) (parsed : Parsed V) (keys : List Bytes)
    (f : Bytes → Result X V)
    → parse_config raw p ≡ ok parsed
    → leaf_at p keys ≡ some f
    → Read f (full_path [] keys) raw (value_at parsed keys)
unfolding parse_config
parse_config-Read p raw parsed keys f e l = parser-Read p [] raw parsed keys f e l
