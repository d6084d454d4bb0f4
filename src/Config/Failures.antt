-- ===== src/Config/Failures.antt =====
-- baseplate/lib/config.py: the keys that a specification reads, and the errors about them.
use baseplate_py.Prelude.{
  ◌≡◌, refl, List, [], ◌∷◌, ◌++◌, Result, ok, err, ◌>>=◌, Bytes, arith, inl, inr, ◌⊎◌, Bool-cases,
  Option-cases,
}
use baseplate_py.Config.{has_char}
use baseplate_py.Config.Spec.{
  Parser, callable, spec, dict_of, Entries, end, entry, Parsed, field, ConfigError,
  configuration_error, RawConfig, raw_value, sub_key_path, root_of, subkey_of, is_seen, called,
  parse_groups, parse, parse_entries,
}
use baseplate_py.Config.Subkeys.{IsSubkey, subkey_of_found}

-- The specification has a callable for a key, and a DictOf on the way to it for each of its
-- subkeys that the raw configuration has.
unfoldable mutual
  unfolding IsSubkey

  pub Reads :
      {X V : Type 0} → Parser X V → Bytes → RawConfig → Bytes → (Bytes → Result X V) → Type 0
  Reads (callable f) path raw key g = (path ≡ key) × (f ≡ g)
  Reads (spec entries) path raw key g = ReadsIn entries path raw key g
  Reads (dict_of p) path raw key g =
      (subkey : Bytes) × IsSubkey (root_of path) raw subkey
      × Reads p (root_of path ++ subkey) raw key g

  pub ReadsIn :
      {X V : Type 0} → Entries X V → Bytes → RawConfig → Bytes → (Bytes → Result X V) → Type 0
  ReadsIn end path raw key g = ⊥
  ReadsIn (entry k p entries) path raw key g =
      Reads p (sub_key_path path k) raw key g ⊎ ReadsIn entries path raw key g

-- A result with an error, of a chain, has it from one of the two.
err_steps :
    {E A B : Type 0} (first : Result E A) (rest : A → Result E B) {e : E}
    → (first >>= rest) ≡ err e
    → (first ≡ err e) ⊎ ((a : A) × (first ≡ ok a) × (rest a ≡ err e))
err_steps (err x) rest p = inl cc
err_steps (ok a) rest p = inr (a, refl, p)

-- A failing loop of DictOf has failed at a subkey.
parse_groups_error :
    {X V : Type 0} (subparser : Bytes → Result (ConfigError X) (Parsed V)) (root : Bytes)
    (seen : List Bytes) (raw : RawConfig) (x : ConfigError X)
    → parse_groups subparser root seen raw ≡ err x
    → (subkey : Bytes) × IsSubkey root raw subkey × (subparser (root ++ subkey) ≡ err x)
unfolding parse_groups IsSubkey
parse_groups_error subparser root seen [] x e = cc
parse_groups_error subparser root seen ((key, v) ∷ raw) x e =
    elim (Option-cases (subkey_of root key)) [
      | inl none_here ↦
          let (s, there, wrong) = parse_groups_error subparser root seen raw x (ground arith) in
          (s, inr there, wrong)
      | inr (subkey, is) ↦ elim (Bool-cases (is_seen subkey seen)) [
        | inl old ↦
            let (s, there, wrong) = parse_groups_error subparser root seen raw x (ground arith) in
            (s, inr there, wrong)
        | inr new ↦
            let both : (subparser (root ++ subkey) >>= λ parsed.
            parse_groups subparser root (subkey ∷ seen) raw >>= λ rest.
            ok (field subkey parsed rest))
                ≡ err x =
              ground arith in
            elim (err_steps (subparser (root ++ subkey)) _ both) [
              | inl here ↦ (subkey, inl (subkey_of_found root key subkey is), here)
              | inr (parsed, _, e') ↦
                  elim (err_steps (parse_groups subparser root (subkey ∷ seen) raw) _ e') [
                    | inl later ↦
                        let (s, there, wrong) =
                          parse_groups_error subparser root (subkey ∷ seen) raw x later in
                        (s, inr there, wrong)
                    | inr (rest, _, never) ↦ absurd (ground arith)
                  ]
            ]
      ]
    ]

-- the steps of a loop of `SpecParser.parse` that fails with a ConfigurationError
parse_entries_failure :
    {X V : Type 0} (k : Bytes) (p : Parser X V) (entries : Entries X V) (path : Bytes)
    (raw : RawConfig) (key : Bytes) (x : X)
    → parse_entries (entry k p entries) path raw ≡ err (configuration_error key x)
    → (parse p (sub_key_path path k) raw ≡ err (configuration_error key x))
      ⊎ (parse_entries entries path raw ≡ err (configuration_error key x))
unfolding parse
parse_entries_failure k p entries path raw key x e = elim (Bool-cases (has_char 46 k)) [
  | inl dotted ↦ absurd (ground arith)
  | inr undotted ↦
      let both : (parse p (sub_key_path path k) raw >>= λ parsed.
      parse_entries entries path raw >>= λ rest. ok (field k parsed rest))
          ≡ err (configuration_error key x) =
        ground arith in
      elim (err_steps (parse p (sub_key_path path k) raw) _ both) [
        | inl here ↦ inl here
        | inr (parsed, _, e') ↦ elim (err_steps (parse_entries entries path raw) _ e') [
          | inl later ↦ inr later
          | inr (rest, _, never) ↦ absurd (ground arith)
        ]
      ]
]

-- What has failed, if something was read that failed.
abbrev pub Failed : {X V : Type 0} → Parser X V → Bytes → RawConfig → Bytes → X → Type 0
Failed {X} {V} p path raw key x =
    (f : Bytes → Result X V) × Reads p path raw key f × (f (raw_value key raw) ≡ err x)

-- A callable's exception is wrapped with the key it was called for.
called_failure :
    {X V : Type 0} (path : Bytes) (r : Result X V) (key : Bytes) (x : X)
    → called path r ≡ err (configuration_error key x)
    → (path ≡ key) × (r ≡ err x)
called_failure path (ok v) key x e = cc
called_failure path (err y) key x e = (cc, cc)

mutual
  unfolding parse Reads

  parser-Failed :
      {X V : Type 0} (p : Parser X V) (path : Bytes) (raw : RawConfig) (key : Bytes) (x : X)
      → parse p path raw ≡ err (configuration_error key x)
      → Failed p path raw key x
  parser-Failed (callable f) path raw key x e =
      let (same, raised) = called_failure path (f (raw_value path raw)) key x e in
      (f, (same, refl), rw (← same) raised)
  parser-Failed (spec entries) path raw key x e =
      elim (err_steps (parse_entries entries path raw) _ e) [
        | inl failed ↦ entries_failure entries path raw key x failed
        | inr (fields, _, never) ↦ absurd (ground arith)
      ]
  parser-Failed (dict_of p) path raw key x e =
      elim (err_steps (parse_groups (λ full. parse p full raw) (root_of path) [] raw) _ e) [
        | inl failed ↦
            let (subkey, is, wrong) =
              parse_groups_error (λ full. parse p full raw) (root_of path) [] raw
                (configuration_error key x) failed in
            let (f, reads, raised) = parser-Failed p (root_of path ++ subkey) raw key x wrong in
            (f, (subkey, is, reads), raised)
        | inr (fields, _, never) ↦ absurd (ground arith)
      ]

  entries_failure :
      {X V : Type 0} (entries : Entries X V) (path : Bytes) (raw : RawConfig) (key : Bytes) (x : X)
      → parse_entries entries path raw ≡ err (configuration_error key x)
      → (f : Bytes → Result X V) × ReadsIn entries path raw key f × (f (raw_value key raw) ≡ err x)
  entries_failure end path raw key x e = cc
  entries_failure (entry k p entries) path raw key x e =
      elim (parse_entries_failure k p entries path raw key x e) [
        | inl here ↦
            let (f, reads, raised) = parser-Failed p (sub_key_path path k) raw key x here in
            (f, inl reads, raised)
        | inr later ↦
            let (f, reads, raised) = entries_failure entries path raw key x later in
            (f, inr reads, raised)
      ]
