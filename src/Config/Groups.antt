-- ===== src/Config/Groups.antt =====
-- baseplate/lib/config.py: DictOf, and what a configuration that parses has read.
use baseplate_py.Prelude.{
  ◌≡◌, refl, Bool, true, false, Option, none, some, List, [], ◌∷◌, ◌++◌, if◌then◌else◌, Result, ok,
  ◌>>=◌, Bytes, arith, inl, inr, ◌⊎◌, Bool-cases, Option-cases, first_ok,
}
use baseplate_py.Metrics.{bytes_eq, bytes_eq_refl, bytes_eq→eq}
use baseplate_py.Config.Spec.{
  Parsed, Fields, empty, field, ConfigError, RawConfig, subkey_of, is_seen, parse_groups,
}
use baseplate_py.Config.Subkeys.{IsSubkey, subkey_of_found, subkey_of_finds}

unfoldable pub field_at : {V : Type 0} → Fields V → Bytes → Option (Parsed V)
field_at empty k = none
field_at (field key parsed fields) k = if bytes_eq key k then some parsed else field_at fields k

-- No two fields have the same key.
unfoldable pub AreDistinct : {V : Type 0} → Fields V → Type 0
unfolding field_at
AreDistinct empty = ◌≡◌ {A = Bool} true true
AreDistinct (field key parsed fields) = (field_at fields key ≡ none) × AreDistinct fields

module _ {X V : Type 0} (subparser : Bytes → Result (ConfigError X) (Parsed V)) (root : Bytes) where
  -- what the loop does at one key
  parse_groups-steps :
      (seen : List Bytes) (key v : Bytes) (raw : RawConfig) (fields : Fields V)
      → parse_groups subparser root seen ((key, v) ∷ raw) ≡ ok fields
      → ((subkey : Bytes) × (subkey_of root key ≡ some subkey)
          × (is_seen subkey seen ≡ false)
          × (parsed : Parsed V) × (rest : Fields V) × (subparser (root ++ subkey) ≡ ok parsed)
          × (parse_groups subparser root (subkey ∷ seen) raw ≡ ok rest)
          × (field subkey parsed rest ≡ fields))
        ⊎ ((parse_groups subparser root seen raw ≡ ok fields)
            × ((s : Bytes) → subkey_of root key ≡ some s → is_seen s seen ≡ true))
  unfolding parse_groups
  parse_groups-steps seen key v raw fields e = elim (Option-cases (subkey_of root key)) [
    | inl none_here ↦ inr (ground arith, λ s is. absurd (ground arith))
    | inr (subkey, is) ↦ elim (Bool-cases (is_seen subkey seen)) [
      | inl old ↦ inr (ground arith, λ s is'. ground arith)
      | inr new ↦
          let both : (subparser (root ++ subkey) >>= λ parsed.
          parse_groups subparser root (subkey ∷ seen) raw >>= λ rest. ok (field subkey parsed rest))
              ≡ ok fields =
            ground arith in
          let (parsed, first, e') = first_ok (subparser (root ++ subkey)) _ both in
          let (rest, others, made) =
            first_ok (parse_groups subparser root (subkey ∷ seen) raw) _ e' in
          inl (subkey, is, new, parsed, rest, first, others, cc)
    ]
  ]

  -- Each subkey that is not yet seen has a field with the value that is parsed below it.
  pub parse_groups_complete :
      (seen : List Bytes) (raw : RawConfig) (fields : Fields V) (s : Bytes)
      → parse_groups subparser root seen raw ≡ ok fields
      → IsSubkey root raw s
      → is_seen s seen ≡ false
      → (parsed : Parsed V) × (field_at fields s ≡ some parsed)
        × (subparser (root ++ s) ≡ ok parsed)
  unfolding IsSubkey field_at is_seen
  parse_groups_complete seen [] fields s e none_there new = elim none_there [ ]
  parse_groups_complete seen ((key, v) ∷ raw) fields s e (inl matches) new =
      let here = subkey_of_finds root key s matches in
      elim (parse_groups-steps seen key v raw fields e) [
        | inr (_, old) ↦ absurd (ground (arith, old s here))
        | inl (subkey, is, _, parsed, rest, first, others, made) ↦
            let same : subkey ≡ s = ground arith in
            (parsed, ground (arith, bytes_eq_refl s), rw (← same) first)
      ]
  parse_groups_complete seen ((key, v) ∷ raw) fields s e (inr there) new =
      elim (parse_groups-steps seen key v raw fields e) [
        | inr (others, _) ↦ parse_groups_complete seen raw fields s others there new
        | inl (subkey, is, _, parsed, rest, first, others, made) ↦
            elim (Bool-cases (bytes_eq subkey s)) [
              | inl same ↦ (parsed, ground arith, rw (← (bytes_eq→eq subkey s same)) first)
              | inr other ↦
                  let (p, found, was) =
                    parse_groups_complete (subkey ∷ seen) raw rest s others there (ground arith) in
                  (p, ground arith, was)
            ]
      ]

  -- A field is for a subkey that was not seen before.
  pub parse_groups_sound :
      (seen : List Bytes) (raw : RawConfig) (fields : Fields V) (s : Bytes) (parsed : Parsed V)
      → parse_groups subparser root seen raw ≡ ok fields
      → field_at fields s ≡ some parsed
      → IsSubkey root raw s × (is_seen s seen ≡ false)
  unfolding IsSubkey field_at is_seen parse_groups
  parse_groups_sound seen [] fields s parsed e there =
      let no_fields : empty ≡ fields = cc in absurd (ground arith)
  parse_groups_sound seen ((key, v) ∷ raw) fields s parsed e there =
      elim (parse_groups-steps seen key v raw fields e) [
        | inr (others, _) ↦
            let (is, new) = parse_groups_sound seen raw fields s parsed others there in
            (inr is, new)
        | inl (subkey, is, new, p, rest, first, others, made) ↦
            elim (Bool-cases (bytes_eq subkey s)) [
              | inl same ↦
                  let named = bytes_eq→eq subkey s same in
                  (inl (subkey_of_found root key s (ground arith)), rw (← named) new)
              | inr other ↦
                  let (is', new') =
                    parse_groups_sound (subkey ∷ seen) raw rest s parsed others (ground arith) in
                  (inr is', ground arith)
            ]
      ]

  pub parse_groups-AreDistinct :
      (seen : List Bytes) (raw : RawConfig) (fields : Fields V)
      → parse_groups subparser root seen raw ≡ ok fields
      → AreDistinct fields
  unfolding AreDistinct parse_groups is_seen
  parse_groups-AreDistinct seen [] fields e =
      let no_fields : empty ≡ fields = cc in rw (← no_fields) refl
  parse_groups-AreDistinct seen ((key, v) ∷ raw) fields e =
      elim (parse_groups-steps seen key v raw fields e) [
        | inr (others, _) ↦ parse_groups-AreDistinct seen raw fields others
        | inl (subkey, is, new, p, rest, first, others, made) ↦
            let again = parse_groups-AreDistinct (subkey ∷ seen) raw rest others in
            rw (← made) (elim (Option-cases (field_at rest subkey)) [
              | inl alone ↦ (alone, again)
              | inr (q, twice) ↦
                  let (is', new') =
                    parse_groups_sound (subkey ∷ seen) raw rest subkey q others twice in
                  absurd (ground (arith, bytes_eq_refl subkey))
            ])
      ]
