-- ===== src/Config/Reading.antt =====
-- baseplate/lib/config.py: what a DictOf gives, and what a configuration that parses has read.
use baseplate_py.Prelude.{◌≡◌, refl, some, [], ◌++◌, Result, ok, err, Bytes, inl, inr, first_ok}
use baseplate_py.Config.Spec.{
  Parser, callable, spec, dict_of, Entries, end, entry, Parsed, namespace, Fields, ConfigError,
  RawConfig, raw_value, sub_key_path, root_of, is_seen, called, parse_groups, parse, parse_entries,
}
use baseplate_py.Config.Leaves.{parse_entries-steps}
use baseplate_py.Config.Subkeys.{IsSubkey}
use baseplate_py.Config.Failures.{Reads, ReadsIn}
use baseplate_py.Config.Groups.{
  field_at, AreDistinct, parse_groups_complete, parse_groups_sound, parse_groups-AreDistinct,
}

-- The fields that a DictOf gives: no key is there twice, there is one for each subkey of the raw
-- configuration and no other, and its value is the one parsed below the root and the subkey.
abbrev pub IsGrouped : {X V : Type 0} → Parser X V → Bytes → RawConfig → Fields V → Type 0
IsGrouped {X} {V} p root raw fields =
    AreDistinct fields
    × ((subkey : Bytes)
        → IsSubkey root raw subkey
        → (parsed : Parsed V) × (field_at fields subkey ≡ some parsed)
          × (parse p (root ++ subkey) raw ≡ ok parsed))
    × ((subkey : Bytes) (parsed : Parsed V)
        → field_at fields subkey ≡ some parsed
        → IsSubkey root raw subkey)

pub dict_of-IsGrouped :
    {X V : Type 0} (p : Parser X V) (path : Bytes) (raw : RawConfig) (parsed : Parsed V)
    → parse (dict_of p) path raw ≡ ok parsed
    → (fields : Fields V) × (parsed ≡ namespace fields) × IsGrouped p (root_of path) raw fields
unfolding parse is_seen
dict_of-IsGrouped {X} {V} p path raw parsed e =
    let below : Bytes → Result (ConfigError X) (Parsed V) = λ full. parse p full raw in
    let root = root_of path in
    let (fields, made, is) = first_ok (parse_groups below root [] raw) _ e in
    let complete = λ (s : Bytes) (there : IsSubkey root raw s).
      parse_groups_complete below root [] raw fields s made there refl in
    let sound = λ (s : Bytes) (p' : Parsed V) (found : field_at fields s ≡ some p').
      (parse_groups_sound below root [] raw fields s p' made found).0 in
    (fields, cc, (parse_groups-AreDistinct below root [] raw fields made, complete, sound))

called_success :
    {X V : Type 0} (path : Bytes) (r : Result X V) (parsed : Parsed V)
    → called path r ≡ ok parsed
    → (v : V) × (r ≡ ok v)
called_success path (ok v) parsed e = (v, refl)
called_success path (err x) parsed e = cc

mutual
  unfolding parse Reads

  parser_accepts :
      {X V : Type 0} (p : Parser X V) (path : Bytes) (raw : RawConfig) (parsed : Parsed V)
      (key : Bytes) (f : Bytes → Result X V)
      → parse p path raw ≡ ok parsed
      → Reads p path raw key f
      → (v : V) × (f (raw_value key raw) ≡ ok v)
  parser_accepts (callable g) path raw parsed key f e (at, is) =
      let (v, was) = called_success path (g (raw_value path raw)) parsed e in (v, cc)
  parser_accepts (spec entries) path raw parsed key f e reads =
      let (fields, made, is) = first_ok (parse_entries entries path raw) _ e in
      entries_accept entries path raw fields key f made reads
  parser_accepts (dict_of p) path raw parsed key f e (subkey, there, reads) =
      let (fields, is, (_, complete, _)) = dict_of-IsGrouped p path raw parsed e in
      let (below, _, made) = complete subkey there in
      parser_accepts p (root_of path ++ subkey) raw below key f made reads

  entries_accept :
      {X V : Type 0} (entries : Entries X V) (path : Bytes) (raw : RawConfig) (fields : Fields V)
      (key : Bytes) (f : Bytes → Result X V)
      → parse_entries entries path raw ≡ ok fields
      → ReadsIn entries path raw key f
      → (v : V) × (f (raw_value key raw) ≡ ok v)
  entries_accept end path raw fields key f e reads = elim reads [ ]
  entries_accept (entry k p entries) path raw fields key f e reads =
      let (parsed, rest, first, others, made) = parse_entries-steps k p entries path raw fields e in
      elim reads [
        | inl here ↦ parser_accepts p (sub_key_path path k) raw parsed key f first here
        | inr there ↦ entries_accept entries path raw rest key f others there
      ]
