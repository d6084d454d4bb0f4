-- ===== src/Config/Subkeys.antt =====
-- baseplate/lib/config.py: the keys that the pattern of DictOf matches.
use baseplate_py.Prelude.{
  ℕ, ◌≡◌, refl, false, some, [], ◌∷◌, ◌++◌, ◌==◌, Bytes, arith, inl, inr, ◌⊎◌, Bool-cases,
}
use baseplate_py.Config.{has_char}
use baseplate_py.Config.Spec.{RawConfig, until_dot, nonempty, subkey_of}

-- A text that ends or goes on with a dot.
abbrev pub StopsAtDot : Bytes → Type 0
StopsAtDot rest = (rest ≡ []) ⊎ ((more : Bytes) × (rest ≡ 46 ∷ more))

-- A key is a root, a subkey that is not empty and has no dot, and then nothing or a dot.
abbrev pub HasSubkey : Bytes → Bytes → Bytes → Type 0
HasSubkey root key subkey =
    (c : ℕ) × (cs : Bytes) × (rest : Bytes) × (subkey ≡ c ∷ cs)
    × (has_char 46 subkey ≡ false)
    × (key ≡ root ++ (subkey ++ rest))
    × StopsAtDot rest

-- Some key of the raw configuration has the root and then this subkey.
unfoldable pub IsSubkey : Bytes → RawConfig → Bytes → Type 0
IsSubkey root [] subkey = ⊥
IsSubkey root ((key, v) ∷ raw) subkey = HasSubkey root key subkey ⊎ IsSubkey root raw subkey

until_dot_splits :
    (text : Bytes)
    → (rest : Bytes) × (has_char 46 (until_dot text) ≡ false)
      × (text ≡ until_dot text ++ rest)
      × StopsAtDot rest
unfolding until_dot has_char
until_dot_splits [] = ([], refl, refl, inl refl)
until_dot_splits (c ∷ text) = elim (Bool-cases (c == 46)) [
  | inl dot ↦ (c ∷ text, ground arith, ground arith, inr (text, ground arith))
  | inr plain ↦
      let (rest, none_in, joined, stops) = until_dot_splits text in
      (rest, ground arith, ground arith, stops)
]

until_dot_joined :
    (s rest : Bytes) → has_char 46 s ≡ false → StopsAtDot rest → until_dot (s ++ rest) ≡ s
unfolding until_dot has_char
until_dot_joined [] rest no_dot (inl stop) = rw stop refl
until_dot_joined [] rest no_dot (inr (more, stop)) = rw stop refl
until_dot_joined (c ∷ s) rest no_dot stops =
    let same = until_dot_joined s rest (ground arith) stops in ground arith

nonempty_text :
    (text s : Bytes) → nonempty text ≡ some s → (c : ℕ) × (cs : Bytes) × (s ≡ c ∷ cs) × (text ≡ s)
nonempty_text [] s e = cc
nonempty_text (c ∷ cs) s e = (c, cs, cc, cc)

-- The pattern of DictOf finds the subkeys,
pub subkey_of_found :
    (root key subkey : Bytes) → subkey_of root key ≡ some subkey → HasSubkey root key subkey
unfolding subkey_of
subkey_of_found [] key subkey e =
    let (rest, none_in, joined, stops) = until_dot_splits key in
    let (c, cs, is, same) = nonempty_text (until_dot key) subkey e in
    (c, cs, rest, is, rw (← same) none_in, rw (← same) joined, stops)
subkey_of_found (c ∷ root) [] subkey e = cc
subkey_of_found (c ∷ root) (d ∷ key) subkey e = elim (Bool-cases (c == d)) [
  | inl same ↦
      let (b, bs, rest, is, no_dot, joined, stops) =
        subkey_of_found root key subkey (ground arith) in
      (b, bs, rest, is, no_dot, ground arith, stops)
  | inr other ↦ absurd (ground arith)
]

-- all of them.
pub subkey_of_finds :
    (root key subkey : Bytes) → HasSubkey root key subkey → subkey_of root key ≡ some subkey
unfolding subkey_of
subkey_of_finds [] key subkey (c, cs, rest, is, no_dot, joined, stops) =
    let found = until_dot_joined subkey rest no_dot stops in
    let text : until_dot key ≡ c ∷ cs = cc in rw text (ground arith)
subkey_of_finds (c ∷ root) [] subkey (b, bs, rest, is, no_dot, joined, stops) = cc
subkey_of_finds (c ∷ root) (d ∷ key) subkey (b, bs, rest, is, no_dot, joined, stops) =
    let below = subkey_of_finds root key subkey (b, bs, rest, is, no_dot, ground arith, stops) in
    ground arith
