-- ===== src/Secrets/Shapes.antt =====
-- baseplate/lib/secrets.py: secrets as the fetcher stores them, and what the getters may raise.
use baseplate_py.Prelude.{
  ℕ, ◌≡◌, refl, true, Option, none, some, List, [], ◌∷◌, ◌++◌, ok, Bytes, codes,
}
use baseplate_py.Metrics.{bytes_eq, bytes_eq_refl}
use baseplate_py.Crypto.{VersionedSecret}
use baseplate_py.Secrets.{
  Attribute, text, Attributes, Store, lookup, encoding_of, is_ascii, decode_base64, decode_secret,
  get_raw, decode_optional, get_versioned,
}

abbrev pub optional_attribute : Bytes → Option Bytes → Attributes
optional_attribute key none = []
optional_attribute key (some value) = (key, text value) ∷ []

abbrev encode_optional_text : (Bytes → Bytes) → Option Bytes → Option Attribute
encode_optional_text encode none = none
encode_optional_text encode (some s) = some (text (encode s))

abbrev encode_optional : (Bytes → Bytes) → Option Bytes → Option Bytes
encode_optional encode none = none
encode_optional encode (some s) = some (encode s)

-- a versioned secret as it is stored
abbrev pub versioned_attributes : (Bytes → Bytes) → VersionedSecret → Attributes
versioned_attributes encode s =
    (codes "type", text (codes "versioned"))
      ∷ (codes "encoding", text (codes "base64"))
      ∷ (codes "current", text (encode s.current))
      ∷ optional_attribute (codes "previous") (encode_optional encode s.previous)
    ++ optional_attribute (codes "next") (encode_optional encode s.next)

abbrev pub stored : Bytes → Attributes → List (Bytes × Attributes) → Option Attributes → Store
stored path attributes others vault = record {
  secrets = some ((path, attributes) ∷ others);
  vault = vault;
}

-- base64: what is encoded is ASCII, and is decoded again, and only the empty value is encoded as
-- the empty text
pub record Base64Laws (encode : Bytes → Bytes) (b64decode : Bytes → Option Bytes) : Type 0 where
  pub ascii : (s : Bytes) → is_ascii (encode s) ≡ true
  pub decodes : (s : Bytes) → b64decode (encode s) ≡ some s
  pub nonempty : (c : ℕ) (s : Bytes) → (d : ℕ) × (t : Bytes) × (encode (c ∷ s) ≡ d ∷ t)

-- A version that is given is not empty.
abbrev pub IsGiven : Option Bytes → Type 0
IsGiven none = Unit
IsGiven (some []) = ⊥
IsGiven (some (c ∷ s)) = Unit

get_raw-stored :
    (path : Bytes) (attributes : Attributes) (others : List (Bytes × Attributes))
    (vault : Option Attributes)
    → get_raw path (some (stored path attributes others vault)) ≡ ok attributes
unfolding get_raw lookup
get_raw-stored path attributes others vault = rw (bytes_eq_refl path) refl

module _ (encode : Bytes → Bytes) (b64decode : Bytes → Option Bytes)
    (laws : Base64Laws encode b64decode) (path : Bytes) where
  decode_secret-encode :
      (s : Bytes) → decode_secret b64decode path (text (codes "base64")) (text (encode s)) ≡ ok s
  unfolding decode_secret decode_base64 bytes_eq
  decode_secret-encode s = rw (laws.ascii s) (rw (laws.decodes s) refl)

  decode_optional-encode :
      (o : Option Bytes)
      → IsGiven o
      → decode_optional b64decode path (text (codes "base64")) (encode_optional_text encode o)
        ≡ ok o
  unfolding decode_optional
  decode_optional-encode none given = refl
  decode_optional-encode (some []) given = absurd given
  decode_optional-encode (some (c ∷ s)) given =
      let (d, t, shape) = laws.nonempty c s in
      let same = decode_secret-encode (c ∷ s) in
      let given_text : decode_secret b64decode path (text (codes "base64")) (text (d ∷ t))
          ≡ ok (c ∷ s) =
        rw shape at same in
      rw (shape, decode_optional) (rw given_text refl)

  versioned_lookups :
      (previous next : Option Bytes) (value : Bytes)
      → (lookup (codes "previous") (
            versioned_attributes encode
              (record { previous = previous; current = value; next = next }))
          ≡ encode_optional_text encode previous)
        × (lookup (codes "next") (
              versioned_attributes encode
                (record { previous = previous; current = value; next = next }))
            ≡ encode_optional_text encode next)
  unfolding lookup bytes_eq
  versioned_lookups none none value = (refl, refl)
  versioned_lookups none (some n) value = (refl, refl)
  versioned_lookups (some p) none value = (refl, refl)
  versioned_lookups (some p) (some n) value = (refl, refl)

  get_versioned_steps :
      (content : Option Store) (attributes : Attributes) (value enc : Attribute)
      (previous next : Option Bytes) (current : Bytes)
      → get_raw path content ≡ ok attributes
      → lookup (codes "type") attributes ≡ some (text (codes "versioned"))
      → lookup (codes "current") attributes ≡ some value
      → encoding_of attributes ≡ enc
      → decode_optional b64decode path enc (lookup (codes "previous") attributes) ≡ ok previous
      → decode_secret b64decode path enc value ≡ ok current
      → decode_optional b64decode path enc (lookup (codes "next") attributes) ≡ ok next
      → get_versioned b64decode path content
        ≡ ok (record { previous = previous; current = current; next = next })
  unfolding get_versioned bytes_eq
  get_versioned_steps content attributes value enc previous next current raw type now encoded p c
        n =
      rw raw (rw type (rw now (rw encoded (rw p (rw c (rw n refl))))))

  -- Where base64 decodes what it encoded, and only the empty value is encoded as the empty text, a
  -- versioned secret that is stored in base64, with no version that is given but empty, is read
  -- back as it is.
  pub get_versioned-stored :
      (s : VersionedSecret) (others : List (Bytes × Attributes)) (vault : Option Attributes)
      → IsGiven s.previous
      → IsGiven s.next
      → get_versioned b64decode path
          (some (stored path (versioned_attributes encode s) others vault))
        ≡ ok s
  unfolding lookup bytes_eq
  get_versioned-stored s others vault given_previous given_next =
      let attributes = versioned_attributes encode s in
      let (previous, next) = versioned_lookups s.previous s.next s.current in
      get_versioned_steps (some (stored path attributes others vault)) attributes
        (text (encode s.current)) (text (codes "base64")) s.previous s.next s.current
        (get_raw-stored path attributes others vault) refl refl refl
        (rw previous (decode_optional-encode s.previous given_previous))
        (decode_secret-encode s.current) (rw next (decode_optional-encode s.next given_next))
