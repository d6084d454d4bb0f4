-- ===== src/Secrets.antt =====
-- baseplate/lib/secrets.py: the secrets store. The file is an object, and where it has "secrets",
-- that is an object of objects; `vault` is an object too. Texts are lists of code points, and
-- `b64decode` is a parameter, which gives none for a binascii.Error.
pub mod Shapes
pub mod Caching
pub mod Raising
mod Tests
use baseplate_py.Prelude.{
  ℕ, ◌+◌, ◌/◌, ◌%◌, Bool, true, false, ◌&&◌, not, Option, none, some, List, [], ◌∷◌, ◌++◌, ltb, leb,
  if◌then◌else◌, Result, ok, err, ◌>>=◌, Bytes, codes,
}
use baseplate_py.Metrics.{bytes_eq}
use baseplate_py.Crypto.{VersionedSecret}
use baseplate_py.FileWatcher.{Files, FileWatcher, WatcherError, Outcome, get_data as get_file}

-- a value of JSON: a text, or another one, with its truth value
pub data Attribute : Type 0 where
  text : Bytes → Attribute
  other : Bool → Attribute

abbrev pub Attributes : Type 0
Attributes = List (Bytes × Attribute)

pub record Store : Type 0 where
  pub secrets : Option (List (Bytes × Attributes))
  pub vault : Option Attributes

-- what a CorruptSecretError says
pub data Corruption : Type 0 where
  wrong_type wrong_encoding no_value undecodable unknown_encoding : Corruption
  not_a_string no_key : Bytes → Corruption

-- The errors of the module, and Python's own.
pub data SecretsError : Type 0 where
  not_available : WatcherError → SecretsError
  not_found : Bytes → SecretsError
  corrupt : Bytes → Corruption → SecretsError
  key_error type_error value_error attribute_error unicode_encode_error : SecretsError

pub record CredentialSecret : Type 0 where
  pub username : Bytes
  pub password : Bytes

unfoldable pub lookup {ℓ} : {A : Type ℓ} → Bytes → List (Bytes × A) → Option A
lookup key [] = none
lookup key ((k, v) ∷ items) = if bytes_eq k key then some v else lookup key items

-- `attribute == name`, for what `get` gives
abbrev pub is_text : Bytes → Option Attribute → Bool
is_text name (some (text t)) = bytes_eq t name
is_text name _ = false

-- the UTF-8 of a code point; none for a surrogate
abbrev pub utf8_of : ℕ → Option Bytes
utf8_of c =
    if ltb c 128
    then some (c ∷ [])
    else (if ltb c 2048
        then some ((192 + c / 64) ∷ (128 + c % 64) ∷ [])
        else (if leb 55296 c && leb c 57343
            then none
            else (if ltb c 65536
                then some ((224 + c / 4096) ∷ (128 + c / 64 % 64) ∷ (128 + c % 64) ∷ [])
                else some (
                    (240 + c / 262144)
                    ∷ (128 + c / 4096 % 64)
                    ∷ (128 + c / 64 % 64)
                    ∷ (128 + c % 64)
                    ∷ []))))

-- `value.encode("utf-8")`
unfoldable pub encode_utf8 : Bytes → Result SecretsError Bytes
encode_utf8 [] = ok []
encode_utf8 (c ∷ cs) = elim (utf8_of c) [
  | none ↦ err unicode_encode_error
  | some bytes ↦ encode_utf8 cs >>= λ rest. ok (bytes ++ rest)
]

unfoldable pub is_ascii : Bytes → Bool
is_ascii [] = true
is_ascii (c ∷ cs) = ltb c 128 && is_ascii cs

-- `secret_attributes.get("encoding", "identity")`
abbrev pub encoding_of : Attributes → Attribute
encoding_of attributes = elim (lookup (codes "encoding") attributes) [
  | none ↦ text (codes "identity")
  | some a ↦ a
]

-- `_decode_secret`, for the encoding "identity"
abbrev pub decode_identity : Attribute → Result SecretsError Bytes
decode_identity (text t) = encode_utf8 t
decode_identity (other _) = err attribute_error

abbrev pub need {ℓ} : {A : Type ℓ} → SecretsError → Option A → Result SecretsError A
need e none = err e
need e (some a) = ok a

abbrev pub check : Bool → SecretsError → Result SecretsError (Unit {0})
check true e = ok tt
check false e = err e

-- The getters, of what `_get_data` gives; none is the class _NOT_LOADED of the file watcher.
unfoldable pub get_raw : Bytes → Option Store → Result SecretsError Attributes
get_raw path content = do
  store ← need type_error content
  secrets ← need (not_found path) store.secrets
  need (not_found path) (lookup path secrets)

abbrev pub string_at : Bytes → Bytes → Attributes → Result SecretsError Bytes
string_at path key attributes = elim (lookup key attributes) [
  | none ↦ err (corrupt path (no_key key))
  | some (text t) ↦ ok t
  | some (other _) ↦ err (corrupt path (not_a_string key))
]

unfoldable pub get_credentials : Bytes → Option Store → Result SecretsError CredentialSecret
unfolding get_raw
get_credentials path content = do
  attributes ← get_raw path content
  _ ←
      check (is_text (codes "credential") (lookup (codes "type") attributes))
        (corrupt path wrong_type)
  _ ←
      check (is_text (codes "identity") (some (encoding_of attributes)))
        (corrupt path wrong_encoding)
  username ← string_at path (codes "username") attributes
  password ← string_at path (codes "password") attributes
  ok (record { username = username; password = password })

-- `get_vault_url` and `get_vault_token`, for "url" and "token"
unfoldable pub get_vault : Bytes → Option Store → Result SecretsError Attribute
get_vault key content = do
  store ← need type_error content
  vault ← need key_error store.vault
  need key_error (lookup key vault)

module _ {W : Type 0} (files : Files Store W) where
  abbrev pub Fetched : Type 0
  Fetched = Result SecretsError (Option Store) × FileWatcher Store × W × ℕ

  abbrev pub fetched : Outcome files → Fetched
  fetched (ok content, f, w, t) = (ok content, f, w, t)
  fetched (err e, f, w, t) = (err (not_available e), f, w, t)

  -- `SecretsStore._get_data`
  unfoldable pub get_data : FileWatcher Store → W → ℕ → Fetched
  get_data f w now = fetched (get_file files f w now)

  -- The store of a request: what its cached property has, and the watcher that the requests share.
  abbrev pub kept :
      Fetched
      → Result SecretsError (Option Store) × Option (Option Store) × FileWatcher Store × W × ℕ
  kept (ok content, f, w, t) = (ok content, some content, f, w, t)
  kept (err e, f, w, t) = (err e, none, f, w, t)

  -- `_CachingSecretsStore._get_data`
  unfoldable pub get_cached :
      Option (Option Store)
      → FileWatcher Store
      → W
      → ℕ
      → Result SecretsError (Option Store) × Option (Option Store) × FileWatcher Store × W × ℕ
  unfolding get_data
  get_cached (some content) f w now = (ok content, some content, f, w, now)
  get_cached none f w now = kept (get_data f w now)

module _ (b64decode : Bytes → Option Bytes) where
  abbrev pub decoded : Bytes → Option Bytes → Result SecretsError Bytes
  decoded path none = err (corrupt path undecodable)
  decoded path (some bytes) = ok bytes

  -- `_decode_secret`, for the encoding "base64"; a text that is not ASCII is a ValueError, and a
  -- value that is no text a TypeError
  unfoldable pub decode_base64 : Bytes → Attribute → Result SecretsError Bytes
  decode_base64 path (text t) = if is_ascii t then decoded path (b64decode t) else err value_error
  decode_base64 path (other _) = err (corrupt path undecodable)

  unfoldable pub decode_secret : Bytes → Attribute → Attribute → Result SecretsError Bytes
  unfolding decode_base64
  decode_secret path encoding value =
      if is_text (codes "identity") (some encoding)
      then decode_identity value
      else (if is_text (codes "base64") (some encoding)
          then decode_base64 path value
          else err (corrupt path unknown_encoding))

  unfoldable pub get_simple : Bytes → Option Store → Result SecretsError Bytes
  unfolding get_raw decode_secret
  get_simple path content = do
    attributes ← get_raw path content
    _ ←
        check (is_text (codes "simple") (lookup (codes "type") attributes))
          (corrupt path wrong_type)
    value ← need (corrupt path no_value) (lookup (codes "value") attributes)
    decode_secret path (encoding_of attributes) value

  -- `_decode_secret(path, encoding, value) if value else None`
  unfoldable pub decode_optional :
      Bytes → Attribute → Option Attribute → Result SecretsError (Option Bytes)
  unfolding decode_secret
  decode_optional path encoding none = ok none
  decode_optional path encoding (some (text [])) = ok none
  decode_optional path encoding (some (text (c ∷ t))) =
      decode_secret path encoding (text (c ∷ t)) >>= λ bytes. ok (some bytes)
  decode_optional path encoding (some (other false)) = ok none
  decode_optional path encoding (some (other true)) =
      decode_secret path encoding (other true) >>= λ bytes. ok (some bytes)

  unfoldable pub get_versioned : Bytes → Option Store → Result SecretsError VersionedSecret
  unfolding get_raw decode_secret decode_optional
  get_versioned path content = do
    attributes ← get_raw path content
    _ ←
        check (is_text (codes "versioned") (lookup (codes "type") attributes))
          (corrupt path wrong_type)
    current_value ← need (corrupt path no_value) (lookup (codes "current") attributes)
    let encoding = encoding_of attributes
    previous ← decode_optional path encoding (lookup (codes "previous") attributes)
    current ← decode_secret path encoding current_value
    next ← decode_optional path encoding (lookup (codes "next") attributes)
    ok (record { previous = previous; current = current; next = next })
