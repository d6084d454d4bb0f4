-- ===== src/Crypto.antt =====
-- baseplate/lib/crypto.py: signing a message with an expiry time, and validating a signature, with
-- VersionedSecret of baseplate/lib/secrets.py. HMAC-SHA256 and URL-safe base64 are parameters;
-- `decode` gives `none` for the exceptions of `urlsafe_b64decode`. Messages are their UTF-8 bytes,
-- and times are whole seconds since the epoch.
pub mod Validation
pub mod Rotation
mod Tests
use baseplate_py.Prelude.{
  ℕ, zero, suc, ◌+◌, ◌*◌, ◌/◌, ◌%◌, Bool, true, false, not, ◌&&◌, Option, none, some, List, [], ◌∷◌,
  ◌++◌, length, take, drop, Result, ok, err, ◌>>=◌, ltb, ◌==◌, if◌then◌else◌, Bytes,
}

pub record VersionedSecret : Type 0 where
  pub previous : Option Bytes
  pub current : Bytes
  pub next : Option Bytes

abbrev pub versions : Option Bytes → List Bytes
versions none = []
versions (some s) = s ∷ []

-- `all_versions`
unfoldable pub all_versions : VersionedSecret → List Bytes
all_versions s = s.current ∷ versions s.previous ++ versions s.next

-- `VersionedSecret.from_simple_secret`
unfoldable pub from_simple_secret : Bytes → VersionedSecret
from_simple_secret value = record { previous = none; current = value; next = none }

pub record SignatureInfo : Type 0 where
  pub version : ℕ
  pub expiration : ℕ

-- The subclasses of SignatureError.
pub data SignatureError : Type 0 where
  unreadable : SignatureError
  incorrect : SignatureError
  expired : (expiration : ℕ) → SignatureError

-- `struct.error`: the expiry time does not fit in 32 bits
pub data PackError : Type 0 where
  struct_error : PackError

-- `_HEADER_FORMAT.pack`, of the format "<BxxI", for a version that is a byte
unfoldable pub pack : ℕ → ℕ → Result PackError Bytes
pack version expiration =
    if ltb expiration 4294967296
    then ok (
        version
        ∷ 0
        ∷ 0
        ∷ (expiration % 256)
        ∷ (expiration / 256 % 256)
        ∷ (expiration / 65536 % 256)
        ∷ (expiration / 16777216)
        ∷ [])
    else err struct_error

-- `_HEADER_FORMAT.unpack`, which takes exactly 7 bytes
unfoldable pub unpack : Bytes → Option SignatureInfo
unpack (version ∷ _ ∷ _ ∷ a ∷ b ∷ c ∷ d ∷ []) =
    some (record { version = version; expiration = a + b * 256 + c * 65536 + d * 16777216 })
unpack _ = none

-- `hmac.compare_digest`
unfoldable pub compare_digest : Bytes → Bytes → Bool
compare_digest [] [] = true
compare_digest (x ∷ xs) (y ∷ ys) = x == y && compare_digest xs ys
compare_digest _ _ = false

-- the checks of the decoded bytes that can raise UnreadableSignatureError
unfoldable pub read_header : Option SignatureInfo → Bytes → Result SignatureError SignatureInfo
read_header none digest = err unreadable
read_header (some info) digest =
    if info.version == 1 && length digest == 32 then ok info else err unreadable

module _ (hmac : Bytes → Bytes → Bytes) where
  -- `_compute_digest`
  unfoldable pub compute_digest : Bytes → Bytes → Bytes → Bytes
  compute_digest secret_value header message = hmac secret_value (header ++ message)

  -- the loop over the versions, and its `else`
  unfoldable pub any_version : List Bytes → Bytes → Bytes → Bytes → Bool
  unfolding compute_digest compare_digest
  any_version [] header message digest = false
  any_version (s ∷ secrets) header message digest =
      let rest = any_version secrets header message digest in
      if compare_digest (compute_digest s header message) digest then true else rest

  -- the rest of `validate_signature`, at the time `now`
  unfoldable pub check :
      VersionedSecret
      → Bytes
      → Bytes
      → Bytes
      → SignatureInfo
      → ℕ
      → Result SignatureError SignatureInfo
  unfolding any_version all_versions
  check secret message header digest info now =
      if ltb info.expiration now
      then err (expired info.expiration)
      else if any_version (all_versions secret) header message digest
      then ok info
      else err incorrect

  unfoldable pub validate_bytes :
      VersionedSecret → Bytes → Bytes → ℕ → Result SignatureError SignatureInfo
  unfolding read_header check
  validate_bytes secret message bytes now =
      read_header (unpack (take 7 bytes)) (drop 7 bytes) >>= λ info.
      check secret message (take 7 bytes) (drop 7 bytes) info now

  -- `make_signature`
  unfoldable pub make_signature :
      (encode : Bytes → Bytes) → VersionedSecret → Bytes → ℕ → ℕ → Result PackError Bytes
  unfolding pack compute_digest
  make_signature encode secret message max_age now = pack 1 (now + max_age) >>= λ header.
      ok (encode (header ++ compute_digest secret.current header message))

  -- `validate_signature`
  unfoldable pub validate_signature :
      (decode : Bytes → Option Bytes)
      → VersionedSecret
      → Bytes
      → Bytes
      → ℕ
      → Result SignatureError SignatureInfo
  unfolding validate_bytes
  validate_signature decode secret message signature now = elim (decode signature) [
    | none ↦ err unreadable
    | some bytes ↦ validate_bytes secret message bytes now
  ]
