-- ===== src/Crypto/Rotation.antt =====
-- Signatures that `make_signature` makes, and the versions of a secret under which they validate.
use baseplate_py.Prelude.{
  ◌≡◌, ◌∙◌, ℕ, ◌+◌, ◌*◌, ◌%◌, ◌/◌, ◌≤◌, ◌<◌, true, Option, some, List, [], ◌∷◌, ◌++◌, length, ok,
  err, arith, inl, inr, Bytes, lt→ltb,
}
use baseplate_py.Crypto.{
  VersionedSecret, all_versions, versions, SignatureInfo, expired, pack, unpack, compute_digest,
  any_version, read_header, check, validate_bytes, validate_signature, make_signature,
}
use baseplate_py.Crypto.Validation.{IsVersion, compare_digest_refl}

abbrev pub header_bytes : ℕ → Bytes
header_bytes n = 1 ∷ 0 ∷ 0 ∷ (n % 256) ∷ (n / 256 % 256) ∷ (n / 65536 % 256) ∷ (n / 16777216) ∷ []

pack-header : (n : ℕ) → n < 4294967296 → pack 1 n ≡ ok (header_bytes n)
unfolding pack
pack-header n h = ground arith

abbrev pub info_of : ℕ → SignatureInfo
info_of n = record { version = 1; expiration = n }

unpack-header : (n : ℕ) → unpack (header_bytes n) ≡ some (info_of n)
unfolding unpack
unpack-header n =
    let e : n % 256 + n / 256 % 256 * 256 + n / 65536 % 256 * 65536 + n / 16777216 * 16777216 ≡ n =
      omega arith in
    rw e

module _ (hmac : Bytes → Bytes → Bytes) where
  any_version-append :
      (xs ys : List Bytes) (header message digest : Bytes)
      → any_version hmac ys header message digest ≡ true
      → any_version hmac (xs ++ ys) header message digest ≡ true
  unfolding any_version
  any_version-append [] ys header message digest h = h
  any_version-append (x ∷ xs) ys header message digest h =
      ground (arith, any_version-append xs ys header message digest h)

  any_version-here :
      (s : Bytes) (xs : List Bytes) (header message : Bytes)
      → any_version hmac (s ∷ xs) header message (hmac s (header ++ message)) ≡ true
  unfolding any_version compute_digest
  any_version-here s xs header message = rw (compare_digest_refl (hmac s (header ++ message)))

  any_version-skip :
      (x : Bytes) (xs : List Bytes) (header message digest : Bytes)
      → any_version hmac xs header message digest ≡ true
      → any_version hmac (x ∷ xs) header message digest ≡ true
  any_version-skip x xs header message digest h =
      any_version-append (x ∷ []) xs header message digest h

  any_version-IsVersion :
      (s : Bytes) (secret : VersionedSecret) (header message : Bytes)
      → IsVersion s secret
      → any_version hmac (all_versions secret) header message (hmac s (header ++ message)) ≡ true
  unfolding IsVersion all_versions
  any_version-IsVersion s secret header message (inl e) =
      rw e (any_version-here secret.current _ header message)
  any_version-IsVersion s secret header message (inr (inl e)) =
      rw e (any_version-skip _ _ header message _ (any_version-here s _ header message))
  any_version-IsVersion s secret header message (inr (inr e)) = rw e (
      any_version-skip _ _ header message _ (
        any_version-append (versions secret.previous) _ header message _
          (any_version-here s [] header message)))

  validate_bytes-header :
      (secret : VersionedSecret) (message digest : Bytes) (n now : ℕ)
      → length digest ≡ 32
      → validate_bytes hmac secret message (header_bytes n ++ digest) now
        ≡ check hmac secret message (header_bytes n) digest (info_of n) now
  unfolding validate_bytes read_header
  validate_bytes-header secret message digest n now h = rw (unpack-header n, h, validate_bytes)

  make_signature_lem :
      (encode : Bytes → Bytes) (secret : VersionedSecret) (message : Bytes) (max_age now : ℕ)
      → now + max_age < 4294967296
      → make_signature hmac encode secret message max_age now
        ≡ ok (
            encode (
              header_bytes (now + max_age)
              ++ hmac secret.current (header_bytes (now + max_age) ++ message)))
  unfolding make_signature compute_digest
  make_signature_lem encode secret message max_age now h = rw (pack-header (now + max_age) h)

  check-accepts :
      (secret : VersionedSecret) (s message : Bytes) (n now : ℕ)
      → now ≤ n
      → IsVersion s secret
      → check hmac secret message
          (header_bytes n)
          (hmac s (header_bytes n ++ message))
          (info_of n)
          now
        ≡ ok (info_of n)
  unfolding check
  check-accepts secret s message n now h v =
      let found = any_version-IsVersion s secret (header_bytes n) message v in ground arith

  -- Where base64 decodes what it encoded and digests have 32 bytes, a message is signed as long as
  -- the expiry time fits in 32 bits, and the signature validates for that message until it expires,
  -- under every secret of which the signing key is the current, the previous or the next version;
  -- what comes back is version 1 and the expiry time.
  pub validate_signature-make_signature :
      (encode : Bytes → Bytes) (decode : Bytes → Option Bytes)
      (decode-encode : (bs : Bytes) → decode (encode bs) ≡ some bs)
      (hmac_size : (k m : Bytes) → length (hmac k m) ≡ 32) (signing secret : VersionedSecret)
      (message : Bytes) (max_age now later : ℕ)
      → now + max_age < 4294967296
      → later ≤ now + max_age
      → IsVersion signing.current secret
      → (signature : Bytes) × ((make_signature hmac encode signing message max_age now
            ≡ ok signature)
          × (validate_signature hmac decode secret message signature later
              ≡ ok (info_of (now + max_age))))
  unfolding validate_signature
  validate_signature-make_signature encode decode decode-encode hmac_size signing secret message
        max_age now later h k v =
      let n = now + max_age in
      let digest = hmac signing.current (header_bytes n ++ message) in
      let e = decode-encode (header_bytes n ++ digest) in
      let f =
        validate_bytes-header secret message digest n later
          (hmac_size signing.current (header_bytes n ++ message)) in
      (
        encode (header_bytes n ++ digest),
        (
          make_signature_lem encode signing message max_age now h,
          rw (e, validate_signature) (f ∙ check-accepts secret signing.current message n later k v),
        ),
      )

  -- Past its expiry time, any signature of version 1 that has a digest of 32 bytes is refused as
  -- expired, whether or not the digest is the right one: the time is looked at before the digest.
  pub validate_signature-expired :
      (decode : Bytes → Option Bytes) (secret : VersionedSecret) (message signature digest : Bytes)
      (n now : ℕ)
      → decode signature ≡ some (header_bytes n ++ digest)
      → length digest ≡ 32
      → n < now
      → validate_signature hmac decode secret message signature now ≡ err (expired n)
  unfolding validate_signature check
  validate_signature-expired decode secret message signature digest n now e h k =
      let f = validate_bytes-header secret message digest n now h in
      rw (e, f, lt→ltb n now k, validate_signature)
