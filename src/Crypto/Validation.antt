-- ===== src/Crypto/Validation.antt =====
-- What `validate_signature` accepts.
use baseplate_py.Prelude.{
  ◌≡◌, refl, ap, sym, ◌∙◌, subst, ℕ, ◌≤◌, true, Option, none, some, List, [], ◌∷◌, ◌++◌, length,
  take, drop, ok, arith, ◌⊎◌, inl, inr, Bytes, Bool-cases, Option-cases, Result-cases,
}
use baseplate_py.Crypto.{
  VersionedSecret, all_versions, versions, SignatureInfo, unpack, compare_digest, compute_digest,
  any_version, read_header, check, validate_bytes, validate_signature,
}

pub compare_digest_refl : (xs : Bytes) → compare_digest xs xs ≡ true
unfolding compare_digest
compare_digest_refl [] = refl
compare_digest_refl (x ∷ xs) = ground (arith, compare_digest_refl xs)

pub compare_digest-eq : (xs ys : Bytes) → compare_digest xs ys ≡ true → xs ≡ ys
unfolding compare_digest
compare_digest-eq [] [] h = refl
compare_digest-eq [] (y ∷ ys) h = ground arith
compare_digest-eq (x ∷ xs) [] h = ground arith
compare_digest-eq (x ∷ xs) (y ∷ ys) h = ground (arith, compare_digest-eq xs ys)

abbrev Occurs : Bytes → List Bytes → Type 0
Occurs s [] = ⊥
Occurs s (t ∷ ts) = (s ≡ t) ⊎ Occurs s ts

unfoldable pub IsVersion : Bytes → VersionedSecret → Type 0
IsVersion s secret = (s ≡ secret.current) ⊎ ((secret.previous ≡ some s) ⊎ (secret.next ≡ some s))

Occurs-versions :
    (s : Bytes) (p n : Option Bytes)
    → Occurs s (versions p ++ versions n)
    → (p ≡ some s) ⊎ (n ≡ some s)
Occurs-versions s none none h = elim h [ ]
Occurs-versions s none (some y) (inl e) = inr (ap some (sym e))
Occurs-versions s (some x) n (inl e) = inl (ap some (sym e))
Occurs-versions s (some x) (some y) (inr (inl e)) = inr (ap some (sym e))
Occurs-versions s none (some y) (inr h) = elim h [ ]
Occurs-versions s (some x) none (inr h) = elim h [ ]
Occurs-versions s (some x) (some y) (inr (inr h)) = elim h [ ]

Occurs-all_versions :
    (s : Bytes) (secret : VersionedSecret) → Occurs s (all_versions secret) → IsVersion s secret
unfolding all_versions IsVersion
Occurs-all_versions s secret (inl e) = inl e
Occurs-all_versions s secret (inr h) = inr (Occurs-versions s secret.previous secret.next h)

read_header-ok :
    (o : Option SignatureInfo) (digest : Bytes) (info : SignatureInfo)
    → read_header o digest ≡ ok info
    → (o ≡ some info) × ((info.version ≡ 1) × (length digest ≡ 32))
unfolding read_header
read_header-ok none digest info h = ground arith
read_header-ok (some i) digest info h = ground arith

module _ (hmac : Bytes → Bytes → Bytes) where
  any_version-matches :
      (secrets : List Bytes) (header message digest : Bytes)
      → any_version hmac secrets header message digest ≡ true
      → (s : Bytes) × (Occurs s secrets × (hmac s (header ++ message) ≡ digest))
  unfolding any_version compute_digest
  any_version-matches [] header message digest h = ground arith
  any_version-matches (s ∷ secrets) header message digest h =
      elim (Bool-cases (compare_digest (hmac s (header ++ message)) digest)) [
        | inl e ↦ (s, (inl refl, compare_digest-eq (hmac s (header ++ message)) digest e))
        | inr e ↦
            let (t, rest) = any_version-matches secrets header message digest (rw e at h) in
            (t, (inr rest.0, rest.1))
      ]

  check-ok :
      (secret : VersionedSecret) (message header digest : Bytes) (info info' : SignatureInfo)
      (now : ℕ)
      → check hmac secret message header digest info now ≡ ok info'
      → (info ≡ info')
        × ((now ≤ info.expiration)
            × (any_version hmac (all_versions secret) header message digest ≡ true))
  unfolding check
  check-ok secret message header digest info info' now h = ground arith

  check-Valid :
      (secret : VersionedSecret) (message header digest : Bytes) (i info : SignatureInfo) (now : ℕ)
      → check hmac secret message header digest i now ≡ ok info
      → (s : Bytes) × ((i ≡ info)
          × ((now ≤ info.expiration)
              × (IsVersion s secret × (hmac s (header ++ message) ≡ digest))))
  check-Valid secret message header digest i info now h =
      let (e, rest) = check-ok secret message header digest i info now h in
      let (s, found) = any_version-matches (all_versions secret) header message digest rest.1 in
      (
        s,
        (
          e,
          (
            subst (λ j. now ≤ j.expiration) e rest.0,
            (Occurs-all_versions s secret found.0, found.1),
          ),
        ),
      )

  validate_bytes-Valid :
      (secret : VersionedSecret) (message bytes : Bytes) (now : ℕ) (info : SignatureInfo)
      → validate_bytes hmac secret message bytes now ≡ ok info
      → (s : Bytes) × ((unpack (take 7 bytes) ≡ some info)
          × ((info.version ≡ 1)
              × ((now ≤ info.expiration)
                  × (IsVersion s secret
                      × ((length (drop 7 bytes) ≡ 32)
                          × (hmac s (take 7 bytes ++ message) ≡ drop 7 bytes))))))
  unfolding validate_bytes
  validate_bytes-Valid secret message bytes now info h =
      elim (Result-cases (read_header (unpack (take 7 bytes)) (drop 7 bytes))) [
        | inr (x, e) ↦ let h' = rw e at h in ground arith
        | inl (i, e) ↦
            let h' = rw e at h in
            let (s, found) =
              check-Valid secret message (take 7 bytes) (drop 7 bytes) i info now h' in
            let (f, rest) = read_header-ok (unpack (take 7 bytes)) (drop 7 bytes) i e in
            (
              s,
              (
                f ∙ ap some found.0,
                (
                  subst (λ j. j.version ≡ 1) found.0 rest.0,
                  (found.1.0, (found.1.1.0, (rest.1, found.1.1.1))),
                ),
              ),
            )
      ]

  -- A signature that validates decodes to a header of version 1 and a digest of 32 bytes, which is
  -- the digest of that header and the message under one of the secret's versions, and the expiry
  -- time of the header, which is what is returned, has not passed.
  pub validate_signature-Valid :
      (decode : Bytes → Option Bytes) (secret : VersionedSecret) (message signature : Bytes)
      (now : ℕ) (info : SignatureInfo)
      → validate_signature hmac decode secret message signature now ≡ ok info
      → (bytes s : Bytes) × ((decode signature ≡ some bytes)
          × ((unpack (take 7 bytes) ≡ some info)
              × ((info.version ≡ 1)
                  × ((now ≤ info.expiration)
                      × (IsVersion s secret
                          × ((length (drop 7 bytes) ≡ 32)
                              × (hmac s (take 7 bytes ++ message) ≡ drop 7 bytes)))))))
  unfolding validate_signature
  validate_signature-Valid decode secret message signature now info h =
      elim (Option-cases (decode signature)) [
        | inl e ↦ let h' = rw (e, validate_signature) at h in ground arith
        | inr (bytes, e) ↦
            let h' = rw (e, validate_signature) at h in
            let (s, valid) = validate_bytes-Valid secret message bytes now info h' in
            (bytes, s, (e, valid))
      ]
