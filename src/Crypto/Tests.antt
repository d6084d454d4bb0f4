-- ===== src/Crypto/Tests.antt =====
-- Signatures with a digest that depends on the length of the key, and without base64.
use baseplate_py.Prelude.{
  ◌≡◌, refl, ◌≤◌, none, some, [], ◌∷◌, ◌++◌, length, take, drop, replicate, ok, arith, Bytes, inl,
  inr,
}
use baseplate_py.Crypto.{VersionedSecret, make_signature, validate_signature, unpack}
use baseplate_py.Crypto.Validation.{IsVersion, validate_signature-Valid}
use baseplate_py.Crypto.Rotation.{header_bytes, info_of, validate_signature-make_signature}

abbrev hmac : Bytes → Bytes → Bytes
hmac k m = replicate 32 (length k)

abbrev same : Bytes → Bytes
same bs = bs

abbrev old : VersionedSecret
old = record { previous = none; current = 1 ∷ []; next = some (1 ∷ 2 ∷ []) }

abbrev rotated : VersionedSecret
rotated = record { previous = some (1 ∷ []); current = 1 ∷ 2 ∷ []; next = none }

validate_signature-make_signature_example :
    (signature : Bytes) × ((make_signature hmac same old (65 ∷ []) 60 1000 ≡ ok signature)
      × (validate_signature hmac some rotated (65 ∷ []) signature 1060 ≡ ok (info_of 1060)))
unfolding IsVersion
validate_signature-make_signature_example =
    validate_signature-make_signature hmac same some (λ bs. refl) (λ k m. refl) old rotated
      (65 ∷ []) 60 1000 1060 (omega arith) (omega arith) (inr (inl refl))

abbrev signed : Bytes
signed = header_bytes 1060 ++ replicate 32 1

validate_signature-Valid_example :
    (bytes s : Bytes) × ((some signed ≡ some bytes)
      × ((unpack (take 7 bytes) ≡ some (info_of 1060))
          × (((info_of 1060).version ≡ 1)
              × ((1060 ≤ 1060)
                  × (IsVersion s rotated
                      × ((length (drop 7 bytes) ≡ 32)
                          × (hmac s (take 7 bytes ++ 65 ∷ []) ≡ drop 7 bytes)))))))
unfolding validate_signature unpack
validate_signature-Valid_example =
    validate_signature-Valid hmac some rotated (65 ∷ []) signed 1060 (info_of 1060) refl
