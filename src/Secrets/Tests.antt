-- ===== src/Secrets/Tests.antt =====
-- A file of secrets that comes late and changes, and a code in place of base64.
use baseplate_py.Prelude.{
  ℕ, zero, suc, ◌+◌, ◌≡◌, refl, true, Option, none, some, List, [], ◌∷◌, ◌++◌, ◌==◌, ltb,
  if◌then◌else◌, Result, ok, err, map, Bytes, codes, arith, replicate,
}
use baseplate_py.Metrics.{bytes_eq}
use baseplate_py.Crypto.{VersionedSecret}
use baseplate_py.FileWatcher.{Files, no_file, new_watcher, loaded, get_data as get_file}
use baseplate_py.Secrets.{
  Attribute, text, other, Attributes, Store, SecretsError, lookup, get_data, get_cached, get_simple,
  get_raw, get_versioned, decode_secret, decode_base64, is_ascii, attribute_error, value_error,
  not_available,
}
use baseplate_py.Secrets.Caching.{run, FromOneReading, run-FromOneReading}
use baseplate_py.Secrets.Shapes.{Base64Laws, versioned_attributes, stored, get_versioned-stored}

-- each byte as that many letters a and a letter b
abbrev encode : Bytes → Bytes
encode [] = []
encode (c ∷ s) = replicate c 97 ++ 98 ∷ encode s

abbrev push : ℕ → Option Bytes → Option Bytes
push n none = none
push n (some s) = some (n ∷ s)

abbrev decode : ℕ → Bytes → Option Bytes
decode zero [] = some []
decode (suc n) [] = none
decode n (d ∷ t) =
    let next = push n (decode 0 t) in let more = decode (suc n) t in if d == 98 then next else more

letters_ascii : (n : ℕ) (t : Bytes) → is_ascii (replicate n 97 ++ 98 ∷ t) ≡ is_ascii t
unfolding is_ascii
letters_ascii zero t = refl
letters_ascii (suc n) t = letters_ascii n t

encode_ascii : (s : Bytes) → is_ascii (encode s) ≡ true
unfolding is_ascii
encode_ascii [] = refl
encode_ascii (c ∷ s) = rw (letters_ascii c (encode s)) (encode_ascii s)

letters_decoded :
    (k n : ℕ) (t : Bytes) → decode k (replicate n 97 ++ 98 ∷ t) ≡ push (k + n) (decode 0 t)
letters_decoded zero zero t = refl
letters_decoded (suc k) zero t = ground arith
letters_decoded zero (suc n) t = ground (arith, letters_decoded 1 n t)
letters_decoded (suc k) (suc n) t = ground (arith, letters_decoded (suc (suc k)) n t)

decode-encode : (s : Bytes) → decode 0 (encode s) ≡ some s
decode-encode [] = refl
decode-encode (c ∷ s) = rw (letters_decoded 0 c (encode s)) (rw (decode-encode s) (ground arith))

encode_nonempty : (c : ℕ) (s : Bytes) → (d : ℕ) × (t : Bytes) × (encode (c ∷ s) ≡ d ∷ t)
encode_nonempty zero s = (98, encode s, refl)
encode_nonempty (suc c) s = (97, replicate c 97 ++ 98 ∷ encode s, refl)

code_laws : Base64Laws encode (decode 0)
code_laws = record { ascii = encode_ascii; decodes = decode-encode; nonempty = encode_nonempty }

abbrev path : Bytes
path = codes "secret/key"

abbrev secret : VersionedSecret
secret = record { previous = some (1 ∷ 2 ∷ []); current = 3 ∷ []; next = none }

get_versioned-stored_example :
    get_versioned (decode 0) path (some (stored path (versioned_attributes encode secret) [] none))
    ≡ ok secret
get_versioned-stored_example =
    get_versioned-stored encode (decode 0) code_laws path secret [] none tt tt

-- an encoding that is not known
abbrev value_only : Attributes
value_only = (codes "current", text (codes "abc")) ∷ []

abbrev coded_value : Attributes
coded_value = (codes "encoding", text (codes "rot13")) ∷ value_only

abbrev rot13 : Attributes
rot13 = (codes "type", text (codes "versioned")) ∷ coded_value

-- The file is there from the time 5, and has another secret from the time 8.
abbrev versions : ℕ → Store
versions t =
    stored path ((codes "value", text (if ltb t 8 then codes "old" else codes "new")) ∷ []) [] none

abbrev late : Files Store (Unit {0})
late = record {
  getmtime = λ w t. (if ltb t 5 then none else some t, w, t);
  load = λ w t. (some (versions t), w, t);
}

abbrev calls : List (ℕ × (Option Store → Result SecretsError Attributes))
calls = (1, get_raw path) ∷ (5, get_raw path) ∷ (5, get_raw path) ∷ []

abbrev answers : List (Result SecretsError Attributes)
answers =
    err (not_available no_file)
    ∷ ok ((codes "value", text (codes "old")) ∷ [])
    ∷ ok ((codes "value", text (codes "old")) ∷ [])
    ∷ []

old_value_kept : map (λ (getter, answer). answer) (run late none new_watcher tt 0 calls) ≡ answers
unfolding run new_watcher get_cached get_data get_file loaded get_raw lookup bytes_eq
old_value_kept = refl

run-FromOneReading_example : FromOneReading (run late none new_watcher tt 0 calls)
run-FromOneReading_example = run-FromOneReading late new_watcher tt 0 calls

-- `get_simple` of a value that is no text, and of a value in base64 that is not ASCII
abbrev simple : Attribute → Bytes → Store
simple value encoding =
    stored path
      ((codes "type", text (codes "simple"))
        ∷ (codes "value", value)
        ∷ (codes "encoding", text encoding)
        ∷ [])
      [] none

number_value :
    get_simple (decode 0) path (some (simple (other true) (codes "identity"))) ≡ err attribute_error
unfolding get_simple get_raw lookup bytes_eq decode_secret
number_value = refl

accented_value :
    get_simple (decode 0) path (some (simple (text (233 ∷ [])) (codes "base64"))) ≡ err value_error
unfolding get_simple get_raw lookup bytes_eq decode_secret decode_base64 is_ascii
accented_value = refl
