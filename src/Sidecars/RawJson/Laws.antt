-- ===== src/Sidecars/RawJson/Laws.antt =====
-- The laws of `RawJSONBatch`: its items, its size and `max_size`.
use baseplate_py.Prelude.{
  ℕ, ◌+◌, ◌≡◌, ◌≤◌, Option, none, some, List, [], ◌∷◌, ◌++◌, length, ok, Bytes, arith, refl, max,
  append-nil, length-append,
}
use baseplate_py.Sidecars.Batch.{
  BatchLaws, join, contribution, total_size, total_size-append, length-join,
}
use baseplate_py.Sidecars.RawJson.{RawJsonBatch, add, serialize, reset, raw_json}

-- Made with `max_size=limit`, the size is counted and stays within it.
pub record IsValid (limit : ℕ) (b : RawJsonBatch) : Type 0 where
  pub limited : b.max_size ≡ limit
  pub counted : b.size ≡ 2 + total_size b.items
  pub within : b.size ≤ max limit 2

-- A message that an empty batch has room for.
abbrev pub Fits : RawJsonBatch → Option Bytes → Type 0
Fits b none = Unit
Fits b (some []) = Unit
Fits b (some (c ∷ cs)) = 2 + (length (c ∷ cs) + 1) ≤ b.max_size

abbrev pub encode : List Bytes → Bytes
encode xs = 91 ∷ join xs ++ 93 ∷ []

pub add_items :
    (m : Option Bytes) (b b' : RawJsonBatch)
    → add m b ≡ ok b'
    → b'.items ≡ b.items ++ contribution m
unfolding add
add_items none b b' e = rw append-nil (cc)
add_items (some []) b b' e = rw append-nil (cc)
add_items (some (c ∷ cs)) b b' e = ground arith

pub add-IsValid :
    (limit : ℕ) (m : Option Bytes) (b b' : RawJsonBatch)
    → IsValid limit b
    → add m b ≡ ok b'
    → IsValid limit b'
unfolding add
add-IsValid limit none b b' v e = ground arith
add-IsValid limit (some []) b b' v e = ground arith
add-IsValid limit (some (c ∷ cs)) b b' v e = ground (arith, total_size-append b.items (c ∷ cs))

pub add-Fits : (m n : Option Bytes) (b b' : RawJsonBatch) → Fits b n → add m b ≡ ok b' → Fits b' n
unfolding add
add-Fits none n b b' f e = ground arith
add-Fits (some []) n b b' f e = ground arith
add-Fits (some (c ∷ cs)) none b b' f e = tt
add-Fits (some (c ∷ cs)) (some []) b b' f e = tt
add-Fits (some (c ∷ cs)) (some (d ∷ ds)) b b' f e = ground arith

pub add_reset :
    (m : Option Bytes) (b : RawJsonBatch)
    → Fits b m
    → (b' : RawJsonBatch) × (add m (reset b) ≡ ok b')
unfolding add reset
add_reset none b f = (record b { items = []; size = 2 }, refl)
add_reset (some []) b f = (record b { items = []; size = 2 }, refl)
add_reset (some (c ∷ cs)) b f =
    (record b { items = (c ∷ cs) ∷ []; size = 2 + (length (c ∷ cs) + 1) }, ground arith)

pub reset-Fits : (m : Option Bytes) (b : RawJsonBatch) → Fits b m → Fits (reset b) m
unfolding reset
reset-Fits none b f = f
reset-Fits (some []) b f = f
reset-Fits (some (c ∷ cs)) b f = f

length-encode : (xs : List Bytes) → length (encode xs) ≤ 2 + total_size xs
length-encode [] = omega arith
length-encode (x ∷ xs) = omega (arith, length-append (join (x ∷ xs)) (93 ∷ []), length-join x xs)

pub reset-IsValid : (limit : ℕ) (b : RawJsonBatch) → IsValid limit b → IsValid limit (reset b)
unfolding reset
reset-IsValid limit b v = ground arith

-- What `BatchLaws` asks of an implementation.
unfoldable pub raw_json_laws : ℕ → BatchLaws raw_json
unfolding serialize reset
raw_json_laws limit = record {
  items = λ b. b.items;
  IsValid = IsValid limit;
  Fits = Fits;
  encode = encode;
  items-add = add_items;
  add-IsValid = add-IsValid limit;
  add-Fits = add-Fits;
  items-reset = λ b. refl;
  reset-IsValid = reset-IsValid limit;
  reset-Fits = reset-Fits;
  add-reset = add_reset;
  serialize_lem = λ b. (refl, refl);
}

-- What a valid batch puts on the wire is no longer than `max_size`, or is the empty list.
pub raw_json_size_bound :
    (limit : ℕ) (b : RawJsonBatch) → IsValid limit b → length (serialize b).serialized ≤ max limit 2
unfolding serialize
raw_json_size_bound limit b v = omega (arith, v.counted, v.within, length-encode b.items)
