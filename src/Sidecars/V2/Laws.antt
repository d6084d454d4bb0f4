-- ===== src/Sidecars/V2/Laws.antt =====
-- The laws of `V2Batch`: its items, its size and `max_size`.
use baseplate_py.Prelude.{
  ℕ, ◌+◌, ◌≡◌, ◌≤◌, Option, none, some, List, [], ◌∷◌, ◌++◌, length, ok, Bytes, arith, refl, max,
  append-nil, length-append, decimal, length-decimal, ◌<◌,
}
use baseplate_py.Sidecars.Batch.{
  BatchLaws, join, contribution, total_size, total_size-append, length-join,
}
use baseplate_py.Sidecars.V2.{V2Batch, add, serialize, reset, v2, header_start, header_end, end}

-- Made with `max_size=limit`, the size is counted and stays within it.
pub record IsValid (limit : ℕ) (b : V2Batch) : Type 0 where
  pub limited : b.max_size ≡ limit
  pub counted : b.size ≡ 27 + total_size b.items
  pub within : b.size ≤ max limit 27

-- A message that an empty batch has room for.
abbrev pub Fits : V2Batch → Option Bytes → Type 0
Fits b none = Unit
Fits b (some []) = Unit
Fits b (some (c ∷ cs)) = 27 + (length (c ∷ cs) + 1) ≤ b.max_size

abbrev pub encode : List Bytes → Bytes
encode xs = (header_start ++ (decimal (length xs) ++ header_end)) ++ (join xs ++ end)

pub add_items :
    (m : Option Bytes) (b b' : V2Batch) → add m b ≡ ok b' → b'.items ≡ b.items ++ contribution m
unfolding add
add_items none b b' e = rw append-nil (cc)
add_items (some []) b b' e = rw append-nil (cc)
add_items (some (c ∷ cs)) b b' e = ground arith

pub add-IsValid :
    (limit : ℕ) (m : Option Bytes) (b b' : V2Batch)
    → IsValid limit b
    → add m b ≡ ok b'
    → IsValid limit b'
unfolding add
add-IsValid limit none b b' v e = ground arith
add-IsValid limit (some []) b b' v e = ground arith
add-IsValid limit (some (c ∷ cs)) b b' v e = ground (arith, total_size-append b.items (c ∷ cs))

pub add-Fits : (m n : Option Bytes) (b b' : V2Batch) → Fits b n → add m b ≡ ok b' → Fits b' n
unfolding add
add-Fits none n b b' f e = ground arith
add-Fits (some []) n b b' f e = ground arith
add-Fits (some (c ∷ cs)) none b b' f e = tt
add-Fits (some (c ∷ cs)) (some []) b b' f e = tt
add-Fits (some (c ∷ cs)) (some (d ∷ ds)) b b' f e = ground arith

pub add_reset :
    (m : Option Bytes) (b : V2Batch) → Fits b m → (b' : V2Batch) × (add m (reset b) ≡ ok b')
unfolding add reset
add_reset none b f = (record b { items = []; size = 27 }, refl)
add_reset (some []) b f = (record b { items = []; size = 27 }, refl)
add_reset (some (c ∷ cs)) b f =
    (record b { items = (c ∷ cs) ∷ []; size = 27 + (length (c ∷ cs) + 1) }, ground arith)

pub reset-Fits : (m : Option Bytes) (b : V2Batch) → Fits b m → Fits (reset b) m
unfolding reset
reset-Fits none b f = f
reset-Fits (some []) b f = f
reset-Fits (some (c ∷ cs)) b f = f

length-encode_parts :
    (xs : List Bytes) → length (encode xs) ≡ length (decimal (length xs)) + length (join xs) + 23
length-encode_parts xs =
    let number = decimal (length xs) ++ header_end in
    omega (
      arith,
      length-append (decimal (length xs)) header_end,
      length-append (join xs) end,
      length-append number (join xs ++ end),
    )

length-encode : (xs : List Bytes) → length xs < 100_000 → length (encode xs) ≤ 27 + total_size xs
length-encode [] h = omega (arith, length-encode_parts [], length-decimal 0 0 (omega arith))
length-encode (x ∷ xs) h =
    omega
      (arith, length-encode_parts (x ∷ xs), length-decimal 4 (length (x ∷ xs)) h, length-join x xs)

pub reset-IsValid : (limit : ℕ) (b : V2Batch) → IsValid limit b → IsValid limit (reset b)
unfolding reset
reset-IsValid limit b v = ground arith

-- What `BatchLaws` asks of an implementation.
unfoldable pub v2_laws : ℕ → BatchLaws v2
unfolding serialize reset
v2_laws limit = record {
  items = λ b. b.items;
  IsValid = IsValid limit;
  Fits = Fits;
  encode = encode;
  items-add = add_items;
  add-IsValid = add-IsValid limit;
  add-Fits = add-Fits;
  items-reset = λ b. refl;
  reset-IsValid = reset-IsValid limit;
  reset-Fits = reset-Fits;
  add-reset = add_reset;
  serialize_lem = λ b. (refl, refl);
}

-- What a valid batch puts on the wire is no longer than `max_size`, if that leaves room for the
-- wrapper and the batch has fewer than 100,000 events.
pub v2_size_bound :
    (limit : ℕ) (b : V2Batch)
    → IsValid limit b
    → length b.items < 100_000
    → length (serialize b).serialized ≤ max limit 27
unfolding serialize
v2_size_bound limit b v h = omega (arith, v.counted, v.within, length-encode b.items h)
