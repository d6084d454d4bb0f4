-- ===== src/Sidecars/Batch.antt =====
-- baseplate/sidecars/__init__.py: `Batch`, an interface, and what its implementations have in
-- common.
use baseplate_py.Prelude.{
  ℕ, ◌+◌, ◌≡◌, Bool, true, false, Option, none, some, List, [], ◌∷◌, ◌++◌, length, Result, ok,
  Bytes, arith, length-append,
}

pub record SerializedBatch : Type 0 where
  pub item_count : ℕ
  pub serialized : Bytes

pub data BatchFull : Type 0 where
  batch_full : BatchFull

-- `not item`
abbrev pub is_falsy : Option Bytes → Bool
is_falsy none = true
is_falsy (some []) = true
is_falsy (some (_ ∷ _)) = false

-- The methods of `Batch`. `add` and `reset` return the changed object.
pub record Batch (B : Type 0) : Type 0 where
  pub add : Option Bytes → B → Result BatchFull B
  pub serialize : B → SerializedBatch
  pub reset : B → B

-- What was added: nothing is kept of a missing or an empty message.
abbrev pub contribution : Option Bytes → List Bytes
contribution none = []
contribution (some []) = []
contribution (some (c ∷ cs)) = (c ∷ cs) ∷ []

-- What a client of `Batch` relies on. `Fits` says which messages an empty batch has room for, and
-- `encode` what the items become on the wire.
pub record BatchLaws {B : Type 0} (batch : Batch B) : Type 1 where
  pub items : B → List Bytes
  pub IsValid : B → Type 0
  pub Fits : B → Option Bytes → Type 0
  pub encode : List Bytes → Bytes
  pub items-add :
      (m : Option Bytes) (b b' : B) → batch.add m b ≡ ok b' → items b' ≡ items b ++ contribution m
  pub add-IsValid : (m : Option Bytes) (b b' : B) → IsValid b → batch.add m b ≡ ok b' → IsValid b'
  pub add-Fits : (m n : Option Bytes) (b b' : B) → Fits b n → batch.add m b ≡ ok b' → Fits b' n
  pub items-reset : (b : B) → items (batch.reset b) ≡ []
  pub reset-IsValid : (b : B) → IsValid b → IsValid (batch.reset b)
  pub reset-Fits : (m : Option Bytes) (b : B) → Fits b m → Fits (batch.reset b) m
  pub add-reset :
      (m : Option Bytes) (b : B) → Fits b m → (b' : B) × (batch.add m (batch.reset b) ≡ ok b')
  pub serialize_lem :
      (b : B)
      → (batch.serialize b).item_count ≡ length (items b)
        × ((batch.serialize b).serialized ≡ encode (items b))

-- b",".join(items)
abbrev pub join : List Bytes → Bytes
join [] = []
join (x ∷ []) = x
join (x ∷ y ∷ xs) = x ++ 44 ∷ join (y ∷ xs)

-- The items with a comma after each.
abbrev pub total_size : List Bytes → ℕ
total_size [] = 0
total_size (x ∷ xs) = length x + 1 + total_size xs

pub length-join : (x : Bytes) (xs : List Bytes) → length (join (x ∷ xs)) + 1 ≡ total_size (x ∷ xs)
length-join x [] = omega arith
length-join x (y ∷ xs) = omega (arith, length-append x (44 ∷ join (y ∷ xs)), length-join y xs)

pub total_size-append :
    (xs : List Bytes) (y : Bytes) → total_size (xs ++ y ∷ []) ≡ total_size xs + (length y + 1)
total_size-append [] y = omega arith
total_size-append (x ∷ xs) y = omega (arith, total_size-append xs y)
