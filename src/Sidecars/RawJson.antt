-- ===== src/Sidecars/RawJson.antt =====
-- baseplate/sidecars/__init__.py: `RawJSONBatch`, which `TraceBatch` of trace_publisher.py extends.
pub mod Laws
use baseplate_py.Prelude.{
  ℕ, suc, ◌+◌, ◌≡◌, ◌≤◌, Bool, true, false, Option, none, some, List, [], ◌∷◌, ◌++◌, length, Result,
  ok, err, Bytes, arith, ltb, if◌then◌else◌, refl,
}
use baseplate_py.Sidecars.Batch.{SerializedBatch, BatchFull, batch_full, Batch, is_falsy, join}

pub record RawJsonBatch : Type 0 where
  pub max_size : ℕ
  pub items : List Bytes
  pub size : ℕ

-- the [] that wrap the json list take two bytes
unfoldable pub reset : RawJsonBatch → RawJsonBatch
reset b = record b { items = []; size = 2 }

-- `__init__`
unfoldable pub new : ℕ → RawJsonBatch
new max_size = record { max_size = max_size; items = []; size = 2 }

append : Bytes → RawJsonBatch → Result BatchFull RawJsonBatch
append item b =
    let serialized_size = length item + 1 in
    if ltb b.max_size (b.size + serialized_size)
    then err batch_full
    else ok (record b { items = b.items ++ item ∷ []; size = b.size + serialized_size })

unfoldable pub add : Option Bytes → RawJsonBatch → Result BatchFull RawJsonBatch
unfolding append
add none b = ok b
add (some []) b = ok b
add (some (c ∷ cs)) b = append (c ∷ cs) b

unfoldable pub serialize : RawJsonBatch → SerializedBatch
serialize b = record { item_count = length b.items; serialized = 91 ∷ join b.items ++ 93 ∷ [] }

abbrev pub raw_json : Batch RawJsonBatch
raw_json = record { add = add; serialize = serialize; reset = reset }
