-- ===== src/Sidecars/V2.antt =====
-- baseplate/sidecars/event_publisher.py: `V2Batch`, the TJSONProtocol container of events.
pub mod Laws
use baseplate_py.Prelude.{
  ℕ, ◌+◌, Option, none, some, List, [], ◌∷◌, ◌++◌, length, Result, ok, err, Bytes, codes, decimal,
  ltb, if◌then◌else◌,
}
use baseplate_py.Sidecars.Batch.{SerializedBatch, BatchFull, batch_full, Batch, join}

pub record V2Batch : Type 0 where
  pub max_size : ℕ
  pub items : List Bytes
  pub size : ℕ

-- `_header` is these around the conversion `%01d`, which prints a number with no padding.
abbrev pub header_start : Bytes
header_start = codes "{\"1\":{\"lst\":[\"rec\","

abbrev pub conversion : Bytes
conversion = codes "%01d"

abbrev pub header_end : Bytes
header_end = codes ","

abbrev pub end : Bytes
end = codes "]}}"

-- the estimate counts the conversion in place of the number
abbrev pub initial_size : ℕ
initial_size = length (header_start ++ conversion ++ header_end) + length end

unfoldable pub reset : V2Batch → V2Batch
reset b = record b { items = []; size = initial_size }

-- `__init__`
unfoldable pub new : ℕ → V2Batch
new max_size = record { max_size = max_size; items = []; size = initial_size }

append : Bytes → V2Batch → Result BatchFull V2Batch
append item b =
    let serialized_size = length item + 1 in
    if ltb b.max_size (b.size + serialized_size)
    then err batch_full
    else ok (record b { items = b.items ++ item ∷ []; size = b.size + serialized_size })

unfoldable pub add : Option Bytes → V2Batch → Result BatchFull V2Batch
unfolding append
add none b = ok b
add (some []) b = ok b
add (some (c ∷ cs)) b = append (c ∷ cs) b

unfoldable pub serialize : V2Batch → SerializedBatch
serialize b =
    let header = header_start ++ (decimal (length b.items) ++ header_end) in
    record { item_count = length b.items; serialized = header ++ (join b.items ++ end) }

abbrev pub v2 : Batch V2Batch
v2 = record { add = add; serialize = serialize; reset = reset }
