-- ===== src/Inventory.antt =====
-- baseplate/lib/service_discovery.py: the inventory of the backends of a service. The entries of
-- the file are objects with all of its keys; `_parse` raises for any others.
pub mod Choosing
mod Tests
use baseplate_py.Prelude.{
  ℕ, Option, none, some, List, [], ◌∷◌, ◌++◌, Result, ok, err, ◌>>=◌, Bytes, numeral,
}
use baseplate_py.Prelude.Int.{ℤ, pos}
use baseplate_py.Config.{Endpoint, parse_endpoint}
use baseplate_py.Lottery.{WeightedLottery, make_lottery, pick, last_or}
use baseplate_py.FileWatcher.{Files, FileWatcher, WatcherError, Outcome, get_data}

pub record Entry : Type 0 where
  pub id : ℤ
  pub name : Bytes
  pub host : Bytes
  pub port : ℤ
  pub weight : Option ℤ

pub record Backend : Type 0 where
  pub id : ℤ
  pub name : Bytes
  pub endpoint : Endpoint
  pub weight : ℤ

-- `_Inventory`
pub record Inventory : Type 0 where
  pub backends : List Backend
  pub lottery : Option (WeightedLottery Backend)

abbrev pub weight_or_1 : Option ℤ → ℤ
weight_or_1 none = pos 1
weight_or_1 (some weight) = weight

abbrev pub no_error : {E A : Type 0} → Result E A → Option A
no_error (ok a) = some a
no_error (err e) = none

abbrev pub then_some : {A B : Type 0} → Option A → (A → Option B) → Option B
then_some none f = none
then_some (some a) f = f a

-- the loop of `_parse`; none is the ValueError of an endpoint
unfoldable pub parse_backends : List Entry → Option (List Backend)
parse_backends [] = some []
parse_backends (d ∷ entries) =
    then_some (no_error (parse_endpoint (d.host ++ (58 ∷ numeral d.port)))) (λ endpoint.
      then_some (parse_backends entries) (λ backends. some (
        record { id = d.id; name = d.name; endpoint = endpoint; weight = weight_or_1 d.weight }
        ∷ backends)))

unfoldable pub make_inventory : List Backend → Option Inventory
make_inventory [] = some (record { backends = []; lottery = none })
make_inventory (b ∷ backends) =
    then_some (no_error (make_lottery (b ∷ backends) (λ b. b.weight)))
      (λ lottery. some (record { backends = b ∷ backends; lottery = some lottery }))

-- `_parse`; none is an exception
unfoldable pub parse : List Entry → Option Inventory
unfolding parse_backends make_inventory
parse entries = then_some (parse_backends entries) make_inventory

-- NoBackendsAvailableError, and Python's own errors
pub data InventoryError : Type 0 where
  no_backends attribute_error index_error : InventoryError

module _ {W : Type 0} (entries : Files (List Entry) W) where
  -- the file, with `_parse` as the parser of its watcher
  abbrev pub parsed_load : Option (List Entry) × W × ℕ → Option Inventory × W × ℕ
  parsed_load (content, w, t) = (then_some content parse, w, t)

  abbrev pub inventory_files : Files Inventory W
  inventory_files = record {
    getmtime = entries.getmtime;
    load = λ w t. parsed_load (entries.load w t);
  }

-- `get_backends`, of what the watcher gives
unfoldable pub get_backends :
    Result WatcherError (Option Inventory) → Result InventoryError (List Backend)
get_backends (err e) = ok []
get_backends (ok none) = err attribute_error
get_backends (ok (some inventory)) = ok inventory.backends

abbrev pub picked : Option Backend → Result InventoryError Backend
picked none = err index_error
picked (some b) = ok b

-- `inventory.lottery.pick()`, of the tickets that are drawn for each total weight
abbrev pub pick_backend : Option (WeightedLottery Backend) → (ℕ → ℕ) → Result InventoryError Backend
pick_backend none draw = err no_backends
pick_backend (some lottery) draw = picked (pick lottery (draw (last_or 0 lottery.weights)))

-- `get_backend`
unfoldable pub get_backend :
    Result WatcherError (Option Inventory) → (ℕ → ℕ) → Result InventoryError Backend
get_backend (err e) draw = err no_backends
get_backend (ok none) draw = err attribute_error
get_backend (ok (some inventory)) draw = pick_backend inventory.lottery draw
