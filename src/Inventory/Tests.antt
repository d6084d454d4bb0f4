-- ===== src/Inventory/Tests.antt =====
-- An inventory of two backends.
use baseplate_py.Prelude.{
  ℕ, ◌-◌, ◌≡◌, refl, none, some, List, [], ◌∷◌, ok, codes, decimal, int, arith,
}
use baseplate_py.Prelude.Int.{pos}
use baseplate_py.Config.{inet, parse_endpoint, has_char, partition, internet_address}
use baseplate_py.Lottery.{make_lottery, accumulate, pick, pick_index, bisect, bisect_loop}
use baseplate_py.FileWatcher.{Files, new_watcher, loaded, get_data}
use baseplate_py.FileWatcher.Reading.{newest, unread}
use baseplate_py.Inventory.{
  Entry, parse, parse_backends, make_inventory, inventory_files, get_backend,
}
use baseplate_py.Inventory.Choosing.{Chosen, get_backend-Chosen}

abbrev first : Entry
first = record {
  id = pos 1;
  name = codes "one";
  host = codes "10.0.0.1";
  port = pos 80;
  weight = none;
}

abbrev second : Entry
second = record {
  id = pos 2;
  name = codes "two";
  host = codes "10.0.0.2";
  port = pos 80;
  weight = some (pos 3);
}

abbrev there : Files (List Entry) (Unit {0})
there = record {
  getmtime = λ w t. (some 7, w, t);
  load = λ w t. (some (first ∷ second ∷ []), w, t);
}

-- the last ticket
abbrev highest : ℕ → ℕ
highest total = total - 1

second_is_chosen :
    get_backend (get_data (inventory_files there) new_watcher tt 0).0 highest
    ≡ ok (record {
      id = pos 2;
      name = codes "two";
      endpoint = inet (codes "10.0.0.2") (pos 80);
      weight = pos 3;
    })
unfolding get_backend get_data loaded new_watcher parse parse_backends make_inventory parse_endpoint
    has_char partition internet_address int decimal make_lottery accumulate pick pick_index bisect
    bisect_loop
second_is_chosen = refl

get_backend-Chosen_example :
    Chosen
      (newest (get_data (inventory_files there) new_watcher tt 0).1.loads)
      (get_backend (get_data (inventory_files there) new_watcher tt 0).0 highest)
get_backend-Chosen_example =
    get_backend-Chosen there tt 0 highest (λ total some_weight. omega arith) unread
