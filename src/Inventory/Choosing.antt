-- ===== src/Inventory/Choosing.antt =====
-- baseplate/lib/service_discovery.py: the backends that are listed and chosen.
use baseplate_py.Prelude.{
  ℕ, ◌<◌, ◌≡◌, refl, ◌∙◌, sym, Option, none, some, List, [], ◌∷◌, ◌++◌, Result, ok, err, arith, inl,
  inr, ◌⊎◌, Option-cases, Result-cases,
}
use baseplate_py.Prelude.Int.{ℤ, pos_part}
use baseplate_py.Lottery.{WeightedLottery, make_lottery, last_or}
use baseplate_py.Lottery.Picking.{sum_weights, pick-wins, last_or-sum, make_lottery-made}
use baseplate_py.FileWatcher.{Files, FileWatcher, WatcherError, get_data}
use baseplate_py.FileWatcher.Reading.{
  Polled, polled, newest, Answers, Polled-IsWatching, get_data-All, get_data-Current,
}
use baseplate_py.Inventory.{
  Entry, Backend, Inventory, parse_backends, make_inventory, parse, inventory_files, InventoryError,
  no_backends, attribute_error, get_backend,
}

-- An inventory has a lottery of its backends, or no backends.
abbrev pub IsBuilt : Inventory → Type 0
IsBuilt inventory =
    ((inventory.backends ≡ []) × (inventory.lottery ≡ none))
    ⊎ ((lottery : WeightedLottery Backend) × (inventory.lottery ≡ some lottery)
        × (make_lottery inventory.backends (λ b. b.weight) ≡ ok lottery))

make_inventory-IsBuilt :
    (backends : List Backend) (inventory : Inventory)
    → make_inventory backends ≡ some inventory
    → IsBuilt inventory
unfolding make_inventory
make_inventory-IsBuilt [] inventory e =
    let same : record { backends = []; lottery = none } ≡ inventory = cc in
    rw (← same) (inl (refl, refl))
make_inventory-IsBuilt (b ∷ backends) inventory e =
    elim (Result-cases (make_lottery (b ∷ backends) (λ b. b.weight))) [
      | inr (x, failed) ↦ absurd (ground arith)
      | inl (lottery, made) ↦
          let same : record { backends = b ∷ backends; lottery = some lottery } ≡ inventory =
            ground arith in
          rw (← same) (inr (lottery, refl, made))
    ]

parse-IsBuilt :
    (entries : List Entry) (inventory : Inventory)
    → parse entries ≡ some inventory
    → IsBuilt inventory
unfolding parse
parse-IsBuilt entries inventory e = elim (Option-cases (parse_backends entries)) [
  | inl wrong ↦ absurd (ground arith)
  | inr (backends, made) ↦ make_inventory-IsBuilt backends inventory (ground arith)
]

-- The answer is one of the backends, with a positive weight, or an error if there is none.
abbrev pub Chooses : Inventory → Result InventoryError Backend → Type 0
Chooses inventory answer =
    ((inventory.backends ≡ []) × (answer ≡ err no_backends))
    ⊎ ((b : Backend) × (answer ≡ ok b)
        × (0 < pos_part b.weight)
        × ((before : List Backend) × (after : List Backend) × (inventory.backends
              ≡ before ++ (b ∷ after))))

get_backend-Chooses :
    (inventory : Inventory) (draw : ℕ → ℕ)
    → ((total : ℕ) → 0 < total → draw total < total)
    → IsBuilt inventory
    → Chooses inventory (get_backend (ok (some inventory)) draw)
unfolding get_backend
get_backend-Chooses inventory draw fair (inl (empty, nothing)) = inl (empty, rw nothing refl)
get_backend-Chooses inventory draw fair (inr (lottery, there, made)) =
    let weight : Backend → ℤ = λ b. b.weight in
    let (weights, same, heavy_total) = make_lottery-made weight inventory.backends lottery made in
    let total = last_or-sum weight 0 inventory.backends lottery.weights weights in
    let ticket = draw (last_or 0 lottery.weights) in
    let below : ticket < sum_weights weight inventory.backends =
      omega (arith, total, fair (last_or 0 lottery.weights)) in
    let (b, wins, heavy, listed) = pick-wins weight inventory.backends lottery ticket made below in
    inr (b, rw there (rw wins refl), heavy, listed)

-- The answer for what the newest load that succeeded gave; there is no backend before one has.
abbrev pub Chosen : Option Inventory → Result InventoryError Backend → Type 0
Chosen none answer = (answer ≡ err no_backends) ⊎ (answer ≡ err attribute_error)
Chosen (some inventory) answer = Chooses inventory answer

answer-Chosen :
    (draw : ℕ → ℕ)
    → ((total : ℕ) → 0 < total → draw total < total)
    → (answer : Result WatcherError (Option Inventory)) (f : FileWatcher Inventory)
    → Answers answer f
    → ((inventory : Inventory) → newest f.loads ≡ some inventory → IsBuilt inventory)
    → Chosen (newest f.loads) (get_backend answer draw)
unfolding get_backend
answer-Chosen draw fair (err e) f answers built = rw answers (inl refl)
answer-Chosen draw fair (ok none) f answers built = rw (← answers) (inr refl)
answer-Chosen draw fair (ok (some inventory)) f answers built =
    rw (← answers) (get_backend-Chooses inventory draw fair (built inventory (sym answers)))

module _ {W : Type 0} (entries : Files (List Entry) W) where
  load-IsBuilt :
      (w : W) (t : ℕ) (inventory : Inventory)
      → ((inventory_files entries).load w t).0 ≡ some inventory
      → IsBuilt inventory
  load-IsBuilt w t inventory e = elim (Option-cases (entries.load w t).0) [
    | inl gone ↦ absurd (ground arith)
    | inr (content, read) ↦ parse-IsBuilt content inventory (ground arith)
  ]

  -- However the file comes, goes and changes, and whatever it holds: `get_backend` chooses one of
  -- the backends of the newest inventory that was parsed, with a positive weight, and raises only
  -- if that has no backends or if none was parsed yet. Tickets are drawn below the total weight.
  pub get_backend-Chosen :
      {f : FileWatcher Inventory} (w : W) (now : ℕ) (draw : ℕ → ℕ)
      → ((total : ℕ) → 0 < total → draw total < total)
      → Polled (inventory_files entries) f
      → let (answer, f', _, _) = get_data (inventory_files entries) f w now in
        Chosen (newest f'.loads) (get_backend answer draw)
  unfolding get_backend
  get_backend-Chosen {f} w now draw fair p =
      let files = inventory_files entries in
      let next = Polled-IsWatching files (polled w now p) in
      let built = get_data-All files IsBuilt load-IsBuilt (polled w now p) in
      let answers = (get_data-Current files w now p).0 in
      answer-Chosen draw fair (get_data files f w now).0 (get_data files f w now).1 answers
        (λ d e. built d (next.current ∙ e))
