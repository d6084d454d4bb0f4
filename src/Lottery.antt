-- ===== src/Lottery.antt =====
-- baseplate/lib/random.py: the weighted lottery, with `bisect` of the standard library. A ticket is
-- the whole part of `random.random() * self.weights[-1]`, and below the total weight; comparisons
-- with whole weights do not see the rest. The random numbers are an argument.
pub mod Bisection
pub mod Picking
pub mod Sampling
mod Tests
use baseplate_py.Prelude.{
  ℕ, zero, suc, ◌+◌, ◌/◌, ◌≤◌, ◌<◌, ◌≡◌, Bool, true, false, ◌||◌, Option, none, some, List, [], ◌∷◌,
  ltb, leb, ◌==◌, if◌then◌else◌, length, Result, ok, err, ◌>>=◌,
}
use baseplate_py.Prelude.Int.{ℤ, pos, negsuc, ltb_ℤ}

pub data ValueError : Type 0 where
  empty_items negative_weight no_weight bad_sample_size : ValueError

pub record WeightedLottery (A : Type 0) : Type 0 where
  pub weights : List ℕ
  pub items : List A

-- the running total, from the items' weights
unfoldable pub accumulate : {A : Type 0} → (A → ℤ) → ℕ → List A → Result ValueError (List ℕ)
accumulate weight_key total [] = ok []
accumulate weight_key total (item ∷ items) = elim (weight_key item) [
  | negsuc _ ↦ err negative_weight
  | pos weight ↦
      accumulate weight_key (total + weight) items >>= λ weights. ok ((total + weight) ∷ weights)
]

abbrev pub last_or : ℕ → List ℕ → ℕ
last_or d [] = d
last_or d (w ∷ ws) = last_or w ws

-- `__init__`
unfoldable pub make_lottery :
    {A : Type 0} → List A → (A → ℤ) → Result ValueError (WeightedLottery A)
unfolding accumulate
make_lottery [] weight_key = err empty_items
make_lottery (item ∷ items) weight_key = accumulate weight_key 0 (item ∷ items) >>= λ weights.
    if last_or 0 weights == 0
    then err no_weight
    else ok (record { weights = weights; items = item ∷ items })

abbrev pub get_elem? : {A : Type 0} → List A → ℕ → Option A
get_elem? [] i = none
get_elem? (x ∷ xs) zero = some x
get_elem? (x ∷ xs) (suc i) = get_elem? xs i

abbrev pub get_or : List ℕ → ℕ → ℕ → ℕ
get_or [] i d = d
get_or (w ∷ ws) zero d = w
get_or (w ∷ ws) (suc i) d = get_or ws i d

-- `bisect.bisect`, between `lo` and `hi`; the fuel is a bound of their distance
unfoldable pub bisect_loop : ℕ → List ℕ → ℕ → ℕ → ℕ → ℕ
bisect_loop zero weights x lo hi = lo
bisect_loop (suc fuel) weights x lo hi =
    let mid = (lo + hi) / 2 in
    let left = bisect_loop fuel weights x lo mid in
    let right = bisect_loop fuel weights x (mid + 1) hi in
    if ltb lo hi then (if ltb x (get_or weights mid 0) then left else right) else lo

unfoldable pub bisect : List ℕ → ℕ → ℕ
unfolding bisect_loop
bisect weights x = bisect_loop (length weights) weights x 0 (length weights)

abbrev pub is_member : ℕ → List ℕ → Bool
is_member i [] = false
is_member i (j ∷ picked) = (j == i) || is_member i picked

module _ {A : Type 0} (lottery : WeightedLottery A) where
  -- `_pick_index`
  unfoldable pub pick_index : ℕ → ℕ
  unfolding bisect
  pick_index ticket = bisect lottery.weights ticket

  -- `pick`; none would be an IndexError
  unfoldable pub pick : ℕ → Option A
  unfolding pick_index
  pick ticket = get_elem? lottery.items (pick_index ticket)

  -- the inner loop of `sample`: the first index that is new, and the tickets after it
  unfoldable pub draw : List ℕ → List ℕ → Option (ℕ × List ℕ)
  unfolding pick_index
  draw picked [] = none
  draw picked (ticket ∷ tickets) =
      let again = draw picked tickets in
      if is_member (pick_index ticket) picked then again else some (pick_index ticket, tickets)

  -- the outer loop, from the indexes that are picked; none where the tickets ran out
  unfoldable pub sample_indexes : ℕ → List ℕ → List ℕ → Option (List ℕ)
  sample_indexes zero picked tickets = some []
  sample_indexes (suc n) picked tickets = elim (draw picked tickets) [
    | none ↦ none
    | some (i, rest) ↦ elim (sample_indexes n (i ∷ picked) rest) [
      | none ↦ none
      | some indexes ↦ some (i ∷ indexes)
    ]
  ]

  -- `sample`, by the indexes of the items; the inner none stands for a loop that is still running
  unfoldable pub sample : ℤ → List ℕ → Result ValueError (Option (List ℕ))
  unfolding sample_indexes
  sample (negsuc _) tickets = err bad_sample_size
  sample (pos n) tickets =
      if ltb n (length lottery.items) then ok (sample_indexes n [] tickets) else err bad_sample_size
