-- ===== src/Lottery/Tests.antt =====
-- Runs of the lottery, and the theorems at concrete inputs. An item is its own weight.
use baseplate_py.Prelude.{ℕ, ◌<◌, ◌≡◌, refl, none, some, List, [], ◌∷◌, ◌++◌, ok, length, arith}
use baseplate_py.Prelude.Int.{pos}
use baseplate_py.Lottery.{WeightedLottery, make_lottery, pick, pick_index, sample, draw}
use baseplate_py.Lottery.Picking.{pick-wins}
use baseplate_py.Lottery.Sampling.{sample-Sampled, sample-stuck}

abbrev weights : List ℕ
weights = 2 ∷ 0 ∷ 3 ∷ []

abbrev lottery : WeightedLottery ℕ
lottery = record { weights = 2 ∷ 2 ∷ 5 ∷ []; items = weights }

made : make_lottery weights pos ≡ ok lottery
unfolding make_lottery
made = refl

pick-wins_example :
    (x : ℕ) × (pick lottery 1 ≡ some x)
    × (0 < x)
    × ((before : List ℕ) × (after : List ℕ) × (weights ≡ before ++ (x ∷ after)))
pick-wins_example = pick-wins pos weights lottery 1 made (omega arith)

-- Tickets 4 and 3 win for the same item.
sample-Sampled_example : length {A = ℕ} (2 ∷ 0 ∷ []) ≡ 2
unfolding sample pick_index draw
sample-Sampled_example =
    (sample-Sampled pos lottery weights made 2 (4 ∷ 3 ∷ 1 ∷ []) (2 ∷ 0 ∷ []) (omega arith) refl).0

abbrev one_weight : WeightedLottery ℕ
one_weight = record { weights = 0 ∷ 0 ∷ 5 ∷ []; items = 0 ∷ 0 ∷ 5 ∷ [] }

one_weight_made : make_lottery (0 ∷ 0 ∷ 5 ∷ []) pos ≡ ok one_weight
unfolding make_lottery
one_weight_made = refl

sample-stuck_example : sample one_weight (pos 2) (4 ∷ 3 ∷ 1 ∷ []) ≡ ok none
sample-stuck_example =
    sample-stuck pos one_weight (0 ∷ 0 ∷ 5 ∷ []) one_weight_made 2 (4 ∷ 3 ∷ 1 ∷ []) (omega arith)
      (omega arith) (omega arith)
