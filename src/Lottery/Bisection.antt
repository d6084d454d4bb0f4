-- ===== src/Lottery/Bisection.antt =====
-- `bisect` on an ascending list, against a count.
use baseplate_py.Prelude.{
  ℕ, zero, suc, ◌+◌, ◌-◌, ◌/◌, ◌≤◌, ◌<◌, ◌≡◌, refl, List, [], ◌∷◌, length, arith, leb,
  if◌then◌else◌,
}
use baseplate_py.Lottery.{bisect, bisect_loop, get_or}

abbrev pub Ascends : ℕ → List ℕ → Type 0
Ascends b [] = Unit
Ascends b (w ∷ ws) = (b ≤ w) × Ascends w ws

-- how many of the weights are at most x
abbrev pub rank : ℕ → List ℕ → ℕ
rank x [] = 0
rank x (w ∷ ws) = (if leb w x then 1 else 0) + rank x ws

pub rank-le : (x : ℕ) (ws : List ℕ) → rank x ws ≤ length ws
rank-le x [] = omega arith
rank-le x (w ∷ ws) = ground (arith, rank-le x ws)

rank_above : (x b : ℕ) (ws : List ℕ) → Ascends b ws → x < b → rank x ws ≡ 0
rank_above x b [] a h = refl
rank_above x b (w ∷ ws) a h = ground (arith, rank_above x w ws a.1)

rank-above :
    (x b i : ℕ) (ws : List ℕ) → Ascends b ws → i < length ws → x < get_or ws i 0 → rank x ws ≤ i
rank-above x b i [] a l h = omega arith
rank-above x b zero (w ∷ ws) a l h = ground (arith, rank_above x w ws a.1)
rank-above x b (suc i) (w ∷ ws) a l h = ground (arith, rank-above x w i ws a.1)

get_or-ge : (b i : ℕ) (ws : List ℕ) → Ascends b ws → i < length ws → b ≤ get_or ws i 0
get_or-ge b i [] a l = absurd (omega arith)
get_or-ge b zero (w ∷ ws) a l = a.0
get_or-ge b (suc i) (w ∷ ws) a l = omega (arith, a.0, get_or-ge w i ws a.1 (omega arith))

rank-below :
    (x b i : ℕ) (ws : List ℕ) → Ascends b ws → i < length ws → get_or ws i 0 ≤ x → i < rank x ws
rank-below x b i [] a l h = absurd (omega arith)
rank-below x b zero (w ∷ ws) a l h = ground arith
rank-below x b (suc i) (w ∷ ws) a l h =
    ground (arith, rank-below x w i ws a.1, get_or-ge w i ws a.1)

bisect_loop-rank :
    (fuel : ℕ) (ws : List ℕ) (x lo hi : ℕ)
    → Ascends 0 ws
    → hi - lo ≤ fuel
    → lo ≤ rank x ws
    → rank x ws ≤ hi
    → hi ≤ length ws
    → bisect_loop fuel ws x lo hi ≡ rank x ws
unfolding bisect_loop
bisect_loop-rank zero ws x lo hi a f l h n = omega arith
bisect_loop-rank (suc fuel) ws x lo hi a f l h n =
    let mid = (lo + hi) / 2 in
    ground (
      arith,
      rank-above x 0 mid ws a,
      rank-below x 0 mid ws a,
      bisect_loop-rank fuel ws x lo mid a,
      bisect_loop-rank fuel ws x (mid + 1) hi a,
    )

-- On an ascending list, bisection gives the number of weights that are at most x.
pub bisect-rank : (ws : List ℕ) (x : ℕ) → Ascends 0 ws → bisect ws x ≡ rank x ws
unfolding bisect
bisect-rank ws x a =
    bisect_loop-rank (length ws) ws x 0 (length ws) a (omega arith) (omega arith) (rank-le x ws)
      (omega arith)
