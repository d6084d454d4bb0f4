-- ===== src/Lottery/Sampling.antt =====
-- `sample`: what it gives, and when it can end.
use baseplate_py.Prelude.{
  ℕ, zero, suc, ◌+◌, ◌≤◌, ◌<◌, ◌≡◌, refl, sym, true, false, not, ◌&&◌, none, some, List, [], ◌∷◌,
  ◌++◌, length, arith, ok, inl, inr, Bool-cases, Option-cases, ltb, if◌then◌else◌, All, lt→ltb,
}
use baseplate_py.Prelude.Int.{ℤ, pos, pos_part}
use baseplate_py.Lottery.{
  WeightedLottery, make_lottery, get_elem?, pick_index, is_member, draw, sample_indexes, sample,
}
use baseplate_py.Lottery.Picking.{
  sum_weights, owner, pick_index-interval, get_elem?-append, make_lottery-made,
}

-- Each index is none of those before it.
abbrev pub Fresh : List ℕ → List ℕ → Type 0
Fresh picked [] = Unit
Fresh picked (i ∷ indexes) = (is_member i picked ≡ false) × Fresh (i ∷ picked) indexes

module _ {A : Type 0} (weight_key : A → ℤ) (l : WeightedLottery A) where
  -- how many items with a weight there are from position i on, less those that are picked
  abbrev pub left_over : List ℕ → ℕ → List A → ℕ
  left_over picked i [] = 0
  left_over picked i (x ∷ xs) =
      (if ltb 0 (pos_part (weight_key x)) && not (is_member i picked) then 1 else 0)
      + left_over picked (suc i) xs

  left_over-passed :
      (picked : List ℕ) (j i : ℕ) (xs : List A)
      → j < i
      → left_over (j ∷ picked) i xs ≡ left_over picked i xs
  left_over-passed picked j i [] h = refl
  left_over-passed picked j i (x ∷ xs) h = ground (arith, left_over-passed picked j (suc i) xs)

  left_over-picked :
      (picked : List ℕ) (j i : ℕ) (before : List A) (x : A) (after : List A)
      → j ≡ i + length before
      → 0 < pos_part (weight_key x)
      → is_member j picked ≡ false
      → left_over (j ∷ picked) i (before ++ (x ∷ after)) + 1
        ≡ left_over picked i (before ++ (x ∷ after))
  left_over-picked picked j i [] x after e h new =
      ground (arith, left_over-passed picked j (suc i) after)
  left_over-picked picked j i (y ∷ before) x after e h new =
      ground (arith, left_over-picked picked j (suc i) before x after)

  draw-new :
      (picked tickets : List ℕ) (i : ℕ) (rest : List ℕ) (P : ℕ → Type 0)
      → All P tickets
      → draw l picked tickets ≡ some (i, rest)
      → (is_member i picked ≡ false) × ((t : ℕ) × (P t) × (i ≡ pick_index l t)) × All P rest
  unfolding draw
  draw-new picked [] i rest P a e = cc
  draw-new picked (t ∷ tickets) i rest P a e =
      elim (Bool-cases (is_member (pick_index l t) picked)) [
        | inl old ↦ draw-new picked tickets i rest P a.1 (rw (old, draw) at e)
        | inr new ↦
            let e' = rw (new, draw) at e in
            let index : pick_index l t ≡ i = cc in
            let same : tickets ≡ rest = cc in
            (rw (← index) new, (t, a.0, sym index), rw (← same) a.1)
      ]

  module _ (items : List A) (made : make_lottery items weight_key ≡ ok l) where
    -- A drawn index is the place of an item with a weight.
    abbrev pub IsWeighted : ℕ → Type 0
    IsWeighted i = (x : A) × (get_elem? items i ≡ some x) × (0 < pos_part (weight_key x))

    abbrev pub Ticket : ℕ → Type 0
    Ticket t = t < sum_weights weight_key items

    split-owned :
        (picked : List ℕ) (t : ℕ) (before : List A) (x : A) (after : List A)
        → items ≡ before ++ (x ∷ after)
        → sum_weights weight_key before ≤ t
        → t < sum_weights weight_key before + pos_part (weight_key x)
        → is_member (pick_index l t) picked ≡ false
        → IsWeighted (pick_index l t)
          × (left_over (pick_index l t ∷ picked) 0 items + 1 ≡ left_over picked 0 items)
    split-owned picked t before x after parts low high new =
        let index = pick_index-interval weight_key items l before x after t made parts low high in
        let weight : 0 < pos_part (weight_key x) = omega (arith, low, high) in
        let place : pick_index l t ≡ 0 + length before = omega (arith, index) in
        (
          (x, rw index (rw parts (get_elem?-append weight_key before x after)), weight),
          rw parts (left_over-picked picked (pick_index l t) 0 before x after place weight new),
        )

    index-owned :
        (picked : List ℕ) (t : ℕ)
        → Ticket t
        → is_member (pick_index l t) picked ≡ false
        → IsWeighted (pick_index l t)
          × (left_over (pick_index l t ∷ picked) 0 items + 1 ≡ left_over picked 0 items)
    index-owned picked t h new =
        let o = owner weight_key items 0 t (omega arith) (omega arith) in
        split-owned picked t o.before o.item o.after o.parts (omega (arith, o.low))
          (omega (arith, o.high)) new

    sample_indexes-Sampled :
        (n : ℕ) (picked tickets indexes : List ℕ)
        → All Ticket tickets
        → sample_indexes l n picked tickets ≡ some indexes
        → (length indexes ≡ n)
          × Fresh picked indexes
          × All IsWeighted indexes
          × (n ≤ left_over picked 0 items)
    unfolding sample_indexes
    sample_indexes-Sampled zero picked tickets indexes a e =
        let same : [] ≡ indexes = cc in rw (← same) (refl, tt, tt, omega arith)
    sample_indexes-Sampled (suc n) picked tickets indexes a e =
        elim (Option-cases (draw l picked tickets)) [
          | inl out ↦ absurd (ground arith)
          | inr ((i, rest), drawn) ↦ elim (Option-cases (sample_indexes l n (i ∷ picked) rest)) [
            | inl out ↦ absurd (ground arith)
            | inr (more, later) ↦
                let (new, (t, below, index), left) =
                  draw-new picked tickets i rest Ticket a drawn in
                let owned : IsWeighted i
                    × (left_over (i ∷ picked) 0 items + 1 ≡ left_over picked 0 items) =
                  rw index (index-owned picked t below (rw index at new)) in
                let (len, fresh, weighted, enough) =
                  sample_indexes-Sampled n (i ∷ picked) rest more left later in
                let same : i ∷ more ≡ indexes = ground arith in
                rw (← same) (
                  omega (arith, len),
                  (new, fresh),
                  (owned.0, weighted),
                  omega (arith, enough, owned.1),
                )
          ]
        ]

    -- A sample that ends, of tickets below the total weight, has as many indexes as were asked for,
    -- all different, each the place of an item whose weight is not 0; and the items with a weight
    -- are that many at least.
    pub sample-Sampled :
        (n : ℕ) (tickets indexes : List ℕ)
        → All Ticket tickets
        → sample l (pos n) tickets ≡ ok (some indexes)
        → (length indexes ≡ n)
          × Fresh [] indexes
          × All IsWeighted indexes
          × (n ≤ left_over [] 0 items)
    unfolding sample
    sample-Sampled n tickets indexes a e =
        sample_indexes-Sampled n [] tickets indexes a (ground arith)

    -- Where fewer items have a weight than the sample is to have, but it is smaller than the
    -- population, `sample` does not raise, and no tickets end its loop.
    pub sample-stuck :
        (n : ℕ) (tickets : List ℕ)
        → All Ticket tickets
        → n < length items
        → left_over [] 0 items < n
        → sample l (pos n) tickets ≡ ok none
    unfolding sample
    sample-stuck n tickets a small few =
        let (_, same, _) = make_lottery-made weight_key items l made in
        let accepted : ltb n (length l.items) ≡ true = rw same (lt→ltb n (length items) small) in
        elim (Option-cases (sample_indexes l n [] tickets)) [
          | inl running ↦ rw accepted (rw running refl)
          | inr (indexes, ended) ↦
              let sampled = sample_indexes-Sampled n [] tickets indexes a ended in
              absurd (omega (arith, sampled.3))
        ]
