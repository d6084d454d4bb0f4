-- ===== src/Lottery/Picking.antt =====
-- `pick`: which tickets win for which item.
use baseplate_py.Prelude.{
  ℕ, ◌+◌, ◌≤◌, ◌<◌, ◌≡◌, refl, ◌∙◌, ap, some, List, [], ◌∷◌, ◌++◌, length, arith, false, ok,
  first_ok, inl, inr, ◌==◌, lt_or_ge,
}
use baseplate_py.Prelude.Int.{ℤ, pos_part, ℤ-cases}
use baseplate_py.Lottery.{
  WeightedLottery, accumulate, make_lottery, last_or, get_elem?, pick, pick_index,
}
use baseplate_py.Lottery.Bisection.{Ascends, rank, bisect-rank}

module _ {A : Type 0} (weight_key : A → ℤ) where
  abbrev pub sum_weights : List A → ℕ
  sum_weights [] = 0
  sum_weights (x ∷ xs) = pos_part (weight_key x) + sum_weights xs

  -- a step of the constructor that succeeds
  accumulate-cons :
      (t : ℕ) (x : A) (xs : List A) (ws : List ℕ)
      → accumulate weight_key t (x ∷ xs) ≡ ok ws
      → let total = t + pos_part (weight_key x) in
        (rest : List ℕ) × (accumulate weight_key total xs ≡ ok rest) × (ws ≡ total ∷ rest)
  unfolding accumulate
  accumulate-cons t x xs ws e = elim (ℤ-cases (weight_key x)) [
    | inl (n, w) ↦
        let e' = rw (w, accumulate) at e in
        let (rest, r, made) = first_ok (accumulate weight_key (t + n) xs) _ e' in
        rw w (rest, r, ground arith)
    | inr (n, w) ↦ absurd (ground arith)
  ]

  accumulate-nil : (t : ℕ) (ws : List ℕ) → accumulate weight_key t [] ≡ ok ws → [] ≡ ws
  unfolding accumulate
  accumulate-nil t ws e = cc

  accumulate-Ascends :
      (t : ℕ) (xs : List A) (ws : List ℕ) → accumulate weight_key t xs ≡ ok ws → Ascends t ws
  accumulate-Ascends t [] ws e = rw (← accumulate-nil t ws e) tt
  accumulate-Ascends t (x ∷ xs) ws e =
      let (rest, r, made) = accumulate-cons t x xs ws e in
      rw made (omega arith, accumulate-Ascends (t + pos_part (weight_key x)) xs rest r)

  -- the total that the constructor tests
  pub last_or-sum :
      (t : ℕ) (xs : List A) (ws : List ℕ)
      → accumulate weight_key t xs ≡ ok ws
      → last_or t ws ≡ t + sum_weights xs
  last_or-sum t [] ws e = rw (← accumulate-nil t ws e) (omega arith)
  last_or-sum t (x ∷ xs) ws e =
      let (rest, r, made) = accumulate-cons t x xs ws e in
      rw made (omega (arith, last_or-sum (t + pos_part (weight_key x)) xs rest r))

  rank_above_all : (k t : ℕ) (ws : List ℕ) → Ascends t ws → k < t → rank k ws ≡ 0
  rank_above_all k t [] a h = refl
  rank_above_all k t (w ∷ ws) a h = ground (arith, rank_above_all k w ws a.1)

  rank-interval :
      (t k : ℕ) (before : List A) (x : A) (after : List A) (ws : List ℕ)
      → accumulate weight_key t (before ++ (x ∷ after)) ≡ ok ws
      → t + sum_weights before ≤ k
      → k < t + sum_weights before + pos_part (weight_key x)
      → rank k ws ≡ length before
  rank-interval t k [] x after ws e l h =
      let (rest, r, made) = accumulate-cons t x after ws e in
      let total = t + pos_part (weight_key x) in
      let zero_left =
        rank_above_all k total rest (accumulate-Ascends total after rest r) (omega arith) in
      rw made (ground (arith, zero_left))
  rank-interval t k (y ∷ before) x after ws e l h =
      let (rest, r, made) = accumulate-cons t y (before ++ (x ∷ after)) ws e in
      let more =
        rank-interval (t + pos_part (weight_key y)) k before x after rest r (omega arith)
          (omega arith) in
      rw made (ground (arith, more))

  pub get_elem?-append :
      (before : List A) (x : A) (after : List A)
      → get_elem? (before ++ (x ∷ after)) (length before) ≡ some x
  get_elem?-append [] x after = refl
  get_elem?-append (y ∷ before) x after = get_elem?-append before x after

  -- What the constructor makes.
  pub make_lottery-made :
      (items : List A) (l : WeightedLottery A)
      → make_lottery items weight_key ≡ ok l
      → (accumulate weight_key 0 items ≡ ok l.weights) × (l.items ≡ items) × (0 < sum_weights items)
  unfolding make_lottery
  make_lottery-made [] l e = cc
  make_lottery-made (x ∷ items) l e =
      let (ws, r, made) = first_ok (accumulate weight_key 0 (x ∷ items)) _ e in
      let total = last_or-sum 0 (x ∷ items) ws r in
      let some_weight : (last_or 0 ws == 0) ≡ false = ground arith in
      let same : l ≡ record { weights = ws; items = x ∷ items } = ground arith in
      (ground arith, ground arith, ground (arith, total))

  pub pick_index-interval :
      (items : List A) (l : WeightedLottery A) (before : List A) (x : A) (after : List A)
      (ticket : ℕ)
      → make_lottery items weight_key ≡ ok l
      → items ≡ before ++ (x ∷ after)
      → sum_weights before ≤ ticket
      → ticket < sum_weights before + pos_part (weight_key x)
      → pick_index l ticket ≡ length before
  unfolding pick_index
  pick_index-interval items l before x after ticket e parts low high =
      let (r, same, _) = make_lottery-made items l e in
      let r' = rw parts at r in
      bisect-rank l.weights ticket (accumulate-Ascends 0 items l.weights r)
      ∙ rank-interval 0 ticket before x after l.weights r' (omega arith) (omega arith)

  -- An item wins for each ticket from the total weight of the items before it up to, and without,
  -- that total with its own weight.
  pub pick-interval :
      (items : List A) (l : WeightedLottery A) (before : List A) (x : A) (after : List A)
      (ticket : ℕ)
      → make_lottery items weight_key ≡ ok l
      → items ≡ before ++ (x ∷ after)
      → sum_weights before ≤ ticket
      → ticket < sum_weights before + pos_part (weight_key x)
      → pick l ticket ≡ some x
  unfolding pick
  pick-interval items l before x after ticket e parts low high =
      let (r, same, _) = make_lottery-made items l e in
      rw (pick_index-interval items l before x after ticket e parts low high)
        (rw same (rw parts (get_elem?-append before x after)))

  -- The item whose interval a ticket lies in.
  pub record Owner (items : List A) (t k : ℕ) : Type 0 where
    pub before : List A
    pub item : A
    pub after : List A
    pub parts : items ≡ before ++ (item ∷ after)
    pub low : t + sum_weights before ≤ k
    pub high : k < t + sum_weights before + pos_part (weight_key item)

  pub owner : (items : List A) (t k : ℕ) → t ≤ k → k < t + sum_weights items → Owner items t k
  owner [] t k l h = absurd (omega arith)
  owner (x ∷ items) t k l h = elim (lt_or_ge k (t + pos_part (weight_key x))) [
    | inl less ↦ record {
      before = [];
      item = x;
      after = items;
      parts = refl;
      low = omega arith;
      high = omega arith;
    }
    | inr more ↦
        let rest = owner items (t + pos_part (weight_key x)) k more (omega arith) in
        record {
          before = x ∷ rest.before;
          item = rest.item;
          after = rest.after;
          parts = ap (λ l. x ∷ l) rest.parts;
          low = omega (arith, rest.low);
          high = omega (arith, rest.high);
        }
  ]

  -- Every ticket below the total weight picks an item, one of those that the lottery was made of,
  -- whose weight is not 0.
  pub pick-wins :
      (items : List A) (l : WeightedLottery A) (ticket : ℕ)
      → make_lottery items weight_key ≡ ok l
      → ticket < sum_weights items
      → (x : A) × (pick l ticket ≡ some x)
        × (0 < pos_part (weight_key x))
        × ((before : List A) × (after : List A) × (items ≡ before ++ (x ∷ after)))
  pick-wins items l ticket e h =
      let o = owner items 0 ticket (omega arith) (omega arith) in
      (
        o.item,
        pick-interval items l o.before o.item o.after ticket e o.parts (omega (arith, o.low))
            (omega (arith, o.high)),
        omega (arith, o.low, o.high),
        (o.before, o.after, o.parts),
      )
