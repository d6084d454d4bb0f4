-- ===== src/Experiments/VariantSets/Buckets.antt =====
-- Which buckets of a multi variant set a variant is given.
use Prim.Native.String.{String}
use baseplate_py.Prelude.{
  ◌≡◌, refl, ℕ, true, none, some, List, [], ◌∷◌, ◌++◌, ok, arith, All, subst, inl, inr,
  Option-cases, ◌∙◌,
}
use baseplate_py.Prelude.Int.{ℤ, pos, ◌+ℤ◌, ◌≤ℤ◌, ltb_ℤ, +ℤ_parts}
use baseplate_py.Experiments.VariantSets.{Floats, Variant, choose_multi, sum_sizes}

le_trans_ℤ : (a b c : ℤ) → a ≤ℤ b → b ≤ℤ c → a ≤ℤ c
le_trans_ℤ a b c h k = omega arith

module _ {F : Type 0} (floats : Floats F) (n : ℕ) where
  abbrev pub HasSize : Variant F → Type 0
  HasSize v = (a : F) → v.size ≡ some a → pos 0 ≤ℤ floats.scaled a n

  pub sum_sizes-step :
      (v : Variant F) (vs : List (Variant F)) (offset total : ℤ)
      → sum_sizes floats (v ∷ vs) n offset ≡ ok total
      → (a : F) × ((v.size ≡ some a)
          × (sum_sizes floats vs n (offset +ℤ floats.scaled a n) ≡ ok total))
  unfolding sum_sizes
  sum_sizes-step v vs offset total e = elim (Option-cases v.size) [
    | inl f ↦ let e' = rw f at e in ground arith
    | inr (a, f) ↦ let e' = rw f at e in (a, (f, e'))
  ]

  sum_sizes-nil : (offset total : ℤ) → sum_sizes floats [] n offset ≡ ok total → offset ≤ℤ total
  unfolding sum_sizes
  sum_sizes-nil offset total e =
      let same : offset ≡ total = cc in subst (λ t. offset ≤ℤ t) same (omega arith)

  sum_sizes-le :
      (vs : List (Variant F)) (offset total : ℤ)
      → All HasSize vs
      → sum_sizes floats vs n offset ≡ ok total
      → offset ≤ℤ total
  sum_sizes-le [] offset total h e = sum_sizes-nil offset total e
  sum_sizes-le (v ∷ vs) offset total (h, hs) e =
      let (a, rest) = sum_sizes-step v vs offset total e in
      let (f, e') = rest in
      let g = h a f in
      let k = sum_sizes-le vs (offset +ℤ floats.scaled a n) total hs e' in
      ground (arith, +ℤ_parts offset (floats.scaled a n))

  choose_multi-skips :
      (v : Variant F) (vs : List (Variant F)) (a : F) (bucket : ℕ) (offset : ℤ)
      → v.size ≡ some a
      → (offset +ℤ floats.scaled a n) ≤ℤ pos bucket
      → choose_multi floats (v ∷ vs) n bucket offset
        ≡ choose_multi floats vs n bucket (offset +ℤ floats.scaled a n)
  unfolding choose_multi
  choose_multi-skips v vs a bucket offset e h = rw e (ground arith)

  -- Where no size before variant v is negative, v is chosen on every bucket from the sum of the
  -- sizes before it (and the offset where the search starts) up to that sum and its own size,
  -- whatever variants follow.
  pub choose_multi-interval :
      (vs ws : List (Variant F)) (v : Variant F) (a : F) (s : String) (bucket : ℕ)
      (offset total : ℤ)
      → All HasSize vs
      → sum_sizes floats vs n offset ≡ ok total
      → v.size ≡ some a
      → v.name ≡ some s
      → total ≤ℤ pos bucket
      → ltb_ℤ (pos bucket) (total +ℤ floats.scaled a n) ≡ true
      → choose_multi floats (vs ++ v ∷ ws) n bucket offset ≡ ok (some s)
  unfolding choose_multi sum_sizes
  choose_multi-interval [] ws v a s bucket offset total h e f g le lt =
      let same : offset ≡ total = cc in rw (f, same, lt, g)
  choose_multi-interval (w ∷ vs) ws v a s bucket offset total (h, hs) e f g le lt =
      let (b, rest) = sum_sizes-step w vs offset total e in
      let (k, e') = rest in
      choose_multi-skips w (vs ++ v ∷ ws) b bucket offset k (
        le_trans_ℤ (offset +ℤ floats.scaled b n) total (pos bucket)
          (sum_sizes-le vs (offset +ℤ floats.scaled b n) total hs e') le)
      ∙ choose_multi-interval vs ws v a s bucket (offset +ℤ floats.scaled b n) total hs e' f g le lt

  -- A bucket at or past the sum of all sizes (and the offset where the search starts), none of them
  -- negative, is given no variant.
  pub choose_multi-outside :
      (vs : List (Variant F)) (bucket : ℕ) (offset total : ℤ)
      → All HasSize vs
      → sum_sizes floats vs n offset ≡ ok total
      → total ≤ℤ pos bucket
      → choose_multi floats vs n bucket offset ≡ ok none
  unfolding choose_multi
  choose_multi-outside [] bucket offset total h e le = refl
  choose_multi-outside (w ∷ vs) bucket offset total (h, hs) e le =
      let (b, rest) = sum_sizes-step w vs offset total e in
      let (k, e') = rest in
      choose_multi-skips w vs b bucket offset k (
        le_trans_ℤ (offset +ℤ floats.scaled b n) total (pos bucket)
          (sum_sizes-le vs (offset +ℤ floats.scaled b n) total hs e') le)
      ∙ choose_multi-outside vs bucket (offset +ℤ floats.scaled b n) total hs e' le
