-- ===== src/Experiments/VariantSets/Validation.antt =====
-- What the validation of a variant set means for the choice of a variant.
use Prim.Native.String.{String}
use baseplate_py.Prelude.{
  ◌≡◌, refl, subst, ℕ, Option, none, some, List, [], ◌∷◌, Result, ok, arith, inl, inr, All,
  Bool-cases, Option-cases, Result-cases,
}
use baseplate_py.Prelude.Int.{ℤ, pos, ◌+ℤ◌, ltb_ℤ, leb_ℤ}
use baseplate_py.Experiments.VariantSets.{
  Floats, Variant, VariantSet, VariantError, single_set, multi_set, rollout_set, range_set,
  make_single, make_multi, make_rollout, make_range, single_size, sum_sizes, sum_ranges,
  choose_single, choose_multi, choose_rollout, choose_range, choose_variant, in_range,
}
use baseplate_py.Experiments.VariantSets.Buckets.{sum_sizes-step}

abbrev pub HasName : {F : Type 0} → Variant F → Type 0
HasName v = (s : String) × (v.name ≡ some s)

abbrev pub Chooses : Result VariantError (Option String) → Type 0
Chooses r = (o : Option String) × (r ≡ ok o)

module _ {F : Type 0} (floats : Floats F) (n bucket : ℕ) where
  choose_multi-Chooses :
      (vs : List (Variant F)) (offset total t : ℤ)
      → All HasName vs
      → sum_sizes floats vs n total ≡ ok t
      → Chooses (choose_multi floats vs n bucket offset)
  unfolding choose_multi
  choose_multi-Chooses [] offset total t h e = (none, refl)
  choose_multi-Chooses (v ∷ vs) offset total t ((s, g), hs) e =
      let (a, rest) = sum_sizes-step floats n v vs total t e in
      let (f, e') = rest in
      let (o, k) =
        choose_multi-Chooses vs (offset +ℤ floats.scaled a n) (total +ℤ floats.scaled a n) t hs
          e' in
      elim (Bool-cases (ltb_ℤ (pos bucket) (offset +ℤ floats.scaled a n))) [
        | inl c ↦ (some s, rw (f, c, g))
        | inr c ↦ (o, rw (f, c, k))
      ]

  sum_ranges-step :
      (v : Variant F) (vs : List (Variant F)) (total t : ℤ)
      → sum_ranges floats (v ∷ vs) n total ≡ ok t
      → (a b : F) × ((v.range_start ≡ some a)
          × ((v.range_end ≡ some b)
              × (sum_ranges floats vs n (total +ℤ floats.scaled (floats.sub b a) n) ≡ ok t)))
  unfolding sum_ranges
  sum_ranges-step v vs total t e = elim (Option-cases v.range_end) [
    | inl f ↦ let e' = rw f at e in ground arith
    | inr (b, f) ↦ elim (Option-cases v.range_start) [
      | inl g ↦ let e' = rw (f, g) at e in ground arith
      | inr (a, g) ↦ let e' = rw (f, g) at e in (a, b, (g, (f, e')))
    ]
  ]

  choose_range-Chooses :
      (vs : List (Variant F)) (total t : ℤ)
      → All HasName vs
      → sum_ranges floats vs n total ≡ ok t
      → Chooses (choose_range floats vs n bucket)
  unfolding choose_range
  choose_range-Chooses [] total t h e = (none, refl)
  choose_range-Chooses (v ∷ vs) total t ((s, g), hs) e =
      let (a, b, rest) = sum_ranges-step v vs total t e in
      let (f, rest') = rest in
      let (f', e') = rest' in
      let (o, k) = choose_range-Chooses vs (total +ℤ floats.scaled (floats.sub b a) n) t hs e' in
      elim (Bool-cases (in_range floats n bucket a b)) [
        | inl c ↦ (some s, rw (f, f', c, g))
        | inr c ↦ (o, rw (f, f', c, k))
      ]

  choose_single-Chooses :
      (v w : Variant F) (a b : F)
      → HasName v
      → HasName w
      → v.size ≡ some a
      → w.size ≡ some b
      → Chooses (choose_single floats v w n bucket)
  unfolding choose_single
  choose_single-Chooses v w a b (s, g) (t, h) e f =
      elim (Bool-cases (ltb_ℤ (pos bucket) (floats.scaled a n))) [
        | inl c ↦ (some s, rw (e, c, g))
        | inr c ↦ elim (Bool-cases (leb_ℤ (pos n) (pos bucket +ℤ floats.scaled b n))) [
          | inl d ↦ (some t, rw (e, c, f, d, h))
          | inr d ↦ (none, rw (e, c, f, d))
        ]
      ]

  abbrev pub Answerable : VariantSet F → Type 0
  Answerable set = Chooses (choose_variant floats set bucket)

  pub make_multi-Answerable :
      (vs : List (Variant F)) (set : VariantSet F)
      → All HasName vs
      → make_multi floats (some vs) n ≡ ok set
      → Answerable set
  unfolding make_multi choose_variant
  make_multi-Answerable vs set h e = elim (Result-cases (sum_sizes floats vs n (pos 0))) [
    | inl (t, f) ↦
        let built : multi_set vs n ≡ set = ground arith in
        subst Answerable built (choose_multi-Chooses vs (pos 0) (pos 0) t h f)
    | inr (x, f) ↦ ground arith
  ]

  pub make_range-Answerable :
      (vs : List (Variant F)) (set : VariantSet F)
      → All HasName vs
      → make_range floats (some vs) n ≡ ok set
      → Answerable set
  unfolding make_range choose_variant
  make_range-Answerable [] set h e = ground arith
  make_range-Answerable (v ∷ vs) set h e =
      elim (Result-cases (sum_ranges floats (v ∷ vs) n (pos 0))) [
        | inl (t, f) ↦
            let built : range_set (v ∷ vs) n ≡ set = ground arith in
            subst Answerable built (choose_range-Chooses (v ∷ vs) (pos 0) t h f)
        | inr (x, f) ↦ ground arith
      ]

  pub make_single-Answerable :
      (vs : List (Variant F)) (set : VariantSet F)
      → All HasName vs
      → make_single floats (some vs) n ≡ ok set
      → Answerable set
  unfolding make_single single_size choose_variant
  make_single-Answerable [] set h e = ground arith
  make_single-Answerable (v ∷ []) set h e = ground arith
  make_single-Answerable (v ∷ w ∷ x ∷ vs) set h e = ground arith
  make_single-Answerable (v ∷ w ∷ []) set (hv, (hw, h)) e = elim (Option-cases v.size) [
    | inl f ↦ let e' = rw f at e in ground arith
    | inr (a, f) ↦ elim (Option-cases w.size) [
      | inl g ↦ let e' = rw (f, g) at e in ground arith
      | inr (b, g) ↦
          let e' = rw (f, g) at e in
          let built : single_set v w n ≡ set = ground arith in
          subst Answerable built (choose_single-Chooses v w a b hv hw f g)
    ]
  ]

  pub make_rollout-Answerable :
      (vs : List (Variant F)) (set : VariantSet F)
      → make_rollout floats (some vs) n ≡ ok set
      → Answerable set
  unfolding make_rollout choose_variant choose_rollout
  make_rollout-Answerable [] set e = ground arith
  make_rollout-Answerable (v ∷ w ∷ vs) set e = ground arith
  make_rollout-Answerable (v ∷ []) set e = elim (Option-cases v.size) [
    | inl f ↦ let e' = rw f at e in ground arith
    | inr (a, f) ↦
        let e' = rw f at e in
        let built : rollout_set v n ≡ set = ground arith in
        subst Answerable built (elim (Bool-cases (ltb_ℤ (pos bucket) (floats.scaled a n))) [
          | inl c ↦ (v.name, rw (f, c))
          | inr c ↦ (none, rw (f, c))
        ])
  ]
