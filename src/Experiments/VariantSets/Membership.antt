-- ===== src/Experiments/VariantSets/Membership.antt =====
-- Whether a chosen variant is one of the set's.
use Prim.Native.String.{String}
use text.Mathlib.TextPositions.{eq_refl}
use baseplate_py.Prelude.{◌≡◌, ℕ, true, some, List, [], ◌∷◌, ok, arith, inl, inr, Option-cases}
use baseplate_py.Prelude.Int.{ℤ, ◌+ℤ◌}
use baseplate_py.Experiments.VariantSets.{
  Floats, Variant, VariantSet, single_set, multi_set, rollout_set, range_set, choose_single,
  choose_multi, choose_rollout, choose_range, choose_variant, any_named, contains_variant,
}

module _ {F : Type 0} (floats : Floats F) where
  choose_multi-contains :
      (vs : List (Variant F)) (n bucket : ℕ) (offset : ℤ) (s : String)
      → choose_multi floats vs n bucket offset ≡ ok (some s)
      → any_named vs s ≡ true
  unfolding choose_multi any_named
  choose_multi-contains [] n bucket offset s h = ground arith
  choose_multi-contains (v ∷ vs) n bucket offset s h = elim (Option-cases v.size) [
    | inl e ↦ let h' = rw e at h in ground arith
    | inr (a, e) ↦
        let h' = rw e at h in
        ground (arith, eq_refl s, choose_multi-contains vs n bucket (offset +ℤ floats.scaled a n) s)
  ]

  choose_range-contains :
      (vs : List (Variant F)) (n bucket : ℕ) (s : String)
      → choose_range floats vs n bucket ≡ ok (some s)
      → any_named vs s ≡ true
  unfolding choose_range any_named
  choose_range-contains [] n bucket s h = ground arith
  choose_range-contains (v ∷ vs) n bucket s h =
      ground (arith, eq_refl s, choose_range-contains vs n bucket s)

  -- For each of the four kinds of variant sets, and whether or not the set passed its validation, a
  -- variant that choose_variant returns for a bucket is one that the set contains.
  pub choose_variant-contains :
      (set : VariantSet F) (bucket : ℕ) (s : String)
      → choose_variant floats set bucket ≡ ok (some s)
      → contains_variant set s ≡ true
  unfolding choose_variant contains_variant choose_single choose_rollout
  choose_variant-contains (single_set v w n) bucket s h = ground (arith, eq_refl s)
  choose_variant-contains (multi_set vs n) bucket s h = choose_multi-contains vs n bucket _ s h
  choose_variant-contains (rollout_set v n) bucket s h = ground (arith, eq_refl s)
  choose_variant-contains (range_set vs n) bucket s h = choose_range-contains vs n bucket s h
