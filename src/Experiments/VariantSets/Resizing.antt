-- ===== src/Experiments/VariantSets/Resizing.antt =====
-- What changing the sizes of a single or a rollout variant set does to the buckets.
use baseplate_py.Prelude.{◌≡◌, ℕ, true, none, some, ok, arith, ◌⊎◌}
use baseplate_py.Prelude.Int.{pos, ◌+ℤ◌, ◌≤ℤ◌, ltb_ℤ, +ℤ_parts}
use baseplate_py.Experiments.VariantSets.{Floats, Variant, choose_single, choose_rollout}

abbrev resized : {F : Type 0} → Variant F → F → Variant F
resized v a = record {
  name = v.name;
  size = some a;
  range_start = v.range_start;
  range_end = v.range_end;
}

module _ {F : Type 0} (floats : Floats F) (n : ℕ) where
  -- When the size of a feature rollout goes from a to b, with int(a * num_buckets) at most int(b *
  -- num_buckets), a bucket keeps what it had unless it lies from the old limit up to the new one,
  -- where it had no variant and is given this one.
  pub choose_rollout-resized :
      (v : Variant F) (a b : F) (bucket : ℕ)
      → floats.scaled a n ≤ℤ floats.scaled b n
      → (choose_rollout floats (resized v a) n bucket
          ≡ choose_rollout floats (resized v b) n bucket)
        ⊎ ((floats.scaled a n ≤ℤ pos bucket)
            × ((ltb_ℤ (pos bucket) (floats.scaled b n) ≡ true)
                × ((choose_rollout floats (resized v a) n bucket ≡ ok none)
                    × (choose_rollout floats (resized v b) n bucket ≡ ok v.name))))
  unfolding choose_rollout
  choose_rollout-resized v a b bucket h = ground arith

  -- When both sizes of a single variant set are at least the old ones, and together still fit in
  -- the buckets, every bucket that had one of the two variants keeps it: only buckets without a
  -- variant change.
  pub choose_single-grown :
      (v w : Variant F) (a b a' b' : F) (bucket : ℕ)
      → floats.scaled a n ≤ℤ floats.scaled a' n
      → floats.scaled b n ≤ℤ floats.scaled b' n
      → (floats.scaled a' n +ℤ floats.scaled b' n) ≤ℤ pos n
      → (choose_single floats (resized v a) (resized w b) n bucket ≡ ok none)
        ⊎ (choose_single floats (resized v a) (resized w b) n bucket
            ≡ choose_single floats (resized v a') (resized w b') n bucket)
  unfolding choose_single
  choose_single-grown v w a b a' b' bucket h k l = ground (
    arith,
    +ℤ_parts (floats.scaled a' n) (floats.scaled b' n),
    +ℤ_parts (pos bucket) (floats.scaled b n),
    +ℤ_parts (pos bucket) (floats.scaled b' n),
  )
