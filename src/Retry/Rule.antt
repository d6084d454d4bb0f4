-- ===== src/Retry/Rule.antt =====
-- The invariant rule of the retry loop, and the number of times that its body runs.
use baseplate_py.Prelude.{ℕ, zero, suc, ◌+◌, ◌≡◌, ◌≤◌, Option, inl, inr, arith}
use baseplate_py.Retry.{Attempts, advance}
use baseplate_py.Retry.Loop.{
  Flow, proceed, leave, LoopEnd, exhausted, left, unfinished, for_attempts, AtMost, Yield-cases,
  Flow-cases,
}

module _ {S R : Type 0} (I : S → Type 0) (Q : R → S → Type 0) where
  -- `I` holds where the body falls through, and `Q` where it leaves the loop.
  abbrev pub After : Flow R × S × ℕ → Type 0
  After (proceed, s, _) = I s
  After (leave v, s, _) = Q v s

  abbrev pub Ends : LoopEnd R × S × ℕ → Type 0
  Ends (exhausted, s, _) = I s
  Ends (left v, s, _) = Q v s
  Ends (unfinished, s, _) = I s

  After-proceed : (t : Flow R × S × ℕ) → t.0 ≡ proceed → After t → I t.1
  After-proceed (proceed, s, t) e h = h
  After-proceed (leave v, s, t) e h = cc

  After-leave : (t : Flow R × S × ℕ) (v : R) → t.0 ≡ leave v → After t → Q v t.1
  After-leave (proceed, s, t) v e h = cc
  After-leave (leave w, s, t) v e h = let same : w ≡ v = cc in rw same at h

  pub for_attempts_rule :
      (body : Option ℕ → S → ℕ → Flow R × S × ℕ)
      → ((r : Option ℕ) (s : S) (t : ℕ) → I s → After (body r s t))
      → (fuel : ℕ) (policy : Attempts) (s : S) (now : ℕ) → I s
      → Ends (for_attempts body fuel policy s now)
  unfolding for_attempts
  for_attempts_rule body keep zero policy s now h = h
  for_attempts_rule body keep (suc fuel) policy s now h =
      elim (Yield-cases (advance policy now).0) [
        | inl e ↦ rw (e, for_attempts) h
        | inr (r, e) ↦
            let t = (advance policy now).2 in
            rw (e, for_attempts)
              (elim (Flow-cases (body r s t).0) [
                | inl f ↦
                    rw (f, for_attempts)
                      (for_attempts_rule body keep fuel _ (body r s t).1 (body r s t).2
                        (After-proceed (body r s t) f (keep r s t h)))
                | inr (v, f) ↦ rw (f, for_attempts) (After-leave (body r s t) v f (keep r s t h))
              ])
      ]

module _ {S R : Type 0} (count : S → ℕ) (body : Option ℕ → S → ℕ → Flow R × S × ℕ)
    (once : (r : Option ℕ) (s : S) (t : ℕ) → count (body r s t).1 ≡ count s + 1) where
  -- A policy that makes at most n attempts runs the body at most n times.
  pub for_attempts_limit :
      (n fuel : ℕ) (policy : Attempts) (s : S) (now : ℕ)
      → AtMost n policy
      → count (for_attempts body fuel policy s now).1 ≤ count s + n
  unfolding for_attempts
  for_attempts_limit n zero policy s now h = omega arith
  for_attempts_limit zero (suc fuel) policy s now h = rw (h now, for_attempts) (omega arith)
  for_attempts_limit (suc n) (suc fuel) policy s now h = elim (Yield-cases (advance policy now).0) [
    | inl e ↦ rw (e, for_attempts) (omega arith)
    | inr (r, e) ↦
        let t = (advance policy now).2 in
        rw (e, for_attempts)
          (elim (Flow-cases (body r s t).0) [
            | inl f ↦
                rw (f, for_attempts)
                  (omega (
                    arith,
                    once r s t,
                    for_attempts_limit n fuel _ (body r s t).1 (body r s t).2 (h now r e),
                  ))
            | inr (v, f) ↦ rw (f, for_attempts) (omega (arith, once r s t))
          ])
  ]
