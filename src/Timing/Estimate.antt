-- ===== src/Timing/Estimate.antt =====
-- The delay after any samples.
use skey.Base.{
  refl, ℕ, ◌*◌, ◌≤◌, ◌≡◌, ◌⊎◌, min, max, ◌||◌, ltb, ◌==◌, if◌then◌else◌, if_both, List, [], ◌∷◌,
  arith, inl, inr,
}
use skey.Timing.{Doubles, updated_round_trip, deferred_delay}

-- The estimate behind so many samples, each with its smoothing factor.
unfoldable pub estimate : (d : Doubles) → ℕ → ℕ → List (ℕ × d.Alpha) → ℕ
estimate d seed e [] = e
estimate d seed e ((sample, alpha) ∷ samples) =
    estimate d seed (updated_round_trip d e sample seed alpha) samples

module _ (d : Doubles) (below : (a : d.Alpha) (s p : ℕ) → d.blend a s p ≤ max s p) where
  updated-le :
      (previous sample seed : ℕ) (alpha : d.Alpha)
      → (previous ≤ 200000) ⊎ (previous ≡ seed)
      → updated_round_trip d previous sample seed alpha ≤ 200000
  unfolding updated_round_trip
  updated-le previous sample seed alpha h =
      if_both (λ r. r ≤ 200000) (previous == 0 || previous == seed) _ _ (λ _. omega arith)
        (λ e. ground (
          arith,
          below (if ltb (min sample 200000) previous then d.larger alpha d.half else alpha)
              (min sample 200000) previous,
        ))

  estimate-le :
      (seed e : ℕ) (samples : List (ℕ × d.Alpha))
      → (e ≤ 200000) ⊎ (e ≡ seed)
      → (estimate d seed e samples ≤ 200000) ⊎ (estimate d seed e samples ≡ seed)
  unfolding estimate
  estimate-le seed e [] h = h
  estimate-le seed e ((sample, alpha) ∷ samples) h =
      estimate-le seed (updated_round_trip d e sample seed alpha) samples
        (inl (updated-le e sample seed alpha h))

  -- If a blend is never more than the larger of its two arguments: whatever round trips are measured from the seed on, the
  -- estimate is the seed or at most 200 ms, and the delay is from 10 to 100 ms and, but for an estimate of
  -- 0 or the seed, at least twice the estimate up to 46 ms.
  pub delay_follows_estimate :
      (seed : ℕ) (samples : List (ℕ × d.Alpha))
      → let e = estimate d seed seed samples in
        ((e ≤ 200000) ⊎ (e ≡ seed))
        × (10000 ≤ deferred_delay e seed)
        × (deferred_delay e seed ≤ 100000)
        × ((e ≡ 0) ⊎ (e ≡ seed) ⊎ (min e 46000 * 2 ≤ deferred_delay e seed))
  unfolding deferred_delay
  delay_follows_estimate seed samples =
      (estimate-le seed seed samples (inr refl), ground arith, ground arith, ground arith)
