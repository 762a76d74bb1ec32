-- ===== src/Timing/Examples.antt =====
-- A blend of whole numbers: alpha counts quarters.
use skey.Base.{◌+◌, ◌*◌, ◌/◌, ◌≤◌, ◌≡◌, ◌⊎◌, min, Bool, true, false, [], ◌∷◌, arith}
use skey.Timing.{Doubles, deferred_delay}
use skey.Timing.Estimate.{estimate, delay_follows_estimate}

-- A quarter of the sample and three quarters of the estimate, as whole numbers.
abbrev quarters : Doubles
quarters = record { Alpha = Bool; half = true; larger = λ a b. b; blend = λ a s p. (s + 3 * p) / 4 }

delay_follows_estimate_example :
    ((estimate quarters 7000 7000 ((30000, false) ∷ ((500000, false) ∷ [])) ≤ 200000)
      ⊎ (estimate quarters 7000 7000 ((30000, false) ∷ ((500000, false) ∷ [])) ≡ 7000))
    × (10000
        ≤ deferred_delay
            (estimate quarters 7000 7000 ((30000, false) ∷ ((500000, false) ∷ [])))
            7000)
    × (deferred_delay (estimate quarters 7000 7000 ((30000, false) ∷ ((500000, false) ∷ []))) 7000
        ≤ 100000)
    × ((estimate quarters 7000 7000 ((30000, false) ∷ ((500000, false) ∷ [])) ≡ 0)
        ⊎ (estimate quarters 7000 7000 ((30000, false) ∷ ((500000, false) ∷ [])) ≡ 7000)
        ⊎ (min (estimate quarters 7000 7000 ((30000, false) ∷ ((500000, false) ∷ []))) 46000 * 2
            ≤ deferred_delay
                (estimate quarters 7000 7000 ((30000, false) ∷ ((500000, false) ∷ [])))
                7000))
delay_follows_estimate_example =
    delay_follows_estimate quarters (λ a s p. omega arith) 7000
      ((30000, false) ∷ ((500000, false) ∷ []))
