-- ===== src/Timing.antt =====
-- src/input_timing.h: the estimate of an application's round trip, and the delay derived from it. The sum
-- `alpha * sample + (1 - alpha) * previous` on doubles, cut to an integer, is the parameter `blend`, and
-- `Alpha` stands for the doubles.
pub mod Estimate
mod Examples
use skey.Base.{ℕ, ◌+◌, ◌*◌, min, max, Bool, true, false, not, ◌||◌, ltb, ◌==◌, if◌then◌else◌}

pub record Doubles : Type 1 where
  pub Alpha : Type 0
  pub half : Alpha
  pub larger : Alpha → Alpha → Alpha
  pub blend : Alpha → ℕ → ℕ → ℕ

pub updated_round_trip : (d : Doubles) → ℕ → ℕ → ℕ → d.Alpha → ℕ
updated_round_trip d previous sample seed alpha =
    let s = min sample 200000 in
    if previous == 0 || previous == seed
    then s
    else d.blend (if ltb s previous then d.larger alpha d.half else alpha) s previous

-- std::clamp between two bounds.
abbrev pub clamp : ℕ → ℕ → ℕ → ℕ
clamp v low high = if ltb v low then low else if ltb high v then high else v

pub deferred_delay : ℕ → ℕ → ℕ
deferred_delay round_trip seed =
    if round_trip == 0 || round_trip == seed
    then 15000
    else clamp (min round_trip 46000 * 2 + 8000) 10000 100000
