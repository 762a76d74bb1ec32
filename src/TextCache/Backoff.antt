-- ===== src/TextCache/Backoff.antt =====
-- The backoff against an application that does not answer.
use skey.Base.{
  ℕ, zero, suc, ◌+◌, ◌≤◌, ◌<◌, ◌≡◌, refl, false, true, List, [], ◌∷◌, Option, none, arith, u64_mod,
  Bytes, ℤ, min,
}
use skey.TextCache.{
  Request, TextCache, active_locked, begin_poll, set_enabled, focus, changed, blur, finish_poll,
}
use skey.TextCache.World.{
  Event, World, start_world, step, run, enable, focused, text_changed, blurred, poll, reply,
}

-- The microseconds without a poll after a failure that follows `n` failures.
abbrev pub delay : ℕ → ℕ
delay zero = 150000
delay (suc zero) = 300000
delay (suc (suc zero)) = 600000
delay (suc (suc (suc n))) = 1000000

step-failures-le : (w : World) (e : Event) → w.cache.failures ≤ 3 → (step w e).cache.failures ≤ 3
unfolding step set_enabled focus changed blur begin_poll finish_poll
step-failures-le w (enable on now) h = ground arith
step-failures-le w (focused bus path now) h = ground arith
step-failures-le w (text_changed bus path) h = ground arith
step-failures-le w (blurred bus path) h = ground arith
step-failures-le w (poll now) h = ground arith
step-failures-le w (reply i good text s e now) h = ground arith

run-failures-le :
    (w : World) (es : List Event) → w.cache.failures ≤ 3 → (run w es).cache.failures ≤ 3
unfolding run
run-failures-le w [] h = h
run-failures-le w (e ∷ es) h = run-failures-le (step w e) es (step-failures-le w e h)

failed-retry :
    (c : TextCache) (n : ℕ) (r : Request) (text : Bytes) (s e : ℤ) (now : ℕ)
    → c.failures ≡ n
    → n ≤ 3
    → now + 1000000 < u64_mod
    → r.generation ≡ c.generation
    → active_locked c now ≡ true
    → ((finish_poll c r false text s e now).0.retry_at ≡ now + delay n)
      × ((finish_poll c r false text s e now).0.failures ≡ min (n + 1) 3)
unfolding finish_poll
failed-retry c zero r text s e now q b fits g a = ground arith
failed-retry c (suc zero) r text s e now q b fits g a = rw q (ground arith)
failed-retry c (suc (suc zero)) r text s e now q b fits g a = rw q (ground arith)
failed-retry c (suc (suc (suc zero))) r text s e now q b fits g a = rw q (ground arith)
failed-retry c (suc (suc (suc (suc n)))) r text s e now q b fits g a = absurd (omega arith)

changed-retry :
    (c : TextCache) (bus path : Option Bytes) (later : ℕ)
    → later < c.retry_at
    → (begin_poll (changed c bus path) later).1 ≡ none
unfolding changed begin_poll
changed-retry c bus path later h = ground arith

-- In every cache that events can lead to, a failed reply to a request of the current generation
-- stops polls for 150, 300, 600 and then 1000 milliseconds, by the number of failures before it;
-- a text event in between does not let a poll through. The failures are counted up to 3.
failure_backs_off :
    (es : List Event) (r : Request) (text : Bytes) (s e : ℤ) (now later : ℕ)
    (bus path : Option Bytes)
    → let c = (run start_world es).cache in
      r.generation ≡ c.generation
      → active_locked c now ≡ true
      → now + 1000000 < u64_mod
      → later < now + delay c.failures
      → ((begin_poll (changed (finish_poll c r false text s e now).0 bus path) later).1 ≡ none)
        × ((finish_poll c r false text s e now).0.failures ≡ min (c.failures + 1) 3)
failure_backs_off es r text s e now later bus path g a fits soon =
    let c = (run start_world es).cache in
    let (at, count) =
      failed-retry c c.failures r text s e now refl (run-failures-le start_world es (omega arith))
        fits g a in
    (changed-retry (finish_poll c r false text s e now).0 bus path later (omega (arith, at)), count)
