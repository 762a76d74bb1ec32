-- ===== src/TextCache/Polling.antt =====
-- `waitMillis` against `beginPoll`, and the wake-ups that `waitForUpdate` relies on.
use skey.Base.{ℕ, ◌+◌, ◌*◌, ◌≤◌, ◌<◌, ◌≡◌, ◌≢◌, ◌↔◌, true, false, none, arith, u64_mod}
use skey.TextCache.{
  TextCache, poll_usec, idle_usec, active, begin_poll, wait_millis, set_enabled, focus, changed,
  blur, finish_poll, update_seen,
}
use skey.TextCache.World.{Event, World, step, enable, focused, text_changed, blurred, poll, reply}

module _ (c : TextCache) (now : ℕ) (on : active c now ≡ true) (polled : c.last_poll ≤ now)
    (poll_fits : c.last_poll + poll_usec < u64_mod)
    (lease_fits : c.demand_usec + idle_usec < u64_mod) (now_fits : now < u64_mod) where
  -- While the cache is active, has not polled in the future and no deadline passes 2^64, the
  -- monitor's wait is zero exactly when a poll would start now.
  pub wait_exact : (wait_millis c now ≡ 0) ↔ ((begin_poll c now).1 ≢ none)
  unfolding active wait_millis begin_poll
  wait_exact = (λ h. ground arith, λ h. ground arith)

  -- And when a poll has to wait for k milliseconds, fewer than the 200 of an idle turn, none
  -- starts in the first k - 1 of them.
  pub wait_tight :
      (later : ℕ)
      → now ≤ later
      → later + 1000 ≤ now + 1000 * wait_millis c now
      → active c later ≡ true
      → (begin_poll c later).1 ≡ none
  unfolding active wait_millis begin_poll
  wait_tight later h k on' = ground arith

-- Every wait is at most 200 milliseconds, and an idle cache waits for all of them.
wait_millis-le : (c : TextCache) (now : ℕ) → wait_millis c now ≤ 200
unfolding wait_millis
wait_millis-le c now = ground arith

-- No wake-up is lost: an event that changes what a waiter of `waitForUpdate` compares, the
-- snapshot's stamp or the generation, has notified it.
step_notifies :
    (w : World) (e : Event)
    → (step w e).cache.cv ≡ w.cache.cv
    → update_seen (step w e).cache w.cache.snapshot_usec w.cache.generation ≡ false
unfolding step set_enabled focus changed blur begin_poll finish_poll update_seen
step_notifies w (enable on now) h = ground arith
step_notifies w (focused bus path now) h = ground arith
step_notifies w (text_changed bus path) h = ground arith
step_notifies w (blurred bus path) h = ground arith
step_notifies w (poll now) h = ground arith
step_notifies w (reply i good text s e now) h = ground arith
