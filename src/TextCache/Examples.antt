-- ===== src/TextCache/Examples.antt =====
-- Runs of the cache, and the theorems about it at concrete inputs.
use skey.Base.{
  ◌≡◌, ◌≢◌, ◌↔◌, refl, true, List, [], ◌∷◌, none, some, arith, Bytes, codes, pos, bytes_eq,
}
use skey.TextCache.{
  Request, active_locked, set_enabled, focus, begin_poll, finish_poll, read, wait_millis, active,
}
use skey.TextCache.World.{Event, enable, focused, poll, reply, start_world, run, step}
use skey.TextCache.Focus.{IsFrom, read_focused}
use skey.TextCache.Polling.{wait_exact}

abbrev bus : Bytes
bus = codes ":1.7"

abbrev entry : Bytes
entry = codes "/a/1"

-- A poll is answered after the focus moved to another widget; a second one is answered in time.
abbrev late_reply : List Event
late_reply =
    enable true 1000
    ∷ focused bus (codes "/a/0") 1000
    ∷ poll 20000
    ∷ focused bus entry 21000
    ∷ reply 0 true (codes "old") (pos 3) (pos 3) 22000
    ∷ poll 40000
    ∷ reply 0 true (codes "new") (pos 3) (pos 3) 41000
    ∷ []

late_reply_reads :
    read (run start_world late_reply).cache 42000 5000 ≡ some (codes "new", pos 3, pos 3)
unfolding run step set_enabled focus begin_poll finish_poll read bytes_eq
late_reply_reads = refl

read_focused_example :
    (r : Request) × ((run start_world late_reply).last ≡ some (r, codes "new"))
    × IsFrom (run start_world late_reply).cache r (codes "new")
read_focused_example =
    read_focused late_reply 42000 5000 (codes "new") (pos 3) (pos 3) (omega arith) late_reply_reads

abbrev polled : List Event
polled = enable true 1000 ∷ focused bus entry 1000 ∷ poll 20000 ∷ []

polled_active : active (run start_world polled).cache 30000 ≡ true
unfolding run step set_enabled focus begin_poll active bytes_eq
polled_active = refl

polled_before : (run start_world polled).cache.last_poll ≡ 20000
unfolding run step set_enabled focus begin_poll bytes_eq
polled_before = refl

polled_demand : (run start_world polled).cache.demand_usec ≡ 1000
unfolding run step set_enabled focus begin_poll bytes_eq
polled_demand = refl

wait_exact_example :
    (wait_millis (run start_world polled).cache 30000 ≡ 0)
    ↔ ((begin_poll (run start_world polled).cache 30000).1 ≢ none)
wait_exact_example =
    wait_exact (run start_world polled).cache 30000 polled_active (omega (arith, polled_before))
      (omega (arith, polled_before)) (omega (arith, polled_demand)) (omega arith)

abbrev first_request : Request
first_request = record { bus = bus; path = entry; generation = 2; started = 20000 }

current_request : first_request.generation ≡ (run start_world polled).cache.generation
unfolding run step set_enabled focus begin_poll bytes_eq
current_request = refl

polled_alive : active_locked (run start_world polled).cache 30000 ≡ true
unfolding run step set_enabled focus begin_poll bytes_eq active_locked
polled_alive = refl

polled_failures : (run start_world polled).cache.failures ≡ 0
unfolding run step set_enabled focus begin_poll bytes_eq
polled_failures = refl
