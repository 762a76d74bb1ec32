-- ===== src/Delays/Examples.antt =====
-- Statistics at concrete inputs.
use skey.Base.{
  ℕ, ◌+◌, ◌/◌, ◌≡◌, refl, arith, true, some, List, [], ◌∷◌, codes, ltb, bytes_eq, if◌then◌else◌,
}
use skey.Base.Table.{lookup}
use skey.Delays.{AppDelayStat, AppDelays, init, app_delay_rt, load_app_delays, save_app_delays}
use skey.Delays.Restart.{load_app_delays-save}
use skey.Delays.Seeds.{Event, round_trip, slept, run, Averages, app_delay_rt-restart}

abbrev mean : ℕ → ℕ → ℕ → ℕ
mean n x y = (x + y) / 2

mean-Averages : Averages mean
mean-Averages n x y = omega arith

abbrev typing : List Event
typing =
    round_trip (codes "kitty") true 9000
    ∷ (round_trip (codes "kitty") true 8000
        ∷ (slept (codes "kitty") true 20000
            ∷ (round_trip (codes "kitty") true 90 ∷ (round_trip (codes "kitty") true 7000 ∷ []))))

app_delay_rt-restart_example :
    app_delay_rt
      (load_app_delays init (save_app_delays (run mean init typing) 5000000).0)
      (codes "kitty")
      true
    ≡ (if ltb (app_delay_rt (run mean init typing) (codes "kitty") true) 100
        then 0
        else app_delay_rt (run mean init typing) (codes "kitty") true)
app_delay_rt-restart_example =
    app_delay_rt-restart mean mean-Averages typing (tt, (tt, (omega arith, (tt, (tt, tt))))) 5000000
      (codes "kitty") true

abbrev older : AppDelayStat
older = record { rt_ewma_usec = 7000; samples = 4; last_sleep_usec = 0 }

abbrev newer : AppDelayStat
newer = record { rt_ewma_usec = 9000; samples = 12; last_sleep_usec = 20000 }

abbrev holding : AppDelayStat → AppDelays
holding s = record init { stats = (codes "kitty@w", s) ∷ [] }

load_app_delays-save_example :
    lookup
      (codes "kitty@w")
      (load_app_delays (holding older) (save_app_delays (holding newer) 0).0).stats
    ≡ some newer
unfolding lookup bytes_eq
load_app_delays-save_example =
    load_app_delays-save (holding newer) (holding older) 0 (codes "kitty@w")
      (refl, record { rt_ewma = omega arith; samples = omega arith; last_sleep = omega arith }, tt)
