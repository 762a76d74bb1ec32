-- ===== src/Delays.antt =====
-- src/engine.cpp and engine.h: what the addon learns about the round trips of each application. The
-- averages on doubles, `alpha * sample + (1 - alpha) * previous` with an `alpha` that depends on the number
-- of samples, are the parameter `blend`. A file is the list of its keys with their values, as RawConfig
-- gives it; `none` is a key without a value of its own.
pub mod Seeds
pub mod Restart
mod Examples
use skey.Base.{
  ℕ, ◌/◌, ◌%◌, Bool, true, false, not, ◌&&◌, ◌||◌, Option, none, some, List, [], ◌∷◌, ◌++◌, ltb,
  leb, ◌==◌, if◌then◌else◌, Bytes, codes, is_empty, length, u32_mod, add32, sub64, ℤ, pos, negsuc,
}
use skey.Base.Decimal.{decimal, to_string, strtoull}
use skey.Base.Table.{Table, lookup, insert}
use skey.AppDelay.{AppDelayOverride, any, app_delay_key, parse_app_delay_override}
use skey.Settings.Lines.{strip_quotes, cut}

abbrev pub min_samples : ℕ
min_samples = 3

abbrev pub min_sample_usec : ℕ
min_sample_usec = 100

abbrev pub max_sample_usec : ℕ
max_sample_usec = 200000

abbrev pub max_stored_usec : ℕ
max_stored_usec = 200000

abbrev pub max_apps : ℕ
max_apps = 128

abbrev pub save_min_interval_usec : ℕ
save_min_interval_usec = 10000000

abbrev pub save_every_samples : ℕ
save_every_samples = 32

pub record AppDelayStat : Type 0 where
  pub rt_ewma_usec : ℕ
  pub samples : ℕ
  pub last_sleep_usec : ℕ

abbrev pub no_stat : AppDelayStat
no_stat = record { rt_ewma_usec = 0; samples = 0; last_sleep_usec = 0 }

-- The members of the addon that hold the statistics.
pub record AppDelays : Type 0 where
  pub stats : Table AppDelayStat
  pub dirty : Bool
  pub since_save : ℕ
  pub saved_at_usec : ℕ
  pub overrides : Table AppDelayOverride

abbrev pub init : AppDelays
init = record { stats = []; dirty = false; since_save = 0; saved_at_usec = 0; overrides = [] }

pub updated : (ℕ → ℕ → ℕ → ℕ) → AppDelayStat → ℕ → AppDelayStat
updated blend s rt_usec = record s {
  rt_ewma_usec = if s.samples == 0 then rt_usec else blend s.samples rt_usec s.rt_ewma_usec;
  samples = add32 s.samples 1;
}

abbrev pub noted : AppDelays → Bytes → AppDelayStat → AppDelays
noted d key s = record d {
  stats = insert key s d.stats;
  dirty = true;
  since_save = add32 d.since_save 1;
}

pub note_key : (ℕ → ℕ → ℕ → ℕ) → AppDelays → Bytes → ℕ → AppDelays
note_key blend d key rt_usec = if is_empty key then d else elim (lookup key d.stats) [
  | none ↦ if leb max_apps (length d.stats) then d else noted d key (updated blend no_stat rt_usec)
  | some s ↦ noted d key (updated blend s rt_usec)
]

pub note_app_round_trip : (ℕ → ℕ → ℕ → ℕ) → AppDelays → Bytes → Bool → ℕ → AppDelays
unfolding note_key
note_app_round_trip blend d prog wayland rt_usec =
    if ltb rt_usec min_sample_usec || ltb max_sample_usec rt_usec
    then d
    else note_key blend d (app_delay_key prog wayland) rt_usec

pub note_app_sleep : AppDelays → Bytes → Bool → ℕ → AppDelays
note_app_sleep d prog wayland sleep_usec =
    let key = app_delay_key prog wayland in
    if is_empty key then d else elim (lookup key d.stats) [
      | none ↦ d
      | some s ↦ record d {
        stats = insert key (record s { last_sleep_usec = sleep_usec }) d.stats;
        dirty = true;
      }
    ]

abbrev pub seed : Option AppDelayStat → ℕ
seed none = 0
seed (some s) = if ltb s.samples min_samples then 0 else s.rt_ewma_usec

-- 0 stands for no seed.
pub app_delay_rt : AppDelays → Bytes → Bool → ℕ
app_delay_rt d prog wayland =
    let key = app_delay_key prog wayland in if is_empty key then 0 else seed (lookup key d.stats)

abbrev pub stat_tag : Option AppDelayStat → Bytes
stat_tag none = codes " [auto cold]"
stat_tag (some s) =
    if ltb s.samples min_samples
    then codes " [auto cold]"
    else codes " [auto "
      ++ (decimal (s.rt_ewma_usec / 1000) ++ (codes "ms/" ++ (decimal s.samples ++ codes "]")))

pub app_delay_debug_tag : Bool → AppDelays → Bytes → Bool → Bytes
app_delay_debug_tag auto_delay d prog wayland =
    let key = app_delay_key prog wayland in
    if not auto_delay || is_empty key then [] else stat_tag (lookup key d.stats)

pub app_delay_override : AppDelays → Bytes → Bool → Option AppDelayOverride
app_delay_override d prog wayland =
    let key = app_delay_key prog wayland in if is_empty key then none else lookup key d.overrides

abbrev pub millis_tag : ℤ → Bytes
millis_tag (pos n) = to_string (pos n)
millis_tag (negsuc n) = codes "auto"

abbrev pub override_tag : Option AppDelayOverride → Bytes
override_tag none = []
override_tag (some o) =
    if not (any o)
    then []
    else codes " [override pace="
      ++ (millis_tag o.pace_ms
          ++ (codes " pre="
              ++ (millis_tag o.pre_commit_ms
                  ++ (codes " post=" ++ (millis_tag o.post_commit_ms ++ codes "]")))))

pub app_delay_override_debug_tag : AppDelays → Bytes → Bool → Bytes
app_delay_override_debug_tag d prog wayland = override_tag (app_delay_override d prog wayland)

-- The keys of a file with their values.
abbrev pub RawConfig : Type 0
RawConfig = List (Bytes × Option Bytes)

abbrev pub keep_override :
    Bytes → Option AppDelayOverride → Table AppDelayOverride → Table AppDelayOverride
keep_override key none m = m
keep_override key (some o) m = if any o then insert key o m else m

abbrev pub load_override : Bytes → Option Bytes → Table AppDelayOverride → Table AppDelayOverride
load_override key none m = m
load_override key (some raw) m = keep_override key (parse_app_delay_override (strip_quotes raw)) m

pub load_overrides : Table AppDelayOverride → RawConfig → Table AppDelayOverride
load_overrides m [] = m
load_overrides m ((key, raw) ∷ cfg) = load_overrides (load_override key raw m) cfg

pub load_app_delay_overrides : AppDelays → RawConfig → AppDelays
unfolding load_overrides
load_app_delay_overrides d cfg = record d { overrides = load_overrides [] cfg }

-- Behind the first comma: the samples, and behind a second comma the last sleep.
abbrev pub counts : Bytes → Option (Bytes × Bytes) → ℕ × ℕ
counts rest none = (strtoull rest % u32_mod, 0)
counts rest (some (samples, sleep)) = (strtoull samples % u32_mod, strtoull sleep)

abbrev pub is_usable : AppDelayStat → Bool
is_usable s = not (
    ltb s.samples min_samples
    || ltb s.rt_ewma_usec min_sample_usec
    || ltb max_stored_usec s.rt_ewma_usec)

abbrev pub usable : AppDelayStat → Option AppDelayStat
usable s = if is_usable s then some s else none

abbrev pub parse_fields : Option (Bytes × Bytes) → Option AppDelayStat
parse_fields none = none
parse_fields (some (ewma, rest)) =
    let c = counts rest (cut b',' rest) in
    usable (record { rt_ewma_usec = strtoull ewma; samples = c.0; last_sleep_usec = c.1 })

pub parse_stat : Bytes → Option AppDelayStat
parse_stat v = parse_fields (cut b',' v)

-- The file wins only if it holds more evidence than the session.
abbrev pub stronger : Option AppDelayStat → AppDelayStat → AppDelayStat
stronger none s = s
stronger (some t) s = if ltb t.samples s.samples then s else t

abbrev pub merge_stat : Bytes → Option AppDelayStat → Table AppDelayStat → Table AppDelayStat
merge_stat key none m = m
merge_stat key (some s) m = insert key (stronger (lookup key m) s) m

abbrev pub load_stat : Bytes → Option Bytes → Table AppDelayStat → Table AppDelayStat
load_stat key none m = m
load_stat key (some raw) m = merge_stat key (parse_stat (strip_quotes raw)) m

pub load_stats : Table AppDelayStat → RawConfig → Table AppDelayStat
load_stats m [] = m
load_stats m ((key, raw) ∷ cfg) = load_stats (load_stat key raw m) cfg

pub load_app_delays : AppDelays → RawConfig → AppDelays
unfolding load_stats
load_app_delays d cfg = record d { stats = load_stats d.stats cfg }

pub print_stat : AppDelayStat → Bytes
print_stat s =
    decimal s.rt_ewma_usec ++ b',' ∷ (decimal s.samples ++ b',' ∷ decimal s.last_sleep_usec)

pub save_stats : Table AppDelayStat → RawConfig
unfolding print_stat
save_stats [] = []
save_stats ((key, s) ∷ m) =
    let rest = save_stats m in
    if leb min_samples s.samples then (key, some (print_stat s)) ∷ rest else rest

-- The file that is written at the time `now`, and the state behind it.
pub save_app_delays : AppDelays → ℕ → RawConfig × AppDelays
unfolding save_stats
save_app_delays d now =
    (save_stats d.stats, record d { dirty = false; since_save = 0; saved_at_usec = now })

-- `none` is that nothing is written.
pub maybe_save_app_delays : Bool → AppDelays → Bool → ℕ → Option RawConfig × AppDelays
unfolding save_app_delays
maybe_save_app_delays auto_delay d force now =
    let saved = save_app_delays d now in
    if not auto_delay || not d.dirty
    then (none, d)
    else if not force
        && ltb d.since_save save_every_samples
        && ltb (sub64 now d.saved_at_usec) save_min_interval_usec
    then (none, d)
    else (some saved.0, saved.1)
