-- ===== src/Delays/Seeds.antt =====
-- The statistics over whole sessions, and the seeds that survive a restart.
use skey.Base.{
  ℕ, ◌<◌, ◌≤◌, ◌≡◌, ◌∙◌, refl, sym, ap, subst, arith, Bool, true, false, ◌||◌, Option, none, some,
  List, [], ◌∷◌, max, ltb, leb, ◌==◌, if◌then◌else◌, if_both, Bool-cases, Option-cases, inl, inr,
  Bytes, bytes_eq, bytes_eq_iff, All, u32_mod, u64_mod, is_empty, length,
}
use skey.Base.Decimal.{strtoull, strtoull-lt}
use skey.Base.Table.{Table, lookup, insert, lookup-insert}
use skey.AppDelay.{app_delay_key}
use skey.Settings.Lines.{strip_quotes, cut}
use skey.Delays.{
  AppDelayStat, AppDelays, RawConfig, init, no_stat, updated, note_key, note_app_round_trip,
  note_app_sleep, seed, app_delay_rt, counts, is_usable, usable, parse_fields, parse_stat, stronger,
  merge_stat, load_stats, load_app_delays, save_app_delays,
}
use skey.Delays.Restart.{InRange, IsSound, merged, load_app_delays-save}

pub data Event : Type 0 where
  round_trip : Bytes → Bool → ℕ → Event
  slept : Bytes → Bool → ℕ → Event
  load : RawConfig → Event
  save : ℕ → Event

pub step : (ℕ → ℕ → ℕ → ℕ) → AppDelays → Event → AppDelays
step blend d (round_trip prog wayland rt) = note_app_round_trip blend d prog wayland rt
step blend d (slept prog wayland usec) = note_app_sleep d prog wayland usec
step blend d (load cfg) = load_app_delays d cfg
step blend d (save now) = (save_app_delays d now).1

pub run : (ℕ → ℕ → ℕ → ℕ) → AppDelays → List Event → AppDelays
run blend d [] = d
run blend d (e ∷ es) = run blend (step blend d e) es

-- A sleep is a 64-bit number.
abbrev pub Fits : Event → Type 0
Fits (round_trip prog wayland rt) = Unit
Fits (slept prog wayland usec) = usec < u64_mod
Fits (load cfg) = Unit
Fits (save now) = Unit

-- An average exceeds neither of the two numbers by more than the other does.
abbrev pub Averages : (ℕ → ℕ → ℕ → ℕ) → Type 0
Averages blend = (n x y : ℕ) → blend n x y ≤ max x y

insert-IsSound :
    (k : Bytes) (s : AppDelayStat) (m : Table AppDelayStat)
    → InRange s
    → IsSound m
    → IsSound (insert k s m)
unfolding insert lookup
insert-IsSound k s [] r h = (refl, r, tt)
insert-IsSound k s ((j, w) ∷ m) r h =
    if_both IsSound (bytes_eq j k) _ _
      (λ e. (ap (λ i. lookup i m) (sym ((bytes_eq_iff j k).0 e)) ∙ h.0, r, h.2))
      (λ e. (
        lookup-insert k j s m ∙ ground (arith, e, h.0, bytes_eq_iff j k, bytes_eq_iff k j),
        h.1,
        insert-IsSound k s m r h.2,
      ))

lookup-InRange :
    (k : Bytes) (s : AppDelayStat) (m : Table AppDelayStat)
    → IsSound m
    → lookup k m ≡ some s
    → InRange s
unfolding lookup
lookup-InRange k s [] h e = cc
lookup-InRange k s ((j, w) ∷ m) h e = elim (Bool-cases (bytes_eq j k)) [
  | inl same ↦ subst InRange (ground (arith, same, e)) h.1
  | inr other ↦ lookup-InRange k s m h.2 (ground (arith, other, e))
]

updated-InRange :
    (blend : ℕ → ℕ → ℕ → ℕ)
    → Averages blend
    → (s : AppDelayStat) (rt : ℕ) → InRange s
    → rt ≤ 200000
    → InRange (updated blend s rt)
unfolding updated
updated-InRange blend a s rt h le = record {
  rt_ewma =
      if_both (λ n. n ≤ 200000) (s.samples == 0) _ _ (λ _. le)
        (λ _. omega (arith, a s.samples rt s.rt_ewma_usec, h.rt_ewma));
  samples = omega arith;
  last_sleep = h.last_sleep;
}

note_key-IsSound :
    (blend : ℕ → ℕ → ℕ → ℕ)
    → Averages blend
    → (d : AppDelays) (key : Bytes) (rt : ℕ) → rt ≤ 200000
    → IsSound d.stats
    → IsSound (note_key blend d key rt).stats
unfolding note_key
note_key-IsSound blend a d key rt le h =
    if_both (λ (x : AppDelays). IsSound x.stats) (is_empty key) _ _ (λ _. h)
      (λ _. elim (Option-cases (lookup key d.stats)) [
        | inl e ↦ rw (e) (
            if_both (λ (x : AppDelays). IsSound x.stats) (leb 128 (length d.stats)) _ _ (λ _. h)
              (λ _.
                insert-IsSound key (updated blend no_stat rt) d.stats
                  (updated-InRange blend a no_stat rt no_stat-InRange le) h))
        | inr (s, e) ↦ rw (e) (
            insert-IsSound key (updated blend s rt) d.stats
              (updated-InRange blend a s rt (lookup-InRange key s d.stats h e) le) h)
      ])
  where
    no_stat-InRange : InRange no_stat
    no_stat-InRange = record {
      rt_ewma = omega arith;
      samples = omega arith;
      last_sleep = omega arith;
    }

usable-InRange :
    (t s : AppDelayStat)
    → t.samples < u32_mod
    → t.last_sleep_usec < u64_mod
    → usable t ≡ some s
    → InRange s
usable-InRange t s a b e = elim (Bool-cases (is_usable t)) [
  | inl u ↦
      let r : InRange t = record { rt_ewma = ground (arith, u); samples = a; last_sleep = b } in
      subst InRange (ground (arith, u, e)) r
  | inr u ↦ cc (e, u)
]

parse_fields-InRange :
    (o : Option (Bytes × Bytes)) (s : AppDelayStat) → parse_fields o ≡ some s → InRange s
parse_fields-InRange none s e = cc
parse_fields-InRange (some (ewma, rest)) s e =
    let c = counts rest (cut b',' rest) in
    usable-InRange (record { rt_ewma_usec = strtoull ewma; samples = c.0; last_sleep_usec = c.1 }) s
      (samples_fit (cut b',' rest)) (sleep_fits (cut b',' rest)) e
  where
    samples_fit : (o : Option (Bytes × Bytes)) → (counts rest o).0 < u32_mod
    samples_fit none = omega arith
    samples_fit (some (a, b)) = omega arith

    sleep_fits : (o : Option (Bytes × Bytes)) → (counts rest o).1 < u64_mod
    sleep_fits none = omega arith
    sleep_fits (some (a, b)) = strtoull-lt b

stronger-InRange :
    (o : Option AppDelayStat) (s : AppDelayStat)
    → ((t : AppDelayStat) → o ≡ some t → InRange t)
    → InRange s
    → InRange (stronger o s)
stronger-InRange none s f h = h
stronger-InRange (some t) s f h =
    if_both InRange (ltb t.samples s.samples) _ _ (λ _. h) (λ _. f t refl)

merge_stat-IsSound :
    (key : Bytes) (o : Option AppDelayStat) (m : Table AppDelayStat)
    → ((s : AppDelayStat) → o ≡ some s → InRange s)
    → IsSound m
    → IsSound (merge_stat key o m)
merge_stat-IsSound key none m f h = h
merge_stat-IsSound key (some s) m f h =
    insert-IsSound key (stronger (lookup key m) s) m
      (stronger-InRange (lookup key m) s (λ t e. lookup-InRange key t m h e) (f s refl)) h

load_stats-IsSound :
    (cfg : RawConfig) (m : Table AppDelayStat) → IsSound m → IsSound (load_stats m cfg)
unfolding load_stats parse_stat
load_stats-IsSound [] m h = h
load_stats-IsSound ((key, none) ∷ cfg) m h = load_stats-IsSound cfg m h
load_stats-IsSound ((key, some raw) ∷ cfg) m h =
    let v = strip_quotes raw in
    load_stats-IsSound cfg (merge_stat key (parse_stat v) m)
      (merge_stat-IsSound key (parse_stat v) m (λ s e. parse_fields-InRange (cut b',' v) s e) h)

slept-IsSound :
    (d : AppDelays) (prog : Bytes) (wayland : Bool) (usec : ℕ)
    → usec < u64_mod
    → IsSound d.stats
    → IsSound (note_app_sleep d prog wayland usec).stats
unfolding note_app_sleep
slept-IsSound d prog wayland usec lt h =
    let key = app_delay_key prog wayland in
    if_both (λ (x : AppDelays). IsSound x.stats) (is_empty key) _ _ (λ _. h)
      (λ _. elim (Option-cases (lookup key d.stats)) [
        | inl e ↦ rw (e) h
        | inr (s, e) ↦
            let r = lookup-InRange key s d.stats h e in
            rw (e) (
              insert-IsSound key (record s { last_sleep_usec = usec }) d.stats
                (record { rt_ewma = r.rt_ewma; samples = r.samples; last_sleep = lt }) h)
      ])

step-IsSound :
    (blend : ℕ → ℕ → ℕ → ℕ)
    → Averages blend
    → (d : AppDelays) (e : Event) → Fits e
    → IsSound d.stats
    → IsSound (step blend d e).stats
unfolding step note_app_round_trip load_app_delays save_app_delays
step-IsSound blend a d (round_trip prog wayland rt) f h =
    if_both (λ (x : AppDelays). IsSound x.stats) (ltb rt 100 || ltb 200000 rt) _ _ (λ _. h)
      (λ b. note_key-IsSound blend a d (app_delay_key prog wayland) rt (ground arith) h)
step-IsSound blend a d (slept prog wayland usec) f h = slept-IsSound d prog wayland usec f h
step-IsSound blend a d (load cfg) f h = load_stats-IsSound cfg d.stats h
step-IsSound blend a d (save now) f h = h

pub run-IsSound :
    (blend : ℕ → ℕ → ℕ → ℕ)
    → Averages blend
    → (d : AppDelays) (es : List Event) → All Fits es
    → IsSound d.stats
    → IsSound (run blend d es).stats
unfolding run
run-IsSound blend a d [] f h = h
run-IsSound blend a d (e ∷ es) f h =
    run-IsSound blend a (step blend d e) es f.1 (step-IsSound blend a d e f.0 h)

kept : ℕ → ℕ
kept n = if ltb n 100 then 0 else n

seed-merged :
    (m : Table AppDelayStat) (k : Bytes)
    → IsSound m
    → seed (merged none (lookup k m)) ≡ kept (seed (lookup k m))
unfolding kept
seed-merged m k h = elim (Option-cases (lookup k m)) [
  | inl e ↦ rw (e) refl
  | inr (s, e) ↦ let r = (lookup-InRange k s m h e).rt_ewma in rw (e) (ground (arith, r))
]

at_key : (b : Bool) (m n : ℕ) → m ≡ kept n → (if b then 0 else m) ≡ kept (if b then 0 else n)
unfolding kept
at_key true m n e = refl
at_key false m n e = e

-- However a session measured, slept, loaded and saved: when it saves and the addon starts again with that
-- file, each application has the seed it had, if that is at least 100 microseconds, and none otherwise. It is
-- assumed that an average of two numbers is at most the larger one, and that each sleep is a 64-bit number.
pub app_delay_rt-restart :
    (blend : ℕ → ℕ → ℕ → ℕ)
    → Averages blend
    → (es : List Event) → All Fits es
    → (now : ℕ) (prog : Bytes) (wayland : Bool)
    → app_delay_rt (load_app_delays init (save_app_delays (run blend init es) now).0) prog wayland
      ≡ (if ltb (app_delay_rt (run blend init es) prog wayland) 100
          then 0
          else app_delay_rt (run blend init es) prog wayland)
unfolding app_delay_rt kept lookup
app_delay_rt-restart blend a es f now prog wayland =
    let key = app_delay_key prog wayland in
    let h = run-IsSound blend a init es f tt in
    ap (λ o. if is_empty key then 0 else seed o)
      (load_app_delays-save (run blend init es) init now key h)
    ∙ at_key (is_empty key) _ _ (seed-merged (run blend init es).stats key h)
