-- ===== src/TextCache.antt =====
-- src/a11y_text_cache.h: the cache of the focused widget's text. Each public method holds the mutex
-- for its whole body, so it is one atomic function on the state; the monitor's IPC runs between
-- `begin_poll` and `finish_poll`. `cv_` is the count of its `notify_all` calls.
pub mod World
pub mod Focus
pub mod Polling
pub mod Backoff
mod Examples
use skey.Base.{
  ℕ, ◌+◌, ◌*◌, ◌/◌, ◌^◌, ◌%◌, min, max, Bool, true, false, not, ◌&&◌, ◌||◌, Option, none, some, [],
  ltb, leb, ◌==◌, if◌then◌else◌, u64_mod, add64, sub64, add32, Bytes, bytes_eq, is_empty, ℤ, pos,
  negsuc,
}

abbrev pub idle_usec : ℕ
idle_usec = 500000

abbrev pub min_poll_usec : ℕ
min_poll_usec = 15000

abbrev pub poll_usec : ℕ
poll_usec = 150000

pub record Request : Type 0 where
  pub bus : Bytes
  pub path : Bytes
  pub generation : ℕ
  pub started : ℕ

pub record TextCache : Type 0 where
  pub cv : ℕ
  pub bus : Bytes
  pub path : Bytes
  pub text : Bytes
  pub generation : ℕ
  pub focus_usec : ℕ
  pub snapshot_usec : ℕ
  pub demand_usec : ℕ
  pub last_poll : ℕ
  pub retry_at : ℕ
  pub failures : ℕ
  pub start : ℤ
  pub end : ℤ
  pub enabled : Bool
  pub dirty : Bool

abbrev pub init : TextCache
init = record {
  cv = 0;
  bus = [];
  path = [];
  text = [];
  generation = 0;
  focus_usec = 0;
  snapshot_usec = 0;
  demand_usec = 0;
  last_poll = 0;
  retry_at = 0;
  failures = 0;
  start = negsuc 0;
  end = negsuc 0;
  enabled = false;
  dirty = false;
}

pub active_locked : TextCache → ℕ → Bool
active_locked c now = c.enabled && leb c.demand_usec now && ltb (sub64 now c.demand_usec) idle_usec

pub invalidate_locked : TextCache → TextCache
invalidate_locked c = record c {
  generation = add64 c.generation 1;
  text = [];
  snapshot_usec = 0;
  start = negsuc 0;
  end = negsuc 0;
  cv = c.cv + 1;
}

-- The assignments that `setEnabled` and `focus` make after an invalidation.
abbrev restart_polling : TextCache → TextCache
restart_polling c = record c { dirty = true; last_poll = 0; retry_at = 0; failures = 0 }

pub set_enabled : TextCache → Bool → ℕ → TextCache × Bool
unfolding active_locked invalidate_locked
set_enabled c on now =
    let wake = differs on c.enabled || (on && not (active_locked c now)) in
    let c' = if wake then restart_polling (invalidate_locked c) else c in
    (record c' { enabled = on; demand_usec = now }, wake)
  where
    differs : Bool → Bool → Bool
    differs true b = not b
    differs false b = b

pub focus : TextCache → Bytes → Bytes → ℕ → TextCache
unfolding invalidate_locked
focus c bus path now =
    let c' =
      if not (bytes_eq c.bus bus) || not (bytes_eq c.path path)
      then restart_polling (record (invalidate_locked c) { bus = bus; path = path })
      else c in
    record c' { focus_usec = now }

-- The three results of a true return are the reference arguments.
pub focused_entry : TextCache → Option (Bytes × Bytes × ℕ)
focused_entry c = if is_empty c.path then none else some (c.bus, c.path, c.focus_usec)

-- A null `bus` or `path` is `none`.
abbrev pub names : TextCache → Option Bytes → Option Bytes → Bool
names c none path = false
names c (some bus) none = false
names c (some bus) (some path) = not (is_empty c.path) && bytes_eq c.bus bus && bytes_eq c.path path

pub changed : TextCache → Option Bytes → Option Bytes → TextCache
changed c bus path = if names c bus path then record c { dirty = true } else c

pub blur : TextCache → Option Bytes → Option Bytes → TextCache
unfolding invalidate_locked
blur c bus path =
    if names c bus path then record (invalidate_locked c) { bus = []; path = [] } else c

pub active : TextCache → ℕ → Bool
unfolding active_locked
active c now = active_locked c now && not (is_empty c.path)

pub wait_millis : TextCache → ℕ → ℕ
unfolding active_locked
wait_millis c now =
    if not (active_locked c now) || is_empty c.path
    then 200
    else (let due =
          if c.last_poll == 0
          then now
          else add64 c.last_poll (if c.dirty then min_poll_usec else poll_usec) in
        let due' = min (max due c.retry_at) (add64 c.demand_usec idle_usec) in
        if leb due' now then 0 else min (add64 (sub64 due' now) 999 / 1000) 200)

pub begin_poll : TextCache → ℕ → TextCache × Option Request
unfolding active_locked
begin_poll c now =
    if not (active_locked c now) || is_empty c.path || ltb now c.retry_at
    then (c, none)
    else (if not (c.last_poll == 0)
          && (ltb (sub64 now c.last_poll) min_poll_usec
              || (not c.dirty && ltb (sub64 now c.last_poll) poll_usec))
        then (c, none)
        else (
          record c { dirty = false; last_poll = now },
          some (record { bus = c.bus; path = c.path; generation = c.generation; started = now }),
        ))

pub finish_poll : TextCache → Request → Bool → Bytes → ℤ → ℤ → ℕ → TextCache × Bool
unfolding active_locked
finish_poll c request good text start end now =
    if not (request.generation == c.generation) || not (active_locked c now)
    then (c, false)
    else (if not good
        then (
          record c {
            text = [];
            snapshot_usec = 0;
            start = negsuc 0;
            end = negsuc 0;
            retry_at = add64 now (min ((poll_usec * 2 ^ c.failures) % u64_mod) 1000000);
            failures = min (add32 c.failures 1) 3;
            cv = c.cv + 1;
          },
          good,
        )
        else (
          record c {
            text = text;
            start = start;
            end = end;
            snapshot_usec = request.started;
            failures = 0;
            retry_at = 0;
            cv = c.cv + 1;
          },
          good,
        ))

-- `none` is a false return, where the source clears the text and sets both offsets to -1.
pub read : TextCache → ℕ → ℕ → Option (Bytes × ℤ × ℤ)
unfolding active_locked
read c now max_age =
    if not (active_locked c now)
      || c.snapshot_usec == 0
      || ltb now c.snapshot_usec
      || ltb max_age (sub64 now c.snapshot_usec)
    then none
    else some (c.text, c.start, c.end)

pub stamp : TextCache → ℕ
stamp c = c.snapshot_usec

-- The predicate on which `waitForUpdate` leaves its wait before the timeout.
pub update_seen : TextCache → ℕ → ℕ → Bool
update_seen c observed generation =
    not (c.snapshot_usec == observed) || not (c.generation == generation)
