-- ===== src/Deferred.antt =====
-- src/engine.cpp and engine.h: the commit that waits until the application has deleted what it replaces.
-- `utf8::length` of fcitx5 is the parameter `utf8_length`; the surrounding text is an argument, `none` if it
-- is not valid, and so are the time, the answer of `checkCellSelection` and the result of `commitText`.
pub mod Missing
pub mod Screen
pub mod Firing
mod Examples
use skey.Base.{
  ℕ, zero, suc, ◌+◌, ◌-◌, ◌*◌, min, Bool, true, false, not, ◌&&◌, ◌||◌, Option, none, some, List,
  [], ◌∷◌, ◌++◌, ltb, leb, ◌==◌, if◌then◌else◌, Bytes, bytes_eq, is_empty, is_prefix, length, drop,
  ℤ, pos, negsuc, add64, sub64,
}
use skey.AppDelay.{max_pre_commit_ms, max_post_commit_ms}
use skey.Cursor.{count_bytes, ends_at}
use skey.Engine.{last_char_start}
use skey.Timing.{deferred_delay}

-- A timer and what its callback passes on.
pub record Timer : Type 0 where
  pub due : ℕ
  pub post_ms : ℤ

pub record Deferred : Type 0 where
  pub text : Bytes
  pub prefix : Bytes
  pub flush_suffix : Bytes
  pub native_delete_len : ℕ
  pub deleted_tail : Bytes
  pub repair_attempt : ℕ
  pub bs_sent_at : ℕ
  pub deadline : ℕ
  pub timer : Option Timer

abbrev pub idle : Deferred
idle = record {
  text = [];
  prefix = [];
  flush_suffix = [];
  native_delete_len = 0;
  deleted_tail = [];
  repair_attempt = 0;
  bs_sent_at = 0;
  deadline = 0;
  timer = none;
}

-- What the addon does to the application.
pub data Effect : Type 0 where
  delete_before : Effect
  commit : Bytes → Effect
  sleep_usec : ℕ → Effect
  replay_keys : Effect

-- A valid surrounding text: the text and the cursor, in characters.
abbrev pub Surrounding : Type 0
Surrounding = Bytes × ℕ

-- `SurroundingCursor::endsWith` without its memory, which only saves time.
pub surrounding_cache_ends_with : Option Surrounding → Bytes → Bool
surrounding_cache_ends_with none expected = false
surrounding_cache_ends_with (some (text, cursor)) expected =
    not (is_empty expected || ltb (length text) (length expected))
    && ends_at (count_bytes cursor text) text expected

-- The loop that steps back over so many characters.
pub back_chars : Bytes → ℕ → ℕ → ℕ
back_chars tail start zero = start
back_chars tail zero (suc k) = zero
back_chars tail (suc start) (suc k) = back_chars tail (last_char_start tail start) k

-- The last `k` characters of the tail.
pub last_chars : Bytes → ℕ → Bytes
last_chars tail k = drop (back_chars tail (length tail) k) tail

pub longest_shown : Option Surrounding → Bytes → ℕ → ℕ
longest_shown surr tail zero = 0
longest_shown surr tail (suc k) =
    let rest = longest_shown surr tail k in
    if surrounding_cache_ends_with surr (last_chars tail (suc k)) then suc k else rest

abbrev pub is_valid : Option Surrounding → Bool
is_valid none = false
is_valid (some s) = true

-- The characters that the application failed to delete; `none` stands for -1, not to be verified.
pub missing_native_delete_chars : (Bytes → ℕ) → Deferred → Option Surrounding → Option ℕ
missing_native_delete_chars utf8_length d surr =
    if d.native_delete_len == 0 || is_empty d.deleted_tail
    then some 0
    else if not (is_valid surr)
    then none
    else some (longest_shown surr d.deleted_tail (utf8_length d.deleted_tail))

pub has_deferred_commit_pending : Deferred → Bool
has_deferred_commit_pending d = not (is_empty d.text)

-- An override of the delay before a commit, or the other delay if it is automatic.
abbrev pub gap_usec : ℤ → ℕ → ℕ
gap_usec (pos ms) other = min ms max_pre_commit_ms * 1000
gap_usec (negsuc n) other = other

-- What the delays follow from: the override, the measured round trip and its first value.
pub record Pace : Type 0 where
  pub pre_commit_ms : ℤ
  pub post_commit_ms : ℤ
  pub round_trip : ℕ
  pub seed : ℕ

pub schedule_deferred_commit : Pace → ℕ → Bytes → Bytes → ℕ → ℕ → Bytes → Deferred → Deferred
schedule_deferred_commit p now text stable_prefix delay_usec native_delete_len deleted_tail d =
    let delay =
      (if delay_usec == 0
        then gap_usec p.pre_commit_ms (deferred_delay p.round_trip p.seed)
        else delay_usec) in
    record d {
      text = text;
      prefix = stable_prefix;
      flush_suffix = [];
      native_delete_len = native_delete_len;
      repair_attempt = 0;
      deleted_tail = deleted_tail;
      deadline = add64 now delay;
      timer = some (record { due = add64 now delay; post_ms = p.post_commit_ms });
    }

-- A key while the commit waits: the pending text follows the word that is composed now.
pub update_pending : Bytes → Deferred → Deferred
update_pending new_composed d =
    if not (is_empty d.prefix) && is_prefix d.prefix new_composed
    then record d { text = drop (length d.prefix) new_composed }
    else record d { text = new_composed; prefix = [] }

unfoldable pub post_commit_pause : ℤ → List Effect
post_commit_pause (pos zero) = []
post_commit_pause (pos (suc n)) = sleep_usec (min (suc n) max_post_commit_ms * 1000) ∷ []
post_commit_pause (negsuc n) = []

pub deletes : ℕ → List Effect
deletes zero = []
deletes (suc n) = delete_before ∷ deletes n

-- What one run of `finishDeferredCommit` meets.
pub record Moment : Type 0 where
  pub now : ℕ
  pub cell_changed : Bool
  pub surrounding : Option Surrounding
  pub delivered : Bool
  -- a second call of `commitText` delivers a trigger key that the first one discarded
  pub redelivered : Bool

-- The part of `resetForCellChange` on these members.
pub reset_for_cell_change : Deferred → Deferred
reset_for_cell_change d = record d {
  timer = none;
  text = [];
  prefix = [];
  deadline = 0;
  bs_sent_at = 0;
  flush_suffix = [];
  native_delete_len = 0;
  deleted_tail = [];
}

-- The commit at the end of `finishDeferredCommit`. `commitText` returns false for another cell or for a failed
-- batch of keys: the text is gone then, unless it is a trigger key that is delivered to the other cell, and
-- what the reset assigns has been cleared before the call.
pub commit_now : ℤ → Moment → Deferred → Deferred × List Effect
unfolding post_commit_pause
commit_now post_ms m d = (
  idle,
  if m.delivered
      then commit (d.text ++ d.flush_suffix) ∷ (post_commit_pause post_ms ++ replay_keys ∷ [])
      else if m.redelivered
      then commit (d.text ++ d.flush_suffix) ∷ []
      else [],
)

abbrev pub retry : ℤ → Moment → Deferred → ℕ → Deferred × List Effect
retry post_ms m d missing = (
  record d {
    repair_attempt = d.repair_attempt + 1;
    timer = some (record { due = add64 m.now 20000; post_ms = post_ms });
  },
  if d.repair_attempt == 0 then [] else deletes missing,
)

abbrev pub if_missing : Option ℕ → Bool
if_missing none = false
if_missing (some zero) = false
if_missing (some (suc n)) = true

abbrev pub or_zero : Option ℕ → ℕ
or_zero none = 0
or_zero (some n) = n

pub finish_deferred_commit : (Bytes → ℕ) → ℤ → Moment → Deferred → Deferred × List Effect
unfolding commit_now reset_for_cell_change has_deferred_commit_pending
finish_deferred_commit utf8_length post_ms m d =
    let missing = missing_native_delete_chars utf8_length d m.surrounding in
    if m.cell_changed
    then (reset_for_cell_change d, [])
    else if not (has_deferred_commit_pending d)
    then (d, [])
    else if not (d.native_delete_len == 0) && ltb d.repair_attempt 3 && if_missing missing
    then retry post_ms m d (or_zero missing)
    else commit_now post_ms m d

-- The minimum gap of a flush: the fixed delay of Chromium on X11 stands for the adaptive one.
abbrev pub min_gap_usec : Pace → Option ℕ → ℕ
min_gap_usec p none = gap_usec p.pre_commit_ms (deferred_delay p.round_trip p.seed)
min_gap_usec p (some chromium) = gap_usec p.pre_commit_ms chromium

abbrev pub at_deadline : ℕ → Option Timer → Option Timer
at_deadline deadline none = none
at_deadline deadline (some t) = some (record t { due = deadline })

pub flush_deferred_commit :
    (Bytes → ℕ) → Pace → Option ℕ → Moment → Deferred → Deferred × List Effect
unfolding finish_deferred_commit
flush_deferred_commit utf8_length p chromium m d =
    let gap = min_gap_usec p chromium in
    let elapsed = sub64 m.now d.bs_sent_at in
    let finished = finish_deferred_commit utf8_length (pos 0) m d in
    if not (has_deferred_commit_pending d)
    then (record d { timer = none }, [])
    else if ltb m.now d.deadline
    then (record d { timer = at_deadline d.deadline d.timer }, [])
    else if d.deadline == 0 && ltb 0 d.bs_sent_at && ltb elapsed gap
    then (
      record d {
        timer = some (record { due = add64 m.now (gap - elapsed); post_ms = p.post_commit_ms });
      },
      [],
    )
    else finished

-- The rounds of `repairNativeDeletes` that are left, and the texts that they see.
pub repair_rounds : (Bytes → ℕ) → Deferred → Bool → List (Option Surrounding) → List Effect
repair_rounds utf8_length d confirmed [] = []
repair_rounds utf8_length d confirmed (surr ∷ surrs) =
    let missing = missing_native_delete_chars utf8_length d surr in
    let rest = repair_rounds utf8_length d true surrs in
    if not (if_missing missing)
    then []
    else if not confirmed
    then sleep_usec 20000 ∷ rest
    else deletes (or_zero missing) ++ sleep_usec 20000 ∷ rest

-- The three texts that the rounds may see.
pub repair_native_deletes :
    (Bytes → ℕ)
    → Option Surrounding
    → Option Surrounding
    → Option Surrounding
    → Deferred
    → Deferred × List Effect
unfolding repair_rounds
repair_native_deletes utf8_length first second third d =
    if d.native_delete_len == 0 then (d, []) else (
      record d { native_delete_len = 0; deleted_tail = [] },
      repair_rounds utf8_length d false (first ∷ (second ∷ (third ∷ []))),
    )

-- The Boolean is whether the text reaches the application by this call of `commitText`.
pub force_flush_deferred_commit :
    (Bytes → ℕ)
    → Option Surrounding
    → Option Surrounding
    → Option Surrounding
    → Bool
    → Deferred
    → Deferred × List Effect
unfolding repair_native_deletes
force_flush_deferred_commit utf8_length first second third delivered d =
    let (repaired, effects) = repair_native_deletes utf8_length first second third d in
    if not (has_deferred_commit_pending d) then (record d { timer = none }, []) else (
      record repaired {
        text = [];
        prefix = [];
        bs_sent_at = 0;
        deadline = 0;
        flush_suffix = [];
        timer = none;
      },
      effects ++ (if delivered then commit (d.text ++ d.flush_suffix) ∷ [] else []),
    )
