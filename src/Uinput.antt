-- ===== src/Uinput.antt =====
-- src/engine.cpp and engine.h: a replacement by injected keys. The engine injects as many deletions as the old
-- text needs and one more, the anchor; each comes back as a key event. The deletions pass to the
-- application, the anchor is consumed and starts the wait for the commit, and a safety timer ends the
-- replacement when the anchor does not come. The clock is an argument, read once for each event; so are the
-- answers of the queries on the application. `Key::keySymToUTF8` of fcitx5 is the parameter `key_utf8`.
pub mod Delay
pub mod Tracking
pub mod Held
pub mod Queue
pub mod Finish
pub mod Timeout
mod Examples
use skey.Base.{
  ℕ, zero, suc, ◌+◌, ◌-◌, ◌*◌, min, Bool, true, false, not, ◌&&◌, ◌||◌, Option, none, some, List,
  [], ◌∷◌, ◌++◌, ltb, leb, ◌==◌, if◌then◌else◌, Bytes, is_empty, length, ℤ, pos, negsuc, add64,
  sub64,
}
use skey.AppDelay.{AppDelayOverride, is_set}
use skey.Deferred.{Effect, commit, sleep_usec, replay_keys, post_commit_pause}
use skey.DeleteAck.{UinputDeleteAck, next_check_delay}
use skey.DeleteAck
use skey.Timing.{Doubles, updated_round_trip}
use skey.Uinput.Delay.{
  App, settle_delay, slow_mode, uinput_timing, UinputTiming, uinput_slow_mode_verify_retries,
}

-- What the comparisons with the constants of fcitx5 tell of a key; a Backspace counts without modifiers only,
-- and an Escape with modifiers is a kind of its own.
pub data KeyKind : Type 0 where
  backspace : KeyKind
  left : KeyKind
  escape : KeyKind
  modified_escape : KeyKind
  shift : KeyKind
  other : KeyKind

pub record Key : Type 0 where
  pub sym : ℕ
  pub time : ℕ
  pub is_release : Bool
  pub kind : KeyKind

abbrev pub is_backspace : KeyKind → Bool
is_backspace backspace = true
is_backspace _ = false

abbrev pub is_left : KeyKind → Bool
is_left left = true
is_left _ = false

abbrev pub is_escape : KeyKind → Bool
is_escape escape = true
is_escape modified_escape = true
is_escape _ = false

abbrev pub is_plain_escape : KeyKind → Bool
is_plain_escape escape = true
is_plain_escape _ = false

abbrev pub is_shift : KeyKind → Bool
is_shift shift = true
is_shift _ = false

pub data RequestState : Type 0 where
  queued : RequestState
  running : RequestState
  complete : RequestState
  failed : RequestState
  cancelled : RequestState

-- The batch of keys that was sent.
pub record Request : Type 0 where
  pub state : RequestState
  pub emitted_events : ℕ
  pub by_native : Bool

pub record CommitTimer : Type 0 where
  pub due : ℕ
  pub retries : ℕ
  pub post_ms : ℤ

pub record Uinput : Type 0 where
  pub deleting : Bool
  pub shift_select : Bool
  pub expected : ℕ
  pub seen : ℕ
  pub outstanding : ℕ
  pub committed_len : ℤ
  pub pending_final_len : ℕ
  pub pending_commit : Bytes
  pub buffered_keys : List ℕ
  pub settled_keys : List Key
  pub replaying_settled_keys : Bool
  pub settled_replay_timer : Bool
  pub settling : Bool
  pub settle_started_at : ℕ
  pub commit_timer : Option CommitTimer
  pub safety_timer : Option ℕ
  pub safety_retried : Bool
  pub loopback_slow : Bool
  pub late_bs_deadline_usec : ℕ
  pub late_select : Bool
  pub key_forwarded : Bool
  pub request : Option Request
  pub legacy_native_pending : Bool
  pub delete_ack : UinputDeleteAck
  pub bs_sent_at : ℕ
  pub last_bs_round_trip : ℕ
  pub bs_rt_ewma : ℕ
  pub last_trigger_key : ℕ
  pub trigger_deadline : ℕ
  pub trigger_key_time : ℕ

abbrev pub max_buffered_uinput_keys : ℕ
max_buffered_uinput_keys = 32

-- What becomes of a key event: not handled here, passed on to the application, or consumed.
pub data Verdict : Type 0 where
  unhandled : Verdict
  passed : Verdict
  consumed : Verdict

-- What is noted for the statistics of the application.
pub data Note : Type 0 where
  note_round_trip : ℕ → Note
  note_sleep : ℕ → Note

abbrev pub Handled : Type 0
Handled = Uinput × Verdict × List Note

pub schedule_uinput_settle : Bool → ℕ → ℕ → ℕ → ℤ → Uinput → Uinput
schedule_uinput_settle is_wayland now delay retries post_ms s =
    let wait =
      if not is_wayland && s.delete_ack.active then next_check_delay s.delete_ack now else delay in
    record s {
      settling = true;
      settle_started_at = now;
      commit_timer = some (record { due = add64 now wait; retries = retries; post_ms = post_ms });
    }

-- The keys of an earlier replacement that come late.
pub swallows_late : ℕ → Key → Uinput → Bool
swallows_late now key s =
    not (s.late_bs_deadline_usec == 0)
    && ltb now s.late_bs_deadline_usec
    && (is_backspace key.kind || (s.late_select && is_left key.kind))

pub end_grace : ℕ → Uinput → Uinput
end_grace now s =
    if s.late_bs_deadline_usec == 0 || ltb now s.late_bs_deadline_usec
    then s
    else record s { late_bs_deadline_usec = 0; late_select = false }

pub is_tracked_key : Key → Uinput → Bool
is_tracked_key key s = if s.shift_select then is_left key.kind else is_backspace key.kind

-- The key that started the replacement, which the application sends again.
pub is_redelivered : App → ℕ → Key → Uinput → Bool
is_redelivered app now key s =
    app.is_chromium
    && not (s.last_trigger_key == 0)
    && ltb now s.trigger_deadline
    && key.sym == s.last_trigger_key
    && not (
        not app.is_wayland
        && (app.is_native_x11 || app.is_chromium_browser)
        && not (key.time == 0)
        && not (s.trigger_key_time == 0)
        && not (key.time == s.trigger_key_time))

pub buffer_key : (ℕ → Bytes) → Key → Uinput → Uinput
buffer_key key_utf8 key s = record s {
  buffered_keys =
      if not (is_empty (key_utf8 key.sym)) && ltb (length s.buffered_keys) max_buffered_uinput_keys
      then s.buffered_keys ++ key.sym ∷ []
      else s.buffered_keys;
}

-- A key that is none of the injected ones.
pub other_key : (ℕ → Bytes) → App → ℕ → Key → Uinput → Handled
unfolding buffer_key is_redelivered
other_key key_utf8 app now key s =
    if is_escape key.kind || (s.shift_select && is_shift key.kind)
    then (s, passed, [])
    else if is_redelivered app now key s
    then (s, consumed, [])
    else (buffer_key key_utf8 key s, consumed, [])

abbrev pub less_one : ℤ → ℤ
less_one (pos n) = pos (n - 1)
less_one (negsuc n) = negsuc n

-- An injected deletion; the counters stop at 0.
pub pass_deletion : App → Uinput → Handled
pass_deletion app s = (
  record s {
    seen = s.seen + 1;
    outstanding = s.outstanding - 1;
    committed_len = less_one s.committed_len;
    key_forwarded = app.is_firefox_or_snap || s.key_forwarded;
  },
  passed,
  [],
)

-- The acknowledgement, unless the settings have changed meanwhile.
pub kept_ack : App → UinputDeleteAck → UinputDeleteAck
unfolding DeleteAck.reset
kept_ack app ack =
    if is_set app.delays.pre_commit_ms || not app.auto_delay then DeleteAck.reset ack else ack

-- The anchor.
pub sync_key : (d : Doubles) → d.Alpha → App → ℕ → Uinput → Handled
unfolding schedule_uinput_settle kept_ack
sync_key d alpha app now s =
    let elapsed = sub64 now s.bs_sent_at in
    let seed = (uinput_timing app.is_wayland).bs_rt_initial_usec in
    let ewma = updated_round_trip d s.bs_rt_ewma elapsed seed alpha in
    let ack = kept_ack app s.delete_ack in
    let usec =
      settle_delay app now ack.active s.loopback_slow s.shift_select s.expected elapsed ewma in
    let retries = if slow_mode app then uinput_slow_mode_verify_retries else 0 in
    (
      schedule_uinput_settle app.is_wayland now usec retries app.delays.post_commit_ms (record s {
        safety_timer = none;
        safety_retried = false;
        outstanding = s.outstanding - 1;
        expected = 0;
        seen = 0;
        last_bs_round_trip = elapsed;
        bs_rt_ewma = ewma;
        loopback_slow = false;
        delete_ack = ack;
      }),
      consumed,
      (if app.in_chromium_address_bar || s.bs_sent_at == 0
            then []
            else note_round_trip elapsed ∷ [])
          ++ note_sleep usec ∷ [],
    )

-- A key while the deletions are under way.
pub deleting_key : (d : Doubles) → d.Alpha → (ℕ → Bytes) → App → ℕ → Key → Uinput → Handled
unfolding other_key pass_deletion sync_key is_tracked_key
deleting_key d alpha key_utf8 app now key s =
    if not (is_tracked_key key s) || s.expected == 0
    then other_key key_utf8 app now key s
    else if ltb s.seen s.expected
    then pass_deletion app s
    else sync_key d alpha app now s

pub handle_pending_uinput_backspace :
    (d : Doubles) → d.Alpha → (ℕ → Bytes) → App → ℕ → Key → Uinput → Handled
unfolding swallows_late end_grace deleting_key
handle_pending_uinput_backspace d alpha key_utf8 app now key s =
    if swallows_late now key s
    then (s, consumed, [])
    else if (end_grace now s).deleting
    then deleting_key d alpha key_utf8 app now key (end_grace now s)
    else (end_grace now s, unhandled, [])

abbrev is_running : RequestState → Bool
is_running running = true
is_running _ = false

abbrev has_reached_device : Bool → Option Request → Bool
has_reached_device legacy none = false
has_reached_device legacy (some r) =
    not r.by_native || legacy || ltb 0 r.emitted_events || is_running r.state

abbrev pub has_request : Option Request → Bool
has_request none = false
has_request (some r) = true

pub cancel_uinput_request : ℕ → Uinput → Uinput
cancel_uinput_request now s =
    let late =
      has_reached_device s.legacy_native_pending s.request
      && (ltb 0 s.outstanding || s.shift_select) in
    record s {
      late_select = if late then s.shift_select else s.late_select;
      late_bs_deadline_usec = if late then add64 now 400000 else s.late_bs_deadline_usec;
      outstanding = if has_request s.request then 0 else s.outstanding;
      legacy_native_pending = false;
      request = none;
    }

-- The part of `resetForCellChange` on these members.
pub reset_for_cell_change : ℕ → Uinput → Uinput
unfolding cancel_uinput_request DeleteAck.reset
reset_for_cell_change now s =
    let c = cancel_uinput_request now s in
    record c {
      committed_len = pos 0;
      buffered_keys = [];
      settled_replay_timer = false;
      settled_keys = [];
      settling = false;
      delete_ack = DeleteAck.reset c.delete_ack;
      commit_timer = none;
      safety_timer = none;
      deleting = false;
      shift_select = false;
      pending_commit = [];
      expected = 0;
      seen = 0;
      pending_final_len = 0;
      last_trigger_key = 0;
      trigger_deadline = 0;
      trigger_key_time = 0;
    }

-- How long the safety timer waits.
pub safety_budget : Bool → Uinput → ℕ
safety_budget is_wayland s =
    let timing = uinput_timing is_wayland in
    let usec = if s.safety_retried then timing.safety_retry_usec else timing.safety_timeout_usec in
    if not is_wayland && ltb 0 s.expected
    then min (usec + s.expected * min (s.bs_rt_ewma * 2) 150000) 800000
    else usec

pub arm_uinput_safety_timer : Bool → ℕ → Uinput → Uinput
unfolding safety_budget
arm_uinput_safety_timer is_wayland now s = record s {
  safety_timer = some (add64 now (safety_budget is_wayland s));
}

-- What a timer does about the request of its replacement: nothing, discard the replacement, or wait.
pub data Deferral : Type 0 where
  go_on : Deferral
  discard : Deferral
  wait : Deferral

pub defer_by : RequestState → Deferral
defer_by queued = wait
defer_by running = wait
defer_by complete = go_on
defer_by failed = discard
defer_by cancelled = discard

pub defer_uinput_timer : Option Request → Deferral
unfolding defer_by
defer_uinput_timer none = go_on
defer_uinput_timer (some r) = defer_by r.state

-- What `commitText` does with a text: it commits it, or `checkCellSelection` finds another cell, and the text
-- is discarded; the latter is the trigger key alone, in a Chromium or Firefox on Wayland, where a second call
-- delivers it to the new cell or does not.
pub data CommitAnswer : Type 0 where
  taken : CommitAnswer
  discarded : CommitAnswer
  redelivered : Bool → CommitAnswer

-- The members behind the call, which is made for a text that is not empty.
pub after_commit : CommitAnswer → ℕ → Bytes → Uinput → Uinput
unfolding reset_for_cell_change
after_commit taken now text s = s
after_commit discarded now text s = if is_empty text then s else reset_for_cell_change now s
after_commit (redelivered again) now text s =
    if is_empty text then s else record (reset_for_cell_change now s) { committed_len = pos 1 }

pub commit_effects : CommitAnswer → Bytes → List Effect
commit_effects taken text = if is_empty text then [] else commit text ∷ []
commit_effects discarded text = []
commit_effects (redelivered again) text =
    if is_empty text || not again then [] else commit text ∷ []

-- The members before the call of `commitText` that the safety timer forces.
abbrev pub given_up : ℕ → Uinput → Uinput
given_up now s = record s {
  safety_retried = false;
  safety_timer = none;
  commit_timer = none;
  late_bs_deadline_usec = add64 now 400000;
  pending_commit = [];
  expected = 0;
  seen = 0;
  outstanding = 0;
  deleting = false;
  committed_len = pos 0;
  pending_final_len = 0;
}

-- The commit that the safety timer forces, up to the replay of the keys that are held back, and its
-- effects, of which the call of the replay is the last; `post_ms` is the manual pause behind the commit.
pub force_commit : ℕ → ℤ → CommitAnswer → Uinput → Uinput × List Effect
unfolding post_commit_pause after_commit commit_effects
force_commit now post_ms answer s =
    let t = after_commit answer now s.pending_commit (given_up now s) in
    (
      t,
      commit_effects answer s.pending_commit
          ++ post_commit_pause post_ms
          ++ (if length t.buffered_keys == 0 && length t.settled_keys == 0
              then []
              else replay_keys ∷ []),
    )

abbrev pub extends_safety : Uinput → Bool
extends_safety s = ltb 0 s.outstanding && not s.safety_retried

-- The callback of the safety timer, behind the question about the request.
pub safety_due : Deferral → Bool → ℕ → ℤ → CommitAnswer → Uinput → Uinput × List Effect
unfolding arm_uinput_safety_timer force_commit reset_for_cell_change
safety_due discard is_wayland now post_ms answer s = (reset_for_cell_change now s, [])
safety_due wait is_wayland now post_ms answer s =
    (record s { safety_timer = some (add64 now 1000) }, [])
safety_due go_on is_wayland now post_ms answer s =
    if extends_safety s
    then (
      arm_uinput_safety_timer is_wayland now
          (record s { safety_retried = true; loopback_slow = true }),
      [],
    )
    else force_commit now post_ms answer s

pub safety_expired : Bool → ℕ → ℤ → CommitAnswer → Uinput → Uinput × List Effect
unfolding safety_due defer_uinput_timer
safety_expired is_wayland now post_ms answer s =
    safety_due (defer_uinput_timer s.request) is_wayland now post_ms answer s

-- An injected key whose replacement still waits for it.
pub is_awaiting_anchor : Key → Uinput → Bool
is_awaiting_anchor key s =
    s.deleting
    && not s.settling
    && ltb 0 s.expected
    && (is_backspace key.kind
        || is_plain_escape key.kind
        || (s.shift_select && (is_left key.kind || is_shift key.kind)))

-- Something is under way that later keys have to wait for.
pub has_queue : Bool → Bool → Uinput → Bool
has_queue ordered_replay deferred_deletes s =
    (s.deleting && ordered_replay)
    || s.settled_replay_timer
    || s.settling
    || ltb 0 (length s.settled_keys)
    || deferred_deletes

-- A key that has to wait is queued, unless its `checkCellSelection` has ended what it waits for.
pub queue_waiting : Bool → Bool → Bool → ℕ → Key → Uinput → Uinput × Bool
unfolding has_queue reset_for_cell_change
queue_waiting ordered_replay deferred_deletes cell_changed now key s =
    let reset = not key.is_release && cell_changed in
    let t = if reset then reset_for_cell_change now s else s in
    if (s.deleting && ordered_replay) || has_queue false (deferred_deletes && not reset) t
    then (record t { settled_keys = t.settled_keys ++ key ∷ [] }, true)
    else (t, false)

-- The queue at the beginning of `keyEvent`, and whether the key is put there. The arguments say whether
-- replays are ordered, whether a native deletion waits for its commit, and whether `checkCellSelection` finds
-- another cell.
pub queue_key : Bool → Bool → Bool → ℕ → Key → Uinput → Uinput × Bool
unfolding has_queue is_awaiting_anchor queue_waiting
queue_key ordered_replay deferred_deletes cell_changed now key s =
    if not s.replaying_settled_keys
      && not (is_awaiting_anchor key s)
      && has_queue ordered_replay deferred_deletes s
    then queue_waiting ordered_replay deferred_deletes cell_changed now key s
    else (s, false)
