-- ===== src/Uinput/Examples.antt =====
-- Replacements by injected keys at concrete inputs.
use skey.Base.{
  ◌⊎◌, ◌&&◌, ℕ, ◌+◌, ◌-◌, ◌*◌, ◌/◌, ◌≤◌, ◌≡◌, refl, arith, min, max, true, false, none, some, List,
  [], ◌∷◌, ◌++◌, codes, Bytes, pos, negsuc, take,
}
use skey.AppDelay.{automatic}
use skey.DeleteAck.{init}
use skey.Timing.{Doubles}
use skey.Uinput.{
  Key, KeyKind, backspace, left, escape, other, Uinput, complete, running, consumed, unhandled,
  force_commit, taken, handle_pending_uinput_backspace, max_buffered_uinput_keys, defer_by, go_on,
  defer_uinput_timer,
}
use skey.Uinput.Delay.{App, band, settle_delay}
use skey.Uinput.Delay.Headroom.{settle_headroom, HasHeadroom}
use skey.Uinput.Tracking.{Arrival, handle_all, injected, reached, leaked, deletions_reach}
use skey.Uinput.Held.{typed, typed_keys_held}
use skey.Uinput.Queue.{queue_all, others, awaited, busy_queue_exact}
use skey.Uinput.Finish.{Replacement, Answers, Finished, finish_uinput_settle, ack_wait}
use skey.Uinput.Finish.Delivery.{texts, text_list, Ends, commit_is_due}
use skey.Uinput.Finish.Ending.{IsReady, IsPlain, settle-Ends}
use skey.Uinput.Finish.Ending
use skey.Uinput.Timeout.{
  Expiry, expire_all, failed_moments, done_moments, Ended, safety_timer_ends, late_left_unhandled,
}

abbrev terminal : App
terminal = record {
  is_wayland = false;
  is_native_x11 = true;
  is_chromium = false;
  is_chromium_browser = false;
  is_firefox_or_snap = false;
  is_terminal_app = true;
  is_terminal_app_name = true;
  has_terminal_capability = true;
  is_office_suite_app = false;
  is_tabby = false;
  in_chromium_address_bar = false;
  monitor = none;
  a11y_fresh_web_editor = false;
  a11y_focus_relevant = false;
  browser_focus_settled = true;
  last_activate_usec = 1;
  auto_delay = true;
  delays = automatic;
}

abbrev numbers : Doubles
numbers = record { Alpha = ℕ; half = 5; larger = max; blend = λ a x y. (a * x + (10 - a) * y) / 10 }

-- Two deletions replace the end of a word, and an anchor follows them.
abbrev replacing : Uinput
replacing = record {
  deleting = true;
  shift_select = false;
  expected = 2;
  seen = 0;
  outstanding = 3;
  committed_len = pos 4;
  pending_final_len = 4;
  pending_commit = codes "om";
  buffered_keys = [];
  settled_keys = [];
  replaying_settled_keys = false;
  settled_replay_timer = false;
  settling = false;
  settle_started_at = 0;
  commit_timer = none;
  safety_timer = some 160000;
  safety_retried = false;
  loopback_slow = false;
  late_bs_deadline_usec = 0;
  late_select = false;
  key_forwarded = false;
  request = some (record { state = complete; emitted_events = 6; by_native = false });
  legacy_native_pending = false;
  delete_ack = init;
  bs_sent_at = 10000;
  last_bs_round_trip = 0;
  bs_rt_ewma = 5000;
  last_trigger_key = 0;
  trigger_deadline = 0;
  trigger_key_time = 0;
}

abbrev press : ℕ → KeyKind → Key
press sym kind = record { sym = sym; time = 7; is_release = false; kind = kind }

abbrev at : ℕ → Key → Arrival
at now key = record { app = terminal; now = now; key = key }

abbrev text_of : ℕ → Bytes
text_of sym = sym ∷ []

abbrev events : List Arrival
events =
    at 12000 (press 65288 backspace)
    ∷ at 12500 (press 97 other)
    ∷ at 13000 (press 65288 backspace)
    ∷ at 14000 (press 65288 backspace)
    ∷ []

deletions_reach_example :
    (reached false (handle_all numbers 3 text_of events replacing).1 ≡ min 2 3)
    × (leaked false (handle_all numbers 3 text_of events replacing).1 ≡ 0)
    × ((handle_all numbers 3 text_of events replacing).0.settling ≡ true)
    × ((handle_all numbers 3 text_of events replacing).0.pending_commit ≡ codes "om")
unfolding injected
deletions_reach_example =
    deletions_reach numbers 3 text_of events replacing refl refl (omega arith) refl (omega arith)

abbrev before_anchor : List Arrival
before_anchor =
    at 12500 (press 97 other) ∷ at 13000 (press 65288 backspace) ∷ at 13500 (press 98 other) ∷ []

typed_keys_held_example :
    (handle_all numbers 3 text_of before_anchor replacing).0.buffered_keys
    ≡ take max_buffered_uinput_keys ([] ++ typed text_of replacing before_anchor)
unfolding injected
typed_keys_held_example =
    typed_keys_held numbers 3 text_of before_anchor replacing refl refl (omega arith) (omega arith)
      (omega arith)

settle_headroom_example :
    ((band terminal).min_delay ≤ (band terminal).max_delay)
    × HasHeadroom terminal true 2 (settle_delay terminal 14000 false true false 2 4000 5000)
settle_headroom_example = settle_headroom terminal 14000 true 2 4000 5000 0 refl

abbrev keys : List Key
keys = press 65288 backspace ∷ press 98 other ∷ press 65307 escape ∷ []

busy_queue_exact_example :
    queue_all true false 12000 keys replacing
    ≡ (record replacing { settled_keys = [] ++ others replacing keys }, awaited replacing keys)
busy_queue_exact_example = busy_queue_exact false 12000 keys replacing refl refl (omega arith) refl

-- The anchor does not come, and the batch takes long.
abbrev expirations : List Expiry
expirations =
    (record {
      now = 160000;
      request = some (record { state = running; emitted_events = 2; by_native = false });
      post_ms = negsuc 0;
    })
    ∷ (record { now = 161000; request = replacing.request; post_ms = negsuc 0 })
    ∷ (record { now = 781000; request = replacing.request; post_ms = negsuc 0 })
    ∷ []

safety_timer_ends_example : Ended taken (codes "om") (expire_all taken false expirations replacing)
unfolding failed_moments done_moments defer_uinput_timer
safety_timer_ends_example =
    safety_timer_ends taken false expirations replacing 160000 refl refl refl refl (omega arith)

abbrev selecting : Uinput
selecting = record replacing { shift_select = true }

abbrev forced : Uinput
forced = (force_commit 900000 (negsuc 0) taken selecting).0

late_left_unhandled_example :
    ((KeyKind.left ≡ backspace)
      → handle_pending_uinput_backspace numbers 3 text_of terminal 900500 (press 65361 left) forced
        ≡ (forced, consumed, []))
    × ((left ≡ left)
        → handle_pending_uinput_backspace numbers 3 text_of terminal 900500
            (press 65361 left)
            forced
          ≡ (forced, unhandled, []))
late_left_unhandled_example =
    late_left_unhandled numbers 3 text_of terminal 900000 900500 (negsuc 0) (press 65361 left)
      selecting (omega arith) (omega arith) refl

-- The anchor came, and a slow application has not moved its cursor yet.
abbrev settled : Replacement
settled = record {
  keys = record replacing {
    expected = 0;
    outstanding = 0;
    settling = true;
    safety_timer = none;
    commit_timer = some (record { due = 20000; retries = 1; post_ms = negsuc 0 });
  };
  forwarded = false;
  forwarded_quiet_until = 0;
  forwarded_focus_retries = 0;
  xim_edit_count = 0;
  cycle_timer = false;
  addr_bar_cycle_timer = false;
  ack_unavailable = false;
  ack_unavailable_until = 0;
  repair_count = 0;
  deleted_word = codes "an";
  deleted_len = 2;
  post_verify = false;
  post_verify_done = false;
  post_verify_until = 0;
  committed_text = [];
  post_final_len = 0;
  editor_entered = false;
  browser_focus_settled = false;
  prefix_chars = negsuc 0;
  pending_full_delete = false;
  did_full_replace = false;
  keep_state = false;
  reclaim_ready = false;
}

abbrev answers : ℕ → Answers
answers now = record {
  now = now;
  is_wayland = true;
  native_x11_channel = false;
  cell_changed = false;
  blind_browser = false;
  chromium_browser = false;
  in_chromium_address_bar = false;
  ack_family = true;
  firefox_or_snap = false;
  surrounding = some (codes "can", 3);
  sent = true;
  delivered = true;
  text_length = 2;
  ordered_replay = false;
}

settle-Ends_example :
    Ends (codes "om") (Ending.expire_all (answers 20000 ∷ answers 22000 ∷ []) settled)
unfolding defer_uinput_timer ack_wait defer_by
settle-Ends_example =
    settle-Ends 1 (answers 20000 ∷ answers 22000 ∷ []) settled
      (record { due = 20000; retries = 1; post_ms = negsuc 0 }) refl refl
      (record {
        request = refl;
        settles = refl;
        no_cycle = refl;
        no_bar_cycle = refl;
        no_xim = refl;
        not_forwarded = refl;
      })
      (
        record { no_wait = refl; same_cell = refl; sighted = refl },
        (record { no_wait = refl; same_cell = refl; sighted = refl }, tt),
      )
      (omega arith)

abbrev first_run : Finished
first_run = finish_uinput_settle (answers 20000) 1 (negsuc 0) settled

commit_is_due_example :
    ((texts first_run.1 ≡ [])
      × ((first_run.0.keys.pending_commit ≡ codes "om") ⊎ (first_run.0.keys.pending_commit ≡ [])))
    ⊎ ((texts first_run.1 ≡ text_list (codes "om"))
        × (first_run.0.keys.pending_commit ≡ [])
        × (first_run.0.keys.deleting ≡ false)
        × (first_run.0.keys.settling ≡ false)
        × (defer_uinput_timer settled.keys.request ≡ go_on)
        × ((settled.keys.settling && settled.keys.deleting) ≡ true)
        × ((answers 20000).cell_changed ≡ false)
        × (ack_wait (answers 20000) settled.keys.delete_ack ≡ 0))
commit_is_due_example = commit_is_due (answers 20000) 1 (negsuc 0) settled
