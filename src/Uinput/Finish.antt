-- ===== src/Uinput/Finish.antt =====
-- src/engine.cpp: finishUinputSettle, the callback of the timer that commits a replacement, with
-- scheduleUinputReplay. The answers of the other parts during one run are the record `Answers`; a check of
-- the cell that finds another one has reset the state itself. What sendBackspaceUinput sets for a request that
-- it accepts is left out.
pub mod Delivery
pub mod Ending
use skey.Base.{
  ℕ, zero, suc, ◌+◌, ◌-◌, ◌*◌, Bool, true, false, not, ◌&&◌, ◌||◌, Option, none, some, List, [],
  ◌∷◌, ◌++◌, ltb, leb, ◌==◌, if◌then◌else◌, Bytes, is_empty, contains, length, ℤ, pos, negsuc,
  add64, sub64,
}
use skey.Deferred.{Effect, commit, sleep_usec, replay_keys, post_commit_pause}
use skey.DeleteAck.{UinputDeleteAck, next_check_delay, remaining, acknowledged}
use skey.DeleteAck
use skey.Uinput.{
  Uinput, CommitTimer, Request, Deferral, go_on, discard, wait, defer_uinput_timer,
  reset_for_cell_change, schedule_uinput_settle,
}

-- A replacement, with the members that only its end uses.
pub record Replacement : Type 0 where
  pub keys : Uinput
  pub forwarded : Bool
  pub forwarded_quiet_until : ℕ
  pub forwarded_focus_retries : ℕ
  pub xim_edit_count : ℕ
  pub cycle_timer : Bool
  pub addr_bar_cycle_timer : Bool
  pub ack_unavailable : Bool
  pub ack_unavailable_until : ℕ
  pub repair_count : ℕ
  pub deleted_word : Bytes
  pub deleted_len : ℕ
  pub post_verify : Bool
  pub post_verify_done : Bool
  pub post_verify_until : ℕ
  pub committed_text : Bytes
  pub post_final_len : ℕ
  pub editor_entered : Bool
  pub browser_focus_settled : Bool
  pub prefix_chars : ℤ
  pub pending_full_delete : Bool
  pub did_full_replace : Bool
  pub keep_state : Bool
  pub reclaim_ready : Bool

pub record Answers : Type 0 where
  pub now : ℕ
  pub is_wayland : Bool
  pub native_x11_channel : Bool
  pub cell_changed : Bool
  pub blind_browser : Bool
  pub chromium_browser : Bool
  pub in_chromium_address_bar : Bool
  pub ack_family : Bool
  pub firefox_or_snap : Bool
  pub surrounding : Option (Bytes × ℕ)
  pub sent : Bool
  pub delivered : Bool
  pub text_length : ℕ
  pub ordered_replay : Bool

-- What a run does besides: the repair sends one deletion and an anchor for the word.
pub data Action : Type 0 where
  effect : Effect → Action
  note_settle : ℕ → Action
  repair : Bytes → Action

abbrev pub Finished : Type 0
Finished = Replacement × List Action

pub with_keys : Replacement → Uinput → Replacement
with_keys r s = record r { keys = s }

-- `resetForCellChange` on these members.
pub reset_replacement : ℕ → Replacement → Replacement
unfolding with_keys
reset_replacement now r = record (with_keys r (reset_for_cell_change now r.keys)) {
  forwarded = false;
  forwarded_quiet_until = 0;
  xim_edit_count = 0;
  cycle_timer = false;
  repair_count = 0;
  deleted_word = [];
  deleted_len = 0;
  post_verify = false;
  post_verify_done = false;
  post_verify_until = 0;
  committed_text = [];
  post_final_len = 0;
  editor_entered = false;
  browser_focus_settled = false;
  prefix_chars = negsuc 0;
  pending_full_delete = false;
}

-- Another run of the callback.
pub again : ℕ → ℕ → ℤ → Uinput → Uinput
again due retries post_ms s = record s {
  commit_timer = some (record { due = due; retries = retries; post_ms = post_ms });
}

-- How long the acknowledgement is still waited for.
unfoldable pub ack_wait : Answers → UinputDeleteAck → ℕ
ack_wait m ack =
    if not ack.active
    then 0
    else if m.is_wayland
    then remaining ack m.now
    else next_check_delay ack m.now

-- The wait for the acknowledgement is over: a browser on Wayland goes on asking for it, others pause.
pub end_ack : Answers → Replacement → Replacement
end_ack m r =
    if r.keys.delete_ack.active
      && not (acknowledged r.keys.delete_ack)
      && not (m.is_wayland && m.ack_family)
    then record r { ack_unavailable = true; ack_unavailable_until = add64 m.now 15000000 }
    else r

abbrev pub shows_word : Bytes → Option (Bytes × ℕ) → Bool
shows_word word none = false
shows_word word (some (text, cursor)) = contains word text

abbrev int_is : ℕ → ℤ → Bool
int_is n (pos k) = n == k
int_is n (negsuc k) = false

abbrev pub at_length : ℤ → Option (Bytes × ℕ) → Bool
at_length len none = false
at_length len (some (text, cursor)) = int_is cursor len

pub needs_repair : Answers → Replacement → Bool
needs_repair m r =
    m.blind_browser
    && ltb r.repair_count 3
    && r.keys.delete_ack.missed
    && not (is_empty r.deleted_word)

-- The state of a repair that is about to be sent.
pub repairing : Replacement → Replacement
repairing r = with_keys r (record r.keys {
  expected = 1;
  seen = 0;
  settling = false;
  commit_timer = none;
  delete_ack = DeleteAck.reset r.keys.delete_ack;
})

-- The members that the commit resets.
pub cleared : Replacement → Replacement
unfolding with_keys
cleared r =
    record (with_keys r (record r.keys {
      pending_commit = [];
      commit_timer = none;
      settling = false;
      delete_ack = DeleteAck.reset r.keys.delete_ack;
      deleting = false;
      shift_select = false;
    })) {
      prefix_chars = if r.forwarded && r.pending_full_delete then pos 0 else r.prefix_chars;
      pending_full_delete = false;
      forwarded = false;
      forwarded_quiet_until = 0;
      editor_entered = true;
    }

-- What follows a commit that was delivered.
pub delivered_text : Answers → Bytes → Bool → Replacement → Replacement
delivered_text m text verify r = record r {
  post_verify_done = verify || r.post_verify_done;
  post_verify = verify || r.post_verify;
  committed_text = if verify then text else r.committed_text;
  post_final_len = if verify then r.keys.pending_final_len else r.post_final_len;
  post_verify_until = if verify then add64 m.now 600000 else r.post_verify_until;
  browser_focus_settled =
      (not m.is_wayland && m.chromium_browser && not m.in_chromium_address_bar)
      || r.browser_focus_settled;
}

-- The lengths of what stands in the application now.
pub counted : Answers → Replacement → Replacement
unfolding with_keys
counted m r =
    let s = r.keys in
    let len = if ltb 0 s.pending_final_len then pos s.pending_final_len else s.committed_len in
    let t = record s {
      committed_len = if r.did_full_replace then pos m.text_length else len;
      pending_final_len = 0;
    } in
    record (with_keys r t) {
      did_full_replace = false;
      keep_state = r.keep_state && not r.did_full_replace;
      reclaim_ready = r.reclaim_ready && not r.did_full_replace;
    }

abbrev effects : List Effect → List Action
effects [] = []
effects (e ∷ es) = effect e ∷ effects es

-- The held keys are replayed at once, or by a timer.
pub replay : Answers → ℤ → Replacement → Finished
unfolding with_keys
replay m post_ms r =
    if m.ordered_replay
    then (
      with_keys r (record r.keys { settled_replay_timer = true }),
      effects (post_commit_pause post_ms),
    )
    else (r, effects (post_commit_pause post_ms) ++ effect replay_keys ∷ [])

abbrev forward_flag : Answers → Replacement → Replacement
forward_flag m r = record r {
  keys = record r.keys { key_forwarded = m.firefox_or_snap || r.keys.key_forwarded };
}

abbrev before : List Action → Finished → Finished
before actions (r, later) = (r, actions ++ later)

-- The end of the run: the commit of the text, if there is one.
pub commit_settled : Answers → ℤ → Replacement → Finished
unfolding cleared delivered_text counted replay
commit_settled m post_ms r =
    let text = r.keys.pending_commit in
    let verify =
      m.blind_browser
      && not (is_empty r.deleted_word)
      && ltb 0 r.deleted_len
      && not r.post_verify_done in
    let c = cleared r in
    if is_empty text
    then replay m post_ms (counted m c)
    else if m.delivered
    then before (effect (commit text) ∷ [])
        (replay m post_ms (counted m (delivered_text m text verify (forward_flag m c))))
    else (forward_flag m c, effect (commit text) ∷ [])

-- The runs that are left to verify the cursor.
pub verify_cursor : Answers → ℕ → ℤ → Replacement → Finished
unfolding with_keys again commit_settled
verify_cursor m zero post_ms r = commit_settled m post_ms r
verify_cursor m (suc retries) post_ms r =
    if at_length r.keys.committed_len m.surrounding
    then commit_settled m post_ms r
    else (with_keys r (again (add64 m.now 2000) retries post_ms r.keys), [])

-- The repair of a deletion that was missed.
pub repair_or_commit : Answers → ℕ → ℤ → Replacement → Finished
unfolding needs_repair repairing verify_cursor
repair_or_commit m retries post_ms r =
    let t = record r { repair_count = r.repair_count + 1 } in
    if not (needs_repair m r)
    then verify_cursor m retries post_ms r
    else if not (shows_word r.deleted_word m.surrounding)
    then verify_cursor m retries post_ms t
    else if m.sent
    then (repairing t, repair r.deleted_word ∷ [])
    else verify_cursor m retries post_ms (repairing t)

-- The run behind the waits for the focus and for the forwarded keys.
pub await_ack : Answers → ℕ → ℤ → Replacement → Finished
unfolding ack_wait end_ack with_keys again repair_or_commit reset_replacement
await_ack m retries post_ms r =
    if m.cell_changed
    then (reset_replacement m.now r, [])
    else if not (ack_wait m r.keys.delete_ack == 0)
    then (
      with_keys r (again (add64 m.now (ack_wait m r.keys.delete_ack)) retries post_ms r.keys),
      [],
    )
    else before
        (if r.keys.delete_ack.active
          then note_settle (sub64 m.now r.keys.settle_started_at) ∷ []
          else [])
        (repair_or_commit m retries post_ms (end_ack m r))

pub schedule_again : Answers → ℕ → ℕ → ℤ → Replacement → Finished
unfolding with_keys
schedule_again m delay retries post_ms r =
    (with_keys r (schedule_uinput_settle m.is_wayland m.now delay retries post_ms r.keys), [])

pub settle_due : Answers → ℕ → ℤ → Replacement → Finished
unfolding schedule_again await_ack with_keys reset_replacement
settle_due m retries post_ms r =
    if not r.keys.settling || not r.keys.deleting
    then (r, [])
    else if m.is_wayland && r.cycle_timer
    then schedule_again m 2000 retries post_ms r
    else if (r.forwarded || m.native_x11_channel) && (r.cycle_timer || r.addr_bar_cycle_timer)
    then (if leb 5 r.forwarded_focus_retries
        then (
          record (reset_replacement m.now r) {
            forwarded_focus_retries = r.forwarded_focus_retries + 1;
          },
          [],
        )
        else schedule_again m 2000 retries post_ms
            (record r { forwarded_focus_retries = r.forwarded_focus_retries + 1 }))
    else if ltb 0 r.xim_edit_count
    then (r, [])
    else if r.forwarded && not (r.forwarded_quiet_until == 0) && ltb m.now r.forwarded_quiet_until
    then schedule_again m (r.forwarded_quiet_until - m.now) retries post_ms r
    else await_ack m retries post_ms r

-- The callback, behind the question about the request; a run that has to wait keeps its timer for 1 ms.
pub finish_by : Deferral → Answers → ℕ → ℤ → Replacement → Finished
unfolding settle_due with_keys again reset_replacement
finish_by go_on m retries post_ms r = settle_due m retries post_ms r
finish_by wait m retries post_ms r =
    (with_keys r (again (add64 m.now 1000) retries post_ms r.keys), [])
finish_by discard m retries post_ms r = (reset_replacement m.now r, [])

pub finish_uinput_settle : Answers → ℕ → ℤ → Replacement → Finished
unfolding finish_by
finish_uinput_settle m retries post_ms r =
    finish_by (defer_uinput_timer r.keys.request) m retries post_ms r
