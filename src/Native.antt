-- ===== src/Native.antt =====
-- src/native_injector.cpp and injection_request.h: the worker that injects keys through XTest. Each answer
-- of the X server and of the cancelling threads is looked up in a `World` at the number of questions that
-- were asked before; so every interleaving of them with the worker is some world. The modifiers of the
-- server are split into Shift and the ones that no batch tolerates.
pub mod Released
pub mod Trace
mod Examples
use skey.Base.{
  ℕ, zero, suc, ◌+◌, ◌-◌, min, Bool, true, false, not, ◌&&◌, ◌||◌, Option, none, some, List, [],
  ◌∷◌, ◌++◌, ltb, leb, ◌==◌, if◌then◌else◌, length, add64,
}

pub data State : Type 0 where
  queued : State
  running : State
  complete : State
  failed : State
  cancelled : State

pub record Work : Type 0 where
  pub owner : ℕ
  pub count : ℕ
  pub escape : Bool
  pub select : Bool
  pub pace : ℕ
  pub expected_window : ℕ
  pub id : ℕ

-- A request that is done, and how.
pub record Settled : Type 0 where
  pub id : ℕ
  pub state : State

pub record Queue : Type 0 where
  pub x11 : Bool
  pub ready : Bool
  pub stop : Bool
  pub queue : List Work
  pub active : Option Work
  pub active_cancelled : Bool
  pub next_id : ℕ
  pub settled : List Settled

abbrev pub max_queue : ℕ
max_queue = 64

-- The identifier of the request, if it is accepted; a negative count is none.
pub submit : ℕ → Option ℕ → Bool → Bool → ℕ → ℕ → Queue → Queue × Option ℕ
submit owner none escape select pace expected_window q = (q, none)
submit owner (some count) escape select pace expected_window q =
    if not q.x11 || not q.ready || ltb 64 count || q.stop || leb max_queue (length q.queue)
    then (q, none)
    else (
      record q {
        queue =
            q.queue
            ++ record {
              owner = owner;
              count = count;
              escape = escape;
              select = select;
              pace = min pace 100000;
              expected_window = expected_window;
              id = q.next_id;
            }
              ∷ [];
        next_id = add64 q.next_id 1;
      },
      some q.next_id,
    )

-- The requests that stay, and those that are cancelled.
pub kept : ℕ → Bool → List Work → List Work
kept owner all [] = []
kept owner all (w ∷ ws) =
    if all || w.owner == owner then kept owner all ws else w ∷ kept owner all ws

pub dropped : ℕ → Bool → List Work → List Settled
dropped owner all [] = []
dropped owner all (w ∷ ws) =
    if all || w.owner == owner
    then record { id = w.id; state = cancelled } ∷ dropped owner all ws
    else dropped owner all ws

abbrev cancels : ℕ → Bool → Option Work → Bool
cancels owner all none = false
cancels owner all (some w) = all || w.owner == owner

pub cancel_x : ℕ → Bool → Queue → Queue
unfolding kept dropped
cancel_x owner all q = record q {
  queue = kept owner all q.queue;
  settled = q.settled ++ dropped owner all q.queue;
  active_cancelled = cancels owner all q.active || q.active_cancelled;
}

abbrev take_first : Queue → List Work → Queue
take_first q [] = q
take_first q (w ∷ ws) =
    if q.stop then q else record q { queue = ws; active = some w; active_cancelled = false }

-- The worker takes the first request.
pub take_work : Queue → Queue
take_work q = take_first q q.queue

-- The modifiers that are held: Shift, and any but Shift, Lock and Mod2.
pub record Mask : Type 0 where
  pub shift : Bool
  pub others : Bool

pub data KeySym : Type 0 where
  left : KeySym
  backspace : KeySym
  escape_key : KeySym
  shift_l : KeySym

pub record World : Type 0 where
  pub is_cancelled : ℕ → Bool
  pub keycode : ℕ → KeySym → ℕ
  pub modifiers : ℕ → Option Mask
  pub focus_window : ℕ → Option ℕ
  pub key : ℕ → ℕ → Bool → Bool
  pub flush : ℕ → Bool

-- A key event that was attempted, and whether the transport took it.
pub record Event : Type 0 where
  pub code : ℕ
  pub down : Bool
  pub taken : Bool

-- The worker in a batch: the questions so far, the events with the latest first, and the flags of `runX`.
pub record Batch : Type 0 where
  pub asked : ℕ
  pub events : List Event
  pub emitted_events : ℕ
  pub held : ℕ
  pub shift_held : Bool

abbrev pub Answer : Type 0
Answer = Bool × Batch

-- `&&` on calls: the second one is made only behind a success of the first.
pub after : Answer → (Batch → Answer) → Answer
after (true, b) next = next b
after (false, b) next = (false, b)

abbrev ask : Batch → Batch
ask b = record b { asked = b.asked + 1 }

pub not_cancelled : World → Batch → Answer
not_cancelled w b = (not (w.is_cancelled b.asked), ask b)

abbrev is_safe_mask : Bool → Option Mask → Bool
is_safe_mask shift_held none = false
is_safe_mask shift_held (some m) = not m.others && (shift_held || not m.shift)

pub modifiers_safe : World → Batch → Answer
modifiers_safe w b = (is_safe_mask b.shift_held (w.modifiers b.asked), ask b)

abbrev is_window : Option ℕ → Option ℕ → Bool
is_window none current = false
is_window (some target) none = false
is_window (some target) (some current) = current == target

-- The target is none if there was no focus to begin with.
pub focus_safe : World → Option ℕ → Batch → Answer
focus_safe w target b = (is_window target (w.focus_window b.asked), ask b)

pub emit : World → ℕ → Bool → Batch → Answer
emit w code down b =
    let taken = w.key b.asked code down && w.flush (b.asked + 1) in
    (
      taken,
      record b {
        asked = b.asked + 2;
        events = record { code = code; down = down; taken = taken } ∷ b.events;
        emitted_events = b.emitted_events + 1;
      },
    )

abbrev pub hold : ℕ → Batch → Batch
hold code b = record b { held = code }

pub tap : World → Option ℕ → ℕ → Batch → Answer
unfolding after not_cancelled modifiers_safe focus_safe emit
tap w target code b = after (not_cancelled w b) (λ c. after (modifiers_safe w c) (λ d.
    after (focus_safe w target d) (λ e.
      after (emit w code true (hold code e))
        (λ f. after (emit w code false f) (λ g. (true, hold 0 g))))))

pub pause : World → Option ℕ → Batch → Answer
unfolding after not_cancelled focus_safe
pause w target b = after (not_cancelled w b) (λ c. focus_safe w target c)

-- So many taps, with a pause between two.
pub taps : World → Option ℕ → ℕ → ℕ → Batch → Answer
unfolding after tap pause
taps w target code zero b = (true, b)
taps w target code (suc n) b =
    after (tap w target code b)
      (λ c. if n == 0 then (true, c) else after (pause w target c) (λ d. taps w target code n d))

-- What a batch finds out at its beginning: the target, and the key codes; 0 is none.
pub record Keys : Type 0 where
  pub target : Option ℕ
  pub shift_code : ℕ
  pub key_code : ℕ
  pub escape_code : ℕ

pub look_up : World → Work → Keys × Batch
look_up w work =
    let pinned = not (work.expected_window == 0) in
    let n = if pinned then 0 else 1 in
    (
      record {
        target = if pinned then some work.expected_window else w.focus_window 0;
        shift_code = w.keycode n shift_l;
        key_code = w.keycode (n + 1) (if work.select then left else backspace);
        escape_code = w.keycode (n + 2) escape_key;
      },
      record { asked = n + 3; events = []; emitted_events = 0; held = 0; shift_held = false },
    )

pub is_ready : World → Work → Keys → Batch → Answer
unfolding after not_cancelled modifiers_safe focus_safe
is_ready w work k b = after (not_cancelled w b) (λ c.
    if k.key_code == 0 || (work.escape && k.escape_code == 0) || (work.select && k.shift_code == 0)
    then (false, c)
    else after (modifiers_safe w c) (λ d. focus_safe w k.target d))

abbrev pub hold_shift : Bool → Batch → Batch
hold_shift held b = record b { shift_held = held }

pub press_shift : World → Work → Keys → Batch → Answer
unfolding emit
press_shift w work k b =
    if work.select then emit w k.shift_code true (hold_shift true b) else (true, b)

pub tap_escape : World → Work → Keys → Batch → Answer
unfolding after tap pause
tap_escape w work k b =
    if work.escape
    then after (tap w k.target k.escape_code b) (λ c. pause w k.target c)
    else (true, b)

-- Shift is released, and the anchor tapped behind that.
pub release_shift : World → Work → Keys → Answer → Answer
unfolding after emit tap
release_shift w work k (ok, b) =
    if work.select && b.shift_held
    then (let r = emit w k.shift_code false b in
        if not r.0
        then (false, r.1)
        else if ok
        then tap w k.target k.key_code (hold_shift false r.1)
        else (false, hold_shift false r.1))
    else (ok, b)

-- The keys that are still held are released.
pub release_held : World → Answer → Answer
unfolding emit
release_held w (ok, b) =
    if b.held == 0 then (ok, b) else (let r = emit w b.held false b in (r.0 && ok, r.1))

pub release_last : World → Keys → Answer → Answer
unfolding emit
release_last w k (ok, b) =
    if b.shift_held then (let r = emit w k.shift_code false b in (r.0 && ok, r.1)) else (ok, b)

-- The batch up to the keys that it may leave held.
pub send : World → Work → Keys → Batch → Answer
unfolding after is_ready press_shift tap_escape taps release_shift
send w work k b = release_shift w work k (
    after (is_ready w work k b) (λ c.
      after (press_shift w work k c)
        (λ d. after (tap_escape w work k d) (λ e. taps w k.target k.key_code work.count e))))

pub state_of : World → Answer → State
state_of w (ok, b) =
    if w.is_cancelled (if ok then b.asked else b.asked + 1)
    then cancelled
    else if ok
    then complete
    else failed

pub run_batch : World → Work → Batch × State
unfolding look_up send release_held release_last state_of
run_batch w work =
    let (k, b) = look_up w work in
    let r = release_last w k (release_held w (send w work k b)) in (r.1, state_of w r)
