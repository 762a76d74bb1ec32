-- ===== src/Injector.antt =====
-- src/uinput_injector.cpp and injection_request.h: the queue of key batches and the worker thread. The
-- worker holds the mutex except while it opens, writes to or closes the device and while it waits. A
-- `Phase` is such a place, and `resume` is what the worker does from there to the next one; between two
-- of its steps any calls of the engine's thread may run.
pub mod Send
pub mod Trace
pub mod Store
pub mod Invariant
pub mod Tickets
pub mod Emission
pub mod Selection
pub mod Bounds
mod Examples
use skey.Base.{
  ℕ, zero, suc, ◌+◌, min, Bool, true, false, not, ◌&&◌, ◌||◌, Option, none, some, List, [], ◌∷◌,
  ◌++◌, ltb, leb, ◌==◌, if◌then◌else◌, Bytes, codes, ℤ, pos, negsuc, length,
}

pub data State : Type 0 where
  queued running complete failed cancelled : State

pub record Batch : Type 0 where
  pub owner : ℕ
  pub count : ℕ
  pub escape : Bool
  pub shift_select : Bool
  pub pace : ℕ
  pub ticket : ℕ

pub data Key : Type 0 where
  key_esc key_backspace key_left key_leftshift : Key

pub data KeyEvent : Type 0 where
  press release : Key → KeyEvent

-- The writes of a batch; `left` and `backspace` carry the loop's index.
pub data Write : Type 0 where
  escape shift_down shift_up anchor : Write
  left backspace : ℕ → Write

pub data Pause : Type 0 where
  escape_pause : Pause
  left_pause backspace_pause : ℕ → Pause

-- `idle`: the thread is not started. `closing`: the device is closed after a failed write.
pub data Phase : Type 0 where
  idle opening reopening warming waiting closing backing_off stopped : Phase
  sending : Batch → Write → Phase
  pausing : Batch → Pause → Phase

-- A ticket is a number, `states` the states of all of them, `written` what the open device was told,
-- its newest event first. `phase` is where the worker is, with its local batch.
pub record Impl : Type 0 where
  pub stopping : Bool
  pub available : Bool
  pub message : Bytes
  pub queue : List Batch
  pub active : Option ℕ
  pub active_owner : ℕ
  pub phase : Phase
  pub states : ℕ → State
  pub next_ticket : ℕ
  pub written : List KeyEvent

abbrev pub init : Impl
init = record {
  stopping = false;
  available = false;
  message = codes "not started";
  queue = [];
  active = none;
  active_owner = 0;
  phase = idle;
  states = λ t. queued;
  next_ticket = 0;
  written = [];
}

pub store : (ℕ → State) → ℕ → State → ℕ → State
store states t s i = if i == t then s else states i

-- The store of one state in the ticket of every batch.
pub store_all : (ℕ → State) → List Batch → State → ℕ → State
store_all states [] s = states
store_all states (b ∷ bs) s = store (store_all states bs s) b.ticket s

abbrev pub store_active : (ℕ → State) → Option ℕ → State → ℕ → State
store_active states none s = states
store_active states (some t) s = store states t s

abbrev pub is_cancelled : State → Bool
is_cancelled cancelled = true
is_cancelled queued = false
is_cancelled running = false
is_cancelled complete = false
is_cancelled failed = false

pub interrupted : Impl → ℕ → Bool
interrupted s ticket = s.stopping || is_cancelled (s.states ticket)

-- The end of `run`, behind its loop.
pub shut_down : Impl → Impl
shut_down s = record s {
  available = false;
  states = store_all (store_active s.states s.active cancelled) s.queue cancelled;
  queue = [];
  written = [];
  phase = stopped;
}

-- The head of the loop.
pub next_round : Impl → Impl
next_round s =
    if s.stopping
    then shut_down s
    else if not s.available
    then record s { message = codes "initializing /dev/uinput"; phase = opening }
    else record s { phase = waiting }

-- The end of the loop's body for a batch whose writes succeeded.
pub finish_batch : Impl → Batch → Impl
finish_batch s b = next_round (record s {
  active = none;
  states =
      if is_cancelled (s.states b.ticket)
      then s.states
      else store s.states b.ticket (if s.stopping then cancelled else complete);
})

pub to_backspace : Impl → Batch → ℕ → Impl
to_backspace s b i =
    if ltb i b.count && not (interrupted s b.ticket)
    then record s { phase = sending b (backspace i) }
    else finish_batch s b

pub to_anchor : Impl → Batch → Impl
to_anchor s b =
    if not (interrupted s b.ticket) then record s { phase = sending b anchor } else finish_batch s b

pub to_release : Impl → Batch → Impl
to_release s b =
    if not (interrupted s b.ticket) then record s { phase = sending b shift_up } else to_anchor s b

pub to_left : Impl → Batch → ℕ → Impl
to_left s b i =
    if ltb i b.count && not (interrupted s b.ticket)
    then record s { phase = sending b (left i) }
    else to_release s b

pub behind_escape : Impl → Batch → Impl
behind_escape s b =
    if b.shift_select then record s { phase = sending b shift_down } else to_backspace s b 0

-- From the front of the queue to the first write of the batch.
pub take_batch : Impl → Batch → List Batch → Impl
take_batch s b bs =
    let s' = record s { queue = bs; active = some b.ticket; active_owner = b.owner } in
    if not (interrupted s' b.ticket) && b.escape
    then record s' { phase = sending b escape }
    else behind_escape s' b

abbrev pub tapped : Key → List KeyEvent → List KeyEvent
tapped key es = release key ∷ (press key ∷ es)

-- The events of `tap`, `press` and `release`.
abbrev pub emitted : Write → List KeyEvent → List KeyEvent
emitted escape es = tapped key_esc es
emitted shift_down es = press key_leftshift ∷ es
emitted shift_up es = release key_leftshift ∷ es
emitted anchor es = tapped key_left es
emitted (left i) es = tapped key_left es
emitted (backspace i) es = tapped key_backspace es

-- Behind a write that succeeded.
pub behind_write : Impl → Batch → Write → Impl
behind_write s b escape = record s { phase = pausing b escape_pause }
behind_write s b shift_down = to_left s b 0
behind_write s b (left i) = record s { phase = pausing b (left_pause i) }
behind_write s b shift_up = to_anchor s b
behind_write s b anchor = finish_batch s b
behind_write s b (backspace i) =
    if ltb (i + 1) b.count
    then record s { phase = pausing b (backspace_pause i) }
    else to_backspace s b (i + 1)

pub behind_pause : Impl → Batch → Pause → Impl
behind_pause s b escape_pause = behind_escape s b
behind_pause s b (left_pause i) = to_left s b (i + 1)
behind_pause s b (backspace_pause i) = to_backspace s b (i + 1)

-- A failed write: `send` stores the state, and the loop closes the device.
pub write_failed : Impl → Batch → Bytes → Impl
write_failed s b error = record s {
  message = error;
  states = store s.states b.ticket failed;
  available = false;
  phase = closing;
}

-- Behind the closing of the device.
pub fail_pending : Impl → Impl
fail_pending s = record s {
  states = store_all s.states s.queue failed;
  queue = [];
  active = none;
  written = [];
  phase = backing_off;
}

pub wake_up : Impl → List Batch → Impl
wake_up s [] = s
wake_up s (b ∷ bs) = take_batch s b bs

-- One step of the worker. `none` is the success of the open or of the write in progress, `some` its
-- failure with the message; the other phases ignore it.
pub resume : Impl → Phase → Option Bytes → Impl
resume s idle r = s
resume s opening none = record s { phase = warming }
resume s opening (some error) = record s { message = error; phase = reopening; written = [] }
resume s reopening r = if s.stopping then shut_down s else next_round s
resume s warming r =
    if s.stopping
    then shut_down s
    else record s { available = true; message = codes "ready"; phase = waiting }
resume s waiting r = if s.stopping then shut_down s else wake_up s s.queue
resume s (sending b w) none = behind_write (record s { written = emitted w s.written }) b w
resume s (sending b w) (some error) = write_failed s b error
resume s (pausing b p) r = behind_pause s b p
resume s closing r = fail_pending s
resume s backing_off r = if s.stopping then shut_down s else next_round s
resume s stopped r = s

abbrev pub is_idle : Phase → Bool
is_idle idle = true
is_idle _ = false

pub start : Impl → Impl
start s = if is_idle s.phase then next_round s else s

pub enqueue : Impl → Batch → Impl × Option ℕ
enqueue s b = (
  record s {
    queue = s.queue ++ b ∷ [];
    states = store s.states b.ticket queued;
    next_ticket = s.next_ticket + 1;
  },
  some b.ticket,
)

abbrev pub refuses : Impl → ℕ → Bool
refuses s count =
    not s.available || s.stopping || ltb count 1 || ltb 64 count || leb 8 (length s.queue)

-- `none` is the empty ticket of a refused request.
pub backspaces : Impl → ℕ → ℤ → Bool → ℕ → Impl × Option ℕ
unfolding enqueue
backspaces s owner (negsuc n) with_escape pace_usec = (s, none)
backspaces s owner (pos count) with_escape pace_usec =
    if refuses s count
    then (s, none)
    else enqueue s (record {
      owner = owner;
      count = count;
      escape = with_escape;
      shift_select = false;
      pace = if pace_usec == 0 then 1000 else min pace_usec 100000;
      ticket = s.next_ticket;
    })

pub shift_select : Impl → ℕ → ℤ → ℕ → Impl × Option ℕ
unfolding enqueue
shift_select s owner (negsuc n) pace_usec = (s, none)
shift_select s owner (pos count) pace_usec =
    if refuses s count
    then (s, none)
    else enqueue s (record {
      owner = owner;
      count = count;
      escape = false;
      shift_select = true;
      pace = if pace_usec == 0 then 5000 else min pace_usec 100000;
      ticket = s.next_ticket;
    })

-- The loop over the queue: the states of the erased batches, and the batches that stay.
pub cancel_owned : (ℕ → State) → ℕ → List Batch → ℕ → State
cancel_owned states owner [] = states
cancel_owned states owner (b ∷ bs) =
    let rest = cancel_owned states owner bs in
    if b.owner == owner then store rest b.ticket cancelled else rest

pub others : ℕ → List Batch → List Batch
others owner [] = []
others owner (b ∷ bs) = let rest = others owner bs in if b.owner == owner then rest else b ∷ rest

pub cancel : Impl → ℕ → Impl
cancel s owner = record s {
  states =
      cancel_owned
        (if s.active_owner == owner then store_active s.states s.active cancelled else s.states)
        owner s.queue;
  queue = others owner s.queue;
}

-- The destructor, up to its wait for the thread.
pub destroy : Impl → Impl
destroy s = record s { stopping = true }
