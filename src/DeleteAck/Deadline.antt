-- ===== src/DeleteAck/Deadline.antt =====
-- The wait for an acknowledgement is bounded.
use skey.Base.{ℕ, ◌+◌, ◌≤◌, ◌<◌, ◌≡◌, ◌⊎◌, true, List, [], ◌∷◌, arith, u64_mod, Bytes, inl}
use skey.DeleteAck.{
  UinputDeleteAck, Snapshot, start, observe, observe_all, remaining, next_check_delay, guard_usec,
}
use skey.DeleteAck.Start.{IsArmed, start-IsArmed}

-- An acknowledgement lies strictly between the start and the deadline.
record Inv (t d : ℕ) (a : UinputDeleteAck) : Type 0 where
  at_start : a.started_at ≡ t
  at_deadline : a.deadline_usec ≡ d
  in_time : (a.ack_at ≡ 0) ⊎ ((t < a.ack_at) × (a.ack_at < t + d))

observe-Inv :
    (t d : ℕ) (a : UinputDeleteAck) (o : Snapshot)
    → t + d < u64_mod
    → Inv t d a
    → Inv t d (observe a o)
unfolding observe
observe-Inv t d a o fits h = ground arith

observe_all-Inv :
    (t d : ℕ) (a : UinputDeleteAck) (os : List Snapshot)
    → t + d < u64_mod
    → Inv t d a
    → Inv t d (observe_all a os)
unfolding observe_all
observe_all-Inv t d a [] fits h = h
observe_all-Inv t d a (o ∷ os) fits h =
    observe_all-Inv t d (observe a o) os fits (observe-Inv t d a o fits h)

started-Inv :
    (b : UinputDeleteAck) {text : Bytes} {cursor anchor : ℕ} {old_word : Bytes}
    {deletes now deadline : ℕ}
    → IsArmed b text cursor anchor old_word deletes now deadline
    → Inv now deadline b
started-Inv b h = record {
  at_start = h.at_start;
  at_deadline = h.at_deadline;
  in_time = inl h.not_acked;
}

Inv-waits :
    (t d : ℕ) (a : UinputDeleteAck) (later : ℕ)
    → t + d + guard_usec < u64_mod
    → Inv t d a
    → t + d + guard_usec ≤ later
    → (remaining a later ≡ 0) × (next_check_delay a later ≡ 0)
unfolding remaining next_check_delay
Inv-waits t d a later fits h late = ground arith

-- After a successful start, whatever snapshots arrive, both timers are done once the deadline and
-- the guard have passed, if that moment is below 2^64 microseconds.
pub wait_ends :
    (a b : UinputDeleteAck) (text : Bytes) (cursor anchor : ℕ) (old_word : Bytes)
    (deletes now deadline : ℕ) (os : List Snapshot) (later : ℕ)
    → now + deadline + guard_usec < u64_mod
    → start a text cursor anchor old_word deletes now deadline ≡ (b, true)
    → now + deadline + guard_usec ≤ later
    → (remaining (observe_all b os) later ≡ 0) × (next_check_delay (observe_all b os) later ≡ 0)
wait_ends a b text cursor anchor old_word deletes now deadline os later fits h late =
    Inv-waits now deadline (observe_all b os) later fits
      (observe_all-Inv now deadline b os (omega arith)
        (started-Inv b (start-IsArmed a b text cursor anchor old_word deletes now deadline h)))
      late
