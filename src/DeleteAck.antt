-- ===== src/DeleteAck.antt =====
-- src/uinput_delete_ack.h: the acknowledgement of injected backspaces by surrounding-text snapshots.
pub mod Start
pub mod Deadline
pub mod Evidence
mod Examples
use skey.Base.{
  ℕ, zero, suc, ◌+◌, ◌-◌, min, max, Bool, true, false, not, ◌&&◌, ◌||◌, Option, none, some, List,
  [], ◌∷◌, ◌++◌, ltb, leb, ◌==◌, if◌then◌else◌, add64, sub64, Bytes, bytes_eq, is_empty, contains,
  leading, length, take, drop,
}

abbrev pub guard_usec : ℕ
guard_usec = 8000

abbrev pub timeout_usec : ℕ
timeout_usec = 80000

abbrev pub poll_usec : ℕ
poll_usec = 4000

abbrev pub miss_min_age_usec : ℕ
miss_min_age_usec = 12000

pub record UinputDeleteAck : Type 0 where
  pub active : Bool
  pub ack_once : Bool
  pub missed : Bool
  pub cursor : ℕ
  pub expected_anchor : ℕ
  pub started_at : ℕ
  pub ack_at : ℕ
  pub deadline_usec : ℕ
  pub expected : Bytes
  pub word : Bytes

abbrev pub init : UinputDeleteAck
init = record {
  active = false;
  ack_once = false;
  missed = false;
  cursor = 0;
  expected_anchor = 0;
  started_at = 0;
  ack_at = 0;
  deadline_usec = timeout_usec;
  expected = [];
  word = [];
}

-- The byte offset of a character index; `none` is `npos`, an index past the end.
pub offset : ℕ → Bytes → Option ℕ
offset zero s = some 0
offset (suc n) [] = none
offset (suc n) (b ∷ s) = elim (offset n (drop (leading s) s)) [
  | none ↦ none
  | some k ↦ some (suc (leading s) + k)
]

unfoldable pub reset : UinputDeleteAck → UinputDeleteAck
reset a = record a {
  active = false;
  ack_at = 0;
  ack_once = false;
  missed = false;
  expected = [];
  word = [];
}

-- The part of `start` behind the three offsets: the check of the old word, and the assignments.
pub arm : UinputDeleteAck → Bytes → ℕ → ℕ → Bytes → ℕ → ℕ → ℕ → ℕ → ℕ → UinputDeleteAck × Bool
arm a text sel_start sel_end old_word deletes now deadline sel_begin_b delete_begin_b =
    if ltb sel_begin_b (length old_word)
      || not
          (bytes_eq (take (length old_word) (drop (sel_begin_b - length old_word) text)) old_word)
    then (a, false)
    else (
      record a {
        expected =
            take delete_begin_b text ++ drop (delete_begin_b + (sel_begin_b - delete_begin_b)) text;
        cursor = sel_start - deletes;
        expected_anchor = sel_end - deletes;
        word = old_word;
        started_at = now;
        deadline_usec = deadline;
        active = true;
      },
      true,
    )

abbrev arm_at :
    UinputDeleteAck
    → Bytes
    → ℕ
    → ℕ
    → Bytes
    → ℕ
    → ℕ
    → ℕ
    → Option ℕ
    → Option ℕ
    → Option ℕ
    → UinputDeleteAck × Bool
arm_at a text sel_start sel_end old_word deletes now deadline (some b) (some e) (some d) =
    arm a text sel_start sel_end old_word deletes now deadline b d
arm_at a text sel_start sel_end old_word deletes now deadline _ _ _ = (a, false)

pub start : UinputDeleteAck → Bytes → ℕ → ℕ → Bytes → ℕ → ℕ → ℕ → UinputDeleteAck × Bool
unfolding reset
start a text cursor anchor old_word deletes now deadline =
    let sel_start = min cursor anchor in
    let sel_end = max cursor anchor in
    if ltb 65536 (length text) || is_empty old_word || deletes == 0 || ltb sel_start deletes
    then (reset a, false)
    else arm_at (reset a) text sel_start sel_end old_word deletes now deadline
        (offset sel_start text) (offset sel_end text) (offset (sel_start - deletes) text)

pub record Snapshot : Type 0 where
  pub valid : Bool
  pub text : Bytes
  pub cursor : ℕ
  pub anchor : ℕ
  pub now : ℕ

abbrev pub matches : UinputDeleteAck → Snapshot → Bool
matches a o =
    o.valid && o.cursor == a.cursor && o.anchor == a.expected_anchor && bytes_eq o.text a.expected

pub observe : UinputDeleteAck → Snapshot → UinputDeleteAck
observe a o =
    if not a.active || leb o.now a.started_at
    then a
    else (if matches a o
        then (if a.ack_at == 0 && ltb o.now (add64 a.started_at a.deadline_usec)
            then record a { ack_at = o.now; ack_once = true }
            else a)
        else record a {
          ack_at = 0;
          missed =
              a.missed
              || (not a.ack_once
                  && o.valid
                  && leb (add64 a.started_at miss_min_age_usec) o.now
                  && contains a.word o.text);
        })

pub remaining : UinputDeleteAck → ℕ → ℕ
remaining a now =
    if not a.active
    then 0
    else (let deadline = add64 a.started_at a.deadline_usec in
        let ready = add64 a.ack_at guard_usec in
        if not (a.ack_at == 0)
        then (if leb ready now then 0 else sub64 ready now)
        else if leb deadline now
        then 0
        else min poll_usec (sub64 deadline now))

pub next_check_delay : UinputDeleteAck → ℕ → ℕ
next_check_delay a now =
    if not a.active
    then 0
    else (let ready =
          if not (a.ack_at == 0)
          then add64 a.ack_at guard_usec
          else add64 a.started_at a.deadline_usec in
        if leb ready now then 0 else sub64 ready now)

abbrev pub acknowledged : UinputDeleteAck → Bool
acknowledged a = not (a.ack_at == 0)

pub observed_latency_usec : UinputDeleteAck → ℕ
observed_latency_usec a = if not (a.ack_at == 0) then sub64 a.ack_at a.started_at else 0

-- The snapshots that arrive after `start`, in their order.
pub observe_all : UinputDeleteAck → List Snapshot → UinputDeleteAck
observe_all a [] = a
observe_all a (o ∷ os) = observe_all (observe a o) os
