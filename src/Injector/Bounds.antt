-- ===== src/Injector/Bounds.antt =====
-- The queue of the injector: its length, and the batches that get into it.
use skey.Base.{
  ℕ, ◌+◌, ◌≤◌, not, List, [], ◌∷◌, ◌++◌, Option, none, some, ◌==◌, arith, if_both, Bytes, pos,
  negsuc, All, length, length-append,
}
use skey.Injector.{
  Batch, Write, escape, shift_down, shift_up, anchor, left, backspace, Pause, escape_pause,
  left_pause, backspace_pause, Phase, idle, opening, reopening, warming, waiting, closing,
  backing_off, stopped, sending, pausing, Impl, init, is_idle, shut_down, next_round, finish_batch,
  to_backspace, to_anchor, to_release, to_left, behind_escape, take_batch, emitted, behind_write,
  behind_pause, write_failed, fail_pending, wake_up, resume, start, enqueue, refuses, backspaces,
  shift_select, others, cancel, destroy,
}
use skey.Injector.Trace.{
  Event, step, run, started, destroyed, worker, backspaces_asked, selection_asked, cancelled_by,
}

-- A count from 1 to 64 and a pace from 1 us to 100 ms.
abbrev pub IsFit : Batch → Type 0
IsFit b = (1 ≤ b.count) × (b.count ≤ 64) × (1 ≤ b.pace) × (b.pace ≤ 100000)

abbrev pub IsBounded : List Batch → Type 0
IsBounded bs = (length bs ≤ 8) × All IsFit bs

abbrev Fits : Impl → Type 0
Fits s = IsBounded s.queue

tail-IsBounded : (b : Batch) (bs : List Batch) → IsBounded (b ∷ bs) → IsBounded bs
tail-IsBounded b bs h = (ground arith, h.1.1)

All-others : (owner : ℕ) (bs : List Batch) → All IsFit bs → All IsFit (others owner bs)
unfolding others
All-others owner [] h = h
All-others owner (b ∷ bs) h =
    if_both (All IsFit) (b.owner == owner) _ _ (λ _. All-others owner bs (h.1))
      (λ _. (h.0, All-others owner bs (h.1)))

length-others-le : (owner : ℕ) (bs : List Batch) → length (others owner bs) ≤ length bs
unfolding others
length-others-le owner [] = omega arith
length-others-le owner (b ∷ bs) = ground (arith, length-others-le owner bs)

others-IsBounded : (owner : ℕ) (bs : List Batch) → IsBounded bs → IsBounded (others owner bs)
others-IsBounded owner bs h = (ground (arith, length-others-le owner bs), All-others owner bs (h.1))

All-append_one : (bs : List Batch) (b : Batch) → All IsFit bs → IsFit b → All IsFit (bs ++ b ∷ [])
All-append_one [] b h f = (f, h)
All-append_one (c ∷ bs) b h f = (h.0, All-append_one bs b (h.1) f)

next_round-Fits : (s : Impl) → Fits s → Fits (next_round s)
unfolding next_round shut_down
next_round-Fits s h =
    if_both Fits s.stopping _ _ (λ _. (ground arith, tt))
      (λ _. if_both Fits (not s.available) _ _ (λ _. h) (λ _. h))

module _ (s : Impl) (b : Batch) (h : Fits s) where
  finish_batch-Fits : Fits (finish_batch s b)
  unfolding finish_batch
  finish_batch-Fits = next_round-Fits _ h

  to_backspace-Fits : (i : ℕ) → Fits (to_backspace s b i)
  unfolding to_backspace
  to_backspace-Fits i = if_both Fits _ _ _ (λ _. h) (λ _. finish_batch-Fits)

  to_anchor-Fits : Fits (to_anchor s b)
  unfolding to_anchor
  to_anchor-Fits = if_both Fits _ _ _ (λ _. h) (λ _. finish_batch-Fits)

  to_release-Fits : Fits (to_release s b)
  unfolding to_release
  to_release-Fits = if_both Fits _ _ _ (λ _. h) (λ _. to_anchor-Fits)

  to_left-Fits : (i : ℕ) → Fits (to_left s b i)
  unfolding to_left
  to_left-Fits i = if_both Fits _ _ _ (λ _. h) (λ _. to_release-Fits)

  behind_escape-Fits : Fits (behind_escape s b)
  unfolding behind_escape
  behind_escape-Fits = if_both Fits _ _ _ (λ _. h) (λ _. to_backspace-Fits 0)

  behind_write-Fits : (w : Write) → Fits (behind_write s b w)
  unfolding behind_write
  behind_write-Fits escape = h
  behind_write-Fits shift_down = to_left-Fits 0
  behind_write-Fits (left i) = h
  behind_write-Fits shift_up = to_anchor-Fits
  behind_write-Fits anchor = finish_batch-Fits
  behind_write-Fits (backspace i) = if_both Fits _ _ _ (λ _. h) (λ _. to_backspace-Fits (i + 1))

  behind_pause-Fits : (p : Pause) → Fits (behind_pause s b p)
  unfolding behind_pause
  behind_pause-Fits escape_pause = behind_escape-Fits
  behind_pause-Fits (left_pause i) = to_left-Fits (i + 1)
  behind_pause-Fits (backspace_pause i) = to_backspace-Fits (i + 1)

wake_up-Fits : (s : Impl) (bs : List Batch) → Fits s → IsBounded bs → Fits (wake_up s bs)
unfolding wake_up take_batch
wake_up-Fits s [] h hb = h
wake_up-Fits s (b ∷ bs) h hb =
    if_both Fits _ _ _ (λ _. tail-IsBounded b bs hb)
      (λ _.
        behind_escape-Fits (record s { queue = bs; active = some b.ticket; active_owner = b.owner })
          b (tail-IsBounded b bs hb))

resume-Fits : (s : Impl) (p : Phase) (r : Option Bytes) → Fits s → Fits (resume s p r)
unfolding resume shut_down write_failed fail_pending
resume-Fits s idle r h = h
resume-Fits s opening none h = h
resume-Fits s opening (some error) h = h
resume-Fits s reopening r h =
    if_both Fits s.stopping _ _ (λ _. (ground arith, tt)) (λ _. next_round-Fits s h)
resume-Fits s backing_off r h =
    if_both Fits s.stopping _ _ (λ _. (ground arith, tt)) (λ _. next_round-Fits s h)
resume-Fits s warming r h = if_both Fits s.stopping _ _ (λ _. (ground arith, tt)) (λ _. h)
resume-Fits s waiting r h =
    if_both Fits s.stopping _ _ (λ _. (ground arith, tt)) (λ _. wake_up-Fits s s.queue h h)
resume-Fits s (sending b w) none h =
    behind_write-Fits (record s { written = emitted w s.written }) b h w
resume-Fits s (sending b w) (some error) h = h
resume-Fits s (pausing b p) r h = behind_pause-Fits s b h p
resume-Fits s closing r h = (ground arith, tt)
resume-Fits s stopped r h = h

enqueue-Fits :
    (s : Impl) (b : Batch) → length s.queue ≤ 7 → IsFit b → Fits s → Fits ((enqueue s b).0)
unfolding enqueue
enqueue-Fits s b hl f h =
    (ground (arith, length-append s.queue (b ∷ [])), All-append_one s.queue b (h.1) f)

step-Fits : (s : Impl) (e : Event) → Fits s → Fits (step s e)
unfolding step start backspaces shift_select cancel destroy
step-Fits s started h = if_both Fits (is_idle s.phase) _ _ (λ _. next_round-Fits s h) (λ _. h)
step-Fits s destroyed h = h
step-Fits s (worker r) h = resume-Fits s s.phase r h
step-Fits s (backspaces_asked owner (negsuc n) with_escape pace) h = h
step-Fits s (backspaces_asked owner (pos count) with_escape pace) h =
    if_both (λ (r : Impl × Option ℕ). Fits (r.0)) (refuses s count) _ _ (λ _. h)
      (λ e. enqueue-Fits s _ (ground arith) (ground arith) h)
step-Fits s (selection_asked owner (negsuc n) pace) h = h
step-Fits s (selection_asked owner (pos count) pace) h =
    if_both (λ (r : Impl × Option ℕ). Fits (r.0)) (refuses s count) _ _ (λ _. h)
      (λ e. enqueue-Fits s _ (ground arith) (ground arith) h)
step-Fits s (cancelled_by owner) h = others-IsBounded owner s.queue h

run-Fits : (s : Impl) (es : List Event) → Fits s → Fits (run s es)
unfolding run
run-Fits s [] h = h
run-Fits s (e ∷ es) h = run-Fits (step s e) es (step-Fits s e h)

-- Whatever the engine's thread asks for, and however the worker's steps fall between: at most 8 batches
-- wait, each of 1 to 64 keys with a pace from 1 us to 100 ms.
pub queue-IsBounded : (es : List Event) → IsBounded ((run init es).queue)
queue-IsBounded es = run-Fits init es (ground arith, tt)
