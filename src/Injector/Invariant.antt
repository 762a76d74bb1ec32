-- ===== src/Injector/Invariant.antt =====
-- Every ticket that was handed out is settled, waits in the queue or is the active one, and the worker
-- keeps it so.
use skey.Base.{
  ℕ, ◌+◌, ◌<◌, true, false, not, ◌||◌, List, [], ◌∷◌, Option, none, some, ◌≡◌, refl, ◌==◌,
  if◌then◌else◌, Bool-cases, Option-cases, inl, inr, arith, subst, sym, ==_iff, if_both, Bytes,
}
use skey.Injector.{
  State, complete, failed, cancelled, Batch, Write, escape, shift_down, shift_up, anchor, left,
  backspace, Pause, escape_pause, left_pause, backspace_pause, Phase, idle, opening, reopening,
  warming, waiting, closing, backing_off, stopped, sending, pausing, Impl, store, is_cancelled,
  shut_down, next_round, finish_batch, to_backspace, to_anchor, to_release, to_left, behind_escape,
  take_batch, emitted, behind_write, behind_pause, write_failed, fail_pending, wake_up, resume,
}
use skey.Injector.Store.{
  is_settled, holds, is_tracked, settled_active, store_settled, store_all_settled,
}

abbrev pub IsAt : Impl → Phase → Type 0
IsAt s (sending b w) = s.active ≡ some b.ticket
IsAt s (pausing b p) = s.active ≡ some b.ticket
IsAt s closing = (settled_active s.states s.active ≡ true) × (s.available ≡ false)
IsAt s stopped = (s.active ≡ none) × (s.queue ≡ []) × (s.stopping ≡ true)
IsAt s idle = s.active ≡ none
IsAt s opening = s.active ≡ none
IsAt s reopening = s.active ≡ none
IsAt s warming = s.active ≡ none
IsAt s waiting = s.active ≡ none
IsAt s backing_off = s.active ≡ none

abbrev pub IsTracked : Impl → (ℕ → State) → List Batch → Option ℕ → Type 0
IsTracked s states bs a = (t : ℕ) → t < s.next_ticket → is_tracked states bs a t ≡ true

pub record Inv (s : Impl) : Type 0 where
  pub tracked : IsTracked s s.states s.queue s.active
  pub at : IsAt s s.phase

pub shut_down-Inv :
    (s : Impl)
    → s.active ≡ none
    → s.stopping ≡ true
    → IsTracked s s.states s.queue none
    → Inv (shut_down s)
unfolding shut_down
shut_down-Inv s ha hs h = record {
  tracked = λ t lt. ground (arith, h t lt, store_all_settled s.states s.queue cancelled t refl);
  at = (ha, refl, hs);
}

pub next_round-Inv :
    (s : Impl) → s.active ≡ none → IsTracked s s.states s.queue none → Inv (next_round s)
unfolding next_round
next_round-Inv s ha h =
    if_both Inv s.stopping _ _ (λ e. shut_down-Inv s ha e h)
      (λ e.
        if_both Inv (not s.available) _ _
          (λ o. record { tracked = λ t lt. ground (arith, h t lt); at = ha })
          (λ o. record { tracked = λ t lt. ground (arith, h t lt); at = ha }))

pub end_tracked :
    (s : Impl) (b : Batch) (t : ℕ)
    → is_tracked s.states s.queue (some b.ticket) t ≡ true
    → is_tracked
        (if is_cancelled (s.states b.ticket)
          then s.states
          else store s.states b.ticket (if s.stopping then cancelled else complete))
        s.queue
        none
        t
      ≡ true
unfolding store
end_tracked s b t h = elim (Bool-cases (b.ticket == t)) [
  | inl e ↦
      subst
        (λ i.
          is_tracked s.states s.queue (some i) t ≡ true
          → is_tracked
              (if is_cancelled (s.states i)
                then s.states
                else store s.states i (if s.stopping then cancelled else complete))
              s.queue none t
            ≡ true)
        (sym ((==_iff b.ticket t).0 e)) (λ _. ground arith) (ground arith)
  | inr e ↦ ground arith
]

pub finish_batch-Inv :
    (s : Impl) (b : Batch) → IsTracked s s.states s.queue (some b.ticket) → Inv (finish_batch s b)
unfolding finish_batch
finish_batch-Inv s b h = next_round-Inv _ refl (λ t lt. end_tracked s b t (h t lt))

-- The places inside a batch, from the state in which the batch is the active one.
module _ (s : Impl) (b : Batch) (active : s.active ≡ some b.ticket)
    (h : IsTracked s s.states s.queue (some b.ticket)) where
  within : (w : Write) → Inv (record s { phase = sending b w })
  within w = record { tracked = subst (IsTracked s s.states s.queue) (sym active) h; at = active }

  within_pause : (p : Pause) → Inv (record s { phase = pausing b p })
  within_pause p = record {
    tracked = subst (IsTracked s s.states s.queue) (sym active) h;
    at = active;
  }

  to_backspace-Inv : (i : ℕ) → Inv (to_backspace s b i)
  unfolding to_backspace
  to_backspace-Inv i = if_both Inv _ _ _ (λ _. within (backspace i)) (λ _. finish_batch-Inv s b h)

  to_anchor-Inv : Inv (to_anchor s b)
  unfolding to_anchor
  to_anchor-Inv = if_both Inv _ _ _ (λ _. within anchor) (λ _. finish_batch-Inv s b h)

  to_release-Inv : Inv (to_release s b)
  unfolding to_release
  to_release-Inv = if_both Inv _ _ _ (λ _. within shift_up) (λ _. to_anchor-Inv)

  to_left-Inv : (i : ℕ) → Inv (to_left s b i)
  unfolding to_left
  to_left-Inv i = if_both Inv _ _ _ (λ _. within (left i)) (λ _. to_release-Inv)

  behind_escape-Inv : Inv (behind_escape s b)
  unfolding behind_escape
  behind_escape-Inv = if_both Inv _ _ _ (λ _. within shift_down) (λ _. to_backspace-Inv 0)

  behind_write-Inv : (w : Write) → Inv (behind_write s b w)
  unfolding behind_write
  behind_write-Inv escape = within_pause escape_pause
  behind_write-Inv shift_down = to_left-Inv 0
  behind_write-Inv (left i) = within_pause (left_pause i)
  behind_write-Inv shift_up = to_anchor-Inv
  behind_write-Inv anchor = finish_batch-Inv s b h
  behind_write-Inv (backspace i) =
      if_both Inv _ _ _ (λ _. within_pause (backspace_pause i)) (λ _. to_backspace-Inv (i + 1))

  behind_pause-Inv : (p : Pause) → Inv (behind_pause s b p)
  unfolding behind_pause
  behind_pause-Inv escape_pause = behind_escape-Inv
  behind_pause-Inv (left_pause i) = to_left-Inv (i + 1)
  behind_pause-Inv (backspace_pause i) = to_backspace-Inv (i + 1)

pub take_batch-Inv :
    (s : Impl) (b : Batch) (bs : List Batch)
    → IsTracked s s.states (b ∷ bs) none
    → Inv (take_batch s b bs)
unfolding take_batch
take_batch-Inv s b bs h =
    let h' : IsTracked s s.states bs (some b.ticket) = λ t lt. ground (arith, h t lt) in
    if_both Inv _ _ _
      (λ _.
        within (record s { queue = bs; active = some b.ticket; active_owner = b.owner }) b refl h'
          escape)
      (λ _.
        behind_escape-Inv (record s { queue = bs; active = some b.ticket; active_owner = b.owner })
          b refl h')

pub wake_up-Inv :
    (s : Impl) (bs : List Batch)
    → s.queue ≡ bs
    → Inv s
    → s.active ≡ none
    → IsTracked s s.states bs none
    → Inv (wake_up s bs)
unfolding wake_up
wake_up-Inv s [] e i ha h = i
wake_up-Inv s (b ∷ bs) e i ha h = take_batch-Inv s b bs h

pub fail_pending-Inv :
    (s : Impl)
    → settled_active s.states s.active ≡ true
    → IsTracked s s.states s.queue s.active
    → Inv (fail_pending s)
unfolding fail_pending
fail_pending-Inv s ha h = record {
  tracked = λ t lt.
      ground
        (arith, store_all_settled s.states s.queue failed t refl (settled_or_held s t ha (h t lt)));
  at = refl;
}
  where
    settled_or_held :
        (s : Impl) (t : ℕ)
        → settled_active s.states s.active ≡ true
        → is_tracked s.states s.queue s.active t ≡ true
        → (is_settled (s.states t) || holds t s.queue) ≡ true
    settled_or_held s t ha h = elim (Option-cases s.active) [
      | inl e ↦ ground (arith, subst (λ a. is_tracked s.states s.queue a t ≡ true) e h)
      | inr (i, e) ↦
          held i (subst (λ a. settled_active s.states a ≡ true) e ha)
            (subst (λ a. is_tracked s.states s.queue a t ≡ true) e h)
    ]
      where
        held :
            (i : ℕ)
            → is_settled (s.states i) ≡ true
            → is_tracked s.states s.queue (some i) t ≡ true
            → (is_settled (s.states t) || holds t s.queue) ≡ true
        held i hi ht = elim (Bool-cases (i == t)) [
          | inl e ↦
              ground (arith, subst (λ j. is_settled (s.states j) ≡ true) ((==_iff i t).0 e) hi)
          | inr e ↦ ground arith
        ]

pub write_failed-Inv :
    (s : Impl) (b : Batch) (error : Bytes)
    → s.active ≡ some b.ticket
    → IsTracked s s.states s.queue s.active
    → Inv (write_failed s b error)
unfolding write_failed
write_failed-Inv s b error ha h = record {
  tracked = λ t lt. ground (arith, h t lt, store_settled s.states b.ticket failed t refl);
  at = (
    subst (λ a. settled_active (store s.states b.ticket failed) a ≡ true) (sym ha)
        (store_settled s.states b.ticket failed b.ticket refl (ground arith)),
    refl,
  );
}

pub resume-Inv :
    (s : Impl) (p : Phase) (r : Option Bytes) → s.phase ≡ p → IsAt s p → Inv s → Inv (resume s p r)
unfolding resume
resume-Inv s idle r e a i = i
resume-Inv s opening none e a i = record { tracked = i.tracked; at = a }
resume-Inv s opening (some error) e a i = record { tracked = i.tracked; at = a }
resume-Inv s reopening r e a i =
    let h = subst (IsTracked s s.states s.queue) a i.tracked in
    if_both Inv s.stopping _ _ (λ o. shut_down-Inv s a o h) (λ _. next_round-Inv s a h)
resume-Inv s backing_off r e a i =
    let h = subst (IsTracked s s.states s.queue) a i.tracked in
    if_both Inv s.stopping _ _ (λ o. shut_down-Inv s a o h) (λ _. next_round-Inv s a h)
resume-Inv s warming r e a i =
    let h = subst (IsTracked s s.states s.queue) a i.tracked in
    if_both Inv s.stopping _ _ (λ o. shut_down-Inv s a o h)
      (λ _. record { tracked = i.tracked; at = a })
resume-Inv s waiting r e a i =
    let h = subst (IsTracked s s.states s.queue) a i.tracked in
    if_both Inv s.stopping _ _ (λ o. shut_down-Inv s a o h) (λ _. wake_up-Inv s s.queue refl i a h)
resume-Inv s (sending b w) none e a i =
    behind_write-Inv (record s { written = emitted w s.written }) b a
      (subst (IsTracked s s.states s.queue) a i.tracked) w
resume-Inv s (sending b w) (some error) e a i = write_failed-Inv s b error a i.tracked
resume-Inv s (pausing b p) r e a i =
    behind_pause-Inv s b a (subst (IsTracked s s.states s.queue) a i.tracked) p
resume-Inv s closing r e a i = fail_pending-Inv s a.0 i.tracked
resume-Inv s stopped r e a i = i
