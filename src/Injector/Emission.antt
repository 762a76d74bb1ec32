-- ===== src/Injector/Emission.antt =====
-- What the worker writes for one batch that nothing disturbs, and what a cancellation leaves behind.
use skey.Base.{
  ℕ, zero, suc, ◌+◌, Bool, true, false, not, ◌&&◌, List, ◌∷◌, none, some, ◌≡◌, refl, ltb,
  if◌then◌else◌, arith, subst, sym, if_both, ap,
}
use skey.Injector.{
  State, complete, cancelled, Batch, Key, key_esc, key_backspace, key_left, key_leftshift, KeyEvent,
  press, release, escape, shift_down, shift_up, anchor, left, backspace, escape_pause, left_pause,
  backspace_pause, Phase, waiting, sending, pausing, Impl, store, is_cancelled, interrupted,
  next_round, finish_batch, to_backspace, to_anchor, to_release, to_left, behind_escape, take_batch,
  tapped, behind_write, behind_pause, wake_up, resume,
}

-- The worker alone, with opens and writes that succeed, for a number of steps.
unfoldable pub quiet : ℕ → Impl → Impl
quiet zero s = s
quiet (suc n) s = quiet n (resume s s.phase none)

-- So many taps of a key behind earlier events.
abbrev pub taps : Key → ℕ → List KeyEvent → List KeyEvent
taps key zero es = es
taps key (suc n) es = taps key n (tapped key es)

abbrev deletions : Batch → List KeyEvent → List KeyEvent
deletions b es =
    if b.shift_select
    then tapped key_left (release key_leftshift ∷ taps key_left b.count (press key_leftshift ∷ es))
    else taps key_backspace b.count es

-- The events that a batch asks for, the newest first.
abbrev pub keystrokes : Batch → List KeyEvent → List KeyEvent
keystrokes b es = deletions b (if b.escape then tapped key_esc es else es)

module _ (s : Impl) (b : Batch) (target : List KeyEvent) (runs : s.stopping ≡ false)
    (open_device : s.available ≡ true) (live : is_cancelled (s.states b.ticket) ≡ false) where
  abbrev pub IsDone : Impl → Type 0
  IsDone t =
      (t.phase ≡ waiting)
      × (t.queue ≡ s.queue)
      × (t.written ≡ target)
      × (t.states b.ticket ≡ complete)
      × (t.active ≡ none)

  abbrev pub Ends : Impl → Type 0
  Ends t = (n : ℕ) × IsDone (quiet n t)

  abbrev at : List KeyEvent → Phase → Impl
  at w p = record s { written = w; phase = p }

  step-Ends : (w : List KeyEvent) (p : Phase) → Ends (resume (at w p) p none) → Ends (at w p)
  unfolding quiet
  step-Ends w p e = (suc (e.0), e.1)

  completes :
      (stopping : Bool) (x : State)
      → stopping ≡ false
      → is_cancelled x ≡ false
      → (if is_cancelled x
            then s.states
            else store s.states b.ticket (if stopping then cancelled else complete))
          b.ticket
        ≡ complete
  unfolding store
  completes stopping x hs hx = ground arith

  finish_batch-Ends : (w : List KeyEvent) (p : Phase) → w ≡ target → Ends (finish_batch (at w p) b)
  unfolding finish_batch next_round quiet
  finish_batch-Ends w p e =
      if_both Ends s.stopping _ _ (λ o. absurd (ground arith))
        (λ _.
          if_both Ends (not s.available) _ _ (λ o. absurd (ground arith))
            (λ _. (0, (refl, refl, e, completes s.stopping (s.states b.ticket) runs live, refl))))

  to_backspace-Ends :
      (d i : ℕ) (w : List KeyEvent) (p : Phase)
      → i + d ≡ b.count
      → taps key_backspace d w ≡ target
      → Ends (to_backspace (at w p) b i)
  unfolding to_backspace interrupted resume behind_write behind_pause
  to_backspace-Ends zero i w p hi e =
      if_both Ends (ltb i b.count && not (interrupted s b.ticket)) _ _ (λ o. absurd (ground arith))
        (λ _. finish_batch-Ends w p e)
  to_backspace-Ends (suc d) i w p hi e =
      if_both Ends (ltb i b.count && not (interrupted s b.ticket)) _ _
        (λ _. step-Ends w (sending b (backspace i)) (
          if_both Ends (ltb (i + 1) b.count) _ _
            (λ _. step-Ends (tapped key_backspace w) (pausing b (backspace_pause i)) (
              to_backspace-Ends d (i + 1) (tapped key_backspace w) (pausing b (backspace_pause i))
                (ground arith) e))
            (λ _.
              to_backspace-Ends d (i + 1) (tapped key_backspace w) (sending b (backspace i))
                (ground arith) e)))
        (λ o. absurd (ground arith))

  to_anchor-Ends :
      (w : List KeyEvent) (p : Phase) → tapped key_left w ≡ target → Ends (to_anchor (at w p) b)
  unfolding to_anchor interrupted resume behind_write
  to_anchor-Ends w p e =
      if_both Ends (not (interrupted s b.ticket)) _ _
        (λ _.
          step-Ends w (sending b anchor)
            (finish_batch-Ends (tapped key_left w) (sending b anchor) e))
        (λ o. absurd (ground arith))

  to_release-Ends :
      (w : List KeyEvent) (p : Phase)
      → tapped key_left (release key_leftshift ∷ w) ≡ target
      → Ends (to_release (at w p) b)
  unfolding to_release interrupted resume behind_write
  to_release-Ends w p e =
      if_both Ends (not (interrupted s b.ticket)) _ _
        (λ _.
          step-Ends w (sending b shift_up)
            (to_anchor-Ends (release key_leftshift ∷ w) (sending b shift_up) e))
        (λ o. absurd (ground arith))

  to_left-Ends :
      (d i : ℕ) (w : List KeyEvent) (p : Phase)
      → i + d ≡ b.count
      → tapped key_left (release key_leftshift ∷ taps key_left d w) ≡ target
      → Ends (to_left (at w p) b i)
  unfolding to_left interrupted resume behind_write behind_pause
  to_left-Ends zero i w p hi e =
      if_both Ends (ltb i b.count && not (interrupted s b.ticket)) _ _ (λ o. absurd (ground arith))
        (λ _. to_release-Ends w p e)
  to_left-Ends (suc d) i w p hi e =
      if_both Ends (ltb i b.count && not (interrupted s b.ticket)) _ _
        (λ _. step-Ends w (sending b (left i)) (
          step-Ends (tapped key_left w) (pausing b (left_pause i)) (
            to_left-Ends d (i + 1) (tapped key_left w) (pausing b (left_pause i)) (ground arith)
              e)))
        (λ o. absurd (ground arith))

  behind_escape-Ends :
      (w : List KeyEvent) (p : Phase) → deletions b w ≡ target → Ends (behind_escape (at w p) b)
  unfolding behind_escape resume behind_write
  behind_escape-Ends w p e =
      if_both Ends b.shift_select _ _
        (λ o. step-Ends w (sending b shift_down) (
          to_left-Ends b.count 0 (press key_leftshift ∷ w) (sending b shift_down) (ground arith)
            (ground (arith, e))))
        (λ o. to_backspace-Ends b.count 0 w p (ground arith) (ground (arith, e)))

  whole-Ends :
      keystrokes b s.written ≡ target
      → Ends (
          if not (interrupted s b.ticket) && b.escape
          then record s { phase = sending b escape }
          else behind_escape s b)
  unfolding interrupted resume behind_write behind_pause
  whole-Ends e =
      if_both Ends _ _ _
        (λ o. step-Ends s.written (sending b escape) (
          step-Ends (tapped key_esc s.written) (pausing b escape_pause) (
            behind_escape-Ends (tapped key_esc s.written) (pausing b escape_pause)
              (ground (arith, e)))))
        (λ o. behind_escape-Ends s.written s.phase (ground (arith, e)))

abbrev taken : Impl → Batch → List Batch → Impl
taken s b bs = record s { queue = bs; active = some b.ticket; active_owner = b.owner }

take_next :
    (s : Impl) (b : Batch) (bs : List Batch)
    → s.phase ≡ waiting
    → s.queue ≡ b ∷ bs
    → s.stopping ≡ false
    → resume s s.phase none ≡ take_batch s b bs
unfolding resume wake_up
take_next s b bs hp hq hs =
    subst (λ p. resume s p none ≡ take_batch s b bs) (sym hp)
      (if_both (λ t. t ≡ take_batch s b bs) s.stopping _ _ (λ o. absurd (ground arith))
        (λ _. ap (wake_up s) hq))

-- A batch at the head of the queue of a waiting worker, not cancelled, on a device that accepts every
-- write: after finitely many steps of the worker alone the device was told exactly the keystrokes of the
-- batch (the Escape if it is asked for, then `count` backspaces, or Shift down, `count` Lefts, Shift up and
-- one more Left), the ticket is complete, the rest of the queue is untouched and the worker waits again.
pub batch_writes :
    (s : Impl) (b : Batch) (bs : List Batch)
    → s.phase ≡ waiting
    → s.queue ≡ b ∷ bs
    → s.stopping ≡ false
    → s.available ≡ true
    → is_cancelled (s.states b.ticket) ≡ false
    → (n : ℕ) × ((quiet n s).phase ≡ waiting)
      × ((quiet n s).queue ≡ bs)
      × ((quiet n s).written ≡ keystrokes b s.written)
      × ((quiet n s).states b.ticket ≡ complete)
      × ((quiet n s).active ≡ none)
unfolding quiet resume wake_up take_batch
batch_writes s b bs hp hq hs ha hc =
    let next = taken s b bs in
    let ends = whole-Ends next b (keystrokes b s.written) hs ha hc refl in
    let e =
      subst (Ends next b (keystrokes b s.written) hs ha hc) (sym (take_next s b bs hp hq hs))
        ends in
    (suc (e.0), (e.1).0, (e.1).1, (e.1).2, (e.1).3, (e.1).4)
