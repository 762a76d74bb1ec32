-- ===== src/Injector/Selection.antt =====
-- A selection with Shift that is cancelled on its way.
use skey.Base.{
  ℕ, ◌+◌, Bool, true, false, List, [], ◌∷◌, none, some, ◌≡◌, ◌==◌, if◌then◌else◌, Bool-cases, inl,
  inr, arith, subst, sym,
}
use skey.Injector.{
  State, cancelled, Batch, key_esc, key_backspace, key_left, key_leftshift, KeyEvent, press,
  release, left_pause, waiting, pausing, Impl, store, store_active, is_cancelled, interrupted,
  next_round, finish_batch, to_anchor, to_release, to_left, behind_pause, resume, cancel_owned,
  cancel,
}

-- Whether the open device was last told that Shift is down.
abbrev pub shift_held : List KeyEvent → Bool
shift_held [] = false
shift_held (press key_leftshift ∷ es) = true
shift_held (release key_leftshift ∷ es) = false
shift_held (press key_esc ∷ es) = shift_held es
shift_held (press key_backspace ∷ es) = shift_held es
shift_held (press key_left ∷ es) = shift_held es
shift_held (release key_esc ∷ es) = shift_held es
shift_held (release key_backspace ∷ es) = shift_held es
shift_held (release key_left ∷ es) = shift_held es

store_cancelled :
    (states : ℕ → State) (i t : ℕ)
    → is_cancelled (states t) ≡ true
    → is_cancelled (store states i cancelled t) ≡ true
unfolding store
store_cancelled states i t h = ground arith

cancel_owned_cancelled :
    (states : ℕ → State) (owner : ℕ) (bs : List Batch) (t : ℕ)
    → is_cancelled (states t) ≡ true
    → is_cancelled (cancel_owned states owner bs t) ≡ true
unfolding cancel_owned
cancel_owned_cancelled states owner [] t h = h
cancel_owned_cancelled states owner (b ∷ bs) t h = elim (Bool-cases (b.owner == owner)) [
  | inl o ↦ ground (
    arith,
    store_cancelled (cancel_owned states owner bs) b.ticket t
        (cancel_owned_cancelled states owner bs t h),
  )
  | inr o ↦ ground (arith, cancel_owned_cancelled states owner bs t h)
]

active_cancelled :
    (states : ℕ → State) (owner t : ℕ)
    → is_cancelled ((if owner == owner then store_active states (some t) cancelled else states) t)
      ≡ true
unfolding store
active_cancelled states owner t = ground arith

cancel-states :
    (s : Impl) (t : ℕ)
    → s.active ≡ some t
    → is_cancelled ((cancel s s.active_owner).states t) ≡ true
unfolding cancel
cancel-states s t ha = cancel_owned_cancelled _ s.active_owner s.queue t (
    subst
      (λ a.
        is_cancelled (
          (if s.active_owner == s.active_owner then store_active s.states a cancelled else s.states)
            t)
        ≡ true)
      (sym ha) (active_cancelled s.states s.active_owner t))

-- The worker of a cancelled batch whose Shift is down takes no way that writes.
cancelled_left :
    (s : Impl) (b : Batch) (i : ℕ)
    → is_cancelled (s.states b.ticket) ≡ true
    → s.stopping ≡ false
    → s.available ≡ true
    → ((to_left s b i).phase ≡ waiting) × ((to_left s b i).written ≡ s.written)
unfolding to_left to_release to_anchor interrupted finish_batch next_round
cancelled_left s b i h hs ha = ground (arith, h, hs, ha)

-- When the owner cancels a selection while the worker pauses behind one of its Lefts, and the worker is not
-- asked to stop and has its device, the worker waits
-- for the next batch after its next step, and what it has written until then is what it had written before:
-- a Shift that was down stays down.
pub cancelled_selection_holds_shift :
    (s : Impl) (b : Batch) (i : ℕ)
    → s.phase ≡ pausing b (left_pause i)
    → s.active ≡ some b.ticket
    → s.stopping ≡ false
    → s.available ≡ true
    → shift_held s.written ≡ true
    → let t = resume (cancel s s.active_owner) (cancel s s.active_owner).phase none in
      (t.phase ≡ waiting) × (t.written ≡ s.written) × (shift_held t.written ≡ true)
unfolding resume behind_pause cancel
cancelled_selection_holds_shift s b i hp ha hs hd hw =
    subst
      (λ p.
        ((resume (cancel s s.active_owner) p none).phase ≡ waiting)
        × ((resume (cancel s s.active_owner) p none).written ≡ s.written)
        × (shift_held ((resume (cancel s s.active_owner) p none).written) ≡ true))
      (sym hp)
      (let r =
          cancelled_left (cancel s s.active_owner) b (i + 1) (cancel-states s b.ticket ha) hs hd in
        (r.0, r.1, subst (λ w. shift_held w ≡ true) (sym (r.1)) hw))
