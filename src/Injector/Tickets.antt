-- ===== src/Injector/Tickets.antt =====
-- What becomes of the tickets under the calls of the engine's thread, and when the worker has stopped.
use skey.Base.{
  ℕ, ◌<◌, Bool, true, false, ◌||◌, List, [], ◌∷◌, Option, none, some, ◌≡◌, refl, ◌==◌,
  if◌then◌else◌, Bool-cases, inl, inr, arith, subst, sym, if_both, ℤ, pos, negsuc,
}
use skey.Injector.{
  State, cancelled, Batch, Phase, idle, opening, reopening, warming, waiting, closing, backing_off,
  stopped, sending, pausing, Impl, init, store, store_active, is_idle, next_round, start, enqueue,
  refuses, backspaces, shift_select, cancel_owned, others, cancel, destroy,
}
use skey.Injector.Trace.{
  Event, step, run, started, destroyed, worker, backspaces_asked, selection_asked, cancelled_by,
}
use skey.Injector.Store.{
  is_settled, holds, is_tracked, settled_active, cancel_owned_tracked, holds-append,
  cancel_owned_settled, store_active_settled,
}
use skey.Injector.Invariant.{IsAt, IsTracked, Inv, next_round-Inv, resume-Inv}

start-Inv : (s : Impl) → Inv s → Inv (start s)
unfolding start
start-Inv s i = go s.phase refl
  where
    go : (p : Phase) → s.phase ≡ p → Inv (if is_idle s.phase then next_round s else s)
    go idle e =
        if_both Inv (is_idle s.phase) _ _
          (λ _.
            next_round-Inv s (subst (IsAt s) e i.at)
              (subst (IsTracked s s.states s.queue) (subst (IsAt s) e i.at) i.tracked))
          (λ _. i)
    go _ e = subst (λ p. Inv (if is_idle p then next_round s else s)) (sym e) i

enqueue-Inv :
    (s : Impl) (b : Batch)
    → b.ticket ≡ s.next_ticket
    → s.available ≡ true
    → s.stopping ≡ false
    → Inv s
    → Inv ((enqueue s b).0)
unfolding enqueue store
enqueue-Inv s b eb ha hs i = record {
  tracked = λ t lt. elim (Bool-cases (b.ticket == t)) [
    | inl e ↦ ground (arith, holds-append t s.queue b)
    | inr e ↦ ground (arith, holds-append t s.queue b, i.tracked t (ground arith), store)
  ];
  at = go s.phase i.at;
}
  where
    go : (p : Phase) → IsAt s p → IsAt ((enqueue s b).0) p
    go closing h = absurd (ground arith)
    go stopped h = absurd (ground arith)
    go idle h = h
    go opening h = h
    go reopening h = h
    go warming h = h
    go waiting h = h
    go backing_off h = h
    go (sending b w) h = h
    go (pausing b p) h = h

backspaces-Inv :
    (s : Impl) (owner : ℕ) (count : ℤ) (with_escape : Bool) (pace : ℕ)
    → Inv s
    → Inv ((backspaces s owner count with_escape pace).0)
unfolding backspaces
backspaces-Inv s owner (negsuc n) with_escape pace i = i
backspaces-Inv s owner (pos count) with_escape pace i =
    if_both (λ (r : Impl × Option ℕ). Inv (r.0)) (refuses s count) _ _ (λ _. i)
      (λ e. enqueue-Inv s _ refl (ground arith) (ground arith) i)

shift_select-Inv :
    (s : Impl) (owner : ℕ) (count : ℤ) (pace : ℕ)
    → Inv s
    → Inv ((shift_select s owner count pace).0)
unfolding shift_select
shift_select-Inv s owner (negsuc n) pace i = i
shift_select-Inv s owner (pos count) pace i =
    if_both (λ (r : Impl × Option ℕ). Inv (r.0)) (refuses s count) _ _ (λ _. i)
      (λ e. enqueue-Inv s _ refl (ground arith) (ground arith) i)

abbrev kept : Impl → ℕ → ℕ → State
kept s owner =
    if s.active_owner == owner then store_active s.states s.active cancelled else s.states

cancel-Inv : (s : Impl) (owner : ℕ) → Inv s → Inv (cancel s owner)
unfolding cancel others
cancel-Inv s owner i = record {
  tracked = λ t lt. tracked_still s.active t (i.tracked t lt);
  at = go s.phase i.at;
}
  where
    tracked_still :
        (a : Option ℕ) (t : ℕ)
        → is_tracked s.states s.queue a t ≡ true
        → is_tracked (cancel_owned (kept s owner) owner s.queue) (others owner s.queue) a t ≡ true
    tracked_still a t h = elim (Bool-cases (is_settled (s.states t) || holds t s.queue)) [
      | inl e ↦ ground (
        arith,
        cancel_owned_tracked (kept s owner) owner s.queue t
            (elim (Bool-cases (is_settled (s.states t))) [
              | inl o ↦
                  ground
                    (arith, store_active_settled s.states (s.active_owner == owner) s.active t o)
              | inr o ↦ ground arith
            ]),
      )
      | inr e ↦ ground arith
    ]

    settled_still :
        (a : Option ℕ)
        → settled_active s.states a ≡ true
        → settled_active (cancel_owned (kept s owner) owner s.queue) a ≡ true
    settled_still none h = refl
    settled_still (some t) h =
        cancel_owned_settled (kept s owner) owner s.queue t
          (store_active_settled s.states (s.active_owner == owner) s.active t h)

    go : (p : Phase) → IsAt s p → IsAt (cancel s owner) p
    go closing h = (settled_still s.active h.0, h.1)
    go stopped h = (h.0, subst (λ q. others owner q ≡ []) (sym h.1) refl, h.2)
    go idle h = h
    go opening h = h
    go reopening h = h
    go warming h = h
    go waiting h = h
    go backing_off h = h
    go (sending b w) h = h
    go (pausing b p) h = h

destroy-Inv : (s : Impl) → Inv s → Inv (destroy s)
unfolding destroy
destroy-Inv s i = record { tracked = i.tracked; at = go s.phase i.at }
  where
    go : (p : Phase) → IsAt s p → IsAt (destroy s) p
    go closing h = h
    go stopped h = (h.0, h.1, refl)
    go idle h = h
    go opening h = h
    go reopening h = h
    go warming h = h
    go waiting h = h
    go backing_off h = h
    go (sending b w) h = h
    go (pausing b p) h = h

step-Inv : (s : Impl) (e : Event) → Inv s → Inv (step s e)
unfolding step
step-Inv s started i = start-Inv s i
step-Inv s destroyed i = destroy-Inv s i
step-Inv s (worker r) i = resume-Inv s s.phase r refl i.at i
step-Inv s (backspaces_asked owner count with_escape pace) i =
    backspaces-Inv s owner count with_escape pace i
step-Inv s (selection_asked owner count pace) i = shift_select-Inv s owner count pace i
step-Inv s (cancelled_by owner) i = cancel-Inv s owner i

run-Inv : (s : Impl) (es : List Event) → Inv s → Inv (run s es)
unfolding run
run-Inv s [] i = i
run-Inv s (e ∷ es) i = run-Inv (step s e) es (step-Inv s e i)

init-Inv : Inv init
init-Inv = record { tracked = λ t lt. absurd (ground arith); at = refl }

-- Under every interleaving of the worker with the calls of the engine's thread, with opens and writes
-- that may fail: once the worker has stopped, every ticket that a request was given is complete,
-- failed or cancelled.
pub stopped-settles :
    (es : List Event) (t : ℕ)
    → (run init es).phase ≡ stopped
    → t < (run init es).next_ticket
    → is_settled ((run init es).states t) ≡ true
stopped-settles es t e lt =
    let i = run-Inv init es init-Inv in
    let a : IsAt (run init es) stopped = subst (IsAt (run init es)) e i.at in
    last (run init es) a (i.tracked t lt)
  where
    last :
        (s : Impl)
        → IsAt s stopped
        → is_tracked s.states s.queue s.active t ≡ true
        → is_settled (s.states t) ≡ true
    last s a h = ground (
      arith,
      subst (λ q. is_tracked s.states q none t ≡ true) (a.1)
          (subst (λ o. is_tracked s.states s.queue o t ≡ true) (a.0) h),
    )
