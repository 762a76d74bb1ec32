-- ===== src/Injector/Store.antt =====
-- The states of the tickets: which are settled, and what a store to one, to all or to the cancelled ones
-- of the queue does to them.
use skey.Base.{
  ℕ, Bool, true, false, ◌||◌, List, [], ◌∷◌, ◌++◌, Option, none, some, ◌≡◌, refl, ◌==◌,
  if◌then◌else◌, Bool-cases, inl, inr, arith,
}
use skey.Injector.{
  State, queued, running, complete, failed, cancelled, Batch, store, store_all, store_active,
  cancel_owned, others,
}

abbrev pub is_settled : State → Bool
is_settled complete = true
is_settled failed = true
is_settled cancelled = true
is_settled queued = false
is_settled running = false

abbrev pub holds : ℕ → List Batch → Bool
holds t [] = false
holds t (b ∷ bs) = b.ticket == t || holds t bs

abbrev pub names : Option ℕ → ℕ → Bool
names none t = false
names (some i) t = i == t

abbrev pub is_tracked : (ℕ → State) → List Batch → Option ℕ → ℕ → Bool
is_tracked states bs a t = is_settled (states t) || holds t bs || names a t

abbrev pub settled_active : (ℕ → State) → Option ℕ → Bool
settled_active states none = true
settled_active states (some t) = is_settled (states t)

pub store_settled :
    (states : ℕ → State) (i : ℕ) (s : State) (t : ℕ)
    → is_settled s ≡ true
    → (is_settled (states t) || i == t) ≡ true
    → is_settled (store states i s t) ≡ true
unfolding store
store_settled states i s t hs h = ground arith

pub store_all_settled :
    (states : ℕ → State) (bs : List Batch) (s : State) (t : ℕ)
    → is_settled s ≡ true
    → (is_settled (states t) || holds t bs) ≡ true
    → is_settled (store_all states bs s t) ≡ true
unfolding store_all
store_all_settled states [] s t hs h = ground arith
store_all_settled states (b ∷ bs) s t hs h = elim (Bool-cases (b.ticket == t)) [
  | inl e ↦ store_settled (store_all states bs s) b.ticket s t hs (ground arith)
  | inr e ↦
      store_settled (store_all states bs s) b.ticket s t hs
        (ground (arith, store_all_settled states bs s t hs (ground arith)))
]

pub cancel_owned_tracked :
    (states : ℕ → State) (owner : ℕ) (bs : List Batch) (t : ℕ)
    → (is_settled (states t) || holds t bs) ≡ true
    → (is_settled (cancel_owned states owner bs t) || holds t (others owner bs)) ≡ true
unfolding cancel_owned others
cancel_owned_tracked states owner [] t h = ground arith
cancel_owned_tracked states owner (b ∷ bs) t h = elim (Bool-cases (b.ticket == t)) [
  | inl e ↦ elim (Bool-cases (b.owner == owner)) [
    | inl o ↦ ground (
      arith,
      store_settled (cancel_owned states owner bs) b.ticket cancelled t refl (ground arith),
    )
    | inr o ↦ ground arith
  ]
  | inr e ↦ elim (Bool-cases (is_settled (cancel_owned states owner bs t))) [
    | inl o ↦ ground (
      arith,
      cancel_owned_tracked states owner bs t (ground arith),
      store_settled (cancel_owned states owner bs) b.ticket cancelled t refl (ground arith),
    )
    | inr o ↦ ground (arith, cancel_owned_tracked states owner bs t (ground arith))
  ]
]

pub holds-append :
    (t : ℕ) (bs : List Batch) (b : Batch) → holds t (bs ++ b ∷ []) ≡ (holds t bs || b.ticket == t)
holds-append t [] b = ground arith
holds-append t (c ∷ bs) b = ground (arith, holds-append t bs b)

pub cancel_owned_settled :
    (states : ℕ → State) (owner : ℕ) (bs : List Batch) (t : ℕ)
    → is_settled (states t) ≡ true
    → is_settled (cancel_owned states owner bs t) ≡ true
unfolding cancel_owned
cancel_owned_settled states owner [] t h = h
cancel_owned_settled states owner (b ∷ bs) t h = elim (Bool-cases (b.owner == owner)) [
  | inl o ↦ ground (
    arith,
    cancel_owned_settled states owner bs t h,
    store_settled (cancel_owned states owner bs) b.ticket cancelled t refl,
  )
  | inr o ↦ ground (arith, cancel_owned_settled states owner bs t h)
]

pub store_active_settled :
    (states : ℕ → State) (c : Bool) (a : Option ℕ) (t : ℕ)
    → is_settled (states t) ≡ true
    → is_settled ((if c then store_active states a cancelled else states) t) ≡ true
store_active_settled states c none t h = ground arith
store_active_settled states c (some i) t h = ground (arith, store_settled states i cancelled t refl)
