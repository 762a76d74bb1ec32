-- ===== src/DeleteAck/Evidence.antt =====
-- An acknowledgement stands exactly on the snapshots that came since the start.
use skey.Base.{
  ℕ, zero, suc, ◌+◌, ◌-◌, ◌≤◌, ◌<◌, ◌≡◌, ◌↔◌, refl, sym, ap, ◌∙◌, ◌⊎◌, inl, inr, true, some, List,
  [], ◌∷◌, ◌++◌, append_assoc, arith, u64_mod, All, All-mono, Bytes, bytes_eq_iff, min, max, take,
  drop, length, length-append, leading, Option-cases,
}
use skey.Base.Chars.{concat, IsChar, leading-inner, drop-inner, concat-split, same_cut}
use skey.DeleteAck.{
  UinputDeleteAck, Snapshot, start, matches, observe, observe_all, acknowledged, remaining,
  guard_usec, offset,
}
use skey.DeleteAck.Start.{start-IsArmed, Splits, start-Splits}

-- The snapshot was taken after the start and in time, and matches.
abbrev MatchedInTime : UinputDeleteAck → Snapshot → Type 0
MatchedInTime a o =
    (a.started_at < o.now) × (o.now < a.started_at + a.deadline_usec) × (matches a o ≡ true)

-- The snapshot is no newer than the start, or matches.
abbrev Agrees : UinputDeleteAck → Snapshot → Type 0
Agrees a o = (o.now ≤ a.started_at) ⊎ (matches a o ≡ true)

-- Some snapshot matches in time, and every later one agrees.
abbrev Matched : UinputDeleteAck → List Snapshot → Type 0
Matched a [] = ⊥
Matched a (o ∷ os) = (MatchedInTime a o × All (Agrees a) os) ⊎ Matched a os

-- What an observation leaves as it was.
record SameTarget (a b : UinputDeleteAck) : Type 0 where
  same_active : b.active ≡ a.active
  same_cursor : b.cursor ≡ a.cursor
  same_anchor : b.expected_anchor ≡ a.expected_anchor
  same_start : b.started_at ≡ a.started_at
  same_deadline : b.deadline_usec ≡ a.deadline_usec
  same_text : b.expected ≡ a.expected

SameTarget-refl : (a : UinputDeleteAck) → SameTarget a a
SameTarget-refl a = record {
  same_active = refl;
  same_cursor = refl;
  same_anchor = refl;
  same_start = refl;
  same_deadline = refl;
  same_text = refl;
}

observe-SameTarget :
    (a b : UinputDeleteAck) (o : Snapshot) → SameTarget a b → SameTarget a (observe b o)
unfolding observe
observe-SameTarget a b o h = ground arith

-- `Agrees` and `MatchedInTime` of the start decide what one observation does to the acknowledgement.
observe-acknowledged :
    (a b : UinputDeleteAck) (o : Snapshot)
    → a.active ≡ true
    → a.started_at + a.deadline_usec < u64_mod
    → SameTarget a b
    → (acknowledged (observe b o) ≡ true)
      ↔ (((acknowledged b ≡ true) × Agrees a o) ⊎ MatchedInTime a o)
unfolding observe
observe-acknowledged a b o on fits h = (λ k. ground arith, λ k. ground arith)

-- The two equivalences of one step of the induction, composed.
module _ {A B C D F E G : Type 0} (one : A ↔ ((B × C) ⊎ D)) (rest : F ↔ ((A × E) ⊎ G)) where
  forth_one : E → (B × C) ⊎ D → (B × (C × E)) ⊎ ((D × E) ⊎ G)
  forth_one e (inl (b, c)) = inl (b, (c, e))
  forth_one e (inr d) = inr (inl (d, e))

  forth : (A × E) ⊎ G → (B × (C × E)) ⊎ ((D × E) ⊎ G)
  forth (inl (a, e)) = forth_one e (one.0 a)
  forth (inr g) = inr (inr g)

  back : (B × (C × E)) ⊎ ((D × E) ⊎ G) → F
  back (inl (b, (c, e))) = rest.1 (inl (one.1 (inl (b, c)), e))
  back (inr (inl (d, e))) = rest.1 (inl (one.1 (inr d), e))
  back (inr (inr g)) = rest.1 (inr g)

  compose_step : F ↔ ((B × (C × E)) ⊎ ((D × E) ⊎ G))
  compose_step = (λ k. forth (rest.0 k), back)

observe_all-acknowledged :
    (a b : UinputDeleteAck) (os : List Snapshot)
    → a.active ≡ true
    → a.started_at + a.deadline_usec < u64_mod
    → SameTarget a b
    → (acknowledged (observe_all b os) ≡ true)
      ↔ (((acknowledged b ≡ true) × All (Agrees a) os) ⊎ Matched a os)
unfolding observe_all
observe_all-acknowledged a b [] on fits h = (λ k. inl (k, tt), λ k. no_evidence k)
  where
    no_evidence : ((acknowledged b ≡ true) × Unit {0}) ⊎ ⊥ → acknowledged b ≡ true
    no_evidence (inl (k, _)) = k
    no_evidence (inr f) = absurd f
observe_all-acknowledged a b (o ∷ os) on fits h =
    compose_step (observe-acknowledged a b o on fits h)
      (observe_all-acknowledged a (observe b o) os on fits (observe-SameTarget a b o h))

acknowledged-Matched :
    (a b : UinputDeleteAck) (text : Bytes) (cursor anchor : ℕ) (old_word : Bytes)
    (deletes now deadline : ℕ) (os : List Snapshot)
    → now + deadline < u64_mod
    → start a text cursor anchor old_word deletes now deadline ≡ (b, true)
    → (acknowledged (observe_all b os) ≡ true) ↔ Matched b os
acknowledged-Matched a b text cursor anchor old_word deletes now deadline os fits h =
    let armed = start-IsArmed a b text cursor anchor old_word deletes now deadline h in
    let whole =
      observe_all-acknowledged b b os armed.is_active
        (omega (arith, armed.at_start, armed.at_deadline)) (SameTarget-refl b) in
    (λ k. only_evidence armed.not_acked (whole.0 k), λ k. whole.1 (inr k))
  where
    only_evidence :
        b.ack_at ≡ 0 → ((acknowledged b ≡ true) × All (Agrees b) os) ⊎ Matched b os → Matched b os
    only_evidence z (inl (k, _)) = absurd (ground arith)
    only_evidence z (inr e) = e

observe_all-SameTarget :
    (a b : UinputDeleteAck) (os : List Snapshot) → SameTarget a b → SameTarget a (observe_all b os)
unfolding observe_all
observe_all-SameTarget a b [] h = h
observe_all-SameTarget a b (o ∷ os) h =
    observe_all-SameTarget a (observe b o) os (observe-SameTarget a b o h)

remaining-acknowledged :
    (c : UinputDeleteAck) (t d later : ℕ)
    → c.active ≡ true
    → c.started_at ≡ t
    → c.deadline_usec ≡ d
    → t + d < u64_mod
    → later < t + d
    → remaining c later ≡ 0
    → acknowledged c ≡ true
unfolding remaining
remaining-acknowledged c t d later on p q fits soon h = ground arith

-- A commit is let through before the deadline only on a match: if no wait remains then, the
-- deletion was acknowledged.
early_release :
    (a b : UinputDeleteAck) (text : Bytes) (cursor anchor : ℕ) (old_word : Bytes)
    (deletes now deadline : ℕ) (os : List Snapshot) (later : ℕ)
    → now + deadline + guard_usec < u64_mod
    → start a text cursor anchor old_word deletes now deadline ≡ (b, true)
    → later < now + deadline
    → remaining (observe_all b os) later ≡ 0
    → Matched b os
early_release a b text cursor anchor old_word deletes now deadline os later fits h soon done =
    let armed = start-IsArmed a b text cursor anchor old_word deletes now deadline h in
    let same = observe_all-SameTarget b b os (SameTarget-refl b) in
    (acknowledged-Matched a b text cursor anchor old_word deletes now deadline os (omega arith) h).0
      (remaining-acknowledged (observe_all b os) now deadline later
        (same.same_active ∙ armed.is_active) (same.same_start ∙ armed.at_start)
        (same.same_deadline ∙ armed.at_deadline) (omega arith) soon done)

-- What an application shows once it has deleted the characters, and the times of the wait.
pub record Target : Type 0 where
  pub text : Bytes
  pub cursor : ℕ
  pub anchor : ℕ
  pub from : ℕ
  pub upto : ℕ

-- A text without the characters right before the one at `upto`.
abbrev pub without : List Bytes → ℕ → ℕ → Bytes
without chars deletes upto = concat (take (upto - deletes) chars) ++ concat (drop upto chars)

-- The text without the characters to delete, and both ends of the selection moved by their number.
abbrev pub target : List Bytes → ℕ → ℕ → ℕ → ℕ → ℕ → Target
target chars cursor anchor deletes now deadline = record {
  text = without chars deletes (min cursor anchor);
  cursor = min cursor anchor - deletes;
  anchor = max cursor anchor - deletes;
  from = now;
  upto = now + deadline;
}

abbrev pub Shows : Target → Snapshot → Type 0
Shows t o = (o.valid ≡ true) × (o.text ≡ t.text) × (o.cursor ≡ t.cursor) × (o.anchor ≡ t.anchor)

-- Some snapshot that is newer than the start and older than the deadline shows the target, and each later
-- one shows it or is no newer than the start.
abbrev pub Evidence : Target → List Snapshot → Type 0
Evidence t [] = ⊥
Evidence t (o ∷ os) =
    ((t.from < o.now)
      × (o.now < t.upto)
      × Shows t o
      × All (λ later. (later.now ≤ t.from) ⊎ Shows t later) os)
    ⊎ Evidence t os

-- What a successful start expects is the target.
record Aims (a : UinputDeleteAck) (t : Target) : Type 0 where
  text : a.expected ≡ t.text
  cursor : a.cursor ≡ t.cursor
  anchor : a.expected_anchor ≡ t.anchor
  from : a.started_at ≡ t.from
  upto : a.started_at + a.deadline_usec ≡ t.upto

matches-Shows :
    (a : UinputDeleteAck) (t : Target) (o : Snapshot) → Aims a t → (matches a o ≡ true) ↔ Shows t o
matches-Shows a t o h = (
  λ m. (
    ground (arith, m),
    (bytes_eq_iff o.text a.expected).0 (ground (arith, m)) ∙ h.text,
    ground (arith, m, h.cursor),
    ground (arith, m, h.anchor),
  ),
  λ s. ground (
    arith,
    s.0,
    (bytes_eq_iff o.text a.expected).1 (s.1 ∙ sym h.text),
    h.cursor,
    s.2,
    h.anchor,
    s.3,
  ),
)

Matched-Evidence :
    (a : UinputDeleteAck) (t : Target) (os : List Snapshot)
    → Aims a t
    → Matched a os
    → Evidence t os
Matched-Evidence a t [] h m = m
Matched-Evidence a t (o ∷ os) h (inl ((l, u, s), later)) = inl (
  omega (arith, l, h.from),
  omega (arith, u, h.upto),
  (matches-Shows a t o h).0 s,
  All-mono (Agrees a) (λ p. (p.now ≤ t.from) ⊎ Shows t p) os (λ p. agreed p) later,
)
  where
    agreed : (p : Snapshot) → Agrees a p → (p.now ≤ t.from) ⊎ Shows t p
    agreed p (inl old) = inl (omega (arith, old, h.from))
    agreed p (inr same) = inr ((matches-Shows a t p h).0 same)
Matched-Evidence a t (o ∷ os) h (inr m) = inr (Matched-Evidence a t os h m)

Evidence-Matched :
    (a : UinputDeleteAck) (t : Target) (os : List Snapshot)
    → Aims a t
    → Evidence t os
    → Matched a os
Evidence-Matched a t [] h m = m
Evidence-Matched a t (o ∷ os) h (inl (l, u, s, later)) = inl (
  (omega (arith, l, h.from), omega (arith, u, h.upto), (matches-Shows a t o h).1 s),
  All-mono (λ p. (p.now ≤ t.from) ⊎ Shows t p) (Agrees a) os (λ p. agreed p) later,
)
  where
    agreed : (p : Snapshot) → (p.now ≤ t.from) ⊎ Shows t p → Agrees a p
    agreed p (inl old) = inl (omega (arith, old, h.from))
    agreed p (inr same) = inr ((matches-Shows a t p h).1 same)
Evidence-Matched a t (o ∷ os) h (inr m) = inr (Evidence-Matched a t os h m)

-- `offset` on a text of characters.
offset-concat :
    (n k : ℕ) (cs : List Bytes)
    → All IsChar cs
    → offset n (concat cs) ≡ some k
    → k ≡ length (concat (take n cs))
unfolding offset
offset-concat zero k cs h e = ground arith
offset-concat (suc n) k [] h e = cc
offset-concat (suc n) k ([] ∷ cs) h e = absurd (h.0)
offset-concat (suc n) k ((b ∷ bs) ∷ cs) h e =
    let rest = bs ++ concat cs in
    elim (Option-cases (offset n (drop (leading rest) rest))) [
      | inl none_left ↦ absurd (ground arith)
      | inr (j, at) ↦
          let there : j ≡ length (concat (take n cs)) =
            offset-concat n j cs h.1 (ap (offset n) (sym (drop-inner bs cs h.0.1 h.1)) ∙ at) in
          ground
            (arith, there, leading-inner bs cs h.0.1 h.1, length-append bs (concat (take n cs)))
    ]

Splits-without :
    (chars : List Bytes) (expected old_word : Bytes) (deletes upto : ℕ)
    → All IsChar chars
    → Splits (concat chars) expected old_word (upto - deletes) upto
    → expected ≡ without chars deletes upto
Splits-without chars expected old_word deletes upto h s =
    let before =
      same_cut s.front (s.deleted ++ s.rest) (concat (take (upto - deletes) chars))
        (concat (drop (upto - deletes) chars)) (sym s.whole ∙ concat-split (upto - deletes) chars)
        (offset-concat (upto - deletes) (length s.front) chars h s.from_char) in
    let behind =
      same_cut (s.front ++ s.deleted) s.rest (concat (take upto chars)) (concat (drop upto chars))
        (append_assoc s.front s.deleted s.rest ∙ sym s.whole ∙ concat-split upto chars)
        (offset-concat upto (length (s.front ++ s.deleted)) chars h s.upto_char) in
    s.kept ∙ (λ i. (before.0) i ++ (behind.1) i)

-- After a successful start on a text of characters of UTF-8, and any snapshots: the deletion is acknowledged
-- exactly when one of the snapshots, taken after the start and before the deadline, shows the text without
-- the characters to delete, which stood right before the selection, with the cursor at the start of
-- the selection and the anchor at its end, both moved back by the number of these characters; and each later
-- snapshot that is newer than the start shows the same.
pub acknowledged_iff :
    (a b : UinputDeleteAck) (chars : List Bytes) (cursor anchor : ℕ) (old_word : Bytes)
    (deletes now deadline : ℕ) (os : List Snapshot)
    → All IsChar chars
    → now + deadline < u64_mod
    → start a (concat chars) cursor anchor old_word deletes now deadline ≡ (b, true)
    → (acknowledged (observe_all b os) ≡ true)
      ↔ Evidence (target chars cursor anchor deletes now deadline) os
acknowledged_iff a b chars cursor anchor old_word deletes now deadline os c fits h =
    let armed = start-IsArmed a b (concat chars) cursor anchor old_word deletes now deadline h in
    let matched =
      acknowledged-Matched a b (concat chars) cursor anchor old_word deletes now deadline os fits
        h in
    let aims : Aims b (target chars cursor anchor deletes now deadline) = record {
      text =
          Splits-without chars b.expected old_word deletes (min cursor anchor) c
            (start-Splits a b (concat chars) cursor anchor old_word deletes now deadline h);
      cursor = omega (arith, armed.shifted_cursor);
      anchor = omega (arith, armed.shifted_anchor);
      from = armed.at_start;
      upto = omega (arith, armed.at_start, armed.at_deadline);
    } in
    (
      λ k.
          Matched-Evidence b (target chars cursor anchor deletes now deadline) os aims
            (matched.0 k),
      λ k.
          matched.1
            (Evidence-Matched b (target chars cursor anchor deletes now deadline) os aims k),
    )
