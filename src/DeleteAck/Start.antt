-- ===== src/DeleteAck/Start.antt =====
-- What a successful `start` records.
use skey.Base.{
  ℕ, zero, suc, ◌+◌, ◌-◌, ◌≤◌, ◌≡◌, refl, sym, ap, ◌∙◌, true, false, [], ◌∷◌, ◌++◌, Option, none,
  some, arith, Bytes, bytes_eq_iff, leading, length, take, drop, min, max, take-append-drop,
  take-add, length-take, length-drop, leading-le, inl, inr, Option-cases, append_assoc,
}
use skey.DeleteAck.{UinputDeleteAck, offset, reset, arm, arm_at, start}

offset-le-length : (n : ℕ) (s : Bytes) (k : ℕ) → offset n s ≡ some k → k ≤ length s
unfolding offset
offset-le-length zero s k h = ground arith
offset-le-length (suc n) [] k h = cc
offset-le-length (suc n) (b ∷ s) k h = elim (Option-cases (offset n (drop (leading s) s))) [
  | inl e ↦ absurd (ground arith)
  | inr (j, e) ↦
      ground
        (arith, offset-le-length n (drop (leading s) s) j, length-drop (leading s) s, leading-le s)
]

-- Fewer characters end at or before the place where more of them end.
offset_mono :
    (m n : ℕ) (s : Bytes) (j k : ℕ) → m ≤ n → offset m s ≡ some j → offset n s ≡ some k → j ≤ k
unfolding offset
offset_mono zero n s j k h p q = ground arith
offset_mono (suc m) zero s j k h p q = elim h [ ]
offset_mono (suc m) (suc n) [] j k h p q = cc
offset_mono (suc m) (suc n) (b ∷ s) j k h p q =
    elim (Option-cases (offset m (drop (leading s) s))) [
      | inl e ↦ absurd (ground arith)
      | inr (j', e) ↦ elim (Option-cases (offset n (drop (leading s) s))) [
        | inl f ↦ absurd (ground arith)
        | inr (k', f) ↦ ground (arith, offset_mono m n (drop (leading s) s) j' k' (omega arith) e f)
      ]
    ]

-- What the true return of `start` with these arguments leaves.
pub record IsArmed (b : UinputDeleteAck) (text : Bytes) (cursor anchor : ℕ) (old_word : Bytes)
    (deletes now deadline : ℕ) : Type 0 where
  pub is_active : b.active ≡ true
  pub not_acked : b.ack_at ≡ 0
  pub not_acked_once : b.ack_once ≡ false
  pub not_missed : b.missed ≡ false
  pub at_start : b.started_at ≡ now
  pub at_deadline : b.deadline_usec ≡ deadline
  pub wanted : b.word ≡ old_word
  pub shifted_cursor : b.cursor + deletes ≡ min cursor anchor
  pub shifted_anchor : b.expected_anchor + deletes ≡ max cursor anchor

pub start-IsArmed :
    (a b : UinputDeleteAck) (text : Bytes) (cursor anchor : ℕ) (old_word : Bytes)
    (deletes now deadline : ℕ)
    → start a text cursor anchor old_word deletes now deadline ≡ (b, true)
    → IsArmed b text cursor anchor old_word deletes now deadline
unfolding start arm
start-IsArmed a b text cursor anchor old_word deletes now deadline h = ground arith

-- How the text of a successful start splits: the kept front, the deleted tail and the rest.
pub record Splits (text expected old_word : Bytes) (from upto : ℕ) : Type 0 where
  pub front : Bytes
  pub deleted : Bytes
  pub rest : Bytes
  pub lead : Bytes
  pub whole : text ≡ front ++ (deleted ++ rest)
  pub kept : expected ≡ front ++ rest
  pub word_ends : front ++ deleted ≡ lead ++ old_word
  pub from_char : offset from text ≡ some (length front)
  pub upto_char : offset upto text ≡ some (length (front ++ deleted))

armed-Splits :
    (a b : UinputDeleteAck) (text : Bytes) (sel_start sel_end : ℕ) (old_word : Bytes)
    (deletes now deadline s d : ℕ)
    → offset sel_start text ≡ some s
    → offset (sel_start - deletes) text ≡ some d
    → arm a text sel_start sel_end old_word deletes now deadline s d ≡ (b, true)
    → Splits text b.expected old_word (sel_start - deletes) sel_start
unfolding arm
armed-Splits a b text sel_start sel_end old_word deletes now deadline s d es ed h =
    let w = length old_word in
    let d-le-s : d ≤ s = offset_mono (sel_start - deletes) sel_start text d s (omega arith) ed es in
    let s-le : s ≤ length text = offset-le-length sel_start text s es in
    let w-le-s : w ≤ s = ground arith in
    let checked : take w (drop (s - w) text) ≡ old_word =
      (bytes_eq_iff (take w (drop (s - w) text)) old_word).0 (ground arith) in
    let expected : b.expected ≡ take d text ++ drop (d + (s - d)) text = ground arith in
    let up : d + (s - d) ≡ s = omega arith in
    let back : (s - w) + w ≡ s = omega arith in
    let joined : take d text ++ take (s - d) (drop d text) ≡ take s text =
      sym (take-add d (s - d) text) ∙ ap (λ n. take n text) up in
    record {
      front = take d text;
      deleted = take (s - d) (drop d text);
      rest = drop s text;
      lead = take (s - w) text;
      whole =
          sym (take-append-drop s text)
          ∙ ap (λ l. l ++ drop s text) (sym joined)
          ∙ append_assoc (take d text) (take (s - d) (drop d text)) (drop s text);
      kept = expected ∙ ap (λ n. take d text ++ drop n text) up;
      word_ends =
          joined
          ∙ ap (λ n. take n text) (sym back)
          ∙ take-add (s - w) w text
          ∙ ap (λ l. take (s - w) text ++ l) checked;
      from_char = ed ∙ ap some (sym (length-take d text (omega arith)));
      upto_char = es ∙ ap some (sym (ap length joined ∙ length-take s text s-le));
    }

arm_at-Splits :
    (a b : UinputDeleteAck) (text : Bytes) (sel_start sel_end : ℕ) (old_word : Bytes)
    (deletes now deadline : ℕ) (x y z : Option ℕ)
    → offset sel_start text ≡ x
    → offset (sel_start - deletes) text ≡ z
    → arm_at a text sel_start sel_end old_word deletes now deadline x y z ≡ (b, true)
    → Splits text b.expected old_word (sel_start - deletes) sel_start
arm_at-Splits a b text ss se w k now dl (some s) (some e) (some d) p q h =
    armed-Splits a b text ss se w k now dl s d p q h
arm_at-Splits a b text ss se w k now dl none y z p q h = absurd (ground arith)
arm_at-Splits a b text ss se w k now dl (some s) none z p q h = absurd (ground arith)
arm_at-Splits a b text ss se w k now dl (some s) (some e) none p q h = absurd (ground arith)

-- A true return of `start` splits the text: a front that ends `deletes` characters before the
-- selection, the characters to delete, which end where the selection starts, and the rest. The
-- expected text is the front and the rest, and the old word ends right before the selection.
pub start-Splits :
    (a b : UinputDeleteAck) (text : Bytes) (cursor anchor : ℕ) (old_word : Bytes)
    (deletes now deadline : ℕ)
    → start a text cursor anchor old_word deletes now deadline ≡ (b, true)
    → Splits text b.expected old_word (min cursor anchor - deletes) (min cursor anchor)
unfolding start
start-Splits a b text cursor anchor old_word deletes now deadline h =
    arm_at-Splits (reset a) b text (min cursor anchor) (max cursor anchor) old_word deletes now
      deadline (offset (min cursor anchor) text) (offset (max cursor anchor) text)
      (offset (min cursor anchor - deletes) text) refl refl (ground arith)
