-- ===== src/Cursor/Suffix.antt =====
-- What `endsWith` compares.
use skey.Base.{
  ℕ, zero, suc, ◌+◌, ◌-◌, ◌≤◌, true, false, not, ◌&&◌, ◌||◌, List, [], ◌∷◌, ◌++◌, ◌≡◌, ◌↔◌, refl,
  sym, ap, subst, ◌∙◌, ltb, Bool-cases, inl, inr, arith, Bytes, bytes_eq_iff, is_empty, leading,
  leading-le, length, take, drop, take-append-drop, take-length_append, drop-length_append,
  length-take, length-drop,
}
use skey.Cursor.{SurroundingCursor, count_bytes, offset, ends_at, ends_with}
use skey.Cursor.Lookups.{Event, run, start_world, offset-remembered}

pub count_bytes-le : (n : ℕ) (text : Bytes) → count_bytes n text ≤ length text
unfolding count_bytes
count_bytes-le zero text = omega arith
count_bytes-le (suc n) [] = omega arith
count_bytes-le (suc n) (c ∷ text) = omega (
  arith,
  count_bytes-le n (drop (leading text) text),
  length-drop (leading text) text,
  leading-le text,
)

-- The text in front of a byte offset ends with `expected`.
abbrev pub EndsAt : ℕ → Bytes → Bytes → Type 0
EndsAt n text expected =
    (front : Bytes) × (rest : Bytes) × (text ≡ front ++ (expected ++ rest))
    × (n ≡ length front + length expected)

pub ends_at-EndsAt :
    (n : ℕ) (text expected : Bytes)
    → n ≤ length text
    → ends_at n text expected ≡ true
    → EndsAt n text expected
unfolding ends_at
ends_at-EndsAt n text expected hn h =
    let k = n - length expected in
    let same : take (length expected) (drop k text) ≡ expected =
      (bytes_eq_iff (take (length expected) (drop k text)) expected).0 (ground arith) in
    (
      take k text,
      drop (length expected) (drop k text),
      sym (take-append-drop k text)
          ∙ ap (λ s. take k text ++ s)
              (sym (take-append-drop (length expected) (drop k text))
                ∙ ap (λ s. s ++ drop (length expected) (drop k text)) same),
      ground (arith, length-take k text),
    )

pub EndsAt-ends_at :
    (front rest expected : Bytes)
    → ends_at (length front + length expected) (front ++ (expected ++ rest)) expected ≡ true
unfolding ends_at
EndsAt-ends_at front rest expected =
    let same : take (length expected)
          (drop ((length front + length expected) - length expected) (front ++ (expected ++ rest)))
        ≡ expected =
      subst (λ k. take (length expected) (drop k (front ++ (expected ++ rest))) ≡ expected)
        (omega arith)
        (ap (take (length expected)) (drop-length_append front (expected ++ rest))
          ∙ take-length_append expected rest) in
    ground (arith, (bytes_eq_iff _ expected).1 same)

ends_with-ends_at :
    (c : SurroundingCursor) (a : ℕ) (text : Bytes) (cursor : ℕ) (expected : Bytes)
    → (ends_with c a text cursor expected).1 ≡ (
        not (is_empty expected || ltb (length text) (length expected))
        && ends_at ((offset c a text cursor).1) text expected)
unfolding ends_with ends_at
ends_with-ends_at c a text cursor expected =
    elim (Bool-cases (is_empty expected || ltb (length text) (length expected))) [
      | inl e ↦ rw (e) refl
      | inr e ↦ rw (e) refl
    ]

tested-EndsAt :
    (n : ℕ) (text expected : Bytes)
    → n ≤ length text
    → ((not (is_empty expected || ltb (length text) (length expected)) && ends_at n text expected)
        ≡ true)
      ↔ ((is_empty expected ≡ false) × EndsAt n text expected)
tested-EndsAt n text expected hn =
    (λ h. (ground arith, ends_at-EndsAt n text expected hn (ground arith)), λ h. back (h.0) (h.1))
  where
    back :
        is_empty expected ≡ false
        → EndsAt n text expected
        → (not (is_empty expected || ltb (length text) (length expected))
            && ends_at n text expected)
          ≡ true
    back ne (front, rest, et, en) =
        let t : ends_at n text expected ≡ true =
          subst (λ k. ends_at k text expected ≡ true) (sym en)
            (subst (λ s. ends_at (length front + length expected) s expected ≡ true) (sym et)
              (EndsAt-ends_at front rest expected)) in
        ground (arith, t, ne, hn, en)

-- After any edits, each with its invalidation, and any lookups: `endsWith` returns true exactly when the
-- expected text is not empty and stands right in front of the cursor.
ends_with_iff :
    (es : List Event) (a cursor : ℕ) (expected : Bytes)
    → ((ends_with (run start_world es).object a ((run start_world es).memory a) cursor expected).1
        ≡ true)
      ↔ ((is_empty expected ≡ false)
          × EndsAt
              (count_bytes cursor ((run start_world es).memory a))
              ((run start_world es).memory a)
              expected)
ends_with_iff es a cursor expected =
    let text = (run start_world es).memory a in
    let object = (run start_world es).object in
    subst
      (λ b.
        (b ≡ true) ↔ ((is_empty expected ≡ false) × EndsAt (count_bytes cursor text) text expected))
      (sym (
        ends_with-ends_at object a text cursor expected
        ∙ ap
            (λ n.
              not (is_empty expected || ltb (length text) (length expected))
              && ends_at n text expected)
            (offset-remembered es a cursor)))
      (tested-EndsAt (count_bytes cursor text) text expected (count_bytes-le cursor text))
