-- ===== src/Deferred/Missing.antt =====
-- What the addon takes for characters that the application failed to delete.
use skey.Base.{
  ℕ, zero, suc, ◌+◌, ◌-◌, ◌≤◌, ◌<◌, ◌≡◌, ◌∙◌, ◌⊎◌, refl, sym, ap, subst, arith, true, false, Option,
  some, List, [], ◌∷◌, ◌++◌, append_assoc, append-nil, ◌==◌, ==_iff, if_both, Bool-cases, inl, inr,
  Bytes, is_empty, is_continuation, length, length-append, take, drop, drop-length_append, All,
  All-mono,
}
use skey.Base.Chars.{
  concat, IsChar, inner-continuation, lead-no_continuation, concat-split, same_cut, concat-Next,
}
use skey.Cursor.Lookups.{count_bytes-concat}
use skey.Engine.{last_char_start}
use skey.Engine.Backspace.{Continuations, last_char_start-back}
use skey.Cursor.{count_bytes, ends_at}
use skey.Cursor.Suffix.{EndsAt, ends_at-EndsAt, EndsAt-ends_at, count_bytes-le}
use skey.Deferred.{
  Deferred, Surrounding, surrounding_cache_ends_with, last_chars, back_chars, longest_shown,
  missing_native_delete_chars,
}

-- The text in front of the cursor ends with `expected`.
abbrev pub Shows : Surrounding → Bytes → Type 0
Shows (text, cursor) expected = EndsAt (count_bytes cursor text) text expected

shown-Shows :
    (s : Surrounding) (expected : Bytes)
    → surrounding_cache_ends_with (some s) expected ≡ true
    → Shows s expected
unfolding surrounding_cache_ends_with
shown-Shows (text, cursor) expected h =
    ends_at-EndsAt (count_bytes cursor text) text expected (count_bytes-le cursor text)
      (ground arith)

Shows-shown :
    (s : Surrounding) (expected : Bytes)
    → is_empty expected ≡ false
    → Shows s expected
    → surrounding_cache_ends_with (some s) expected ≡ true
unfolding surrounding_cache_ends_with
Shows-shown (text, cursor) expected e (front, rest, p, n) =
    let found : ends_at (count_bytes cursor text) text expected ≡ true =
      ap (λ k. ends_at k text expected) n
      ∙ ap (λ t. ends_at (length front + length expected) t expected) p
      ∙ EndsAt-ends_at front rest expected in
    let long : length text ≡ length front + (length expected + length rest) =
      ap length p
      ∙ length-append front (expected ++ rest)
      ∙ ap (λ k. length front + k) (length-append expected rest) in
    ground (arith, e, found, long)

longest_found :
    (surr : Option Surrounding) (tail : Bytes) (len : ℕ)
    → (longest_shown surr tail len ≡ 0)
      ⊎ (surrounding_cache_ends_with surr (last_chars tail (longest_shown surr tail len)) ≡ true)
unfolding longest_shown
longest_found surr tail zero = inl refl
longest_found surr tail (suc k) =
    if_both (λ n. (n ≡ 0) ⊎ (surrounding_cache_ends_with surr (last_chars tail n) ≡ true))
      (surrounding_cache_ends_with surr (last_chars tail (suc k))) _ _ (λ e. inr e)
      (λ _. longest_found surr tail k)

longest_longest :
    (surr : Option Surrounding) (tail : Bytes) (len k : ℕ)
    → longest_shown surr tail len < k
    → k ≤ len
    → surrounding_cache_ends_with surr (last_chars tail k) ≡ false
unfolding longest_shown
longest_longest surr tail zero k h l = absurd (omega arith)
longest_longest surr tail (suc n) k h l =
    elim (Bool-cases (surrounding_cache_ends_with surr (last_chars tail (suc n)))) [
      | inl e ↦ absurd (ground (arith, e, h, l))
      | inr e ↦ elim (Bool-cases (k == suc n)) [
        | inl same ↦
            subst (λ i. surrounding_cache_ends_with surr (last_chars tail i) ≡ false)
              (sym ((==_iff k (suc n)).0 same)) e
        | inr other ↦
            longest_longest surr tail n k (ground (arith, e, h)) (ground (arith, other, l))
      ]
    ]

missing-Shows :
    (utf8_length : Bytes → ℕ) (d : Deferred) (s : Surrounding) (n : ℕ)
    → (d.native_delete_len == 0) ≡ false
    → is_empty d.deleted_tail ≡ false
    → missing_native_delete_chars utf8_length d (some s) ≡ some n
    → ((n ≡ 0) ⊎ Shows s (last_chars d.deleted_tail n))
      × ((k : ℕ)
          → n < k
          → k ≤ utf8_length d.deleted_tail
          → is_empty (last_chars d.deleted_tail k) ≡ false
          → ¬ Shows s (last_chars d.deleted_tail k))
unfolding missing_native_delete_chars
missing-Shows utf8_length d s n a b h =
    let len = utf8_length d.deleted_tail in
    let same : longest_shown (some s) d.deleted_tail len ≡ n = ground (arith, a, b, h) in
    subst
      (λ n.
        ((n ≡ 0) ⊎ Shows s (last_chars d.deleted_tail n))
        × ((k : ℕ)
            → n < k
            → k ≤ len
            → is_empty (last_chars d.deleted_tail k) ≡ false
            → ¬ Shows s (last_chars d.deleted_tail k)))
      same
      (
        elim (longest_found (some s) d.deleted_tail len) [
          | inl none_left ↦ inl none_left
          | inr found ↦ inr (
              shown-Shows s (last_chars d.deleted_tail (longest_shown (some s) d.deleted_tail len))
                found)
        ],
        λ k more le full shows. cc (
          longest_longest (some s) d.deleted_tail len k more le,
          Shows-shown s (last_chars d.deleted_tail k) full shows,
        ),
      )

-- The text ends with these bytes.
abbrev pub EndsWith : Bytes → Bytes → Type 0
EndsWith text expected = (front : Bytes) × (text ≡ front ++ expected)

-- The last `k` characters of a text.
abbrev pub last_of : ℕ → List Bytes → Bytes
last_of k cs = concat (drop (length cs - k) cs)

Shows-EndsWith :
    (shown : List Bytes) (cursor : ℕ) (expected : Bytes)
    → All IsChar shown
    → Shows (concat shown, cursor) expected
    → EndsWith (concat (take cursor shown)) expected
Shows-EndsWith shown cursor expected h (front, rest, e, n) = (
  front,
  sym (
      (same_cut (front ++ expected) rest (concat (take cursor shown)) (concat (drop cursor shown))
        (append_assoc front expected rest ∙ sym e ∙ concat-split cursor shown)
        (length-append front expected ∙ sym n ∙ count_bytes-concat cursor shown h)).0),
)

EndsWith-Shows :
    (shown : List Bytes) (cursor : ℕ) (expected : Bytes)
    → All IsChar shown
    → EndsWith (concat (take cursor shown)) expected
    → Shows (concat shown, cursor) expected
EndsWith-Shows shown cursor expected h (front, e) = (
  front,
  concat (drop cursor shown),
  concat-split cursor shown
      ∙ ap (λ t. t ++ concat (drop cursor shown)) e
      ∙ append_assoc front expected (concat (drop cursor shown)),
  count_bytes-concat cursor shown h ∙ ap length e ∙ length-append front expected,
)

inner-Continuations : (bs : Bytes) (b : ℕ) → IsChar (b ∷ bs) → Continuations bs
inner-Continuations bs b h =
    All-mono _ (λ c. is_continuation c ≡ true) bs (λ c i. inner-continuation c i) h.1

-- The loop that steps back, on a text of characters.
back_chars-concat :
    (tail : List Bytes) (k p : ℕ)
    → All IsChar tail
    → p ≤ length tail
    → back_chars (concat tail) (length (concat (take p tail))) k
      ≡ length (concat (take (p - k) tail))
unfolding back_chars
back_chars-concat tail zero p h l =
    let same : p ≡ p - 0 = omega arith in ap (λ i. length (concat (take i tail))) same
back_chars-concat tail (suc k) zero h l =
    let same : 0 ≡ 0 - suc k = omega arith in ap (λ i. length (concat (take i tail))) same
back_chars-concat tail (suc k) (suc p) h l =
    let n = concat-Next tail p h (omega (arith, l)) in
    let pre = concat (take p tail) in
    let same : p - k ≡ suc p - suc k = omega arith in
    ap (λ i. back_chars (concat tail) i (suc k)) n.longer
    ∙ ap (λ i. back_chars (concat tail) i k)
        (ap (λ t. last_char_start t (length pre + length n.inner)) n.whole
          ∙ last_char_start-back pre n.first n.inner n.rest (length n.inner)
              (length pre + length n.inner) (lead-no_continuation n.first n.is_char.0)
              (inner-Continuations n.inner n.first n.is_char) (omega arith) refl)
    ∙ back_chars-concat tail k p h (omega (arith, l))
    ∙ ap (λ i. length (concat (take i tail))) same

take_all : (cs : List Bytes) → take (length cs) cs ≡ cs
take_all [] = refl
take_all (c ∷ cs) = ap (λ l. c ∷ l) (take_all cs)

last_chars-concat :
    (tail : List Bytes) (k : ℕ) → All IsChar tail → last_chars (concat tail) k ≡ last_of k tail
unfolding last_chars
last_chars-concat tail k h =
    let kept = length tail - k in
    ap (λ i. drop (back_chars (concat tail) i k) (concat tail))
      (ap (λ cs. length (concat cs)) (sym (take_all tail)))
    ∙ ap (λ i. drop i (concat tail)) (back_chars-concat tail k (length tail) h (omega arith))
    ∙ ap (drop (length (concat (take kept tail)))) (concat-split kept tail)
    ∙ drop-length_append (concat (take kept tail)) (concat (drop kept tail))

rest_full :
    (i : ℕ) (cs : List Bytes)
    → All IsChar cs
    → i < length cs
    → is_empty (concat (drop i cs)) ≡ false
rest_full i [] h l = absurd (omega (arith, l))
rest_full zero ([] ∷ cs) h l = absurd (h.0)
rest_full zero ((b ∷ bs) ∷ cs) h l = refl
rest_full (suc i) (c ∷ cs) h l = rest_full i cs h.1 (omega (arith, l))

none_left : (text : Bytes) (cs : List Bytes) → EndsWith text (last_of 0 cs)
none_left text cs = (
  text,
  sym (
      ap (λ t. text ++ t) (ap concat (drop_all cs (length cs - 0) (omega arith)))
      ∙ append-nil text),
)
  where
    drop_all : (cs : List Bytes) (i : ℕ) → i ≡ length cs → drop i cs ≡ []
    drop_all [] zero e = refl
    drop_all [] (suc i) e = refl
    drop_all (c ∷ cs) zero e = absurd (omega (arith, e))
    drop_all (c ∷ cs) (suc i) e = drop_all cs i (omega (arith, e))

-- While an application is to delete a text of UTF-8 characters that is not empty, and shows a text of such
-- characters, and `utf8::length` counts the characters of the one to delete: when `n`
-- characters are found missing, the text in front of its cursor ends with the last `n` characters of the
-- one to delete, and with no larger number of them.
pub missing_is_longest :
    (utf8_length : Bytes → ℕ) (d : Deferred) (shown tail : List Bytes) (cursor n : ℕ)
    → All IsChar shown
    → All IsChar tail
    → d.deleted_tail ≡ concat tail
    → utf8_length d.deleted_tail ≡ length tail
    → (d.native_delete_len == 0) ≡ false
    → is_empty d.deleted_tail ≡ false
    → missing_native_delete_chars utf8_length d (some (concat shown, cursor)) ≡ some n
    → EndsWith (concat (take cursor shown)) (last_of n tail)
      × ((k : ℕ)
          → n < k
          → k ≤ length tail
          → ¬ EndsWith (concat (take cursor shown)) (last_of k tail))
missing_is_longest utf8_length d shown tail cursor n hs ht et el a b m =
    let old = missing-Shows utf8_length d (concat shown, cursor) n a b m in
    let chars : (k : ℕ) → last_chars d.deleted_tail k ≡ last_of k tail =
      λ k. ap (λ t. last_chars t k) et ∙ last_chars-concat tail k ht in
    (
      elim (old.0) [
        | inl z ↦
            subst (λ k. EndsWith (concat (take cursor shown)) (last_of k tail)) (sym z)
              (none_left (concat (take cursor shown)) tail)
        | inr s ↦
            Shows-EndsWith shown cursor (last_of n tail) hs
              (subst (λ t. Shows (concat shown, cursor) t) (chars n) s)
      ],
      λ k more le ends.
          old.1 k more (omega (arith, le, el))
            (ap is_empty (chars k) ∙ rest_full (length tail - k) tail ht (omega (arith, more, le)))
            (subst (λ t. Shows (concat shown, cursor) t) (sym (chars k))
              (EndsWith-Shows shown cursor (last_of k tail) hs ends)),
    )
