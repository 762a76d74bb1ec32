-- ===== src/Base/Chars.antt =====
-- Texts as lists of characters: a byte that begins a character, and the continuation bytes behind it.
use Prim.Native.Nat.{ℕ, zero, suc, ◌+◌, ◌≤◌, ◌<◌}
use mathlib.Core.Bool.{Bool, true, false, not, ◌&&◌, ◌||◌}
use mathlib.Core.List.{List, [], ◌∷◌, ◌++◌, append_assoc, append-nil}
use mathlib.Core.Path.{◌≡◌, refl, sym, ap, subst, ◌∙◌}
use mathlib.Core.Logic.{◌⊎◌, inl, inr}
use native.Mathlib.Omega.{arith}
use skey.Base.Tests.{◌==◌, ==_iff, leb, ltb, Bool-cases, if◌then◌else◌, if_true, if_false}
use skey.Base.Text.{Bytes}
use skey.Base.Lists.{length, take, drop, All, take-length_append, drop-length_append, length-append}
use skey.Base.Utf8.{is_continuation, leading}

abbrev pub concat : List Bytes → Bytes
concat [] = []
concat (c ∷ cs) = c ++ concat cs

abbrev IsInner : ℕ → Type 0
IsInner b = (128 ≤ b) × (b < 192)

-- One character of a text in UTF-8.
abbrev pub IsChar : Bytes → Type 0
IsChar [] = ⊥
IsChar (b ∷ bs) = ((b < 128) ⊎ ((192 ≤ b) × (b < 256))) × All IsInner bs

-- The test of a continuation byte agrees with its range on the bytes up to `top`.
agrees_upto : ℕ → Bool
agrees_upto zero = not (is_continuation zero)
agrees_upto (suc top) =
    let rest = agrees_upto top in
    if is_continuation (suc top)
    then leb 128 (suc top) && (ltb (suc top) 192 && rest)
    else not (leb 128 (suc top) && ltb (suc top) 192) && rest

agrees : agrees_upto 255 ≡ true
unfolding agrees_upto is_continuation
agrees = refl

agrees_at :
    (top b : ℕ) → agrees_upto top ≡ true → b ≤ top → is_continuation b ≡ (leb 128 b && ltb b 192)
unfolding agrees_upto
agrees_at zero zero e l = ground arith
agrees_at zero (suc b) e l = absurd (omega arith)
agrees_at (suc top) b e l = elim (Bool-cases (b == suc top)) [
  | inl last ↦
      subst (λ (c : ℕ). is_continuation c ≡ (leb 128 c && ltb c 192))
        (sym ((==_iff b (suc top)).0 last)) (ground arith)
  | inr other ↦ agrees_at top b (ground arith) (ground arith)
]

pub inner-continuation : (b : ℕ) → IsInner b → is_continuation b ≡ true
inner-continuation b h = agrees_at 255 b agrees (omega (arith, h)) ∙ ground (arith, h)

pub lead-no_continuation : (b : ℕ) → (b < 128) ⊎ ((192 ≤ b) × (b < 256)) → is_continuation b ≡ false
lead-no_continuation b (inl h) = agrees_at 255 b agrees (omega (arith, h)) ∙ ground (arith, h)
lead-no_continuation b (inr h) = agrees_at 255 b agrees (omega (arith, h)) ∙ ground (arith, h)

leading-concat : (cs : List Bytes) → All IsChar cs → leading (concat cs) ≡ 0
unfolding leading
leading-concat [] h = refl
leading-concat ([] ∷ cs) h = absurd (h.0)
leading-concat ((b ∷ bs) ∷ cs) h = if_false (is_continuation b) _ _ (lead-no_continuation b (h.0.0))

-- What `leading` passes over behind the first byte of a character.
pub leading-inner :
    (bs : Bytes) (cs : List Bytes)
    → All IsInner bs
    → All IsChar cs
    → leading (bs ++ concat cs) ≡ length bs
unfolding leading
leading-inner [] cs i h = leading-concat cs h
leading-inner (b ∷ bs) cs i h =
    if_true (is_continuation b) _ _ (inner-continuation b i.0) ∙ ap suc (leading-inner bs cs i.1 h)

pub drop-inner :
    (bs : Bytes) (cs : List Bytes)
    → All IsInner bs
    → All IsChar cs
    → drop (leading (bs ++ concat cs)) (bs ++ concat cs) ≡ concat cs
drop-inner bs cs i h =
    ap (λ n. drop n (bs ++ concat cs)) (leading-inner bs cs i h) ∙ drop-length_append bs (concat cs)

pub concat-split : (n : ℕ) (cs : List Bytes) → concat cs ≡ concat (take n cs) ++ concat (drop n cs)
concat-split zero cs = refl
concat-split (suc n) [] = refl
concat-split (suc n) (c ∷ cs) =
    ap (λ l. c ++ l) (concat-split n cs)
    ∙ sym (append_assoc c (concat (take n cs)) (concat (drop n cs)))

-- Two ways to cut a text at the same place give the same parts.
pub same_cut : (x y p q : Bytes) → x ++ y ≡ p ++ q → length x ≡ length p → (x ≡ p) × (y ≡ q)
same_cut x y p q e l = (
  sym (take-length_append x y) ∙ (λ i. take (l i) (e i)) ∙ take-length_append p q,
  sym (drop-length_append x y) ∙ (λ i. drop (l i) (e i)) ∙ drop-length_append p q,
)

-- The character behind the first `p` ones.
pub record Next (cs : List Bytes) (p : ℕ) : Type 0 where
  pub first : ℕ
  pub inner : Bytes
  pub rest : Bytes
  pub is_char : IsChar (first ∷ inner)
  pub whole : concat cs ≡ concat (take p cs) ++ first ∷ (inner ++ rest)
  pub longer : length (concat (take (suc p) cs)) ≡ suc (length (concat (take p cs)) + length inner)

pub concat-Next : (cs : List Bytes) (p : ℕ) → All IsChar cs → p < length cs → Next cs p
concat-Next [] p h l = absurd (omega (arith, l))
concat-Next ([] ∷ cs) zero h l = absurd (h.0)
concat-Next ((b ∷ bs) ∷ cs) zero h l = record {
  first = b;
  inner = bs;
  rest = concat cs;
  is_char = h.0;
  whole = refl;
  longer = omega (arith, ap length (append-nil bs));
}
concat-Next (c ∷ cs) (suc p) h l =
    let n = concat-Next cs p h.1 (omega (arith, l)) in
    record {
      first = n.first;
      inner = n.inner;
      rest = n.rest;
      is_char = n.is_char;
      whole =
          ap (λ t. c ++ t) n.whole
          ∙ sym (append_assoc c (concat (take p cs)) (n.first ∷ (n.inner ++ n.rest)));
      longer = omega (
        arith,
        length-append c (concat (take p cs)),
        length-append c (concat (take (suc p) cs)),
        n.longer,
      );
    }

abbrev are_inner : Bytes → Bool
are_inner [] = true
are_inner (b ∷ bs) = (leb 128 b && ltb b 192) && are_inner bs

abbrev char_test : Bytes → Bool
char_test [] = false
char_test (b ∷ bs) = (ltb b 128 || (leb 192 b && ltb b 256)) && are_inner bs

-- A test of what a concrete text consists of.
abbrev pub are_chars : List Bytes → Bool
are_chars [] = true
are_chars (c ∷ cs) = char_test c && are_chars cs

are_inner-All : (bs : Bytes) → are_inner bs ≡ true → All IsInner bs
are_inner-All [] h = tt
are_inner-All (b ∷ bs) h =
    ((ground (arith, h), ground (arith, h)), are_inner-All bs (ground (arith, h)))

char_test-IsChar : (c : Bytes) → char_test c ≡ true → IsChar c
char_test-IsChar [] h = cc
char_test-IsChar (b ∷ bs) h = (ground (arith, h), are_inner-All bs (ground (arith, h)))

pub are_chars-All : (cs : List Bytes) → are_chars cs ≡ true → All IsChar cs
are_chars-All [] h = tt
are_chars-All (c ∷ cs) h =
    (char_test-IsChar c (ground (arith, h)), are_chars-All cs (ground (arith, h)))
