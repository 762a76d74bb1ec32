-- ===== src/Engine/Keys.antt =====
-- What a key does to the buffers, by its result.
use skey.Base.{
  ℕ, ◌+◌, ◌≤◌, ◌<◌, Bool, true, false, ◌&&◌, ◌||◌, ◌≡◌, ◌≢◌, ◌↔◌, ◌∙◌, refl, sym, subst, inl, inr,
  [], ◌∷◌, ◌++◌, some, bytes_eq_iff, arith, Bool-cases, Bytes, codes, ltb, ◌==◌, if◌then◌else◌,
  if_both, if_true, if_false, ap,
}
use skey.Engine.Letters.{
  to_lower_ascii, is_tone_key, is_vowel, first_vowel_from, find_first_vowel, behind,
}
use skey.Engine.{
  Core, VietnameseEngine, ProcessResult, consumed, committed, ignored, is_composition_key,
  process_key, settle_key, recompose, strip_tone_keys, last_byte,
}

abbrev pub has_letter : ℕ → Bytes → Bool
has_letter c [] = false
has_letter c (d ∷ letters) = c == d || has_letter c letters

-- No key of a tone, small or capital.
abbrev pub untoned : Bytes → Bytes
untoned [] = []
untoned (c ∷ s) = if has_letter c (codes "sfrxjzSFRXJZ") then untoned s else c ∷ untoned s

-- A word up to its first vowel and with it, and what follows without the keys of tones.
abbrev pub undone : Bytes → Bytes
undone [] = []
undone (c ∷ s) = if has_letter c (codes "aeiouyAEIOUY") then c ∷ untoned s else c ∷ undone s

vowel_letter : (c : ℕ) → is_vowel c ≡ has_letter c (codes "aeiouyAEIOUY")
unfolding is_vowel to_lower_ascii
vowel_letter c = ground arith

tone_letter : (c : ℕ) → is_tone_key (to_lower_ascii c) ≡ has_letter c (codes "sfrxjzSFRXJZ")
unfolding is_tone_key to_lower_ascii
tone_letter c = ground arith

strip_behind : (v i : ℕ) (s : Bytes) → v < i → strip_tone_keys (some v) i s ≡ untoned s
unfolding strip_tone_keys
strip_behind v i [] h = refl
strip_behind v i (c ∷ s) h =
    rw (tone_letter c, strip_behind v (i + 1) s (omega (arith, h)))
      (at (has_letter c (codes "sfrxjzSFRXJZ")) (ltb v i) (ground (arith, h)))
  where
    at :
        (b k : Bool)
        → k ≡ true
        → (if b && k then untoned s else c ∷ untoned s) ≡ (if b then untoned s else c ∷ untoned s)
    at true k e = rw (e) refl
    at false k e = refl

first_not_behind : (i j : ℕ) (s : Bytes) → i ≤ j → behind i (first_vowel_from j s) ≡ false
unfolding first_vowel_from
first_not_behind i j [] h = refl
first_not_behind i j (c ∷ s) h =
    if_both (λ f. behind i f ≡ false) (is_vowel c) _ _ (λ _. ground (arith, h))
      (λ _. first_not_behind i (j + 1) s (omega (arith, h)))

strip-undone : (i : ℕ) (s : Bytes) → strip_tone_keys (first_vowel_from i s) i s ≡ undone s
unfolding strip_tone_keys first_vowel_from
strip-undone i [] = refl
strip-undone i (c ∷ s) =
    let letter = has_letter c (codes "aeiouyAEIOUY") in
    elim (Bool-cases (is_vowel c)) [
      | inl v ↦
          ap (λ f. strip_tone_keys f i (c ∷ s)) (if_true (is_vowel c) (some i) _ v)
          ∙ keeps (is_tone_key (to_lower_ascii c)) (ltb i i) _ _ (ground arith)
          ∙ ap (λ l. c ∷ l) (strip_behind i (i + 1) s (omega arith))
          ∙ sym (if_true letter _ _ (sym (vowel_letter c) ∙ v))
      | inr n ↦
          ap (λ f. strip_tone_keys f i (c ∷ s)) (if_false (is_vowel c) (some i) _ n)
          ∙ keeps (is_tone_key (to_lower_ascii c)) (behind i (first_vowel_from (i + 1) s)) _ _
              (first_not_behind i (i + 1) s (omega arith))
          ∙ ap (λ l. c ∷ l) (strip-undone (i + 1) s)
          ∙ sym (if_false letter _ _ (sym (vowel_letter c) ∙ n))
    ]
  where
    keeps : (b k : Bool) (x y : Bytes) → k ≡ false → (if b && k then x else c ∷ y) ≡ c ∷ y
    keeps true k x y e = rw (e) refl
    keeps false k x y e = refl

module _ (core : Core) where
  open core use {Handle}

  abbrev pub KeyEffect :
      VietnameseEngine Handle → ℕ → VietnameseEngine Handle × ProcessResult → Type 0
  KeyEffect e ch (f, ignored) = (is_composition_key core e ch ≡ false) × (f ≡ e)
  KeyEffect e ch (f, consumed) =
      (is_composition_key core e ch ≡ true)
      × (f.raw_input ≡ e.raw_input ++ ch ∷ [])
      × (f.committed ≡ e.committed)
      × (f.english_bypass ≡ e.english_bypass)
  KeyEffect e ch (f, committed) =
      (is_composition_key core e ch ≡ true)
      × (f.raw_input ≡ ch ∷ [])
      × (f.composed ≡ ch ∷ [])
      × (f.committed ≡ undone e.raw_input)
      × (f.english_bypass ≡ e.english_bypass)

  -- The conditions under which a key cancels the tone that the key before it set.
  pub record Undoes (e shown : VietnameseEngine Handle) (ch : ℕ) : Type 0 where
    pub tone : is_tone_key (to_lower_ascii ch) ≡ true
    pub transformed : e.composed ≢ e.raw_input
    pub typed : e.raw_input ≢ []
    pub unchanged : shown.composed ≡ e.composed
    pub repeated : to_lower_ascii ch ≡ to_lower_ascii (last_byte e.raw_input)

  settle_key-KeyEffect :
      (e f : VietnameseEngine Handle) (ch : ℕ)
      → is_composition_key core e ch ≡ true
      → f.raw_input ≡ e.raw_input ++ ch ∷ []
      → f.committed ≡ e.committed
      → f.english_bypass ≡ e.english_bypass
      → KeyEffect e ch (settle_key core f ch e.composed e.raw_input)
  unfolding settle_key find_first_vowel
  settle_key-KeyEffect e f ch k p q r = ground (arith, strip-undone 0 e.raw_input)

  -- The state that `processKey` recomposes.
  abbrev pub with_key : VietnameseEngine Handle → ℕ → VietnameseEngine Handle
  with_key e ch = record e { raw_input = e.raw_input ++ ch ∷ [] }

  module _ (e : VietnameseEngine Handle) (ch : ℕ) where
    pub process_key-ignored :
        is_composition_key core e ch ≡ false → process_key core e ch ≡ (e, ignored)
    unfolding process_key
    process_key-ignored n = ground arith

    pub process_key-bypassed :
        is_composition_key core e ch ≡ true
        → e.english_bypass ≡ true
        → process_key core e ch
          ≡ (record (with_key e ch) { composed = e.raw_input ++ ch ∷ [] }, consumed)
    unfolding process_key
    process_key-bypassed k b = ground arith

    pub process_key-settled :
        is_composition_key core e ch ≡ true
        → e.english_bypass ≡ false
        → process_key core e ch
          ≡ settle_key core (recompose core (with_key e ch)) ch e.composed e.raw_input
    unfolding process_key
    process_key-settled k b = ground arith

  recompose-keeps :
      (e : VietnameseEngine Handle)
      → ((recompose core e).raw_input ≡ e.raw_input)
        × ((recompose core e).committed ≡ e.committed)
        × ((recompose core e).english_bypass ≡ e.english_bypass)
  unfolding recompose
  recompose-keeps e = (refl, refl, refl)

  -- By the result of `processKey`: an ignored key is no composition key and changes nothing; a
  -- consumed key is appended to the raw input, and the committed text stays; a committed key
  -- becomes the whole raw input and the whole composition, and the committed text is replaced by
  -- the raw input before it, whose letters up to its first vowel are kept and behind that all but
  -- s, f, r, x, j and z in either case; without a vowel the whole of it is kept.
  pub process_key_effect :
      (e : VietnameseEngine Handle) (ch : ℕ) → KeyEffect e ch (process_key core e ch)
  process_key_effect e ch = elim (Bool-cases (is_composition_key core e ch)) [
    | inr n ↦ subst (KeyEffect e ch) (sym (process_key-ignored e ch n)) (n, refl)
    | inl k ↦ elim (Bool-cases e.english_bypass) [
      | inl b ↦ subst (KeyEffect e ch) (sym (process_key-bypassed e ch k b)) (k, refl, refl, refl)
      | inr b ↦
          let (r, c, y) = recompose-keeps (with_key e ch) in
          subst (KeyEffect e ch) (sym (process_key-settled e ch k b))
            (settle_key-KeyEffect e (recompose core (with_key e ch)) ch k r c y)
    ]
  ]

  settle_key-committed_iff :
      (e f : VietnameseEngine Handle) (ch : ℕ)
      → ((settle_key core f ch e.composed e.raw_input).1 ≡ committed) ↔ Undoes e f ch
  unfolding settle_key
  settle_key-committed_iff e f ch = (
    λ h. ground (arith, bytes_eq_iff e.composed e.raw_input, bytes_eq_iff e.composed f.composed),
    λ u. ground (
      arith,
      u.tone,
      u.transformed,
      u.typed,
      u.unchanged,
      u.repeated,
      bytes_eq_iff e.composed e.raw_input,
      bytes_eq_iff e.composed f.composed,
    ),
  )

  -- A key that is processed outside the bypass commits exactly when it is a tone key, the word is
  -- transformed and not empty, the key before it is the same letter, and the engine shows the same
  -- text with the key as without it.
  pub committed_iff :
      (e : VietnameseEngine Handle) (ch : ℕ)
      → is_composition_key core e ch ≡ true
      → e.english_bypass ≡ false
      → ((process_key core e ch).1 ≡ committed) ↔ Undoes e (recompose core (with_key e ch)) ch
  committed_iff e ch k b =
      rw (process_key-settled e ch k b)
        (settle_key-committed_iff e (recompose core (with_key e ch)) ch)
