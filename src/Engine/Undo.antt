-- ===== src/Engine/Undo.antt =====
-- The base that a cancelled tone commits.
use skey.Base.{
  ℕ, ◌+◌, ◌<◌, true, false, ◌≡◌, refl, [], ◌∷◌, ◌++◌, none, some, Bytes, arith, All, if◌then◌else◌,
  length,
}
use skey.Engine.Letters.{to_lower_ascii, is_vowel, is_tone_key, first_vowel_from, find_first_vowel}
use skey.Engine.{strip_tone_keys}

-- The text without its tone keys.
abbrev pub without_tone_keys : Bytes → Bytes
without_tone_keys [] = []
without_tone_keys (c ∷ s) = if is_tone_key c then without_tone_keys s else c ∷ without_tone_keys s

abbrev pub NoVowel : Bytes → Type 0
NoVowel = All (λ c. is_vowel c ≡ false)

lower_idem : (c : ℕ) → is_tone_key (to_lower_ascii c) ≡ is_tone_key c
unfolding is_tone_key to_lower_ascii
lower_idem c = ground arith

vowel_no_tone : (c : ℕ) → is_vowel c ≡ true → is_tone_key c ≡ false
unfolding is_tone_key is_vowel to_lower_ascii
vowel_no_tone c h = ground arith

first_vowel_none : (i : ℕ) (s : Bytes) → NoVowel s → first_vowel_from i s ≡ none
unfolding first_vowel_from
first_vowel_none i [] h = refl
first_vowel_none i (c ∷ s) h = ground (arith, first_vowel_none (i + 1) s h.1)

first_vowel_at :
    (i : ℕ) (pre post : Bytes) (v : ℕ)
    → NoVowel pre
    → is_vowel v ≡ true
    → first_vowel_from i (pre ++ v ∷ post) ≡ some (i + length pre)
unfolding first_vowel_from
first_vowel_at i [] post v h k = ground arith
first_vowel_at i (c ∷ pre) post v h k = ground (arith, first_vowel_at (i + 1) pre post v h.1 k)

strip_none : (i : ℕ) (s : Bytes) → strip_tone_keys none i s ≡ s
unfolding strip_tone_keys
strip_none i [] = refl
strip_none i (c ∷ s) = ground (arith, strip_none (i + 1) s)

strip_behind : (i v : ℕ) (s : Bytes) → v < i → strip_tone_keys (some v) i s ≡ without_tone_keys s
unfolding strip_tone_keys
strip_behind i v [] h = refl
strip_behind i v (c ∷ s) h = ground (arith, lower_idem c, strip_behind (i + 1) v s (omega arith))

strip_upto :
    (i v : ℕ) (pre : Bytes) (c : ℕ) (post : Bytes)
    → i + length pre ≡ v
    → is_vowel c ≡ true
    → strip_tone_keys (some v) i (pre ++ c ∷ post) ≡ pre ++ c ∷ without_tone_keys post
unfolding strip_tone_keys
strip_upto i v [] c post h k =
    ground (arith, lower_idem c, vowel_no_tone c k, strip_behind (i + 1) v post (omega arith))
strip_upto i v (d ∷ pre) c post h k =
    ground (arith, strip_upto (i + 1) v pre c post (omega arith) k)

-- The base that the undo commits keeps everything up to the first vowel and, behind it, all but
-- the tone keys; a word without a vowel is kept whole.
clean_base :
    (pre post : Bytes) (v : ℕ)
    → NoVowel pre
    → is_vowel v ≡ true
    → (strip_tone_keys (find_first_vowel (pre ++ v ∷ post)) 0 (pre ++ v ∷ post)
        ≡ pre ++ v ∷ without_tone_keys post)
      × (strip_tone_keys (find_first_vowel pre) 0 pre ≡ pre)
unfolding find_first_vowel
clean_base pre post v h k = (
  rw (first_vowel_at 0 pre post v h k) (strip_upto 0 (0 + length pre) pre v post refl k),
  rw (first_vowel_none 0 pre h) (strip_none 0 pre),
)
