-- ===== src/Engine/Brackets.antt =====
-- The bracket keys of the Telex layout.
use skey.Base.{
  ℕ, ◌+◌, ◌∷◌, [], ◌≡◌, refl, true, false, Bytes, arith, length, if◌then◌else◌, ◌==◌, ◌||◌,
}
use skey.Engine.{
  Core, VietnameseEngine, is_telex, translate_bracket_uo, translate_brackets, has_byte,
}

abbrev count_brackets : Bytes → ℕ
count_brackets [] = 0
count_brackets (c ∷ s) = if c == b'[' || c == b']' then count_brackets s + 1 else count_brackets s

translated-lacks :
    (s : Bytes)
    → (has_byte b'[' (translate_brackets s) ≡ false)
      × (has_byte b']' (translate_brackets s) ≡ false)
unfolding translate_brackets has_byte
translated-lacks [] = (refl, refl)
translated-lacks (c ∷ s) = ground (arith, translated-lacks s)

length-translated : (s : Bytes) → length (translate_brackets s) ≡ length s + count_brackets s
unfolding translate_brackets
length-translated [] = omega arith
length-translated (c ∷ s) = ground (arith, length-translated s)

lacks-count : (s : Bytes) → has_byte b'[' s ≡ false → has_byte b']' s ≡ false → count_brackets s ≡ 0
unfolding has_byte
lacks-count [] h k = refl
lacks-count (c ∷ s) h k = ground (arith, lacks-count s)

module _ (core : Core) (e : VietnameseEngine core.Handle) where
  -- With the option on in Telex, the engine's input has no bracket, and one byte more for each
  -- bracket of the raw input; with the option off, or in VNI, it is the raw input.
  translate_bracket_uo_lem :
      (e.bracket_uo ≡ true
        → is_telex e.method ≡ true
        → (has_byte b'[' (translate_bracket_uo core e) ≡ false)
          × (has_byte b']' (translate_bracket_uo core e) ≡ false)
          × (length (translate_bracket_uo core e)
              ≡ length e.raw_input + count_brackets e.raw_input))
      × (e.bracket_uo ≡ false → translate_bracket_uo core e ≡ e.raw_input)
      × (is_telex e.method ≡ false → translate_bracket_uo core e ≡ e.raw_input)
  unfolding translate_bracket_uo
  translate_bracket_uo_lem = (
    λ on t. ground (
      arith,
      translated-lacks e.raw_input,
      length-translated e.raw_input,
      lacks-count e.raw_input,
    ),
    λ off. ground arith,
    λ v. ground arith,
  )
