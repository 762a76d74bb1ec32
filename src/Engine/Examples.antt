-- ===== src/Engine/Examples.antt =====
-- The wrapper over a small engine that composes one word, and the theorems about it.
use skey.Base.{
  ℕ, ◌≡◌, ◌↔◌, refl, true, false, [], ◌∷◌, some, codes, bytes_eq, c_str, if◌then◌else◌, ◌||◌,
}
use skey.Engine.Letters.{to_lower_ascii, is_tone_key, is_vowel, find_first_vowel}
use skey.Engine.{
  Core, Methods, telex, modern, VietnameseEngine, consumed, committed, init, process_key, backspace,
  recompose, translate_bracket_uo, translate_brackets, has_byte, strip_tone_keys, last_byte,
  settle_key, is_composition_key,
}
use skey.Engine.Keys.{KeyEffect, process_key_effect, Undoes, with_key, committed_iff}
use skey.Engine.Session.{key, backspaced, IsClean, calls, session-IsClean}
use skey.Engine.Backspace.{backspace-process_key}

-- "as" and "ass" are shown as á; all else as it is typed.
abbrev demo : Core
demo = record {
  Handle = ℕ;
  new = λ m. m;
  engine_set_method = λ h m. m;
  engine_set_tone_style = λ h b. h;
  engine_set_free_marking = λ h b. h;
  engine_set_auto_restore = λ h b. h;
  engine_set_dict = λ h b. h;
  engine_set_short_w = λ h b. h;
  engine_set_bracket_uo = λ h b. h;
  engine_add_word = λ h w. h;
  engine_clear_words = λ h. h;
  transform = λ h s. (
    some (if bytes_eq s (codes "as") || bytes_eq s (codes "ass") then 0xC3 ∷ (0xA1 ∷ []) else s),
    h,
  );
}

abbrev methods : Methods
methods = record { method_telex = 0; method_vni = 1 }

abbrev typed : VietnameseEngine ℕ
typed = record {
  handle = 0;
  method = telex;
  tone_style = modern;
  free_marking = false;
  auto_restore = true;
  dict = false;
  short_w = false;
  bracket_uo = true;
  raw_input = codes "as";
  composed = 0xC3 ∷ (0xA1 ∷ []);
  english_bypass = false;
  committed = [];
}

-- The second "s" cancels the tone: "a" is committed, and "s" starts the next word.
cancels : process_key demo typed b's' ≡ (
  record typed { raw_input = codes "s"; composed = codes "s"; committed = codes "a" },
  committed,
)
unfolding process_key recompose settle_key is_composition_key to_lower_ascii is_tone_key is_vowel
    find_first_vowel strip_tone_keys bytes_eq c_str has_byte last_byte
cancels = refl

consumes : (process_key demo typed b'n').1 ≡ consumed
unfolding process_key recompose settle_key is_composition_key to_lower_ascii is_tone_key bytes_eq
    c_str has_byte
consumes = refl

is_key : is_composition_key demo typed b's' ≡ true
unfolding is_composition_key
is_key = refl

process_key_effect_example : KeyEffect demo typed b's' (process_key demo typed b's')
process_key_effect_example = process_key_effect demo typed b's'

committed_iff_example :
    ((process_key demo typed b's').1 ≡ committed)
    ↔ Undoes demo typed (recompose demo (with_key demo typed b's')) b's'
committed_iff_example = committed_iff demo typed b's' is_key refl

session-IsClean_example :
    IsClean
      (calls demo methods (init demo methods) (key b'a' ∷ key b's' ∷ key b's' ∷ backspaced ∷ []))
session-IsClean_example =
    session-IsClean demo methods (key b'a' ∷ key b's' ∷ key b's' ∷ backspaced ∷ [])

vowel_a : is_vowel b'a' ≡ true
unfolding is_vowel to_lower_ascii
vowel_a = refl

no_vowel_x : is_vowel b'x' ≡ false
unfolding is_vowel to_lower_ascii
no_vowel_x = refl

backspace-process_key_example :
    (backspace demo (process_key demo typed b'n').0).raw_input ≡ codes "as"
backspace-process_key_example = backspace-process_key demo typed b'n' consumes

abbrev bracketed : VietnameseEngine ℕ
bracketed = record typed { raw_input = codes "t[" }

bracket_example : translate_bracket_uo demo bracketed ≡ codes "tow"
unfolding translate_bracket_uo translate_brackets has_byte
bracket_example = refl
