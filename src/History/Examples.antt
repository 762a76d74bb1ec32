-- ===== src/History/Examples.antt =====
-- The history at concrete inputs.
use skey.Base.{
  ℕ, ◌≤◌, ◌≡◌, refl, ap, true, false, none, some, List, [], ◌∷◌, codes, length, is_empty, c_str,
  pos,
}
use skey.Engine.{
  Core, VietnameseEngine, telex, modern, is_composition_key, process_key, settle_key, recompose,
  reset, clear_committed, run_skey_engine, translate_bracket_uo, process_english_bypass,
  try_undo_transform, try_tone_key_undo,
}
use skey.Engine.Letters.{to_lower_ascii, is_tone_key}
use skey.History.{WordHistory, back, replay, reclaim_last_word, known_len}
use skey.History.Stack.{current, saved-back}
use skey.History.Replay.{boundary, reclaim-boundary}
use skey.History.Calls.{Call, save, reclaim, restore, call, calls, restore-reclaim}

-- A foreign engine that shows what is typed.
abbrev echo : Core
echo = record {
  Handle = ℕ;
  new = λ m. 0;
  engine_set_method = λ h m. h;
  engine_set_tone_style = λ h n. h;
  engine_set_free_marking = λ h n. h;
  engine_set_auto_restore = λ h n. h;
  engine_set_dict = λ h n. h;
  engine_set_short_w = λ h n. h;
  engine_set_bracket_uo = λ h n. h;
  engine_add_word = λ h w. h;
  engine_clear_words = λ h. h;
  transform = λ h s. (some s, h);
}

abbrev blank : VietnameseEngine ℕ
blank = record {
  handle = 0;
  method = telex;
  tone_style = modern;
  free_marking = false;
  auto_restore = true;
  dict = false;
  short_w = false;
  bracket_uo = false;
  raw_input = [];
  composed = [];
  english_bypass = false;
  committed = [];
}

abbrev after_word : WordHistory ℕ
after_word = record {
  viet = replay echo blank (codes "an");
  committed_len = pos 2;
  retro_history = [];
  reclaimed_word = none;
  last_raw_input = [];
  last_composed = [];
  last_committed_len = pos 0;
  reclaim_ready = false;
  sep_already_deleted = false;
}

typed_raw : (replay echo blank (codes "an")).raw_input ≡ codes "an"
unfolding replay process_key settle_key recompose run_skey_engine translate_bracket_uo
    process_english_bypass try_undo_transform try_tone_key_undo is_composition_key is_tone_key
    to_lower_ascii
typed_raw = refl

typed_text : is_empty (replay echo blank (codes "an")).composed ≡ false
unfolding replay process_key settle_key recompose run_skey_engine translate_bracket_uo
    process_english_bypass try_undo_transform try_tone_key_undo is_composition_key c_str is_tone_key
    to_lower_ascii
typed_text = refl

reset-blank : reset echo blank ≡ blank
unfolding reset
reset-blank = refl

reclaim-boundary_example :
    ((reclaim_last_word echo length (boundary echo after_word)).1 ≡ true)
    × ((reclaim_last_word echo length (boundary echo after_word)).0.viet
        ≡ clear_committed echo after_word.viet)
    × ((reclaim_last_word echo length (boundary echo after_word)).0.committed_len
        ≡ known_len length (current after_word))
reclaim-boundary_example =
    reclaim-boundary echo length blank (codes "an") after_word (λ h s. refl) reset-blank refl
      typed_raw refl typed_text

-- "an" is saved.
abbrev once : List (Call ℕ)
once = save true true ∷ []

saved_once : back (calls echo length after_word once).retro_history ≡ some (current after_word)
saved_once = unfold calls call in saved-back after_word (ap is_empty typed_raw) typed_text

restore-reclaim_example :
    (length (calls echo length after_word once).retro_history ≤ 16)
    × ((call echo length
          (call echo length (calls echo length after_word once) reclaim)
          restore).retro_history
        ≡ (calls echo length after_word once).retro_history)
    × ((call echo length
          (call echo length (calls echo length after_word once) reclaim)
          restore).reclaimed_word
        ≡ none)
restore-reclaim_example =
    restore-reclaim echo length after_word once (current after_word) refl saved_once
