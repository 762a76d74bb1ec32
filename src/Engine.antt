-- ===== src/Engine.antt =====
-- src/vietnamese.h, vietnamese.cpp, viet_recompose.cpp, viet_undo.cpp and viet_restore.cpp: the wrapper
-- that keeps the composition of one word. The Rust engine behind the C interface is not in this
-- repository: it is the parameter `Core`, on which nothing is assumed.
pub mod Letters
pub mod Session
pub mod Keys
pub mod Undo
pub mod Backspace
pub mod Brackets
pub mod Reset
mod Examples
use skey.Base.{
  ℕ, zero, suc, ◌+◌, ◌-◌, Bool, true, false, not, ◌&&◌, ◌||◌, List, [], ◌∷◌, ◌++◌, Option, none,
  some, leb, ltb, ◌==◌, if◌then◌else◌, Bytes, bytes_eq, is_empty, c_str, is_continuation, length,
  take, get_elem?,
}
use Letters.{to_lower_ascii, is_tone_key, find_first_vowel, behind}

-- The C interface of skey-engine. A null result of `transform` is `none`.
pub record Core : Type 1 where
  pub Handle : Type 0
  pub new : ℕ → Handle
  pub engine_set_method : Handle → ℕ → Handle
  pub engine_set_tone_style : Handle → ℕ → Handle
  pub engine_set_free_marking : Handle → ℕ → Handle
  pub engine_set_auto_restore : Handle → ℕ → Handle
  pub engine_set_dict : Handle → ℕ → Handle
  pub engine_set_short_w : Handle → ℕ → Handle
  pub engine_set_bracket_uo : Handle → ℕ → Handle
  pub engine_add_word : Handle → Bytes → Handle
  pub engine_clear_words : Handle → Handle
  pub transform : Handle → Bytes → Option Bytes × Handle

-- SKEY_METHOD_TELEX and SKEY_METHOD_VNI, which the header of that engine numbers.
pub record Methods : Type 0 where
  pub method_telex : ℕ
  pub method_vni : ℕ

pub data InputMethod : Type 0 where
  telex vni : InputMethod

pub data ToneStyle : Type 0 where
  modern traditional : ToneStyle

pub data ProcessResult : Type 0 where
  consumed committed ignored : ProcessResult

pub record VietnameseEngine (Handle : Type 0) : Type 0 where
  pub handle : Handle
  pub method : InputMethod
  pub tone_style : ToneStyle
  pub free_marking : Bool
  pub auto_restore : Bool
  pub dict : Bool
  pub short_w : Bool
  pub bracket_uo : Bool
  pub raw_input : Bytes
  pub composed : Bytes
  pub english_bypass : Bool
  pub committed : Bytes

abbrev flag : Bool → ℕ
flag true = 1
flag false = 0

abbrev pub is_telex : InputMethod → Bool
is_telex telex = true
is_telex vni = false

-- The last byte of a string, which is asked only of one that is not empty.
pub last_byte : Bytes → ℕ
last_byte [] = 0
last_byte (c ∷ []) = c
last_byte (c ∷ (d ∷ s)) = last_byte (d ∷ s)

pub translate_brackets : Bytes → Bytes
translate_brackets [] = []
translate_brackets (c ∷ s) =
    let rest = translate_brackets s in
    if c == b'[' then b'o' ∷ (b'w' ∷ rest) else if c == b']' then b'u' ∷ (b'w' ∷ rest) else c ∷ rest

pub has_byte : ℕ → Bytes → Bool
has_byte b [] = false
has_byte b (c ∷ s) = c == b || has_byte b s

-- The loop of `tryToneKeyUndo` that builds the base, from index `i`.
pub strip_tone_keys : Option ℕ → ℕ → Bytes → Bytes
strip_tone_keys first i [] = []
strip_tone_keys first i (c ∷ s) =
    let rest = strip_tone_keys first (i + 1) s in
    if is_tone_key (to_lower_ascii c) && behind i first then rest else c ∷ rest

-- The `while` loop of `backspace`: where the last UTF-8 character begins.
unfoldable pub last_char_start : Bytes → ℕ → ℕ
last_char_start s zero = 0
last_char_start s (suc last) = elim (get_elem? s (suc last)) [
  | none ↦ suc last
  | some b ↦ if is_continuation b then last_char_start s last else suc last
]

module _ (core : Core) where
  open core use {
    Handle, new, engine_set_method, engine_set_tone_style, engine_set_free_marking,
    engine_set_auto_restore, engine_set_dict, engine_set_short_w, engine_set_bracket_uo,
    engine_add_word, engine_clear_words, transform,
  }

  pub init : Methods → VietnameseEngine Handle
  init m = record {
    handle = new m.method_telex;
    method = telex;
    tone_style = modern;
    free_marking = false;
    auto_restore = true;
    dict = false;
    short_w = false;
    bracket_uo = false;
    raw_input = [];
    composed = [];
    english_bypass = false;
    committed = [];
  }

  pub set_method : Methods → VietnameseEngine Handle → InputMethod → VietnameseEngine Handle
  set_method m e method = record e {
    method = method;
    handle = engine_set_method e.handle (if is_telex method then m.method_telex else m.method_vni);
  }

  pub set_tone_style : VietnameseEngine Handle → ToneStyle → VietnameseEngine Handle
  set_tone_style e style = record e {
    tone_style = style;
    handle = engine_set_tone_style e.handle (elim style [ modern ↦ 1 | traditional ↦ 0 ]);
  }

  pub set_free_marking : VietnameseEngine Handle → Bool → VietnameseEngine Handle
  set_free_marking e free = record e {
    free_marking = free;
    handle = engine_set_free_marking e.handle (flag free);
  }

  pub set_auto_restore : VietnameseEngine Handle → Bool → VietnameseEngine Handle
  set_auto_restore e restore = record e {
    auto_restore = restore;
    handle = engine_set_auto_restore e.handle (flag restore);
  }

  pub set_dict : VietnameseEngine Handle → Bool → VietnameseEngine Handle
  set_dict e on = record e { dict = on; handle = engine_set_dict e.handle (flag on) }

  pub set_short_w : VietnameseEngine Handle → Bool → VietnameseEngine Handle
  set_short_w e on = record e { short_w = on; handle = engine_set_short_w e.handle (flag on) }

  pub set_bracket_uo : VietnameseEngine Handle → Bool → VietnameseEngine Handle
  set_bracket_uo e on = record e {
    bracket_uo = on;
    handle = engine_set_bracket_uo e.handle (flag on);
  }

  pub add_word : VietnameseEngine Handle → Bytes → VietnameseEngine Handle
  add_word e word = record e { handle = engine_add_word e.handle (c_str word) }

  pub clear_words : VietnameseEngine Handle → VietnameseEngine Handle
  clear_words e = record e { handle = engine_clear_words e.handle }

  unfoldable pub translate_bracket_uo : VietnameseEngine Handle → Bytes
  translate_bracket_uo e =
      if e.bracket_uo
        && is_telex e.method
        && (has_byte b'[' e.raw_input || has_byte b']' e.raw_input)
      then translate_brackets e.raw_input
      else e.raw_input

  -- `transform` may change the engine behind the handle.
  unfoldable pub run_skey_engine : VietnameseEngine Handle → Bytes → VietnameseEngine Handle
  run_skey_engine e input =
      let (result, handle') = transform e.handle (c_str input) in
      record e { handle = handle'; composed = elim result [ none ↦ e.raw_input | some s ↦ s ] }

  unfoldable pub recompose : VietnameseEngine Handle → VietnameseEngine Handle
  unfolding translate_bracket_uo run_skey_engine
  recompose e = run_skey_engine e (translate_bracket_uo e)

  unfoldable pub is_composition_key : VietnameseEngine Handle → ℕ → Bool
  is_composition_key e ch =
      let is_letter = (leb b'a' ch && leb ch b'z') || (leb b'A' ch && leb ch b'Z') in
      let is_digit = leb b'0' ch && leb ch b'9' in
      let bracket_active = e.bracket_uo && is_telex e.method && (ch == b'[' || ch == b']') in
      if is_letter || bracket_active
      then true
      else not (is_telex e.method) && is_digit && not (is_empty e.raw_input)

  -- The Boolean tells the caller that the key is consumed.
  unfoldable pub process_english_bypass : VietnameseEngine Handle → VietnameseEngine Handle × Bool
  process_english_bypass e =
      if not e.english_bypass then (e, false) else (record e { composed = e.raw_input }, true)

  -- Called by nothing: the step that called it is disabled.
  pub enter_english_bypass : VietnameseEngine Handle → VietnameseEngine Handle
  enter_english_bypass e = record e { english_bypass = true }

  pub reset_composition_state : VietnameseEngine Handle → VietnameseEngine Handle
  reset_composition_state e = record e { raw_input = []; composed = [] }

  -- The source disabled this step.
  unfoldable pub try_undo_transform :
      VietnameseEngine Handle → ℕ → Bytes → Bytes → VietnameseEngine Handle × Bool
  try_undo_transform e ch old_composed old_raw_input = (e, false)

  unfoldable pub try_tone_key_undo :
      VietnameseEngine Handle → ℕ → Bytes → Bytes → VietnameseEngine Handle × Bool
  try_tone_key_undo e ch old_composed old_raw_input =
      let cl = to_lower_ascii ch in
      if not (is_tone_key cl)
        || bytes_eq old_composed old_raw_input
        || is_empty old_raw_input
        || not (bytes_eq old_composed e.composed)
        || not (cl == to_lower_ascii (last_byte old_raw_input))
      then (e, false)
      else (
        record e {
          committed = strip_tone_keys (find_first_vowel old_raw_input) 0 old_raw_input;
          raw_input = ch ∷ [];
          composed = ch ∷ [];
        },
        true,
      )

  -- `processKey` behind `recompose`.
  unfoldable pub settle_key :
      VietnameseEngine Handle → ℕ → Bytes → Bytes → VietnameseEngine Handle × ProcessResult
  unfolding try_undo_transform try_tone_key_undo
  settle_key e ch old_composed old_raw_input =
      let (e1, undone) = try_undo_transform e ch old_composed old_raw_input in
      let (e2, reverted) = try_tone_key_undo e1 ch old_composed old_raw_input in
      if undone then (e1, committed) else if reverted then (e2, committed) else (e2, consumed)

  unfoldable pub process_key : VietnameseEngine Handle → ℕ → VietnameseEngine Handle × ProcessResult
  unfolding process_english_bypass
  process_key e ch =
      let (e', bypassed) =
        process_english_bypass (record e { raw_input = e.raw_input ++ ch ∷ [] }) in
      if not (is_composition_key e ch)
      then (e, ignored)
      else if bypassed
      then (e', consumed)
      else settle_key (recompose e') ch e.composed e.raw_input

  pub backspace : VietnameseEngine Handle → VietnameseEngine Handle
  backspace e =
      let raw = take (last_char_start e.raw_input (length e.raw_input - 1)) e.raw_input in
      if is_empty e.raw_input
      then e
      else if is_empty raw
      then record e { raw_input = raw; composed = [] }
      else recompose (record e { raw_input = raw })

  pub set_raw_input : VietnameseEngine Handle → Bytes → VietnameseEngine Handle
  set_raw_input e raw =
      if is_empty raw
      then record e { raw_input = raw; composed = [] }
      else recompose (record e { raw_input = raw })

  unfoldable pub reset : VietnameseEngine Handle → VietnameseEngine Handle
  reset e = record e { raw_input = []; composed = []; committed = []; english_bypass = false }

  pub clear_committed : VietnameseEngine Handle → VietnameseEngine Handle
  clear_committed e = record e { committed = [] }

  pub clear_english_bypass : VietnameseEngine Handle → VietnameseEngine Handle
  clear_english_bypass e = record e { english_bypass = false }

  -- The restore functions do nothing: the engine behind the handle restores.
  pub should_restore_to_raw : VietnameseEngine Handle → Bool
  should_restore_to_raw e = false

  pub restore_before_commit : VietnameseEngine Handle → VietnameseEngine Handle
  restore_before_commit e = e
