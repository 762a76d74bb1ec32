-- ===== src/Engine/Session.antt =====
-- Any sequence of public calls on a new engine.
use skey.Base.{
  ℕ, Bool, false, ◌≡◌, ◌≢◌, refl, sym, subst, ◌∙◌, List, [], ◌∷◌, ◌++◌, Bytes, arith, is_empty,
  Bool-cases, inl, inr, ◌⊎◌, take, length, ◌-◌,
}
use skey.Engine.{
  Core, Methods, InputMethod, ToneStyle, VietnameseEngine, init, set_method, set_tone_style,
  set_free_marking, set_auto_restore, set_dict, set_short_w, set_bracket_uo, add_word, clear_words,
  process_key, backspace, set_raw_input, reset, clear_committed, clear_english_bypass,
  restore_before_commit, last_char_start, recompose, ProcessResult, ignored, consumed, committed,
}
use skey.Engine.Keys.{KeyEffect, process_key_effect}

pub data Call : Type 0 where
  method_set : InputMethod → Call
  tone_style_set : ToneStyle → Call
  free_marking_set auto_restore_set dict_set short_w_set bracket_uo_set : Bool → Call
  word_added : Bytes → Call
  words_cleared : Call
  key : ℕ → Call
  backspaced : Call
  raw_input_set : Bytes → Call
  resets clears_committed clears_bypass restores : Call

module _ (core : Core) (m : Methods) where
  open core use {Handle}

  pub call : VietnameseEngine Handle → Call → VietnameseEngine Handle
  call e (method_set method) = set_method core m e method
  call e (tone_style_set style) = set_tone_style core e style
  call e (free_marking_set on) = set_free_marking core e on
  call e (auto_restore_set on) = set_auto_restore core e on
  call e (dict_set on) = set_dict core e on
  call e (short_w_set on) = set_short_w core e on
  call e (bracket_uo_set on) = set_bracket_uo core e on
  call e (word_added word) = add_word core e word
  call e words_cleared = clear_words core e
  call e (key ch) = (process_key core e ch).0
  call e backspaced = backspace core e
  call e (raw_input_set raw) = set_raw_input core e raw
  call e resets = reset core e
  call e clears_committed = clear_committed core e
  call e clears_bypass = clear_english_bypass core e
  call e restores = restore_before_commit core e

  pub calls : VietnameseEngine Handle → List Call → VietnameseEngine Handle
  calls e [] = e
  calls e (c ∷ cs) = calls (call e c) cs

-- The bypass is off, and an engine with no raw input shows nothing.
pub record IsClean {H : Type 0} (e : VietnameseEngine H) : Type 0 where
  pub no_bypass : e.english_bypass ≡ false
  pub nothing_shown : e.raw_input ≡ [] → e.composed ≡ []

module _ (core : Core) (m : Methods) where
  open core use {Handle}

  append-ne-nil : (s : Bytes) (ch : ℕ) → s ++ ch ∷ [] ≢ []
  append-ne-nil [] ch h = cc
  append-ne-nil (c ∷ s) ch h = cc

  KeyEffect-IsClean :
      (e f : VietnameseEngine Handle) (ch : ℕ) (r : ProcessResult)
      → KeyEffect core e ch (f, r)
      → IsClean e
      → IsClean f
  KeyEffect-IsClean e f ch ignored (k, same) h = subst IsClean (sym same) h
  KeyEffect-IsClean e f ch consumed (k, raw, c, b) h = record {
    no_bypass = b ∙ h.no_bypass;
    nothing_shown = λ z. absurd (append-ne-nil e.raw_input ch (sym raw ∙ z));
  }
  KeyEffect-IsClean e f ch committed (k, raw, c, t, b) h = record {
    no_bypass = b ∙ h.no_bypass;
    nothing_shown = λ z. cc;
  }

  set_raw_input-IsClean :
      (e : VietnameseEngine Handle) (raw : Bytes) → IsClean e → IsClean (set_raw_input core e raw)
  unfolding set_raw_input recompose
  set_raw_input-IsClean e [] h = record { no_bypass = h.no_bypass; nothing_shown = λ z. refl }
  set_raw_input-IsClean e (c ∷ raw) h = record { no_bypass = h.no_bypass; nothing_shown = λ z. cc }

  backspace-as_set :
      (e : VietnameseEngine Handle)
      → (backspace core e ≡ e) ⊎ ((raw : Bytes) × (backspace core e ≡ set_raw_input core e raw))
  unfolding backspace set_raw_input
  backspace-as_set e = elim (Bool-cases (is_empty e.raw_input)) [
    | inl z ↦ inl (ground arith)
    | inr n ↦
        inr (take (last_char_start e.raw_input (length e.raw_input - 1)) e.raw_input, ground arith)
  ]

  backspace-IsClean : (e : VietnameseEngine Handle) → IsClean e → IsClean (backspace core e)
  backspace-IsClean e h = elim (backspace-as_set e) [
    | inl same ↦ rw same h
    | inr (raw, set) ↦ rw set (set_raw_input-IsClean e raw h)
  ]

  call-IsClean : (e : VietnameseEngine Handle) (c : Call) → IsClean e → IsClean (call core m e c)
  unfolding call set_method set_tone_style set_free_marking set_auto_restore set_dict set_short_w
      set_bracket_uo add_word clear_words clear_committed restore_before_commit
  call-IsClean e (key ch) h =
      KeyEffect-IsClean e (process_key core e ch).0 ch (process_key core e ch).1
        (process_key_effect core e ch) h
  call-IsClean e backspaced h = backspace-IsClean e h
  call-IsClean e (raw_input_set raw) h = set_raw_input-IsClean e raw h
  call-IsClean e resets h = unfold reset in record { no_bypass = refl; nothing_shown = λ z. refl }
  call-IsClean e clears_bypass h =
      unfold clear_english_bypass in record { no_bypass = refl; nothing_shown = h.nothing_shown }
  call-IsClean e _ h = record { no_bypass = h.no_bypass; nothing_shown = h.nothing_shown }

  calls-IsClean :
      (e : VietnameseEngine Handle) (cs : List Call) → IsClean e → IsClean (calls core m e cs)
  unfolding calls
  calls-IsClean e [] h = h
  calls-IsClean e (c ∷ cs) h = calls-IsClean (call core m e c) cs (call-IsClean e c h)

  init-IsClean : IsClean (init core m)
  unfolding init
  init-IsClean = record { no_bypass = refl; nothing_shown = λ z. refl }

  -- Whatever public calls are made on a new engine, the English bypass stays off, and while the raw
  -- input is empty nothing is composed.
  pub session-IsClean : (cs : List Call) → IsClean (calls core m (init core m) cs)
  session-IsClean cs = calls-IsClean (init core m) cs init-IsClean
