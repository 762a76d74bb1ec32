-- ===== src/Engine/Reset.antt =====
-- What a reset leaves of the keys before it.
use skey.Base.{ℕ, ◌≡◌, ◌∙◌, refl, ap, arith, Bool-cases, inl, inr, Bytes, c_str}
use skey.Engine.{
  Core, VietnameseEngine, is_composition_key, process_key, settle_key, recompose, reset,
  run_skey_engine, translate_bracket_uo,
}
use skey.Engine.Keys.{process_key-ignored, process_key-bypassed, process_key-settled, with_key}

module _ (core : Core) where
  open core use {Handle, transform}

  -- A transformation that keeps nothing between two calls.
  abbrev pub Steady : Type 0
  Steady = (h : Handle) (s : Bytes) → (transform h s).1 ≡ h

  reset-recompose :
      Steady → (e : VietnameseEngine Handle) → reset core (recompose core e) ≡ reset core e
  unfolding reset recompose run_skey_engine
  reset-recompose steady e =
      ap (λ (h : Handle). reset core (record e { handle = h }))
        (steady e.handle (c_str (translate_bracket_uo core e)))

  reset-settle_key :
      (f : VietnameseEngine Handle) (ch : ℕ) (composed raw : Bytes)
      → reset core (settle_key core f ch composed raw).0 ≡ reset core f
  unfolding reset settle_key
  reset-settle_key f ch composed raw = ground arith

  pub reset-process_key :
      Steady
      → (e : VietnameseEngine Handle) (ch : ℕ) → reset core (process_key core e ch).0 ≡ reset core e
  reset-process_key steady e ch = elim (Bool-cases (is_composition_key core e ch)) [
    | inr n ↦ ap (λ r. reset core r.0) (process_key-ignored core e ch n)
    | inl k ↦ elim (Bool-cases e.english_bypass) [
      | inl b ↦
          ap (λ r. reset core r.0) (process_key-bypassed core e ch k b) ∙ (unfold reset in refl)
      | inr b ↦
          ap (λ r. reset core r.0) (process_key-settled core e ch k b)
          ∙ reset-settle_key (recompose core (with_key core e ch)) ch e.composed e.raw_input
          ∙ reset-recompose steady (with_key core e ch)
          ∙ (unfold reset in refl)
    ]
  ]
