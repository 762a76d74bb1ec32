-- ===== src/History/Replay.antt =====
-- A word that is taken back is composed again as it was.
use skey.Base.{ℕ, ◌≡◌, ◌∙◌, refl, sym, ap, true, false, some, [], ◌∷◌, Bytes, is_empty, pos}
use skey.Engine.{Core, VietnameseEngine, process_key, reset, clear_committed}
use skey.Engine.Reset.{Steady, reset-process_key}
use skey.History.{
  RetroWord, WordHistory, back, pop_back, save_last_word, taken, taken_from, reclaim_from,
  known_len, replay, reclaimed, reclaim_last_word,
}
use skey.History.Stack.{current, saved-back}

module _ (core : Core) where
  open core use {Handle}

  reset-replay :
      Steady core
      → (e : VietnameseEngine Handle) (keys : Bytes)
      → reset core (replay core e keys) ≡ reset core e
  unfolding replay
  reset-replay steady e [] = refl
  reset-replay steady e (ch ∷ keys) =
      reset-replay steady (process_key core e ch).0 keys ∙ reset-process_key core steady e ch

  -- The boundary behind a word: it is saved, and the engine starts anew.
  pub boundary : WordHistory Handle → WordHistory Handle
  boundary s = record (save_last_word true true s) {
    viet = reset core s.viet;
    committed_len = pos 0;
  }

  taken-back :
      (utf8_length : Bytes → ℕ) (s : WordHistory Handle) (w : RetroWord)
      → back s.retro_history ≡ some w
      → reclaim_last_word core utf8_length s
        ≡ (reclaimed core utf8_length s (w, pop_back s.retro_history), true)
  unfolding reclaim_last_word taken
  taken-back utf8_length s w h = ap (λ o. reclaim_from core utf8_length s (taken_from s o)) h

  -- With retroactive editing: a word that was typed on a new engine, whose raw input is exactly its keys and
  -- whose keys and text are not empty, is saved at its boundary. When it is taken back at once, the call
  -- succeeds, the engine is as it was before the boundary but for the committed text, which is cleared, and
  -- the length on the screen is the saved one, or that of the text if none above 0 was saved. It is assumed
  -- that the foreign engine keeps nothing between two transformations.
  pub reclaim-boundary :
      (utf8_length : Bytes → ℕ) (e : VietnameseEngine Handle) (keys : Bytes)
      (s : WordHistory Handle)
      → Steady core
      → reset core e ≡ e
      → s.viet ≡ replay core e keys
      → s.viet.raw_input ≡ keys
      → is_empty keys ≡ false
      → is_empty s.viet.composed ≡ false
      → ((reclaim_last_word core utf8_length (boundary s)).1 ≡ true)
        × ((reclaim_last_word core utf8_length (boundary s)).0.viet ≡ clear_committed core s.viet)
        × ((reclaim_last_word core utf8_length (boundary s)).0.committed_len
            ≡ known_len utf8_length (current s))
  unfolding boundary
  reclaim-boundary utf8_length e keys s steady fresh typed raw some_keys some_text =
      let r =
        taken-back utf8_length (boundary s) (current s)
          (saved-back s (ap is_empty raw ∙ some_keys) some_text) in
      let engine : replay core (reset core s.viet) s.viet.raw_input ≡ s.viet =
        ap (replay core (reset core s.viet)) raw
        ∙ ap (λ f. replay core (reset core f) keys) typed
        ∙ ap (λ f. replay core f keys) (reset-replay steady e keys ∙ fresh)
        ∙ sym typed in
      (
        ap (λ x. x.1) r,
        ap (λ x. x.0.viet) r ∙ ap (clear_committed core) engine,
        ap (λ x. x.0.committed_len) r,
      )
