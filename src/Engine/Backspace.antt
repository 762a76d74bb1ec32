-- ===== src/Engine/Backspace.antt =====
-- Backspace takes back one character.
use Prim.Native.Nat.add
use skey.Base.{
  ℕ, zero, suc, ◌+◌, ◌-◌, ◌<◌, ◌≤◌, true, false, ◌≡◌, ◌≢◌, refl, sym, ap, ◌∙◌, subst, [], ◌∷◌, ◌++◌,
  some, Bytes, arith, All, length, take, get_elem?, is_continuation, ascii_no_continuation,
  length-append, take-length_append, append-nil,
}
use skey.Engine.{
  Core, VietnameseEngine, last_char_start, process_key, consumed, backspace, recompose,
  is_composition_key,
}
use skey.Engine.Keys.{KeyEffect, process_key_effect}

abbrev pub Continuations : Bytes → Type 0
Continuations = All (λ b. is_continuation b ≡ true)

get_elem?-append : (pre s : Bytes) (i : ℕ) → get_elem? (pre ++ s) (length pre + i) ≡ get_elem? s i
get_elem?-append [] s i = ground arith
get_elem?-append (c ∷ pre) s i = rw add.suc (get_elem?-append pre s i)

get_elem?-conts :
    (cs rest : Bytes) (i : ℕ)
    → Continuations cs
    → i < length cs
    → (b : ℕ) × (get_elem? (cs ++ rest) i ≡ some b) × (is_continuation b ≡ true)
get_elem?-conts [] rest i h l = absurd (omega arith)
get_elem?-conts (c ∷ cs) rest zero h l = (c, refl, h.0)
get_elem?-conts (c ∷ cs) rest (suc i) h l = get_elem?-conts cs rest i h.1 (omega arith)

-- From anywhere in a character the loop comes back to its first byte.
pub last_char_start-back :
    (pre : Bytes) (b : ℕ) (cs rest : Bytes) (j last : ℕ)
    → is_continuation b ≡ false
    → Continuations cs
    → j ≤ length cs
    → last ≡ length pre + j
    → last_char_start (pre ++ b ∷ (cs ++ rest)) last ≡ length pre
unfolding last_char_start
last_char_start-back pre b cs rest j zero n h l e = omega arith
last_char_start-back pre b cs rest zero (suc last) n h l e =
    let here : get_elem? (pre ++ b ∷ (cs ++ rest)) (suc last) ≡ some b =
      subst (λ (k : ℕ). get_elem? (pre ++ b ∷ (cs ++ rest)) k ≡ some b) (sym e)
        (get_elem?-append pre (b ∷ (cs ++ rest)) 0) in
    ground arith
last_char_start-back pre b cs rest (suc j) (suc last) n h l e =
    let (c, at, cont) = get_elem?-conts cs rest j h l in
    let here : get_elem? (pre ++ b ∷ (cs ++ rest)) (suc last) ≡ some c =
      subst (λ (k : ℕ). get_elem? (pre ++ b ∷ (cs ++ rest)) k ≡ some c) (sym e)
        (get_elem?-append pre (b ∷ (cs ++ rest)) (suc j) ∙ at) in
    ground (arith, last_char_start-back pre b cs rest j last n h (omega arith) (omega arith))

append-cons-ne-nil : (pre : Bytes) (b : ℕ) (cs : Bytes) → pre ++ b ∷ cs ≢ []
append-cons-ne-nil [] b cs h = cc
append-cons-ne-nil (c ∷ pre) b cs h = cc

module _ (core : Core) where
  open core use {Handle}

  backspace-raw_input :
      (e : VietnameseEngine Handle)
      → e.raw_input ≢ []
      → (backspace core e).raw_input
        ≡ take (last_char_start e.raw_input (length e.raw_input - 1)) e.raw_input
  unfolding backspace recompose
  backspace-raw_input e h = ground arith

  -- Backspace removes the last UTF-8 character of the raw input, a first byte and its continuation
  -- bytes, and nothing else of it.
  backspace_char :
      (e : VietnameseEngine Handle) (pre : Bytes) (b : ℕ) (cs : Bytes)
      → e.raw_input ≡ pre ++ b ∷ cs
      → is_continuation b ≡ false
      → Continuations cs
      → (backspace core e).raw_input ≡ pre
  backspace_char e pre b cs raw n h =
      let typed : e.raw_input ≢ [] = λ z. append-cons-ne-nil pre b cs (sym raw ∙ z) in
      let size : length e.raw_input - 1 ≡ length pre + length cs =
        omega (arith, ap (length {A = ℕ}) raw, length-append pre (b ∷ cs)) in
      let at : last_char_start e.raw_input (length e.raw_input - 1) ≡ length pre =
        ap (λ l. last_char_start l (length e.raw_input - 1))
          (raw ∙ ap (λ l. pre ++ b ∷ l) (sym (append-nil cs)))
        ∙ last_char_start-back pre b cs [] (length cs) (length e.raw_input - 1) n h (omega arith)
            size in
      backspace-raw_input e typed
      ∙ ap (λ k. take k e.raw_input) at
      ∙ ap (λ l. take (length pre) l) raw
      ∙ take-length_append pre (b ∷ cs)

  composition_key-lt :
      (e : VietnameseEngine Handle) (ch : ℕ) → is_composition_key core e ch ≡ true → ch < 128
  unfolding is_composition_key
  composition_key-lt e ch h = ground arith

  -- A backspace after a consumed key restores the raw input from before the key.
  pub backspace-process_key :
      (e : VietnameseEngine Handle) (ch : ℕ)
      → (process_key core e ch).1 ≡ consumed
      → (backspace core (process_key core e ch).0).raw_input ≡ e.raw_input
  backspace-process_key e ch h =
      let (k, raw, _, _) =
        subst (λ r. KeyEffect core e ch ((process_key core e ch).0, r)) h
          (process_key_effect core e ch) in
      backspace_char (process_key core e ch).0 e.raw_input ch [] raw
        (ascii_no_continuation ch (composition_key-lt e ch k)) tt
