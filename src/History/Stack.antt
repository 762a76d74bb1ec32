-- ===== src/History/Stack.antt =====
-- The words of the history: what is pushed is taken back.
use skey.Base.{
  ◌≡◌, ◌∙◌, refl, ap, arith, true, false, Option, none, some, List, [], ◌∷◌, ◌++◌, ==_iff, leb,
  if◌then◌else◌, if_both, Bytes, bytes_eq_iff, is_empty, length, drop, ℤ, pos, negsuc,
}
use skey.History.{RetroWord, WordHistory, back, int_eq, same_word, push_bounded, save_last_word}

back-append : (ws : List RetroWord) (w : RetroWord) → back (ws ++ w ∷ []) ≡ some w
unfolding back
back-append [] w = refl
back-append (v ∷ []) w = refl
back-append (v ∷ (u ∷ ws)) w = back-append (u ∷ ws) w

pub back-push_bounded : (w : RetroWord) (ws : List RetroWord) → back (push_bounded w ws) ≡ some w
unfolding push_bounded
back-push_bounded w ws = back-append (if leb 16 (length ws) then drop 1 ws else ws) w

int_eq-eq : (m n : ℤ) → int_eq m n ≡ true → m ≡ n
unfolding int_eq
int_eq-eq (pos m) (pos n) h = ap pos ((==_iff m n).0 h)
int_eq-eq (pos m) (negsuc n) h = cc
int_eq-eq (negsuc m) (pos n) h = cc
int_eq-eq (negsuc m) (negsuc n) h = ap negsuc ((==_iff m n).0 h)

same_word-eq : (o : Option RetroWord) (w : RetroWord) → same_word o w ≡ true → o ≡ some w
same_word-eq none w h = cc
same_word-eq (some p) w h =
    let a : p.raw ≡ w.raw = (bytes_eq_iff p.raw w.raw).0 (ground arith) in
    let b : p.composed ≡ w.composed = (bytes_eq_iff p.composed w.composed).0 (ground arith) in
    let c : p.committed_len ≡ w.committed_len =
      int_eq-eq p.committed_len w.committed_len (ground arith) in
    ap (λ (r : Bytes). some (record p { raw = r })) a
    ∙ ap (λ (r : Bytes). some (record p { raw = w.raw; composed = r })) b
    ∙ ap (λ (n : ℤ). some (record { raw = w.raw; composed = w.composed; committed_len = n })) c

module _ {Handle : Type 0} where
  -- The word in composition, as the history keeps it.
  abbrev pub current : WordHistory Handle → RetroWord
  current s = record {
    raw = s.viet.raw_input;
    composed = s.viet.composed;
    committed_len = s.committed_len;
  }

  pub saved-back :
      (s : WordHistory Handle)
      → is_empty s.viet.raw_input ≡ false
      → is_empty s.viet.composed ≡ false
      → back (save_last_word true true s).retro_history ≡ some (current s)
  unfolding save_last_word
  saved-back s h k =
      rw (h, k)
        (if_both (λ (r : WordHistory Handle). back r.retro_history ≡ some (current s))
          (same_word (back s.retro_history) (current s)) _ _
          (λ e. same_word-eq (back s.retro_history) (current s) e)
          (λ _. back-push_bounded (current s) s.retro_history))
