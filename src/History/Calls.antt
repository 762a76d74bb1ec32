-- ===== src/History/Calls.antt =====
-- Any sequence of calls on the history of a context.
use skey.Base.{
  ℕ, ◌+◌, ◌≤◌, ◌≡◌, ◌∙◌, sym, ap, arith, Bool, true, not, ◌&&◌, Option, none, some, List, [], ◌∷◌,
  ◌++◌, leb, if_both, Bool-cases, inl, inr, Bytes, is_empty, length, length-append, length-drop,
  drop, ℤ,
}
use skey.Engine.{Core, VietnameseEngine}
use skey.History.{
  RetroWord, WordHistory, back, pop_back, same_word, push_bounded, save_last_word, clear_last_word,
  taken, restore_reclaimed_word, reclaimed, reclaim_last_word, reclaim_from, taken_from, restored,
}
use skey.History.Stack.{current}

-- What is typed meanwhile is an engine and a length of any kind.
pub data Call (Handle : Type 0) : Type 0 where
  save : Bool → Bool → Call Handle
  clear : Call Handle
  reclaim : Call Handle
  restore : Call Handle
  typed : VietnameseEngine Handle → ℤ → Call Handle

pop_back-append :
    (ws : List RetroWord) (w : RetroWord) → back ws ≡ some w → pop_back ws ++ w ∷ [] ≡ ws
unfolding back pop_back
pop_back-append [] w h = cc
pop_back-append (v ∷ []) w h = cc
pop_back-append (v ∷ (u ∷ ws)) w h = ap (λ l. v ∷ l) (pop_back-append (u ∷ ws) w h)

length-pop_back : (ws : List RetroWord) → length (pop_back ws) ≤ length ws
unfolding pop_back
length-pop_back [] = omega arith
length-pop_back (v ∷ []) = omega arith
length-pop_back (v ∷ (u ∷ ws)) = omega (arith, length-pop_back (u ∷ ws))

length-push_bounded :
    (w : RetroWord) (ws : List RetroWord) → length ws ≤ 16 → length (push_bounded w ws) ≤ 16
unfolding push_bounded
length-push_bounded w ws h =
    if_both (λ l. length (l ++ w ∷ []) ≤ 16) (leb 16 (length ws)) _ _
      (λ full. omega (arith, length-append (drop 1 ws) (w ∷ []), length-drop 1 ws, h))
      (λ room. ground (arith, length-append ws (w ∷ []), room))

push_bounded-pop :
    (w : RetroWord) (ws : List RetroWord)
    → length ws ≤ 16
    → back ws ≡ some w
    → push_bounded w (pop_back ws) ≡ ws
unfolding push_bounded
push_bounded-pop w ws h e =
    if_both (λ l. l ++ w ∷ [] ≡ ws) (leb 16 (length (pop_back ws))) _ _
      (λ full. absurd (omega (arith, h, shorter, full_le full))) (λ _. popped)
  where
    popped : pop_back ws ++ w ∷ [] ≡ ws
    popped = pop_back-append ws w e

    shorter : length (pop_back ws) + 1 ≡ length ws
    shorter = sym (length-append (pop_back ws) (w ∷ [])) ∙ ap length popped

    full_le : leb 16 (length (pop_back ws)) ≡ true → 16 ≤ length (pop_back ws)
    full_le f = ground arith

module _ (core : Core) (utf8_length : Bytes → ℕ) where
  open core use {Handle}

  unfoldable pub call : WordHistory Handle → Call Handle → WordHistory Handle
  call s (save retroactive committed) = save_last_word retroactive committed s
  call s clear = clear_last_word s
  call s reclaim = (reclaim_last_word core utf8_length s).0
  call s restore = restore_reclaimed_word s
  call s (typed viet len) = record s { viet = viet; committed_len = len }

  unfoldable pub calls : WordHistory Handle → List (Call Handle) → WordHistory Handle
  calls s [] = s
  calls s (c ∷ cs) = calls (call s c) cs

  save-bound :
      (retroactive committed : Bool) (s : WordHistory Handle)
      → length s.retro_history ≤ 16
      → length (save_last_word retroactive committed s).retro_history ≤ 16
  unfolding save_last_word
  save-bound retroactive committed s h =
      if_both (λ (r : WordHistory Handle). length r.retro_history ≤ 16) (is_empty s.viet.raw_input)
        _ _ (λ _. h)
        (λ _.
          if_both (λ (r : WordHistory Handle). length r.retro_history ≤ 16)
            (not (committed && retroactive && not (is_empty s.viet.composed))) _ _ (λ _. h)
            (λ _.
              if_both (λ (r : WordHistory Handle). length r.retro_history ≤ 16)
                (same_word (back s.retro_history) (current s)) _ _ (λ _. h)
                (λ _. length-push_bounded (current s) s.retro_history h)))

  taken-bound :
      (s : WordHistory Handle) (o : Option RetroWord)
      → length s.retro_history ≤ 16
      → length (reclaim_from core utf8_length s (taken_from s o)).0.retro_history ≤ 16
  taken-bound s (some w) h = omega (arith, h, length-pop_back s.retro_history)
  taken-bound s none h = elim (Bool-cases (not (is_empty s.last_raw_input))) [
    | inl e ↦ rw (e) (omega arith)
    | inr e ↦ rw (e) h
  ]

  restored-bound :
      (s : WordHistory Handle) (o : Option RetroWord)
      → length s.retro_history ≤ 16
      → length (restored s o).retro_history ≤ 16
  restored-bound s none h = h
  restored-bound s (some w) h = length-push_bounded w s.retro_history h

  call-bound :
      (s : WordHistory Handle) (c : Call Handle)
      → length s.retro_history ≤ 16
      → length (call s c).retro_history ≤ 16
  unfolding call clear_last_word reclaim_last_word taken restore_reclaimed_word
  call-bound s (save retroactive committed) h = save-bound retroactive committed s h
  call-bound s clear h = omega arith
  call-bound s reclaim h = taken-bound s (back s.retro_history) h
  call-bound s restore h = restored-bound s s.reclaimed_word h
  call-bound s (typed viet len) h = h

  pub calls-bound :
      (s : WordHistory Handle) (cs : List (Call Handle))
      → length s.retro_history ≤ 16
      → length (calls s cs).retro_history ≤ 16
  unfolding calls
  calls-bound s [] h = h
  calls-bound s (c ∷ cs) h = calls-bound (call s c) cs (call-bound s c h)

  -- After any calls on a context without history, the history has at most 16 words; and if it has any, taking
  -- its last word back and restoring it leaves the history as it was, with nothing taken back.
  pub restore-reclaim :
      (s : WordHistory Handle) (cs : List (Call Handle)) (w : RetroWord)
      → s.retro_history ≡ []
      → back (calls s cs).retro_history ≡ some w
      → (length (calls s cs).retro_history ≤ 16)
        × ((call (call (calls s cs) reclaim) restore).retro_history ≡ (calls s cs).retro_history)
        × ((call (call (calls s cs) reclaim) restore).reclaimed_word ≡ none)
  unfolding call reclaim_last_word taken restore_reclaimed_word
  restore-reclaim s cs w start last =
      let t = calls s cs in
      let bound : length t.retro_history ≤ 16 = calls-bound s cs (omega (arith, ap length start)) in
      let back_again : restore_reclaimed_word (reclaim_last_word core utf8_length t).0
          ≡ restore_reclaimed_word (reclaimed core utf8_length t (w, pop_back t.retro_history)) =
        ap (λ o. restore_reclaimed_word (reclaim_from core utf8_length t (taken_from t o)).0)
          last in
      (
        bound,
        ap (λ (r : WordHistory Handle). r.retro_history) back_again
            ∙ push_bounded-pop w t.retro_history bound last,
        ap (λ (r : WordHistory Handle). r.reclaimed_word) back_again,
      )
