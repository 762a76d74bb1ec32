-- ===== src/Settings/Words/RoundTrip.antt =====
-- Both programs read the words that the settings program wrote.
use skey.Base.{
  ◌≡◌, ◌∙◌, refl, sym, ap, arith, Bool, true, false, not, ◌||◌, some, List, [], ◌∷◌, ◌++◌, ◌==◌,
  Bytes, codes, utf8, All,
}
use skey.Engine.{Core, VietnameseEngine, add_word, clear_words}
use skey.Settings.Lines.{rtrim, is_skipped}
use skey.Settings.Lines.Laws.{IsLine, EndsSolid, get_lines-print_lines, rtrim-solid, Lacks-of_test}
use skey.Settings.Words.{
  read_words, read_user_dict, with_head, write_user_dict, is_gap, from_first, up_to_last, load_line,
  load_lines, load_user_dict,
}

-- The last byte is there and is no gap.
abbrev pub EndsTight : Bytes → Type 0
EndsTight [] = true ≡ false
EndsTight (c ∷ []) = is_gap c ≡ false
EndsTight (c ∷ (d ∷ s)) = EndsTight (d ∷ s)

abbrev pub starts_tight : Bytes → Bool
starts_tight [] = false
starts_tight (c ∷ s) = not (is_gap c || c == b'#')

-- One line that starts no comment, with no blank around it.
abbrev pub IsWord : Bytes → Type 0
IsWord w = IsLine w × (starts_tight w ≡ true) × EndsTight w

EndsTight-EndsSolid : (w : Bytes) → EndsTight w → EndsSolid w
EndsTight-EndsSolid [] h = h
EndsTight-EndsSolid (c ∷ []) h = ground (arith, h)
EndsTight-EndsSolid (c ∷ (d ∷ s)) h = EndsTight-EndsSolid (d ∷ s) h

up_to_last-tight : (w : Bytes) → EndsTight w → up_to_last w ≡ w
unfolding up_to_last
up_to_last-tight [] h = refl
up_to_last-tight (c ∷ []) h = rw (h) refl
up_to_last-tight (c ∷ (d ∷ s)) h = rw (up_to_last-tight (d ∷ s) h) refl

not_skipped : (w : Bytes) → starts_tight w ≡ true → is_skipped w ≡ false
unfolding is_skipped
not_skipped [] h = sym h
not_skipped (c ∷ s) h = ground (arith, h)

from_first-tight : (w : Bytes) → starts_tight w ≡ true → from_first w ≡ w
unfolding from_first
from_first-tight [] h = refl
from_first-tight (c ∷ s) h = ground (arith, h)

read_words-words : (ws : List Bytes) → All IsWord ws → read_words ws ≡ ws
unfolding read_words
read_words-words [] h = refl
read_words-words (w ∷ ws) h =
    rw (rtrim-solid w (EndsTight-EndsSolid w h.0.2), not_skipped w h.0.1)
      (ap (λ l. w ∷ l) (read_words-words ws h.1))

words-IsLine : (ws : List Bytes) → All IsWord ws → All IsLine ws
words-IsLine [] h = tt
words-IsLine (w ∷ ws) h = (h.0.0, words-IsLine ws h.1)

head-IsLine : (ws : List Bytes) → All IsWord ws → All IsLine (with_head ws)
head-IsLine ws h = (
  Lacks-of_test b'\n' (utf8 "# Từ điển cá nhân — mỗi từ một dòng") refl,
  (
    Lacks-of_test b'\n' (utf8 "# Các từ này được thêm vào từ điển tiếng Việt khi bật") refl,
    (
      Lacks-of_test b'\n'
          (codes "# "
            ++ (b'"'
                ∷ (utf8 "Dùng từ điển" ++ (b'"' ∷ utf8 " ở tab Chung.  Sửa xong nhấn Áp dụng."))))
          refl,
      (tt, words-IsLine ws h),
    ),
  ),
)

module _ (core : Core) where
  open core use {Handle}

  pub add_words : VietnameseEngine Handle → List Bytes → VietnameseEngine Handle
  add_words viet [] = viet
  add_words viet (w ∷ ws) = add_words (add_word core viet w) ws

  load_line-word :
      (viet : VietnameseEngine Handle) (w : Bytes)
      → IsWord w
      → load_line core viet w ≡ add_word core viet w
  unfolding is_skipped
  load_line-word viet w h =
      rw (from_first-tight w h.1, not_skipped w h.1, up_to_last-tight w h.2) refl

  load_lines-words :
      (viet : VietnameseEngine Handle) (ws : List Bytes)
      → All IsWord ws
      → load_lines core viet ws ≡ add_words viet ws
  unfolding load_lines add_words
  load_lines-words viet [] h = refl
  load_lines-words viet (w ∷ ws) h =
      ap (λ e. load_lines core e ws) (load_line-word viet w h.0)
      ∙ load_lines-words (add_word core viet w) ws h.1

  -- The words that the settings program writes, each on one line, with no blank around it and no `#` at its
  -- start: the program reads them back in their order, and the addon forgets its words and adds these.
  pub user_dict-write :
      (viet : VietnameseEngine Handle) (ws : List Bytes)
      → All IsWord ws
      → (read_user_dict (some (write_user_dict ws)) ≡ ws)
        × (load_user_dict core viet (some (write_user_dict ws))
            ≡ add_words (clear_words core viet) ws)
  unfolding read_user_dict load_user_dict write_user_dict
  user_dict-write viet ws h =
      let lines = get_lines-print_lines (with_head ws) (head-IsLine ws h) in
      let read : read_words (with_head ws) ≡ read_words ws =
        unfold read_words rtrim is_skipped in refl in
      let loaded : load_lines core (clear_words core viet) (with_head ws)
          ≡ load_lines core (clear_words core viet) ws =
        unfold load_lines from_first in refl in
      (
        ap read_words lines ∙ read ∙ read_words-words ws h,
        ap (load_lines core (clear_words core viet)) lines
            ∙ loaded
            ∙ load_lines-words (clear_words core viet) ws h,
      )
