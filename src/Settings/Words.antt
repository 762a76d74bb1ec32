-- ===== src/Settings/Words.antt =====
-- The user's dictionary: src/settings/config_io.cpp writes and reads it, src/engine.cpp loads it.
pub mod RoundTrip
use skey.Base.{
  ℕ, Bool, true, false, ◌||◌, Option, none, some, List, [], ◌∷◌, ◌++◌, ◌==◌, if◌then◌else◌, Bytes,
  codes, utf8, is_empty,
}
use skey.Engine.{Core, VietnameseEngine, add_word, clear_words}
use skey.Settings.Lines.{get_lines, print_lines, rtrim, first_is, is_skipped}

pub read_words : List Bytes → List Bytes
read_words [] = []
read_words (line ∷ lines) =
    let rest = read_words lines in if is_skipped (rtrim line) then rest else rtrim line ∷ rest

pub read_user_dict : Option Bytes → List Bytes
unfolding read_words
read_user_dict none = []
read_user_dict (some file) = read_words (get_lines file)

abbrev pub with_head : List Bytes → List Bytes
with_head words =
    utf8 "# Từ điển cá nhân — mỗi từ một dòng"
    ∷ (utf8 "# Các từ này được thêm vào từ điển tiếng Việt khi bật"
        ∷ ((codes "# "
              ++ (b'"'
                  ∷ (utf8 "Dùng từ điển" ++ (b'"' ∷ utf8 " ở tab Chung.  Sửa xong nhấn Áp dụng."))))
            ∷ ([] ∷ words)))

pub write_user_dict : List Bytes → Bytes
write_user_dict words = print_lines (with_head words)

-- A byte of " \t\r\n".
abbrev pub is_gap : ℕ → Bool
is_gap c = c == 32 || c == 9 || c == 13 || c == 10

-- The text from the first byte that is no gap, and up to the last one.
unfoldable pub from_first : Bytes → Bytes
from_first [] = []
from_first (c ∷ s) = let rest = from_first s in if is_gap c then rest else c ∷ s

abbrev pub before_end : ℕ → Bytes → Bytes
before_end c [] = if is_gap c then [] else c ∷ []
before_end c (d ∷ s) = c ∷ (d ∷ s)

unfoldable pub up_to_last : Bytes → Bytes
up_to_last [] = []
up_to_last (c ∷ s) = before_end c (up_to_last s)

module _ (core : Core) where
  open core use {Handle}

  abbrev pub load_line : VietnameseEngine Handle → Bytes → VietnameseEngine Handle
  load_line viet line =
      if is_empty (from_first line) || first_is b'#' (from_first line)
      then viet
      else add_word core viet (up_to_last (from_first line))

  pub load_lines : VietnameseEngine Handle → List Bytes → VietnameseEngine Handle
  load_lines viet [] = viet
  load_lines viet (line ∷ lines) = load_lines (load_line viet line) lines

  pub load_user_dict : VietnameseEngine Handle → Option Bytes → VietnameseEngine Handle
  unfolding load_lines
  load_user_dict viet none = clear_words core viet
  load_user_dict viet (some file) = load_lines (clear_words core viet) (get_lines file)
