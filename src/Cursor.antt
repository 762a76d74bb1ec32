-- ===== src/Cursor.antt =====
-- src/surrounding_cursor.h: the remembered byte offset of a cursor that is given in characters.
pub mod Lookups
pub mod Suffix
mod Examples
use skey.Base.{
  ℕ, zero, suc, ◌+◌, ◌-◌, Bool, true, false, not, ◌||◌, ◌&&◌, [], ◌∷◌, ltb, leb, ◌==◌,
  if◌then◌else◌, Bytes, bytes_eq, is_empty, leading, length, take, drop,
}

-- `data` is the address of the text that was looked at; 0 is the null pointer.
pub record SurroundingCursor : Type 0 where
  pub valid : Bool
  pub cursor : ℕ
  pub bytes : ℕ
  pub size : ℕ
  pub data_at : ℕ

abbrev pub init : SurroundingCursor
init = record { valid = false; cursor = 0; bytes = 0; size = 0; data_at = 0 }

-- The loops of `offset`: the bytes of so many UTF-8 characters, or of the whole text.
unfoldable pub count_bytes : ℕ → Bytes → ℕ
count_bytes zero text = 0
count_bytes (suc n) [] = 0
count_bytes (suc n) (c ∷ text) = suc (leading text) + count_bytes n (drop (leading text) text)

pub invalidate : SurroundingCursor → SurroundingCursor
invalidate c = record c { valid = false }

-- A text comes with its address.
pub offset : SurroundingCursor → ℕ → Bytes → ℕ → SurroundingCursor × ℕ
offset c address text cursor =
    if not c.valid
      || not (c.cursor == cursor)
      || not (c.size == length text)
      || not (c.data_at == address)
    then (
      record {
        valid = true;
        cursor = cursor;
        bytes = count_bytes cursor text;
        size = length text;
        data_at = address;
      },
      count_bytes cursor text,
    )
    else (c, c.bytes)

-- `endsWith` behind its call of `offset`.
unfoldable pub ends_at : ℕ → Bytes → Bytes → Bool
ends_at bytes text expected =
    leb (length expected) bytes
    && bytes_eq (take (length expected) (drop (bytes - length expected) text)) expected

pub ends_with : SurroundingCursor → ℕ → Bytes → ℕ → Bytes → SurroundingCursor × Bool
unfolding ends_at
ends_with c address text cursor expected =
    let (c', bytes) = offset c address text cursor in
    if is_empty expected || ltb (length text) (length expected)
    then (c, false)
    else (c', ends_at bytes text expected)
