-- ===== src/Sheets.antt =====
-- src/sheets_cell_tracker.h: the cell changes of a Google Sheets editor, from its accessible name.
pub mod Address
pub mod Changes
mod Examples
use skey.Base.{
  ℕ, zero, suc, ◌+◌, Bool, true, false, not, ◌&&◌, ◌||◌, List, [], ◌∷◌, ltb, leb, ◌==◌,
  if◌then◌else◌, Bytes, bytes_eq, is_empty, length, drop,
}

pub record SheetsCellTracker : Type 0 where
  pub bus : Bytes
  pub path : Bytes
  pub cell : Bytes

abbrev pub tracker_init : SheetsCellTracker
tracker_init = record { bus = []; path = []; cell = [] }

-- The first loop of `isCellAddress`: how many capitals the name begins with.
pub leading_capitals : Bytes → ℕ
leading_capitals [] = 0
leading_capitals (c ∷ s) = if leb b'A' c && leb c b'Z' then suc (leading_capitals s) else 0

-- Its second loop.
pub all_digits : Bytes → Bool
all_digits [] = true
all_digits (c ∷ s) = if ltb c b'0' || ltb b'9' c then false else all_digits s

-- What stands behind the capitals: nothing, or a digit from 1 on and digits.
pub row_number : Bytes → Bool
unfolding all_digits
row_number [] = false
row_number (c ∷ s) = if ltb c b'1' || ltb b'9' c then false else all_digits (c ∷ s)

pub is_cell_address : Bytes → Bool
unfolding leading_capitals row_number
is_cell_address name =
    let i = leading_capitals name in if i == 0 || ltb 3 i then false else row_number (drop i name)

pub tracker_focus : SheetsCellTracker → Bytes → Bytes → Bool → Bytes → SheetsCellTracker
tracker_focus t bus path is_sheets_editor name =
    if not is_sheets_editor
    then record t { bus = []; path = []; cell = [] }
    else if not (bytes_eq t.bus bus) || not (bytes_eq t.path path)
    then record t { bus = bus; path = path; cell = if is_cell_address name then name else [] }
    else t

pub tracker_update : SheetsCellTracker → Bytes → Bytes → Bytes → SheetsCellTracker × Bool
tracker_update t bus path name =
    if is_empty t.path
      || not (bytes_eq bus t.bus)
      || not (bytes_eq path t.path)
      || not (is_cell_address name)
    then (t, false)
    else (record t { cell = name }, not (is_empty t.cell) && not (bytes_eq t.cell name))

pub record SheetsCellSnapshot : Type 0 where
  pub identity : Bytes
  pub seen : Bytes

pub observe : SheetsCellSnapshot → Bytes → Bytes → SheetsCellSnapshot × Bool
observe s identity cell = if not (is_cell_address cell) then (s, false) else (
  record s { identity = identity; seen = cell },
  not (is_empty s.seen) && (not (bytes_eq s.identity identity) || not (bytes_eq s.seen cell)),
)
