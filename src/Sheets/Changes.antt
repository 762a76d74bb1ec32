-- ===== src/Sheets/Changes.antt =====
-- What the tracker and the key thread's snapshot report as a change.
use skey.Base.{
  ◌≡◌, ◌≢◌, ◌⊎◌, Bool, true, false, not, ◌&&◌, List, [], ◌∷◌, if◌then◌else◌, Bytes, bytes_eq,
  is_empty,
}
use skey.Sheets.{SheetsCellTracker, tracker_init, tracker_focus, tracker_update, is_cell_address}

pub data TrackerEvent : Type 0 where
  focused : Bytes → Bytes → Bool → Bytes → TrackerEvent
  named : Bytes → Bytes → Bytes → TrackerEvent

unfoldable pub step : SheetsCellTracker → TrackerEvent → SheetsCellTracker
step t (focused bus path is_sheets_editor name) = tracker_focus t bus path is_sheets_editor name
step t (named bus path name) = (tracker_update t bus path name).0

-- The tracker behind the events, the latest event first.
-- The tracker behind the events, the latest event first.
unfoldable pub run : List TrackerEvent → SheetsCellTracker
run [] = tracker_init
run (e ∷ es) = step (run es) e

-- The latest focus event is on this Sheets editor; an empty path is none.
unfoldable pub has_focus : Bytes → Bytes → List TrackerEvent → Bool
has_focus bus path [] = false
has_focus bus path (focused b p is_sheets_editor name ∷ es) =
    is_sheets_editor && (bytes_eq b bus && (bytes_eq p path && not (is_empty path)))
has_focus bus path (named b p name ∷ es) = has_focus bus path es

-- The name, if it is the address of a cell.
abbrev address : Bytes → Bytes → Bytes
address name other = if is_cell_address name then name else other

-- The address that the editor in focus showed last, since the focus came to it; empty if it showed none.
unfoldable pub shown : Bytes → Bytes → List TrackerEvent → Bytes
shown bus path [] = []
shown bus path (focused b p is_sheets_editor name ∷ es) =
    let before = shown bus path es in if has_focus bus path es then before else address name []
shown bus path (named b p name ∷ es) =
    let before = shown bus path es in
    if bytes_eq b bus && bytes_eq p path then address name before else before

-- What the tracker holds while some editor has the focus.
record Follows (t : SheetsCellTracker) (es : List TrackerEvent) : Type 0 where
  in_focus : (bus path : Bytes) → has_focus bus path es ≡ true → (t.bus ≡ bus) × (t.path ≡ path)
  focus : is_empty t.path ≡ false → has_focus t.bus t.path es ≡ true
  cell : is_empty t.path ≡ false → t.cell ≡ shown t.bus t.path es
  valid : (t.cell ≡ []) ⊎ (is_cell_address t.cell ≡ true)

-- A name of the editor in focus, while the address that this editor showed last is another one.
pub record IsChange (es : List TrackerEvent) (bus path name : Bytes) : Type 0 where
  pub in_focus : has_focus bus path es ≡ true
  pub was_address : is_cell_address (shown bus path es) ≡ true
  pub is_address : is_cell_address name ≡ true
  pub differs : name ≢ shown bus path es
