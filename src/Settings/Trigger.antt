-- ===== src/Settings/Trigger.antt =====
-- src/settings/config_io.cpp: the trigger key in the global configuration of fcitx5.
pub mod Lines
pub mod RoundTrip
use skey.Base.{
  ℕ, Bool, true, false, not, ◌&&◌, ◌||◌, Option, none, some, List, [], ◌∷◌, ◌++◌, if◌then◌else◌,
  Bytes, bytes_eq, codes, is_empty,
}
use skey.Settings.Lines.{get_lines, rtrim, first_is, cut}

abbrev pub section : Bytes
section = codes "[Hotkey/TriggerKeys]"

abbrev pub default_key : Bytes
default_key = codes "Control+space"

-- The value of a line `0=...` inside the section.
abbrev pub value_of : Option (Bytes × Bytes) → Option Bytes
value_of none = none
value_of (some (key, val)) = if bytes_eq (rtrim key) (codes "0") then some (rtrim val) else none

abbrev pub or_rest : Option Bytes → Bytes → Bytes
or_rest none rest = rest
or_rest (some val) rest = val

abbrev pub at_end : Bool → Bytes
at_end saw_section = if saw_section then [] else default_key

-- The loop of `readTriggerKey`, with the two flags.
pub read_from : Bool → Bool → List Bytes → Bytes
read_from inside saw [] = at_end saw
read_from inside saw (line ∷ lines) =
    let opened = read_from true true lines in
    let rest = read_from inside saw lines in
    if bytes_eq (rtrim line) section
    then opened
    else if not inside || is_empty (rtrim line)
    then rest
    else if first_is b'[' (rtrim line)
    then at_end saw
    else or_rest (value_of (cut b'=' (rtrim line))) rest

pub read_trigger_key : Option Bytes → Bytes
unfolding read_from
read_trigger_key none = default_key
read_trigger_key (some file) = read_from false false (get_lines file)

abbrev pub key_line : Bytes → List Bytes
key_line key = if is_empty key then [] else (codes "0=" ++ key) ∷ []

abbrev pub is_key_line : Option (Bytes × Bytes) → Bool
is_key_line none = false
is_key_line (some (key, val)) = bytes_eq (rtrim key) (codes "0")

-- The lines that `writeTriggerKey` collects; the flags are `inTriggerSection` and `wrote`.
pub edit_from : Bytes → Bool → Bool → List Bytes → List Bytes
edit_from key inside wrote [] =
    if wrote
    then []
    else if inside
    then key_line key
    else if is_empty key
    then []
    else [] ∷ (section ∷ key_line key)
edit_from key inside wrote (line ∷ lines) =
    let opened = edit_from key true wrote lines in
    let left = edit_from key false (wrote || not (is_empty key)) lines in
    let set = edit_from key true true lines in
    let rest = edit_from key inside wrote lines in
    if bytes_eq (rtrim line) section
    then line ∷ opened
    else if not inside
    then line ∷ rest
    else if first_is b'[' (rtrim line)
    then (if wrote then line ∷ left else key_line key ++ line ∷ left)
    else if is_key_line (cut b'=' (rtrim line))
    then key_line key ++ set
    else line ∷ rest

pub join_lines : List Bytes → Bytes
join_lines [] = []
join_lines (line ∷ []) = line
join_lines (line ∷ (next ∷ lines)) = line ++ b'\n' ∷ join_lines (next ∷ lines)

-- The file afterwards and the result; `writable` is whether the file can be opened and written.
pub write_trigger_key : Option Bytes → Bytes → Bool → Option Bytes × Bool
unfolding edit_from join_lines
write_trigger_key none key writable =
    if is_empty key
    then (none, true)
    else if not writable
    then (none, false)
    else (some (section ++ b'\n' ∷ (codes "0=" ++ (key ++ b'\n' ∷ []))), true)
write_trigger_key (some file) key writable =
    if not writable
    then (some file, false)
    else (some (join_lines (edit_from key false false (get_lines file))), true)
