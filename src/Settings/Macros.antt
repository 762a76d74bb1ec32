-- ===== src/Settings/Macros.antt =====
-- src/settings/config_io.cpp: skey-macro.conf.
pub mod RoundTrip
use skey.Base.{
  ℕ, ◌+◌, Bool, true, false, not, ◌&&◌, ◌||◌, Option, none, some, List, [], ◌∷◌, ◌++◌, ltb,
  if◌then◌else◌, Bytes, bytes_eq, codes, utf8, is_empty, is_prefix, length, ℤ, pos,
}
use skey.Base.Decimal.{decimal}
use skey.Settings.Lines.{
  get_lines, print_lines, rtrim, first_is, strip_quotes, maybe_quote, key_value, is_skipped,
}

-- A shortcut and its expansion.
abbrev pub Entry : Type 0
Entry = Bytes × Bytes

-- The local variables of `readMacroConfig`.
pub record Reader : Type 0 where
  pub entries : List Entry
  pub current_key : Bytes
  pub current_value : Bytes
  pub in_entry : Bool

abbrev pub init : Reader
init = record { entries = []; current_key = []; current_value = []; in_entry = false }

pub flush : Reader → List Entry
flush r =
    if not (is_empty r.current_key)
    then r.entries ++ (r.current_key, r.current_value) ∷ []
    else r.entries

-- A line `[Entries/N]`: the entry before it is complete.
pub next_entry : Reader → Reader
next_entry r =
    if not (is_empty r.current_key)
    then record {
      entries = r.entries ++ (r.current_key, r.current_value) ∷ [];
      current_key = [];
      current_value = [];
      in_entry = true;
    }
    else record r { in_entry = true }

-- A key and a value inside an entry, or of the old flat format.
pub set_pair : Reader → Bytes → Bytes → Reader
set_pair r key val =
    if r.in_entry
    then (if bytes_eq key (codes "Key")
        then record r { current_key = val }
        else if bytes_eq key (codes "Value")
        then record r { current_value = val }
        else r)
    else if not (is_empty key) && not (is_empty val)
    then record r { entries = r.entries ++ (key, val) ∷ [] }
    else r

abbrev pub read_pair : Reader → Option (Bytes × Bytes) → Reader
read_pair r none = r
read_pair r (some (key, val)) = set_pair r key (strip_quotes (rtrim val))

pub is_header : Bytes → Bool
is_header line = ltb 9 (length line) && is_prefix (codes "[Entries/") line

pub read_line : Reader → Bytes → Reader
read_line r line =
    if is_skipped (rtrim line)
    then r
    else if is_header (rtrim line)
    then next_entry r
    else if first_is b'[' (rtrim line)
    then record r { in_entry = false }
    else read_pair r (key_value line)

pub read_lines : Reader → List Bytes → Reader
read_lines r [] = r
read_lines r (line ∷ lines) = read_lines (read_line r line) lines

-- `none` is a file that cannot be opened.
pub read_macro_config : Option Bytes → List Entry
unfolding read_lines flush
read_macro_config none = []
read_macro_config (some file) = flush (read_lines init (get_lines file))

pub print_entries : ℕ → List Entry → List Bytes
print_entries i [] = []
print_entries i ((key, val) ∷ es) =
    (codes "[Entries/" ++ (decimal i ++ codes "]"))
    ∷ ((codes "Key=" ++ maybe_quote key)
        ∷ ((codes "Value=" ++ maybe_quote val) ∷ print_entries (i + 1) es))

pub write_macro_config : List Entry → Bytes
unfolding print_entries
write_macro_config es =
    print_lines (utf8 "# Macro / Gõ tắt definitions" ∷ ([] ∷ print_entries 0 es))
