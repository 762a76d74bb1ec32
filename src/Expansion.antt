-- ===== src/Expansion.antt =====
-- src/engine.cpp: the table of macros and its lookup. std::tolower is that of the C locale.
pub mod Latest
mod Examples
use skey.Base.{
  ℕ, Bool, true, false, ◌||◌, Option, none, some, List, [], ◌∷◌, if◌then◌else◌, Bytes, is_empty,
}
use skey.Base.Table.{Table, lookup, insert}
use skey.Engine.Letters.{to_lower_ascii}

-- A shortcut and its expansion.
abbrev pub Entry : Type 0
Entry = Bytes × Bytes

unfoldable pub lower : Bytes → Bytes
unfolding to_lower_ascii
lower [] = []
lower (c ∷ s) = to_lower_ascii c ∷ lower s

abbrev pub add_entry : Entry → Table Bytes → Table Bytes
add_entry (key, value) table =
    if is_empty key || is_empty value then table else insert (lower key) value table

-- The loop over the entries.
pub add_entries : Table Bytes → List Entry → Table Bytes
add_entries table [] = table
add_entries table (e ∷ es) = add_entries (add_entry e table) es

-- The table behind `clear`.
pub rebuild_macro_lookup : List Entry → Table Bytes
unfolding add_entries
rebuild_macro_lookup es = add_entries [] es

abbrev pub or_empty : Option Bytes → Bytes
or_empty none = []
or_empty (some value) = value

abbrev pub or_lower : Table Bytes → Bytes → Option Bytes → Bytes
or_lower table key (some value) = value
or_lower table key none = or_empty (lookup (lower key) table)

abbrev pub is_empty_table : Table Bytes → Bool
is_empty_table [] = true
is_empty_table (e ∷ es) = false

-- The empty text stands for no macro.
pub lookup_macro : Table Bytes → Bytes → Bytes
lookup_macro table key =
    if is_empty key || is_empty_table table then [] else or_lower table key (lookup key table)
