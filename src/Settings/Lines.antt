-- ===== src/Settings/Lines.antt =====
-- src/settings/config_io.cpp, the helpers: how a settings file is cut into lines and how a value is
-- trimmed and quoted.
pub mod Laws
use skey.Base.{
  ℕ, zero, suc, ◌+◌, ◌-◌, ◌*◌, ◌/◌, ◌%◌, Bool, true, false, ◌&&◌, ◌||◌, Option, none, some, List,
  [], ◌∷◌, ◌++◌, ltb, leb, ◌==◌, if◌then◌else◌, Bytes, bytes_eq, codes, is_empty, length, take,
  drop,
}

abbrev pub cons_head : ℕ → List Bytes → List Bytes
cons_head c [] = (c ∷ []) ∷ []
cons_head c (line ∷ lines) = (c ∷ line) ∷ lines

-- The lines that a loop over std::getline sees.
unfoldable pub get_lines : Bytes → List Bytes
get_lines [] = []
get_lines (c ∷ s) = let rest = get_lines s in if c == b'\n' then [] ∷ rest else cons_head c rest

-- Each line with its newline, as the writers print them.
unfoldable pub print_lines : List Bytes → Bytes
print_lines [] = []
print_lines (line ∷ lines) = line ++ b'\n' ∷ print_lines lines

abbrev pub is_blank : ℕ → Bool
is_blank c = c == b'\n' || c == b'\r' || c == b' '

abbrev pub before_trimmed : ℕ → Bytes → Bytes
before_trimmed c [] = if is_blank c then [] else c ∷ []
before_trimmed c (d ∷ s) = c ∷ (d ∷ s)

unfoldable pub rtrim : Bytes → Bytes
rtrim [] = []
rtrim (c ∷ s) = before_trimmed c (rtrim s)

-- The loop that erases the leading spaces of a key.
unfoldable pub drop_spaces : Bytes → Bytes
drop_spaces [] = []
drop_spaces (c ∷ s) = let rest = drop_spaces s in if c == b' ' then rest else c ∷ s

abbrev pub first_is : ℕ → Bytes → Bool
first_is b [] = false
first_is b (c ∷ s) = c == b

unfoldable pub last_is : ℕ → Bytes → Bool
last_is b [] = false
last_is b (c ∷ []) = c == b
last_is b (c ∷ (d ∷ s)) = last_is b (d ∷ s)

-- s.size() >= 2, and a quote at both ends
unfoldable pub is_quoted : Bytes → Bool
is_quoted s = leb 2 (length s) && first_is b'"' s && last_is b'"' s

unfoldable pub strip_quotes : Bytes → Bytes
unfolding is_quoted
strip_quotes s = if is_quoted s then take (length s - 2) (drop 1 s) else s

unfoldable pub needs_quotes : Bytes → Bool
needs_quotes [] = false
needs_quotes (c ∷ s) = c == b' ' || ltb 127 c || needs_quotes s

unfoldable pub maybe_quote : Bytes → Bytes
maybe_quote val =
    if is_empty val
    then b'"' ∷ (b'"' ∷ [])
    else if needs_quotes val
    then b'"' ∷ (val ++ b'"' ∷ [])
    else val

unfoldable pub parse_bool : Bytes → Bool
parse_bool s = bytes_eq s (codes "True") || bytes_eq s (codes "true")

unfoldable pub bool_str : Bool → Bytes
bool_str v = if v then codes "True" else codes "False"

-- The two sides of the first such byte; `none` is `npos`.
unfoldable pub cut : ℕ → Bytes → Option (Bytes × Bytes)
cut b [] = none
cut b (c ∷ s) =
    let rest = cut b s in
    if c == b then some ([], s) else elim rest [ none ↦ none | some (l, r) ↦ some (c ∷ l, r) ]

-- The test at the head of each loop: an empty line or a comment.
unfoldable pub is_skipped : Bytes → Bool
is_skipped line = is_empty line || first_is b'#' line

-- The line of a key and a value: trimmed, skipped or cut at `=`, with the key trimmed on both sides.
unfoldable pub key_value : Bytes → Option (Bytes × Bytes)
unfolding is_skipped
key_value line =
    let trimmed = rtrim line in
    if is_skipped trimmed then none else elim (cut b'=' trimmed) [
      | none ↦ none
      | some (key, val) ↦ some (rtrim (drop_spaces key), val)
    ]
