-- ===== src/Cursor/Examples.antt =====
-- Lookups in a text that is edited between them.
use skey.Base.{◌≡◌, refl, List, [], ◌∷◌, Bytes, utf8}
use skey.Base.Chars.{are_chars-All}
use skey.Cursor.{offset}
use skey.Cursor.Lookups.{Event, edited, looked_up, compared, step, run, start_world, offset_exact}

abbrev edits : List Event
edits =
    edited 1 (utf8 "xin chào")
    ∷ looked_up 1 7
    ∷ edited 1 (utf8 "à xin")
    ∷ compared 1 1 (utf8 "à")
    ∷ []

abbrev chars : List Bytes
chars = utf8 "à" ∷ utf8 " " ∷ utf8 "x" ∷ utf8 "i" ∷ utf8 "n" ∷ []

offset_exact_example :
    (offset (run start_world edits).object 1 ((run start_world edits).memory 1) 2).1 ≡ 3
unfolding run step
offset_exact_example = offset_exact edits 1 2 chars (are_chars-All chars refl) refl
