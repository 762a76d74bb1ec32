-- ===== src/Sheets/Examples.antt =====
-- The tracker on one editor.
use skey.Base.{◌≡◌, refl, true, List, [], ◌∷◌, codes, bytes_eq}
use skey.Sheets.{tracker_update, tracker_focus, is_cell_address}
use skey.Sheets.Changes.{TrackerEvent, focused, named, run, step}

-- The latest event first.
abbrev events : List TrackerEvent
events =
    named (codes ":1") (codes "/e") (codes "B7")
    ∷ named (codes ":1") (codes "/e") []
    ∷ focused (codes ":1") (codes "/e") true (codes "A1")
    ∷ []

moves_to_c7 : (tracker_update (run events) (codes ":1") (codes "/e") (codes "C7")).1 ≡ true
unfolding tracker_update tracker_focus run step is_cell_address bytes_eq
moves_to_c7 = refl
