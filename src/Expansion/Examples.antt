-- ===== src/Expansion/Examples.antt =====
-- A table of macros.
use skey.Base.{◌≡◌, refl, List, [], ◌∷◌, codes, bytes_eq}
use skey.Engine.Letters.{to_lower_ascii}
use skey.Expansion.{Entry, lower, rebuild_macro_lookup, lookup_macro}
use skey.Expansion.Latest.{latest, lookup_macro-latest}

abbrev macros : List Entry
macros = (codes "VN", codes "Vietnam") ∷ ((codes "vn", codes "Viet Nam") ∷ ((codes "hn", []) ∷ []))

lookup_macro-latest_example :
    lookup_macro (rebuild_macro_lookup macros) (codes "Vn") ≡ codes "Viet Nam"
unfolding latest lower to_lower_ascii bytes_eq
lookup_macro-latest_example = lookup_macro-latest macros (codes "Vn") refl
