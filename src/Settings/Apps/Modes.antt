-- ===== src/Settings/Apps/Modes.antt =====
-- The modes that are written, and those that are read back.
use skey.Base.{
  ◌≡◌, ◌∙◌, refl, ap, arith, Bool, true, false, not, ◌&&◌, none, some, List, [], ◌∷◌, ◌++◌, ◌==◌,
  if◌then◌else◌, Bytes, bytes_eq, codes, is_empty, All,
}
use skey.Settings.Lines.{key_value}
use skey.Settings.Lines.Laws.{
  IsLine, IsKey, EndsSolid, EndsSolid-append, All-append, get_lines-print_lines, key_value-pair,
  rtrim-solid,
}
use skey.Settings.Apps.{
  Entry, renamed_mode, mode_entry, cons_some, mode_entries, read_app_modes_config, print_entries,
  write_app_modes_config,
}

-- A program whose name its line gives back, with a mode that is not empty and does not end in a blank.
abbrev pub Fits : Entry → Type 0
Fits e = IsKey e.0 × IsLine e.0 × IsLine e.1 × EndsSolid e.1

-- The entries but those of the mode "Excluded", under the names of today.
abbrev pub remembered : List Entry → List Entry
remembered [] = []
remembered (e ∷ es) =
    let rest = remembered es in
    if bytes_eq e.1 (codes "Excluded") then rest else (e.0, renamed_mode e.1) ∷ rest

solid_not_empty : (v : Bytes) → EndsSolid v → is_empty v ≡ false
solid_not_empty [] h = h
solid_not_empty (c ∷ v) h = refl

read_entry :
    (e : Entry) (rest : List Entry)
    → Fits e
    → cons_some (mode_entry (key_value (e.0 ++ b'=' ∷ e.1))) rest
      ≡ (if bytes_eq e.1 (codes "Excluded") then rest else (e.0, renamed_mode e.1) ∷ rest)
read_entry e rest h =
    ap (λ o. cons_some (mode_entry o) rest)
      (key_value-pair e.0 e.1 h.0 (EndsSolid-append (b'=' ∷ []) e.1 h.3))
    ∙ ap
        (λ v.
          cons_some
            (if not (is_empty v) && not (bytes_eq v (codes "Excluded"))
              then some (e.0, renamed_mode v)
              else none)
            rest)
        (rtrim-solid e.1 h.3)
    ∙ tested (bytes_eq e.1 (codes "Excluded"))
  where
    tested :
        (b : Bool)
        → cons_some
            (if not (is_empty e.1) && not b then some (e.0, renamed_mode e.1) else none)
            rest
          ≡ (if b then rest else (e.0, renamed_mode e.1) ∷ rest)
    tested true = ground (arith, solid_not_empty e.1 h.3)
    tested false = ground (arith, solid_not_empty e.1 h.3)

mode_entries-print_entries :
    (es : List Entry) → All Fits es → mode_entries (print_entries es) ≡ remembered es
unfolding mode_entries print_entries
mode_entries-print_entries [] h = refl
mode_entries-print_entries (e ∷ es) h =
    ap (cons_some (mode_entry (key_value (e.0 ++ b'=' ∷ e.1)))) (mode_entries-print_entries es h.1)
    ∙ read_entry e (remembered es) h.0

print_entries-IsLine : (es : List Entry) → All Fits es → All IsLine (print_entries es)
unfolding print_entries
print_entries-IsLine [] h = tt
print_entries-IsLine (e ∷ es) h = (
  All-append (λ c. (c == b'\n') ≡ false) e.0 (b'=' ∷ e.1) h.0.1 (refl, h.0.2),
  print_entries-IsLine es h.1,
)

-- The modes that are written are read back in their order under their names of today, but for the
-- programs whose mode is "Excluded": those are gone, so the next save loses the exclusion.
read_app_modes_config-write :
    (es : List Entry)
    → All Fits es
    → read_app_modes_config (some (write_app_modes_config es)) ≡ remembered es
unfolding read_app_modes_config write_app_modes_config
read_app_modes_config-write es h =
    ap mode_entries (get_lines-print_lines (print_entries es) (print_entries-IsLine es h))
    ∙ mode_entries-print_entries es h
