-- ===== src/Icons/Search.antt =====
-- The resolution as one search of a list of candidates.
use skey.Base.{
  Bool, true, false, not, ◌&&◌, Option, none, some, List, [], ◌∷◌, ◌++◌, ◌≡◌, refl, sym, ap, ◌∙◌,
  if◌then◌else◌, Bytes, bytes_eq, codes, is_empty,
}
use skey.Icons.{
  IconSearchPaths, default_theme, is_preset_theme, preset_icon_base_name, join_path, icon_dir,
  file_readable, probe_dir, probe_dirs, last_resort, compatible, custom, preset, resolve_icon_path,
  or_next, or_else,
}

-- The first readable path of a list, or the given one.
abbrev pub first_readable : (Bytes → Bool) → List Bytes → Bytes → Bytes
first_readable access [] otherwise = otherwise
first_readable access (p ∷ ps) otherwise =
    let rest = first_readable access ps otherwise in if file_readable access p then p else rest

-- The two files of an icon in each directory.
abbrev pub in_dirs : Bytes → List Bytes → List Bytes
in_dirs base [] = []
in_dirs base (dir ∷ dirs) =
    join_path dir (base ++ codes ".png")
    ∷ (join_path dir (base ++ codes ".svg") ∷ in_dirs base dirs)

-- The candidates, in their order.
abbrev pub candidates : Bytes → IconSearchPaths → List Bytes
candidates theme paths =
    (if is_preset_theme theme then in_dirs (preset_icon_base_name theme) paths.system_dirs else [])
    ++ ((if is_empty theme then [] else join_path (icon_dir paths) theme ∷ [])
        ++ ((if bytes_eq theme (codes "custom")
              then join_path (icon_dir paths) (codes "custom.svg")
                ∷ (join_path (icon_dir paths) (codes "custom.png") ∷ [])
              else [])
            ++ (paths.fallback ∷ in_dirs (preset_icon_base_name default_theme) paths.system_dirs)))

module _ (access : Bytes → Bool) where
  first_readable-append :
      (ps qs : List Bytes) (o : Bytes)
      → first_readable access (ps ++ qs) o ≡ first_readable access ps (first_readable access qs o)
  first_readable-append [] qs o = refl
  first_readable-append (p ∷ ps) qs o =
      ap (λ r. if file_readable access p then p else r) (first_readable-append ps qs o)

  probe_step :
      (c d : Bool) (p q : Bytes) (rest : Option Bytes) (r o : Bytes)
      → or_else rest o ≡ r
      → or_else (or_next (if c then some p else if d then some q else none) rest) o
        ≡ (if c then p else if d then q else r)
  probe_step true d p q rest r o h = refl
  probe_step false true p q rest r o h = refl
  probe_step false false p q rest r o h = h

  probe_dirs-in_dirs :
      (base : Bytes) (dirs : List Bytes) (o : Bytes)
      → or_else (probe_dirs access base dirs) o ≡ first_readable access (in_dirs base dirs) o
  unfolding probe_dirs probe_dir
  probe_dirs-in_dirs base [] o = refl
  probe_dirs-in_dirs base (dir ∷ dirs) o =
      probe_step (file_readable access (join_path dir (base ++ codes ".png")))
        (file_readable access (join_path dir (base ++ codes ".svg"))) _ _
        (probe_dirs access base dirs) _ o (probe_dirs-in_dirs base dirs o)

  last_resort-first :
      (paths : IconSearchPaths)
      → last_resort access paths
        ≡ first_readable access
            (paths.fallback ∷ in_dirs (preset_icon_base_name default_theme) paths.system_dirs)
            paths.fallback
  unfolding last_resort
  last_resort-first paths =
      ap (λ r. if file_readable access paths.fallback then paths.fallback else r)
        (probe_dirs-in_dirs (preset_icon_base_name default_theme) paths.system_dirs paths.fallback)

  -- A conditional step in front of a search.
  guarded :
      (c : Bool) (ps qs : List Bytes) (r o : Bytes)
      → r ≡ first_readable access qs o
      → (if c then first_readable access ps r else r)
        ≡ first_readable access ((if c then ps else []) ++ qs) o
  guarded true ps qs r o h = ap (first_readable access ps) h ∙ sym (first_readable-append ps qs o)
  guarded false ps qs r o h = h

  one_test :
      (c : Bool) (p r : Bytes)
      → (if not c && file_readable access p then p else r)
        ≡ (if not c then first_readable access (p ∷ []) r else r)
  one_test true p r = refl
  one_test false p r = refl

  flipped : (c : Bool) (ps : List Bytes) → (if not c then ps else []) ≡ (if c then [] else ps)
  flipped true ps = refl
  flipped false ps = refl

  preset_or :
      (c : Bool) (o : Option Bytes) (ps : List Bytes) (r : Bytes)
      → or_else o r ≡ first_readable access ps r
      → or_else (if c then o else none) r ≡ (if c then first_readable access ps r else r)
  preset_or true o ps r h = h
  preset_or false o ps r h = refl

  abbrev tail : IconSearchPaths → List Bytes
  tail paths = paths.fallback ∷ in_dirs (preset_icon_base_name default_theme) paths.system_dirs

  abbrev old_names : Bytes → IconSearchPaths → List Bytes
  old_names theme paths =
      (if bytes_eq theme (codes "custom")
        then join_path (icon_dir paths) (codes "custom.svg")
          ∷ (join_path (icon_dir paths) (codes "custom.png") ∷ [])
        else [])
      ++ tail paths

  compatible-first :
      (theme : Bytes) (paths : IconSearchPaths)
      → compatible access theme paths ≡ first_readable access (old_names theme paths) paths.fallback
  unfolding compatible
  compatible-first theme paths =
      guarded (bytes_eq theme (codes "custom"))
        (join_path (icon_dir paths) (codes "custom.svg")
          ∷ (join_path (icon_dir paths) (codes "custom.png") ∷ []))
        (tail paths) (last_resort access paths) paths.fallback (last_resort-first paths)

  custom-first :
      (theme : Bytes) (paths : IconSearchPaths)
      → custom access theme paths
        ≡ first_readable access
            ((if is_empty theme then [] else join_path (icon_dir paths) theme ∷ [])
              ++ old_names theme paths)
            paths.fallback
  unfolding custom
  custom-first theme paths =
      one_test (is_empty theme) (join_path (icon_dir paths) theme) (compatible access theme paths)
      ∙ guarded (not (is_empty theme)) (join_path (icon_dir paths) theme ∷ [])
          (old_names theme paths) (compatible access theme paths) paths.fallback
          (compatible-first theme paths)
      ∙ ap (λ ps. first_readable access (ps ++ old_names theme paths) paths.fallback)
          (flipped (is_empty theme) (join_path (icon_dir paths) theme ∷ []))

  -- The resolution returns the first readable candidate in the order: both files of a preset in each
  -- system directory, the file that a theme names in the user's directory, the two files of the theme
  -- "custom", the fallback, the default icon in each system directory. If none is readable it returns the
  -- fallback. An empty theme is the default one.
  pub resolve_icon_path-first :
      (icon_theme : Bytes) (paths : IconSearchPaths)
      → resolve_icon_path access icon_theme paths
        ≡ first_readable access
            (candidates (if is_empty icon_theme then default_theme else icon_theme) paths)
            paths.fallback
  unfolding resolve_icon_path
  resolve_icon_path-first icon_theme paths =
      of_theme (if is_empty icon_theme then default_theme else icon_theme)
    where
      of_theme :
          (theme : Bytes)
          → or_else (preset access theme paths) (custom access theme paths)
            ≡ first_readable access (candidates theme paths) paths.fallback
      of_theme theme =
          preset_or (is_preset_theme theme)
            (probe_dirs access (preset_icon_base_name theme) paths.system_dirs)
            (in_dirs (preset_icon_base_name theme) paths.system_dirs) (custom access theme paths)
            (probe_dirs-in_dirs (preset_icon_base_name theme) paths.system_dirs
              (custom access theme paths))
          ∙ guarded (is_preset_theme theme)
              (in_dirs (preset_icon_base_name theme) paths.system_dirs) _
              (custom access theme paths) paths.fallback (custom-first theme paths)
