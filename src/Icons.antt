-- ===== src/Icons.antt =====
-- src/icon_resolver.cpp and icon_resolver.h: the file that shows an icon theme. The file system is the
-- parameter `access`: whether `access(path, R_OK)` succeeds.
pub mod Search
use skey.Base.{
  ℕ, Bool, true, false, not, ◌&&◌, ◌||◌, Option, none, some, List, [], ◌∷◌, ◌++◌, ◌==◌,
  if◌then◌else◌, Bytes, bytes_eq, codes, is_empty, c_str,
}

abbrev pub default_theme : Bytes
default_theme = codes "default"

pub is_preset_theme : Bytes → Bool
is_preset_theme theme =
    bytes_eq theme default_theme
    || bytes_eq theme (codes "v-blue")
    || bytes_eq theme (codes "v-dark")
    || bytes_eq theme (codes "v-light")
    || bytes_eq theme (codes "v-red")
    || bytes_eq theme (codes "vn-flag")

pub preset_icon_base_name : Bytes → Bytes
preset_icon_base_name theme =
    if bytes_eq theme (codes "v-blue")
    then codes "fcitx-skey-v-blue"
    else if bytes_eq theme (codes "v-dark")
    then codes "fcitx-skey-v-dark"
    else if bytes_eq theme (codes "v-light")
    then codes "fcitx-skey-v-light"
    else if bytes_eq theme (codes "v-red")
    then codes "fcitx-skey-v-red"
    else if bytes_eq theme (codes "vn-flag")
    then codes "fcitx-skey-vn-flag"
    else codes "fcitx-skey"

pub record IconSearchPaths : Type 0 where
  pub user_data_dir : Bytes
  pub system_dirs : List Bytes
  pub fallback : Bytes

pub ends_in_slash : Bytes → Bool
ends_in_slash [] = false
ends_in_slash (c ∷ []) = c == b'/'
ends_in_slash (c ∷ (d ∷ s)) = ends_in_slash (d ∷ s)

pub join_path : Bytes → Bytes → Bytes
join_path dir name =
    if is_empty dir
    then name
    else if ends_in_slash dir
    then dir ++ name
    else (dir ++ codes "/") ++ name

abbrev pub icon_dir : IconSearchPaths → Bytes
icon_dir paths = join_path (join_path paths.user_data_dir (codes "skey")) (codes "icons")

abbrev pub or_next : Option Bytes → Option Bytes → Option Bytes
or_next none next = next
or_next (some p) next = some p

abbrev pub or_else : Option Bytes → Bytes → Bytes
or_else none next = next
or_else (some p) next = p

module _ (access : Bytes → Bool) where
  pub file_readable : Bytes → Bool
  file_readable path = not (is_empty path) && access (c_str path)

  -- The inner loop over the two extensions of one directory.
  pub probe_dir : Bytes → Bytes → Option Bytes
  probe_dir base dir =
      let png = join_path dir (base ++ codes ".png") in
      let svg = join_path dir (base ++ codes ".svg") in
      if file_readable png then some png else if file_readable svg then some svg else none

  -- The loop over the system directories.
  pub probe_dirs : Bytes → List Bytes → Option Bytes
  probe_dirs base [] = none
  probe_dirs base (dir ∷ dirs) = or_next (probe_dir base dir) (probe_dirs base dirs)

  -- Steps 4 to 6.
  pub last_resort : IconSearchPaths → Bytes
  last_resort paths =
      if file_readable paths.fallback
      then paths.fallback
      else or_else (probe_dirs (preset_icon_base_name default_theme) paths.system_dirs)
          paths.fallback

  -- Step 3.
  pub compatible : Bytes → IconSearchPaths → Bytes
  compatible theme paths =
      let svg = join_path (icon_dir paths) (codes "custom.svg") in
      let png = join_path (icon_dir paths) (codes "custom.png") in
      if bytes_eq theme (codes "custom")
      then (if file_readable svg then svg else if file_readable png then png else last_resort paths)
      else last_resort paths

  -- Step 2.
  pub custom : Bytes → IconSearchPaths → Bytes
  custom theme paths =
      if not (is_empty theme) && file_readable (join_path (icon_dir paths) theme)
      then join_path (icon_dir paths) theme
      else compatible theme paths

  abbrev pub preset : Bytes → IconSearchPaths → Option Bytes
  preset theme paths =
      if is_preset_theme theme
      then probe_dirs (preset_icon_base_name theme) paths.system_dirs
      else none

  pub resolve_icon_path : Bytes → IconSearchPaths → Bytes
  resolve_icon_path icon_theme paths =
      let theme = if is_empty icon_theme then default_theme else icon_theme in
      or_else (preset theme paths) (custom theme paths)
