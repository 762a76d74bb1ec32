-- ===== src/Settings/Conf.antt =====
-- src/settings/config_io.cpp and config_io.h: skey.conf.
pub mod Fine
pub mod RoundTrip
use skey.Base.{
  ℕ, ◌+◌, ◌/◌, ◌%◌, Bool, true, false, ◌||◌, Option, none, some, List, [], ◌∷◌, ◌++◌, ltb,
  if◌then◌else◌, Bytes, bytes_eq, codes, utf8,
}
use skey.Settings.Lines.{
  get_lines, print_lines, strip_quotes, maybe_quote, parse_bool, bool_str, key_value,
}

pub data UpdateChannel : Type 0 where
  stable dev : UpdateChannel

pub record SKeyConfig : Type 0 where
  pub input_method : Bytes
  pub output_mode : Bytes
  pub replace_uinput_with_native : Bool
  pub enable_native : Bool
  pub charset : Bytes
  pub short_w : Bool
  pub bracket_uo : Bool
  pub free_marking : Bool
  pub auto_restore : Bool
  pub dict : Bool
  pub show_preedit : Bool
  pub auto_enable_a11y : Bool
  pub chromium_address_bar_mode : Bytes
  pub debug : Bool
  pub auto_delay : Bool
  pub enable_macro : Bool
  pub capitalize_macro : Bool
  pub macro_in_off_mode : Bool
  pub mode_menu_key : Bytes
  pub icon_theme : Bytes
  pub custom_icon_path : Bytes
  pub update_channel : UpdateChannel
  pub ui_language : Bytes

abbrev pub default_config : SKeyConfig
default_config = record {
  input_method = codes "Telex";
  output_mode = codes "Auto";
  replace_uinput_with_native = false;
  enable_native = false;
  charset = codes "Unicode";
  short_w = false;
  bracket_uo = false;
  free_marking = false;
  auto_restore = true;
  dict = false;
  show_preedit = true;
  auto_enable_a11y = true;
  chromium_address_bar_mode = codes "Auto";
  debug = false;
  auto_delay = false;
  enable_macro = true;
  capitalize_macro = true;
  macro_in_off_mode = false;
  mode_menu_key = codes "grave";
  icon_theme = codes "default";
  custom_icon_path = [];
  update_channel = stable;
  ui_language = codes "vi";
}

-- "Libei" is the old name of "Native".
pub renamed_mode : Bytes → Bytes
renamed_mode val = if bytes_eq val (codes "Libei") then codes "Native" else val

pub read_channel : Bytes → UpdateChannel
read_channel val = if bytes_eq val (codes "Dev") then dev else stable

pub read_language : Bytes → Bytes
read_language val = if bytes_eq val (codes "en") then codes "en" else codes "vi"

-- The chain of tests on the key.
pub set_key : SKeyConfig → Bytes → Bytes → SKeyConfig
set_key cfg key val =
    if bytes_eq key (codes "InputMethod")
    then record cfg { input_method = val }
    else if bytes_eq key (codes "OutputMode")
    then record cfg { output_mode = renamed_mode val }
    else if bytes_eq key (codes "PreferLibeiAuto")
    then record cfg { replace_uinput_with_native = parse_bool val }
    else if bytes_eq key (codes "EnableNative")
    then record cfg { enable_native = parse_bool val }
    else if bytes_eq key (codes "Charset")
    then record cfg { charset = val }
    else if bytes_eq key (codes "ShortW")
    then record cfg { short_w = parse_bool val }
    else if bytes_eq key (codes "BracketUO")
    then record cfg { bracket_uo = parse_bool val }
    else if bytes_eq key (codes "FreeMarking")
    then record cfg { free_marking = parse_bool val }
    else if bytes_eq key (codes "AutoRestore")
    then record cfg { auto_restore = parse_bool val }
    else if bytes_eq key (codes "Dict")
    then record cfg { dict = parse_bool val }
    else if bytes_eq key (codes "ShowPreedit")
    then record cfg { show_preedit = parse_bool val }
    else if bytes_eq key (codes "AutoEnableA11y")
    then record cfg { auto_enable_a11y = parse_bool val }
    else if bytes_eq key (codes "ChromiumAddressBarMode")
    then record cfg { chromium_address_bar_mode = renamed_mode val }
    else if bytes_eq key (codes "Debug")
    then record cfg { debug = parse_bool val }
    else if bytes_eq key (codes "AutoDelay")
    then record cfg { auto_delay = parse_bool val }
    else if bytes_eq key (codes "EnableMacro")
    then record cfg { enable_macro = parse_bool val }
    else if bytes_eq key (codes "CapitalizeMacro")
    then record cfg { capitalize_macro = parse_bool val }
    else if bytes_eq key (codes "MacroInOffMode")
    then record cfg { macro_in_off_mode = parse_bool val }
    else if bytes_eq key (codes "ModeMenuKey")
    then record cfg { mode_menu_key = val }
    else if bytes_eq key (codes "IconTheme")
    then record cfg { icon_theme = val }
    else if bytes_eq key (codes "CustomIconPath")
    then record cfg { custom_icon_path = val }
    else if bytes_eq key (codes "UpdateChannel")
    then record cfg { update_channel = read_channel val }
    else if bytes_eq key (codes "UILanguage")
    then record cfg { ui_language = read_language val }
    else cfg

abbrev pub read_pair : SKeyConfig → Option (Bytes × Bytes) → SKeyConfig
read_pair cfg none = cfg
read_pair cfg (some (key, val)) = set_key cfg key (strip_quotes val)

-- The body of the loop over the lines.
pub read_line : SKeyConfig → Bytes → SKeyConfig
read_line cfg line = read_pair cfg (key_value line)

pub read_lines : SKeyConfig → List Bytes → SKeyConfig
read_lines cfg [] = cfg
read_lines cfg (line ∷ lines) = read_lines (read_line cfg line) lines

-- "Telex W" was an input method of its own.
pub migrated : SKeyConfig → SKeyConfig
migrated cfg =
    if bytes_eq cfg.input_method (codes "Telex W") || bytes_eq cfg.input_method (codes "TelexW")
    then record cfg { input_method = codes "Telex"; short_w = true }
    else cfg

pub read_skey_config : Option Bytes → SKeyConfig
unfolding read_lines migrated
read_skey_config none = default_config
read_skey_config (some file) = migrated (read_lines default_config (get_lines file))

-- A line of the file: a comment behind its `#`, or a key with what stands behind its `=`.
pub data Line : Type 0 where
  comment : Bytes → Line
  pair : Bytes → Bytes → Line

pub print_line : Line → Bytes
print_line (comment text) = b'#' ∷ text
print_line (pair key val) = key ++ b'=' ∷ val

pub print_channel : UpdateChannel → Bytes
print_channel dev = codes "Dev"
print_channel stable = codes "Stable"

pub config_lines : SKeyConfig → List Line
unfolding print_channel
config_lines cfg =
    comment (codes " Input Method")
    ∷ pair (codes "InputMethod") (maybe_quote cfg.input_method)
    ∷ comment (codes " Output Mode")
    ∷ pair (codes "OutputMode") (maybe_quote cfg.output_mode)
    ∷ pair (codes "PreferLibeiAuto") (bool_str cfg.replace_uinput_with_native)
    ∷ pair (codes "EnableNative") (bool_str cfg.enable_native)
    ∷ comment (codes " Character set (Unicode / TCVN3 (ABC) / VNI Windows / Windows CP1258 / VIQR)")
    ∷ pair (codes "Charset") (maybe_quote cfg.charset)
    ∷ comment (utf8 " Telex: type w as ư")
    ∷ pair (codes "ShortW") (bool_str cfg.short_w)
    ∷ comment (utf8 " Telex: type ][ as ư ơ")
    ∷ pair (codes "BracketUO") (bool_str cfg.bracket_uo)
    ∷ comment (codes " Free marking")
    ∷ pair (codes "FreeMarking") (bool_str cfg.free_marking)
    ∷ comment (codes " Auto restore non-Vietnamese")
    ∷ pair (codes "AutoRestore") (bool_str cfg.auto_restore)
    ∷ comment (codes " Dictionary mode (restore checks real words)")
    ∷ pair (codes "Dict") (bool_str cfg.dict)
    ∷ comment (codes " Show preedit")
    ∷ pair (codes "ShowPreedit") (bool_str cfg.show_preedit)
    ∷ comment (codes " Auto-enable toolkit-accessibility at start")
    ∷ pair (codes "AutoEnableA11y") (bool_str cfg.auto_enable_a11y)
    ∷ comment
        (codes " Chromium address bar mode (Uinput / Surrounding Text / Preedit / No Vietnamese)")
    ∷ pair (codes "ChromiumAddressBarMode") (maybe_quote cfg.chromium_address_bar_mode)
    ∷ comment (codes " Enable debug logging")
    ∷ pair (codes "Debug") (bool_str cfg.debug)
    ∷ comment (codes " Auto-optimise the commit delay per app (learned from typing)")
    ∷ pair (codes "AutoDelay") (bool_str cfg.auto_delay)
    ∷ comment (utf8 " Macro / Gõ tắt")
    ∷ pair (codes "EnableMacro") (bool_str cfg.enable_macro)
    ∷ pair (codes "CapitalizeMacro") (bool_str cfg.capitalize_macro)
    ∷ pair (codes "MacroInOffMode") (bool_str cfg.macro_in_off_mode)
    ∷ pair (codes "ModeMenuKey") (maybe_quote cfg.mode_menu_key)
    ∷ comment (codes " Icon theme (default / v-blue / v-dark / v-light / v-red / vn-flag / custom)")
    ∷ pair (codes "IconTheme") (maybe_quote cfg.icon_theme)
    ∷ comment (codes " Custom icon path (only when IconTheme=custom)")
    ∷ pair (codes "CustomIconPath") (maybe_quote cfg.custom_icon_path)
    ∷ comment (codes " Update channel (Stable / Dev)")
    ∷ pair (codes "UpdateChannel") (print_channel cfg.update_channel)
    ∷ comment (codes " Settings GUI language (vi / en)")
    ∷ pair (codes "UILanguage") cfg.ui_language
    ∷ pair (codes "MacroEditor") (codes "fcitx://config/addon/skey/skey-macro")
    ∷ []

pub print_all : List Line → List Bytes
print_all [] = []
print_all (line ∷ lines) = print_line line ∷ print_all lines

-- The bytes that `writeSkeyConfig` puts into the file.
pub write_skey_config : SKeyConfig → Bytes
unfolding print_all print_line
write_skey_config cfg = print_lines (print_all (config_lines cfg))
