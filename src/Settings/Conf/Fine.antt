-- ===== src/Settings/Conf/Fine.antt =====
-- The lines of skey.conf: each of them is read back as it is meant.
use skey.Base.{
  ◌≡◌, ◌⊎◌, refl, sym, subst, arith, Bool, true, false, ◌&&◌, ◌||◌, List, [], ◌∷◌, inl, inr, Bytes,
  bytes_eq, codes, utf8,
}
use skey.Settings.Lines.{maybe_quote, bool_str}
use skey.Settings.Lines.Laws.{
  IsLine, IsKey, EndsSolid, is_kept, maybe_quote-EndsSolid, maybe_quote-IsLine, EndsSolid-append,
  lacks, Lacks-of_test, ends_solid, EndsSolid-of_test, is_key, IsKey-of_test,
}
use skey.Settings.Conf.{
  UpdateChannel, stable, dev, SKeyConfig, Line, comment, pair, print_channel, config_lines,
}

-- A line that keeps its key and value.
abbrev pub IsFine : Line → Type 0
IsFine (comment text) = IsLine text
IsFine (pair key val) = IsKey key × IsLine key × IsLine val × EndsSolid (b'=' ∷ val)

abbrev pub IsFineAll : List Line → Type 0
IsFineAll [] = Unit
IsFineAll (l ∷ ls) = IsFine l × IsFineAll ls

-- A text that its line keeps.
abbrev pub Fits : Bytes → Type 0
Fits v = IsLine v × (is_kept v ≡ true)

-- No text is changed by a migration, and each is kept by its line.
pub record IsSavable (cfg : SKeyConfig) : Type 0 where
  pub input_method : Fits cfg.input_method
  pub output_mode : Fits cfg.output_mode
  pub charset : Fits cfg.charset
  pub address_bar : Fits cfg.chromium_address_bar_mode
  pub menu_key : Fits cfg.mode_menu_key
  pub icon_theme : Fits cfg.icon_theme
  pub icon_path : Fits cfg.custom_icon_path
  pub language : (cfg.ui_language ≡ codes "en") ⊎ (cfg.ui_language ≡ codes "vi")
  pub no_old_method :
      (bytes_eq cfg.input_method (codes "Telex W") || bytes_eq cfg.input_method (codes "TelexW"))
      ≡ false
  pub no_old_output : bytes_eq cfg.output_mode (codes "Libei") ≡ false
  pub no_old_bar : bytes_eq cfg.chromium_address_bar_mode (codes "Libei") ≡ false

text-IsFine : (k v : Bytes) → is_key k ≡ true → Fits v → IsFine (pair k (maybe_quote v))
text-IsFine k v hk h = (
  (IsKey-of_test k hk).0,
  (IsKey-of_test k hk).1,
  maybe_quote-IsLine v h.0,
  EndsSolid-append (b'=' ∷ []) (maybe_quote v) (maybe_quote-EndsSolid v h.0 h.1),
)

known-IsFine :
    (k v : Bytes)
    → is_key k ≡ true
    → (lacks b'\n' v && ends_solid (b'=' ∷ v)) ≡ true
    → IsFine (pair k v)
known-IsFine k v hk h = (
  (IsKey-of_test k hk).0,
  (IsKey-of_test k hk).1,
  Lacks-of_test b'\n' v (ground arith),
  EndsSolid-of_test (b'=' ∷ v) (ground arith),
)

bool-IsFine : (k : Bytes) (b : Bool) → is_key k ≡ true → IsFine (pair k (bool_str b))
unfolding bool_str
bool-IsFine k true hk = known-IsFine k (codes "True") hk refl
bool-IsFine k false hk = known-IsFine k (codes "False") hk refl

channel-IsFine :
    (k : Bytes) (c : UpdateChannel) → is_key k ≡ true → IsFine (pair k (print_channel c))
unfolding print_channel
channel-IsFine k stable hk = known-IsFine k (codes "Stable") hk refl
channel-IsFine k dev hk = known-IsFine k (codes "Dev") hk refl

language-IsFine :
    (k l : Bytes) → is_key k ≡ true → (l ≡ codes "en") ⊎ (l ≡ codes "vi") → IsFine (pair k l)
language-IsFine k l hk (inl e) =
    subst (λ v. IsFine (pair k v)) (sym e) (known-IsFine k (codes "en") hk refl)
language-IsFine k l hk (inr e) =
    subst (λ v. IsFine (pair k v)) (sym e) (known-IsFine k (codes "vi") hk refl)

-- The proofs for the lines of a file, one after the other.
infixr 67 ◌⨾◌
◌⨾◌ : {A B : Type 0} → A → B → A × B
a ⨾ b = (a, b)

note : (text : Bytes) → lacks b'\n' text ≡ true → IsLine text
note text h = Lacks-of_test b'\n' text h

pub config_lines-IsFine : (cfg : SKeyConfig) → IsSavable cfg → IsFineAll (config_lines cfg)
unfolding config_lines
config_lines-IsFine cfg h =
    note (codes " Input Method") refl
    ⨾ text-IsFine (codes "InputMethod") cfg.input_method refl h.input_method
    ⨾ note (codes " Output Mode") refl
    ⨾ text-IsFine (codes "OutputMode") cfg.output_mode refl h.output_mode
    ⨾ bool-IsFine (codes "PreferLibeiAuto") cfg.replace_uinput_with_native refl
    ⨾ bool-IsFine (codes "EnableNative") cfg.enable_native refl
    ⨾ note (codes " Character set (Unicode / TCVN3 (ABC) / VNI Windows / Windows CP1258 / VIQR)")
        refl
    ⨾ text-IsFine (codes "Charset") cfg.charset refl h.charset
    ⨾ note (utf8 " Telex: type w as ư") refl
    ⨾ bool-IsFine (codes "ShortW") cfg.short_w refl
    ⨾ note (utf8 " Telex: type ][ as ư ơ") refl
    ⨾ bool-IsFine (codes "BracketUO") cfg.bracket_uo refl
    ⨾ note (codes " Free marking") refl
    ⨾ bool-IsFine (codes "FreeMarking") cfg.free_marking refl
    ⨾ note (codes " Auto restore non-Vietnamese") refl
    ⨾ bool-IsFine (codes "AutoRestore") cfg.auto_restore refl
    ⨾ note (codes " Dictionary mode (restore checks real words)") refl
    ⨾ bool-IsFine (codes "Dict") cfg.dict refl
    ⨾ note (codes " Show preedit") refl
    ⨾ bool-IsFine (codes "ShowPreedit") cfg.show_preedit refl
    ⨾ note (codes " Auto-enable toolkit-accessibility at start") refl
    ⨾ bool-IsFine (codes "AutoEnableA11y") cfg.auto_enable_a11y refl
    ⨾ note
        (codes " Chromium address bar mode (Uinput / Surrounding Text / Preedit / No Vietnamese)")
        refl
    ⨾ text-IsFine (codes "ChromiumAddressBarMode") cfg.chromium_address_bar_mode refl h.address_bar
    ⨾ note (codes " Enable debug logging") refl
    ⨾ bool-IsFine (codes "Debug") cfg.debug refl
    ⨾ note (codes " Auto-optimise the commit delay per app (learned from typing)") refl
    ⨾ bool-IsFine (codes "AutoDelay") cfg.auto_delay refl
    ⨾ note (utf8 " Macro / Gõ tắt") refl
    ⨾ bool-IsFine (codes "EnableMacro") cfg.enable_macro refl
    ⨾ bool-IsFine (codes "CapitalizeMacro") cfg.capitalize_macro refl
    ⨾ bool-IsFine (codes "MacroInOffMode") cfg.macro_in_off_mode refl
    ⨾ text-IsFine (codes "ModeMenuKey") cfg.mode_menu_key refl h.menu_key
    ⨾ note (codes " Icon theme (default / v-blue / v-dark / v-light / v-red / vn-flag / custom)")
        refl
    ⨾ text-IsFine (codes "IconTheme") cfg.icon_theme refl h.icon_theme
    ⨾ note (codes " Custom icon path (only when IconTheme=custom)") refl
    ⨾ text-IsFine (codes "CustomIconPath") cfg.custom_icon_path refl h.icon_path
    ⨾ note (codes " Update channel (Stable / Dev)") refl
    ⨾ channel-IsFine (codes "UpdateChannel") cfg.update_channel refl
    ⨾ note (codes " Settings GUI language (vi / en)") refl
    ⨾ language-IsFine (codes "UILanguage") cfg.ui_language refl h.language
    ⨾ known-IsFine (codes "MacroEditor") (codes "fcitx://config/addon/skey/skey-macro") refl refl
    ⨾ tt
