-- ===== src/Settings/Conf/RoundTrip.antt =====
-- What is written to skey.conf is read back.
use skey.Base.{
  ◌≡◌, ◌∙◌, ◌⊎◌, refl, ap, arith, Bool, true, false, ◌||◌, some, List, [], ◌∷◌, ◌==◌, if_both, inl,
  inr, Bytes, bytes_eq, codes, All,
}
use skey.Settings.Lines.{strip_quotes, maybe_quote, parse_bool, bool_str}
use skey.Settings.Lines.Laws.{
  IsLine, All-append, get_lines-print_lines, key_value-pair, key_value-comment,
  strip_quotes-maybe_quote,
}
use skey.Settings.Conf.{
  UpdateChannel, stable, dev, SKeyConfig, default_config, renamed_mode, read_channel, read_language,
  set_key, read_line, read_lines, read_pair, migrated, read_skey_config, Line, comment, pair,
  print_line, print_channel, config_lines, print_all, write_skey_config,
}
use skey.Settings.Conf.Fine.{IsFine, IsFineAll, Fits, IsSavable, config_lines-IsFine}

print_line-IsLine : (l : Line) → IsFine l → IsLine (print_line l)
unfolding print_line
print_line-IsLine (comment text) h = (refl, h)
print_line-IsLine (pair key val) h =
    All-append (λ c. (c == b'\n') ≡ false) key (b'=' ∷ val) h.1 (refl, h.2)

print_all-IsLine : (ls : List Line) → IsFineAll ls → All IsLine (print_all ls)
unfolding print_all
print_all-IsLine [] h = tt
print_all-IsLine (l ∷ ls) h = (print_line-IsLine l h.0, print_all-IsLine ls h.1)

-- What the lines mean, without the text between.
abbrev means : SKeyConfig → List Line → SKeyConfig
means cfg [] = cfg
means cfg (comment text ∷ ls) = means cfg ls
means cfg (pair key val ∷ ls) = means (set_key cfg key (strip_quotes val)) ls

read_lines-print_all :
    (cfg : SKeyConfig) (ls : List Line)
    → IsFineAll ls
    → read_lines cfg (print_all ls) ≡ means cfg ls
unfolding read_lines read_line print_all print_line
read_lines-print_all cfg [] h = refl
read_lines-print_all cfg (comment text ∷ ls) h =
    ap (λ o. read_lines (read_pair cfg o) (print_all ls)) (key_value-comment text)
    ∙ read_lines-print_all cfg ls h.1
read_lines-print_all cfg (pair key val ∷ ls) h =
    ap (λ o. read_lines (read_pair cfg o) (print_all ls)) (key_value-pair key val h.0.0 h.0.3)
    ∙ read_lines-print_all (set_key cfg key (strip_quotes val)) ls h.1

bool_back : (b : Bool) → parse_bool (strip_quotes (bool_str b)) ≡ b
unfolding parse_bool strip_quotes bool_str bytes_eq
bool_back true = refl
bool_back false = refl

channel_back : (c : UpdateChannel) → read_channel (strip_quotes (print_channel c)) ≡ c
unfolding read_channel strip_quotes print_channel bytes_eq
channel_back stable = refl
channel_back dev = refl

language_back :
    (l : Bytes) → (l ≡ codes "en") ⊎ (l ≡ codes "vi") → read_language (strip_quotes l) ≡ l
unfolding read_language strip_quotes bytes_eq
language_back l (inl e) = rw e refl
language_back l (inr e) = rw e refl

text_back : (v : Bytes) → Fits v → strip_quotes (maybe_quote v) ≡ v
text_back v h = strip_quotes-maybe_quote v h.1

mode_back :
    (v : Bytes)
    → Fits v
    → bytes_eq v (codes "Libei") ≡ false
    → renamed_mode (strip_quotes (maybe_quote v)) ≡ v
unfolding renamed_mode
mode_back v h e = rw (text_back v h, e) refl

means-config_lines :
    (cfg : SKeyConfig) → IsSavable cfg → means default_config (config_lines cfg) ≡ cfg
unfolding config_lines set_key bytes_eq
means-config_lines cfg h =
    rw
      (
        text_back cfg.input_method h.input_method,
        mode_back cfg.output_mode h.output_mode h.no_old_output,
        text_back cfg.charset h.charset,
        mode_back cfg.chromium_address_bar_mode h.address_bar h.no_old_bar,
        text_back cfg.mode_menu_key h.menu_key,
        text_back cfg.icon_theme h.icon_theme,
        text_back cfg.custom_icon_path h.icon_path,
        channel_back cfg.update_channel,
        language_back cfg.ui_language h.language,
        bool_back cfg.replace_uinput_with_native,
        bool_back cfg.enable_native,
        bool_back cfg.short_w,
        bool_back cfg.bracket_uo,
        bool_back cfg.free_marking,
        bool_back cfg.auto_restore,
        bool_back cfg.dict,
        bool_back cfg.show_preedit,
        bool_back cfg.auto_enable_a11y,
        bool_back cfg.debug,
        bool_back cfg.auto_delay,
        bool_back cfg.enable_macro,
        bool_back cfg.capitalize_macro,
        bool_back cfg.macro_in_off_mode,
      )
      refl

unmigrated :
    (cfg : SKeyConfig)
    → (bytes_eq cfg.input_method (codes "Telex W") || bytes_eq cfg.input_method (codes "TelexW"))
      ≡ false
    → migrated cfg ≡ cfg
unfolding migrated
unmigrated cfg h =
    if_both (λ r. r ≡ cfg)
      (bytes_eq cfg.input_method (codes "Telex W") || bytes_eq cfg.input_method (codes "TelexW")) _
      _ (λ e. absurd (ground arith)) (λ _. refl)

-- A configuration that is written to skey.conf is read back field by field, if each text is free of
-- newlines, is quoted or needs no quotes to be kept, and is none of the old names that reading replaces, and
-- if the language of the interface is "en" or "vi".
pub read_skey_config-write :
    (cfg : SKeyConfig) → IsSavable cfg → read_skey_config (some (write_skey_config cfg)) ≡ cfg
unfolding read_skey_config write_skey_config
read_skey_config-write cfg h =
    ap (λ ls. migrated (read_lines default_config ls))
      (get_lines-print_lines (print_all (config_lines cfg))
        (print_all-IsLine (config_lines cfg) (config_lines-IsFine cfg h)))
    ∙ ap migrated (
        read_lines-print_all default_config (config_lines cfg) (config_lines-IsFine cfg h)
        ∙ means-config_lines cfg h)
    ∙ unmigrated cfg h.no_old_method
