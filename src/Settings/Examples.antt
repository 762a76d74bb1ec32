-- ===== src/Settings/Examples.antt =====
-- The settings files at concrete inputs.
use skey.Base.{ℕ, ◌+◌, ◌≡◌, refl, true, false, some, [], ◌∷◌, codes, bytes_eq, inl, inr}
use skey.Settings.Lines.{get_lines, rtrim, needs_quotes, last_is, is_quoted}
use skey.Settings.Lines.Laws.{Lacks-of_test, EndsSolid-of_test, is_kept}
use skey.Settings.Conf.{SKeyConfig, default_config, read_skey_config, write_skey_config}
use skey.Settings.Conf.Fine.{IsSavable}
use skey.Settings.Conf.RoundTrip.{read_skey_config-write}
use skey.Settings.Trigger.{read_trigger_key, write_trigger_key, default_key}
use skey.Settings.Trigger.RoundTrip.{read_trigger_key-write}
use skey.Settings.Words.{read_user_dict, write_user_dict, load_user_dict}
use skey.Settings.Words.RoundTrip.{user_dict-write, add_words}
use skey.Engine.{Core, VietnameseEngine, telex, modern, clear_words}

abbrev vni_config : SKeyConfig
vni_config = record default_config {
  input_method = codes "VNI";
  short_w = true;
  output_mode = codes "Surrounding Text";
}

vni_config-IsSavable : IsSavable vni_config
unfolding is_kept needs_quotes last_is is_quoted bytes_eq
vni_config-IsSavable = record {
  input_method = (Lacks-of_test b'\n' (codes "VNI") refl, refl);
  output_mode = (Lacks-of_test b'\n' (codes "Surrounding Text") refl, refl);
  charset = (Lacks-of_test b'\n' (codes "Unicode") refl, refl);
  address_bar = (Lacks-of_test b'\n' (codes "Auto") refl, refl);
  menu_key = (Lacks-of_test b'\n' (codes "grave") refl, refl);
  icon_theme = (Lacks-of_test b'\n' (codes "default") refl, refl);
  icon_path = (tt, refl);
  language = inr refl;
  no_old_method = refl;
  no_old_output = refl;
  no_old_bar = refl;
}

read_skey_config-write_example : read_skey_config (some (write_skey_config vni_config)) ≡ vni_config
read_skey_config-write_example = read_skey_config-write vni_config vni_config-IsSavable

read_trigger_key-write_example :
    read_trigger_key ((write_trigger_key (some (codes "[Hotkey]")) (codes "Super+space") true).0)
    ≡ codes "Super+space"
read_trigger_key-write_example =
    read_trigger_key-write (some (codes "[Hotkey]")) (codes "Super+space") (
      inr (
        (
          Lacks-of_test b'\n' (codes "Super+space") refl,
          EndsSolid-of_test (codes "Super+space") refl,
        ),
        refl,
      ))

-- Unbinding the trigger in a file without the section is not remembered.
unbound : read_trigger_key ((write_trigger_key (some (codes "[Hotkey]")) [] true).0) ≡ default_key
unfolding get_lines bytes_eq rtrim
unbound = read_trigger_key-write (some (codes "[Hotkey]")) [] (inl refl)

-- A foreign engine that counts the words it was given.
abbrev counting : Core
counting = record {
  Handle = ℕ;
  new = λ m. 0;
  engine_set_method = λ h m. h;
  engine_set_tone_style = λ h n. h;
  engine_set_free_marking = λ h n. h;
  engine_set_auto_restore = λ h n. h;
  engine_set_dict = λ h n. h;
  engine_set_short_w = λ h n. h;
  engine_set_bracket_uo = λ h n. h;
  engine_add_word = λ h w. h + 1;
  engine_clear_words = λ h. 0;
  transform = λ h s. (some s, h);
}

abbrev with_words : VietnameseEngine ℕ
with_words = record {
  handle = 7;
  method = telex;
  tone_style = modern;
  free_marking = false;
  auto_restore = true;
  dict = true;
  short_w = false;
  bracket_uo = false;
  raw_input = [];
  composed = [];
  english_bypass = false;
  committed = [];
}

user_dict-write_example :
    (read_user_dict (some (write_user_dict (codes "zalo" ∷ (codes "hi fi" ∷ []))))
      ≡ codes "zalo" ∷ (codes "hi fi" ∷ []))
    × (load_user_dict counting with_words
          (some (write_user_dict (codes "zalo" ∷ (codes "hi fi" ∷ []))))
        ≡ add_words counting
            (clear_words counting with_words)
            (codes "zalo" ∷ (codes "hi fi" ∷ [])))
user_dict-write_example =
    user_dict-write counting with_words (codes "zalo" ∷ (codes "hi fi" ∷ [])) (
      (Lacks-of_test b'\n' (codes "zalo") refl, refl, refl),
      ((Lacks-of_test b'\n' (codes "hi fi") refl, refl, refl), tt),
    )
