-- ===== src/Modes/Examples.antt =====
-- The choice of the output mode at concrete inputs.
use skey.Base.{◌≡◌, refl, arith, true, false, none, [], ◌∷◌, codes, All}
use skey.Modes.{
  automatic, bar_automatic, Focus, init, effective_mode, refresh_app_mode, resolved_mode,
  auto_uinput, content_hints, address_bar_modes_available,
}
use skey.Modes.Stable.{invalidate, refresh, trigger, run_calls, composing_keeps_mode}
use skey.Modes.Supported.{is_supported, Automatic, answer_supported}
use skey.Modes.Sticky.{IsBare, detect_all, any_from, sticks_after_window}

abbrev page : Focus
page = record {
  config = record {
    output_mode = automatic;
    chromium_address_bar_mode = bar_automatic;
    replace_uinput_with_native = false;
    enable_native = false;
  };
  program = codes "chrome";
  value_by_path = λ program. none;
  caps = record {
    surrounding_text_flag = true;
    terminal_flag = false;
    url_flag = false;
    flags = 114;
  };
  wayland_session = true;
  display_is_x11 = false;
  is_wayland = true;
  frontend_is_wayland = true;
  is_chromium = true;
  is_chromium_browser = true;
  is_firefox_browser = false;
  is_firefox_or_snap = false;
  is_terminal_app = false;
  is_terminal_app_name = false;
  is_office_suite_app = false;
  in_chromium_address_bar = false;
  in_firefox_address_bar = false;
  gnome_relay_omnibox = false;
  browser_non_entry = false;
  browser_non_entry_narrow = false;
  chromium_terminal = false;
  code_editor = false;
  sheets_editor_focused = false;
  focus_relevant = true;
  google_docs_focused = false;
  fresh_web_editor = false;
  a11y_blind = false;
  now = 5000000;
}

composing_keeps_mode_example :
    (effective_mode page (
      run_calls true
        (invalidate ∷ refresh page ∷ trigger 0 page ∷ [])
        (effective_mode page init).1)).0
    ≡ (effective_mode page init).0
composing_keeps_mode_example =
    composing_keeps_mode page page (invalidate ∷ refresh page ∷ trigger 0 page ∷ []) init

answer_supported_example :
    (is_supported page (effective_mode page init).0 ≡ true)
    × (address_bar_modes_available page ≡ false
        → resolved_mode page (refresh_app_mode page init) ≡ automatic
        → Automatic page (effective_mode page init).0)
answer_supported_example = answer_supported page init refl

page-IsBare : IsBare page
page-IsBare = record {
  named = refl;
  browser = refl;
  entry = refl;
  plain = refl;
  not_office = refl;
  has_text = refl;
  not_terminal = refl;
  not_bar = refl;
  not_url = refl;
  no_hints = unfold content_hints in refl;
  no_editor = refl;
}

sticks_after_window_example :
    All
      (λ mode. mode ≡ auto_uinput page)
      (detect_all page (1000000 ∷ 2000000 ∷ 4000000 ∷ []) init).0
    × ((detect_all page (1000000 ∷ 2000000 ∷ 4000000 ∷ []) init).1.bare_caps_uinput
        ≡ any_from 3000000 (2000000 ∷ 4000000 ∷ []))
sticks_after_window_example =
    sticks_after_window page 1000000 (2000000 ∷ 4000000 ∷ []) init page-IsBare (omega arith) refl
      refl refl
