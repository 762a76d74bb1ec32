-- ===== src/Modes.antt =====
-- src/engine.cpp, engine.h and config.h: the choice of the output mode for an input context. What the frontend, the accessibility
-- monitor, the files and the configuration answer during one call is the record `Focus`; the
-- `RawConfig` of fcitx5 is the function from a program to the text that stands for it in
-- conf/skey-app-modes.conf, and the clock is read once for each call.
pub mod Stable
pub mod Supported
pub mod Sticky
mod Examples
use skey.Base.{
  ℕ, zero, suc, ◌+◌, ◌/◌, ◌%◌, ◌^◌, Bool, true, false, not, ◌&&◌, ◌||◌, Option, none, some, List,
  [], ◌∷◌, leb, ltb, ◌==◌, if◌then◌else◌, Bytes, bytes_eq, is_empty, codes, add64, sub64,
}
use skey.Settings.Lines.{strip_quotes}

pub data OutputMode : Type 0 where
  uinput : OutputMode
  surrounding_text : OutputMode
  preedit : OutputMode
  automatic : OutputMode
  native : OutputMode

pub data AddressBarMode : Type 0 where
  bar_automatic : AddressBarMode
  bar_uinput : AddressBarMode
  bar_surrounding_text : AddressBarMode
  bar_preedit : AddressBarMode
  bar_native : AddressBarMode
  bar_select : AddressBarMode
  no_vietnamese : AddressBarMode

-- The capability flags: three that fcitx5 names, and all of them as one number.
pub record Capabilities : Type 0 where
  pub surrounding_text_flag : Bool
  pub terminal_flag : Bool
  pub url_flag : Bool
  pub flags : ℕ

abbrev has_bit : ℕ → ℕ → Bool
has_bit flags k = flags / 2 ^ k % 2 == 1

any_bit : List ℕ → ℕ → Bool
any_bit [] flags = false
any_bit (k ∷ ks) flags = has_bit flags k || any_bit ks flags

-- Numeric and upper-case words, spell checking and the like; the bits are numbered as in the code.
abbrev pub content_hint_bits : List ℕ
content_hint_bits = 3 ∷ 7 ∷ 8 ∷ 9 ∷ 10 ∷ 11 ∷ 13 ∷ 14 ∷ 15 ∷ 16 ∷ 17 ∷ 18 ∷ 19 ∷ 20 ∷ 21 ∷ 22 ∷ []

abbrev pub strong_hint_bits : List ℕ
strong_hint_bits = 3 ∷ 7 ∷ 8 ∷ 9 ∷ 10 ∷ 14 ∷ 16 ∷ 17 ∷ 18 ∷ 20 ∷ 21 ∷ 22 ∷ []

pub content_hints : Capabilities → Bool
unfolding any_bit
content_hints c = any_bit content_hint_bits c.flags

pub strong_hints : Capabilities → Bool
unfolding any_bit
strong_hints c = any_bit strong_hint_bits c.flags

pub record Config : Type 0 where
  pub output_mode : OutputMode
  pub chromium_address_bar_mode : AddressBarMode
  pub replace_uinput_with_native : Bool
  pub enable_native : Bool

pub record Focus : Type 0 where
  pub config : Config
  pub program : Bytes
  pub value_by_path : Bytes → Option Bytes
  pub caps : Capabilities
  pub wayland_session : Bool
  pub display_is_x11 : Bool
  pub is_wayland : Bool
  pub frontend_is_wayland : Bool
  pub is_chromium : Bool
  pub is_chromium_browser : Bool
  pub is_firefox_browser : Bool
  pub is_firefox_or_snap : Bool
  pub is_terminal_app : Bool
  pub is_terminal_app_name : Bool
  pub is_office_suite_app : Bool
  pub in_chromium_address_bar : Bool
  pub in_firefox_address_bar : Bool
  pub gnome_relay_omnibox : Bool
  pub browser_non_entry : Bool
  pub browser_non_entry_narrow : Bool
  pub chromium_terminal : Bool
  pub code_editor : Bool
  pub sheets_editor_focused : Bool
  pub focus_relevant : Bool
  pub google_docs_focused : Bool
  pub fresh_web_editor : Bool
  pub a11y_blind : Bool
  pub now : ℕ

-- What the input context and the addon remember.
pub record Modes : Type 0 where
  pub has_app_mode_override : Bool
  pub app_excluded : Bool
  pub app_mode_override : OutputMode
  pub cached_program : Bytes
  pub mode_cache_valid : Bool
  pub cached_mode : OutputMode
  pub trigger_backoff_until_usec : ℕ
  pub bare_caps_uinput : Bool
  pub focus_saw_content_hints : Bool
  pub surrounding_text_failed : Bool
  pub decision_pending : Bool
  pub decision_deadline_usec : ℕ
  pub had_bare_caps : Bool
  pub bare_caps_program : Bytes

-- A name that no program has.
abbrev pub no_program : Bytes
no_program = 1 ∷ []

abbrev pub init : Modes
init = record {
  has_app_mode_override = false;
  app_excluded = false;
  app_mode_override = surrounding_text;
  cached_program = no_program;
  mode_cache_valid = false;
  cached_mode = surrounding_text;
  trigger_backoff_until_usec = 0;
  bare_caps_uinput = false;
  focus_saw_content_hints = false;
  surrounding_text_failed = false;
  decision_pending = false;
  decision_deadline_usec = 0;
  had_bare_caps = false;
  bare_caps_program = [];
}

abbrev pub is_native_x11 : Focus → Bool
is_native_x11 f = not f.wayland_session && f.display_is_x11

abbrev pub native_mode_enabled : Focus → Bool
native_mode_enabled f = is_native_x11 f || f.config.enable_native

abbrev pub address_bar_modes_available : Focus → Bool
address_bar_modes_available f =
    f.in_chromium_address_bar || f.in_firefox_address_bar || f.gnome_relay_omnibox

pub invalidate_app_mode_override_cache : Bool → Modes → Modes
invalidate_app_mode_override_cache composing s = record s {
  cached_program = no_program;
  mode_cache_valid = composing && s.mode_cache_valid;
}

abbrev pub saved_mode : OutputMode → Bytes → OutputMode
saved_mode other text =
    if bytes_eq text (codes "Preedit")
    then preedit
    else if bytes_eq text (codes "SurroundingTextSlow")
        || bytes_eq text (codes "SurroundingText")
        || bytes_eq text (codes "Surrounding Text")
    then surrounding_text
    else if bytes_eq text (codes "Native") || bytes_eq text (codes "Libei")
    then native
    else if bytes_eq text (codes "Uinput")
    then uinput
    else other

abbrev with_mode : Config → Option Bytes → Modes → Modes
with_mode config none s = s
with_mode config (some value) s =
    let text = strip_quotes value in
    if bytes_eq text (codes "Excluded") then record s { app_excluded = true } else record s {
      app_mode_override = saved_mode config.output_mode text;
      has_app_mode_override = true;
    }

pub refresh_app_mode : Focus → Modes → Modes
refresh_app_mode f s =
    if bytes_eq f.program s.cached_program
    then s
    else with_mode f.config (f.value_by_path f.program) (record s {
      cached_program = f.program;
      has_app_mode_override = false;
      app_excluded = false;
    })

pub clear_engine_bare_caps_sticky : Modes → Modes
clear_engine_bare_caps_sticky s =
    if s.had_bare_caps then record s { had_bare_caps = false; bare_caps_program = [] } else s

-- Uinput as the automatic choice.
pub auto_uinput : Focus → OutputMode
auto_uinput f =
    if is_native_x11 f || (f.config.replace_uinput_with_native && native_mode_enabled f)
    then native
    else uinput

abbrev pub decision_window_usec : ℕ
decision_window_usec = 2000000

abbrev pub Choice : Type 0
Choice = OutputMode × Modes

-- Uinput stays the choice for this program.
pub make_sticky : Focus → Modes → Modes
make_sticky f s = record s {
  bare_caps_uinput = true;
  bare_caps_program = f.program;
  had_bare_caps = true;
}

-- A Chromium application that shows no content hint.
pub choose_bare : Focus → Modes → Choice
unfolding auto_uinput make_sticky clear_engine_bare_caps_sticky
choose_bare f s =
    if not f.is_chromium_browser && s.focus_saw_content_hints && not f.a11y_blind
    then (surrounding_text, s)
    else if f.fresh_web_editor
    then (surrounding_text, clear_engine_bare_caps_sticky (record s { decision_pending = false }))
    else if s.decision_pending && leb s.decision_deadline_usec f.now
    then (auto_uinput f, make_sticky f (record s { decision_pending = false }))
    else if not s.decision_pending
    then (
      auto_uinput f,
      record s {
        decision_pending = true;
        decision_deadline_usec = add64 f.now decision_window_usec;
      },
    )
    else (auto_uinput f, s)

-- The last choice, for a program that may be unknown yet.
pub choose_last : Focus → Modes → Choice
unfolding auto_uinput
choose_last f s =
    if is_empty f.program && not (content_hints f.caps)
    then (auto_uinput f, s)
    else (surrounding_text, s)

-- A decision that was deferred is made.
pub choose_deferred : Focus → Modes → Choice
unfolding auto_uinput make_sticky clear_engine_bare_caps_sticky choose_last
choose_deferred f s =
    if not s.decision_pending
    then choose_last f s
    else if strong_hints f.caps
    then choose_last f (clear_engine_bare_caps_sticky (record s { decision_pending = false }))
    else (auto_uinput f, make_sticky f (record s { decision_pending = false }))

-- The choice by the application and its capabilities.
pub choose_by_caps : Focus → Modes → Choice
unfolding auto_uinput choose_bare choose_deferred
choose_by_caps f s =
    if f.is_office_suite_app
    then (auto_uinput f, s)
    else if not f.caps.surrounding_text_flag
    then (
      if f.is_wayland && f.frontend_is_wayland && not f.is_chromium && not f.is_terminal_app
          then surrounding_text
          else auto_uinput f,
      s,
    )
    else if f.caps.terminal_flag
        || (f.is_terminal_app && (not f.is_chromium || f.is_terminal_app_name))
    then (auto_uinput f, s)
    else if f.in_chromium_address_bar
    then (auto_uinput f, s)
    else if f.is_chromium && not f.caps.url_flag
    then (if content_hints f.caps
        then choose_deferred f (record s { focus_saw_content_hints = true })
        else choose_bare f s)
    else choose_deferred f s

-- A web editor of a browser on X11 whose focus only flickers.
pub is_flicker : Focus → Modes → Bool
is_flicker f s =
    s.mode_cache_valid
    && elim s.cached_mode [ surrounding_text ↦ true | _ ↦ false ]
    && f.caps.surrounding_text_flag
    && not f.is_wayland
    && f.is_chromium
    && f.is_chromium_browser
    && not f.in_chromium_address_bar
    && not f.browser_non_entry_narrow
    && not f.sheets_editor_focused

-- The focus is where surrounding text does not work.
abbrev pub is_injected_focus : Focus → Bool
is_injected_focus f =
    f.chromium_terminal
    || f.code_editor
    || (f.is_chromium_browser && f.sheets_editor_focused && f.focus_relevant)
    || (f.is_firefox_browser && f.google_docs_focused)

pub detect_auto_mode : Focus → Modes → Choice
unfolding auto_uinput choose_by_caps is_flicker clear_engine_bare_caps_sticky
detect_auto_mode f s =
    if s.surrounding_text_failed || (is_empty f.program && f.is_chromium)
    then (auto_uinput f, s)
    else if f.browser_non_entry
    then (if is_flicker f s then surrounding_text else auto_uinput f, s)
    else if is_injected_focus f
    then (auto_uinput f, s)
    else if s.bare_caps_uinput && not f.fresh_web_editor
    then (auto_uinput f, s)
    else choose_by_caps f (if s.bare_caps_uinput then clear_engine_bare_caps_sticky s else s)

-- A mode that is configured for the address bar; none if the general modes apply.
abbrev pub bar_choice : Focus → AddressBarMode → Option OutputMode
bar_choice f bar_automatic = some (if is_native_x11 f then native else uinput)
bar_choice f bar_uinput =
    some (if f.config.replace_uinput_with_native && native_mode_enabled f then native else uinput)
bar_choice f bar_surrounding_text = some surrounding_text
bar_choice f bar_preedit = some preedit
bar_choice f bar_native = some (if native_mode_enabled f then native else uinput)
bar_choice f bar_select = some (if is_native_x11 f then native else uinput)
bar_choice f no_vietnamese = none

-- A mode that is configured, or the automatic choice.
abbrev pub mode_choice : Focus → OutputMode → Modes → Choice
mode_choice f automatic s = detect_auto_mode f s
mode_choice f native s = (
  if native_mode_enabled f
      then native
      else if f.config.replace_uinput_with_native && native_mode_enabled f
      then native
      else uinput,
  s,
)
mode_choice f uinput s =
    (if f.config.replace_uinput_with_native && native_mode_enabled f then native else uinput, s)
mode_choice f surrounding_text s = (surrounding_text, s)
mode_choice f preedit s = (preedit, s)

abbrev pub resolved_mode : Focus → Modes → OutputMode
resolved_mode f s = if s.has_app_mode_override then s.app_mode_override else f.config.output_mode

abbrev pub general_choice : Focus → Modes → Choice
general_choice f s = mode_choice f (resolved_mode f s) s

abbrev pub first_choice : Focus → Option OutputMode → Modes → Choice
first_choice f none s = general_choice f s
first_choice f (some mode) s = (mode, s)

-- The choice of a call that finds no cached mode.
pub fresh_choice : Focus → Modes → Choice
unfolding detect_auto_mode
fresh_choice f s =
    first_choice f
      (if address_bar_modes_available f
        then bar_choice f f.config.chromium_address_bar_mode
        else none)
      s

abbrev pub cached : Choice → Choice
cached (mode, s) = (mode, record s { cached_mode = mode; mode_cache_valid = true })

pub effective_mode : Focus → Modes → Choice
unfolding refresh_app_mode fresh_choice
effective_mode f s =
    if s.mode_cache_valid
    then (s.cached_mode, s)
    else cached (fresh_choice f (refresh_app_mode f s))

abbrev is_injecting : OutputMode → Bool
is_injecting uinput = true
is_injecting native = true
is_injecting _ = false

pub is_trigger : Focus → Modes → Bool
is_trigger f s =
    let not_injecting = not s.mode_cache_valid || not (is_injecting s.cached_mode) in
    s.decision_pending
    || f.fresh_web_editor
    || (f.browser_non_entry_narrow && not_injecting)
    || ((f.chromium_terminal || f.code_editor) && not_injecting)
    || (f.google_docs_focused && not_injecting)

-- The part of `keyEvent` that has the mode chosen again at the beginning of a word. The arguments say whether
-- a word is composed, and when the context was activated.
pub reevaluate : Bool → ℕ → Focus → Modes → Modes
unfolding is_trigger
reevaluate composing last_activate_usec f s =
    let stabilizing =
      f.is_wayland
      && (f.is_firefox_or_snap || f.is_chromium_browser)
      && not composing
      && ltb 0 last_activate_usec
      && ltb (sub64 f.now last_activate_usec) 500000 in
    if not composing
      && is_trigger f s
      && not stabilizing
      && (s.decision_pending || not s.mode_cache_valid || leb s.trigger_backoff_until_usec f.now)
    then record s {
      mode_cache_valid = false;
      trigger_backoff_until_usec =
          if s.decision_pending then s.trigger_backoff_until_usec else add64 f.now 10000000;
    }
    else s
