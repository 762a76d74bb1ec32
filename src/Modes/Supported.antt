-- ===== src/Modes/Supported.antt =====
-- Which modes the automatic choice and the configured ones lead to.
use skey.Base.{
  ◌≡◌, ◌⊎◌, ◌∙◌, refl, sym, ap, subst, arith, Bool, true, false, not, ◌&&◌, ◌||◌, none,
  if◌then◌else◌, if_both, if_false, inl, inr, is_empty, leb,
}
use skey.Modes.{
  OutputMode, uinput, surrounding_text, preedit, automatic, native, AddressBarMode, bar_automatic,
  bar_uinput, bar_surrounding_text, bar_preedit, bar_native, bar_select, no_vietnamese, Focus,
  Modes, Choice, refresh_app_mode, resolved_mode, mode_choice, bar_choice, first_choice,
  effective_mode, fresh_choice, address_bar_modes_available, native_mode_enabled, is_native_x11,
  auto_uinput, detect_auto_mode, choose_by_caps, choose_bare, choose_deferred, choose_last,
  is_flicker, is_injected_focus, content_hints, strong_hints,
}

-- A context where surrounding text may work.
abbrev pub offers_surrounding : Focus → Bool
offers_surrounding f =
    f.caps.surrounding_text_flag
    || (f.is_wayland && f.frontend_is_wayland && not f.is_chromium && not f.is_terminal_app)

-- The automatic choice: injected keys, or surrounding text where the context offers it.
abbrev pub Automatic : Focus → OutputMode → Type 0
Automatic f mode =
    (mode ≡ auto_uinput f) ⊎ ((mode ≡ surrounding_text) × (offers_surrounding f ≡ true))

record AutomaticChoice (f : Focus) (r : Choice) : Type 0 where
  choice : Automatic f r.0

injected : (f : Focus) {s : Modes} → AutomaticChoice f (auto_uinput f, s)
injected f = record { choice = inl refl }

shown :
    (f : Focus) {s : Modes} → offers_surrounding f ≡ true → AutomaticChoice f (surrounding_text, s)
shown f e = record { choice = inr (refl, e) }

choose_last-Automatic :
    (f : Focus) (s : Modes)
    → f.caps.surrounding_text_flag ≡ true
    → AutomaticChoice f (choose_last f s)
unfolding choose_last
choose_last-Automatic f s e =
    if_both (λ r. AutomaticChoice f r) (is_empty f.program && not (content_hints f.caps)) _ _
      (λ _. injected f) (λ _. shown f (ground (arith, e)))

choose_deferred-Automatic :
    (f : Focus) (s : Modes)
    → f.caps.surrounding_text_flag ≡ true
    → AutomaticChoice f (choose_deferred f s)
unfolding choose_deferred
choose_deferred-Automatic f s e =
    if_both (λ r. AutomaticChoice f r) (not s.decision_pending) _ _
      (λ _. choose_last-Automatic f s e)
      (λ _.
        if_both (λ r. AutomaticChoice f r) (strong_hints f.caps) _ _
          (λ _. choose_last-Automatic f _ e) (λ _. injected f))

choose_bare-Automatic :
    (f : Focus) (s : Modes)
    → f.caps.surrounding_text_flag ≡ true
    → AutomaticChoice f (choose_bare f s)
unfolding choose_bare
choose_bare-Automatic f s e =
    let ok : offers_surrounding f ≡ true = ground (arith, e) in
    if_both (λ r. AutomaticChoice f r)
      (not f.is_chromium_browser && s.focus_saw_content_hints && not f.a11y_blind) _ _
      (λ _. shown f ok)
      (λ _.
        if_both (λ r. AutomaticChoice f r) f.fresh_web_editor _ _ (λ _. shown f ok)
          (λ _.
            if_both (λ r. AutomaticChoice f r)
              (s.decision_pending && leb s.decision_deadline_usec f.now) _ _ (λ _. injected f)
              (λ _.
                if_both (λ r. AutomaticChoice f r) (not s.decision_pending) _ _ (λ _. injected f)
                  (λ _. injected f))))

choose_by_caps-Automatic : (f : Focus) (s : Modes) → AutomaticChoice f (choose_by_caps f s)
unfolding choose_by_caps
choose_by_caps-Automatic f s =
    if_both (λ r. AutomaticChoice f r) f.is_office_suite_app _ _ (λ _. injected f)
      (λ _.
        if_both (λ r. AutomaticChoice f r) (not f.caps.surrounding_text_flag) _ _
          (λ e.
            if_both (λ mode. AutomaticChoice f (mode, s))
              (f.is_wayland && f.frontend_is_wayland && not f.is_chromium && not f.is_terminal_app)
              _ _ (λ p. shown f (ground (arith, p))) (λ _. injected f))
          (λ e.
            let c : f.caps.surrounding_text_flag ≡ true = ground (arith, e) in
            if_both (λ r. AutomaticChoice f r)
              (f.caps.terminal_flag
                || (f.is_terminal_app && (not f.is_chromium || f.is_terminal_app_name)))
              _ _ (λ _. injected f)
              (λ _.
                if_both (λ r. AutomaticChoice f r) f.in_chromium_address_bar _ _ (λ _. injected f)
                  (λ _.
                    if_both (λ r. AutomaticChoice f r) (f.is_chromium && not f.caps.url_flag) _ _
                      (λ _.
                        if_both (λ r. AutomaticChoice f r) (content_hints f.caps) _ _
                          (λ _. choose_deferred-Automatic f _ c) (λ _. choose_bare-Automatic f s c))
                      (λ _. choose_deferred-Automatic f s c)))))

detect_auto_mode-Automatic : (f : Focus) (s : Modes) → AutomaticChoice f (detect_auto_mode f s)
unfolding detect_auto_mode is_flicker
detect_auto_mode-Automatic f s =
    if_both (λ r. AutomaticChoice f r)
      (s.surrounding_text_failed || (is_empty f.program && f.is_chromium)) _ _ (λ _. injected f)
      (λ _.
        if_both (λ r. AutomaticChoice f r) f.browser_non_entry _ _
          (λ _.
            if_both (λ mode. AutomaticChoice f (mode, s)) (is_flicker f s) _ _
              (λ p. shown f (ground (arith, p))) (λ _. injected f))
          (λ _.
            if_both (λ r. AutomaticChoice f r) (is_injected_focus f) _ _ (λ _. injected f)
              (λ _.
                if_both (λ r. AutomaticChoice f r) (s.bare_caps_uinput && not f.fresh_web_editor) _
                  _ (λ _. injected f) (λ _. choose_by_caps-Automatic f _))))

-- What the mode of a fresh answer may be.
abbrev pub is_supported : Focus → OutputMode → Bool
is_supported f native = native_mode_enabled f
is_supported f automatic = false
is_supported f uinput = true
is_supported f surrounding_text = true
is_supported f preedit = true

auto_uinput-supported : (f : Focus) → is_supported f (auto_uinput f) ≡ true
unfolding auto_uinput
auto_uinput-supported f =
    if_both (λ mode. is_supported f mode ≡ true)
      (is_native_x11 f || (f.config.replace_uinput_with_native && native_mode_enabled f)) _ _
      (λ e. ground (arith, e)) (λ _. refl)

Automatic-supported :
    (f : Focus) (mode : OutputMode) → Automatic f mode → is_supported f mode ≡ true
Automatic-supported f mode (inl e) = ap (is_supported f) e ∙ auto_uinput-supported f
Automatic-supported f mode (inr e) = ap (is_supported f) e.0

-- Native if it is enabled, with any further condition, and else Uinput.
native_if-supported :
    (f : Focus) (b : Bool)
    → (b ≡ true → native_mode_enabled f ≡ true)
    → is_supported f (if b then native else uinput) ≡ true
native_if-supported f true h = h refl
native_if-supported f false h = refl

replaced :
    (f : Focus)
    → (f.config.replace_uinput_with_native && native_mode_enabled f) ≡ true
    → native_mode_enabled f ≡ true
replaced f e = ground (arith, e)

on_x11 : (f : Focus) → is_native_x11 f ≡ true → native_mode_enabled f ≡ true
on_x11 f e = ground (arith, e)

mode_choice-supported :
    (f : Focus) (mode : OutputMode) (s : Modes) → is_supported f (mode_choice f mode s).0 ≡ true
mode_choice-supported f automatic s =
    Automatic-supported f (detect_auto_mode f s).0 (detect_auto_mode-Automatic f s).choice
mode_choice-supported f native s =
    if_both (λ mode. is_supported f mode ≡ true) (native_mode_enabled f) _ _ (λ e. e)
      (λ _.
        native_if-supported f (f.config.replace_uinput_with_native && native_mode_enabled f)
          (replaced f))
mode_choice-supported f uinput s =
    native_if-supported f (f.config.replace_uinput_with_native && native_mode_enabled f)
      (replaced f)
mode_choice-supported f surrounding_text s = refl
mode_choice-supported f preedit s = refl

bar_choice-supported :
    (f : Focus) (mode : AddressBarMode) (s : Modes)
    → is_supported f (first_choice f (bar_choice f mode) s).0 ≡ true
bar_choice-supported f bar_automatic s = native_if-supported f (is_native_x11 f) (on_x11 f)
bar_choice-supported f bar_uinput s =
    native_if-supported f (f.config.replace_uinput_with_native && native_mode_enabled f)
      (replaced f)
bar_choice-supported f bar_surrounding_text s = refl
bar_choice-supported f bar_preedit s = refl
bar_choice-supported f bar_native s = native_if-supported f (native_mode_enabled f) (λ e. e)
bar_choice-supported f bar_select s = native_if-supported f (is_native_x11 f) (on_x11 f)
bar_choice-supported f no_vietnamese s = mode_choice-supported f (resolved_mode f s) s

fresh_choice-supported : (f : Focus) (s : Modes) → is_supported f (fresh_choice f s).0 ≡ true
unfolding fresh_choice
fresh_choice-supported f s =
    if_both (λ mode. is_supported f (first_choice f mode s).0 ≡ true)
      (address_bar_modes_available f) _ _
      (λ _. bar_choice-supported f f.config.chromium_address_bar_mode s)
      (λ _. mode_choice-supported f (resolved_mode f s) s)

fresh_choice-automatic :
    (f : Focus) (s : Modes)
    → address_bar_modes_available f ≡ false
    → resolved_mode f s ≡ automatic
    → Automatic f (fresh_choice f s).0
unfolding fresh_choice
fresh_choice-automatic f s a e =
    subst (λ mode. Automatic f (first_choice f mode s).0)
      (sym (
        if_false (address_bar_modes_available f) (bar_choice f f.config.chromium_address_bar_mode)
          none a))
      (subst (λ mode. Automatic f (mode_choice f mode s).0) (sym e)
        (detect_auto_mode-Automatic f s).choice)

effective_mode-fresh :
    (f : Focus) (s : Modes)
    → s.mode_cache_valid ≡ false
    → (effective_mode f s).0 ≡ (fresh_choice f (refresh_app_mode f s)).0
unfolding effective_mode
effective_mode-fresh f s e = ap (λ (r : Choice). r.0) (if_false s.mode_cache_valid _ _ e)

-- The mode that is answered when none is cached. It is never Auto, and it is Native only where the native
-- mode is enabled, as it is on X11 without a Wayland session. Where no address bar is focused and Auto is
-- resolved for the program, it is the injection of keys, or surrounding text, and that
-- only where the context has the capability or is an application outside the Chromium family and the
-- terminals on the Wayland frontend.
pub answer_supported :
    (f : Focus) (s : Modes)
    → s.mode_cache_valid ≡ false
    → (is_supported f (effective_mode f s).0 ≡ true)
      × (address_bar_modes_available f ≡ false
          → resolved_mode f (refresh_app_mode f s) ≡ automatic
          → Automatic f (effective_mode f s).0)
answer_supported f s e =
    let c = effective_mode-fresh f s e in
    let r = refresh_app_mode f s in
    (
      ap (is_supported f) c ∙ fresh_choice-supported f r,
      λ a m. subst (λ mode. Automatic f mode) (sym c) (fresh_choice-automatic f r a m),
    )
