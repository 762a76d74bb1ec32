-- ===== src/Modes/Sticky.antt =====
-- A page of a Chromium browser that shows no content hint: the choice is deferred, and then sticks.
use skey.Base.{
  ℕ, ◌+◌, ◌<◌, ◌≡◌, ◌∙◌, refl, sym, ap, subst, arith, Bool, true, false, not, ◌&&◌, ◌||◌, List, [],
  ◌∷◌, leb, if◌then◌else◌, if_true, if_false, is_empty, All, add64, u64_mod,
}
use skey.Modes.{
  OutputMode, Focus, Modes, Choice, auto_uinput, detect_auto_mode, choose_by_caps, choose_bare,
  make_sticky, content_hints, is_injected_focus, decision_window_usec,
}

-- The choice is made at so many times, and nothing else changes.
unfoldable pub detect_all : Focus → List ℕ → Modes → List OutputMode × Modes
detect_all f [] s = ([], s)
detect_all f (t ∷ ts) s =
    let r = detect_auto_mode (record f { now = t }) s in
    let (modes, u) = detect_all f ts r.1 in (r.0 ∷ modes, u)

unfoldable pub any_from : ℕ → List ℕ → Bool
any_from deadline [] = false
any_from deadline (t ∷ ts) = leb deadline t || any_from deadline ts

-- The focus is an ordinary page of a browser, whose capabilities show no content hint.
pub record IsBare (f : Focus) : Type 0 where
  pub named : is_empty f.program ≡ false
  pub browser : (f.is_chromium && f.is_chromium_browser) ≡ true
  pub entry : f.browser_non_entry ≡ false
  pub plain : is_injected_focus f ≡ false
  pub not_office : f.is_office_suite_app ≡ false
  pub has_text : f.caps.surrounding_text_flag ≡ true
  pub not_terminal :
      (f.caps.terminal_flag || (f.is_terminal_app && (not f.is_chromium || f.is_terminal_app_name)))
      ≡ false
  pub not_bar : f.in_chromium_address_bar ≡ false
  pub not_url : f.caps.url_flag ≡ false
  pub no_hints : content_hints f.caps ≡ false
  pub no_editor : f.fresh_web_editor ≡ false

abbrev at : Focus → ℕ → Focus
at f t = record f { now = t }

detect-bare :
    (f : Focus) (t : ℕ) (s : Modes)
    → IsBare f
    → s.surrounding_text_failed ≡ false
    → s.bare_caps_uinput ≡ false
    → detect_auto_mode (at f t) s ≡ choose_bare (at f t) s
unfolding detect_auto_mode choose_by_caps
detect-bare f t s h w b =
    let chromium : f.is_chromium ≡ true = ground (arith, h.browser) in
    let e0 : (s.surrounding_text_failed || (is_empty f.program && f.is_chromium)) ≡ false =
      rw (w, h.named) refl in
    let e1 : (s.bare_caps_uinput && not f.fresh_web_editor) ≡ false = rw b refl in
    let e2 : not f.caps.surrounding_text_flag ≡ false = rw (h.has_text) refl in
    let e3 : (f.is_chromium && not f.caps.url_flag) ≡ true = rw (chromium, h.not_url) refl in
    if_false _ _ _ e0
    ∙ if_false _ _ _ h.entry
    ∙ if_false _ _ _ h.plain
    ∙ if_false _ _ _ e1
    ∙ if_false _ _ _ h.not_office
    ∙ if_false _ _ _ e2
    ∙ if_false _ _ _ h.not_terminal
    ∙ if_false _ _ _ h.not_bar
    ∙ if_true _ _ _ e3
    ∙ if_false _ _ _ h.no_hints
    ∙ ap (choose_bare (at f t)) (if_false _ _ _ b)

detect-sticky :
    (f : Focus) (t : ℕ) (s : Modes)
    → IsBare f
    → s.surrounding_text_failed ≡ false
    → s.bare_caps_uinput ≡ true
    → detect_auto_mode (at f t) s ≡ (auto_uinput f, s)
unfolding detect_auto_mode auto_uinput
detect-sticky f t s h w b =
    let e0 : (s.surrounding_text_failed || (is_empty f.program && f.is_chromium)) ≡ false =
      rw (w, h.named) refl in
    let e1 : (s.bare_caps_uinput && not f.fresh_web_editor) ≡ true = rw (b, h.no_editor) refl in
    if_false _ _ _ e0 ∙ if_false _ _ _ h.entry ∙ if_false _ _ _ h.plain ∙ if_true _ _ _ e1

-- Every answer is the injection of keys, and Uinput sticks or not at the end.
record Injects (f : Focus) (sticks : Bool) (r : List OutputMode × Modes) : Type 0 where
  modes : All (λ mode. mode ≡ auto_uinput f) r.0
  sticky : r.1.bare_caps_uinput ≡ sticks

-- One answer before the others.
before : Focus → List ℕ → Choice → List OutputMode × Modes
before f ts r = (r.0 ∷ (detect_all f ts r.1).0, (detect_all f ts r.1).1)

before-Injects :
    (f : Focus) (ts : List ℕ) (s : Modes) (sticks : Bool)
    → Injects f sticks (detect_all f ts s)
    → Injects f sticks (before f ts (auto_uinput f, s))
unfolding before
before-Injects f ts s sticks h = record { modes = (refl, h.modes); sticky = h.sticky }

sticks_on :
    (f : Focus) (ts : List ℕ) (s : Modes)
    → IsBare f
    → s.surrounding_text_failed ≡ false
    → s.bare_caps_uinput ≡ true
    → Injects f true (detect_all f ts s)
unfolding detect_all before
sticks_on f [] s h w b = record { modes = tt; sticky = b }
sticks_on f (t ∷ ts) s h w b =
    subst (λ r. Injects f true (before f ts r)) (sym (detect-sticky f t s h w b))
      (before-Injects f ts s true (sticks_on f ts s h w b))

choose_bare-waiting :
    (f : Focus) (t : ℕ) (s : Modes)
    → IsBare f
    → s.decision_pending ≡ true
    → choose_bare (at f t) s ≡ (
      auto_uinput f,
      if leb s.decision_deadline_usec t
          then make_sticky f (record s { decision_pending = false })
          else s,
    )
unfolding choose_bare auto_uinput make_sticky
choose_bare-waiting f t s h p =
    let browser : f.is_chromium_browser ≡ true = ground (arith, h.browser) in
    let e0 : (not f.is_chromium_browser && s.focus_saw_content_hints && not f.a11y_blind) ≡ false =
      rw browser refl in
    if_false _ _ _ e0
    ∙ if_false _ _ _ h.no_editor
    ∙ by_time (leb s.decision_deadline_usec t) s.decision_pending p _ _ _ _
  where
    by_time :
        (late pending : Bool)
        → pending ≡ true
        → (mode : OutputMode) (sticky deferred same : Modes)
        → ◌≡◌ {A = Choice}
            (if pending && late
              then (mode, sticky)
              else if not pending
              then (mode, deferred)
              else (mode, same))
            (mode, if late then sticky else same)
    by_time true true e mode sticky deferred same = refl
    by_time false true e mode sticky deferred same = refl
    by_time late false e mode sticky deferred same = absurd (cc)

waits_on :
    (f : Focus) (ts : List ℕ) (s : Modes)
    → IsBare f
    → s.surrounding_text_failed ≡ false
    → s.bare_caps_uinput ≡ false
    → s.decision_pending ≡ true
    → Injects f (any_from s.decision_deadline_usec ts) (detect_all f ts s)
unfolding detect_all any_from before
waits_on f [] s h w b p = record { modes = tt; sticky = b }
waits_on f (t ∷ ts) s h w b p =
    let stuck = make_sticky f (record s { decision_pending = false }) in
    let later = sticks_on f ts stuck h (unfold make_sticky in w) (unfold make_sticky in refl) in
    let still = waits_on f ts s h w b p in
    subst (λ r. Injects f (any_from s.decision_deadline_usec (t ∷ ts)) (before f ts r))
      (sym (detect-bare f t s h w b ∙ choose_bare-waiting f t s h p))
      (by_time (leb s.decision_deadline_usec t) stuck (before-Injects f ts stuck true later)
        (before-Injects f ts s (any_from s.decision_deadline_usec ts) still))
  where
    by_time :
        (late : Bool) (stuck : Modes)
        → Injects f true (before f ts (auto_uinput f, stuck))
        → Injects f (any_from s.decision_deadline_usec ts) (before f ts (auto_uinput f, s))
        → Injects f
            (late || any_from s.decision_deadline_usec ts)
            (before f ts (auto_uinput f, if late then stuck else s))
    by_time true stuck x y = x
    by_time false stuck x y = y

choose_bare-first :
    (f : Focus) (t : ℕ) (s : Modes)
    → IsBare f
    → s.decision_pending ≡ false
    → choose_bare (at f t) s ≡ (
      auto_uinput f,
      record s { decision_pending = true; decision_deadline_usec = add64 t decision_window_usec },
    )
unfolding choose_bare auto_uinput
choose_bare-first f t s h p =
    let browser : f.is_chromium_browser ≡ true = ground (arith, h.browser) in
    let e0 : (not f.is_chromium_browser && s.focus_saw_content_hints && not f.a11y_blind) ≡ false =
      rw browser refl in
    let e1 : (s.decision_pending && leb s.decision_deadline_usec t) ≡ false = rw p refl in
    let e2 : not s.decision_pending ≡ true = rw p refl in
    if_false _ _ _ e0 ∙ if_false _ _ _ h.no_editor ∙ if_false _ _ _ e1 ∙ if_true _ _ _ e2

-- On a page of a Chromium browser that shows no content hint and no web editor, while nothing else of the focus
-- changes and surrounding text has not failed: every automatic choice is the injection of keys. If no choice
-- was pending or stuck before, Uinput sticks behind some choices exactly when one of the later ones is made 2 s
-- or more after the first.
pub sticks_after_window :
    (f : Focus) (first : ℕ) (later : List ℕ) (s : Modes)
    → IsBare f
    → first + decision_window_usec < u64_mod
    → s.surrounding_text_failed ≡ false
    → s.bare_caps_uinput ≡ false
    → s.decision_pending ≡ false
    → All (λ mode. mode ≡ auto_uinput f) (detect_all f (first ∷ later) s).0
      × ((detect_all f (first ∷ later) s).1.bare_caps_uinput
          ≡ any_from (first + decision_window_usec) later)
unfolding detect_all before
sticks_after_window f first later s h k w b p =
    let pending : Modes = record s {
      decision_pending = true;
      decision_deadline_usec = add64 first decision_window_usec;
    } in
    let deadline : add64 first decision_window_usec ≡ first + decision_window_usec =
      grind (arith, k) in
    let r : Injects f (any_from (add64 first decision_window_usec) later)
        (before f later (auto_uinput f, pending)) =
      before-Injects f later pending _ (waits_on f later pending h w b refl) in
    let whole =
      subst (λ c. Injects f (any_from (add64 first decision_window_usec) later) (before f later c))
        (sym (detect-bare f first s h w b ∙ choose_bare-first f first s h p)) r in
    (whole.modes, whole.sticky ∙ ap (λ d. any_from d later) deadline)
