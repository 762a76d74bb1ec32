-- ===== src/Uinput/Delay.antt =====
-- src/engine.cpp: the time between the last injected deletion and the commit, as
-- handlePendingUinputBackspace computes it, in microseconds. The answers of the queries on the application
-- are the fields of `App`. The code multiplies doubles and cuts the product to an integer; the factors 0.5,
-- 0.75, 1 and 1.5 stand here as so many eighths, which is exact for times below 2^49. The number of
-- deletions is an `int`, so that no product of it wraps around.
pub mod Headroom
use skey.Base.{
  ℕ, ◌+◌, ◌-◌, ◌*◌, ◌/◌, min, max, Bool, true, false, not, ◌&&◌, ◌||◌, Option, none, some, ltb, leb,
  ◌==◌, if◌then◌else◌, sub64, pos, negsuc, ℤ,
}
use skey.AppDelay.{AppDelayOverride, max_pre_commit_ms}
use skey.DeleteAck.{guard_usec}
use skey.Timing.{clamp}

pub record UinputTiming : Type 0 where
  pub bs_rt_initial_usec : ℕ
  pub bs_rt_multiplier : ℕ
  pub addr_bar_bs_rt_multiplier : ℕ
  pub commit_delay_min_usec : ℕ
  pub addr_bar_commit_delay_min_usec : ℕ
  pub commit_delay_max_usec : ℕ
  pub addr_bar_commit_delay_max_usec : ℕ
  pub chromium_delay_factor : ℕ
  pub safety_timeout_usec : ℕ
  pub safety_retry_usec : ℕ

-- The multipliers are in eighths.
abbrev pub timing_x11 : UinputTiming
timing_x11 = record {
  bs_rt_initial_usec = 5000;
  bs_rt_multiplier = 8;
  addr_bar_bs_rt_multiplier = 12;
  commit_delay_min_usec = 3000;
  addr_bar_commit_delay_min_usec = 10000;
  commit_delay_max_usec = 20000;
  addr_bar_commit_delay_max_usec = 25000;
  chromium_delay_factor = 12;
  safety_timeout_usec = 150000;
  safety_retry_usec = 600000;
}

abbrev pub timing_wayland : UinputTiming
timing_wayland = record {
  bs_rt_initial_usec = 3000;
  bs_rt_multiplier = 4;
  addr_bar_bs_rt_multiplier = 4;
  commit_delay_min_usec = 2000;
  addr_bar_commit_delay_min_usec = 2000;
  commit_delay_max_usec = 12000;
  addr_bar_commit_delay_max_usec = 12000;
  chromium_delay_factor = 12;
  safety_timeout_usec = 80000;
  safety_retry_usec = 600000;
}

abbrev pub uinput_timing : Bool → UinputTiming
uinput_timing is_wayland = if is_wayland then timing_wayland else timing_x11

-- A product with a factor in eighths.
abbrev pub eighths : ℕ → ℕ → ℕ
eighths n factor = n * factor / 8

abbrev pub chrome_x11_commit_delay_min_usec : ℕ
chrome_x11_commit_delay_min_usec = 15000

abbrev pub fb_x11_commit_delay_min_usec : ℕ
fb_x11_commit_delay_min_usec = 30000

abbrev pub chrome_wayland_commit_delay_min_usec : ℕ
chrome_wayland_commit_delay_min_usec = 20000

abbrev pub web_editor_wayland_commit_delay_min_usec : ℕ
web_editor_wayland_commit_delay_min_usec = 30000

abbrev pub first_word_settle_usec : ℕ
first_word_settle_usec = 50000

abbrev pub wayland_native_commit_delay_per_bs_usec : ℕ
wayland_native_commit_delay_per_bs_usec = 6000

abbrev pub firefox_multi_bs_delay_per_bs_usec : ℕ
firefox_multi_bs_delay_per_bs_usec = 20000

abbrev pub wayland_native_commit_delay_max_usec : ℕ
wayland_native_commit_delay_max_usec = 30000

abbrev pub slow_loopback_commit_delay_floor_usec : ℕ
slow_loopback_commit_delay_floor_usec = 15000

abbrev pub uinput_slow_mode_sleep_usec : ℕ
uinput_slow_mode_sleep_usec = 20000

abbrev pub uinput_slow_mode_verify_retries : ℕ
uinput_slow_mode_verify_retries = 3

abbrev pub terminal_floor_per_bs_usec : ℕ
terminal_floor_per_bs_usec = 15000

abbrev pub terminal_floor_max_at_rt_usec : ℕ
terminal_floor_max_at_rt_usec = 10000

abbrev pub terminal_floor_full_rt_usec : ℕ
terminal_floor_full_rt_usec = 30000

abbrev pub terminal_sleep_cap_max_usec : ℕ
terminal_sleep_cap_max_usec = 20000

abbrev pub terminal_sleep_cap_min_usec : ℕ
terminal_sleep_cap_min_usec = 15000

abbrev pub multi_bs_sleep_floor_usec : ℕ
multi_bs_sleep_floor_usec = 20000

-- What the accessibility monitor says of the focus, when there is a monitor.
pub record Monitor : Type 0 where
  pub is_focus_fb_chat_chain : Bool
  pub is_focus_fb_comment_chain : Bool
  pub sheets_editor_focused : Bool

pub record App : Type 0 where
  pub is_wayland : Bool
  pub is_native_x11 : Bool
  pub is_chromium : Bool
  pub is_chromium_browser : Bool
  pub is_firefox_or_snap : Bool
  pub is_terminal_app : Bool
  pub is_terminal_app_name : Bool
  pub has_terminal_capability : Bool
  pub is_office_suite_app : Bool
  pub is_tabby : Bool
  pub in_chromium_address_bar : Bool
  pub monitor : Option Monitor
  pub a11y_fresh_web_editor : Bool
  pub a11y_focus_relevant : Bool
  pub browser_focus_settled : Bool
  pub last_activate_usec : ℕ
  pub auto_delay : Bool
  pub delays : AppDelayOverride

abbrev pub is_x11_tabby : App → Bool
is_x11_tabby app = not app.is_wayland && app.is_tabby && app.is_chromium

abbrev is_fb_input : Option Monitor → Bool
is_fb_input none = false
is_fb_input (some m) = m.is_focus_fb_chat_chain || m.is_focus_fb_comment_chain

abbrev known_input : App → Option Monitor → Bool
known_input app none = false
known_input app (some m) = app.a11y_focus_relevant

abbrev known_sheet : App → Option Monitor → Bool
known_sheet app none = false
known_sheet app (some m) = app.a11y_focus_relevant && m.sheets_editor_focused

pub slow_input : App → Bool
slow_input app =
    is_fb_input app.monitor
    || app.a11y_fresh_web_editor
    || not (known_input app app.monitor)
    || (not app.is_wayland && app.is_chromium_browser && not (known_sheet app app.monitor))

pub browser_floor : App → ℕ
browser_floor app =
    if app.is_wayland
    then (if slow_input app
        then web_editor_wayland_commit_delay_min_usec
        else chrome_wayland_commit_delay_min_usec)
    else (if slow_input app then fb_x11_commit_delay_min_usec else chrome_x11_commit_delay_min_usec)

-- The factor of the round trip, and the bounds of the product.
pub record Band : Type 0 where
  pub multiplier : ℕ
  pub min_delay : ℕ
  pub max_delay : ℕ

pub with_floor : ℕ → Band → Band
with_floor floor b =
    let low = max b.min_delay floor in record b { min_delay = low; max_delay = max b.max_delay low }

pub band : App → Band
unfolding with_floor browser_floor
band app =
    let timing = uinput_timing app.is_wayland in
    let chromium : Band = record {
      multiplier = eighths timing.bs_rt_multiplier timing.chromium_delay_factor;
      min_delay = eighths timing.commit_delay_min_usec timing.chromium_delay_factor;
      max_delay = eighths timing.commit_delay_max_usec timing.chromium_delay_factor;
    } in
    if app.in_chromium_address_bar
    then record {
      multiplier = timing.addr_bar_bs_rt_multiplier;
      min_delay = timing.addr_bar_commit_delay_min_usec;
      max_delay = timing.addr_bar_commit_delay_max_usec;
    }
    else if app.is_chromium
    then (if (not app.is_wayland && not (is_x11_tabby app)) || app.is_chromium_browser
        then with_floor (browser_floor app) chromium
        else chromium)
    else if app.is_wayland
    then record {
      multiplier = timing.bs_rt_multiplier;
      min_delay = 4000;
      max_delay = wayland_native_commit_delay_max_usec;
    }
    else record {
      multiplier = timing.bs_rt_multiplier;
      min_delay = timing.commit_delay_min_usec;
      max_delay = timing.commit_delay_max_usec;
    }

-- The round trip that the delay follows, multiplied and clamped.
pub band_delay : App → ℕ → ℕ → ℕ
unfolding band
band_delay app elapsed ewma =
    let b = band app in
    let base = if app.is_wayland || app.is_chromium then ewma else max elapsed (ewma / 2) in
    clamp (eighths base b.multiplier) b.min_delay b.max_delay

-- The cap of applications on X11 that are not of the Chromium family.
pub sleep_cap : ℕ → ℕ
sleep_cap rt =
    if leb terminal_floor_full_rt_usec rt
    then terminal_sleep_cap_min_usec
    else if leb rt terminal_floor_max_at_rt_usec
    then terminal_sleep_cap_max_usec
    else terminal_sleep_cap_max_usec
      - (terminal_sleep_cap_max_usec - terminal_sleep_cap_min_usec)
        * (rt - terminal_floor_max_at_rt_usec)
        / (terminal_floor_full_rt_usec - terminal_floor_max_at_rt_usec)

-- The time that a terminal is given for each deletion.
pub terminal_floor : ℕ → ℕ
terminal_floor rt =
    if leb terminal_floor_full_rt_usec rt
    then 0
    else if leb rt terminal_floor_max_at_rt_usec
    then terminal_floor_per_bs_usec
    else terminal_floor_per_bs_usec
      * (terminal_floor_full_rt_usec - rt)
      / (terminal_floor_full_rt_usec - terminal_floor_max_at_rt_usec)

pub raised : Bool → ℕ → ℕ → ℕ
raised applies floor usec = if applies then max usec floor else usec

pub capped : App → ℕ → ℕ → ℕ → ℕ
unfolding raised sleep_cap
capped app real_bs ewma usec =
    if not app.is_wayland && not app.is_chromium
    then raised (leb 2 real_bs) multi_bs_sleep_floor_usec (min usec (sleep_cap ewma))
    else usec

pub first_word : App → ℕ → Bool
first_word app now =
    not app.is_wayland
    && app.is_chromium
    && not app.in_chromium_address_bar
    && not (is_x11_tabby app)
    && (not app.is_chromium_browser || not app.browser_focus_settled)
    && ltb 0 app.last_activate_usec
    && ltb (sub64 now app.last_activate_usec) 1000000

pub slow_mode : App → Bool
slow_mode app =
    app.is_wayland
    && app.is_chromium
    && not app.is_chromium_browser
    && not app.is_terminal_app_name
    && not app.has_terminal_capability
    && not app.in_chromium_address_bar

-- The delay that follows from the measured round trips.
pub adaptive_delay : App → ℕ → Bool → ℕ → ℕ → ℕ → ℕ
unfolding raised capped band_delay slow_mode first_word terminal_floor
adaptive_delay app now loopback_slow real_bs elapsed ewma =
    let a = capped app real_bs ewma (band_delay app elapsed ewma) in
    let b = raised (first_word app now) first_word_settle_usec a in
    let c = raised loopback_slow slow_loopback_commit_delay_floor_usec b in
    let d =
      raised (ltb 0 real_bs && not app.is_chromium && app.is_wayland)
        (real_bs * wayland_native_commit_delay_per_bs_usec) c in
    let e =
      raised (leb 2 real_bs && app.is_wayland && app.is_firefox_or_snap)
        (real_bs * firefox_multi_bs_delay_per_bs_usec) d in
    let f = raised (ltb 0 real_bs && app.is_office_suite_app) (real_bs * 15000) e in
    let g =
      raised (ltb 0 real_bs && not app.is_wayland && app.is_terminal_app)
        (terminal_floor ewma * real_bs) f in
    raised (slow_mode app) uinput_slow_mode_sleep_usec g

-- A manual delay, or else the guard of an acknowledgement that is awaited, or else the adaptive delay.
abbrev pub chosen_delay : ℤ → Bool → ℕ → ℕ
chosen_delay (pos ms) ack_active adaptive = min ms max_pre_commit_ms * 1000
chosen_delay (negsuc n) ack_active adaptive = if ack_active then guard_usec else adaptive

pub settle_delay : App → ℕ → Bool → Bool → Bool → ℕ → ℕ → ℕ → ℕ
unfolding adaptive_delay
settle_delay app now ack_active loopback_slow shift_select real_bs elapsed ewma =
    if shift_select
    then 2000
    else chosen_delay app.delays.pre_commit_ms ack_active
        (adaptive_delay app now loopback_slow real_bs elapsed ewma)
