-- ===== src/Uinput/Delay/Headroom.antt =====
-- How long the commit waits behind the last injected deletion.
use skey.Base.{
  ℕ, ◌*◌, ◌/◌, ◌≤◌, ◌≡◌, sym, ap, subst, arith, max, Bool, true, false, not, ◌&&◌, ◌||◌, ltb, leb,
  if◌then◌else◌, negsuc,
}
use native.Mathlib.Nat.{mul-le-mul_right, mul_comm}
use skey.Timing.{clamp}
use skey.Uinput.Delay.{
  App, band, with_floor, browser_floor, band_delay, sleep_cap, terminal_floor, raised, capped,
  first_word, slow_mode, adaptive_delay, settle_delay, eighths, chosen_delay,
}

raised_le : (b : Bool) (floor usec : ℕ) → usec ≤ raised b floor usec
unfolding raised
raised_le b floor usec = ground arith

raised-floor : (b : Bool) (floor usec : ℕ) → b ≡ true → floor ≤ raised b floor usec
unfolding raised
raised-floor b floor usec e = ground (arith, e)

raised-bound :
    (b : Bool) (floor usec limit : ℕ) → floor ≤ limit → usec ≤ limit → raised b floor usec ≤ limit
unfolding raised
raised-bound b floor usec limit h k = ground (arith, h, k)

-- The bounds that std::clamp is given are in order, and not below the floors of the kinds of applications.
record Bounds (app : App) (low high : ℕ) : Type 0 where
  in_order : low ≤ high
  least : 2000 ≤ low
  most : high ≤ 30000
  browser :
      (app.is_chromium && app.is_chromium_browser && not app.in_chromium_address_bar) ≡ true
      → browser_floor app ≤ low

browser_floor-bounds : (app : App) → (15000 ≤ browser_floor app) × (browser_floor app ≤ 30000)
unfolding browser_floor
browser_floor-bounds app = (ground arith, ground arith)

band-Bounds : (app : App) → Bounds app (band app).min_delay (band app).max_delay
unfolding band with_floor
band-Bounds app =
    let f = browser_floor-bounds app in
    record {
      in_order = ground (arith, f.0, f.1);
      least = ground (arith, f.0, f.1);
      most = ground (arith, f.0, f.1);
      browser = λ e. ground (arith, f.0, f.1, e);
    }

clamp_bounds : (v low high : ℕ) → low ≤ high → (low ≤ clamp v low high) × (clamp v low high ≤ high)
clamp_bounds v low high h = (ground (arith, h), ground (arith, h))

sleep_cap-bounds : (rt : ℕ) → (15000 ≤ sleep_cap rt) × (sleep_cap rt ≤ 20000)
unfolding sleep_cap
sleep_cap-bounds rt = (ground arith, ground arith)

terminal_floor_le : (rt : ℕ) → terminal_floor rt ≤ 15000
unfolding terminal_floor
terminal_floor_le rt = ground arith

scaled_le : (k c n : ℕ) → k ≤ c → k * n ≤ n * c
scaled_le k c n h = omega (arith, mul-le-mul_right n h, mul_comm n c)

capped-bounds :
    (app : App) (real_bs ewma usec : ℕ)
    → 2000 ≤ usec
    → usec ≤ 30000
    → (2000 ≤ capped app real_bs ewma usec) × (capped app real_bs ewma usec ≤ 30000)
unfolding capped raised
capped-bounds app real_bs ewma usec h k =
    let c = sleep_cap-bounds ewma in
    (ground (arith, h, k, c.0, c.1), ground (arith, h, k, c.0, c.1))

abbrev browser_page : App → Bool
browser_page app = app.is_chromium && app.is_chromium_browser && not app.in_chromium_address_bar

capped-chromium :
    (app : App) (real_bs ewma usec : ℕ)
    → browser_page app ≡ true
    → capped app real_bs ewma usec ≡ usec
unfolding capped
capped-chromium app real_bs ewma usec e = ground (arith, e)

capped-several :
    (app : App) (real_bs ewma usec : ℕ)
    → (not app.is_wayland && not app.is_chromium && leb 2 real_bs) ≡ true
    → 20000 ≤ capped app real_bs ewma usec
unfolding capped raised
capped-several app real_bs ewma usec e = ground (arith, e)

band_delay-bounds :
    (app : App) (elapsed ewma : ℕ)
    → (2000 ≤ band_delay app elapsed ewma)
      × (band_delay app elapsed ewma ≤ 30000)
      × (browser_page app ≡ true → browser_floor app ≤ band_delay app elapsed ewma)
unfolding band_delay
band_delay-bounds app elapsed ewma =
    let b = band-Bounds app in
    let base = if app.is_wayland || app.is_chromium then ewma else max elapsed (ewma / 2) in
    let c = clamp_bounds (eighths base (band app).multiplier) _ _ b.in_order in
    (omega (arith, c.0, b.least), omega (arith, c.1, b.most), λ e. omega (arith, c.0, b.browser e))

-- The delay after each of the floors, in the order of the code.
record Chain (app : App) (real_bs first last : ℕ) (slow : Bool) : Type 0 where
  grows : first ≤ last
  limited : first ≤ 30000 → last ≤ max 50000 (real_bs * 20000)
  loopback : slow ≡ true → 15000 ≤ last
  wayland : (ltb 0 real_bs && not app.is_chromium && app.is_wayland) ≡ true → real_bs * 6000 ≤ last
  firefox :
      (leb 2 real_bs && app.is_wayland && app.is_firefox_or_snap) ≡ true → real_bs * 20000 ≤ last
  office : (ltb 0 real_bs && app.is_office_suite_app) ≡ true → real_bs * 15000 ≤ last

adaptive_delay-Chain :
    (app : App) (now : ℕ) (slow : Bool) (real_bs elapsed ewma : ℕ)
    → Chain app real_bs
        (capped app real_bs ewma (band_delay app elapsed ewma))
        (adaptive_delay app now slow real_bs elapsed ewma)
        slow
unfolding adaptive_delay
adaptive_delay-Chain app now slow real_bs elapsed ewma =
    let a = capped app real_bs ewma (band_delay app elapsed ewma) in
    let on_wayland = ltb 0 real_bs && not app.is_chromium && app.is_wayland in
    let on_firefox = leb 2 real_bs && app.is_wayland && app.is_firefox_or_snap in
    let on_office = ltb 0 real_bs && app.is_office_suite_app in
    let on_terminal = ltb 0 real_bs && not app.is_wayland && app.is_terminal_app in
    let b = raised (first_word app now) 50000 a in
    let c = raised slow 15000 b in
    let d = raised on_wayland (real_bs * 6000) c in
    let e = raised on_firefox (real_bs * 20000) d in
    let f = raised on_office (real_bs * 15000) e in
    let floor = terminal_floor ewma * real_bs in
    let g = raised on_terminal floor f in
    let ab : a ≤ b = raised_le (first_word app now) 50000 a in
    let bc : b ≤ c = raised_le slow 15000 b in
    let cd : c ≤ d = raised_le on_wayland (real_bs * 6000) c in
    let de : d ≤ e = raised_le on_firefox (real_bs * 20000) d in
    let ef : e ≤ f = raised_le on_office (real_bs * 15000) e in
    let fg : f ≤ g = raised_le on_terminal floor f in
    let gh : g ≤ raised (slow_mode app) 20000 g = raised_le (slow_mode app) 20000 g in
    let limit = max 50000 (real_bs * 20000) in
    let of_terminal : floor ≤ real_bs * 15000 =
      scaled_le _ 15000 real_bs (terminal_floor_le ewma) in
    record {
      grows = omega arith;
      limited = λ h. raised-bound (slow_mode app) 20000 g limit (omega arith) (
          raised-bound on_terminal floor f limit (omega arith) (
            raised-bound on_office (real_bs * 15000) e limit (omega arith) (
              raised-bound on_firefox (real_bs * 20000) d limit (omega arith) (
                raised-bound on_wayland (real_bs * 6000) c limit (omega arith) (
                  raised-bound slow 15000 b limit (omega arith) (
                    raised-bound (first_word app now) 50000 a limit (omega arith)
                      (omega (arith, h))))))));
      loopback = λ t. omega (arith, raised-floor slow 15000 b t);
      wayland = λ t. omega (arith, raised-floor on_wayland (real_bs * 6000) c t);
      firefox = λ t. omega (arith, raised-floor on_firefox (real_bs * 20000) d t);
      office = λ t. omega (arith, raised-floor on_office (real_bs * 15000) e t);
    }

adaptive_settle :
    (app : App) (now : ℕ) (slow : Bool) (real_bs elapsed ewma n : ℕ)
    → app.delays.pre_commit_ms ≡ negsuc n
    → settle_delay app now false slow false real_bs elapsed ewma
      ≡ adaptive_delay app now slow real_bs elapsed ewma
unfolding settle_delay
adaptive_settle app now slow real_bs elapsed ewma n e =
    ap (λ ms. chosen_delay ms false (adaptive_delay app now slow real_bs elapsed ewma)) e

-- What a delay gives the application for so many deletions.
pub record HasHeadroom (app : App) (slow : Bool) (real_bs usec : ℕ) : Type 0 where
  pub least : 2000 ≤ usec
  pub most : usec ≤ max 50000 (real_bs * 20000)
  pub loopback : slow ≡ true → 15000 ≤ usec
  pub wayland :
      (ltb 0 real_bs && not app.is_chromium && app.is_wayland) ≡ true → real_bs * 6000 ≤ usec
  pub firefox :
      (leb 2 real_bs && app.is_wayland && app.is_firefox_or_snap) ≡ true → real_bs * 20000 ≤ usec
  pub office : (ltb 0 real_bs && app.is_office_suite_app) ≡ true → real_bs * 15000 ≤ usec
  pub several : (not app.is_wayland && not app.is_chromium && leb 2 real_bs) ≡ true → 20000 ≤ usec
  pub page :
      (app.is_chromium && app.is_chromium_browser && not app.in_chromium_address_bar) ≡ true
      → browser_floor app ≤ usec

adaptive_delay-HasHeadroom :
    (app : App) (now : ℕ) (slow : Bool) (real_bs elapsed ewma : ℕ)
    → HasHeadroom app slow real_bs (adaptive_delay app now slow real_bs elapsed ewma)
adaptive_delay-HasHeadroom app now slow real_bs elapsed ewma =
    let d = band_delay app elapsed ewma in
    let b = band_delay-bounds app elapsed ewma in
    let c = capped-bounds app real_bs ewma d b.0 b.1 in
    let r = adaptive_delay-Chain app now slow real_bs elapsed ewma in
    record {
      least = omega (arith, c.0, r.grows);
      most = r.limited c.1;
      loopback = r.loopback;
      wayland = r.wayland;
      firefox = r.firefox;
      office = r.office;
      several = λ t. omega (arith, r.grows, capped-several app real_bs ewma d t);
      page = λ t. omega (arith, r.grows, capped-chromium app real_bs ewma d t, b.2 t);
    }

-- Without a manual delay, an awaited acknowledgement or a selection, whatever the round trips are: the commit
-- waits at least 2 ms, and at most 50 ms or 20 ms for each deletion, whichever is more. It waits at least
-- 15 ms after loopbacks that were slow; 6 ms for each deletion in an application on Wayland outside the Chromium
-- family; 20 ms for each of several deletions in Firefox on Wayland; 15 ms for each in an office suite; 20 ms
-- after several deletions in an application on X11 outside the Chromium family; and on a page of a
-- Chromium browser as long as the floor for the kind of input tells. The bounds that std::clamp is given are
-- in order.
pub settle_headroom :
    (app : App) (now : ℕ) (slow : Bool) (real_bs elapsed ewma n : ℕ)
    → app.delays.pre_commit_ms ≡ negsuc n
    → ((band app).min_delay ≤ (band app).max_delay)
      × HasHeadroom app slow real_bs (settle_delay app now false slow false real_bs elapsed ewma)
settle_headroom app now slow real_bs elapsed ewma n e = (
  (band-Bounds app).in_order,
  subst (λ usec. HasHeadroom app slow real_bs usec)
      (sym (adaptive_settle app now slow real_bs elapsed ewma n e))
      (adaptive_delay-HasHeadroom app now slow real_bs elapsed ewma),
)
