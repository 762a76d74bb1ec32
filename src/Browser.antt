-- ===== src/Browser.antt =====
-- src/browser_identity.h: which browser a program string names. std::tolower is that of the C locale.
pub mod Name
use skey.Base.{
  ℕ, ◌+◌, ◌-◌, Bool, true, false, not, ◌&&◌, ◌||◌, List, [], ◌∷◌, ◌++◌, ltb, leb, ◌==◌,
  if◌then◌else◌, Bytes, bytes_eq, codes, length, take, drop,
}

pub is_space : ℕ → Bool
is_space c = c == 32 || c == 9 || c == 13 || c == 10

pub to_lower : ℕ → ℕ
to_lower c = if leb b'A' c && leb c b'Z' then c + 32 else c

pub cut_arguments : Bytes → Bytes
cut_arguments [] = []
cut_arguments (c ∷ s) = let rest = cut_arguments s in if is_space c then [] else c ∷ rest

pub lower : Bytes → Bytes
lower [] = []
lower (c ∷ s) = to_lower c ∷ lower s

abbrev pub has_slash : Bytes → Bool
has_slash [] = false
has_slash (c ∷ s) = c == b'/' || has_slash s

-- Behind the last slash, if there is one.
pub base_name : Bytes → Bytes
base_name [] = []
base_name (c ∷ s) = let rest = base_name s in if has_slash (c ∷ s) then rest else c ∷ s

pub drop_desktop : Bytes → Bytes
drop_desktop name =
    let suffix = codes ".desktop" in
    if leb (length suffix) (length name)
      && bytes_eq (drop (length name - length suffix) name) suffix
    then take (length name - length suffix) name
    else name

pub browser_program_name : Bytes → Bytes
browser_program_name program = drop_desktop (base_name (lower (cut_arguments program)))

pub is_vivaldi_browser : Bytes → Bool
is_vivaldi_browser program =
    let name = browser_program_name program in
    bytes_eq name (codes "vivaldi")
    || bytes_eq name (codes "vivaldi-stable")
    || bytes_eq name (codes "vivaldi-snapshot")
    || bytes_eq name (codes "com.vivaldi.vivaldi")

-- std::find in a table of names.
pub is_one_of : Bytes → List Bytes → Bool
is_one_of name [] = false
is_one_of name (n ∷ names) = bytes_eq n name || is_one_of name names

abbrev firefox_names : List Bytes
firefox_names =
    codes "firefox"
    ∷ codes "firefox-bin"
    ∷ codes "firefox-esr"
    ∷ codes "firefox-developer-edition"
    ∷ codes "firefox-nightly"
    ∷ codes "org.mozilla.firefox"
    ∷ codes "org.mozilla.firefoxdeveloperedition"
    ∷ codes "librewolf"
    ∷ codes "io.gitlab.librewolf-community"
    ∷ codes "floorp"
    ∷ codes "one.ablaze.floorp"
    ∷ codes "zen"
    ∷ codes "zen-bin"
    ∷ codes "zen-browser"
    ∷ codes "app.zen_browser.zen"
    ∷ codes "waterfox"
    ∷ codes "net.waterfox.waterfox"
    ∷ codes "icecat"
    ∷ codes "org.gnu.icecat"
    ∷ codes "firedragon"
    ∷ codes "mercury"
    ∷ codes "seamonkey"
    ∷ []

abbrev chromium_names : List Bytes
chromium_names =
    codes "chrome"
    ∷ codes "google-chrome"
    ∷ codes "google-chrome-stable"
    ∷ codes "google-chrome-beta"
    ∷ codes "google-chrome-unstable"
    ∷ codes "chromium"
    ∷ codes "chromium-browser"
    ∷ codes "brave"
    ∷ codes "brave-browser"
    ∷ codes "brave-browser-beta"
    ∷ codes "brave-browser-nightly"
    ∷ codes "vivaldi"
    ∷ codes "vivaldi-stable"
    ∷ codes "vivaldi-snapshot"
    ∷ codes "msedge"
    ∷ codes "msedge-beta"
    ∷ codes "msedge-dev"
    ∷ codes "msedge-canary"
    ∷ codes "microsoft-edge"
    ∷ codes "microsoft-edge-stable"
    ∷ codes "microsoft-edge-beta"
    ∷ codes "microsoft-edge-dev"
    ∷ codes "opera"
    ∷ codes "opera-beta"
    ∷ codes "opera-developer"
    ∷ codes "com.google.chrome"
    ∷ codes "com.google.chrome.beta"
    ∷ codes "com.google.chrome.dev"
    ∷ codes "org.chromium.chromium"
    ∷ codes "com.brave.browser"
    ∷ codes "com.brave.browser.beta"
    ∷ codes "com.brave.browser.nightly"
    ∷ codes "com.vivaldi.vivaldi"
    ∷ codes "com.microsoft.edge"
    ∷ codes "com.opera.opera"
    ∷ []

pub is_firefox_browser : Bytes → Bool
is_firefox_browser program = is_one_of (browser_program_name program) firefox_names

pub is_chromium_browser : Bytes → Bool
is_chromium_browser program = is_one_of (browser_program_name program) chromium_names
