-- ===== src/AppDelay.antt =====
-- src/app_delay_key.h: the per-application key and the override values that the addon and the settings
-- window share.
pub mod Key
pub mod Override
pub mod Malformed
mod Examples
use skey.Base.{
  ℕ, zero, suc, ◌-◌, ◌%◌, ◌^◌, Bool, true, false, not, ◌&&◌, ◌||◌, List, [], ◌∷◌, ◌++◌, Option,
  none, some, ltb, ◌==◌, if◌then◌else◌, u32_mod, Bytes, bytes_eq, is_empty, codes, ℤ, pos, negsuc,
}
use skey.Base.Decimal.{to_string, strtol}

pub record AppDelayOverride : Type 0 where
  pub pace_ms : ℤ
  pub pre_commit_ms : ℤ
  pub post_commit_ms : ℤ

abbrev pub automatic : AppDelayOverride
automatic = record { pace_ms = negsuc 0; pre_commit_ms = negsuc 0; post_commit_ms = negsuc 0 }

abbrev pub is_set : ℤ → Bool
is_set (pos n) = true
is_set (negsuc n) = false

pub any : AppDelayOverride → Bool
any o = is_set o.pace_ms || is_set o.pre_commit_ms || is_set o.post_commit_ms

abbrev pub max_pace_ms : ℕ
max_pace_ms = 100

abbrev pub max_pre_commit_ms : ℕ
max_pre_commit_ms = 500

abbrev pub max_post_commit_ms : ℕ
max_post_commit_ms = 500

-- The bytes that `appDelayKey` replaces by '_'.
pub is_unsafe : ℕ → Bool
is_unsafe c =
    c == b'/'
    || c == 92
    || c == b'='
    || c == b'#'
    || c == b';'
    || c == b'['
    || c == b']'
    || c == 34
    || c == 10
    || c == 13
    || c == 9
    || c == 0

pub replace_unsafe : Bytes → Bytes
replace_unsafe [] = []
replace_unsafe (c ∷ s) = (if is_unsafe c then b'_' else c) ∷ replace_unsafe s

abbrev is_blank : ℕ → Bool
is_blank c = c == 32 || c == 9

-- From the first byte that is no blank on.
pub trim_start : Bytes → Bytes
trim_start [] = []
trim_start (c ∷ s) = if is_blank c then trim_start s else c ∷ s

-- Up to the last byte that is no blank.
pub trim_end : Bytes → Bytes
trim_end [] = []
trim_end (c ∷ s) = let rest = trim_end s in if is_blank c && is_empty rest then [] else c ∷ rest

pub app_delay_key : Bytes → Bool → Bytes
app_delay_key prog wayland =
    let k = trim_start (replace_unsafe prog) in
    if is_empty k then [] else trim_end k ++ codes (if wayland then "@w" else "@x")

-- The text before the first comma and the text behind it.
pub cut_comma : Bytes → Option (Bytes × Bytes)
cut_comma [] = none
cut_comma (c ∷ s) =
    let rest = cut_comma s in
    if c == b','
    then some ([], s)
    else elim rest [ none ↦ none | some (tok, r) ↦ some (c ∷ tok, r) ]

-- static_cast<int>(v) of a `long`, which keeps the low 32 bits; the source casts values from -1 on.
pub to_int : ℤ → ℤ
to_int (negsuc n) = negsuc n
to_int (pos n) = let w = n % u32_mod in if ltb w (2 ^ 31) then pos w else negsuc (u32_mod - w - 1)

abbrev below_minus_one : ℤ → Bool
below_minus_one (pos n) = false
below_minus_one (negsuc zero) = false
below_minus_one (negsuc (suc n)) = true

pub parse_field : Bytes → Option ℤ
unfolding to_int
parse_field tok =
    let (v, end) = strtol tok in
    if not (is_empty end) || below_minus_one v then none else some (to_int v)

abbrev clamp_to : ℤ → ℕ → ℤ
clamp_to (pos n) max = if ltb max n then pos max else pos n
clamp_to (negsuc n) max = negsuc n

infixl 5 ◌>>=◌
abbrev pub ◌>>=◌ {ℓ κ} : {A : Type ℓ} {B : Type κ} → Option A → (A → Option B) → Option B
none >>= f = none
some a >>= f = f a

-- The third field: no comma may follow.
pub last_field : Bytes → Option ℤ
last_field s = elim (cut_comma s) [ none ↦ parse_field s | some _ ↦ none ]

-- The loop over the three fields, and the clamping behind it.
pub parse_fields : Bytes → Option AppDelayOverride
unfolding last_field
parse_fields value = do
  (pace, r) ← cut_comma value
  p ← parse_field pace
  (pre, r') ← cut_comma r
  q ← parse_field pre
  t ← last_field r'
  some (record {
    pace_ms = clamp_to p max_pace_ms;
    pre_commit_ms = clamp_to q max_pre_commit_ms;
    post_commit_ms = clamp_to t max_post_commit_ms;
  })

-- `none` is a false return, which leaves the caller's value alone.
pub parse_app_delay_override : Bytes → Option AppDelayOverride
unfolding parse_fields
parse_app_delay_override value =
    if bytes_eq value (codes "auto")
      || bytes_eq value (codes "Auto")
      || bytes_eq value (codes "AUTO")
    then some automatic
    else parse_fields value

pub format_app_delay_override : AppDelayOverride → Bytes
unfolding any
format_app_delay_override o =
    if not (any o)
    then codes "auto"
    else to_string o.pace_ms
      ++ (b',' ∷ (to_string o.pre_commit_ms ++ (b',' ∷ to_string o.post_commit_ms)))
