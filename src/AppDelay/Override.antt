-- ===== src/AppDelay/Override.antt =====
-- Reading back what `formatAppDelayOverride` writes, and the bounds of what is read.
use skey.Base.{
  ℕ, zero, suc, ◌-◌, ◌^◌, ◌≤◌, min, ◌≡◌, ◌≢◌, refl, sym, ap, ◌∙◌, true, false, [], ◌∷◌, ◌++◌,
  Option, none, some, Bytes, bytes_eq, bytes_eq_iff, arith, All, codes, ℤ, pos, negsuc, Bool-cases,
  inl, inr, ◌⊎◌, c_str, ltb, subst,
}
use skey.Base.Decimal.{Digit, decimal, to_string, strtol, decimal-digits, strtol-decimal}
use native.Mathlib.Nat.{le_refl}
use skey.AppDelay.{
  AppDelayOverride, automatic, any, is_set, cut_comma, to_int, parse_field, last_field,
  parse_fields, parse_app_delay_override, format_app_delay_override, max_pace_ms, max_pre_commit_ms,
  max_post_commit_ms, clamp_to, ◌>>=◌,
}

-- -1, or a number of milliseconds up to the bound.
abbrev pub FieldInRange : ℕ → ℤ → Type 0
FieldInRange max (pos n) = n ≤ max
FieldInRange max (negsuc n) = n ≡ 0

pub record InRange (o : AppDelayOverride) : Type 0 where
  pub pace : FieldInRange max_pace_ms o.pace_ms
  pub pre_commit : FieldInRange max_pre_commit_ms o.pre_commit_ms
  pub post_commit : FieldInRange max_post_commit_ms o.post_commit_ms

-- No byte is a comma, which holds of every printed field.
abbrev pub NoComma : Bytes → Type 0
NoComma = All (λ c. c ≢ b',')

pub cut_comma-append : (s r : Bytes) → NoComma s → cut_comma (s ++ b',' ∷ r) ≡ some (s, r)
unfolding cut_comma
cut_comma-append [] r h = refl
cut_comma-append (c ∷ s) r h = ground (arith, h.0, cut_comma-append s r h.1)

pub cut_comma-none : (s : Bytes) → NoComma s → cut_comma s ≡ none
unfolding cut_comma
cut_comma-none [] h = refl
cut_comma-none (c ∷ s) h = ground (arith, h.0, cut_comma-none s h.1)

digits-NoComma : (s : Bytes) → All Digit s → NoComma s
digits-NoComma [] h = tt
digits-NoComma (c ∷ s) h = (omega (arith, h.0), digits-NoComma s h.1)

pub decimal-NoComma : (n : ℕ) → NoComma (decimal n)
decimal-NoComma n = digits-NoComma (decimal n) (decimal-digits n)

field-NoComma : (z : ℤ) → NoComma (to_string z)
unfolding to_string
field-NoComma (pos n) = decimal-NoComma n
field-NoComma (negsuc n) = (omega arith, decimal-NoComma (suc n))

pub parse_field-decimal :
    (n : ℕ) → parse_field (decimal n) ≡ some (to_int (pos (min n (2 ^ 63 - 1))))
unfolding parse_field
parse_field-decimal n = rw (strtol-decimal n) refl

minus_one : parse_field (to_string (negsuc 0)) ≡ some (negsuc 0)
unfolding parse_field to_string strtol c_str
minus_one = refl

parse_field-to_string :
    (max : ℕ) (z : ℤ) → max ≤ 500 → FieldInRange max z → parse_field (to_string z) ≡ some z
unfolding to_string
parse_field-to_string max (pos n) small h = parse_field-decimal n ∙ (unfold to_int in ground arith)
parse_field-to_string max (negsuc zero) small h = minus_one
parse_field-to_string max (negsuc (suc n)) small h = absurd (omega arith)

clamped : (max : ℕ) (z : ℤ) → FieldInRange max z → clamp_to z max ≡ z
clamped max (pos n) h = ground arith
clamped max (negsuc n) h = refl

last_field-to_string :
    (max : ℕ) (z : ℤ) → max ≤ 500 → FieldInRange max z → last_field (to_string z) ≡ some z
unfolding last_field
last_field-to_string max z small h =
    ground
      (arith, cut_comma-none (to_string z) (field-NoComma z), parse_field-to_string max z small h)

parse_fields-written :
    (p q t : ℤ)
    → FieldInRange max_pace_ms p
    → FieldInRange max_pre_commit_ms q
    → FieldInRange max_post_commit_ms t
    → parse_fields (to_string p ++ (b',' ∷ (to_string q ++ (b',' ∷ to_string t))))
      ≡ some (record { pace_ms = p; pre_commit_ms = q; post_commit_ms = t })
unfolding parse_fields
parse_fields-written p q t hp hq ht =
    rw (cut_comma-append (to_string p) (to_string q ++ (b',' ∷ to_string t)) (field-NoComma p)) (
      rw (parse_field-to_string max_pace_ms p (omega arith) hp) (
        rw (cut_comma-append (to_string q) (to_string t) (field-NoComma q)) (
          rw (parse_field-to_string max_pre_commit_ms q (omega arith) hq) (
            rw (last_field-to_string max_post_commit_ms t (omega arith) ht) (
              rw
                (
                  clamped max_pace_ms p hp,
                  clamped max_pre_commit_ms q hq,
                  clamped max_post_commit_ms t ht,
                )
                refl)))))

-- A text that has a comma is none of the three spellings of "auto".
pub not_auto : (s : Bytes) (w : Bytes) → NoComma w → cut_comma s ≢ none → bytes_eq s w ≡ false
not_auto s w h k = elim (Bool-cases (bytes_eq s w)) [
  | inl same ↦ absurd (k (ap cut_comma ((bytes_eq_iff s w).0 same) ∙ cut_comma-none w h))
  | inr differ ↦ differ
]

pub parse-with_comma :
    (s : Bytes) → cut_comma s ≢ none → parse_app_delay_override s ≡ parse_fields s
unfolding parse_app_delay_override
parse-with_comma s h = rw (not_auto s (codes "auto") (omega arith) h) (
    rw (not_auto s (codes "Auto") (omega arith) h)
      (rw (not_auto s (codes "AUTO") (omega arith) h) refl))

unset : (max : ℕ) (z : ℤ) → FieldInRange max z → is_set z ≡ false → z ≡ negsuc 0
unset max (pos n) h e = cc
unset max (negsuc n) h e = ap negsuc h

auto_reads : parse_app_delay_override (codes "auto") ≡ some automatic
unfolding parse_app_delay_override bytes_eq
auto_reads = refl

abbrev written : AppDelayOverride → Bytes
written o =
    to_string o.pace_ms
    ++ (b',' ∷ (to_string o.pre_commit_ms ++ (b',' ∷ to_string o.post_commit_ms)))

format-set : (o : AppDelayOverride) → any o ≡ true → format_app_delay_override o ≡ written o
unfolding format_app_delay_override
format-set o h = ground arith

format-unset : (o : AppDelayOverride) → any o ≡ false → format_app_delay_override o ≡ codes "auto"
unfolding format_app_delay_override
format-unset o h = ground arith

unset-automatic : (o : AppDelayOverride) → InRange o → any o ≡ false → o ≡ automatic
unfolding any
unset-automatic o h off = ground (
  arith,
  unset max_pace_ms o.pace_ms h.pace,
  unset max_pre_commit_ms o.pre_commit_ms h.pre_commit,
  unset max_post_commit_ms o.post_commit_ms h.post_commit,
)

written-commas : (o : AppDelayOverride) → cut_comma (written o) ≢ none
written-commas o e = cc (
  e,
  cut_comma-append (to_string o.pace_ms)
      (to_string o.pre_commit_ms ++ (b',' ∷ to_string o.post_commit_ms)) (field-NoComma o.pace_ms),
)

-- An override whose fields are -1 or within their bounds is read back from what is written for it.
parse-format :
    (o : AppDelayOverride)
    → InRange o
    → parse_app_delay_override (format_app_delay_override o) ≡ some o
unfolding format_app_delay_override
parse-format o h = elim (Bool-cases (any o)) [
  | inl set ↦
      ap parse_app_delay_override (format-set o set)
      ∙ parse-with_comma (written o) (written-commas o)
      ∙ parse_fields-written o.pace_ms o.pre_commit_ms o.post_commit_ms h.pace h.pre_commit
          h.post_commit
  | inr off ↦
      ap parse_app_delay_override (format-unset o off)
      ∙ auto_reads
      ∙ ap some (sym (unset-automatic o h off))
]

-- At most the bound, or negative.
abbrev pub AtMost : ℕ → ℤ → Type 0
AtMost max (pos n) = n ≤ max
AtMost max (negsuc n) = Unit {0}

clamp_to-AtMost : (max : ℕ) (z : ℤ) → AtMost max (clamp_to z max)
clamp_to-AtMost max (pos n) = elim (Bool-cases (ltb max n)) [
  | inl over ↦ rw over (le_refl max)
  | inr fits ↦ rw fits (ground arith)
]
clamp_to-AtMost max (negsuc n) = tt

bind-eq_some {ℓ κ} :
    {A : Type ℓ} {B : Type κ} (m : Option A) (f : A → Option B) {b : B}
    → (m >>= f) ≡ some b
    → (a : A) × (m ≡ some a) × (f a ≡ some b)
bind-eq_some none f h = absurd (ground arith)
bind-eq_some (some a) f h = (a, refl, h)

some_inj {ℓ} : {A : Type ℓ} {a b : A} → some a ≡ some b → a ≡ b
some_inj h = cc

fields-clamped :
    (value : Bytes) (o : AppDelayOverride)
    → parse_fields value ≡ some o
    → (p : ℤ) × (q : ℤ) × (t : ℤ) × (o ≡ record {
      pace_ms = clamp_to p max_pace_ms;
      pre_commit_ms = clamp_to q max_pre_commit_ms;
      post_commit_ms = clamp_to t max_post_commit_ms;
    })
unfolding parse_fields
fields-clamped value o h =
    let (c, _, h1) = bind-eq_some (cut_comma value) _ h in
    let (p, _, h2) = bind-eq_some (parse_field c.0) _ h1 in
    let (d, _, h3) = bind-eq_some (cut_comma c.1) _ h2 in
    let (q, _, h4) = bind-eq_some (parse_field d.0) _ h3 in
    let (t, _, h5) = bind-eq_some (last_field d.1) _ h4 in (p, q, t, sym (some_inj h5))

abbrev AllAtMost : AppDelayOverride → Type 0
AllAtMost o =
    AtMost max_pace_ms o.pace_ms
    × AtMost max_pre_commit_ms o.pre_commit_ms
    × AtMost max_post_commit_ms o.post_commit_ms

parse-cases :
    (value : Bytes) (o : AppDelayOverride)
    → parse_app_delay_override value ≡ some o
    → (o ≡ automatic) ⊎ (parse_fields value ≡ some o)
unfolding parse_app_delay_override
parse-cases value o h = ground arith

-- Every field of every accepted value is at most its bound.
parse-AtMost :
    (value : Bytes) (o : AppDelayOverride)
    → parse_app_delay_override value ≡ some o
    → AtMost max_pace_ms o.pace_ms
      × AtMost max_pre_commit_ms o.pre_commit_ms
      × AtMost max_post_commit_ms o.post_commit_ms
parse-AtMost value o h = elim (parse-cases value o h) [
  | inl auto ↦ subst AllAtMost (sym auto) (tt, tt, tt)
  | inr read ↦
      let (p, q, t, e) = fields-clamped value o read in
      subst AllAtMost (sym e) (
        clamp_to-AtMost max_pace_ms p,
        clamp_to-AtMost max_pre_commit_ms q,
        clamp_to-AtMost max_post_commit_ms t,
      )
]
