-- ===== src/AppDelay/Malformed.antt =====
-- Values that the description of `parseAppDelayOverride` calls malformed or out of bounds, and that
-- the code accepts.
use skey.Base.{
  ℕ, ◌%◌, ◌^◌, ◌≤◌, ◌<◌, ◌≡◌, refl, ◌∙◌, [], ◌∷◌, ◌++◌, some, Bytes, arith, pos, u32_mod, c_str,
}
use skey.Base.Decimal.{decimal, strtol}
use skey.AppDelay.{
  cut_comma, to_int, parse_field, last_field, parse_fields, parse_app_delay_override,
}
use skey.AppDelay.Override.{
  decimal-NoComma, cut_comma-append, cut_comma-none, parse_field-decimal, parse-with_comma,
}

-- Three printed numbers or empty fields with commas between them.
abbrev triple : Bytes → ℕ → ℕ → Bytes
triple tok b c = tok ++ (b',' ∷ (decimal b ++ (b',' ∷ decimal c)))

empty_field : parse_field [] ≡ some (pos 0)
unfolding parse_field strtol c_str
empty_field = refl

last_field-decimal : (n : ℕ) → n ≤ 500 → last_field (decimal n) ≡ some (pos n)
unfolding last_field to_int
last_field-decimal n h =
    ground (arith, cut_comma-none (decimal n) (decimal-NoComma n), parse_field-decimal n)

field-decimal : (n : ℕ) → n ≤ 500 → parse_field (decimal n) ≡ some (pos n)
unfolding to_int
field-decimal n h = ground (arith, parse_field-decimal n)

fields-triple :
    (tok : Bytes) (v : ℕ) (b c : ℕ)
    → cut_comma (triple tok b c) ≡ some (tok, decimal b ++ (b',' ∷ decimal c))
    → parse_field tok ≡ some (pos v)
    → v ≤ 100
    → b ≤ 500
    → c ≤ 500
    → parse_app_delay_override (triple tok b c)
      ≡ some (record { pace_ms = pos v; pre_commit_ms = pos b; post_commit_ms = pos c })
unfolding parse_fields
fields-triple tok v b c cut e hv hb hc =
    parse-with_comma (triple tok b c) (λ z. cc (z, cut))
    ∙ (ground (
      arith,
      cut,
      e,
      cut_comma-append (decimal b) (decimal c) (decimal-NoComma b),
      field-decimal b hb,
      last_field-decimal c hc,
    ))

-- An empty first field is accepted as 0 milliseconds.
empty_field_is_zero :
    (b c : ℕ)
    → b ≤ 500
    → c ≤ 500
    → parse_app_delay_override (triple [] b c)
      ≡ some (record { pace_ms = pos 0; pre_commit_ms = pos b; post_commit_ms = pos c })
unfolding cut_comma
empty_field_is_zero b c hb hc = fields-triple [] 0 b c refl empty_field (omega arith) hb hc

-- A first field n of more than 32 bits is not clamped to 100 milliseconds: where n modulo 2^32 is at
-- most 100, that is what is accepted.
huge_field_wraps :
    (n b c : ℕ)
    → n < 2 ^ 63
    → n % u32_mod ≤ 100
    → b ≤ 500
    → c ≤ 500
    → parse_app_delay_override (triple (decimal n) b c)
      ≡ some (record { pace_ms = pos (n % u32_mod); pre_commit_ms = pos b; post_commit_ms = pos c })
unfolding to_int
huge_field_wraps n b c long low hb hc =
    fields-triple (decimal n) (n % u32_mod) b c
      (cut_comma-append (decimal n) (decimal b ++ (b',' ∷ decimal c)) (decimal-NoComma n))
      (ground (arith, parse_field-decimal n)) low hb hc
