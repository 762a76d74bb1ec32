-- ===== src/Base/Decimal.antt =====
-- The decimal conversions of the C and C++ libraries, as far as the source uses them: `std::to_string`
-- of a number, and `strtol` in base 10 with a 64-bit `long`.
use Prim.Native.Nat.{ℕ, zero, suc, ◌+◌, ◌-◌, ◌*◌, ◌/◌, ◌%◌, ◌^◌, ◌≤◌, ◌<◌, min}
use mathlib.Core.Bool.{Bool, true, false, ◌&&◌, ◌||◌}
use mathlib.Core.List.{[], ◌∷◌}
use mathlib.Core.Path.{◌≡◌, refl, sym, ap, subst, ◌∙◌}
use mathlib.Core.Logic.{inl, inr}
use native.Mathlib.Omega.{arith}
use skey.Base.Tests.{Bool-cases, ltb, leb, ◌==◌, if◌then◌else◌}
use skey.Base.Lists.{All}
use skey.Base.Text.{Bytes, c_str}
use skey.Base.Int.{ℤ, pos, negsuc}

-- The digits of `n` in front of `out`; `n + 1` rounds are enough.
emit : ℕ → ℕ → Bytes → Bytes
emit zero n out = out
emit (suc fuel) n out =
    let rest = emit fuel (n / 10) ((b'0' + n % 10) ∷ out) in
    if ltb n 10 then (b'0' + n) ∷ out else rest

pub decimal : ℕ → Bytes
decimal n = emit (suc n) n []

unfoldable pub to_string : ℤ → Bytes
unfolding decimal emit
to_string (pos n) = decimal n
to_string (negsuc n) = b'-' ∷ decimal (suc n)

-- isspace in the C locale
abbrev pub is_space : ℕ → Bool
is_space c = (leb 9 c && leb c 13) || c == 32

abbrev pub is_digit : ℕ → Bool
is_digit c = leb b'0' c && leb c b'9'

skip_spaces : Bytes → Bytes
skip_spaces [] = []
skip_spaces (c ∷ s) = if is_space c then skip_spaces s else c ∷ s

-- The value of the digits at the front and what stands behind them.
scan : ℕ → Bytes → ℕ × Bytes
scan n [] = (n, [])
scan n (c ∷ s) = let rest = scan (n * 10 + (c - b'0')) s in if is_digit c then rest else (n, c ∷ s)

abbrev saturated : Bool → ℕ → ℤ
saturated false n = pos (min n (2 ^ 63 - 1))
saturated true zero = pos 0
saturated true (suc n) = negsuc (min n (2 ^ 63 - 1))

-- The conversion behind the sign; without a digit, `end` is the start of the whole text.
convert : Bool → Bytes → Bytes → ℤ × Bytes
unfolding scan
convert negative [] whole = (pos 0, whole)
convert negative (c ∷ s) whole =
    let (n, rest) = scan 0 (c ∷ s) in
    if is_digit c then (saturated negative n, rest) else (pos 0, whole)

signed : Bytes → Bytes → ℤ × Bytes
unfolding convert
signed [] whole = convert false [] whole
signed (c ∷ s) whole =
    if c == b'-'
    then convert true s whole
    else if c == b'+'
    then convert false s whole
    else convert false (c ∷ s) whole

-- The value, and the text from `end` on, of `strtol(s.c_str(), &end, 10)`.
unfoldable pub strtol : Bytes → ℤ × Bytes
unfolding signed skip_spaces
strtol s = signed (skip_spaces (c_str s)) (c_str s)

abbrev pub Digit : ℕ → Type 0
Digit c = (b'0' ≤ c) × (c ≤ b'9')

emit-digits : (fuel n : ℕ) (out : Bytes) → All Digit out → All Digit (emit fuel n out)
unfolding emit
emit-digits zero n out h = h
emit-digits (suc fuel) n out h =
    ground (arith, emit-digits fuel (n / 10) ((b'0' + n % 10) ∷ out) (omega arith, h))

pub decimal-digits : (n : ℕ) → All Digit (decimal n)
unfolding decimal
decimal-digits n = emit-digits (suc n) n [] tt

scan-emit : (fuel n : ℕ) (out : Bytes) → n < fuel → scan 0 (emit fuel n out) ≡ scan n out
unfolding emit scan
scan-emit zero n out h = absurd (omega arith)
scan-emit (suc fuel) n out h = ground (arith, scan-emit fuel (n / 10) ((b'0' + n % 10) ∷ out))

emit-cons :
    (fuel n : ℕ) (out : Bytes) → n < fuel → (d : ℕ) × (s : Bytes) × (emit fuel n out ≡ d ∷ s)
unfolding emit
emit-cons zero n out h = absurd (omega arith)
emit-cons (suc fuel) n out h = elim (Bool-cases (ltb n 10)) [
  | inl small ↦ (b'0' + n, out, ground arith)
  | inr big ↦
      let (d, s, e) = emit-cons fuel (n / 10) ((b'0' + n % 10) ∷ out) (ground arith) in
      (d, s, ground arith)
]

pub c_str-digits : (s : Bytes) → All Digit s → c_str s ≡ s
unfolding c_str
c_str-digits [] h = refl
c_str-digits (c ∷ s) h = ground (arith, c_str-digits s h.1)

digits-strtol :
    (d : ℕ) (s : Bytes) (n : ℕ)
    → All Digit (d ∷ s)
    → scan 0 (d ∷ s) ≡ (n, [])
    → strtol (d ∷ s) ≡ (pos (min n (2 ^ 63 - 1)), [])
unfolding strtol
digits-strtol d s n h e = rw (c_str-digits (d ∷ s) h) (ground (arith, e, h.0))

-- Reading a printed number gives it back, up to the largest `long`.
pub strtol-decimal : (n : ℕ) → strtol (decimal n) ≡ (pos (min n (2 ^ 63 - 1)), [])
unfolding decimal
strtol-decimal n =
    let (d, s, e) = emit-cons (suc n) n [] (omega arith) in
    let h : All Digit (d ∷ s) = subst (All Digit) e (emit-digits (suc n) n [] tt) in
    let back : scan 0 (d ∷ s) ≡ (n, []) =
      ap (scan 0) (sym e) ∙ (unfold scan in scan-emit (suc n) n [] (omega arith)) in
    rw e (digits-strtol d s n h back)

-- A 64-bit unsigned conversion saturates, and a minus sign negates the value modulo 2^64.
abbrev wrapped : Bool → ℕ → ℕ
wrapped negative n =
    if ltb (2 ^ 64 - 1) n then 2 ^ 64 - 1 else if negative then (2 ^ 64 - n) % 2 ^ 64 else n

magnitude : Bool → Bytes → ℕ
unfolding scan
magnitude negative [] = 0
magnitude negative (c ∷ s) =
    let (n, rest) = scan 0 (c ∷ s) in if is_digit c then wrapped negative n else 0

unsigned : Bytes → ℕ
unfolding magnitude
unsigned [] = 0
unsigned (c ∷ s) =
    if c == b'-'
    then magnitude true s
    else if c == b'+'
    then magnitude false s
    else magnitude false (c ∷ s)

-- The value of `strtoull(s.c_str(), nullptr, 10)`, and of `strtoul` where `long` has 64 bits.
unfoldable pub strtoull : Bytes → ℕ
unfolding unsigned skip_spaces
strtoull s = unsigned (skip_spaces (c_str s))

digits-strtoull :
    (d : ℕ) (s : Bytes) (n : ℕ)
    → All Digit (d ∷ s)
    → scan 0 (d ∷ s) ≡ (n, [])
    → strtoull (d ∷ s) ≡ (if ltb (2 ^ 64 - 1) n then 2 ^ 64 - 1 else n)
unfolding strtoull
digits-strtoull d s n h e = rw (c_str-digits (d ∷ s) h) (ground (arith, e, h.0))

pub strtoull-decimal : (n : ℕ) → n < 2 ^ 64 → strtoull (decimal n) ≡ n
unfolding decimal
strtoull-decimal n lt =
    let (d, s, e) = emit-cons (suc n) n [] (omega arith) in
    let h : All Digit (d ∷ s) = subst (All Digit) e (emit-digits (suc n) n [] tt) in
    let back : scan 0 (d ∷ s) ≡ (n, []) =
      ap (scan 0) (sym e) ∙ (unfold scan in scan-emit (suc n) n [] (omega arith)) in
    rw e (digits-strtoull d s n h back ∙ ground arith)

magnitude-lt : (negative : Bool) (s : Bytes) → magnitude negative s < 2 ^ 64
unfolding magnitude
magnitude-lt negative [] = omega arith
magnitude-lt negative (c ∷ s) = ground arith

unsigned-lt : (s : Bytes) → unsigned s < 2 ^ 64
unfolding unsigned
unsigned-lt [] = omega arith
unsigned-lt (c ∷ s) =
    ground (arith, magnitude-lt true s, magnitude-lt false s, magnitude-lt false (c ∷ s))

pub strtoull-lt : (s : Bytes) → strtoull s < 2 ^ 64
unfolding strtoull
strtoull-lt s = unsigned-lt (skip_spaces (c_str s))
