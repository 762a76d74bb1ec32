-- ===== src/Base/Utf8.antt =====
-- Walking UTF-8 text by characters: a character is one byte and the continuation bytes behind it.
use Prim.Native.Nat.{ℕ, zero, suc, ◌≤◌, ◌<◌, bit_and}
use mathlib.Core.Bool.{Bool, true, false, not}
use mathlib.Core.List.{[], ◌∷◌}
use mathlib.Core.Path.{◌≡◌, refl, sym, subst}
use mathlib.Core.Logic.{inl, inr}
use native.Mathlib.Omega.{arith}
use skey.Base.Tests.{◌==◌, ==_iff, Bool-cases, if◌then◌else◌}
use skey.Base.Text.{Bytes}
use skey.Base.Lists.{length}

-- (b & 0xc0) == 0x80
unfoldable pub is_continuation : ℕ → Bool
is_continuation b = bit_and b 0xc0 == 0x80

-- `while (at < size && is_continuation(text[at])) ++at;`, as the bytes that it passes over.
unfoldable pub leading : Bytes → ℕ
leading [] = 0
leading (b ∷ s) = if is_continuation b then suc (leading s) else 0

pub leading-le : (s : Bytes) → leading s ≤ length s
unfolding leading
leading-le [] = omega arith
leading-le (b ∷ s) = ground (arith, leading-le s)

-- The bytes from 0 up to `top` are no continuation bytes.
plain_upto : ℕ → Bool
plain_upto zero = not (is_continuation zero)
plain_upto (suc top) = if plain_upto top then not (is_continuation (suc top)) else false

plain_upto_at : (top b : ℕ) → plain_upto top ≡ true → b ≤ top → is_continuation b ≡ false
unfolding plain_upto
plain_upto_at zero zero e l = ground arith
plain_upto_at zero (suc b) e l = absurd (omega arith)
plain_upto_at (suc top) b e l = elim (Bool-cases (b == suc top)) [
  | inl last ↦
      subst (λ (c : ℕ). is_continuation c ≡ false) (sym ((==_iff b (suc top)).0 last))
        (ground arith)
  | inr other ↦ plain_upto_at top b (ground arith) (ground arith)
]

plain_ascii : plain_upto 127 ≡ true
unfolding plain_upto is_continuation
plain_ascii = refl

pub ascii_no_continuation : (b : ℕ) → b < 128 → is_continuation b ≡ false
ascii_no_continuation b h = plain_upto_at 127 b plain_ascii (omega arith)
