-- ===== src/Engine/Letters.antt =====
-- src/viet_util.h: the stateless helpers on Telex text, over bytes. A `char` above 127 is negative in
-- the source and above 127 here; no test of these functions tells the two apart.
use skey.Base.{
  ℕ, ◌+◌, Bool, true, false, ◌&&◌, ◌||◌, [], ◌∷◌, Option, none, some, ltb, leb, ◌==◌, if◌then◌else◌,
  Bytes,
}

unfoldable pub to_lower_ascii : ℕ → ℕ
to_lower_ascii c = if leb b'A' c && leb c b'Z' then c + 32 else c

unfoldable pub is_vowel : ℕ → Bool
is_vowel c =
    let lc = to_lower_ascii c in
    lc == b'a' || lc == b'e' || lc == b'i' || lc == b'o' || lc == b'u' || lc == b'y'

unfoldable pub is_tone_key : ℕ → Bool
is_tone_key c =
    let lc = to_lower_ascii c in
    lc == b's' || lc == b'f' || lc == b'r' || lc == b'x' || lc == b'j' || lc == b'z'

unfoldable pub is_all_ascii : Bytes → Bool
is_all_ascii [] = true
is_all_ascii (c ∷ s) = if ltb 127 c then false else is_all_ascii s

-- The loop of `findFirstVowel` from index `i`; `none` is `npos`.
unfoldable pub first_vowel_from : ℕ → Bytes → Option ℕ
first_vowel_from i [] = none
first_vowel_from i (c ∷ s) = if is_vowel c then some i else first_vowel_from (i + 1) s

unfoldable pub find_first_vowel : Bytes → Option ℕ
unfolding first_vowel_from
find_first_vowel s = first_vowel_from 0 s

-- i > firstVowel, where `npos` is above every index
abbrev pub behind : ℕ → Option ℕ → Bool
behind i none = false
behind i (some v) = ltb v i

-- The inner loop of `deduplicateToneKeys` behind the key `c`: whether the same key comes again, with
-- another tone key before it.
unfoldable pub replaced_later : ℕ → Bool → Bytes → Bool
replaced_later c diff [] = false
replaced_later c diff (d ∷ s) =
    let rest = replaced_later c (diff || is_tone_key d) s in
    if to_lower_ascii c == to_lower_ascii d then diff else rest

abbrev past_vowel : ℕ → Option ℕ → Bool
past_vowel i none = true
past_vowel i (some v) = ltb v i

unfoldable pub dedup_from : Option ℕ → ℕ → Bytes → Bytes
unfolding replaced_later
dedup_from first i [] = []
dedup_from first i (c ∷ s) =
    let rest = dedup_from first (i + 1) s in
    if is_tone_key c && past_vowel i first && replaced_later c false s then rest else c ∷ rest

unfoldable pub deduplicate_tone_keys : Bytes → Option ℕ → Bytes
unfolding dedup_from
deduplicate_tone_keys input first = dedup_from first 0 input

unfoldable pub has_ascii_vowel : Bytes → Bool
has_ascii_vowel [] = false
has_ascii_vowel (c ∷ s) =
    if ltb 127 c then has_ascii_vowel s else if is_vowel c then true else has_ascii_vowel s

unfoldable pub contains_d : Bytes → Bool
contains_d [] = false
contains_d (a ∷ []) = false
contains_d (a ∷ (b ∷ s)) = a == 0xC4 && (b == 0x91 || b == 0x90) || contains_d (b ∷ s)
