-- ===== src/Browser/Name.antt =====
-- The directory and the arguments of a program do not matter.
use skey.Base.{ℕ, true, false, [], ◌∷◌, ◌++◌, ◌≡◌, refl, sym, ap, ◌∙◌, arith, if_both, Bytes, All}
use skey.Browser.{
  is_space, to_lower, cut_arguments, lower, has_slash, base_name, drop_desktop,
  browser_program_name,
}

-- No byte separates the arguments.
abbrev pub IsWord : Bytes → Type 0
IsWord s = All (λ c. is_space c ≡ false) s

cut_arguments-append :
    (s : Bytes) (c : ℕ) (args : Bytes)
    → IsWord s
    → is_space c ≡ true
    → cut_arguments (s ++ c ∷ args) ≡ s
unfolding cut_arguments
cut_arguments-append [] c args h hc = ground arith
cut_arguments-append (d ∷ s) c args h hc =
    rw (h.0) (ap (λ r. d ∷ r) (cut_arguments-append s c args (h.1) hc))

cut_arguments-word : (s : Bytes) → IsWord s → cut_arguments s ≡ s
unfolding cut_arguments
cut_arguments-word [] h = refl
cut_arguments-word (d ∷ s) h = rw (h.0) (ap (λ r. d ∷ r) (cut_arguments-word s (h.1)))

IsWord-append : (s t : Bytes) → IsWord s → IsWord t → IsWord (s ++ t)
IsWord-append [] t h k = k
IsWord-append (c ∷ s) t h k = (h.0, IsWord-append s t (h.1) k)

lower-append : (s t : Bytes) → lower (s ++ t) ≡ lower s ++ lower t
unfolding lower
lower-append [] t = refl
lower-append (c ∷ s) t = ap (λ r. to_lower c ∷ r) (lower-append s t)

has_slash-lower : (s : Bytes) → has_slash (lower s) ≡ has_slash s
unfolding lower to_lower
has_slash-lower [] = refl
has_slash-lower (c ∷ s) = ground (arith, has_slash-lower s)

has_slash-append : (s t : Bytes) → has_slash (s ++ b'/' ∷ t) ≡ true
has_slash-append [] t = refl
has_slash-append (c ∷ s) t = ground (arith, has_slash-append s t)

base_name-plain : (s : Bytes) → has_slash s ≡ false → base_name s ≡ s
unfolding base_name
base_name-plain [] h = refl
base_name-plain (c ∷ s) h = ground (arith, h)

base_name-append :
    (dir name : Bytes) → has_slash name ≡ false → base_name (dir ++ b'/' ∷ name) ≡ name
unfolding base_name
base_name-append [] name h = base_name-plain name h
base_name-append (c ∷ dir) name h =
    if_both (λ r. r ≡ name) (has_slash (c ∷ (dir ++ b'/' ∷ name))) _ _
      (λ _. base_name-append dir name h) (λ e. absurd (ground (arith, has_slash-append dir name)))

-- A program that is started from a directory and with arguments has the same name as without them, if
-- neither the directory nor the file name holds a separator of arguments.
browser_program_name-append :
    (dir name args : Bytes)
    → IsWord dir
    → IsWord name
    → has_slash name ≡ false
    → browser_program_name ((dir ++ b'/' ∷ name) ++ b' ' ∷ args) ≡ browser_program_name name
unfolding browser_program_name is_space lower to_lower
browser_program_name-append dir name args hd hn hs = ap drop_desktop (
    ap (λ s. base_name (lower s))
      (cut_arguments-append (dir ++ b'/' ∷ name) b' ' args
        (IsWord-append dir (b'/' ∷ name) hd (refl, hn)) refl)
    ∙ ap base_name (lower-append dir (b'/' ∷ name))
    ∙ base_name-append (lower dir) (lower name) (has_slash-lower name ∙ hs)
    ∙ sym (base_name-plain (lower name) (has_slash-lower name ∙ hs))
    ∙ ap (λ s. base_name (lower s)) (sym (cut_arguments-word name hn)))
