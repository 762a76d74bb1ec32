-- ===== src/Settings/Lines/Laws.antt =====
-- Lines and values survive printing and reading.
use skey.Base.{
  ℕ, ◌≡◌, ◌∙◌, refl, sym, ap, subst, arith, Bool, true, false, not, ◌&&◌, ◌||◌, none, some, List,
  [], ◌∷◌, ◌++◌, ◌==◌, if_both, Bytes, bytes_eq, is_empty, take, All, take-length_append,
  length-append,
}
use skey.Settings.Lines.{
  cons_head, get_lines, print_lines, is_blank, before_trimmed, rtrim, drop_spaces, first_is,
  last_is, is_quoted, strip_quotes, needs_quotes, maybe_quote, key_value, parse_bool, bool_str, cut,
  is_skipped,
}

-- No newline in it.
abbrev pub IsLine : Bytes → Type 0
IsLine s = All (λ c. (c == b'\n') ≡ false) s

abbrev pub Lacks : ℕ → Bytes → Type 0
Lacks b s = All (λ c. (c == b) ≡ false) s

pub All-append {κ} : (P : ℕ → Type κ) (s t : Bytes) → All P s → All P t → All P (s ++ t)
All-append P [] t h k = k
All-append P (c ∷ s) t h k = (h.0, All-append P s t h.1 k)

pub get_lines-line :
    (s : Bytes) (rest : Bytes) → IsLine s → get_lines (s ++ b'\n' ∷ rest) ≡ s ∷ get_lines rest
unfolding get_lines
get_lines-line [] rest h = refl
get_lines-line (c ∷ s) rest h = rw (h.0, get_lines-line s rest h.1) refl

-- Printed lines are read back.
pub get_lines-print_lines : (ls : List Bytes) → All IsLine ls → get_lines (print_lines ls) ≡ ls
unfolding print_lines get_lines
get_lines-print_lines [] h = refl
get_lines-print_lines (l ∷ ls) h =
    get_lines-line l (print_lines ls) h.0 ∙ ap (λ r. l ∷ r) (get_lines-print_lines ls h.1)

-- The last byte is there and is not blank.
abbrev pub EndsSolid : Bytes → Type 0
EndsSolid [] = true ≡ false
EndsSolid (c ∷ []) = is_blank c ≡ false
EndsSolid (c ∷ (d ∷ s)) = EndsSolid (d ∷ s)

pub rtrim-solid : (s : Bytes) → EndsSolid s → rtrim s ≡ s
unfolding rtrim
rtrim-solid [] h = absurd (ground arith)
rtrim-solid (c ∷ []) h = rw (h) refl
rtrim-solid (c ∷ (d ∷ s)) h = rw (rtrim-solid (d ∷ s) h) refl

pub EndsSolid-append : (s t : Bytes) → EndsSolid t → EndsSolid (s ++ t)
EndsSolid-append [] t h = h
EndsSolid-append (c ∷ []) [] h = absurd (ground (arith, h))
EndsSolid-append (c ∷ []) (d ∷ t) h = h
EndsSolid-append (c ∷ (d ∷ s)) t h = EndsSolid-append (d ∷ s) t h

pub cut-append : (b : ℕ) (l r : Bytes) → Lacks b l → cut b (l ++ b ∷ r) ≡ some (l, r)
unfolding cut
cut-append b [] r h = ground arith
cut-append b (c ∷ l) r h = rw (h.0, cut-append b l r h.1) refl

last_is-append : (b : ℕ) (s : Bytes) → last_is b (s ++ b ∷ []) ≡ true
unfolding last_is
last_is-append b [] = ground arith
last_is-append b (c ∷ []) = ground arith
last_is-append b (c ∷ (d ∷ s)) = last_is-append b (d ∷ s)

strip_quotes-quoted : (s : Bytes) → strip_quotes (b'"' ∷ (s ++ b'"' ∷ [])) ≡ s
unfolding strip_quotes
strip_quotes-quoted s =
    if_both (λ r. r ≡ s) (is_quoted (b'"' ∷ (s ++ b'"' ∷ []))) _ _
      (λ _.
        subst (λ n. take n (s ++ b'"' ∷ []) ≡ s) (omega (arith, length-append s (b'"' ∷ [])))
          (take-length_append s (b'"' ∷ [])))
      (λ e. absurd (ground (arith, last_is-append b'"' (b'"' ∷ s), length-append s (b'"' ∷ []))))

strip_quotes-plain : (v : Bytes) → is_quoted v ≡ false → strip_quotes v ≡ v
unfolding strip_quotes
strip_quotes-plain v e = rw (e) refl

-- A value that is printed without quotes must not look quoted and must not end in a carriage return.
unfoldable pub is_kept : Bytes → Bool
is_kept v = is_empty v || needs_quotes v || not (last_is b'\r' v || is_quoted v)

pub strip_quotes-maybe_quote : (v : Bytes) → is_kept v ≡ true → strip_quotes (maybe_quote v) ≡ v
unfolding maybe_quote is_kept
strip_quotes-maybe_quote v h =
    if_both (λ r. strip_quotes r ≡ v) (is_empty v) _ _
      (λ e. strip_quotes-quoted [] ∙ sym (empty_eq v e))
      (λ e.
        if_both (λ r. strip_quotes r ≡ v) (needs_quotes v) _ _ (λ n. strip_quotes-quoted v)
          (λ n. plain (ground arith)))
  where
    empty_eq : (v : Bytes) → is_empty v ≡ true → v ≡ []
    empty_eq [] e = refl
    empty_eq (c ∷ v) e = absurd (ground arith)

    plain : is_quoted v ≡ false → strip_quotes v ≡ v
    plain e = strip_quotes-plain v e

last_solid :
    (v : Bytes)
    → IsLine v
    → is_empty v ≡ false
    → needs_quotes v ≡ false
    → last_is b'\r' v ≡ false
    → EndsSolid v
unfolding needs_quotes last_is
last_solid [] h e n l = absurd (ground arith)
last_solid (c ∷ []) h e n l = ground (arith, h.0)
last_solid (c ∷ (d ∷ v)) h e n l = last_solid (d ∷ v) h.1 refl (ground arith) l

pub maybe_quote-EndsSolid : (v : Bytes) → IsLine v → is_kept v ≡ true → EndsSolid (maybe_quote v)
unfolding maybe_quote is_kept
maybe_quote-EndsSolid v h k =
    if_both EndsSolid (is_empty v) _ _ (λ _. refl)
      (λ e.
        if_both EndsSolid (needs_quotes v) _ _ (λ _. EndsSolid-append (b'"' ∷ v) (b'"' ∷ []) refl)
          (λ n. last_solid v h e n (ground arith)))

pub maybe_quote-IsLine : (v : Bytes) → IsLine v → IsLine (maybe_quote v)
unfolding maybe_quote
maybe_quote-IsLine v h =
    if_both IsLine (is_empty v) _ _ (λ _. (refl, (refl, tt)))
      (λ _.
        if_both IsLine (needs_quotes v) _ _
          (λ _. (refl, All-append (λ c. (c == b'\n') ≡ false) v (b'"' ∷ []) h (refl, tt))) (λ _. h))

pub parse_bool-bool_str : (b : Bool) → parse_bool (bool_str b) ≡ b
unfolding parse_bool bool_str bytes_eq
parse_bool-bool_str true = refl
parse_bool-bool_str false = refl

-- A key that its line gives back: it starts and ends with no blank, starts no comment and holds no `=`.
abbrev pub IsKey : Bytes → Type 0
IsKey k = (first_is b'#' k ≡ false) × (first_is b' ' k ≡ false) × EndsSolid k × Lacks b'=' k

drop_spaces-key : (k : Bytes) → first_is b' ' k ≡ false → drop_spaces k ≡ k
unfolding drop_spaces
drop_spaces-key [] h = refl
drop_spaces-key (c ∷ k) h = rw (h) refl

pub key_value-pair :
    (k v : Bytes) → IsKey k → EndsSolid (b'=' ∷ v) → key_value (k ++ b'=' ∷ v) ≡ some (k, v)
unfolding key_value is_skipped
key_value-pair k v h e = rw (rtrim-solid (k ++ b'=' ∷ v) (EndsSolid-append k (b'=' ∷ v) e)) (
    if_both (λ r. r ≡ some (k, v)) (is_empty (k ++ b'=' ∷ v) || first_is b'#' (k ++ b'=' ∷ v)) _ _
      (λ o. cc (not_skipped k h.0 o))
      (λ _. rw (cut-append b'=' k v h.3, drop_spaces-key k h.1, rtrim-solid k h.2) refl))
  where
    not_skipped :
        (k : Bytes)
        → first_is b'#' k ≡ false
        → (is_empty (k ++ b'=' ∷ v) || first_is b'#' (k ++ b'=' ∷ v)) ≡ true
        → true ≡ false
    not_skipped [] f o = sym o
    not_skipped (c ∷ k) f o = sym o ∙ f

before_trimmed-solid : (c : ℕ) (t : Bytes) → is_blank c ≡ false → before_trimmed c t ≡ c ∷ t
before_trimmed-solid c [] h = rw (h) refl
before_trimmed-solid c (d ∷ t) h = refl

pub key_value-comment : (s : Bytes) → key_value (b'#' ∷ s) ≡ none
unfolding key_value is_skipped rtrim
key_value-comment s = rw (before_trimmed-solid b'#' (rtrim s) refl) refl

-- The same facts as tests, for texts that are known.
abbrev pub lacks : ℕ → Bytes → Bool
lacks b [] = true
lacks b (c ∷ s) = not (c == b) && lacks b s

pub Lacks-of_test : (b : ℕ) (s : Bytes) → lacks b s ≡ true → Lacks b s
Lacks-of_test b [] h = tt
Lacks-of_test b (c ∷ s) h = (ground arith, Lacks-of_test b s (ground arith))

abbrev pub ends_solid : Bytes → Bool
ends_solid [] = false
ends_solid (c ∷ []) = not (is_blank c)
ends_solid (c ∷ (d ∷ s)) = ends_solid (d ∷ s)

pub EndsSolid-of_test : (s : Bytes) → ends_solid s ≡ true → EndsSolid s
EndsSolid-of_test [] h = sym h
EndsSolid-of_test (c ∷ []) h = ground arith
EndsSolid-of_test (c ∷ (d ∷ s)) h = EndsSolid-of_test (d ∷ s) h

abbrev pub is_key : Bytes → Bool
is_key k =
    not (first_is b'#' k) && not (first_is b' ' k) && ends_solid k && lacks b'=' k && lacks b'\n' k

pub IsKey-of_test : (k : Bytes) → is_key k ≡ true → IsKey k × IsLine k
IsKey-of_test k h = (
  (
    ground arith,
    ground arith,
    EndsSolid-of_test k (ground arith),
    Lacks-of_test b'=' k (ground arith),
  ),
  Lacks-of_test b'\n' k (ground arith),
)

pub get_lines-one : (c : ℕ) (s : Bytes) → IsLine (c ∷ s) → get_lines (c ∷ s) ≡ (c ∷ s) ∷ []
unfolding get_lines
get_lines-one c [] h = rw (h.0) refl
get_lines-one c (d ∷ s) h = rw (h.0, get_lines-one d s h.1) refl

cons_head-IsLine :
    (c : ℕ) (ls : List Bytes) → (c == b'\n') ≡ false → All IsLine ls → All IsLine (cons_head c ls)
cons_head-IsLine c [] h k = ((h, tt), tt)
cons_head-IsLine c (l ∷ ls) h k = ((h, k.0), k.1)

pub get_lines-IsLine : (s : Bytes) → All IsLine (get_lines s)
unfolding get_lines
get_lines-IsLine [] = tt
get_lines-IsLine (c ∷ s) =
    if_both (All IsLine) (c == b'\n') _ _ (λ _. (tt, get_lines-IsLine s))
      (λ e. cons_head-IsLine c (get_lines s) e (get_lines-IsLine s))
