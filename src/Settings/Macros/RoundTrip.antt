-- ===== src/Settings/Macros/RoundTrip.antt =====
-- The macros that are written are read back.
use skey.Base.{
  ℕ, ◌+◌, ◌≡◌, ◌∙◌, refl, sym, ap, arith, true, false, ◌&&◌, some, List, [], ◌∷◌, ◌++◌,
  append_assoc, append-nil, ◌==◌, ltb, if_both, Bool-cases, inl, inr, Bytes, bytes_eq, is_prefix,
  is_prefix-append, codes, utf8, is_empty, length, length-append, All, All-mono,
}
use skey.Base.Decimal.{decimal, decimal-digits, Digit}
use skey.Settings.Lines.{rtrim, strip_quotes, maybe_quote, key_value, is_skipped}
use skey.Settings.Lines.Laws.{
  IsLine, EndsSolid, All-append, get_lines-print_lines, key_value-pair, rtrim-solid,
  EndsSolid-append, is_kept, strip_quotes-maybe_quote, maybe_quote-EndsSolid, maybe_quote-IsLine,
  Lacks-of_test, IsKey-of_test, is_key,
}
use skey.Settings.Macros.{
  Entry, Reader, init, flush, next_entry, set_pair, read_pair, is_header, read_line, read_lines,
  read_macro_config, print_entries, write_macro_config,
}

-- Both texts are kept by their lines, and the shortcut is not empty.
abbrev pub Fits : Entry → Type 0
Fits e =
    (is_empty e.0 ≡ false) × IsLine e.0 × (is_kept e.0 ≡ true) × IsLine e.1 × (is_kept e.1 ≡ true)

abbrev header : ℕ → Bytes
header i = codes "[Entries/" ++ (decimal i ++ codes "]")

header-IsLine : (i : ℕ) → IsLine (header i)
header-IsLine i =
    All-append (λ c. (c == b'\n') ≡ false) (codes "[Entries/") (decimal i ++ codes "]")
      (Lacks-of_test b'\n' (codes "[Entries/") refl)
      (All-append (λ c. (c == b'\n') ≡ false) (decimal i) (codes "]")
        (All-mono Digit (λ c. (c == b'\n') ≡ false) (decimal i) (λ c h. ground arith)
          (decimal-digits i))
        (Lacks-of_test b'\n' (codes "]") refl))

header-EndsSolid : (i : ℕ) → EndsSolid (header i)
header-EndsSolid i =
    EndsSolid-append (codes "[Entries/") (decimal i ++ codes "]")
      (EndsSolid-append (decimal i) (codes "]") refl)

header-is_header : (i : ℕ) → is_header (header i) ≡ true
unfolding is_header
header-is_header i = ground (
  arith,
  is_prefix-append (codes "[Entries/") (decimal i ++ codes "]"),
  length-append (decimal i) (codes "]"),
)

read_line-header : (r : Reader) (i : ℕ) → read_line r (header i) ≡ next_entry r
unfolding read_line is_skipped
read_line-header r i = rw (rtrim-solid (header i) (header-EndsSolid i), header-is_header i) refl

-- The three tests at the head of the loop fail for a line that starts with another byte.
read_line-plain :
    (r : Reader) (c : ℕ) (s : Bytes)
    → (c == b'#') ≡ false
    → (c == b'[') ≡ false
    → rtrim (c ∷ s) ≡ c ∷ s
    → read_line r (c ∷ s) ≡ read_pair r (key_value (c ∷ s))
unfolding read_line is_skipped is_header is_prefix
read_line-plain r c s h k e = rw (e) (
    if_both (λ x. x ≡ read_pair r (key_value (c ∷ s))) (c == b'#') _ _ (λ o. absurd (ground arith))
      (λ _.
        if_both (λ x. x ≡ read_pair r (key_value (c ∷ s)))
          (ltb 9 (length (c ∷ s)) && is_prefix (codes "[Entries/") (c ∷ s)) _ _
          (λ o. absurd (ground arith))
          (λ _.
            if_both (λ x. x ≡ read_pair r (key_value (c ∷ s))) (c == b'[') _ _
              (λ o. absurd (ground arith)) (λ _. refl))))

read_line-pair :
    (r : Reader) (c : ℕ) (key v : Bytes)
    → is_key (c ∷ key) ≡ true
    → (c == b'[') ≡ false
    → EndsSolid v
    → read_line r ((c ∷ key) ++ b'=' ∷ v) ≡ set_pair r (c ∷ key) (strip_quotes v)
read_line-pair r c key v hk hc hv =
    let k = IsKey-of_test (c ∷ key) hk in
    let e : EndsSolid (b'=' ∷ v) = EndsSolid-append (b'=' ∷ []) v hv in
    read_line-plain r c (key ++ b'=' ∷ v) (ground arith) hc
      (rtrim-solid ((c ∷ key) ++ b'=' ∷ v) (EndsSolid-append (c ∷ key) (b'=' ∷ v) e))
    ∙ ap (read_pair r) (key_value-pair (c ∷ key) v k.0 e)
    ∙ ap (λ u. set_pair r (c ∷ key) (strip_quotes u)) (rtrim-solid v hv)

-- The reader behind an entry: what came before it is flushed, and the entry is the current one.
abbrev behind : Reader → Entry → Reader
behind r e = record { entries = flush r; current_key = e.0; current_value = e.1; in_entry = true }

next_entry-flush :
    (r : Reader)
    → (v : Bytes) × (k : Bytes) × (next_entry r
        ≡ record { entries = flush r; current_key = k; current_value = v; in_entry = true })
unfolding next_entry flush
next_entry-flush r = elim (Bool-cases (is_empty r.current_key)) [
  | inl e ↦ (r.current_value, r.current_key, ground arith)
  | inr e ↦ ([], [], ground arith)
]

read_entry :
    (r : Reader) (i : ℕ) (e : Entry) (rest : List Bytes)
    → Fits e
    → read_lines r (
        header i
        ∷ ((codes "Key=" ++ maybe_quote e.0) ∷ ((codes "Value=" ++ maybe_quote e.1) ∷ rest)))
      ≡ read_lines (behind r e) rest
unfolding read_lines set_pair bytes_eq
read_entry r i e rest h =
    let (v, k, p) = next_entry-flush r in
    let opened : Reader = record {
      entries = flush r;
      current_key = k;
      current_value = v;
      in_entry = true;
    } in
    ap
      (λ s.
        read_lines
          (read_line (read_line s (codes "Key=" ++ maybe_quote e.0))
            (codes "Value=" ++ maybe_quote e.1))
          rest)
      (read_line-header r i ∙ p)
    ∙ ap (λ s. read_lines (read_line s (codes "Value=" ++ maybe_quote e.1)) rest)
        (read_line-pair opened b'K' (codes "ey") (maybe_quote e.0) refl refl
            (maybe_quote-EndsSolid e.0 h.1 h.2)
          ∙ ap (λ u. record opened { current_key = u }) (strip_quotes-maybe_quote e.0 h.2))
    ∙ ap (λ s. read_lines s rest)
        (read_line-pair (record opened { current_key = e.0 }) b'V' (codes "alue") (maybe_quote e.1)
            refl refl (maybe_quote-EndsSolid e.1 h.3 h.4)
          ∙ ap (λ u. record opened { current_key = e.0; current_value = u })
              (strip_quotes-maybe_quote e.1 h.4))

flush-behind : (r : Reader) (e : Entry) → Fits e → flush (behind r e) ≡ flush r ++ e ∷ []
unfolding flush
flush-behind r e h = ground (arith, h.0)

read_entries :
    (r : Reader) (i : ℕ) (es : List Entry)
    → All Fits es
    → flush (read_lines r (print_entries i es)) ≡ flush r ++ es
unfolding print_entries
read_entries r i [] h =
    let start : flush (read_lines r []) ≡ flush r = unfold read_lines in refl in
    start ∙ sym (append-nil (flush r))
read_entries r i (e ∷ es) h =
    ap flush (read_entry r i e (print_entries (i + 1) es) h.0)
    ∙ read_entries (behind r e) (i + 1) es h.1
    ∙ ap (λ l. l ++ es) (flush-behind r e h.0)
    ∙ append_assoc (flush r) (e ∷ []) es

prefixed-IsLine : (p v : Bytes) → IsLine p → IsLine v → IsLine (p ++ maybe_quote v)
prefixed-IsLine p v hp hv =
    All-append (λ c. (c == b'\n') ≡ false) p (maybe_quote v) hp (maybe_quote-IsLine v hv)

print_entries-IsLine : (i : ℕ) (es : List Entry) → All Fits es → All IsLine (print_entries i es)
unfolding print_entries
print_entries-IsLine i [] h = tt
print_entries-IsLine i (e ∷ es) h = (
  header-IsLine i,
  (
    prefixed-IsLine (codes "Key=") e.0 (Lacks-of_test b'\n' (codes "Key=") refl) h.0.1,
    (
      prefixed-IsLine (codes "Value=") e.1 (Lacks-of_test b'\n' (codes "Value=") refl) h.0.3,
      print_entries-IsLine (i + 1) es h.1,
    ),
  ),
)

-- Macros that are written are read back in their order, if no shortcut is empty and each text is free of
-- newlines and is quoted or needs no quotes to be kept.
read_macro_config-write :
    (es : List Entry) → All Fits es → read_macro_config (some (write_macro_config es)) ≡ es
unfolding read_macro_config write_macro_config
read_macro_config-write es h =
    let head : flush
          (read_lines init (utf8 "# Macro / Gõ tắt definitions" ∷ ([] ∷ print_entries 0 es)))
        ≡ flush (read_lines init (print_entries 0 es)) =
      unfold read_lines read_line is_skipped rtrim in refl in
    let empty : flush init ++ es ≡ es = unfold flush in refl in
    ap (λ ls. flush (read_lines init ls))
      (get_lines-print_lines (utf8 "# Macro / Gõ tắt definitions" ∷ ([] ∷ print_entries 0 es)) (
        Lacks-of_test b'\n' (utf8 "# Macro / Gõ tắt definitions") refl,
        (tt, print_entries-IsLine 0 es h),
      ))
    ∙ head
    ∙ read_entries init 0 es h
    ∙ empty
