-- ===== src/Expansion/Latest.antt =====
-- A lookup finds the last entry of its shortcut, in whatever case.
use skey.Base.{
  ℕ, ◌≡◌, ◌∙◌, refl, sym, ap, arith, Bool, true, false, not, ◌&&◌, ◌||◌, Option, none, some, List,
  [], ◌∷◌, if◌then◌else◌, if_both, Bool-cases, Option-cases, inl, inr, Bytes, bytes_eq,
  bytes_eq_iff, is_empty,
}
use skey.Base.Table.{Table, lookup, lookup-insert}
use skey.Engine.Letters.{to_lower_ascii}
use skey.Expansion.{
  Entry, lower, add_entry, add_entries, rebuild_macro_lookup, or_empty, or_lower, is_empty_table,
  lookup_macro,
}

-- The value of the last entry for a shortcut that is written in small letters; `found` is that of the entries before.
unfoldable pub latest : Option Bytes → Bytes → List Entry → Option Bytes
latest found key [] = found
latest found key (e ∷ es) =
    let rest = latest found key es in
    let taken = latest (some e.1) key es in
    if not (is_empty e.0 || is_empty e.1) && bytes_eq (lower e.0) key then taken else rest

-- Whether an entry is taken into the table under this key.
abbrev takes : Entry → Bytes → Bool
takes e key = not (is_empty e.0 || is_empty e.1) && bytes_eq (lower e.0) key

lookup-add_entry :
    (key : Bytes) (e : Entry) (t : Table Bytes)
    → lookup key (add_entry e t) ≡ (if takes e key then some e.1 else lookup key t)
lookup-add_entry key e t = elim (Bool-cases (is_empty e.0 || is_empty e.1)) [
  | inl h ↦ rw (h) refl
  | inr h ↦ rw (h) (lookup-insert (lower e.0) key e.1 t)
]

latest-if :
    (b : Bool) (x y : Option Bytes) (key : Bytes) (es : List Entry)
    → latest (if b then x else y) key es ≡ (if b then latest x key es else latest y key es)
latest-if true x y key es = refl
latest-if false x y key es = refl

lookup-add_entries :
    (key : Bytes) (es : List Entry) (t : Table Bytes)
    → lookup key (add_entries t es) ≡ latest (lookup key t) key es
unfolding add_entries latest
lookup-add_entries key [] t = refl
lookup-add_entries key (e ∷ es) t =
    lookup-add_entries key es (add_entry e t)
    ∙ ap (λ o. latest o key es) (lookup-add_entry key e t)
    ∙ latest-if (takes e key) (some e.1) (lookup key t) key es

small_twice : (c : ℕ) → to_lower_ascii (to_lower_ascii c) ≡ to_lower_ascii c
unfolding to_lower_ascii
small_twice c = ground arith

lower-lower : (s : Bytes) → lower (lower s) ≡ lower s
unfolding lower
lower-lower [] = refl
lower-lower (c ∷ s) = rw (small_twice c, lower-lower s) refl

-- Every key of the table is in small letters.
lookup-small :
    (key : Bytes) (es : List Entry) (t : Table Bytes)
    → ((v : Bytes) → lookup key t ≡ some v → lower key ≡ key)
    → (v : Bytes) → lookup key (add_entries t es) ≡ some v
    → lower key ≡ key
unfolding add_entries
lookup-small key [] t h v e = h v e
lookup-small key ((k, x) ∷ es) t h v e = lookup-small key es (add_entry (k, x) t) small v e
  where
    small : (w : Bytes) → lookup key (add_entry (k, x) t) ≡ some w → lower key ≡ key
    small w f = elim (Bool-cases (takes (k, x) key)) [
      | inl b ↦
          let same : lower k ≡ key = (bytes_eq_iff (lower k) key).0 (ground (arith, b)) in
          ap lower (sym same) ∙ lower-lower k ∙ same
      | inr b ↦ h w (found b)
    ]
      where
        found : takes (k, x) key ≡ false → lookup key t ≡ some w
        found b =
            ap (λ c. if c then some x else lookup key t) (sym b)
            ∙ sym (lookup-add_entry key (k, x) t)
            ∙ f

or_lower-lower :
    (es : List Entry) (key : Bytes)
    → or_lower (add_entries [] es) key (lookup key (add_entries [] es))
      ≡ or_empty (lookup (lower key) (add_entries [] es))
or_lower-lower es key = elim (Option-cases (lookup key (add_entries [] es))) [
  | inl e ↦ rw (e) refl
  | inr (v, e) ↦
      let small : lower key ≡ key = lookup-small key es [] (λ w f. unfold lookup in cc) v e in
      rw (e) (ap or_empty (sym e) ∙ ap (λ k. or_empty (lookup k (add_entries [] es))) (sym small))
]

emptied : (t : Table Bytes) (key : Bytes) → is_empty_table t ≡ true → [] ≡ or_empty (lookup key t)
unfolding lookup
emptied [] key h = refl
emptied (e ∷ t) key h = cc

-- Whatever the case of its letters, a shortcut that is not empty is expanded to the value of the last entry
-- of the macro file whose shortcut differs from it at most in the case of ASCII letters and whose two texts
-- are not empty, and to the empty text if there is none.
pub lookup_macro-latest :
    (es : List Entry) (key : Bytes)
    → is_empty key ≡ false
    → lookup_macro (rebuild_macro_lookup es) key ≡ or_empty (latest none (lower key) es)
unfolding lookup_macro rebuild_macro_lookup
lookup_macro-latest es key h =
    let t = add_entries [] es in
    let found : lookup (lower key) t ≡ latest none (lower key) es =
      unfold lookup in lookup-add_entries (lower key) es [] in
    if_both (λ r. r ≡ or_empty (lookup (lower key) t)) (is_empty key || is_empty_table t) _ _
      (λ e. emptied t (lower key) (ground (arith, e, h))) (λ _. or_lower-lower es key)
    ∙ ap or_empty found
