-- ===== src/Deferred/Screen.antt =====
-- What stands in the application once the pending text is committed.
use skey.Base.{
  ◌≡◌, ◌∙◌, refl, ap, arith, Bool, true, false, not, ◌&&◌, List, [], ◌∷◌, ◌++◌, if◌then◌else◌,
  if_both, Bool-cases, inl, inr, Bytes, is_empty, is_prefix, length, drop,
}
use skey.Deferred.{Deferred, update_pending}

-- The words that are composed key by key while the commit waits.
pub type_words : Deferred → Bytes → List Bytes → Deferred
type_words d word [] = update_pending word d
type_words d word (next ∷ words) = type_words (update_pending word d) next words

unfoldable pub last_word : Bytes → List Bytes → Bytes
last_word word [] = word
last_word word (next ∷ words) = last_word next words

unfoldable pub all_keep : Bytes → Bytes → List Bytes → Bool
all_keep prefix word [] = is_prefix prefix word
all_keep prefix word (next ∷ words) = is_prefix prefix word && all_keep prefix next words

is_prefix-drop : (p s : Bytes) → is_prefix p s ≡ true → p ++ drop (length p) s ≡ s
unfolding is_prefix
is_prefix-drop [] s h = refl
is_prefix-drop (x ∷ p) [] h = cc
is_prefix-drop (x ∷ p) (y ∷ s) h = ground (arith, is_prefix-drop p s)

unprefixed :
    (d : Deferred) (word : Bytes) (words : List Bytes)
    → d.prefix ≡ []
    → (type_words d word words).text ≡ last_word word words
unfolding type_words last_word update_pending
unprefixed d word [] h = rw (h) refl
unprefixed d word (next ∷ words) h = unprefixed (update_pending word d) next words (rw (h) refl)

all_keep-first :
    (p word : Bytes) (words : List Bytes) → all_keep p word words ≡ true → is_prefix p word ≡ true
unfolding all_keep
all_keep-first p word [] h = h
all_keep-first p word (next ∷ words) h = ground arith

empty_eq : (p : Bytes) → is_empty p ≡ true → p ≡ []
empty_eq [] e = refl
empty_eq (c ∷ p) e = cc

dropped :
    (d : Deferred) (word : Bytes) (words : List Bytes)
    → (not (is_empty d.prefix) && is_prefix d.prefix word) ≡ false
    → d.prefix ++ last_word word words ≡ (
        if all_keep d.prefix word words
        then last_word word words
        else d.prefix ++ last_word word words)
dropped d word words h =
    if_both (λ r. d.prefix ++ last_word word words ≡ r) (all_keep d.prefix word words) _ _
      (λ k.
        ap (λ p. p ++ last_word word words)
          (empty_eq d.prefix (ground (arith, h, all_keep-first d.prefix word words k))))
      (λ _. refl)

-- If every word that is composed while a commit waits starts with the text that stays on the screen, the
-- screen shows the last of them once it is committed. If one of them does not, the screen shows that text
-- followed by the whole last word.
pub pending_shows :
    (d : Deferred) (word : Bytes) (words : List Bytes)
    → d.prefix ++ (type_words d word words).text ≡ (
        if all_keep d.prefix word words
        then last_word word words
        else d.prefix ++ last_word word words)
unfolding type_words last_word all_keep update_pending
pending_shows d word [] = elim (Bool-cases (not (is_empty d.prefix) && is_prefix d.prefix word)) [
  | inl keep ↦
      let k : is_prefix d.prefix word ≡ true = ground arith in
      rw (keep, k) (is_prefix-drop d.prefix word k)
  | inr lost ↦ rw (lost) (dropped d word [] lost)
]
pending_shows d word (next ∷ words) =
    elim (Bool-cases (not (is_empty d.prefix) && is_prefix d.prefix word)) [
      | inl keep ↦
          let k : is_prefix d.prefix word ≡ true = ground arith in
          let kept : Deferred = record d { text = drop (length d.prefix) word } in
          let u : update_pending word d ≡ kept = rw (keep) refl in
          ap (λ (e : Deferred). d.prefix ++ (type_words e next words).text) u
          ∙ pending_shows kept next words
          ∙ rw (k) refl
      | inr lost ↦
          let cleared : Deferred = record d { text = word; prefix = [] } in
          let u : update_pending word d ≡ cleared = rw (lost) refl in
          ap (λ (e : Deferred). d.prefix ++ (type_words e next words).text) u
          ∙ ap (λ s. d.prefix ++ s) (unprefixed cleared next words refl)
          ∙ dropped d word (next ∷ words) lost
    ]
