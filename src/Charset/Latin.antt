-- ===== src/Charset/Latin.antt =====
-- The bytes of a legacy charset come back from the UTF-8 text that carries them.
use skey.Base.{
  ℕ, ◌+◌, ◌*◌, ◌-◌, ◌/◌, ◌%◌, ◌<◌, ◌≡◌, ◌∙◌, refl, sym, ap, arith, true, false, if_both, [], ◌∷◌,
  ◌++◌, append_assoc, append-nil, leb, if◌then◌else◌, Bytes, All, Option, some, is_empty, c_str,
  Bool-cases, inl, inr,
}
use skey.Charset.{
  Charset, append_byte, append_bytes, convert_charset, charset_id, is_unicode, is_decomposed,
}

-- The Latin-1 characters of a UTF-8 text of one- and two-byte characters; other bytes end it.
unfoldable pub latin : Bytes → Bytes
latin [] = []
latin (c ∷ []) = if leb c 127 then c ∷ [] else []
latin (c ∷ (d ∷ s)) =
    let one = latin (d ∷ s) in
    let two = latin s in if leb c 127 then c ∷ one else ((c - 192) * 64 + (d - 128)) ∷ two

-- The UTF-8 form of a byte string, in its order.
abbrev encoded : Bytes → Bytes
encoded [] = []
encoded (b ∷ raw) =
    let rest = encoded raw in
    if leb b 127 then b ∷ rest else (192 + b / 64) ∷ ((128 + b % 64) ∷ rest)

append_bytes-encoded : (raw result : Bytes) → append_bytes result raw ≡ result ++ encoded raw
unfolding append_bytes append_byte
append_bytes-encoded [] result = sym (append-nil result)
append_bytes-encoded (b ∷ raw) result = elim (Bool-cases (leb b 127)) [
  | inl e ↦
      rw (e, append_bytes-encoded raw (result ++ b ∷ []))
        (append_assoc result (b ∷ []) (encoded raw))
  | inr e ↦
      rw (e, append_bytes-encoded raw (result ++ (192 + b / 64) ∷ ((128 + b % 64) ∷ [])))
        (append_assoc result ((192 + b / 64) ∷ ((128 + b % 64) ∷ [])) (encoded raw))
]

latin-one : (b : ℕ) (s : Bytes) → leb b 127 ≡ true → latin (b ∷ s) ≡ b ∷ latin s
unfolding latin
latin-one b [] e = ground arith
latin-one b (c ∷ s) e = ground arith

latin-two :
    (b : ℕ) (s : Bytes)
    → leb b 127 ≡ false
    → b < 256
    → latin ((192 + b / 64) ∷ ((128 + b % 64) ∷ s)) ≡ b ∷ latin s
unfolding latin
latin-two b s e h =
    if_both (λ r. r ≡ b ∷ latin s) (leb (192 + b / 64) 127) _ _ (λ o. absurd (ground arith))
      (λ _. ap (λ c. c ∷ latin s) (omega arith))

latin-encoded : (raw : Bytes) → All (λ b. b < 256) raw → latin (encoded raw) ≡ raw
unfolding latin
latin-encoded [] h = refl
latin-encoded (b ∷ raw) h =
    let back = latin-encoded raw (h.1) in
    if_both (λ r. latin r ≡ b ∷ raw) (leb b 127) _ _
      (λ e. latin-one b (encoded raw) e ∙ ap (λ s. b ∷ s) back)
      (λ e. latin-two b (encoded raw) e (h.0) ∙ ap (λ s. b ∷ s) back)

-- For a legacy charset and a text that is not empty: if the encoder returns bytes, the converted text is
-- UTF-8 whose Latin-1 characters are exactly those bytes, in their order.
convert_charset-latin :
    (encode : Bytes → ℕ → Option Bytes) (utf8 : Bytes) (cs : Charset) (raw : Bytes)
    → is_unicode cs ≡ false
    → is_decomposed cs ≡ false
    → is_empty utf8 ≡ false
    → encode (c_str utf8) (charset_id cs) ≡ some raw
    → All (λ b. b < 256) raw
    → latin (convert_charset encode utf8 cs) ≡ raw
unfolding convert_charset
convert_charset-latin encode utf8 cs raw hu hd he hr h =
    rw (hu, he, hr, hd, append_bytes-encoded raw []) (latin-encoded raw h)
