-- ===== src/AppDelay/Key.antt =====
-- What an application's key looks like in the settings file.
use skey.Base.{
  ℕ, ◌≡◌, ◌≢◌, refl, ap, Bool, true, false, [], ◌∷◌, ◌++◌, Bytes, arith, All, codes, if◌then◌else◌,
  is_empty, Bool-cases, inl, inr,
}
use skey.AppDelay.{app_delay_key, is_unsafe, replace_unsafe, trim_start, trim_end}

abbrev pub Safe : Bytes → Type 0
Safe = All (λ c. is_unsafe c ≡ false)

replace_unsafe-Safe : (s : Bytes) → Safe (replace_unsafe s)
unfolding replace_unsafe is_unsafe
replace_unsafe-Safe [] = tt
replace_unsafe-Safe (c ∷ s) = (ground arith, replace_unsafe-Safe s)

trim_start-Safe : (s : Bytes) → Safe s → Safe (trim_start s)
unfolding trim_start
trim_start-Safe [] h = h
trim_start-Safe (c ∷ s) h = ground (arith, trim_start-Safe s h.1)

trim_end-Safe : (s : Bytes) → Safe s → Safe (trim_end s)
unfolding trim_end
trim_end-Safe [] h = h
trim_end-Safe (c ∷ s) h = ground (arith, trim_end-Safe s h.1, h.0)

append-Safe : (s t : Bytes) → Safe s → Safe t → Safe (s ++ t)
append-Safe [] t h k = k
append-Safe (c ∷ s) t h k = (h.0, append-Safe s t h.1 k)

suffix-Safe : (wayland : Bool) → Safe (codes (if wayland then "@w" else "@x"))
unfolding is_unsafe
suffix-Safe true = (refl, (refl, tt))
suffix-Safe false = (refl, (refl, tt))

-- No key holds a byte that would break a line or a path of the settings file, whatever the program's
-- name.
key-Safe : (prog : Bytes) (wayland : Bool) → Safe (app_delay_key prog wayland)
unfolding app_delay_key
key-Safe prog wayland =
    let k = trim_start (replace_unsafe prog) in
    let safe : Safe k = trim_start-Safe (replace_unsafe prog) (replace_unsafe-Safe prog) in
    elim (Bool-cases (is_empty k)) [
      | inl none_left ↦ rw none_left tt
      | inr some_left ↦
          rw some_left (append-Safe (trim_end k) _ (trim_end-Safe k safe) (suffix-Safe wayland))
    ]

final : Bytes → ℕ
final [] = 0
final (c ∷ []) = c
final (c ∷ (d ∷ s)) = final (d ∷ s)

final-append : (s : Bytes) (a b : ℕ) → final (s ++ (a ∷ (b ∷ []))) ≡ b
unfolding final
final-append [] a b = refl
final-append (c ∷ []) a b = refl
final-append (c ∷ (d ∷ s)) a b = final-append (d ∷ s) a b

key-final :
    (prog : Bytes) (wayland : Bool)
    → app_delay_key prog wayland ≢ []
    → final (app_delay_key prog wayland) ≡ (if wayland then b'w' else b'x')
unfolding app_delay_key
key-final prog true h =
    ground (arith, final-append (trim_end (trim_start (replace_unsafe prog))) b'@' b'w')
key-final prog false h =
    ground (arith, final-append (trim_end (trim_start (replace_unsafe prog))) b'@' b'x')

-- The statistics of Wayland and of X11 never share a key: where a Wayland key equals an X11 key, of
-- the same program or of two, neither program has a usable name.
keys_apart :
    (prog other : Bytes)
    → app_delay_key prog true ≡ app_delay_key other false
    → (app_delay_key prog true ≡ []) × (app_delay_key other false ≡ [])
keys_apart prog other same = elim (Bool-cases (is_empty (app_delay_key prog true))) [
  | inl none_left ↦ (ground arith, ground arith)
  | inr some_left ↦
      absurd (ground (arith, key-final prog true, key-final other false, ap final same))
]
