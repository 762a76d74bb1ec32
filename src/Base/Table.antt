-- ===== src/Base/Table.antt =====
-- `std::unordered_map<std::string, V>` as a list of entries without repeated keys. The source never
-- depends on the order of the entries.
use Prim.Native.Nat.{◌+◌, ◌≤◌}
use mathlib.Core.Bool.{Bool}
use mathlib.Core.List.{List, [], ◌∷◌}
use mathlib.Core.Option.{Option, none, some}
use mathlib.Core.Path.{◌≡◌, refl}
use mathlib.Core.Logic.{inl, inr}
use native.Mathlib.Omega.{arith}
use skey.Base.Tests.{if◌then◌else◌, Bool-cases}
use skey.Base.Lists.{length}
use skey.Base.Text.{Bytes, bytes_eq, bytes_eq_iff}

abbrev pub Table {ℓ} : Type ℓ → Type ℓ
Table V = List (Bytes × V)

module _ {ℓ} {V : Type ℓ} where
  -- m.find(k)
  unfoldable pub lookup : Bytes → Table V → Option V
  lookup k [] = none
  lookup k ((j, v) ∷ m) = if bytes_eq j k then some v else lookup k m

  -- m[k] = v
  unfoldable pub insert : Bytes → V → Table V → Table V
  insert k v [] = (k, v) ∷ []
  insert k v ((j, w) ∷ m) = if bytes_eq j k then (k, v) ∷ m else (j, w) ∷ insert k v m

  -- The loop that erases each entry whose key passes the test.
  pub erase_if : (Bytes → Bool) → Table V → Table V
  erase_if test [] = []
  erase_if test ((j, v) ∷ m) = let rest = erase_if test m in if test j then rest else (j, v) ∷ rest

  pub lookup-insert :
      (k j : Bytes) (v : V) (m : Table V)
      → lookup j (insert k v m) ≡ (if bytes_eq k j then some v else lookup j m)
  unfolding lookup insert
  lookup-insert k j v [] = refl
  lookup-insert k j v ((i, w) ∷ m) =
      ground (arith, bytes_eq_iff k j, bytes_eq_iff i k, bytes_eq_iff i j, lookup-insert k j v m)

  pub lookup-erase_if :
      (test : Bytes → Bool) (j : Bytes) (m : Table V)
      → lookup j (erase_if test m) ≡ (if test j then none else lookup j m)
  unfolding lookup erase_if
  lookup-erase_if test j [] = ground arith
  lookup-erase_if test j ((i, v) ∷ m) = elim (Bool-cases (bytes_eq i j)) [
    | inl same ↦
        let e : i ≡ j = (bytes_eq_iff i j).0 same in
        rw e (ground (arith, bytes_eq_iff j j, lookup-erase_if test j m))
    | inr other ↦ ground (arith, lookup-erase_if test j m)
  ]

  pub lookup-nil : (j : Bytes) → lookup j [] ≡ none
  unfolding lookup
  lookup-nil j = refl

  pub length-insert : (k : Bytes) (v : V) (m : Table V) → length (insert k v m) ≤ length m + 1
  unfolding insert
  length-insert k v [] = omega arith
  length-insert k v ((j, w) ∷ m) = ground (arith, length-insert k v m)

  pub length-insert_present :
      (k : Bytes) (v w : V) (m : Table V) → lookup k m ≡ some w → length (insert k v m) ≡ length m
  unfolding insert lookup
  length-insert_present k v w [] h = cc
  length-insert_present k v w ((j, u) ∷ m) h = ground (arith, length-insert_present k v w m)

  pub length-erase_if : (test : Bytes → Bool) (m : Table V) → length (erase_if test m) ≤ length m
  unfolding erase_if
  length-erase_if test [] = omega arith
  length-erase_if test ((j, v) ∷ m) = ground (arith, length-erase_if test m)
