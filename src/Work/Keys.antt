-- ===== src/Work/Keys.antt =====
-- The keys of the two caches: bus names hold no line feed, so bus and path can be told apart.
use skey.Base.{◌≡◌, ◌≢◌, refl, ◌&&◌, [], ◌∷◌, Bytes, bytes_eq, is_prefix, arith, All}
use skey.Work.{entry_key, of_bus}

abbrev pub OneLine : Bytes → Type 0
OneLine = All (λ b. b ≢ 10)

-- The prefix test of `removeBus` on the key of a widget compares the bus names.
pub of_bus-entry_key :
    (bus other path : Bytes)
    → OneLine bus
    → OneLine other
    → of_bus bus (entry_key other path) ≡ bytes_eq bus other
unfolding is_prefix bytes_eq
of_bus-entry_key [] [] path h k = refl
of_bus-entry_key [] (c ∷ other) path h k = ground (arith, k.0)
of_bus-entry_key (b ∷ bus) [] path h k = ground (arith, h.0)
of_bus-entry_key (b ∷ bus) (c ∷ other) path h k =
    ground (arith, of_bus-entry_key bus other path h.1 k.1)

pub entry_key-eq :
    (bus other path path' : Bytes)
    → OneLine bus
    → OneLine other
    → bytes_eq (entry_key bus path) (entry_key other path')
      ≡ (bytes_eq bus other && bytes_eq path path')
unfolding bytes_eq
entry_key-eq [] [] path path' h k = refl
entry_key-eq [] (c ∷ other) path path' h k = ground (arith, k.0)
entry_key-eq (b ∷ bus) [] path path' h k = ground (arith, h.0)
entry_key-eq (b ∷ bus) (c ∷ other) path path' h k =
    ground (arith, entry_key-eq bus other path path' h.1 k.1)
