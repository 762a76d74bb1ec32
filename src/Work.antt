-- ===== src/Work.antt =====
-- src/a11y_work_policy.h: when an application is asked again, and what of its tree is remembered.
pub mod Keys
pub mod Poke
pub mod Ancestor
use skey.Base.{
  ℕ, ◌+◌, ◌*◌, ◌^◌, ◌%◌, min, Bool, true, false, not, ◌&&◌, ◌||◌, Option, none, some, [], ◌∷◌, ◌++◌,
  ltb, leb, if◌then◌else◌, u64_mod, add64, sub64, add32, Bytes, is_prefix, length, ℤ,
}
use skey.Base.Table
use skey.Base.Table.{Table}

-- bus + '\n' + path
abbrev pub entry_key : Bytes → Bytes → Bytes
entry_key bus path = bus ++ 10 ∷ path

-- Whether `removeBus` erases the entry with this key.
abbrev pub of_bus : Bytes → Bytes → Bool
of_bus bus key = is_prefix (bus ++ 10 ∷ []) key

pub record PokeEntry : Type 0 where
  pub next : ℕ
  pub failures : ℕ
  pub warmed : Bool

abbrev pub PokeCache : Type 0
PokeCache = Table PokeEntry

pub due : PokeCache → Bytes → Bytes → ℕ → Bool
due entries bus path now = elim (Table.lookup (entry_key bus path) entries) [
  | none ↦ true
  | some it ↦ leb it.next now
]

-- The entry that `entries_[key]` yields, made when it is missing.
abbrev pub entry_or_new : Option PokeEntry → PokeEntry
entry_or_new none = record { next = 0; failures = 0; warmed = false }
entry_or_new (some it) = it

pub poked : PokeEntry → Bool → ℕ → PokeEntry
poked entry success now =
    if success
    then record {
      next = add64 now (if entry.warmed then 60000000 else 2000000);
      failures = 0;
      warmed = true;
    }
    else record entry {
      next = add64 now (min ((1000000 * 2 ^ entry.failures) % u64_mod) 60000000);
      failures = min (add32 entry.failures 1) 6;
    }

abbrev is_missing : Option PokeEntry → Bool
is_missing none = true
is_missing (some it) = false

-- A full table is cleared before a new key comes in.
pub with_room : PokeCache → Bytes → PokeCache
with_room entries key =
    if is_missing (Table.lookup key entries) && leb 256 (length entries) then [] else entries

pub result : PokeCache → Bytes → Bytes → Bool → ℕ → PokeCache
result entries bus path success now =
    let key = entry_key bus path in
    let entries' = with_room entries key in
    Table.insert key (poked (entry_or_new (Table.lookup key entries')) success now) entries'

pub remove_bus : PokeCache → Bytes → PokeCache
remove_bus entries bus = Table.erase_if (of_bus bus) entries

pub record AncestorEntry : Type 0 where
  pub parent_bus : Bytes
  pub parent_path : Bytes
  pub parent_role : ℤ
  pub at : ℕ

abbrev pub ttl_usec : ℕ
ttl_usec = 30000000

abbrev pub AncestorCache : Type 0
AncestorCache = Table AncestorEntry

pub find : AncestorCache → Bytes → Bytes → ℕ → Option AncestorEntry
find entries bus path now = elim (Table.lookup (entry_key bus path) entries) [
  | none ↦ none
  | some it ↦ if leb ttl_usec (sub64 now it.at) then none else some it
]

pub put : AncestorCache → Bytes → Bytes → AncestorEntry → AncestorCache
put entries bus path entry =
    Table.insert (entry_key bus path) entry (if leb 4096 (length entries) then [] else entries)

pub remove_bus_ancestors : AncestorCache → Bytes → AncestorCache
remove_bus_ancestors entries bus = Table.erase_if (of_bus bus) entries
