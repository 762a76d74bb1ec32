-- ===== src/Work/Ancestor.antt =====
-- What `A11yAncestorCache` finds.
use skey.Base.{
  ℕ, ◌+◌, ◌≤◌, ◌<◌, ◌≡◌, [], none, some, Bytes, bytes_eq, arith, if◌then◌else◌, leb, u64_mod,
  length, Bool-cases, inl, inr, ◌&&◌,
}
use skey.Base.Table.{lookup-insert, lookup-nil, length-insert}
use skey.Work.{AncestorCache, AncestorEntry, entry_key, find, put, ttl_usec}
use skey.Work.Keys.{OneLine, entry_key-eq}

-- What was put for a widget is found for 30 seconds from its stamp and no longer; nothing else is
-- found for that widget. For another widget a find gives what it gave before, or nothing where the
-- table of 4096 entries was full and had to be cleared.
find-put :
    (c : AncestorCache) (bus path other path' : Bytes) (entry : AncestorEntry) (now : ℕ)
    → OneLine bus
    → OneLine other
    → entry.at ≤ now
    → now < u64_mod
    → find (put c bus path entry) other path' now ≡ (
        if bytes_eq bus other && bytes_eq path path'
        then (if leb (entry.at + ttl_usec) now then none else some entry)
        else if leb 4096 (length c)
        then none
        else find c other path' now)
unfolding find put
find-put c bus path other path' entry now h k past fits = elim (Bool-cases (leb 4096 (length c))) [
  | inl full ↦ ground (
    arith,
    full,
    entry_key-eq bus other path path' h k,
    lookup-nil {V = AncestorEntry} (entry_key other path'),
    lookup-insert (entry_key bus path) (entry_key other path') entry [],
  )
  | inr room ↦ ground (
    arith,
    room,
    entry_key-eq bus other path path' h k,
    lookup-insert (entry_key bus path) (entry_key other path') entry c,
  )
]

-- At most 4096 entries are kept.
pub put-length-le :
    (c : AncestorCache) (bus path : Bytes) (entry : AncestorEntry)
    → length (put c bus path entry) ≤ 4096
unfolding put
put-length-le c bus path entry = elim (Bool-cases (leb 4096 (length c))) [
  | inl full ↦ ground (arith, full, length-insert (entry_key bus path) entry [])
  | inr room ↦ ground (arith, room, length-insert (entry_key bus path) entry c)
]
