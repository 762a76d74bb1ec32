-- ===== src/Work/Poke.antt =====
-- The backoff, the size and the removals of `A11yPokeCache`.
use skey.Base.{
  ℕ, zero, suc, ◌+◌, ◌*◌, ◌^◌, ◌%◌, ap, bytes_eq_refl, ◌≤◌, ◌<◌, min, ◌≡◌, refl, sym, ◌∙◌, Bool,
  true, false, List, [], ◌∷◌, none, some, Bytes, bytes_eq, arith, if◌then◌else◌, leb, u64_mod,
  length, Bool-cases, inl, inr, Option-cases, ◌⊎◌,
}
use skey.Base.Table
use skey.Base.Table.{
  lookup-insert, lookup-erase_if, lookup-nil, length-insert, length-insert_present, length-erase_if,
}
use skey.Work.{
  with_room, PokeCache, PokeEntry, entry_key, of_bus, due, result, poked, entry_or_new, remove_bus,
}
use skey.Work.Keys.{OneLine, of_bus-entry_key}

pub data PokeEvent : Type 0 where
  answered : Bytes → Bytes → Bool → ℕ → PokeEvent
  bus_gone : Bytes → PokeEvent

pub step : PokeCache → PokeEvent → PokeCache
step c (answered bus path success now) = result c bus path success now
step c (bus_gone bus) = remove_bus c bus

pub run : PokeCache → List PokeEvent → PokeCache
run c [] = c
run c (e ∷ es) = run (step c e) es

pub record IsBounded (c : PokeCache) : Type 0 where
  pub size : length c ≤ 256
  pub at_key : (k : Bytes) (e : PokeEntry) → Table.lookup k c ≡ some e → e.failures ≤ 6

-- The count of failures that the cache holds for a widget, 0 where it holds none.
abbrev pub failures_of : PokeCache → Bytes → Bytes → ℕ
failures_of c bus path = (entry_or_new (Table.lookup (entry_key bus path) c)).failures

abbrev pub warmed_of : PokeCache → Bytes → Bytes → Bool
warmed_of c bus path = (entry_or_new (Table.lookup (entry_key bus path) c)).warmed

-- The microseconds until the next try after a failure that follows `n` failures.
abbrev pub delay : ℕ → ℕ
delay zero = 1000000
delay (suc zero) = 2000000
delay (suc (suc zero)) = 4000000
delay (suc (suc (suc zero))) = 8000000
delay (suc (suc (suc (suc zero)))) = 16000000
delay (suc (suc (suc (suc (suc zero))))) = 32000000
delay (suc (suc (suc (suc (suc (suc n)))))) = 60000000

module _ (c : PokeCache) (key : Bytes) where
  with_room-lookup : Table.lookup key (with_room c key) ≡ Table.lookup key c
  unfolding with_room
  with_room-lookup = elim (Option-cases (Table.lookup key c)) [
    | inl missing ↦ ground (arith, missing, lookup-nil {V = PokeEntry} key)
    | inr (it, found) ↦ ground (arith, found)
  ]

  with_room-other :
      (k : Bytes) (e : PokeEntry)
      → Table.lookup k (with_room c key) ≡ some e
      → Table.lookup k c ≡ some e
  unfolding with_room
  with_room-other k e h = ground (arith, lookup-nil {V = PokeEntry} k)

  with_room-length :
      length c ≤ 256 → (e : PokeEntry) → length (Table.insert key e (with_room c key)) ≤ 256
  with_room-length h e = elim (Option-cases (Table.lookup key c)) [
    | inr (it, found) ↦ omega (
      arith,
      length-insert_present key e it (with_room c key) (with_room-lookup ∙ found),
      room_small,
    )
    | inl missing ↦ omega (arith, length-insert key e (with_room c key), room_left missing)
  ]
    where
      room_small : length (with_room c key) ≤ 256
      room_small = unfold with_room in ground arith

      room_left : Table.lookup key c ≡ none → length (with_room c key) ≤ 255
      room_left missing = unfold with_room in ground (arith, missing)

  result-lookup :
      (bus path : Bytes) (success : Bool) (now : ℕ)
      → key ≡ entry_key bus path
      → (k : Bytes)
      → Table.lookup k (result c bus path success now) ≡ (
          if bytes_eq key k
          then some (poked (entry_or_new (Table.lookup key c)) success now)
          else Table.lookup k (with_room c key))
  unfolding result
  result-lookup bus path success now e k = rw (← e, lookup-insert, with_room-lookup) refl

poked-failures-le : (e : PokeEntry) (success : Bool) (now : ℕ) → (poked e success now).failures ≤ 6
unfolding poked
poked-failures-le e success now = ground arith

result-IsBounded :
    (c : PokeCache) (bus path : Bytes) (success : Bool) (now : ℕ)
    → IsBounded c
    → IsBounded (result c bus path success now)
result-IsBounded c bus path success now h = record {
  size = unfold result in with_room-length c (entry_key bus path) h.size _;
  at_key = λ k e found.
      at k e (Bool-cases (bytes_eq (entry_key bus path) k))
        (sym (result-lookup c (entry_key bus path) bus path success now refl k) ∙ found);
}
  where
    at :
        (k : Bytes) (e : PokeEntry)
        → ((bytes_eq (entry_key bus path) k ≡ true) ⊎ (bytes_eq (entry_key bus path) k ≡ false))
        → (if bytes_eq (entry_key bus path) k
            then some (poked (entry_or_new (Table.lookup (entry_key bus path) c)) success now)
            else Table.lookup k (with_room c (entry_key bus path)))
          ≡ some e
        → e.failures ≤ 6
    at k e (inl same) f = ground (
      arith,
      same,
      f,
      poked-failures-le (entry_or_new (Table.lookup (entry_key bus path) c)) success now,
    )
    at k e (inr other) f = h.at_key k e (with_room-other c (entry_key bus path) k e (rw other at f))

remove_bus-IsBounded : (c : PokeCache) (bus : Bytes) → IsBounded c → IsBounded (remove_bus c bus)
unfolding remove_bus
remove_bus-IsBounded c bus h = record {
  size = omega (arith, length-erase_if (of_bus bus) c, h.size);
  at_key = λ k e found. h.at_key k e (ground (arith, found, lookup-erase_if (of_bus bus) k c));
}

run-IsBounded : (c : PokeCache) (es : List PokeEvent) → IsBounded c → IsBounded (run c es)
unfolding run step
run-IsBounded c [] h = h
run-IsBounded c (answered bus path success now ∷ es) h =
    run-IsBounded (result c bus path success now) es (result-IsBounded c bus path success now h)
run-IsBounded c (bus_gone bus ∷ es) h =
    run-IsBounded (remove_bus c bus) es (remove_bus-IsBounded c bus h)

-- After any answers and removals the cache holds at most 256 entries, and none counts more than 6
-- failures.
poke_cache-IsBounded : (es : List PokeEvent) → IsBounded (run [] es)
poke_cache-IsBounded es = run-IsBounded [] es (record {
  size = omega arith;
  at_key = λ k e found. absurd (ground (arith, lookup-nil {V = PokeEntry} k, found));
})

delay-le : (n : ℕ) → delay n ≤ 60000000
delay-le zero = omega arith
delay-le (suc zero) = omega arith
delay-le (suc (suc zero)) = omega arith
delay-le (suc (suc (suc zero))) = omega arith
delay-le (suc (suc (suc (suc zero)))) = omega arith
delay-le (suc (suc (suc (suc (suc zero))))) = omega arith
delay-le (suc (suc (suc (suc (suc (suc n)))))) = omega arith

delay_table : (n : ℕ) → n ≤ 6 → min ((1000000 * 2 ^ n) % u64_mod) 60000000 ≡ delay n
delay_table zero h = refl
delay_table (suc zero) h = refl
delay_table (suc (suc zero)) h = refl
delay_table (suc (suc (suc zero))) h = refl
delay_table (suc (suc (suc (suc zero)))) h = refl
delay_table (suc (suc (suc (suc (suc zero))))) h = refl
delay_table (suc (suc (suc (suc (suc (suc zero)))))) h = refl
delay_table (suc (suc (suc (suc (suc (suc (suc n))))))) h = absurd (omega arith)

poked-next :
    (e : PokeEntry) (success : Bool) (now : ℕ)
    → e.failures ≤ 6
    → now + 60000000 < u64_mod
    → (poked e success now).next
      ≡ now + (if success then (if e.warmed then 60000000 else 2000000) else delay e.failures)
unfolding poked
poked-next e true now h fits = ground arith
poked-next e false now h fits = rw (delay_table e.failures h) (ground (arith, delay-le e.failures))

entry-failures-le : (c : PokeCache) (bus path : Bytes) → IsBounded c → failures_of c bus path ≤ 6
entry-failures-le c bus path h = elim (Option-cases (Table.lookup (entry_key bus path) c)) [
  | inl missing ↦ ground (arith, missing)
  | inr (it, found) ↦ ground (arith, found, h.at_key (entry_key bus path) it found)
]

-- In every cache that events can lead to, a widget is due again exactly when its delay has passed
-- since the last answer: after a failure 1, 2, 4, 8, 16, 32 and then 60 seconds by the failures
-- before it, after a success 2 seconds the first time and 60 seconds from then on.
due-result :
    (es : List PokeEvent) (bus path : Bytes) (success : Bool) (now later : ℕ)
    → now + 60000000 < u64_mod
    → let c = run [] es in
      due (result c bus path success now) bus path later
      ≡ leb
          (now
            + (if success
                then (if warmed_of c bus path then 60000000 else 2000000)
                else delay (failures_of c bus path)))
          later
unfolding due
due-result es bus path success now later fits =
    let c = run [] es in
    let key = entry_key bus path in
    let e = entry_or_new (Table.lookup key c) in
    let stored : Table.lookup key (result c bus path success now) ≡ some (poked e success now) =
      result-lookup c key bus path success now refl key ∙ rw (bytes_eq_refl key) refl in
    rw (stored, due)
      (ap (λ n. leb n later)
        (poked-next e success now (entry-failures-le c bus path (poke_cache-IsBounded es)) fits))

-- When a bus leaves, its widgets are due at once and those of every other bus as before, where bus
-- names hold no line feed.
due-remove_bus :
    (c : PokeCache) (bus other path : Bytes) (now : ℕ)
    → OneLine bus
    → OneLine other
    → due (remove_bus c bus) other path now
      ≡ (if bytes_eq bus other then true else due c other path now)
unfolding due remove_bus
due-remove_bus c bus other path now h k = elim (Bool-cases (bytes_eq bus other)) [
  | inl same ↦ ground (
    arith,
    same,
    of_bus-entry_key bus other path h k,
    lookup-erase_if (of_bus bus) (entry_key other path) c,
  )
  | inr differ ↦ ground (
    arith,
    differ,
    of_bus-entry_key bus other path h k,
    lookup-erase_if (of_bus bus) (entry_key other path) c,
  )
]
