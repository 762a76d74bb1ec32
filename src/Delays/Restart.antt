-- ===== src/Delays/Restart.antt =====
-- What a later session reads back from the file of statistics.
use skey.Base.{
  ℕ, ◌%◌, ◌<◌, ◌≤◌, ◌≡◌, ◌∙◌, refl, sym, ap, arith, Bool, true, false, Option, none, some, [], ◌∷◌,
  ◌++◌, ltb, leb, ◌&&◌, ◌==◌, if◌then◌else◌, if_both, if_true, if_false, Bool-cases, inl, inr,
  Bytes, bytes_eq, bytes_eq_iff, All, All-mono, u32_mod, u64_mod,
}
use skey.Base.Decimal.{decimal, decimal-digits, Digit, strtoull, strtoull-decimal}
use skey.Base.Table.{Table, lookup, lookup-insert}
use skey.Settings.Lines.{strip_quotes, cut, is_quoted}
use skey.Settings.Lines.Laws.{Lacks, cut-append}
use skey.Delays.{
  AppDelayStat, AppDelays, counts, is_usable, usable, parse_fields, parse_stat, stronger,
  merge_stat, load_stats, load_app_delays, print_stat, save_stats, save_app_delays,
}

-- The members fit their types.
pub record InRange (s : AppDelayStat) : Type 0 where
  pub rt_ewma : s.rt_ewma_usec ≤ 200000
  pub samples : s.samples < u32_mod
  pub last_sleep : s.last_sleep_usec < u64_mod

Digits-Lacks : (b : ℕ) (s : Bytes) → b < b'0' → All Digit s → Lacks b s
Digits-Lacks b s h = All-mono Digit (λ c. (c == b) ≡ false) s (λ c d. ground arith)

digits_unquoted : (s t : Bytes) → All Digit s → strip_quotes (s ++ b',' ∷ t) ≡ s ++ b',' ∷ t
unfolding strip_quotes is_quoted
digits_unquoted [] t h = ground arith
digits_unquoted (c ∷ s) t h = ground (arith, h.0)

cut-decimal : (n : ℕ) (t : Bytes) → cut b',' (decimal n ++ b',' ∷ t) ≡ some (decimal n, t)
cut-decimal n t =
    cut-append b',' (decimal n) t (Digits-Lacks b',' (decimal n) (omega arith) (decimal-digits n))

parse_stat-print_stat :
    (s : AppDelayStat) → InRange s → parse_stat (strip_quotes (print_stat s)) ≡ usable s
unfolding parse_stat print_stat
parse_stat-print_stat s h =
    let tail = decimal s.samples ++ b',' ∷ decimal s.last_sleep_usec in
    ap (λ v. parse_fields (cut b',' v))
      (digits_unquoted (decimal s.rt_ewma_usec) tail (decimal-digits s.rt_ewma_usec))
    ∙ ap parse_fields (cut-decimal s.rt_ewma_usec tail)
    ∙ ap
        (λ o.
          let c = counts tail o in
          usable (record {
            rt_ewma_usec = strtoull (decimal s.rt_ewma_usec);
            samples = c.0;
            last_sleep_usec = c.1;
          }))
        (cut-decimal s.samples (decimal s.last_sleep_usec))
    ∙ rw
        (
          strtoull-decimal s.rt_ewma_usec (omega (arith, h.rt_ewma)),
          strtoull-decimal s.samples (omega (arith, h.samples)),
          strtoull-decimal s.last_sleep_usec h.last_sleep,
          same_samples,
        )
        refl
  where
    same_samples : s.samples % u32_mod ≡ s.samples
    same_samples = omega (arith, h.samples)

-- A table as std::map keeps it: no key twice, and every statistic fits its types.
abbrev pub IsSound : Table AppDelayStat → Type 0
IsSound [] = Unit
IsSound ((k, s) ∷ m) = (lookup k m ≡ none) × InRange s × IsSound m

-- At least 3 samples, and a round trip from 100 to 200000 microseconds.
abbrev pub counts_in_file : AppDelayStat → Bool
counts_in_file s = leb 3 s.samples && (leb 100 s.rt_ewma_usec && leb s.rt_ewma_usec 200000)

-- What a key has when its entry of the file is read into a session that may have its own.
abbrev pub merged : Option AppDelayStat → Option AppDelayStat → Option AppDelayStat
merged t none = t
merged none (some s) = if counts_in_file s then some s else none
merged (some t) (some s) = if counts_in_file s && ltb t.samples s.samples then some s else some t

is_usable-counts : (s : AppDelayStat) → is_usable s ≡ counts_in_file s
is_usable-counts s = ground arith

merged-stronger :
    (t : Option AppDelayStat) (s : AppDelayStat)
    → (if is_usable s then some (stronger t s) else t) ≡ merged t (some s)
merged-stronger none s = rw (is_usable-counts s) refl
merged-stronger (some t) s =
    rw (is_usable-counts s) (both (counts_in_file s) (ltb t.samples s.samples))
  where
    both :
        (b c : Bool)
        → (if b then some (if c then s else t) else some t) ≡ (if b && c then some s else some t)
    both true true = refl
    both true false = refl
    both false c = refl

loaded : Bytes → AppDelayStat → Table AppDelayStat → Table AppDelayStat
loaded k s m = merge_stat k (usable s) m

lookup-loaded :
    (k j : Bytes) (s : AppDelayStat) (m : Table AppDelayStat)
    → lookup j (merge_stat k (usable s) m)
      ≡ (if bytes_eq k j then merged (lookup j m) (some s) else lookup j m)
lookup-loaded k j s m = elim (Bool-cases (is_usable s)) [
  | inl u ↦ rw (u) (
      lookup-insert k j (stronger (lookup k m) s) m
      ∙ at_key (bytes_eq k j) (bytes_eq_iff k j).0
      ∙ ap (λ o. if bytes_eq k j then o else lookup j m)
          (sym (if_true (is_usable s) _ (lookup j m) u) ∙ merged-stronger (lookup j m) s))
  | inr u ↦ rw (u) (
      sym (
        if_both (λ o. o ≡ lookup j m) (bytes_eq k j) _ _
          (λ _. sym (merged-stronger (lookup j m) s) ∙ if_false (is_usable s) _ (lookup j m) u)
          (λ _. refl)))
]
  where
    at_key :
        (b : Bool)
        → (b ≡ true → k ≡ j)
        → (if b then some (stronger (lookup k m) s) else lookup j m)
          ≡ (if b then some (stronger (lookup j m) s) else lookup j m)
    at_key true e = ap (λ i. some (stronger (lookup i m) s)) (e refl)
    at_key false e = refl

unsaved : (s : AppDelayStat) → leb 3 s.samples ≡ false → is_usable s ≡ false
unsaved s h = ground arith

saved_entry :
    (k : Bytes) (s : AppDelayStat) (m t : Table AppDelayStat)
    → InRange s
    → load_stats t (save_stats ((k, s) ∷ m)) ≡ load_stats (merge_stat k (usable s) t) (save_stats m)
unfolding load_stats save_stats
saved_entry k s m t h =
    if_both (λ cfg. load_stats t cfg ≡ load_stats (merge_stat k (usable s) t) (save_stats m))
      (leb 3 s.samples) _ _
      (λ _. ap (λ o. load_stats (merge_stat k o t) (save_stats m)) (parse_stat-print_stat s h))
      (λ e. rw (unsaved s e) refl)

lookup-load_stats :
    (j : Bytes) (m t : Table AppDelayStat)
    → IsSound m
    → lookup j (load_stats t (save_stats m)) ≡ merged (lookup j t) (lookup j m)
unfolding load_stats save_stats lookup
lookup-load_stats j [] t h = refl
lookup-load_stats j ((k, s) ∷ m) t h =
    ap (lookup j) (saved_entry k s m t h.1)
    ∙ lookup-load_stats j m (merge_stat k (usable s) t) h.2
    ∙ ap (λ o. merged o (lookup j m)) (lookup-loaded k j s t)
    ∙ at_key (bytes_eq k j) (λ e. ap (λ i. lookup i m) (sym ((bytes_eq_iff k j).0 e)) ∙ h.0)
  where
    at_key :
        (b : Bool)
        → (b ≡ true → lookup j m ≡ none)
        → merged (if b then merged (lookup j t) (some s) else lookup j t) (lookup j m)
          ≡ merged (lookup j t) (if b then some s else lookup j m)
    at_key true e = rw (e refl) refl
    at_key false e = refl

-- What one session saves and another reads, if the first has no key twice, each of its round trips is at most
-- 200000 microseconds and its other numbers fit their types: for each key the session then holds the statistic with more
-- samples, and its own where they have equally many; a statistic of the file counts only if it has at least
-- 3 samples and its round trip lies between 100 and 200000 microseconds.
pub load_app_delays-save :
    (d e : AppDelays) (now : ℕ) (j : Bytes)
    → IsSound d.stats
    → lookup j (load_app_delays e (save_app_delays d now).0).stats
      ≡ merged (lookup j e.stats) (lookup j d.stats)
unfolding load_app_delays save_app_delays
load_app_delays-save d e now j h = lookup-load_stats j d.stats e.stats h
