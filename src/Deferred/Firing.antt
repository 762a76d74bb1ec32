-- ===== src/Deferred/Firing.antt =====
-- The timer of a deferred commit: how often it fires until the text is delivered.
use skey.Base.{
  ℕ, zero, suc, ◌+◌, ◌≤◌, ◌<◌, ◌≡◌, ◌∙◌, refl, sym, ap, arith, Bool, true, false, not, ◌&&◌, ◌||◌,
  Option, none, some, List, [], ◌∷◌, ◌++◌, append-nil, ◌%◌, u64_mod, subst, ltb, ◌==◌,
  if◌then◌else◌, if_both, if_true, Bytes, is_empty, length, All, ℤ, pos, negsuc,
}
use skey.Deferred.{
  Deferred, Timer, idle, Effect, delete_before, commit, sleep_usec, replay_keys, Surrounding,
  longest_shown, missing_native_delete_chars, has_deferred_commit_pending, post_commit_pause,
  deletes, Moment, commit_now, retry, if_missing, or_zero, is_valid, finish_deferred_commit,
}

-- The event loop calls the timer that is armed, if one is.
abbrev fired : (Bytes → ℕ) → Moment → Deferred → Option Timer → Deferred × List Effect
fired utf8_length m d none = (d, [])
fired utf8_length m d (some t) = finish_deferred_commit utf8_length t.post_ms m d

pub fire : (Bytes → ℕ) → Moment → Deferred → Deferred × List Effect
fire utf8_length m d = fired utf8_length m d d.timer

pub fire_all : (Bytes → ℕ) → List Moment → Deferred → Deferred × List Effect
fire_all utf8_length [] d = (d, [])
fire_all utf8_length (m ∷ ms) d =
    let (e, before) = fire utf8_length m d in
    let (f, behind) = fire_all utf8_length ms e in (f, before ++ behind)

-- The texts that are committed, and the number of characters that are deleted.
unfoldable pub commits : List Effect → List Bytes
commits [] = []
commits (commit text ∷ es) = text ∷ commits es
commits (delete_before ∷ es) = commits es
commits (sleep_usec n ∷ es) = commits es
commits (replay_keys ∷ es) = commits es

pub deleted : List Effect → ℕ
deleted [] = 0
deleted (commit text ∷ es) = deleted es
deleted (delete_before ∷ es) = deleted es + 1
deleted (sleep_usec n ∷ es) = deleted es
deleted (replay_keys ∷ es) = deleted es

pub commits-append : (es fs : List Effect) → commits (es ++ fs) ≡ commits es ++ commits fs
unfolding commits
commits-append [] fs = refl
commits-append (commit text ∷ es) fs = ap (λ l. text ∷ l) (commits-append es fs)
commits-append (delete_before ∷ es) fs = commits-append es fs
commits-append (sleep_usec n ∷ es) fs = commits-append es fs
commits-append (replay_keys ∷ es) fs = commits-append es fs

deleted-append : (es fs : List Effect) → deleted (es ++ fs) ≡ deleted es + deleted fs
unfolding deleted
deleted-append [] fs = omega arith
deleted-append (commit text ∷ es) fs = deleted-append es fs
deleted-append (delete_before ∷ es) fs = omega (arith, deleted-append es fs)
deleted-append (sleep_usec n ∷ es) fs = deleted-append es fs
deleted-append (replay_keys ∷ es) fs = deleted-append es fs

commits-deletes : (n : ℕ) → commits (deletes n) ≡ []
unfolding commits deletes
commits-deletes zero = refl
commits-deletes (suc n) = commits-deletes n

deleted-deletes : (n : ℕ) → deleted (deletes n) ≡ n
unfolding deleted deletes
deleted-deletes zero = refl
deleted-deletes (suc n) = omega (arith, deleted-deletes n)

quiet_pause :
    (post_ms : ℤ)
    → (commits (post_commit_pause post_ms ++ replay_keys ∷ []) ≡ [])
      × (deleted (post_commit_pause post_ms ++ replay_keys ∷ []) ≡ 0)
unfolding post_commit_pause commits deleted
quiet_pause (pos zero) = (refl, refl)
quiet_pause (pos (suc n)) = (refl, refl)
quiet_pause (negsuc n) = (refl, refl)

fire_all-idle :
    (utf8_length : Bytes → ℕ) (ms : List Moment) → fire_all utf8_length ms idle ≡ (idle, [])
unfolding fire_all fire
fire_all-idle utf8_length [] = refl
fire_all-idle utf8_length (m ∷ ms) = rw (fire_all-idle utf8_length ms) refl

longest_shown-le :
    (surr : Option Surrounding) (tail : Bytes) (n : ℕ) → longest_shown surr tail n ≤ n
unfolding longest_shown
longest_shown-le surr tail zero = omega arith
longest_shown-le surr tail (suc k) = ground (arith, longest_shown-le surr tail k)

-- The deletions that are left behind so many observations; the first one deletes nothing.
budget : ℕ → ℕ → ℕ
budget zero len = len + len
budget (suc zero) len = len + len
budget (suc (suc zero)) len = len
budget (suc (suc (suc n))) len = 0

missing-le :
    (utf8_length : Bytes → ℕ) (d : Deferred) (surr : Option Surrounding)
    → or_zero (missing_native_delete_chars utf8_length d surr) ≤ utf8_length d.deleted_tail
unfolding missing_native_delete_chars
missing-le utf8_length d surr =
    if_both (λ o. or_zero o ≤ utf8_length d.deleted_tail)
      (d.native_delete_len == 0 || is_empty d.deleted_tail) _ _ (λ _. omega arith)
      (λ _.
        if_both (λ o. or_zero o ≤ utf8_length d.deleted_tail) (not (is_valid surr)) _ _
          (λ _. omega arith)
          (λ _. longest_shown-le surr d.deleted_tail (utf8_length d.deleted_tail)))

-- `checkCellSelection` finds no other cell, and `commitText` takes the text.
abbrev pub IsSmooth : Moment → Type 0
IsSmooth m = (m.cell_changed ≡ false) × (m.delivered ≡ true)

-- A run of the timer that delivers the text, and nothing more than it should.
record Delivers (d : Deferred) (len : ℕ) (r : Deferred × List Effect) : Type 0 where
  ends : r.0 ≡ idle
  commits_once : commits r.1 ≡ (d.text ++ d.flush_suffix) ∷ []
  few_deletes : deleted r.1 ≤ budget d.repair_attempt len

commit_now-Delivers :
    (post_ms : ℤ) (m : Moment) (d : Deferred) (len : ℕ)
    → m.delivered ≡ true
    → Delivers d len (commit_now post_ms m d)
unfolding commit_now commits deleted
commit_now-Delivers post_ms m d len h = record {
  ends = refl;
  commits_once =
      ap commits (if_true m.delivered _ _ h)
      ∙ ap (λ l. (d.text ++ d.flush_suffix) ∷ l) (quiet_pause post_ms).0;
  few_deletes =
      if_both (λ es. deleted es ≤ budget d.repair_attempt len) m.delivered _ _
        (λ _. omega (arith, (quiet_pause post_ms).1))
        (λ _.
          if_both (λ es. deleted es ≤ budget d.repair_attempt len) m.redelivered _ _
            (λ _. omega arith) (λ _. omega arith));
}

budget-step :
    (a len n : ℕ) → a < 3 → n ≤ len → (if a == 0 then 0 else n) + budget (a + 1) len ≤ budget a len
unfolding budget
budget-step zero len n h k = omega arith
budget-step (suc zero) len n h k = omega (arith, k)
budget-step (suc (suc zero)) len n h k = omega (arith, k)
budget-step (suc (suc (suc a))) len n h k = absurd (omega arith)

budget-le : (a len : ℕ) → budget a len ≤ len + len
unfolding budget
budget-le zero len = omega arith
budget-le (suc zero) len = omega arith
budget-le (suc (suc zero)) len = omega arith
budget-le (suc (suc (suc a))) len = omega arith

-- One call of the timer, and what the later ones do.
behind : (Bytes → ℕ) → List Moment → Deferred × List Effect → Deferred × List Effect
behind utf8_length ms r = ((fire_all utf8_length ms r.0).0, r.1 ++ (fire_all utf8_length ms r.0).1)

commit_now-behind :
    (utf8_length : Bytes → ℕ) (ms : List Moment) (post_ms : ℤ) (m : Moment) (d : Deferred) (len : ℕ)
    → m.delivered ≡ true
    → Delivers d len (behind utf8_length ms (commit_now post_ms m d))
unfolding behind commit_now
commit_now-behind utf8_length ms post_ms m d len h =
    rw (fire_all-idle utf8_length ms, append-nil (commit_now post_ms m d).1)
      (commit_now-Delivers post_ms m d len h)

retry-behind :
    (utf8_length : Bytes → ℕ) (ms : List Moment) (post_ms : ℤ) (m : Moment) (d : Deferred)
    (missing len : ℕ)
    → d.repair_attempt < 3
    → missing ≤ len
    → Delivers
        (retry post_ms m d missing).0
        len
        (fire_all utf8_length ms (retry post_ms m d missing).0)
    → Delivers d len (behind utf8_length ms (retry post_ms m d missing))
unfolding behind
retry-behind utf8_length ms post_ms m d missing len h k r =
    let later = (fire_all utf8_length ms (retry post_ms m d missing).0).1 in
    let now = (retry post_ms m d missing).1 in
    let silent : commits now ≡ [] =
      if_both (λ es. commits es ≡ []) (d.repair_attempt == 0) _ _ (λ _. unfold commits in refl)
        (λ _. commits-deletes missing) in
    let counted : deleted now ≡ (if d.repair_attempt == 0 then 0 else missing) =
      counted_at (d.repair_attempt == 0) in
    record {
      ends = r.ends;
      commits_once =
          commits-append now later ∙ ap (λ l. l ++ commits later) silent ∙ r.commits_once;
      few_deletes = omega (
        arith,
        deleted-append now later,
        counted,
        r.few_deletes,
        budget-step d.repair_attempt len missing h k,
      );
    }
  where
    counted_at :
        (b : Bool) → deleted (if b then [] else deletes missing) ≡ (if b then 0 else missing)
    counted_at true = unfold deleted in refl
    counted_at false = deleted-deletes missing

finish-pending :
    (utf8_length : Bytes → ℕ) (post_ms : ℤ) (m : Moment) (d : Deferred)
    → m.cell_changed ≡ false
    → has_deferred_commit_pending d ≡ true
    → finish_deferred_commit utf8_length post_ms m d ≡ (
        if not (d.native_delete_len == 0)
          && ltb d.repair_attempt 3
          && if_missing (missing_native_delete_chars utf8_length d m.surrounding)
        then retry post_ms m d (or_zero (missing_native_delete_chars utf8_length d m.surrounding))
        else commit_now post_ms m d)
unfolding finish_deferred_commit
finish-pending utf8_length post_ms m d c p = rw (c, p) refl

-- Four observations are enough from the first one on.
fires :
    (utf8_length : Bytes → ℕ) (ms : List Moment) (d : Deferred) (t : Timer)
    → d.timer ≡ some t
    → has_deferred_commit_pending d ≡ true
    → All IsSmooth ms
    → 4 ≤ d.repair_attempt + length ms
    → 1 ≤ length ms
    → Delivers d (utf8_length d.deleted_tail) (fire_all utf8_length ms d)
unfolding fire_all fire behind has_deferred_commit_pending
fires utf8_length [] d t e p q h l = absurd (omega arith)
fires utf8_length (m ∷ ms) d t e p q h l =
    let missing = missing_native_delete_chars utf8_length d m.surrounding in
    let called : fire utf8_length m d ≡ (
        if not (d.native_delete_len == 0) && ltb d.repair_attempt 3 && if_missing missing
        then retry t.post_ms m d (or_zero missing)
        else commit_now t.post_ms m d) =
      ap (fired utf8_length m d) e ∙ finish-pending utf8_length t.post_ms m d q.0.0 p in
    subst (λ r. Delivers d (utf8_length d.deleted_tail) (behind utf8_length ms r)) (sym called)
      (if_both (λ r. Delivers d (utf8_length d.deleted_tail) (behind utf8_length ms r))
        (not (d.native_delete_len == 0) && ltb d.repair_attempt 3 && if_missing missing) _ _
        (λ again.
          retry-behind utf8_length ms t.post_ms m d (or_zero missing) (utf8_length d.deleted_tail)
            (ground (arith, again)) (missing-le utf8_length d m.surrounding)
            (fires utf8_length ms (retry t.post_ms m d (or_zero missing)).0
              (record { due = (m.now + 20000) % u64_mod; post_ms = t.post_ms }) refl p q.1
              (omega (arith, h)) (ground (arith, again, h))))
        (λ _. commit_now-behind utf8_length ms t.post_ms m d (utf8_length d.deleted_tail) q.0.1))

-- Whatever the application reports: from the first call of its timer on, at most four calls deliver a text
-- that waits, if no cell changes meanwhile and `commitText` does not refuse it. The text is committed once, with its suffix, and nothing else is;
-- at most twice as many characters are deleted as the tail has that the application was to delete; and
-- then nothing waits any more.
pub deferred_commit_delivered :
    (utf8_length : Bytes → ℕ) (first second third fourth : Moment) (d : Deferred) (t : Timer)
    → d.timer ≡ some t
    → has_deferred_commit_pending d ≡ true
    → All IsSmooth (first ∷ (second ∷ (third ∷ (fourth ∷ []))))
    → ((fire_all utf8_length (first ∷ (second ∷ (third ∷ (fourth ∷ [])))) d).0 ≡ idle)
      × (commits (fire_all utf8_length (first ∷ (second ∷ (third ∷ (fourth ∷ [])))) d).1
          ≡ (d.text ++ d.flush_suffix) ∷ [])
      × (deleted (fire_all utf8_length (first ∷ (second ∷ (third ∷ (fourth ∷ [])))) d).1
          ≤ utf8_length d.deleted_tail + utf8_length d.deleted_tail)
deferred_commit_delivered utf8_length first second third fourth d t e p q =
    let r =
      fires utf8_length (first ∷ (second ∷ (third ∷ (fourth ∷ [])))) d t e p q (omega arith)
        (omega arith) in
    (
      r.ends,
      r.commits_once,
      omega (arith, r.few_deletes, budget-le d.repair_attempt (utf8_length d.deleted_tail)),
    )
