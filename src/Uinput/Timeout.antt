-- ===== src/Uinput/Timeout.antt =====
-- The safety timer: how often it expires until the pending text is committed, and the grace behind that.
use skey.Base.{
  ℕ, zero, suc, ◌+◌, ◌≤◌, ◌<◌, ◌≡◌, ◌⊎◌, refl, sym, ap, ◌∙◌, subst, arith, Bool, true, false, ◌&&◌,
  not, ◌||◌, Option, none, some, List, [], ◌∷◌, ◌++◌, append-nil, ltb, ◌==◌, if◌then◌else◌, if_both,
  if_true, if_false, inl, inr, Bytes, is_empty, length, ℤ, pos, negsuc, add64, u64_mod,
}
use skey.Deferred.{Effect, commit, delete_before, sleep_usec, replay_keys, post_commit_pause}
use skey.Deferred.Firing.{commits, commits-append}
use skey.Timing.{Doubles}
use skey.Uinput.Delay.{App}
use skey.Uinput.{
  Key, KeyKind, backspace, left, is_backspace, Uinput, Request, unhandled, consumed, CommitAnswer,
  taken, discarded, redelivered, after_commit, commit_effects, given_up, reset_for_cell_change,
  cancel_uinput_request, has_request, Deferral, go_on, discard, wait, defer_uinput_timer,
  safety_due, safety_expired, force_commit, extends_safety, arm_uinput_safety_timer,
  handle_pending_uinput_backspace, swallows_late, end_grace,
}

-- A moment at which the timer expires, with the state of the request and the manual pause then.
pub record Expiry : Type 0 where
  pub now : ℕ
  pub request : Option Request
  pub post_ms : ℤ

-- The event loop calls the callback only while the timer is armed; it asks `commitText` at most once.
abbrev called : CommitAnswer → Bool → Expiry → Uinput → Option ℕ → Uinput × List Effect
called answer is_wayland m s none = (s, [])
called answer is_wayland m s (some due) =
    safety_expired is_wayland m.now m.post_ms answer (record s { request = m.request })

pub expire : CommitAnswer → Bool → Expiry → Uinput → Uinput × List Effect
expire answer is_wayland m s = called answer is_wayland m s s.safety_timer

unfoldable pub expire_all : CommitAnswer → Bool → List Expiry → Uinput → Uinput × List Effect
expire_all answer is_wayland [] s = (s, [])
expire_all answer is_wayland (m ∷ ms) s =
    let (t, before) = expire answer is_wayland m s in
    let (u, behind) = expire_all answer is_wayland ms t in (u, before ++ behind)

-- The moments at which the request is done, and those at which it has failed.
abbrev one_if_done : Deferral → ℕ
one_if_done go_on = 1
one_if_done discard = 0
one_if_done wait = 0

abbrev one_if_failed : Deferral → ℕ
one_if_failed go_on = 0
one_if_failed discard = 1
one_if_failed wait = 0

unfoldable pub done_moments : List Expiry → ℕ
done_moments [] = 0
done_moments (m ∷ ms) = one_if_done (defer_uinput_timer m.request) + done_moments ms

unfoldable pub failed_moments : List Expiry → ℕ
failed_moments [] = 0
failed_moments (m ∷ ms) = one_if_failed (defer_uinput_timer m.request) + failed_moments ms

-- The texts that reach the application for a pending text.
abbrev pub received : CommitAnswer → Bytes → List Bytes
received taken text = if is_empty text then [] else text ∷ []
received discarded text = []
received (redelivered again) text = if is_empty text || not again then [] else text ∷ []

-- How often held keys are handed to the replay.
unfoldable pub replays : List Effect → ℕ
replays [] = 0
replays (replay_keys ∷ es) = suc (replays es)
replays (commit text ∷ es) = replays es
replays (delete_before ∷ es) = replays es
replays (sleep_usec n ∷ es) = replays es

-- No replacement is under way, and no key is held.
pub record IsQuiet (s : Uinput) : Type 0 where
  pub deleting : s.deleting ≡ false
  pub pending : s.pending_commit ≡ []
  pub expected : s.expected ≡ 0
  pub outstanding : s.outstanding ≡ 0
  pub unarmed : s.safety_timer ≡ none
  pub no_buffered : s.buffered_keys ≡ []
  pub no_settled : s.settled_keys ≡ []

-- The replacement has ended, with what became of its text.
pub record Ended (answer : CommitAnswer) (text : Bytes) (r : Uinput × List Effect) : Type 0 where
  pub quiet : IsQuiet r.0
  pub texts : commits r.1 ≡ received answer text
  pub no_replay : replays r.1 ≡ 0

expire_all-unarmed :
    (answer : CommitAnswer) (is_wayland : Bool) (ms : List Expiry) (s : Uinput)
    → s.safety_timer ≡ none
    → expire_all answer is_wayland ms s ≡ (s, [])
unfolding expire_all expire
expire_all-unarmed answer is_wayland [] s e = refl
expire_all-unarmed answer is_wayland (m ∷ ms) s e =
    let c : expire answer is_wayland m s ≡ (s, []) = ap (called answer is_wayland m s) e in
    (λ i. (
      (expire_all answer is_wayland ms (c i).0).0,
      (c i).1 ++ (expire_all answer is_wayland ms (c i).0).1,
    ))
    ∙ (λ i. (expire_all-unarmed answer is_wayland ms s e) i)

commits-pause : (post_ms : ℤ) → commits (post_commit_pause post_ms) ≡ []
unfolding post_commit_pause commits
commits-pause (pos zero) = refl
commits-pause (pos (suc n)) = refl
commits-pause (negsuc n) = refl

commits-commit_effects :
    (answer : CommitAnswer) (text : Bytes)
    → commits (commit_effects answer text) ≡ received answer text
unfolding commits commit_effects
commits-commit_effects taken [] = refl
commits-commit_effects taken (b ∷ text) = refl
commits-commit_effects discarded text = refl
commits-commit_effects (redelivered again) [] = refl
commits-commit_effects (redelivered true) (b ∷ text) = refl
commits-commit_effects (redelivered false) (b ∷ text) = refl

replays-commit_effects :
    (answer : CommitAnswer) (text : Bytes) → replays (commit_effects answer text) ≡ 0
unfolding replays commit_effects
replays-commit_effects taken [] = refl
replays-commit_effects taken (b ∷ text) = refl
replays-commit_effects discarded text = refl
replays-commit_effects (redelivered again) [] = refl
replays-commit_effects (redelivered true) (b ∷ text) = refl
replays-commit_effects (redelivered false) (b ∷ text) = refl

replays-pause : (post_ms : ℤ) → replays (post_commit_pause post_ms) ≡ 0
unfolding post_commit_pause replays
replays-pause (pos zero) = refl
replays-pause (pos (suc n)) = refl
replays-pause (negsuc n) = refl

replays-append : (es fs : List Effect) → replays (es ++ fs) ≡ replays es + replays fs
unfolding replays
replays-append [] fs = omega arith
replays-append (replay_keys ∷ es) fs = omega (arith, replays-append es fs)
replays-append (commit text ∷ es) fs = replays-append es fs
replays-append (delete_before ∷ es) fs = replays-append es fs
replays-append (sleep_usec n ∷ es) fs = replays-append es fs

-- A quiet list behind another commits nothing more.
commits-then :
    (es fs : List Effect) (texts : List Bytes)
    → commits es ≡ texts
    → commits fs ≡ []
    → commits (es ++ fs) ≡ texts
commits-then es fs texts e f = commits-append es fs ∙ (λ i. e i ++ f i) ∙ append-nil texts

reset-IsQuiet : (now : ℕ) (s : Uinput) → s.outstanding ≡ 0 → IsQuiet (reset_for_cell_change now s)
unfolding reset_for_cell_change cancel_uinput_request
reset-IsQuiet now s h = record {
  deleting = refl;
  pending = refl;
  expected = refl;
  outstanding = if_both (λ n. n ≡ 0) (has_request s.request) _ _ (λ _. refl) (λ _. h);
  unarmed = refl;
  no_buffered = refl;
  no_settled = refl;
}

relabelled-IsQuiet : (s : Uinput) (n : ℤ) → IsQuiet s → IsQuiet (record s { committed_len = n })
relabelled-IsQuiet s n q = record {
  deleting = q.deleting;
  pending = q.pending;
  expected = q.expected;
  outstanding = q.outstanding;
  unarmed = q.unarmed;
  no_buffered = q.no_buffered;
  no_settled = q.no_settled;
}

after_commit-IsQuiet :
    (answer : CommitAnswer) (now : ℕ) (text : Bytes) (s : Uinput)
    → IsQuiet s
    → IsQuiet (after_commit answer now text s)
unfolding after_commit
after_commit-IsQuiet taken now text s q = q
after_commit-IsQuiet discarded now text s q =
    if_both IsQuiet (is_empty text) _ _ (λ _. q) (λ _. reset-IsQuiet now s q.outstanding)
after_commit-IsQuiet (redelivered again) now text s q =
    if_both IsQuiet (is_empty text) _ _ (λ _. q)
      (λ _.
        relabelled-IsQuiet (reset_for_cell_change now s) (pos 1)
          (reset-IsQuiet now s q.outstanding))

given_up-IsQuiet :
    (now : ℕ) (s : Uinput) → s.buffered_keys ≡ [] → s.settled_keys ≡ [] → IsQuiet (given_up now s)
given_up-IsQuiet now s b k = record {
  deleting = refl;
  pending = refl;
  expected = refl;
  outstanding = refl;
  unarmed = refl;
  no_buffered = b;
  no_settled = k;
}

-- Nothing is held, so nothing is replayed.
not_replayed :
    (t : Uinput)
    → IsQuiet t
    → (if length t.buffered_keys == 0 && length t.settled_keys == 0 then [] else replay_keys ∷ [])
      ≡ []
not_replayed t q =
    if_true (length t.buffered_keys == 0 && length t.settled_keys == 0) [] (replay_keys ∷ [])
      ((λ i. length (q.no_buffered i) == 0 && length (q.no_settled i) == 0))

force-Ended :
    (answer : CommitAnswer) (now : ℕ) (post_ms : ℤ) (s : Uinput)
    → s.buffered_keys ≡ []
    → s.settled_keys ≡ []
    → Ended answer s.pending_commit (force_commit now post_ms answer s)
unfolding force_commit
force-Ended answer now post_ms s b k =
    let text = s.pending_commit in
    let t = after_commit answer now text (given_up now s) in
    let quiet : IsQuiet t =
      after_commit-IsQuiet answer now text (given_up now s) (given_up-IsQuiet now s b k) in
    let first = commit_effects answer text ++ post_commit_pause post_ms in
    let all : first
          ++ (if length t.buffered_keys == 0 && length t.settled_keys == 0
              then []
              else replay_keys ∷ [])
        ≡ first =
      ap (λ es. first ++ es) (not_replayed t quiet) ∙ append-nil first in
    record {
      quiet = quiet;
      texts =
          ap commits all
          ∙ commits-then (commit_effects answer text) (post_commit_pause post_ms) _
              (commits-commit_effects answer text) (commits-pause post_ms);
      no_replay =
          ap replays all
          ∙ replays-append (commit_effects answer text) (post_commit_pause post_ms)
          ∙ omega (arith, replays-commit_effects answer text, replays-pause post_ms);
    }

abbrev behind : CommitAnswer → Bool → List Expiry → Uinput × List Effect → Uinput × List Effect
behind answer is_wayland ms r =
    ((expire_all answer is_wayland ms r.0).0, r.1 ++ (expire_all answer is_wayland ms r.0).1)

-- Behind the end no expiration does anything.
Ended-behind :
    (answer : CommitAnswer) (text : Bytes) (is_wayland : Bool) (ms : List Expiry)
    (f : Uinput × List Effect)
    → Ended answer text f
    → Ended answer text (behind answer is_wayland ms f)
Ended-behind answer text is_wayland ms f ended =
    subst (λ (r : Uinput × List Effect). Ended answer text (r.0, f.1 ++ r.1))
      (sym (expire_all-unarmed answer is_wayland ms f.0 ended.quiet.unarmed))
      (record {
        quiet = ended.quiet;
        texts = ap commits (append-nil f.1) ∙ ended.texts;
        no_replay = ap replays (append-nil f.1) ∙ ended.no_replay;
      })

Deferral-cases : (v : Deferral) → (v ≡ go_on) ⊎ ((v ≡ wait) ⊎ (v ≡ discard))
Deferral-cases go_on = inl refl
Deferral-cases wait = inr (inl refl)
Deferral-cases discard = inr (inr refl)

-- How many expirations a replacement needs.
abbrev pub needed : Uinput → ℕ
needed s = if extends_safety s then 2 else 1

-- The safety timer of a replacement is armed, and then expires at some moments, while no key is held or comes
-- and the request does not fail. Once it has expired when the request was done, twice if injected keys are still
-- outstanding and the time was not extended before, else once, the replacement has ended: nothing is pending,
-- no deletion is expected or outstanding, no key is held or was replayed, and the timer is not armed. A
-- text that is not empty was then committed exactly once if `commitText` takes it, or discards it for another
-- cell and delivers it there; it was lost if `commitText` discards it otherwise.
pub safety_timer_ends :
    (answer : CommitAnswer) (is_wayland : Bool) (ms : List Expiry) (s : Uinput) (due : ℕ)
    → s.safety_timer ≡ some due
    → s.buffered_keys ≡ []
    → s.settled_keys ≡ []
    → failed_moments ms ≡ 0
    → needed s ≤ done_moments ms
    → Ended answer s.pending_commit (expire_all answer is_wayland ms s)
unfolding expire_all expire failed_moments done_moments safety_due arm_uinput_safety_timer
safety_timer_ends answer is_wayland [] s due e b k f d = absurd (ground (arith, d))
safety_timer_ends answer is_wayland (m ∷ ms) s due e b k f d =
    let t : Uinput = record s { request = m.request } in
    let c : expire answer is_wayland m s
        ≡ safety_due (defer_uinput_timer m.request) is_wayland m.now m.post_ms answer t =
      ap (called answer is_wayland m s) e ∙ (unfold safety_expired in refl) in
    let Ends : Deferral → Type 0 = λ v.
      Ended answer s.pending_commit
        (behind answer is_wayland ms (safety_due v is_wayland m.now m.post_ms answer t)) in
    subst (λ r. Ended answer s.pending_commit (behind answer is_wayland ms r)) (sym c)
      (elim (Deferral-cases (defer_uinput_timer m.request)) [
        | inl g ↦
            subst (λ v. Ends v) (sym g)
              (if_both
                (λ (r : Uinput × List Effect).
                  Ended answer s.pending_commit (behind answer is_wayland ms r))
                (extends_safety t) _ _
                (λ x.
                  let u =
                    arm_uinput_safety_timer is_wayland m.now
                      (record t { safety_retried = true; loopback_slow = true }) in
                  safety_timer_ends answer is_wayland ms u _ refl b k (omega (arith, f))
                    (once_more (ltb 0 s.outstanding) x (omega (arith, d, ap one_if_done g))))
                (λ _.
                  Ended-behind answer s.pending_commit is_wayland ms
                    (force_commit m.now m.post_ms answer t)
                    (force-Ended answer m.now m.post_ms t b k)))
        | inr (inl g) ↦
            subst (λ v. Ends v) (sym g)
              (safety_timer_ends answer is_wayland ms
                (record t { safety_timer = some (add64 m.now 1000) }) (add64 m.now 1000) refl b k
                (omega (arith, f)) (omega (arith, d, ap one_if_done g)))
        | inr (inr g) ↦ absurd (omega (arith, f, ap one_if_failed g))
      ])
  where
    once_more :
        (b : Bool)
        → extends_safety s ≡ true
        → needed s ≤ 1 + done_moments ms
        → (if b && false then 2 else 1) ≤ done_moments ms
    once_more true x h = ground (arith, x, h)
    once_more false x h = ground (arith, x, h)

not_swallowed :
    (now : ℕ) (key : Key) (s : Uinput)
    → s.late_select ≡ false
    → is_backspace key.kind ≡ false
    → swallows_late now key s ≡ false
unfolding swallows_late
not_swallowed now key s l b = ground (arith, l, b)

in_grace : (now : ℕ) (s : Uinput) → now < s.late_bs_deadline_usec → end_grace now s ≡ s
unfolding end_grace
in_grace now s h =
    if_true (s.late_bs_deadline_usec == 0 || ltb now s.late_bs_deadline_usec) s _
      (ground (arith, h))

backspace_swallowed :
    (d : Doubles) (alpha : d.Alpha) (key_utf8 : ℕ → Bytes) (app : App) (now : ℕ) (key : Key)
    (s : Uinput)
    → now < s.late_bs_deadline_usec
    → key.kind ≡ backspace
    → handle_pending_uinput_backspace d alpha key_utf8 app now key s ≡ (s, consumed, [])
unfolding handle_pending_uinput_backspace
backspace_swallowed d alpha key_utf8 app now key s h e =
    if_true (swallows_late now key s) _ _ (unfold swallows_late in rw e (ground (arith, h)))

left_passes_by :
    (d : Doubles) (alpha : d.Alpha) (key_utf8 : ℕ → Bytes) (app : App) (now : ℕ) (key : Key)
    (s : Uinput)
    → now < s.late_bs_deadline_usec
    → s.late_select ≡ false
    → s.deleting ≡ false
    → key.kind ≡ left
    → handle_pending_uinput_backspace d alpha key_utf8 app now key s ≡ (s, unhandled, [])
unfolding handle_pending_uinput_backspace
left_passes_by d alpha key_utf8 app now key s h l n e =
    let g = in_grace now s h in
    if_false (swallows_late now key s) _ _ (passes_by (is_left_not key.kind e))
    ∙ if_false ((end_grace now s).deleting) _ _ (ap (λ t. t.deleting) g ∙ n)
    ∙ ap (λ t. (t, unhandled, [])) g
  where
    is_left_not : (kind : KeyKind) → kind ≡ left → is_backspace kind ≡ false
    is_left_not kind e = rw e refl

    passes_by : is_backspace key.kind ≡ false → swallows_late now key s ≡ false
    passes_by b = not_swallowed now key s l b

-- What a key does within 0.4 s after a commit that the safety timer forces and that is not refused. A Backspace is swallowed. A Left
-- is not, even where the replacement was a selection: if no late selection was
-- awaited before, the key is not handled here.
pub late_left_unhandled :
    (d : Doubles) (alpha : d.Alpha) (key_utf8 : ℕ → Bytes) (app : App) (forced now : ℕ)
    (post_ms : ℤ) (key : Key) (s : Uinput)
    → forced + 400000 < u64_mod
    → now < forced + 400000
    → s.late_select ≡ false
    → ((key.kind ≡ backspace)
        → handle_pending_uinput_backspace d alpha key_utf8 app now key
            (force_commit forced post_ms taken s).0
          ≡ ((force_commit forced post_ms taken s).0, consumed, []))
      × ((key.kind ≡ left)
          → handle_pending_uinput_backspace d alpha key_utf8 app now key
              (force_commit forced post_ms taken s).0
            ≡ ((force_commit forced post_ms taken s).0, unhandled, []))
late_left_unhandled d alpha key_utf8 app forced now post_ms key s h k l =
    let t = (force_commit forced post_ms taken s).0 in
    let late : now < t.late_bs_deadline_usec = unfold force_commit in omega (arith, h, k) in
    (
      λ e. backspace_swallowed d alpha key_utf8 app now key t late e,
      λ e.
          left_passes_by d alpha key_utf8 app now key t late (unfold force_commit in l)
            (unfold force_commit in refl) e,
    )
