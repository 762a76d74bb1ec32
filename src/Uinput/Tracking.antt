-- ===== src/Uinput/Tracking.antt =====
-- Which of the keys that come back while a replacement is under way reach the application.
use skey.Base.{
  ℕ, ◌+◌, ◌-◌, ◌≤◌, ◌<◌, ◌≡◌, refl, arith, min, Bool, true, false, not, ◌&&◌, ◌||◌, List, [], ◌∷◌,
  ltb, ◌==◌, if◌then◌else◌, Bytes, if_both, if_true, if_false, Bool-cases, inl, inr, ◌∙◌, sym, ap,
  subst,
}
use skey.Timing.{Doubles}
use skey.Uinput.Delay.{App}
use skey.Uinput.{
  Key, KeyKind, backspace, left, escape, modified_escape, shift, other, is_backspace, is_left,
  is_escape, is_shift, Uinput, Verdict, unhandled, passed, consumed, Handled,
  handle_pending_uinput_backspace, deleting_key, other_key, buffer_key, pass_deletion, sync_key,
  is_tracked_key, swallows_late, end_grace, schedule_uinput_settle, is_redelivered,
}

-- A key event, with the application and the time that it meets.
pub record Arrival : Type 0 where
  pub app : App
  pub now : ℕ
  pub key : Key

-- The state behind so many key events, and what became of each of them.
unfoldable pub handle_all :
    (d : Doubles) → d.Alpha → (ℕ → Bytes) → List Arrival → Uinput → Uinput × List (Key × Verdict)
handle_all d alpha key_utf8 [] s = (s, [])
handle_all d alpha key_utf8 (a ∷ arrivals) s =
    let r = handle_pending_uinput_backspace d alpha key_utf8 a.app a.now a.key s in
    let (t, verdicts) = handle_all d alpha key_utf8 arrivals r.0 in (t, (a.key, r.1) ∷ verdicts)

abbrev pub is_passed : Verdict → Bool
is_passed unhandled = false
is_passed passed = true
is_passed consumed = false

abbrev pub is_consumed : Verdict → Bool
is_consumed consumed = true
is_consumed _ = false

abbrev pub one : Bool → ℕ
one b = if b then 1 else 0

abbrev pub tracked : Bool → Key → Bool
tracked select key = if select then is_left key.kind else is_backspace key.kind

-- The injected keys among the events, and those that reached the application.
unfoldable pub injected : Bool → List Arrival → ℕ
injected select [] = 0
injected select (a ∷ rest) = one (tracked select a.key) + injected select rest

unfoldable pub reached : Bool → List (Key × Verdict) → ℕ
reached select [] = 0
reached select ((key, v) ∷ rest) = one (tracked select key && is_passed v) + reached select rest

-- The other keys that were not consumed, but are neither an Escape nor a Shift.
unfoldable pub leaked : Bool → List (Key × Verdict) → ℕ
leaked select [] = 0
leaked select ((key, v) ∷ rest) =
    one (
      not (tracked select key)
      && not (is_consumed v)
      && not (is_escape key.kind || (select && is_shift key.kind)))
    + leaked select rest

-- A state in which no late key is swallowed and a replacement is under way.
record Deletes (s : Uinput) : Type 0 where
  is_deleting : s.deleting ≡ true
  no_grace : s.late_bs_deadline_usec ≡ 0
  ordered : s.seen ≤ s.expected

record Step (key : Key) (s : Uinput) (r : Handled) : Type 0 where
  is_deleting : r.0.deleting ≡ true
  no_grace : r.0.late_bs_deadline_usec ≡ 0
  same_mode : r.0.shift_select ≡ s.shift_select
  same_text : r.0.pending_commit ≡ s.pending_commit
  ordered : r.0.seen ≤ r.0.expected
  left : r.0.expected - r.0.seen ≡ s.expected - s.seen - one (tracked s.shift_select key)
  passes :
      (tracked s.shift_select key && is_passed r.1)
      ≡ (tracked s.shift_select key && ltb s.seen s.expected)
  others :
      (not (tracked s.shift_select key)
        && not (is_consumed r.1)
        && not (is_escape key.kind || (s.shift_select && is_shift key.kind)))
      ≡ false
  anchored : r.0.settling ≡ (
      s.settling || (tracked s.shift_select key && ltb 0 s.expected && not (ltb s.seen s.expected)))
  live :
      ltb 0 r.0.expected
      ≡ (ltb 0 s.expected && not (tracked s.shift_select key && not (ltb s.seen s.expected)))

abbrev pub marked : Key → Uinput → Bool
marked key s = is_escape key.kind || (s.shift_select && is_shift key.kind)

-- Of the state, a key that is not injected changes the buffer alone.
buffers : Uinput → Key → List ℕ → Handled
buffers s key keys =
    (record s { buffered_keys = keys }, if marked key s then passed else consumed, [])

other_key-buffers :
    (key_utf8 : ℕ → Bytes) (app : App) (now : ℕ) (key : Key) (s : Uinput)
    → (keys : List ℕ) × (other_key key_utf8 app now key s ≡ buffers s key keys)
unfolding other_key buffer_key buffers
other_key-buffers key_utf8 app now key s = elim (Bool-cases (marked key s)) [
  | inl e ↦ (s.buffered_keys, rw e refl)
  | inr e ↦ elim (Bool-cases (is_redelivered app now key s)) [
    | inl f ↦ (s.buffered_keys, rw (e, f) refl)
    | inr f ↦ ((buffer_key key_utf8 key s).buffered_keys, rw (e, f) refl)
  ]
]

-- What the key is decides the flags of a step.
flags_at :
    (select : Bool) (kind : KeyKind)
    → (((if select then is_left kind else is_backspace kind)
          && (is_escape kind || (select && is_shift kind)))
        ≡ false)
flags_at true backspace = refl
flags_at true left = refl
flags_at true escape = refl
flags_at true modified_escape = refl
flags_at true shift = refl
flags_at true other = refl
flags_at false backspace = refl
flags_at false left = refl
flags_at false escape = refl
flags_at false modified_escape = refl
flags_at false shift = refl
flags_at false other = refl

-- The facts of a step, over the flags: whether the key is injected, and whether it is passed on anyway.
same_left : (b : Bool) (n k : ℕ) → (not b || n == 0) ≡ true → n - k ≡ n - k - one b
same_left b n k o = ground (arith, o)

no_pass :
    (b m : Bool) (n k : ℕ)
    → (b && m) ≡ false
    → k ≤ n
    → (not b || n == 0) ≡ true
    → (b && is_passed (if m then passed else consumed)) ≡ (b && ltb k n)
no_pass true true n k f h o = absurd (cc)
no_pass true false n k f h o = ground (arith, h, o)
no_pass false m n k f h o = refl

only_marked :
    (b m : Bool) → (not b && not (is_consumed (if m then passed else consumed)) && not m) ≡ false
only_marked true m = refl
only_marked false true = refl
only_marked false false = refl

no_anchor :
    (b : Bool) (n k : ℕ) → (not b || n == 0) ≡ true → (b && ltb 0 n && not (ltb k n)) ≡ false
no_anchor b n k o = ground (arith, o)

or_false : (b c : Bool) → c ≡ false → b ≡ (b || c)
or_false b c e = ground (arith, e)

still_live :
    (b : Bool) (n k : ℕ)
    → (not b || n == 0) ≡ true
    → ltb 0 n ≡ (ltb 0 n && not (b && not (ltb k n)))
still_live b n k o = ground (arith, o)

buffers-Step :
    (key : Key) (s : Uinput) (keys : List ℕ)
    → Deletes s
    → (not (tracked s.shift_select key) || s.expected == 0) ≡ true
    → Step key s (buffers s key keys)
unfolding buffers
buffers-Step key s keys h o =
    let b = tracked s.shift_select key in
    let m = marked key s in
    let n = h.ordered in
    let f = flags_at s.shift_select key.kind in
    record {
      is_deleting = h.is_deleting;
      no_grace = h.no_grace;
      same_mode = refl;
      same_text = refl;
      ordered = n;
      left = same_left b s.expected s.seen o;
      passes = no_pass b m s.expected s.seen f n o;
      others = only_marked b m;
      anchored = or_false s.settling _ (no_anchor b s.expected s.seen o);
      live = still_live b s.expected s.seen o;
    }

other_key-Step :
    (key_utf8 : ℕ → Bytes) (app : App) (now : ℕ) (key : Key) (s : Uinput)
    → Deletes s
    → (not (tracked s.shift_select key) || s.expected == 0) ≡ true
    → Step key s (other_key key_utf8 app now key s)
other_key-Step key_utf8 app now key s h o =
    let (keys, e) = other_key-buffers key_utf8 app now key s in
    subst (λ r. Step key s r) (sym e) (buffers-Step key s keys h o)

pass_deletion-Step :
    (app : App) (key : Key) (s : Uinput)
    → Deletes s
    → tracked s.shift_select key ≡ true
    → s.seen < s.expected
    → Step key s (pass_deletion app s)
unfolding pass_deletion
pass_deletion-Step app key s h t l = record {
  is_deleting = h.is_deleting;
  no_grace = h.no_grace;
  same_mode = refl;
  same_text = refl;
  ordered = omega (arith, l);
  left = rw t (omega (arith, l));
  passes = rw t (ground (arith, l));
  others = rw t refl;
  anchored = rw t (ground (arith, l));
  live = rw t (ground (arith, l));
}

sync_key-Step :
    (d : Doubles) (alpha : d.Alpha) (app : App) (now : ℕ) (key : Key) (s : Uinput)
    → Deletes s
    → tracked s.shift_select key ≡ true
    → s.seen ≡ s.expected
    → 0 < s.expected
    → Step key s (sync_key d alpha app now s)
unfolding sync_key schedule_uinput_settle
sync_key-Step d alpha app now key s h t l p = record {
  is_deleting = h.is_deleting;
  no_grace = h.no_grace;
  same_mode = refl;
  same_text = refl;
  ordered = omega arith;
  left = rw t (omega (arith, l));
  passes = rw t (ground (arith, l));
  others = rw t refl;
  anchored = rw t (ground (arith, l, p));
  live = rw t (ground (arith, l));
}

deleting_key-Step :
    (d : Doubles) (alpha : d.Alpha) (key_utf8 : ℕ → Bytes) (app : App) (now : ℕ) (key : Key)
    (s : Uinput)
    → Deletes s
    → Step key s (deleting_key d alpha key_utf8 app now key s)
unfolding deleting_key is_tracked_key
deleting_key-Step d alpha key_utf8 app now key s h =
    let n = h.ordered in
    if_both (λ r. Step key s r) (not (tracked s.shift_select key) || s.expected == 0) _ _
      (λ o. other_key-Step key_utf8 app now key s h o)
      (λ o.
        let t : tracked s.shift_select key ≡ true = ground (arith, o) in
        let p : 0 < s.expected = ground (arith, o) in
        if_both (λ r. Step key s r) (ltb s.seen s.expected) _ _
          (λ l. pass_deletion-Step app key s h t (ground (arith, l)))
          (λ l. sync_key-Step d alpha app now key s h t (ground (arith, l, n)) p))

end_grace-no_grace : (now : ℕ) (s : Uinput) → s.late_bs_deadline_usec ≡ 0 → end_grace now s ≡ s
unfolding end_grace
end_grace-no_grace now s e =
    if_true (s.late_bs_deadline_usec == 0 || ltb now s.late_bs_deadline_usec) s _
      (ground (arith, e))

swallows_late-no_grace :
    (now : ℕ) (key : Key) (s : Uinput)
    → s.late_bs_deadline_usec ≡ 0
    → swallows_late now key s ≡ false
unfolding swallows_late
swallows_late-no_grace now key s e = ground (arith, e)

-- With no late keys to swallow, a key meets the replacement.
pub handle-deleting :
    (d : Doubles) (alpha : d.Alpha) (key_utf8 : ℕ → Bytes) (app : App) (now : ℕ) (key : Key)
    (s : Uinput)
    → s.deleting ≡ true
    → s.late_bs_deadline_usec ≡ 0
    → handle_pending_uinput_backspace d alpha key_utf8 app now key s
      ≡ deleting_key d alpha key_utf8 app now key s
unfolding handle_pending_uinput_backspace
handle-deleting d alpha key_utf8 app now key s h e =
    let g = end_grace-no_grace now s e in
    if_false (swallows_late now key s) _ _ (swallows_late-no_grace now key s e)
    ∙ if_true ((end_grace now s).deleting) _ _ (ap (λ t. t.deleting) g ∙ h)
    ∙ ap (λ t. deleting_key d alpha key_utf8 app now key t) g

handle-Step :
    (d : Doubles) (alpha : d.Alpha) (key_utf8 : ℕ → Bytes) (app : App) (now : ℕ) (key : Key)
    (s : Uinput)
    → Deletes s
    → Step key s (handle_pending_uinput_backspace d alpha key_utf8 app now key s)
handle-Step d alpha key_utf8 app now key s h =
    subst (λ r. Step key s r)
      (sym (handle-deleting d alpha key_utf8 app now key s h.is_deleting h.no_grace))
      (deleting_key-Step d alpha key_utf8 app now key s h)

-- What a list of key events does to the replacement.
record Runs (arrivals : List Arrival) (s : Uinput) (r : Uinput × List (Key × Verdict))
    : Type 0 where
  is_deleting : r.0.deleting ≡ true
  same_text : r.0.pending_commit ≡ s.pending_commit
  passes : reached s.shift_select r.1 ≡ min (s.expected - s.seen) (injected s.shift_select arrivals)
  others : leaked s.shift_select r.1 ≡ 0
  anchored : r.0.settling ≡ (
      s.settling
      || (ltb 0 s.expected && ltb (s.expected - s.seen) (injected s.shift_select arrivals)))

count_step :
    (n k m : ℕ) (b v : Bool)
    → v ≡ (b && ltb k n)
    → one v + min (n - k - one b) m ≡ min (n - k) (one b + m)
count_step n k m b v e = ground (arith, e)

anchor_step :
    (n k l m : ℕ) (b u : Bool)
    → k ≤ n
    → l ≡ n - k - one b
    → u ≡ (ltb 0 n && not (b && not (ltb k n)))
    → (b && ltb 0 n && not (ltb k n)) || (u && ltb l m) ≡ (ltb 0 n && ltb (n - k) (one b + m))
anchor_step n k l m b u h e f = ground (arith, h, e, f)

or_assoc : (a b c : Bool) → ((a || b) || c) ≡ (a || (b || c))
or_assoc true b c = refl
or_assoc false b c = refl

none_more : (n : ℕ) → n ≡ 0 → one false + n ≡ 0
none_more n e = omega (arith, e)

runs :
    (d : Doubles) (alpha : d.Alpha) (key_utf8 : ℕ → Bytes) (arrivals : List Arrival) (s : Uinput)
    → Deletes s
    → Runs arrivals s (handle_all d alpha key_utf8 arrivals s)
unfolding handle_all reached leaked injected
runs d alpha key_utf8 [] s h = record {
  is_deleting = h.is_deleting;
  same_text = refl;
  passes = omega arith;
  others = refl;
  anchored = ground arith;
}
runs d alpha key_utf8 (a ∷ arrivals) s h =
    let r = handle_pending_uinput_backspace d alpha key_utf8 a.app a.now a.key s in
    let t = handle-Step d alpha key_utf8 a.app a.now a.key s h in
    let b = tracked s.shift_select a.key in
    let v = b && is_passed r.1 in
    let after = (handle_all d alpha key_utf8 arrivals r.0).1 in
    let rest =
      runs d alpha key_utf8 arrivals r.0
        (record { is_deleting = t.is_deleting; no_grace = t.no_grace; ordered = t.ordered }) in
    record {
      is_deleting = rest.is_deleting;
      same_text = rest.same_text ∙ t.same_text;
      passes =
          (λ i. one v + (reached (sym t.same_mode i) after))
          ∙ (λ i. one v + rest.passes i)
          ∙ (λ i. one v + min (t.left i) (injected (t.same_mode i) arrivals))
          ∙ count_step s.expected s.seen (injected s.shift_select arrivals) b v t.passes;
      others = (λ i. one (t.others i) + leaked (sym t.same_mode i) after) ∙ none_more _ rest.others;
      anchored =
          rest.anchored
          ∙ (λ i.
              t.anchored i
              || (ltb 0 r.0.expected
                  && ltb (r.0.expected - r.0.seen) (injected (t.same_mode i) arrivals)))
          ∙ or_assoc s.settling _ _
          ∙ ap (λ c. s.settling || c)
              (anchor_step s.expected s.seen (r.0.expected - r.0.seen)
                (injected s.shift_select arrivals) b (ltb 0 r.0.expected) h.ordered t.left t.live);
    }

-- While a replacement is under way and no late key is swallowed, take any key events, however they are
-- mixed and whatever the application answers meanwhile, from a state where not more deletions have passed than
-- are expected. Of the injected keys, exactly the deletions that are still expected
-- reach the application, or all if fewer come; all other keys are consumed, but an Escape and, in a selection,
-- a Shift. The wait for the commit starts with the first injected key behind the deletions and no sooner, and the text that
-- is to be committed stays the same.
pub deletions_reach :
    (d : Doubles) (alpha : d.Alpha) (key_utf8 : ℕ → Bytes) (arrivals : List Arrival) (s : Uinput)
    → s.deleting ≡ true
    → s.late_bs_deadline_usec ≡ 0
    → s.seen ≤ s.expected
    → s.settling ≡ false
    → 0 < s.expected
    → (reached s.shift_select (handle_all d alpha key_utf8 arrivals s).1
        ≡ min (s.expected - s.seen) (injected s.shift_select arrivals))
      × (leaked s.shift_select (handle_all d alpha key_utf8 arrivals s).1 ≡ 0)
      × ((handle_all d alpha key_utf8 arrivals s).0.settling
          ≡ ltb (s.expected - s.seen) (injected s.shift_select arrivals))
      × ((handle_all d alpha key_utf8 arrivals s).0.pending_commit ≡ s.pending_commit)
deletions_reach d alpha key_utf8 arrivals s h g o q p =
    let r =
      runs d alpha key_utf8 arrivals s (record { is_deleting = h; no_grace = g; ordered = o }) in
    (
      r.passes,
      r.others,
      r.anchored ∙ anchors (ltb (s.expected - s.seen) (injected s.shift_select arrivals)),
      r.same_text,
    )
  where
    anchors : (b : Bool) → (s.settling || (ltb 0 s.expected && b)) ≡ b
    anchors b = ground (arith, q, p)
