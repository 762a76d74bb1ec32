-- ===== src/Uinput/Held.antt =====
-- The keys that the user types while the deletions of a replacement are under way.
use skey.Base.{
  ℕ, zero, suc, ◌+◌, ◌≤◌, ◌<◌, ◌≡◌, refl, sym, ap, ◌∙◌, arith, Bool, true, false, not, ◌&&◌, ◌||◌,
  List, [], ◌∷◌, ◌++◌, append_assoc, append-nil, length-append, take-length_append, ltb, ◌==◌,
  if◌then◌else◌, Bytes, is_empty, length, take, if_both, if_true, if_false, Bool-cases, inl, inr,
  subst,
}
use skey.Timing.{Doubles}
use skey.Uinput.{
  Uinput, Handled, handle_pending_uinput_backspace, deleting_key, other_key, buffer_key,
  pass_deletion, is_tracked_key, is_redelivered, max_buffered_uinput_keys,
}
use skey.Uinput.Tracking.{Arrival, handle_all, tracked, marked, injected, handle-deleting, one}

-- A key of the user that has a character.
abbrev is_typed : (ℕ → Bytes) → Uinput → Arrival → Bool
is_typed key_utf8 s a =
    not (tracked s.shift_select a.key)
    && not (marked a.key s)
    && not (is_redelivered a.app a.now a.key s)
    && not (is_empty (key_utf8 a.key.sym))

unfoldable pub typed : (ℕ → Bytes) → Uinput → List Arrival → List ℕ
typed key_utf8 s [] = []
typed key_utf8 s (a ∷ arrivals) =
    if is_typed key_utf8 s a
    then a.key.sym ∷ typed key_utf8 s arrivals
    else typed key_utf8 s arrivals

-- What decides which keys are held back.
record Same (s t : Uinput) : Type 0 where
  mode : t.shift_select ≡ s.shift_select
  trigger : t.last_trigger_key ≡ s.last_trigger_key
  deadline : t.trigger_deadline ≡ s.trigger_deadline
  time : t.trigger_key_time ≡ s.trigger_key_time

typed-Same :
    (key_utf8 : ℕ → Bytes) (s t : Uinput) (arrivals : List Arrival)
    → Same s t
    → typed key_utf8 t arrivals ≡ typed key_utf8 s arrivals
unfolding typed is_redelivered
typed-Same key_utf8 s t [] e = refl
typed-Same key_utf8 s t (a ∷ arrivals) e =
    rw (e.mode, e.trigger, e.deadline, e.time, typed-Same key_utf8 s t arrivals e) refl

-- A full list takes no more.
abbrev pushed : ℕ → List ℕ → ℕ → List ℕ
pushed n xs x = if ltb (length xs) n then xs ++ x ∷ [] else xs

take-pushed :
    (n : ℕ) (xs : List ℕ) (x : ℕ) (ys : List ℕ)
    → length xs ≤ n
    → take n (pushed n xs x ++ ys) ≡ take n (xs ++ x ∷ ys)
take-pushed n xs x ys h = elim (Bool-cases (ltb (length xs) n)) [
  | inl e ↦
      ap (λ zs. take n (zs ++ ys)) (if_true (ltb (length xs) n) (xs ++ x ∷ []) xs e)
      ∙ ap (take n) (append_assoc xs (x ∷ []) ys)
  | inr e ↦
      ap (λ zs. take n (zs ++ ys)) (if_false (ltb (length xs) n) (xs ++ x ∷ []) xs e)
      ∙ full (ground (arith, e, h)) ys
      ∙ sym (full (ground (arith, e, h)) (x ∷ ys))
]
  where
    full : n ≡ length xs → (zs : List ℕ) → take n (xs ++ zs) ≡ xs
    full e zs = ap (λ k. take k (xs ++ zs)) e ∙ take-length_append xs zs

length-pushed : (n : ℕ) (xs : List ℕ) (x : ℕ) → length xs ≤ n → length (pushed n xs x) ≤ n
length-pushed n xs x h =
    if_both (λ zs. length zs ≤ n) (ltb (length xs) n) _ _
      (λ e. ground (arith, e, length-append xs (x ∷ []))) (λ _. h)

take_all : (n : ℕ) (xs : List ℕ) → length xs ≤ n → take n xs ≡ xs
take_all zero [] h = refl
take_all zero (x ∷ xs) h = absurd (omega (arith, h))
take_all (suc n) [] h = refl
take_all (suc n) (x ∷ xs) h = ap (λ ys. x ∷ ys) (take_all n xs (omega (arith, h)))

-- What one key does before the anchor comes.
record Holds (key_utf8 : ℕ → Bytes) (a : Arrival) (s : Uinput) (r : Handled) : Type 0 where
  same : Same s r.0
  deleting : r.0.deleting ≡ s.deleting
  late : r.0.late_bs_deadline_usec ≡ s.late_bs_deadline_usec
  expected : r.0.expected ≡ s.expected
  seen : r.0.seen ≡ s.seen + one (tracked s.shift_select a.key)
  buffer : r.0.buffered_keys ≡ (
      if is_typed key_utf8 s a
      then pushed max_buffered_uinput_keys s.buffered_keys a.key.sym
      else s.buffered_keys)

Same-refl : (s : Uinput) → Same s s
Same-refl s = record { mode = refl; trigger = refl; deadline = refl; time = refl }

pass_deletion-Holds :
    (key_utf8 : ℕ → Bytes) (a : Arrival) (s : Uinput)
    → tracked s.shift_select a.key ≡ true
    → Holds key_utf8 a s (pass_deletion a.app s)
unfolding pass_deletion
pass_deletion-Holds key_utf8 a s t = record {
  same = record { mode = refl; trigger = refl; deadline = refl; time = refl };
  deleting = refl;
  late = refl;
  expected = refl;
  seen = rw t refl;
  buffer = rw t refl;
}

other_key-Holds :
    (key_utf8 : ℕ → Bytes) (a : Arrival) (s : Uinput)
    → tracked s.shift_select a.key ≡ false
    → Holds key_utf8 a s (other_key key_utf8 a.app a.now a.key s)
unfolding other_key buffer_key
other_key-Holds key_utf8 a s t =
    if_both (λ r. Holds key_utf8 a s r) (marked a.key s) _ _
      (λ e. record {
        same = Same-refl s;
        deleting = refl;
        late = refl;
        expected = refl;
        seen = rw t (omega arith);
        buffer = rw (t, e) refl;
      })
      (λ e.
        if_both (λ r. Holds key_utf8 a s r) (is_redelivered a.app a.now a.key s) _ _
          (λ f. record {
            same = Same-refl s;
            deleting = refl;
            late = refl;
            expected = refl;
            seen = rw t (omega arith);
            buffer = rw (t, e, f) refl;
          })
          (λ f. record {
            same = record { mode = refl; trigger = refl; deadline = refl; time = refl };
            deleting = refl;
            late = refl;
            expected = refl;
            seen = rw t (omega arith);
            buffer =
                rw (t, e, f)
                  (both (not (is_empty (key_utf8 a.key.sym))) (ltb (length s.buffered_keys) 32) _
                    _);
          }))
  where
    both :
        (b c : Bool) (xs ys : List ℕ)
        → (if b && c then xs else ys) ≡ (if b then (if c then xs else ys) else ys)
    both true c xs ys = refl
    both false c xs ys = refl

handle-Holds :
    (d : Doubles) (alpha : d.Alpha) (key_utf8 : ℕ → Bytes) (a : Arrival) (s : Uinput)
    → s.deleting ≡ true
    → s.late_bs_deadline_usec ≡ 0
    → 0 < s.expected
    → s.seen + one (tracked s.shift_select a.key) ≤ s.expected
    → Holds key_utf8 a s (handle_pending_uinput_backspace d alpha key_utf8 a.app a.now a.key s)
unfolding deleting_key is_tracked_key
handle-Holds d alpha key_utf8 a s h g p o =
    subst (λ r. Holds key_utf8 a s r)
      (sym (handle-deleting d alpha key_utf8 a.app a.now a.key s h g))
      (if_both (λ r. Holds key_utf8 a s r) (not (tracked s.shift_select a.key) || s.expected == 0) _
        _ (λ e. other_key-Holds key_utf8 a s (ground (arith, e, p)))
        (λ e.
          let t : tracked s.shift_select a.key ≡ true = ground (arith, e) in
          if_both (λ r. Holds key_utf8 a s r) (ltb s.seen s.expected) _ _
            (λ _. pass_deletion-Holds key_utf8 a s t) (λ l. absurd (ground (arith, l, o, t)))))

-- While a replacement is under way, no late key is swallowed and not more injected keys come than there are
-- deletions left: of the keys that the user types, those that have a character, do not pass to the
-- application and are not the trigger key sent again are held back in the order in which they come; the buffer, which
-- holds at most 32, keeps the first ones.
pub typed_keys_held :
    (d : Doubles) (alpha : d.Alpha) (key_utf8 : ℕ → Bytes) (arrivals : List Arrival) (s : Uinput)
    → s.deleting ≡ true
    → s.late_bs_deadline_usec ≡ 0
    → 0 < s.expected
    → s.seen + injected s.shift_select arrivals ≤ s.expected
    → length s.buffered_keys ≤ max_buffered_uinput_keys
    → (handle_all d alpha key_utf8 arrivals s).0.buffered_keys
      ≡ take max_buffered_uinput_keys (s.buffered_keys ++ typed key_utf8 s arrivals)
unfolding handle_all injected typed
typed_keys_held d alpha key_utf8 [] s h g p o l =
    sym (ap (take 32) (append-nil s.buffered_keys) ∙ take_all 32 s.buffered_keys l)
typed_keys_held d alpha key_utf8 (a ∷ arrivals) s h g p o l =
    let r = handle_pending_uinput_backspace d alpha key_utf8 a.app a.now a.key s in
    let t = handle-Holds d alpha key_utf8 a s h g p (omega (arith, o)) in
    let rest =
      typed_keys_held d alpha key_utf8 arrivals r.0 (t.deleting ∙ h) (t.late ∙ g)
        (rw (t.expected) p)
        (omega (arith, o, t.seen, t.expected, ap (λ m. injected m arrivals) t.same.mode))
        (subst (λ (keys : List ℕ). length keys ≤ 32) (sym t.buffer)
          (if_both (λ (keys : List ℕ). length keys ≤ 32) (is_typed key_utf8 s a) _ _
            (λ _. length-pushed 32 s.buffered_keys a.key.sym l) (λ _. l))) in
    rest
    ∙ (λ i. take 32 (t.buffer i ++ typed-Same key_utf8 s r.0 arrivals t.same i))
    ∙ pushed_next (is_typed key_utf8 s a)
  where
    pushed_next :
        (b : Bool)
        → take 32 (
            (if b then pushed 32 s.buffered_keys a.key.sym else s.buffered_keys)
            ++ typed key_utf8 s arrivals)
          ≡ take 32 (
              s.buffered_keys
              ++ (if b then a.key.sym ∷ typed key_utf8 s arrivals else typed key_utf8 s arrivals))
    pushed_next true = take-pushed 32 s.buffered_keys a.key.sym (typed key_utf8 s arrivals) l
    pushed_next false = refl
