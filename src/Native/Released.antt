-- ===== src/Native/Released.antt =====
-- Every key that a batch attempts to press is released.
use skey.Base.{
  ℕ, zero, suc, ◌≡◌, ◌∙◌, refl, sym, subst, arith, Bool, true, false, not, ◌&&◌, ◌||◌, Option, List,
  [], ◌∷◌, ◌==◌, if◌then◌else◌, if_both, Bool-cases, inl, inr,
}
use skey.Native.{
  Work, World, Event, Batch, Answer, Keys, after, not_cancelled, modifiers_safe, focus_safe, emit,
  hold, tap, pause, taps, look_up, is_ready, press_shift, tap_escape, release_shift, release_held,
  release_last, send, run_batch,
}

-- The latest event of the key is a press.
unfoldable pub is_down : ℕ → List Event → Bool
is_down code [] = false
is_down code (e ∷ es) = if e.code == code then e.down else is_down code es

-- Each key that is down is the one held, or Shift while that is held.
record Kept (shift : ℕ) (es : List Event) (held : ℕ) (shift_held : Bool) : Type 0 where
  known :
      (c : ℕ)
      → is_down c es ≡ true
      → ((held == c && not (c == 0)) || (shift_held && c == shift)) ≡ true

abbrev KeptBy : ℕ → Batch → Type 0
KeptBy shift b = Kept shift b.events b.held b.shift_held

-- An answer whose batch is in order, and holds no key but Shift if it is a success.
record Orderly (shift : ℕ) (r : Answer) : Type 0 where
  kept : KeptBy shift r.1
  free : r.0 ≡ true → r.1.held ≡ 0

-- A property of `after`, from both answers of the first call.
after_cases :
    (P : Answer → Type 0) (r : Answer) (next : Batch → Answer)
    → P (false, r.1)
    → P (next r.1)
    → P (after r next)
unfolding after
after_cases P (true, b) next f g = g
after_cases P (false, b) next f g = f

after-Orderly :
    (shift : ℕ) (r : Answer) (next : Batch → Answer)
    → Orderly shift r
    → ((b : Batch) → KeptBy shift b → b.held ≡ 0 → Orderly shift (next b))
    → Orderly shift (after r next)
unfolding after
after-Orderly shift (true, b) next h k = k b h.kept (h.free refl)
after-Orderly shift (false, b) next h k = record { kept = h.kept; free = λ e. absurd (cc) }

Kept-down :
    (shift : ℕ) (es : List Event) (sh taken : Bool) (code : ℕ)
    → Kept shift es 0 sh
    → (code == 0) ≡ false
    → Kept shift (record { code = code; down = true; taken = taken } ∷ es) code sh
unfolding is_down
Kept-down shift es sh taken code h n = record { known = λ c d. ground (arith, h.known c, d, n) }

Kept-up :
    (shift : ℕ) (es : List Event) (held : ℕ) (sh taken : Bool) (code : ℕ)
    → Kept shift es held sh
    → Kept shift (record { code = code; down = false; taken = taken } ∷ es) held sh
unfolding is_down
Kept-up shift es held sh taken code h = record { known = λ c d. ground (arith, h.known c, d) }

-- The key that is held is released.
Kept-freed :
    (shift : ℕ) (es : List Event) (sh taken : Bool) (code : ℕ)
    → Kept shift es code sh
    → Kept shift (record { code = code; down = false; taken = taken } ∷ es) 0 sh
unfolding is_down
Kept-freed shift es sh taken code h = record { known = λ c d. ground (arith, h.known c, d) }

-- Shift is released.
Kept-unshifted :
    (shift : ℕ) (es : List Event) (held : ℕ) (sh taken : Bool)
    → Kept shift es held sh
    → Kept shift (record { code = shift; down = false; taken = taken } ∷ es) held false
unfolding is_down
Kept-unshifted shift es held sh taken h = record { known = λ c d. ground (arith, h.known c, d) }

-- A failure, with the keys in order.
stopped : (shift : ℕ) (b : Batch) → KeptBy shift b → Orderly shift (false, b)
stopped shift b h = record { kept = h; free = λ e. absurd (cc) }

not_cancelled-Orderly :
    (w : World) (shift : ℕ) (b : Batch)
    → KeptBy shift b
    → b.held ≡ 0
    → Orderly shift (not_cancelled w b)
unfolding not_cancelled
not_cancelled-Orderly w shift b h f = record { kept = record { known = h.known }; free = λ _. f }

modifiers_safe-Orderly :
    (w : World) (shift : ℕ) (b : Batch)
    → KeptBy shift b
    → b.held ≡ 0
    → Orderly shift (modifiers_safe w b)
unfolding modifiers_safe
modifiers_safe-Orderly w shift b h f = record { kept = record { known = h.known }; free = λ _. f }

focus_safe-Orderly :
    (w : World) (target : Option ℕ) (shift : ℕ) (b : Batch)
    → KeptBy shift b
    → b.held ≡ 0
    → Orderly shift (focus_safe w target b)
unfolding focus_safe
focus_safe-Orderly w target shift b h f = record {
  kept = record { known = h.known };
  free = λ _. f;
}

emit-down :
    (w : World) (shift code : ℕ) (b : Batch)
    → (code == 0) ≡ false
    → KeptBy shift b
    → b.held ≡ 0
    → Kept shift (emit w code true (hold code b)).1.events code b.shift_held
unfolding emit
emit-down w shift code b n h f =
    Kept-down shift b.events b.shift_held _ code
      (subst (λ k. Kept shift b.events k b.shift_held) f h) n

press-Orderly :
    (w : World) (shift code : ℕ) (b : Batch)
    → (code == 0) ≡ false
    → KeptBy shift b
    → b.held ≡ 0
    → Orderly shift (
        after
          (emit w code true (hold code b))
          (λ f. after (emit w code false f) (λ g. (true, hold 0 g))))
unfolding emit
press-Orderly w shift code b n h f =
    let p = emit-down w shift code b n h f in
    let down : Batch = (emit w code true (hold code b)).1 in
    after_cases (Orderly shift) (emit w code true (hold code b))
      (λ f. after (emit w code false f) (λ g. (true, hold 0 g))) (stopped shift down (p))
      (after_cases (Orderly shift) (emit w code false down) (λ g. (true, hold 0 g))
        (stopped shift (emit w code false down).1 (Kept-up shift _ code b.shift_held _ code p))
        (record { kept = Kept-freed shift _ b.shift_held _ code p; free = λ _. refl }))

tap-Orderly :
    (w : World) (target : Option ℕ) (shift code : ℕ) (b : Batch)
    → (code == 0) ≡ false
    → KeptBy shift b
    → b.held ≡ 0
    → Orderly shift (tap w target code b)
unfolding tap
tap-Orderly w target shift code b n h f =
    after-Orderly shift _ _ (not_cancelled-Orderly w shift b h f) (λ c hc fc.
      after-Orderly shift _ _ (modifiers_safe-Orderly w shift c hc fc) (λ d hd fd.
        after-Orderly shift _ _ (focus_safe-Orderly w target shift d hd fd)
          (λ e he fe. press-Orderly w shift code e n he fe)))

pause-Orderly :
    (w : World) (target : Option ℕ) (shift : ℕ) (b : Batch)
    → KeptBy shift b
    → b.held ≡ 0
    → Orderly shift (pause w target b)
unfolding pause
pause-Orderly w target shift b h f =
    after-Orderly shift _ _ (not_cancelled-Orderly w shift b h f)
      (λ c hc fc. focus_safe-Orderly w target shift c hc fc)

taps-Orderly :
    (w : World) (target : Option ℕ) (shift code n : ℕ) (b : Batch)
    → (code == 0) ≡ false
    → KeptBy shift b
    → b.held ≡ 0
    → Orderly shift (taps w target code n b)
unfolding taps
taps-Orderly w target shift code zero b z h f = record { kept = h; free = λ _. f }
taps-Orderly w target shift code (suc n) b z h f =
    after-Orderly shift _ _ (tap-Orderly w target shift code b z h f) (λ c hc fc.
      if_both (λ r. Orderly shift r) (n == 0) _ _ (λ _. record { kept = hc; free = λ _. fc })
        (λ _.
          after-Orderly shift _ _ (pause-Orderly w target shift c hc fc)
            (λ d hd fd. taps-Orderly w target shift code n d z hd fd)))

is_ready-Orderly :
    (w : World) (work : Work) (k : Keys) (shift : ℕ) (b : Batch)
    → KeptBy shift b
    → b.held ≡ 0
    → Orderly shift (is_ready w work k b)
unfolding is_ready
is_ready-Orderly w work k shift b h f =
    after-Orderly shift _ _ (not_cancelled-Orderly w shift b h f) (λ c hc fc.
      if_both (λ r. Orderly shift r)
        (k.key_code == 0
          || (work.escape && k.escape_code == 0)
          || (work.select && k.shift_code == 0))
        _ _ (λ _. stopped shift c hc)
        (λ _.
          after-Orderly shift _ _ (modifiers_safe-Orderly w shift c hc fc)
            (λ d hd fd. focus_safe-Orderly w k.target shift d hd fd)))

-- A key code is missing.
abbrev is_missing : Work → Keys → Bool
is_missing work k =
    k.key_code == 0 || (work.escape && k.escape_code == 0) || (work.select && k.shift_code == 0)

not_ready :
    (w : World) (work : Work) (k : Keys) (b : Batch)
    → is_missing work k ≡ true
    → (is_ready w work k b).0 ≡ false
unfolding is_ready
not_ready w work k b e =
    after_cases (λ r. r.0 ≡ false) (not_cancelled w b) _ refl
      (if_both (λ (r : Answer). r.0 ≡ false) (is_missing work k) _ _ (λ _. refl) (λ n. absurd (cc)))

after-false : (r : Answer) (next : Batch → Answer) → r.0 ≡ false → after r next ≡ r
unfolding after
after-false (true, b) next e = absurd (cc)
after-false (false, b) next e = refl

-- No call before the first press changes the flag of Shift.
ready_shift :
    (w : World) (work : Work) (k : Keys) (b : Batch)
    → (is_ready w work k b).1.shift_held ≡ b.shift_held
unfolding is_ready not_cancelled modifiers_safe focus_safe
ready_shift w work k b =
    after_cases (λ r. r.1.shift_held ≡ b.shift_held) (not_cancelled w b) _ refl
      (if_both (λ (r : Answer). r.1.shift_held ≡ b.shift_held) (is_missing work k) _ _ (λ _. refl)
        (λ _.
          after_cases (λ r. r.1.shift_held ≡ b.shift_held) (modifiers_safe w (not_cancelled w b).1)
            _ refl refl))

Kept-shift :
    (shift : ℕ) (es : List Event) (held : ℕ) (sh taken : Bool)
    → Kept shift es held sh
    → Kept shift (record { code = shift; down = true; taken = taken } ∷ es) held true
unfolding is_down
Kept-shift shift es held sh taken h = record { known = λ c d. ground (arith, h.known c, d) }

press_shift-Orderly :
    (w : World) (work : Work) (k : Keys) (b : Batch)
    → KeptBy k.shift_code b
    → b.held ≡ 0
    → Orderly k.shift_code (press_shift w work k b)
unfolding press_shift emit
press_shift-Orderly w work k b h f =
    if_both (λ r. Orderly k.shift_code r) work.select _ _
      (λ _. record {
        kept = Kept-shift k.shift_code b.events b.held b.shift_held _ h;
        free = λ _. f;
      })
      (λ _. record { kept = h; free = λ _. f })

tap_escape-Orderly :
    (w : World) (work : Work) (k : Keys) (shift : ℕ) (b : Batch)
    → is_missing work k ≡ false
    → KeptBy shift b
    → b.held ≡ 0
    → Orderly shift (tap_escape w work k b)
unfolding tap_escape
tap_escape-Orderly w work k shift b n h f =
    if_both (λ r. Orderly shift r) work.escape _ _
      (λ e.
        after-Orderly shift _ _
          (tap-Orderly w k.target shift k.escape_code b (ground (arith, n, e)) h f)
          (λ c hc fc. pause-Orderly w k.target shift c hc fc))
      (λ _. record { kept = h; free = λ _. f })

release_shift-Orderly :
    (w : World) (work : Work) (k : Keys) (r : Answer)
    → (k.key_code == 0) ≡ false
    → Orderly k.shift_code r
    → Orderly k.shift_code (release_shift w work k r)
unfolding release_shift emit
release_shift-Orderly w work k (ok, b) n h =
    let up = Kept-unshifted k.shift_code b.events b.held b.shift_held _ h.kept in
    if_both (λ r. Orderly k.shift_code r) (work.select && b.shift_held) _ _
      (λ _.
        if_both (λ r. Orderly k.shift_code r) (not (emit w k.shift_code false b).0) _ _
          (λ _.
            stopped k.shift_code (emit w k.shift_code false b).1
              (Kept-up k.shift_code b.events b.held b.shift_held _ k.shift_code h.kept))
          (λ _.
            if_both (λ r. Orderly k.shift_code r) ok _ _
              (λ o. tap-Orderly w k.target k.shift_code k.key_code _ n up (h.free o))
              (λ _. stopped k.shift_code _ up)))
      (λ _. h)

release_shift-unheld :
    (w : World) (work : Work) (k : Keys) (shift : ℕ) (r : Answer)
    → r.1.shift_held ≡ false
    → Orderly shift r
    → Orderly shift (release_shift w work k r)
unfolding release_shift
release_shift-unheld w work k shift (ok, b) s h =
    if_both (λ r. Orderly shift r) (work.select && b.shift_held) _ _
      (λ e. absurd (ground (arith, e, s))) (λ _. h)

send-Orderly :
    (w : World) (work : Work) (k : Keys) (b : Batch)
    → KeptBy k.shift_code b
    → b.held ≡ 0
    → b.shift_held ≡ false
    → Orderly k.shift_code (send w work k b)
unfolding send
send-Orderly w work k b h f s = elim (Bool-cases (is_missing work k)) [
  | inl e ↦
      let r = is_ready w work k b in
      subst (λ q. Orderly k.shift_code (release_shift w work k q))
        (sym (after-false r _ (not_ready w work k b e)))
        (release_shift-unheld w work k k.shift_code r (ready_shift w work k b ∙ s)
          (is_ready-Orderly w work k k.shift_code b h f))
  | inr e ↦ release_shift-Orderly w work k _ (ground (arith, e)) (
      after-Orderly k.shift_code _ _ (is_ready-Orderly w work k k.shift_code b h f) (λ c hc fc.
        after-Orderly k.shift_code _ _ (press_shift-Orderly w work k c hc fc) (λ d hd fd.
          after-Orderly k.shift_code _ _ (tap_escape-Orderly w work k k.shift_code d e hd fd)
            (λ g hg fg.
              taps-Orderly w k.target k.shift_code k.key_code work.count g (ground (arith, e)) hg
                fg))))
]

release_held-freed :
    (w : World) (shift : ℕ) (r : Answer)
    → Orderly shift r
    → Kept shift (release_held w r).1.events 0 (release_held w r).1.shift_held
unfolding release_held emit
release_held-freed w shift (ok, b) h =
    if_both (λ (q : Answer). Kept shift q.1.events 0 q.1.shift_held) (b.held == 0) _ _
      (λ e. record { known = λ c d. ground (arith, h.kept.known c, d, e) })
      (λ _. Kept-freed shift b.events b.shift_held _ b.held h.kept)

release_last-none :
    (w : World) (k : Keys) (r : Answer)
    → Kept k.shift_code r.1.events 0 r.1.shift_held
    → (c : ℕ) → is_down c (release_last w k r).1.events ≡ false
unfolding release_last emit is_down
release_last-none w k (ok, b) h c =
    if_both (λ (q : Answer). is_down c q.1.events ≡ false) b.shift_held _ _
      (λ e. ground (arith, h.known c, e)) (λ e. ground (arith, h.known c, e))

-- Whatever the X server answers and whenever the batch is cancelled: of each key, the last event that a batch
-- attempts is not a press. So no key that it presses, Shift included, stays down because its release was
-- never tried.
pub batch_releases :
    (w : World) (work : Work) (code : ℕ) → is_down code (run_batch w work).0.events ≡ false
unfolding run_batch look_up
batch_releases w work code =
    let k = (look_up w work).0 in
    let b = (look_up w work).1 in
    let none_down : KeptBy k.shift_code b = record { known = λ c d. absurd (empty_down c d) } in
    let r = send w work k b in
    release_last-none w k (release_held w r)
      (release_held-freed w k.shift_code r (send-Orderly w work k b none_down refl refl)) code
  where
    empty_down : (c : ℕ) → is_down c [] ≡ true → ⊥
    empty_down c d = unfold is_down in absurd (cc)
