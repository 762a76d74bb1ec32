-- ===== src/Native/Trace.antt =====
-- What a batch that completes has sent.
use skey.Base.{
  ℕ, zero, suc, ◌+◌, ◌≡◌, ◌∙◌, refl, sym, ap, subst, arith, Bool, true, false, not, ◌&&◌, ◌||◌,
  Option, List, [], ◌∷◌, ◌++◌, append_assoc, ◌==◌, if◌then◌else◌, if_both, if_true, if_false,
  Bool-cases, inl, inr,
}
use skey.Native.{
  Work, World, Event, Batch, Answer, Keys, complete, cancelled, failed, after, not_cancelled,
  modifiers_safe, focus_safe, emit, hold, tap, pause, taps, look_up, is_ready, hold_shift,
  press_shift, tap_escape, release_shift, release_held, release_last, send, state_of, run_batch,
}

abbrev event : ℕ → Bool → Event
event code down = record { code = code; down = down; taken = true }

-- A key that is pressed and released, the latest event first.
abbrev pub tapped : ℕ → List Event
tapped code = event code false ∷ event code true ∷ []

unfoldable pub tapped_often : ℕ → ℕ → List Event
tapped_often code zero = []
tapped_often code (suc n) = tapped_often code n ++ tapped code

abbrev pub shift_down : Work → Keys → List Event
shift_down work k = if work.select then event k.shift_code true ∷ [] else []

abbrev pub escape_tapped : Work → Keys → List Event
escape_tapped work k = if work.escape then tapped k.escape_code else []

-- The anchor, and before it the release of Shift.
abbrev pub anchor : Work → Keys → List Event
anchor work k = if work.select then tapped k.key_code ++ event k.shift_code false ∷ [] else []

-- A success has sent these events, holds no key, and Shift or not.
record Wins (es : List Event) (shifted : Bool) (r : Answer) : Type 0 where
  sent : r.0 ≡ true → r.1.events ≡ es
  flag : r.0 ≡ true → r.1.shift_held ≡ shifted
  free : r.0 ≡ true → r.1.held ≡ 0

record Has (es : List Event) (shifted : Bool) (b : Batch) : Type 0 where
  sent : b.events ≡ es
  flag : b.shift_held ≡ shifted
  free : b.held ≡ 0

won : (es : List Event) (shifted : Bool) (r : Answer) → Has es shifted r.1 → Wins es shifted r
won es shifted r h = record { sent = λ _. h.sent; flag = λ _. h.flag; free = λ _. h.free }

lost : (es : List Event) (shifted : Bool) (r : Answer) → r.0 ≡ false → Wins es shifted r
lost es shifted r e = record {
  sent = λ t. absurd (cc);
  flag = λ t. absurd (cc);
  free = λ t. absurd (cc);
}

after-Wins :
    (es fs : List Event) (x y : Bool) (r : Answer) (next : Batch → Answer)
    → Wins es x r
    → ((b : Batch) → Has es x b → Wins fs y (next b))
    → Wins fs y (after r next)
unfolding after
after-Wins es fs x y (true, b) next h k =
    k b (record { sent = h.sent refl; flag = h.flag refl; free = h.free refl })
after-Wins es fs x y (false, b) next h k = lost fs y (false, b) refl

not_cancelled-Wins :
    (w : World) (es : List Event) (x : Bool) (b : Batch)
    → Has es x b
    → Wins es x (not_cancelled w b)
unfolding not_cancelled
not_cancelled-Wins w es x b h = won es x _ (record { sent = h.sent; flag = h.flag; free = h.free })

modifiers_safe-Wins :
    (w : World) (es : List Event) (x : Bool) (b : Batch)
    → Has es x b
    → Wins es x (modifiers_safe w b)
unfolding modifiers_safe
modifiers_safe-Wins w es x b h = won es x _ (record { sent = h.sent; flag = h.flag; free = h.free })

focus_safe-Wins :
    (w : World) (target : Option ℕ) (es : List Event) (x : Bool) (b : Batch)
    → Has es x b
    → Wins es x (focus_safe w target b)
unfolding focus_safe
focus_safe-Wins w target es x b h =
    won es x _ (record { sent = h.sent; flag = h.flag; free = h.free })

-- One event, while some key is held.
record Holding (es : List Event) (shifted : Bool) (code : ℕ) (r : Answer) : Type 0 where
  sent : r.0 ≡ true → r.1.events ≡ es
  flag : r.0 ≡ true → r.1.shift_held ≡ shifted
  held : r.0 ≡ true → r.1.held ≡ code

emit-Holding :
    (w : World) (code : ℕ) (down : Bool) (b : Batch)
    → Holding (event code down ∷ b.events) b.shift_held b.held (emit w code down b)
unfolding emit
emit-Holding w code down b = record {
  sent = λ e. ap (λ t. record { code = code; down = down; taken = t } ∷ b.events) e;
  flag = λ _. refl;
  held = λ _. refl;
}

-- The press and the release of a tap, from their answers.
released-Wins :
    (code : ℕ) (es : List Event) (x : Bool) (f : Batch) (r : Answer)
    → f.events ≡ event code true ∷ es
    → f.shift_held ≡ x
    → Holding (event code false ∷ f.events) f.shift_held f.held r
    → Wins (tapped code ++ es) x (after r (λ g. (true, hold 0 g)))
unfolding after
released-Wins code es x f (true, g) e s i = record {
  sent = λ _. i.sent refl ∙ ap (λ l. event code false ∷ l) e;
  flag = λ _. i.flag refl ∙ s;
  free = λ _. refl;
}
released-Wins code es x f (false, g) e s i = lost (tapped code ++ es) x (false, g) refl

pressed-Wins :
    (w : World) (code : ℕ) (es : List Event) (x : Bool) (r : Answer)
    → Holding (event code true ∷ es) x code r
    → Wins
        (tapped code ++ es)
        x
        (after r (λ f. after (emit w code false f) (λ g. (true, hold 0 g))))
unfolding after
pressed-Wins w code es x (true, f) i =
    released-Wins code es x f (emit w code false f) (i.sent refl) (i.flag refl)
      (emit-Holding w code false f)
pressed-Wins w code es x (false, f) i = lost (tapped code ++ es) x (false, f) refl

tap-Wins :
    (w : World) (target : Option ℕ) (code : ℕ) (es : List Event) (x : Bool) (b : Batch)
    → Has es x b
    → Wins (tapped code ++ es) x (tap w target code b)
unfolding tap
tap-Wins w target code es x b h = after-Wins es _ x x _ _ (not_cancelled-Wins w es x b h) (λ c hc.
    after-Wins es _ x x _ _ (modifiers_safe-Wins w es x c hc) (λ d hd.
      after-Wins es _ x x _ _ (focus_safe-Wins w target es x d hd) (λ e he.
        let i = emit-Holding w code true (hold code e) in
        pressed-Wins w code es x (emit w code true (hold code e)) (record {
          sent = λ t. i.sent t ∙ ap (λ l. event code true ∷ l) he.sent;
          flag = λ t. i.flag t ∙ he.flag;
          held = i.held;
        }))))

pause-Wins :
    (w : World) (target : Option ℕ) (es : List Event) (x : Bool) (b : Batch)
    → Has es x b
    → Wins es x (pause w target b)
unfolding pause
pause-Wins w target es x b h =
    after-Wins es es x x _ _ (not_cancelled-Wins w es x b h)
      (λ c hc. focus_safe-Wins w target es x c hc)

none_often : (code n : ℕ) → n == 0 ≡ true → tapped_often code n ≡ []
unfolding tapped_often
none_often code zero e = refl
none_often code (suc n) e = absurd (ground (arith, e))

taps-Wins :
    (w : World) (target : Option ℕ) (code n : ℕ) (es : List Event) (x : Bool) (b : Batch)
    → Has es x b
    → Wins (tapped_often code n ++ es) x (taps w target code n b)
unfolding taps tapped_often
taps-Wins w target code zero es x b h = won es x _ h
taps-Wins w target code (suc n) es x b h =
    after-Wins (tapped code ++ es) _ x x _ _ (tap-Wins w target code es x b h) (λ c hc.
      if_both (λ r. Wins ((tapped_often code n ++ tapped code) ++ es) x r) (n == 0) _ _
        (λ e.
          subst (λ l. Wins ((l ++ tapped code) ++ es) x (true, c)) (sym (none_often code n e))
            (won (tapped code ++ es) x (true, c) hc))
        (λ _. after-Wins (tapped code ++ es) _ x x _ _ (pause-Wins w target _ x c hc) (λ d hd.
          subst (λ l. Wins l x (taps w target code n d))
            (sym (append_assoc (tapped_often code n) (tapped code) es))
            (taps-Wins w target code n (tapped code ++ es) x d hd))))

is_ready-Wins :
    (w : World) (work : Work) (k : Keys) (es : List Event) (x : Bool) (b : Batch)
    → Has es x b
    → Wins es x (is_ready w work k b)
unfolding is_ready
is_ready-Wins w work k es x b h = after-Wins es es x x _ _ (not_cancelled-Wins w es x b h) (λ c hc.
    if_both (λ r. Wins es x r)
      (k.key_code == 0 || (work.escape && k.escape_code == 0) || (work.select && k.shift_code == 0))
      _ _ (λ _. lost es x (false, c) refl)
      (λ _.
        after-Wins es es x x _ _ (modifiers_safe-Wins w es x c hc)
          (λ d hd. focus_safe-Wins w k.target es x d hd)))

press_shift-Wins :
    (w : World) (work : Work) (k : Keys) (b : Batch)
    → Has [] false b
    → Wins (shift_down work k) work.select (press_shift w work k b)
unfolding press_shift
press_shift-Wins w work k b h = elim (Bool-cases work.select) [
  | inl e ↦
      let i = emit-Holding w k.shift_code true (hold_shift true b) in
      rw e (record {
        sent = λ t. i.sent t ∙ ap (λ l. event k.shift_code true ∷ l) h.sent;
        flag = λ t. i.flag t;
        free = λ t. i.held t ∙ h.free;
      })
  | inr e ↦ rw e (won [] false (true, b) h)
]

tap_escape-Wins :
    (w : World) (work : Work) (k : Keys) (es : List Event) (x : Bool) (b : Batch)
    → Has es x b
    → Wins (escape_tapped work k ++ es) x (tap_escape w work k b)
unfolding tap_escape
tap_escape-Wins w work k es x b h = elim (Bool-cases work.escape) [
  | inl e ↦ rw e (
      after-Wins (tapped k.escape_code ++ es) (tapped k.escape_code ++ es) x x _ _
        (tap-Wins w k.target k.escape_code es x b h) (λ c hc. pause-Wins w k.target _ x c hc))
  | inr e ↦ rw e (won es x (true, b) h)
]

release_shift-lost :
    (w : World) (work : Work) (k : Keys) (b : Batch) → (release_shift w work k (false, b)).0 ≡ false
unfolding release_shift
release_shift-lost w work k b =
    if_both (λ (r : Answer). r.0 ≡ false) (work.select && b.shift_held) _ _
      (λ _.
        if_both (λ (r : Answer). r.0 ≡ false) (not (emit w k.shift_code false b).0) _ _ (λ _. refl)
          (λ _. refl))
      (λ _. refl)

release_shift-Wins :
    (w : World) (work : Work) (k : Keys) (es : List Event) (r : Answer)
    → Wins es work.select r
    → Wins (anchor work k ++ es) false (release_shift w work k r)
unfolding release_shift
release_shift-Wins w work k es (false, b) h = lost _ false _ (release_shift-lost w work k b)
release_shift-Wins w work k es (true, b) h = elim (Bool-cases work.select) [
  | inl e ↦
      let i = emit-Holding w k.shift_code false b in
      let r = emit w k.shift_code false b in
      let goal : List Event = tapped k.key_code ++ event k.shift_code false ∷ es in
      subst (λ l. Wins (l ++ es) false (release_shift w work k (true, b)))
        (sym (if_true work.select (tapped k.key_code ++ event k.shift_code false ∷ []) [] e))
        (subst (λ q. Wins goal false q)
          (sym (if_true (work.select && b.shift_held) _ _ (ground (arith, e, h.flag refl))))
          (elim (Bool-cases r.0) [
            | inl t ↦
                subst (λ q. Wins goal false q) (sym (if_false (not r.0) _ _ (rw t refl)))
                  (tap-Wins w k.target k.key_code (event k.shift_code false ∷ es) false
                    (hold_shift false r.1)
                    (record {
                      sent = i.sent t ∙ ap (λ l. event k.shift_code false ∷ l) (h.sent refl);
                      flag = refl;
                      free = i.held t ∙ h.free refl;
                    }))
            | inr n ↦
                subst (λ q. Wins goal false q) (sym (if_true (not r.0) _ _ (rw n refl)))
                  (lost goal false (false, r.1) refl)
          ]))
  | inr e ↦
      subst (λ l. Wins (l ++ es) false (release_shift w work k (true, b)))
        (sym (if_false work.select (tapped k.key_code ++ event k.shift_code false ∷ []) [] e))
        (subst (λ q. Wins es false q) (sym (if_false (work.select && b.shift_held) _ _ (rw e refl)))
          (won es false (true, b)
            (record { sent = h.sent refl; flag = h.flag refl ∙ e; free = h.free refl })))
]

-- All the events of a batch that succeeds, the latest first.
abbrev pub whole : Work → Keys → List Event
whole work k =
    anchor work k
    ++ (tapped_often k.key_code work.count ++ (escape_tapped work k ++ shift_down work k))

send-Wins :
    (w : World) (work : Work) (k : Keys) (b : Batch)
    → Has [] false b
    → Wins (whole work k) false (send w work k b)
unfolding send
send-Wins w work k b h = release_shift-Wins w work k _ _ (
    after-Wins [] _ false work.select _ _ (is_ready-Wins w work k [] false b h) (λ c hc.
      after-Wins (shift_down work k) _ work.select work.select _ _ (press_shift-Wins w work k c hc)
        (λ d hd.
          after-Wins (escape_tapped work k ++ shift_down work k) _ work.select work.select _ _
            (tap_escape-Wins w work k _ work.select d hd)
            (λ g hg. taps-Wins w k.target k.key_code work.count _ work.select g hg))))

-- A batch that failed stays failed.
release_last-lost :
    (w : World) (k : Keys) (r : Answer) → r.0 ≡ false → (release_last w k r).0 ≡ false
unfolding release_last
release_last-lost w k (ok, b) e =
    if_both (λ (q : Answer). q.0 ≡ false) b.shift_held _ _ (λ _. ground (arith, e)) (λ _. e)

release_held-lost : (w : World) (b : Batch) → (release_held w (false, b)).0 ≡ false
unfolding release_held
release_held-lost w b =
    if_both (λ (q : Answer). q.0 ≡ false) (b.held == 0) _ _ (λ _. refl) (λ _. ground arith)

state_of-complete : (w : World) (r : Answer) → state_of w r ≡ complete → r.0 ≡ true
unfolding state_of
state_of-complete w (true, b) e = refl
state_of-complete w (false, b) e = elim (Bool-cases (w.is_cancelled (b.asked + 1))) [
  | inl c ↦ absurd (cc (e, if_true (w.is_cancelled (b.asked + 1)) cancelled failed c))
  | inr c ↦ absurd (cc (e, if_false (w.is_cancelled (b.asked + 1)) cancelled failed c))
]

nothing_held : (w : World) (b : Batch) → b.held ≡ 0 → release_held w (true, b) ≡ (true, b)
unfolding release_held
nothing_held w b e = if_true (b.held == 0) _ _ (ground (arith, e))

no_shift_held :
    (w : World) (k : Keys) (b : Batch)
    → b.shift_held ≡ false
    → release_last w k (true, b) ≡ (true, b)
unfolding release_last
no_shift_held w k b e = if_false b.shift_held _ _ e

finish :
    (w : World) (k : Keys) (es : List Event) (r : Answer)
    → Wins es false r
    → (release_last w k (release_held w r)).0 ≡ true
    → (release_last w k (release_held w r)).1.events ≡ es
finish w k es (true, b) h t =
    ap (λ (r : Answer). (release_last w k r).1.events) (nothing_held w b (h.free refl))
    ∙ ap (λ (r : Answer). r.1.events) (no_shift_held w k b (h.flag refl))
    ∙ h.sent refl
finish w k es (false, b) h t =
    absurd (cc (t, release_last-lost w k (release_held w (false, b)) (release_held-lost w b)))

-- A batch whose request ends as complete has sent exactly these events, and the transport took each of them:
-- Shift down if it selects, then Escape down and up if that is asked for, then its key down and up as often as
-- was requested, and, if it selects, Shift up and its key once more.
pub complete_sends :
    (w : World) (work : Work)
    → (run_batch w work).1 ≡ complete
    → (run_batch w work).0.events ≡ whole work (look_up w work).0
unfolding run_batch
complete_sends w work e =
    let k = (look_up w work).0 in
    let b = (look_up w work).1 in
    let r = send w work k b in
    finish w k (whole work k) r
      (send-Wins w work k b (record {
        sent = unfold look_up in refl;
        flag = unfold look_up in refl;
        free = unfold look_up in refl;
      }))
      (state_of-complete w (release_last w k (release_held w r)) e)
