-- ===== src/TextCache/Focus.antt =====
-- What a successful read returns belongs to the widget that is focused now, whatever the
-- interleaving of replies, focus changes and switches.
use skey.Base.{
  ℕ, ◌+◌, ◌≤◌, ◌<◌, ◌≡◌, ◌≢◌, refl, sym, ◌∙◌, ◌⊎◌, ap, subst, Bool-cases, true, false, Bool, List,
  [], ◌∷◌, Option, none, some, arith, length, u64_mod, add64, Bytes, ℤ, All, All-mono,
  All-get_elem?, get_elem?, Option-cases, inl, inr,
}
use skey.TextCache.{
  Request, TextCache, set_enabled, focus, changed, blur, begin_poll, finish_poll, read,
}
use skey.TextCache.World.{
  Event, enable, focused, text_changed, blurred, poll, reply, World, start_world, answer, step, run,
}

-- A request is of an older generation, or of this one and then for the focused widget.
abbrev IsDue : TextCache → Request → Type 0
IsDue c r =
    (r.generation ≤ c.generation)
    × (r.generation ≡ c.generation → (r.bus ≡ c.bus) × (r.path ≡ c.path))

-- The cached text came from the request `r`, made for the focused widget in this generation.
pub record IsFrom (c : TextCache) (r : Request) (text : Bytes) : Type 0 where
  pub same_text : c.text ≡ text
  pub same_generation : r.generation ≡ c.generation
  pub same_bus : r.bus ≡ c.bus
  pub same_path : r.path ≡ c.path

abbrev Stored : TextCache → Option (Request × Bytes) → Type 0
Stored c none = c.snapshot_usec ≡ 0
Stored c (some (r, text)) = (c.snapshot_usec ≡ 0) ⊎ IsFrom c r text

record Inv (n : ℕ) (w : World) : Type 0 where
  bounded : w.cache.generation ≤ n
  due : All (IsDue w.cache) w.requests
  stored : Stored w.cache w.last

-- What an operation other than an accepted reply may do: start a new generation and drop the
-- snapshot, or leave all that a read depends on.
abbrev Effect : TextCache → TextCache → Type 0
Effect c c' =
    ((c'.generation ≡ add64 c.generation 1) × (c'.snapshot_usec ≡ 0))
    ⊎ ((c'.generation ≡ c.generation)
        × (c'.bus ≡ c.bus)
        × (c'.path ≡ c.path)
        × ((c'.snapshot_usec ≡ 0) ⊎ ((c'.snapshot_usec ≡ c.snapshot_usec) × (c'.text ≡ c.text))))

module _ (c : TextCache) where
  set_enabled-Effect : (on : Bool) (now : ℕ) → Effect c (set_enabled c on now).0
  unfolding set_enabled
  set_enabled-Effect on now = ground arith

  focus-Effect : (bus path : Bytes) (now : ℕ) → Effect c (focus c bus path now)
  unfolding focus
  focus-Effect bus path now = ground arith

  changed-Effect : (bus path : Option Bytes) → Effect c (changed c bus path)
  unfolding changed
  changed-Effect bus path = ground arith

  blur-Effect : (bus path : Option Bytes) → Effect c (blur c bus path)
  unfolding blur
  blur-Effect bus path = ground arith

  begin_poll-Effect : (now : ℕ) → Effect c (begin_poll c now).0
  unfolding begin_poll
  begin_poll-Effect now = ground arith

Stored-Effect :
    (c c' : TextCache) (last : Option (Request × Bytes))
    → Effect c c'
    → Stored c last
    → Stored c' last
Stored-Effect c c' none e h = ground arith
Stored-Effect c c' (some (r, text)) e h = ground arith

IsDue-Effect :
    (n : ℕ) (c c' : TextCache) (r : Request)
    → n + 1 < u64_mod
    → c.generation ≤ n
    → Effect c c'
    → IsDue c r
    → IsDue c' r
IsDue-Effect n c c' r small b (inl (g, z)) d =
    (omega (arith, d.0), λ e. absurd (omega (arith, d.0)))
IsDue-Effect n c c' r small b (inr (g, x, y, _)) d =
    (omega (arith, d.0), λ e. let k = d.1 (e ∙ g) in (k.0 ∙ sym x, k.1 ∙ sym y))

Inv-Effect :
    (n : ℕ) (w : World) (c : TextCache)
    → n + 1 < u64_mod
    → Effect w.cache c
    → Inv n w
    → Inv (n + 1) (record w { cache = c })
Inv-Effect n w c small e h = record {
  bounded = bounded_effect e;
  due =
      All-mono (IsDue w.cache) (IsDue c) w.requests
        (λ r d. IsDue-Effect n w.cache c r small h.bounded e d) h.due;
  stored = Stored-Effect w.cache c w.last e h.stored;
}
  where
    bounded_effect : Effect w.cache c → c.generation ≤ n + 1
    bounded_effect (inl (g, z)) = omega (arith, h.bounded)
    bounded_effect (inr (g, _, _, _)) = omega (arith, h.bounded)

-- A reply is accepted only in the generation of its request.
accepted-IsFrom :
    (c : TextCache) (r : Request) (good : Bool) (text : Bytes) (s e : ℤ) (now : ℕ)
    → IsDue c r
    → (finish_poll c r good text s e now).1 ≡ true
    → IsFrom (finish_poll c r good text s e now).0 r text
unfolding finish_poll
accepted-IsFrom c r good text s e now d t = ground (arith, d.1)

refused-Effect :
    (c : TextCache) (r : Request) (good : Bool) (text : Bytes) (s e : ℤ) (now : ℕ)
    → (finish_poll c r good text s e now).1 ≡ false
    → Effect c (finish_poll c r good text s e now).0
unfolding finish_poll
refused-Effect c r good text s e now f = ground arith

-- Either way the generation and the focus stay.
finish_poll-focus :
    (c : TextCache) (r : Request) (good : Bool) (text : Bytes) (s e : ℤ) (now : ℕ)
    → let c' = (finish_poll c r good text s e now).0 in
      (c'.generation ≡ c.generation) × (c'.bus ≡ c.bus) × (c'.path ≡ c.path)
unfolding finish_poll
finish_poll-focus c r good text s e now = ground arith

IsDue-same :
    (c c' : TextCache) (r : Request)
    → (c'.generation ≡ c.generation) × (c'.bus ≡ c.bus) × (c'.path ≡ c.path)
    → IsDue c r
    → IsDue c' r
IsDue-same c c' r (g, x, y) d =
    (omega (arith, d.0), λ e. let k = d.1 (e ∙ g) in (k.0 ∙ sym x, k.1 ∙ sym y))

answer-Inv :
    (n : ℕ) (w : World) (r : Request) (good : Bool) (text : Bytes) (s e : ℤ) (now : ℕ)
    → n + 1 < u64_mod
    → IsDue w.cache r
    → Inv n w
    → Inv (n + 1) (answer w (some r) good text s e now)
answer-Inv n w r good text s e now small d h =
    elim (Bool-cases (finish_poll w.cache r good text s e now).1) [
      | inr f ↦ rw f (Inv-Effect n w _ small (refused-Effect w.cache r good text s e now f) h)
      | inl t ↦ rw t (
          let c = (finish_poll w.cache r good text s e now).0 in
          let same = finish_poll-focus w.cache r good text s e now in
          record {
            bounded = omega (arith, same.0, h.bounded);
            due =
                All-mono (IsDue w.cache) (IsDue c) w.requests (λ q. IsDue-same w.cache c q same)
                  h.due;
            stored = inr (accepted-IsFrom w.cache r good text s e now d t);
          })
    ]

begin_poll-IsDue :
    (c : TextCache) (now : ℕ) (r : Request)
    → (begin_poll c now).1 ≡ some r
    → IsDue (begin_poll c now).0 r
unfolding begin_poll
begin_poll-IsDue c now r e = ground arith

poll-Inv :
    (n : ℕ) (w : World) (now : ℕ) → n + 1 < u64_mod → Inv n w → Inv (n + 1) (step w (poll now))
unfolding step
poll-Inv n w now small h =
    let h' = Inv-Effect n w (begin_poll w.cache now).0 small (begin_poll-Effect w.cache now) h in
    elim (Option-cases (begin_poll w.cache now).1) [
      | inl e ↦ rw e h'
      | inr (r, e) ↦ rw e (record {
        bounded = h'.bounded;
        due = (begin_poll-IsDue w.cache now r e, h'.due);
        stored = h'.stored;
      })
    ]

step-Inv : (n : ℕ) (w : World) (e : Event) → n + 1 < u64_mod → Inv n w → Inv (n + 1) (step w e)
unfolding step
step-Inv n w (enable on now) small h = Inv-Effect n w _ small (set_enabled-Effect w.cache on now) h
step-Inv n w (focused bus path now) small h =
    Inv-Effect n w _ small (focus-Effect w.cache bus path now) h
step-Inv n w (text_changed bus path) small h =
    Inv-Effect n w _ small (changed-Effect w.cache bus path) h
step-Inv n w (blurred bus path) small h = Inv-Effect n w _ small (blur-Effect w.cache bus path) h
step-Inv n w (poll now) small h = poll-Inv n w now small h
step-Inv n w (reply i good text s e now) small h = elim (Option-cases (get_elem? w.requests i)) [
  | inl missing ↦
      rw missing (record { bounded = omega (arith, h.bounded); due = h.due; stored = h.stored })
  | inr (r, found) ↦ rw found (
      answer-Inv n w r good text s e now small
        (All-get_elem? (IsDue w.cache) w.requests i r h.due found) h)
]

run-Inv :
    (n : ℕ) (w : World) (es : List Event)
    → n + length es < u64_mod
    → Inv n w
    → (m : ℕ) × Inv m (run w es)
unfolding run
run-Inv n w [] small h = (n, h)
run-Inv n w (e ∷ es) small h =
    run-Inv (n + 1) (step w e) es (omega arith) (step-Inv n w e (omega arith) h)

start-Inv : Inv 0 start_world
start-Inv = record { bounded = omega arith; due = tt; stored = refl }

read-snapshot :
    (c : TextCache) (now max_age : ℕ) (text : Bytes) (s e : ℤ)
    → read c now max_age ≡ some (text, s, e)
    → (c.snapshot_usec ≢ 0) × (text ≡ c.text)
unfolding read
read-snapshot c now max_age text s e h = ground arith

read-IsFrom :
    (w : World) (last : Option (Request × Bytes)) (now max_age : ℕ) (text : Bytes) (s e : ℤ)
    → w.last ≡ last
    → Stored w.cache last
    → read w.cache now max_age ≡ some (text, s, e)
    → (r : Request) × (w.last ≡ some (r, text)) × IsFrom w.cache r text
read-IsFrom w none now max_age text s e l h seen =
    absurd ((read-snapshot w.cache now max_age text s e seen).0 h)
read-IsFrom w (some (r, t)) now max_age text s e l (inl z) seen =
    absurd ((read-snapshot w.cache now max_age text s e seen).0 z)
read-IsFrom w (some (r, t)) now max_age text s e l (inr f) seen =
    let same : t ≡ text =
      sym f.same_text ∙ sym (read-snapshot w.cache now max_age text s e seen).1 in
    (r, l ∙ ap (λ x. some (r, x)) same, subst (IsFrom w.cache r) same f)

-- After any fewer than 2^64 events from the initial cache, in whatever order requests are made and
-- replies arrive (late, repeated or never), a text that `read` returns is the text of the last
-- accepted reply, and that reply's request was made in the current generation for the widget that
-- is focused now.
pub read_focused :
    (es : List Event) (now max_age : ℕ) (text : Bytes) (s e : ℤ)
    → length es < u64_mod
    → read (run start_world es).cache now max_age ≡ some (text, s, e)
    → (r : Request) × ((run start_world es).last ≡ some (r, text))
      × IsFrom (run start_world es).cache r text
read_focused es now max_age text s e small seen =
    let (n, h) = run-Inv 0 start_world es (omega arith) start-Inv in
    read-IsFrom (run start_world es) (run start_world es).last now max_age text s e refl h.stored
      seen
