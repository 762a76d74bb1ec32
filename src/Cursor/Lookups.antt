-- ===== src/Cursor/Lookups.antt =====
-- Lookups between edits of the texts in memory, each followed by an invalidation.
use skey.Base.{
  ℕ, Bool, true, not, ◌||◌, List, [], ◌∷◌, ◌≡◌, refl, sym, subst, ◌∙◌, ◌==◌, if◌then◌else◌, if_both,
  arith, zero, suc, ap, Bytes, length, length-append, take, All,
}
use skey.Base.Chars.{concat, IsChar, leading-inner, drop-inner}
use skey.Cursor.{SurroundingCursor, init, count_bytes, invalidate, offset, ends_with}

pub data Event : Type 0 where
  -- the text at an address becomes another one, and the cursor is told
  edited : ℕ → Bytes → Event
  -- a lookup at an address and a cursor
  looked_up : ℕ → ℕ → Event
  -- a comparison at an address and a cursor
  compared : ℕ → ℕ → Bytes → Event

pub record World : Type 0 where
  pub memory : ℕ → Bytes
  pub object : SurroundingCursor

abbrev pub start_world : World
start_world = record { memory = λ a. []; object = init }

unfoldable pub step : World → Event → World
step w (edited a text) = record w {
  memory = λ i. if i == a then text else w.memory i;
  object = invalidate w.object;
}
step w (looked_up a cursor) = record w { object = (offset w.object a (w.memory a) cursor).0 }
step w (compared a cursor expected) = record w {
  object = (ends_with w.object a (w.memory a) cursor expected).0;
}

unfoldable pub run : World → List Event → World
run w [] = w
run w (e ∷ es) = run (step w e) es

abbrev IsHonest : (ℕ → Bytes) → SurroundingCursor → Type 0
IsHonest memory c = c.valid ≡ true → c.bytes ≡ count_bytes c.cursor (memory c.data_at)

offset-IsHonest :
    (memory : ℕ → Bytes) (c : SurroundingCursor) (a cursor : ℕ)
    → IsHonest memory c
    → IsHonest memory ((offset c a (memory a) cursor).0)
unfolding offset
offset-IsHonest memory c a cursor h =
    if_both (λ (r : SurroundingCursor × ℕ). IsHonest memory (r.0)) _ _ _ (λ _ _. refl) (λ _. h)

offset-count_bytes :
    (memory : ℕ → Bytes) (c : SurroundingCursor) (a cursor : ℕ)
    → IsHonest memory c
    → (offset c a (memory a) cursor).1 ≡ count_bytes cursor (memory a)
unfolding offset
offset-count_bytes memory c a cursor h =
    if_both (λ (r : SurroundingCursor × ℕ). r.1 ≡ count_bytes cursor (memory a))
      (not c.valid
        || not (c.cursor == cursor)
        || not (c.size == length (memory a))
        || not (c.data_at == a))
      _ _ (λ _. refl)
      (λ e.
        h (ground arith)
        ∙ subst (λ i. count_bytes i (memory c.data_at) ≡ count_bytes cursor (memory a))
            (sym (ground arith))
            (subst (λ i. count_bytes cursor (memory i) ≡ count_bytes cursor (memory a))
              (sym (ground arith)) refl))

step-IsHonest :
    (w : World) (e : Event)
    → IsHonest w.memory w.object
    → IsHonest ((step w e).memory) ((step w e).object)
unfolding step invalidate ends_with
step-IsHonest w (edited a text) h = λ e. absurd (ground arith)
step-IsHonest w (looked_up a cursor) h = offset-IsHonest w.memory w.object a cursor h
step-IsHonest w (compared a cursor expected) h =
    if_both (λ (r : SurroundingCursor × Bool). IsHonest w.memory (r.0)) _ _ _ (λ _. h)
      (λ _. offset-IsHonest w.memory w.object a cursor h)

run-IsHonest :
    (w : World) (es : List Event)
    → IsHonest w.memory w.object
    → IsHonest ((run w es).memory) ((run w es).object)
unfolding run
run-IsHonest w [] h = h
run-IsHonest w (e ∷ es) h = run-IsHonest (step w e) es (step-IsHonest w e h)

-- The loop of `offset` on a text of characters.
pub count_bytes-concat :
    (n : ℕ) (cs : List Bytes)
    → All IsChar cs
    → count_bytes n (concat cs) ≡ length (concat (take n cs))
unfolding count_bytes
count_bytes-concat zero cs h = refl
count_bytes-concat (suc n) [] h = refl
count_bytes-concat (suc n) ([] ∷ cs) h = absurd (h.0)
count_bytes-concat (suc n) ((b ∷ bs) ∷ cs) h = omega (
  arith,
  leading-inner bs cs h.0.1 h.1,
  ap (count_bytes n) (drop-inner bs cs h.0.1 h.1) ∙ count_bytes-concat n cs h.1,
  length-append bs (concat (take n cs)),
)

pub offset-remembered :
    (es : List Event) (a cursor : ℕ)
    → (offset (run start_world es).object a ((run start_world es).memory a) cursor).1
      ≡ count_bytes cursor ((run start_world es).memory a)
offset-remembered es a cursor =
    offset-count_bytes (run start_world es).memory (run start_world es).object a cursor
      (run-IsHonest start_world es (λ e. absurd (ground arith)))

-- After any edits, each with its invalidation, and any lookups: if the text that is there now consists of
-- some characters of UTF-8, a lookup gives the number of bytes of the first of these characters, as many as
-- the cursor says, whether it was computed or remembered.
pub offset_exact :
    (es : List Event) (a cursor : ℕ) (chars : List Bytes)
    → All IsChar chars
    → (run start_world es).memory a ≡ concat chars
    → (offset (run start_world es).object a ((run start_world es).memory a) cursor).1
      ≡ length (concat (take cursor chars))
offset_exact es a cursor chars h e =
    offset-remembered es a cursor ∙ ap (count_bytes cursor) e ∙ count_bytes-concat cursor chars h
