-- ===== src/Uinput/Queue.antt =====
-- Which keys wait in the queue while something is under way.
use skey.Base.{
  ℕ, ◌<◌, ◌≡◌, refl, sym, ap, ◌∙◌, arith, Bool, true, false, not, ◌&&◌, ◌||◌, List, [], ◌∷◌, ◌++◌,
  append_assoc, append-nil, ltb, if◌then◌else◌, Bool-cases, inl, inr,
}
use skey.Uinput.{
  Key, KeyKind, backspace, left, escape, modified_escape, shift, other, is_left, is_shift, Uinput,
  queue_key, queue_waiting, is_awaiting_anchor, has_queue, is_backspace, is_plain_escape,
}
use skey.Uinput.Tracking.{tracked}

-- The state behind so many keys, none of which finds another cell, and those that were not queued.
unfoldable pub queue_all : Bool → Bool → ℕ → List Key → Uinput → Uinput × List Key
queue_all ordered deferred now [] s = (s, [])
queue_all ordered deferred now (key ∷ keys) s =
    let r = queue_key ordered deferred false now key s in
    let (t, rest) = queue_all ordered deferred now keys r.0 in (t, if r.1 then rest else key ∷ rest)

abbrev is_awaited : Uinput → Key → Bool
is_awaited s key =
    is_backspace key.kind
    || tracked s.shift_select key
    || (is_plain_escape key.kind || (s.shift_select && is_shift key.kind))

-- The keys that a replacement may have injected itself, and the others, each in their order.
unfoldable pub awaited : Uinput → List Key → List Key
awaited s [] = []
awaited s (key ∷ keys) = if is_awaited s key then key ∷ awaited s keys else awaited s keys

unfoldable pub others : Uinput → List Key → List Key
others s [] = []
others s (key ∷ keys) = if is_awaited s key then others s keys else key ∷ others s keys

same_kinds :
    (select : Bool) (kind : KeyKind)
    → (is_backspace kind || is_plain_escape kind || (select && (is_left kind || is_shift kind))) ≡ (
        is_backspace kind
        || (if select then is_left kind else is_backspace kind)
        || (is_plain_escape kind || (select && is_shift kind)))
same_kinds true backspace = refl
same_kinds true left = refl
same_kinds true escape = refl
same_kinds true modified_escape = refl
same_kinds true shift = refl
same_kinds true other = refl
same_kinds false backspace = refl
same_kinds false left = refl
same_kinds false escape = refl
same_kinds false modified_escape = refl
same_kinds false shift = refl
same_kinds false other = refl

is_awaiting_anchor-busy :
    (key : Key) (s : Uinput)
    → s.deleting ≡ true
    → s.settling ≡ false
    → 0 < s.expected
    → is_awaiting_anchor key s ≡ is_awaited s key
unfolding is_awaiting_anchor
is_awaiting_anchor-busy key s h n p =
    true_and s.deleting (not s.settling) (ltb 0 s.expected) _ h (ground (arith, n))
      (ground (arith, p))
    ∙ same_kinds s.shift_select key.kind
  where
    true_and : (a b c d : Bool) → a ≡ true → b ≡ true → c ≡ true → (a && b && c && d) ≡ d
    true_and a b c d e f g = rw (e, f, g) refl

has_queue-ordered :
    (deferred : Bool) (s : Uinput) → s.deleting ≡ true → has_queue true deferred s ≡ true
unfolding has_queue
has_queue-ordered deferred s h = ground (arith, h)

abbrev queued : Uinput → Key → Uinput
queued s key = record s { settled_keys = s.settled_keys ++ key ∷ [] }

queue_waiting-same_cell :
    (deferred : Bool) (now : ℕ) (key : Key) (s : Uinput)
    → s.deleting ≡ true
    → queue_waiting true deferred false now key s ≡ (queued s key, true)
unfolding queue_waiting
queue_waiting-same_cell deferred now key s h = elim (Bool-cases key.is_release) [
  | inl e ↦ rw (e, h) refl
  | inr e ↦ rw (e, h) refl
]

queue_key-busy :
    (deferred : Bool) (now : ℕ) (key : Key) (s : Uinput)
    → s.deleting ≡ true
    → s.settling ≡ false
    → 0 < s.expected
    → s.replaying_settled_keys ≡ false
    → queue_key true deferred false now key s
      ≡ (if is_awaited s key then (s, false) else (queued s key, true))
unfolding queue_key
queue_key-busy deferred now key s h n p r =
    let a = is_awaiting_anchor-busy key s h n p in
    let q = has_queue-ordered deferred s h in
    let w = queue_waiting-same_cell deferred now key s h in
    at_flags s.replaying_settled_keys (is_awaiting_anchor key s) (is_awaited s key)
      (has_queue true deferred s) _ r a q w
  where
    at_flags :
        (x y z u : Bool) (v : Uinput × Bool)
        → x ≡ false
        → y ≡ z
        → u ≡ true
        → v ≡ (queued s key, true)
        → (if not x && not y && u then v else (s, false))
          ≡ (if z then (s, false) else (queued s key, true))
    at_flags x y true u v e f g k = rw (e, f) refl
    at_flags x y false u v e f g k = rw (e, f, g) k

-- The two lists depend on the kind of replacement alone.
others-queued :
    (s : Uinput) (waiting keys : List Key)
    → others (record s { settled_keys = waiting }) keys ≡ others s keys
unfolding others
others-queued s waiting [] = refl
others-queued s waiting (key ∷ keys) = rw (others-queued s waiting keys) refl

awaited-queued :
    (s : Uinput) (waiting keys : List Key)
    → awaited (record s { settled_keys = waiting }) keys ≡ awaited s keys
unfolding awaited
awaited-queued s waiting [] = refl
awaited-queued s waiting (key ∷ keys) = rw (awaited-queued s waiting keys) refl

-- The rest of the keys, behind one.
next : Bool → ℕ → Key → List Key → Uinput × Bool → Uinput × List Key
next deferred now key keys r =
    let (t, rest) = queue_all true deferred now keys r.0 in (t, if r.1 then rest else key ∷ rest)

-- While a replacement expects deletions or their anchor, replays are ordered, nothing is replayed and no key
-- finds another cell: every key that the replacement may have injected itself, a Backspace or an Escape
-- without modifiers or in a selection a Left or a Shift, goes on to it and is never caught in the queue, and
-- all the others are queued behind those that wait already; both keep their order.
pub busy_queue_exact :
    (deferred : Bool) (now : ℕ) (keys : List Key) (s : Uinput)
    → s.deleting ≡ true
    → s.settling ≡ false
    → 0 < s.expected
    → s.replaying_settled_keys ≡ false
    → queue_all true deferred now keys s
      ≡ (record s { settled_keys = s.settled_keys ++ others s keys }, awaited s keys)
unfolding queue_all awaited others next
busy_queue_exact deferred now [] s h n p r =
    ap (λ l. (record s { settled_keys = l }, [])) (sym (append-nil s.settled_keys))
busy_queue_exact deferred now (key ∷ keys) s h n p r =
    let pass = busy_queue_exact deferred now keys s h n p r in
    let queue = busy_queue_exact deferred now keys (queued s key) h n p r in
    ap (next deferred now key keys) (queue_key-busy deferred now key s h n p r)
    ∙ at_awaited (is_awaited s key) pass queue
  where
    at_awaited :
        (b : Bool)
        → queue_all true deferred now keys s
          ≡ (record s { settled_keys = s.settled_keys ++ others s keys }, awaited s keys)
        → queue_all true deferred now keys (queued s key) ≡ (
          record s { settled_keys = (s.settled_keys ++ key ∷ []) ++ others (queued s key) keys },
          awaited (queued s key) keys,
        )
        → next deferred now key keys (if b then (s, false) else (queued s key, true)) ≡ (
          record s {
            settled_keys = s.settled_keys ++ (if b then others s keys else key ∷ others s keys);
          },
          if b then key ∷ awaited s keys else awaited s keys,
        )
    at_awaited true pass queue = λ i. ((pass i).0, key ∷ (pass i).1)
    at_awaited false pass queue = queue ∙ (λ i. (
      record s {
        settled_keys =
            append_assoc s.settled_keys (key ∷ [])
              (others-queued s (s.settled_keys ++ key ∷ []) keys i) i;
      },
      awaited-queued s (s.settled_keys ++ key ∷ []) keys i,
    ))
