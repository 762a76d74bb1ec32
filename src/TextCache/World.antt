-- ===== src/TextCache/World.antt =====
-- The cache under an arbitrary interleaving of the monitor, the engine and late replies.
use skey.Base.{ℕ, Bool, true, false, List, [], ◌∷◌, Option, none, some, Bytes, ℤ, get_elem?}
use skey.TextCache.{
  Request, TextCache, init, set_enabled, focus, changed, blur, begin_poll, finish_poll,
}

pub data Event : Type 0 where
  enable : Bool → ℕ → Event
  focused : Bytes → Bytes → ℕ → Event
  text_changed : Option Bytes → Option Bytes → Event
  blurred : Option Bytes → Option Bytes → Event
  poll : ℕ → Event
  -- the reply to the request with this index, which may come late, out of order or twice
  reply : ℕ → Bool → Bytes → ℤ → ℤ → ℕ → Event

-- `last` is the request and the text of the last reply that the cache accepted.
pub record World : Type 0 where
  pub cache : TextCache
  pub requests : List Request
  pub last : Option (Request × Bytes)

abbrev pub start_world : World
start_world = record { cache = init; requests = []; last = none }

abbrev enlist : Option Request → List Request → List Request
enlist none rs = rs
enlist (some r) rs = r ∷ rs

abbrev note : Bool → Request → Bytes → Option (Request × Bytes) → Option (Request × Bytes)
note true r text last = some (r, text)
note false r text last = last

abbrev pub answer : World → Option Request → Bool → Bytes → ℤ → ℤ → ℕ → World
answer w none good text s e now = w
answer w (some r) good text s e now =
    let (c, done) = finish_poll w.cache r good text s e now in
    record w { cache = c; last = note done r text w.last }

unfoldable pub step : World → Event → World
step w (enable on now) = record w { cache = (set_enabled w.cache on now).0 }
step w (focused bus path now) = record w { cache = focus w.cache bus path now }
step w (text_changed bus path) = record w { cache = changed w.cache bus path }
step w (blurred bus path) = record w { cache = blur w.cache bus path }
step w (poll now) =
    let (c, r) = begin_poll w.cache now in record w { cache = c; requests = enlist r w.requests }
step w (reply i good text s e now) = answer w (get_elem? w.requests i) good text s e now

unfoldable pub run : World → List Event → World
run w [] = w
run w (e ∷ es) = run (step w e) es
