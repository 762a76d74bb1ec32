-- ===== src/Injector/Trace.antt =====
-- The injector under an arbitrary interleaving of the worker with the calls of the engine's thread.
use skey.Base.{ℕ, Bool, List, [], ◌∷◌, Option, Bytes, ℤ}
use skey.Injector.{Impl, start, resume, backspaces, shift_select, cancel, destroy}

pub data Event : Type 0 where
  started destroyed : Event
  -- the worker goes on, with the result of the open or the write in progress
  worker : Option Bytes → Event
  -- owner, count, escape and pace
  backspaces_asked : ℕ → ℤ → Bool → ℕ → Event
  -- owner, count and pace
  selection_asked : ℕ → ℤ → ℕ → Event
  cancelled_by : ℕ → Event

unfoldable pub step : Impl → Event → Impl
step s started = start s
step s destroyed = destroy s
step s (worker r) = resume s s.phase r
step s (backspaces_asked owner count with_escape pace) =
    (backspaces s owner count with_escape pace).0
step s (selection_asked owner count pace) = (shift_select s owner count pace).0
step s (cancelled_by owner) = cancel s owner

unfoldable pub run : Impl → List Event → Impl
run s [] = s
run s (e ∷ es) = run (step s e) es
