-- ===== src/Injector/Send.antt =====
-- src/uinput_injector.cpp, `send`: the loop that writes the events of one key, with its retries.
pub mod Retries
use skey.Base.{
  ℕ, ◌+◌, ◌*◌, ◌-◌, ◌%◌, ◌≤◌, ◌≡◌, ◌≢◌, Bool, true, false, not, ◌&&◌, List, [], ◌∷◌, ltb, leb, ◌==◌,
  if◌then◌else◌, length, arith, Bool-cases, inl, inr,
}

-- sizeof(input_event) on a 64-bit kernel.
abbrev pub event_size : ℕ
event_size = 24

-- What `write` returns: a count, or -1 with an errno that asks for a retry or with another one.
pub data Write : Type 0 where
  wrote : ℕ → Write
  again broken : Write

-- `unfinished`: the loop still waits for the result of a write.
pub data Sent : Type 0 where
  sent write_error short_write unfinished : Sent

-- The loop from a byte offset and a number of retries, over the results of its writes.
pub send : ℕ → ℕ → ℕ → List Write → Sent
send bytes offset retries [] = if ltb offset bytes then unfinished else sent
send bytes offset retries (wrote n ∷ ws) =
    let rest = send bytes (offset + n) 0 ws in
    if not (ltb offset bytes)
    then sent
    else if ltb 0 n && leb n (bytes - offset) && n % event_size == 0
    then rest
    else short_write
send bytes offset retries (again ∷ ws) =
    let rest = send bytes offset (retries + 1) ws in
    if not (ltb offset bytes) then sent else if leb (retries + 1) 20 then rest else write_error
send bytes offset retries (broken ∷ ws) = if not (ltb offset bytes) then sent else write_error
