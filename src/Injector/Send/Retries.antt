-- ===== src/Injector/Send/Retries.antt =====
-- The loop that writes the events of one key comes to an end.
use skey.Base.{
  ℕ, ◌+◌, ◌*◌, ◌-◌, ◌/◌, ◌%◌, ◌≤◌, ◌≡◌, ◌≢◌, not, ◌&&◌, List, [], ◌∷◌, ltb, leb, ◌==◌, length,
  arith, if_both,
}
use skey.Injector.Send.{Write, wrote, again, broken, unfinished, send, event_size}

-- `left` events are not written yet.
send_ends_from :
    (left retries offset bytes : ℕ) (ws : List Write)
    → bytes ≡ offset + event_size * left
    → retries ≤ 20
    → 21 * left ≤ length ws + retries
    → send bytes offset retries ws ≢ unfinished
unfolding send
send_ends_from left retries offset bytes [] hb hr h = ground arith
send_ends_from left retries offset bytes (wrote n ∷ ws) hb hr h =
    if_both (λ r. r ≢ unfinished) (not (ltb offset bytes)) _ _ (λ _. ground arith)
      (λ o.
        if_both (λ r. r ≢ unfinished) (ltb 0 n && leb n (bytes - offset) && n % event_size == 0) _ _
          (λ e.
            send_ends_from (left - n / 24) 0 (offset + n) bytes ws (ground arith) (ground arith)
              (ground arith))
          (λ _. ground arith))
send_ends_from left retries offset bytes (again ∷ ws) hb hr h =
    if_both (λ r. r ≢ unfinished) (not (ltb offset bytes)) _ _ (λ _. ground arith)
      (λ o.
        if_both (λ r. r ≢ unfinished) (leb (retries + 1) 20) _ _
          (λ e. send_ends_from left (retries + 1) offset bytes ws hb (ground arith) (ground arith))
          (λ _. ground arith))
send_ends_from left retries offset bytes (broken ∷ ws) hb hr h = ground arith

-- Whatever the writes return, `send` of `count` events asks for at most `21 * count` of them: with the
-- results of that many it is done, with all events written or with one of its two errors.
pub send_ends :
    (count : ℕ) (ws : List Write)
    → 21 * count ≤ length ws
    → send (event_size * count) 0 0 ws ≢ unfinished
send_ends count ws h =
    send_ends_from count 0 0 (event_size * count) ws (ground arith) (ground arith) (ground arith)
