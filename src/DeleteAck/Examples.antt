-- ===== src/DeleteAck/Examples.antt =====
-- An acknowledged deletion, and the theorems about it.
use skey.Base.{
  ◌≡◌, ◌↔◌, refl, true, false, List, [], ◌∷◌, arith, Bytes, codes, bytes_eq, contains, leading,
  is_continuation,
}
use skey.Base.Chars.{are_chars-All}
use skey.DeleteAck.{
  UinputDeleteAck, Snapshot, init, start, arm, offset, reset, observe, observe_all, remaining,
  next_check_delay, acknowledged,
}
use skey.DeleteAck.Deadline.{wait_ends}
use skey.DeleteAck.Evidence.{Evidence, target, acknowledged_iff}

-- The word "vietj" before the caret loses its last two characters.
abbrev text : Bytes
text = codes "go vietj now"

abbrev armed : UinputDeleteAck
armed = record {
  active = true;
  ack_once = false;
  missed = false;
  cursor = 6;
  expected_anchor = 6;
  started_at = 1000;
  ack_at = 0;
  deadline_usec = 80000;
  expected = codes "go vie now";
  word = codes "vietj";
}

starts : start init text 8 8 (codes "vietj") 2 1000 80000 ≡ (armed, true)
unfolding start arm reset offset bytes_eq leading is_continuation
starts = refl

-- The text before the deletion comes back once, then the text after it.
abbrev snapshots : List Snapshot
snapshots =
    record { valid = true; text = text; cursor = 8; anchor = 8; now = 2000 }
    ∷ record { valid = true; text = codes "go vie now"; cursor = 6; anchor = 6; now = 9000 }
    ∷ []

shows_deletion : acknowledged (observe_all armed snapshots) ≡ true
unfolding observe observe_all bytes_eq contains
shows_deletion = refl

nothing_remains : remaining (observe_all armed snapshots) 17000 ≡ 0
unfolding observe observe_all bytes_eq contains remaining
nothing_remains = refl

wait_ends_example :
    (remaining (observe_all armed snapshots) 90000 ≡ 0)
    × (next_check_delay (observe_all armed snapshots) 90000 ≡ 0)
wait_ends_example =
    wait_ends init armed text 8 8 (codes "vietj") 2 1000 80000 snapshots 90000 (omega arith) starts
      (omega arith)

abbrev chars : List Bytes
chars =
    codes "g"
    ∷ codes "o"
    ∷ codes " "
    ∷ codes "v"
    ∷ codes "i"
    ∷ codes "e"
    ∷ codes "t"
    ∷ codes "j"
    ∷ codes " "
    ∷ codes "n"
    ∷ codes "o"
    ∷ codes "w"
    ∷ []

acknowledged_iff_example :
    (acknowledged (observe_all armed snapshots) ≡ true)
    ↔ Evidence (target chars 8 8 2 1000 80000) snapshots
acknowledged_iff_example =
    acknowledged_iff init armed chars 8 8 (codes "vietj") 2 1000 80000 snapshots
      (are_chars-All chars refl) (omega arith) starts
