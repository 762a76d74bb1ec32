-- ===== src/Deferred/Examples.antt =====
-- Deferred commits at concrete inputs.
use skey.Base.{
  ℕ, ◌≤◌, ◌<◌, ◌≡◌, refl, true, false, some, List, Bytes, [], ◌∷◌, ◌++◌, codes, length, is_prefix,
  pos, leading, is_continuation, bytes_eq,
}
use skey.Base.Chars.{are_chars-All}
use skey.Engine.{last_char_start}
use skey.Cursor.{count_bytes, ends_at}
use skey.Deferred.{
  Deferred, idle, Moment, last_chars, missing_native_delete_chars, has_deferred_commit_pending,
  longest_shown, back_chars, surrounding_cache_ends_with,
}
use skey.Deferred.Screen.{type_words, pending_shows, all_keep, last_word}
use skey.Deferred.Firing.{fire_all, commits, deleted, deferred_commit_delivered}
use skey.Deferred.Missing.{EndsWith, last_of, missing_is_longest}

abbrev waiting : Deferred
waiting = record idle {
  text = codes "om";
  prefix = codes "c";
  native_delete_len = 2;
  deleted_tail = codes "an";
  timer = some (record { due = 5000; post_ms = pos 0 });
}

-- The application still shows one of the two characters.
abbrev lagging : Moment
lagging = record {
  now = 5000;
  cell_changed = false;
  surrounding = some (codes "can", 3);
  delivered = true;
  redelivered = false;
}

deferred_commit_delivered_example :
    ((fire_all length (lagging ∷ (lagging ∷ (lagging ∷ (lagging ∷ [])))) waiting).0 ≡ idle)
    × (commits (fire_all length (lagging ∷ (lagging ∷ (lagging ∷ (lagging ∷ [])))) waiting).1
        ≡ codes "om" ∷ [])
    × (deleted (fire_all length (lagging ∷ (lagging ∷ (lagging ∷ (lagging ∷ [])))) waiting).1 ≤ 4)
deferred_commit_delivered_example =
    deferred_commit_delivered length lagging lagging lagging lagging waiting
      (record { due = 5000; post_ms = pos 0 }) refl (unfold has_deferred_commit_pending in refl)
      ((refl, refl), ((refl, refl), ((refl, refl), ((refl, refl), tt))))

-- "d" stays on the screen and "an" waits; then a second d makes it "đan".
pending_shows_example :
    codes "d"
      ++ (type_words
          (record idle { text = codes "an"; prefix = codes "d" })
          (196 ∷ (145 ∷ codes "an"))
          []).text
    ≡ codes "d" ++ 196 ∷ (145 ∷ codes "an")
unfolding all_keep last_word is_prefix
pending_shows_example =
    pending_shows (record idle { text = codes "an"; prefix = codes "d" }) (196 ∷ (145 ∷ codes "an"))
      []

abbrev two : ℕ
two = 2

all_missing : missing_native_delete_chars length waiting (some (codes "can", 3)) ≡ some 2
unfolding missing_native_delete_chars longest_shown surrounding_cache_ends_with last_chars
    back_chars last_char_start count_bytes ends_at leading is_continuation bytes_eq
all_missing = refl

abbrev shown : List Bytes
shown = codes "c" ∷ codes "a" ∷ codes "n" ∷ []

abbrev tail : List Bytes
tail = codes "a" ∷ codes "n" ∷ []

missing_is_longest_example :
    EndsWith (codes "can") (codes "an")
    × ((k : ℕ) → two < k → k ≤ two → ¬ EndsWith (codes "can") (last_of k tail))
missing_is_longest_example =
    missing_is_longest length waiting shown tail 3 2 (are_chars-All shown refl)
      (are_chars-All tail refl) refl refl refl refl all_missing
