-- ===== src/History.antt =====
-- src/engine.cpp and engine.h: the words that the addon remembers behind their boundaries, so that a
-- later key may still change them. `utf8::length` of fcitx5 is the parameter `utf8_length`, and
-- `retroactiveEditingEnabled` is an argument.
pub mod Stack
pub mod Replay
pub mod Calls
mod Examples
use skey.Base.{
  ℕ, zero, suc, ◌+◌, Bool, true, false, not, ◌&&◌, Option, none, some, List, [], ◌∷◌, ◌++◌, leb,
  ◌==◌, if◌then◌else◌, Bytes, bytes_eq, is_empty, length, drop, ℤ, pos, negsuc,
}
use skey.Engine.{Core, VietnameseEngine, process_key, clear_committed}

pub record RetroWord : Type 0 where
  pub raw : Bytes
  pub composed : Bytes
  pub committed_len : ℤ

abbrev pub retro_history_limit : ℕ
retro_history_limit = 16

-- The history of a context; its last word is at the end of the list.
pub record WordHistory (Handle : Type 0) : Type 0 where
  pub viet : VietnameseEngine Handle
  pub committed_len : ℤ
  pub retro_history : List RetroWord
  pub reclaimed_word : Option RetroWord
  pub last_raw_input : Bytes
  pub last_composed : Bytes
  pub last_committed_len : ℤ
  pub reclaim_ready : Bool
  pub sep_already_deleted : Bool

-- back() of a deque, if there is one, and the deque behind pop_back().
pub back : List RetroWord → Option RetroWord
back [] = none
back (w ∷ []) = some w
back (w ∷ (v ∷ ws)) = back (v ∷ ws)

pub pop_back : List RetroWord → List RetroWord
pop_back [] = []
pop_back (w ∷ []) = []
pop_back (w ∷ (v ∷ ws)) = w ∷ pop_back (v ∷ ws)

pub int_eq : ℤ → ℤ → Bool
int_eq (pos m) (pos n) = m == n
int_eq (pos m) (negsuc n) = false
int_eq (negsuc m) (pos n) = false
int_eq (negsuc m) (negsuc n) = m == n

abbrev pub same_word : Option RetroWord → RetroWord → Bool
same_word none word = false
same_word (some previous) word =
    bytes_eq previous.raw word.raw
    && bytes_eq previous.composed word.composed
    && int_eq previous.committed_len word.committed_len

-- push_back, with pop_front at the limit.
pub push_bounded : RetroWord → List RetroWord → List RetroWord
push_bounded word ws = (if leb retro_history_limit (length ws) then drop 1 ws else ws) ++ word ∷ []

module _ {Handle : Type 0} where
  -- The word that is being composed becomes the last one.
  abbrev pub remembered : WordHistory Handle → WordHistory Handle
  remembered s = record s {
    last_raw_input = s.viet.raw_input;
    last_composed = s.viet.composed;
    last_committed_len = s.committed_len;
  }

  pub save_last_word : Bool → Bool → WordHistory Handle → WordHistory Handle
  unfolding push_bounded
  save_last_word retroactive committed s =
      let word : RetroWord = record {
        raw = s.viet.raw_input;
        composed = s.viet.composed;
        committed_len = s.committed_len;
      } in
      if is_empty s.viet.raw_input
      then s
      else if not (committed && retroactive && not (is_empty s.viet.composed))
      then remembered s
      else if same_word (back s.retro_history) word
      then record (remembered s) { reclaimed_word = none }
      else record (remembered s) {
        reclaimed_word = none;
        retro_history = push_bounded word s.retro_history;
      }

  pub clear_last_word : WordHistory Handle → WordHistory Handle
  clear_last_word s = record s {
    retro_history = [];
    reclaimed_word = none;
    last_raw_input = [];
    last_composed = [];
    last_committed_len = pos 0;
    reclaim_ready = false;
    sep_already_deleted = false;
  }

  -- The word that is taken back, and the history without it.
  abbrev pub taken_from :
      WordHistory Handle → Option RetroWord → Option (RetroWord × List RetroWord)
  taken_from s (some word) = some (word, pop_back s.retro_history)
  taken_from s none =
      if not (is_empty s.last_raw_input)
      then some (
        record {
          raw = s.last_raw_input;
          composed = s.last_composed;
          committed_len = s.last_committed_len;
        },
        [],
      )
      else none

  pub taken : WordHistory Handle → Option (RetroWord × List RetroWord)
  unfolding back
  taken s = taken_from s (back s.retro_history)

  abbrev pub restored : WordHistory Handle → Option RetroWord → WordHistory Handle
  restored s none = s
  restored s (some word) = record s {
    retro_history = push_bounded word s.retro_history;
    reclaimed_word = none;
  }

  pub restore_reclaimed_word : WordHistory Handle → WordHistory Handle
  unfolding push_bounded
  restore_reclaimed_word s = restored s s.reclaimed_word

-- A length that is not known is that of the composed text.
pub known_len : (Bytes → ℕ) → RetroWord → ℤ
known_len utf8_length word = elim word.committed_len [
  | pos (suc n) ↦ pos (suc n)
  | _ ↦ pos (utf8_length word.composed)
]

module _ (core : Core) where
  open core use {Handle}

  -- The loop over the saved keys.
  unfoldable pub replay : VietnameseEngine Handle → Bytes → VietnameseEngine Handle
  replay viet [] = viet
  replay viet (ch ∷ keys) = replay (process_key core viet ch).0 keys

  abbrev pub reclaimed :
      (Bytes → ℕ) → WordHistory Handle → RetroWord × List RetroWord → WordHistory Handle
  reclaimed utf8_length s (word, history) = record s {
    retro_history = history;
    reclaimed_word = some word;
    last_raw_input = word.raw;
    last_composed = word.composed;
    last_committed_len = word.committed_len;
    viet = clear_committed core (replay s.viet word.raw);
    committed_len = known_len utf8_length word;
  }

  abbrev pub reclaim_from :
      (Bytes → ℕ)
      → WordHistory Handle
      → Option (RetroWord × List RetroWord)
      → WordHistory Handle × Bool
  reclaim_from utf8_length s none = (s, false)
  reclaim_from utf8_length s (some w) = (reclaimed utf8_length s w, true)

  pub reclaim_last_word : (Bytes → ℕ) → WordHistory Handle → WordHistory Handle × Bool
  unfolding taken replay known_len
  reclaim_last_word utf8_length s = reclaim_from utf8_length s (taken s)
