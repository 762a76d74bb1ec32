-- ===== src/Native/Examples.antt =====
-- Batches of the worker for XTest at concrete inputs.
use skey.Base.{ℕ, ◌≡◌, refl, true, false, some, ltb}
use skey.Native.{
  Work, World, KeySym, left, backspace, escape_key, shift_l, complete, run_batch, look_up, after,
  not_cancelled, modifiers_safe, focus_safe, emit, tap, pause, taps, is_ready, press_shift,
  tap_escape, release_shift, release_held, release_last, send, state_of,
}
use skey.Native.Released.{is_down, batch_releases}
use skey.Native.Trace.{whole, complete_sends}

abbrev code_of : KeySym → ℕ
code_of left = 113
code_of backspace = 22
code_of escape_key = 9
code_of shift_l = 50

abbrev calm : World
calm = record {
  is_cancelled = λ n. false;
  keycode = λ n sym. code_of sym;
  modifiers = λ n. some (record { shift = false; others = false });
  focus_window = λ n. some 7;
  key = λ n code down. true;
  flush = λ n. true;
}

-- The server takes no more events after a while.
abbrev broken : World
broken = record calm { key = λ n code down. ltb n 9 }

abbrev two_backspaces : Work
two_backspaces = record {
  owner = 1;
  count = 2;
  escape = true;
  select = false;
  pace = 1000;
  expected_window = 0;
  id = 1;
}

batch_releases_example : is_down 22 (run_batch broken two_backspaces).0.events ≡ false
batch_releases_example = batch_releases broken two_backspaces 22

completes : (run_batch calm two_backspaces).1 ≡ complete
unfolding run_batch look_up after not_cancelled modifiers_safe focus_safe emit tap pause taps
    is_ready press_shift tap_escape release_shift release_held release_last send state_of
completes = refl

complete_sends_example :
    (run_batch calm two_backspaces).0.events ≡ whole two_backspaces (look_up calm two_backspaces).0
complete_sends_example = complete_sends calm two_backspaces completes
