-- ===== src/Injector/Examples.antt =====
-- Runs of the injector on concrete requests.
use skey.Base.{ℕ, ◌*◌, ◌≡◌, ◌≢◌, refl, arith, true, false, List, [], ◌∷◌, none, pos}
use skey.Injector.{
  Batch, Impl, init, shift_down, left, backspace, left_pause, waiting, pausing, stopped, State,
  complete, failed, cancelled, is_cancelled, resume, cancel, press, release, KeyEvent, key_left,
  key_leftshift, key_esc, key_backspace, store, next_round, finish_batch, to_backspace, to_anchor,
  to_release, to_left, behind_escape, take_batch, behind_write, behind_pause, write_failed,
  fail_pending, wake_up, start, enqueue, backspaces, shift_select, cancel_owned, others, destroy,
  shut_down, store_all, interrupted,
}
use skey.Injector.Trace.{
  Event, step, run, started, destroyed, worker, backspaces_asked, selection_asked, cancelled_by,
}
use skey.Injector.Store.{is_settled}
use skey.Injector.Tickets.{stopped-settles}
use skey.Injector.Emission.{quiet, keystrokes, batch_writes}
use skey.Injector.Selection.{shift_held, cancelled_selection_holds_shift}
use skey.Injector.Bounds.{IsBounded, queue-IsBounded}
use skey.Injector.Send.{again, unfinished, send, event_size}
use skey.Injector.Send.Retries.{send_ends}

abbrev ready : List Event → List Event
ready es = started ∷ (worker none ∷ (worker none ∷ es))

abbrev selection : Batch
selection = record {
  owner = 7;
  count = 2;
  escape = false;
  shift_select = true;
  pace = 5000;
  ticket = 0;
}

abbrev selecting : Impl
selecting =
    run init
      (ready (selection_asked 7 (pos 2) 0 ∷ (worker none ∷ (worker none ∷ (worker none ∷ [])))))

abbrev asked : Impl
asked = run init (ready (backspaces_asked 7 (pos 2) true 500 ∷ []))

abbrev deletion : Batch
deletion = record {
  owner = 7;
  count = 2;
  escape = true;
  shift_select = false;
  pace = 500;
  ticket = 0;
}

abbrev cut_short : List Event
cut_short = ready (
    backspaces_asked 7 (pos 2) true 500
    ∷ (backspaces_asked 8 (pos 3) false 0
        ∷ (worker none ∷ (destroyed ∷ (worker none ∷ (worker none ∷ []))))))

abbrev retries : List skey.Injector.Send.Write
retries =
    again
    ∷ (again
        ∷ (again
            ∷ (again
                ∷ (again
                    ∷ (again
                        ∷ (again
                            ∷ (again
                                ∷ (again
                                    ∷ (again
                                        ∷ (again
                                            ∷ (again
                                                ∷ (again
                                                    ∷ (again
                                                        ∷ (again
                                                            ∷ (again
                                                            ∷ (again
                                                            ∷ (again
                                                            ∷ (again
                                                            ∷ (again
                                                            ∷ (again ∷ []))))))))))))))))))))

-- The cancelled selection leaves the worker waiting with Shift down.
selecting_cancelled :
    shift_held ((run selecting (cancelled_by 7 ∷ (worker none ∷ []))).written) ≡ true
unfolding run step resume cancel shift_select start next_round wake_up take_batch interrupted store
    behind_escape behind_write to_left behind_pause cancel_owned to_release others finish_batch
    to_anchor
selecting_cancelled = refl

send_ends_example : send (event_size * 1) 0 0 retries ≢ unfinished
send_ends_example = send_ends 1 retries (ground arith)

queue-IsBounded_example : IsBounded ((run init cut_short).queue)
queue-IsBounded_example = queue-IsBounded cut_short

stopped-settles_example : is_settled ((run init cut_short).states 1) ≡ true
unfolding run step resume destroy backspaces start next_round wake_up take_batch interrupted store
    behind_write behind_pause behind_escape to_backspace finish_batch shut_down store_all
stopped-settles_example = stopped-settles cut_short 1 refl (ground arith)

batch_writes_example :
    (n : ℕ) × ((quiet n asked).phase ≡ waiting)
    × ((quiet n asked).queue ≡ [])
    × ((quiet n asked).written ≡ keystrokes deletion asked.written)
    × ((quiet n asked).states 0 ≡ complete)
    × ((quiet n asked).active ≡ none)
unfolding run step backspaces resume start next_round store
batch_writes_example = batch_writes asked deletion [] refl refl refl refl refl

cancelled_selection_holds_shift_example :
    let t = resume (cancel selecting 7) (cancel selecting 7).phase none in
    (t.phase ≡ waiting) × (t.written ≡ selecting.written) × (shift_held t.written ≡ true)
unfolding run step resume shift_select start next_round wake_up take_batch interrupted store
    behind_escape behind_write to_left
cancelled_selection_holds_shift_example =
    cancelled_selection_holds_shift selecting selection 0 refl refl refl refl refl
