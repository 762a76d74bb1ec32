-- ===== src/Uinput/Finish/Delivery.antt =====
-- When a run of the callback commits the text of a replacement, and what else it may do.
use skey.Base.{
  ℕ, zero, suc, ◌≡◌, ◌⊎◌, ◌∙◌, refl, sym, ap, subst, arith, Bool, true, false, not, ◌&&◌, ◌||◌,
  none, List, [], ◌∷◌, ◌++◌, ltb, leb, ◌==◌, if◌then◌else◌, if_both, if_true, if_false, inl, inr,
  Bytes, is_empty, ℤ, pos, negsuc, sub64,
}
use skey.Deferred.{commit, delete_before, sleep_usec, replay_keys, post_commit_pause}
use skey.Uinput.{
  Uinput, Deferral, go_on, discard, wait, defer_uinput_timer, reset_for_cell_change,
  schedule_uinput_settle,
}
use skey.Uinput.Finish.{
  Replacement, Answers, Action, effect, note_settle, repair, Finished, with_keys, again, ack_wait,
  end_ack, shows_word, at_length, needs_repair, repairing, cleared, counted, delivered_text, replay,
  commit_settled, verify_cursor, repair_or_commit, await_ack, schedule_again, settle_due, finish_by,
  finish_uinput_settle, reset_replacement,
}

-- The texts that are committed.
unfoldable pub texts : List Action → List Bytes
texts [] = []
texts (effect (commit text) ∷ es) = text ∷ texts es
texts (effect delete_before ∷ es) = texts es
texts (effect (sleep_usec n) ∷ es) = texts es
texts (effect replay_keys ∷ es) = texts es
texts (note_settle n ∷ es) = texts es
texts (repair word ∷ es) = texts es

abbrev pub text_list : Bytes → List Bytes
text_list text = if is_empty text then [] else text ∷ []

quiet_replay : (m : Answers) (post_ms : ℤ) (r : Replacement) → texts (replay m post_ms r).1 ≡ []
unfolding replay texts post_commit_pause
quiet_replay m (pos zero) r =
    if_both (λ (f : Finished). texts f.1 ≡ []) m.ordered_replay _ _ (λ _. refl) (λ _. refl)
quiet_replay m (pos (suc n)) r =
    if_both (λ (f : Finished). texts f.1 ≡ []) m.ordered_replay _ _ (λ _. refl) (λ _. refl)
quiet_replay m (negsuc n) r =
    if_both (λ (f : Finished). texts f.1 ≡ []) m.ordered_replay _ _ (λ _. refl) (λ _. refl)

-- A replay keeps the members that say that the replacement has ended.
pub record Done (r : Replacement) : Type 0 where
  pub pending : r.keys.pending_commit ≡ []
  pub deleting : r.keys.deleting ≡ false
  pub settling : r.keys.settling ≡ false
  pub unarmed : r.keys.commit_timer ≡ none

replay-Done : (m : Answers) (post_ms : ℤ) (r : Replacement) → Done r → Done (replay m post_ms r).0
unfolding replay with_keys
replay-Done m post_ms r h =
    if_both (λ (f : Finished). Done f.0) m.ordered_replay _ _
      (λ _. record {
        pending = h.pending;
        deleting = h.deleting;
        settling = h.settling;
        unarmed = h.unarmed;
      })
      (λ _. h)

-- The run ends the replacement with its text, or it goes on with the text or has discarded it, and commits
-- nothing.
pub record Ends (text : Bytes) (f : Finished) : Type 0 where
  pub once : texts f.1 ≡ text_list text
  pub done : Done f.0

pub record Waits (text : Bytes) (f : Finished) : Type 0 where
  pub silent : texts f.1 ≡ []
  pub keeps : (f.0.keys.pending_commit ≡ text) ⊎ (f.0.keys.pending_commit ≡ [])

pub commit_settled-Ends :
    (m : Answers) (post_ms : ℤ) (r : Replacement)
    → Ends r.keys.pending_commit (commit_settled m post_ms r)
unfolding commit_settled cleared counted delivered_text with_keys texts
commit_settled-Ends m post_ms r =
    let text = r.keys.pending_commit in
    if_both (λ f. Ends text f) (is_empty text) _ _
      (λ e. record {
        once = quiet_replay m post_ms _ ∙ sym (if_true (is_empty text) [] (text ∷ []) e);
        done =
            replay-Done m post_ms _
              (record { pending = refl; deleting = refl; settling = refl; unarmed = refl });
      })
      (λ e.
        if_both (λ f. Ends text f) m.delivered _ _
          (λ _. record {
            once =
                ap (λ l. text ∷ l) (quiet_replay m post_ms _)
                ∙ sym (if_false (is_empty text) [] (text ∷ []) e);
            done =
                replay-Done m post_ms _
                  (record { pending = refl; deleting = refl; settling = refl; unarmed = refl });
          })
          (λ _. record {
            once = sym (if_false (is_empty text) [] (text ∷ []) e);
            done = record { pending = refl; deleting = refl; settling = refl; unarmed = refl };
          }))

verify_cursor-Ends :
    (m : Answers) (retries : ℕ) (post_ms : ℤ) (r : Replacement)
    → Ends r.keys.pending_commit (verify_cursor m retries post_ms r)
      ⊎ Waits r.keys.pending_commit (verify_cursor m retries post_ms r)
unfolding verify_cursor with_keys again texts
verify_cursor-Ends m zero post_ms r = inl (commit_settled-Ends m post_ms r)
verify_cursor-Ends m (suc retries) post_ms r =
    if_both (λ f. Ends r.keys.pending_commit f ⊎ Waits r.keys.pending_commit f)
      (at_length r.keys.committed_len m.surrounding) _ _
      (λ _. inl (commit_settled-Ends m post_ms r))
      (λ _. inr (record { silent = refl; keeps = inl refl }))

-- An end of the replacement only once nothing waits for the acknowledgement any more.
Outcome : Answers → Replacement → Bytes → Finished → Type 0
Outcome m r text f =
    (Ends text f × (ack_wait m r.keys.delete_ack ≡ 0) × (m.cell_changed ≡ false)) ⊎ Waits text f

repair_or_commit-Ends :
    (m : Answers) (retries : ℕ) (post_ms : ℤ) (r : Replacement)
    → Ends r.keys.pending_commit (repair_or_commit m retries post_ms r)
      ⊎ Waits r.keys.pending_commit (repair_or_commit m retries post_ms r)
unfolding repair_or_commit repairing with_keys texts
repair_or_commit-Ends m retries post_ms r =
    let text = r.keys.pending_commit in
    if_both (λ f. Ends text f ⊎ Waits text f) (not (needs_repair m r)) _ _
      (λ _. verify_cursor-Ends m retries post_ms r)
      (λ _.
        if_both (λ f. Ends text f ⊎ Waits text f) (not (shows_word r.deleted_word m.surrounding)) _
          _ (λ _. verify_cursor-Ends m retries post_ms _)
          (λ _.
            if_both (λ f. Ends text f ⊎ Waits text f) m.sent _ _
              (λ _. inr (record { silent = refl; keeps = inl refl }))
              (λ _. verify_cursor-Ends m retries post_ms _)))

pub keys-end_ack : (m : Answers) (r : Replacement) → (end_ack m r).keys ≡ r.keys
unfolding end_ack
keys-end_ack m r = if_both (λ (q : Replacement). q.keys ≡ r.keys) _ _ _ (λ _. refl) (λ _. refl)

reset-Waits : (now : ℕ) (text : Bytes) (r : Replacement) → Waits text (reset_replacement now r, [])
unfolding reset_replacement with_keys reset_for_cell_change texts
reset-Waits now text r = record { silent = refl; keeps = inr refl }

-- A note before the other actions commits nothing.
pub noted-Ends :
    (b : Bool) (n : ℕ) (text : Bytes) (f : Finished)
    → Ends text f ⊎ Waits text f
    → Ends text (f.0, (if b then note_settle n ∷ [] else []) ++ f.1)
      ⊎ Waits text (f.0, (if b then note_settle n ∷ [] else []) ++ f.1)
unfolding texts
noted-Ends true n text f (inl h) = inl (record { once = h.once; done = h.done })
noted-Ends true n text f (inr h) = inr (record { silent = h.silent; keeps = h.keeps })
noted-Ends false n text f h = h

await_ack-Outcome :
    (m : Answers) (retries : ℕ) (post_ms : ℤ) (r : Replacement)
    → Outcome m r r.keys.pending_commit (await_ack m retries post_ms r)
unfolding await_ack again with_keys texts Outcome
await_ack-Outcome m retries post_ms r =
    let text = r.keys.pending_commit in
    let s = end_ack m r in
    let same : s.keys.pending_commit ≡ text =
      ap (λ (k : Uinput). k.pending_commit) (keys-end_ack m r) in
    if_both (λ f. Outcome m r text f) m.cell_changed _ _ (λ _. inr (reset-Waits m.now text r))
      (λ c.
        if_both (λ f. Outcome m r text f) (not (ack_wait m r.keys.delete_ack == 0)) _ _
          (λ _. inr (record { silent = refl; keeps = inl refl }))
          (λ w. due c (ground (arith, w)) (
            noted-Ends r.keys.delete_ack.active (sub64 m.now r.keys.settle_started_at) text _ (
              subst
                (λ t.
                  Ends t (repair_or_commit m retries post_ms s)
                  ⊎ Waits t (repair_or_commit m retries post_ms s))
                same (repair_or_commit-Ends m retries post_ms s)))))
  where
    due :
        {f : Finished}
        → m.cell_changed ≡ false
        → ack_wait m r.keys.delete_ack ≡ 0
        → Ends r.keys.pending_commit f ⊎ Waits r.keys.pending_commit f
        → (Ends r.keys.pending_commit f
            × (ack_wait m r.keys.delete_ack ≡ 0)
            × (m.cell_changed ≡ false))
          ⊎ Waits r.keys.pending_commit f
    due c w (inl h) = inl (h, w, c)
    due c w (inr h) = inr h

-- An end of the replacement only while it settles.
DueOutcome : Answers → Replacement → Finished → Type 0
DueOutcome m r f =
    (Outcome m r r.keys.pending_commit f × ((r.keys.settling && r.keys.deleting) ≡ true))
    ⊎ Waits r.keys.pending_commit f

schedule_again-Waits :
    (m : Answers) (delay retries : ℕ) (post_ms : ℤ) (r : Replacement)
    → Waits r.keys.pending_commit (schedule_again m delay retries post_ms r)
unfolding schedule_again with_keys schedule_uinput_settle texts
schedule_again-Waits m delay retries post_ms r = record { silent = refl; keeps = inl refl }

kept-Waits : (r : Replacement) → Waits r.keys.pending_commit (r, [])
unfolding texts
kept-Waits r = record { silent = refl; keeps = inl refl }

settle_due-DueOutcome :
    (m : Answers) (retries : ℕ) (post_ms : ℤ) (r : Replacement)
    → DueOutcome m r (settle_due m retries post_ms r)
unfolding settle_due DueOutcome
settle_due-DueOutcome m retries post_ms r =
    let text = r.keys.pending_commit in
    if_both (λ f. DueOutcome m r f) (not r.keys.settling || not r.keys.deleting) _ _
      (λ _. inr (kept-Waits r))
      (λ on.
        if_both (λ f. DueOutcome m r f) (m.is_wayland && r.cycle_timer) _ _
          (λ _. inr (schedule_again-Waits m 2000 retries post_ms r))
          (λ _.
            if_both (λ f. DueOutcome m r f)
              ((r.forwarded || m.native_x11_channel) && (r.cycle_timer || r.addr_bar_cycle_timer)) _
              _
              (λ _.
                if_both (λ f. DueOutcome m r f) (leb 5 r.forwarded_focus_retries) _ _
                  (λ _. inr (record {
                    silent = (reset-Waits m.now text r).silent;
                    keeps = (reset-Waits m.now text r).keeps;
                  }))
                  (λ _. inr (schedule_again-Waits m 2000 retries post_ms _)))
              (λ _.
                if_both (λ f. DueOutcome m r f) (ltb 0 r.xim_edit_count) _ _
                  (λ _. inr (kept-Waits r))
                  (λ _.
                    if_both (λ f. DueOutcome m r f)
                      (r.forwarded
                        && not (r.forwarded_quiet_until == 0)
                        && ltb m.now r.forwarded_quiet_until)
                      _ _ (λ _. inr (schedule_again-Waits m _ retries post_ms r))
                      (λ _. inl (await_ack-Outcome m retries post_ms r, ground (arith, on)))))))

finish_by-DueOutcome :
    (v : Deferral) (m : Answers) (retries : ℕ) (post_ms : ℤ) (r : Replacement)
    → ((v ≡ go_on) × DueOutcome m r (finish_by v m retries post_ms r))
      ⊎ Waits r.keys.pending_commit (finish_by v m retries post_ms r)
unfolding finish_by with_keys again texts
finish_by-DueOutcome go_on m retries post_ms r =
    inl (refl, settle_due-DueOutcome m retries post_ms r)
finish_by-DueOutcome wait m retries post_ms r = inr (record { silent = refl; keeps = inl refl })
finish_by-DueOutcome discard m retries post_ms r = inr (reset-Waits m.now r.keys.pending_commit r)

-- Each run of the callback either commits nothing, and keeps the text that waits or has discarded it; or it
-- ends the replacement with exactly one attempt to commit the whole text, or none if there is no text. It
-- ends it only when the request is done, the replacement settles, no other cell is found, and the
-- acknowledgement of the deletions is not waited for any more.
pub commit_is_due :
    (m : Answers) (retries : ℕ) (post_ms : ℤ) (r : Replacement)
    → ((texts (finish_uinput_settle m retries post_ms r).1 ≡ [])
        × (((finish_uinput_settle m retries post_ms r).0.keys.pending_commit
              ≡ r.keys.pending_commit)
            ⊎ ((finish_uinput_settle m retries post_ms r).0.keys.pending_commit ≡ [])))
      ⊎ ((texts (finish_uinput_settle m retries post_ms r).1 ≡ text_list r.keys.pending_commit)
          × ((finish_uinput_settle m retries post_ms r).0.keys.pending_commit ≡ [])
          × ((finish_uinput_settle m retries post_ms r).0.keys.deleting ≡ false)
          × ((finish_uinput_settle m retries post_ms r).0.keys.settling ≡ false)
          × (defer_uinput_timer r.keys.request ≡ go_on)
          × ((r.keys.settling && r.keys.deleting) ≡ true)
          × (m.cell_changed ≡ false)
          × (ack_wait m r.keys.delete_ack ≡ 0))
unfolding finish_uinput_settle DueOutcome Outcome
commit_is_due m retries post_ms r =
    elim (finish_by-DueOutcome (defer_uinput_timer r.keys.request) m retries post_ms r) [
      | inr h ↦ inl (h.silent, h.keeps)
      | inl (e, inr h) ↦ inl (h.silent, h.keeps)
      | inl (e, inl (inr h, on)) ↦ inl (h.silent, h.keeps)
      | inl (e, inl (inl (h, w, c), on)) ↦
          inr (h.once, h.done.pending, h.done.deleting, h.done.settling, e, on, c, w)
    ]
