-- ===== src/Uinput/Finish/Ending.antt =====
-- How often the callback runs until the text is committed.
use skey.Base.{
  ℕ, zero, suc, ◌≤◌, ◌≡◌, ◌∙◌, refl, sym, ap, subst, arith, Bool, true, false, not, ◌&&◌, ◌||◌,
  Option, none, some, List, [], ◌∷◌, ◌++◌, append-nil, append_assoc, ltb, ◌==◌, if◌then◌else◌,
  if_both, if_true, if_false, Bytes, ℤ, sub64, add64, length, All,
}
use skey.DeleteAck.{UinputDeleteAck, acknowledged}
use skey.Uinput.{Uinput, CommitTimer, Deferral, go_on, defer_uinput_timer}
use skey.Uinput.Finish.{
  Replacement, Answers, Action, note_settle, Finished, with_keys, again, ack_wait, end_ack,
  at_length, needs_repair, commit_settled, verify_cursor, repair_or_commit, await_ack, settle_due,
  finish_by, finish_uinput_settle,
}
use skey.Uinput.Finish.Delivery.{texts, text_list, Ends, commit_settled-Ends, keys-end_ack}

-- The event loop calls the callback only while its timer is armed.
abbrev called : Answers → Replacement → Option CommitTimer → Finished
called m r none = (r, [])
called m r (some t) = finish_uinput_settle m t.retries t.post_ms r

pub expire : Answers → Replacement → Finished
expire m r = called m r r.keys.commit_timer

unfoldable pub expire_all : List Answers → Replacement → Finished
expire_all [] r = (r, [])
expire_all (m ∷ ms) r =
    let (q, before) = expire m r in let (p, behind) = expire_all ms q in (p, before ++ behind)

-- Nothing of the replacement itself holds the commit back.
pub record IsReady (r : Replacement) : Type 0 where
  pub request : defer_uinput_timer r.keys.request ≡ go_on
  pub settles : (r.keys.settling && r.keys.deleting) ≡ true
  pub no_cycle : r.cycle_timer ≡ false
  pub no_bar_cycle : r.addr_bar_cycle_timer ≡ false
  pub no_xim : r.xim_edit_count ≡ 0
  pub not_forwarded : r.forwarded ≡ false

-- The acknowledgement is not waited for any more, no other cell is found, and nothing is repaired.
pub record IsPlain (ack : UinputDeleteAck) (m : Answers) : Type 0 where
  pub no_wait : ack_wait m ack ≡ 0
  pub same_cell : m.cell_changed ≡ false
  pub sighted : m.blind_browser ≡ false

end_ack-IsReady : (m : Answers) (r : Replacement) → IsReady r → IsReady (end_ack m r)
unfolding end_ack
end_ack-IsReady m r h =
    if_both (λ (q : Replacement). IsReady q)
      (r.keys.delete_ack.active
        && not (acknowledged r.keys.delete_ack)
        && not (m.is_wayland && m.ack_family))
      (record r { ack_unavailable = true; ack_unavailable_until = add64 m.now 15000000 }) r
      (λ _. record {
        request = h.request;
        settles = h.settles;
        no_cycle = h.no_cycle;
        no_bar_cycle = h.no_bar_cycle;
        no_xim = h.no_xim;
        not_forwarded = h.not_forwarded;
      })
      (λ _. h)

-- A note before the other actions.
noted : Replacement → Answers → Finished → Finished
noted r m f = (
  f.0,
  (if r.keys.delete_ack.active then note_settle (sub64 m.now r.keys.settle_started_at) ∷ [] else [])
      ++ f.1,
)

finish-plain :
    (m : Answers) (retries : ℕ) (post_ms : ℤ) (r : Replacement)
    → IsReady r
    → IsPlain r.keys.delete_ack m
    → finish_uinput_settle m retries post_ms r
      ≡ noted r m (verify_cursor m retries post_ms (end_ack m r))
unfolding finish_uinput_settle finish_by settle_due await_ack repair_or_commit needs_repair noted
finish-plain m retries post_ms r h p =
    let e0 : (not r.keys.settling || not r.keys.deleting) ≡ false = ground (arith, h.settles) in
    let e1 : (m.is_wayland && r.cycle_timer) ≡ false = ground (arith, h.no_cycle) in
    let e2 : ((r.forwarded || m.native_x11_channel) && (r.cycle_timer || r.addr_bar_cycle_timer))
        ≡ false =
      ground (arith, h.no_cycle, h.no_bar_cycle) in
    let e3 : ltb 0 r.xim_edit_count ≡ false = ground (arith, h.no_xim) in
    let e4 : (r.forwarded
          && not (r.forwarded_quiet_until == 0)
          && ltb m.now r.forwarded_quiet_until)
        ≡ false =
      rw (h.not_forwarded) refl in
    let e5 : not (ack_wait m r.keys.delete_ack == 0) ≡ false = ground (arith, p.no_wait) in
    let e6 : not (needs_repair m (end_ack m r)) ≡ true =
      unfold needs_repair in rw (p.sighted) refl in
    ap (λ (v : Deferral). finish_by v m retries post_ms r) h.request
    ∙ if_false _ _ _ e0
    ∙ if_false _ _ _ e1
    ∙ if_false _ _ _ e2
    ∙ if_false _ _ _ e3
    ∙ if_false _ _ _ e4
    ∙ if_false _ _ _ p.same_cell
    ∙ if_false _ _ _ e5
    ∙ ap (noted r m) (if_true _ _ _ e6)

texts-noted :
    (b : Bool) (n : ℕ) (es : List Action)
    → texts ((if b then note_settle n ∷ [] else []) ++ es) ≡ texts es
unfolding texts
texts-noted true n es = refl
texts-noted false n es = refl

expire_all-unarmed :
    (ms : List Answers) (r : Replacement) → r.keys.commit_timer ≡ none → expire_all ms r ≡ (r, [])
unfolding expire_all expire
expire_all-unarmed [] r e = refl
expire_all-unarmed (m ∷ ms) r e =
    let c : expire m r ≡ (r, []) = ap (called m r) e in
    (λ i. ((expire_all ms (c i).0).0, (c i).1 ++ (expire_all ms (c i).0).1))
    ∙ expire_all-unarmed ms r e

behind : List Answers → Finished → Finished
behind ms f = ((expire_all ms f.0).0, f.1 ++ (expire_all ms f.0).1)

-- The run that commits is the last one.
commits-Ends :
    (m : Answers) (ms : List Answers) (post_ms : ℤ) (r q : Replacement)
    → q.keys.pending_commit ≡ r.keys.pending_commit
    → Ends r.keys.pending_commit (behind ms (noted r m (commit_settled m post_ms q)))
unfolding behind noted
commits-Ends m ms post_ms r q e =
    let f = commit_settled m post_ms q in
    let ends = commit_settled-Ends m post_ms q in
    let note =
      if r.keys.delete_ack.active
      then note_settle (sub64 m.now r.keys.settle_started_at) ∷ []
      else [] in
    subst (λ (g : Finished). Ends r.keys.pending_commit (g.0, (note ++ f.1) ++ g.1))
      (sym (expire_all-unarmed ms f.0 ends.done.unarmed))
      (record {
        once =
            ap texts (append-nil (note ++ f.1))
            ∙ texts-noted r.keys.delete_ack.active _ f.1
            ∙ ends.once
            ∙ ap text_list e;
        done = ends.done;
      })

-- A run that waits leaves the text to the later ones.
waits-Ends :
    (m : Answers) (ms : List Answers) (text : Bytes) (r u : Replacement)
    → Ends text (expire_all ms u)
    → Ends text (behind ms (noted r m (u, [])))
unfolding behind noted
waits-Ends m ms text r u h = record {
  once =
      ap texts (
        append_assoc (if r.keys.delete_ack.active then note_settle _ ∷ [] else []) []
          (expire_all ms u).1)
      ∙ texts-noted r.keys.delete_ack.active _ (expire_all ms u).1
      ∙ h.once;
  done = h.done;
}

-- The timer of a replacement is armed, with so many runs to verify the cursor, and then runs more often than
-- that. If nothing of the replacement holds the commit back, and at every run the acknowledgement is not
-- waited for any more, no other cell is found and nothing is repaired, then the whole text was tried to
-- commit exactly once, or nothing was if there is no text, whatever the cursor was; and the replacement has ended.
pub settle-Ends :
    (retries : ℕ) (ms : List Answers) (r : Replacement) (t : CommitTimer)
    → r.keys.commit_timer ≡ some t
    → t.retries ≡ retries
    → IsReady r
    → All (IsPlain r.keys.delete_ack) ms
    → suc retries ≤ length ms
    → Ends r.keys.pending_commit (expire_all ms r)
unfolding expire_all expire verify_cursor with_keys again behind
settle-Ends retries [] r t a n h p l = absurd (omega (arith, l))
settle-Ends zero (m ∷ ms) r t a n h p l =
    let q = end_ack m r in
    let same : q.keys.pending_commit ≡ r.keys.pending_commit =
      ap (λ (k : Uinput). k.pending_commit) (keys-end_ack m r) in
    let c : expire m r ≡ noted r m (verify_cursor m zero t.post_ms q) =
      ap (called m r) a
      ∙ ap (λ k. finish_uinput_settle m k t.post_ms r) n
      ∙ finish-plain m zero t.post_ms r h p.0 in
    subst (λ f. Ends r.keys.pending_commit (behind ms f)) (sym c)
      (commits-Ends m ms t.post_ms r q same)
settle-Ends (suc retries) (m ∷ ms) r t a n h p l =
    let q = end_ack m r in
    let k = keys-end_ack m r in
    let same : q.keys.pending_commit ≡ r.keys.pending_commit =
      ap (λ (s : Uinput). s.pending_commit) k in
    let u = with_keys q (again (add64 m.now 2000) retries t.post_ms q.keys) in
    let i = end_ack-IsReady m r h in
    let c : expire m r ≡ noted r m (verify_cursor m (suc retries) t.post_ms q) =
      ap (called m r) a
      ∙ ap (λ j. finish_uinput_settle m j t.post_ms r) n
      ∙ finish-plain m (suc retries) t.post_ms r h p.0 in
    let later : Ends u.keys.pending_commit (expire_all ms u) =
      settle-Ends retries ms u
        (record { due = add64 m.now 2000; retries = retries; post_ms = t.post_ms }) refl refl
        (record {
          request = i.request;
          settles = i.settles;
          no_cycle = i.no_cycle;
          no_bar_cycle = i.no_bar_cycle;
          no_xim = i.no_xim;
          not_forwarded = i.not_forwarded;
        })
        (subst (λ ack. All (IsPlain ack) ms) (ap (λ (s : Uinput). s.delete_ack) (sym k)) p.1)
        (omega (arith, l)) in
    subst (λ f. Ends r.keys.pending_commit (behind ms f)) (sym c)
      (if_both (λ f. Ends r.keys.pending_commit (behind ms (noted r m f)))
        (at_length q.keys.committed_len m.surrounding) _ _
        (λ _. commits-Ends m ms t.post_ms r q same)
        (λ _.
          waits-Ends m ms r.keys.pending_commit r u
            (subst (λ text. Ends text (expire_all ms u)) same later)))
