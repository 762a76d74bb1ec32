-- ===== src/Modes/Stable.antt =====
-- When the chosen mode stays, and which modes are chosen.
use skey.Base.{
  ℕ, ◌≡◌, ◌∙◌, refl, sym, ap, subst, arith, Bool, true, List, [], ◌∷◌, if_both, if_true,
}
use skey.Modes.{
  OutputMode, Focus, Modes, Choice, invalidate_app_mode_override_cache, refresh_app_mode,
  reevaluate, effective_mode,
}

-- The calls that the addon makes while it handles a key.
pub data Call : Type 0 where
  invalidate : Call
  refresh : Focus → Call
  trigger : ℕ → Focus → Call
  query : Focus → Call

pub run_call : Bool → Call → Modes → Modes
run_call composing invalidate s = invalidate_app_mode_override_cache composing s
run_call composing (refresh f) s = refresh_app_mode f s
run_call composing (trigger activated f) s = reevaluate composing activated f s
run_call composing (query f) s = (effective_mode f s).1

pub run_calls : Bool → List Call → Modes → Modes
unfolding run_call
run_calls composing [] s = s
run_calls composing (c ∷ cs) s = run_calls composing cs (run_call composing c s)

-- The cached mode holds.
record Holds (mode : OutputMode) (s : Modes) : Type 0 where
  valid : s.mode_cache_valid ≡ true
  same : s.cached_mode ≡ mode

refresh_app_mode-Holds :
    (f : Focus) (mode : OutputMode) (s : Modes) → Holds mode s → Holds mode (refresh_app_mode f s)
unfolding refresh_app_mode
refresh_app_mode-Holds f mode s h = record {
  valid = ground (arith, h.valid, h.same);
  same = ground (arith, h.valid, h.same);
}

answer_kept :
    (f : Focus) (s : Modes) → s.mode_cache_valid ≡ true → effective_mode f s ≡ (s.cached_mode, s)
unfolding effective_mode
answer_kept f s e = if_true s.mode_cache_valid _ _ e

run_call-Holds :
    (c : Call) (mode : OutputMode) (s : Modes) → Holds mode s → Holds mode (run_call true c s)
unfolding run_call
run_call-Holds invalidate mode s h =
    unfold invalidate_app_mode_override_cache in record { valid = h.valid; same = h.same }
run_call-Holds (refresh f) mode s h = refresh_app_mode-Holds f mode s h
run_call-Holds (trigger activated f) mode s h = unfold reevaluate in h
run_call-Holds (query f) mode s h =
    subst (λ (r : Choice). Holds mode r.1) (sym (answer_kept f s h.valid)) h

answered : (f : Focus) (s : Modes) → Holds (effective_mode f s).0 (effective_mode f s).1
unfolding effective_mode
answered f s =
    if_both (λ (r : Choice). Holds r.0 r.1) s.mode_cache_valid _ _
      (λ e. record { valid = e; same = refl }) (λ _. record { valid = refl; same = refl })

run_calls-Holds :
    (cs : List Call) (mode : OutputMode) (s : Modes)
    → Holds mode s
    → Holds mode (run_calls true cs s)
unfolding run_calls
run_calls-Holds [] mode s h = h
run_calls-Holds (c ∷ cs) mode s h =
    run_calls-Holds cs mode (run_call true c s) (run_call-Holds c mode s h)

-- A mode that was once answered is answered again, whatever is asked, refreshed or invalidated between, as
-- long as a word is composed all the time.
pub composing_keeps_mode :
    (f g : Focus) (calls : List Call) (s : Modes)
    → (effective_mode g (run_calls true calls (effective_mode f s).1)).0 ≡ (effective_mode f s).0
composing_keeps_mode f g calls s =
    let h = run_calls-Holds calls (effective_mode f s).0 (effective_mode f s).1 (answered f s) in
    ap (λ (r : Choice). r.0) (answer_kept g (run_calls true calls (effective_mode f s).1) h.valid)
    ∙ h.same
