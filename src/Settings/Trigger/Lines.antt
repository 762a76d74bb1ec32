-- ===== src/Settings/Trigger/Lines.antt =====
-- The reader sees the lines that were joined.
use skey.Base.{◌≡◌, ◌∙◌, refl, ap, arith, Bool, true, List, [], ◌∷◌, Bytes, bytes_eq, All}
use skey.Settings.Lines.{get_lines, rtrim}
use skey.Settings.Lines.Laws.{IsLine, get_lines-line, get_lines-one}
use skey.Settings.Trigger.{read_from, join_lines}

read_from-cong :
    (inside saw : Bool) (line : Bytes) (xs ys : List Bytes)
    → ((i s : Bool) → read_from i s xs ≡ read_from i s ys)
    → read_from inside saw (line ∷ xs) ≡ read_from inside saw (line ∷ ys)
unfolding read_from
read_from-cong inside saw line xs ys h = rw (h true true, h inside saw) refl

pub read_from-join_lines :
    (inside saw : Bool) (ls : List Bytes)
    → All IsLine ls
    → read_from inside saw (get_lines (join_lines ls)) ≡ read_from inside saw ls
unfolding join_lines
read_from-join_lines inside saw [] h = unfold get_lines in refl
read_from-join_lines inside saw ([] ∷ []) h =
    unfold read_from get_lines rtrim bytes_eq in ground arith
read_from-join_lines inside saw ((c ∷ l) ∷ []) h = ap (read_from inside saw) (get_lines-one c l h.0)
read_from-join_lines inside saw (l ∷ (m ∷ ls)) h =
    ap (read_from inside saw) (get_lines-line l (join_lines (m ∷ ls)) h.0)
    ∙ read_from-cong inside saw l _ _ (λ i s. read_from-join_lines i s (m ∷ ls) h.1)
