-- ===== src/Settings/Trigger/RoundTrip.antt =====
-- The trigger key that is written is the one that is read.
use skey.Base.{
  ◌≡◌, ◌⊎◌, ◌∙◌, refl, ap, subst, arith, Bool, true, false, not, ◌||◌, Option, none, some, List, [],
  ◌∷◌, ◌++◌, append-nil, ◌==◌, if◌then◌else◌, if_both, Bool-cases, inl, inr, Bytes, bytes_eq, codes,
  is_empty, All,
}
use skey.Settings.Lines.{get_lines, rtrim, first_is, cut}
use skey.Settings.Lines.Laws.{
  IsLine, EndsSolid, EndsSolid-append, All-append, rtrim-solid, get_lines-IsLine, get_lines-line,
  cut-append, Lacks-of_test,
}
use skey.Settings.Trigger.{
  section, default_key, value_of, or_rest, at_end, read_from, read_trigger_key, key_line,
  is_key_line, edit_from, join_lines, write_trigger_key,
}
use skey.Settings.Trigger.Lines.{read_from-join_lines}

-- A key that its line gives back.
abbrev pub IsTrigger : Bytes → Type 0
IsTrigger k = IsLine k × EndsSolid k

abbrev pub has_section : List Bytes → Bool
has_section [] = false
has_section (l ∷ ls) = bytes_eq (rtrim l) section || has_section ls

read_key_line :
    (saw : Bool) (k : Bytes) (rest : List Bytes)
    → IsTrigger k
    → read_from true saw ((codes "0=" ++ k) ∷ rest) ≡ k
unfolding read_from bytes_eq rtrim
read_key_line saw k rest h =
    rw
      (
        rtrim-solid (codes "0=" ++ k) (EndsSolid-append (codes "0=") k h.1),
        cut-append b'=' (codes "0") k (Lacks-of_test b'=' (codes "0") refl),
        rtrim-solid k h.1,
      )
      refl

value_of-is_key_line :
    (o : Option (Bytes × Bytes)) (rest : Bytes)
    → is_key_line o ≡ false
    → or_rest (value_of o) rest ≡ rest
value_of-is_key_line none rest h = refl
value_of-is_key_line (some (k, v)) rest h = rw (h) refl

-- What the reader does at a line, by the tests that the writer makes too.
module _ (saw : Bool) (l : Bytes) (ls : List Bytes) where
  read_section :
      (inside : Bool)
      → bytes_eq (rtrim l) section ≡ true
      → read_from inside saw (l ∷ ls) ≡ read_from true true ls
  unfolding read_from
  read_section inside e = rw (e) refl

  read_outside :
      bytes_eq (rtrim l) section ≡ false → read_from false saw (l ∷ ls) ≡ read_from false saw ls
  unfolding read_from
  read_outside e = rw (e) refl

  read_leaving :
      bytes_eq (rtrim l) section ≡ false
      → first_is b'[' (rtrim l) ≡ true
      → read_from true saw (l ∷ ls) ≡ at_end saw
  unfolding read_from
  read_leaving e f = at (rtrim l) e f
    where
      at :
          (t : Bytes)
          → bytes_eq t section ≡ false
          → first_is b'[' t ≡ true
          → (if bytes_eq t section
              then read_from true true ls
              else if not true || is_empty t
              then read_from true saw ls
              else if first_is b'[' t
              then at_end saw
              else or_rest (value_of (cut b'=' t)) (read_from true saw ls))
            ≡ at_end saw
      at [] e f = absurd (ground arith)
      at (c ∷ t) e f = rw (e, f) refl

  read_past :
      bytes_eq (rtrim l) section ≡ false
      → first_is b'[' (rtrim l) ≡ false
      → is_key_line (cut b'=' (rtrim l)) ≡ false
      → read_from true saw (l ∷ ls) ≡ read_from true saw ls
  unfolding read_from
  read_past e f g = rw (e) (
      if_both (λ r. r ≡ read_from true saw ls) (is_empty (rtrim l)) _ _ (λ _. refl)
        (λ _. rw (f) (value_of-is_key_line (cut b'=' (rtrim l)) (read_from true saw ls) g)))

module _ (k : Bytes) (fits : IsTrigger k) (bound : is_empty k ≡ false) where
  read_key_lines : (saw : Bool) (rest : List Bytes) → read_from true saw (key_line k ++ rest) ≡ k
  read_key_lines saw rest = rw (bound) (read_key_line saw k rest fits)

  inside_section : (ls : List Bytes) → read_from true true (edit_from k true false ls) ≡ k
  unfolding edit_from
  inside_section [] =
      subst (λ r. read_from true true r ≡ k) (append-nil (key_line k)) (read_key_lines true [])
  inside_section (l ∷ ls) =
      if_both (λ r. read_from true true r ≡ k) (bytes_eq (rtrim l) section) _ _
        (λ e. read_section true l (edit_from k true false ls) true e ∙ inside_section ls)
        (λ e.
          if_both (λ r. read_from true true r ≡ k) (first_is b'[' (rtrim l)) _ _
            (λ f. read_key_lines true (l ∷ edit_from k false (false || not (is_empty k)) ls))
            (λ f.
              if_both (λ r. read_from true true r ≡ k) (is_key_line (cut b'=' (rtrim l))) _ _
                (λ g. read_key_lines true (edit_from k true true ls))
                (λ g. read_past true l (edit_from k true false ls) e f g ∙ inside_section ls)))

  bound_read : (ls : List Bytes) → read_from false false (edit_from k false false ls) ≡ k
  unfolding edit_from
  bound_read [] = rw (bound) (unfold read_from rtrim bytes_eq in read_key_line true k [] fits)
  bound_read (l ∷ ls) =
      if_both (λ r. read_from false false r ≡ k) (bytes_eq (rtrim l) section) _ _
        (λ e. read_section false l (edit_from k true false ls) false e ∙ inside_section ls)
        (λ e. read_outside false l (edit_from k false false ls) e ∙ bound_read ls)

unbound_inside :
    (wrote : Bool) (ls : List Bytes) → read_from true true (edit_from [] true wrote ls) ≡ []
unfolding edit_from
unbound_inside wrote [] =
    if_both (λ r. read_from true true r ≡ []) wrote _ _ (λ _. unfold read_from in refl)
      (λ _. unfold read_from in refl)
unbound_inside wrote (l ∷ ls) =
    if_both (λ r. read_from true true r ≡ []) (bytes_eq (rtrim l) section) _ _
      (λ e. read_section true l (edit_from [] true wrote ls) true e ∙ unbound_inside wrote ls)
      (λ e.
        if_both (λ r. read_from true true r ≡ []) (first_is b'[' (rtrim l)) _ _
          (λ f.
            if_both (λ r. read_from true true r ≡ []) wrote _ _
              (λ _. read_leaving true l (edit_from [] false (wrote || false) ls) e f)
              (λ _. read_leaving true l (edit_from [] false (wrote || false) ls) e f))
          (λ f.
            if_both (λ r. read_from true true r ≡ []) (is_key_line (cut b'=' (rtrim l))) _ _
              (λ g. unbound_inside true ls)
              (λ g. read_past true l (edit_from [] true wrote ls) e f g ∙ unbound_inside wrote ls)))

unbound_read :
    (ls : List Bytes)
    → read_from false false (edit_from [] false false ls)
      ≡ (if has_section ls then [] else default_key)
unfolding edit_from
unbound_read [] = unfold read_from in refl
unbound_read (l ∷ ls) = elim (Bool-cases (bytes_eq (rtrim l) section)) [
  | inl e ↦
      rw (e) (read_section false l (edit_from [] true false ls) false e ∙ unbound_inside false ls)
  | inr e ↦ rw (e) (read_outside false l (edit_from [] false false ls) e ∙ unbound_read ls)
]

key_line-IsLine : (k : Bytes) → IsLine k → All IsLine (key_line k)
key_line-IsLine [] h = tt
key_line-IsLine (c ∷ k) h = (
  All-append (λ c. (c == b'\n') ≡ false) (codes "0=") (c ∷ k)
      (Lacks-of_test b'\n' (codes "0=") refl) h,
  tt,
)

key_line-append :
    (k : Bytes) (ls : List Bytes) → IsLine k → All IsLine ls → All IsLine (key_line k ++ ls)
key_line-append [] ls h a = a
key_line-append (c ∷ k) ls h a = ((key_line-IsLine (c ∷ k) h).0, a)

edit_from-IsLine :
    (k : Bytes) (inside wrote : Bool) (ls : List Bytes)
    → IsLine k
    → All IsLine ls
    → All IsLine (edit_from k inside wrote ls)
unfolding edit_from
edit_from-IsLine k inside wrote [] hk h =
    if_both (All IsLine) wrote _ _ (λ _. tt)
      (λ _.
        if_both (All IsLine) inside _ _ (λ _. key_line-IsLine k hk)
          (λ _.
            if_both (All IsLine) (is_empty k) _ _ (λ _. tt)
              (λ _. (tt, (Lacks-of_test b'\n' section refl, key_line-IsLine k hk)))))
edit_from-IsLine k inside wrote (l ∷ ls) hk h =
    let rest = λ (i w : Bool). edit_from-IsLine k i w ls hk h.1 in
    if_both (All IsLine) (bytes_eq (rtrim l) section) _ _ (λ _. (h.0, rest true wrote))
      (λ _.
        if_both (All IsLine) (not inside) _ _ (λ _. (h.0, rest inside wrote))
          (λ _.
            if_both (All IsLine) (first_is b'[' (rtrim l)) _ _
              (λ _.
                if_both (All IsLine) wrote _ _ (λ _. (h.0, rest false (wrote || not (is_empty k))))
                  (λ _.
                    key_line-append k (l ∷ edit_from k false (wrote || not (is_empty k)) ls) hk
                      (h.0, rest false (wrote || not (is_empty k)))))
              (λ _.
                if_both (All IsLine) (is_key_line (cut b'=' (rtrim l))) _ _
                  (λ _. key_line-append k (edit_from k true true ls) hk (rest true true))
                  (λ _. (h.0, rest inside wrote)))))

-- The lines of a file, none if it is not there.
abbrev pub lines_of : Option Bytes → List Bytes
lines_of none = []
lines_of (some file) = get_lines file

read_edited :
    (k file : Bytes)
    → IsLine k
    → read_trigger_key (some (join_lines (edit_from k false false (get_lines file))))
      ≡ read_from false false (edit_from k false false (get_lines file))
unfolding read_trigger_key
read_edited k file h =
    read_from-join_lines false false (edit_from k false false (get_lines file))
      (edit_from-IsLine k false false (get_lines file) h (get_lines-IsLine file))

new_file :
    (k : Bytes)
    → IsTrigger k
    → read_trigger_key (some (section ++ b'\n' ∷ (codes "0=" ++ (k ++ b'\n' ∷ [])))) ≡ k
unfolding read_trigger_key
new_file k h =
    ap (read_from false false) (
      get_lines-line section (codes "0=" ++ (k ++ b'\n' ∷ [])) (Lacks-of_test b'\n' section refl)
      ∙ ap (λ ls. section ∷ ls)
          (get_lines-line (codes "0=" ++ k) [] (
            All-append (λ c. (c == b'\n') ≡ false) (codes "0=") k
              (Lacks-of_test b'\n' (codes "0=") refl) h.0)))
    ∙ (read_section false section ((codes "0=" ++ k) ∷ get_lines []) false section_found
        ∙ read_key_line true k (get_lines []) h)
  where
    section_found : bytes_eq (rtrim section) section ≡ true
    section_found = unfold rtrim bytes_eq in refl

-- Whatever the file holds, and also if there is none: a key that is not empty, holds no newline and does
-- not end in a blank is read back. The empty key, which unbinds the trigger, is read back only if the file
-- has the section; otherwise the default key is read.
pub read_trigger_key-write :
    (file : Option Bytes) (k : Bytes)
    → (k ≡ []) ⊎ (IsTrigger k × (is_empty k ≡ false))
    → read_trigger_key ((write_trigger_key file k true).0)
      ≡ (if not (is_empty k) then k else if has_section (lines_of file) then [] else default_key)
unfolding write_trigger_key
read_trigger_key-write none k (inl e) = rw e (unfold read_trigger_key in refl)
read_trigger_key-write none k (inr h) = rw (h.1) (new_file k h.0)
read_trigger_key-write (some file) k (inl e) =
    rw e (read_edited [] file tt ∙ unbound_read (get_lines file))
read_trigger_key-write (some file) k (inr h) =
    rw (h.1) (read_edited k file (h.0.0) ∙ bound_read k h.0 h.1 (get_lines file))
