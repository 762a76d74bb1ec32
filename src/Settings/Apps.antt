-- ===== src/Settings/Apps.antt =====
-- src/settings/config_io.cpp: the files with one line for each application: its mode, its delays that the
-- user set, and those that the engine learned.
pub mod Modes
use skey.Base.{
  ℕ, ◌+◌, ◌%◌, Bool, true, false, not, ◌&&◌, ◌||◌, Option, none, some, List, [], ◌∷◌, ◌++◌, ltb,
  if◌then◌else◌, Bytes, bytes_eq, codes, utf8, is_empty, u32_mod,
}
use skey.Base.Decimal.{strtoull}
use skey.Base.Table.{Table, insert}
use skey.AppDelay.{AppDelayOverride, parse_app_delay_override, format_app_delay_override}
use skey.Settings.Lines.{get_lines, print_lines, rtrim, strip_quotes, key_value, cut}

-- A program and its mode, or a key and its delays.
abbrev pub Entry : Type 0
Entry = Bytes × Bytes

unfoldable pub renamed_mode : Bytes → Bytes
renamed_mode val =
    if bytes_eq val (codes "SurroundingTextSlow") || bytes_eq val (codes "SurroundingText")
    then codes "Surrounding Text"
    else val

abbrev pub mode_entry : Option (Bytes × Bytes) → Option Entry
mode_entry none = none
mode_entry (some (name, val)) =
    if not (is_empty (rtrim val)) && not (bytes_eq (rtrim val) (codes "Excluded"))
    then some (name, renamed_mode (rtrim val))
    else none

abbrev pub cons_some {ℓ} : {A : Type ℓ} → Option A → List A → List A
cons_some none xs = xs
cons_some (some x) xs = x ∷ xs

pub mode_entries : List Bytes → List Entry
mode_entries [] = []
mode_entries (line ∷ lines) = cons_some (mode_entry (key_value line)) (mode_entries lines)

pub read_app_modes_config : Option Bytes → List Entry
unfolding mode_entries
read_app_modes_config none = []
read_app_modes_config (some file) = mode_entries (get_lines file)

pub print_entries : List Entry → List Bytes
print_entries [] = []
print_entries ((name, val) ∷ es) = (name ++ b'=' ∷ val) ∷ print_entries es

pub write_app_modes_config : List Entry → Bytes
unfolding print_entries
write_app_modes_config es = print_lines (print_entries es)

abbrev pub formatted : Bytes → Option AppDelayOverride → Option Entry
formatted key none = none
formatted key (some parsed) = some (key, format_app_delay_override parsed)

abbrev pub override_entry : Option (Bytes × Bytes) → Option Entry
override_entry none = none
override_entry (some (key, val)) =
    formatted key (parse_app_delay_override (strip_quotes (rtrim val)))

pub override_entries : List Bytes → List Entry
override_entries [] = []
override_entries (line ∷ lines) =
    cons_some (override_entry (key_value line)) (override_entries lines)

pub read_app_delay_overrides_config : Option Bytes → List Entry
unfolding override_entries
read_app_delay_overrides_config none = []
read_app_delay_overrides_config (some file) = override_entries (get_lines file)

pub write_app_delay_overrides_config : List Entry → Bytes
unfolding print_entries
write_app_delay_overrides_config es = print_lines (
    utf8 "# Per-app manual delay overrides — value: auto | paceMs,preCommitMs,postCommitMs"
    ∷ print_entries es)

pub record LearnedDelay : Type 0 where
  pub rt_usec : ℕ
  pub samples : ℕ
  pub last_sleep_usec : ℕ

-- Behind the first comma: the samples, and behind a second comma the last sleep.
abbrev pub samples_of : Bytes → Option (Bytes × Bytes) → ℕ × ℕ
samples_of rest none = (strtoull rest % u32_mod, 0)
samples_of rest (some (samples, sleep)) = (strtoull samples % u32_mod, strtoull sleep)

abbrev pub in_window : LearnedDelay → Option LearnedDelay
in_window d = if ltb d.samples 3 || ltb d.rt_usec 100 || ltb 200000 d.rt_usec then none else some d

abbrev pub learned_from : Option (Bytes × Bytes) → Option LearnedDelay
learned_from none = none
learned_from (some (ewma, rest)) =
    let counts = samples_of rest (cut b',' rest) in
    in_window (record { rt_usec = strtoull ewma; samples = counts.0; last_sleep_usec = counts.1 })

pub learned_delay : Bytes → Option LearnedDelay
learned_delay val = learned_from (cut b',' val)

abbrev pub note_learned : Bytes → Option LearnedDelay → Table LearnedDelay → Table LearnedDelay
note_learned key none result = result
note_learned key (some d) result = insert key d result

abbrev pub learn_line : Option (Bytes × Bytes) → Table LearnedDelay → Table LearnedDelay
learn_line none result = result
learn_line (some (key, val)) result =
    note_learned key (learned_delay (strip_quotes (rtrim val))) result

pub learn_lines : Table LearnedDelay → List Bytes → Table LearnedDelay
learn_lines result [] = result
learn_lines result (line ∷ lines) = learn_lines (learn_line (key_value line) result) lines

pub read_learned_delays : Option Bytes → Table LearnedDelay
unfolding learn_lines
read_learned_delays none = []
read_learned_delays (some file) = learn_lines [] (get_lines file)
