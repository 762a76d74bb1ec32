-- ===== src/Sheets/Address.antt =====
-- Which names are cell addresses.
use skey.Base.{
  ℕ, ◌≤◌, ◌≡◌, ◌↔◌, refl, sym, ap, ◌∙◌, true, [], ◌∷◌, ◌++◌, Bytes, arith, All, length, take, drop,
  take-append-drop, drop-length_append, ◌&&◌, leb, Bool-cases, inl, inr,
}
use skey.Sheets.{leading_capitals, all_digits, row_number, is_cell_address}

abbrev pub Capital : ℕ → Type 0
Capital c = (b'A' ≤ c) × (c ≤ b'Z')

abbrev pub Digit : ℕ → Type 0
Digit c = (b'0' ≤ c) × (c ≤ b'9')

-- One to three capitals, a digit from 1 on, and digits.
pub record IsAddress (name : Bytes) : Type 0 where
  pub column : Bytes
  pub first : ℕ
  pub digits : Bytes
  pub parts : name ≡ column ++ first ∷ digits
  pub capitals : All Capital column
  pub column_size : (1 ≤ length column) × (length column ≤ 3)
  pub no_zero : (b'1' ≤ first) × (first ≤ b'9')
  pub all_digits : All Digit digits

capitals_counted : (s : Bytes) → All Capital (take (leading_capitals s) s)
unfolding leading_capitals
capitals_counted [] = tt
capitals_counted (c ∷ s) = elim (Bool-cases (leb b'A' c && leb c b'Z')) [
  | inl cap ↦ rw cap (ground arith, capitals_counted s)
  | inr other ↦ rw other tt
]

length-take_capitals : (s : Bytes) → length (take (leading_capitals s) s) ≡ leading_capitals s
unfolding leading_capitals
length-take_capitals [] = refl
length-take_capitals (c ∷ s) = ground (arith, length-take_capitals s)

capitals_end :
    (column : Bytes) (first : ℕ) (digits : Bytes)
    → All Capital column
    → first ≤ b'9'
    → leading_capitals (column ++ first ∷ digits) ≡ length column
unfolding leading_capitals
capitals_end [] first digits h f = ground arith
capitals_end (c ∷ column) first digits h f = ground (arith, capitals_end column first digits h.1 f)

all_digits_iff : (s : Bytes) → (all_digits s ≡ true) ↔ All Digit s
unfolding all_digits
all_digits_iff [] = (λ _. tt, λ _. refl)
all_digits_iff (c ∷ s) =
    (λ h. ground (arith, all_digits_iff s), λ h. ground (arith, all_digits_iff s, h))

row_parts :
    (s : Bytes)
    → row_number s ≡ true
    → (first : ℕ) × (digits : Bytes) × (s ≡ first ∷ digits)
      × ((b'1' ≤ first) × (first ≤ b'9'))
      × All Digit digits
unfolding row_number all_digits
row_parts [] h = absurd (ground arith)
row_parts (c ∷ s) h = (c, s, refl, ground arith, (all_digits_iff s).0 (ground arith))

row_number_digits :
    (first : ℕ) (digits : Bytes)
    → b'1' ≤ first
    → first ≤ b'9'
    → All Digit digits
    → row_number (first ∷ digits) ≡ true
unfolding row_number all_digits
row_number_digits first digits l u h = ground (arith, (all_digits_iff digits).1 h)

address_tests :
    (name : Bytes)
    → is_cell_address name ≡ true
    → (1 ≤ leading_capitals name)
      × (leading_capitals name ≤ 3)
      × (row_number (drop (leading_capitals name) name) ≡ true)
unfolding is_cell_address
address_tests name h = ground arith

IsAddress-of : (name : Bytes) → is_cell_address name ≡ true → IsAddress name
IsAddress-of name h =
    let n = leading_capitals name in
    let (lo, hi, row) = address_tests name h in
    let (first, digits, behind, edge, rest) = row_parts (drop n name) row in
    let size = length-take_capitals name in
    record {
      column = take n name;
      first = first;
      digits = digits;
      parts = sym (take-append-drop n name) ∙ ap (λ s. take n name ++ s) behind;
      capitals = capitals_counted name;
      column_size = (omega (arith, size), omega (arith, size));
      no_zero = edge;
      all_digits = rest;
    }

address_holds :
    (column : Bytes) (first : ℕ) (digits : Bytes)
    → All Capital column
    → (1 ≤ length column) × (length column ≤ 3)
    → (b'1' ≤ first) × (first ≤ b'9')
    → All Digit digits
    → is_cell_address (column ++ first ∷ digits) ≡ true
unfolding is_cell_address
address_holds column first digits h (lo, hi) (l, u) d = ground (
  arith,
  capitals_end column first digits h u,
  drop-length_append column (first ∷ digits),
  row_number_digits first digits l u d,
)

-- A name is taken for a cell address exactly when it is one to three capitals A to Z and a number
-- in digits that does not begin with 0.
is_cell_address_iff : (name : Bytes) → (is_cell_address name ≡ true) ↔ IsAddress name
is_cell_address_iff name = (
  IsAddress-of name,
  λ a.
      ap is_cell_address a.parts
      ∙ address_holds a.column a.first a.digits a.capitals a.column_size a.no_zero a.all_digits,
)
