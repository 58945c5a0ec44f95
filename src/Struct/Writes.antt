-- ===== src/Struct/Writes.antt =====
-- What decodeInto does to the struct for one key of the message.
use msgpck.Base.{
  ℕ, zero, suc, ◌≡◌, ◌≢◌, refl, sym, ap, Bytes, Option, none, some, Bool-cases, inl, inr,
  if◌then◌else◌,
}
use msgpck.Value.{bytes_equal}
use msgpck.Decoder.{Decoder, Outcome, ok, err, panic, stuck, M, and_then, pure}
use msgpck.Struct.Kinds.{
  FieldKind, f_other, Fields, no_fields, field, Cell, unset, Cells, no_cells, cell,
}
use msgpck.Struct.Decode.{
  set_field, set_first, set_rest, first_cell, rest_cells, skip_unknown, decode_field,
}
use msgpck.Decoder.Values.{decode}

abbrev pub next : Option ℕ → Option ℕ
next none = none
next (some i) = some (suc i)

-- The place of the first field of a name, and what stands at a place.
unfoldable pub index_of : Bytes → Fields → Option ℕ
index_of key no_fields = none
index_of key (field name kind fs) =
    let rest = index_of key fs in if bytes_equal name key then some zero else next rest

abbrev pub kind_at : ℕ → Fields → FieldKind
kind_at i no_fields = f_other
kind_at zero (field name kind fs) = kind
kind_at (suc i) (field name kind fs) = kind_at i fs

abbrev pub cell_at : ℕ → Cells → Cell
cell_at i no_cells = unset
cell_at zero (cell c cs) = c
cell_at (suc i) (cell c cs) = cell_at i cs

pub first-at : (cells : Cells) → cell_at 0 cells ≡ first_cell cells
first-at no_cells = refl
first-at (cell c cs) = refl

pub rest-at : (cells : Cells) (i : ℕ) → cell_at (suc i) cells ≡ cell_at i (rest_cells cells)
rest-at no_cells i = refl
rest-at (cell c cs) i = refl

-- The steps of a method that returned.
bind-ok :
    {A B : Type 0} (o : Outcome A) (f : A → M B) (b : B) (d' : Decoder)
    → and_then o f ≡ ok b d'
    → (a : A) × (d : Decoder) × (o ≡ ok a d) × (f a d ≡ ok b d')
bind-ok (ok a d) f b d' e = (a, d, refl, e)
bind-ok (err x d) f b d' e = cc
bind-ok panic f b d' e = cc
bind-ok stuck f b d' e = cc

-- The cell at the place `i`, where the method decodes into the place `o`.
abbrev pub Written : Option ℕ → ℕ → FieldKind → Cell → Cell → Decoder → Decoder → Type 0
Written o i kind c c' d d' = (o ≡ some i → decode_field kind c d ≡ ok c' d') × (o ≢ some i → c' ≡ c)

abbrev pub Wrote : Fields → Bytes → Cells → Decoder → Cells → Decoder → ℕ → Type 0
Wrote fs key cells d cells' d' i =
    Written (index_of key fs) i (kind_at i fs) (cell_at i cells) (cell_at i cells') d d'

unknown-writes :
    (key : Bytes) (cells : Cells) (d : Decoder) (cells' : Cells) (d' : Decoder)
    → skip_unknown cells d ≡ ok cells' d'
    → (i : ℕ) → Wrote no_fields key cells d cells' d' i
unfolding skip_unknown index_of
unknown-writes key cells d cells' d' e i =
    let (v, d'', p, q) = bind-ok (decode d) (λ v. pure cells) cells' d' e in
    ((λ h. cc), (λ h. let same : cells' ≡ cells = cc in ap (cell_at i) same))

first-writes :
    (cells : Cells) (m : M Cell) (d : Decoder) (cells' : Cells) (d' : Decoder)
    → set_first cells m d ≡ ok cells' d'
    → (m d ≡ ok (cell_at 0 cells') d') × ((i : ℕ) → cell_at (suc i) cells' ≡ cell_at (suc i) cells)
first-writes cells m d cells' d' e =
    let (c, d'', p, q) = bind-ok (m d) (λ c. pure (cell c (rest_cells cells))) cells' d' e in
    let made : cells' ≡ cell c (rest_cells cells) = cc in
    (rw made (cc), λ i. rw made (sym (rest-at cells i)))

rest-writes :
    (cells : Cells) (m : M Cells) (d : Decoder) (cells' : Cells) (d' : Decoder)
    → set_rest cells m d ≡ ok cells' d'
    → (m d ≡ ok (rest_cells cells') d') × (cell_at 0 cells' ≡ cell_at 0 cells)
rest-writes cells m d cells' d' e =
    let (cs, d'', p, q) = bind-ok (m d) (λ cs. pure (cell (first_cell cells) cs)) cells' d' e in
    let made : cells' ≡ cell (first_cell cells) cs = cc in
    (rw made (cc), rw made (sym (first-at cells)))

pub next-suc : (o : Option ℕ) (i : ℕ) → next o ≡ some (suc i) → o ≡ some i
next-suc none i e = cc
next-suc (some j) i e = cc

pub next-zero : (o : Option ℕ) → next o ≢ some zero
next-zero none = λ e. cc
next-zero (some j) = λ e. cc

-- One key of the message: where decodeInto returns, the first field of that name has been decoded from
-- here, starting from what it held, and every other field holds what it held; where no field has the
-- name, that is every field.
pub set_field-writes :
    (fs : Fields) (key : Bytes) (cells : Cells) (d : Decoder) (cells' : Cells) (d' : Decoder)
    → set_field fs key cells d ≡ ok cells' d'
    → (i : ℕ) → Wrote fs key cells d cells' d' i
unfolding set_field index_of
set_field-writes no_fields key cells d cells' d' e i = unknown-writes key cells d cells' d' e i
set_field-writes (field name kind fs) key cells d cells' d' e i =
    elim (Bool-cases (bytes_equal name key)) [
      | inl t ↦ rw t (
          this i
            (first-writes cells (decode_field kind (first_cell cells)) d cells' d' (rw t at e)))
      | inr t ↦ rw t (
          other i (rest-writes cells (set_field fs key (rest_cells cells)) d cells' d' (rw t at e))
            (set_field-writes fs key (rest_cells cells) d (rest_cells cells') d'))
    ]
  where
    this :
        (i : ℕ)
        → (decode_field kind (first_cell cells) d ≡ ok (cell_at 0 cells') d')
          × ((i : ℕ) → cell_at (suc i) cells' ≡ cell_at (suc i) cells)
        → Written
            (some zero)
            i
            (kind_at i (field name kind fs))
            (cell_at i cells)
            (cell_at i cells')
            d
            d'
    this zero (w, same) = ((λ h. rw (first-at cells) w), λ h. absurd (h refl))
    this (suc i) (w, same) = ((λ h. cc), λ h. same i)

    other :
        (i : ℕ)
        → (set_field fs key (rest_cells cells) d ≡ ok (rest_cells cells') d')
          × (cell_at 0 cells' ≡ cell_at 0 cells)
        → (set_field fs key (rest_cells cells) d ≡ ok (rest_cells cells') d'
            → (i : ℕ) → Wrote fs key (rest_cells cells) d (rest_cells cells') d' i)
        → Written
            (next (index_of key fs))
            i
            (kind_at i (field name kind fs))
            (cell_at i cells)
            (cell_at i cells')
            d
            d'
    other zero (w, same) ih = ((λ h. absurd (next-zero _ h)), λ h. same)
    other (suc i) (w, same) ih =
        let (one, rest) = ih w i in
        (
          (λ h. rw (rest-at cells i, rest-at cells' i) (one (next-suc _ i h))),
          λ h. rw (rest-at cells i, rest-at cells' i) (rest λ g. h (ap next g)),
        )
