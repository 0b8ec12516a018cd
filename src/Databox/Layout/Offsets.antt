-- ===== src/Databox/Layout/Offsets.antt =====
-- src/databox/layout.rs: the fields of a layout against one another.
use abdb.Base.{
  ℕ, suc, ◌+◌, ◌*◌, ◌/◌, ◌%◌, ◌^◌, ◌<◌, ◌≤◌, ◌≡◌, refl, ap, ◌∙◌, List, [], ◌∷◌, map, some, none,
  length, leb, arith, Bool-cases, inl, inr,
}
use mathlib.Core.List.{Perm, reverse}
use abdb.Databox.Layout.Order.{
  Rising, column_key, place_key, sort_columns-Perm, sort_columns-Rising, place_columns_keys,
}
use abdb.Databox.{
  DataType, fixed_size, bool, i8, i16, i32, i64, u8, u16, u32, u64, f32, f64, string,
}
use abdb.Databox.Layout.{
  Column, Place, get_type_layout, insert_column, sort_columns, aligned, place_columns, from_columns,
  header_size,
}

abbrev pub size_of : DataType → ℕ
size_of t = (get_type_layout t).0

abbrev pub align_of : DataType → ℕ
align_of t = (get_type_layout t).1

-- The bytes of a field: those of a value of its type, or of the pointer to a text.
abbrev pub width : DataType → ℕ
width t = elim (fixed_size t) [ some n ↦ n | none ↦ 4 ]

get_type_layout-width : (t : DataType) → get_type_layout t ≡ (width t, width t)
unfolding get_type_layout fixed_size
get_type_layout-width bool = refl
get_type_layout-width i8 = refl
get_type_layout-width i16 = refl
get_type_layout-width i32 = refl
get_type_layout-width i64 = refl
get_type_layout-width u8 = refl
get_type_layout-width u16 = refl
get_type_layout-width u32 = refl
get_type_layout-width u64 = refl
get_type_layout-width f32 = refl
get_type_layout-width f64 = refl
get_type_layout-width string = refl

width_lem : (t : DataType) → size_of t ≡ width t
width_lem t = ap (λ r. r.0) (get_type_layout-width t)

align_lem : (t : DataType) → align_of t ≡ width t
align_lem t = ap (λ r. r.1) (get_type_layout-width t)

-- The fields, the latest first, lie between two offsets: each is aligned and ends before the next.
abbrev pub Fits : ℕ → ℕ → List Place → Type 0
Fits start end [] = start ≤ end
Fits start end (p ∷ ps) =
    (p.offset % width p.type_id ≡ 0) × (p.offset + width p.type_id ≤ end) × Fits start p.offset ps

Fits-mono : (start m n : ℕ) (ps : List Place) → m ≤ n → Fits start m ps → Fits start n ps
Fits-mono start m n [] h f = omega arith
Fits-mono start m n (p ∷ ps) h (a, e, f) = (a, omega arith, f)

-- Padding moves an offset by less than the alignment, to a multiple of it.
aligned_lem :
    (t : DataType) (o : ℕ)
    → o + 7 < 2 ^ 16
    → (aligned o (align_of t) % align_of t ≡ 0)
      × (o ≤ aligned o (align_of t))
      × (aligned o (align_of t) + size_of t ≤ o + 15)
unfolding aligned get_type_layout
aligned_lem bool o h = (omega arith, omega arith, omega arith)
aligned_lem i8 o h = (omega arith, omega arith, omega arith)
aligned_lem i16 o h = (omega arith, omega arith, omega arith)
aligned_lem i32 o h = (omega arith, omega arith, omega arith)
aligned_lem i64 o h = (omega arith, omega arith, omega arith)
aligned_lem u8 o h = (omega arith, omega arith, omega arith)
aligned_lem u16 o h = (omega arith, omega arith, omega arith)
aligned_lem u32 o h = (omega arith, omega arith, omega arith)
aligned_lem u64 o h = (omega arith, omega arith, omega arith)
aligned_lem f32 o h = (omega arith, omega arith, omega arith)
aligned_lem f64 o h = (omega arith, omega arith, omega arith)
aligned_lem string o h = (omega arith, omega arith, omega arith)

place_columns-Fits :
    (start o : ℕ) (ps : List Place) (cs : List Column)
    → Fits start o ps
    → o + 15 * length cs < 2 ^ 16
    → Fits start (place_columns o ps cs).1 (place_columns o ps cs).0
unfolding place_columns
place_columns-Fits start o ps [] f h = f
place_columns-Fits start o ps (c ∷ cs) f h =
    let (multiple, after, short) = aligned_lem c.type_id o (omega arith) in
    let offset : ℕ = aligned o (align_of c.type_id) in
    let multiple_too : offset % width c.type_id ≡ 0 = rw (← align_lem c.type_id) multiple in
    let next : (offset + size_of c.type_id) % 2 ^ 16 ≡ offset + size_of c.type_id = omega arith in
    place_columns-Fits start ((offset + size_of c.type_id) % 2 ^ 16)
      (record { name = c.name; offset = offset; type_id = c.type_id } ∷ ps) cs
      (multiple_too, omega (arith, width_lem c.type_id), Fits-mono start o offset ps after f)
      (omega arith)

length-insert_column :
    (c : Column) (cs : List Column) → length (insert_column c cs) ≡ suc (length cs)
unfolding insert_column
length-insert_column c [] = refl
length-insert_column c (d ∷ ds) = elim (Bool-cases (leb c.position d.position)) [
  | inl before ↦ rw before refl
  | inr after ↦ rw after (ap suc (length-insert_column c ds))
]

length-sort_columns : (cs : List Column) → length (sort_columns cs) ≡ length cs
unfolding sort_columns
length-sort_columns [] = refl
length-sort_columns (c ∷ cs) =
    length-insert_column c (sort_columns cs) ∙ ap suc (length-sort_columns cs)

-- The layout of at most 4000 columns counts them, and places every one of them once, with its name
-- and type, in an order in which positions do not fall. A field is as wide as the bytes of a value
-- of its type, or 4 bytes for a string; it lies at a multiple of its width, behind the header and a
-- null bitmap with a bit for each column; each field ends before the next one starts and within the
-- fixed part.
pub from_columns-Fits :
    (cs : List Column)
    → length cs ≤ 4000
    → ((from_columns cs).count ≡ length cs)
      × ((sorted : List Column) × Perm sorted cs
          × Rising sorted
          × (map place_key (from_columns cs).places ≡ reverse (map column_key sorted)))
      × Fits
          (header_size + (length cs + 7) / 8)
          (from_columns cs).fixed_len
          (from_columns cs).places
unfolding from_columns
from_columns-Fits cs h =
    let n : length (sort_columns cs) ≡ length cs = length-sort_columns cs in
    let start : (header_size + (length (sort_columns cs) % 2 ^ 16 + 7) % 2 ^ 16 / 8) % 2 ^ 16
        ≡ header_size + (length cs + 7) / 8 =
      omega arith in
    (
      omega arith,
      (
        sort_columns cs,
        sort_columns-Perm cs,
        sort_columns-Rising cs,
        place_columns_keys (sort_columns cs) _ [],
      ),
      rw start (
          place_columns-Fits (header_size + (length cs + 7) / 8) (header_size + (length cs + 7) / 8)
            [] (sort_columns cs) (omega arith) (omega arith)),
    )
