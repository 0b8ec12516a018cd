-- ===== src/Databox/Layout.antt =====
-- src/databox/layout.rs: where the columns of a table lie in a tuple, and their fields read and
-- written there. A name is its bytes; numbers of 16 bits wrap.
pub mod Order
pub mod Offsets
pub mod Fields
pub mod RoundTrip
use abdb.Base.{
  ℕ, zero, suc, ◌+◌, ◌-◌, ◌*◌, ◌/◌, ◌%◌, ◌^◌, Bool, true, false, not, ◌&&◌, Option, some, none,
  List, [], ◌∷◌, ◌++◌, get_elem?, set, take, drop, length, if◌then◌else◌, ltb, leb, ◌==◌,
}
use mathlib.Core.Option
use abdb.Bytes.{to_le_bytes, from_le_bytes}
use abdb.Databox.{
  DataType, bool, i8, i16, i32, i64, u8, u16, u32, u64, f32, f64, string, Value, bool_value,
  i8_value, i16_value, i32_value, i64_value, u8_value, u16_value, u32_value, u64_value, f32_value,
  f64_value, string_value, null, bool_as, is_null, Primitives,
}

-- What a layout takes of a `catalog::Column`.
pub record Column : Type 0 where
  pub name : List ℕ
  pub type_id : DataType
  pub position : ℕ

-- A column's entry in the maps by name: its offset and its type.
pub record Place : Type 0 where
  pub name : List ℕ
  pub offset : ℕ
  pub type_id : DataType

-- `TupleLayout`; the two maps are one list, the latest entry first.
pub record TupleLayout : Type 0 where
  pub count : ℕ
  pub null_bitmap_offset : ℕ
  pub places : List Place
  pub fixed_len : ℕ

abbrev pub header_size : ℕ
header_size = 16

abbrev var_ptr_size : ℕ
var_ptr_size = 4

-- The size and the alignment.
unfoldable pub get_type_layout : DataType → ℕ × ℕ
get_type_layout bool = (1, 1)
get_type_layout i8 = (1, 1)
get_type_layout u8 = (1, 1)
get_type_layout i16 = (2, 2)
get_type_layout u16 = (2, 2)
get_type_layout i32 = (4, 4)
get_type_layout u32 = (4, 4)
get_type_layout f32 = (4, 4)
get_type_layout i64 = (8, 8)
get_type_layout u64 = (8, 8)
get_type_layout f64 = (8, 8)
get_type_layout string = (var_ptr_size, 4)

-- `sort_by_key`, which keeps the order of equal positions.
unfoldable pub insert_column : Column → List Column → List Column
insert_column c [] = c ∷ []
insert_column c (d ∷ ds) = if leb c.position d.position then c ∷ d ∷ ds else d ∷ insert_column c ds

unfoldable pub sort_columns : List Column → List Column
sort_columns [] = []
sort_columns (c ∷ cs) = insert_column c (sort_columns cs)

-- The offset of the next field: the padding is added up to the alignment.
unfoldable pub aligned : ℕ → ℕ → ℕ
aligned current_offset align = (current_offset + (align - current_offset % align) % align) % 2 ^ 16

-- The loop over the columns: the entries, the latest first, and the offset behind them.
unfoldable pub place_columns : ℕ → List Place → List Column → List Place × ℕ
unfolding get_type_layout
place_columns current_offset places [] = (places, current_offset)
place_columns current_offset places (c ∷ cs) =
    let offset = aligned current_offset (get_type_layout c.type_id).1 in
    place_columns ((offset + (get_type_layout c.type_id).0) % 2 ^ 16)
      (record { name = c.name; offset = offset; type_id = c.type_id } ∷ places) cs

-- `TupleLayout::from`.
unfoldable pub from_columns : List Column → TupleLayout
from_columns columns =
    let sorted = sort_columns columns in
    let count = length sorted % 2 ^ 16 in
    let start = (header_size + (count + 7) % 2 ^ 16 / 8) % 2 ^ 16 in
    let placed = place_columns start [] sorted in
    record {
      count = count;
      null_bitmap_offset = header_size;
      places = placed.0;
      fixed_len = placed.1;
    }

abbrev pub same_name : List ℕ → List ℕ → Bool
same_name [] [] = true
same_name (x ∷ xs) (y ∷ ys) = (x == y) && same_name xs ys
same_name _ _ = false

unfoldable pub place_of : List ℕ → List Place → Option Place
place_of name [] = none
place_of name (p ∷ ps) = if same_name p.name name then some p else place_of name ps

-- `read_le_arr`, as the integer of the bytes.
unfoldable pub read_le_arr : ℕ → List ℕ → ℕ → Option ℕ
read_le_arr n bytes offset =
    if leb (offset + n) (length bytes)
    then some (from_le_bytes (take n (drop offset bytes)))
    else none

-- `write_le`: nothing is written out of bounds.
unfoldable pub write_le : List ℕ → ℕ → List ℕ → List ℕ
write_le target offset bytes =
    if leb (offset + length bytes) (length target)
    then take offset target ++ (bytes ++ drop (offset + length bytes) target)
    else target

-- `(byte >> k) & 1 == 1`, `byte | 1 << k` and `byte & !(1 << k)`.
abbrev pub bit : ℕ → ℕ → Bool
bit byte k = byte / 2 ^ k % 2 == 1

abbrev pub with_bit : ℕ → ℕ → ℕ
with_bit byte k = if bit byte k then byte else byte + 2 ^ k

abbrev pub without_bit : ℕ → ℕ → ℕ
without_bit byte k = if bit byte k then byte - 2 ^ k else byte

-- A byte changed where it is; nothing is changed out of bounds.
abbrev pub change_byte : List ℕ → ℕ → (ℕ → ℕ) → List ℕ
change_byte [] i f = []
change_byte (x ∷ xs) zero f = f x ∷ xs
change_byte (x ∷ xs) (suc i) f = x ∷ change_byte xs i f

-- The byte of the null bitmap that has a column's bit.
abbrev pub null_byte : TupleLayout → ℕ → ℕ
null_byte layout col_index = layout.null_bitmap_offset + col_index / 8

abbrev pub is_null_at : Option ℕ → ℕ → Bool
is_null_at none k = false
is_null_at (some byte) k = bit byte k

-- The text that a string's length and offset give.
abbrev text_at : Primitives → List ℕ → Option ℕ → Option ℕ → Option Value
text_at prims tuple (some len) (some off) = some (
    string_value (
      if leb (off + len) (length tuple)
      then prims.from_utf8_lossy (take len (drop off tuple))
      else []))
text_at prims tuple _ _ = none

unfoldable pub read_typed : Primitives → DataType → List ℕ → ℕ → Option Value
read_typed prims bool tuple o = Option.map (λ b. bool_value (not (b == 0))) (get_elem? tuple o)
read_typed prims i8 tuple o = Option.map i8_value (get_elem? tuple o)
read_typed prims i16 tuple o = Option.map i16_value (read_le_arr 2 tuple o)
read_typed prims i32 tuple o = Option.map i32_value (read_le_arr 4 tuple o)
read_typed prims i64 tuple o = Option.map i64_value (read_le_arr 8 tuple o)
read_typed prims u8 tuple o = Option.map u8_value (get_elem? tuple o)
read_typed prims u16 tuple o = Option.map u16_value (read_le_arr 2 tuple o)
read_typed prims u32 tuple o = Option.map u32_value (read_le_arr 4 tuple o)
read_typed prims u64 tuple o = Option.map u64_value (read_le_arr 8 tuple o)
read_typed prims f32 tuple o = Option.map f32_value (read_le_arr 4 tuple o)
read_typed prims f64 tuple o = Option.map f64_value (read_le_arr 8 tuple o)
read_typed prims string tuple o =
    text_at prims tuple (read_le_arr 2 tuple o) (read_le_arr 2 tuple (o + 2))

unfoldable pub read_field : Primitives → TupleLayout → List ℕ → ℕ → List ℕ → Option Value
read_field prims layout col_name col_index tuple = elim (place_of col_name layout.places) [
  | none ↦ none
  | some p ↦
      if is_null_at (get_elem? tuple (null_byte layout col_index)) (col_index % 8)
      then some null
      else read_typed prims p.type_id tuple p.offset
]

-- The write of a value, and whether it is one that can be written in place.
unfoldable pub write_typed : Value → List ℕ → ℕ → List ℕ × Bool
write_typed (bool_value v) tuple o = (change_byte tuple o (λ b. bool_as v), true)
write_typed (i8_value v) tuple o = (change_byte tuple o (λ b. v), true)
write_typed (i16_value v) tuple o = (write_le tuple o (to_le_bytes 2 v), true)
write_typed (i32_value v) tuple o = (write_le tuple o (to_le_bytes 4 v), true)
write_typed (i64_value v) tuple o = (write_le tuple o (to_le_bytes 8 v), true)
write_typed (u8_value v) tuple o = (change_byte tuple o (λ b. v), true)
write_typed (u16_value v) tuple o = (write_le tuple o (to_le_bytes 2 v), true)
write_typed (u32_value v) tuple o = (write_le tuple o (to_le_bytes 4 v), true)
write_typed (u64_value v) tuple o = (write_le tuple o (to_le_bytes 8 v), true)
write_typed (f32_value v) tuple o = (write_le tuple o (to_le_bytes 4 v), true)
write_typed (f64_value v) tuple o = (write_le tuple o (to_le_bytes 8 v), true)
write_typed (string_value s) tuple o = (tuple, false)
write_typed null tuple o = (tuple, true)

-- The tuple and whether the value is written: a null sets its bit, any other value clears it first.
unfoldable pub write_field : TupleLayout → List ℕ → ℕ → List ℕ → Value → List ℕ × Bool
write_field layout col_name col_index tuple value = elim (place_of col_name layout.places) [
  | none ↦ (tuple, false)
  | some p ↦
      if is_null value
      then (change_byte tuple (null_byte layout col_index) (λ b. with_bit b (col_index % 8)), true)
      else write_typed value
          (change_byte tuple (null_byte layout col_index) (λ b. without_bit b (col_index % 8)))
          p.offset
]
