-- ===== src/Tests/Values.antt =====
-- The theorems on values and tuple layouts, at concrete inputs.
use abdb.Base.{
  ℕ, ◌+◌, ◌≡◌, ◌/◌, refl, true, some, none, List, [], ◌∷◌, arith, length, replicate, map,
}
use abdb.Databox.{data_type, i32, u8, string, i32_value, fixed_size, Primitives}
use abdb.Databox.Values.{to_bytes, from_bytes}
use abdb.Databox.Codec.{from_bytes-to_bytes}
use abdb.Databox.Layout.{
  Column, TupleLayout, place_of, get_type_layout, from_columns, header_size, read_field,
  write_field,
}
use mathlib.Core.List.{Perm, reverse}
use abdb.Databox.Layout.Order.{Rising, column_key, place_key}
use abdb.Databox.Layout.Offsets.{Fits, from_columns-Fits}
use abdb.Databox.Layout.RoundTrip.{read_field-write_field}

abbrev prims : Primitives
prims = record {
  f64_of_i64 = λ n. n;
  f64_of_u64 = λ n. n;
  f64_of_f32 = λ n. n;
  f32_of_f64 = λ n. n;
  f32_cmp = λ a b. none;
  f64_cmp = λ a b. none;
  to_string = λ v. [];
  from_utf8_lossy = λ s. s;
}

from_bytes-to_bytes_example :
    (from_bytes prims i32 (to_bytes (i32_value 100000)) ≡ some (i32_value 100000))
    × ((n : ℕ) → fixed_size i32 ≡ some n → length (to_bytes (i32_value 100000)) ≡ n)
unfolding data_type
from_bytes-to_bytes_example = from_bytes-to_bytes prims (i32_value 100000) i32 (omega arith) refl

-- Three columns, out of order.
abbrev columns : List Column
columns =
    record { name = 1 ∷ []; type_id = string; position = 1 }
    ∷ record { name = 0 ∷ []; type_id = u8; position = 0 }
    ∷ record { name = 2 ∷ []; type_id = i32; position = 2 }
    ∷ []

from_columns-Fits_example :
    ((from_columns columns).count ≡ 3)
    × ((sorted : List Column) × Perm sorted columns
        × Rising sorted
        × (map place_key (from_columns columns).places ≡ reverse (map column_key sorted)))
    × Fits
        (header_size + (3 + 7) / 8)
        (from_columns columns).fixed_len
        (from_columns columns).places
from_columns-Fits_example = from_columns-Fits columns (omega arith)

abbrev layout : TupleLayout
layout = record {
  count = 3;
  null_bitmap_offset = 16;
  places =
      record { name = 2 ∷ []; offset = 24; type_id = i32 }
      ∷ record { name = 0 ∷ []; offset = 17; type_id = u8 }
      ∷ [];
  fixed_len = 28;
}

-- A tuple in which the third column is null.
abbrev tuple : List ℕ
tuple = 0 ∷ 0 ∷ 0 ∷ 0 ∷ 0 ∷ 0 ∷ 0 ∷ 0 ∷ 0 ∷ 0 ∷ 0 ∷ 0 ∷ 0 ∷ 0 ∷ 0 ∷ 0 ∷ 4 ∷ replicate 11 0

read_field-write_field_example :
    ((write_field layout (2 ∷ []) 2 tuple (i32_value 42)).1 ≡ true)
    × (read_field prims layout (2 ∷ []) 2 (write_field layout (2 ∷ []) 2 tuple (i32_value 42)).0
        ≡ some (i32_value 42))
unfolding place_of data_type get_type_layout
read_field-write_field_example =
    read_field-write_field prims layout (2 ∷ [])
      (record { name = 2 ∷ []; offset = 24; type_id = i32 }) 2 tuple (i32_value 42) refl
      (omega arith) refl (λ h. cc) (omega arith) (omega arith)
