-- ===== src/Databox.antt =====
-- src/databox/databox.rs: the types of columns and their values. An integer of `w` bits, signed ones
-- too, is its bit pattern, a number below `2 ^ w`; a float is its bit pattern; a string is its bytes.
pub mod Values
pub mod Codec
pub mod Layout
use Prim.Native.Nat.{compare, Ordering, lt, eq, gt}
use abdb.Base.{
  ℕ, zero, suc, ◌+◌, ◌-◌, ◌*◌, ◌/◌, ◌%◌, ◌^◌, Bool, true, false, not, Option, some, none, List, [],
  ◌∷◌, get_elem?, take, length, if◌then◌else◌, ltb, leb, ◌==◌, Result, ok, err,
}
use mathlib.Core.Option
use abdb.Bytes.{to_le_bytes, from_le_bytes}

pub data DataType : Type 0 where
  bool : DataType
  i8 : DataType
  i16 : DataType
  i32 : DataType
  i64 : DataType
  u8 : DataType
  u16 : DataType
  u32 : DataType
  u64 : DataType
  f32 : DataType
  f64 : DataType
  string : DataType

-- `DataTypeCreateError`.
pub data DataTypeCreateError : Type 0 where
  invalid : ℕ → DataTypeCreateError

unfoldable pub try_from : ℕ → Result DataTypeCreateError DataType
try_from value =
    if value == 0
    then ok bool
    else if value == 1
    then ok i8
    else if value == 2
    then ok i16
    else if value == 3
    then ok i32
    else if value == 4
    then ok i64
    else if value == 5
    then ok u8
    else if value == 6
    then ok u16
    else if value == 7
    then ok u32
    else if value == 8
    then ok u64
    else if value == 9
    then ok f32
    else if value == 10
    then ok f64
    else if value == 11
    then ok string
    else err (invalid value)

-- `self as u8`.
abbrev pub into : DataType → ℕ
into bool = 0
into i8 = 1
into i16 = 2
into i32 = 3
into i64 = 4
into u8 = 5
into u16 = 6
into u32 = 7
into u64 = 8
into f32 = 9
into f64 = 10
into string = 11

unfoldable pub fixed_size : DataType → Option ℕ
fixed_size bool = some 1
fixed_size i8 = some 1
fixed_size u8 = some 1
fixed_size i16 = some 2
fixed_size u16 = some 2
fixed_size i32 = some 4
fixed_size u32 = some 4
fixed_size f32 = some 4
fixed_size i64 = some 8
fixed_size u64 = some 8
fixed_size f64 = some 8
fixed_size string = none

unfoldable pub is_numeric : DataType → Bool
is_numeric bool = false
is_numeric string = false
is_numeric _ = true

unfoldable pub is_signed_int : DataType → Bool
is_signed_int i8 = true
is_signed_int i16 = true
is_signed_int i32 = true
is_signed_int i64 = true
is_signed_int _ = false

unfoldable pub is_unsigned_int : DataType → Bool
is_unsigned_int u8 = true
is_unsigned_int u16 = true
is_unsigned_int u32 = true
is_unsigned_int u64 = true
is_unsigned_int _ = false

unfoldable pub is_float : DataType → Bool
is_float f32 = true
is_float f64 = true
is_float _ = false

pub data Value : Type 0 where
  bool_value : Bool → Value
  i8_value : ℕ → Value
  i16_value : ℕ → Value
  i32_value : ℕ → Value
  i64_value : ℕ → Value
  u8_value : ℕ → Value
  u16_value : ℕ → Value
  u32_value : ℕ → Value
  u64_value : ℕ → Value
  f32_value : ℕ → Value
  f64_value : ℕ → Value
  string_value : List ℕ → Value
  null : Value

-- `Into<Value>` of a data type.
unfoldable pub into_value : DataType → Value
into_value t = u8_value (into t)

unfoldable pub data_type : Value → Option DataType
data_type (bool_value v) = some bool
data_type (i8_value v) = some i8
data_type (i16_value v) = some i16
data_type (i32_value v) = some i32
data_type (i64_value v) = some i64
data_type (u8_value v) = some u8
data_type (u16_value v) = some u16
data_type (u32_value v) = some u32
data_type (u64_value v) = some u64
data_type (f32_value v) = some f32
data_type (f64_value v) = some f64
data_type (string_value v) = some string
data_type null = none

unfoldable pub is_null : Value → Bool
is_null null = true
is_null _ = false

-- `v as i64` of a signed integer of `w` bits: the sign is carried up.
unfoldable pub sign_extend : ℕ → ℕ → ℕ
sign_extend w v = if ltb v (2 ^ (w - 1)) then v else v + 2 ^ 64 - 2 ^ w

-- `b as i64` and `b as u8`.
abbrev pub bool_as : Bool → ℕ
bool_as true = 1
bool_as false = 0

unfoldable pub to_i64 : Value → Option ℕ
to_i64 (i8_value v) = some (sign_extend 8 v)
to_i64 (i16_value v) = some (sign_extend 16 v)
to_i64 (i32_value v) = some (sign_extend 32 v)
to_i64 (i64_value v) = some v
to_i64 (u8_value v) = some v
to_i64 (u16_value v) = some v
to_i64 (u32_value v) = some v
to_i64 (bool_value b) = some (bool_as b)
to_i64 _ = none

-- A signed integer that is not negative, by its top bit.
abbrev pub non_negative : ℕ → ℕ → Option ℕ
non_negative w v = if ltb v (2 ^ (w - 1)) then some v else none

unfoldable pub to_u64 : Value → Option ℕ
to_u64 (u8_value v) = some v
to_u64 (u16_value v) = some v
to_u64 (u32_value v) = some v
to_u64 (u64_value v) = some v
to_u64 (bool_value b) = some (bool_as b)
to_u64 (i8_value v) = non_negative 8 v
to_u64 (i16_value v) = non_negative 16 v
to_u64 (i32_value v) = non_negative 32 v
to_u64 (i64_value v) = non_negative 64 v
to_u64 _ = none

-- What the language does on floats and text: casts between floats and integers, comparison of
-- floats, the text of a value, and the valid UTF-8 that `from_utf8_lossy` makes of bytes.
pub record Primitives : Type 0 where
  pub f64_of_i64 : ℕ → ℕ
  pub f64_of_u64 : ℕ → ℕ
  pub f64_of_f32 : ℕ → ℕ
  pub f32_of_f64 : ℕ → ℕ
  pub f32_cmp : ℕ → ℕ → Option Ordering
  pub f64_cmp : ℕ → ℕ → Option Ordering
  pub to_string : Value → List ℕ
  pub from_utf8_lossy : List ℕ → List ℕ

unfoldable pub to_f64 : Primitives → Value → Option ℕ
to_f64 prims (i8_value v) = some (prims.f64_of_i64 (sign_extend 8 v))
to_f64 prims (i16_value v) = some (prims.f64_of_i64 (sign_extend 16 v))
to_f64 prims (i32_value v) = some (prims.f64_of_i64 (sign_extend 32 v))
to_f64 prims (i64_value v) = some (prims.f64_of_i64 v)
to_f64 prims (u8_value v) = some (prims.f64_of_u64 v)
to_f64 prims (u16_value v) = some (prims.f64_of_u64 v)
to_f64 prims (u32_value v) = some (prims.f64_of_u64 v)
to_f64 prims (u64_value v) = some (prims.f64_of_u64 v)
to_f64 prims (f32_value v) = some (prims.f64_of_f32 v)
to_f64 prims (f64_value v) = some v
to_f64 prims _ = none
