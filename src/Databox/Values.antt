-- ===== src/Databox/Values.antt =====
-- src/databox/databox.rs: values cast, ordered, and turned into bytes and back.
use Prim.Native.Nat.{compare, Ordering, lt, eq, gt}
use abdb.Base.{
  ℕ, ◌+◌, ◌-◌, ◌%◌, ◌^◌, Bool, false, not, Option, some, none, List, [], ◌∷◌, get_elem?, take,
  length, if◌then◌else◌, leb, ◌==◌,
}
use mathlib.Core.Option
use abdb.Bytes.{to_le_bytes, from_le_bytes}
use abdb.Databox.{
  DataType, bool, i8, i16, i32, i64, u8, u16, u32, u64, f32, f64, string, into, Value, bool_value,
  i8_value, i16_value, i32_value, i64_value, u8_value, u16_value, u32_value, u64_value, f32_value,
  f64_value, string_value, null, data_type, is_null, bool_as, to_i64, to_u64, to_f64, Primitives,
}

-- Two types compared, as derived.
abbrev same_type : Option DataType → DataType → Bool
same_type none target = false
same_type (some t) target = into t == into target

-- `*v != 0` of the integers that a cast to a Boolean takes.
abbrev truth : Value → Option Value
truth (i8_value v) = some (bool_value (not (v == 0)))
truth (i32_value v) = some (bool_value (not (v == 0)))
truth (i64_value v) = some (bool_value (not (v == 0)))
truth (u8_value v) = some (bool_value (not (v == 0)))
truth _ = none

-- The cast of a value of another type; a cast to fewer bits cuts the upper ones.
unfoldable pub cast_to : Primitives → Value → DataType → Option Value
cast_to prims v i16 = Option.map (λ n. i16_value (n % 2 ^ 16)) (to_i64 v)
cast_to prims v i32 = Option.map (λ n. i32_value (n % 2 ^ 32)) (to_i64 v)
cast_to prims v i64 = Option.map i64_value (to_i64 v)
cast_to prims v u16 = Option.map (λ n. u16_value (n % 2 ^ 16)) (to_u64 v)
cast_to prims v u32 = Option.map (λ n. u32_value (n % 2 ^ 32)) (to_u64 v)
cast_to prims v u64 = Option.map u64_value (to_u64 v)
cast_to prims v f32 = Option.map (λ x. f32_value (prims.f32_of_f64 x)) (to_f64 prims v)
cast_to prims v f64 = Option.map f64_value (to_f64 prims v)
cast_to prims v string = some (string_value (prims.to_string v))
cast_to prims v bool = truth v
cast_to prims v _ = none

unfoldable pub cast : Primitives → Value → DataType → Option Value
cast prims v target =
    if is_null v
    then some null
    else if same_type (data_type v) target
    then some v
    else cast_to prims v target

unfoldable pub to_bytes : Value → List ℕ
to_bytes (bool_value v) = bool_as v ∷ []
to_bytes (i8_value v) = v ∷ []
to_bytes (i16_value v) = to_le_bytes 2 v
to_bytes (i32_value v) = to_le_bytes 4 v
to_bytes (i64_value v) = to_le_bytes 8 v
to_bytes (u8_value v) = v ∷ []
to_bytes (u16_value v) = to_le_bytes 2 v
to_bytes (u32_value v) = to_le_bytes 4 v
to_bytes (u64_value v) = to_le_bytes 8 v
to_bytes (f32_value v) = to_le_bytes 4 v
to_bytes (f64_value v) = to_le_bytes 8 v
to_bytes (string_value s) = s
to_bytes null = []

-- `bytes.get(..n)` as an integer.
abbrev pub leading : ℕ → List ℕ → Option ℕ
leading n bytes = if leb n (length bytes) then some (from_le_bytes (take n bytes)) else none

unfoldable pub from_bytes : Primitives → DataType → List ℕ → Option Value
from_bytes prims bool bytes = Option.map (λ b. bool_value (not (b == 0))) (get_elem? bytes 0)
from_bytes prims i8 bytes = Option.map i8_value (get_elem? bytes 0)
from_bytes prims i16 bytes = Option.map i16_value (leading 2 bytes)
from_bytes prims i32 bytes = Option.map i32_value (leading 4 bytes)
from_bytes prims i64 bytes = Option.map i64_value (leading 8 bytes)
from_bytes prims u8 bytes = Option.map u8_value (get_elem? bytes 0)
from_bytes prims u16 bytes = Option.map u16_value (leading 2 bytes)
from_bytes prims u32 bytes = Option.map u32_value (leading 4 bytes)
from_bytes prims u64 bytes = Option.map u64_value (leading 8 bytes)
from_bytes prims f32 bytes = Option.map f32_value (leading 4 bytes)
from_bytes prims f64 bytes = Option.map f64_value (leading 8 bytes)
from_bytes prims string bytes = some (string_value (prims.from_utf8_lossy bytes))

-- Signed integers are compared by their patterns with the top bit turned over.
abbrev pub signed_cmp : ℕ → ℕ → ℕ → Ordering
signed_cmp w a b = compare ((a + 2 ^ (w - 1)) % 2 ^ w) ((b + 2 ^ (w - 1)) % 2 ^ w)

-- Strings are compared by their bytes.
abbrev pub bytes_cmp : List ℕ → List ℕ → Ordering
bytes_cmp [] [] = eq
bytes_cmp [] (y ∷ ys) = lt
bytes_cmp (x ∷ xs) [] = gt
bytes_cmp (x ∷ xs) (y ∷ ys) =
    let rest = bytes_cmp xs ys in elim (compare x y) [ lt ↦ lt | eq ↦ rest | gt ↦ gt ]

abbrev both : Option ℕ → Option ℕ → (ℕ → ℕ → Option Ordering) → Option Ordering
both (some a) (some b) f = f a b
both _ _ f = none

-- Values of two types are compared as floats, which not all can be.
abbrev cross_cmp : Primitives → Value → Value → Option Ordering
cross_cmp prims a b = both (to_f64 prims a) (to_f64 prims b) prims.f64_cmp

unfoldable pub partial_cmp : Primitives → Value → Value → Option Ordering
partial_cmp prims null null = some eq
partial_cmp prims null _ = some lt
partial_cmp prims _ null = some gt
partial_cmp prims (bool_value a) (bool_value b) = some (compare (bool_as a) (bool_as b))
partial_cmp prims (i8_value a) (i8_value b) = some (signed_cmp 8 a b)
partial_cmp prims (i16_value a) (i16_value b) = some (signed_cmp 16 a b)
partial_cmp prims (i32_value a) (i32_value b) = some (signed_cmp 32 a b)
partial_cmp prims (i64_value a) (i64_value b) = some (signed_cmp 64 a b)
partial_cmp prims (u8_value a) (u8_value b) = some (compare a b)
partial_cmp prims (u16_value a) (u16_value b) = some (compare a b)
partial_cmp prims (u32_value a) (u32_value b) = some (compare a b)
partial_cmp prims (u64_value a) (u64_value b) = some (compare a b)
partial_cmp prims (f32_value a) (f32_value b) = prims.f32_cmp a b
partial_cmp prims (f64_value a) (f64_value b) = prims.f64_cmp a b
partial_cmp prims (string_value a) (string_value b) = some (bytes_cmp a b)
partial_cmp prims a b = cross_cmp prims a b
