-- ===== src/Databox/Codec.antt =====
-- src/databox/databox.rs: type bytes and value bytes read back.
use abdb.Base.{
  ℕ, ◌^◌, ◌<◌, ◌≡◌, ◌↔◌, refl, sym, ap, ◌∙◌, true, false, Option, some, none, length, if◌then◌else◌,
  leb, ◌==◌, Result, ok, err, arith, if-cases, take_all,
}
use mathlib.Core.Option
use abdb.Bytes.{to_le_bytes, length-to_le_bytes, from_le_bytes-to_le_bytes}
use abdb.Databox.{
  DataType, bool, i8, i16, i32, i64, u8, u16, u32, u64, f32, f64, string, into, try_from, Value,
  bool_value, i8_value, i16_value, i32_value, i64_value, u8_value, u16_value, u32_value, u64_value,
  f32_value, f64_value, string_value, null, data_type, fixed_size, Primitives, invalid,
  DataTypeCreateError,
}
use abdb.Databox.Values.{to_bytes, from_bytes, leading}

-- A data type is read back from its byte.
pub try_from-into : (t : DataType) → try_from (into t) ≡ ok t
unfolding try_from
try_from-into bool = refl
try_from-into i8 = refl
try_from-into i16 = refl
try_from-into i32 = refl
try_from-into i64 = refl
try_from-into u8 = refl
try_from-into u16 = refl
try_from-into u32 = refl
try_from-into u64 = refl
try_from-into f32 = refl
try_from-into f64 = refl
try_from-into string = refl

-- Where a byte is read as a data type, it is that type's.
abbrev Decodes : ℕ → Result DataTypeCreateError DataType → Type 0
Decodes n r = (t : DataType) → r ≡ ok t → into t ≡ n

decoded :
    (n k : ℕ) (s : DataType) (rest : Result DataTypeCreateError DataType)
    → into s ≡ k
    → Decodes n rest
    → Decodes n (if n == k then ok s else rest)
decoded n k s rest e later =
    if-cases (Decodes n) (n == k) (ok s) rest
      (λ here t h. let same : s ≡ t = cc in ap into (sym same) ∙ e ∙ ground arith) (λ _. later)

-- A byte is read as a data type exactly where it is that type's byte.
pub into-try_from : (n : ℕ) (t : DataType) → (try_from n ≡ ok t) ↔ (into t ≡ n)
unfolding try_from
into-try_from n t = (λ h. all t h, λ h. rw (sym h) (try_from-into t))
  where
    missing : Decodes n (err (invalid n))
    missing t h = cc

    all : Decodes n (try_from n)
    all = decoded n 0 bool _ refl (
        decoded n 1 i8 _ refl (
          decoded n 2 i16 _ refl (
            decoded n 3 i32 _ refl (
              decoded n 4 i64 _ refl (
                decoded n 5 u8 _ refl (
                  decoded n 6 u16 _ refl (
                    decoded n 7 u32 _ refl (
                      decoded n 8 u64 _ refl (
                        decoded n 9 f32 _ refl
                          (decoded n 10 f64 _ refl (decoded n 11 string _ refl (missing))))))))))))

-- The numbers in a value fit their types, and a string is what the decoding leaves as it is.
abbrev pub IsValid : Primitives → Value → Type 0
IsValid prims (bool_value v) = Unit {0}
IsValid prims (i8_value v) = v < 2 ^ 8
IsValid prims (i16_value v) = v < 2 ^ 16
IsValid prims (i32_value v) = v < 2 ^ 32
IsValid prims (i64_value v) = v < 2 ^ 64
IsValid prims (u8_value v) = v < 2 ^ 8
IsValid prims (u16_value v) = v < 2 ^ 16
IsValid prims (u32_value v) = v < 2 ^ 32
IsValid prims (u64_value v) = v < 2 ^ 64
IsValid prims (f32_value v) = v < 2 ^ 32
IsValid prims (f64_value v) = v < 2 ^ 64
IsValid prims (string_value s) = prims.from_utf8_lossy s ≡ s
IsValid prims null = Unit {0}

leading-to_le_bytes : (n v : ℕ) → v < 256 ^ n → leading n (to_le_bytes n v) ≡ some v
leading-to_le_bytes n v h =
    let whole : length (to_le_bytes n v) ≡ n = length-to_le_bytes n v in
    let fits : leb n n ≡ true = ground arith in
    rw whole (
      rw fits (
        rw (take_all n (to_le_bytes n v) (omega (arith, whole)))
          (ap some (from_le_bytes-to_le_bytes n v h))))

-- What a value's bytes are read as, by its type.
abbrev ReadBack : Primitives → Value → Option DataType → Type 0
ReadBack prims v none = Unit {0}
ReadBack prims v (some t) =
    (from_bytes prims t (to_bytes v) ≡ some v)
    × ((n : ℕ) → fixed_size t ≡ some n → length (to_bytes v) ≡ n)

some_injective : {a b : ℕ} → some a ≡ some b → a ≡ b
some_injective h = cc

none-some : {a : ℕ} → none ≡ some a → ⊥
none-some h = cc

read_back : (prims : Primitives) (v : Value) → IsValid prims v → ReadBack prims v (data_type v)
unfolding from_bytes to_bytes data_type fixed_size
read_back prims null valid = tt
read_back prims (bool_value true) valid = (refl, λ n h. some_injective h)
read_back prims (bool_value false) valid = (refl, λ n h. some_injective h)
read_back prims (i8_value v) valid = (refl, λ n h. some_injective h)
read_back prims (u8_value v) valid = (refl, λ n h. some_injective h)
read_back prims (string_value s) valid =
    (ap (λ x. some (string_value x)) valid, λ n h. elim (none-some h) [ ])
read_back prims (i16_value v) valid = (
  ap (Option.map i16_value) (leading-to_le_bytes 2 v (omega arith)),
  λ n h. length-to_le_bytes 2 v ∙ some_injective h,
)
read_back prims (i32_value v) valid = (
  ap (Option.map i32_value) (leading-to_le_bytes 4 v (omega arith)),
  λ n h. length-to_le_bytes 4 v ∙ some_injective h,
)
read_back prims (i64_value v) valid = (
  ap (Option.map i64_value) (leading-to_le_bytes 8 v (omega arith)),
  λ n h. length-to_le_bytes 8 v ∙ some_injective h,
)
read_back prims (u16_value v) valid = (
  ap (Option.map u16_value) (leading-to_le_bytes 2 v (omega arith)),
  λ n h. length-to_le_bytes 2 v ∙ some_injective h,
)
read_back prims (u32_value v) valid = (
  ap (Option.map u32_value) (leading-to_le_bytes 4 v (omega arith)),
  λ n h. length-to_le_bytes 4 v ∙ some_injective h,
)
read_back prims (u64_value v) valid = (
  ap (Option.map u64_value) (leading-to_le_bytes 8 v (omega arith)),
  λ n h. length-to_le_bytes 8 v ∙ some_injective h,
)
read_back prims (f32_value v) valid = (
  ap (Option.map f32_value) (leading-to_le_bytes 4 v (omega arith)),
  λ n h. length-to_le_bytes 4 v ∙ some_injective h,
)
read_back prims (f64_value v) valid = (
  ap (Option.map f64_value) (leading-to_le_bytes 8 v (omega arith)),
  λ n h. length-to_le_bytes 8 v ∙ some_injective h,
)

-- The bytes of a valid value that is not null give the value back with its type, and are as many as
-- its type has, if that is fixed.
pub from_bytes-to_bytes :
    (prims : Primitives) (v : Value) (t : DataType)
    → IsValid prims v
    → data_type v ≡ some t
    → (from_bytes prims t (to_bytes v) ≡ some v)
      × ((n : ℕ) → fixed_size t ≡ some n → length (to_bytes v) ≡ n)
from_bytes-to_bytes prims v t valid h = by_type (data_type v) (some t) h (read_back prims v valid)
  where
    by_type : (o o' : Option DataType) → o ≡ o' → ReadBack prims v o → ReadBack prims v o'
    by_type o o' e r = rw (sym e) r
