-- ===== src/Databox/Layout/Fields.antt =====
-- src/databox/layout.rs: a field written in place, read back.
use abdb.Base.{
  ℕ, zero, suc, ◌+◌, ◌^◌, ◌<◌, ◌≤◌, ◌≡◌, ◌≢◌, refl, sym, ap, ◌∙◌, true, false, Option, some, none,
  List, [], ◌∷◌, ◌++◌, take, drop, length, get_elem?, leb, arith, length-append, length-take,
  get_elem?-take, take-append_left, Bool-cases, inl, inr,
}
use mathlib.Core.Option
use abdb.Bytes.{to_le_bytes, length-to_le_bytes, from_le_bytes-to_le_bytes}
use abdb.Databox.{
  DataType, string, Value, bool_value, i8_value, i16_value, i32_value, i64_value, u8_value,
  u16_value, u32_value, u64_value, f32_value, f64_value, string_value, null, data_type, is_null,
  Primitives,
}
use abdb.Databox.Codec.{IsValid}
use abdb.Databox.Layout.{
  read_le_arr, write_le, change_byte, read_typed, write_typed, get_type_layout,
}
use abdb.Databox.Layout.Offsets.{size_of}

get_elem?-append_left :
    (xs ys : List ℕ) (i : ℕ) → i < length xs → get_elem? (xs ++ ys) i ≡ get_elem? xs i
get_elem?-append_left [] ys i h = absurd (omega arith)
get_elem?-append_left (x ∷ xs) ys zero h = refl
get_elem?-append_left (x ∷ xs) ys (suc i) h = get_elem?-append_left xs ys i (omega arith)

drop-append_left : (n : ℕ) (xs ys : List ℕ) → n ≡ length xs → drop n (xs ++ ys) ≡ ys
drop-append_left zero [] ys h = refl
drop-append_left zero (x ∷ xs) ys h = absurd (omega arith)
drop-append_left (suc n) [] ys h = absurd (omega arith)
drop-append_left (suc n) (x ∷ xs) ys h = drop-append_left n xs ys (omega arith)

pub length-change_byte : (xs : List ℕ) (i : ℕ) (f : ℕ → ℕ) → length (change_byte xs i f) ≡ length xs
length-change_byte [] i f = refl
length-change_byte (x ∷ xs) zero f = refl
length-change_byte (x ∷ xs) (suc i) f = ap suc (length-change_byte xs i f)

pub get_elem?-change_byte :
    (xs : List ℕ) (i : ℕ) (f : ℕ → ℕ)
    → get_elem? (change_byte xs i f) i ≡ Option.map f (get_elem? xs i)
get_elem?-change_byte [] i f = refl
get_elem?-change_byte (x ∷ xs) zero f = refl
get_elem?-change_byte (x ∷ xs) (suc i) f = get_elem?-change_byte xs i f

get_elem?-change_byte_below :
    (xs : List ℕ) (i j : ℕ) (f : ℕ → ℕ) → j < i → get_elem? (change_byte xs i f) j ≡ get_elem? xs j
get_elem?-change_byte_below [] i j f h = refl
get_elem?-change_byte_below (x ∷ xs) zero j f h = absurd (omega arith)
get_elem?-change_byte_below (x ∷ xs) (suc i) zero f h = refl
get_elem?-change_byte_below (x ∷ xs) (suc i) (suc j) f h =
    get_elem?-change_byte_below xs i j f (omega arith)

change_byte-there :
    (xs : List ℕ) (i : ℕ) (v : ℕ) → i < length xs → get_elem? (change_byte xs i (λ b. v)) i ≡ some v
change_byte-there [] i v h = absurd (omega arith)
change_byte-there (x ∷ xs) zero v h = refl
change_byte-there (x ∷ xs) (suc i) v h = change_byte-there xs i v (omega arith)

get_elem?-write_le :
    (xs : List ℕ) (o : ℕ) (bytes : List ℕ) (i : ℕ)
    → i < o
    → get_elem? (write_le xs o bytes) i ≡ get_elem? xs i
unfolding write_le
get_elem?-write_le xs o bytes i h = elim (Bool-cases (leb (o + length bytes) (length xs))) [
  | inr outside ↦ rw outside refl
  | inl inside ↦ rw inside (
      get_elem?-append_left (take o xs) (bytes ++ drop (o + length bytes) xs) i
        (rw (length-take o xs) (ground arith))
      ∙ get_elem?-take o i xs h)
]

-- What is written within bounds is read back.
read_le_arr-write_le :
    (xs : List ℕ) (o n v : ℕ)
    → o + n ≤ length xs
    → v < 256 ^ n
    → read_le_arr n (write_le xs o (to_le_bytes n v)) o ≡ some v
unfolding write_le read_le_arr
read_le_arr-write_le xs o n v h small =
    let whole : length (to_le_bytes n v) ≡ n = length-to_le_bytes n v in
    let inside : leb (o + length (to_le_bytes n v)) (length xs) ≡ true = ground (arith, whole) in
    let before : o ≡ length (take o xs) = rw (length-take o xs) (omega arith) in
    let rest : List ℕ = drop (o + length (to_le_bytes n v)) xs in
    let long : leb (o + n) (length (take o xs ++ (to_le_bytes n v ++ rest))) ≡ true = ground (
      arith,
      length-append (take o xs) (to_le_bytes n v ++ rest),
      length-append (to_le_bytes n v) rest,
    ) in
    rw inside (
      rw long (
        rw (drop-append_left o (take o xs) (to_le_bytes n v ++ rest) before) (
          rw (take-append_left n (to_le_bytes n v) rest (sym whole))
            (ap some (from_le_bytes-to_le_bytes n v small)))))

-- A write of a value where its type's bytes are: it is read back, and no byte before it changes.
abbrev pub Written : Primitives → Value → List ℕ → ℕ → Option DataType → Type 0
Written prims v xs o none = Unit {0}
Written prims v xs o (some t) =
    t ≢ string
    → o + size_of t ≤ length xs
    → (is_null v ≡ false)
      × ((write_typed v xs o).1 ≡ true)
      × (read_typed prims t (write_typed v xs o).0 o ≡ some v)
      × ((i : ℕ) → i < o → get_elem? (write_typed v xs o).0 i ≡ get_elem? xs i)

pub write_typed-Written :
    (prims : Primitives) (v : Value) (xs : List ℕ) (o : ℕ)
    → IsValid prims v
    → Written prims v xs o (data_type v)
unfolding data_type write_typed read_typed is_null get_type_layout
write_typed-Written prims null xs o valid = tt
write_typed-Written prims (string_value s) xs o valid = λ fixed h. absurd (fixed refl)
write_typed-Written prims (bool_value true) xs o valid = λ fixed h. (
  refl,
  refl,
  rw (change_byte-there xs o 1 (omega arith)) refl,
  λ i g. get_elem?-change_byte_below xs o i _ g,
)
write_typed-Written prims (bool_value false) xs o valid = λ fixed h. (
  refl,
  refl,
  rw (change_byte-there xs o 0 (omega arith)) refl,
  λ i g. get_elem?-change_byte_below xs o i _ g,
)
write_typed-Written prims (i8_value v) xs o valid = λ fixed h. (
  refl,
  refl,
  rw (change_byte-there xs o v (omega arith)) refl,
  λ i g. get_elem?-change_byte_below xs o i _ g,
)
write_typed-Written prims (u8_value v) xs o valid = λ fixed h. (
  refl,
  refl,
  rw (change_byte-there xs o v (omega arith)) refl,
  λ i g. get_elem?-change_byte_below xs o i _ g,
)
write_typed-Written prims (i16_value v) xs o valid = λ fixed h. (
  refl,
  refl,
  ap (Option.map i16_value) (read_le_arr-write_le xs o 2 v (omega arith) (omega arith)),
  λ i g. get_elem?-write_le xs o (to_le_bytes 2 v) i g,
)
write_typed-Written prims (i32_value v) xs o valid = λ fixed h. (
  refl,
  refl,
  ap (Option.map i32_value) (read_le_arr-write_le xs o 4 v (omega arith) (omega arith)),
  λ i g. get_elem?-write_le xs o (to_le_bytes 4 v) i g,
)
write_typed-Written prims (i64_value v) xs o valid = λ fixed h. (
  refl,
  refl,
  ap (Option.map i64_value) (read_le_arr-write_le xs o 8 v (omega arith) (omega arith)),
  λ i g. get_elem?-write_le xs o (to_le_bytes 8 v) i g,
)
write_typed-Written prims (u16_value v) xs o valid = λ fixed h. (
  refl,
  refl,
  ap (Option.map u16_value) (read_le_arr-write_le xs o 2 v (omega arith) (omega arith)),
  λ i g. get_elem?-write_le xs o (to_le_bytes 2 v) i g,
)
write_typed-Written prims (u32_value v) xs o valid = λ fixed h. (
  refl,
  refl,
  ap (Option.map u32_value) (read_le_arr-write_le xs o 4 v (omega arith) (omega arith)),
  λ i g. get_elem?-write_le xs o (to_le_bytes 4 v) i g,
)
write_typed-Written prims (u64_value v) xs o valid = λ fixed h. (
  refl,
  refl,
  ap (Option.map u64_value) (read_le_arr-write_le xs o 8 v (omega arith) (omega arith)),
  λ i g. get_elem?-write_le xs o (to_le_bytes 8 v) i g,
)
write_typed-Written prims (f32_value v) xs o valid = λ fixed h. (
  refl,
  refl,
  ap (Option.map f32_value) (read_le_arr-write_le xs o 4 v (omega arith) (omega arith)),
  λ i g. get_elem?-write_le xs o (to_le_bytes 4 v) i g,
)
write_typed-Written prims (f64_value v) xs o valid = λ fixed h. (
  refl,
  refl,
  ap (Option.map f64_value) (read_le_arr-write_le xs o 8 v (omega arith) (omega arith)),
  λ i g. get_elem?-write_le xs o (to_le_bytes 8 v) i g,
)
