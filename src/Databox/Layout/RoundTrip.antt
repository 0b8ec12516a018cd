-- ===== src/Databox/Layout/RoundTrip.antt =====
-- src/databox/layout.rs: what `read_field` gives after `write_field`.
use abdb.Base.{
  ℕ, ◌+◌, ◌%◌, ◌<◌, ◌≤◌, ◌≡◌, ◌≢◌, refl, sym, true, false, Option, some, none, List, length,
  get_elem?, get_elem?-some, if◌then◌else◌, ◌==◌, arith, Bool-cases, inl, inr,
}
use mathlib.Core.Option
use abdb.Databox.{DataType, string, Value, null, data_type, is_null, Primitives}
use abdb.Databox.Codec.{IsValid}
use abdb.Databox.Layout.{
  TupleLayout, Place, place_of, bit, with_bit, without_bit, change_byte, null_byte, is_null_at,
  read_typed, write_typed, read_field, write_field,
}
use abdb.Databox.Layout.Offsets.{size_of}
use abdb.Databox.Layout.Fields.{
  get_elem?-change_byte, length-change_byte, Written, write_typed-Written,
}

-- The eight bits of a byte, one by one.
below8 : (P : ℕ → Type 0) → P 0 → P 1 → P 2 → P 3 → P 4 → P 5 → P 6 → P 7 → (k : ℕ) → k < 8 → P k
below8 P p0 p1 p2 p3 p4 p5 p6 p7 k h = elim (Bool-cases (k == 0)) [
  | inl e0 ↦ let z : k ≡ 0 = ground arith in rw z p0
  | inr n0 ↦ elim (Bool-cases (k == 1)) [
    | inl e1 ↦ let z : k ≡ 1 = ground arith in rw z p1
    | inr n1 ↦ elim (Bool-cases (k == 2)) [
      | inl e2 ↦ let z : k ≡ 2 = ground arith in rw z p2
      | inr n2 ↦ elim (Bool-cases (k == 3)) [
        | inl e3 ↦ let z : k ≡ 3 = ground arith in rw z p3
        | inr n3 ↦ elim (Bool-cases (k == 4)) [
          | inl e4 ↦ let z : k ≡ 4 = ground arith in rw z p4
          | inr n4 ↦ elim (Bool-cases (k == 5)) [
            | inl e5 ↦ let z : k ≡ 5 = ground arith in rw z p5
            | inr n5 ↦ elim (Bool-cases (k == 6)) [
              | inl e6 ↦ let z : k ≡ 6 = ground arith in rw z p6
              | inr n6 ↦ elim (Bool-cases (k == 7)) [
                | inl e7 ↦ let z : k ≡ 7 = ground arith in rw z p7
                | inr n7 ↦ absurd (ground arith)
              ]
            ]
          ]
        ]
      ]
    ]
  ]
]

bit-without_bit : (b k : ℕ) → k < 8 → bit (without_bit b k) k ≡ false
bit-without_bit b =
    below8 (λ k. bit (without_bit b k) k ≡ false) (ground arith) (ground arith) (ground arith)
      (ground arith) (ground arith) (ground arith) (ground arith) (ground arith)

bit-with_bit : (b k : ℕ) → k < 8 → bit (with_bit b k) k ≡ true
bit-with_bit b =
    below8 (λ k. bit (with_bit b k) k ≡ true) (ground arith) (ground arith) (ground arith)
      (ground arith) (ground arith) (ground arith) (ground arith) (ground arith)

-- The bit of a column after it is cleared, and after it is set where the tuple has its byte.
cleared :
    (tuple : List ℕ) (i k : ℕ)
    → k < 8
    → is_null_at (get_elem? (change_byte tuple i (λ b. without_bit b k)) i) k ≡ false
cleared tuple i k h =
    rw (get_elem?-change_byte tuple i (λ b. without_bit b k)) (by_byte (get_elem? tuple i))
  where
    by_byte : (o : Option ℕ) → is_null_at (Option.map (λ b. without_bit b k) o) k ≡ false
    by_byte none = refl
    by_byte (some b) = bit-without_bit b k h

marked :
    (tuple : List ℕ) (i k : ℕ)
    → k < 8
    → i < length tuple
    → is_null_at (get_elem? (change_byte tuple i (λ b. with_bit b k)) i) k ≡ true
marked tuple i k h there =
    let (b, e) = get_elem?-some tuple i there in
    rw (get_elem?-change_byte tuple i (λ b. with_bit b k)) (rw e (bit-with_bit b k h))

write_placed :
    (layout : TupleLayout) (name : List ℕ) (p : Place) (col_index : ℕ) (tuple : List ℕ) (v : Value)
    → place_of name layout.places ≡ some p
    → write_field layout name col_index tuple v ≡ (
        if is_null v
        then (
          change_byte tuple (null_byte layout col_index) (λ b. with_bit b (col_index % 8)),
          true,
        )
        else write_typed v
            (change_byte tuple (null_byte layout col_index) (λ b. without_bit b (col_index % 8)))
            p.offset)
unfolding write_field
write_placed layout name p col_index tuple v h = rw (h, write_field) refl

read_placed :
    (prims : Primitives) (layout : TupleLayout) (name : List ℕ) (p : Place) (col_index : ℕ)
    (tuple : List ℕ)
    → place_of name layout.places ≡ some p
    → read_field prims layout name col_index tuple ≡ (
        if is_null_at (get_elem? tuple (null_byte layout col_index)) (col_index % 8)
        then some null
        else read_typed prims p.type_id tuple p.offset)
unfolding read_field
read_placed prims layout name p col_index tuple h = rw (h, read_field) refl

-- A column of a fixed width, placed in the tuple behind its bit of the null bitmap: a valid value of
-- the column's type that is written is written, and read back.
pub read_field-write_field :
    (prims : Primitives) (layout : TupleLayout) (name : List ℕ) (p : Place) (col_index : ℕ)
    (tuple : List ℕ) (v : Value)
    → place_of name layout.places ≡ some p
    → IsValid prims v
    → data_type v ≡ some p.type_id
    → p.type_id ≢ string
    → null_byte layout col_index < p.offset
    → p.offset + size_of p.type_id ≤ length tuple
    → ((write_field layout name col_index tuple v).1 ≡ true)
      × (read_field prims layout name col_index (write_field layout name col_index tuple v).0
          ≡ some v)
read_field-write_field prims layout name p col_index tuple v placed valid typed fixed behind
      within =
    let i : ℕ = null_byte layout col_index in
    let k : ℕ = col_index % 8 in
    let small : k < 8 = omega arith in
    let xs : List ℕ = change_byte tuple i (λ b. without_bit b k) in
    let w : Written prims v xs p.offset (some p.type_id) =
      by_type xs (data_type v) (some p.type_id) typed
        (write_typed-Written prims v xs p.offset valid) in
    let (present, done, back, before) =
      w fixed (omega (arith, length-change_byte tuple i (λ b. without_bit b k))) in
    rw (write_placed layout name p col_index tuple v placed) (
      rw present (
        done,
        rw (read_placed prims layout name p col_index (write_typed v xs p.offset).0 placed)
            (rw (before i behind) (rw (cleared tuple i k small) back)),
      ))
  where
    by_type :
        (xs : List ℕ) (o o' : Option DataType)
        → o ≡ o'
        → Written prims v xs p.offset o
        → Written prims v xs p.offset o'
    by_type xs o o' e w = rw (sym e) w

-- A null that is written to a column of the layout, whose bit of the null bitmap lies in the tuple,
-- is read back as null.
pub read_field-write_field_null :
    (prims : Primitives) (layout : TupleLayout) (name : List ℕ) (p : Place) (col_index : ℕ)
    (tuple : List ℕ)
    → place_of name layout.places ≡ some p
    → null_byte layout col_index < length tuple
    → ((write_field layout name col_index tuple null).1 ≡ true)
      × (read_field prims layout name col_index (write_field layout name col_index tuple null).0
          ≡ some null)
unfolding is_null
read_field-write_field_null prims layout name p col_index tuple placed there =
    let small : col_index % 8 < 8 = omega arith in
    let xs : List ℕ =
      change_byte tuple (null_byte layout col_index) (λ b. with_bit b (col_index % 8)) in
    rw (write_placed layout name p col_index tuple null placed) (
      refl,
      rw (read_placed prims layout name p col_index xs placed)
          (rw (marked tuple (null_byte layout col_index) (col_index % 8) small there) refl),
    )
