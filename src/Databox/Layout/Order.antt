-- ===== src/Databox/Layout/Order.antt =====
-- src/databox/layout.rs: the order in which a layout places the columns.
use mathlib.Core.List.{Perm, reverse_aux}
use mathlib.Core.List.Perm
use abdb.Base.{ℕ, ◌≤◌, ◌≡◌, refl, List, [], ◌∷◌, map, leb, arith, Bool-cases, inl, inr}
use abdb.Databox.{DataType}
use abdb.Databox.Layout.{Column, Place, insert_column, sort_columns, place_columns}

-- What a column and its place have in common: the name and the type.
abbrev pub column_key : Column → List ℕ × DataType
column_key c = (c.name, c.type_id)

abbrev pub place_key : Place → List ℕ × DataType
place_key p = (p.name, p.type_id)

abbrev AllFrom : ℕ → List Column → Type 0
AllFrom n [] = Unit {0}
AllFrom n (c ∷ cs) = (n ≤ c.position) × AllFrom n cs

-- Positions do not fall along the list.
abbrev pub Rising : List Column → Type 0
Rising [] = Unit {0}
Rising (c ∷ cs) = AllFrom c.position cs × Rising cs

AllFrom-mono : (m n : ℕ) (cs : List Column) → m ≤ n → AllFrom n cs → AllFrom m cs
AllFrom-mono m n [] h a = tt
AllFrom-mono m n (c ∷ cs) h (first, rest) = (omega arith, AllFrom-mono m n cs h rest)

insert_column-AllFrom :
    (n : ℕ) (c : Column) (cs : List Column)
    → n ≤ c.position
    → AllFrom n cs
    → AllFrom n (insert_column c cs)
unfolding insert_column
insert_column-AllFrom n c [] h a = (h, tt)
insert_column-AllFrom n c (d ∷ ds) h (first, rest) = elim (Bool-cases (leb c.position d.position)) [
  | inl before ↦ rw before (h, (first, rest))
  | inr after ↦ rw after (first, insert_column-AllFrom n c ds h rest)
]

insert_column-Rising : (c : Column) (cs : List Column) → Rising cs → Rising (insert_column c cs)
unfolding insert_column
insert_column-Rising c [] r = (tt, tt)
insert_column-Rising c (d ∷ ds) (first, rest) = elim (Bool-cases (leb c.position d.position)) [
  | inl before ↦
      let least : c.position ≤ d.position = ground arith in
      rw before ((least, AllFrom-mono c.position d.position ds least first), (first, rest))
  | inr after ↦
      let more : d.position ≤ c.position = ground arith in
      rw after (insert_column-AllFrom d.position c ds more first, insert_column-Rising c ds rest)
]

pub sort_columns-Rising : (cs : List Column) → Rising (sort_columns cs)
unfolding sort_columns
sort_columns-Rising [] = tt
sort_columns-Rising (c ∷ cs) = insert_column-Rising c (sort_columns cs) (sort_columns-Rising cs)

insert_column-Perm : (c : Column) (cs : List Column) → Perm (insert_column c cs) (c ∷ cs)
unfolding insert_column
insert_column-Perm c [] = Perm.refl (c ∷ [])
insert_column-Perm c (d ∷ ds) = elim (Bool-cases (leb c.position d.position)) [
  | inl before ↦ rw before (Perm.refl (c ∷ d ∷ ds))
  | inr after ↦ rw after (Perm.trans (Perm.cons d (insert_column-Perm c ds)) (Perm.swap c d ds))
]

pub sort_columns-Perm : (cs : List Column) → Perm (sort_columns cs) cs
unfolding sort_columns
sort_columns-Perm [] = Perm.refl []
sort_columns-Perm (c ∷ cs) =
    Perm.trans (insert_column-Perm c (sort_columns cs)) (Perm.cons c (sort_columns-Perm cs))

-- Every column gets its place, the latest first.
pub place_columns_keys :
    (cs : List Column) (o : ℕ) (ps : List Place)
    → map place_key (place_columns o ps cs).0 ≡ reverse_aux (map column_key cs) (map place_key ps)
unfolding place_columns
place_columns_keys [] o ps = refl
place_columns_keys (c ∷ cs) o ps = place_columns_keys cs _ _
