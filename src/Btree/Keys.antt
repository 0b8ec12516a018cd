-- ===== src/Btree/Keys.antt =====
-- src/accessor/btree.rs: the conversion between the byte strings of the scan and write interfaces and
-- the u64 keys of the tree.
use abdb.Base.{
  ℕ, zero, suc, ◌-◌, ◌^◌, ◌<◌, ◌≡◌, refl, ap, List, [], ◌∷◌, ◌++◌, length, take, arith, replicate,
  if◌then◌else◌, leb,
}
use abdb.Bytes.{to_le_bytes, from_le_bytes, length-to_le_bytes, from_le_bytes-to_le_bytes}

-- `bytes.len().min(8)`.
abbrev min8 : ℕ → ℕ
min8 n = if leb n 8 then n else 8

-- The first eight bytes, padded with zeros, as a little-endian number.
unfoldable pub key_from_bytes : List ℕ → ℕ
key_from_bytes bytes =
    from_le_bytes (take (min8 (length bytes)) bytes ++ replicate (8 - min8 (length bytes)) 0)

unfoldable pub key_to_bytes : ℕ → List ℕ
key_to_bytes key = to_le_bytes 8 key

take-all : (xs : List ℕ) (n : ℕ) → length xs ≡ n → take n xs ++ [] ≡ xs
take-all [] zero h = refl
take-all [] (suc n) h = refl
take-all (x ∷ xs) zero h = absurd (omega arith)
take-all (x ∷ xs) (suc n) h = ap (λ ys. x ∷ ys) (take-all xs n (omega arith))

-- A key of 64 bits is turned into eight bytes, from which it is read back.
pub key_from_bytes-key_to_bytes :
    (key : ℕ)
    → key < 2 ^ 64
    → (key_from_bytes (key_to_bytes key) ≡ key) × (length (key_to_bytes key) ≡ 8)
unfolding key_from_bytes key_to_bytes
key_from_bytes-key_to_bytes key h =
    let eight : length (to_le_bytes 8 key) ≡ 8 = length-to_le_bytes 8 key in
    (
      rw eight (
          rw (take-all (to_le_bytes 8 key) 8 eight)
            (from_le_bytes-to_le_bytes 8 key (omega arith))),
      eight,
    )
