-- ===== src/Bytes.antt =====
-- Little-endian integers in byte sequences (`to_le_bytes`, `from_le_bytes`) and slices of them.
use native.Mathlib.Nat.{pow-suc}
use abdb.Base.{
  ℕ, zero, suc, ◌+◌, ◌-◌, ◌*◌, ◌/◌, ◌%◌, ◌^◌, ◌<◌, ◌≡◌, refl, ap, Option, some, none, List, [], ◌∷◌,
  length, take, drop, arith, if◌then◌else◌, leb,
}

-- `x.to_le_bytes()` for an integer of `n` bytes.
unfoldable pub to_le_bytes : ℕ → ℕ → List ℕ
to_le_bytes zero x = []
to_le_bytes (suc n) x = (x % 256) ∷ to_le_bytes n (x / 256)

unfoldable pub from_le_bytes : List ℕ → ℕ
from_le_bytes [] = 0
from_le_bytes (b ∷ bs) = b + 256 * from_le_bytes bs

-- `bytes.get(start..end)`.
unfoldable pub slice {ℓ} : {A : Type ℓ} → List A → ℕ → ℕ → Option (List A)
slice xs start end =
    if leb start end
    then (if leb end (length xs) then some (take (end - start) (drop start xs)) else none)
    else none

pub length-to_le_bytes : (n x : ℕ) → length (to_le_bytes n x) ≡ n
unfolding to_le_bytes
length-to_le_bytes zero x = refl
length-to_le_bytes (suc n) x = ap suc (length-to_le_bytes n (x / 256))

-- An integer that fits in its bytes is read back.
pub from_le_bytes-to_le_bytes : (n x : ℕ) → x < 256 ^ n → from_le_bytes (to_le_bytes n x) ≡ x
unfolding from_le_bytes to_le_bytes
from_le_bytes-to_le_bytes zero x h = omega arith
from_le_bytes-to_le_bytes (suc n) x h =
    omega
      (arith, pow-suc 256 n, from_le_bytes-to_le_bytes n (x / 256) (omega (arith, pow-suc 256 n)))
