-- ===== src/Visibility.antt =====
-- src/accessor/visibility.rs and src/common/txn.rs: the header of a tuple, and which transactions
-- see the tuple.
use abdb.Base.{
  ℕ, ◌+◌, ◌^◌, ◌<◌, ◌≡◌, ◌≢◌, refl, ap, sym, ◌∙◌, Bool, true, false, List, [], ◌∷◌, ◌++◌, length,
  length-append, take, drop, replicate, arith, if◌then◌else◌, leb, ltb, ◌==◌, ◌&&◌, ◌||◌, Result,
  ok, ◌>>=◌, ◌>>◌, assert, expect, take-append_left,
}
use mathlib.Core.List.{append_assoc}
use abdb.Bytes.{to_le_bytes, from_le_bytes, slice, length-to_le_bytes, from_le_bytes-to_le_bytes}

pub data IsolationLevel : Type 0 where
  read_uncommitted : IsolationLevel
  read_committed : IsolationLevel
  snapshot : IsolationLevel

pub record Txn : Type 0 where
  pub id : ℕ
  pub isolation : IsolationLevel

-- Nothing here returns an error: a tuple that is too short makes the code panic.
pub data NoError : Type 0 where

abbrev pub Panics : Type 0 → Type 0
Panics = Result NoError

abbrev pub tuple_header_size : ℕ
tuple_header_size = 16

unfoldable pub read_xmin : List ℕ → Panics ℕ
read_xmin tuple = do bytes ← expect (slice tuple 0 8); ok (from_le_bytes bytes)

unfoldable pub read_xmax : List ℕ → Panics ℕ
read_xmax tuple = do bytes ← expect (slice tuple 8 16); ok (from_le_bytes bytes)

-- `tuple[0..8].copy_from_slice(..)`.
unfoldable pub write_xmin : List ℕ → ℕ → Panics (List ℕ)
write_xmin tuple xmin = do assert (leb 8 (length tuple)); ok (to_le_bytes 8 xmin ++ drop 8 tuple)

unfoldable pub write_xmax : List ℕ → ℕ → Panics (List ℕ)
write_xmax tuple xmax = do
  assert (leb 16 (length tuple))
  ok (take 8 tuple ++ (to_le_bytes 8 xmax ++ drop 16 tuple))

unfoldable pub make_header : ℕ → List ℕ
make_header xmin = to_le_bytes 8 xmin ++ replicate 8 0

unfoldable pub is_visible : List ℕ → Txn → Panics Bool
is_visible tuple txn = if ltb (length tuple) tuple_header_size then ok false else (do
  xmax ← read_xmax tuple
  elim txn.isolation [
    | read_uncommitted ↦ ok (xmax == 0 || ltb txn.id xmax)
    | read_committed ↦ (do
      xmin ← read_xmin tuple
      ok (leb xmin txn.id && (xmax == 0 || ltb txn.id xmax)))
    | snapshot ↦ (do xmin ← read_xmin tuple; ok (leb xmin txn.id && (xmax == 0 || ltb txn.id xmax)))
  ])

-- A tuple with its header written out.
abbrev pub tuple_of : ℕ → ℕ → List ℕ → List ℕ
tuple_of xmin xmax payload = to_le_bytes 8 xmin ++ (to_le_bytes 8 xmax ++ payload)

-- Who sees a tuple: not before its creation, except for dirty reads, and not from its deletion on.
abbrev pub sees : ℕ → ℕ → Txn → Bool
sees xmin xmax txn =
    let undeleted = xmax == 0 || ltb txn.id xmax in
    elim txn.isolation [
      | read_uncommitted ↦ undeleted
      | read_committed ↦ leb xmin txn.id && undeleted
      | snapshot ↦ leb xmin txn.id && undeleted
    ]

drop-append : (xs ys : List ℕ) (n : ℕ) → n ≡ length xs → drop n (xs ++ ys) ≡ ys
drop-append [] ys n h = let e : n ≡ 0 = omega arith in rw e refl
drop-append (x ∷ xs) ys n h =
    let e : n ≡ ℕ.suc (length xs) = omega arith in rw e (drop-append xs ys (length xs) refl)

module _ (xmin xmax : ℕ) (payload : List ℕ) (a : xmin < 2 ^ 64) (b : xmax < 2 ^ 64) where
  pub long : length (tuple_of xmin xmax payload) ≡ 16 + length payload
  long = omega (
    arith,
    length-append (to_le_bytes 8 xmin) (to_le_bytes 8 xmax ++ payload),
    length-append (to_le_bytes 8 xmax) payload,
    length-to_le_bytes 8 xmin,
    length-to_le_bytes 8 xmax,
  )

  pub read_xmin_tuple : read_xmin (tuple_of xmin xmax payload) ≡ ok xmin
  unfolding read_xmin slice
  read_xmin_tuple =
      let fits : leb 8 (length (tuple_of xmin xmax payload)) ≡ true = ground (arith, long) in
      rw fits (
        rw
          (take-append_left 8 (to_le_bytes 8 xmin) (to_le_bytes 8 xmax ++ payload)
            (sym (length-to_le_bytes 8 xmin)))
          (ap ok (from_le_bytes-to_le_bytes 8 xmin (omega arith))))

  pub read_xmax_tuple : read_xmax (tuple_of xmin xmax payload) ≡ ok xmax
  unfolding read_xmax slice
  read_xmax_tuple =
      let fits : leb 16 (length (tuple_of xmin xmax payload)) ≡ true = ground (arith, long) in
      rw fits (
        rw
          (drop-append (to_le_bytes 8 xmin) (to_le_bytes 8 xmax ++ payload) 8
            (sym (length-to_le_bytes 8 xmin)))
          (rw (take-append_left 8 (to_le_bytes 8 xmax) payload (sym (length-to_le_bytes 8 xmax)))
            (ap ok (from_le_bytes-to_le_bytes 8 xmax (omega arith)))))

  -- `is_visible` on a tuple whose header holds `xmin` and `xmax` (of 64 bits each) does not panic:
  -- the tuple is seen if it is not deleted, or deleted by a transaction with a greater id, also by
  -- uncommitted reads, and, but for uncommitted reads, created by a transaction whose id is not
  -- greater.
  pub is_visible-sees :
      (txn : Txn) → is_visible (tuple_of xmin xmax payload) txn ≡ ok (sees xmin xmax txn)
  unfolding is_visible
  is_visible-sees txn =
      let whole : ltb (length (tuple_of xmin xmax payload)) tuple_header_size ≡ false =
        ground (arith, long) in
      rw whole (rw read_xmax_tuple (ground (arith, read_xmin_tuple)))

  -- The payload stands behind the header.
  pub drop_header : drop 16 (tuple_of xmin xmax payload) ≡ payload
  drop_header =
      let headers : length (to_le_bytes 8 xmin ++ to_le_bytes 8 xmax) ≡ 16 = omega (
        arith,
        length-append (to_le_bytes 8 xmin) (to_le_bytes 8 xmax),
        length-to_le_bytes 8 xmin,
        length-to_le_bytes 8 xmax,
      ) in
      ap (drop 16) (sym (append_assoc (to_le_bytes 8 xmin) (to_le_bytes 8 xmax) payload))
      ∙ drop-append (to_le_bytes 8 xmin ++ to_le_bytes 8 xmax) payload 16 (sym headers)

  -- Setting the deleter keeps the creator and the payload.
  pub write_xmax_tuple :
      (deleter : ℕ)
      → write_xmax (tuple_of xmin xmax payload) deleter ≡ ok (tuple_of xmin deleter payload)
  unfolding write_xmax
  write_xmax_tuple deleter =
      let fits : leb 16 (length (tuple_of xmin xmax payload)) ≡ true = ground (arith, long) in
      let rest = drop_header in
      let front : take 8 (tuple_of xmin xmax payload) ≡ to_le_bytes 8 xmin =
        take-append_left 8 (to_le_bytes 8 xmin) (to_le_bytes 8 xmax ++ payload)
          (sym (length-to_le_bytes 8 xmin)) in
      rw fits (rw (front, rest) refl)

-- Where `xmin`, `xmax` and a nonzero deleter id have 64 bits each, writing the deleter into a tuple
-- succeeds, and the tuple is then seen just by those transactions, uncommitted reads included, that
-- see it undeleted and have a smaller id than the deleter.
pub write_xmax-is_visible :
    (xmin xmax deleter : ℕ) (payload : List ℕ) (txn : Txn)
    → xmin < 2 ^ 64
    → xmax < 2 ^ 64
    → deleter < 2 ^ 64
    → deleter ≢ 0
    → (write_xmax (tuple_of xmin xmax payload) deleter >>= λ t. is_visible t txn)
      ≡ ok (ltb txn.id deleter && sees xmin 0 txn)
write_xmax-is_visible xmin xmax deleter payload txn a b c live =
    rw
      (write_xmax_tuple xmin xmax payload a b deleter, is_visible-sees xmin deleter payload a c txn)
      (ground arith)

-- The header that `make_header` gives is that of a tuple without a deleter.
pub make_header_tuple :
    (xmin : ℕ) (payload : List ℕ) → make_header xmin ++ payload ≡ tuple_of xmin 0 payload
unfolding make_header to_le_bytes
make_header_tuple xmin payload = append_assoc (to_le_bytes 8 xmin) (replicate 8 0) payload
