-- ===== src/Slots/Cut.antt =====
-- A sorted list cut at an index, as two maps.
use abdb.Base.{
  ℕ, zero, suc, ◌<◌, ◌≡◌, refl, none, List, [], ◌∷◌, ◌++◌, length, take, drop, length-take,
  if◌then◌else◌, ltb, arith,
}
use abdb.Slots.{key_at, IsSorted, assoc}
use abdb.Slots.Order.{key_at-take}
use abdb.Slots.Assoc.{assoc_absent}

module _ {E : Type 0} (key : E → ℕ) where
  tail-IsSorted : (e : E) (es : List E) → IsSorted key (e ∷ es) → IsSorted key es
  tail-IsSorted e es sorted i j h p = sorted (suc i) (suc j) (omega arith) (omega arith)

  pub take-IsSorted : (n : ℕ) (es : List E) → IsSorted key es → IsSorted key (take n es)
  take-IsSorted n es sorted i j h p =
      rw
        (
          key_at-take key n i es (omega (arith, length-take n es)),
          key_at-take key n j es (omega (arith, length-take n es)),
        )
        (sorted i j h (omega (arith, length-take n es)))

  pub drop-IsSorted : (n : ℕ) (es : List E) → IsSorted key es → IsSorted key (drop n es)
  drop-IsSorted zero es sorted = sorted
  drop-IsSorted (suc n) [] sorted = sorted
  drop-IsSorted (suc n) (e ∷ es) sorted = drop-IsSorted n es (tail-IsSorted e es sorted)

  -- The lower part is the map at the keys below the key at the cut.
  pub assoc-take :
      (k m : ℕ) (es : List E)
      → IsSorted key es
      → m < length es
      → assoc key k (take m es) ≡ (if ltb k (key_at key es m) then assoc key k es else none)
  unfolding assoc
  assoc-take k m [] sorted h = elim h [ ]
  assoc-take k zero (e ∷ es) sorted h =
      let above : k < key e → assoc key k es ≡ none = λ lt. assoc_absent key k es (λ j p.
        let up : key e < key_at key es j = sorted 0 (suc j) (omega arith) (omega arith) in
        omega arith) in
      ground (arith, above)
  assoc-take k (suc m) (e ∷ es) sorted h =
      let up : key e < key_at key es m = sorted 0 (suc m) (omega arith) h in
      ground (arith, up, assoc-take k m es (tail-IsSorted e es sorted) (omega arith))

  -- The upper part is the map at the keys from there on.
  pub assoc-drop :
      (k m : ℕ) (es : List E)
      → IsSorted key es
      → m < length es
      → assoc key k (drop m es) ≡ (if ltb k (key_at key es m) then none else assoc key k es)
  unfolding assoc
  assoc-drop k m [] sorted h = elim h [ ]
  assoc-drop k zero (e ∷ es) sorted h =
      let above : k < key e → assoc key k es ≡ none = λ lt. assoc_absent key k es (λ j p.
        let up : key e < key_at key es j = sorted 0 (suc j) (omega arith) (omega arith) in
        omega arith) in
      ground (arith, above)
  assoc-drop k (suc m) (e ∷ es) sorted h =
      let up : key e < key_at key es m = sorted 0 (suc m) (omega arith) h in
      ground (arith, up, assoc-drop k m es (tail-IsSorted e es sorted) (omega arith))

  pub key_at-append :
      (xs : List E) (e : E) (es : List E) → key_at key (xs ++ e ∷ es) (length xs) ≡ key e
  key_at-append [] e es = refl
  key_at-append (x ∷ xs) e es = key_at-append xs e es

  pub key_at-append_left :
      (xs ys : List E) (i : ℕ) → i < length xs → key_at key (xs ++ ys) i ≡ key_at key xs i
  key_at-append_left [] ys i h = elim h [ ]
  key_at-append_left (x ∷ xs) ys zero h = refl
  key_at-append_left (x ∷ xs) ys (suc i) h = key_at-append_left xs ys i (omega arith)
