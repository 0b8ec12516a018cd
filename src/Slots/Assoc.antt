-- ===== src/Slots/Assoc.antt =====
-- The live entries as a map: what each operation on the list does to every lookup.
use abdb.Base.{
  ℕ, zero, suc, ◌<◌, ◌≡◌, refl, ◌≢◌, List, [], some, none, get_elem?, ◌∷◌, length, set, insert_at,
  delete_at, if◌then◌else◌, ◌==◌, arith,
}
use abdb.Slots.{key_at, IsSorted, assoc}

module _ {E : Type 0} (key : E → ℕ) where
  tail-IsSorted : (e : E) (es : List E) → IsSorted key (e ∷ es) → IsSorted key es
  tail-IsSorted e es sorted i j h p = sorted (suc i) (suc j) (omega arith) (omega arith)

  pub assoc_absent :
      (k : ℕ) (es : List E)
      → ((j : ℕ) → j < length es → key_at key es j ≢ k)
      → assoc key k es ≡ none
  unfolding assoc
  assoc_absent k [] h = refl
  assoc_absent k (e ∷ es) h =
      ground (arith, h 0 (omega arith), assoc_absent k es (λ j p. h (suc j) (omega arith)))

  pub assoc_found :
      (k : ℕ) (es : List E) (i : ℕ)
      → i < length es
      → key_at key es i ≡ k
      → ((j : ℕ) → j < i → key_at key es j ≢ k)
      → assoc key k es ≡ get_elem? es i
  unfolding assoc
  assoc_found k [] i p e h = elim p [ ]
  assoc_found k (x ∷ es) zero p e h = ground arith
  assoc_found k (x ∷ es) (suc i) p e h = ground (
    arith,
    h 0 (omega arith),
    assoc_found k es i (omega arith) e (λ j q. h (suc j) (omega arith)),
  )

  pub assoc-insert_at :
      (k pos : ℕ) (e : E) (es : List E)
      → ((j : ℕ) → j < pos → key_at key es j ≢ key e)
      → assoc key k (insert_at pos e es) ≡ (if key e == k then some e else assoc key k es)
  unfolding assoc
  assoc-insert_at k zero e es h = refl
  assoc-insert_at k (suc pos) e [] h = refl
  assoc-insert_at k (suc pos) e (x ∷ es) h =
      ground (arith, h 0 (omega arith), assoc-insert_at k pos e es (λ j q. h (suc j) (omega arith)))

  head_differs :
      (e : E) (es : List E) (i : ℕ)
      → IsSorted key (e ∷ es)
      → i < length es
      → key e < key_at key es i
  head_differs e es i sorted p = sorted 0 (suc i) (omega arith) (omega arith)

  pub assoc-delete_at :
      (k pos : ℕ) (es : List E)
      → IsSorted key es
      → pos < length es
      → assoc key k (delete_at pos es) ≡ (if key_at key es pos == k then none else assoc key k es)
  unfolding assoc
  assoc-delete_at k pos [] sorted p = elim p [ ]
  assoc-delete_at k zero (x ∷ es) sorted p =
      let gone : key x ≡ k → assoc key k es ≡ none = λ e. assoc_absent k es (λ j q.
        let above : key x < key_at key es j = head_differs x es j sorted q in omega arith) in
      ground (arith, gone)
  assoc-delete_at k (suc pos) (x ∷ es) sorted p = ground (
    arith,
    head_differs x es pos sorted,
    assoc-delete_at k pos es (tail-IsSorted x es sorted) (omega arith),
  )

  pub assoc-set :
      (k pos : ℕ) (e : E) (es : List E)
      → IsSorted key es
      → pos < length es
      → key e ≡ key_at key es pos
      → assoc key k (set es pos e) ≡ (if key e == k then some e else assoc key k es)
  unfolding assoc
  assoc-set k pos e [] sorted p same = elim p [ ]
  assoc-set k zero e (x ∷ es) sorted p same = ground arith
  assoc-set k (suc pos) e (x ∷ es) sorted p same = ground (
    arith,
    head_differs x es pos sorted,
    assoc-set k pos e es (tail-IsSorted x es sorted) (omega arith) same,
  )
