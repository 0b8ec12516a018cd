-- ===== src/Slots/Reroute.antt =====
-- Routing under the insertion, the removal and the change of a separator.
use abdb.Base.{
  ℕ, zero, suc, ◌≤◌, ◌<◌, ◌≡◌, refl, false, List, [], ◌∷◌, length, insert_at, delete_at, set,
  if◌then◌else◌, leb, ◌&&◌, not, arith,
}
use abdb.Slots.{key_at, IsSorted, route, separated}

module _ {E : Type 0} (key child : E → ℕ) where
  not_separated :
      (low k : ℕ) (es : List E)
      → ((j : ℕ) → j < length es → k < key_at key es j)
      → separated key low k es ≡ false
  unfolding separated
  not_separated low k [] h = refl
  not_separated low k (x ∷ es) h =
      ground (arith, h 0 (omega arith), not_separated low k es (λ j p. h (suc j) (omega arith)))

  pub route-insert_at :
      (k leftmost pos : ℕ) (e : E) (es : List E)
      → IsSorted key es
      → pos ≤ length es
      → ((j : ℕ) → j < pos → key_at key es j < key e)
      → ((j : ℕ) → pos ≤ j → j < length es → key e < key_at key es j)
      → route key child k leftmost (insert_at pos e es) ≡ (
          if leb (key e) k && not (separated key (key e) k es)
          then child e
          else route key child k leftmost es)
  unfolding route separated
  route-insert_at k leftmost zero e [] sorted p below above = ground arith
  route-insert_at k leftmost zero e (x ∷ es) sorted p below above =
      let gap : key e < key x = above 0 (omega arith) (omega arith) in
      let clear : k < key x → separated key (key e) k es ≡ false = λ lt.
        not_separated (key e) k es (λ j q.
          let up : key x < key_at key es j = sorted 0 (suc j) (omega arith) (omega arith) in
          omega arith) in
      ground (arith, gap, clear)
  route-insert_at k leftmost (suc pos) e [] sorted p below above = elim p [ ]
  route-insert_at k leftmost (suc pos) e (x ∷ es) sorted p below above =
      let gap : key x < key e = below 0 (omega arith) in
      let tail : IsSorted key es = λ m j h q. sorted (suc m) (suc j) (omega arith) (omega arith) in
      ground (
        arith,
        gap,
        route-insert_at k (child x) pos e es tail (omega arith) (λ j h. below (suc j) (omega arith))
            (λ j h q. above (suc j) (omega arith) (omega arith)),
      )

  -- The child left of the separator at an index.
  unfoldable pub left_child : ℕ → ℕ → List E → ℕ
  left_child leftmost i [] = leftmost
  left_child leftmost zero (e ∷ es) = leftmost
  left_child leftmost (suc i) (e ∷ es) = left_child (child e) i es

  -- The removal of a separator sends the keys of its child to the child left of it, and no other
  -- key elsewhere.
  pub route-delete_at :
      (k leftmost i : ℕ) (es : List E)
      → IsSorted key es
      → i < length es
      → route key child k leftmost (delete_at i es) ≡ (
          if leb (key_at key es i) k && not (separated key (key_at key es i) k es)
          then left_child leftmost i es
          else route key child k leftmost es)
  unfolding route separated left_child
  route-delete_at k leftmost i [] sorted p = elim p [ ]
  route-delete_at k leftmost zero (x ∷ []) sorted p = ground arith
  route-delete_at k leftmost zero (x ∷ y ∷ es) sorted p =
      let gap : key x < key y = sorted 0 1 (omega arith) (omega arith) in
      let clear : k < key y → separated key (key x) k es ≡ false = λ lt.
        not_separated (key x) k es (λ j q.
          let up : key y < key_at key es j = sorted 1 (suc (suc j)) (omega arith) (omega arith) in
          omega arith) in
      ground (arith, gap, clear)
  route-delete_at k leftmost (suc i) (x ∷ es) sorted p =
      let gap : key x < key_at key es i = sorted 0 (suc i) (omega arith) p in
      let tail : IsSorted key es = λ m j h q. sorted (suc m) (suc j) (omega arith) (omega arith) in
      ground (arith, gap, route-delete_at k (child x) i es tail (omega arith))

  -- A new child behind a separator: the keys that go there go to the new child.
  pub route-set :
      (k leftmost i : ℕ) (e : E) (es : List E)
      → IsSorted key es
      → i < length es
      → key e ≡ key_at key es i
      → route key child k leftmost (set es i e) ≡ (
          if leb (key e) k && not (separated key (key e) k es)
          then child e
          else route key child k leftmost es)
  unfolding route separated
  route-set k leftmost i e [] sorted p same = elim p [ ]
  route-set k leftmost zero e (x ∷ []) sorted p same = ground arith
  route-set k leftmost zero e (x ∷ y ∷ es) sorted p same =
      let gap : key x < key y = sorted 0 1 (omega arith) (omega arith) in
      let clear : k < key y → separated key (key e) k es ≡ false = λ lt.
        not_separated (key e) k es (λ j q.
          let up : key y < key_at key es j = sorted 1 (suc (suc j)) (omega arith) (omega arith) in
          omega arith) in
      ground (arith, gap, clear)
  route-set k leftmost (suc i) e (x ∷ es) sorted p same =
      let gap : key x < key_at key es i = sorted 0 (suc i) (omega arith) p in
      let tail : IsSorted key es = λ m j h q. sorted (suc m) (suc j) (omega arith) (omega arith) in
      ground (arith, gap, route-set k (child x) i e es tail (omega arith) same)
