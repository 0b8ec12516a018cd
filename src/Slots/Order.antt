-- ===== src/Slots/Order.antt =====
-- Order of the keys under the operations on the live entries.
use abdb.Base.{
  ℕ, zero, suc, ◌-◌, ◌≤◌, ◌<◌, ◌≡◌, refl, ap, List, [], ◌∷◌, length, take, set, insert_at,
  delete_at, length-take, length-insert_at, length-delete_at, length-set, if◌then◌else◌, ltb, ◌==◌,
  arith, sym,
}
use abdb.Slots.{key_at, IsSorted}

module _ {E : Type 0} (key : E → ℕ) where
  -- The live entries of an array, by its keys below the count.
  abbrev pub IsSortedBelow : ℕ → List E → Type 0
  IsSortedBelow num slots = (i j : ℕ) → i < j → j < num → key_at key slots i < key_at key slots j

  pub key_at-take : (n i : ℕ) (es : List E) → i < n → key_at key (take n es) i ≡ key_at key es i
  key_at-take zero i es h = elim h [ ]
  key_at-take (suc n) i [] h = refl
  key_at-take (suc n) zero (e ∷ es) h = refl
  key_at-take (suc n) (suc i) (e ∷ es) h = key_at-take n i es (omega arith)

  pub IsSortedBelow-of_take :
      (num : ℕ) (slots : List E)
      → num ≤ length slots
      → IsSorted key (take num slots)
      → IsSortedBelow num slots
  IsSortedBelow-of_take num slots fits sorted i j h p =
      rw (sym (key_at-take num i slots (omega arith)), sym (key_at-take num j slots p))
        (sorted i j h (omega (arith, length-take num slots)))

  pub key_at-insert_at :
      (pos : ℕ) (e : E) (es : List E) (i : ℕ)
      → pos ≤ length es
      → key_at key (insert_at pos e es) i
        ≡ (if ltb i pos then key_at key es i else if i == pos then key e else key_at key es (i - 1))
  key_at-insert_at zero e es zero h = ground arith
  key_at-insert_at zero e es (suc i) h =
      let back : suc i - 1 ≡ i = omega arith in ground (arith, ap (key_at key es) back)
  key_at-insert_at (suc pos) e [] i h = elim h [ ]
  key_at-insert_at (suc pos) e (x ∷ es) zero h = ground arith
  key_at-insert_at (suc pos) e (x ∷ es) (suc zero) h =
      ground (arith, key_at-insert_at pos e es zero (omega arith))
  key_at-insert_at (suc pos) e (x ∷ es) (suc (suc i)) h =
      let tail : key_at key (x ∷ es) (suc (suc i) - 1) ≡ key_at key es i =
        rw (let d : suc (suc i) - 1 ≡ suc i = omega arith in d) refl in
      let back : suc i - 1 ≡ i = omega arith in
      ground (arith, key_at-insert_at pos e es (suc i) (omega arith), tail, ap (key_at key es) back)

  pub key_at-delete_at :
      (pos : ℕ) (es : List E) (i : ℕ)
      → key_at key (delete_at pos es) i
        ≡ (if ltb i pos then key_at key es i else key_at key es (suc i))
  key_at-delete_at pos [] i = ground arith
  key_at-delete_at zero (x ∷ es) i = ground arith
  key_at-delete_at (suc pos) (x ∷ es) zero = ground arith
  key_at-delete_at (suc pos) (x ∷ es) (suc i) = ground (arith, key_at-delete_at pos es i)

  pub key_at-set :
      (pos : ℕ) (e : E) (es : List E) (i : ℕ)
      → pos < length es
      → key_at key (set es pos e) i ≡ (if i == pos then key e else key_at key es i)
  key_at-set pos e [] i h = elim h [ ]
  key_at-set zero e (x ∷ es) zero h = ground arith
  key_at-set zero e (x ∷ es) (suc i) h = ground arith
  key_at-set (suc pos) e (x ∷ es) zero h = ground arith
  key_at-set (suc pos) e (x ∷ es) (suc i) h = ground (arith, key_at-set pos e es i (omega arith))

  -- A key put where the search points keeps the order.
  pub insert_at-IsSorted :
      (pos : ℕ) (e : E) (es : List E)
      → IsSorted key es
      → pos ≤ length es
      → ((j : ℕ) → j < pos → key_at key es j < key e)
      → ((j : ℕ) → pos ≤ j → j < length es → key e < key_at key es j)
      → IsSorted key (insert_at pos e es)
  insert_at-IsSorted pos e es sorted p below above i j h q = ground (
    arith,
    key_at-insert_at pos e es i p,
    key_at-insert_at pos e es j p,
    length-insert_at pos e es,
    sorted i j,
    sorted i (j - 1),
    sorted (i - 1) (j - 1),
    below i,
    above (j - 1),
  )

  pub delete_at-IsSorted :
      (pos : ℕ) (es : List E) → IsSorted key es → pos < length es → IsSorted key (delete_at pos es)
  delete_at-IsSorted pos es sorted p i j h q = ground (
    arith,
    key_at-delete_at pos es i,
    key_at-delete_at pos es j,
    length-delete_at pos es p,
    sorted i j,
    sorted i (suc j),
    sorted (suc i) (suc j),
  )

  pub set-IsSorted :
      (pos : ℕ) (e : E) (es : List E)
      → IsSorted key es
      → pos < length es
      → key e ≡ key_at key es pos
      → IsSorted key (set es pos e)
  set-IsSorted pos e es sorted p same i j h q = ground (
    arith,
    key_at-set pos e es i p,
    key_at-set pos e es j p,
    length-set es pos e,
    sorted i j,
    ap (key_at key es),
  )
