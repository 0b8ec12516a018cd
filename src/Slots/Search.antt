-- ===== src/Slots/Search.antt =====
-- `find_slot` of the overlays: the binary search for the place of a key.
use abdb.Base.{
  ℕ, zero, suc, ◌+◌, ◌-◌, ◌/◌, ◌≤◌, ◌<◌, ◌≡◌, refl, Bool, true, false, some, List, [], ◌∷◌, length,
  get_elem?, ltb, ◌==◌, Result, ok, err, panic, no_fuel, arith, Bool-cases, inl, inr,
}
use abdb.Slots.{key_at, entry_at, search_loop, search, incr16, OverlayError}

module _ {E : Type 0} (key : E → ℕ) where
  pub key_at-some :
      (es : List E) (i : ℕ)
      → i < length es
      → (e : E) × (get_elem? es i ≡ some e) × (key e ≡ key_at key es i)
  key_at-some [] i h = elim h [ ]
  key_at-some (e ∷ es) zero h = (e, refl, refl)
  key_at-some (e ∷ es) (suc i) h = key_at-some es i (omega arith)

  -- What `find_slot` promises of a list of live entries.
  abbrev pub Finds : List E → ℕ → ℕ → Bool × ℕ → Type 0
  Finds es n target (true, i) = (i < n) × (key_at key es i ≡ target)
  Finds es n target (false, i) =
      (i ≤ n)
      × ((j : ℕ) → j < i → key_at key es j < target)
      × ((j : ℕ) → i ≤ j → j < n → target < key_at key es j)

  abbrev pub FindsOk : List E → ℕ → ℕ → Result OverlayError (Bool × ℕ) → Type 0
  FindsOk es n target (ok r) = Finds es n target r
  FindsOk es n target (err e) = ⊥
  FindsOk es n target panic = ⊥
  FindsOk es n target no_fuel = ⊥

  module _ (slots : List E) (num target : ℕ) (fits : num ≤ length slots) (small : num < 65535)
      (sorted : (i j : ℕ) → i < j → j < num → key_at key slots i < key_at key slots j) where
    below_mid :
        (m : ℕ)
        → m < num
        → key_at key slots m < target
        → (j : ℕ) → j < suc m
        → key_at key slots j < target
    below_mid m h lt j hj = ground (arith, sorted j m)

    above_mid :
        (m : ℕ)
        → m < num
        → target < key_at key slots m
        → (j : ℕ) → m ≤ j
        → j < num
        → target < key_at key slots j
    above_mid m h lt j hj hn = ground (arith, sorted m j)

    search_loop-FindsOk :
        (fuel left right : ℕ)
        → right - left < fuel
        → left ≤ right
        → right ≤ num
        → ((j : ℕ) → j < left → key_at key slots j < target)
        → ((j : ℕ) → right ≤ j → j < num → target < key_at key slots j)
        → FindsOk slots num target (search_loop key slots num target fuel left right)
    unfolding search_loop entry_at
    search_loop-FindsOk zero left right enough p q below above = absurd (omega arith)
    search_loop-FindsOk (suc fuel) left right enough p q below above =
        elim (Bool-cases (ltb left right)) [
          | inl more ↦
              let mid : ℕ = left + (right - left) / 2 in
              let mid-lt : mid < right = ground arith in
              let incr : incr16 mid ≡ suc mid = omega arith in
              let (e, read, same) = key_at-some slots mid (omega arith) in
              let upper : (key e < target)
                  → FindsOk slots num target
                      (search_loop key slots num target fuel (incr16 mid) right) =
                λ lt. rw incr (
                  search_loop-FindsOk fuel (suc mid) right (omega arith) (omega arith) q
                    (below_mid mid (omega arith) (omega arith)) above) in
              let lower : target < key e
                  → FindsOk slots num target (search_loop key slots num target fuel left mid) =
                λ lt.
                  search_loop-FindsOk fuel left mid (omega arith) (omega arith) (omega arith) below
                    (above_mid mid (omega arith) (omega arith)) in
              rw more (ground (arith, read, same, upper, lower))
          | inr done ↦ rw done (omega arith, below, λ j h n. above j (ground arith) n)
        ]

    -- With the count within the array the search returns, and on sorted entries it finds the key or
    -- the place where it belongs.
    pub search-FindsOk : FindsOk slots num target (search key slots num target)
    unfolding search
    search-FindsOk = elim (Bool-cases (num == 0)) [
      | inl e ↦ rw e (omega arith, λ j h. absurd (omega arith), λ j h n. ground arith)
      | inr e ↦ rw e (
          search_loop-FindsOk (num + 1) 0 num (omega arith) (omega arith) (omega arith)
            (λ j h. absurd (omega arith)) (λ j h n. absurd (omega arith)))
    ]
