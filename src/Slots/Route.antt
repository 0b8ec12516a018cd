-- ===== src/Slots/Route.antt =====
-- `find_child` of the inner pages: the binary search against the routing of a key from left to right.
use abdb.Base.{
  ℕ, zero, suc, ◌+◌, ◌-◌, ◌/◌, ◌≤◌, ◌<◌, ◌≡◌, refl, sym, ap, ◌∙◌, ◌⊎◌, inl, inr, false, some, List,
  [], ◌∷◌, length, take, get_elem?, get_elem?-take, leb, ltb, ◌==◌, Result, ok, err, panic, no_fuel,
  arith, Bool-cases, length-take,
}
use abdb.Slots.{
  key_at, IsSorted, IsValid, entry_at, route_loop, route_search, route, incr16, OverlayError,
}
use abdb.Slots.Search.{key_at-some}
use abdb.Slots.Order.{IsSortedBelow, IsSortedBelow-of_take, key_at-take}

module _ {E : Type 0} (key child : E → ℕ) where
  abbrev IsLast : List E → ℕ → ℕ → Result OverlayError ℕ → Type 0
  IsLast slots num k (ok i) =
      (i < num) × (key_at key slots i ≤ k) × ((j : ℕ) → i < j → j < num → k < key_at key slots j)
  IsLast slots num k _ = ⊥

  module _ (slots : List E) (num k : ℕ) (fits : num ≤ length slots) (small : num < 65535)
      (sorted : IsSortedBelow key num slots) (first : key_at key slots 0 ≤ k) where
    above_mid :
        (m : ℕ)
        → m < num
        → k < key_at key slots m
        → (j : ℕ) → m ≤ j
        → j < num
        → k < key_at key slots j
    above_mid m h lt j hj hn = ground (arith, sorted m j)

    route_loop-IsLast :
        (fuel left right result : ℕ)
        → right - left < fuel
        → left ≤ right
        → right ≤ num
        → result < num
        → (left ≡ 0) × (result ≡ 0) ⊎ (left ≡ suc result)
        → key_at key slots result ≤ k
        → ((j : ℕ) → right ≤ j → j < num → k < key_at key slots j)
        → IsLast slots num k (route_loop key child slots num k fuel left right result)
    unfolding route_loop entry_at
    route_loop-IsLast zero left right result enough p q h w low above = absurd (omega arith)
    route_loop-IsLast (suc fuel) left right result enough p q h w low above =
        elim (Bool-cases (ltb left right)) [
          | inl more ↦
              let mid : ℕ = left + (right - left) / 2 in
              let mid-lt : mid < right = ground arith in
              let incr : incr16 mid ≡ suc mid = omega arith in
              let (e, read, same) = key_at-some key slots mid (omega arith) in
              let upper : key e ≤ k
                  → IsLast slots num k
                      (route_loop key child slots num k fuel (incr16 mid) right mid) =
                λ le. rw incr (
                  route_loop-IsLast fuel (suc mid) right mid (omega arith) (omega arith) q
                    (omega arith) (inr refl) (omega arith) above) in
              let lower : k < key e
                  → IsLast slots num k (route_loop key child slots num k fuel left mid result) =
                λ lt.
                  route_loop-IsLast fuel left mid result (omega arith) (omega arith) (omega arith) h
                    w low (above_mid mid (omega arith) (omega arith)) in
              rw more (ground (arith, read, same, upper, lower))
          | inr done ↦ rw done (
            h,
            low,
            λ j hj hn.
                let e : left ≡ right = ground arith in
                let z : k < key_at key slots 0 ⊎ (left ≡ suc result) = ground (arith, above 0, w) in
                ground (arith, above j, z, first),
          )
        ]

  -- The abstract routing picks the last separator not above the key.
  route_last :
      (k leftmost i : ℕ) (es : List E) (e : E)
      → IsSorted key es
      → i < length es
      → get_elem? es i ≡ some e
      → key_at key es i ≤ k
      → ((j : ℕ) → i < j → j < length es → k < key_at key es j)
      → route key child k leftmost es ≡ child e
  unfolding route
  route_last k leftmost i [] e sorted p read low above = elim p [ ]
  route_last k leftmost zero (x ∷ []) e sorted p read low above = ground arith
  route_last k leftmost zero (x ∷ y ∷ es) e sorted p read low above =
      ground (arith, above 1 (omega arith) (omega arith))
  route_last k leftmost (suc i) (x ∷ es) e sorted p read low above =
      let tail : IsSorted key es = λ m j h q. sorted (suc m) (suc j) (omega arith) (omega arith) in
      let below : key x < key_at key es i = sorted 0 (suc i) (omega arith) p in
      ground (
        arith,
        below,
        route_last k (child x) i es e tail (omega arith) read low
            (λ j h q. above (suc j) (omega arith) (omega arith)),
      )

  route_first :
      (k leftmost : ℕ) (es : List E)
      → 0 < length es
      → k < key_at key es 0
      → route key child k leftmost es ≡ leftmost
  unfolding route
  route_first k leftmost [] h lt = elim h [ ]
  route_first k leftmost (x ∷ es) h lt = ground arith

  module _ {capacity : ℕ} {slots : List E} {num : ℕ} (v : IsValid key capacity slots num)
      (leftmost k : ℕ) where
    fits : num ≤ length slots
    fits = omega (arith, v.whole, v.within)

    read_last :
        (r : Result OverlayError ℕ)
        → IsLast slots num k r
        → (i : ℕ) × (e : E) × (r ≡ ok i)
          × (entry_at {E = E} slots num i ≡ ok e)
          × (route key child k leftmost (take num slots) ≡ child e)
    unfolding entry_at
    read_last (ok i) (h, low, above) =
        let (e, read, same) = key_at-some key slots i (omega (arith, fits)) in
        let there : leb num i ≡ false = ground arith in
        (
          i,
          e,
          refl,
          rw (there, read) refl,
          route_last k leftmost i (take num slots) e v.sorted
              (omega (arith, length-take num slots, fits)) (get_elem?-take num i slots h ∙ read)
              (rw (key_at-take key num i slots h) low)
              (λ j p q.
                let q' : j < num = omega (arith, length-take num slots, fits) in
                rw (key_at-take key num j slots q') (above j p q')),
        )
    read_last (err x) f = elim f [ ]
    read_last panic f = elim f [ ]
    read_last no_fuel f = elim f [ ]

    -- On a valid page `find_child` returns, and its answer is the child that the key belongs to.
    pub route_search-route :
        route_search key child leftmost slots num k
        ≡ ok (route key child k leftmost (take num slots))
    unfolding route_search
    route_search-route = elim (Bool-cases (num == 0)) [
      | inl none-live ↦ let e : num ≡ 0 = ground arith in rw e (unfold route in refl)
      | inr some-live ↦
          let (x, read, same) = key_at-some key slots 0 (ground (arith, fits)) in
          let there : entry_at {E = E} slots num 0 ≡ ok x =
            unfold entry_at in ground (arith, read) in
          let first-live : key_at key (take num slots) 0 ≡ key_at key slots 0 =
            key_at-take key num 0 slots (ground arith) in
          elim (Bool-cases (ltb k (key x))) [
            | inl low ↦
                rw (some-live, there, low)
                  (ap ok (
                    sym (
                      route_first k leftmost (take num slots)
                        (ground (arith, length-take num slots, fits))
                        (ground (arith, first-live, same)))))
            | inr high ↦
                let sorted : IsSortedBelow key num slots =
                  IsSortedBelow-of_take key num slots fits v.sorted in
                let found : IsLast slots num k
                    (route_loop key child slots num k (num + 1) 0 num 0) =
                  route_loop-IsLast slots num k fits (omega (arith, v.within, v.small)) sorted
                    (ground (arith, same)) (num + 1) 0 num 0 (omega arith) (omega arith)
                    (omega arith) (ground arith) (inl (refl, refl)) (ground (arith, same))
                    (λ j h q. absurd (omega arith)) in
                let (i, e, runs, at, routed) =
                  read_last (route_loop key child slots num k (num + 1) 0 num 0) found in
                rw (some-live, there, high, runs, routed) (rw at refl)
          ]
    ]
