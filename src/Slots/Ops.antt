-- ===== src/Slots/Ops.antt =====
-- The operations on a valid array, as operations on the map that its live entries stand for.
use abdb.Base.{
  ℕ, zero, suc, ◌+◌, ◌-◌, ◌≤◌, ◌<◌, ◌≡◌, refl, ap, ◌∙◌, ◌≢◌, Bool, true, false, List, [], some,
  none, get_elem?, ◌∷◌, length, take, set, insert_at, delete_at, if◌then◌else◌, leb, ◌==◌,
  length-take, length-set, Result, ok, err, panic, no_fuel, arith, sym, get_elem?-take,
  get_elem?-some,
}
use abdb.Slots.{
  key_at, assoc, IsValid, search, insert_sorted, remove_at, shift_delete, OverlayError, page_full,
  duplicate_key,
}
use abdb.Slots.Search.{Finds, FindsOk, search-FindsOk}
use abdb.Slots.Shift.{shift_insert_lem, shift_delete_lem}
use abdb.Slots.Order.{
  IsSortedBelow-of_take, key_at-take, insert_at-IsSorted, delete_at-IsSorted, set-IsSorted,
}
use abdb.Slots.Assoc.{assoc_absent, assoc_found, assoc-insert_at, assoc-delete_at, assoc-set}

module _ {E : Type 0} (key : E → ℕ) {capacity : ℕ} {slots : List E} {num : ℕ}
    (v : IsValid key capacity slots num) where
  pub length-live : length (take num slots) ≡ num
  length-live = omega (arith, length-take num slots, v.whole, v.within)

  -- What a search on a valid array comes to: the place of the key's entry, or the place where the
  -- key belongs, when the map has no entry for it.
  pub data Searched (k : ℕ) : Type 0 where
    hit :
        (i : ℕ)
        → search key slots num k ≡ ok (true, i)
        → i < num
        → key_at key (take num slots) i ≡ k
        → assoc key k (take num slots) ≡ get_elem? slots i
        → Searched k
    miss :
        (i : ℕ)
        → search key slots num k ≡ ok (false, i)
        → Finds key (take num slots) num k (false, i)
        → assoc key k (take num slots) ≡ none
        → Searched k

  live_Finds : (k : ℕ) (r : Bool × ℕ) → Finds key slots num k r → Finds key (take num slots) num k r
  live_Finds k (true, i) (p, e) = (p, key_at-take key num i slots p ∙ e)
  live_Finds k (false, i) (p, below, above) = (
    p,
    λ j h. rw (key_at-take key num j slots (omega arith)) (below j h),
    λ j h q. rw (key_at-take key num j slots q) (above j h q),
  )

  Searched-cases :
      (k : ℕ) (r : Bool × ℕ)
      → search key slots num k ≡ ok r
      → Finds key (take num slots) num k r
      → Searched k
  Searched-cases k (true, i) e (p, same) = hit i e p same (
      assoc_found key k (take num slots) i (omega (arith, length-live)) same (λ j h e'.
        let lt : key_at key (take num slots) j < key_at key (take num slots) i =
          v.sorted j i h (omega (arith, length-live)) in
        omega arith)
      ∙ get_elem?-take num i slots p)
  Searched-cases k (false, i) e f =
      miss i e f
        (assoc_absent key k (take num slots) (λ j h e'. ground (arith, f.1 j, f.2 j, length-live)))

  ok_Searched :
      (k : ℕ) (r : Result OverlayError (Bool × ℕ))
      → search key slots num k ≡ r
      → FindsOk key slots num k r
      → Searched k
  ok_Searched k (ok r) e f = Searched-cases k r e (live_Finds k r f)
  ok_Searched k (err x) e f = elim f [ ]
  ok_Searched k panic e f = elim f [ ]
  ok_Searched k no_fuel e f = elim f [ ]

  pub search-Searched : (k : ℕ) → Searched k
  search-Searched k = ok_Searched k (search key slots num k) refl (
      search-FindsOk key slots num k (omega (arith, v.whole, v.within))
        (omega (arith, v.small, v.within))
        (IsSortedBelow-of_take key num slots (omega (arith, v.whole, v.within)) v.sorted))

  get_elem?-ne-none : (i : ℕ) → i < num → get_elem? slots i ≢ none
  get_elem?-ne-none i p e =
      let (x, read) = get_elem?-some slots i (omega (arith, v.whole, v.within)) in cc

  -- What the insertion of an entry for `k` gives.
  pub record Placed (k : ℕ) (e : E) (s : List E) (i : ℕ) : Type 0 where
    pub runs : insert_sorted key capacity slots num k e ≡ ok s
    pub valid : IsValid key capacity s (suc num)
    pub place : Finds key (take num slots) num k (false, i)
    pub live : take (suc num) s ≡ insert_at i e (take num slots)

  -- A new key: the array stays valid with one more live entry, which stands where the search points.
  pub insert_sorted-Placed :
      (k : ℕ) (e : E)
      → key e ≡ k
      → num < capacity
      → assoc key k (take num slots) ≡ none
      → (s : List E) × (i : ℕ) × Placed k e s i
  insert_sorted-Placed k e same room absent = elim (search-Searched k) [
    | hit i found p here held ↦ absurd (get_elem?-ne-none i p (sym held ∙ absent))
    | miss i found f _ ↦
        let (s, runs, live, long) =
          shift_insert_lem capacity slots num i e f.0 room (sym v.whole) v.small in
        let space : leb capacity num ≡ false = ground arith in
        (
          s,
          i,
          record {
            runs = unfold insert_sorted in rw (space, found) runs;
            valid = record {
              whole = long ∙ v.whole;
              within = room;
              small = v.small;
              sorted = rw live (
                  insert_at-IsSorted key i e (take num slots) v.sorted
                    (omega (arith, f.0, length-live)) (λ j h. rw same (f.1 j h))
                    (λ j h q. rw same (f.2 j h (omega (arith, length-live)))));
            };
            place = f;
            live = live;
          },
        )
  ]

  -- So the map gains the entry, and no other key's entry changes.
  pub Placed-assoc :
      {k : ℕ} {e : E} {s : List E} {i : ℕ}
      → key e ≡ k
      → Placed k e s i
      → (j : ℕ)
      → assoc key j (take (suc num) s) ≡ (if k == j then some e else assoc key j (take num slots))
  Placed-assoc {k} {e} {s} {i} same w j =
      rw (w.live, ← same)
        (assoc-insert_at key j i e (take num slots)
          (λ m h d. let lt : key_at key (take num slots) m < k = w.place.1 m h in omega arith))

  -- A key that is there is refused.
  pub insert_sorted_duplicate :
      (k : ℕ) (e x : E)
      → num < capacity
      → assoc key k (take num slots) ≡ some x
      → insert_sorted key capacity slots num k e ≡ err (duplicate_key k)
  unfolding insert_sorted
  insert_sorted_duplicate k e x room held =
      let space : leb capacity num ≡ false = ground arith in
      elim (search-Searched k) [
        | hit i found p here _ ↦ rw (space, found) refl
        | miss i found f absent ↦ cc
      ]

  -- A full array refuses any key.
  pub insert_sorted_full :
      (k : ℕ) (e : E)
      → num ≡ capacity
      → insert_sorted key capacity slots num k e ≡ err (page_full capacity (num + 1))
  unfolding insert_sorted
  insert_sorted_full k e full = ground arith

  -- The removal of a live entry.
  pub remove_at_lem :
      (i : ℕ)
      → i < num
      → (s : List E) × (remove_at slots num i ≡ ok s)
        × IsValid key capacity s (num - 1)
        × ((j : ℕ)
            → assoc key j (take (num - 1) s)
              ≡ (if key_at key (take num slots) i == j then none else assoc key j (take num slots)))
        × (take (num - 1) s ≡ delete_at i (take num slots))
  unfolding remove_at
  remove_at_lem i p =
      let fits : num ≤ length slots = omega (arith, v.whole, v.within) in
      let (live, long) = shift_delete_lem slots num i p fits in
      let there : leb num i ≡ false = ground arith in
      let whole_copy : leb num (length slots) ≡ true = ground (arith, fits) in
      let inside : i < length (take num slots) = omega (arith, length-live) in
      (
        shift_delete slots num i,
        rw (there, whole_copy) refl,
        record {
          whole = long ∙ v.whole;
          within = omega (arith, v.within);
          small = v.small;
          sorted = rw live (delete_at-IsSorted key i (take num slots) v.sorted inside);
        },
        λ j. rw live (assoc-delete_at key j i (take num slots) v.sorted inside),
        live,
      )

  pub take-set : (n i : ℕ) (es : List E) (e : E) → i < n → take n (set es i e) ≡ set (take n es) i e
  take-set zero i es e h = elim h [ ]
  take-set (suc n) i [] e h = refl
  take-set (suc n) zero (x ∷ es) e h = refl
  take-set (suc n) (suc i) (x ∷ es) e h = ap (◌∷◌ x) (take-set n i es e (omega arith))

  -- A new entry in the place of one with the same key.
  pub set_lem :
      (i : ℕ) (e : E)
      → i < num
      → key e ≡ key_at key (take num slots) i
      → IsValid key capacity (set slots i e) num
        × ((j : ℕ)
            → assoc key j (take num (set slots i e))
              ≡ (if key e == j then some e else assoc key j (take num slots)))
  set_lem i e p same =
      let inside : i < length (take num slots) = omega (arith, length-live) in
      let live : take num (set slots i e) ≡ set (take num slots) i e = take-set num i slots e p in
      (
        record {
          whole = length-set slots i e ∙ v.whole;
          within = v.within;
          small = v.small;
          sorted = rw live (set-IsSorted key i e (take num slots) v.sorted inside same);
        },
        λ j. rw live (assoc-set key j i e (take num slots) v.sorted inside same),
      )
