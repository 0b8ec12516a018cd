-- ===== src/Btree/Refill.antt =====
-- src/accessor/btree.rs: reading all entries of a page, merging one in, and filling a page in order.
use abdb.Base.{
  ℕ, zero, suc, ◌+◌, ◌≤◌, ◌<◌, ◌≡◌, inl, inr, refl, sym, ap, ◌∙◌, false, some, none, List, [], ◌∷◌,
  ◌++◌, length, take, drop, insert_at, length-take, length-append, ltb, leb, arith, get_elem?,
  get_elem?-some, get_elem?-take, drop-get_elem?, drop_all, ok, Bool-cases,
}
use mathlib.Core.List.{append_assoc, append-nil}
use abdb.Slots.{key_at, IsSorted, assoc, entry_at, incr16}
use abdb.Slots.Assoc.{assoc_absent}
use abdb.Slots.Ops.{insert_sorted-Placed, length-live}
use abdb.Slots.Cut.{key_at-append, key_at-append_left}
use abdb.Index.Leaf
use abdb.Index.Leaf.{BTreeLeafPage, BTreeLeafEntry}
use abdb.Index.Leaf.Contents.{IsValid, live, SameLinks}
use abdb.Btree.Collect.{read_entries, insert_entries, insertion_point}

module _ {E : Type 0} (key : E → ℕ) where
  pub read_from :
      (slots : List E) (num n i : ℕ)
      → num ≤ length slots
      → i + n ≡ num
      → read_entries (entry_at slots num) i n ≡ ok (drop i (take num slots))
  unfolding read_entries entry_at
  read_from slots num zero i fits h =
      rw (drop_all i (take num slots) (omega (arith, length-take num slots))) refl
  read_from slots num (suc n) i fits h =
      let inside : i < num = omega arith in
      let (e, read) = get_elem?-some slots i (omega arith) in
      let live : get_elem? (take num slots) i ≡ some e = get_elem?-take num i slots inside ∙ read in
      let there : leb num i ≡ false = ground arith in
      rw (there, read, read_from slots num n (suc i) fits (omega arith))
        (rw (drop-get_elem? i (take num slots) live) refl)

  below_cons :
      (k i : ℕ) (e : E) (es : List E)
      → key e < k
      → ((j : ℕ) → j < i → key_at key es j < k)
      → (j : ℕ) → j < suc i
      → key_at key (e ∷ es) j < k
  below_cons k i e es lt h zero p = lt
  below_cons k i e es lt h (suc j) p = h j (omega arith)

  above_cons :
      (k i : ℕ) (e : E) (es : List E)
      → ((j : ℕ) → i ≤ j → j < length es → k < key_at key es j)
      → (j : ℕ) → suc i ≤ j
      → j < suc (length es)
      → k < key_at key (e ∷ es) j
  above_cons k i e es h zero p q = elim p [ ]
  above_cons k i e es h (suc j) p q = h j (omega arith) (omega arith)

  above_head :
      (k : ℕ) (e : E) (es : List E)
      → IsSorted key (e ∷ es)
      → k < key e
      → (j : ℕ) → j < suc (length es)
      → k < key_at key (e ∷ es) j
  above_head k e es sorted lt zero q = lt
  above_head k e es sorted lt (suc j) q =
      let up : key e < key_at key es j = sorted 0 (suc j) (omega arith) q in omega arith

  -- A key that a sorted list lacks has a place in it.
  pub insertion_point_lem :
      (k : ℕ) (es : List E)
      → IsSorted key es
      → assoc key k es ≡ none
      → (i : ℕ) × (insertion_point key k es ≡ some i)
        × (i ≤ length es)
        × ((j : ℕ) → j < i → key_at key es j < k)
        × ((j : ℕ) → i ≤ j → j < length es → k < key_at key es j)
  unfolding assoc insertion_point
  insertion_point_lem k [] sorted absent =
      (0, refl, omega arith, λ j h. absurd (omega arith), λ j h q. absurd (omega arith))
  insertion_point_lem k (e ∷ es) sorted absent = elim (Bool-cases (ltb (key e) k)) [
    | inr low ↦
        let lt : k < key e = ground arith in
        (
          0,
          ground (arith, lt),
          omega arith,
          λ j h. absurd (omega arith),
          λ j h q. above_head k e es sorted lt j q,
        )
    | inl high ↦
        let lt : key e < k = ground arith in
        let (i, at, fits, below, above) =
          insertion_point_lem k es (λ i j h p. sorted (suc i) (suc j) (omega arith) (omega arith))
            (ground arith) in
        (
          suc i,
          ground (arith, at),
          omega arith,
          below_cons k i e es lt below,
          above_cons k i e es above,
        )
  ]

pub append_sorted-lt :
    {E : Type 0} (key : E → ℕ) (xs : List E) (e : E) (es : List E)
    → IsSorted key (xs ++ e ∷ es)
    → (j : ℕ) → j < length xs
    → key_at key xs j < key e
append_sorted-lt key xs e es sorted j h =
    rw (← key_at-append_left key xs (e ∷ es) j h, ← key_at-append key xs e es)
      (sorted j (length xs) h (omega (arith, length-append xs (e ∷ es))))

pub insert_at_end :
    {E : Type 0} (xs : List E) (e : E) (n : ℕ) → n ≡ length xs → insert_at n e xs ≡ xs ++ e ∷ []
insert_at_end [] e zero h = refl
insert_at_end [] e (suc n) h = absurd (omega arith)
insert_at_end (x ∷ xs) e zero h = absurd (omega arith)
insert_at_end (x ∷ xs) e (suc n) h = ap (◌∷◌ x) (insert_at_end xs e n (omega arith))

-- The loop over all live entries of a leaf reads them in order.
pub read_leaf :
    (p : BTreeLeafPage)
    → IsValid p
    → read_entries (Leaf.entry p) 0 (Leaf.num_entries p) ≡ ok (live p)
unfolding Leaf.entry
read_leaf p v =
    read_from Leaf.key_of p.slots (Leaf.num_entries p) (Leaf.num_entries p) 0
      (omega (arith, v.whole, v.within)) (omega arith)

-- An entry above all others goes to the end.
insert_entry_end :
    (p : BTreeLeafPage) (e : BTreeLeafEntry)
    → IsValid p
    → Leaf.num_entries p < Leaf.max_entries
    → ((j : ℕ) → j < Leaf.num_entries p → key_at Leaf.key_of (live p) j < e.key)
    → (q : BTreeLeafPage) × (Leaf.insert_entry p e.key e.record_page e.record_slot ≡ ok q)
      × IsValid q
      × (live q ≡ live p ++ e ∷ [])
      × (Leaf.num_entries q ≡ suc (Leaf.num_entries p))
      × SameLinks p q
unfolding Leaf.insert_entry Leaf.set_num_entries
insert_entry_end p e v room above =
    let long : length (live p) ≡ Leaf.num_entries p = length-live Leaf.key_of v in
    let absent : assoc Leaf.key_of e.key (live p) ≡ none =
      assoc_absent Leaf.key_of e.key (live p) (λ j h same.
        let lt : key_at Leaf.key_of (live p) j < e.key = above j (omega arith) in omega arith) in
    let (s, i, w) = insert_sorted-Placed Leaf.key_of v e.key e refl room absent in
    let at_end : i ≡ length (live p) = elim (Bool-cases (ltb i (Leaf.num_entries p))) [
      | inl inside ↦
          let i-lt : i < Leaf.num_entries p = ground arith in
          absurd (omega (arith, w.place.2 i (omega arith) i-lt, above i i-lt))
      | inr past ↦ let i-ge : Leaf.num_entries p ≤ i = ground arith in omega (arith, w.place.0)
    ] in
    let count : incr16 (Leaf.num_entries p) ≡ suc (Leaf.num_entries p) = omega arith in
    (
      record p {
        slots = s;
        header = record p.header { num_entries = incr16 (Leaf.num_entries p) };
      },
      rw w.runs refl,
      rw count w.valid,
      rw (count, w.live) (insert_at_end (live p) e i at_end),
      count,
      (refl, refl, refl, refl),
    )

-- A page filled with entries in order, above those it has, holds them behind its own.
pub insert_entries-live :
    (p : BTreeLeafPage) (es : List BTreeLeafEntry)
    → IsValid p
    → Leaf.num_entries p + length es ≤ Leaf.max_entries
    → IsSorted Leaf.key_of (live p ++ es)
    → (q : BTreeLeafPage) × (insert_entries p es ≡ ok q)
      × IsValid q
      × (live q ≡ live p ++ es)
      × SameLinks p q
unfolding insert_entries
insert_entries-live p [] v room sorted =
    (p, refl, v, sym (append-nil (live p)), (refl, refl, refl, refl))
insert_entries-live p (e ∷ es) v room sorted =
    let long : length (live p) ≡ Leaf.num_entries p = length-live Leaf.key_of v in
    let (q, runs, v', more, count, links) =
      insert_entry_end p e v (omega arith)
        (λ j h. append_sorted-lt Leaf.key_of (live p) e es sorted j (omega arith)) in
    let all : live q ++ es ≡ live p ++ e ∷ es = rw more (append_assoc (live p) (e ∷ []) es) in
    let (r, runs', v'', whole, links') =
      insert_entries-live q es v' (omega arith) (rw all sorted) in
    (
      r,
      rw runs runs',
      v'',
      whole ∙ all,
      (links'.0 ∙ links.0, links'.1 ∙ links.1, links'.2 ∙ links.2, links'.3 ∙ links.3),
    )
