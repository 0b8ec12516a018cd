-- ===== src/Btree/Removal.antt =====
-- src/accessor/btree.rs: what `delete` does to a leaf that stays at least half full, and which keys it refuses.
use abdb.Base.{
  Bool, ap, Option, ℕ, ◌-◌, ◌<◌, leb, ◌≡◌, ◌≢◌, refl, true, false, some, none, List, [],
  if◌then◌else◌, ◌==◌, ltb, ok, err, arith, Bool-cases, inl, inr, Result, get_elem?-some,
}
use abdb.Slots.{entry_at}
use abdb.Slots.Ops.{search-Searched, miss, hit}
use abdb.Index.Leaf
use abdb.Index.Leaf.{BTreeLeafPage, num_entries, merge_threshold, key_of, record_id}
use abdb.Index.Leaf.Contents.{IsValid, contents, delete_entry-Deleted, out_of_bounds, removed}
use abdb.Btree.{
  Index, leaf, Error, fetch_page, store_page, mark_dirty, read_root_page, update,
  tuple_non_existent,
}
use abdb.Btree.Lookup.{answer, get-contents, Descent-with_leaf, with_leaf, other_key}
use abdb.Btree.Descent.{Descent, here, down, depth, find_leaf_with_path-Descent, Descent-page}
use abdb.Btree.Delete.{delete, delete_on_leaf, get}

-- What `delete_on_leaf` does to a valid leaf, as a map.
pub data Dropped (s : Index) (p : BTreeLeafPage) (key : ℕ) (rid : ℕ × ℕ)
    (r : Result Error BTreeLeafPage × Index) : Type 0 where
  refused : contents p key ≢ some rid → r ≡ (err tuple_non_existent, s) → Dropped s p key rid r
  dropped :
      (q : BTreeLeafPage)
      → contents p key ≡ some rid
      → r ≡ (ok q, s)
      → IsValid q
      → num_entries q ≡ num_entries p - 1
      → ((j : ℕ) → contents q j ≡ (if key == j then none else contents p j))
      → Dropped s p key rid r

-- The deletion on a valid leaf: refused without a change unless the key is there with that record id.
pub delete_on_leaf-Dropped :
    (s : Index) (p : BTreeLeafPage) (key page slot : ℕ)
    → IsValid p
    → Dropped s p key (page, slot) (delete_on_leaf p key (page, slot) s)
unfolding delete_on_leaf Leaf.find_slot Leaf.entry entry_at
delete_on_leaf-Dropped s p key page slot v = elim (search-Searched key_of v key) [
  | miss i found f absent ↦
      let gone : contents p key ≡ none = rw absent refl in
      refused (λ same. ground (arith, gone, same)) (rw found refl)
  | hit i found h at_key held ↦
      let (e, read) = get_elem?-some p.slots i (omega (arith, v.whole, v.within)) in
      let inside : leb (num_entries p) i ≡ false = ground arith in
      let there : contents p key ≡ some (record_id e) = rw (held, read) refl in
      elim (Bool-cases (e.record_page == page)) [
        | inr apart ↦
            refused (λ same. ground (arith, there, same)) (rw found (rw (inside, read, apart) refl))
        | inl page_same ↦ elim (Bool-cases (e.record_slot == slot)) [
          | inr apart ↦
              refused (λ same. ground (arith, there, same))
                (rw found (rw (inside, read, page_same, apart) refl))
          | inl slot_same ↦ elim (delete_entry-Deleted p i v) [
            | out_of_bounds past _ ↦ absurd (omega arith)
            | removed q _ runs valid count _ looks ↦
                dropped q (ground (arith, there))
                  (rw found (rw (inside, read, page_same, slot_same) (rw runs refl))) valid count
                  (rw at_key at looks)
          ]
        ]
      ]
]

-- The index with another page in the place of a leaf that is marked dirty.
abbrev pub with_dirty_leaf : Index → ℕ → BTreeLeafPage → Index
with_dirty_leaf s leaf_num q = record s {
  pages = update s.pages leaf_num (some (leaf q));
  dirty = update s.dirty leaf_num true;
}

-- In an index with a root, where the key has a path of valid inner pages from the root to a valid
-- leaf and the fuel exceeds the inner pages on it, `delete` of a key that the leaf does not hold
-- with that record id is refused as not existing, and nothing changes.
pub delete_absent :
    (s : Index) (key fuel page slot : ℕ) {leaf_num : ℕ} {p : BTreeLeafPage} {path : List ℕ}
    → s.root_page ≢ 0
    → Descent s key s.root_page leaf_num p path
    → IsValid p
    → depth path < fuel
    → contents p key ≢ some (page, slot)
    → delete fuel key (page, slot) s ≡ (err tuple_non_existent, s)
unfolding delete read_root_page fetch_page
delete_absent s key fuel page slot {leaf_num} {p} rooted d v h apart =
    let nonempty : (s.root_page == 0) ≡ false = ground (arith, rooted) in
    elim (delete_on_leaf-Dropped s p key page slot v) [
      | refused _ runs ↦ rw nonempty (
          rw (find_leaf_with_path-Descent fuel [] d h)
            (rw (Descent-page d, fetch_page) (rw runs refl)))
      | dropped q there _ _ _ _ ↦ absurd (apart there)
    ]

-- In an index with a root, where the key has a path of valid inner pages from the root to a valid
-- leaf and the fuel exceeds the inner pages on it, `delete` of a key that the leaf holds with that
-- record id succeeds if the leaf has more entries than the merge threshold: the leaf stays valid, of
-- its map that key alone goes, it is marked dirty, and nothing else changes.
pub delete_kept :
    (s : Index) (key fuel page slot : ℕ) {leaf_num : ℕ} {p : BTreeLeafPage} {path : List ℕ}
    → s.root_page ≢ 0
    → Descent s key s.root_page leaf_num p path
    → IsValid p
    → depth path < fuel
    → merge_threshold < num_entries p
    → contents p key ≡ some (page, slot)
    → (q : BTreeLeafPage) × (delete fuel key (page, slot) s ≡ (ok tt, with_dirty_leaf s leaf_num q))
      × IsValid q
      × ((j : ℕ) → contents q j ≡ (if key == j then none else contents p j))
unfolding delete read_root_page fetch_page store_page mark_dirty Leaf.can_merge
delete_kept s key fuel page slot {leaf_num} {p} rooted d v h half there =
    let nonempty : (s.root_page == 0) ≡ false = ground (arith, rooted) in
    elim (delete_on_leaf-Dropped s p key page slot v) [
      | refused apart _ ↦ absurd (apart there)
      | dropped q _ runs valid count looks ↦
          let stays : ltb (num_entries q) merge_threshold ≡ false = ground (arith, half, count) in
          (
            q,
            rw nonempty (
                rw (find_leaf_with_path-Descent fuel [] d h)
                  (rw (Descent-page d, fetch_page) (rw (runs, stays) refl))),
            valid,
            looks,
          )
    ]

Descent-with_dirty_leaf :
    (s : Index) (j leaf_num : ℕ) (q : BTreeLeafPage) {id leaf_num' : ℕ} {p' : BTreeLeafPage}
    {path : List ℕ}
    → Descent (with_leaf s leaf_num q) j id leaf_num' p' path
    → Descent (with_dirty_leaf s leaf_num q) j id leaf_num' p' path
Descent-with_dirty_leaf s j leaf_num q (here at) = here at
Descent-with_dirty_leaf s j leaf_num q (down r at v d) =
    down r at v (Descent-with_dirty_leaf s j leaf_num q d)

answer_if_none :
    (b : Bool) (o : Option (ℕ × ℕ))
    → answer (if b then none else o) ≡ (if b then err tuple_non_existent else answer o)
answer_if_none true o = refl
answer_if_none false o = refl

-- In an index with a root, where the key has a path of valid inner pages from the root to a valid
-- leaf and the fuel exceeds the inner pages on it, a key that the leaf holds with that record id is
-- deleted, where the leaf has more entries than the merge threshold: when `delete` has succeeded,
-- `get` finds nothing under the key, and under any other key, whose path also ends at a valid leaf,
-- what it found before.
pub get-delete :
    (s t : Index) (key fuel page slot j : ℕ) {leaf_num leaf_num' : ℕ} {p p' : BTreeLeafPage}
    {path path' : List ℕ}
    → s.root_page ≢ 0
    → Descent s key s.root_page leaf_num p path
    → IsValid p
    → depth path < fuel
    → merge_threshold < num_entries p
    → contents p key ≡ some (page, slot)
    → Descent s j s.root_page leaf_num' p' path'
    → IsValid p'
    → depth path' < fuel
    → delete fuel key (page, slot) s ≡ (ok tt, t)
    → (get fuel j t).0 ≡ (if key == j then err tuple_non_existent else (get fuel j s).0)
get-delete s t key fuel page slot j {leaf_num} {leaf_num'} {p} {p'} {path' = path'} rooted d v h
      half there d' v' h' done =
    let (q, runs, valid, looks) = delete_kept s key fuel page slot rooted d v h half there in
    let same : t ≡ with_dirty_leaf s leaf_num q = cc in
    let at : s.pages leaf_num ≡ some (leaf p) = Descent-page d in
    let at' : s.pages leaf_num' ≡ some (leaf p') = Descent-page d' in
    let moved = Descent-with_dirty_leaf s j leaf_num q (Descent-with_leaf s j leaf_num p q at d') in
    let before = get-contents s j fuel rooted d' v' h' in
    elim (Bool-cases (leaf_num == leaf_num')) [
      | inl one_leaf ↦
          let ids : leaf_num ≡ leaf_num' = ground arith in
          let one : p ≡ p' = ground (arith, at, at', ap s.pages ids) in
          let d'' : Descent (with_dirty_leaf s leaf_num q) j s.root_page leaf_num' q path' =
            rw one_leaf at moved in
          let after = get-contents (with_dirty_leaf s leaf_num q) j fuel rooted d'' valid h' in
          rw same
            (rw after (rw (looks j, answer_if_none (key == j) (contents p j), before, ← one) refl))
      | inr elsewhere ↦
          let d'' : Descent (with_dirty_leaf s leaf_num q) j s.root_page leaf_num' p' path' =
            rw elsewhere at moved in
          let after = get-contents (with_dirty_leaf s leaf_num q) j fuel rooted d'' v' h' in
          rw same (rw after (rw (before, other_key s key j d d' elsewhere) refl))
    ]
