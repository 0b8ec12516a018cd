-- ===== src/Btree/Lookup.antt =====
-- src/accessor/btree.rs: what `get` finds, and what an insertion into a leaf with room does to it.
use abdb.Base.{
  ℕ, ◌<◌, ◌≡◌, ◌≢◌, refl, ap, ◌∙◌, Bool, true, false, Option, some, none, List, [], if◌then◌else◌,
  ◌==◌, leb, ok, err, arith, Bool-cases, inl, inr, Result,
}
use abdb.Index.Leaf
use abdb.Index.Leaf.{BTreeLeafPage, num_entries, max_entries}
use abdb.Index.Leaf.Contents.{
  IsValid, contents, lookup-contents, insert_entry-Inserted, full, duplicate, added,
}
use abdb.Btree.{
  Index, Node, leaf, Error, fetch_page, store_page, read_root_page, update, tuple_non_existent,
  page_corruption,
}
use abdb.Btree.Descent.{
  Descent, here, down, depth, find_leaf-Descent, find_leaf_for_write-Descent, Descent-leaf,
  Descent-page,
}
use abdb.Btree.Eviction.{
  Pooled, evict_page, Evicts, IsSaved, IsClean, Same, Evicts-Same, Descent-Same, changed-IsClean,
}
use abdb.Btree.Delete.{get}
use abdb.Btree.Insert.{insert, insert_simple}

abbrev pub answer : Option (ℕ × ℕ) → Result Error (ℕ × ℕ)
answer (some rid) = ok rid
answer none = err tuple_non_existent

-- In an index with a root, where the key has a path of valid inner pages from the root to a valid
-- leaf and the fuel exceeds the inner pages on it, `get` answers the record id that the leaf holds
-- for the key, or that there is none, and changes nothing.
pub get-contents :
    (s : Index) (key fuel : ℕ) {leaf_num : ℕ} {p : BTreeLeafPage} {path : List ℕ}
    → s.root_page ≢ 0
    → Descent s key s.root_page leaf_num p path
    → IsValid p
    → depth path < fuel
    → get fuel key s ≡ (answer (contents p key), s)
unfolding get read_root_page fetch_page
get-contents s key fuel {leaf_num} {p} rooted d v h =
    let nonempty : (s.root_page == 0) ≡ false = ground (arith, rooted) in
    rw nonempty (
      rw (find_leaf-Descent fuel d h)
        (rw (Descent-page d, fetch_page) (rw (lookup-contents p key v) (ground arith))))

-- The index with another page in the place of a leaf; no page is marked dirty.
abbrev pub with_leaf : Index → ℕ → BTreeLeafPage → Index
with_leaf s leaf_num q = record s { pages = update s.pages leaf_num (some (leaf q)) }

-- In an index with a root, where the key has a path of valid inner pages from the root to a valid
-- leaf and the fuel exceeds the inner pages on it, `insert` of a key that the leaf lacks succeeds if
-- the leaf has room: the leaf stays valid and gains the entry, no other page and not the root
-- changes, and no page is marked dirty, the changed leaf included.
pub insert_room :
    (s : Index) (key fuel page slot : ℕ) {leaf_num : ℕ} {p : BTreeLeafPage} {path : List ℕ}
    → s.root_page ≢ 0
    → Descent s key s.root_page leaf_num p path
    → IsValid p
    → depth path < fuel
    → num_entries p < max_entries
    → contents p key ≡ none
    → (q : BTreeLeafPage) × (insert fuel key (page, slot) s ≡ (ok tt, with_leaf s leaf_num q))
      × IsValid q
      × ((j : ℕ) → contents q j ≡ (if key == j then some (page, slot) else contents p j))
unfolding insert read_root_page insert_simple store_page Leaf.needs_split
insert_room s key fuel page slot {leaf_num} {p} rooted d v h room absent =
    let nonempty : (s.root_page == 0) ≡ false = ground (arith, rooted) in
    let no_split : leb max_entries (num_entries p) ≡ false = ground arith in
    elim (insert_entry-Inserted p key page slot v) [
      | full at_end _ ↦ absurd (omega arith)
      | duplicate _ held _ ↦ absurd (held absent)
      | added q _ _ runs valid _ _ looks ↦ (
        q,
        rw nonempty (rw (find_leaf_for_write-Descent fuel [] d h) (rw no_split (rw runs refl))),
        valid,
        looks,
      )
    ]

-- In an index with a root, where the key has a path of valid inner pages from the root to a valid
-- leaf and the fuel exceeds the inner pages on it, `insert` of a key that the leaf holds is refused
-- as a corruption if the leaf has room, and nothing changes.
pub insert_duplicate :
    (s : Index) (key fuel page slot : ℕ) {leaf_num : ℕ} {p : BTreeLeafPage} {path : List ℕ}
    → s.root_page ≢ 0
    → Descent s key s.root_page leaf_num p path
    → IsValid p
    → depth path < fuel
    → num_entries p < max_entries
    → contents p key ≢ none
    → insert fuel key (page, slot) s ≡ (err page_corruption, s)
unfolding insert read_root_page insert_simple Leaf.needs_split
insert_duplicate s key fuel page slot {leaf_num} {p} rooted d v h room held =
    let nonempty : (s.root_page == 0) ≡ false = ground (arith, rooted) in
    let no_split : leb max_entries (num_entries p) ≡ false = ground arith in
    elim (insert_entry-Inserted p key page slot v) [
      | full at_end _ ↦ absurd (omega arith)
      | duplicate _ _ runs ↦
          rw nonempty (rw (find_leaf_for_write-Descent fuel [] d h) (rw no_split (rw runs refl)))
      | added q _ absent _ _ _ _ _ ↦ absurd (held absent)
    ]

-- The leaf's page at the end of a path, once a leaf is replaced.
abbrev pub replaced : ℕ → BTreeLeafPage → ℕ → BTreeLeafPage → BTreeLeafPage
replaced leaf_num q leaf_num' p' = if leaf_num == leaf_num' then q else p'

pub Descent-with_leaf :
    (s : Index) (j leaf_num : ℕ) (p q : BTreeLeafPage) {id leaf_num' : ℕ} {p' : BTreeLeafPage}
    {path : List ℕ}
    → s.pages leaf_num ≡ some (leaf p)
    → Descent s j id leaf_num' p' path
    → Descent (with_leaf s leaf_num q) j id leaf_num' (replaced leaf_num q leaf_num' p') path
Descent-with_leaf s j leaf_num p q at (here at') = here (ground (arith, at'))
Descent-with_leaf s j leaf_num p q at (down r at' v d) =
    down r (ground (arith, at, at')) v (Descent-with_leaf s j leaf_num p q at d)

pub answer_if :
    (b : Bool) (rid : ℕ × ℕ) (o : Option (ℕ × ℕ))
    → answer (if b then some rid else o) ≡ (if b then ok rid else answer o)
answer_if true rid o = refl
answer_if false rid o = refl

-- Keys of two leaves differ.
pub other_key :
    (s : Index) (key j : ℕ) {id leaf_num leaf_num' : ℕ} {p p' : BTreeLeafPage} {path path' : List ℕ}
    → Descent s key id leaf_num p path
    → Descent s j id leaf_num' p' path'
    → (leaf_num == leaf_num') ≡ false
    → (key == j) ≡ false
other_key s key j {leaf_num} {leaf_num'} d d' elsewhere = elim (Bool-cases (key == j)) [
  | inr differ ↦ differ
  | inl e ↦
      let same : key ≡ j = ground arith in
      let ids : leaf_num ≡ leaf_num' = Descent-leaf (rw same at d) d' in ground arith
]

module _ (s u : Index) (key fuel page slot j : ℕ) {leaf_num leaf_num' : ℕ} {p p' : BTreeLeafPage}
    (q : BTreeLeafPage) {path path' : List ℕ} (rooted : s.root_page ≢ 0)
    (d : Descent s key s.root_page leaf_num p path) (valid : IsValid q)
    (looks : (k : ℕ) → contents q k ≡ (if key == k then some (page, slot) else contents p k))
    (d' : Descent s j s.root_page leaf_num' p' path') (v' : IsValid p') (h' : depth path' < fuel)
    (same : Same (with_leaf s leaf_num q) u) where
  -- What `get` finds where the index sees the changed leaf.
  get-changed : (get fuel j u).0 ≡ (if key == j then ok (page, slot) else (get fuel j s).0)
  get-changed =
      let at : s.pages leaf_num ≡ some (leaf p) = Descent-page d in
      let at' : s.pages leaf_num' ≡ some (leaf p') = Descent-page d' in
      let before = get-contents s j fuel rooted d' v' h' in
      let rooted_too : u.root_page ≢ 0 = rw same.1 rooted in
      elim (Bool-cases (leaf_num == leaf_num')) [
        | inl here_too ↦
            let ids : leaf_num ≡ leaf_num' = ground arith in
            let one : p ≡ p' = ground (arith, at, at', ap s.pages ids) in
            let d'' : Descent (with_leaf s leaf_num q) j s.root_page leaf_num' q path' =
              rw here_too at (Descent-with_leaf s j leaf_num p q at d') in
            let seen : Descent u j u.root_page leaf_num' q path' =
              rw same.1 (Descent-Same same.0 d'') in
            let after = get-contents u j fuel rooted_too seen valid h' in
            rw after
              (rw (looks j, answer_if (key == j) (page, slot) (contents p j), before, ← one) refl)
        | inr elsewhere ↦
            let d'' : Descent (with_leaf s leaf_num q) j s.root_page leaf_num' p' path' =
              rw elsewhere at (Descent-with_leaf s j leaf_num p q at d') in
            let seen : Descent u j u.root_page leaf_num' p' path' =
              rw same.1 (Descent-Same same.0 d'') in
            let after = get-contents u j fuel rooted_too seen v' h' in
            rw after (rw (before, other_key s key j d d' elsewhere) refl)
      ]

-- In an index with a root, where the key has a path of valid inner pages from the root to a valid
-- leaf and the fuel exceeds the inner pages on it, a new key is inserted in a leaf that has room,
-- and every page that is not marked is as on disk before: where no frame is evicted while an
-- operation runs, when `insert` has succeeded, and after evictions of any pages but the changed
-- leaf, which the code leaves unmarked, `get` finds the new record id under the new key, and under
-- any other key, whose path also ends at a valid leaf, what it found before the insertion.
pub get-insert :
    (s t : Index) (disk : ℕ → Option Node) (w : Pooled) (key fuel page slot j : ℕ)
    {leaf_num leaf_num' : ℕ} {p p' : BTreeLeafPage} {path path' : List ℕ}
    → s.root_page ≢ 0
    → Descent s key s.root_page leaf_num p path
    → IsValid p
    → depth path < fuel
    → num_entries p < max_entries
    → contents p key ≡ none
    → Descent s j s.root_page leaf_num' p' path'
    → IsValid p'
    → depth path' < fuel
    → IsSaved (record { index = s; disk = disk })
    → insert fuel key (page, slot) s ≡ (ok tt, t)
    → Evicts leaf_num (record { index = t; disk = disk }) w
    → (get fuel j w.index).0 ≡ (if key == j then ok (page, slot) else (get fuel j s).0)
get-insert s t disk w key fuel page slot j {leaf_num} rooted d v h room absent d' v' h' saved done
      evicted =
    let (q, runs, valid, looks) = insert_room s key fuel page slot rooted d v h room absent in
    let same : t ≡ with_leaf s leaf_num q = cc in
    let clean : IsClean leaf_num (record { index = with_leaf s leaf_num q; disk = disk }) =
      changed-IsClean leaf_num s (with_leaf s leaf_num q) disk saved
        (λ id other unmarked. (ground arith, unmarked)) in
    let seen = Evicts-Same (rw same at evicted) clean in
    get-changed s w.index key fuel page slot j q rooted d valid looks d' v' h' seen.0

-- Where the leaf was not marked before such an insertion, and its frame is evicted after it, the
-- record id is lost: `get` finds for every key with a path what it found before.
get-insert_evicted :
    (s t : Index) (disk : ℕ → Option Node) (key fuel page slot j : ℕ) {leaf_num leaf_num' : ℕ}
    {p p' : BTreeLeafPage} {path path' : List ℕ}
    → s.root_page ≢ 0
    → Descent s key s.root_page leaf_num p path
    → IsValid p
    → depth path < fuel
    → num_entries p < max_entries
    → contents p key ≡ none
    → Descent s j s.root_page leaf_num' p' path'
    → IsValid p'
    → depth path' < fuel
    → IsSaved (record { index = s; disk = disk })
    → s.dirty leaf_num ≡ false
    → insert fuel key (page, slot) s ≡ (ok tt, t)
    → (get fuel j (evict_page leaf_num (record { index = t; disk = disk })).index).0
      ≡ (get fuel j s).0
unfolding evict_page
get-insert_evicted s t disk key fuel page slot j {leaf_num} rooted d v h room absent d' v' h' saved
      unmarked done =
    let (q, runs, valid, looks) = insert_room s key fuel page slot rooted d v h room absent in
    let same : t ≡ with_leaf s leaf_num q = cc in
    let restored : (k : ℕ)
        → update (update s.pages leaf_num (some (leaf q))) leaf_num (disk leaf_num) k ≡ s.pages k =
      λ k. elim (Bool-cases (leaf_num == k)) [
        | inl this ↦
            let ids : leaf_num ≡ k = ground arith in
            rw this (saved leaf_num unmarked ∙ ap s.pages ids)
        | inr that ↦ rw that refl
      ] in
    let before = get-contents s j fuel rooted d' v' h' in
    rw same (
      rw unmarked
        (rw before (ap (λ r. r.0) (get-contents _ j fuel rooted (Descent-Same restored d') v' h'))))
