-- ===== src/Btree/Emptiness.antt =====
-- src/accessor/btree.rs: what the operations do on an index without a root, and the first insertion.
use abdb.Base.{
  ℕ, ◌+◌, ◌<◌, ◌≡◌, ◌≢◌, refl, true, false, some, none, if◌then◌else◌, ◌==◌, ok, err, arith, ◌%◌,
}
use abdb.Slots.{assoc}
use abdb.Index.Leaf
use abdb.Index.Leaf.{BTreeLeafPage, num_entries, max_entries}
use abdb.Index.Leaf.Contents.{
  IsValid, contents, init-IsValid, insert_entry-Inserted, full, duplicate, added,
}
use abdb.Btree.{
  Index, leaf, other, store_page, mark_dirty, alloc_page, set_root_page, read_root_page, update,
  tuple_non_existent,
}
use abdb.Btree.Descent.{here}
use abdb.Btree.Delete.{get}
use abdb.Btree.Insert.{insert, insert_first}
use abdb.Btree.Lookup.{get-contents, answer_if}

init-contents : (id j : ℕ) → contents (Leaf.init id) j ≡ none
unfolding Leaf.init assoc
init-contents id j = refl

-- The index once the first leaf is its root.
abbrev pub with_root : Index → BTreeLeafPage → Index
with_root s q = record {
  pages = update (update s.pages s.next_lpage_id (some (other 0))) s.next_lpage_id (some (leaf q));
  dirty = update (update s.dirty s.next_lpage_id false) s.next_lpage_id true;
  root_page = s.next_lpage_id;
  header_dirty = true;
  next_lpage_id = (s.next_lpage_id + 1) % 4294967296;
}

-- In an index without a root whose next page id is not 0, `insert` succeeds: that page becomes a
-- valid leaf, marked dirty, and the root, whose header is marked dirty, the next page id is counted
-- up, and `get` with positive fuel then finds the new record id under the key and nothing under any
-- other.
pub insert_empty :
    (s : Index) (key fuel page slot : ℕ)
    → s.root_page ≡ 0
    → s.next_lpage_id ≢ 0
    → (q : BTreeLeafPage) × (insert fuel key (page, slot) s ≡ (ok tt, with_root s q))
      × IsValid q
      × ((j n : ℕ)
          → 0 < n
          → (get n j (with_root s q)).0
            ≡ (if key == j then ok (page, slot) else err tuple_non_existent))
unfolding insert insert_first read_root_page alloc_page store_page mark_dirty set_root_page
insert_empty s key fuel page slot empty fresh =
    let rootless : (s.root_page == 0) ≡ true = ground (arith, empty) in
    elim (insert_entry-Inserted (Leaf.init s.next_lpage_id) key page slot
      (init-IsValid s.next_lpage_id)) [
        | full at_end _ ↦ absurd (unfold Leaf.init in omega arith)
        | duplicate _ held _ ↦ absurd (held (init-contents s.next_lpage_id key))
        | added q _ _ runs valid _ _ looks ↦ (
          q,
          rw rootless (rw runs refl),
          valid,
          λ j n h.
              let there : (with_root s q).pages s.next_lpage_id ≡ some (leaf q) = ground arith in
              rw
                (
                  get-contents (with_root s q) j n fresh (here there) valid h,
                  looks j,
                  init-contents s.next_lpage_id j,
                )
                (answer_if (key == j) (page, slot) none),
        )
      ]
