-- ===== src/Btree/Split.antt =====
-- src/accessor/btree.rs: the splits of a leaf and of an inner page.
pub mod Halves
pub mod Leaves
pub mod Separators
pub mod Inners
use abdb.Base.{
  ℕ, zero, suc, ◌+◌, ◌-◌, ◌/◌, Bool, true, false, Option, none, some, List, [], ◌∷◌, ◌++◌,
  if◌then◌else◌, ltb, ◌==◌, length, take, drop, insert_at, get_elem?, Result, ok, err, panic,
  no_fuel,
}
use abdb.Slots.{OverlayError}
use abdb.Index.Leaf
use abdb.Index.Inner
use abdb.Index.Leaf.{BTreeLeafPage, BTreeLeafEntry}
use abdb.Index.Inner.{BTreeInnerPage, BTreeInnerEntry}
use abdb.Btree.Collect.{read_entries, insertion_point, insert_entries, insert_separators}
use abdb.Btree.{
  M, Node, leaf, inner, other, ◌>>=◌, ◌>>◌, pure, raise, corruption, index_of, fetch_page,
  store_page, mark_dirty, alloc_page, as_leaf, page_corruption,
}

module _ {E : Type 0} where
  -- The key merged in, or a corruption if it is there.
  unfoldable pub merge_entry : (E → ℕ) → E → List E → M (List E)
  merge_entry key e es = elim (insertion_point key (key e) es) [
    | none ↦ raise page_corruption
    | some pos ↦ pure (insert_at pos e es)
  ]

-- The sibling's `prev_page`, if there is a sibling.
unfoldable pub relink_sibling : ℕ → ℕ → M (Unit {0})
relink_sibling old_next prev = if old_next == 0 then pure tt else (do
  node ← fetch_page old_next
  sib ← as_leaf node
  store_page old_next (leaf (Leaf.set_prev_page sib prev))
  mark_dirty old_next)

-- The new leaf and the separator. The old leaf is changed in place and not marked dirty (an eviction
-- of its frame undoes the change, Eviction). An insertion that failed would leave its page half
-- filled, which is not modelled: into a page just initialised, half of a leaf's entries and one more
-- always fit.
unfoldable pub split_leaf : BTreeLeafPage → ℕ → Option BTreeLeafEntry → M (ℕ × ℕ)
split_leaf page leaf_page_num extra_entry = do
  read ← corruption (read_entries (Leaf.entry page) 0 (Leaf.num_entries page))
  entries ← elim extra_entry [ none ↦ pure read | some e ↦ merge_entry Leaf.key_of e read ]
  let mid = length entries / 2
  middle ← index_of entries mid
  new_leaf_num ← alloc_page
  upper ← corruption (insert_entries (Leaf.init new_leaf_num) (drop mid entries))
  store_page new_leaf_num
      (leaf (Leaf.set_prev_page (Leaf.set_next_page upper page.header.next_page) leaf_page_num))
  mark_dirty new_leaf_num
  lower ← corruption (insert_entries (Leaf.init leaf_page_num) (take mid entries))
  store_page leaf_page_num
      (leaf (Leaf.set_prev_page (Leaf.set_next_page lower new_leaf_num) page.header.prev_page))
  relink_sibling page.header.next_page new_leaf_num
  pure (new_leaf_num, middle.key)

-- The new inner page and the separator that moves up. The old page is changed in place and not
-- marked dirty. (As with a leaf, the insertions into the two pages fit.)
unfoldable pub split_inner : BTreeInnerPage → ℕ → ℕ → ℕ → M (ℕ × ℕ)
split_inner page inner_page_num sep_key right_child = do
  read ← corruption (read_entries (Inner.entry page) 0 (Inner.num_keys page))
  entries ← merge_entry Inner.separator_of (Inner.new_entry sep_key right_child) read
  let mid = length entries / 2
  middle ← index_of entries mid
  new_inner_num ← alloc_page
  upper ←
      corruption
        (insert_separators (Inner.init new_inner_num middle.right_child) (drop (mid + 1) entries))
  store_page new_inner_num (inner upper)
  mark_dirty new_inner_num
  lower ←
      corruption (
        insert_separators (Inner.init inner_page_num (Inner.leftmost_child page))
          (take mid entries))
  store_page inner_page_num (inner lower)
  pure (new_inner_num, middle.separator_key)
