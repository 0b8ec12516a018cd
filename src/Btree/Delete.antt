-- ===== src/Btree/Delete.antt =====
-- src/accessor/btree.rs: the point lookup, the deletion of a key, and the merge of two leaves.
use abdb.Base.{
  ℕ, zero, suc, ◌+◌, ◌-◌, Option, none, some, List, [], ◌∷◌, if◌then◌else◌, ltb, ◌==◌, ◌||◌, not,
  no_fuel, Result, ok, err, panic,
}
use mathlib.Core.List.{reverse}
use abdb.Slots.{OverlayError}
use abdb.Index.Leaf
use abdb.Index.Inner
use abdb.Index.Leaf.{BTreeLeafPage, BTreeLeafEntry}
use abdb.Index.Inner.{BTreeInnerPage, BTreeInnerEntry}
use abdb.Btree.{
  M, leaf, inner, ◌>>=◌, ◌>>◌, pure, raise, corruption, fetch_page, store_page, mark_dirty, as_leaf,
  as_inner, read_root_page, set_root_page, tuple_non_existent,
}
use abdb.Btree.Traverse.{find_leaf, find_leaf_with_path}
use abdb.Btree.Collect.{read_entries}
use abdb.Btree.Split.{relink_sibling}

-- `get`: the record id of a key.
unfoldable pub get : ℕ → ℕ → M (ℕ × ℕ)
get fuel key = do
  root_page ← read_root_page
  if root_page == 0 then raise tuple_non_existent else (do
    leaf_num ← find_leaf fuel root_page key
    node ← fetch_page leaf_num
    page ← as_leaf node
    found ← corruption (Leaf.lookup page key)
    elim found [ some rid ↦ pure rid | none ↦ raise tuple_non_existent ])

pub record MergeInfo : Type 0 where
  pub survivor : ℕ
  pub removed : ℕ
  pub sep_idx : ℕ

-- An overlay's result with `.ok()?`: an error ends the search with none. A panic cannot happen at an
-- index below the count.
abbrev ok_or {ℓ} : {A : Type 0} {B : Type ℓ} → Result OverlayError A → B → (A → B) → B
ok_or (ok a) none_found f = f a
ok_or (err e) none_found f = none_found
ok_or panic none_found f = none_found
ok_or no_fuel none_found f = none_found

-- The loop over the parent's entries, from index `i` for `n` rounds.
unfoldable pub find_in_parent : BTreeInnerPage → ℕ → ℕ → ℕ → Option MergeInfo
find_in_parent parent leaf_num i zero = none
find_in_parent parent leaf_num i (suc n) =
    let rest = find_in_parent parent leaf_num (suc i) n in
    ok_or (Inner.entry parent i) none (λ e.
      if e.right_child == leaf_num
      then (if i == 0
          then some
              (record { survivor = Inner.leftmost_child parent; removed = leaf_num; sep_idx = i })
          else ok_or (Inner.entry parent (i - 1)) none
              (λ l. some (record { survivor = l.right_child; removed = leaf_num; sep_idx = i })))
      else rest)

unfoldable pub find_merge_candidate : BTreeInnerPage → ℕ → Option MergeInfo
find_merge_candidate parent leaf_num =
    if Inner.num_keys parent == 0
    then none
    else if leaf_num == Inner.leftmost_child parent
    then ok_or (Inner.entry parent 0) none
        (λ e. some (record { survivor = leaf_num; removed = e.right_child; sep_idx = 0 }))
    else find_in_parent parent leaf_num 0 (Inner.num_keys parent)

-- The parent without the separator, and the root lowered when that was its last one.
unfoldable pub drop_separator : ℕ → BTreeInnerPage → ℕ → ℕ → M (Unit {0})
drop_separator parent_num parent sep_idx root_page = do
  q ← corruption (Inner.delete_separator parent sep_idx)
  store_page parent_num (inner q)
  mark_dirty parent_num
  if parent_num == root_page
      then (if Inner.num_keys q == 0 then set_root_page (Inner.leftmost_child q) else pure tt)
      else pure tt

-- The insertions into the survivor, each written to the page.
unfoldable pub insert_removed : ℕ → BTreeLeafPage → List BTreeLeafEntry → M BTreeLeafPage
insert_removed survivor page [] = pure page
insert_removed survivor page (e ∷ es) = do
  q ← corruption (Leaf.insert_entry page e.key e.record_page e.record_slot)
  store_page survivor (leaf q)
  insert_removed survivor q es

-- The merge of two leaves that fit in one.
unfoldable pub merge_leaves : MergeInfo → BTreeLeafPage → BTreeLeafPage → M (Unit {0})
merge_leaves info survivor_page removed_page = do
  removed_entries ←
      corruption (read_entries (Leaf.entry removed_page) 0 (Leaf.num_entries removed_page))
  merged ← insert_removed info.survivor survivor_page removed_entries
  store_page info.survivor (leaf (Leaf.set_next_page merged removed_page.header.next_page))
  mark_dirty info.survivor
  relink_sibling removed_page.header.next_page info.survivor

-- The merge behind its check that the two leaves fit in one.
unfoldable pub merge_if_fits : ℕ → BTreeInnerPage → MergeInfo → ℕ → M (Unit {0})
merge_if_fits parent_num parent info root_page = do
  s ← fetch_page info.survivor
  r ← fetch_page info.removed
  survivor_page ← as_leaf s
  removed_page ← as_leaf r
  if ltb Leaf.max_entries (Leaf.num_entries survivor_page + Leaf.num_entries removed_page)
      then pure tt
      else (do
        merge_leaves info survivor_page removed_page
        drop_separator parent_num parent info.sep_idx root_page)

-- `try_merge_leaf`; the parent is the last of the path, `head` of the path reversed.
unfoldable pub merge_under : List ℕ → ℕ → ℕ → M (Unit {0})
merge_under [] leaf_num root_page = pure tt
merge_under (parent_num ∷ above) leaf_num root_page = do
  node ← fetch_page parent_num
  parent ← as_inner node
  elim (find_merge_candidate parent leaf_num) [
    | none ↦ pure tt
    | some info ↦ merge_if_fits parent_num parent info root_page
  ]

unfoldable pub try_merge_leaf : ℕ → List ℕ → ℕ → M (Unit {0})
try_merge_leaf leaf_num path root_page = merge_under (reverse path) leaf_num root_page

-- The deletion on the leaf: the entry has to be there with that record id.
unfoldable pub delete_on_leaf : BTreeLeafPage → ℕ → ℕ × ℕ → M BTreeLeafPage
delete_on_leaf page key (rid_page, rid_slot) = do
  (found, pos) ← corruption (Leaf.find_slot page key)
  if found
      then (do
        e ← corruption (Leaf.entry page pos)
        if not (e.record_page == rid_page) || not (e.record_slot == rid_slot)
            then raise tuple_non_existent
            else corruption (Leaf.delete_entry page pos))
      else raise tuple_non_existent

unfoldable pub delete : ℕ → ℕ → ℕ × ℕ → M (Unit {0})
delete fuel key rid = do
  root_page ← read_root_page
  if root_page == 0 then raise tuple_non_existent else (do
    (leaf_num, path) ← find_leaf_with_path fuel root_page key []
    node ← fetch_page leaf_num
    page ← as_leaf node
    q ← delete_on_leaf page key rid
    store_page leaf_num (leaf q)
    mark_dirty leaf_num
    if Leaf.can_merge q then try_merge_leaf leaf_num path root_page else pure tt)
