-- ===== src/PageDirectory/Splits.antt =====
-- src/storage/directory/directory.rs: the splits of a leaf and of an inner page, and the separators
-- that move up.
use abdb.Base.{
  ℕ, ◌+◌, ◌/◌, none, some, List, [], ◌∷◌, map, if◌then◌else◌, leb, ◌==◌, length, take, drop,
  insert_at,
}
use mathlib.Core.List.{reverse}
use abdb.Common.{PPageId}
use abdb.Stateful.{◌>>=◌, ◌>>◌, pure, raise}
use abdb.Directory.Leaf
use abdb.Directory.Inner
use abdb.Directory.Leaf.{DirectoryLeafPage, DirectoryLeafEntry}
use abdb.Directory.Inner.{DirectoryInnerPage, DirectoryInnerEntry}
use abdb.Btree.Collect.{read_entries, insertion_point}
use abdb.PageDirectory.{
  M, leaf, inner, corruption, index_of, read_page, write_page, alloc_dir_page, as_leaf, as_inner,
  page_corruption, duplicate_page, set_root_page, read_root,
}

-- An entry as the pair of its id and its place.
abbrev pub pair_of : DirectoryLeafEntry → ℕ × PPageId
pair_of e = (Leaf.logical_page_id e, Leaf.to_ppage_id e)

abbrev pub id_of : ℕ × PPageId → ℕ
id_of (id, place) = id

-- `for (k, p) in .. { page.insert_entry(*k, *p)? }`.
unfoldable pub insert_entries : List (ℕ × PPageId) → DirectoryLeafPage → M DirectoryLeafPage
insert_entries [] p = pure p
insert_entries ((id, place) ∷ es) p = do
  q ← corruption (Leaf.insert_entry p id place)
  insert_entries es q

-- `for entry in .. { page.insert_separator(..)? }`.
unfoldable pub insert_separators :
    List DirectoryInnerEntry → DirectoryInnerPage → M DirectoryInnerPage
insert_separators [] p = pure p
insert_separators (e ∷ es) p = do
  q ← corruption (Inner.insert_separator p e.separator_key e.right_child)
  insert_separators es q

-- The old right sibling's `prev_page`, if there is a sibling.
unfoldable pub relink_sibling : ℕ → ℕ → M (Unit {0})
relink_sibling old_next new_leaf_id = if old_next == 0 then pure tt else (do
  node ← read_page old_next
  sib ← as_leaf node
  write_page old_next (leaf (Leaf.set_prev_page sib new_leaf_id)))

-- The new leaf, the separator, and the old leaf's page, which the caller writes.
unfoldable pub split_leaf : ℕ → DirectoryLeafPage → ℕ → PPageId → M (ℕ × ℕ × DirectoryLeafPage)
split_leaf leaf_id page extra_key extra_ppage = do
  read ← corruption (read_entries (Leaf.entry page) 0 (Leaf.num_entries page))
  let old = map pair_of read
  pos ← elim (insertion_point id_of extra_key old) [
    | some pos ↦ pure pos
    | none ↦ raise (duplicate_page extra_key)
  ]
  let entries = insert_at pos (extra_key, extra_ppage) old
  let mid = length entries / 2
  (separator, place) ← index_of entries mid
  new_leaf_id ← alloc_dir_page
  upper ← insert_entries (drop mid entries) (Leaf.init new_leaf_id)
  write_page new_leaf_id
      (leaf (Leaf.set_prev_page (Leaf.set_next_page upper page.header.next_page) leaf_id))
  lower ← insert_entries (take mid entries) (Leaf.init leaf_id)
  relink_sibling page.header.next_page new_leaf_id
  pure (
    new_leaf_id,
    separator,
    Leaf.set_prev_page (Leaf.set_next_page lower new_leaf_id) page.header.prev_page,
  )

-- The new inner page, the separator that moves up, and the old page, which the caller writes.
unfoldable pub split_inner : ℕ → DirectoryInnerPage → ℕ → ℕ → M (ℕ × ℕ × DirectoryInnerPage)
split_inner inner_id page sep_key right_child = do
  read ← corruption (read_entries (Inner.entry page) 0 (Inner.num_keys page))
  pos ← elim (insertion_point Inner.separator_of sep_key read) [
    | some pos ↦ pure pos
    | none ↦ raise page_corruption
  ]
  let entries = insert_at pos (Inner.new_entry sep_key right_child) read
  let mid = length entries / 2
  middle ← index_of entries mid
  new_inner_id ← alloc_dir_page
  upper ← insert_separators (drop (mid + 1) entries) (Inner.init new_inner_id middle.right_child)
  write_page new_inner_id (inner upper)
  lower ← insert_separators (take mid entries) (Inner.init inner_id (Inner.leftmost_child page))
  pure (new_inner_id, middle.separator_key, lower)

-- A root over the old one and a new child.
unfoldable pub grow_root : ℕ → ℕ → ℕ → M (Unit {0})
grow_root old_root sep_key new_child = do
  new_root_id ← alloc_dir_page
  root_page ←
      corruption (Inner.insert_separator (Inner.init new_root_id old_root) sep_key new_child)
  write_page new_root_id (inner root_page)
  set_root_page new_root_id

-- The loop over the path from its end; when all ancestors are split, the root grows.
unfoldable pub insert_into_parents : List ℕ → ℕ → ℕ → M (Unit {0})
insert_into_parents [] sep_key new_child = do
  old_root ← read_root
  grow_root old_root sep_key new_child
insert_into_parents (parent_id ∷ path) sep_key new_child = do
  node ← read_page parent_id
  page ← as_inner node
  if leb Inner.max_keys (Inner.num_keys page)
      then (do
        (new_inner, pushed_up, lower) ← split_inner parent_id page sep_key new_child
        write_page parent_id (inner lower)
        insert_into_parents path pushed_up new_inner)
      else (do
        q ← corruption (Inner.insert_separator page sep_key new_child)
        write_page parent_id (inner q))

unfoldable pub insert_into_ancestors : List ℕ → ℕ → ℕ → M (Unit {0})
insert_into_ancestors path sep_key new_child = insert_into_parents (reverse path) sep_key new_child
