-- ===== src/PageDirectory/Entries.antt =====
-- src/storage/directory/directory.rs: the operations of the page directory on the place of an id.
use abdb.Base.{ℕ, Bool, Option, none, some, List, [], ◌∷◌, if◌then◌else◌, leb, ◌==◌}
use abdb.Common.{PPageId}
use abdb.Stateful.{◌>>=◌, ◌>>◌, pure, raise}
use abdb.Directory.Leaf
use abdb.Directory.Leaf.{DirectoryLeafPage}
use abdb.PageDirectory.{
  M, leaf, corruption, read_page, write_page, alloc_dir_page, as_leaf, page_corruption,
  page_not_found, read_root, set_root_page,
}
use abdb.PageDirectory.Tree.{find_leaf, find_leaf_with_path}
use abdb.PageDirectory.Splits.{split_leaf, grow_root, insert_into_ancestors}

-- `ok_or(PageNotFound)`.
abbrev pub ok_or_missing : ℕ → Option PPageId → M PPageId
ok_or_missing page_id (some place) = pure place
ok_or_missing page_id none = raise (page_not_found page_id)

unfoldable pub lookup : ℕ → ℕ → M PPageId
lookup fuel page_id = do
  root ← read_root
  if root == 0 then raise (page_not_found page_id) else (do
    leaf_id ← find_leaf fuel page_id
    node ← read_page leaf_id
    page ← as_leaf node
    found ← corruption (Leaf.lookup page page_id)
    ok_or_missing page_id found)

-- An empty tree gets a root leaf with the entry.
unfoldable pub add_first : ℕ → PPageId → M (Unit {0})
add_first page_id physical_id = do
  new_leaf_id ← alloc_dir_page
  page ← corruption (Leaf.insert_entry (Leaf.init new_leaf_id) page_id physical_id)
  write_page new_leaf_id (leaf page)
  set_root_page new_leaf_id

unfoldable pub add_split : ℕ → List ℕ → DirectoryLeafPage → ℕ → PPageId → M (Unit {0})
add_split leaf_id path page page_id physical_id = do
  (new_leaf, sep, lower) ← split_leaf leaf_id page page_id physical_id
  write_page leaf_id (leaf lower)
  elim path [
    | [] ↦ grow_root leaf_id sep new_leaf
    | id ∷ ids ↦ insert_into_ancestors (id ∷ ids) sep new_leaf
  ]

unfoldable pub add_simple : ℕ → DirectoryLeafPage → ℕ → PPageId → M (Unit {0})
add_simple leaf_id page page_id physical_id = do
  q ← corruption (Leaf.insert_entry page page_id physical_id)
  write_page leaf_id (leaf q)

unfoldable pub add_page : ℕ → ℕ → PPageId → M (Unit {0})
add_page fuel page_id physical_id = do
  root ← read_root
  if root == 0 then add_first page_id physical_id else (do
    (leaf_id, path) ← find_leaf_with_path fuel page_id
    if leaf_id == 0 then raise page_corruption else (do
      node ← read_page leaf_id
      page ← as_leaf node
      if leb Leaf.max_entries (Leaf.num_entries page)
          then add_split leaf_id path page page_id physical_id
          else add_simple leaf_id page page_id physical_id))

-- What `update_page` and `delete_page` share: a change of the leaf that says whether the id was there.
unfoldable pub change_entry :
    ℕ → ℕ → (DirectoryLeafPage → M (DirectoryLeafPage × Bool)) → M (Unit {0})
change_entry fuel page_id change = do
  root ← read_root
  if root == 0 then raise (page_not_found page_id) else (do
    leaf_id ← find_leaf fuel page_id
    node ← read_page leaf_id
    page ← as_leaf node
    (q, changed) ← change page
    if changed then write_page leaf_id (leaf q) else raise (page_not_found page_id))

unfoldable pub update_page : ℕ → ℕ → PPageId → M (Unit {0})
update_page fuel page_id physical_id =
    change_entry fuel page_id (λ page. corruption (Leaf.update_entry page page_id physical_id))

unfoldable pub delete_page : ℕ → ℕ → M (Unit {0})
delete_page fuel page_id =
    change_entry fuel page_id (λ page. corruption (Leaf.delete_by_key page page_id))
