-- ===== src/Btree/Insert.antt =====
-- src/accessor/btree.rs: the insertion of a key, with the splits that it may take.
use abdb.Base.{ℕ, some, List, [], ◌∷◌, if◌then◌else◌, leb, ◌==◌}
use mathlib.Core.List.{reverse}
use abdb.Index.Leaf
use abdb.Index.Inner
use abdb.Index.Leaf.{BTreeLeafPage}
use abdb.Btree.{
  M, leaf, inner, ◌>>=◌, ◌>>◌, corruption, fetch_page, store_page, mark_dirty, alloc_page, as_inner,
  read_root_page, set_root_page, alloc_and_set_root,
}
use abdb.Btree.Traverse.{find_leaf_for_write}
use abdb.Btree.Split.{split_leaf, split_inner}

-- The new root over the old one.
unfoldable pub grow_root : ℕ → ℕ → M (Unit {0})
grow_root sep_key new_child = do
  (new_root_num, old_root) ← alloc_and_set_root
  root_page ←
      corruption (Inner.insert_separator (Inner.init new_root_num old_root) sep_key new_child)
  store_page new_root_num (inner root_page)
  mark_dirty new_root_num

-- The loop over the latched ancestors, parent first.
unfoldable pub insert_into_parents : List ℕ → ℕ → ℕ → M (Unit {0})
insert_into_parents [] sep_key new_child = grow_root sep_key new_child
insert_into_parents (parent_num ∷ locked) sep_key new_child = do
  node ← fetch_page parent_num
  page ← as_inner node
  if leb Inner.max_keys (Inner.num_keys page)
      then (do
        (new_inner, pushed_up) ← split_inner page parent_num sep_key new_child
        insert_into_parents locked pushed_up new_inner)
      else (do
        q ← corruption (Inner.insert_separator page sep_key new_child)
        store_page parent_num (inner q))

-- `locked` is in order root to parent, and is popped from the end.
unfoldable pub insert_into_ancestors_with_locks : List ℕ → ℕ → ℕ → M (Unit {0})
insert_into_ancestors_with_locks locked sep_key new_child =
    insert_into_parents (reverse locked) sep_key new_child

-- A leaf that has room is changed and not marked dirty (an eviction of its frame undoes the
-- insertion, Eviction); one that has not is split.
unfoldable pub insert_simple : BTreeLeafPage → ℕ → ℕ → ℕ × ℕ → M (Unit {0})
insert_simple page leaf_num key (rid_page, rid_slot) = do
  q ← corruption (Leaf.insert_entry page key rid_page rid_slot)
  store_page leaf_num (leaf q)

unfoldable pub insert_split : BTreeLeafPage → ℕ → List ℕ → ℕ → ℕ × ℕ → M (Unit {0})
insert_split page leaf_num locked key (rid_page, rid_slot) = do
  (new_leaf, sep) ← split_leaf page leaf_num (some (Leaf.new_entry key rid_page rid_slot))
  insert_into_ancestors_with_locks locked sep new_leaf

-- An empty tree gets a root leaf with the entry.
unfoldable pub insert_first : ℕ → ℕ × ℕ → M (Unit {0})
insert_first key (rid_page, rid_slot) = do
  new_page_num ← alloc_page
  page ← corruption (Leaf.insert_entry (Leaf.init new_page_num) key rid_page rid_slot)
  store_page new_page_num (leaf page)
  mark_dirty new_page_num
  set_root_page new_page_num

-- `insert`, on fuel for the descent. The key is the u64 of `key_from_bytes`.
unfoldable pub insert : ℕ → ℕ → ℕ × ℕ → M (Unit {0})
insert fuel key rid = do
  root_page ← read_root_page
  if root_page == 0 then insert_first key rid else (do
    (leaf_num, page, locked) ← find_leaf_for_write fuel root_page key []
    if Leaf.needs_split page
        then insert_split page leaf_num locked key rid
        else insert_simple page leaf_num key rid)
