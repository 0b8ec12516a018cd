-- ===== src/PageDirectory/Tree.antt =====
-- src/storage/directory/directory.rs: the descents from the root to a leaf, on fuel.
use abdb.Base.{ℕ, zero, suc, ◌%◌, ◌^◌, List, [], ◌∷◌, ◌++◌, if◌then◌else◌, ◌==◌, no_fuel}
use abdb.Stateful.{◌>>=◌, pure, raise}
use abdb.Directory.Inner
use abdb.PageDirectory.{
  M, leaf, inner, other, file_header, corruption, read_page, page_corruption, page_not_found,
  read_root,
}

unfoldable pub find_leaf_from : ℕ → ℕ → ℕ → M ℕ
find_leaf_from zero current key s = (no_fuel, s)
find_leaf_from (suc fuel) current key s =
    (do
      node ← read_page current
      elim node [
        | inner p ↦ (do child ← corruption (Inner.find_child p key); find_leaf_from fuel child key)
        | leaf p ↦ pure current
        | file_header root next ↦ raise page_corruption
        | other t ↦ raise page_corruption
      ])
      s

-- In an empty tree the key, cut to 32 bits, is not found.
unfoldable pub find_leaf : ℕ → ℕ → M ℕ
find_leaf fuel key = do
  root ← read_root
  if root == 0 then raise (page_not_found (key % 2 ^ 32)) else find_leaf_from fuel root key

-- The leaf and the inner pages on the way, root first.
unfoldable pub find_path_from : ℕ → ℕ → ℕ → List ℕ → M (ℕ × List ℕ)
find_path_from zero current key path s = (no_fuel, s)
find_path_from (suc fuel) current key path s =
    (do
      node ← read_page current
      elim node [
        | inner p ↦ (do
          child ← corruption (Inner.find_child p key)
          find_path_from fuel child key (path ++ current ∷ []))
        | leaf p ↦ pure (current, path)
        | file_header root next ↦ raise page_corruption
        | other t ↦ raise page_corruption
      ])
      s

unfoldable pub find_leaf_with_path : ℕ → ℕ → M (ℕ × List ℕ)
find_leaf_with_path fuel key = do
  root ← read_root
  if root == 0 then pure (0, []) else find_path_from fuel root key []
