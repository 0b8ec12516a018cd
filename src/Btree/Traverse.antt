-- ===== src/Btree/Traverse.antt =====
-- src/accessor/btree.rs: the descents from the root to a leaf, on fuel.
use abdb.Base.{ℕ, zero, suc, List, [], ◌∷◌, ◌++◌, if◌then◌else◌, no_fuel}
use abdb.Index.Leaf
use abdb.Index.Inner
use abdb.Index.Leaf.{BTreeLeafPage}
use abdb.Index.Inner.{BTreeInnerPage}
use abdb.Btree.{M, leaf, inner, other, ◌>>=◌, pure, raise, corruption, fetch_page, page_corruption}

unfoldable pub find_leaf : ℕ → ℕ → ℕ → M ℕ
find_leaf zero current key s = (no_fuel, s)
find_leaf (suc fuel) current key s =
    (do
      node ← fetch_page current
      elim node [
        | inner p ↦ (do child ← corruption (Inner.find_child p key); find_leaf fuel child key)
        | leaf p ↦ pure current
        | other t ↦ raise page_corruption
      ])
      s

-- The leaf and the inner pages on the way, root first.
unfoldable pub find_leaf_with_path : ℕ → ℕ → ℕ → List ℕ → M (ℕ × List ℕ)
find_leaf_with_path zero current key path s = (no_fuel, s)
find_leaf_with_path (suc fuel) current key path s =
    (do
      node ← fetch_page current
      elim node [
        | inner p ↦ (do
          child ← corruption (Inner.find_child p key)
          find_leaf_with_path fuel child key (path ++ current ∷ []))
        | leaf p ↦ pure (current, path)
        | other t ↦ raise page_corruption
      ])
      s

-- The leaf, its page, and the inner pages whose latches are still held, root first.
unfoldable pub find_leaf_for_write : ℕ → ℕ → ℕ → List ℕ → M (ℕ × BTreeLeafPage × List ℕ)
find_leaf_for_write zero current key locked s = (no_fuel, s)
find_leaf_for_write (suc fuel) current key locked s =
    (do
      node ← fetch_page current
      elim node [
        | inner p ↦ (do
          child ← corruption (Inner.find_child p key)
          find_leaf_for_write fuel child key
              ((if Inner.is_safe_for_insert p then [] else locked) ++ current ∷ []))
        | leaf p ↦ pure (current, p, (if Leaf.is_safe_for_insert p then [] else locked))
        | other t ↦ raise page_corruption
      ])
      s
