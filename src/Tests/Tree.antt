-- ===== src/Tests/Tree.antt =====
-- The theorems on the operations of the index B-tree, at concrete inputs.
use abdb.Base.{
  ℕ, ◌<◌, ◌≡◌, ◌≢◌, refl, true, Option, some, none, [], ◌∷◌, arith, ok, Result, if◌then◌else◌, ◌==◌,
  length, inr,
}
use abdb.Slots.{assoc, route}
use abdb.Index.Leaf.{BTreeLeafPage, new_entry}
use abdb.Index.Leaf.Contents.{IsValid, contents}
use abdb.Tests.Pages.{
  tree, root, left_leaf, right_leaf, left_leaf-IsValid, right_leaf-IsValid, root-IsValid, ramp_page,
  ramp_page-IsValid,
}
use abdb.Btree.{Index, Error}
use abdb.Btree.Traverse.{find_leaf}
use abdb.Btree.Descent.{Descent, here, down, find_leaf-Descent}
use abdb.Btree.Eviction.{Pooled, Evicts, evict_page}
use abdb.Btree.Delete.{get, delete}
use abdb.Btree.Insert.{insert}
use abdb.Btree.Split.{split_leaf}
use abdb.Btree.Split.Leaves.{split_leaf-LeafSplit, LeafSplit}
use abdb.Btree.Lookup.{insert_room, get-insert, with_leaf}
use abdb.Btree.Removal.{delete_kept, with_dirty_leaf, get-delete}
use abdb.Btree.ScanLeaf.{select}
use abdb.Btree.Scan.{collect, scan_state}
use abdb.Btree.Scan.Chain.{collect-Chain, items}
use abdb.Btree.Scan.EndBound.{collect_end_bound}

to_left : Descent tree 6 1 2 left_leaf (1 ∷ [])
unfolding route
to_left = down root refl root-IsValid (here refl)

to_left_new : Descent tree 7 1 2 left_leaf (1 ∷ [])
unfolding route
to_left_new = down root refl root-IsValid (here refl)

to_right : Descent tree 402 1 3 right_leaf (1 ∷ [])
unfolding route
to_right = down root refl root-IsValid (here refl)

find_leaf-Descent_example : find_leaf 2 1 402 tree ≡ (ok 3, tree)
find_leaf-Descent_example = find_leaf-Descent 2 to_right (omega arith)

insert_room_example :
    (q : BTreeLeafPage) × (insert 2 7 (30, 1) tree ≡ (ok tt, with_leaf tree 2 q))
    × IsValid q
    × ((j : ℕ) → contents q j ≡ (if 7 == j then some (30, 1) else contents left_leaf j))
unfolding assoc
insert_room_example =
    insert_room tree 7 2 30 1 (omega arith) to_left_new left_leaf-IsValid (omega arith)
      (omega arith) refl

some_is_held : (o : Option (ℕ × ℕ)) (x : ℕ × ℕ) → o ≡ some x → o ≢ none
some_is_held o x e = λ h. cc

succeeds : (r : Result Error (Unit {0}) × Index) (t : Index) → r ≡ (ok tt, t) → r ≡ (ok tt, r.1)
succeeds r t e = rw e refl

inserted_tree : insert 2 7 (30, 1) tree ≡ (ok tt, (insert 2 7 (30, 1) tree).1)
unfolding assoc
inserted_tree =
    let (q, runs, _, _) =
      insert_room tree 7 2 30 1 (omega arith) to_left_new left_leaf-IsValid (omega arith)
        (omega arith) refl in
    succeeds _ _ runs

-- The tree after the insertion, with what was on disk before it, and two evictions later.
abbrev pooled_tree : Pooled
pooled_tree = record { index = (insert 2 7 (30, 1) tree).1; disk = tree.pages }

abbrev evicted_tree : Pooled
evicted_tree = evict_page 3 (evict_page 1 pooled_tree)

get-insert_example : (get 2 7 evicted_tree.index).0 ≡ ok (30, 1)
unfolding assoc
get-insert_example =
    get-insert tree (insert 2 7 (30, 1) tree).1 tree.pages evicted_tree 7 2 30 1 7 (omega arith)
      to_left_new left_leaf-IsValid (omega arith) (omega arith) refl to_left_new left_leaf-IsValid
      (omega arith) (λ id unmarked. refl) inserted_tree
      (Evicts.evict 3 (omega arith) (Evicts.evict 1 (omega arith) Evicts.done))

some_apart : (o : Option (ℕ × ℕ)) (a b c d : ℕ) → o ≡ some (a, b) → b ≢ d → o ≢ some (c, d)
some_apart o a b c d e n = λ h. ground (arith, e, h)

delete_kept_example :
    (q : BTreeLeafPage) × (delete 2 6 (3, 0) tree ≡ (ok tt, with_dirty_leaf tree 2 q))
    × IsValid q
    × ((j : ℕ) → contents q j ≡ (if 6 == j then none else contents left_leaf j))
unfolding assoc
delete_kept_example =
    delete_kept tree 6 2 3 0 (omega arith) to_left left_leaf-IsValid (omega arith) (omega arith)
      refl

deleted_tree : delete 2 6 (3, 0) tree ≡ (ok tt, (delete 2 6 (3, 0) tree).1)
unfolding assoc
deleted_tree =
    let (q, runs, _, _) =
      delete_kept tree 6 2 3 0 (omega arith) to_left left_leaf-IsValid (omega arith) (omega arith)
        refl in
    succeeds _ _ runs

get-delete_example : (get 2 402 (delete 2 6 (3, 0) tree).1).0 ≡ (get 2 402 tree).0
unfolding assoc
get-delete_example =
    get-delete tree (delete 2 6 (3, 0) tree).1 6 2 3 0 402 (omega arith) to_left left_leaf-IsValid
      (omega arith) (omega arith) refl to_right right_leaf-IsValid (omega arith) deleted_tree

-- A full leaf with a leaf behind it.
abbrev full_leaf : BTreeLeafPage
full_leaf = ramp_page 0 253 3 0

full_leaf-IsValid : IsValid full_leaf
full_leaf-IsValid = ramp_page-IsValid 0 253 3 0 (omega arith)

split_leaf-LeafSplit_example :
    (sep : ℕ) × (lower : BTreeLeafPage) × (upper : BTreeLeafPage) × (s' : Index) × (split_leaf
        full_leaf 2
        (some (new_entry 7 30 1))
        tree
      ≡ (ok (4, sep), s'))
    × LeafSplit tree full_leaf 2 sep 7 (30, 1) lower upper s'
unfolding assoc
split_leaf-LeafSplit_example =
    split_leaf-LeafSplit tree full_leaf 2 7 30 1 full_leaf-IsValid (omega arith) refl (omega arith)
      (inr (right_leaf, refl, omega arith, omega arith))

few_items : length (items (some 390) (left_leaf ∷ right_leaf ∷ [])) < 207
unfolding items select
few_items = omega arith

collect-Chain_example :
    collect 207 3 (scan_state 2 (some 390) none) tree
    ≡ (items (some 390) (left_leaf ∷ right_leaf ∷ []), true)
collect-Chain_example =
    collect-Chain tree 2 (some 390) (left_leaf ∷ right_leaf ∷ []) 207 3
      (omega arith, refl, left_leaf-IsValid, (omega arith, refl, right_leaf-IsValid, refl))
      (omega arith) few_items

collect_end_bound_example :
    collect 5 3 (scan_state 2 (some 390) (some 394)) tree ≡ ((390, (195, 0)) ∷ [], true)
unfolding select
collect_end_bound_example =
    collect_end_bound left_leaf 2 (some 390) (some 394) (390, (195, 0))
      ((392, (196, 0)) ∷ (394, (197, 0)) ∷ []) tree 3 1 (omega arith) refl left_leaf-IsValid refl
