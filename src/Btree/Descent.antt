-- ===== src/Btree/Descent.antt =====
-- src/accessor/btree.rs: where the three descents end, by the path that a key takes.
use abdb.Base.{
  ℕ, zero, suc, ◌+◌, ◌<◌, ◌≡◌, refl, ◌∙◌, Option, some, none, List, [], ◌∷◌, ◌++◌, if◌then◌else◌,
  ok, arith,
}
use mathlib.Core.List.{append_assoc, append-nil}
use abdb.Index.Leaf
use abdb.Index.Inner
use abdb.Index.Leaf.{BTreeLeafPage}
use abdb.Index.Inner.{BTreeInnerPage}
use abdb.Index.Inner.Routing.{IsValid, child_for, find_child-child_for}
use abdb.Btree.{Index, Node, leaf, inner, fetch_page}
use abdb.Btree.Traverse.{find_leaf, find_leaf_with_path, find_leaf_for_write}

-- The key's path from a page to a leaf, with its inner pages.
pub data Descent (s : Index) (key : ℕ) : ℕ → ℕ → BTreeLeafPage → List ℕ → Type 0 where
  here : {id : ℕ} {p : BTreeLeafPage} → s.pages id ≡ some (leaf p) → Descent s key id id p []
  down :
      {id leaf_num : ℕ} {p : BTreeLeafPage} {path : List ℕ} (q : BTreeInnerPage)
      → s.pages id ≡ some (inner q)
      → IsValid q
      → Descent s key (child_for q key) leaf_num p path
      → Descent s key id leaf_num p (id ∷ path)

abbrev pub depth : List ℕ → ℕ
depth [] = 0
depth (id ∷ path) = suc (depth path)

-- The latches that `find_leaf_for_write` keeps: those of the path behind the last page that is
-- safe for an insertion, that page's own included, and none if the leaf is safe.
unfoldable pub kept : (ℕ → Option Node) → List ℕ → List ℕ → List ℕ
kept pages locked [] = locked
kept pages locked (id ∷ path) = elim (pages id) [
  | none ↦ []
  | some n ↦ (elim n [
    | inner q ↦ kept pages ((if Inner.is_safe_for_insert q then [] else locked) ++ id ∷ []) path
    | leaf p ↦ []
    | Node.other t ↦ []
  ])
]

module _ {s : Index} {key : ℕ} where
  -- Where the key has a path of valid inner pages to a leaf and the fuel exceeds the inner pages on
  -- it, `find_leaf` returns that leaf and changes nothing.
  pub find_leaf-Descent :
      (fuel : ℕ) {id leaf_num : ℕ} {p : BTreeLeafPage} {path : List ℕ}
      → Descent s key id leaf_num p path
      → depth path < fuel
      → find_leaf fuel id key s ≡ (ok leaf_num, s)
  unfolding find_leaf fetch_page
  find_leaf-Descent zero d h = absurd (omega arith)
  find_leaf-Descent (suc fuel) (here at) h = rw (at, fetch_page) refl
  find_leaf-Descent (suc fuel) (down q at v d) h =
      rw (at, fetch_page)
        (rw (find_child-child_for q key v) (find_leaf-Descent fuel d (omega arith)))

  -- Where the key has a path of valid inner pages to a leaf and the fuel exceeds the inner pages on
  -- it, `find_leaf_with_path` returns that leaf with the pages of the path in order behind the given
  -- ones, and changes nothing.
  pub find_leaf_with_path-Descent :
      (fuel : ℕ) {id leaf_num : ℕ} {p : BTreeLeafPage} {path : List ℕ} (before : List ℕ)
      → Descent s key id leaf_num p path
      → depth path < fuel
      → find_leaf_with_path fuel id key before s ≡ (ok (leaf_num, before ++ path), s)
  unfolding find_leaf_with_path fetch_page
  find_leaf_with_path-Descent zero before d h = absurd (omega arith)
  find_leaf_with_path-Descent (suc fuel) before (here at) h =
      rw (at, fetch_page, append-nil before) refl
  find_leaf_with_path-Descent (suc fuel) {id} before (down {path = path} q at v d) h =
      rw (at, fetch_page)
        (rw (find_child-child_for q key v) (
          find_leaf_with_path-Descent fuel (before ++ id ∷ []) d (omega arith)
          ∙ rw (append_assoc before (id ∷ []) path) refl))

  -- Where the key has a path of valid inner pages to a leaf and the fuel exceeds the inner pages on
  -- it, `find_leaf_for_write` returns that leaf and changes nothing; of the latches it keeps none if
  -- the leaf is safe for an insertion, and otherwise those of the path from its last safe inner page
  -- on, or with the given ones all of them if none is safe.
  pub find_leaf_for_write-Descent :
      (fuel : ℕ) {id leaf_num : ℕ} {p : BTreeLeafPage} {path : List ℕ} (locked : List ℕ)
      → Descent s key id leaf_num p path
      → depth path < fuel
      → find_leaf_for_write fuel id key locked s ≡ (
        ok (leaf_num, p, (if Leaf.is_safe_for_insert p then [] else kept s.pages locked path)),
        s,
      )
  unfolding find_leaf_for_write kept fetch_page
  find_leaf_for_write-Descent zero locked d h = absurd (omega arith)
  find_leaf_for_write-Descent (suc fuel) locked (here at) h = rw (at, fetch_page) refl
  find_leaf_for_write-Descent (suc fuel) locked (down q at v d) h =
      rw (at, fetch_page, kept)
        (rw (find_child-child_for q key v) (find_leaf_for_write-Descent fuel _ d (omega arith)))

  -- A key has one leaf.
  pub Descent-leaf :
      {id leaf_num leaf_num' : ℕ} {p p' : BTreeLeafPage} {path path' : List ℕ}
      → Descent s key id leaf_num p path
      → Descent s key id leaf_num' p' path'
      → leaf_num ≡ leaf_num'
  Descent-leaf {path = path} {path' = path'} d d' =
      let fuel : ℕ = suc (depth path + depth path') in
      cc (find_leaf-Descent fuel d (omega arith), find_leaf-Descent fuel d' (omega arith))

  -- The path ends at the leaf's page.
  pub Descent-page :
      {id leaf_num : ℕ} {p : BTreeLeafPage} {path : List ℕ}
      → Descent s key id leaf_num p path
      → s.pages leaf_num ≡ some (leaf p)
  Descent-page (here at) = at
  Descent-page (down q at v d) = Descent-page d
