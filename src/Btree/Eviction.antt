-- ===== src/Btree/Eviction.antt =====
-- src/accessor/btree.rs over src/buffer/impl/buffer_pool.rs: what the index sees of its pages after
-- frames were evicted. A page that is not marked is not written back, and is loaded from disk again.
use abdb.Base.{
  ℕ, ◌≡◌, ◌≢◌, refl, sym, ap, ◌∙◌, false, Option, List, if◌then◌else◌, ◌==◌, Bool-cases, inl, inr,
  arith,
}
use abdb.Index.Leaf.{BTreeLeafPage}
use abdb.Btree.{Index, Node, update}
use abdb.Btree.Descent.{Descent, here, down}

-- The index, and what is on disk of each page.
pub record Pooled : Type 0 where
  pub index : Index
  pub disk : ℕ → Option Node

-- The frame of a page is evicted: a dirty page is written back and is clean, and of a clean page the
-- next fetch sees what is on disk.
unfoldable pub evict_page : ℕ → Pooled → Pooled
evict_page id w =
    if w.index.dirty id
    then (record {
      index = record w.index { dirty = update w.index.dirty id false };
      disk = update w.disk id (w.index.pages id);
    })
    else (record {
      index = record w.index { pages = update w.index.pages id (w.disk id) };
      disk = w.disk;
    })

-- Evictions in any order, but not of one page.
pub data Evicts (kept : ℕ) (w : Pooled) : Pooled → Type 0 where
  done : Evicts kept w w
  evict : {u : Pooled} (id : ℕ) → id ≢ kept → Evicts kept w u → Evicts kept w (evict_page id u)

-- Every unmarked page but one is as on disk.
abbrev pub IsClean : ℕ → Pooled → Type 0
IsClean kept w = (id : ℕ) → id ≢ kept → w.index.dirty id ≡ false → w.disk id ≡ w.index.pages id

-- Every unmarked page is as on disk.
abbrev pub IsSaved : Pooled → Type 0
IsSaved w = (id : ℕ) → w.index.dirty id ≡ false → w.disk id ≡ w.index.pages id

-- The index sees the same pages and the same root.
abbrev pub Same : Index → Index → Type 0
Same s t = ((id : ℕ) → t.pages id ≡ s.pages id) × (t.root_page ≡ s.root_page)

reloaded :
    (id : ℕ) (w : Pooled)
    → w.disk id ≡ w.index.pages id
    → (j : ℕ) → update w.index.pages id (w.disk id) j ≡ w.index.pages j
reloaded id w saved j = elim (Bool-cases (id == j)) [
  | inl this ↦ let here_too : id ≡ j = ground arith in rw this (saved ∙ ap w.index.pages here_too)
  | inr that ↦ rw that refl
]

evict_page-IsClean :
    (kept id : ℕ) (w : Pooled)
    → id ≢ kept
    → IsClean kept w
    → Same w.index (evict_page id w).index × IsClean kept (evict_page id w)
unfolding evict_page
evict_page-IsClean kept id w other clean = elim (Bool-cases (w.index.dirty id)) [
  | inl marked ↦ rw marked (
    (λ j. refl, refl),
    λ j n unmarked. elim (Bool-cases (id == j)) [
      | inl this ↦ let here_too : id ≡ j = ground arith in rw this (ap w.index.pages here_too)
      | inr that ↦
          let as_before : w.index.dirty j ≡ false = ground (arith, unmarked) in
          rw that (clean j n as_before)
    ],
  )
  | inr unmarked ↦
      let loaded = reloaded id w (clean id other unmarked) in
      rw unmarked ((loaded, refl), λ j n h. clean j n h ∙ sym (loaded j))
]

-- Evictions but of that page show the index what it saw.
pub Evicts-Same :
    {kept : ℕ} {w u : Pooled}
    → Evicts kept w u
    → IsClean kept w
    → Same w.index u.index × IsClean kept u
Evicts-Same done clean = ((λ id. refl, refl), clean)
Evicts-Same {kept} (evict {u} id other before) clean =
    let (same, still) = Evicts-Same before clean in
    let (step, after) = evict_page-IsClean kept id u other still in
    ((λ j. step.0 j ∙ same.0 j, step.1 ∙ same.1), after)

-- A path in pages that are the same.
pub Descent-Same :
    {s t : Index} {key id leaf_num : ℕ} {p : BTreeLeafPage} {path : List ℕ}
    → ((j : ℕ) → t.pages j ≡ s.pages j)
    → Descent s key id leaf_num p path
    → Descent t key id leaf_num p path
Descent-Same same (here {id} at) = here (same id ∙ at)
Descent-Same same (down {id} q at v d) = down q (same id ∙ at) v (Descent-Same same d)

-- The pages of which one was changed and not marked: but for that one they are as on disk.
pub changed-IsClean :
    (kept : ℕ) (s t : Index) (disk : ℕ → Option Node)
    → IsSaved (record { index = s; disk = disk })
    → ((id : ℕ) → id ≢ kept → t.dirty id ≡ false → (t.pages id ≡ s.pages id) × (s.dirty id ≡ false))
    → IsClean kept (record { index = t; disk = disk })
changed-IsClean kept s t disk saved changed = λ id other unmarked.
    let (same, before) = changed id other unmarked in saved id before ∙ sym same
