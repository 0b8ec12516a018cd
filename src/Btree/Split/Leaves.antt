-- ===== src/Btree/Split/Leaves.antt =====
-- src/accessor/btree.rs: the split of a leaf, with the links between the pages.
use abdb.Base.{
  ℕ, ◌+◌, ◌%◌, ◌<◌, ◌≡◌, ◌≢◌, ◌⊎◌, inl, inr, refl, sym, ◌∙◌, true, false, some, none, List, ◌==◌,
  arith, ok, Bool-cases,
}
use abdb.Index.Leaf
use abdb.Index.Leaf.{
  BTreeLeafPage, BTreeLeafEntry, record_id, key_of, new_entry, num_entries, max_entries,
}
use abdb.Index.Leaf.Contents.{IsValid, contents}
use abdb.Btree.{
  Index, leaf, other, ◌>>=◌, fetch_page, store_page, mark_dirty, alloc_page, update, pure, index_of,
}
use abdb.Btree.Refill.{read_leaf}
use abdb.Btree.Split.{split_leaf, relink_sibling}
use abdb.Btree.Split.Halves.{Merged, merged, Halves, halves, SplitLeaf}

-- The sibling behind a leaf, if there is one: a leaf other than the two halves.
abbrev pub HasSibling : BTreeLeafPage → ℕ → Index → Type 0
HasSibling p leaf_num s =
    (p.header.next_page ≡ 0)
    ⊎ ((sib : BTreeLeafPage) × (s.pages p.header.next_page ≡ some (leaf sib))
        × (p.header.next_page ≢ leaf_num)
        × (p.header.next_page ≢ s.next_lpage_id))

-- The pages before the sibling is linked.
abbrev split_pages : Index → ℕ → BTreeLeafPage → BTreeLeafPage → Index
split_pages s leaf_num lower upper = record s {
  pages =
      update
        (update (update s.pages s.next_lpage_id (some (other 0))) s.next_lpage_id
          (some (leaf upper)))
        leaf_num (some (leaf lower));
  dirty = update (update s.dirty s.next_lpage_id false) s.next_lpage_id true;
  next_lpage_id = (s.next_lpage_id + 1) % 4294967296;
}

module _ (s : Index) (p : BTreeLeafPage) (leaf_num : ℕ) (e : BTreeLeafEntry)
    {es : List BTreeLeafEntry} {mid : BTreeLeafEntry} {l r : BTreeLeafPage} (v : IsValid p)
    (m : Merged p e es s)
    (h : Halves p leaf_num s.next_lpage_id e.key (record_id e) es mid l r) where
  abbrev lower : BTreeLeafPage
  lower = Leaf.set_prev_page (Leaf.set_next_page l s.next_lpage_id) p.header.prev_page

  abbrev upper : BTreeLeafPage
  upper = Leaf.set_prev_page (Leaf.set_next_page r p.header.next_page) leaf_num

  split_runs :
      split_leaf p leaf_num (some e) s
      ≡ (relink_sibling p.header.next_page s.next_lpage_id >>= λ _. pure (s.next_lpage_id, mid.key))
          (split_pages s leaf_num lower upper)
  unfolding split_leaf alloc_page store_page mark_dirty
  split_runs =
      rw (read_leaf p v)
        (rw m.runs (rw (h.middle, index_of) (rw h.upper_runs (rw h.lower_runs refl))))

-- The sibling is linked to the new leaf, and no other page changes.
record Relinked (old_next prev : ℕ) (s s' : Index) : Type 0 where
  runs : relink_sibling old_next prev s ≡ (ok tt, s')
  pages : (j : ℕ) → (old_next ≡ 0) ⊎ (j ≢ old_next) → s'.pages j ≡ s.pages j
  dirty : (j : ℕ) → (old_next ≡ 0) ⊎ (j ≢ old_next) → s'.dirty j ≡ s.dirty j
  linked :
      old_next ≢ 0
      → (sib : BTreeLeafPage) → s.pages old_next ≡ some (leaf sib)
      → s'.pages old_next ≡ some (leaf (Leaf.set_prev_page sib prev))
  root : s'.root_page ≡ s.root_page
  next : s'.next_lpage_id ≡ s.next_lpage_id

relinked :
    (old_next prev : ℕ) (s : Index)
    → (old_next ≡ 0) ⊎ ((sib : BTreeLeafPage) × (s.pages old_next ≡ some (leaf sib)))
    → (s' : Index) × Relinked old_next prev s s'
unfolding relink_sibling fetch_page store_page mark_dirty
relinked old_next prev s (inl e) = (
  s,
  record {
    runs = ground arith;
    pages = λ j h. refl;
    dirty = λ j h. refl;
    linked = λ h. absurd (h e);
    root = refl;
    next = refl;
  },
)
relinked old_next prev s (inr (sib, at)) = elim (Bool-cases (old_next == 0)) [
  | inl e ↦ (
    s,
    record {
      runs = rw e refl;
      pages = λ j h. refl;
      dirty = λ j h. refl;
      linked = λ h. absurd (h (ground arith));
      root = refl;
      next = refl;
    },
  )
  | inr n ↦ (
    record s {
      pages = update s.pages old_next (some (leaf (Leaf.set_prev_page sib prev)));
      dirty = update s.dirty old_next true;
    },
    record {
      runs = rw n (rw (at, fetch_page) refl);
      pages = λ j h. ground arith;
      dirty = λ j h. ground arith;
      linked = λ h x same. ground (arith, at, same);
      root = refl;
      next = refl;
    },
  )
]

module _ (s : Index) (p : BTreeLeafPage) (leaf_num : ℕ) where
  apart_old : HasSibling p leaf_num s → (p.header.next_page ≡ 0) ⊎ (leaf_num ≢ p.header.next_page)
  apart_old (inl e) = inl e
  apart_old (inr (sib, at, a, b)) = inr (λ same. a (sym same))

  apart_new :
      HasSibling p leaf_num s → (p.header.next_page ≡ 0) ⊎ (s.next_lpage_id ≢ p.header.next_page)
  apart_new (inl e) = inl e
  apart_new (inr (sib, at, a, b)) = inr (λ same. b (sym same))

  module _ (lo up : BTreeLeafPage) where
    keeps_sibling :
        (sib : BTreeLeafPage)
        → p.header.next_page ≢ 0
        → HasSibling p leaf_num s
        → s.pages p.header.next_page ≡ some (leaf sib)
        → (split_pages s leaf_num lo up).pages p.header.next_page ≡ some (leaf sib)
    keeps_sibling sib d (inl e) at = absurd (d e)
    keeps_sibling sib d (inr (_, _, a, b)) at = ground (arith, at)

    sibling_after :
        HasSibling p leaf_num s
        → (p.header.next_page ≡ 0)
          ⊎ ((sib : BTreeLeafPage) × ((split_pages s leaf_num lo up).pages p.header.next_page
                ≡ some (leaf sib)))
    sibling_after (inl e) = inl e
    sibling_after (inr (sib, at, a, b)) = inr (sib, ground (arith, at))

-- What the index is after the split of a leaf.
pub record LeafSplit (s : Index) (p : BTreeLeafPage) (leaf_num sep k : ℕ) (rid : ℕ × ℕ)
    (lower upper : BTreeLeafPage) (s' : Index) : Type 0 where
  pub halves : SplitLeaf p leaf_num s.next_lpage_id sep k rid lower upper
  pub old_page : s'.pages leaf_num ≡ some (leaf lower)
  pub new_page : s'.pages s.next_lpage_id ≡ some (leaf upper)
  pub sibling :
      p.header.next_page ≢ 0
      → (sib : BTreeLeafPage) → s.pages p.header.next_page ≡ some (leaf sib)
      → s'.pages p.header.next_page ≡ some (leaf (Leaf.set_prev_page sib s.next_lpage_id))
  pub others :
      (j : ℕ)
      → j ≢ leaf_num
      → j ≢ s.next_lpage_id
      → (p.header.next_page ≡ 0) ⊎ (j ≢ p.header.next_page)
      → (s'.pages j ≡ s.pages j) × (s'.dirty j ≡ s.dirty j)
  pub new_dirty : s'.dirty s.next_lpage_id ≡ true
  pub old_dirty : s'.dirty leaf_num ≡ s.dirty leaf_num
  pub root : s'.root_page ≡ s.root_page
  pub next : s'.next_lpage_id ≡ (s.next_lpage_id + 1) % 4294967296

-- `split_leaf` of a valid leaf that has entries, with a key that the leaf lacks, returns a separator
-- and the new page, if the new page id is not the leaf's and what lies behind the leaf is nothing or
-- a leaf page other than these two. The two halves are valid, share the entries and the new one
-- evenly, the keys below the separator in the old page and the others in the new one; the halves and
-- the leaf behind are linked, no other page and not the root changes, the new page is marked dirty,
-- and the marks of the old page and of all others but the leaf behind stay as they were.
pub split_leaf-LeafSplit :
    (s : Index) (p : BTreeLeafPage) (leaf_num k page slot : ℕ)
    → IsValid p
    → 0 < num_entries p
    → contents p k ≡ none
    → leaf_num ≢ s.next_lpage_id
    → HasSibling p leaf_num s
    → (sep : ℕ) × (lower : BTreeLeafPage) × (upper : BTreeLeafPage) × (s' : Index) × (split_leaf p
          leaf_num
          (some (new_entry k page slot))
          s
        ≡ (ok (s.next_lpage_id, sep), s'))
      × LeafSplit s p leaf_num sep k (page, slot) lower upper s'
split_leaf-LeafSplit s p leaf_num k page slot v some_entry absent fresh sibling =
    let e : BTreeLeafEntry = new_entry k page slot in
    let (es, m) = merged p e s v absent in
    let (mid, l, r, h) = halves p leaf_num s.next_lpage_id e es s v some_entry m in
    let lo : BTreeLeafPage =
      Leaf.set_prev_page (Leaf.set_next_page l s.next_lpage_id) p.header.prev_page in
    let up : BTreeLeafPage =
      Leaf.set_prev_page (Leaf.set_next_page r p.header.next_page) leaf_num in
    let t : Index = split_pages s leaf_num lo up in
    let (s', w) =
      relinked p.header.next_page s.next_lpage_id t (sibling_after s p leaf_num lo up sibling) in
    (
      mid.key,
      lo,
      up,
      s',
      split_runs s p leaf_num e v m h ∙ rw w.runs refl,
      record {
        halves = h.split;
        old_page = w.pages leaf_num (apart_old s p leaf_num sibling) ∙ ground arith;
        new_page = w.pages s.next_lpage_id (apart_new s p leaf_num sibling) ∙ ground arith;
        sibling = λ d sib at. w.linked d sib (keeps_sibling s p leaf_num lo up sib d sibling at);
        others = λ j a b c. (w.pages j c ∙ ground arith, w.dirty j c ∙ ground arith);
        new_dirty = w.dirty s.next_lpage_id (apart_new s p leaf_num sibling) ∙ ground arith;
        old_dirty = w.dirty leaf_num (apart_old s p leaf_num sibling) ∙ ground arith;
        root = w.root;
        next = w.next;
      },
    )
