-- ===== src/Btree/Growth.antt =====
-- src/accessor/btree.rs: the insertion into a full leaf that is the root, which grows the tree by a level.
use abdb.Base.{
  ℕ, ◌+◌, ◌<◌, ◌≡◌, ◌≢◌, refl, sym, ap, ◌∙◌, Bool, true, false, Option, some, none, [], ◌∷◌,
  true-false, if◌then◌else◌, ◌==◌, leb, ltb, ok, arith, ◌%◌, Bool-cases, inl, inr,
}
use abdb.Slots.{assoc, route, separated}
use abdb.Index.Leaf
use abdb.Index.Inner
use abdb.Index.Leaf.{BTreeLeafPage, num_entries, max_entries, new_entry}
use abdb.Index.Leaf.Contents.{IsValid, contents}
use abdb.Index.Inner.{BTreeInnerPage}
use abdb.Index.Inner.Routing
use abdb.Index.Inner.Routing.{
  child_for, in_range, insert_separator-Inserted, full, duplicate, added,
}
use abdb.Btree.{
  Index, Node, leaf, inner, other, store_page, mark_dirty, alloc_page, alloc_and_set_root,
  set_root_page, read_root_page, update,
}
use abdb.Btree.Descent.{Descent, here, down, kept, find_leaf_for_write-Descent}
use abdb.Btree.Eviction.{Pooled, Evicts, IsSaved, Same, Evicts-Same, Descent-Same, changed-IsClean}
use abdb.Btree.Delete.{get}
use abdb.Btree.Insert.{
  insert, insert_split, insert_into_ancestors_with_locks, insert_into_parents, grow_root,
}
use abdb.Btree.Lookup.{answer, get-contents, answer_if}
use abdb.Btree.Split.Leaves.{LeafSplit, split_leaf-LeafSplit}

-- The index once a new root stands over the old one.
abbrev pub with_new_root : Index → BTreeInnerPage → Index
with_new_root s q = record {
  pages = update (update s.pages s.next_lpage_id (some (other 0))) s.next_lpage_id (some (inner q));
  dirty = update (update s.dirty s.next_lpage_id false) s.next_lpage_id true;
  root_page = s.next_lpage_id;
  header_dirty = true;
  next_lpage_id = (s.next_lpage_id + 1) % 4294967296;
}

init-child_for : (id leftmost k : ℕ) → child_for (Inner.init id leftmost) k ≡ leftmost
unfolding Inner.init route
init-child_for id leftmost k = refl

init-in_range : (id leftmost sep k : ℕ) → in_range (Inner.init id leftmost) sep k ≡ leb sep k
unfolding Inner.init separated
init-in_range id leftmost sep k = ground arith

init-absent :
    (id leftmost sep : ℕ)
    → assoc Inner.separator_of sep (Routing.live (Inner.init id leftmost)) ≡ none
unfolding Inner.init assoc
init-absent id leftmost sep = refl

-- The new root sends the keys below the separator to the old root, and the others to the new page.
pub grow_root_lem :
    (s : Index) (sep new_child : ℕ)
    → (q : BTreeInnerPage) × (grow_root sep new_child s ≡ (ok tt, with_new_root s q))
      × Routing.IsValid q
      × ((k : ℕ) → child_for q k ≡ (if leb sep k then new_child else s.root_page))
unfolding grow_root alloc_and_set_root alloc_page read_root_page set_root_page store_page mark_dirty
grow_root_lem s sep new_child =
    elim (insert_separator-Inserted (Inner.init s.next_lpage_id s.root_page) sep new_child
      (Routing.init-IsValid s.next_lpage_id s.root_page)) [
        | full at_end _ ↦ absurd (unfold Inner.init in omega arith)
        | duplicate _ held _ ↦ absurd (held (init-absent s.next_lpage_id s.root_page sep))
        | added q _ _ runs valid _ goes ↦ (
          q,
          rw runs refl,
          valid,
          λ k.
              rw
                (
                  goes k,
                  init-in_range s.next_lpage_id s.root_page sep k,
                  init-child_for s.next_lpage_id s.root_page k,
                )
                refl,
        )
      ]

no_latches : (s : Index) (b : Bool) → (if b then [] else kept s.pages [] []) ≡ []
unfolding kept
no_latches s true = refl
no_latches s false = refl

module _ (s s' : Index) {p lower upper : BTreeLeafPage} {sep key page slot : ℕ} (q : BTreeInnerPage)
    (w : LeafSplit s p s.root_page sep key (page, slot) lower upper s') (valid : Routing.IsValid q)
    (goes : (k : ℕ) → child_for q k ≡ (if leb sep k then s.next_lpage_id else s'.root_page))
    (fresh : s.root_page < s.next_lpage_id) (small : s.next_lpage_id + 1 < 4294967296) where
  abbrev grown : Index
  grown = with_new_root s' q

  -- But for the old root, a page that is not marked then is as it was.
  grown_unmarked :
      p.header.next_page ≡ 0
      → (id : ℕ) → id ≢ s.root_page
      → grown.dirty id ≡ false
      → (grown.pages id ≡ s.pages id) × (s.dirty id ≡ false)
  grown_unmarked alone id apart unmarked = elim (Bool-cases (s'.next_lpage_id == id)) [
    | inl root_now ↦ absurd (true-false (ground (arith, unmarked)))
    | inr not_root ↦
        let before : s'.dirty id ≡ false = ground (arith, unmarked) in
        elim (Bool-cases (s.next_lpage_id == id)) [
          | inl new ↦
              let ids : s.next_lpage_id ≡ id = ground arith in
              absurd (true-false (sym w.new_dirty ∙ ap s'.dirty ids ∙ before))
          | inr old ↦
              let not_new : id ≢ s.next_lpage_id = ground arith in
              let unchanged = w.others id apart not_new (inl alone) in
              (rw not_root unchanged.0, sym unchanged.1 ∙ before)
        ]
  ]

  root_id : grown.root_page ≡ s.next_lpage_id + 1
  root_id = omega (arith, w.next)

  at_root : grown.pages grown.root_page ≡ some (inner q)
  at_root = ground arith

  at_lower : grown.pages s.root_page ≡ some (leaf lower)
  at_lower = ground (arith, w.old_page, root_id)

  at_upper : grown.pages s.next_lpage_id ≡ some (leaf upper)
  at_upper = ground (arith, w.new_page, root_id)

  -- What `get` finds in the grown tree, where the index sees its pages.
  get-grown :
      (u : Index) (j n : ℕ)
      → Same grown u
      → 1 < n
      → (get n j u).0 ≡ answer (if key == j then some (page, slot) else contents p j)
  get-grown u j n same h =
      let rooted : u.root_page ≢ 0 = rw same.1 (omega (arith, root_id)) in
      elim (Bool-cases (leb sep j)) [
        | inl above ↦
            let child : child_for q j ≡ s.next_lpage_id = rw (goes j, above) refl in
            let under : Descent grown j (child_for q j) s.next_lpage_id upper [] =
              rw child (here at_upper) in
            let not_below : ltb j sep ≡ false = ground arith in
            let path : Descent u j u.root_page s.next_lpage_id upper (grown.root_page ∷ []) =
              rw same.1 (Descent-Same same.0 (down q at_root valid under)) in
            rw
              (
                get-contents u j n rooted path w.halves.upper_valid h,
                w.halves.upper_contents j,
                not_below,
              )
              refl
        | inr beneath ↦
            let child : child_for q j ≡ s.root_page = rw (goes j, beneath) w.root in
            let under : Descent grown j (child_for q j) s.root_page lower [] =
              rw child (here at_lower) in
            let below : ltb j sep ≡ true = ground arith in
            let path : Descent u j u.root_page s.root_page lower (grown.root_page ∷ []) =
              rw same.1 (Descent-Same same.0 (down q at_root valid under)) in
            rw
              (
                get-contents u j n rooted path w.halves.lower_valid h,
                w.halves.lower_contents j,
                below,
              )
              refl
      ]

-- In an index whose root is a full, valid leaf with no leaf behind it, where the next page id lies
-- above the root's and not at the end of 32 bits the fuel is positive, and every page that is not
-- marked is as on disk, `insert` of a key that the leaf lacks succeeds. Where no frame is evicted
-- while an operation runs, then afterwards, and after evictions of any pages but the old root, which
-- the code leaves unmarked, `get`, with fuel for the two levels, finds the new record id under the
-- new key and under every other key what it found before the insertion.
pub insert_full_root :
    (s : Index) (disk : ℕ → Option Node) (key fuel page slot : ℕ) {p : BTreeLeafPage}
    → s.root_page ≢ 0
    → s.pages s.root_page ≡ some (leaf p)
    → IsValid p
    → num_entries p ≡ max_entries
    → contents p key ≡ none
    → p.header.next_page ≡ 0
    → s.root_page < s.next_lpage_id
    → s.next_lpage_id + 1 < 4294967296
    → 0 < fuel
    → IsSaved (record { index = s; disk = disk })
    → (t : Index) × (insert fuel key (page, slot) s ≡ (ok tt, t))
      × ((w : Pooled) (j n : ℕ)
          → Evicts s.root_page (record { index = t; disk = disk }) w
          → 1 < n
          → (get n j w.index).0 ≡ (if key == j then ok (page, slot) else (get n j s).0))
unfolding insert insert_split insert_into_ancestors_with_locks insert_into_parents read_root_page
    Leaf.needs_split
insert_full_root s disk key fuel page slot {p} rooted at v at_end absent alone fresh small h saved =
    let nonempty : (s.root_page == 0) ≡ false = ground (arith, rooted) in
    let splits : leb max_entries (num_entries p) ≡ true = ground (arith, at_end) in
    let d : Descent s key s.root_page s.root_page p [] = here at in
    let (sep, lower, upper, s', runs, w) =
      split_leaf-LeafSplit s p s.root_page key page slot v (omega arith) absent (omega arith)
        (inl alone) in
    let (q, grows, valid, goes) = grow_root_lem s' sep s.next_lpage_id in
    (
      with_new_root s' q,
      rw nonempty (
          rw (find_leaf_for_write-Descent fuel [] d h)
            (rw splits (rw (runs, no_latches s (Leaf.is_safe_for_insert p)) grows))),
      λ u j n evicted enough.
          let clean =
            changed-IsClean s.root_page s (with_new_root s' q) disk saved
              (grown_unmarked s s' q w valid goes fresh small alone) in
          let seen = Evicts-Same evicted clean in
          let before : Descent s j s.root_page s.root_page p [] = here at in
          rw
            (
              get-grown s s' q w valid goes fresh small u.index j n seen.0 enough,
              get-contents s j n rooted before v (omega arith),
            )
            (answer_if (key == j) (page, slot) (contents p j)),
    )
