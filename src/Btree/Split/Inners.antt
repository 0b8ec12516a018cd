-- ===== src/Btree/Split/Inners.antt =====
-- src/accessor/btree.rs: the split of an inner page.
use abdb.Base.{
  ℕ, suc, ◌+◌, ◌/◌, ◌%◌, ◌≤◌, ◌<◌, ◌≡◌, refl, ap, true, false, some, none, List, length, take, drop,
  insert_at, length-take, length-drop, length-insert_at, leb, arith, ok, if◌then◌else◌,
}
use abdb.Slots.{IsSorted, assoc}
use abdb.Slots.Search.{key_at-some}
use abdb.Slots.Ops.{length-live}
use abdb.Slots.Order.{insert_at-IsSorted}
use abdb.Slots.Reroute.{route-insert_at}
use abdb.Slots.Cut.{take-IsSorted, drop-IsSorted}
use abdb.Index.Inner
use abdb.Index.Inner.{
  BTreeInnerPage, BTreeInnerEntry, separator_of, child_of, new_entry, num_keys, max_keys,
}
use abdb.Index.Inner.Routing.{IsValid, live, child_for, in_range, init-IsValid}
use abdb.Btree.{Index, inner, other, alloc_page, store_page, mark_dirty, index_of, update}
use abdb.Btree.Collect.{insert_separators, insertion_point}
use abdb.Btree.Refill.{insertion_point_lem}
use abdb.Btree.Split.{split_inner, merge_entry}
use abdb.Btree.Split.Separators.{read_inner, insert_separators-live, route-cut}

-- A fresh page filled with sorted separators that fit.
filled :
    (id leftmost : ℕ) (es : List BTreeInnerEntry)
    → IsSorted separator_of es
    → length es ≤ max_keys
    → (q : BTreeInnerPage) × (insert_separators (Inner.init id leftmost) es ≡ ok q)
      × IsValid q
      × (live q ≡ es)
      × (Inner.leftmost_child q ≡ leftmost)
filled id leftmost es sorted fits =
    let (q, runs, v, whole, same) =
      insert_separators-live (Inner.init id leftmost) es (init-IsValid id leftmost)
        (unfold Inner.init in omega arith) (unfold Inner.init in sorted) in
    (q, runs, v, unfold Inner.init in whole, unfold Inner.init in same)

-- The index once an inner page is split.
abbrev pub with_split : Index → ℕ → BTreeInnerPage → BTreeInnerPage → Index
with_split s page_num lower upper = record s {
  pages =
      update
        (update (update s.pages s.next_lpage_id (some (other 0))) s.next_lpage_id
          (some (inner upper)))
        page_num (some (inner lower));
  dirty = update (update s.dirty s.next_lpage_id false) s.next_lpage_id true;
  next_lpage_id = (s.next_lpage_id + 1) % 4294967296;
}

merge_entry_at :
    (e : BTreeInnerEntry) (es : List BTreeInnerEntry) (i : ℕ) (s : Index)
    → insertion_point separator_of e.separator_key es ≡ some i
    → merge_entry separator_of e es s ≡ (ok (insert_at i e es), s)
unfolding merge_entry
merge_entry_at e es i s at = ground (arith, at)

-- What a split makes of an inner page with a new separator.
pub record InnerSplit (p : BTreeInnerPage) (sep new_child pushed : ℕ) (lower upper : BTreeInnerPage)
    : Type 0 where
  pub lower_valid : IsValid lower
  pub upper_valid : IsValid upper
  pub lower_half : num_keys lower ≡ suc (num_keys p) / 2
  pub together : num_keys lower + num_keys upper ≡ num_keys p
  pub routes :
      (k : ℕ)
      → (if leb pushed k then child_for upper k else child_for lower k)
        ≡ (if in_range p sep k then new_child else child_for p k)

-- `split_inner` of a valid inner page that has separators, with a separator that the page lacks,
-- returns the new page and a separator pushed up. The two halves are valid and have as many
-- separators together as the page had, the lower one half of those and the new one, rounded down;
-- the keys from the pushed separator on in the upper half and the others in the lower one lead to
-- the children that they led to, but those from the new separator to the next one to the new child.
-- Beside the two pages and the next page id nothing changes, the new page is marked dirty, and the
-- old page is not.
pub split_inner-InnerSplit :
    (s : Index) (p : BTreeInnerPage) (page_num sep new_child : ℕ)
    → IsValid p
    → 0 < num_keys p
    → assoc separator_of sep (live p) ≡ none
    → (pushed : ℕ) × (lower : BTreeInnerPage) × (upper : BTreeInnerPage) × (split_inner p page_num
          sep new_child s
        ≡ (ok (s.next_lpage_id, pushed), with_split s page_num lower upper))
      × InnerSplit p sep new_child pushed lower upper
unfolding split_inner alloc_page store_page mark_dirty
split_inner-InnerSplit s p page_num sep new_child v some_key absent =
    let e : BTreeInnerEntry = new_entry sep new_child in
    let (i, at, fits, below, above) =
      insertion_point_lem separator_of sep (live p) v.sorted absent in
    let es : List BTreeInnerEntry = insert_at i e (live p) in
    let sorted : IsSorted separator_of es =
      insert_at-IsSorted separator_of i e (live p) v.sorted fits below above in
    let counted : length es ≡ suc (num_keys p) =
      omega (arith, length-insert_at i e (live p), length-live separator_of v) in
    let cut : ℕ = length es / 2 in
    let (mid, middle, key) = key_at-some separator_of es cut (omega (arith, counted)) in
    let (l, l_runs, l_valid, l_live, l_leftmost) =
      filled page_num (Inner.leftmost_child p) (take cut es)
        (take-IsSorted separator_of cut es sorted)
        (omega (arith, length-take cut es, counted, v.within)) in
    let (r, r_runs, r_valid, r_live, r_leftmost) =
      filled s.next_lpage_id mid.right_child (drop (cut + 1) es)
        (drop-IsSorted separator_of (cut + 1) es sorted)
        (omega (arith, length-drop (cut + 1) es, counted, v.within)) in
    let next : cut + 1 ≡ suc cut = omega arith in
    (
      mid.separator_key,
      l,
      r,
      rw (read_inner p v) (
          rw (merge_entry_at e (live p) i s at)
            (rw (middle, index_of) (rw r_runs (rw l_runs refl)))),
      record {
        lower_valid = l_valid;
        upper_valid = r_valid;
        lower_half = omega (
          arith,
          ap length l_live,
          length-live separator_of l_valid,
          length-take cut es,
          counted,
        );
        together = omega (
          arith,
          ap length l_live,
          length-live separator_of l_valid,
          length-take cut es,
          ap length r_live,
          length-live separator_of r_valid,
          length-drop (cut + 1) es,
          counted,
        );
        routes = λ k.
            rw
              (
                l_live,
                r_live,
                l_leftmost,
                r_leftmost,
                next,
                ← route-cut separator_of child_of k (Inner.leftmost_child p) cut es sorted middle,
              )
              (route-insert_at separator_of child_of k (Inner.leftmost_child p) i e (live p)
                v.sorted fits below above);
      },
    )
