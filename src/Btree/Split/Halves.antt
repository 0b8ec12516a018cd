-- ===== src/Btree/Split/Halves.antt =====
-- src/accessor/btree.rs: the two halves that the split of a leaf makes of its entries and a new one.
use abdb.Base.{
  ℕ, suc, ◌+◌, ◌/◌, ◌≤◌, ◌<◌, ◌≡◌, refl, ap, ◌∙◌, Bool, true, false, Option, some, none, List,
  length, take, drop, insert_at, length-take, length-drop, length-insert_at, if◌then◌else◌, ltb,
  ◌==◌, arith, get_elem?, ok,
}
use mathlib.Core.Option
use abdb.Slots.{key_at, IsSorted, assoc}
use abdb.Slots.Search.{key_at-some}
use abdb.Slots.Ops.{length-live}
use abdb.Slots.Order.{insert_at-IsSorted}
use abdb.Slots.Assoc.{assoc-insert_at}
use abdb.Slots.Cut.{take-IsSorted, drop-IsSorted, assoc-take, assoc-drop}
use abdb.Index.Leaf
use abdb.Index.Leaf.{
  BTreeLeafPage, BTreeLeafEntry, record_id, key_of, new_entry, num_entries, max_entries,
}
use abdb.Index.Leaf.Contents.{IsValid, live, contents, init-IsValid}
use abdb.Btree.{Index}
use abdb.Btree.Collect.{insert_entries, insertion_point}
use abdb.Btree.Refill.{insertion_point_lem, insert_entries-live}
use abdb.Btree.Split.{merge_entry}

absent_of_contents : (o : Option BTreeLeafEntry) → Option.map record_id o ≡ none → o ≡ none
absent_of_contents none h = refl
absent_of_contents (some x) h = cc

-- The entries of a page with one more merged in.
pub record Merged (p : BTreeLeafPage) (e : BTreeLeafEntry) (es : List BTreeLeafEntry) (s : Index)
    : Type 0 where
  pub runs : merge_entry key_of e (live p) s ≡ (ok es, s)
  pub sorted : IsSorted key_of es
  pub counted : length es ≡ suc (num_entries p)
  pub looks : (j : ℕ) → assoc key_of j es ≡ (if e.key == j then some e else assoc key_of j (live p))

merge_entry_at :
    (e : BTreeLeafEntry) (es : List BTreeLeafEntry) (i : ℕ) (s : Index)
    → insertion_point key_of e.key es ≡ some i
    → merge_entry key_of e es s ≡ (ok (insert_at i e es), s)
unfolding merge_entry
merge_entry_at e es i s at = ground (arith, at)

pub merged :
    (p : BTreeLeafPage) (e : BTreeLeafEntry) (s : Index)
    → IsValid p
    → contents p e.key ≡ none
    → (es : List BTreeLeafEntry) × Merged p e es s
merged p e s v absent =
    let gone : assoc key_of e.key (live p) ≡ none = absent_of_contents _ absent in
    let (i, at, fits, below, above) = insertion_point_lem key_of e.key (live p) v.sorted gone in
    (
      insert_at i e (live p),
      record {
        runs = merge_entry_at e (live p) i s at;
        sorted = insert_at-IsSorted key_of i e (live p) v.sorted fits below above;
        counted = omega (arith, length-insert_at i e (live p), length-live key_of v);
        looks = λ j.
            assoc-insert_at key_of j i e (live p)
              (λ m h same. let lt : key_at key_of (live p) m < e.key = below m h in omega arith);
      },
    )

-- A fresh page filled with sorted entries that fit.
filled :
    (id : ℕ) (es : List BTreeLeafEntry)
    → IsSorted key_of es
    → length es ≤ max_entries
    → (q : BTreeLeafPage) × (insert_entries (Leaf.init id) es ≡ ok q) × IsValid q × (live q ≡ es)
filled id es sorted fits =
    let (q, runs, v, whole, _) =
      insert_entries-live (Leaf.init id) es (init-IsValid id) (unfold Leaf.init in omega arith)
        (unfold Leaf.init in sorted) in
    (q, runs, v, unfold Leaf.init in whole)

map_if :
    (b : Bool) (o : Option BTreeLeafEntry)
    → Option.map record_id (if b then o else none) ≡ (if b then Option.map record_id o else none)
map_if true o = refl
map_if false o = refl

map_if_not :
    (b : Bool) (o : Option BTreeLeafEntry)
    → Option.map record_id (if b then none else o) ≡ (if b then none else Option.map record_id o)
map_if_not true o = refl
map_if_not false o = refl

map_if_some :
    (b : Bool) (x : BTreeLeafEntry) (o : Option BTreeLeafEntry)
    → Option.map record_id (if b then some x else o)
      ≡ (if b then some (record_id x) else Option.map record_id o)
map_if_some true x o = refl
map_if_some false x o = refl

-- What a split makes of a page `p` with a new key: the two halves, and the separator between them.
pub record SplitLeaf (p : BTreeLeafPage) (leaf_num new_num sep k : ℕ) (rid : ℕ × ℕ)
    (lower upper : BTreeLeafPage) : Type 0 where
  pub lower_valid : IsValid lower
  pub upper_valid : IsValid upper
  pub lower_half : num_entries lower ≡ suc (num_entries p) / 2
  pub together : num_entries lower + num_entries upper ≡ suc (num_entries p)
  pub lower_contents :
      (j : ℕ)
      → contents lower j ≡ (if ltb j sep then (if k == j then some rid else contents p j) else none)
  pub upper_contents :
      (j : ℕ)
      → contents upper j ≡ (if ltb j sep then none else if k == j then some rid else contents p j)
  pub lower_links :
      (lower.header.next_page ≡ new_num) × (lower.header.prev_page ≡ p.header.prev_page)
  pub upper_links :
      (upper.header.next_page ≡ p.header.next_page) × (upper.header.prev_page ≡ leaf_num)

-- The halves themselves, before their links are set.
pub record Halves (p : BTreeLeafPage) (leaf_num new_num k : ℕ) (rid : ℕ × ℕ)
    (es : List BTreeLeafEntry) (mid : BTreeLeafEntry) (l r : BTreeLeafPage) : Type 0 where
  pub middle : get_elem? es (length es / 2) ≡ some mid
  pub lower_runs : insert_entries (Leaf.init leaf_num) (take (length es / 2) es) ≡ ok l
  pub upper_runs : insert_entries (Leaf.init new_num) (drop (length es / 2) es) ≡ ok r
  pub split :
      SplitLeaf p leaf_num new_num mid.key k rid
        (Leaf.set_prev_page (Leaf.set_next_page l new_num) p.header.prev_page)
        (Leaf.set_prev_page (Leaf.set_next_page r p.header.next_page) leaf_num)

pub halves :
    (p : BTreeLeafPage) (leaf_num new_num : ℕ) (e : BTreeLeafEntry) (es : List BTreeLeafEntry)
    (s : Index)
    → IsValid p
    → 0 < num_entries p
    → Merged p e es s
    → (mid : BTreeLeafEntry) × (l : BTreeLeafPage) × (r : BTreeLeafPage) × Halves p leaf_num new_num
        e.key
        (record_id e)
        es
        mid
        l
        r
halves p leaf_num new_num e es s v some_entry m =
    let cut : ℕ = length es / 2 in
    let inside : cut < length es = omega (arith, m.counted) in
    let (mid, at, key) = key_at-some key_of es cut inside in
    let (l, l_runs, l_valid, l_live) =
      filled leaf_num (take cut es) (take-IsSorted key_of cut es m.sorted)
        (omega (arith, length-take cut es, m.counted, v.within)) in
    let (r, r_runs, r_valid, r_live) =
      filled new_num (drop cut es) (drop-IsSorted key_of cut es m.sorted)
        (omega (arith, length-drop cut es, m.counted, v.within)) in
    let whole : (j : ℕ)
        → Option.map record_id (assoc key_of j es)
          ≡ (if e.key == j then some (record_id e) else contents p j) =
      λ j. rw (m.looks j) (map_if_some (e.key == j) e (assoc key_of j (live p))) in
    (
      mid,
      l,
      r,
      record {
        middle = at;
        lower_runs = l_runs;
        upper_runs = r_runs;
        split =
            unfold Leaf.set_prev_page Leaf.set_next_page in
            record {
              lower_valid = l_valid;
              upper_valid = r_valid;
              lower_half = omega (
                arith,
                ap length l_live,
                length-live key_of l_valid,
                length-take cut es,
                m.counted,
              );
              together = omega (
                arith,
                ap length l_live,
                length-live key_of l_valid,
                length-take cut es,
                ap length r_live,
                length-live key_of r_valid,
                length-drop cut es,
                m.counted,
              );
              lower_contents = λ j.
                  rw (l_live, assoc-take key_of j cut es m.sorted inside, ← key)
                    (map_if (ltb j mid.key) (assoc key_of j es)
                      ∙ ap (λ o. if ltb j mid.key then o else none) (whole j));
              upper_contents = λ j.
                  rw (r_live, assoc-drop key_of j cut es m.sorted inside, ← key)
                    (map_if_not (ltb j mid.key) (assoc key_of j es)
                      ∙ ap (λ o. if ltb j mid.key then none else o) (whole j));
              lower_links = (refl, refl);
              upper_links = (refl, refl);
            };
      },
    )
