-- ===== src/Tests/Growth.antt =====
-- The theorems on the first insertion and on the growth of the tree, at concrete inputs.
use abdb.Base.{ℕ, ◌<◌, ◌≡◌, refl, false, some, none, arith, ok, err, if◌then◌else◌, ◌==◌}
use abdb.Slots.{assoc}
use abdb.Index.Leaf.{BTreeLeafPage}
use abdb.Index.Leaf.Contents.{IsValid}
use abdb.Tests.Pages.{ramp_page, ramp_page-IsValid}
use abdb.Btree.{Index, leaf, tuple_non_existent}
use abdb.Btree.Delete.{get}
use abdb.Btree.Insert.{insert}
use abdb.Btree.Emptiness.{insert_empty, with_root}
use abdb.Btree.Eviction.{Pooled, Evicts}
use abdb.Btree.Growth.{insert_full_root}
use abdb.Base.{zero, suc, ◌+◌, ◌*◌, ap, List, [], ◌∷◌, length, length-take}
use abdb.Slots.{key_at}
use abdb.Slots.Order.{key_at-take}
use abdb.Index.Inner
use abdb.Index.Inner.{BTreeInnerPage, BTreeInnerEntry, separator_of, max_keys}
use abdb.Index.Inner.Routing
use abdb.Btree.Split.{split_inner}
use abdb.Btree.Split.Inners.{split_inner-InnerSplit, InnerSplit, with_split}

abbrev empty : Index
empty = record {
  pages = λ id. none;
  dirty = λ id. false;
  root_page = 0;
  header_dirty = false;
  next_lpage_id = 1;
}

insert_empty_example :
    (q : BTreeLeafPage) × (insert 1 7 (30, 1) empty ≡ (ok tt, with_root empty q))
    × IsValid q
    × ((j n : ℕ)
        → 0 < n
        → (get n j (with_root empty q)).0 ≡ (if 7 == j then ok (30, 1) else err tuple_non_existent))
insert_empty_example = insert_empty empty 7 1 30 1 refl (omega arith)

-- A tree whose root is a full leaf with the even keys from 0 to 504.
abbrev single : Index
single = record {
  pages = λ id. if id == 1 then some (leaf (ramp_page 0 253 0 0)) else none;
  dirty = λ id. false;
  root_page = 1;
  header_dirty = false;
  next_lpage_id = 2;
}

insert_full_root_example :
    (t : Index) × (insert 1 7 (30, 1) single ≡ (ok tt, t))
    × ((w : Pooled) (j n : ℕ)
        → Evicts 1 (record { index = t; disk = single.pages }) w
        → 1 < n
        → (get n j w.index).0 ≡ (if 7 == j then ok (30, 1) else (get n j single).0))
unfolding assoc
insert_full_root_example =
    insert_full_root single single.pages 7 1 30 1 (omega arith) refl
      (ramp_page-IsValid 0 253 0 0 (omega arith)) refl refl refl (omega arith) (omega arith)
      (omega arith) (λ id unmarked. refl)

-- Separators `2 * i`, `2 * (i + 1)`, and so on.
abbrev ramp : ℕ → ℕ → List BTreeInnerEntry
ramp i zero = []
ramp i (suc n) = Inner.new_entry (2 * i) i ∷ ramp (suc i) n

length-ramp : (i n : ℕ) → length (ramp i n) ≡ n
length-ramp i zero = refl
length-ramp i (suc n) = ap suc (length-ramp (suc i) n)

key_at-ramp : (i n j : ℕ) → j < n → key_at separator_of (ramp i n) j ≡ 2 * (i + j)
key_at-ramp i zero j h = elim h [ ]
key_at-ramp i (suc n) zero h = omega arith
key_at-ramp i (suc n) (suc j) h = omega (arith, key_at-ramp (suc i) n j (omega arith))

-- A full inner page.
abbrev full_inner : BTreeInnerPage
full_inner = record {
  uber = record { page_lsn = 0; page_id = 1; page_type_id = 2 };
  header = record { num_keys = 254; flags = 0; leftmost_child = 900 };
  slots = ramp 10 max_keys;
}

full_inner-IsValid : Routing.IsValid full_inner
full_inner-IsValid = record {
  whole = length-ramp 10 max_keys;
  within = omega arith;
  small = omega arith;
  sorted = λ a b lt in_live.
      let inside : b < 254 =
        omega (arith, length-take 254 (ramp 10 max_keys), length-ramp 10 max_keys) in
      omega (
        arith,
        key_at-take separator_of 254 a (ramp 10 max_keys) (omega arith),
        key_at-take separator_of 254 b (ramp 10 max_keys) inside,
        key_at-ramp 10 max_keys a (omega arith),
        key_at-ramp 10 max_keys b (omega arith),
      );
}

split_inner-InnerSplit_example :
    (pushed : ℕ) × (lower : BTreeInnerPage) × (upper : BTreeInnerPage) × (split_inner full_inner 1
        31 901 single
      ≡ (ok (2, pushed), with_split single 1 lower upper))
    × InnerSplit full_inner 31 901 pushed lower upper
unfolding assoc
split_inner-InnerSplit_example =
    split_inner-InnerSplit single full_inner 1 31 901 full_inner-IsValid (omega arith) refl
