-- ===== src/Tests/Pages.antt =====
-- Test data: pages of the index B-tree and a tree of three of them.
use abdb.Base.{
  ℕ, zero, suc, ◌+◌, ◌*◌, ◌≤◌, ◌<◌, ◌≡◌, refl, ap, false, some, none, List, [], ◌∷◌, length,
  length-take, replicate, arith, if◌then◌else◌, ◌==◌,
}
use abdb.Slots.{key_at}
use abdb.Slots.Order.{key_at-take}
use abdb.Index.Leaf
use abdb.Index.Inner
use abdb.Index.Leaf.{BTreeLeafPage, BTreeLeafEntry, key_of, max_entries}
use abdb.Index.Inner.{BTreeInnerPage, separator_of, max_keys}
use abdb.Index.Leaf.Contents
use abdb.Index.Inner.Routing
use abdb.Btree.{Index, leaf, inner}

-- Entries with the keys `2 * i`, `2 * (i + 1)`, and so on.
abbrev ramp : ℕ → ℕ → List BTreeLeafEntry
ramp i zero = []
ramp i (suc n) = Leaf.new_entry (2 * i) i 0 ∷ ramp (suc i) n

length-ramp : (i n : ℕ) → length (ramp i n) ≡ n
length-ramp i zero = refl
length-ramp i (suc n) = ap suc (length-ramp (suc i) n)

key_at-ramp : (i n j : ℕ) → j < n → key_at key_of (ramp i n) j ≡ 2 * (i + j)
key_at-ramp i zero j h = elim h [ ]
key_at-ramp i (suc n) zero h = omega arith
key_at-ramp i (suc n) (suc j) h = omega (arith, key_at-ramp (suc i) n j (omega arith))

-- A leaf whose array is full, with its first `num` entries live.
abbrev pub ramp_page : ℕ → ℕ → ℕ → ℕ → BTreeLeafPage
ramp_page i num next prev = record {
  uber = record { page_lsn = 0; page_id = 0; page_type_id = 3 };
  header = record {
    num_entries = num;
    flags = 0;
    next_page = next;
    prev_page = prev;
    reserved_lo = 0;
    reserved_hi = 0;
  };
  slots = ramp i max_entries;
}

pub ramp_page-IsValid :
    (i num next prev : ℕ) → num ≤ max_entries → Contents.IsValid (ramp_page i num next prev)
ramp_page-IsValid i num next prev h = record {
  whole = length-ramp i max_entries;
  within = h;
  small = omega arith;
  sorted = λ a b lt in_live.
      let inside : b < num =
        omega (arith, length-take num (ramp i max_entries), length-ramp i max_entries) in
      omega (
        arith,
        h,
        key_at-take key_of num a (ramp i max_entries) (omega arith),
        key_at-take key_of num b (ramp i max_entries) inside,
        key_at-ramp i max_entries a (omega arith),
        key_at-ramp i max_entries b (omega arith),
      );
}

-- An inner page with one separator.
abbrev pub fork : ℕ → ℕ → ℕ → BTreeInnerPage
fork leftmost separator right = record {
  uber = record { page_lsn = 0; page_id = 1; page_type_id = 2 };
  header = record { num_keys = 1; flags = 0; leftmost_child = leftmost };
  slots = Inner.new_entry separator right ∷ replicate 253 (Inner.new_entry 0 0);
}

pub fork-IsValid : (leftmost separator right : ℕ) → Routing.IsValid (fork leftmost separator right)
fork-IsValid leftmost separator right = record {
  whole = refl;
  within = omega arith;
  small = omega arith;
  sorted = λ a b lt in_live. absurd (omega arith);
}

-- Page 1 is the root: keys below 400 in leaf 2, the others in leaf 3. Leaf 2 has the even keys from 0
-- to 398, leaf 3 those from 400 to 408.
abbrev pub left_leaf : BTreeLeafPage
left_leaf = ramp_page 0 200 3 0

abbrev pub right_leaf : BTreeLeafPage
right_leaf = ramp_page 200 5 0 2

abbrev pub root : BTreeInnerPage
root = fork 2 400 3

abbrev pub tree : Index
tree = record {
  pages = λ id.
      if id == 1
      then some (inner root)
      else if id == 2
      then some (leaf left_leaf)
      else if id == 3
      then some (leaf right_leaf)
      else none;
  dirty = λ id. false;
  root_page = 1;
  header_dirty = false;
  next_lpage_id = 4;
}

pub left_leaf-IsValid : Contents.IsValid left_leaf
left_leaf-IsValid = ramp_page-IsValid 0 200 3 0 (omega arith)

pub right_leaf-IsValid : Contents.IsValid right_leaf
right_leaf-IsValid = ramp_page-IsValid 200 5 0 2 (omega arith)

pub root-IsValid : Routing.IsValid root
root-IsValid = fork-IsValid 2 400 3
