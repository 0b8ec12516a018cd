-- ===== src/Tests/DirectoryPages.antt =====
-- The theorems on the pages of the page directory, at concrete inputs.
use abdb.Base.{
  ℕ, zero, suc, ◌+◌, ◌*◌, ◌<◌, ◌≡◌, ◌≢◌, refl, ap, Option, some, none, List, [], ◌∷◌, length,
  length-take, replicate, arith, if◌then◌else◌, ◌==◌, ok,
}
use abdb.Common.{PPageId}
use abdb.Slots.{assoc, key_at}
use abdb.Slots.Order.{key_at-take}
use abdb.Directory.Leaf
use abdb.Directory.Inner
use abdb.Directory.Leaf.{DirectoryLeafPage, DirectoryLeafEntry, key_of, max_entries}
use abdb.Directory.Inner.{DirectoryInnerPage}
use abdb.Directory.Leaf.Places
use abdb.Directory.Leaf.Places.{
  place, lookup-places, insert_entry-lookup, update_entry-lookup, delete_by_key-lookup,
}
use abdb.Directory.Inner.Routing
use abdb.Directory.Inner.Routing.{insert_separator-find_child, delete_separator-find_child}

-- Entries with the keys `2 * i`, `2 * (i + 1)`, and so on.
abbrev ramp : ℕ → ℕ → List DirectoryLeafEntry
ramp i zero = []
ramp i (suc n) = Leaf.new_entry (2 * i) 4 i ∷ ramp (suc i) n

length-ramp : (i n : ℕ) → length (ramp i n) ≡ n
length-ramp i zero = refl
length-ramp i (suc n) = ap suc (length-ramp (suc i) n)

key_at-ramp : (i n j : ℕ) → j < n → key_at key_of (ramp i n) j ≡ 2 * (i + j)
key_at-ramp i zero j h = elim h [ ]
key_at-ramp i (suc n) zero h = omega arith
key_at-ramp i (suc n) (suc j) h = omega (arith, key_at-ramp (suc i) n j (omega arith))

-- A leaf with the even ids below 40 at the pages of file 4.
abbrev pub page : DirectoryLeafPage
page = record {
  uber = record { page_lsn = 0; page_id = 7; page_type_id = 65 };
  header = record {
    num_entries = 20;
    flags = 0;
    next_page = 0;
    prev_page = 0;
    reserved_lo = 0;
    reserved_hi = 0;
  };
  slots = ramp 0 max_entries;
}

pub page-IsValid : Places.IsValid page
page-IsValid = record {
  whole = length-ramp 0 max_entries;
  within = omega arith;
  small = omega arith;
  sorted = λ a b lt in_live.
      let inside : b < 20 =
        omega (arith, length-take 20 (ramp 0 max_entries), length-ramp 0 max_entries) in
      omega (
        arith,
        key_at-take key_of 20 a (ramp 0 max_entries) (omega arith),
        key_at-take key_of 20 b (ramp 0 max_entries) inside,
        key_at-ramp 0 max_entries a (omega arith),
        key_at-ramp 0 max_entries b (omega arith),
      );
}

pub no_seven : Leaf.lookup page 7 ≡ ok none
unfolding assoc
no_seven = lookup-places page 7 page-IsValid

insert_entry-lookup_example :
    (q : DirectoryLeafPage) × (Leaf.insert_entry page 7 (place 4 300) ≡ ok q)
    × Places.IsValid q
    × ((j : ℕ) → Leaf.lookup q j ≡ (if 7 == j then ok (some (place 4 300)) else Leaf.lookup page j))
insert_entry-lookup_example =
    insert_entry-lookup page 7 4 300 page-IsValid (omega arith) (omega arith) no_seven

some_is_held : (o : Option PPageId) (x : PPageId) → o ≡ some x → o ≢ none
some_is_held o x e = λ h. cc

-- An inner page with one separator.
abbrev fork : DirectoryInnerPage
fork = record {
  uber = record { page_lsn = 0; page_id = 1; page_type_id = 64 };
  header = record { num_keys = 1; flags = 0; leftmost_child = 2 };
  slots = Inner.new_entry 400 3 ∷ replicate 253 (Inner.new_entry 0 0);
}

fork-IsValid : Routing.IsValid fork
fork-IsValid = record {
  whole = refl;
  within = omega arith;
  small = omega arith;
  sorted = λ a b lt in_live. absurd (omega arith);
}
