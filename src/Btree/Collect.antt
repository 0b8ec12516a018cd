-- ===== src/Btree/Collect.antt =====
-- src/accessor/btree.rs: the loops that read a page's entries and that fill a new page.
use abdb.Base.{
  ℕ, zero, suc, List, [], ◌∷◌, Result, ok, ◌>>=◌, Option, none, some, if◌then◌else◌, ◌==◌, ltb,
}
use abdb.Slots.{OverlayError}
use abdb.Index.Leaf
use abdb.Index.Inner
use abdb.Index.Leaf.{BTreeLeafPage, BTreeLeafEntry}
use abdb.Index.Inner.{BTreeInnerPage, BTreeInnerEntry}

-- `for i in 0..num { entries.push(page.entry(i)?) }`, from index `i` for `n` rounds.
unfoldable pub read_entries :
    {E : Type 0} → (ℕ → Result OverlayError E) → ℕ → ℕ → Result OverlayError (List E)
read_entries entry i zero = ok []
read_entries entry i (suc n) = do e ← entry i; es ← read_entries entry (suc i) n; ok (e ∷ es)

-- `for entry in .. { page.insert_entry(..)? }`.
unfoldable pub insert_entries :
    BTreeLeafPage → List BTreeLeafEntry → Result OverlayError BTreeLeafPage
insert_entries p [] = ok p
insert_entries p (e ∷ es) = do
  q ← Leaf.insert_entry p e.key e.record_page e.record_slot
  insert_entries q es

-- `for entry in .. { page.insert_separator(..)? }`.
unfoldable pub insert_separators :
    BTreeInnerPage → List BTreeInnerEntry → Result OverlayError BTreeInnerPage
insert_separators p [] = ok p
insert_separators p (e ∷ es) = do
  q ← Inner.insert_separator p e.separator_key e.right_child
  insert_separators q es

module _ {E : Type 0} where
  -- `binary_search_by_key(..).err()`: where a key that is not there belongs, by the documented
  -- behaviour on a sorted list.
  unfoldable pub insertion_point : (E → ℕ) → ℕ → List E → Option ℕ
  insertion_point key k [] = some 0
  insertion_point key k (e ∷ es) =
      if key e == k
      then none
      else if ltb (key e) k
      then elim (insertion_point key k es) [ none ↦ none | some i ↦ some (suc i) ]
      else some 0
