-- ===== src/Tests/Heaps.antt =====
-- The theorems on heap pages, at concrete inputs.
use abdb.Base.{
  ◌≡◌, Bool, true, false, refl, sym, inl, inr, some, none, if◌then◌else◌, ◌==◌, arith, ℕ, List, [],
  ◌∷◌, replicate, length-replicate,
}
use abdb.Bytes.{to_le_bytes, from_le_bytes}
use abdb.Visibility.{Txn, read_committed}
use abdb.Heap
use abdb.Heap.{init, delete}
use abdb.Heap.Reads.{IsValid}
use abdb.Heap.Insertion.{Inserted, insert-Inserted}
use abdb.Heap.Deletion.{Deleted, delete-Deleted}
use abdb.Heap.Start.{init-IsValid}
use abdb.HeapAccessor.{HeapFile, insert, next_page}
use abdb.HeapAccessor.Search.{IsWhole, Ends}
use abdb.HeapAccessor.Insertion.{Stored, insert-Stored}

abbrev zeros : List ℕ
zeros = replicate 4096 0

empty_page-IsValid : IsValid (init zeros)
empty_page-IsValid = init-IsValid zeros (length-replicate {A = ℕ} 4096 0)

insert-Inserted_example :
    Inserted (init zeros) (7 ∷ 8 ∷ 9 ∷ []) (Heap.insert (init zeros) (7 ∷ 8 ∷ 9 ∷ []))
insert-Inserted_example = insert-Inserted (init zeros) (7 ∷ 8 ∷ 9 ∷ []) empty_page-IsValid

delete-Deleted_example : Deleted (init zeros) 3 (delete (init zeros) 3)
delete-Deleted_example = delete-Deleted (init zeros) 3 empty_page-IsValid

-- A file of one page.
abbrev file : HeapFile
file = record {
  pages = λ id. if id == 1 then some (init zeros) else none;
  dirty = λ id. false;
  first_page = 1;
  header_dirty = false;
  next_lpage_id = 2;
  fails = λ r. false;
  lost_ids = 0;
}

some_injective : {x y : List ℕ} → some x ≡ some y → x ≡ y
some_injective h = cc

none-some : {x : List ℕ} → none ≡ some x → ⊥
none-some h = cc

found :
    (b : Bool) (page : List ℕ) → (if b then some (init zeros) else none) ≡ some page → IsValid page
found true page h =
    let same : page ≡ init zeros = sym (some_injective h) in rw same empty_page-IsValid
found false page h = absurd (none-some h)

file-IsWhole : IsWhole file
file-IsWhole = record { pages_valid = λ id page h. found (id == 1) page h; fresh = refl }

last_page : next_page (init zeros) ≡ 0
unfolding init Heap.write_at to_le_bytes from_le_bytes
last_page = refl

file-Ends : Ends file 2 1
file-Ends = inr (inl last_page)

abbrev txn : Txn
txn = record { id = 5; isolation = read_committed }

insert-Stored_example : Stored file 5 (7 ∷ 8 ∷ []) (insert 2 txn (7 ∷ 8 ∷ []) file)
insert-Stored_example = insert-Stored file 2 txn (7 ∷ 8 ∷ []) file-IsWhole file-Ends (omega arith)
