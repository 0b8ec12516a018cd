-- ===== src/HeapAccessor/Insertion.antt =====
-- src/accessor/heap.rs: a tuple that is inserted, and who reads it.
use abdb.Base.{
  ℕ, ◌+◌, ◌^◌, ◌<◌, ◌≡◌, Bool, Bool-cases, ◌⊎◌, inl, inr, ◌%◌, refl, true, false, arith, Option,
  none, some, List, ◌++◌, length, replicate, if◌then◌else◌, ◌==◌, Result, ok, err, panic, no_fuel,
  length-append, length-replicate,
}
use abdb.Bytes.{to_le_bytes, length-to_le_bytes}
use abdb.Btree.{update}
use abdb.Visibility.{Txn, make_header}
use abdb.Heap
use abdb.Heap.{HeapError, no_space, num_slots, get_data}
use abdb.Heap.Insertion.{Inserted, insert-Inserted}
use abdb.HeapAccessor.{
  AccessError, page_corruption, buffer_error, request, header_read, header_write, page_alloc,
  RecordId, HeapFile, insert, insert_in_pages, fresh_page, prepend_page, new_page, found_or_new,
}
use abdb.Stateful.{bind_step}
use abdb.HeapAccessor.Search.{
  IsWhole, Ends, Kept, Reads, Kept-new, same_pages-Kept, Reads-put, Searched, search,
}
use abdb.HeapAccessor.Fresh.{fresh_page-IsValid, fresh_page_free}

-- Some request of an insertion fails.
abbrev pub SomeFails : HeapFile → Type 0
SomeFails s =
    (s.fails header_read ≡ true) ⊎ (s.fails page_alloc ≡ true) ⊎ (s.fails header_write ≡ true)

-- The tuple is stored, or it fits in no page, or the pool failed.
abbrev pub Stored : HeapFile → ℕ → List ℕ → Result AccessError RecordId × HeapFile → Type 0
Stored s writer tuple (ok rid, t) = Reads t writer tuple rid × Kept s t
Stored s writer tuple (err page_corruption, t) = Kept s t × (4052 < length tuple)
Stored s writer tuple (err buffer_error, t) = Kept s t × SomeFails s
Stored s writer tuple _ = ⊥

module _ (s : HeapFile) (whole : IsWhole s) (writer : ℕ) (tuple : List ℕ)
    (small : writer < 2 ^ 64) where
  abbrev new_tuple : List ℕ
  new_tuple = make_header writer ++ tuple

  length-new_tuple : length new_tuple ≡ 16 + length tuple
  unfolding make_header
  length-new_tuple = omega (
    arith,
    length-append (to_le_bytes 8 writer ++ replicate 8 0) tuple,
    length-append (to_le_bytes 8 writer) (replicate 8 0),
    length-to_le_bytes 8 writer,
    length-replicate {A = ℕ} 8 0,
  )

  -- The file with a page added.
  abbrev added : List ℕ → ℕ → Bool → Bool → HeapFile
  added page first marked header_marked = record {
    pages =
        update (update s.pages s.next_lpage_id (some (replicate 4096 0))) s.next_lpage_id
          (some page);
    dirty =
        (if marked
          then update (update s.dirty s.next_lpage_id false) s.next_lpage_id true
          else update s.dirty s.next_lpage_id false);
    first_page = first;
    header_dirty = header_marked;
    next_lpage_id = (s.next_lpage_id + 1) % 2 ^ 32;
    fails = s.fails;
    lost_ids = s.lost_ids;
  }

  added-there :
      (page : List ℕ) (first : ℕ) (marked header_marked : Bool)
      → (added page first marked header_marked).pages s.next_lpage_id ≡ some page
  added-there page first marked header_marked =
      let here : s.next_lpage_id == s.next_lpage_id ≡ true = ground arith in rw here refl

  added-Kept :
      (page : List ℕ) (first : ℕ) (marked header_marked : Bool)
      → Kept s (added page first marked header_marked)
  added-Kept page first marked header_marked =
      Kept-new s (added page first marked header_marked) s.next_lpage_id page
        (λ k other. rw other refl) (added-there page first marked header_marked) whole.fresh

  prepend_refused :
      s.fails page_alloc ≡ true → Stored s writer tuple (prepend_page new_tuple s.first_page s)
  unfolding prepend_page new_page
  prepend_refused refused = rw refused (same_pages-Kept s _ (λ k. refl), inr (inl refused))

  prepend_taken :
      (r : Result HeapError (List ℕ × ℕ))
      → s.fails page_alloc ≡ false
      → Heap.insert (fresh_page s.first_page) new_tuple ≡ r
      → Inserted (fresh_page s.first_page) new_tuple r
      → Stored s writer tuple (prepend_page new_tuple s.first_page s)
  unfolding prepend_page new_page request
  prepend_taken (ok (after, slot)) given e took = elim (Bool-cases (s.fails header_write)) [
    | inl refused ↦
        rw given
          (rw e (rw refused (added-Kept after s.first_page true s.header_dirty, inr (inr refused))))
    | inr done ↦ rw given (
        rw e (
          rw done (
            Reads-put s (added after s.next_lpage_id true true) s.next_lpage_id after writer tuple
                slot small (added-there after s.next_lpage_id true true) took.3,
            added-Kept after s.next_lpage_id true true,
          )))
  ]
  prepend_taken (err no_space) given e full = rw given (
      rw e (
        added-Kept (fresh_page s.first_page) s.first_page false s.header_dirty,
        omega (arith, length-new_tuple, fresh_page_free s.first_page),
      ))
  prepend_taken (err (Heap.invalid_index i)) given e full = absurd full
  prepend_taken (err Heap.corruption) given e full = absurd full
  prepend_taken panic given e full = absurd full
  prepend_taken no_fuel given e full = absurd full

  prepended : Stored s writer tuple (prepend_page new_tuple s.first_page s)
  prepended = elim (Bool-cases (s.fails page_alloc)) [
    | inl refused ↦ prepend_refused refused
    | inr given ↦
        prepend_taken (Heap.insert (fresh_page s.first_page) new_tuple) given refl
          (insert-Inserted (fresh_page s.first_page) new_tuple (fresh_page-IsValid s.first_page))
  ]

  searched :
      (r : Result AccessError (Option RecordId) × HeapFile)
      → Searched s writer tuple r
      → Stored s writer tuple (bind_step r (found_or_new new_tuple s.first_page))
  searched (ok (some rid), t) found = found
  searched (ok none, t) same = rw same prepended
  searched (err e, t) absent = absurd absent
  searched (panic, t) absent = absurd absent
  searched (no_fuel, t) absent = absurd absent

-- In a heap file whose pages are valid, whose next page id is not in use, and whose list of pages
-- can be fetched and ends within the fuel, `insert` by a transaction whose id has 64 bits returns a
-- record id, or fails as corrupt where the tuple has more than 4052 bytes, or with an error of the
-- buffer where the file header cannot be fetched to read or to write or no new page is given. `get`
-- of the record id gives the tuple to every transaction that sees what the writer created, and to
-- the others that it is not visible; what a transaction reads in a slot that was there stays, also
-- where the insertion fails.
pub insert-Stored :
    (s : HeapFile) (fuel : ℕ) (txn : Txn) (tuple : List ℕ)
    → IsWhole s
    → Ends s fuel s.first_page
    → txn.id < 2 ^ 64
    → Stored s txn.id tuple (insert fuel txn tuple s)
unfolding insert request
insert-Stored s fuel txn tuple whole ends small = elim (Bool-cases (s.fails header_read)) [
  | inl refused ↦ rw refused (same_pages-Kept s s (λ k. refl), inl refused)
  | inr given ↦ rw given (
      searched s whole txn.id tuple small
        (insert_in_pages fuel (make_header txn.id ++ tuple) s.first_page s)
        (search s whole txn.id tuple small fuel s.first_page ends))
]
