-- ===== src/HeapAccessor/Search.antt =====
-- src/accessor/heap.rs: the loop of an insertion over the pages, and who reads what it stored.
use abdb.Base.{
  ℕ, zero, suc, ◌^◌, ◌<◌, ◌≡◌, refl, sym, ap, ◌∙◌, true, false, ◌⊎◌, inl, inr, Bool-cases, arith,
  Option, none, some, List, ◌++◌, ◌==◌, Result, ok, err, panic, no_fuel,
}
use abdb.Btree.{update}
use abdb.Visibility.{Txn, make_header, make_header_tuple}
use abdb.Heap
use abdb.Heap.{HeapError, no_space, num_slots, get_data}
use abdb.Heap.Reads.{IsValid}
use abdb.Heap.Insertion.{Inserted, insert-Inserted}
use abdb.HeapAccessor.{AccessError, RecordId, HeapFile, get, insert_in_pages, next_page}
use abdb.HeapAccessor.Reading.{
  answer, read_tuple-answer, read_slot, get_lem, get_same, fetch_page-there,
}

-- A file whose pages are valid, and whose next page id is not in use.
pub record IsWhole (s : HeapFile) : Type 0 where
  pub pages_valid : (id : ℕ) (page : List ℕ) → s.pages id ≡ some page → IsValid page
  pub fresh : s.pages s.next_lpage_id ≡ none

-- From a page on, the list of pages ends within so many steps.
abbrev pub Ends : HeapFile → ℕ → ℕ → Type 0
Ends s zero id = ⊥
Ends s (suc n) id =
    (id ≡ 0) ⊎ elim (s.pages id) [ some page ↦ Ends s n (next_page page) | none ↦ ⊥ ]

-- What every transaction reads in a slot that was there stays.
abbrev pub Kept : HeapFile → HeapFile → Type 0
Kept s t =
    (txn : Txn) (rid : RecordId) (page : List ℕ)
    → s.pages rid.page_id ≡ some page
    → rid.slot_id < num_slots page
    → (get txn rid t).0 ≡ (get txn rid s).0

-- A tuple is read by the transactions that see what the writer creates.
abbrev pub Reads : HeapFile → ℕ → List ℕ → RecordId → Type 0
Reads t writer tuple rid = (txn : Txn) → (get txn rid t).0 ≡ answer writer 0 tuple txn

none-some : {x : List ℕ} → none ≡ some x → ⊥
none-some h = cc

some_injective : {x y : List ℕ} → some x ≡ some y → x ≡ y
some_injective h = cc

pub same_pages-Kept : (s t : HeapFile) → ((k : ℕ) → t.pages k ≡ s.pages k) → Kept s t
same_pages-Kept s t same =
    λ txn rid p there h. get_same txn rid s t p p there (same rid.page_id ∙ there) refl

module _ (s t : HeapFile) (id : ℕ) (after : List ℕ) where
  module _ (others : (k : ℕ) → id == k ≡ false → t.pages k ≡ s.pages k)
      (put : t.pages id ≡ some after) where
    Kept-put :
        (page : List ℕ)
        → s.pages id ≡ some page
        → ((i : ℕ) → i < num_slots page → get_data after i ≡ get_data page i)
        → Kept s t
    Kept-put page before same = λ txn rid p there h. elim (Bool-cases (id == rid.page_id)) [
      | inl this ↦
          (let here : id ≡ rid.page_id = ground arith in
            let alike : some page ≡ some p = sym before ∙ ap s.pages here ∙ there in
            let same_page : page ≡ p = some_injective alike in
            let count : rid.slot_id < num_slots page = rw same_page h in
            get_same txn rid s t page after (ap s.pages (sym here) ∙ before)
              (ap t.pages (sym here) ∙ put) (same rid.slot_id count))
      | inr that ↦ get_same txn rid s t p p there (others rid.page_id that ∙ there) refl
    ]

    pub Kept-new : s.pages id ≡ none → Kept s t
    Kept-new before = λ txn rid p there h. elim (Bool-cases (id == rid.page_id)) [
      | inl this ↦
          (let here : id ≡ rid.page_id = ground arith in
            let both : none ≡ some p = sym before ∙ ap s.pages here ∙ there in
            absurd (none-some both))
      | inr that ↦ get_same txn rid s t p p there (others rid.page_id that ∙ there) refl
    ]

  pub Reads-put :
      (writer : ℕ) (tuple : List ℕ) (slot : ℕ)
      → writer < 2 ^ 64
      → t.pages id ≡ some after
      → get_data after slot ≡ ok (make_header writer ++ tuple)
      → Reads t writer tuple (record { page_id = id; slot_id = slot })
  Reads-put writer tuple slot small put found = λ txn.
      get_lem txn (record { page_id = id; slot_id = slot }) t after put
      ∙ ap (read_slot txn) (found ∙ ap ok (make_header_tuple writer tuple))
      ∙ read_tuple-answer writer 0 tuple txn small (omega arith)

-- The loop put the tuple in a page, or no page has space.
abbrev pub Searched :
    HeapFile → ℕ → List ℕ → Result AccessError (Option RecordId) × HeapFile → Type 0
Searched s writer tuple (ok (some rid), t) = Reads t writer tuple rid × Kept s t
Searched s writer tuple (ok none, t) = t ≡ s
Searched s writer tuple _ = ⊥

module _ (s : HeapFile) (whole : IsWhole s) (writer : ℕ) (tuple : List ℕ)
    (small : writer < 2 ^ 64) where
  abbrev full_tuple : List ℕ
  full_tuple = make_header writer ++ tuple

  -- What the loop has when a page took the tuple.
  abbrev stored : ℕ → List ℕ → HeapFile
  stored id after = record s {
    pages = update s.pages id (some after);
    dirty = update s.dirty id true;
  }

  update-there : (id : ℕ) (after : List ℕ) → update s.pages id (some after) id ≡ some after
  update-there id after = let here : id == id ≡ true = ground arith in rw here refl

  update-other :
      (id : ℕ) (after : List ℕ) (k : ℕ)
      → id == k ≡ false
      → update s.pages id (some after) k ≡ s.pages k
  update-other id after k other = rw other refl

  search_page :
      (fuel id : ℕ) (page : List ℕ) (r : Result HeapError (List ℕ × ℕ))
      → id == 0 ≡ false
      → s.pages id ≡ some page
      → Heap.insert page full_tuple ≡ r
      → Inserted page full_tuple r
      → Searched s writer tuple (insert_in_pages fuel full_tuple (next_page page) s)
      → Searched s writer tuple (insert_in_pages (suc fuel) full_tuple id s)
  unfolding insert_in_pages
  search_page fuel id page (ok (after, slot)) real there e took rest = rw real (
      rw (fetch_page-there id s page there) (
        rw e (
          Reads-put s (stored id after) id after writer tuple slot small (update-there id after)
              took.3,
          Kept-put s (stored id after) id after (update-other id after) (update-there id after) page
              there took.4,
        )))
  search_page fuel id page (err no_space) real there e full rest =
      rw real (rw (fetch_page-there id s page there) (rw e rest))
  search_page fuel id page (err (Heap.invalid_index i)) real there e full rest = absurd full
  search_page fuel id page (err Heap.corruption) real there e full rest = absurd full
  search_page fuel id page panic real there e full rest = absurd full
  search_page fuel id page no_fuel real there e full rest = absurd full

  search_end :
      (fuel id : ℕ)
      → id == 0 ≡ true
      → Searched s writer tuple (insert_in_pages (suc fuel) full_tuple id s)
  unfolding insert_in_pages
  search_end fuel id zero_id = rw zero_id refl

  search_link :
      (fuel id : ℕ) (found : Option (List ℕ))
      → id == 0 ≡ false
      → s.pages id ≡ found
      → elim found as (λ o. Type 0) [ some page ↦ Ends s fuel (next_page page) | none ↦ ⊥ ]
      → ((next : ℕ)
          → Ends s fuel next
          → Searched s writer tuple (insert_in_pages fuel full_tuple next s))
      → Searched s writer tuple (insert_in_pages (suc fuel) full_tuple id s)
  search_link fuel id none real there ends rest = absurd ends
  search_link fuel id (some page) real there ends rest =
      search_page fuel id page (Heap.insert page full_tuple) real there refl
        (insert-Inserted page full_tuple (whole.pages_valid id page there))
        (rest (next_page page) ends)

  pub search :
      (fuel id : ℕ)
      → Ends s fuel id
      → Searched s writer tuple (insert_in_pages fuel full_tuple id s)
  search zero id ends = absurd ends
  search (suc fuel) id (inl zero_id) = search_end fuel id (ground arith)
  search (suc fuel) id (inr link) = elim (Bool-cases (id == 0)) [
    | inl zero_id ↦ search_end fuel id zero_id
    | inr real ↦ search_link fuel id (s.pages id) real refl link (search fuel)
  ]
