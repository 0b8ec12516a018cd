-- ===== src/HeapAccessor.antt =====
-- src/accessor/heap.rs: the tuples of a heap file over the buffer pool. One operation runs at a time
-- here; a page id that the pool cannot fetch is an error, and so are the fetches of the file header
-- and new pages that the pool refuses. Marking a page whose guard is held does not fail.
pub mod Scan
pub mod Reading
pub mod Fresh
pub mod Search
pub mod Insertion
use abdb.Base.{
  ℕ, zero, suc, ◌+◌, ◌*◌, ◌%◌, ◌^◌, Bool, true, false, Option, none, some, List, [], ◌∷◌, ◌++◌,
  drop, length, replicate, if◌then◌else◌, ltb, ◌==◌, ◌||◌, Result, ok, err, panic, no_fuel, map_err,
  unwrap,
}
use abdb.Base
use abdb.Common.{page_buf_size}
use abdb.Bytes.{to_le_bytes, from_le_bytes}
use abdb.Stateful.{State, ◌>>=◌, ◌>>◌, pure, raise, modify}
use abdb.Btree.{update}
use abdb.Visibility.{
  Txn, tuple_header_size, read_xmin, read_xmax, write_xmax, make_header, is_visible,
}
use abdb.Heap
use abdb.Heap.{HeapError, window, write_at, init, get_slot, get_data}

-- The errors of accessor.rs that the heap returns, without their messages.
pub data AccessError : Type 0 where
  buffer_error : AccessError
  tuple_non_existent : AccessError
  already_deleted : ℕ → AccessError
  tuple_not_visible : ℕ → ℕ → ℕ → AccessError
  page_corruption : AccessError

pub record RecordId : Type 0 where
  pub page_id : ℕ
  pub slot_id : ℕ

-- What is asked of the pool beside the pages of the list: the file header to read and to write, and
-- a new page.
pub data Request : Type 0 where
  header_read : Request
  header_write : Request
  page_alloc : Request

-- The heap file as the buffer pool serves it: its pages, which of them are marked dirty, the first
-- page in the file header, the page id that comes next (on u32), which requests fail, and how many
-- page ids a new page that fails uses up.
pub record HeapFile : Type 0 where
  pub pages : ℕ → Option (List ℕ)
  pub dirty : ℕ → Bool
  pub first_page : ℕ
  pub header_dirty : Bool
  pub next_lpage_id : ℕ
  pub fails : Request → Bool
  pub lost_ids : ℕ

abbrev pub M : Type 0 → Type 0
M = State AccessError HeapFile

abbrev pub lift : {A : Type 0} → Result AccessError A → M A
lift r s = (r, s)

-- `map_err` to a tuple that does not exist.
abbrev pub missing : {A : Type 0} → Result HeapError A → Result AccessError A
missing = map_err (λ e. tuple_non_existent)

-- `fetch_page_read` and `fetch_page_write`.
unfoldable pub fetch_page : ℕ → M (List ℕ)
fetch_page id s = elim (s.pages id) [ some p ↦ (ok p, s) | none ↦ (err buffer_error, s) ]

-- What a write guard's page holds when the guard is given back.
abbrev pub store_page : ℕ → List ℕ → M (Unit {0})
store_page id p = modify (λ s. record s { pages = update s.pages id (some p) })

abbrev pub mark_dirty : ℕ → M (Unit {0})
mark_dirty id = modify (λ s. record s { dirty = update s.dirty id true })

abbrev pub next_page : List ℕ → ℕ
next_page page = from_le_bytes (window 4 20 page)

-- A tuple that is not visible.
unfoldable pub invisible : {A : Type 0} → Txn → List ℕ → Result AccessError A
invisible txn bytes = Base.◌>>=◌ (unwrap (read_xmin bytes)) (λ xmin.
    Base.◌>>=◌ (unwrap (read_xmax bytes)) (λ xmax. err (tuple_not_visible txn.id xmin xmax)))

-- What `get` does with the bytes of a slot.
unfoldable pub read_tuple : Txn → List ℕ → Result AccessError (List ℕ)
read_tuple txn bytes =
    if length bytes == 0 || ltb (length bytes) tuple_header_size
    then err tuple_non_existent
    else Base.◌>>=◌ (unwrap (is_visible bytes txn))
        (λ visible. if visible then ok (drop tuple_header_size bytes) else invisible txn bytes)

-- `get`.
unfoldable pub get : Txn → RecordId → M (List ℕ)
get txn rid = do
  page ← fetch_page rid.page_id
  bytes ← lift (missing (get_data page rid.slot_id))
  lift (read_tuple txn bytes)

-- The bytes that `delete` writes back.
unfoldable pub mark_deleted : Txn → List ℕ → Result AccessError (List ℕ)
mark_deleted txn bytes =
    if length bytes == 0 || ltb (length bytes) tuple_header_size
    then err tuple_non_existent
    else Base.◌>>=◌ (unwrap (is_visible bytes txn)) (λ visible.
      if visible
      then Base.◌>>=◌ (unwrap (read_xmax bytes)) (λ existing_xmax.
        if existing_xmax == 0
        then unwrap (write_xmax bytes txn.id)
        else err (already_deleted existing_xmax))
      else invisible txn bytes)

-- `delete`, in place: `get_data_mut` looks the slot up and gives its bytes.
unfoldable pub delete : Txn → RecordId → M (Unit {0})
delete txn rid = do
  page ← fetch_page rid.page_id
  slot ← lift (missing (get_slot page rid.slot_id))
  bytes ← lift (missing (get_data page rid.slot_id))
  deleted ← lift (mark_deleted txn bytes)
  store_page rid.page_id (write_at page slot.offset deleted)
  mark_dirty rid.page_id

-- The page took the tuple, or the loop goes on.
abbrev pub take_or_go_on :
    ℕ → Result HeapError (List ℕ × ℕ) → M (Option RecordId) → M (Option RecordId)
take_or_go_on current_page (ok (after, slot_id)) rest = do
  store_page current_page after
  mark_dirty current_page
  pure (some (record { page_id = current_page; slot_id = slot_id }))
take_or_go_on current_page (err e) rest = rest
take_or_go_on current_page panic rest = lift panic
take_or_go_on current_page no_fuel rest = lift no_fuel

-- The loop of `insert` over the pages, on fuel.
unfoldable pub insert_in_pages : ℕ → List ℕ → ℕ → M (Option RecordId)
insert_in_pages zero full_tuple current_page = lift no_fuel
insert_in_pages (suc fuel) full_tuple current_page = if current_page == 0 then pure none else (do
  page ← fetch_page current_page
  let rest = insert_in_pages fuel full_tuple (next_page page)
  take_or_go_on current_page (Heap.insert page full_tuple) rest)

-- `fetch_page_at_loc_read` and `fetch_page_at_loc_write` of the file header.
unfoldable pub request : Request → M (Unit {0})
request r s = if s.fails r then (err buffer_error, s) else (ok tt, s)

abbrev pub read_first_page : M ℕ
read_first_page s = (ok s.first_page, s)

-- `new_page` of the pool: a fresh, zeroed and clean page.
unfoldable pub new_page : M ℕ
new_page s =
    if s.fails page_alloc
    then (err buffer_error, record s { next_lpage_id = (s.next_lpage_id + s.lost_ids) % 2 ^ 32 })
    else (
      ok s.next_lpage_id,
      record s {
        pages = update s.pages s.next_lpage_id (some (replicate page_buf_size 0));
        dirty = update s.dirty s.next_lpage_id false;
        next_lpage_id = (s.next_lpage_id + 1) % 2 ^ 32;
      },
    )

-- A new page, linked to the first one.
unfoldable pub fresh_page : ℕ → List ℕ
fresh_page first_page = write_at (init (replicate page_buf_size 0)) 20 (to_le_bytes 4 first_page)

abbrev pub take_in_new : ℕ → ℕ → Result HeapError (List ℕ × ℕ) → M RecordId
take_in_new first_page new_lpage_id (ok (after, slot_id)) = do
  store_page new_lpage_id after
  mark_dirty new_lpage_id
  request header_write
  modify (λ s. record s { first_page = new_lpage_id; header_dirty = true })
  pure (record { page_id = new_lpage_id; slot_id = slot_id })
take_in_new first_page new_lpage_id (err e) = do
  store_page new_lpage_id (fresh_page first_page)
  raise page_corruption
take_in_new first_page new_lpage_id panic = lift panic
take_in_new first_page new_lpage_id no_fuel = lift no_fuel

-- What `insert` does where no page has space.
unfoldable pub prepend_page : List ℕ → ℕ → M RecordId
prepend_page full_tuple first_page = do
  new_lpage_id ← new_page
  take_in_new first_page new_lpage_id (Heap.insert (fresh_page first_page) full_tuple)

abbrev pub found_or_new : List ℕ → ℕ → Option RecordId → M RecordId
found_or_new full_tuple first_page (some rid) = pure rid
found_or_new full_tuple first_page none = prepend_page full_tuple first_page

-- `insert`.
unfoldable pub insert : ℕ → Txn → List ℕ → M RecordId
insert fuel txn tuple = do
  request header_read
  first_page ← read_first_page
  found ← insert_in_pages fuel (make_header txn.id ++ tuple) first_page
  found_or_new (make_header txn.id ++ tuple) first_page found
