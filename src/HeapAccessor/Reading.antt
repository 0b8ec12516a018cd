-- ===== src/HeapAccessor/Reading.antt =====
-- src/accessor/heap.rs: what `get` reads of a page.
use abdb.Base.{
  ℕ, ◌^◌, ◌<◌, ◌≡◌, refl, sym, ap, ◌∙◌, false, arith, some, List, length, if◌then◌else◌, ltb, ◌==◌,
  Result, ok, err, panic, no_fuel,
}
use abdb.Stateful.{bind_step}
use abdb.Visibility.{
  Txn, sees, tuple_of, is_visible-sees, read_xmin_tuple, read_xmax_tuple, long, drop_header,
}
use abdb.Heap.{HeapError, get_data}
use abdb.HeapAccessor.{
  AccessError, tuple_non_existent, tuple_not_visible, RecordId, HeapFile, lift, read_tuple,
  invisible, get, fetch_page, missing,
}

-- What a transaction reads of a tuple with this header and payload.
abbrev pub answer : ℕ → ℕ → List ℕ → Txn → Result AccessError (List ℕ)
answer xmin xmax payload txn =
    if sees xmin xmax txn then ok payload else err (tuple_not_visible txn.id xmin xmax)

pub read_tuple-answer :
    (xmin xmax : ℕ) (payload : List ℕ) (txn : Txn)
    → xmin < 2 ^ 64
    → xmax < 2 ^ 64
    → read_tuple txn (tuple_of xmin xmax payload) ≡ answer xmin xmax payload txn
unfolding read_tuple invisible
read_tuple-answer xmin xmax payload txn a b =
    let some_bytes : length (tuple_of xmin xmax payload) == 0 ≡ false =
      ground (arith, long xmin xmax payload a b) in
    let whole : ltb (length (tuple_of xmin xmax payload)) 16 ≡ false =
      ground (arith, long xmin xmax payload a b) in
    rw some_bytes (
      rw whole (
        rw (is_visible-sees xmin xmax payload a b txn) (
          rw (drop_header xmin xmax payload a b) (
            rw (read_xmin_tuple xmin xmax payload a b)
              (rw (read_xmax_tuple xmin xmax payload a b) refl)))))

pub fetch_page-there :
    (id : ℕ) (s : HeapFile) (page : List ℕ)
    → s.pages id ≡ some page
    → fetch_page id s ≡ (ok page, s)
unfolding fetch_page
fetch_page-there id s page there = rw (there, fetch_page) refl

-- The result of `get` on a page that is there.
abbrev pub read_slot : Txn → Result HeapError (List ℕ) → Result AccessError (List ℕ)
read_slot txn (ok bytes) = read_tuple txn bytes
read_slot txn (err e) = err tuple_non_existent
read_slot txn panic = panic
read_slot txn no_fuel = no_fuel

read_slot_lem :
    (txn : Txn) (r : Result HeapError (List ℕ)) (s : HeapFile)
    → (bind_step (lift (missing r) s) (λ bytes. lift (read_tuple txn bytes))).0 ≡ read_slot txn r
read_slot_lem txn (ok bytes) s = refl
read_slot_lem txn (err e) s = refl
read_slot_lem txn panic s = refl
read_slot_lem txn no_fuel s = refl

pub get_lem :
    (txn : Txn) (rid : RecordId) (s : HeapFile) (page : List ℕ)
    → s.pages rid.page_id ≡ some page
    → (get txn rid s).0 ≡ read_slot txn (get_data page rid.slot_id)
unfolding get
get_lem txn rid s page there =
    rw (fetch_page-there rid.page_id s page there) (read_slot_lem txn (get_data page rid.slot_id) s)

pub get_same :
    (txn : Txn) (rid : RecordId) (s t : HeapFile) (page after : List ℕ)
    → s.pages rid.page_id ≡ some page
    → t.pages rid.page_id ≡ some after
    → get_data after rid.slot_id ≡ get_data page rid.slot_id
    → (get txn rid t).0 ≡ (get txn rid s).0
get_same txn rid s t page after before behind same =
    get_lem txn rid t after behind ∙ ap (read_slot txn) same ∙ sym (get_lem txn rid s page before)
