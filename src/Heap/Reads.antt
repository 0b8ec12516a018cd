-- ===== src/Heap/Reads.antt =====
-- src/page/overlays/table/heap_page.rs: what is read of a valid page.
use abdb.Base.{
  ℕ, ◌+◌, ◌-◌, ◌*◌, ◌<◌, ◌≤◌, ◌≡◌, refl, ap, ◌∙◌, true, some, List, length, arith, leb, ok,
}
use abdb.Bytes.{slice}
use abdb.Heap.{
  corruption, window, num_slots, data_offset, slot_at, slot_array, get_slot, get_data, ok_or,
}
use abdb.Heap.Windows.{get_elem?-first_slots}

-- A page is valid: of the right size, its slots before its data, and what the slots point to within
-- the data.
pub record IsValid (page : List ℕ) : Type 0 where
  pub whole : length page ≡ 4096
  pub slots_first : 24 + num_slots page * 4 ≤ data_offset page
  pub within : data_offset page ≤ 4096
  pub pointed :
      (i : ℕ)
      → i < num_slots page
      → (data_offset page ≤ (slot_at page i).offset)
        × ((slot_at page i).offset + (slot_at page i).length ≤ 4096)

-- A slot that is there is found.
pub get_slot_lem :
    (page : List ℕ) (i : ℕ)
    → num_slots page ≤ 1018
    → i < num_slots page
    → get_slot page i ≡ ok (slot_at page i)
unfolding get_slot slot_array
get_slot_lem page i room h =
    let fits : leb (num_slots page) 1018 ≡ true = ground arith in
    rw fits (rw (get_elem?-first_slots page (num_slots page) i h) refl)

-- The data of a slot that is there.
pub get_data_lem :
    (page : List ℕ) (i : ℕ)
    → num_slots page ≤ 1018
    → i < num_slots page
    → get_data page i
      ≡ ok_or corruption
          (slice page (slot_at page i).offset ((slot_at page i).offset + (slot_at page i).length))
unfolding get_data slot_array
get_data_lem page i room h =
    let fits : leb (num_slots page) 1018 ≡ true = ground arith in
    rw fits (rw (get_elem?-first_slots page (num_slots page) i h) refl)

-- A slice that lies within.
pub slice_within :
    (xs : List ℕ) (o n : ℕ) → o + n ≤ length xs → slice xs o (o + n) ≡ some (window n o xs)
unfolding slice
slice_within xs o n h =
    let rises : leb o (o + n) ≡ true = ground arith in
    let ends : leb (o + n) (length xs) ≡ true = ground arith in
    let long : o + n - o ≡ n = omega arith in rw rises (rw ends (rw long refl))

pub get_data-window :
    (page : List ℕ) (i : ℕ)
    → IsValid page
    → i < num_slots page
    → get_data page i ≡ ok (window (slot_at page i).length (slot_at page i).offset page)
get_data-window page i v h =
    let inside = v.pointed i h in
    let first = v.slots_first in
    let last = v.within in
    get_data_lem page i (omega arith) h
    ∙ ap (ok_or corruption)
        (slice_within page (slot_at page i).offset (slot_at page i).length (rw v.whole (inside.1)))
