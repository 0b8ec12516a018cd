-- ===== src/Heap.antt =====
-- src/page/overlays/table/heap_page.rs: the slotted page of the heap, over its bytes. `new` panics
-- unless they are 4096, so the conversions of its headers do not fail.
pub mod Windows
pub mod Reads
pub mod Store
pub mod Insertion
pub mod Deletion
pub mod Start
use abdb.Base.{
  ℕ, zero, suc, ◌+◌, ◌-◌, ◌*◌, ◌/◌, ◌%◌, ◌^◌, Option, some, none, List, [], ◌∷◌, length, take, drop,
  get_elem?, if◌then◌else◌, leb, ltb, ◌==◌, Result, ok, err, panic, ◌>>=◌, ◌>>◌, assert,
}
use abdb.Common.{page_buf_size}
use abdb.Bytes.{to_le_bytes, from_le_bytes, slice}

pub record Slot : Type 0 where
  pub offset : ℕ
  pub length : ℕ

pub data HeapError : Type 0 where
  invalid_index : ℕ → HeapError
  no_space : HeapError
  corruption : HeapError

abbrev pub uber_header_size : ℕ
uber_header_size = 16

abbrev pub page_header_size : ℕ
page_header_size = 8

abbrev pub headers_size : ℕ
headers_size = uber_header_size + page_header_size

-- `n` bytes from an offset on.
abbrev pub window : ℕ → ℕ → List ℕ → List ℕ
window n o bytes = take n (drop o bytes)

-- `bytes[o..o + n].copy_from_slice(source)`, where that lies within.
unfoldable pub write_at : List ℕ → ℕ → List ℕ → List ℕ
write_at [] o source = []
write_at (x ∷ xs) (suc o) source = x ∷ write_at xs o source
write_at (x ∷ xs) zero [] = x ∷ xs
write_at (x ∷ xs) zero (b ∷ source) = b ∷ write_at xs zero source

abbrev pub read16 : List ℕ → ℕ → ℕ
read16 bytes o = from_le_bytes (window 2 o bytes)

abbrev pub write16 : List ℕ → ℕ → ℕ → List ℕ
write16 bytes o value = write_at bytes o (to_le_bytes 2 value)

-- The fields of `header()`.
abbrev pub num_slots : List ℕ → ℕ
num_slots page = read16 page 16

abbrev pub data_offset : List ℕ → ℕ
data_offset page = read16 page 18

-- `new`.
unfoldable pub new : List ℕ → Result HeapError (List ℕ)
new bytes = do assert (length bytes == page_buf_size); ok bytes

-- `free_space_remaining`.
unfoldable pub free_space_remaining : List ℕ → ℕ
free_space_remaining page = data_offset page - (headers_size + num_slots page * 4)

abbrev pub slot_at : List ℕ → ℕ → Slot
slot_at page i = record {
  offset = read16 page (headers_size + i * 4);
  length = read16 page (headers_size + i * 4 + 2);
}

-- `n` slots from an index on.
unfoldable pub slots_from : List ℕ → ℕ → ℕ → List Slot
slots_from page i zero = []
slots_from page i (suc n) = slot_at page i ∷ slots_from page (i + 1) n

-- `slot_array`: as many as `num_slots` says, unless the page has no room for them.
unfoldable pub slot_array : List ℕ → Result HeapError (List Slot)
slot_array page =
    if leb (num_slots page) ((page_buf_size - headers_size) / 4)
    then ok (slots_from page 0 (num_slots page))
    else err corruption

-- `ok_or`.
abbrev pub ok_or : {A : Type 0} → HeapError → Option A → Result HeapError A
ok_or e (some a) = ok a
ok_or e none = err e

-- `get_slot`.
unfoldable pub get_slot : List ℕ → ℕ → Result HeapError Slot
get_slot page idx = do slots ← slot_array page; ok_or (invalid_index idx) (get_elem? slots idx)

-- `get_data`.
unfoldable pub get_data : List ℕ → ℕ → Result HeapError (List ℕ)
get_data page idx = do
  slots ← slot_array page
  slot ← ok_or (invalid_index idx) (get_elem? slots idx)
  ok_or corruption (slice page slot.offset (slot.offset + slot.length))

-- `init`.
unfoldable pub init : List ℕ → List ℕ
init page =
    let counted = write16 page 16 0 in
    let placed = write16 counted 18 page_buf_size in write_at placed 20 (to_le_bytes 4 0)

-- `insert`: the page and the index of the tuple. Where the slot is looked up at the end the page
-- has been written, but with the guard before it that look-up does not fail.
unfoldable pub insert : List ℕ → List ℕ → Result HeapError (List ℕ × ℕ)
insert page tuple_data =
    if ltb (free_space_remaining page) (length tuple_data + 4) then err no_space else (do
      let slot_idx = num_slots page
      let new_data_offset = data_offset page - length tuple_data % 2 ^ 16
      assert (leb (new_data_offset + length tuple_data) (length page))
      let copied = write_at page new_data_offset tuple_data
      let placed = write16 copied 18 new_data_offset
      let counted = write16 placed 16 ((num_slots placed + 1) % 2 ^ 16)
      slot ← get_slot counted slot_idx
      let pointed = write16 counted (headers_size + slot_idx * 4) new_data_offset
      ok (write16 pointed (headers_size + slot_idx * 4 + 2) (length tuple_data % 2 ^ 16), slot_idx))

-- `delete`: the slot stays, with length 0.
unfoldable pub delete : List ℕ → ℕ → Result HeapError (List ℕ)
delete page slot_idx =
    if leb (num_slots page) slot_idx
    then err (invalid_index slot_idx)
    else (do slot ← get_slot page slot_idx; ok (write16 page (headers_size + slot_idx * 4 + 2) 0))
