-- ===== src/Directory/Leaf.antt =====
-- src/page/overlays/directory/leaf.rs: the leaf page of the page directory.
-- A page buffer is read and written only through zerocopy casts to the headers and entries, so a
-- page is the record of what these casts give: the headers and the array of all 253 entries, live
-- or not. Padding and the eight bytes behind the last entry are left out.
pub mod Places
use abdb.Base.{
  ℕ, ◌+◌, ◌-◌, ◌*◌, ◌/◌, ◌%◌, ◌^◌, Bool, true, false, Option, none, some, List, get_elem?, set,
  replicate, if◌then◌else◌, leb, ltb, ◌==◌, Result, ok, err, ◌>>=◌, ◌>>◌, assert, map_err, unwrap,
}
use abdb.Common.{PPageId, page_buf_size}
use abdb.PageType.{
  PageType, UberPageHeader, InvalidPageTypeError, invalid_page_type, try_from, to_byte,
  directory_leaf,
}
use abdb.Slots.{OverlayError, type_mismatch, entry_at, search, insert_sorted, remove_at, incr16}
use abdb.Slots

abbrev uber_header_size : ℕ
uber_header_size = 16

abbrev entry_size : ℕ
entry_size = 16

abbrev entries_offset : ℕ
entries_offset = uber_header_size + 24

abbrev pub max_entries : ℕ
max_entries = (page_buf_size - entries_offset) / entry_size

abbrev safe_insert_threshold : ℕ
safe_insert_threshold = max_entries - 1

abbrev pub merge_threshold : ℕ
merge_threshold = max_entries / 2

pub record DirectoryLeafHeader : Type 0 where
  pub num_entries : ℕ
  pub flags : ℕ
  pub next_page : ℕ
  pub prev_page : ℕ
  pub reserved_lo : ℕ
  pub reserved_hi : ℕ

pub record DirectoryLeafEntry : Type 0 where
  pub search_key : ℕ
  pub file_id : ℕ
  pub page_number : ℕ

abbrev pub key_of : DirectoryLeafEntry → ℕ
key_of e = e.search_key

abbrev pub new_entry : ℕ → ℕ → ℕ → DirectoryLeafEntry
new_entry logical_page_id file_id page_number = record {
  search_key = logical_page_id;
  file_id = file_id;
  page_number = page_number;
}

-- The offset is rounded down to a page, and the page number cut to 32 bits.
unfoldable pub from_ppage_id : ℕ → PPageId → DirectoryLeafEntry
from_ppage_id logical_page_id ppage_id =
    new_entry logical_page_id ppage_id.file (ppage_id.offset / page_buf_size % 2 ^ 32)

unfoldable pub to_ppage_id : DirectoryLeafEntry → PPageId
to_ppage_id e = record { file = e.file_id; offset = e.page_number * page_buf_size }

unfoldable pub logical_page_id : DirectoryLeafEntry → ℕ
logical_page_id e = e.search_key % 2 ^ 32

pub record DirectoryLeafPage : Type 0 where
  pub uber : UberPageHeader
  pub header : DirectoryLeafHeader
  pub slots : List DirectoryLeafEntry

unfoldable pub validate_type : DirectoryLeafPage → Result OverlayError (Unit {0})
validate_type p = do
  page_type ←
      map_err (λ _. Slots.invalid_page_type p.uber.page_type_id) (try_from p.uber.page_type_id)
  if to_byte page_type == to_byte directory_leaf
      then ok tt
      else err (type_mismatch directory_leaf page_type)

unfoldable pub from_buffer : DirectoryLeafPage → Result OverlayError DirectoryLeafPage
from_buffer p = do validate_type p; ok p

abbrev pub num_entries : DirectoryLeafPage → ℕ
num_entries p = p.header.num_entries

-- `(reserved_hi as u64) << 32 | reserved_lo as u64`; the two halves share no bit.
unfoldable pub reserved : DirectoryLeafPage → ℕ
reserved p = p.header.reserved_hi * 2 ^ 32 + p.header.reserved_lo

unfoldable pub entry : DirectoryLeafPage → ℕ → Result OverlayError DirectoryLeafEntry
entry p index = entry_at p.slots (num_entries p) index

unfoldable pub find_slot : DirectoryLeafPage → ℕ → Result OverlayError (Bool × ℕ)
find_slot p target_key = search key_of p.slots (num_entries p) target_key

unfoldable pub lookup : DirectoryLeafPage → ℕ → Result OverlayError (Option PPageId)
lookup p key = do
  (found, pos) ← find_slot p key
  if found then (do e ← unwrap (entry p pos); ok (some (to_ppage_id e))) else ok none

unfoldable pub is_safe_for_insert : DirectoryLeafPage → Bool
is_safe_for_insert p = ltb (num_entries p) safe_insert_threshold

unfoldable pub needs_split : DirectoryLeafPage → Bool
needs_split p = leb max_entries (num_entries p)

unfoldable pub can_merge : DirectoryLeafPage → Bool
can_merge p = ltb (num_entries p) merge_threshold

unfoldable pub is_empty : DirectoryLeafPage → Bool
is_empty p = num_entries p == 0

-- `init`: the buffer is zeroed, and the page's id and type are written.
unfoldable pub init : ℕ → DirectoryLeafPage
init page_id = record {
  uber = record { page_lsn = 0; page_id = page_id; page_type_id = to_byte directory_leaf };
  header = record {
    num_entries = 0;
    flags = 0;
    next_page = 0;
    prev_page = 0;
    reserved_lo = 0;
    reserved_hi = 0;
  };
  slots = replicate max_entries (new_entry 0 0 0);
}

-- `update_leaf_header`: read, change, write back.
unfoldable pub update_leaf_header :
    DirectoryLeafPage → (DirectoryLeafHeader → DirectoryLeafHeader) → DirectoryLeafPage
update_leaf_header p f = record p { header = f p.header }

unfoldable pub set_page_lsn : DirectoryLeafPage → ℕ → DirectoryLeafPage
set_page_lsn p lsn = record p {
  uber = record { page_lsn = lsn; page_id = p.uber.page_id; page_type_id = p.uber.page_type_id };
}

unfoldable pub set_num_entries : DirectoryLeafPage → ℕ → DirectoryLeafPage
unfolding update_leaf_header
set_num_entries p count = update_leaf_header p (λ h. record h { num_entries = count })

unfoldable pub set_flags : DirectoryLeafPage → ℕ → DirectoryLeafPage
unfolding update_leaf_header
set_flags p flags = update_leaf_header p (λ h. record h { flags = flags })

unfoldable pub set_next_page : DirectoryLeafPage → ℕ → DirectoryLeafPage
unfolding update_leaf_header
set_next_page p page_id = update_leaf_header p (λ h. record h { next_page = page_id })

unfoldable pub set_prev_page : DirectoryLeafPage → ℕ → DirectoryLeafPage
unfolding update_leaf_header
set_prev_page p page_id = update_leaf_header p (λ h. record h { prev_page = page_id })

-- `value as u32` and `(value >> 32) as u32`.
unfoldable pub set_reserved : DirectoryLeafPage → ℕ → DirectoryLeafPage
unfolding update_leaf_header
set_reserved p value =
    update_leaf_header p
      (λ h. record h { reserved_lo = value % 2 ^ 32; reserved_hi = value / 2 ^ 32 % 2 ^ 32 })

unfoldable pub set_entry :
    DirectoryLeafPage → ℕ → DirectoryLeafEntry → Result OverlayError DirectoryLeafPage
set_entry p index e = do
  assert (ltb index max_entries)
  ok (record p { slots = set p.slots index e })

unfoldable pub insert_entry :
    DirectoryLeafPage → ℕ → PPageId → Result OverlayError DirectoryLeafPage
unfolding set_num_entries
insert_entry p logical_page_id ppage_id = do
  slots ←
      insert_sorted key_of max_entries p.slots (num_entries p) logical_page_id
        (from_ppage_id logical_page_id ppage_id)
  ok (set_num_entries (record p { slots = slots }) (incr16 (num_entries p)))

unfoldable pub delete_entry : DirectoryLeafPage → ℕ → Result OverlayError DirectoryLeafPage
unfolding set_num_entries
delete_entry p index = do
  slots ← remove_at p.slots (num_entries p) index
  ok (set_num_entries (record p { slots = slots }) (num_entries p - 1))

-- The page and whether the key was there.
unfoldable pub delete_by_key :
    DirectoryLeafPage → ℕ → Result OverlayError (DirectoryLeafPage × Bool)
delete_by_key p key = do
  (found, pos) ← find_slot p key
  if found then (do q ← delete_entry p pos; ok (q, true)) else ok (p, false)

unfoldable pub update_entry :
    DirectoryLeafPage → ℕ → PPageId → Result OverlayError (DirectoryLeafPage × Bool)
update_entry p logical_page_id new_ppage_id = do
  (found, pos) ← find_slot p logical_page_id
  if found
      then (do q ← set_entry p pos (from_ppage_id logical_page_id new_ppage_id); ok (q, true))
      else ok (p, false)
