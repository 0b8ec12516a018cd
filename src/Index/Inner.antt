-- ===== src/Index/Inner.antt =====
-- src/page/overlays/index/btree_inner.rs: the inner page of the index B-tree, as the record of its
-- headers and of the array of all 254 entries (see Index/Leaf.antt).
pub mod Routing
use abdb.Base.{
  ℕ, ◌+◌, ◌-◌, ◌*◌, ◌/◌, Bool, true, false, Option, none, some, List, get_elem?, set, replicate,
  if◌then◌else◌, leb, ltb, ◌==◌, Result, ok, err, ◌>>=◌, ◌>>◌, assert, map_err, unwrap,
}
use abdb.PageType.{PageType, UberPageHeader, try_from, to_byte, b_tree_inner}
use abdb.Slots.{
  OverlayError, type_mismatch, index_out_of_bounds, entry_at, search, insert_sorted, remove_at,
  route_search, incr16,
}
use abdb.Slots
use abdb.Common.{page_buf_size}

abbrev uber_header_size : ℕ
uber_header_size = 16

abbrev entry_size : ℕ
entry_size = 16

abbrev entries_offset : ℕ
entries_offset = uber_header_size + 8

abbrev pub max_keys : ℕ
max_keys = (page_buf_size - entries_offset) / entry_size

abbrev safe_insert_threshold : ℕ
safe_insert_threshold = max_keys - 1

abbrev merge_threshold : ℕ
merge_threshold = max_keys / 2

pub record BTreeInnerHeader : Type 0 where
  pub num_keys : ℕ
  pub flags : ℕ
  pub leftmost_child : ℕ

pub record BTreeInnerEntry : Type 0 where
  pub separator_key : ℕ
  pub right_child : ℕ

abbrev pub separator_of : BTreeInnerEntry → ℕ
separator_of e = e.separator_key

abbrev pub child_of : BTreeInnerEntry → ℕ
child_of e = e.right_child

abbrev pub new_entry : ℕ → ℕ → BTreeInnerEntry
new_entry separator_key right_child = record {
  separator_key = separator_key;
  right_child = right_child;
}

pub record BTreeInnerPage : Type 0 where
  pub uber : UberPageHeader
  pub header : BTreeInnerHeader
  pub slots : List BTreeInnerEntry

unfoldable pub validate_type : BTreeInnerPage → Result OverlayError (Unit {0})
validate_type p = do
  page_type ←
      map_err (λ _. Slots.invalid_page_type p.uber.page_type_id) (try_from p.uber.page_type_id)
  if to_byte page_type == to_byte b_tree_inner
      then ok tt
      else err (type_mismatch b_tree_inner page_type)

unfoldable pub from_buffer : BTreeInnerPage → Result OverlayError BTreeInnerPage
from_buffer p = do validate_type p; ok p

abbrev pub num_keys : BTreeInnerPage → ℕ
num_keys p = p.header.num_keys

abbrev pub leftmost_child : BTreeInnerPage → ℕ
leftmost_child p = p.header.leftmost_child

unfoldable pub entry : BTreeInnerPage → ℕ → Result OverlayError BTreeInnerEntry
entry p index = entry_at p.slots (num_keys p) index

unfoldable pub find_child : BTreeInnerPage → ℕ → Result OverlayError ℕ
find_child p search_key =
    route_search separator_of child_of (leftmost_child p) p.slots (num_keys p) search_key

unfoldable pub find_separator_slot : BTreeInnerPage → ℕ → Result OverlayError (Bool × ℕ)
find_separator_slot p separator_key = search separator_of p.slots (num_keys p) separator_key

unfoldable pub is_safe_for_insert : BTreeInnerPage → Bool
is_safe_for_insert p = ltb (num_keys p) safe_insert_threshold

unfoldable pub needs_split : BTreeInnerPage → Bool
needs_split p = leb max_keys (num_keys p)

unfoldable pub can_merge : BTreeInnerPage → Bool
can_merge p = ltb (num_keys p) merge_threshold

unfoldable pub is_empty : BTreeInnerPage → Bool
is_empty p = num_keys p == 0

unfoldable pub num_children : BTreeInnerPage → ℕ
num_children p = incr16 (num_keys p)

unfoldable pub init : ℕ → ℕ → BTreeInnerPage
init page_id leftmost_child = record {
  uber = record { page_lsn = 0; page_id = page_id; page_type_id = to_byte b_tree_inner };
  header = record { num_keys = 0; flags = 0; leftmost_child = leftmost_child };
  slots = replicate max_keys (new_entry 0 0);
}

-- `update_inner_header`: read, change, write back.
unfoldable pub update_inner_header :
    BTreeInnerPage → (BTreeInnerHeader → BTreeInnerHeader) → BTreeInnerPage
update_inner_header p f = record p { header = f p.header }

unfoldable pub set_page_lsn : BTreeInnerPage → ℕ → BTreeInnerPage
set_page_lsn p lsn = record p {
  uber = record { page_lsn = lsn; page_id = p.uber.page_id; page_type_id = p.uber.page_type_id };
}

unfoldable pub set_num_keys : BTreeInnerPage → ℕ → BTreeInnerPage
unfolding update_inner_header
set_num_keys p count = update_inner_header p (λ h. record h { num_keys = count })

unfoldable pub set_flags : BTreeInnerPage → ℕ → BTreeInnerPage
unfolding update_inner_header
set_flags p flags = update_inner_header p (λ h. record h { flags = flags })

unfoldable pub set_leftmost_child : BTreeInnerPage → ℕ → BTreeInnerPage
unfolding update_inner_header
set_leftmost_child p page_id = update_inner_header p (λ h. record h { leftmost_child = page_id })

unfoldable pub set_entry : BTreeInnerPage → ℕ → BTreeInnerEntry → Result OverlayError BTreeInnerPage
set_entry p index e = do assert (ltb index max_keys); ok (record p { slots = set p.slots index e })

unfoldable pub insert_separator : BTreeInnerPage → ℕ → ℕ → Result OverlayError BTreeInnerPage
unfolding set_num_keys
insert_separator p separator_key right_child = do
  slots ←
      insert_sorted separator_of max_keys p.slots (num_keys p) separator_key
        (new_entry separator_key right_child)
  ok (set_num_keys (record p { slots = slots }) (incr16 (num_keys p)))

unfoldable pub delete_separator : BTreeInnerPage → ℕ → Result OverlayError BTreeInnerPage
unfolding set_num_keys
delete_separator p index = do
  slots ← remove_at p.slots (num_keys p) index
  ok (set_num_keys (record p { slots = slots }) (num_keys p - 1))

unfoldable pub update_child : BTreeInnerPage → ℕ → ℕ → Result OverlayError BTreeInnerPage
update_child p index new_child =
    if leb (num_keys p) index
    then err (index_out_of_bounds index (num_keys p))
    else (do e ← entry p index; set_entry p index (new_entry e.separator_key new_child))
