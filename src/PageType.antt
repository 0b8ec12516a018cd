-- ===== src/PageType.antt =====
-- src/page/header.rs: page types, their identifier byte, and the header that every page starts with.
use abdb.Base.{ℕ, ◌≡◌, refl, if◌then◌else◌, ◌==◌, Result, ok, err, arith, ◌↔◌, ◌≢◌}

pub data PageType : Type 0 where
  unused : PageType
  heap_page : PageType
  b_tree_inner : PageType
  b_tree_leaf : PageType
  heap_file_header : PageType
  index_file_header : PageType
  directory_file_header : PageType
  directory_inner : PageType
  directory_leaf : PageType

-- `PageType as u8`.
abbrev pub to_byte : PageType → ℕ
to_byte unused = 0
to_byte heap_page = 1
to_byte b_tree_inner = 2
to_byte b_tree_leaf = 3
to_byte heap_file_header = 32
to_byte index_file_header = 33
to_byte directory_file_header = 34
to_byte directory_inner = 64
to_byte directory_leaf = 65

-- `InvalidPageTypeError(pub u8)`.
pub data InvalidPageTypeError : Type 0 where
  invalid_page_type : ℕ → InvalidPageTypeError

unfoldable pub try_from : ℕ → Result InvalidPageTypeError PageType
try_from v =
    if v == 0
    then ok unused
    else if v == 1
    then ok heap_page
    else if v == 2
    then ok b_tree_inner
    else if v == 3
    then ok b_tree_leaf
    else if v == 32
    then ok heap_file_header
    else if v == 33
    then ok index_file_header
    else if v == 34
    then ok directory_file_header
    else if v == 64
    then ok directory_inner
    else if v == 65
    then ok directory_leaf
    else err (invalid_page_type v)

pub record UberPageHeader : Type 0 where
  pub page_lsn : ℕ
  pub page_id : ℕ
  pub page_type_id : ℕ

unfoldable pub get_type : UberPageHeader → Result InvalidPageTypeError PageType
get_type h = try_from h.page_type_id

pub try_from-to_byte : (t : PageType) → try_from (to_byte t) ≡ ok t
unfolding try_from
try_from-to_byte unused = refl
try_from-to_byte heap_page = refl
try_from-to_byte b_tree_inner = refl
try_from-to_byte b_tree_leaf = refl
try_from-to_byte heap_file_header = refl
try_from-to_byte index_file_header = refl
try_from-to_byte directory_file_header = refl
try_from-to_byte directory_inner = refl
try_from-to_byte directory_leaf = refl

-- A byte is read as a page type just if it is the identifier of that type.
pub try_from_iff : (v : ℕ) (t : PageType) → (try_from v ≡ ok t) ↔ (v ≡ to_byte t)
unfolding try_from
try_from_iff v t = (λ h. ground arith, λ e. rw e (try_from-to_byte t))

-- A byte that is the identifier of no page type is refused, and the error carries the byte.
pub try_from_refuses :
    (v : ℕ) → ((t : PageType) → v ≢ to_byte t) → try_from v ≡ err (invalid_page_type v)
unfolding try_from
try_from_refuses v h = ground (
  arith,
  h unused,
  h heap_page,
  h b_tree_inner,
  h b_tree_leaf,
  h heap_file_header,
  h index_file_header,
  h directory_file_header,
  h directory_inner,
  h directory_leaf,
)
