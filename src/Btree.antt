-- ===== src/Btree.antt =====
-- src/accessor/btree.rs: the index B-tree over the buffer pool. One operation runs at a time here; a
-- page is what its type byte says it is, and a page id that the pool cannot fetch is an error. The
-- file header can always be fetched, a new page is always given, and marking a page does not fail.
-- A page that an operation changed stays in its frame while operations run, marked or not; what the
-- eviction of frames makes of unmarked pages is in Eviction.
pub mod Traverse
pub mod Descent
pub mod Eviction
pub mod Collect
pub mod Refill
pub mod Split
pub mod Insert
pub mod Lookup
pub mod Delete
pub mod ScanLeaf
pub mod Scan
pub mod Keys
pub mod Removal
pub mod Emptiness
pub mod Growth
use abdb.Base.{
  ℕ, zero, suc, ◌+◌, ◌-◌, ◌*◌, ◌%◌, Bool, true, false, Option, none, some, List, [], ◌∷◌, get_elem?,
  if◌then◌else◌, ltb, ◌==◌, Result, ok, err, panic, no_fuel, length,
}
use abdb.PageType.{PageType}
use abdb.Slots.{OverlayError}
use abdb.Index.Leaf.{BTreeLeafPage}
use abdb.Index.Inner.{BTreeInnerPage}

-- The errors of accessor.rs that the index returns, without their messages. `wrong_overlay` is no
-- error of the code: it stands for the reading of a page through the overlay of another page type,
-- which the code does not check for after the traversal.
pub data Error : Type 0 where
  buffer_error : Error
  tuple_non_existent : Error
  page_corruption : Error
  wrong_overlay : Error

-- A page, by the type that its header names; `other` is any other byte, valid or not.
pub data Node : Type 0 where
  leaf : BTreeLeafPage → Node
  inner : BTreeInnerPage → Node
  other : ℕ → Node

-- The index file as the buffer pool serves it: its pages, which of them are marked dirty, the root
-- in the file header, and the page id that comes next.
pub record Index : Type 0 where
  pub pages : ℕ → Option Node
  pub dirty : ℕ → Bool
  pub root_page : ℕ
  pub header_dirty : Bool
  pub next_lpage_id : ℕ

-- An operation returns and leaves the pages changed, also where it fails.
abbrev pub M : Type 0 → Type 0
M A = Index → Result Error A × Index

abbrev pub bind_step : {A B : Type 0} → Result Error A × Index → (A → M B) → Result Error B × Index
bind_step (ok a, s) f = f a s
bind_step (err e, s) f = (err e, s)
bind_step (panic, s) f = (panic, s)
bind_step (no_fuel, s) f = (no_fuel, s)

infixl 5 ◌>>=◌ ◌>>◌
abbrev pub ◌>>=◌ : {A B : Type 0} → M A → (A → M B) → M B
◌>>=◌ m f s = bind_step (m s) f

abbrev pub ◌>>◌ : {B : Type 0} → M (Unit {0}) → M B → M B
m >> k = m >>= λ _. k

abbrev pub pure : {A : Type 0} → A → M A
pure a s = (ok a, s)

abbrev pub raise : {A : Type 0} → Error → M A
raise e s = (err e, s)

-- A result of the overlays, with `map_err` to a corruption.
abbrev pub corruption : {A : Type 0} → Result OverlayError A → M A
corruption (ok a) s = (ok a, s)
corruption (err e) s = (err page_corruption, s)
corruption panic s = (panic, s)
corruption no_fuel s = (no_fuel, s)

abbrev pub index_of : {A : Type 0} → List A → ℕ → M A
index_of xs i s = elim (get_elem? xs i) [ some a ↦ (ok a, s) | none ↦ (panic, s) ]

abbrev pub update {ℓ} : {A : Type ℓ} → (ℕ → A) → ℕ → A → ℕ → A
update f i a j = if i == j then a else f j

-- `fetch_page_read` and `fetch_page_write`.
unfoldable pub fetch_page : ℕ → M Node
fetch_page id s = elim (s.pages id) [ some n ↦ (ok n, s) | none ↦ (err buffer_error, s) ]

-- What a write guard's page holds when the guard is given back.
unfoldable pub store_page : ℕ → Node → M (Unit {0})
store_page id n s = (ok tt, record s { pages = update s.pages id (some n) })

unfoldable pub mark_dirty : ℕ → M (Unit {0})
mark_dirty id s = (ok tt, record s { dirty = update s.dirty id true })

-- `BTreeLeafPage::new` and `BTreeInnerPage::new` on a fetched page, with no check of its type.
abbrev pub as_leaf : Node → M BTreeLeafPage
as_leaf (leaf p) = pure p
as_leaf (inner p) = raise wrong_overlay
as_leaf (other t) = raise wrong_overlay

abbrev pub as_inner : Node → M BTreeInnerPage
as_inner (leaf p) = raise wrong_overlay
as_inner (inner p) = pure p
as_inner (other t) = raise wrong_overlay

-- `alloc_page`: a fresh, zeroed and clean page (page type 0), by `new_page` of the pool.
unfoldable pub alloc_page : M ℕ
alloc_page s = (
  ok s.next_lpage_id,
  record s {
    pages = update s.pages s.next_lpage_id (some (other 0));
    dirty = update s.dirty s.next_lpage_id false;
    next_lpage_id = (s.next_lpage_id + 1) % 4294967296;
  },
)

unfoldable pub read_root_page : M ℕ
read_root_page s = (ok s.root_page, s)

unfoldable pub set_root_page : ℕ → M (Unit {0})
set_root_page new_root s = (ok tt, record s { root_page = new_root; header_dirty = true })

-- `alloc_and_set_root`: the new root and the old one.
unfoldable pub alloc_and_set_root : M (ℕ × ℕ)
unfolding alloc_page read_root_page set_root_page
alloc_and_set_root = do
  new_root ← alloc_page
  old_root ← read_root_page
  set_root_page new_root
  pure (new_root, old_root)
