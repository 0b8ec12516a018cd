-- ===== src/PageDirectory.antt =====
-- src/storage/directory/directory.rs: the page directory, a B-tree in a file of its own behind a cache.
-- One operation runs at a time here; a page is what its type byte says it is, page 0 is the file's
-- header, and a page that the file has not whole is an error.
pub mod Tree
pub mod Splits
pub mod Entries
pub mod Reads
pub mod Changes
pub mod Operations
pub mod Flushes
pub mod Reopen
use abdb.Base.{
  ℕ, zero, suc, ◌+◌, ◌-◌, ◌*◌, ◌%◌, ◌^◌, Bool, true, false, not, ◌||◌, Option, none, some, List, [],
  ◌∷◌, get_elem?, if◌then◌else◌, ltb, ◌==◌, Result, ok, err, panic, no_fuel, length,
}
use abdb.Slots.{OverlayError}
use abdb.Stateful.{State, ◌>>=◌, ◌>>◌, pure, raise, modify, bind_step}
use abdb.Directory.Leaf.{DirectoryLeafPage}
use abdb.Directory.Inner.{DirectoryInnerPage}

-- The errors of directory.rs, without their messages. `wrong_overlay` is no error of the code: it
-- stands for the reading of a page through the overlay of another page type, which the code does not
-- check for.
pub data Error : Type 0 where
  io_error : Error
  page_not_found : ℕ → Error
  page_corruption : Error
  duplicate_page : ℕ → Error
  wrong_overlay : Error

-- A page, by the type that its header names: a leaf, an inner page, a file header with its root and
-- its next page, or anything else.
pub data Node : Type 0 where
  leaf : DirectoryLeafPage → Node
  inner : DirectoryInnerPage → Node
  file_header : ℕ → ℕ → Node
  other : ℕ → Node

-- `BTreePageDirectory`, with its file and what fails on it. The set of dirty pages is the list of
-- its elements in some order.
pub record BTreePageDirectory : Type 0 where
  pub file : ℕ → Option Node
  pub open_fails : Bool
  pub write_fails : ℕ → Bool
  pub sync_fails : Bool
  pub cache : ℕ → Option Node
  pub dirty : List ℕ
  pub next_dir_page : ℕ
  pub root_page : ℕ

abbrev pub M : Type 0 → Type 0
M A = State Error BTreePageDirectory A

abbrev pub update {ℓ} : {A : Type ℓ} → (ℕ → A) → ℕ → A → ℕ → A
update f i a j = if i == j then a else f j

-- A result of the overlays, with `map_err` to a corruption.
abbrev pub corruption : {A : Type 0} → Result OverlayError A → M A
corruption (ok a) s = (ok a, s)
corruption (err e) s = (err page_corruption, s)
corruption panic s = (panic, s)
corruption no_fuel s = (no_fuel, s)

abbrev pub index_of : {A : Type 0} → List A → ℕ → M A
index_of xs i s = elim (get_elem? xs i) [ some a ↦ (ok a, s) | none ↦ (panic, s) ]

-- A page from the file goes into the cache.
unfoldable pub read_page : ℕ → M Node
read_page id s = elim (s.cache id) [
  | some n ↦ (ok n, s)
  | none ↦ elim (s.file id) [
    | some n ↦ (ok n, record s { cache = update s.cache id (some n) })
    | none ↦ (err io_error, s)
  ]
]

abbrev pub mem : ℕ → List ℕ → Bool
mem i [] = false
mem i (x ∷ xs) = (x == i) || mem i xs

unfoldable pub write_page : ℕ → Node → M (Unit {0})
write_page id n s = (
  ok tt,
  record s {
    cache = update s.cache id (some n);
    dirty = if mem id s.dirty then s.dirty else id ∷ s.dirty;
  },
)

-- The counter wraps.
unfoldable pub alloc_dir_page : M ℕ
alloc_dir_page s = (ok s.next_dir_page, record s { next_dir_page = (s.next_dir_page + 1) % 2 ^ 32 })

-- The overlays on a page that was read, with no check of its type.
abbrev pub as_leaf : Node → M DirectoryLeafPage
as_leaf (leaf p) = pure p
as_leaf (inner p) = raise wrong_overlay
as_leaf (file_header root next) = raise wrong_overlay
as_leaf (other t) = raise wrong_overlay

abbrev pub as_inner : Node → M DirectoryInnerPage
as_inner (leaf p) = raise wrong_overlay
as_inner (inner p) = pure p
as_inner (file_header root next) = raise wrong_overlay
as_inner (other t) = raise wrong_overlay

abbrev pub as_header : Node → M (ℕ × ℕ)
as_header (leaf p) = raise wrong_overlay
as_header (inner p) = raise wrong_overlay
as_header (file_header root next) = pure (root, next)
as_header (other t) = raise wrong_overlay

unfoldable pub set_root_page : ℕ → M (Unit {0})
set_root_page new_root s =
    (do
      node ← read_page 0
      header ← as_header node
      (λ t. write_page 0 (file_header new_root t.next_dir_page) t))
      (record s { root_page = new_root })

unfoldable pub read_root : M ℕ
read_root s = (ok s.root_page, s)

-- The write of one dirty page; a page that is not cached is passed over.
unfoldable pub flush_page : ℕ → M (Unit {0})
flush_page id s = elim (s.cache id) [
  | none ↦ (ok tt, s)
  | some n ↦
      if s.write_fails id
      then (err io_error, s)
      else (ok tt, record s { file = update s.file id (some n) })
]

unfoldable pub flush_pages : List ℕ → M (Unit {0})
flush_pages [] = pure tt
flush_pages (id ∷ ids) = flush_page id >> flush_pages ids

-- The end of a flush: the file is synced and the pages are no longer dirty.
unfoldable pub finish_flush : M (Unit {0})
finish_flush s = if s.sync_fails then (err io_error, s) else (ok tt, record s { dirty = [] })

-- Nothing is added to the set while the pages are written.
unfoldable pub flush_all_dirty : M (Unit {0})
flush_all_dirty s = elim s.dirty [
  | [] ↦ (ok tt, s)
  | id ∷ ids ↦
      if s.open_fails then (err io_error, s) else (flush_pages (id ∷ ids) >> finish_flush) s
]

-- `load_header`, from the file's first page.
unfoldable pub load_header : M (Unit {0})
load_header s = elim (s.file 0) [
  | none ↦ (err io_error, s)
  | some n ↦ elim n [
    | file_header root next ↦
        (ok tt, record s { root_page = root; next_dir_page = if next == 0 then 1 else next })
    | leaf p ↦ (err page_corruption, s)
    | inner p ↦ (err page_corruption, s)
    | other t ↦ (err page_corruption, s)
  ]
]

-- `init_new` leaves this file; `DirectoryFileHeaderPage::init` sets root and next page to 0.
unfoldable pub init_new : (ℕ → Bool) → BTreePageDirectory
init_new write_fails = record {
  file = update (λ id. none) 0 (some (file_header 0 0));
  open_fails = false;
  write_fails = write_fails;
  sync_fails = false;
  cache = λ id. none;
  dirty = [];
  next_dir_page = 1;
  root_page = 0;
}
