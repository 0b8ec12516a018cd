-- ===== src/Disk.antt =====
-- src/storage/disk.rs: the disk manager, over the page directory as the map that it stands for, the
-- allocator, and the files as what is read at a place. Reads and writes of the files are the
-- environment's: a place may have no whole page to read, and a write may fail.
use abdb.Base.{ℕ, ◌+◌, ◌%◌, ◌^◌, Bool, Option, some, none, List, if◌then◌else◌, ◌==◌, ok, err}
use abdb.Common.{PPageId, same_loc}
use abdb.Allocator.{SimpleAllocator, allocate}
use abdb.Stateful.{State, ◌>>=◌, ◌>>◌, pure}

-- `DiskError`, with the directory's errors that reach it.
pub data DiskError : Type 0 where
  io_error : DiskError
  page_not_found : ℕ → DiskError
  duplicate_page : ℕ → DiskError

-- `DiskManagerImpl`.
pub record DiskManager : Type 0 where
  pub page_directory : ℕ → Option PPageId
  pub allocator : SimpleAllocator
  pub next_lpage_id : ℕ
  pub files : PPageId → Option (List ℕ)
  pub write_fails : PPageId → Bool

abbrev pub D : Type 0 → Type 0
D A = State DiskError DiskManager A

-- `PageDirectory::lookup`.
unfoldable pub lookup : ℕ → D PPageId
lookup id d = elim (d.page_directory id) [
  | some loc ↦ (ok loc, d)
  | none ↦ (err (page_not_found id), d)
]

-- `PageDirectory::add_page`: an id that is there is refused.
unfoldable pub add_page : ℕ → PPageId → D (Unit {0})
add_page id loc d = elim (d.page_directory id) [
  | some taken ↦ (err (duplicate_page id), d)
  | none ↦
      (ok tt, record d { page_directory = λ j. if id == j then some loc else d.page_directory j })
]

unfoldable pub read_page_at_loc : PPageId → D (List ℕ)
read_page_at_loc loc d = elim (d.files loc) [ some page ↦ (ok page, d) | none ↦ (err io_error, d) ]

unfoldable pub write_page_at_loc : PPageId → List ℕ → D (Unit {0})
write_page_at_loc loc page d = if d.write_fails loc then (err io_error, d) else (
  ok tt,
  record d { files = λ other. if same_loc loc other then some page else d.files other },
)

-- `read_page`: the place and the page.
unfoldable pub read_page : ℕ → D (PPageId × List ℕ)
unfolding lookup read_page_at_loc
read_page id = do loc ← lookup id; page ← read_page_at_loc loc; pure (loc, page)

unfoldable pub write_page : ℕ → List ℕ → D (Unit {0})
unfolding lookup write_page_at_loc
write_page id page = do loc ← lookup id; write_page_at_loc loc page

-- The counter wraps.
unfoldable pub alloc_lpage_id : D ℕ
alloc_lpage_id d = (ok d.next_lpage_id, record d { next_lpage_id = (d.next_lpage_id + 1) % 2 ^ 32 })

unfoldable pub alloc_place : ℕ → D PPageId
alloc_place file d =
    (ok (allocate d.allocator file).1, record d { allocator = (allocate d.allocator file).0 })

unfoldable pub new_page : ℕ → D (ℕ × PPageId)
unfolding alloc_lpage_id alloc_place add_page
new_page file = do id ← alloc_lpage_id; loc ← alloc_place file; add_page id loc; pure (id, loc)
