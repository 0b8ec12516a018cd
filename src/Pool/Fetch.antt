-- ===== src/Pool/Fetch.antt =====
-- src/buffer/impl/buffer_pool.rs: the pages brought into frames, the guards made of them, and new
-- pages.
use abdb.Base.{
  ℕ, zero, suc, Bool, true, false, Option, some, none, List, [], ◌∷◌, take, drop, if◌then◌else◌,
  Result, ok, err, panic, no_fuel, replicate,
}
use abdb.Common.{PPageId, page_buf_size}
use abdb.Bytes.{from_le_bytes}
use abdb.Stateful.{◌>>=◌, ◌>>◌, pure, modify, bind_step}
use abdb.Disk.{DiskManager, DiskError, D, read_page, read_page_at_loc, write_page_at_loc}
use abdb.Disk
use abdb.Evictor.{record_access}
use abdb.Pool.{
  loaded, BufferPool, Error, M, update, update_loc, on_disk, incr_pin, decr_pin, insert_frame,
  evict,
}

-- What the two fetches by id and the two by place share: the frame of the page, pinned, and whether
-- it was there; else a vacant frame, pinned and published in the map.
module _ (find : BufferPool → Option ℕ) (publish : ℕ → BufferPool → BufferPool) where
  -- A vacant frame is taken, and the map looked at again behind its latch.
  unfoldable pub claim_frame : ℕ → M (ℕ × Bool)
  claim_frame i s = elim (find (incr_pin i s)) [
    | some other ↦
        let back = decr_pin i (incr_pin i s) in
        (
          ok (other, true),
          incr_pin other (record back { vacant_frames = insert_frame i back.vacant_frames }),
        )
    | none ↦ (ok (i, false), publish i (incr_pin i s))
  ]

  unfoldable pub acquire_frame : ℕ → M (ℕ × Bool)
  acquire_frame zero s = (no_fuel, s)
  acquire_frame (suc fuel) s =
      let again = (evict fuel >> acquire_frame fuel) s in
      elim (find s) [
        | some i ↦ (ok (i, true), incr_pin i s)
        | none ↦ elim s.vacant_frames [
          | [] ↦ again
          | i ∷ rest ↦ claim_frame i (record s { vacant_frames = rest })
        ]
      ]

abbrev pub find_lpage : ℕ → BufferPool → Option ℕ
find_lpage id s = s.frame_lpage_id_map id

abbrev pub publish_lpage : ℕ → ℕ → BufferPool → BufferPool
publish_lpage id i s = record s { frame_lpage_id_map = update s.frame_lpage_id_map id (some i) }

abbrev pub find_loc : PPageId → BufferPool → Option ℕ
find_loc loc s = s.frame_ppage_id_map loc

abbrev pub publish_loc : PPageId → ℕ → BufferPool → BufferPool
publish_loc loc i s = record s { frame_ppage_id_map = update_loc s.frame_ppage_id_map loc (some i) }

-- The page read into the frame by its id. A read that fails leaves the frame pinned and published.
unfoldable pub load_frame : ℕ → ℕ → M (Unit {0})
load_frame id i = do
  (loc, page) ← on_disk (read_page id)
  modify (λ s. record s {
    buf = update s.buf i page;
    frame_meta = update s.frame_meta i (loaded id loc false);
    frame_ppage_id_map = update_loc s.frame_ppage_id_map loc (some i);
  })

-- The page id in the header of a page.
unfoldable pub header_page_id : List ℕ → ℕ
header_page_id page = from_le_bytes (take 4 (drop 8 page))

-- The page read into the frame by its place; its id comes from its header.
unfoldable pub load_frame_at_loc : PPageId → ℕ → M (Unit {0})
load_frame_at_loc loc i = do
  page ← on_disk (read_page_at_loc loc)
  modify (λ s. record s {
    buf = update s.buf i page;
    frame_meta = update s.frame_meta i (loaded (header_page_id page) loc false);
    frame_lpage_id_map = update s.frame_lpage_id_map (header_page_id page) (some i);
  })

-- `PageReadGuard::new` on a frame in memory records an access. A guard that was a write guard
-- before does not.
abbrev pub read_guard : ℕ → Bool → BufferPool → BufferPool
read_guard i is_loaded s = record s {
  eviction_policy = if is_loaded then record_access s.eviction_policy i else s.eviction_policy;
}

unfoldable pub fetch_page_write : ℕ → ℕ → M ℕ
fetch_page_write fuel id = do
  (i, is_loaded) ← acquire_frame (find_lpage id) (publish_lpage id) fuel
  if is_loaded then pure i else (load_frame id i >> pure i)

unfoldable pub fetch_page_read : ℕ → ℕ → M ℕ
fetch_page_read fuel id = do
  (i, is_loaded) ← acquire_frame (find_lpage id) (publish_lpage id) fuel
  if is_loaded then pure tt else load_frame id i
  modify (read_guard i is_loaded)
  pure i

unfoldable pub fetch_page_at_loc_write : ℕ → PPageId → M ℕ
fetch_page_at_loc_write fuel loc = do
  (i, is_loaded) ← acquire_frame (find_loc loc) (publish_loc loc) fuel
  if is_loaded then pure i else (load_frame_at_loc loc i >> pure i)

unfoldable pub fetch_page_at_loc_read : ℕ → PPageId → M ℕ
fetch_page_at_loc_read fuel loc = do
  (i, is_loaded) ← acquire_frame (find_loc loc) (publish_loc loc) fuel
  if is_loaded then pure tt else load_frame_at_loc loc i
  modify (read_guard i is_loaded)
  pure i

-- The loop of `new_page` for a frame.
unfoldable pub vacant_frame : ℕ → M ℕ
vacant_frame zero s = (no_fuel, s)
vacant_frame (suc fuel) s =
    let again = (evict fuel >> vacant_frame fuel) s in
    elim s.vacant_frames [ [] ↦ again | i ∷ rest ↦ (ok i, record s { vacant_frames = rest }) ]

-- `new_page`: the frame of a fresh page of zeros, clean.
unfoldable pub new_page : ℕ → ℕ → M ℕ
new_page fuel file = do
  (id, loc) ← on_disk (Disk.new_page file)
  i ← vacant_frame fuel
  modify (λ s.
      let t = incr_pin i s in
      record t {
        buf = update t.buf i (replicate page_buf_size 0);
        frame_meta = update t.frame_meta i (loaded id loc false);
        frame_lpage_id_map = update t.frame_lpage_id_map id (some i);
        frame_ppage_id_map = update_loc t.frame_ppage_id_map loc (some i);
      })
  pure i

-- `unwrap` of a fetch.
abbrev unwrapped : {A : Type 0} → Result Error A × BufferPool → Result Error A × BufferPool
unwrapped (ok a, s) = (ok a, s)
unwrapped (err e, s) = (panic, s)
unwrapped (panic, s) = (panic, s)
unwrapped (no_fuel, s) = (no_fuel, s)

-- The read guard is dropped at the end.
unfoldable pub load_page_as_unevictable : ℕ → ℕ → M (Unit {0})
load_page_as_unevictable fuel id s =
    bind_step (unwrapped (fetch_page_read fuel id s)) (λ i. modify (λ t. decr_pin i (incr_pin i t)))

unfoldable pub load_page_loc_as_unevictable : ℕ → PPageId → M (Unit {0})
load_page_loc_as_unevictable fuel loc s =
    bind_step (unwrapped (fetch_page_at_loc_read fuel loc s))
      (λ i. modify (λ t. decr_pin i (incr_pin i t)))
