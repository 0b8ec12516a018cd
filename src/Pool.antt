-- ===== src/Pool.antt =====
-- src/buffer/impl/buffer_pool.rs and src/buffer/impl/guard.rs: the buffer pool over the disk manager
-- and the LRU-K policy. One operation runs at a time, so that latches are free when they are taken;
-- a guard is its frame, whose pin it holds until it is dropped. The set of vacant frames is the list
-- of its elements in some order, and an index is always below the number of frames.
use abdb.Base.{
  ℕ, zero, suc, ◌+◌, ◌%◌, ◌*◌, Bool, true, false, not, Option, some, none, List, [], ◌∷◌, take,
  drop, if◌then◌else◌, ◌==◌, ◌&&◌, ◌||◌, ltb, Result, ok, err, panic, no_fuel, replicate,
}
use abdb.Common.{PPageId, same_loc, page_buf_size}
use abdb.Bytes.{from_le_bytes}
use abdb.Stateful.{State, ◌>>=◌, ◌>>◌, pure, raise, modify, bind_step}
use abdb.Disk.{DiskManager, DiskError, D, read_page, read_page_at_loc, write_page_at_loc}
use abdb.Disk
use abdb.Evictor.{LruKEvictor, find_victim, record_access, set_evictable, remove_frame}
pub mod Fetch
pub mod Flush
pub mod Policy
pub mod Valid
pub mod Erase
pub mod Evict
pub mod Pins
pub mod Load
pub mod Transparent
pub mod Write
pub mod Clean
pub mod Durable
pub mod Failure
pub mod Start

pub data FrameMeta : Type 0 where
  vacant : FrameMeta
  loaded : ℕ → PPageId → Bool → FrameMeta

pub record BufferPool : Type 0 where
  pub disk_manager : DiskManager
  pub eviction_policy : LruKEvictor
  pub num_frames : ℕ
  pub buf : ℕ → List ℕ
  pub pin_counts : ℕ → ℕ
  pub frame_meta : ℕ → FrameMeta
  pub vacant_frames : List ℕ
  pub frame_lpage_id_map : ℕ → Option ℕ
  pub frame_ppage_id_map : PPageId → Option ℕ

-- `buffer::Error`.
pub data Error : Type 0 where
  storage_error : DiskError → Error
  no_victim_found : Error
  someone_fucked_up : Error

abbrev pub M : Type 0 → Type 0
M A = State Error BufferPool A

abbrev pub update {ℓ} : {A : Type ℓ} → (ℕ → A) → ℕ → A → ℕ → A
update f i a j = if i == j then a else f j

abbrev pub update_loc {ℓ} : {A : Type ℓ} → (PPageId → A) → PPageId → A → PPageId → A
update_loc f p a q = if same_loc p q then a else f q

-- A call of the disk manager, with `map_err(StorageError)`.
abbrev pub lift_disk :
    {A : Type 0} → Result DiskError A × DiskManager → BufferPool → Result Error A × BufferPool
lift_disk (ok a, d) s = (ok a, record s { disk_manager = d })
lift_disk (err e, d) s = (err (storage_error e), record s { disk_manager = d })
lift_disk (panic, d) s = (panic, record s { disk_manager = d })
lift_disk (no_fuel, d) s = (no_fuel, record s { disk_manager = d })

abbrev pub on_disk : {A : Type 0} → D A → M A
on_disk m s = lift_disk (m s.disk_manager) s

abbrev pub indices : ℕ → List ℕ → List ℕ
indices zero xs = xs
indices (suc n) xs = indices n (n ∷ xs)

-- The buffer starts as zeros.
unfoldable pub new : ℕ → DiskManager → LruKEvictor → BufferPool
new num_frames disk_manager eviction_policy = record {
  disk_manager = disk_manager;
  eviction_policy = eviction_policy;
  num_frames = num_frames;
  buf = λ i. replicate page_buf_size 0;
  pin_counts = λ i. 0;
  frame_meta = λ i. vacant;
  vacant_frames = indices num_frames [];
  frame_lpage_id_map = λ id. none;
  frame_ppage_id_map = λ loc. none;
}

-- The counts are bytes and wrap.
unfoldable pub incr_pin : ℕ → BufferPool → BufferPool
incr_pin i s = record s {
  pin_counts = update s.pin_counts i ((s.pin_counts i + 1) % 256);
  eviction_policy =
      if s.pin_counts i == 0 then set_evictable s.eviction_policy i false else s.eviction_policy;
}

unfoldable pub decr_pin : ℕ → BufferPool → BufferPool
decr_pin i s = record s {
  pin_counts = update s.pin_counts i ((s.pin_counts i + 255) % 256);
  eviction_policy =
      if s.pin_counts i == 1 then set_evictable s.eviction_policy i true else s.eviction_policy;
}

unfoldable pub mark_frame_dirty : ℕ → M (Unit {0})
mark_frame_dirty i s = elim (s.frame_meta i) [
  | loaded l p dirty ↦ (ok tt, record s { frame_meta = update s.frame_meta i (loaded l p true) })
  | vacant ↦ (err someone_fucked_up, s)
]

unfoldable pub frame_lpage_id : ℕ → BufferPool → Result Error ℕ
frame_lpage_id i s = elim (s.frame_meta i) [ loaded l p dirty ↦ ok l | vacant ↦ panic ]

abbrev pub mem : ℕ → List ℕ → Bool
mem i [] = false
mem i (x ∷ xs) = (x == i) || mem i xs

abbrev pub insert_frame : ℕ → List ℕ → List ℕ
insert_frame i xs = if mem i xs then xs else i ∷ xs

-- The end of an eviction: the frame goes from the maps, the metadata and the policy.
unfoldable pub forget_frame : ℕ → ℕ → PPageId → BufferPool → BufferPool
forget_frame i l p s = record s {
  frame_lpage_id_map = update s.frame_lpage_id_map l none;
  frame_ppage_id_map = update_loc s.frame_ppage_id_map p none;
  frame_meta = update s.frame_meta i vacant;
  vacant_frames = insert_frame i s.vacant_frames;
  eviction_policy = remove_frame s.eviction_policy i;
}

-- The eviction of an unpinned frame: a dirty one is written back first.
unfoldable pub evict_frame : ℕ → M (Unit {0})
evict_frame i s = elim (s.frame_meta i) [
  | vacant ↦ (ok tt, record s { vacant_frames = insert_frame i s.vacant_frames })
  | loaded l p dirty ↦
      if dirty
      then (on_disk (write_page_at_loc p (s.buf i)) >> modify (forget_frame i l p)) s
      else (ok tt, forget_frame i l p s)
]

-- The loop of `evict`: a victim that is pinned is asked for again.
unfoldable pub evict : ℕ → M (Unit {0})
evict zero s = (no_fuel, s)
evict (suc fuel) s =
    let again = evict fuel s in
    elim (find_victim s.eviction_policy) [
      | none ↦ (err no_victim_found, s)
      | some i ↦ if s.pin_counts i == 0 then evict_frame i s else again
    ]

-- A write through a guard.
unfoldable pub write_frame : ℕ → List ℕ → BufferPool → BufferPool
write_frame i page s = record s { buf = update s.buf i page }
