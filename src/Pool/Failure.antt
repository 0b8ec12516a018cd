-- ===== src/Pool/Failure.antt =====
-- src/buffer/impl/buffer_pool.rs: a fetch of a page that cannot be read.
use abdb.Base.{ℕ, suc, ◌≡◌, refl, ap, ◌∙◌, ◌+◌, ◌%◌, some, none, List, ◌∷◌, ok, err}
use abdb.Disk.{read_page, lookup, page_not_found}
use abdb.Pool.{BufferPool, storage_error, incr_pin}
use abdb.Pool.Fetch.{publish_lpage, acquire_frame, load_frame, fetch_page_write}
use abdb.Pool.Transparent.{acquire_miss, claimed}
use abdb.Pool.Valid.{update_same}

-- The pool that such a fetch leaves.
abbrev left : BufferPool → ℕ → ℕ → List ℕ → BufferPool
left s id i rest = publish_lpage id i (claimed s i rest)

load_unknown :
    (s : BufferPool) (id i : ℕ)
    → s.disk_manager.page_directory id ≡ none
    → load_frame id i s ≡ (err (storage_error (page_not_found id)), s)
unfolding load_frame read_page lookup
load_unknown s id i h = rw (h, lookup) refl

first_fetch :
    (s : BufferPool) (id i : ℕ) (rest : List ℕ) (fuel : ℕ)
    → s.frame_lpage_id_map id ≡ none
    → s.vacant_frames ≡ i ∷ rest
    → s.disk_manager.page_directory id ≡ none
    → fetch_page_write (suc fuel) id s ≡ (err (storage_error (page_not_found id)), left s id i rest)
unfolding fetch_page_write incr_pin
first_fetch s id i rest fuel m e h =
    rw (acquire_miss s id i rest fuel m e) (rw (load_unknown (left s id i rest) id i h) refl)

hit_fetch :
    (s : BufferPool) (id i : ℕ) (fuel : ℕ)
    → s.frame_lpage_id_map id ≡ some i
    → fetch_page_write (suc fuel) id s ≡ (ok i, incr_pin i s)
unfolding fetch_page_write acquire_frame
hit_fetch s id i fuel m = rw (m, acquire_frame) refl

-- Where there is a vacant frame, a fetch for writing of an id that the directory does not have and
-- that no frame has fails, and leaves the id mapped to the frame it took, pinned; a second fetch
-- succeeds, with the bytes that the frame had, and pins it again.
pub fetch-fetch_unknown :
    (s : BufferPool) (id i : ℕ) (rest : List ℕ) (fuel : ℕ)
    → s.frame_lpage_id_map id ≡ none
    → s.vacant_frames ≡ i ∷ rest
    → s.disk_manager.page_directory id ≡ none
    → (t u : BufferPool) × (fetch_page_write (suc fuel) id s
        ≡ (err (storage_error (page_not_found id)), t))
      × (fetch_page_write (suc fuel) id t ≡ (ok i, u))
      × (u.buf i ≡ s.buf i)
      × (u.pin_counts i ≡ ((s.pin_counts i + 1) % 256 + 1) % 256)
unfolding incr_pin
fetch-fetch_unknown s id i rest fuel m e h = (
  left s id i rest,
  incr_pin i (left s id i rest),
  first_fetch s id i rest fuel m e h,
  hit_fetch (left s id i rest) id i fuel (update_same s.frame_lpage_id_map id (some i)),
  refl,
  update_same (left s id i rest).pin_counts i (((left s id i rest).pin_counts i + 1) % 256)
      ∙ ap (λ n. (n + 1) % 256) (update_same s.pin_counts i ((s.pin_counts i + 1) % 256)),
)
