-- ===== src/Pool/Flush.antt =====
-- src/buffer/impl/buffer_pool.rs: the dirty frames written back.
use abdb.Base.{ℕ, Bool, false, List, [], ◌∷◌, if◌then◌else◌, ◌&&◌, ok}
use abdb.Common.{PPageId, same_loc}
use abdb.Stateful.{◌>>◌, pure, modify}
use abdb.Disk.{write_page_at_loc}
use abdb.Pool.{FrameMeta, vacant, loaded, M, update, on_disk, indices}

-- The dirty frames among some, and their places.
unfoldable pub dirty_frames : (ℕ → FrameMeta) → List ℕ → List (ℕ × PPageId)
dirty_frames metas [] = []
dirty_frames metas (i ∷ is) =
    let rest = dirty_frames metas is in
    elim (metas i) [ vacant ↦ rest | loaded l p dirty ↦ if dirty then (i, p) ∷ rest else rest ]

-- The frame is dirty, and its page at that place.
abbrev pub still_dirty : FrameMeta → PPageId → Bool
still_dirty vacant loc = false
still_dirty (loaded l p dirty) loc = dirty && same_loc p loc

abbrev pub cleaned : FrameMeta → FrameMeta
cleaned vacant = vacant
cleaned (loaded l p dirty) = loaded l p false

-- One round of the loop of `flush_all_dirty`.
unfoldable pub flush_frame : ℕ → PPageId → M (Unit {0})
flush_frame i loc s =
    if still_dirty (s.frame_meta i) loc
    then (on_disk (write_page_at_loc loc (s.buf i))
          >> modify
              (λ t. record t { frame_meta = update t.frame_meta i (cleaned (t.frame_meta i)) }))
        s
    else (ok tt, s)

unfoldable pub flush_frames : List (ℕ × PPageId) → M (Unit {0})
flush_frames [] = pure tt
flush_frames ((i, loc) ∷ frames) = flush_frame i loc >> flush_frames frames

unfoldable pub flush_all_dirty : M (Unit {0})
flush_all_dirty s = flush_frames (dirty_frames s.frame_meta (indices s.num_frames [])) s
