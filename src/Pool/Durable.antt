-- ===== src/Pool/Durable.antt =====
-- src/buffer/impl/buffer_pool.rs: what is on disk after the dirty frames are flushed.
use abdb.Base.{
  ℕ, zero, suc, ◌≡◌, ◌<◌, refl, sym, ap, ◌∙◌, inl, inr, Bool, true, false, ◌||◌, Option, some, none,
  List, [], ◌∷◌, ◌==◌, arith, Bool-cases, true-false, Result, ok, err,
}
use abdb.Common.{PPageId, same_loc_refl}
use abdb.Pool.{FrameMeta, vacant, loaded, BufferPool, Error, indices, mem}
use abdb.Pool.Flush.{dirty_frames, flush_all_dirty}
use abdb.Pool.Valid.{Holds, IsValid, view, Same, stored_at}
use abdb.Pool.Clean.{lists, Saved, all_saved, not_saved, flush_frames-Saved}

-- Every dirty frame of a list is found.
dirty_frames-lists :
    (metas : ℕ → FrameMeta) (is : List ℕ) (j k : ℕ) (q : PPageId)
    → mem j is ≡ true
    → metas j ≡ loaded k q true
    → lists j q (dirty_frames metas is) ≡ true
unfolding dirty_frames
dirty_frames-lists metas [] j k q listed m = cc
dirty_frames-lists metas (i ∷ is) j k q listed m = elim (Bool-cases (i == j)) [
  | inl same ↦
      let at : i ≡ j = ground arith in
      let m' : metas i ≡ loaded k q true = ap metas at ∙ m in
      rw (m', dirty_frames) (rw same (rw (same_loc_refl q) refl))
  | inr other ↦
      later (metas i) refl
        (dirty_frames-lists metas is j k q (second (i == j) (mem j is) other listed) m)
]
  where
    second : (b c : Bool) → b ≡ false → (b || c) ≡ true → c ≡ true
    second true c g h = cc
    second false c g h = h

    later :
        (x : FrameMeta)
        → metas i ≡ x
        → lists j q (dirty_frames metas is) ≡ true
        → lists j q (dirty_frames metas (i ∷ is)) ≡ true
    later vacant h found = rw (h, dirty_frames) found
    later (loaded l p true) h found = rw (h, dirty_frames) (rw found (ground arith))
    later (loaded l p false) h found = rw (h, dirty_frames) found

indices-mem : (n : ℕ) (xs : List ℕ) (j : ℕ) → mem j xs ≡ true → mem j (indices n xs) ≡ true
indices-mem zero xs j h = h
indices-mem (suc n) xs j h = indices-mem n (n ∷ xs) j (ground arith)

indices_below : (n : ℕ) (xs : List ℕ) (j : ℕ) → j < n → mem j (indices n xs) ≡ true
indices_below zero xs j h = ground arith
indices_below (suc n) xs j h = elim (Bool-cases (n == j)) [
  | inl same ↦ indices-mem n (n ∷ xs) j (rw same refl)
  | inr other ↦ indices_below n (n ∷ xs) j (ground arith)
]

-- The frames that hold pages are the pool's.
abbrev pub IsFramed : BufferPool → Type 0
IsFramed s = (id i : ℕ) → s.frame_lpage_id_map id ≡ some i → i < s.num_frames

-- After a flush every page on disk is what it holds, or a write failed; no page changes.
pub data Flushed (s : BufferPool) : Result Error (Unit {0}) × BufferPool → Type 0 where
  durable :
      (t : BufferPool)
      → IsValid t
      → Same s t
      → ((id : ℕ) → stored_at t.disk_manager.files (t.disk_manager.page_directory id) ≡ view s id)
      → Flushed s (ok tt, t)
  stopped : (e : Error) (t : BufferPool) → IsValid t → Same s t → Flushed s (err e, t)

-- A page whose frame is clean is on disk.
clean-stored :
    (t : BufferPool)
    → IsValid t
    → ((j k : ℕ) (q : PPageId) → Holds t j k q true → ⊥)
    → (id : ℕ) → stored_at t.disk_manager.files (t.disk_manager.page_directory id) ≡ view t id
clean-stored t v none_dirty id = by_frame (t.frame_lpage_id_map id) refl
  where
    by_frame :
        (frame : Option ℕ)
        → t.frame_lpage_id_map id ≡ frame
        → stored_at t.disk_manager.files (t.disk_manager.page_directory id) ≡ view t id
    by_frame none m = rw m refl
    by_frame (some i) m = go (v.mapped id i m)
      where
        go :
            ((p : PPageId) × (d : Bool) × Holds t i id p d)
            → stored_at t.disk_manager.files (t.disk_manager.page_directory id) ≡ view t id
        go (p, true, h) = elim (none_dirty i id p h) [ ]
        go (p, false, h) = rw m (rw (v.placed i id p false h).2 (v.clean i id p h))

Saved-Flushed :
    (s : BufferPool) (r : Result Error (Unit {0}) × BufferPool)
    → IsValid s
    → IsFramed s
    → Saved s (dirty_frames s.frame_meta (indices s.num_frames [])) r
    → Flushed s r
Saved-Flushed s r v framed (all_saved t w same now) = durable t w same (λ id.
    clean-stored t w
      (λ j k q m.
        let (before, unlisted) = now j k q m in
        let below : j < s.num_frames = framed k j (v.placed j k q true before).0 in
        let listed : lists j q (dirty_frames s.frame_meta (indices s.num_frames [])) ≡ true =
          dirty_frames-lists s.frame_meta (indices s.num_frames []) j k q
            (indices_below s.num_frames [] j below) before in
        true-false (sym listed ∙ unlisted))
      id
    ∙ same id)
Saved-Flushed s r v framed (not_saved e t w same) = stopped e t w same

-- Where the pool is valid and pages are mapped to its frames only, `flush_all_dirty` succeeds or
-- fails, and either way the pool stays valid and every page holds what it held; where it succeeds,
-- what every page holds is what is on disk at its place.
pub flush_all_dirty-Flushed :
    (s : BufferPool) → IsValid s → IsFramed s → Flushed s (flush_all_dirty s)
unfolding flush_all_dirty
flush_all_dirty-Flushed s v framed =
    Saved-Flushed s _ v framed
      (flush_frames-Saved s (dirty_frames s.frame_meta (indices s.num_frames [])) v)
