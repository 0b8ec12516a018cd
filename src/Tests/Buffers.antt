-- ===== src/Tests/Buffers.antt =====
-- The theorems on the buffer pool, at concrete inputs.
use abdb.Base.{
  ℕ, ◌+◌, ◌%◌, ◌≡◌, refl, sym, ◌∙◌, true, false, some, none, [], ◌∷◌, if◌then◌else◌, ◌==◌, arith,
  Bool-cases, if-cases, ◌<◌, inl, inr, ok, err,
}
use abdb.Common.{PPageId}
use abdb.Disk.{DiskManager, page_not_found}
use abdb.Allocator
use abdb.Evictor
use abdb.Pool.{BufferPool, storage_error, new, write_frame, mark_frame_dirty, evict}
use abdb.Pool.Fetch.{fetch_page_write, fetch_page_read}
use abdb.Pool.Flush.{flush_all_dirty}
use abdb.Pool.Valid.{IsValid, view}
use abdb.Pool.Start.{new-IsValid}
use abdb.Pool.Evict.{Evicted, evict-Evicted}
use abdb.Pool.Transparent.{Fetched, fetch_page_write-Fetched, fetch_page_read-Fetched}
use abdb.Pool.Write.{changed, changed-IsValid, mark-write-view}
use abdb.Pool.Load.{arrived, arrived-IsValid}
use abdb.Pool.Durable.{IsFramed, Flushed, flush_all_dirty-Flushed}
use abdb.Pool.Failure.{fetch-fetch_unknown}

-- Page `id` lies at the place `id` of file 3, which holds its id; page 5 is not there.
abbrev disk : DiskManager
disk = record {
  page_directory = λ id. if id == 5 then none else some (record { file = 3; offset = id });
  allocator = Allocator.new;
  next_lpage_id = 9;
  files = λ loc. some (loc.offset ∷ []);
  write_fails = λ loc. false;
}

offset_of : (id : ℕ) (p : PPageId) → disk.page_directory id ≡ some p → id ≡ p.offset
offset_of id p h = elim (Bool-cases (id == 5)) [
  | inl gone ↦ elim (none_some (sym (missing gone) ∙ h)) [ ]
  | inr there ↦ some_offset (sym (found there) ∙ h)
]
  where
    none_some : none ≡ some p → ⊥
    none_some g = cc

    missing : (id == 5) ≡ true → disk.page_directory id ≡ none
    missing g = rw g refl

    found : (id == 5) ≡ false → disk.page_directory id ≡ some (record { file = 3; offset = id })
    found g = rw g refl

    some_offset : {x y : PPageId} → some x ≡ some y → x.offset ≡ y.offset
    some_offset g = cc

-- A pool of two frames.
abbrev pool : BufferPool
pool = new 2 disk (Evictor.new 2)

pool-IsValid : IsValid pool
pool-IsValid = new-IsValid 2 2 disk (λ a b p h g. offset_of a p h ∙ sym (offset_of b p g))

evict-Evicted_example : Evicted pool (evict 1 pool)
evict-Evicted_example = evict-Evicted pool 0 pool-IsValid

fetch_page_write-Fetched_example : Fetched pool 7 (7 ∷ []) (fetch_page_write 2 7 pool)
fetch_page_write-Fetched_example =
    fetch_page_write-Fetched pool 7 (7 ∷ []) 0 pool-IsValid (unfold new in refl)

fetch_page_read-Fetched_example : Fetched pool 7 (7 ∷ []) (fetch_page_read 2 7 pool)
fetch_page_read-Fetched_example =
    fetch_page_read-Fetched pool 7 (7 ∷ []) 0 pool-IsValid (unfold new in refl)

abbrev seventh : PPageId
seventh = record { file = 3; offset = 7 }

-- The pool with page 7 in frame 0, and that page changed there.
abbrev taken : BufferPool
taken = record pool { vacant_frames = 1 ∷ [] }

abbrev held : BufferPool
held = arrived taken 0 7 seventh (7 ∷ [])

taken-IsValid : IsValid taken
unfolding new
taken-IsValid = record {
  mapped = pool-IsValid.mapped;
  located = pool-IsValid.located;
  placed = pool-IsValid.placed;
  clean = pool-IsValid.clean;
  one_place = pool-IsValid.one_place;
  vacancies = (refl, refl, tt);
  policy = pool-IsValid.policy;
}

held-IsValid : IsValid held
unfolding new
held-IsValid = arrived-IsValid taken 0 7 seventh (7 ∷ []) taken-IsValid refl refl refl refl refl

mark-write-view_example :
    (t : BufferPool) × (mark_frame_dirty 0 (write_frame 0 (9 ∷ []) held) ≡ (ok tt, t))
    × IsValid t
    × (view t 7 ≡ some (9 ∷ []))
    × ((k : ℕ) → ((7 == k) ≡ false) → view t k ≡ view held k)
mark-write-view_example = mark-write-view held 0 7 (9 ∷ []) held-IsValid refl

abbrev dirty : BufferPool
dirty = changed held 0 7 seventh (9 ∷ [])

dirty-IsFramed : IsFramed dirty
unfolding new
dirty-IsFramed id i h =
    if-cases (λ o. o ≡ some i → i < 2) (7 == id) (some 0) none
      (λ _ g. let at : 0 ≡ i = zeroth g in omega arith) (λ _ g. elim (none_some g) [ ]) h
  where
    zeroth : some 0 ≡ some i → 0 ≡ i
    zeroth g = cc

    none_some : none ≡ some i → ⊥
    none_some g = cc

flush_all_dirty-Flushed_example : Flushed dirty (flush_all_dirty dirty)
flush_all_dirty-Flushed_example =
    flush_all_dirty-Flushed dirty
      (changed-IsValid held 0 7 seventh false (9 ∷ []) held-IsValid refl) dirty-IsFramed

fetch-fetch_unknown_example :
    (t u : BufferPool) × (fetch_page_write 1 5 pool ≡ (err (storage_error (page_not_found 5)), t))
    × (fetch_page_write 1 5 t ≡ (ok 0, u))
    × (u.buf 0 ≡ pool.buf 0)
    × (u.pin_counts 0 ≡ ((pool.pin_counts 0 + 1) % 256 + 1) % 256)
fetch-fetch_unknown_example =
    fetch-fetch_unknown pool 5 0 (1 ∷ []) 0 (unfold new in refl) (unfold new in refl)
      (unfold new in refl)
