-- ===== src/Pool/Transparent.antt =====
-- src/buffer/impl/buffer_pool.rs: the fetches of a page by its id.
use abdb.Base.{
  ℕ, suc, ◌≡◌, refl, sym, ap, ◌∙◌, ◌+◌, ◌%◌, Bool, true, false, Option, some, none, List, [], ◌∷◌,
  if◌then◌else◌, Result, ok, err,
}
use abdb.Common.{PPageId}
use abdb.Stateful.{bind_step, ◌>>◌, modify, pure}
use abdb.Disk.{read_page, lookup, read_page_at_loc}
use abdb.Pool.{FrameMeta, loaded, BufferPool, Error, update, update_loc, evict, incr_pin}
use abdb.Pool.Fetch.{
  find_lpage, publish_lpage, claim_frame, acquire_frame, load_frame, fetch_page_write,
  fetch_page_read, read_guard,
}
use abdb.Pool.Policy.{record_access-Agrees}
use abdb.Pool.Valid.{AllVacant, IsValid, view, Same, stored_at, update_same}
use abdb.Pool.Evict.{Evicted, freed, failed, Freed, evict-Evicted}
use abdb.Pool.Pins.{incr_pin-IsValid}
use abdb.Pool.Load.{arrived, arrived-IsValid, arrived-view}

-- A fetch of a page gives its frame, pinned once more, with what the page holds; or it fails. The
-- pool stays valid and every page holds what it held.
pub record Serves (s : BufferPool) (id : ℕ) (page : List ℕ) (i : ℕ) (t : BufferPool) : Type 0 where
  pub valid : IsValid t
  pub same : Same s t
  pub frame : t.frame_lpage_id_map id ≡ some i
  pub bytes : t.buf i ≡ page
  pub pinned : t.pin_counts i ≡ (s.pin_counts i + 1) % 256

pub data Fetched (s : BufferPool) (id : ℕ) (page : List ℕ)
    : Result Error ℕ × BufferPool → Type 0 where
  served : (i : ℕ) (t : BufferPool) → Serves s id page i t → Fetched s id page (ok i, t)
  refused : (e : Error) (t : BufferPool) → IsValid t → Same s t → Fetched s id page (err e, t)

-- A page in no frame has a place, and what is there.
stored-place :
    (files : PPageId → Option (List ℕ)) (place : Option PPageId) (page : List ℕ)
    → stored_at files place ≡ some page
    → (loc : PPageId) × (place ≡ some loc) × (files loc ≡ some page)
stored-place files none page h = elim (none-some h) [ ]
  where
    none-some : {x : List ℕ} → none ≡ some x → ⊥
    none-some g = cc
stored-place files (some loc) page h = (loc, refl, h)

-- The state with a page of the id in a frame: one more pin.
hit-Serves :
    (s : BufferPool) (id i : ℕ) (page : List ℕ)
    → IsValid s
    → view s id ≡ some page
    → s.frame_lpage_id_map id ≡ some i
    → Serves s id page i (incr_pin i s)
hit-Serves s id i page v h m = record {
  valid = incr_pin-IsValid s i v;
  same = unfold incr_pin in λ k. refl;
  frame = unfold incr_pin in m;
  bytes = unfold incr_pin in some_injective (sym (held m) ∙ h);
  pinned = unfold incr_pin in update_same s.pin_counts i ((s.pin_counts i + 1) % 256);
}
  where
    some_injective : {x y : List ℕ} → some x ≡ some y → x ≡ y
    some_injective g = cc

    held : s.frame_lpage_id_map id ≡ some i → view s id ≡ some (s.buf i)
    held g = rw g refl

-- What the frame taken for a page leads to.
data Acquired (s : BufferPool) (id : ℕ) (page : List ℕ)
    : Result Error (ℕ × Bool) × BufferPool → Type 0 where
  hit : (i : ℕ) (t : BufferPool) → Serves s id page i t → Acquired s id page (ok (i, true), t)
  miss :
      (i : ℕ) (t u : BufferPool)
      → load_frame id i t ≡ (ok tt, u)
      → Serves s id page i u
      → Acquired s id page (ok (i, false), t)
  no_frame : (e : Error) (t : BufferPool) → IsValid t → Same s t → Acquired s id page (err e, t)

-- The pool when a vacant frame is taken.
abbrev pub claimed : BufferPool → ℕ → List ℕ → BufferPool
claimed s i rest = incr_pin i (record s { vacant_frames = rest })

pub acquire_miss :
    (s : BufferPool) (id i : ℕ) (rest : List ℕ) (fuel : ℕ)
    → s.frame_lpage_id_map id ≡ none
    → s.vacant_frames ≡ i ∷ rest
    → acquire_frame (find_lpage id) (publish_lpage id) (suc fuel) s
      ≡ (ok (i, false), publish_lpage id i (claimed s i rest))
unfolding acquire_frame claim_frame incr_pin
acquire_miss s id i rest fuel m e =
    rw (m, acquire_frame) (rw (e, acquire_frame) (rw (m, claim_frame) refl))

load_there :
    (s : BufferPool) (id i : ℕ) (loc : PPageId) (page : List ℕ)
    → s.disk_manager.page_directory id ≡ some loc
    → s.disk_manager.files loc ≡ some page
    → load_frame id i s ≡ (
      ok tt,
      record s {
        buf = update s.buf i page;
        frame_meta = update s.frame_meta i (loaded id loc false);
        frame_ppage_id_map = update_loc s.frame_ppage_id_map loc (some i);
      },
    )
unfolding load_frame read_page lookup read_page_at_loc
load_there s id i loc page there bytes = rw (there, lookup) (rw (bytes, read_page_at_loc) refl)

relist :
    (metas : ℕ → FrameMeta) (xs ys : List ℕ) → xs ≡ ys → AllVacant metas xs → AllVacant metas ys
relist metas xs ys h a = rw (sym h) a

miss-Serves :
    (s : BufferPool) (id i : ℕ) (loc : PPageId) (page : List ℕ) (rest : List ℕ)
    → IsValid s
    → s.frame_lpage_id_map id ≡ none
    → s.vacant_frames ≡ i ∷ rest
    → s.disk_manager.page_directory id ≡ some loc
    → s.disk_manager.files loc ≡ some page
    → Serves s id page i (arrived (claimed s i rest) i id loc page)
miss-Serves s id i loc page rest v m e there bytes =
    let a : AllVacant s.frame_meta (i ∷ rest) =
      relist s.frame_meta s.vacant_frames (i ∷ rest) e v.vacancies in
    let taken : IsValid (record s { vacant_frames = rest }) = record {
      mapped = v.mapped;
      located = v.located;
      placed = v.placed;
      clean = v.clean;
      one_place = v.one_place;
      vacancies = a.2;
      policy = v.policy;
    } in
    let w : IsValid (claimed s i rest) =
      incr_pin-IsValid (record s { vacant_frames = rest }) i taken in
    record {
      valid =
          unfold incr_pin in
          arrived-IsValid (claimed s i rest) i id loc page w a.0 m there bytes a.1;
      same = unfold incr_pin in arrived-view (claimed s i rest) i id loc page w a.0 m there bytes;
      frame = update_same (claimed s i rest).frame_lpage_id_map id (some i);
      bytes = update_same (claimed s i rest).buf i page;
      pinned = unfold incr_pin in update_same s.pin_counts i ((s.pin_counts i + 1) % 256);
    }

miss-Acquired :
    (s : BufferPool) (id i : ℕ) (page : List ℕ) (rest : List ℕ) (fuel : ℕ)
    → IsValid s
    → view s id ≡ some page
    → s.frame_lpage_id_map id ≡ none
    → s.vacant_frames ≡ i ∷ rest
    → Acquired s id page (acquire_frame (find_lpage id) (publish_lpage id) (suc fuel) s)
unfolding incr_pin
miss-Acquired s id i page rest fuel v h m e =
    let stored : stored_at s.disk_manager.files (s.disk_manager.page_directory id) ≡ some page =
      rw (sym (out m)) h in
    let (loc, there, bytes) =
      stored-place s.disk_manager.files (s.disk_manager.page_directory id) page stored in
    rw (acquire_miss s id i rest fuel m e) (
      miss i (publish_lpage id i (claimed s i rest)) (arrived (claimed s i rest) i id loc page)
        (load_there (publish_lpage id i (claimed s i rest)) id i loc page there bytes)
        (miss-Serves s id i loc page rest v m e there bytes))
  where
    out :
        s.frame_lpage_id_map id ≡ none
        → view s id ≡ stored_at s.disk_manager.files (s.disk_manager.page_directory id)
    out g = rw g refl

Serves-after :
    (s t u : BufferPool) (id i : ℕ) (page : List ℕ)
    → Freed s t
    → Serves t id page i u
    → Serves s id page i u
Serves-after s t u id i page f w = record {
  valid = w.valid;
  same = λ k. w.same k ∙ f.same k;
  frame = w.frame;
  bytes = w.bytes;
  pinned = w.pinned ∙ ap (λ n. (n + 1) % 256) (f.pins i);
}

-- What is acquired after an eviction is acquired.
after_eviction :
    (s t : BufferPool) (id : ℕ) (page : List ℕ) (r : Result Error (ℕ × Bool) × BufferPool)
    → Freed s t
    → Acquired t id page r
    → Acquired s id page r
after_eviction s t id page r f (hit i u w) = hit i u (Serves-after s t u id i page f w)
after_eviction s t id page r f (miss i u x e w) = miss i u x e (Serves-after s t x id i page f w)
after_eviction s t id page r f (no_frame e u v w) = no_frame e u v (λ k. w k ∙ f.same k)

Evicted-Acquired :
    (s : BufferPool) (id : ℕ) (page : List ℕ) (fuel : ℕ) (r : Result Error (Unit {0}) × BufferPool)
    → s.frame_lpage_id_map id ≡ none
    → view s id ≡ some page
    → Evicted s r
    → Acquired s id page
        (bind_step r (λ _. acquire_frame (find_lpage id) (publish_lpage id) (suc fuel)))
Evicted-Acquired s id page fuel r m h (freed t f) =
    after_eviction s t id page (acquire_frame (find_lpage id) (publish_lpage id) (suc fuel) t) f (
      miss-Acquired t id f.first_vacant page f.other_vacant fuel f.valid (f.same id ∙ h)
        (f.absent id m) f.vacancy)
Evicted-Acquired s id page fuel r m h (failed e t v w) = no_frame e t v w

acquire_after :
    (s : BufferPool) (id : ℕ) (fuel : ℕ)
    → s.frame_lpage_id_map id ≡ none
    → s.vacant_frames ≡ []
    → acquire_frame (find_lpage id) (publish_lpage id) (suc fuel) s
      ≡ bind_step (evict fuel s) (λ _. acquire_frame (find_lpage id) (publish_lpage id) fuel)
unfolding acquire_frame
acquire_after s id fuel m e = rw (m, acquire_frame) (simp (e, acquire_frame))

acquire-Acquired :
    (s : BufferPool) (id : ℕ) (page : List ℕ) (fuel : ℕ)
    → IsValid s
    → view s id ≡ some page
    → Acquired s id page (acquire_frame (find_lpage id) (publish_lpage id) (suc (suc fuel)) s)
unfolding acquire_frame
acquire-Acquired s id page fuel v h = go (s.frame_lpage_id_map id) refl s.vacant_frames refl
  where
    go :
        (frame : Option ℕ)
        → s.frame_lpage_id_map id ≡ frame
        → (vacants : List ℕ) → s.vacant_frames ≡ vacants
        → Acquired s id page (acquire_frame (find_lpage id) (publish_lpage id) (suc (suc fuel)) s)
    go (some i) m vacants e =
        rw (m, acquire_frame) (hit i (incr_pin i s) (hit-Serves s id i page v h m))
    go none m (i ∷ rest) e = miss-Acquired s id i page rest (suc fuel) v h m e
    go none m [] e =
        rw (acquire_after s id (suc fuel) m e)
          (Evicted-Acquired s id page fuel (evict (suc fuel) s) m h (evict-Evicted s fuel v))

write_step :
    (s : BufferPool) (id : ℕ) (page : List ℕ) (r : Result Error (ℕ × Bool) × BufferPool)
    → Acquired s id page r
    → Fetched s id page
        (bind_step r (λ (i, is_loaded). if is_loaded then pure i else (load_frame id i >> pure i)))
write_step s id page r (hit i t w) = served i t w
write_step s id page r (miss i t u e w) = rw e (served i u w)
write_step s id page r (no_frame e t v w) = refused e t v w

read_step :
    (s : BufferPool) (id : ℕ) (page : List ℕ) (r : Result Error (ℕ × Bool) × BufferPool)
    → Acquired s id page r
    → Fetched s id page (
        bind_step r (λ (i, is_loaded).
          (if is_loaded then pure tt else load_frame id i)
          >> (modify (read_guard i is_loaded) >> pure i)))
read_step s id page r (hit i t w) = served i (read_guard i true t) (record {
  valid = record {
    mapped = w.valid.mapped;
    located = w.valid.located;
    placed = w.valid.placed;
    clean = w.valid.clean;
    one_place = w.valid.one_place;
    vacancies = w.valid.vacancies;
    policy = record_access-Agrees t.pin_counts t.eviction_policy i w.valid.policy;
  };
  same = w.same;
  frame = w.frame;
  bytes = w.bytes;
  pinned = w.pinned;
})
read_step s id page r (miss i t u e w) = rw e (served i u w)
read_step s id page r (no_frame e t v w) = refused e t v w

-- Where the pool is valid and the page of an id holds something, in its frame or on disk,
-- `fetch_page_write` with fuel of at least two returns a frame or fails. The frame is the one that
-- the id is mapped to, has what the page holds, and is pinned once more; the pool stays valid and
-- every page holds what it held, also where pages were evicted and written back, and where the fetch
-- fails.
pub fetch_page_write-Fetched :
    (s : BufferPool) (id : ℕ) (page : List ℕ) (fuel : ℕ)
    → IsValid s
    → view s id ≡ some page
    → Fetched s id page (fetch_page_write (suc (suc fuel)) id s)
unfolding fetch_page_write
fetch_page_write-Fetched s id page fuel v h =
    write_step s id page _ (acquire-Acquired s id page fuel v h)

-- Where the pool is valid and the page of an id holds something, in its frame or on disk,
-- `fetch_page_read` with fuel of at least two returns a frame or fails. The frame is the one that
-- the id is mapped to, has what the page holds, and is pinned once more; the pool stays valid and
-- every page holds what it held, also where the fetch fails.
pub fetch_page_read-Fetched :
    (s : BufferPool) (id : ℕ) (page : List ℕ) (fuel : ℕ)
    → IsValid s
    → view s id ≡ some page
    → Fetched s id page (fetch_page_read (suc (suc fuel)) id s)
unfolding fetch_page_read
fetch_page_read-Fetched s id page fuel v h =
    read_step s id page _ (acquire-Acquired s id page fuel v h)
