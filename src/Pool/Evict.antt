-- ===== src/Pool/Evict.antt =====
-- src/buffer/impl/buffer_pool.rs: what an eviction keeps.
use abdb.Base.{
  ℕ, suc, ◌≡◌, refl, ◌∙◌, inl, inr, Bool, true, false, Option, some, none, List, [], ◌∷◌, ◌==◌,
  arith, Bool-cases, Result, ok, err,
}
use abdb.Common.{PPageId}
use abdb.Disk.{write_page_at_loc, io_error}
use abdb.Evictor.{find_victim}
use abdb.Pool.{
  FrameMeta, vacant, loaded, BufferPool, Error, storage_error, no_victim_found, insert_frame, mem,
  forget_frame, evict_frame, evict,
}
use abdb.Pool.Policy.{find_victim_unpinned}
use abdb.Pool.Valid.{IsValid, Same, update_loc_same}
use abdb.Pool.Erase.{
  written, written-IsValid, written-view, forget_frame-IsValid, forget_frame-view,
}

-- A frame was made vacant, and no page was brought in.
pub record Freed (s t : BufferPool) : Type 0 where
  pub valid : IsValid t
  pub same : Same s t
  pub first_vacant : ℕ
  pub other_vacant : List ℕ
  pub vacancy : t.vacant_frames ≡ first_vacant ∷ other_vacant
  pub pins : (i : ℕ) → t.pin_counts i ≡ s.pin_counts i
  pub absent : (id : ℕ) → s.frame_lpage_id_map id ≡ none → t.frame_lpage_id_map id ≡ none

-- An eviction frees a frame, or fails and keeps all pages.
pub data Evicted (s : BufferPool) : Result Error (Unit {0}) × BufferPool → Type 0 where
  freed : (t : BufferPool) → Freed s t → Evicted s (ok tt, t)
  failed : (e : Error) (t : BufferPool) → IsValid t → Same s t → Evicted s (err e, t)

listed : (i : ℕ) (is : List ℕ) → (j : ℕ) × (js : List ℕ) × (insert_frame i is ≡ j ∷ js)
listed i [] = (i, [], refl)
listed i (j ∷ js) = elim (Bool-cases (mem i (j ∷ js))) [
  | inl there ↦ (j, js, rw there refl)
  | inr fresh ↦ (i, j ∷ js, rw fresh refl)
]

forgotten-Freed :
    (s : BufferPool) (i l : ℕ) (p : PPageId) (d : Bool)
    → IsValid s
    → s.frame_meta i ≡ loaded l p d
    → s.disk_manager.files p ≡ some (s.buf i)
    → Freed s (forget_frame i l p s)
forgotten-Freed s i l p d v h stored =
    let (j, js, e) = listed i s.vacant_frames in
    record {
      valid = forget_frame-IsValid s i l p d v h;
      same = forget_frame-view s i l p d v h stored;
      first_vacant = j;
      other_vacant = js;
      vacancy = unfold forget_frame in e;
      pins = unfold forget_frame in λ k. refl;
      absent = unfold forget_frame in λ id out. ground arith;
    }

relisted-Freed :
    (s : BufferPool) (i : ℕ)
    → IsValid s
    → s.frame_meta i ≡ vacant
    → Freed s (record s { vacant_frames = insert_frame i s.vacant_frames })
relisted-Freed s i v h =
    let (j, js, e) = listed i s.vacant_frames in
    record {
      valid = record {
        mapped = v.mapped;
        located = v.located;
        placed = v.placed;
        clean = v.clean;
        one_place = v.one_place;
        vacancies = elim (Bool-cases (mem i s.vacant_frames)) [
          | inl there ↦ rw there v.vacancies
          | inr fresh ↦ rw fresh (h, fresh, v.vacancies)
        ];
        policy = v.policy;
      };
      same = λ id. refl;
      first_vacant = j;
      other_vacant = js;
      vacancy = e;
      pins = λ k. refl;
      absent = λ id out. out;
    }

rewritten-Freed :
    (s : BufferPool) (i l : ℕ) (p : PPageId)
    → IsValid s
    → s.frame_meta i ≡ loaded l p true
    → Freed s (forget_frame i l p (written s i p))
rewritten-Freed s i l p v h =
    let t : BufferPool = written s i p in
    let f : Freed t (forget_frame i l p t) =
      forgotten-Freed t i l p true (written-IsValid s i l p true v h) h
        (update_loc_same s.disk_manager.files p (some (s.buf i))) in
    record {
      valid = f.valid;
      same = λ id. f.same id ∙ written-view s i l p true v h id;
      first_vacant = f.first_vacant;
      other_vacant = f.other_vacant;
      vacancy = f.vacancy;
      pins = f.pins;
      absent = f.absent;
    }

evict_frame-Evicted :
    (s : BufferPool) (i : ℕ) (m : FrameMeta)
    → IsValid s
    → s.frame_meta i ≡ m
    → Evicted s (evict_frame i s)
unfolding evict_frame write_page_at_loc
evict_frame-Evicted s i vacant v h =
    rw (h, evict_frame)
      (freed (record s { vacant_frames = insert_frame i s.vacant_frames }) (relisted-Freed s i v h))
evict_frame-Evicted s i (loaded l p false) v h =
    rw (h, evict_frame)
      (freed (forget_frame i l p s) (forgotten-Freed s i l p false v h (v.clean i l p h)))
evict_frame-Evicted s i (loaded l p true) v h = elim (Bool-cases (s.disk_manager.write_fails p)) [
  | inl fails ↦
      rw (h, evict_frame)
        (rw (fails, write_page_at_loc) (failed (storage_error io_error) s v (λ id. refl)))
  | inr works ↦
      rw (h, evict_frame)
        (rw (works, write_page_at_loc)
          (freed (forget_frame i l p (written s i p)) (rewritten-Freed s i l p v h)))
]

-- Of a valid pool, an eviction with positive fuel ends: it makes a frame vacant, or fails; the pool
-- stays valid and every page holds what it held. Where a frame is made vacant, no pin changes and no
-- page is brought in.
pub evict-Evicted : (s : BufferPool) (fuel : ℕ) → IsValid s → Evicted s (evict (suc fuel) s)
unfolding evict
evict-Evicted s fuel v = go (find_victim s.eviction_policy) refl
  where
    go :
        (victim : Option ℕ)
        → find_victim s.eviction_policy ≡ victim
        → Evicted s (evict (suc fuel) s)
    go none h = rw (h, evict) (failed no_victim_found s v (λ id. refl))
    go (some i) h =
        let free : (s.pin_counts i == 0) ≡ true =
          rw (find_victim_unpinned s.pin_counts s.eviction_policy i v.policy h) refl in
        rw (h, evict) (rw free (evict_frame-Evicted s i (s.frame_meta i) v refl))
