-- ===== src/Pool/Clean.antt =====
-- src/buffer/impl/buffer_pool.rs: dirty frames written back.
use abdb.Base.{
  ℕ, ◌≡◌, refl, sym, ap, ◌∙◌, inl, inr, Bool, true, false, ◌&&◌, ◌||◌, some, List, [], ◌∷◌, ◌==◌,
  arith, Bool-cases, true-false, Result, ok, err,
}
use abdb.Common.{PPageId, same_loc, same_loc-true, same_loc_refl}
use abdb.Stateful.{bind_step}
use abdb.Disk.{write_page_at_loc, io_error}
use abdb.Pool.{FrameMeta, vacant, loaded, BufferPool, Error, storage_error, update}
use abdb.Pool.Flush.{still_dirty, flush_frame, flush_frames}
use abdb.Pool.Valid.{
  Holds, IsValid, Same, update_at, update_other, update_loc_same, loaded_injective,
}
use abdb.Pool.Erase.{written, written-IsValid, written-view}
use abdb.Pool.Write.{update_mark, mark_update, AllVacant-marked}

-- The pool after a frame is written back and marked clean.
abbrev saved : BufferPool → ℕ → ℕ → PPageId → BufferPool
saved s i l p = record (written s i p) { frame_meta = update s.frame_meta i (loaded l p false) }

module _ (s : BufferPool) (i l : ℕ) (p : PPageId) (v : IsValid s) (h : Holds s i l p true) where
  saved-clean :
      (j k : ℕ) (q : PPageId)
      → update s.frame_meta i (loaded l p false) j ≡ loaded k q false
      → (written s i p).disk_manager.files q ≡ some (s.buf j)
  saved-clean j k q g = elim (Bool-cases (i == j)) [
    | inl same ↦
        let at : i ≡ j = ground arith in
        let (ids, places, flags) =
          loaded_injective (sym (update_at s.frame_meta i (loaded l p false) j same) ∙ g) in
        ap (written s i p).disk_manager.files (sym places)
        ∙ update_loc_same s.disk_manager.files p (some (s.buf i))
        ∙ ap (λ x. some (s.buf x)) at
    | inr other ↦
        (written-IsValid s i l p true v h).clean j k q
          (sym (update_other s.frame_meta i (loaded l p false) j other) ∙ g)
  ]

  saved-IsValid : IsValid (saved s i l p)
  saved-IsValid = record {
    mapped = λ k j g.
        let (q, e, m) = v.mapped k j g in
        let (after, n) = mark_update s.frame_meta i l p true false h j k q e m in (q, after, n);
    located = λ q j g.
        let (k, e, m) = v.located q j g in
        let (after, n) = mark_update s.frame_meta i l p true false h j k q e m in (k, after, n);
    placed = λ j k q e g.
        let (b, m) = update_mark s.frame_meta i l p true false h j k q e g in v.placed j k q b m;
    clean = saved-clean;
    one_place = v.one_place;
    vacancies = AllVacant-marked s.frame_meta i l p true false s.vacant_frames h v.vacancies;
    policy = v.policy;
  }

  -- What is dirty afterwards is another frame.
  saved-dirty :
      (j k : ℕ) (q : PPageId)
      → update s.frame_meta i (loaded l p false) j ≡ loaded k q true
      → ((i == j) ≡ false) × Holds s j k q true
  saved-dirty j k q g = elim (Bool-cases (i == j)) [
    | inl same ↦
        let (ids, places, flags) =
          loaded_injective (sym (update_at s.frame_meta i (loaded l p false) j same) ∙ g) in
        ground arith
    | inr other ↦ (other, sym (update_other s.frame_meta i (loaded l p false) j other) ∙ g)
  ]

-- The frame and its place are in the list.
abbrev pub lists : ℕ → PPageId → List (ℕ × PPageId) → Bool
lists j q [] = false
lists j q ((i, p) ∷ frames) = ((i == j) && same_loc p q) || lists j q frames

-- Written back: what is dirty now was dirty before, and not among the given frames.
pub data Saved (s : BufferPool) (frames : List (ℕ × PPageId))
    : Result Error (Unit {0}) × BufferPool → Type 0 where
  all_saved :
      (t : BufferPool)
      → IsValid t
      → Same s t
      → ((j k : ℕ) (q : PPageId)
          → Holds t j k q true
          → Holds s j k q true × (lists j q frames ≡ false))
      → Saved s frames (ok tt, t)
  not_saved : (e : Error) (t : BufferPool) → IsValid t → Same s t → Saved s frames (err e, t)

still_dirty-loaded :
    (m : FrameMeta) (loc : PPageId) → still_dirty m loc ≡ true → (l : ℕ) × (m ≡ loaded l loc true)
still_dirty-loaded vacant loc h = elim (true-false (sym h)) [ ]
still_dirty-loaded (loaded l p true) loc h = (l, ap (λ x. loaded l x true) (same_loc-true p loc h))
still_dirty-loaded (loaded l p false) loc h = elim (true-false (sym h)) [ ]

-- A frame that is not written is not the one listed.
passed-lists :
    (s : BufferPool) (i j k : ℕ) (loc q : PPageId)
    → still_dirty (s.frame_meta i) loc ≡ false
    → Holds s j k q true
    → lists j q ((i, loc) ∷ []) ≡ false
passed-lists s i j k loc q h m = elim (Bool-cases ((i == j) && same_loc loc q)) [
  | inl same ↦
      let at : i ≡ j = ground arith in
      let agree : same_loc loc q ≡ true = ground arith in
      let m' : s.frame_meta i ≡ loaded k loc true =
        ap s.frame_meta at ∙ m ∙ ap (λ x. loaded k x true) (sym (same_loc-true loc q agree)) in
      let dirty : still_dirty (s.frame_meta i) loc ≡ true =
        ap (λ x. still_dirty x loc) m' ∙ same_loc_refl loc in
      ground arith
  | inr other ↦ rw other refl
]

flush_frame-Saved :
    (s : BufferPool) (i : ℕ) (loc : PPageId)
    → IsValid s
    → Saved s ((i, loc) ∷ []) (flush_frame i loc s)
unfolding flush_frame write_page_at_loc
flush_frame-Saved s i loc v = elim (Bool-cases (still_dirty (s.frame_meta i) loc)) [
  | inr clean ↦
      rw clean (all_saved s v (λ k. refl) (λ j k q m. (m, passed-lists s i j k loc q clean m)))
  | inl dirty ↦
      let (l, h) = still_dirty-loaded (s.frame_meta i) loc dirty in
      elim (Bool-cases (s.disk_manager.write_fails loc)) [
        | inl fails ↦ rw dirty (rw fails (not_saved (storage_error io_error) s v (λ k. refl)))
        | inr works ↦ rw dirty (
            rw works (
              rw h (
                all_saved (saved s i l loc) (saved-IsValid s i l loc v h)
                  (written-view s i l loc true v h)
                  (λ j k q m.
                    let (apart, n) = saved-dirty s i l loc v h j k q m in (n, rw apart refl)))))
      ]
]

-- The first frame of a list, then the others.
Saved-rest :
    (s t : BufferPool) (i : ℕ) (loc : PPageId) (frames : List (ℕ × PPageId))
    (r : Result Error (Unit {0}) × BufferPool)
    → Same s t
    → ((j k : ℕ) (q : PPageId)
        → Holds t j k q true
        → Holds s j k q true × (lists j q ((i, loc) ∷ []) ≡ false))
    → Saved t frames r
    → Saved s ((i, loc) ∷ frames) r
Saved-rest s t i loc frames r same now (all_saved u w same' later) =
    all_saved u w (λ k. same' k ∙ same k)
      (λ j k q m.
        let (n, rest) = later j k q m in
        let (before, first) = now j k q n in (before, ground arith))
Saved-rest s t i loc frames r same now (not_saved e u w same') =
    not_saved e u w (λ k. same' k ∙ same k)

Saved-step :
    (s : BufferPool) (i : ℕ) (loc : PPageId) (frames : List (ℕ × PPageId))
    (r : Result Error (Unit {0}) × BufferPool)
    → ((t : BufferPool) → IsValid t → Saved t frames (flush_frames frames t))
    → Saved s ((i, loc) ∷ []) r
    → Saved s ((i, loc) ∷ frames) (bind_step r (λ _. flush_frames frames))
Saved-step s i loc frames r rest (all_saved t w same now) =
    Saved-rest s t i loc frames (flush_frames frames t) same now (rest t w)
Saved-step s i loc frames r rest (not_saved e t w same) = not_saved e t w same

pub flush_frames-Saved :
    (s : BufferPool) (frames : List (ℕ × PPageId))
    → IsValid s
    → Saved s frames (flush_frames frames s)
unfolding flush_frames
flush_frames-Saved s [] v = all_saved s v (λ k. refl) (λ j k q m. (m, refl))
flush_frames-Saved s ((i, loc) ∷ frames) v =
    Saved-step s i loc frames (flush_frame i loc s) (λ t w. flush_frames-Saved t frames w)
      (flush_frame-Saved s i loc v)
