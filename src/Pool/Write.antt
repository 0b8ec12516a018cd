-- ===== src/Pool/Write.antt =====
-- src/buffer/impl/buffer_pool.rs and src/buffer/impl/guard.rs: a page changed through a write guard.
use abdb.Base.{
  ℕ, ◌≡◌, refl, sym, ap, ◌∙◌, inl, inr, Bool, true, false, Option, some, none, List, [], ◌∷◌, ◌==◌,
  arith, Bool-cases, ok,
}
use abdb.Common.{PPageId}
use abdb.Pool.{FrameMeta, loaded, BufferPool, update, write_frame, mark_frame_dirty}
use abdb.Pool.Valid.{
  AllVacant, Holds, IsValid, view, content_in, update_at, update_same, update_other,
  loaded_injective, vacant-loaded,
}

-- The pool after a frame's bytes are changed and the frame marked.
abbrev pub changed : BufferPool → ℕ → ℕ → PPageId → List ℕ → BufferPool
changed s i id p page = record s {
  buf = update s.buf i page;
  frame_meta = update s.frame_meta i (loaded id p true);
}

-- A frame marked dirty or clean holds the same page.
pub update_mark :
    (metas : ℕ → FrameMeta) (i id : ℕ) (p : PPageId) (d flag : Bool)
    → metas i ≡ loaded id p d
    → (j k : ℕ) (q : PPageId) (e : Bool) → update metas i (loaded id p flag) j ≡ loaded k q e
    → (before : Bool) × (metas j ≡ loaded k q before)
update_mark metas i id p d flag h j k q e g = elim (Bool-cases (i == j)) [
  | inl same ↦
      let at : i ≡ j = ground arith in
      let (ids, places, flags) =
        loaded_injective (sym (update_at metas i (loaded id p flag) j same) ∙ g) in
      (d, ap metas (sym at) ∙ h ∙ ap (λ x. loaded x p d) ids ∙ ap (λ x. loaded k x d) places)
  | inr other ↦ (e, sym (update_other metas i (loaded id p flag) j other) ∙ g)
]

pub mark_update :
    (metas : ℕ → FrameMeta) (i id : ℕ) (p : PPageId) (d flag : Bool)
    → metas i ≡ loaded id p d
    → (j k : ℕ) (q : PPageId) (e : Bool) → metas j ≡ loaded k q e
    → (after : Bool) × (update metas i (loaded id p flag) j ≡ loaded k q after)
mark_update metas i id p d flag h j k q e g = elim (Bool-cases (i == j)) [
  | inl same ↦
      let at : i ≡ j = ground arith in
      let (ids, places, flags) = loaded_injective (sym h ∙ ap metas at ∙ g) in
      (
        flag,
        update_at metas i (loaded id p flag) j same
            ∙ ap (λ x. loaded x p flag) ids
            ∙ ap (λ x. loaded k x flag) places,
      )
  | inr other ↦ (e, update_other metas i (loaded id p flag) j other ∙ g)
]

pub AllVacant-marked :
    (metas : ℕ → FrameMeta) (i id : ℕ) (p : PPageId) (d flag : Bool) (is : List ℕ)
    → metas i ≡ loaded id p d
    → AllVacant metas is
    → AllVacant (update metas i (loaded id p flag)) is
AllVacant-marked metas i id p d flag [] h a = tt
AllVacant-marked metas i id p d flag (j ∷ is) h a = (
  elim (Bool-cases (i == j)) [
    | inl same ↦
        let at : i ≡ j = ground arith in elim (vacant-loaded (sym a.0 ∙ ap metas (sym at) ∙ h)) [ ]
    | inr other ↦ update_other metas i (loaded id p flag) j other ∙ a.0
  ],
  a.1,
  AllVacant-marked metas i id p d flag is h a.2,
)

module _ (s : BufferPool) (i id : ℕ) (p : PPageId) (d : Bool) (page : List ℕ) (v : IsValid s)
    (h : Holds s i id p d) where
  changed-clean :
      (j k : ℕ) (q : PPageId)
      → update s.frame_meta i (loaded id p true) j ≡ loaded k q false
      → s.disk_manager.files q ≡ some (update s.buf i page j)
  changed-clean j k q g = elim (Bool-cases (i == j)) [
    | inl same ↦
        let (ids, places, flags) =
          loaded_injective (sym (update_at s.frame_meta i (loaded id p true) j same) ∙ g) in
        ground arith
    | inr other ↦
        v.clean j k q (sym (update_other s.frame_meta i (loaded id p true) j other) ∙ g)
        ∙ ap some (sym (update_other s.buf i page j other))
  ]

  pub changed-IsValid : IsValid (changed s i id p page)
  changed-IsValid = record {
    mapped = λ k j g.
        let (q, e, m) = v.mapped k j g in
        let (after, n) = mark_update s.frame_meta i id p d true h j k q e m in (q, after, n);
    located = λ q j g.
        let (k, e, m) = v.located q j g in
        let (after, n) = mark_update s.frame_meta i id p d true h j k q e m in (k, after, n);
    placed = λ j k q e g.
        let (b, m) = update_mark s.frame_meta i id p d true h j k q e g in v.placed j k q b m;
    clean = changed-clean;
    one_place = v.one_place;
    vacancies = AllVacant-marked s.frame_meta i id p d true s.vacant_frames h v.vacancies;
    policy = v.policy;
  }

  changed-content :
      (k : ℕ) (frame : Option ℕ) (stored : Option (List ℕ))
      → (id == k) ≡ false
      → s.frame_lpage_id_map k ≡ frame
      → content_in (update s.buf i page) stored frame ≡ content_in s.buf stored frame
  changed-content k none stored other g = refl
  changed-content k (some j) stored other g = elim (Bool-cases (i == j)) [
    | inl same ↦
        let at : i ≡ j = ground arith in
        let (q, e, m) = v.mapped k j g in
        let (ids, places, flags) = loaded_injective (sym h ∙ ap s.frame_meta at ∙ m) in ground arith
    | inr differ ↦ ap some (update_other s.buf i page j differ)
  ]

-- Where the pool is valid and an id is mapped to a frame, marking that frame after a write to it
-- succeeds: the page holds what was written, every other page what it held, and the pool stays
-- valid.
pub mark-write-view :
    (s : BufferPool) (i id : ℕ) (page : List ℕ)
    → IsValid s
    → s.frame_lpage_id_map id ≡ some i
    → (t : BufferPool) × (mark_frame_dirty i (write_frame i page s) ≡ (ok tt, t))
      × IsValid t
      × (view t id ≡ some page)
      × ((k : ℕ) → ((id == k) ≡ false) → view t k ≡ view s k)
unfolding mark_frame_dirty write_frame
mark-write-view s i id page v m =
    let (p, d, h) = v.mapped id i m in
    (
      changed s i id p page,
      rw (h, mark_frame_dirty) refl,
      changed-IsValid s i id p d page v h,
      rw m (ap some (update_same s.buf i page)),
      λ k other. changed-content s i id p d page v h k (s.frame_lpage_id_map k) _ other refl,
    )
