-- ===== src/Pool/Erase.antt =====
-- src/buffer/impl/buffer_pool.rs: a frame written back and erased.
use abdb.Base.{
  ℕ, ◌≡◌, refl, sym, ap, ◌∙◌, inl, inr, Bool, true, false, Option, some, none, List, [], ◌∷◌,
  if◌then◌else◌, ◌==◌, arith, Bool-cases,
}
use abdb.Common.{PPageId, same_loc, same_loc_refl, same_loc-true}
use abdb.Pool.{
  FrameMeta, vacant, loaded, BufferPool, update, update_loc, insert_frame, mem, forget_frame,
}
use abdb.Pool.Policy.{remove_frame-Agrees}
use abdb.Pool.Valid.{
  AllVacant, Holds, IsValid, Same, stored_at, content_in, update_same, update_other,
  update_loc_other, loaded_injective, vacant-loaded, one_frame, one_frame_at,
}

-- What is read after an erasure was there before, and elsewhere.
if_none-some :
    (b : Bool) (x : Option ℕ) (j : ℕ)
    → (if b then none else x) ≡ some j
    → (b ≡ false) × (x ≡ some j)
if_none-some true x j g = ground arith
if_none-some false x j g = (refl, g)

if_vacant-loaded :
    (b : Bool) (m : FrameMeta) (id : ℕ) (q : PPageId) (e : Bool)
    → (if b then vacant else m) ≡ loaded id q e
    → (b ≡ false) × (m ≡ loaded id q e)
if_vacant-loaded true m id q e g = elim (vacant-loaded g) [ ]
if_vacant-loaded false m id q e g = (refl, g)

AllVacant-erased :
    (metas : ℕ → FrameMeta) (i : ℕ) (is : List ℕ)
    → AllVacant metas is
    → AllVacant (update metas i vacant) is
AllVacant-erased metas i [] a = tt
AllVacant-erased metas i (j ∷ is) a = (
  elim (Bool-cases (i == j)) [ inl same ↦ rw same refl | inr other ↦ rw other a.0 ],
  a.1,
  AllVacant-erased metas i is a.2,
)

insert_frame-AllVacant :
    (metas : ℕ → FrameMeta) (i : ℕ) (is : List ℕ)
    → AllVacant metas is
    → AllVacant (update metas i vacant) (insert_frame i is)
insert_frame-AllVacant metas i is a =
    let rest : AllVacant (update metas i vacant) is = AllVacant-erased metas i is a in
    elim (Bool-cases (mem i is)) [
      | inl listed ↦ rw listed rest
      | inr fresh ↦ rw fresh (update_same metas i vacant, fresh, rest)
    ]

module _ (s : BufferPool) (i l : ℕ) (p : PPageId) (d : Bool) (v : IsValid s)
    (h : Holds s i l p d) where
  forget_frame-mapped :
      (id j : ℕ)
      → update s.frame_lpage_id_map l none id ≡ some j
      → (q : PPageId) × (e : Bool) × (update s.frame_meta i vacant j ≡ loaded id q e)
  forget_frame-mapped id j g =
      let (other, before) = if_none-some (l == id) (s.frame_lpage_id_map id) j g in
      let (q, e, m) = v.mapped id j before in
      (
        q,
        e,
        elim (Bool-cases (i == j)) [
          | inl same ↦
              let at : i ≡ j = ground arith in
              let m' : s.frame_meta i ≡ loaded id q e = ap s.frame_meta at ∙ m in
              let ids : l ≡ id = (loaded_injective (sym h ∙ m')).0 in ground arith
          | inr differ ↦ update_other s.frame_meta i vacant j differ ∙ m
        ],
      )

  forget_frame-located :
      (q : PPageId) (j : ℕ)
      → update_loc s.frame_ppage_id_map p none q ≡ some j
      → (id : ℕ) × (e : Bool) × (update s.frame_meta i vacant j ≡ loaded id q e)
  forget_frame-located q j g =
      let (other, before) = if_none-some (same_loc p q) (s.frame_ppage_id_map q) j g in
      let (id, e, m) = v.located q j before in
      (
        id,
        e,
        elim (Bool-cases (i == j)) [
          | inl same ↦
              let at : i ≡ j = ground arith in
              let m' : s.frame_meta i ≡ loaded id q e = ap s.frame_meta at ∙ m in
              let places : p ≡ q = (loaded_injective (sym h ∙ m')).1 in
              let agree : same_loc p q ≡ true = rw (sym places) (same_loc_refl p) in ground arith
          | inr differ ↦ update_other s.frame_meta i vacant j differ ∙ m
        ],
      )

  -- Another frame has another page at another place.
  other_page :
      (j id : ℕ) (q : PPageId) (e : Bool)
      → ((i == j) ≡ false)
      → Holds s j id q e
      → ((l == id) ≡ false) × (same_loc p q ≡ false)
  other_page j id q e differ m = (
    elim (Bool-cases (l == id)) [
      | inl same ↦
          let ids : l ≡ id = ground arith in
          let there : Holds s j l q e = m ∙ ap (λ k. loaded k q e) (sym ids) in
          let at : i ≡ j = one_frame s i j l p q d e v h there in ground arith
      | inr other ↦ other
    ],
    elim (Bool-cases (same_loc p q)) [
      | inl same ↦
          let there : Holds s j id p e =
            m ∙ ap (λ k. loaded id k e) (sym (same_loc-true p q same)) in
          let at : i ≡ j = one_frame_at s i j l id p d e v h there in ground arith
      | inr other ↦ other
    ],
  )

  forget_frame-placed :
      (j id : ℕ) (q : PPageId) (e : Bool)
      → update s.frame_meta i vacant j ≡ loaded id q e
      → (update s.frame_lpage_id_map l none id ≡ some j)
        × (update_loc s.frame_ppage_id_map p none q ≡ some j)
        × (s.disk_manager.page_directory id ≡ some q)
  forget_frame-placed j id q e g =
      let (differ, m) = if_vacant-loaded (i == j) (s.frame_meta j) id q e g in
      let (ids, places) = other_page j id q e differ m in
      let (a, b, c) = v.placed j id q e m in
      (
        update_other s.frame_lpage_id_map l none id ids ∙ a,
        update_loc_other s.frame_ppage_id_map p none q places ∙ b,
        c,
      )

  pub forget_frame-IsValid : IsValid (forget_frame i l p s)
  unfolding forget_frame
  forget_frame-IsValid = record {
    mapped = forget_frame-mapped;
    located = forget_frame-located;
    placed = forget_frame-placed;
    clean = λ j id q g. v.clean j id q (if_vacant-loaded (i == j) (s.frame_meta j) id q false g).1;
    one_place = v.one_place;
    vacancies = insert_frame-AllVacant s.frame_meta i s.vacant_frames v.vacancies;
    policy = remove_frame-Agrees s.pin_counts s.eviction_policy i v.policy;
  }

  pub forget_frame-view : s.disk_manager.files p ≡ some (s.buf i) → Same s (forget_frame i l p s)
  unfolding forget_frame
  forget_frame-view stored id = elim (Bool-cases (l == id)) [
    | inl same ↦
        let ids : l ≡ id = ground arith in
        let (a, b, c) = v.placed i l p d h in
        let a' : s.frame_lpage_id_map id ≡ some i = ap s.frame_lpage_id_map (sym ids) ∙ a in
        let c' : s.disk_manager.page_directory id ≡ some p =
          ap s.disk_manager.page_directory (sym ids) ∙ c in
        rw same (rw a' (rw c' stored))
    | inr other ↦ rw other refl
  ]

-- The pool after a frame's bytes are written to its page's place.
abbrev pub written : BufferPool → ℕ → PPageId → BufferPool
written s i p = record s {
  disk_manager = record s.disk_manager {
    files = update_loc s.disk_manager.files p (some (s.buf i));
  };
}

module _ (s : BufferPool) (i l : ℕ) (p : PPageId) (d : Bool) (v : IsValid s)
    (h : Holds s i l p d) where
  written-clean :
      (j id : ℕ) (q : PPageId)
      → Holds s j id q false
      → update_loc s.disk_manager.files p (some (s.buf i)) q ≡ some (s.buf j)
  written-clean j id q m = elim (Bool-cases (same_loc p q)) [
    | inl same ↦
        let there : Holds s j id p false =
          m ∙ ap (λ k. loaded id k false) (sym (same_loc-true p q same)) in
        let at : i ≡ j = one_frame_at s i j l id p d false v h there in
        rw same (ap (λ k. some (s.buf k)) at)
    | inr other ↦ rw other (v.clean j id q m)
  ]

  pub written-IsValid : IsValid (written s i p)
  written-IsValid = record {
    mapped = v.mapped;
    located = v.located;
    placed = v.placed;
    clean = written-clean;
    one_place = v.one_place;
    vacancies = v.vacancies;
    policy = v.policy;
  }

  -- A page that is in no frame lies elsewhere.
  written-stored :
      (id : ℕ) (place : Option PPageId)
      → s.disk_manager.page_directory id ≡ place
      → s.frame_lpage_id_map id ≡ none
      → stored_at (written s i p).disk_manager.files place ≡ stored_at s.disk_manager.files place
  written-stored id none g out = refl
  written-stored id (some q) g out = elim (Bool-cases (same_loc p q)) [
    | inl same ↦
        let (a, b, c) = v.placed i l p d h in
        let there : s.disk_manager.page_directory id ≡ some p =
          g ∙ ap some (sym (same_loc-true p q same)) in
        let ids : l ≡ id = v.one_place l id p c there in
        let in_frame : s.frame_lpage_id_map id ≡ some i = ap s.frame_lpage_id_map (sym ids) ∙ a in
        cc
    | inr other ↦ rw other refl
  ]

  written-content :
      (id : ℕ) (frame : Option ℕ)
      → s.frame_lpage_id_map id ≡ frame
      → content_in s.buf
          (stored_at (written s i p).disk_manager.files (s.disk_manager.page_directory id))
          frame
        ≡ content_in s.buf (stored_at s.disk_manager.files (s.disk_manager.page_directory id)) frame
  written-content id (some j) g = refl
  written-content id none g = written-stored id (s.disk_manager.page_directory id) refl g

  pub written-view : Same s (written s i p)
  written-view id = written-content id (s.frame_lpage_id_map id) refl
