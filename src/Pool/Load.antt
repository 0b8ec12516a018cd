-- ===== src/Pool/Load.antt =====
-- src/buffer/impl/buffer_pool.rs: a page brought into a vacant frame.
use abdb.Base.{
  ℕ, ◌≡◌, refl, sym, ap, ◌∙◌, inl, inr, Bool, true, false, Option, some, none, List, [], ◌∷◌, ◌==◌,
  ◌||◌, arith, Bool-cases,
}
use abdb.Common.{PPageId, same_loc, same_loc_refl, same_loc-true}
use abdb.Pool.{FrameMeta, vacant, loaded, BufferPool, update, update_loc, mem}
use abdb.Pool.Valid.{
  AllVacant, Holds, IsValid, Same, stored_at, content_in, update_at, update_same, update_other,
  update_loc_at, update_loc_other, loaded_injective, vacant-loaded,
}

-- The pool with a page in a frame.
abbrev pub arrived : BufferPool → ℕ → ℕ → PPageId → List ℕ → BufferPool
arrived s i id loc page = record s {
  buf = update s.buf i page;
  frame_meta = update s.frame_meta i (loaded id loc false);
  frame_lpage_id_map = update s.frame_lpage_id_map id (some i);
  frame_ppage_id_map = update_loc s.frame_ppage_id_map loc (some i);
}

AllVacant-elsewhere :
    (metas : ℕ → FrameMeta) (i : ℕ) (m : FrameMeta) (is : List ℕ)
    → mem i is ≡ false
    → AllVacant metas is
    → AllVacant (update metas i m) is
AllVacant-elsewhere metas i m [] h a = tt
AllVacant-elsewhere metas i m (j ∷ is) h a =
    let (differ, rest) = neither (j == i) (mem i is) h in
    (update_other metas i m j (ground arith) ∙ a.0, a.1, AllVacant-elsewhere metas i m is rest a.2)
  where
    neither : (b c : Bool) → (b || c) ≡ false → (b ≡ false) × (c ≡ false)
    neither true c g = ground arith
    neither false c g = (refl, g)

module _ (s : BufferPool) (i id : ℕ) (loc : PPageId) (page : List ℕ) (v : IsValid s)
    (empty : s.frame_meta i ≡ vacant) (absent : s.frame_lpage_id_map id ≡ none)
    (there : s.disk_manager.page_directory id ≡ some loc) where
  -- A frame that holds a page is another.
  other_frame : (j k : ℕ) (q : PPageId) (e : Bool) → Holds s j k q e → (i == j) ≡ false
  other_frame j k q e m = elim (Bool-cases (i == j)) [
    | inl same ↦
        let at : i ≡ j = ground arith in
        elim (vacant-loaded (sym empty ∙ ap s.frame_meta at ∙ m)) [ ]
    | inr other ↦ other
  ]

  arrived-mapped :
      (k j : ℕ)
      → update s.frame_lpage_id_map id (some i) k ≡ some j
      → (q : PPageId) × (e : Bool) × (update s.frame_meta i (loaded id loc false) j ≡ loaded k q e)
  arrived-mapped k j g = elim (Bool-cases (id == k)) [
    | inl same ↦
        let at : (i == j) ≡ true = ground arith in
        let ids : id ≡ k = ground arith in
        (
          loc,
          false,
          update_at s.frame_meta i (loaded id loc false) j at ∙ ap (λ x. loaded x loc false) ids,
        )
    | inr other ↦
        let (q, e, m) =
          v.mapped k j (sym (update_other s.frame_lpage_id_map id (some i) k other) ∙ g) in
        (q, e, update_other s.frame_meta i (loaded id loc false) j (other_frame j k q e m) ∙ m)
  ]

  arrived-located :
      (q : PPageId) (j : ℕ)
      → update_loc s.frame_ppage_id_map loc (some i) q ≡ some j
      → (k : ℕ) × (e : Bool) × (update s.frame_meta i (loaded id loc false) j ≡ loaded k q e)
  arrived-located q j g = elim (Bool-cases (same_loc loc q)) [
    | inl same ↦
        let stored : some i ≡ some j =
          sym (update_loc_at s.frame_ppage_id_map loc (some i) q same) ∙ g in
        let at : (i == j) ≡ true = ground arith in
        (
          id,
          false,
          update_at s.frame_meta i (loaded id loc false) j at
              ∙ ap (λ x. loaded id x false) (same_loc-true loc q same),
        )
    | inr other ↦
        let (k, e, m) =
          v.located q j (sym (update_loc_other s.frame_ppage_id_map loc (some i) q other) ∙ g) in
        (k, e, update_other s.frame_meta i (loaded id loc false) j (other_frame j k q e m) ∙ m)
  ]

  -- A page in another frame is another page at another place.
  not_here :
      (j k : ℕ) (q : PPageId) (e : Bool)
      → Holds s j k q e
      → ((id == k) ≡ false) × (same_loc loc q ≡ false)
  not_here j k q e m =
      let (a, b, c) = v.placed j k q e m in
      let apart : id ≡ k → (id == k) ≡ false =
        λ ids. elim (none-some (sym absent ∙ ap s.frame_lpage_id_map ids ∙ a)) [ ] in
      let ids : (id == k) ≡ false = elim (Bool-cases (id == k)) [
        | inl same ↦ apart (ground arith)
        | inr other ↦ other
      ] in
      (
        ids,
        elim (Bool-cases (same_loc loc q)) [
          | inl same ↦
              let one : id ≡ k =
                v.one_place id k q (there ∙ ap some (same_loc-true loc q same)) c in
              ground arith
          | inr other ↦ other
        ],
      )
    where
      none-some : {j : ℕ} → none ≡ some j → ⊥
      none-some g = cc

  arrived-placed :
      (j k : ℕ) (q : PPageId) (e : Bool)
      → update s.frame_meta i (loaded id loc false) j ≡ loaded k q e
      → (update s.frame_lpage_id_map id (some i) k ≡ some j)
        × (update_loc s.frame_ppage_id_map loc (some i) q ≡ some j)
        × (s.disk_manager.page_directory k ≡ some q)
  arrived-placed j k q e g = elim (Bool-cases (i == j)) [
    | inl same ↦
        let at : i ≡ j = ground arith in
        let (ids, places, flag) =
          loaded_injective (sym (update_at s.frame_meta i (loaded id loc false) j same) ∙ g) in
        let here : (id == k) ≡ true = ground arith in
        let here' : same_loc loc q ≡ true = rw (sym places) (same_loc_refl loc) in
        (
          update_at s.frame_lpage_id_map id (some i) k here ∙ ap some at,
          update_loc_at s.frame_ppage_id_map loc (some i) q here' ∙ ap some at,
          ap s.disk_manager.page_directory (sym ids) ∙ there ∙ ap some places,
        )
    | inr differ ↦
        let m : Holds s j k q e =
          sym (update_other s.frame_meta i (loaded id loc false) j differ) ∙ g in
        let (a, b, c) = v.placed j k q e m in
        let (ids, places) = not_here j k q e m in
        (
          update_other s.frame_lpage_id_map id (some i) k ids ∙ a,
          update_loc_other s.frame_ppage_id_map loc (some i) q places ∙ b,
          c,
        )
  ]

  module _ (on_disk : s.disk_manager.files loc ≡ some page) where
    arrived-clean :
        (j k : ℕ) (q : PPageId)
        → update s.frame_meta i (loaded id loc false) j ≡ loaded k q false
        → s.disk_manager.files q ≡ some (update s.buf i page j)
    arrived-clean j k q g = elim (Bool-cases (i == j)) [
      | inl same ↦
          let (ids, places, flag) =
            loaded_injective (sym (update_at s.frame_meta i (loaded id loc false) j same) ∙ g) in
          ap s.disk_manager.files (sym places)
          ∙ on_disk
          ∙ ap some (sym (update_at s.buf i page j same))
      | inr differ ↦
          v.clean j k q (sym (update_other s.frame_meta i (loaded id loc false) j differ) ∙ g)
          ∙ ap some (sym (update_other s.buf i page j differ))
    ]

    pub arrived-IsValid : mem i s.vacant_frames ≡ false → IsValid (arrived s i id loc page)
    arrived-IsValid unlisted = record {
      mapped = arrived-mapped;
      located = arrived-located;
      placed = arrived-placed;
      clean = arrived-clean;
      one_place = v.one_place;
      vacancies =
          AllVacant-elsewhere s.frame_meta i (loaded id loc false) s.vacant_frames unlisted
            v.vacancies;
      policy = v.policy;
    }

    pub arrived-view : Same s (arrived s i id loc page)
    arrived-view k = elim (Bool-cases (id == k)) [
      | inl same ↦
          let ids : id ≡ k = ground arith in
          let out : s.frame_lpage_id_map k ≡ none = ap s.frame_lpage_id_map (sym ids) ∙ absent in
          let place : s.disk_manager.page_directory k ≡ some loc =
            ap s.disk_manager.page_directory (sym ids) ∙ there in
          rw same (rw out (rw place (ap some (update_same s.buf i page) ∙ sym on_disk)))
      | inr other ↦ rw other (elsewhere k (s.frame_lpage_id_map k) refl)
    ]
      where
        elsewhere :
            (k : ℕ) (frame : Option ℕ)
            → s.frame_lpage_id_map k ≡ frame
            → content_in
                (update s.buf i page)
                (stored_at s.disk_manager.files (s.disk_manager.page_directory k))
                frame
              ≡ content_in s.buf
                  (stored_at s.disk_manager.files (s.disk_manager.page_directory k))
                  frame
        elsewhere k none g = refl
        elsewhere k (some j) g =
            let (q, e, m) = v.mapped k j g in
            ap some (update_other s.buf i page j (other_frame j k q e m))
