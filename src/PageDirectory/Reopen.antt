-- ===== src/PageDirectory/Reopen.antt =====
-- src/storage/directory/directory.rs: the header of a flushed directory, read back.
use abdb.Base.{
  ℕ, ◌≡◌, refl, sym, ap, ◌∙◌, Bool, true, false, ◌||◌, some, List, ◌∷◌, if◌then◌else◌, ◌==◌, Result,
  ok, arith, Bool-cases, true-false, if-cases, inl, inr,
}
use abdb.PageDirectory.{
  BTreePageDirectory, Node, Error, file_header, write_page, set_root_page, update, mem,
  flush_all_dirty, load_header,
}
use abdb.PageDirectory.Reads.{page_at, Alike, read_page-Alike}
use abdb.PageDirectory.Flushes.{Works, IsSynced, OnFile, durable, failed, flush_all_dirty-OnFile}

abbrev counted : ℕ → ℕ
counted next = if next == 0 then 1 else next

-- In a directory whose pages that are not dirty are as on file, whose file does not fail, and whose
-- page 0 is seen as a header: the flush succeeds, and `load_header` then sets the root and the next
-- page to the header's, with 1 for 0, whatever the directory's own were; every page is on file as it
-- was seen.
pub load_header-flush :
    (s : BTreePageDirectory) (root next : ℕ)
    → IsSynced s
    → Works s
    → page_at s 0 ≡ some (file_header root next)
    → (t u : BTreePageDirectory) × (flush_all_dirty s ≡ (ok tt, t))
      × (load_header t ≡ (ok tt, u))
      × (u.root_page ≡ root)
      × (u.next_dir_page ≡ counted next)
      × ((j : ℕ) → u.file j ≡ page_at s j)
unfolding load_header
load_header-flush s root next synced works header =
    go (flush_all_dirty s) refl (flush_all_dirty-OnFile s synced)
  where
    go :
        (r : Result Error (Unit {0}) × BTreePageDirectory)
        → flush_all_dirty s ≡ r
        → OnFile s r
        → (t u : BTreePageDirectory) × (flush_all_dirty s ≡ (ok tt, t))
          × (load_header t ≡ (ok tt, u))
          × (u.root_page ≡ root)
          × (u.next_dir_page ≡ counted next)
          × ((j : ℕ) → u.file j ≡ page_at s j)
    go r e (failed _ t same marks broken) = elim (broken works) [ ]
    go r e (durable t same filed clean) = (
      t,
      record t { root_page = root; next_dir_page = counted next },
      e,
      simp (filed 0 ∙ header, load_header),
      refl,
      refl,
      filed,
    )

unmarked :
    (i j : ℕ) (d : List ℕ)
    → mem j (if mem i d then d else i ∷ d) ≡ false
    → ((i == j) ≡ false) × (mem j d ≡ false)
unmarked i j d =
    if-cases (λ xs. mem j xs ≡ false → ((i == j) ≡ false) × (mem j d ≡ false)) (mem i d) d (i ∷ d)
      (λ listed out. (
        elim (Bool-cases (i == j)) [
          | inl same ↦
              let at : i ≡ j = ground arith in
              elim (true-false (sym listed ∙ ap (λ k. mem k d) at ∙ out)) [ ]
          | inr other ↦ other
        ],
        out,
      ))
      (λ _ out. neither (i == j) (mem j d) out)
  where
    neither : (b c : Bool) → (b || c) ≡ false → (b ≡ false) × (c ≡ false)
    neither true c g = elim (true-false g) [ ]
    neither false c g = (refl, g)

-- A read and a write keep clean pages as on file, and the file in order.
stored-IsSynced :
    (t : BTreePageDirectory) (i : ℕ) (n : Node)
    → IsSynced t
    → IsSynced (record t {
      cache = update t.cache i (some n);
      dirty = if mem i t.dirty then t.dirty else i ∷ t.dirty;
    })
stored-IsSynced t i n synced j out =
    let (differ, clean) = unmarked i j t.dirty out in rw differ (synced j clean)

Alike-IsSynced : (s t : BTreePageDirectory) → Alike s t → IsSynced s → IsSynced t
Alike-IsSynced s t a synced j out =
    ap (λ f. f j) a.filed ∙ synced j (ap (mem j) (sym a.marks) ∙ out) ∙ sym (a.pages j)

Alike-Works : (s t : BTreePageDirectory) → Alike s t → Works s → Works t
Alike-Works s t a w = record {
  opens = a.faults.0 ∙ w.opens;
  writes = λ id. ap (λ f. f id) a.faults.1 ∙ w.writes id;
  syncs = a.faults.2 ∙ w.syncs;
}

set_root_page_lem :
    (s : BTreePageDirectory) (new_root root next : ℕ)
    → IsSynced s
    → Works s
    → page_at s 0 ≡ some (file_header root next)
    → (t : BTreePageDirectory) × (set_root_page new_root s ≡ (ok tt, t))
      × IsSynced t
      × Works t
      × (t.root_page ≡ new_root)
      × ((j : ℕ)
          → page_at t j
            ≡ (if 0 == j then some (file_header new_root s.next_dir_page) else page_at s j))
unfolding set_root_page write_page
set_root_page_lem s new_root root next synced works header =
    let (t, runs, a) =
      read_page-Alike (record s { root_page = new_root }) 0 (file_header root next) header in
    let u : BTreePageDirectory = record t {
      cache = update t.cache 0 (some (file_header new_root t.next_dir_page));
      dirty = if mem 0 t.dirty then t.dirty else 0 ∷ t.dirty;
    } in
    let w : Works t =
      Alike-Works (record s { root_page = new_root }) t a
        (record { opens = works.opens; writes = works.writes; syncs = works.syncs }) in
    (
      u,
      rw runs refl,
      stored-IsSynced t 0 (file_header new_root t.next_dir_page)
          (Alike-IsSynced (record s { root_page = new_root }) t a synced),
      record { opens = w.opens; writes = w.writes; syncs = w.syncs },
      a.root,
      λ j. elim (Bool-cases (0 == j)) [
        | inl same ↦ rw same (ap (λ k. some (file_header new_root k)) a.next)
        | inr other ↦ rw other (a.pages j)
      ],
    )

-- In a directory whose pages that are not dirty are as on file, whose file does not fail, and whose
-- page 0 is seen as a header: a new root that is set, flushed and loaded again is the root, the next
-- page is the directory's, with 1 for 0, and every page but page 0 is on file as it was seen.
pub load_header-set_root_page :
    (s : BTreePageDirectory) (new_root root next : ℕ)
    → IsSynced s
    → Works s
    → page_at s 0 ≡ some (file_header root next)
    → (t u v : BTreePageDirectory) × (set_root_page new_root s ≡ (ok tt, t))
      × (flush_all_dirty t ≡ (ok tt, u))
      × (load_header u ≡ (ok tt, v))
      × (v.root_page ≡ new_root)
      × (v.next_dir_page ≡ counted s.next_dir_page)
      × ((j : ℕ) → (0 == j) ≡ false → v.file j ≡ page_at s j)
load_header-set_root_page s new_root root next synced works header =
    let (t, sets, t_synced, t_works, t_root, t_pages) =
      set_root_page_lem s new_root root next synced works header in
    let (u, v, flushes, loads, v_root, v_next, v_file) =
      load_header-flush t new_root s.next_dir_page t_synced t_works (t_pages 0) in
    (t, u, v, sets, flushes, loads, v_root, v_next, λ j apart. v_file j ∙ t_pages j ∙ rw apart refl)
