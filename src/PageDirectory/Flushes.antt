-- ===== src/PageDirectory/Flushes.antt =====
-- src/storage/directory/directory.rs: dirty pages written to the file, and the header read back.
use abdb.Base.{
  ℕ, ◌≡◌, refl, sym, ap, ◌∙◌, Bool, true, false, ◌||◌, Option, some, none, List, [], ◌∷◌,
  if◌then◌else◌, ◌==◌, Result, ok, err, arith, Bool-cases, true-false, if-cases, inl, inr,
}
use abdb.Stateful.{bind_step}
use abdb.PageDirectory.{
  BTreePageDirectory, Node, Error, io_error, update, mem, flush_page, flush_pages, finish_flush,
  flush_all_dirty,
}
use abdb.PageDirectory.Reads.{page_at, cached_or}

-- No call on the file fails.
pub record Works (s : BTreePageDirectory) : Type 0 where
  pub opens : s.open_fails ≡ false
  pub writes : (id : ℕ) → s.write_fails id ≡ false
  pub syncs : s.sync_fails ≡ false

-- A cached page that is not dirty is as it is on file.
abbrev pub IsSynced : BTreePageDirectory → Type 0
IsSynced s = (id : ℕ) → mem id s.dirty ≡ false → s.file id ≡ page_at s id

-- Writing some pages: those are on file as they are seen, and the others as they were.
record Written (s : BTreePageDirectory) (ids : List ℕ) (t : BTreePageDirectory) : Type 0 where
  pub cached : (j : ℕ) → t.cache j ≡ s.cache j
  pub filed : (j : ℕ) → t.file j ≡ (if mem j ids then page_at s j else s.file j)
  pub marks : t.dirty ≡ s.dirty
  pub outcome : Works s → Works t

-- The page is seen the same whether it is on file or cached only.
seen_anyway :
    (b : Bool) (c f : Option Node) → cached_or c (if b then cached_or c f else f) ≡ cached_or c f
seen_anyway true none f = refl
seen_anyway true (some n) f = refl
seen_anyway false c f = refl

Written-page_at :
    (s t : BTreePageDirectory) (ids : List ℕ)
    → Written s ids t
    → (j : ℕ) → page_at t j ≡ page_at s j
Written-page_at s t ids w j =
    ap (λ c. cached_or c (t.file j)) (w.cached j)
    ∙ ap (cached_or (s.cache j)) (w.filed j)
    ∙ seen_anyway (mem j ids) (s.cache j) (s.file j)

data Wrote (s : BTreePageDirectory) (ids : List ℕ)
    : Result Error (Unit {0}) × BTreePageDirectory → Type 0 where
  all_written : (t : BTreePageDirectory) → Written s ids t → Wrote s ids (ok tt, t)
  some_written :
      (e : Error) (t : BTreePageDirectory)
      → ((j : ℕ) → page_at t j ≡ page_at s j)
      → t.dirty ≡ s.dirty
      → (Works s → ⊥)
      → Wrote s ids (err e, t)

flush_page-Wrote : (s : BTreePageDirectory) (id : ℕ) → Wrote s (id ∷ []) (flush_page id s)
unfolding flush_page
flush_page-Wrote s id = by_cache (s.cache id) refl
  where
    by_cache : (c : Option Node) → s.cache id ≡ c → Wrote s (id ∷ []) (flush_page id s)
    by_cache none e =
        rw (e, flush_page)
          (all_written s (record {
            cached = λ j. refl;
            filed = λ j. elim (Bool-cases (id == j)) [
              | inl same ↦
                  let at : id ≡ j = ground arith in
                  let out : s.cache j ≡ none = ap s.cache (sym at) ∙ e in rw same (rw out refl)
              | inr other ↦ rw other refl
            ];
            marks = refl;
            outcome = λ w. w;
          }))
    by_cache (some n) e = elim (Bool-cases (s.write_fails id)) [
      | inl fails ↦
          rw (e, flush_page)
            (rw fails (
              some_written io_error s (λ j. refl) refl
                (λ w. elim (true-false (sym fails ∙ w.writes id)) [ ])))
      | inr works ↦
          rw (e, flush_page)
            (rw works (
              all_written (record s { file = update s.file id (some n) })
                (record {
                  cached = λ j. refl;
                  filed = λ j. elim (Bool-cases (id == j)) [
                    | inl same ↦
                        let at : id ≡ j = ground arith in
                        let there : s.cache j ≡ some n = ap s.cache (sym at) ∙ e in
                        rw same (rw there refl)
                    | inr other ↦ rw other refl
                  ];
                  marks = refl;
                  outcome = λ w. record { opens = w.opens; writes = w.writes; syncs = w.syncs };
                })))
    ]

Written-then :
    (s t u : BTreePageDirectory) (id : ℕ) (ids : List ℕ)
    → Written s (id ∷ []) t
    → Written t ids u
    → Written s (id ∷ ids) u
Written-then s t u id ids w x = record {
  cached = λ j. x.cached j ∙ w.cached j;
  filed = λ j.
      x.filed j ∙ choose (mem j ids) (id == j) j (Written-page_at s t (id ∷ []) w j) (w.filed j);
  marks = x.marks ∙ w.marks;
  outcome = λ ok_before. x.outcome (w.outcome ok_before);
}
  where
    choose :
        (later now : Bool) (j : ℕ)
        → page_at t j ≡ page_at s j
        → t.file j ≡ (if now || false then page_at s j else s.file j)
        → (if later then page_at t j else t.file j)
          ≡ (if now || later then page_at s j else s.file j)
    choose true true j same e = same
    choose true false j same e = same
    choose false true j same e = e
    choose false false j same e = e

Wrote-then :
    (s : BTreePageDirectory) (id : ℕ) (ids : List ℕ)
    (r : Result Error (Unit {0}) × BTreePageDirectory)
    → ((t : BTreePageDirectory) → Wrote t ids (flush_pages ids t))
    → Wrote s (id ∷ []) r
    → Wrote s (id ∷ ids) (bind_step r (λ _. flush_pages ids))
Wrote-then s id ids r rest (some_written e t same marks broken) = some_written e t same marks broken
Wrote-then s id ids r rest (all_written t w) = go (flush_pages ids t) (rest t)
  where
    go :
        (r' : Result Error (Unit {0}) × BTreePageDirectory) → Wrote t ids r' → Wrote s (id ∷ ids) r'
    go r' (all_written u x) = all_written u (Written-then s t u id ids w x)
    go r' (some_written e u same marks broken) =
        some_written e u (λ j. same j ∙ Written-page_at s t (id ∷ []) w j) (marks ∙ w.marks)
          (λ works. broken (w.outcome works))

flush_pages-Wrote : (ids : List ℕ) (s : BTreePageDirectory) → Wrote s ids (flush_pages ids s)
unfolding flush_pages
flush_pages-Wrote [] s =
    all_written s (record { cached = λ j. refl; filed = λ j. refl; marks = refl; outcome = λ w. w })
flush_pages-Wrote (id ∷ ids) s =
    Wrote-then s id ids (flush_page id s) (flush_pages-Wrote ids) (flush_page-Wrote s id)

-- A flush: no page looks different; if it succeeds every page is on file as it is seen, and none is
-- dirty; if it fails, which it does only where the file fails, the dirty pages are dirty still.
pub data OnFile (s : BTreePageDirectory)
    : Result Error (Unit {0}) × BTreePageDirectory → Type 0 where
  durable :
      (t : BTreePageDirectory)
      → ((j : ℕ) → page_at t j ≡ page_at s j)
      → ((j : ℕ) → t.file j ≡ page_at s j)
      → t.dirty ≡ []
      → OnFile s (ok tt, t)
  failed :
      (e : Error) (t : BTreePageDirectory)
      → ((j : ℕ) → page_at t j ≡ page_at s j)
      → t.dirty ≡ s.dirty
      → (Works s → ⊥)
      → OnFile s (err e, t)

finished :
    (s : BTreePageDirectory) (ids : List ℕ) (r : Result Error (Unit {0}) × BTreePageDirectory)
    → IsSynced s
    → s.dirty ≡ ids
    → Wrote s ids r
    → OnFile s (bind_step r (λ _. finish_flush))
unfolding finish_flush
finished s ids r synced d (some_written e t same marks broken) = failed e t same marks broken
finished s ids r synced d (all_written t w) =
    if-cases (OnFile s) t.sync_fails (err io_error, t) (ok tt, record t { dirty = [] })
      (λ fails.
        failed io_error t (Written-page_at s t ids w) w.marks
          (λ works. true-false (sym fails ∙ (w.outcome works).syncs)))
      (λ _.
        durable (record t { dirty = [] }) (Written-page_at s t ids w) (λ j. w.filed j ∙ chosen j)
          refl)
  where
    chosen : (j : ℕ) → (if mem j ids then page_at s j else s.file j) ≡ page_at s j
    chosen j = elim (Bool-cases (mem j ids)) [
      | inl listed ↦ rw listed refl
      | inr unlisted ↦ rw unlisted (synced j (ap (mem j) d ∙ unlisted))
    ]

flush_dirty :
    (s : BTreePageDirectory) (id : ℕ) (ids : List ℕ)
    → s.dirty ≡ id ∷ ids
    → flush_all_dirty s ≡ (
        if s.open_fails
        then (err io_error, s)
        else bind_step (flush_pages (id ∷ ids) s) (λ _. finish_flush))
unfolding flush_all_dirty
flush_dirty s id ids d = simp (d, flush_all_dirty)

-- In a directory whose pages that are not dirty are as on file, `flush_all_dirty` succeeds or fails,
-- and no page looks different. Where it succeeds every page is on file as it is seen, and none is
-- dirty; where it fails some call on the file fails, and the dirty pages are dirty still.
pub flush_all_dirty-OnFile : (s : BTreePageDirectory) → IsSynced s → OnFile s (flush_all_dirty s)
unfolding flush_all_dirty
flush_all_dirty-OnFile s synced = by_dirty s.dirty refl
  where
    by_dirty : (ids : List ℕ) → s.dirty ≡ ids → OnFile s (flush_all_dirty s)
    by_dirty [] d = rw (d, flush_all_dirty) (durable s (λ j. refl) (λ j. synced j (ap (mem j) d)) d)
    by_dirty (id ∷ ids) d = rw (flush_dirty s id ids d) (
        if-cases (OnFile s) s.open_fails (err io_error, s)
          (bind_step (flush_pages (id ∷ ids) s) (λ _. finish_flush))
          (λ fails.
            failed io_error s (λ j. refl) refl (λ works. true-false (sym fails ∙ works.opens)))
          (λ _.
            finished s (id ∷ ids) (flush_pages (id ∷ ids) s) synced d
              (flush_pages-Wrote (id ∷ ids) s)))
