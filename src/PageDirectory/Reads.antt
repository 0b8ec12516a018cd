-- ===== src/PageDirectory/Reads.antt =====
-- src/storage/directory/directory.rs: reads through the cache, the paths of keys, and `lookup`.
use abdb.Base.{
  ℕ, zero, suc, ◌<◌, ◌≡◌, ◌≢◌, refl, sym, ap, ◌∙◌, false, Option, some, none, List, [], ◌∷◌, ◌++◌,
  ◌==◌, Result, ok, err, arith, Bool-cases, inl, inr,
}
use mathlib.Core.List.{append_assoc, append-nil}
use abdb.Common.{PPageId}
use abdb.Directory.Leaf
use abdb.Directory.Leaf.{DirectoryLeafPage}
use abdb.Directory.Leaf.Places.{places, lookup-places}
use abdb.Directory.Leaf.Places
use abdb.Directory.Inner.{DirectoryInnerPage}
use abdb.Directory.Inner.Routing.{IsValid, child_for, find_child_lem}
use abdb.PageDirectory.{
  BTreePageDirectory, Node, Error, leaf, inner, read_page, read_root, update, page_not_found,
}
use abdb.PageDirectory.Tree.{find_leaf, find_leaf_from, find_path_from}
use abdb.PageDirectory.Entries.{lookup, ok_or_missing}

abbrev pub cached_or : Option Node → Option Node → Option Node
cached_or (some n) on_file = some n
cached_or none on_file = on_file

-- A page as it is seen: cached, or else on file.
abbrev pub page_at : BTreePageDirectory → ℕ → Option Node
page_at s id = cached_or (s.cache id) (s.file id)

-- The two differ in what is cached at most.
pub record Alike (s t : BTreePageDirectory) : Type 0 where
  pub pages : (id : ℕ) → page_at t id ≡ page_at s id
  pub root : t.root_page ≡ s.root_page
  pub next : t.next_dir_page ≡ s.next_dir_page
  pub marks : t.dirty ≡ s.dirty
  pub filed : t.file ≡ s.file
  pub faults :
      (t.open_fails ≡ s.open_fails)
      × (t.write_fails ≡ s.write_fails)
      × (t.sync_fails ≡ s.sync_fails)

pub Alike-refl : (s : BTreePageDirectory) → Alike s s
Alike-refl s = record {
  pages = λ id. refl;
  root = refl;
  next = refl;
  marks = refl;
  filed = refl;
  faults = (refl, refl, refl);
}

pub Alike-trans : {s t u : BTreePageDirectory} → Alike s t → Alike t u → Alike s u
Alike-trans a b = record {
  pages = λ id. b.pages id ∙ a.pages id;
  root = b.root ∙ a.root;
  next = b.next ∙ a.next;
  marks = b.marks ∙ a.marks;
  filed = b.filed ∙ a.filed;
  faults = (b.faults.0 ∙ a.faults.0, b.faults.1 ∙ a.faults.1, b.faults.2 ∙ a.faults.2);
}

-- A page that is seen is read, and nothing but the cache changes.
pub read_page-Alike :
    (s : BTreePageDirectory) (id : ℕ) (n : Node)
    → page_at s id ≡ some n
    → (t : BTreePageDirectory) × (read_page id s ≡ (ok n, t)) × Alike s t
unfolding read_page
read_page-Alike s id n h = by_cache (s.cache id) refl h
  where
    fills :
        s.cache id ≡ none
        → s.file id ≡ some n
        → Alike s (record s { cache = update s.cache id (some n) })
    fills out there = record {
      pages = λ j. elim (Bool-cases (id == j)) [
        | inl same ↦ let at : id ≡ j = ground arith in rw same (rw (sym at) (rw out (sym there)))
        | inr other ↦ rw other refl
      ];
      root = refl;
      next = refl;
      marks = refl;
      filed = refl;
      faults = (refl, refl, refl);
    }

    by_cache :
        (c : Option Node)
        → s.cache id ≡ c
        → cached_or c (s.file id) ≡ some n
        → (t : BTreePageDirectory) × (read_page id s ≡ (ok n, t)) × Alike s t
    by_cache (some m) e g = (s, rw (e, read_page) (ground arith), Alike-refl s)
    by_cache none e g =
        (record s { cache = update s.cache id (some n) }, rw (e, read_page) (rw g refl), fills e g)

-- The key's path from a page to a leaf, with its inner pages.
pub data Descent (pages : ℕ → Option Node) (key : ℕ)
    : ℕ → ℕ → DirectoryLeafPage → List ℕ → Type 0 where
  here : {id : ℕ} {p : DirectoryLeafPage} → pages id ≡ some (leaf p) → Descent pages key id id p []
  down :
      {id leaf_id : ℕ} {p : DirectoryLeafPage} {path : List ℕ} (q : DirectoryInnerPage)
      → pages id ≡ some (inner q)
      → IsValid q
      → Descent pages key (child_for q key) leaf_id p path
      → Descent pages key id leaf_id p (id ∷ path)

abbrev pub depth : List ℕ → ℕ
depth [] = 0
depth (id ∷ path) = suc (depth path)

pub Descent-same :
    {f g : ℕ → Option Node} {key id leaf_id : ℕ} {p : DirectoryLeafPage} {path : List ℕ}
    → ((j : ℕ) → g j ≡ f j)
    → Descent f key id leaf_id p path
    → Descent g key id leaf_id p path
Descent-same {id = id} same (here at) = here (same id ∙ at)
Descent-same {id = id} same (down q at v d) = down q (same id ∙ at) v (Descent-same same d)

pub Descent-page :
    {f : ℕ → Option Node} {key id leaf_id : ℕ} {p : DirectoryLeafPage} {path : List ℕ}
    → Descent f key id leaf_id p path
    → f leaf_id ≡ some (leaf p)
Descent-page (here at) = at
Descent-page (down q at v d) = Descent-page d

-- A key has one leaf.
pub Descent-leaf :
    {f : ℕ → Option Node} {key id leaf_id leaf_id' : ℕ} {p p' : DirectoryLeafPage}
    {path path' : List ℕ}
    → Descent f key id leaf_id p path
    → Descent f key id leaf_id' p' path'
    → leaf_id ≡ leaf_id'
Descent-leaf (here at) (here at') = refl
Descent-leaf (here at) (down q at' v d) = cc
Descent-leaf (down q at v d) (here at') = cc
Descent-leaf {key = key} (down q at v d) (down r at' w d') =
    let one : q ≡ r = cc in Descent-leaf (rw (ap (λ x. child_for x key) one) at d) d'

pub find_leaf_from-Descent :
    (fuel : ℕ) (s : BTreePageDirectory) {key id leaf_id : ℕ} {p : DirectoryLeafPage} {path : List ℕ}
    → Descent (page_at s) key id leaf_id p path
    → depth path < fuel
    → (t : BTreePageDirectory) × (find_leaf_from fuel id key s ≡ (ok leaf_id, t)) × Alike s t
unfolding find_leaf_from
find_leaf_from-Descent zero s d h = absurd (omega arith)
find_leaf_from-Descent (suc fuel) s {id = id} (here {p = p} at) h =
    let (t, runs, a) = read_page-Alike s id (leaf p) at in (t, rw runs refl, a)
find_leaf_from-Descent (suc fuel) s {key} {id} (down q at v d) h =
    let (t, runs, a) = read_page-Alike s id (inner q) at in
    let (u, rest, b) = find_leaf_from-Descent fuel t (Descent-same a.pages d) (omega arith) in
    (u, rw runs (rw (find_child_lem q key v) rest), Alike-trans a b)

pub find_path_from-Descent :
    (fuel : ℕ) (s : BTreePageDirectory) {key id leaf_id : ℕ} {p : DirectoryLeafPage} {path : List ℕ}
    (before : List ℕ)
    → Descent (page_at s) key id leaf_id p path
    → depth path < fuel
    → (t : BTreePageDirectory) × (find_path_from fuel id key before s
        ≡ (ok (leaf_id, before ++ path), t))
      × Alike s t
unfolding find_path_from
find_path_from-Descent zero s before d h = absurd (omega arith)
find_path_from-Descent (suc fuel) s {id = id} before (here {p = p} at) h =
    let (t, runs, a) = read_page-Alike s id (leaf p) at in (t, rw (runs, append-nil before) refl, a)
find_path_from-Descent (suc fuel) s {key} {id} before (down {path = path} q at v d) h =
    let (t, runs, a) = read_page-Alike s id (inner q) at in
    let (u, rest, b) =
      find_path_from-Descent fuel t (before ++ id ∷ []) (Descent-same a.pages d) (omega arith) in
    (
      u,
      rw runs (rw (find_child_lem q key v) (rest ∙ rw (append_assoc before (id ∷ []) path) refl)),
      Alike-trans a b,
    )

-- What `lookup` gives for an id that a leaf holds a place for, or not.
abbrev pub answer : ℕ → Option PPageId → Result Error PPageId
answer id (some place) = ok place
answer id none = err (page_not_found id)

-- A root and a path of valid inner pages from it to a valid leaf, shorter than the fuel.
pub record Reaches (s : BTreePageDirectory) (fuel key leaf_id : ℕ) (p : DirectoryLeafPage)
    : Type 0 where
  pub rooted : s.root_page ≢ 0
  pub path : List ℕ
  pub descent : Descent (page_at s) key s.root_page leaf_id p path
  pub fuelled : depth path < fuel
  pub valid : Leaf.Places.IsValid p

pub find_leaf-Reaches :
    (s : BTreePageDirectory) (fuel key leaf_id : ℕ) (p : DirectoryLeafPage)
    → Reaches s fuel key leaf_id p
    → (t : BTreePageDirectory) × (find_leaf fuel key s ≡ (ok leaf_id, t)) × Alike s t
unfolding find_leaf read_root
find_leaf-Reaches s fuel key leaf_id p r =
    let nonempty : (s.root_page == 0) ≡ false = ground (arith, r.rooted) in
    let (t, runs, a) = find_leaf_from-Descent fuel s r.descent r.fuelled in (t, rw nonempty runs, a)

-- Where an id has a path of valid inner pages from the root to a valid leaf and the fuel exceeds the
-- inner pages on it, `lookup` answers the place that the leaf holds for the id, or that there is
-- none; of the directory nothing but the cache changes, and no page looks different.
pub lookup-places_of :
    (s : BTreePageDirectory) (fuel id leaf_id : ℕ) (p : DirectoryLeafPage)
    → Reaches s fuel id leaf_id p
    → (t : BTreePageDirectory) × (lookup fuel id s ≡ (answer id (places p id), t)) × Alike s t
unfolding lookup read_root
lookup-places_of s fuel id leaf_id p r =
    let nonempty : (s.root_page == 0) ≡ false = ground (arith, r.rooted) in
    let (t, found, a) = find_leaf-Reaches s fuel id leaf_id p r in
    let (u, runs, b) =
      read_page-Alike t leaf_id (leaf p) (a.pages leaf_id ∙ Descent-page r.descent) in
    (
      u,
      rw nonempty (rw found (rw runs (rw (lookup-places p id r.valid) (said (places p id) u)))),
      Alike-trans a b,
    )
  where
    said : (o : Option PPageId) (u : BTreePageDirectory) → ok_or_missing id o u ≡ (answer id o, u)
    said none u = refl
    said (some place) u = refl
