-- ===== src/PageDirectory/Changes.antt =====
-- src/storage/directory/directory.rs: what `add_page`, `update_page` and `delete_page` do to what
-- `lookup` answers.
use abdb.Base.{
  ℕ, ◌≡◌, refl, sym, ap, ◌∙◌, Bool, true, false, Option, some, List, ◌∷◌, if◌then◌else◌, ◌==◌, ok,
  arith, Bool-cases, inl, inr,
}
use abdb.Common.{PPageId}
use abdb.Directory.Leaf
use abdb.Directory.Leaf.{DirectoryLeafPage, num_entries, max_entries}
use abdb.Directory.Leaf.Places.{
  IsValid, places, place, is_some, lookup-places, insert_entry-lookup, update_entry-lookup,
  delete_by_key-lookup,
}
use abdb.PageDirectory.{BTreePageDirectory, Node, leaf, write_page, update, mem}
use abdb.PageDirectory.Entries.{lookup}
use abdb.PageDirectory.Reads.{
  page_at, Alike, Descent, here, down, Descent-page, Descent-leaf, Reaches, answer,
  lookup-places_of,
}

-- One leaf has another page, dirty, and nothing else looks different.
pub record Stored (s : BTreePageDirectory) (leaf_id : ℕ) (q : DirectoryLeafPage)
    (t : BTreePageDirectory) : Type 0 where
  pub pages : (j : ℕ) → page_at t j ≡ (if leaf_id == j then some (leaf q) else page_at s j)
  pub root : t.root_page ≡ s.root_page
  pub next : t.next_dir_page ≡ s.next_dir_page
  pub marked : mem leaf_id t.dirty ≡ true

pub write_page-Stored :
    (s t : BTreePageDirectory) (leaf_id : ℕ) (q : DirectoryLeafPage)
    → Alike s t
    → (u : BTreePageDirectory) × (write_page leaf_id (leaf q) t ≡ (ok tt, u)) × Stored s leaf_id q u
unfolding write_page
write_page-Stored s t leaf_id q a = (
  record t {
    cache = update t.cache leaf_id (some (leaf q));
    dirty = if mem leaf_id t.dirty then t.dirty else leaf_id ∷ t.dirty;
  },
  refl,
  record {
    pages = λ j. elim (Bool-cases (leaf_id == j)) [
      | inl same ↦ rw same refl
      | inr other ↦ rw other (a.pages j)
    ];
    root = a.root;
    next = a.next;
    marked = ground arith;
  },
)

-- A path of a key in the changed directory.
abbrev replaced : ℕ → DirectoryLeafPage → ℕ → DirectoryLeafPage → DirectoryLeafPage
replaced leaf_id q leaf_id' p' = if leaf_id == leaf_id' then q else p'

Descent-replaced :
    {f g : ℕ → Option Node} (leaf_id : ℕ) (p q : DirectoryLeafPage) {j id leaf_id' : ℕ}
    {p' : DirectoryLeafPage} {path : List ℕ}
    → f leaf_id ≡ some (leaf p)
    → ((k : ℕ) → g k ≡ (if leaf_id == k then some (leaf q) else f k))
    → Descent f j id leaf_id' p' path
    → Descent g j id leaf_id' (replaced leaf_id q leaf_id' p') path
Descent-replaced leaf_id p q {id = id} at same (here at') = here (same id ∙ ground (arith, at'))
Descent-replaced leaf_id p q {id = id} at same (down r at' v d) =
    down r (same id ∙ ground (arith, at, at')) v (Descent-replaced leaf_id p q at same d)

-- Keys of two leaves differ.
other_key :
    (f : ℕ → Option Node) (key j id : ℕ) {leaf_id leaf_id' : ℕ} {p p' : DirectoryLeafPage}
    {path path' : List ℕ}
    → Descent f key id leaf_id p path
    → Descent f j id leaf_id' p' path'
    → (leaf_id == leaf_id') ≡ false
    → (key == j) ≡ false
other_key f key j id {leaf_id} {leaf_id'} d d' elsewhere = elim (Bool-cases (key == j)) [
  | inr differ ↦ differ
  | inl e ↦
      let same : key ≡ j = ground arith in
      let ids : leaf_id ≡ leaf_id' = Descent-leaf (rw same at d) d' in ground arith
]

Reaches-Stored :
    (s u : BTreePageDirectory) (fuel j leaf_id leaf_id' : ℕ) (p q p' : DirectoryLeafPage)
    → page_at s leaf_id ≡ some (leaf p)
    → Stored s leaf_id q u
    → IsValid (replaced leaf_id q leaf_id' p')
    → Reaches s fuel j leaf_id' p'
    → Reaches u fuel j leaf_id' (replaced leaf_id q leaf_id' p')
Reaches-Stored s u fuel j leaf_id leaf_id' p q p' at w valid r = record {
  rooted = λ e. r.rooted (sym w.root ∙ e);
  path = r.path;
  descent = rw w.root (Descent-replaced leaf_id p q at w.pages r.descent);
  fuelled = r.fuelled;
  valid = valid;
}

ok_injective : {x y : Option PPageId} → Leaf.Places.answer x ≡ Leaf.Places.answer y → x ≡ y
ok_injective h = cc

places-if :
    (b : Bool) (held : Option PPageId) (p q : DirectoryLeafPage) (j : ℕ)
    → IsValid p
    → IsValid q
    → Leaf.lookup q j ≡ (if b then ok held else Leaf.lookup p j)
    → places q j ≡ (if b then held else places p j)
places-if true held p q j v w h = ok_injective (sym (lookup-places q j w) ∙ h)
places-if false held p q j v w h =
    ok_injective (sym (lookup-places q j w) ∙ h ∙ lookup-places p j v)

answer-if :
    (id j : ℕ) (held before : Option PPageId)
    → answer j (if id == j then held else before)
      ≡ (if id == j then answer id held else answer j before)
answer-if id j held before = elim (Bool-cases (id == j)) [
  | inl same ↦ let at : id ≡ j = ground arith in rw same (ap (λ k. answer k held) (sym at))
  | inr other ↦ rw other refl
]

-- What a change of one leaf's entry for an id does to what `lookup` answers for any id.
pub lookup-Stored :
    (s u : BTreePageDirectory) (fuel id j leaf_id leaf_id' : ℕ) (p q p' : DirectoryLeafPage)
    (held : Option PPageId)
    → Reaches s fuel id leaf_id p
    → Reaches s fuel j leaf_id' p'
    → IsValid q
    → ((k : ℕ) → Leaf.lookup q k ≡ (if id == k then ok held else Leaf.lookup p k))
    → Stored s leaf_id q u
    → (lookup fuel j u).0 ≡ (if id == j then answer id held else (lookup fuel j s).0)
lookup-Stored s u fuel id j leaf_id leaf_id' p q p' held r r' valid looks w =
    let at : page_at s leaf_id ≡ some (leaf p) = Descent-page r.descent in
    let (t, before, _) = lookup-places_of s fuel j leaf_id' p' r' in
    elim (Bool-cases (leaf_id == leaf_id')) [
      | inl same ↦
          let ids : leaf_id ≡ leaf_id' = ground arith in
          let at' : page_at s leaf_id ≡ some (leaf p') =
            ap (page_at s) ids ∙ Descent-page r'.descent in
          let one : p ≡ p' = cc in
          let here_too : replaced leaf_id q leaf_id' p' ≡ q = rw same refl in
          let (v, after, _) =
            lookup-places_of u fuel j leaf_id' (replaced leaf_id q leaf_id' p')
              (Reaches-Stored s u fuel j leaf_id leaf_id' p q p' at w (rw same valid) r') in
          rw after (
            rw before (
              ap (λ x. answer j (places x j)) here_too
              ∙ ap (answer j) (places-if (id == j) held p q j r.valid valid (looks j))
              ∙ answer-if id j held (places p j)
              ∙ ap (λ x. if id == j then answer id held else answer j (places x j)) one))
      | inr elsewhere ↦
          let stays : replaced leaf_id q leaf_id' p' ≡ p' = rw elsewhere refl in
          let differ : (id == j) ≡ false =
            other_key (page_at s) id j s.root_page r.descent r'.descent elsewhere in
          let (v, after, _) =
            lookup-places_of u fuel j leaf_id' (replaced leaf_id q leaf_id' p')
              (Reaches-Stored s u fuel j leaf_id leaf_id' p q p' at w (rw elsewhere r'.valid) r') in
          rw after (rw before (rw differ (ap (λ x. answer j (places x j)) stays)))
    ]
