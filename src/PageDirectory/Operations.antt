-- ===== src/PageDirectory/Operations.antt =====
-- src/storage/directory/directory.rs: the operations on ids whose leaf has no need to split.
use abdb.Base.{
  ℕ, ◌<◌, ◌≡◌, ◌≢◌, ◌^◌, refl, ap, ◌∙◌, Bool, true, false, Option, some, none, [], if◌then◌else◌,
  ◌==◌, leb, ok, arith,
}
use abdb.Common.{PPageId}
use abdb.Directory.Leaf
use abdb.Directory.Leaf.{DirectoryLeafPage, num_entries, max_entries}
use abdb.Directory.Leaf.Places.{
  IsValid, places, place, is_some, lookup-places, insert_entry-lookup, update_entry-lookup,
  delete_by_key-lookup,
}
use abdb.PageDirectory.{BTreePageDirectory, M, leaf, read_root, corruption}
use abdb.PageDirectory.Tree.{find_leaf_with_path}
use abdb.PageDirectory.Entries.{
  lookup, add_page, add_simple, change_entry, update_page, delete_page,
}
use abdb.PageDirectory.Reads.{
  Alike-trans, read_page-Alike, Descent-page, find_path_from-Descent, find_leaf-Reaches, Reaches,
  answer,
}
use abdb.PageDirectory.Changes.{Stored, write_page-Stored, lookup-Stored}

-- Every id with a path to a valid leaf is looked up with the same answer as before, but for one id,
-- whose place is given.
abbrev pub Looks : BTreePageDirectory → BTreePageDirectory → ℕ → ℕ → Option PPageId → Type 0
Looks s u fuel id held =
    (j leaf_id : ℕ) (p : DirectoryLeafPage)
    → Reaches s fuel j leaf_id p
    → (lookup fuel j u).0 ≡ (if id == j then answer id held else (lookup fuel j s).0)

change_entry-Stored :
    (s : BTreePageDirectory) (fuel id leaf_id : ℕ) (p q : DirectoryLeafPage)
    (change : DirectoryLeafPage → M (DirectoryLeafPage × Bool))
    → Reaches s fuel id leaf_id p
    → ((t : BTreePageDirectory) → change p t ≡ (ok (q, true), t))
    → (u : BTreePageDirectory) × (change_entry fuel id change s ≡ (ok tt, u)) × Stored s leaf_id q u
unfolding change_entry read_root
change_entry-Stored s fuel id leaf_id p q change r changes =
    let nonempty : (s.root_page == 0) ≡ false = ground (arith, r.rooted) in
    let (t, found, a) = find_leaf-Reaches s fuel id leaf_id p r in
    let (v, runs, b) =
      read_page-Alike t leaf_id (leaf p) (a.pages leaf_id ∙ Descent-page r.descent) in
    let (u, writes, w) = write_page-Stored s v leaf_id q (Alike-trans a b) in
    (u, rw nonempty (rw found (rw runs (rw (changes v) writes))), w)

-- Where an id has a path of valid inner pages from the root to a valid leaf that holds a place for
-- it, and the fuel exceeds the inner pages on it, `update_page` to the place of a page whose number
-- has 32 bits succeeds; then `lookup` answers that place for the id, and for every other id with
-- such a path what it answered before.
pub update_page-Looks :
    (s : BTreePageDirectory) (fuel id file n leaf_id : ℕ) (p : DirectoryLeafPage)
    → Reaches s fuel id leaf_id p
    → n < 2 ^ 32
    → places p id ≢ none
    → (u : BTreePageDirectory) × (update_page fuel id (place file n) s ≡ (ok tt, u))
      × Looks s u fuel id (some (place file n))
unfolding update_page
update_page-Looks s fuel id file n leaf_id p r small there =
    let (q, runs, valid, looks) = update_entry-lookup p id file n r.valid small there in
    let (u, done, w) =
      change_entry-Stored s fuel id leaf_id p q
        (λ page. corruption (Leaf.update_entry page id (place file n))) r (λ t. rw runs refl) in
    (
      u,
      done,
      λ j leaf_id' p' r'.
          lookup-Stored s u fuel id j leaf_id leaf_id' p q p' (some (place file n)) r r' valid looks
            w,
    )

-- Where an id has a path of valid inner pages from the root to a valid leaf that holds a place for
-- it, and the fuel exceeds the inner pages on it, `delete_page` succeeds; then `lookup` does not
-- find the id, and answers for every other id with such a path what it answered before.
pub delete_page-Looks :
    (s : BTreePageDirectory) (fuel id leaf_id : ℕ) (p : DirectoryLeafPage)
    → Reaches s fuel id leaf_id p
    → places p id ≢ none
    → (u : BTreePageDirectory) × (delete_page fuel id s ≡ (ok tt, u)) × Looks s u fuel id none
unfolding delete_page
delete_page-Looks s fuel id leaf_id p r there =
    let (q, runs, valid, looks) = delete_by_key-lookup p id r.valid in
    let held : is_some (places p id) ≡ true = was_some (places p id) there in
    let (u, done, w) =
      change_entry-Stored s fuel id leaf_id p q (λ page. corruption (Leaf.delete_by_key page id)) r
        (λ t. rw runs (rw held refl)) in
    (
      u,
      done,
      λ j leaf_id' p' r'.
          lookup-Stored s u fuel id j leaf_id leaf_id' p q p' none r r' valid looks w,
    )
  where
    was_some : (o : Option PPageId) → o ≢ none → is_some o ≡ true
    was_some none h = absurd (h refl)
    was_some (some x) h = refl

-- Where an id has a path of valid inner pages from the root to a valid leaf other than page 0 that
-- has room and no place for it, and the fuel exceeds the inner pages on it, `add_page` at the place
-- of a page whose number has 32 bits succeeds; then `lookup` answers that place for the id, and for
-- every other id with such a path what it answered before.
pub add_page-Looks :
    (s : BTreePageDirectory) (fuel id file n leaf_id : ℕ) (p : DirectoryLeafPage)
    → Reaches s fuel id leaf_id p
    → leaf_id ≢ 0
    → n < 2 ^ 32
    → num_entries p < max_entries
    → places p id ≡ none
    → (u : BTreePageDirectory) × (add_page fuel id (place file n) s ≡ (ok tt, u))
      × Looks s u fuel id (some (place file n))
unfolding add_page add_simple read_root find_leaf_with_path
add_page-Looks s fuel id file n leaf_id p r placed small room absent =
    let nonempty : (s.root_page == 0) ≡ false = ground (arith, r.rooted) in
    let there : (leaf_id == 0) ≡ false = ground (arith, placed) in
    let no_split : leb max_entries (num_entries p) ≡ false = ground arith in
    let (q, inserts, valid, looks) =
      insert_entry-lookup p id file n r.valid small room
        (lookup-places p id r.valid ∙ ap Leaf.Places.answer absent) in
    let (t, found, a) = find_path_from-Descent fuel s [] r.descent r.fuelled in
    let (v, runs, b) =
      read_page-Alike t leaf_id (leaf p) (a.pages leaf_id ∙ Descent-page r.descent) in
    let (u, writes, w) = write_page-Stored s v leaf_id q (Alike-trans a b) in
    (
      u,
      rw nonempty (rw nonempty (rw found (rw there (rw runs (rw no_split (rw inserts writes)))))),
      λ j leaf_id' p' r'.
          lookup-Stored s u fuel id j leaf_id leaf_id' p q p' (some (place file n)) r r' valid looks
            w,
    )
