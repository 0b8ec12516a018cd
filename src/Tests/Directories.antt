-- ===== src/Tests/Directories.antt =====
-- The theorems on the page directory, at concrete inputs.
use abdb.Base.{
  ℕ, ◌≡◌, ◌≢◌, refl, false, Option, some, none, [], ◌∷◌, if◌then◌else◌, ◌==◌, arith, ok,
}
use abdb.Common.{PPageId}
use abdb.Slots.{assoc}
use abdb.Directory.Leaf
use abdb.Directory.Leaf.{num_entries, max_entries}
use abdb.Directory.Leaf.Places.{place, places}
use abdb.PageDirectory.{
  BTreePageDirectory, leaf, file_header, flush_all_dirty, set_root_page, load_header,
}
use abdb.PageDirectory.Entries.{lookup, add_page, update_page, delete_page}
use abdb.PageDirectory.Reads.{Reaches, here, Alike, answer, page_at, lookup-places_of}
use abdb.PageDirectory.Operations.{Looks, add_page-Looks, update_page-Looks, delete_page-Looks}
use abdb.PageDirectory.Flushes.{Works, IsSynced, OnFile, flush_all_dirty-OnFile}
use abdb.PageDirectory.Reopen.{load_header-flush, load_header-set_root_page}
use abdb.Tests.DirectoryPages.{page, page-IsValid}

-- A directory whose root is a leaf with the even ids below 40, nothing cached.
abbrev directory : BTreePageDirectory
directory = record {
  file =
      λ id. if id == 0 then some (file_header 1 2) else if id == 1 then some (leaf page) else none;
  open_fails = false;
  write_fails = λ id. false;
  sync_fails = false;
  cache = λ id. none;
  dirty = [];
  next_dir_page = 2;
  root_page = 1;
}

reaches : (id : ℕ) → Reaches directory 1 id 1 page
reaches id = record {
  rooted = omega arith;
  path = [];
  descent = here refl;
  fuelled = omega arith;
  valid = page-IsValid;
}

eight : places page 8 ≡ some (place 4 4)
unfolding assoc Leaf.to_ppage_id
eight = refl

directory-IsSynced : IsSynced directory
directory-IsSynced id out = refl

directory-Works : Works directory
directory-Works = record { opens = refl; writes = λ id. refl; syncs = refl }

lookup-places_of_example :
    (t : BTreePageDirectory) × (lookup 1 8 directory ≡ (answer 8 (places page 8), t))
    × Alike directory t
lookup-places_of_example = lookup-places_of directory 1 8 1 page (reaches 8)

some_is_held : (o : Option PPageId) (x : PPageId) → o ≡ some x → o ≢ none
some_is_held o x e = λ h. cc

update_page-Looks_example :
    (u : BTreePageDirectory) × (update_page 1 8 (place 4 300) directory ≡ (ok tt, u))
    × Looks directory u 1 8 (some (place 4 300))
update_page-Looks_example =
    update_page-Looks directory 1 8 4 300 1 page (reaches 8) (omega arith)
      (some_is_held (places page 8) (place 4 4) eight)

delete_page-Looks_example :
    (u : BTreePageDirectory) × (delete_page 1 8 directory ≡ (ok tt, u)) × Looks directory u 1 8 none
delete_page-Looks_example =
    delete_page-Looks directory 1 8 1 page (reaches 8)
      (some_is_held (places page 8) (place 4 4) eight)

add_page-Looks_example :
    (u : BTreePageDirectory) × (add_page 1 7 (place 4 300) directory ≡ (ok tt, u))
    × Looks directory u 1 7 (some (place 4 300))
unfolding assoc
add_page-Looks_example =
    add_page-Looks directory 1 7 4 300 1 page (reaches 7) (omega arith) (omega arith) (omega arith)
      refl

-- The directory with a dirty page 1 that is not on file.
abbrev edited : BTreePageDirectory
edited = record directory {
  file = λ id. if id == 0 then some (file_header 1 2) else none;
  cache = λ id. if id == 1 then some (leaf page) else none;
  dirty = 1 ∷ [];
}

edited-IsSynced : IsSynced edited
edited-IsSynced id out = ground arith

edited-Works : Works edited
edited-Works = record { opens = refl; writes = λ id. refl; syncs = refl }

flush_all_dirty-OnFile_example : OnFile edited (flush_all_dirty edited)
flush_all_dirty-OnFile_example = flush_all_dirty-OnFile edited edited-IsSynced

load_header-flush_example :
    (t u : BTreePageDirectory) × (flush_all_dirty edited ≡ (ok tt, t))
    × (load_header t ≡ (ok tt, u))
    × (u.root_page ≡ 1)
    × (u.next_dir_page ≡ 2)
    × ((j : ℕ) → u.file j ≡ page_at edited j)
load_header-flush_example = load_header-flush edited 1 2 edited-IsSynced edited-Works refl

load_header-set_root_page_example :
    (t u v : BTreePageDirectory) × (set_root_page 6 edited ≡ (ok tt, t))
    × (flush_all_dirty t ≡ (ok tt, u))
    × (load_header u ≡ (ok tt, v))
    × (v.root_page ≡ 6)
    × (v.next_dir_page ≡ 2)
    × ((j : ℕ) → (0 == j) ≡ false → v.file j ≡ page_at edited j)
load_header-set_root_page_example =
    load_header-set_root_page edited 6 1 2 edited-IsSynced edited-Works refl
