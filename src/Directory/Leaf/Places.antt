-- ===== src/Directory/Leaf/Places.antt =====
-- src/page/overlays/directory/leaf.rs: a leaf page as a finite map from logical page ids to places in
-- files, and what each operation does to what `lookup` answers.
use abdb.Base.{
  ℕ, suc, ◌-◌, ◌*◌, ◌/◌, ◌%◌, ◌^◌, ◌<◌, ◌≡◌, ◌≢◌, inl, inr, refl, sym, ap, ◌∙◌, Bool, true, false,
  Option, none, some, List, get_elem?-some, set, take, length-replicate, if◌then◌else◌, leb, ltb,
  ◌==◌, Result, ok, arith, Bool-cases,
}
use mathlib.Core.Option
use abdb.Common.{PPageId, page_buf_size}
use abdb.Slots.{
  OverlayError, page_full, duplicate_key, index_out_of_bounds, entry_at, assoc, key_at, search,
  insert_sorted, remove_at, incr16,
}
use abdb.Slots
use abdb.Slots.Ops.{
  hit, miss, search-Searched, insert_sorted-Placed, Placed-assoc, remove_at_lem, set_lem,
}
use abdb.Directory.Leaf.{
  DirectoryLeafPage, DirectoryLeafEntry, key_of, new_entry, from_ppage_id, to_ppage_id, num_entries,
  max_entries, init, entry, find_slot, lookup, insert_entry, delete_entry, delete_by_key,
  update_entry, set_entry, set_num_entries,
}

-- The page's count is within its array, and its live entries are sorted by key.
abbrev pub IsValid : DirectoryLeafPage → Type 0
IsValid p = Slots.IsValid key_of max_entries p.slots (num_entries p)

abbrev live : DirectoryLeafPage → List DirectoryLeafEntry
live p = take (num_entries p) p.slots

-- The place that the page holds for a logical page id.
abbrev pub places : DirectoryLeafPage → ℕ → Option PPageId
places p k = Option.map to_ppage_id (assoc key_of k (live p))

-- The place of a page in a file, by its number.
abbrev pub place : ℕ → ℕ → PPageId
place file page_number = record { file = file; offset = page_number * page_buf_size }

pub init-IsValid : (page_id : ℕ) → IsValid (init page_id)
unfolding init
init-IsValid page_id = record {
  whole = length-replicate max_entries (new_entry 0 0 0);
  within = omega arith;
  small = omega arith;
  sorted = λ i j h p. elim p [ ];
}

-- A place of 32 bits survives in the entry.
to_ppage_id-from_ppage_id :
    (id file n : ℕ) → n < 2 ^ 32 → to_ppage_id (from_ppage_id id (place file n)) ≡ place file n
unfolding to_ppage_id from_ppage_id
to_ppage_id-from_ppage_id id file n h =
    let e : n * page_buf_size / page_buf_size % 2 ^ 32 ≡ n = omega arith in rw e refl

pub lookup-places : (p : DirectoryLeafPage) (k : ℕ) → IsValid p → lookup p k ≡ ok (places p k)
unfolding lookup find_slot entry entry_at
lookup-places p k v = elim (search-Searched key_of v k) [
  | hit i found h here held ↦
      let (e, read) = get_elem?-some p.slots i (omega (arith, v.whole, v.within)) in
      let there : leb (num_entries p) i ≡ false = ground arith in
      rw (found, there, read, held) (rw read refl)
  | miss i found f absent ↦ rw (found, absent) refl
]

map_if :
    (b : Bool) (o : Option DirectoryLeafEntry) (x : DirectoryLeafEntry)
    → Option.map to_ppage_id (if b then some x else o)
      ≡ (if b then some (to_ppage_id x) else Option.map to_ppage_id o)
map_if true o x = refl
map_if false o x = refl

map_if_none :
    (b : Bool) (o : Option DirectoryLeafEntry)
    → Option.map to_ppage_id (if b then none else o)
      ≡ (if b then none else Option.map to_ppage_id o)
map_if_none true o = refl
map_if_none false o = refl

abbrev pub answer : Option PPageId → Result OverlayError (Option PPageId)
answer o = ok o

ok_if :
    (b : Bool) (x y : Option PPageId)
    → answer (if b then x else y) ≡ (if b then answer x else answer y)
ok_if true x y = refl
ok_if false x y = refl

absent_of_places : (o : Option DirectoryLeafEntry) → Option.map to_ppage_id o ≡ none → o ≡ none
absent_of_places none h = refl
absent_of_places (some x) h = cc

ok_injective : (x y : Option PPageId) → answer x ≡ answer y → x ≡ y
ok_injective x y h = cc

-- On a valid directory leaf with room, `insert_entry` of an id that `lookup` does not find, at the
-- place of a page whose number has 32 bits, succeeds and leaves the leaf valid; then `lookup`
-- answers that very place for the id, and for every other id what it answered before.
pub insert_entry-lookup :
    (p : DirectoryLeafPage) (id file n : ℕ)
    → IsValid p
    → n < 2 ^ 32
    → num_entries p < max_entries
    → lookup p id ≡ ok none
    → (q : DirectoryLeafPage) × (insert_entry p id (place file n) ≡ ok q)
      × IsValid q
      × ((j : ℕ) → lookup q j ≡ (if id == j then ok (some (place file n)) else lookup p j))
unfolding insert_entry
insert_entry-lookup p id file n v small room missing =
    let e : DirectoryLeafEntry = from_ppage_id id (place file n) in
    let keyed : key_of e ≡ id = unfold from_ppage_id in refl in
    let absent : assoc key_of id (live p) ≡ none =
      absent_of_places _ (ok_injective _ _ (sym (lookup-places p id v) ∙ missing)) in
    let (s, i, w) = insert_sorted-Placed key_of v id e keyed room absent in
    let count : incr16 (num_entries p) ≡ suc (num_entries p) = omega arith in
    let q : DirectoryLeafPage = set_num_entries (record p { slots = s }) (incr16 (num_entries p)) in
    let valid : IsValid q = unfold set_num_entries in rw count w.valid in
    let looks : (j : ℕ) → places q j ≡ (if id == j then some (place file n) else places p j) = λ j.
      unfold set_num_entries in
      rw (count, Placed-assoc key_of v keyed w j)
        (map_if (id == j) (assoc key_of j (live p)) e
          ∙ rw (to_ppage_id-from_ppage_id id file n small) refl) in
    (
      q,
      rw w.runs refl,
      valid,
      λ j.
          rw (lookup-places q j valid, looks j, lookup-places p j v)
            (ok_if (id == j) (some (place file n)) (places p j)),
    )

if_absent : (k j : ℕ) (o : ℕ → Option PPageId) → o k ≡ none → o j ≡ (if k == j then none else o j)
if_absent k j o e = elim (Bool-cases (k == j)) [
  | inl same ↦ let k' : k ≡ j = ground arith in rw same (rw (← k') e)
  | inr other ↦ rw other refl
]

abbrev pub is_some : Option PPageId → Bool
is_some none = false
is_some (some x) = true

-- On a valid directory leaf, `delete_by_key` returns whether the leaf held the id and leaves the
-- leaf valid; then `lookup` finds nothing for the id, and answers for every other id what it
-- answered before.
pub delete_by_key-lookup :
    (p : DirectoryLeafPage) (k : ℕ)
    → IsValid p
    → (q : DirectoryLeafPage) × (delete_by_key p k ≡ ok (q, is_some (places p k)))
      × IsValid q
      × ((j : ℕ) → lookup q j ≡ (if k == j then ok none else lookup p j))
unfolding delete_by_key find_slot delete_entry remove_at
delete_by_key-lookup p k v = elim (search-Searched key_of v k) [
  | miss i found f absent ↦
      let gone : places p k ≡ none = rw absent refl in
      (
        p,
        rw (found, gone) refl,
        v,
        λ j.
            rw (lookup-places p j v)
              (ap answer (if_absent k j (places p) gone) ∙ ok_if (k == j) none (places p j)),
      )
  | hit i found h here held ↦
      let (e, read) = get_elem?-some p.slots i (omega (arith, v.whole, v.within)) in
      let (s, runs, valid, looks, _) = remove_at_lem key_of v i h in
      let q : DirectoryLeafPage = set_num_entries (record p { slots = s }) (num_entries p - 1) in
      let q_valid : IsValid q = unfold set_num_entries in valid in
      let q_places : (j : ℕ) → places q j ≡ (if k == j then none else places p j) = λ j.
        unfold set_num_entries in
        rw (looks j, here) (map_if_none (k == j) (assoc key_of j (live p))) in
      (
        q,
        rw (found, held) (rw (read, runs) refl),
        q_valid,
        λ j.
            rw (lookup-places q j q_valid, q_places j, lookup-places p j v)
              (ok_if (k == j) none (places p j)),
      )
]

-- On a valid directory leaf, `update_entry` of an id that the leaf holds, to the place of a page
-- whose number has 32 bits, returns true and leaves the leaf valid; then `lookup` answers that place
-- for the id, and for every other id what it answered before.
pub update_entry-lookup :
    (p : DirectoryLeafPage) (id file n : ℕ)
    → IsValid p
    → n < 2 ^ 32
    → places p id ≢ none
    → (q : DirectoryLeafPage) × (update_entry p id (place file n) ≡ ok (q, true))
      × IsValid q
      × ((j : ℕ) → lookup q j ≡ (if id == j then ok (some (place file n)) else lookup p j))
unfolding update_entry find_slot set_entry
update_entry-lookup p id file n v small there = elim (search-Searched key_of v id) [
  | miss i found f absent ↦ absurd (there (rw absent refl))
  | hit i found h here held ↦
      let e : DirectoryLeafEntry = from_ppage_id id (place file n) in
      let (valid, looks) = set_lem key_of v i e h (unfold from_ppage_id in sym here) in
      let within : ltb i max_entries ≡ true = ground (arith, v.within) in
      let q : DirectoryLeafPage = record p { slots = set p.slots i e } in
      let q_places : (j : ℕ) → places q j ≡ (if id == j then some (place file n) else places p j) =
        λ j. rw (looks j) (
          unfold from_ppage_id in
          map_if (id == j) (assoc key_of j (live p)) e
          ∙ rw (to_ppage_id-from_ppage_id id file n small) refl) in
      (
        q,
        rw (found, within) refl,
        valid,
        λ j.
            rw (lookup-places q j valid, q_places j, lookup-places p j v)
              (ok_if (id == j) (some (place file n)) (places p j)),
      )
]
