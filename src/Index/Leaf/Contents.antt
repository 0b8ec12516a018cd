-- ===== src/Index/Leaf/Contents.antt =====
-- src/page/overlays/index/btree_leaf.rs: a leaf page as a finite map from keys to record ids, and
-- what each operation does to that map.
use abdb.Base.{
  ℕ, suc, ◌+◌, ◌-◌, ◌≤◌, ◌<◌, ◌≡◌, ◌≢◌, inl, inr, refl, sym, ◌∙◌, Bool, true, false, Option, none,
  some, List, get_elem?-some, set, take, length-replicate, if◌then◌else◌, leb, ltb, ◌==◌, Result,
  ok, err, arith, Option-cases, Bool-cases,
}
use mathlib.Core.Option
use abdb.Slots.{
  OverlayError, page_full, duplicate_key, index_out_of_bounds, entry_at, assoc, key_at, search,
  insert_sorted, remove_at, incr16,
}
use abdb.Slots
use abdb.Slots.Ops.{
  hit, miss, search-Searched, insert_sorted-Placed, Placed-assoc, insert_sorted_duplicate,
  insert_sorted_full, remove_at_lem, set_lem,
}
use abdb.Index.Leaf.{
  BTreeLeafPage, BTreeLeafEntry, key_of, new_entry, record_id, num_entries, max_entries, init,
  entry, find_slot, lookup, insert_entry, delete_entry, delete_by_key, update_entry, set_entry,
  set_num_entries,
}

-- The page's count is within its array, and its live entries are sorted by key.
abbrev pub IsValid : BTreeLeafPage → Type 0
IsValid p = Slots.IsValid key_of max_entries p.slots (num_entries p)

abbrev pub live : BTreeLeafPage → List BTreeLeafEntry
live p = take (num_entries p) p.slots

-- The record id that the page holds for a key.
abbrev pub contents : BTreeLeafPage → ℕ → Option (ℕ × ℕ)
contents p k = Option.map record_id (assoc key_of k (live p))

-- Everything but the entries and their count.
abbrev pub SameLinks : BTreeLeafPage → BTreeLeafPage → Type 0
SameLinks p q =
    (q.uber ≡ p.uber)
    × (q.header.next_page ≡ p.header.next_page)
    × (q.header.prev_page ≡ p.header.prev_page)
    × (q.header.flags ≡ p.header.flags)

pub init-IsValid : (page_id : ℕ) → IsValid (init page_id)
unfolding init
init-IsValid page_id = record {
  whole = length-replicate max_entries (new_entry 0 0 0);
  within = omega arith;
  small = omega arith;
  sorted = λ i j h p. elim p [ ];
}

-- `lookup` on a valid leaf does not panic, and answers what the leaf, as a map from its live
-- entries, holds for the key.
pub lookup-contents : (p : BTreeLeafPage) (k : ℕ) → IsValid p → lookup p k ≡ ok (contents p k)
unfolding lookup find_slot entry entry_at
lookup-contents p k v = elim (search-Searched key_of v k) [
  | hit i found h here held ↦
      let (e, read) = get_elem?-some p.slots i (omega (arith, v.whole, v.within)) in
      let there : leb (num_entries p) i ≡ false = ground arith in
      rw (found, there, read, held) (rw read refl)
  | miss i found f absent ↦ rw (found, absent) refl
]

-- The ways out of `insert_entry`.
pub data Inserted (p : BTreeLeafPage) (k : ℕ) (rid : ℕ × ℕ) (r : Result OverlayError BTreeLeafPage)
    : Type 0 where
  full :
      num_entries p ≡ max_entries
      → r ≡ err (page_full max_entries (num_entries p + 1))
      → Inserted p k rid r
  duplicate :
      num_entries p < max_entries
      → contents p k ≢ none
      → r ≡ err (duplicate_key k)
      → Inserted p k rid r
  added :
      (q : BTreeLeafPage)
      → num_entries p < max_entries
      → contents p k ≡ none
      → r ≡ ok q
      → IsValid q
      → num_entries q ≡ num_entries p + 1
      → SameLinks p q
      → ((j : ℕ) → contents q j ≡ (if k == j then some rid else contents p j))
      → Inserted p k rid r

map_if :
    (b : Bool) (o : Option BTreeLeafEntry) (x : BTreeLeafEntry)
    → Option.map record_id (if b then some x else o)
      ≡ (if b then some (record_id x) else Option.map record_id o)
map_if true o x = refl
map_if false o x = refl

map_if_none :
    (b : Bool) (o : Option BTreeLeafEntry)
    → Option.map record_id (if b then none else o) ≡ (if b then none else Option.map record_id o)
map_if_none true o = refl
map_if_none false o = refl

held_of_map :
    (o : Option BTreeLeafEntry)
    → Option.map record_id o ≢ none
    → (x : BTreeLeafEntry) × (o ≡ some x)
held_of_map none h = absurd (h refl)
held_of_map (some x) h = (x, refl)

insert_entry-added :
    (p : BTreeLeafPage) (k page slot : ℕ)
    → IsValid p
    → num_entries p < max_entries
    → assoc key_of k (live p) ≡ none
    → Inserted p k (page, slot) (insert_entry p k page slot)
unfolding insert_entry
insert_entry-added p k page slot v room absent =
    let (s, i, w) = insert_sorted-Placed key_of v k (new_entry k page slot) refl room absent in
    let count : incr16 (num_entries p) ≡ suc (num_entries p) = omega arith in
    added (set_num_entries (record p { slots = s }) (incr16 (num_entries p))) room (rw absent refl)
      (rw w.runs refl) (unfold set_num_entries in rw count w.valid)
      (unfold set_num_entries in omega arith) (unfold set_num_entries in (refl, refl, refl, refl))
      (λ j.
        unfold set_num_entries in
        rw (count, Placed-assoc key_of v refl w j)
          (map_if (k == j) (assoc key_of j (live p)) (new_entry k page slot)))

-- `insert_entry` on a valid leaf: a full leaf and a key that is there are refused with their errors;
-- otherwise the leaf stays valid with one more entry, its links stay, and of its map that key alone
-- changes, to the new record id.
pub insert_entry-Inserted :
    (p : BTreeLeafPage) (k page slot : ℕ)
    → IsValid p
    → Inserted p k (page, slot) (insert_entry p k page slot)
insert_entry-Inserted p k page slot v = elim (Bool-cases (ltb (num_entries p) max_entries)) [
  | inr no_room ↦
      let at_end : num_entries p ≡ max_entries = ground (arith, v.within) in
      full at_end (
        unfold insert_entry in
        rw (insert_sorted_full key_of v k (new_entry k page slot) at_end) refl)
  | inl yes_room ↦
      let room : num_entries p < max_entries = ground arith in
      elim (Option-cases (assoc key_of k (live p))) [
        | inl absent ↦ insert_entry-added p k page slot v room absent
        | inr (x, held) ↦ duplicate room (rw held (λ e. cc)) (
            unfold insert_entry in
            rw (insert_sorted_duplicate key_of v k (new_entry k page slot) x room held) refl)
      ]
]

-- The ways out of `delete_entry`.
pub data Deleted (p : BTreeLeafPage) (i : ℕ) (r : Result OverlayError BTreeLeafPage) : Type 0 where
  out_of_bounds :
      num_entries p ≤ i → r ≡ err (index_out_of_bounds i (num_entries p)) → Deleted p i r
  removed :
      (q : BTreeLeafPage)
      → i < num_entries p
      → r ≡ ok q
      → IsValid q
      → num_entries q ≡ num_entries p - 1
      → SameLinks p q
      → ((j : ℕ) → contents q j ≡ (if key_at key_of (live p) i == j then none else contents p j))
      → Deleted p i r

-- `delete_entry` on a valid leaf: an index past the live entries is refused; otherwise the leaf
-- stays valid with one entry less, its links stay, and of its map the key at the index alone goes.
pub delete_entry-Deleted : (p : BTreeLeafPage) (i : ℕ) → IsValid p → Deleted p i (delete_entry p i)
delete_entry-Deleted p i v = elim (Bool-cases (leb (num_entries p) i)) [
  | inl past ↦ out_of_bounds (ground arith) (unfold delete_entry remove_at in rw past refl)
  | inr there ↦
      let (s, runs, valid, looks, _) = remove_at_lem key_of v i (ground arith) in
      removed (set_num_entries (record p { slots = s }) (num_entries p - 1)) (ground arith)
        (unfold delete_entry in rw runs refl) (unfold set_num_entries in valid)
        (unfold set_num_entries in refl) (unfold set_num_entries in (refl, refl, refl, refl))
        (λ j.
          unfold set_num_entries in
          rw (looks j) (map_if_none (key_at key_of (live p) i == j) (assoc key_of j (live p))))
]

abbrev pub is_some : Option (ℕ × ℕ) → Bool
is_some none = false
is_some (some x) = true

if_absent : (k j : ℕ) (o : ℕ → Option (ℕ × ℕ)) → o k ≡ none → o j ≡ (if k == j then none else o j)
if_absent k j o e = elim (Bool-cases (k == j)) [
  | inl same ↦ let k' : k ≡ j = ground arith in rw same (rw (← k') e)
  | inr other ↦ rw other refl
]

-- `delete_by_key` on a valid leaf returns whether the key was there; the leaf stays valid, its links
-- stay, and of its map that key alone goes.
pub delete_by_key-contents :
    (p : BTreeLeafPage) (k : ℕ)
    → IsValid p
    → (q : BTreeLeafPage) × (delete_by_key p k ≡ ok (q, is_some (contents p k)))
      × IsValid q
      × SameLinks p q
      × ((j : ℕ) → contents q j ≡ (if k == j then none else contents p j))
unfolding delete_by_key find_slot
delete_by_key-contents p k v = elim (search-Searched key_of v k) [
  | miss i found f absent ↦
      let gone : contents p k ≡ none = rw absent refl in
      (p, rw (found, gone) refl, v, (refl, refl, refl, refl), λ j. if_absent k j (contents p) gone)
  | hit i found h here held ↦
      let (e, read) = get_elem?-some p.slots i (omega (arith, v.whole, v.within)) in
      elim (delete_entry-Deleted p i v) [
        | out_of_bounds past _ ↦ absurd (omega arith)
        | removed q _ runs valid _ links looks ↦
            (q, rw (found, held) (rw (read, runs) refl), valid, links, rw here at looks)
      ]
]

updated :
    (k j : ℕ) (rid : ℕ × ℕ) (o : ℕ → Option (ℕ × ℕ)) (x : ℕ × ℕ)
    → o k ≡ some x
    → (if k == j then some rid else o j) ≡ (if k == j then Option.map (λ _. rid) (o k) else o j)
updated k j rid o x e = rw e refl

-- `update_entry` on a valid leaf returns whether the key was there; the leaf stays valid, its links
-- stay, the key has the new record id if it was there, and no other key changes.
pub update_entry-contents :
    (p : BTreeLeafPage) (k page slot : ℕ)
    → IsValid p
    → (q : BTreeLeafPage) × (update_entry p k page slot ≡ ok (q, is_some (contents p k)))
      × IsValid q
      × SameLinks p q
      × ((j : ℕ)
          → contents q j
            ≡ (if k == j then Option.map (λ _. (page, slot)) (contents p k) else contents p j))
unfolding update_entry find_slot set_entry
update_entry-contents p k page slot v = elim (search-Searched key_of v k) [
  | miss i found f absent ↦
      let gone : contents p k ≡ none = rw absent refl in
      (
        p,
        rw (found, gone) refl,
        v,
        (refl, refl, refl, refl),
        λ j. rw gone (if_absent k j (contents p) gone),
      )
  | hit i found h here held ↦
      let (e, read) = get_elem?-some p.slots i (omega (arith, v.whole, v.within)) in
      let (valid, looks) = set_lem key_of v i (new_entry k page slot) h (sym here) in
      let within : ltb i max_entries ≡ true = ground (arith, v.within) in
      let there : contents p k ≡ some (record_id e) = rw (held, read) refl in
      (
        record p { slots = set p.slots i (new_entry k page slot) },
        rw (found, there, within) refl,
        valid,
        (refl, refl, refl, refl),
        λ j.
            rw (looks j) (map_if (k == j) (assoc key_of j (live p)) (new_entry k page slot))
            ∙ updated k j (page, slot) (contents p) (record_id e) there,
      )
]
