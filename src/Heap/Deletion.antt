-- ===== src/Heap/Deletion.antt =====
-- src/page/overlays/table/heap_page.rs: what a deletion from a valid page does, and a new page.
use abdb.Base.{
  ℕ, ◌+◌, ◌*◌, ◌<◌, ◌≤◌, ◌≡◌, ◌≢◌, refl, sym, ap, ◌∙◌, ◌⊎◌, inl, inr, true, false, List, [], arith,
  leb, ◌==◌, Result, ok, err, Bool-cases,
}
use abdb.Bytes.{from_le_bytes}
use abdb.Heap.{
  HeapError, invalid_index, num_slots, data_offset, free_space_remaining, slot_at, get_data, delete,
  window, write16,
}
use abdb.Heap.Reads.{IsValid, get_slot_lem, get_data-window}
use abdb.Heap.Windows.{length-write_at, window-write16, read16-write16}

-- A page of which the tuple at an index became empty, or that has no such index.
abbrev pub Deleted : List ℕ → ℕ → Result HeapError (List ℕ) → Type 0
Deleted page idx (ok after) =
    (idx < num_slots page)
    × IsValid after
    × (num_slots after ≡ num_slots page)
    × (free_space_remaining after ≡ free_space_remaining page)
    × (get_data after idx ≡ ok [])
    × ((i : ℕ) → i < num_slots page → i ≢ idx → get_data after i ≡ get_data page i)
Deleted page idx (err (invalid_index i)) = (i ≡ idx) × (num_slots page ≤ idx)
Deleted page idx _ = ⊥

module _ (page : List ℕ) (idx : ℕ) (v : IsValid page) (there : idx < num_slots page) where
  abbrev after : List ℕ
  after = write16 page (24 + idx * 4 + 2) 0

  window-after :
      (k o : ℕ)
      → (o + k ≤ 24 + idx * 4 + 2) ⊎ (24 + idx * 4 + 4 ≤ o)
      → window k o after ≡ window k o page
  window-after k o (inl below) = window-write16 page (24 + idx * 4 + 2) 0 k o (inl below)
  window-after k o (inr above) = window-write16 page (24 + idx * 4 + 2) 0 k o (inr (omega arith))

  num_slots-after : num_slots after ≡ num_slots page
  num_slots-after = ap from_le_bytes (window-after 2 16 (inl (omega arith)))

  data_offset-after : data_offset after ≡ data_offset page
  data_offset-after = ap from_le_bytes (window-after 2 18 (inl (omega arith)))

  slot-after_offset : (i : ℕ) → (slot_at after i).offset ≡ (slot_at page i).offset
  slot-after_offset i = ap from_le_bytes (elim (Bool-cases (leb i idx)) [
    | inl below ↦ window-after 2 (24 + i * 4) (inl (ground arith))
    | inr above ↦ window-after 2 (24 + i * 4) (inr (ground arith))
  ])

  slot-after_length : (i : ℕ) → i ≢ idx → (slot_at after i).length ≡ (slot_at page i).length
  slot-after_length i other = ap from_le_bytes (elim (Bool-cases (leb i idx)) [
    | inl below ↦ window-after 2 (24 + i * 4 + 2) (inl (ground arith))
    | inr above ↦ window-after 2 (24 + i * 4 + 2) (inr (ground arith))
  ])

  slot-after_empty : (slot_at after idx).length ≡ 0
  slot-after_empty =
      let first = v.slots_first in
      let last = v.within in
      read16-write16 page (24 + idx * 4 + 2) 0 (rw v.whole (omega arith)) (omega arith)

  after-IsValid : IsValid after
  after-IsValid =
      let first = v.slots_first in
      let last = v.within in
      let count = num_slots-after in
      let put = data_offset-after in
      record {
        whole = length-write_at page (24 + idx * 4 + 2) _ ∙ v.whole;
        slots_first = rw count (rw put first);
        within = rw put last;
        pointed = λ i h.
            let inside = v.pointed i (omega arith) in
            let same_offset = slot-after_offset i in
            elim (Bool-cases (i == idx)) [
              | inl this ↦
                  (let here : i ≡ idx = ground arith in
                    let no_length = slot-after_empty in
                    let empty : (slot_at after i).length ≡ 0 = rw here no_length in
                    (omega arith, omega arith))
              | inr that ↦
                  (let same_length = slot-after_length i (ground arith) in
                    (omega arith, omega arith))
            ];
      }

  delete_lem : delete page idx ≡ ok after
  unfolding delete
  delete_lem =
      let first = v.slots_first in
      let last = v.within in
      let found : leb (num_slots page) idx ≡ false = ground arith in
      rw found (rw (get_slot_lem page idx (omega arith) there) refl)

  get_data-after_empty : get_data after idx ≡ ok []
  get_data-after_empty =
      let count = num_slots-after in
      get_data-window after idx after-IsValid (rw count there)
      ∙ ap (λ k. ok (window k (slot_at after idx).offset after)) slot-after_empty

  get_data-after_other : (i : ℕ) → i < num_slots page → i ≢ idx → get_data after i ≡ get_data page i
  get_data-after_other i h other =
      let count = num_slots-after in
      let first = v.slots_first in
      let inside = v.pointed i h in
      get_data-window after i after-IsValid (rw count h)
      ∙ ap (λ k. ok (window k (slot_at after i).offset after)) (slot-after_length i other)
      ∙ ap (λ o. ok (window (slot_at page i).length o after)) (slot-after_offset i)
      ∙ ap ok (window-after (slot_at page i).length (slot_at page i).offset (inr (omega arith)))
      ∙ sym (get_data-window page i v h)

delete_missing :
    (page : List ℕ) (idx : ℕ)
    → leb (num_slots page) idx ≡ true
    → delete page idx ≡ err (invalid_index idx)
unfolding delete
delete_missing page idx missing = rw missing refl

-- `delete` on a valid page is refused with the index just if the page has no such slot; otherwise
-- the page stays valid with as many slots and as much free space, nothing is read under the index,
-- and under every other slot what was read before.
pub delete-Deleted : (page : List ℕ) (idx : ℕ) → IsValid page → Deleted page idx (delete page idx)
unfolding free_space_remaining
delete-Deleted page idx v = elim (Bool-cases (leb (num_slots page) idx)) [
  | inl missing ↦ rw (delete_missing page idx missing) (refl, ground arith)
  | inr found ↦
      (let there : idx < num_slots page = ground arith in
        let count = num_slots-after page idx v there in
        let put = data_offset-after page idx v there in
        rw (delete_lem page idx v there) (
          there,
          after-IsValid page idx v there,
          count,
          omega arith,
          get_data-after_empty page idx v there,
          get_data-after_other page idx v there,
        ))
]
