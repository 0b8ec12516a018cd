-- ===== src/Heap/Insertion.antt =====
-- src/page/overlays/table/heap_page.rs: what an insertion into a valid page does.
use abdb.Base.{
  ℕ, ◌+◌, ◌-◌, ◌*◌, ◌%◌, ◌<◌, ◌≤◌, ◌≡◌, refl, sym, ap, ◌∙◌, inl, inr, true, false, List, length,
  arith, leb, ltb, Result, ok, err, Bool-cases,
}
use abdb.Heap.{
  HeapError, no_space, num_slots, data_offset, free_space_remaining, slot_at, get_data, insert,
  window,
}
use abdb.Heap.Reads.{IsValid, get_slot_lem, get_data-window}
use abdb.Heap.Store.{
  counted, stored, length-stored, window-stored_data, num_slots-placed, num_slots-counted,
  num_slots-stored, data_offset-stored, slot-stored_offset, slot-stored_length,
  window-stored_payload, slot-stored,
}

-- A page that took a tuple in, or had no space for it.
abbrev pub Inserted : List ℕ → List ℕ → Result HeapError (List ℕ × ℕ) → Type 0
Inserted page tuple (ok (after, idx)) =
    IsValid after
    × (idx ≡ num_slots page)
    × (num_slots after ≡ idx + 1)
    × (get_data after idx ≡ ok tuple)
    × ((i : ℕ) → i < num_slots page → get_data after i ≡ get_data page i)
    × (free_space_remaining after + (length tuple + 4) ≡ free_space_remaining page)
Inserted page tuple (err no_space) = free_space_remaining page < length tuple + 4
Inserted page tuple _ = ⊥

insert_full :
    (page tuple : List ℕ)
    → ltb (free_space_remaining page) (length tuple + 4) ≡ true
    → insert page tuple ≡ err no_space
unfolding insert
insert_full page tuple full = rw full refl

module _ (page tuple : List ℕ) (v : IsValid page) where
  abbrev start : ℕ
  start = data_offset page - length tuple

  abbrev after : List ℕ
  after = stored page tuple (num_slots page) start

  module _ (room : 28 + num_slots page * 4 + length tuple ≤ data_offset page) where
    low : 28 + num_slots page * 4 ≤ start
    low = omega arith

    high : start + length tuple ≤ 4096
    high = let last = v.within in omega arith

    insert_lem : insert page tuple ≡ ok (after, num_slots page)
    unfolding insert free_space_remaining
    insert_lem =
        let n : ℕ = num_slots page in
        let last = v.within in
        let enough : ltb (data_offset page - (24 + n * 4)) (length tuple + 4) ≡ false =
          ground arith in
        let short : length tuple % 65536 ≡ length tuple = omega arith in
        let few : (n + 1) % 65536 ≡ n + 1 = omega arith in
        let inside : leb (start + length tuple) (length page) ≡ true =
          rw v.whole (ground (arith, high)) in
        let count = num_slots-counted page tuple n start low v.whole high in
        rw enough (
          rw short (
            rw inside (
              rw (num_slots-placed page tuple n start low) (
                rw few (
                  rw
                    (get_slot_lem (counted page tuple n start) n (rw count (omega arith))
                      (rw count (omega arith)))
                    refl)))))

    after-IsValid : IsValid after
    after-IsValid =
        let n : ℕ = num_slots page in
        let count = num_slots-stored page tuple n start low v.whole high in
        let put = data_offset-stored page tuple n start low v.whole high in
        let last = v.within in
        let first_slot = low in
        record {
          whole = length-stored page tuple n start ∙ v.whole;
          slots_first = rw count (rw put (omega arith));
          within = rw put (omega arith);
          pointed = λ i h. elim (Bool-cases (ltb i n)) [
            | inl old ↦
                (let same = slot-stored page tuple n start low i (ground arith) in
                  let offset_same = ap (λ s. s.offset) same in
                  let length_same = ap (λ s. s.length) same in
                  let inside = v.pointed i (ground arith) in (omega arith, omega arith))
            | inr new ↦
                (let last_one : i ≡ n = ground arith in
                  let offset_new = slot-stored_offset page tuple n start low v.whole high in
                  let length_new = slot-stored_length page tuple n start low v.whole high in
                  rw last_one (omega arith, omega arith))
          ];
        }

    get_data-after_new : get_data after (num_slots page) ≡ ok tuple
    get_data-after_new =
        let n : ℕ = num_slots page in
        let count = num_slots-stored page tuple n start low v.whole high in
        get_data-window after n after-IsValid (rw count (omega arith))
        ∙ ap (λ k. ok (window k (slot_at after n).offset after))
            (slot-stored_length page tuple n start low v.whole high)
        ∙ ap (λ o. ok (window (length tuple) o after))
            (slot-stored_offset page tuple n start low v.whole high)
        ∙ ap ok (window-stored_payload page tuple n start low v.whole high)

    get_data-after_old : (i : ℕ) → i < num_slots page → get_data after i ≡ get_data page i
    get_data-after_old i h =
        let n : ℕ = num_slots page in
        let count = num_slots-stored page tuple n start low v.whole high in
        let inside = v.pointed i h in
        get_data-window after i after-IsValid (rw count (omega arith))
        ∙ ap (λ s. ok (window s.length s.offset after)) (slot-stored page tuple n start low i h)
        ∙ ap ok (
            window-stored_data page tuple n start low (slot_at page i).length
              (slot_at page i).offset (omega arith))
        ∙ sym (get_data-window page i v h)

-- `insert` on a valid page is refused as having no space just if the tuple and a slot need more than
-- the free space; otherwise the page stays valid, the index is the number of slots so far, the tuple
-- is read back under it, under every slot that was there what was read before, and the free space is
-- less by the tuple and its slot.
pub insert-Inserted : (page tuple : List ℕ) → IsValid page → Inserted page tuple (insert page tuple)
unfolding free_space_remaining
insert-Inserted page tuple v =
    elim (Bool-cases (ltb (free_space_remaining page) (length tuple + 4))) [
      | inl full ↦ rw (insert_full page tuple full) (ground arith)
      | inr enough ↦
          (let n : ℕ = num_slots page in
            let room : 28 + n * 4 + length tuple ≤ data_offset page = ground arith in
            let start : ℕ = data_offset page - length tuple in
            let lower = low page tuple v room in
            let upper = high page tuple v room in
            let count = num_slots-stored page tuple n start lower v.whole upper in
            let put = data_offset-stored page tuple n start lower v.whole upper in
            rw (insert_lem page tuple v room) (
              after-IsValid page tuple v room,
              refl,
              count,
              get_data-after_new page tuple v room,
              get_data-after_old page tuple v room,
              omega arith,
            ))
    ]
