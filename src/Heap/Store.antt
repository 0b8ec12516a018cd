-- ===== src/Heap/Store.antt =====
-- src/page/overlays/table/heap_page.rs: the writes of an insertion, one after the other.
use abdb.Base.{ℕ, ◌+◌, ◌*◌, ◌<◌, ◌≤◌, ◌≡◌, ap, ◌∙◌, inl, inr, List, length, arith}
use abdb.Bytes.{from_le_bytes}
use abdb.Heap.{window, write_at, write16, num_slots, data_offset, slot_at}
use abdb.Heap.Windows.{length-write_at, window-there, window-Apart, window-write16, read16-write16}

-- The page after each write, where `n` slots were there and the data is put from `start` on.
module _ (page tuple : List ℕ) (n start : ℕ) where
  abbrev pub copied : List ℕ
  copied = write_at page start tuple

  abbrev pub placed : List ℕ
  placed = write16 copied 18 start

  abbrev pub counted : List ℕ
  counted = write16 placed 16 (n + 1)

  abbrev pub pointed : List ℕ
  pointed = write16 counted (24 + n * 4) start

  abbrev pub stored : List ℕ
  stored = write16 pointed (24 + n * 4 + 2) (length tuple)

  pub length-copied : length copied ≡ length page
  length-copied = length-write_at page start tuple

  pub length-placed : length placed ≡ length page
  length-placed = length-write_at copied 18 _ ∙ length-copied

  pub length-counted : length counted ≡ length page
  length-counted = length-write_at placed 16 _ ∙ length-placed

  pub length-pointed : length pointed ≡ length page
  length-pointed = length-write_at counted (24 + n * 4) _ ∙ length-counted

  pub length-stored : length stored ≡ length page
  length-stored = length-write_at pointed (24 + n * 4 + 2) _ ∙ length-pointed

  -- What lies behind the slots changes with the data alone.
  window-stored_behind : (k o : ℕ) → 28 + n * 4 ≤ o → window k o stored ≡ window k o copied
  window-stored_behind k o h =
      window-write16 pointed (24 + n * 4 + 2) (length tuple) k o (inr (omega arith))
      ∙ window-write16 counted (24 + n * 4) start k o (inr (omega arith))
      ∙ window-write16 placed 16 (n + 1) k o (inr (omega arith))
      ∙ window-write16 copied 18 start k o (inr (omega arith))

  module _ (low : 28 + n * 4 ≤ start) where
    -- What lies behind the headers and before the new slot does not change.
    pub window-stored_slots :
        (k o : ℕ) → 20 ≤ o → o + k ≤ 24 + n * 4 → window k o stored ≡ window k o page
    window-stored_slots k o above below =
        window-write16 pointed (24 + n * 4 + 2) (length tuple) k o (inl (omega arith))
        ∙ window-write16 counted (24 + n * 4) start k o (inl (omega arith))
        ∙ window-write16 placed 16 (n + 1) k o (inr (omega arith))
        ∙ window-write16 copied 18 start k o (inr (omega arith))
        ∙ window-Apart page start tuple k o (inl (omega arith))

    -- What lies behind the new data does not change.
    pub window-stored_data :
        (k o : ℕ) → start + length tuple ≤ o → window k o stored ≡ window k o page
    window-stored_data k o h =
        window-stored_behind k o (omega arith) ∙ window-Apart page start tuple k o (inr h)

    pub num_slots-placed : num_slots placed ≡ num_slots page
    num_slots-placed = ap from_le_bytes (
        window-write16 copied 18 start 2 16 (inl (omega arith))
        ∙ window-Apart page start tuple 2 16 (inl (omega arith)))

    module _ (whole : length page ≡ 4096) (high : start + length tuple ≤ 4096) where
      pub num_slots-counted : num_slots counted ≡ n + 1
      num_slots-counted =
          read16-write16 placed 16 (n + 1) (rw length-placed (omega arith)) (omega arith)

      pub num_slots-stored : num_slots stored ≡ n + 1
      num_slots-stored =
          ap from_le_bytes (
            window-write16 pointed (24 + n * 4 + 2) (length tuple) 2 16 (inl (omega arith))
            ∙ window-write16 counted (24 + n * 4) start 2 16 (inl (omega arith)))
          ∙ num_slots-counted

      pub data_offset-stored : data_offset stored ≡ start
      data_offset-stored =
          ap from_le_bytes (
            window-write16 pointed (24 + n * 4 + 2) (length tuple) 2 18 (inl (omega arith))
            ∙ window-write16 counted (24 + n * 4) start 2 18 (inl (omega arith))
            ∙ window-write16 placed 16 (n + 1) 2 18 (inr (omega arith)))
          ∙ read16-write16 copied 18 start (rw length-copied (omega arith)) (omega arith)

      pub slot-stored_offset : (slot_at stored n).offset ≡ start
      slot-stored_offset =
          ap from_le_bytes (
            window-write16 pointed (24 + n * 4 + 2) (length tuple) 2 (24 + n * 4)
              (inl (omega arith)))
          ∙ read16-write16 counted (24 + n * 4) start (rw length-counted (omega arith))
              (omega arith)

      pub slot-stored_length : (slot_at stored n).length ≡ length tuple
      slot-stored_length =
          read16-write16 pointed (24 + n * 4 + 2) (length tuple) (rw length-pointed (omega arith))
            (omega arith)

      pub window-stored_payload : window (length tuple) start stored ≡ tuple
      window-stored_payload =
          window-stored_behind (length tuple) start low
          ∙ window-there page start tuple (rw whole high)

    pub slot-stored : (i : ℕ) → i < n → slot_at stored i ≡ slot_at page i
    slot-stored i h =
        let first = window-stored_slots 2 (24 + i * 4) (omega arith) (omega arith) in
        let second = window-stored_slots 2 (24 + i * 4 + 2) (omega arith) (omega arith) in
        ap (λ w. record { offset = from_le_bytes w; length = (slot_at stored i).length }) first
        ∙ ap (λ w. record { offset = (slot_at page i).offset; length = from_le_bytes w }) second
