-- ===== src/Heap/Start.antt =====
-- src/page/overlays/table/heap_page.rs: a new page.
use abdb.Base.{ℕ, ◌+◌, ◌≤◌, ◌≡◌, ◌∙◌, ap, inl, List, length, arith}
use abdb.Bytes.{from_le_bytes, to_le_bytes}
use abdb.Heap.{num_slots, data_offset, free_space_remaining, init, window, write16}
use abdb.Heap.Reads.{IsValid}
use abdb.Heap.Windows.{length-write_at, window-Apart, window-write16, read16-write16}

module _ (page : List ℕ) (whole : length page ≡ 4096) where
  abbrev counted : List ℕ
  counted = write16 page 16 0

  abbrev placed : List ℕ
  placed = write16 counted 18 4096

  length-placed : length placed ≡ 4096
  length-placed = length-write_at counted 18 _ ∙ length-write_at page 16 _ ∙ whole

  pub length-init : length (init page) ≡ 4096
  unfolding init
  length-init = length-write_at placed 20 _ ∙ length-placed

  window-init : (o : ℕ) → o + 2 ≤ 20 → window 2 o (init page) ≡ window 2 o placed
  unfolding init
  window-init o h = window-Apart placed 20 (to_le_bytes 4 0) 2 o (inl h)

  pub num_slots-init : num_slots (init page) ≡ 0
  num_slots-init =
      ap from_le_bytes
        (window-init 16 (omega arith) ∙ window-write16 counted 18 4096 2 16 (inl (omega arith)))
      ∙ read16-write16 page 16 0 (rw whole (omega arith)) (omega arith)

  pub data_offset-init : data_offset (init page) ≡ 4096
  data_offset-init =
      ap from_le_bytes (window-init 18 (omega arith))
      ∙ read16-write16 counted 18 4096
          (rw (length-write_at page 16 (to_le_bytes 2 0)) (rw whole (omega arith))) (omega arith)

  pub init-IsValid : IsValid (init page)
  init-IsValid =
      let count = num_slots-init in
      let put = data_offset-init in
      record {
        whole = length-init;
        slots_first = omega arith;
        within = omega arith;
        pointed = λ i h. absurd (omega arith);
      }

  pub init_free : free_space_remaining (init page) ≡ 4072
  unfolding free_space_remaining
  init_free = let count = num_slots-init in let put = data_offset-init in omega arith
