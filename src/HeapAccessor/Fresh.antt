-- ===== src/HeapAccessor/Fresh.antt =====
-- src/accessor/heap.rs: the page that an insertion adds is valid and empty.
use abdb.Base.{ℕ, ◌≡◌, ◌∙◌, ap, inl, List, length, replicate, length-replicate, arith}
use abdb.Bytes.{from_le_bytes, to_le_bytes}
use abdb.Heap.{num_slots, data_offset, free_space_remaining, init}
use abdb.Heap.Reads.{IsValid}
use abdb.Heap.Windows.{length-write_at, window-Apart}
use abdb.Heap.Start.{length-init, num_slots-init, data_offset-init}
use abdb.HeapAccessor.{fresh_page}

module _ (first_page : ℕ) where
  abbrev empty : List ℕ
  empty = replicate 4096 0

  whole : length empty ≡ 4096
  whole = length-replicate {A = ℕ} 4096 0

  num_slots-fresh_page : num_slots (fresh_page first_page) ≡ 0
  unfolding fresh_page
  num_slots-fresh_page =
      ap from_le_bytes
        (window-Apart (init empty) 20 (to_le_bytes 4 first_page) 2 16 (inl (omega arith)))
      ∙ num_slots-init empty whole

  data_offset-fresh_page : data_offset (fresh_page first_page) ≡ 4096
  unfolding fresh_page
  data_offset-fresh_page =
      ap from_le_bytes
        (window-Apart (init empty) 20 (to_le_bytes 4 first_page) 2 18 (inl (omega arith)))
      ∙ data_offset-init empty whole

  length-fresh_page : length (fresh_page first_page) ≡ 4096
  unfolding fresh_page
  length-fresh_page = length-write_at (init empty) 20 _ ∙ length-init empty whole

  pub fresh_page-IsValid : IsValid (fresh_page first_page)
  fresh_page-IsValid =
      let count = num_slots-fresh_page in
      let put = data_offset-fresh_page in
      record {
        whole = length-fresh_page;
        slots_first = omega arith;
        within = omega arith;
        pointed = λ i h. absurd (omega arith);
      }

  pub fresh_page_free : free_space_remaining (fresh_page first_page) ≡ 4072
  unfolding free_space_remaining
  fresh_page_free =
      let count = num_slots-fresh_page in let put = data_offset-fresh_page in omega arith
