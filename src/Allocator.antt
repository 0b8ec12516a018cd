-- ===== src/Allocator.antt =====
-- src/storage/allocator/allocator.rs: the allocator that extends files at their ends. The hash map is
-- a function from file ids; the lock is never poisoned, and no call fails.
use abdb.Base.{
  ℕ, suc, ◌+◌, ◌*◌, ◌%◌, ◌^◌, ◌<◌, ◌≡◌, refl, false, Option, some, none, List, [], ◌∷◌, length,
  if◌then◌else◌, ◌==◌, arith, Bool-cases, inl, inr,
}
use abdb.Common.{PPageId, page_buf_size}

pub record SimpleAllocator : Type 0 where
  pub next_page : ℕ → Option ℕ

unfoldable pub new : SimpleAllocator
new = record { next_page = λ file. none }

abbrev insert : (ℕ → Option ℕ) → ℕ → ℕ → ℕ → Option ℕ
insert m file n other = if file == other then some n else m other

unfoldable pub register_file : SimpleAllocator → ℕ → ℕ → SimpleAllocator
register_file a file_id current_page_count = record {
  next_page = insert a.next_page file_id current_page_count;
}

unfoldable pub page_count : SimpleAllocator → ℕ → Option ℕ
page_count a file_id = a.next_page file_id

-- The next page of a file; 1 for a file that is not there yet, since page 0 is the header.
unfoldable pub next : SimpleAllocator → ℕ → ℕ
next a file_id = elim (a.next_page file_id) [ none ↦ 1 | some n ↦ n ]

-- The counter is a u32.
unfoldable pub allocate : SimpleAllocator → ℕ → SimpleAllocator × PPageId
unfolding next
allocate a file_id = (
  record { next_page = insert a.next_page file_id ((next a file_id + 1) % 2 ^ 32) },
  record { file = file_id; offset = next a file_id * page_buf_size },
)

unfoldable pub deallocate : SimpleAllocator → PPageId → SimpleAllocator
deallocate a physical_id = a

-- Allocations and deallocations in turn.
pub data Call : Type 0 where
  allocates : ℕ → Call
  deallocates : PPageId → Call

-- The pages that a sequence of calls allocates.
unfoldable pub allocated : SimpleAllocator → List Call → List PPageId
allocated a [] = []
allocated a (allocates file ∷ cs) = (allocate a file).1 ∷ allocated (allocate a file).0 cs
allocated a (deallocates p ∷ cs) = allocated (deallocate a p) cs

-- The pages of one file in a list are page `n` and those behind it, in order and without a gap.
abbrev pub Consecutive : ℕ → ℕ → List PPageId → Type 0
Consecutive file n [] = Unit {0}
Consecutive file n (p ∷ ps) =
    if p.file == file
    then (p.offset ≡ n * page_buf_size) × Consecutive file (suc n) ps
    else Consecutive file n ps

next-insert_same :
    (a : SimpleAllocator) (file n : ℕ)
    → next (record { next_page = insert a.next_page file n }) file ≡ n
unfolding next
next-insert_same a file n = ground arith

next-insert_other :
    (a : SimpleAllocator) (file n other : ℕ)
    → (file == other) ≡ false
    → next (record { next_page = insert a.next_page file n }) other ≡ next a other
unfolding next
next-insert_other a file n other h = rw (h, next) refl

allocated-Consecutive_from :
    (a : SimpleAllocator) (file n : ℕ) (cs : List Call)
    → n ≡ next a file
    → n + length cs < 2 ^ 32
    → Consecutive file n (allocated a cs)
unfolding allocated allocate deallocate
allocated-Consecutive_from a file n [] e h = tt
allocated-Consecutive_from a file n (deallocates p ∷ cs) e h =
    allocated-Consecutive_from a file n cs e (omega arith)
allocated-Consecutive_from a file n (allocates other ∷ cs) e h = elim (Bool-cases (other == file)) [
  | inl same ↦
      let eq : other ≡ file = ground arith in
      let step : (next a other + 1) % 2 ^ 32 ≡ suc n = rw eq (omega arith) in
      rw same (
        rw eq (omega arith),
        allocated-Consecutive_from
            (record { next_page = insert a.next_page other ((next a other + 1) % 2 ^ 32) }) file
            (suc n) cs
            (rw eq (rw (next-insert_same a file ((next a file + 1) % 2 ^ 32)) (omega arith)))
            (omega arith),
      )
  | inr different ↦ rw different (
      allocated-Consecutive_from
        (record { next_page = insert a.next_page other ((next a other + 1) % 2 ^ 32) }) file n cs
        (rw (next-insert_other a other ((next a other + 1) % 2 ^ 32) file different) e)
        (omega arith))
]

-- While the next page number of a file and the number of calls stay below 2 ^ 32 together, the pages
-- of the file that the calls allocate are those from its next page on, in order and without a gap,
-- whatever is deallocated.
pub allocated-Consecutive :
    (a : SimpleAllocator) (file : ℕ) (cs : List Call)
    → next a file + length cs < 2 ^ 32
    → Consecutive file (next a file) (allocated a cs)
allocated-Consecutive a file cs h = allocated-Consecutive_from a file (next a file) cs refl h
