-- ===== src/Pool/Start.antt =====
-- src/buffer/impl/buffer_pool.rs: a new pool.
use abdb.Base.{ℕ, zero, suc, ◌≡◌, ◌<◌, refl, false, some, none, List, [], ◌∷◌, arith}
use abdb.Common.{PPageId}
use abdb.Disk.{DiskManager}
use abdb.Evictor
use abdb.Pool.{vacant, indices, mem, new}
use abdb.Pool.Valid.{AllVacant, IsValid, vacant-loaded}

indices-AllVacant :
    (n : ℕ) (xs : List ℕ)
    → AllVacant (λ i. vacant) xs
    → ((j : ℕ) → j < n → mem j xs ≡ false)
    → AllVacant (λ i. vacant) (indices n xs)
indices-AllVacant zero xs a below = a
indices-AllVacant (suc n) xs a below =
    indices-AllVacant n (n ∷ xs) (refl, below n (omega arith), a)
      (λ j h. let out : mem j xs ≡ false = below j (omega arith) in ground arith)

no_frame : {i : ℕ} → none ≡ some i → ⊥
no_frame h = cc

-- A new pool over a disk manager whose pages are at different places is valid.
pub new-IsValid :
    (num_frames k : ℕ) (d : DiskManager)
    → ((a b : ℕ) (p : PPageId) → d.page_directory a ≡ some p → d.page_directory b ≡ some p → a ≡ b)
    → IsValid (new num_frames d (Evictor.new k))
unfolding new Evictor.new
new-IsValid num_frames k d apart = record {
  mapped = λ id i h. elim (no_frame h) [ ];
  located = λ p i h. elim (no_frame h) [ ];
  placed = λ i id p dirty h. elim (vacant-loaded h) [ ];
  clean = λ i id p h. elim (vacant-loaded h) [ ];
  one_place = apart;
  vacancies = indices-AllVacant num_frames [] tt (λ j h. refl);
  policy = (tt, tt);
}
