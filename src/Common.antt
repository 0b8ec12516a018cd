-- ===== src/Common.antt =====
-- src/common/aliases.rs and src/common/constants.rs: what the storage layers share.
use abdb.Base.{ℕ, ◌≡◌, Bool, true, ◌==◌, ◌&&◌, arith}

-- `PPageId`: a file and an offset in bytes.
pub record PPageId : Type 0 where
  pub file : ℕ
  pub offset : ℕ

-- `PAGE_BUF_SIZE`.
abbrev pub page_buf_size : ℕ
page_buf_size = 4096

-- Equality of places, as derived.
abbrev pub same_loc : PPageId → PPageId → Bool
same_loc a b = (a.file == b.file) && (a.offset == b.offset)

pub same_loc-true : (a b : PPageId) → same_loc a b ≡ true → a ≡ b
same_loc-true a b h = ground arith

pub same_loc_refl : (a : PPageId) → same_loc a a ≡ true
same_loc_refl a = ground arith
