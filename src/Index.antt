-- ===== src/Index.antt =====
-- src/page/overlays/index: the pages of the index B-tree.
pub mod Leaf
pub mod Inner
