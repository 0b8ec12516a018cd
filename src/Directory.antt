-- ===== src/Directory.antt =====
-- src/page/overlays/directory: the pages of the page directory, the B-tree from logical page ids to
-- places in files.
pub mod Leaf
pub mod Inner
