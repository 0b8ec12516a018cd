-- ===== src/Btree/Scan/EndBound.antt =====
-- src/accessor/btree.rs: the end bound of the range scan. `done` is set as soon as a leaf passes the
-- bound, and the next poll looks at `done` before the buffer.
use abdb.Base.{ℕ, suc, ◌≡◌, ◌≢◌, true, Option, some, List, [], ◌∷◌, arith}
use abdb.Index.Leaf.{BTreeLeafPage}
use abdb.Index.Leaf.Contents.{IsValid, live}
use abdb.Btree.{Index, leaf}
use abdb.Btree.ScanLeaf.{Item, select, load_entries-select}
use abdb.Btree.Scan.{poll, poll_loop, collect, scan_state}

-- A scan from a valid leaf page with a nonzero id, some of whose entries are in the range and a
-- later one passes the end bound, delivers the first entry in the range and ends, however many
-- others of the leaf are in the range, for every number of polls from two and of rounds from two.
pub collect_end_bound :
    (page : BTreeLeafPage) (id : ℕ) (start end : Option ℕ) (x : Item) (xs : List Item) (s : Index)
    (polls fuel : ℕ)
    → id ≢ 0
    → s.pages id ≡ some (leaf page)
    → IsValid page
    → select start end (live page) ≡ (x ∷ xs, true)
    → collect (suc (suc polls)) (suc (suc fuel)) (scan_state id start end) s ≡ (x ∷ [], true)
unfolding collect poll poll_loop
collect_end_bound page id start end x xs s polls fuel there read v given =
    ground (arith, load_entries-select page start end v)
