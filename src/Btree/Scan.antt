-- ===== src/Btree/Scan.antt =====
-- src/accessor/btree.rs: the range scan, as the state machine of its stream.
pub mod Chain
pub mod EndBound
use abdb.Base.{
  ℕ, zero, suc, ◌+◌, Bool, true, false, Option, none, some, List, [], ◌∷◌, ◌++◌, if◌then◌else◌, leb,
  ltb, ◌==◌, ◌||◌, ◌&&◌, no_fuel, Result, ok, err, panic, get_elem?, length,
}
use abdb.Index.Leaf
use abdb.Index.Leaf.{BTreeLeafPage, BTreeLeafEntry}
use abdb.Slots.{OverlayError}
use abdb.Btree.{
  Index, M, Node, Error, leaf, inner, other, ◌>>=◌, ◌>>◌, pure, as_leaf, read_root_page,
  buffer_error, page_corruption, wrong_overlay,
}
use abdb.Btree.ScanLeaf.{Item, load_entries}
use abdb.Btree.Traverse.{find_leaf}

pub record BTreeScanState : Type 0 where
  pub current_leaf : ℕ
  pub start_key : Option ℕ
  pub end_key : Option ℕ
  pub buffered : List Item
  pub buf_idx : ℕ
  pub done : Bool

-- What one poll of the stream gives: an item or an error with the next state, or the end. (The read
-- of an entry below the count does not fail, so that the buffer at such an error is not modelled.)
pub data Polled : Type 0 where
  item : Item → BTreeScanState → Polled
  failed : Error → BTreeScanState → Polled
  finished : Polled
  crashed : Polled
  out_of_fuel : Polled

-- The state once a leaf is loaded.
abbrev pub loaded : BTreeScanState → ℕ → List Item × Bool → BTreeScanState
loaded st next_leaf (items, passed) = record {
  current_leaf = next_leaf;
  start_key = none;
  end_key = st.end_key;
  buffered = items;
  buf_idx = 0;
  done = passed || st.done;
}

abbrev pub is_nil : List Item → Bool
is_nil [] = true
is_nil (x ∷ xs) = false

-- The loop of a poll: the next buffered item, else the next leaf.
unfoldable pub poll_loop : ℕ → BTreeScanState → Index → Polled
poll_loop zero st s = out_of_fuel
poll_loop (suc fuel) st s = elim (get_elem? st.buffered st.buf_idx) [
  | some x ↦ item x (record st { buf_idx = st.buf_idx + 1 })
  | none ↦ if st.current_leaf == 0 || st.done then finished else (elim (s.pages st.current_leaf) [
    | none ↦ failed buffer_error st
    | some node ↦ (elim node [
      | inner p ↦ failed wrong_overlay st
      | other t ↦ failed wrong_overlay st
      | leaf page ↦ (elim (load_entries page st.start_key st.end_key 0 (Leaf.num_entries page)) [
        | err e ↦ failed page_corruption (record st { buffered = []; buf_idx = 0 })
        | panic ↦ crashed
        | no_fuel ↦ out_of_fuel
        | ok r ↦
            let next = poll_loop fuel (loaded st page.header.next_page r) s in
            if page.header.next_page == 0 && is_nil r.0 then finished else next
      ])
    ])
  ])
]

-- One poll of the stream.
unfoldable pub poll : ℕ → BTreeScanState → Index → Polled
poll fuel st s = if st.done then finished else poll_loop fuel st s

-- The items of so many polls up to an error, and whether the stream has ended.
unfoldable pub collect : ℕ → ℕ → BTreeScanState → Index → List Item × Bool
collect zero fuel st s = ([], false)
collect (suc polls) fuel st s = elim (poll fuel st s) [
  | item x next ↦ (let r = collect polls fuel next s in (x ∷ r.0, r.1))
  | finished ↦ ([], true)
  | failed e next ↦ ([], false)
  | crashed ↦ ([], false)
  | out_of_fuel ↦ ([], false)
]

-- The state that `scan` builds once the first leaf is known.
abbrev pub scan_state : ℕ → Option ℕ → Option ℕ → BTreeScanState
scan_state leaf_page start end = record {
  current_leaf = leaf_page;
  start_key = start;
  end_key = end;
  buffered = [];
  buf_idx = 0;
  done = false;
}

abbrev or_zero : Option ℕ → ℕ
or_zero none = 0
or_zero (some k) = k

-- `scan`, on fuel for the descent.
unfoldable pub scan : ℕ → Option ℕ → Option ℕ → M BTreeScanState
scan fuel start end = do
  root_page ← read_root_page
  if root_page == 0 then pure (record (scan_state 0 start end) { done = true }) else (do
    leaf_page ← find_leaf fuel root_page (or_zero start)
    pure (scan_state leaf_page start end))
