-- ===== src/Btree/Scan/Chain.antt =====
-- src/accessor/btree.rs: a scan with no end bound along a chain of leaves.
use abdb.Base.{
  ℕ, zero, suc, ◌≡◌, ◌≢◌, refl, ap, ◌∙◌, true, false, Option, none, some, List, [], ◌∷◌, ◌++◌,
  get_elem?, length, drop, drop-get_elem?, drop_all, get_elem?-some, arith, ◌==◌, ◌+◌, ◌<◌, ◌≤◌,
  Option-cases, inl, inr, leb, Bool-cases, if◌then◌else◌, ◌&&◌,
}
use abdb.Index.Leaf.{BTreeLeafPage, BTreeLeafEntry}
use abdb.Index.Leaf.Contents.{IsValid, live}
use abdb.Btree.{Index, leaf}
use abdb.Btree.ScanLeaf.{Item, select, load_entries-select}
use abdb.Btree.Scan.{
  BTreeScanState, Polled, poll, poll_loop, collect, item, finished, scan_state, loaded, is_nil,
}

-- The leaves from a page id along `next_page` to the end of the chain.
abbrev pub Chain : Index → ℕ → List BTreeLeafPage → Type 0
Chain s id [] = id ≡ 0
Chain s id (p ∷ ps) =
    (id ≢ 0) × (s.pages id ≡ some (leaf p)) × IsValid p × Chain s p.header.next_page ps

-- The items of a chain: of the first leaf those from the start key on, of the others all.
unfoldable pub items : Option ℕ → List BTreeLeafPage → List Item
items start [] = []
items start (p ∷ ps) = (select start none (live p)).0 ++ items none ps

select_unbounded : (start : Option ℕ) (es : List BTreeLeafEntry) → (select start none es).1 ≡ false
unfolding select
select_unbounded start [] = refl
select_unbounded start (e ∷ es) = ground (arith, select_unbounded start es)

-- What is still to come at a state.
abbrev pending : BTreeScanState → List BTreeLeafPage → List Item
pending st ps = drop st.buf_idx st.buffered ++ items st.start_key ps

record Running (s : Index) (st : BTreeScanState) (ps : List BTreeLeafPage) : Type 0 where
  chain : Chain s st.current_leaf ps
  unbounded : st.end_key ≡ none
  running : st.done ≡ false

data Progress (s : Index) (st : BTreeScanState) (ps : List BTreeLeafPage) (r : Polled)
    : Type 0 where
  ended : pending st ps ≡ [] → r ≡ finished → Progress s st ps r
  yields :
      (x : Item) (st' : BTreeScanState) (ps' : List BTreeLeafPage)
      → r ≡ item x st'
      → pending st ps ≡ x ∷ pending st' ps'
      → Running s st' ps'
      → length ps' ≤ length ps
      → Progress s st ps r

nil_of_is_nil : (xs : List Item) → is_nil xs ≡ true → xs ≡ []
nil_of_is_nil [] h = refl
nil_of_is_nil (x ∷ xs) h = cc

-- The state after a leaf with no end bound.
abbrev next_state : BTreeScanState → BTreeLeafPage → BTreeScanState
next_state st p = record {
  current_leaf = p.header.next_page;
  start_key = none;
  end_key = none;
  buffered = (select st.start_key none (live p)).0;
  buf_idx = 0;
  done = false;
}

loaded-next_state :
    (st : BTreeScanState) (p : BTreeLeafPage)
    → st.end_key ≡ none
    → st.done ≡ false
    → loaded st p.header.next_page (select st.start_key st.end_key (live p)) ≡ next_state st p
loaded-next_state st p e d = ground (arith, e, d, select_unbounded st.start_key (live p))

Chain-end : (s : Index) (ps : List BTreeLeafPage) (id : ℕ) → Chain s id ps → id ≡ 0 → ps ≡ []
Chain-end s [] id c e = refl
Chain-end s (p ∷ ps) id c e = absurd (c.0 e)

module _ (fuel : ℕ) (s : Index) (st : BTreeScanState) where
  step_item :
      (x : Item)
      → get_elem? st.buffered st.buf_idx ≡ some x
      → poll_loop (suc fuel) st s ≡ item x (record st { buf_idx = st.buf_idx + 1 })
  unfolding poll_loop
  step_item x read = ground arith

  step_end :
      get_elem? st.buffered st.buf_idx ≡ none
      → st.current_leaf ≡ 0
      → poll_loop (suc fuel) st s ≡ finished
  unfolding poll_loop
  step_end drained e = ground arith

  step_leaf :
      (p : BTreeLeafPage)
      → get_elem? st.buffered st.buf_idx ≡ none
      → st.current_leaf ≢ 0
      → st.done ≡ false
      → st.end_key ≡ none
      → s.pages st.current_leaf ≡ some (leaf p)
      → IsValid p
      → poll_loop (suc fuel) st s ≡ (
          if p.header.next_page == 0 && is_nil (select st.start_key none (live p)).0
          then finished
          else poll_loop fuel (next_state st p) s)
  unfolding poll_loop
  step_leaf p drained there on e read v =
      ground (arith, load_entries-select p st.start_key st.end_key v, loaded-next_state st p e on)

drop_drained : (xs : List Item) (i : ℕ) → get_elem? xs i ≡ none → drop i xs ≡ []
drop_drained xs i e = elim (Bool-cases (leb (length xs) i)) [
  | inl past ↦ drop_all i xs (ground arith)
  | inr there ↦ let (x, read) = get_elem?-some xs i (ground arith) in cc
]

later :
    {s : Index} {st st' : BTreeScanState} {ps ps' : List BTreeLeafPage} {r : Polled}
    → pending st ps ≡ pending st' ps'
    → length ps' ≤ length ps
    → Progress s st' ps' r
    → Progress s st ps r
later e h (ended p q) = ended (e ∙ p) q
later e h (yields x st'' ps'' q p w l) = yields x st'' ps'' q (e ∙ p) w (omega arith)

poll_loop-Progress :
    (fuel : ℕ) (s : Index) (st : BTreeScanState) (ps : List BTreeLeafPage)
    → length ps < fuel
    → Running s st ps
    → Progress s st ps (poll_loop fuel st s)
poll_loop-Progress zero s st ps h w = elim h [ ]
poll_loop-Progress (suc fuel) s st [] h w = elim (Option-cases (get_elem? st.buffered st.buf_idx)) [
  | inr (x, read) ↦
      let next : st.buf_idx + 1 ≡ suc st.buf_idx = omega arith in
      yields x (record st { buf_idx = st.buf_idx + 1 }) [] (step_item fuel s st x read)
        (rw (next, drop-get_elem? st.buf_idx st.buffered read) refl)
        (record { chain = w.chain; unbounded = w.unbounded; running = w.running }) (omega arith)
  | inl drained ↦
      ended (unfold items in rw (drop_drained st.buffered st.buf_idx drained) refl)
        (step_end fuel s st drained w.chain)
]
poll_loop-Progress (suc fuel) s st (p ∷ ps) h w =
    let again =
      poll_loop-Progress fuel s (next_state st p) ps (omega arith)
        (record { chain = w.chain.3; unbounded = refl; running = refl }) in
    elim (Option-cases (get_elem? st.buffered st.buf_idx)) [
      | inr (x, read) ↦
          let next : st.buf_idx + 1 ≡ suc st.buf_idx = omega arith in
          yields x (record st { buf_idx = st.buf_idx + 1 }) (p ∷ ps) (step_item fuel s st x read)
            (rw (next, drop-get_elem? st.buf_idx st.buffered read) refl)
            (record { chain = w.chain; unbounded = w.unbounded; running = w.running }) (omega arith)
      | inl drained ↦
          let same : pending st (p ∷ ps) ≡ pending (next_state st p) ps =
            unfold items in rw (drop_drained st.buffered st.buf_idx drained) refl in
          let step =
            step_leaf fuel s st p drained w.chain.0 w.running w.unbounded w.chain.1 w.chain.2 in
          elim (Bool-cases
            (p.header.next_page == 0 && is_nil (select st.start_key none (live p)).0)) [
              | inr on ↦ rw (step, on) (later same (omega arith) again)
              | inl last ↦
                  let none_left : ps ≡ [] =
                    Chain-end s ps p.header.next_page w.chain.3 (ground arith) in
                  let nothing : (select st.start_key none (live p)).0 ≡ [] =
                    nil_of_is_nil _ (ground arith) in
                  rw (step, last)
                    (ended (same ∙ (rw (nothing, none_left) (unfold items in refl))) refl)
            ]
    ]

collect-Running :
    (polls fuel : ℕ) (s : Index) (st : BTreeScanState) (ps : List BTreeLeafPage)
    → length ps < fuel
    → length (pending st ps) < polls
    → Running s st ps
    → collect polls fuel st s ≡ (pending st ps, true)
unfolding collect poll
collect-Running zero fuel s st ps h q w = elim q [ ]
collect-Running (suc polls) fuel s st ps h q w = elim (poll_loop-Progress fuel s st ps h w) [
  | ended none_left stops ↦ ground (arith, w.running, none_left, stops)
  | yields x st' ps' step more w' shorter ↦
      let rest =
        collect-Running polls fuel s st' ps' (omega arith)
          (let e : length (pending st ps) ≡ suc (length (pending st' ps')) = ap length more in
            omega arith)
          w' in
      let on : poll fuel st s ≡ item x st' = ground (arith, w.running, step) in
      rw more (ground (arith, on, rest))
]

-- Without an end bound, the stream over a chain of valid leaves delivers in the order of the chain
-- every live entry of the first leaf from the start key on and every live entry of the others, and
-- then ends. It takes one poll more than there are items, and a poll takes at most one round more
-- than there are leaves.
pub collect-Chain :
    (s : Index) (id : ℕ) (start : Option ℕ) (ps : List BTreeLeafPage) (polls fuel : ℕ)
    → Chain s id ps
    → length ps < fuel
    → length (items start ps) < polls
    → collect polls fuel (scan_state id start none) s ≡ (items start ps, true)
collect-Chain s id start ps polls fuel chain enough more =
    collect-Running polls fuel s (scan_state id start none) ps enough more
      (record { chain = chain; unbounded = refl; running = refl })
