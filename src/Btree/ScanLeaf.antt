-- ===== src/Btree/ScanLeaf.antt =====
-- src/accessor/btree.rs: what the range scan buffers of a leaf.
use abdb.Base.{
  ℕ, zero, suc, Bool, true, false, Option, none, some, List, [], ◌∷◌, if◌then◌else◌, ltb, leb,
  Result, ok, ◌>>=◌, ◌≡◌, refl, sym, ◌∙◌, ◌+◌, ◌<◌, arith, drop, drop_all, drop-get_elem?,
  get_elem?, get_elem?-some, get_elem?-take,
}
use abdb.Index.Leaf
use abdb.Index.Leaf.{BTreeLeafPage, BTreeLeafEntry}
use abdb.Index.Leaf.Contents.{IsValid, live}
use abdb.Slots.{OverlayError, entry_at}
use abdb.Slots.Ops.{length-live}

-- A key with its record id. The code turns the key into its eight bytes.
abbrev pub Item : Type 0
Item = ℕ × (ℕ × ℕ)

abbrev pub below_start : Option ℕ → ℕ → Bool
below_start none key = false
below_start (some start) key = ltb key start

abbrev pub above_end : Option ℕ → ℕ → Bool
above_end none key = false
above_end (some end) key = ltb end key

-- The loop over a leaf's entries, from index `i` for `n` rounds: what is buffered, and whether the
-- end bound was passed.
unfoldable pub load_entries :
    BTreeLeafPage → Option ℕ → Option ℕ → ℕ → ℕ → Result OverlayError (List Item × Bool)
load_entries page start end i zero = ok ([], false)
load_entries page start end i (suc n) =
    let rest = load_entries page start end (suc i) n in
    (do
      e ← Leaf.entry page i
      if below_start start e.key
          then rest
          else (if above_end end e.key
              then ok ([], true)
              else (do (items, passed) ← rest; ok ((e.key, Leaf.record_id e) ∷ items, passed))))

-- The same on the list of a leaf's live entries.
unfoldable pub select : Option ℕ → Option ℕ → List BTreeLeafEntry → List Item × Bool
select start end [] = ([], false)
select start end (e ∷ es) =
    let rest = select start end es in
    if below_start start e.key
    then rest
    else if above_end end e.key
    then ([], true)
    else ((e.key, Leaf.record_id e) ∷ rest.0, rest.1)

load_from :
    (page : BTreeLeafPage) (start end : Option ℕ) (n i : ℕ)
    → IsValid page
    → i + n ≡ Leaf.num_entries page
    → load_entries page start end i n ≡ ok (select start end (drop i (live page)))
unfolding load_entries select
load_from page start end zero i v h =
    rw (drop_all i (live page) (omega (arith, length-live Leaf.key_of v))) refl
load_from page start end (suc n) i v h =
    let inside : i < Leaf.num_entries page = omega arith in
    let (e, read) = get_elem?-some (live page) i (omega (arith, length-live Leaf.key_of v)) in
    let there : leb (Leaf.num_entries page) i ≡ false = ground arith in
    let slot : get_elem? page.slots i ≡ some e =
      sym (get_elem?-take (Leaf.num_entries page) i page.slots inside) ∙ read in
    let entry : Leaf.entry page i ≡ ok e = unfold Leaf.entry entry_at in rw (there, slot) refl in
    rw
      (entry, drop-get_elem? i (live page) read, load_from page start end n (suc i) v (omega arith))
      (ground arith)

-- On a valid leaf the scan buffers what its live entries give.
pub load_entries-select :
    (page : BTreeLeafPage) (start end : Option ℕ)
    → IsValid page
    → load_entries page start end 0 (Leaf.num_entries page) ≡ ok (select start end (live page))
load_entries-select page start end v =
    load_from page start end (Leaf.num_entries page) 0 v (omega arith)
