-- ===== src/Btree/Split/Separators.antt =====
-- src/accessor/btree.rs: an inner page filled with separators in order, and the route of a key where a
-- page is cut in two.
use abdb.Base.{
  ℕ, zero, suc, ◌+◌, ◌≤◌, ◌<◌, ◌≡◌, inl, inr, refl, sym, ap, ◌∙◌, some, none, List, [], ◌∷◌, ◌++◌,
  length, take, drop, ltb, leb, arith, get_elem?, ok, Bool-cases, if◌then◌else◌,
}
use mathlib.Core.List.{append_assoc, append-nil}
use abdb.Slots.{key_at, IsSorted, assoc, incr16, route}
use abdb.Slots.Assoc.{assoc_absent}
use abdb.Slots.Ops.{insert_sorted-Placed, length-live}
use abdb.Index.Inner
use abdb.Index.Inner.{BTreeInnerPage, BTreeInnerEntry}
use abdb.Index.Inner.Routing.{IsValid, live}
use abdb.Btree.Collect.{read_entries, insert_separators}
use abdb.Btree.Refill.{read_from, append_sorted-lt, insert_at_end}

pub read_inner :
    (p : BTreeInnerPage)
    → IsValid p
    → read_entries (Inner.entry p) 0 (Inner.num_keys p) ≡ ok (live p)
unfolding Inner.entry
read_inner p v =
    read_from Inner.separator_of p.slots (Inner.num_keys p) (Inner.num_keys p) 0
      (omega (arith, v.whole, v.within)) (omega arith)

-- A separator above all others goes to the end.
insert_separator_end :
    (p : BTreeInnerPage) (e : BTreeInnerEntry)
    → IsValid p
    → Inner.num_keys p < Inner.max_keys
    → ((j : ℕ) → j < Inner.num_keys p → key_at Inner.separator_of (live p) j < e.separator_key)
    → (q : BTreeInnerPage) × (Inner.insert_separator p e.separator_key e.right_child ≡ ok q)
      × IsValid q
      × (live q ≡ live p ++ e ∷ [])
      × (Inner.num_keys q ≡ suc (Inner.num_keys p))
      × (Inner.leftmost_child q ≡ Inner.leftmost_child p)
unfolding Inner.insert_separator Inner.set_num_keys
insert_separator_end p e v room above =
    let long : length (live p) ≡ Inner.num_keys p = length-live Inner.separator_of v in
    let absent : assoc Inner.separator_of e.separator_key (live p) ≡ none =
      assoc_absent Inner.separator_of e.separator_key (live p) (λ j h same.
        let lt : key_at Inner.separator_of (live p) j < e.separator_key = above j (omega arith) in
        omega arith) in
    let (s, i, w) = insert_sorted-Placed Inner.separator_of v e.separator_key e refl room absent in
    let at_end : i ≡ length (live p) = elim (Bool-cases (ltb i (Inner.num_keys p))) [
      | inl inside ↦
          let i_lt : i < Inner.num_keys p = ground arith in
          absurd (omega (arith, w.place.2 i (omega arith) i_lt, above i i_lt))
      | inr past ↦ let i_ge : Inner.num_keys p ≤ i = ground arith in omega (arith, w.place.0)
    ] in
    let count : incr16 (Inner.num_keys p) ≡ suc (Inner.num_keys p) = omega arith in
    (
      record p { slots = s; header = record p.header { num_keys = incr16 (Inner.num_keys p) } },
      rw w.runs refl,
      rw count w.valid,
      rw (count, w.live) (insert_at_end (live p) e i at_end),
      count,
      refl,
    )

-- A page filled with separators in order, above those it has, holds them behind its own.
pub insert_separators-live :
    (p : BTreeInnerPage) (es : List BTreeInnerEntry)
    → IsValid p
    → Inner.num_keys p + length es ≤ Inner.max_keys
    → IsSorted Inner.separator_of (live p ++ es)
    → (q : BTreeInnerPage) × (insert_separators p es ≡ ok q)
      × IsValid q
      × (live q ≡ live p ++ es)
      × (Inner.leftmost_child q ≡ Inner.leftmost_child p)
unfolding insert_separators
insert_separators-live p [] v room sorted = (p, refl, v, sym (append-nil (live p)), refl)
insert_separators-live p (e ∷ es) v room sorted =
    let long : length (live p) ≡ Inner.num_keys p = length-live Inner.separator_of v in
    let (q, runs, v', more, count, same) =
      insert_separator_end p e v (omega arith)
        (λ j h. append_sorted-lt Inner.separator_of (live p) e es sorted j (omega arith)) in
    let all : live q ++ es ≡ live p ++ e ∷ es = rw more (append_assoc (live p) (e ∷ []) es) in
    let (r, runs', v'', whole, same') =
      insert_separators-live q es v' (omega arith) (rw all sorted) in
    (r, rw runs runs', v'', whole ∙ all, same' ∙ same)

module _ {E : Type 0} (key child : E → ℕ) where
  key_at-get_elem? :
      (n : ℕ) (es : List E) {m : E}
      → get_elem? es n ≡ some m
      → (key_at key es n ≡ key m) × (n < length es)
  key_at-get_elem? n [] at = cc
  key_at-get_elem? zero (e ∷ es) {m} at =
      let same : e ≡ m = ground (arith, at) in (ap key same, omega arith)
  key_at-get_elem? (suc n) (e ∷ es) at = let (a, b) = key_at-get_elem? n es at in (a, omega arith)

  -- Where a page is cut at a separator, the keys below it are routed by those before it, and the
  -- others by those behind it, with its child as the leftmost.
  pub route-cut :
      (k leftmost n : ℕ) (es : List E) {m : E}
      → IsSorted key es
      → get_elem? es n ≡ some m
      → route key child k leftmost es ≡ (
          if leb (key m) k
          then route key child k (child m) (drop (suc n) es)
          else route key child k leftmost (take n es))
  unfolding route
  route-cut k leftmost n [] sorted at = cc
  route-cut k leftmost zero (e ∷ es) sorted at = ground (arith, at)
  route-cut k leftmost (suc n) (e ∷ es) {m} sorted at =
      let tail : IsSorted key es = λ i j h q. sorted (suc i) (suc j) (omega arith) (omega arith) in
      let (here, inside) = key_at-get_elem? n es at in
      let gap : key_at key (e ∷ es) 0 < key_at key (e ∷ es) (suc n) =
        sorted 0 (suc n) (omega arith) (omega arith) in
      ground (arith, here, gap, route-cut k (child e) n es tail at)
