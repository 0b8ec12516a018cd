-- ===== src/Index/Inner/Routing.antt =====
-- src/page/overlays/index/btree_inner.rs: an inner page as a function from keys to children, and
-- what each operation does to that function.
use abdb.Base.{
  ℕ, suc, ◌+◌, ◌-◌, ◌≤◌, ◌<◌, ◌≡◌, ◌≢◌, inl, inr, refl, sym, ◌∙◌, Bool, true, false, none, List,
  set, take, length-replicate, if◌then◌else◌, leb, ltb, ◌&&◌, not, Result, ok, err, arith,
  Option-cases, Bool-cases,
}
use abdb.Slots.{
  OverlayError, page_full, duplicate_key, index_out_of_bounds, entry_at, assoc, key_at, search,
  insert_sorted, remove_at, incr16, route, separated,
}
use abdb.Slots
use abdb.Slots.Search.{key_at-some}
use abdb.Slots.Order.{key_at-take}
use abdb.Slots.Ops.{
  insert_sorted-Placed, insert_sorted_duplicate, insert_sorted_full, remove_at_lem, set_lem,
  take-set, length-live,
}
use abdb.Slots.Route.{route_search-route}
use abdb.Slots.Reroute.{left_child, route-insert_at, route-delete_at, route-set}
use abdb.Index.Inner.{
  BTreeInnerPage, BTreeInnerEntry, separator_of, child_of, new_entry, num_keys, leftmost_child,
  max_keys, init, entry, find_child, insert_separator, delete_separator, update_child, set_entry,
  set_num_keys,
}

abbrev pub IsValid : BTreeInnerPage → Type 0
IsValid p = Slots.IsValid separator_of max_keys p.slots (num_keys p)

abbrev pub live : BTreeInnerPage → List BTreeInnerEntry
live p = take (num_keys p) p.slots

-- The child that a key belongs to, by the separators from left to right.
abbrev pub child_for : BTreeInnerPage → ℕ → ℕ
child_for p k = route separator_of child_of k (leftmost_child p) (live p)

-- Whether a key lies in the range that starts at a separator and ends before the next one.
abbrev pub in_range : BTreeInnerPage → ℕ → ℕ → Bool
in_range p separator k = leb separator k && not (separated separator_of separator k (live p))

pub init-IsValid : (page_id leftmost : ℕ) → IsValid (init page_id leftmost)
unfolding init
init-IsValid page_id leftmost = record {
  whole = length-replicate max_keys (new_entry 0 0);
  within = omega arith;
  small = omega arith;
  sorted = λ i j h p. elim p [ ];
}

-- On a valid inner page the binary search of `find_child` returns the child of the last separator
-- that is at most the key, or the leftmost child if there is none.
pub find_child-child_for :
    (p : BTreeInnerPage) (k : ℕ) → IsValid p → find_child p k ≡ ok (child_for p k)
unfolding find_child
find_child-child_for p k v = route_search-route separator_of child_of v (leftmost_child p) k

-- The ways out of `insert_separator`.
pub data Inserted (p : BTreeInnerPage) (s c : ℕ) (r : Result OverlayError BTreeInnerPage)
    : Type 0 where
  full : num_keys p ≡ max_keys → r ≡ err (page_full max_keys (num_keys p + 1)) → Inserted p s c r
  duplicate :
      num_keys p < max_keys
      → assoc separator_of s (live p) ≢ none
      → r ≡ err (duplicate_key s)
      → Inserted p s c r
  added :
      (q : BTreeInnerPage)
      → num_keys p < max_keys
      → assoc separator_of s (live p) ≡ none
      → r ≡ ok q
      → IsValid q
      → num_keys q ≡ num_keys p + 1
      → ((k : ℕ) → child_for q k ≡ (if in_range p s k then c else child_for p k))
      → Inserted p s c r

-- `insert_separator` on a valid inner page: a full page and a separator that is there are refused
-- with their errors; otherwise the page stays valid with one more separator, the keys from it up to
-- the next separator go to the new child, and every other key goes where it went.
pub insert_separator-Inserted :
    (p : BTreeInnerPage) (s c : ℕ) → IsValid p → Inserted p s c (insert_separator p s c)
insert_separator-Inserted p s c v = elim (Bool-cases (ltb (num_keys p) max_keys)) [
  | inr no_room ↦
      let at_end : num_keys p ≡ max_keys = ground (arith, v.within) in
      full at_end (
        unfold insert_separator in
        rw (insert_sorted_full separator_of v s (new_entry s c) at_end) refl)
  | inl yes_room ↦
      let room : num_keys p < max_keys = ground arith in
      elim (Option-cases (assoc separator_of s (live p))) [
        | inr (x, held) ↦ duplicate room (rw held (λ e. cc)) (
            unfold insert_separator in
            rw (insert_sorted_duplicate separator_of v s (new_entry s c) x room held) refl)
        | inl absent ↦
            let (slots, i, w) =
              insert_sorted-Placed separator_of v s (new_entry s c) refl room absent in
            let count : incr16 (num_keys p) ≡ suc (num_keys p) = omega arith in
            added (set_num_keys (record p { slots = slots }) (incr16 (num_keys p))) room absent
              (unfold insert_separator in rw w.runs refl) (unfold set_num_keys in rw count w.valid)
              (unfold set_num_keys in omega arith)
              (λ k.
                unfold set_num_keys in
                rw (count, w.live)
                  (route-insert_at separator_of child_of k (leftmost_child p) i (new_entry s c)
                    (live p) v.sorted (omega (arith, w.place.0, length-live separator_of v))
                    w.place.1 (λ j h q. w.place.2 j h (omega (arith, length-live separator_of v)))))
      ]
]

-- The ways out of `delete_separator`.
pub data Deleted (p : BTreeInnerPage) (i : ℕ) (r : Result OverlayError BTreeInnerPage)
    : Type 0 where
  out_of_bounds : num_keys p ≤ i → r ≡ err (index_out_of_bounds i (num_keys p)) → Deleted p i r
  removed :
      (q : BTreeInnerPage)
      → i < num_keys p
      → r ≡ ok q
      → IsValid q
      → num_keys q ≡ num_keys p - 1
      → ((k : ℕ)
          → child_for q k ≡ (
              if in_range p (key_at separator_of (live p) i) k
              then left_child separator_of child_of (leftmost_child p) i (live p)
              else child_for p k))
      → Deleted p i r

-- `delete_separator` on a valid inner page: an index past the separators is refused; otherwise the
-- page stays valid with one separator less, the keys of the separator's range go to the child left
-- of it, and every other key goes where it went.
pub delete_separator-Deleted :
    (p : BTreeInnerPage) (i : ℕ) → IsValid p → Deleted p i (delete_separator p i)
delete_separator-Deleted p i v = elim (Bool-cases (leb (num_keys p) i)) [
  | inl past ↦ out_of_bounds (ground arith) (unfold delete_separator remove_at in rw past refl)
  | inr there ↦
      let inside : i < num_keys p = ground arith in
      let (s, runs, valid, _, gone) = remove_at_lem separator_of v i inside in
      removed (set_num_keys (record p { slots = s }) (num_keys p - 1)) inside
        (unfold delete_separator in rw runs refl) (unfold set_num_keys in valid)
        (unfold set_num_keys in refl)
        (λ k.
          unfold set_num_keys in
          rw gone (
            route-delete_at separator_of child_of k (leftmost_child p) i (live p) v.sorted
              (omega (arith, length-live separator_of v))))
]

-- `update_child` on a valid inner page, at the index of a separator: the page stays valid, the keys
-- of the separator's range go to the new child, and every other key goes where it went.
pub update_child-child_for :
    (p : BTreeInnerPage) (i c : ℕ)
    → IsValid p
    → i < num_keys p
    → (q : BTreeInnerPage) × (update_child p i c ≡ ok q)
      × IsValid q
      × ((k : ℕ)
          → child_for q k
            ≡ (if in_range p (key_at separator_of (live p) i) k then c else child_for p k))
unfolding update_child set_entry entry entry_at
update_child-child_for p i c v h =
    let (e, read, same) = key_at-some separator_of p.slots i (omega (arith, v.whole, v.within)) in
    let there : leb (num_keys p) i ≡ false = ground arith in
    let within : ltb i max_keys ≡ true = ground (arith, v.within) in
    let at : separator_of e ≡ key_at separator_of (live p) i =
      same ∙ sym (key_at-take separator_of (num_keys p) i p.slots h) in
    let new : BTreeInnerEntry = new_entry (separator_of e) c in
    (
      record p { slots = set p.slots i new },
      rw (there, read, within) refl,
      (set_lem separator_of v i new h at).0,
      λ k.
          rw (take-set separator_of v (num_keys p) i p.slots new h, ← at)
            (route-set separator_of child_of k (leftmost_child p) i new (live p) v.sorted
              (omega (arith, length-live separator_of v)) at),
    )
