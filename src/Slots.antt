-- ===== src/Slots.antt =====
-- What the four B-tree overlays share (src/page/overlays/{index,directory}/*.rs): an array of
-- entries sorted by a u64 key, of which the first `num` are live.
pub mod Search
pub mod Shift
pub mod Assoc
pub mod Order
pub mod Ops
pub mod Route
pub mod Reroute
pub mod Cut
use abdb.Base.{
  ℕ, zero, suc, ◌+◌, ◌-◌, ◌*◌, ◌/◌, ◌%◌, ◌≤◌, ◌<◌, compare, Ordering, ◌≡◌, Bool, true, false,
  Option, none, some, List, [], ◌∷◌, ◌++◌, length, get_elem?, set, take, drop, if◌then◌else◌, leb,
  ltb, ◌==◌, ◌&&◌, ◌||◌, Result, ok, err, panic, no_fuel, ◌>>=◌, ◌>>◌, assert, expect, unwrap,
}
use abdb.PageType.{PageType}

-- src/page/overlays/{index,directory}/error.rs, the errors that the overlays return.
pub data OverlayError : Type 0 where
  type_mismatch : PageType → PageType → OverlayError
  invalid_page_type : ℕ → OverlayError
  page_full : ℕ → ℕ → OverlayError
  duplicate_key : ℕ → OverlayError
  index_out_of_bounds : ℕ → ℕ → OverlayError

-- `a + 1` on u16.
abbrev pub incr16 : ℕ → ℕ
incr16 a = (a + 1) % 65536

-- `slice.copy_within(src .. src + count, dst)`, in units of whole entries.
unfoldable pub copy_within {ℓ} : {A : Type ℓ} → List A → ℕ → ℕ → ℕ → List A
copy_within xs src count dst = take dst xs ++ (take count (drop src xs) ++ drop (dst + count) xs)

module _ {E : Type 0} (key : E → ℕ) where
  -- The key at an index, 0 outside the list: for statements, where the index is within.
  abbrev pub key_at : List E → ℕ → ℕ
  key_at [] i = 0
  key_at (e ∷ es) zero = key e
  key_at (e ∷ es) (suc i) = key_at es i

  -- Keys rise strictly along the list.
  abbrev pub IsSorted : List E → Type 0
  IsSorted es = (i j : ℕ) → i < j → j < length es → key_at es i < key_at es j

  -- The list as a map from keys to entries.
  unfoldable pub assoc : ℕ → List E → Option E
  assoc k [] = none
  assoc k (e ∷ es) = if key e == k then some e else assoc k es

-- `entry`: the live entry at an index. A read outside the page panics.
unfoldable pub entry_at : {E : Type 0} → List E → ℕ → ℕ → Result OverlayError E
entry_at slots num index =
    if leb num index then err (index_out_of_bounds index num) else expect (get_elem? slots index)

module _ {E : Type 0} (key : E → ℕ) (slots : List E) (num target : ℕ) where
  -- The loop of `find_slot`, on fuel.
  unfoldable pub search_loop : ℕ → ℕ → ℕ → Result OverlayError (Bool × ℕ)
  search_loop zero left right = no_fuel
  search_loop (suc fuel) left right =
      let mid : ℕ = left + (right - left) / 2 in
      let upper = search_loop fuel (incr16 mid) right in
      let lower = search_loop fuel left mid in
      if ltb left right
      then (do
        e ← unwrap (entry_at slots num mid)
        elim (compare (key e) target) [
          | Ordering.eq ↦ ok (true, mid)
          | Ordering.lt ↦ upper
          | Ordering.gt ↦ lower
        ])
      else ok (false, left)

  -- `find_slot`. A range of `num` entries takes at most `num` rounds.
  unfoldable pub search : Result OverlayError (Bool × ℕ)
  search = if num == 0 then ok (false, 0) else search_loop (num + 1) 0 num

-- The body of `insert_entry` behind its guards: shift right, write, count.
unfoldable pub shift_insert : {E : Type 0} → ℕ → List E → ℕ → ℕ → E → Result OverlayError (List E)
shift_insert capacity slots num pos e = do
  assert (ltb pos capacity)
  let shifted = if ltb pos num then copy_within slots pos (num - pos) (incr16 pos) else slots
  ok (set shifted pos e)

-- The body of `delete_entry` behind its guard: shift left. The caller counts down.
unfoldable pub shift_delete : {E : Type 0} → List E → ℕ → ℕ → List E
shift_delete slots num index =
    if ltb index (num - 1) then copy_within slots (index + 1) (num - 1 - index) index else slots

module _ {E : Type 0} (key : E → ℕ) where
  -- `insert_entry` and `insert_separator`, on the array and its count; the caller counts up.
  unfoldable pub insert_sorted : ℕ → List E → ℕ → ℕ → E → Result OverlayError (List E)
  insert_sorted capacity slots num k e =
      if leb capacity num then err (page_full capacity (num + 1)) else (do
        (found, pos) ← search key slots num k
        if found then err (duplicate_key k) else shift_insert capacity slots num pos e)

  -- The invariant of the array: as long as the page allows, and its live entries sorted by key.
  pub record IsValid (capacity : ℕ) (slots : List E) (num : ℕ) : Type 0 where
    pub whole : length slots ≡ capacity
    pub within : num ≤ capacity
    pub small : capacity < 65535
    pub sorted : IsSorted key (take num slots)

-- `delete_entry` and `delete_separator`, on the array; the caller counts down. The copy panics where
-- the count goes beyond the page.
unfoldable pub remove_at : {E : Type 0} → List E → ℕ → ℕ → Result OverlayError (List E)
remove_at slots num index = if leb num index then err (index_out_of_bounds index num) else (do
  assert (leb num (length slots) || leb (num - 1) index)
  ok (shift_delete slots num index))

module _ {E : Type 0} (key child : E → ℕ) where
  -- The loop of `find_child`: the largest separator that is at most the search key.
  unfoldable pub route_loop : List E → ℕ → ℕ → ℕ → ℕ → ℕ → ℕ → Result OverlayError ℕ
  route_loop slots num search_key zero left right result = no_fuel
  route_loop slots num search_key (suc fuel) left right result =
      let mid : ℕ = left + (right - left) / 2 in
      let upper = route_loop slots num search_key fuel (incr16 mid) right mid in
      let lower = route_loop slots num search_key fuel left mid result in
      if ltb left right
      then (do e ← unwrap (entry_at slots num mid); if leb (key e) search_key then upper else lower)
      else ok result

  -- `find_child`.
  unfoldable pub route_search : ℕ → List E → ℕ → ℕ → Result OverlayError ℕ
  route_search leftmost slots num search_key = if num == 0 then ok leftmost else (do
    first ← unwrap (entry_at slots num 0)
    if ltb search_key (key first) then ok leftmost else (do
      result ← route_loop slots num search_key (num + 1) 0 num 0
      e ← unwrap (entry_at slots num result)
      ok (child e)))

  -- The child that a key belongs to: that of the last separator not above the key.
  unfoldable pub route : ℕ → ℕ → List E → ℕ
  route k leftmost [] = leftmost
  route k leftmost (e ∷ es) = if leb (key e) k then route k (child e) es else leftmost

-- Whether some separator lies above `low` and not above `k`.
unfoldable pub separated : {E : Type 0} → (E → ℕ) → ℕ → ℕ → List E → Bool
separated key low k [] = false
separated key low k (e ∷ es) = (ltb low (key e) && leb (key e) k) || separated key low k es
