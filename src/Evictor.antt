-- ===== src/Evictor.antt =====
-- src/buffer/evictor/lruk_evictor.rs: the LRU-K eviction policy. The hash map of frames is the list
-- of its entries in the order of its iteration; a theorem about every list holds for any order.
pub mod Victim
pub mod History
pub mod Unread
use abdb.Base.{
  ℕ, zero, suc, ◌+◌, ◌-◌, ◌^◌, ◌%◌, Bool, true, false, not, Option, some, none, List, [], ◌∷◌, ◌++◌,
  length, if◌then◌else◌, leb, ltb, ◌==◌, ◌||◌,
}

pub record FrameInfo : Type 0 where
  pub history : List ℕ
  pub evictable : Bool

pub record LruKEvictor : Type 0 where
  pub k : ℕ
  pub current_timestamp : ℕ
  pub state : List (ℕ × FrameInfo)

-- `usize::MAX`, on 64 bits.
abbrev pub usize_max : ℕ
usize_max = 18446744073709551615

unfoldable pub new : ℕ → LruKEvictor
new k = record { k = k; current_timestamp = 0; state = [] }

-- The variables of the loop in `find_victim`.
pub record Search : Type 0 where
  pub victim : Option ℕ
  pub max_backward_k_dist : ℕ
  pub earliest_access_for_inf : ℕ

unfoldable pub start : Search
start = record { victim = none; max_backward_k_dist = 0; earliest_access_for_inf = usize_max }

-- The loop body for a frame with a history: its first access is the front of the history.
unfoldable pub consider : ℕ → ℕ → Search → ℕ → ℕ → ℕ → Search
consider k current_ts s frame_id front count =
    if ltb count k
    then (if ltb front s.earliest_access_for_inf
        then record {
          victim = some frame_id;
          max_backward_k_dist = usize_max;
          earliest_access_for_inf = front;
        }
        else s)
    else if ltb s.max_backward_k_dist usize_max
    then (if ltb s.max_backward_k_dist (current_ts - front)
        then record s { victim = some frame_id; max_backward_k_dist = current_ts - front }
        else s)
    else s

-- The loop body: frames that are not evictable or have no history are passed over.
unfoldable pub visit : ℕ → ℕ → Search → ℕ → Bool → List ℕ → Search
visit k current_ts s frame_id false history = s
visit k current_ts s frame_id true [] = s
visit k current_ts s frame_id true (front ∷ rest) =
    consider k current_ts s frame_id front (length (front ∷ rest))

unfoldable pub victim_loop : ℕ → ℕ → Search → List (ℕ × FrameInfo) → Search
victim_loop k current_ts s [] = s
victim_loop k current_ts s ((frame_id, info) ∷ frames) =
    victim_loop k current_ts (visit k current_ts s frame_id info.evictable info.history) frames

-- `find_victim`; `none` is `Error::NoVictimFound`.
unfoldable pub find_victim : LruKEvictor → Option ℕ
find_victim e = (victim_loop e.k e.current_timestamp start e.state).victim

-- `state.entry(frame_id).or_insert(default)`, changed by `f`.
unfoldable pub upsert :
    ℕ → FrameInfo → (FrameInfo → FrameInfo) → List (ℕ × FrameInfo) → List (ℕ × FrameInfo)
upsert frame_id default f [] = (frame_id, f default) ∷ []
upsert frame_id default f ((id, info) ∷ frames) =
    if id == frame_id then (id, f info) ∷ frames else (id, info) ∷ upsert frame_id default f frames

abbrev pub pop_front : List ℕ → List ℕ
pop_front [] = []
pop_front (x ∷ xs) = xs

-- The history with a new access, cut to the last `k`.
unfoldable pub push_access : ℕ → ℕ → List ℕ → List ℕ
push_access k ts history =
    let longer = history ++ ts ∷ [] in if ltb k (length longer) then pop_front longer else longer

unfoldable pub record_access : LruKEvictor → ℕ → LruKEvictor
record_access e frame_id = record e {
  current_timestamp = (e.current_timestamp + 1) % 2 ^ 64;
  state =
      upsert frame_id (record { history = []; evictable = false })
        (λ info. record info { history = push_access e.k e.current_timestamp info.history })
        e.state;
}

unfoldable pub set_evictable : LruKEvictor → ℕ → Bool → LruKEvictor
set_evictable e frame_id evictable = record e {
  state =
      upsert frame_id (record { history = []; evictable = evictable })
        (λ info. record info { evictable = evictable }) e.state;
}

unfoldable pub remove : ℕ → List (ℕ × FrameInfo) → List (ℕ × FrameInfo)
remove frame_id [] = []
remove frame_id ((id, info) ∷ frames) =
    if id == frame_id then frames else (id, info) ∷ remove frame_id frames

unfoldable pub remove_frame : LruKEvictor → ℕ → LruKEvictor
remove_frame e frame_id = record e { state = remove frame_id e.state }
