-- ===== src/Evictor/History.antt =====
-- src/buffer/evictor/lruk_evictor.rs: what the recorded histories are after any calls.
use abdb.Base.{
  ℕ, suc, ◌+◌, ◌-◌, ◌^◌, ◌%◌, ◌≤◌, ◌<◌, ◌≡◌, refl, Bool, false, List, [], ◌∷◌, ◌++◌, length,
  length-append, ltb, ◌==◌, arith, Bool-cases, inl, inr,
}
use abdb.Evictor.{
  FrameInfo, LruKEvictor, usize_max, new, upsert, pop_front, push_access, record_access,
  set_evictable, remove, remove_frame, find_victim,
}
use abdb.Evictor.Victim.{AllBefore, Before, Chosen, find_victim-Chosen}

-- A frame holds at most `k` accesses, all before the clock.
abbrev pub IsBounded : ℕ → ℕ → List (ℕ × FrameInfo) → Type 0
IsBounded k now [] = Unit {0}
IsBounded k now ((id, info) ∷ frames) =
    (length info.history ≤ k) × Before now info.history × IsBounded k now frames

pub record IsValid (e : LruKEvictor) : Type 0 where
  pub bounded : IsBounded e.k e.current_timestamp e.state
  pub small : e.current_timestamp < usize_max

Before-mono : (m n : ℕ) (xs : List ℕ) → m ≤ n → Before m xs → Before n xs
Before-mono m n [] h b = tt
Before-mono m n (x ∷ xs) h b = (omega arith, Before-mono m n xs h b.1)

IsBounded-mono :
    (k m n : ℕ) (frames : List (ℕ × FrameInfo))
    → m ≤ n
    → IsBounded k m frames
    → IsBounded k n frames
IsBounded-mono k m n [] h b = tt
IsBounded-mono k m n ((id, info) ∷ frames) h b =
    (b.0, Before-mono m n info.history h b.1, IsBounded-mono k m n frames h b.2)

Before-append :
    (now : ℕ) (xs : List ℕ) (x : ℕ) → Before now xs → x < now → Before now (xs ++ x ∷ [])
Before-append now [] x b h = (h, tt)
Before-append now (y ∷ xs) x b h = (b.0, Before-append now xs x b.1 h)

Before-pop_front : (now : ℕ) (xs : List ℕ) → Before now xs → Before now (pop_front xs)
Before-pop_front now [] b = tt
Before-pop_front now (x ∷ xs) b = b.1

length-pop_front : (xs : List ℕ) → length (pop_front xs) ≡ length xs - 1
length-pop_front [] = refl
length-pop_front (x ∷ xs) = omega arith

push_access-le : (k ts : ℕ) (xs : List ℕ) → length xs ≤ k → length (push_access k ts xs) ≤ k
unfolding push_access
push_access-le k ts xs h =
    ground (arith, length-append xs (ts ∷ []), length-pop_front (xs ++ ts ∷ []))

push_access-Before : (k ts : ℕ) (xs : List ℕ) → Before ts xs → Before (suc ts) (push_access k ts xs)
unfolding push_access
push_access-Before k ts xs b =
    let longer : Before (suc ts) (xs ++ ts ∷ []) =
      Before-append (suc ts) xs ts (Before-mono ts (suc ts) xs (omega arith) b) (omega arith) in
    elim (Bool-cases (ltb k (length (xs ++ ts ∷ [])))) [
      | inl over ↦ rw over (Before-pop_front (suc ts) (xs ++ ts ∷ []) longer)
      | inr fits ↦ rw fits longer
    ]

-- An upsert keeps a bound that the change and the default keep.
upsert-IsBounded :
    (k m n id : ℕ) (default : FrameInfo) (f : FrameInfo → FrameInfo) (frames : List (ℕ × FrameInfo))
    → m ≤ n
    → ((info : FrameInfo)
        → length info.history ≤ k
        → Before m info.history
        → (length (f info).history ≤ k) × Before n (f info).history)
    → (length default.history ≤ k) × Before m default.history
    → IsBounded k m frames
    → IsBounded k n (upsert id default f frames)
unfolding upsert
upsert-IsBounded k m n id default f [] h keep (a, b) w = let (c, d) = keep default a b in (c, d, tt)
upsert-IsBounded k m n id default f ((id', info) ∷ frames) h keep base w =
    elim (Bool-cases (id' == id)) [
      | inl same ↦
          let (c, d) = keep info w.0 w.1 in rw same (c, d, IsBounded-mono k m n frames h w.2)
      | inr other ↦ rw other (
        w.0,
        Before-mono m n info.history h w.1,
        upsert-IsBounded k m n id default f frames h keep base w.2,
      )
    ]

remove-IsBounded :
    (k now id : ℕ) (frames : List (ℕ × FrameInfo))
    → IsBounded k now frames
    → IsBounded k now (remove id frames)
unfolding remove
remove-IsBounded k now id [] w = tt
remove-IsBounded k now id ((id', info) ∷ frames) w = elim (Bool-cases (id' == id)) [
  | inl same ↦ rw same w.2
  | inr other ↦ rw other (w.0, w.1, remove-IsBounded k now id frames w.2)
]

-- The calls of the policy.
pub data Call : Type 0 where
  records : ℕ → Call
  sets : ℕ → Bool → Call
  removes : ℕ → Call

unfoldable pub step : LruKEvictor → Call → LruKEvictor
step e (records id) = record_access e id
step e (sets id evictable) = set_evictable e id evictable
step e (removes id) = remove_frame e id

unfoldable pub run : LruKEvictor → List Call → LruKEvictor
run e [] = e
run e (c ∷ cs) = run (step e c) cs

step-IsBounded :
    (e : LruKEvictor) (c : Call)
    → IsBounded e.k e.current_timestamp e.state
    → e.current_timestamp + 1 < usize_max
    → IsBounded (step e c).k (step e c).current_timestamp (step e c).state
      × ((step e c).current_timestamp ≤ e.current_timestamp + 1)
unfolding step record_access set_evictable remove_frame
step-IsBounded e (records id) w small =
    let tick : (e.current_timestamp + 1) % 2 ^ 64 ≡ suc e.current_timestamp = omega arith in
    rw tick (
      upsert-IsBounded e.k e.current_timestamp (suc e.current_timestamp) id
          (record { history = []; evictable = false })
          (λ info. record info { history = push_access e.k e.current_timestamp info.history })
          e.state (omega arith)
          (λ info a b. (
            push_access-le e.k e.current_timestamp info.history a,
            push_access-Before e.k e.current_timestamp info.history b,
          ))
          (omega arith, tt) w,
      omega arith,
    )
step-IsBounded e (sets id evictable) w small = (
  upsert-IsBounded e.k e.current_timestamp e.current_timestamp id
      (record { history = []; evictable = evictable })
      (λ info. record info { evictable = evictable }) e.state (omega arith) (λ info a b. (a, b))
      (omega arith, tt) w,
  omega arith,
)
step-IsBounded e (removes id) w small =
    (remove-IsBounded e.k e.current_timestamp id e.state w, omega arith)

run-IsValid_from :
    (e : LruKEvictor) (cs : List Call)
    → IsBounded e.k e.current_timestamp e.state
    → e.current_timestamp + length cs < usize_max
    → IsValid (run e cs)
unfolding run
run-IsValid_from e [] w small = record { bounded = w; small = omega arith }
run-IsValid_from e (c ∷ cs) w small =
    let (w', clock) = step-IsBounded e c w (omega arith) in
    run-IsValid_from (step e c) cs w' (omega arith)

-- After any calls on a new evictor, fewer than the greatest usize, every frame holds at most `k`
-- accesses, all of them before the clock, and the clock is below the greatest usize.
pub run-IsValid : (k : ℕ) (cs : List Call) → length cs < usize_max → IsValid (run (new k) cs)
unfolding new
run-IsValid k cs small =
    run-IsValid_from (record { k = k; current_timestamp = 0; state = [] }) cs tt (omega arith)

all_before :
    (k now : ℕ) (frames : List (ℕ × FrameInfo)) → IsBounded k now frames → AllBefore now frames
all_before k now [] w = tt
all_before k now ((id, info) ∷ frames) w = (w.1, all_before k now frames w.2)

-- After any calls on a new evictor, fewer than the greatest usize, `find_victim` takes an evictable
-- frame of the least rank, or finds none because no evictable frame has been accessed.
pub run-Chosen :
    (k : ℕ) (cs : List Call)
    → length cs < usize_max
    → Chosen (run (new k) cs) (find_victim (run (new k) cs))
run-Chosen k cs small =
    let v = run-IsValid k cs small in
    find_victim-Chosen (run (new k) cs)
      (all_before (run (new k) cs).k _ (run (new k) cs).state v.bounded) v.small
