-- ===== src/Evictor/Victim.antt =====
-- src/buffer/evictor/lruk_evictor.rs: which frame `find_victim` takes.
use abdb.Base.{
  ℕ, ◌+◌, ◌-◌, ◌≤◌, ◌<◌, ◌≡◌, ◌⊎◌, inl, inr, refl, Bool, true, false, Option, some, none, List, [],
  ◌∷◌, length, if◌then◌else◌, ltb, arith, Bool-cases,
}
use abdb.Evictor.{
  FrameInfo, LruKEvictor, Search, usize_max, start, consider, visit, victim_loop, find_victim,
}

-- The rank of a frame: frames with fewer than `k` accesses come before all others, and among each
-- kind the one whose oldest recorded access is the earliest comes first. A frame that may not be
-- evicted, or has no access, has no rank.
abbrev pub rank_of : ℕ → Bool → List ℕ → Option ℕ
rank_of k false history = none
rank_of k true [] = none
rank_of k true (front ∷ rest) =
    some (if ltb (length (front ∷ rest)) k then front else usize_max + front)

abbrev pub rank : ℕ → FrameInfo → Option ℕ
rank k info = rank_of k info.evictable info.history

-- All recorded accesses lie before the clock.
abbrev pub Before : ℕ → List ℕ → Type 0
Before now [] = Unit {0}
Before now (x ∷ xs) = (x < now) × Before now xs

abbrev pub AllBefore : ℕ → List (ℕ × FrameInfo) → Type 0
AllBefore now [] = Unit {0}
AllBefore now ((id, info) ∷ frames) = Before now info.history × AllBefore now frames

-- No frame of the list has a rank below `r`.
abbrev pub NoneBelow : ℕ → ℕ → List (ℕ × FrameInfo) → Type 0
NoneBelow k r [] = Unit {0}
NoneBelow k r ((id, info) ∷ frames) =
    ((q : ℕ) → rank k info ≡ some q → r ≤ q) × NoneBelow k r frames

-- The list has the frame, with that rank.
pub data Ranked (k id r : ℕ) : List (ℕ × FrameInfo) → Type 0 where
  first :
      {info : FrameInfo} {frames : List (ℕ × FrameInfo)}
      → rank k info ≡ some r
      → Ranked k id r ((id, info) ∷ frames)
  later :
      {frame : ℕ × FrameInfo} {frames : List (ℕ × FrameInfo)}
      → Ranked k id r frames
      → Ranked k id r (frame ∷ frames)

-- What the loop's variables say: nothing found yet, or the frame found and its rank.
data Says (now : ℕ) (s : Search) : Option (ℕ × ℕ) → Type 0 where
  nothing :
      s.victim ≡ none
      → s.max_backward_k_dist ≡ 0
      → s.earliest_access_for_inf ≡ usize_max
      → Says now s none
  young :
      (id r : ℕ)
      → s.victim ≡ some id
      → s.max_backward_k_dist ≡ usize_max
      → s.earliest_access_for_inf ≡ r
      → r < now
      → Says now s (some (id, r))
  old :
      (id front : ℕ)
      → s.victim ≡ some id
      → s.max_backward_k_dist ≡ now - front
      → front < now
      → s.earliest_access_for_inf ≡ usize_max
      → Says now s (some (id, usize_max + front))

abbrev better : Option (ℕ × ℕ) → ℕ → Option ℕ → Option (ℕ × ℕ)
better best id none = best
better none id (some r) = some (id, r)
better (some (id', r')) id (some r) = if ltb r r' then some (id, r) else some (id', r')

fold_best : ℕ → Option (ℕ × ℕ) → List (ℕ × FrameInfo) → Option (ℕ × ℕ)
fold_best k best [] = best
fold_best k best ((id, info) ∷ frames) = fold_best k (better best id (rank k info)) frames

module _ (k now : ℕ) (small : now < usize_max) where
  consider-Says :
      (s : Search) {best : Option (ℕ × ℕ)} (id front count : ℕ)
      → Says now s best
      → front < now
      → Says now
          (consider k now s id front count)
          (better best id (some (if ltb count k then front else usize_max + front)))
  unfolding consider
  consider-Says s id front count (nothing a b c) h = elim (Bool-cases (ltb count k)) [
    | inl few ↦
        let first : ltb front s.earliest_access_for_inf ≡ true = ground (arith, c) in
        rw (few, first) (young id front refl refl refl h)
    | inr many ↦
        let unlocked : ltb s.max_backward_k_dist usize_max ≡ true = ground (arith, b) in
        let further : ltb s.max_backward_k_dist (now - front) ≡ true = ground (arith, b) in
        rw (many, unlocked, further) (old id front refl refl h c)
  ]
  consider-Says s id front count (young id' r a b c lt) h = elim (Bool-cases (ltb count k)) [
    | inl few ↦ elim (Bool-cases (ltb front r)) [
      | inl earlier ↦
          let first : ltb front s.earliest_access_for_inf ≡ true = ground (arith, c) in
          rw (few, first, earlier) (young id front refl refl refl h)
      | inr not-earlier ↦
          let first : ltb front s.earliest_access_for_inf ≡ false = ground (arith, c) in
          rw (few, first, not-earlier) (young id' r a b c lt)
    ]
    | inr many ↦
        let locked : ltb s.max_backward_k_dist usize_max ≡ false = ground (arith, b) in
        let worse : ltb (usize_max + front) r ≡ false = ground arith in
        rw (many, locked, worse) (young id' r a b c lt)
  ]
  consider-Says s id front count (old id' front' a b lt c) h = elim (Bool-cases (ltb count k)) [
    | inl few ↦
        let first : ltb front s.earliest_access_for_inf ≡ true = ground (arith, c) in
        let ahead : ltb front (usize_max + front') ≡ true = ground arith in
        rw (few, first, ahead) (young id front refl refl refl h)
    | inr many ↦
        let unlocked : ltb s.max_backward_k_dist usize_max ≡ true = ground (arith, b) in
        elim (Bool-cases (ltb front front')) [
          | inl earlier ↦
              let further : ltb s.max_backward_k_dist (now - front) ≡ true = ground (arith, b) in
              let ahead : ltb (usize_max + front) (usize_max + front') ≡ true = ground arith in
              rw (many, unlocked, further, ahead) (old id front refl refl h c)
          | inr not-earlier ↦
              let further : ltb s.max_backward_k_dist (now - front) ≡ false = ground (arith, b) in
              let behind : ltb (usize_max + front) (usize_max + front') ≡ false = ground arith in
              rw (many, unlocked, further, behind) (old id' front' a b lt c)
        ]
  ]

  visit-Says :
      (s : Search) {best : Option (ℕ × ℕ)} (id : ℕ) (evictable : Bool) (history : List ℕ)
      → Says now s best
      → Before now history
      → Says now (visit k now s id evictable history) (better best id (rank_of k evictable history))
  unfolding visit
  visit-Says s {best = none} id false history w h = w
  visit-Says s {best = some x} id false history w h = w
  visit-Says s {best = none} id true [] w h = w
  visit-Says s {best = some x} id true [] w h = w
  visit-Says s id true (front ∷ rest) w h = consider-Says s id front (length (front ∷ rest)) w h.0

  victim_loop-Says :
      (s : Search) {best : Option (ℕ × ℕ)} (frames : List (ℕ × FrameInfo))
      → Says now s best
      → AllBefore now frames
      → Says now (victim_loop k now s frames) (fold_best k best frames)
  unfolding victim_loop fold_best
  victim_loop-Says s [] w h = w
  victim_loop-Says s ((id, info) ∷ frames) w h =
      victim_loop-Says (visit k now s id info.evictable info.history) frames
        (visit-Says s id info.evictable info.history w h.0) h.1

-- The best of the frames that a list adds to one found before.
abbrev pub NoRank : ℕ → List (ℕ × FrameInfo) → Type 0
NoRank k [] = Unit {0}
NoRank k ((id, info) ∷ frames) = (rank k info ≡ none) × NoRank k frames

module _ (k : ℕ) where
  better-le :
      (best : Option (ℕ × ℕ)) (id : ℕ) (o : Option ℕ)
      → (id' q : ℕ) → best ≡ some (id', q)
      → (i r : ℕ) × (better best id o ≡ some (i, r)) × (r ≤ q)
  better-le best id none id' q h = (id', q, h, omega arith)
  better-le none id (some r) id' q h = cc
  better-le (some (i, p)) id (some r) id' q h = elim (Bool-cases (ltb r p)) [
    | inl less ↦ (id, r, rw less refl, ground (arith, h))
    | inr more ↦ (i, p, rw more refl, ground (arith, h))
  ]

  better-le_new :
      (best : Option (ℕ × ℕ)) (id q : ℕ)
      → (i r : ℕ) × (better best id (some q) ≡ some (i, r)) × (r ≤ q)
  better-le_new none id q = (id, q, refl, omega arith)
  better-le_new (some (i, p)) id q = elim (Bool-cases (ltb q p)) [
    | inl less ↦ (id, q, rw less refl, omega arith)
    | inr more ↦ (i, p, rw more refl, ground arith)
  ]

  fold_best-le :
      (best : Option (ℕ × ℕ)) (frames : List (ℕ × FrameInfo)) (id q : ℕ)
      → best ≡ some (id, q)
      → (i r : ℕ) × (fold_best k best frames ≡ some (i, r)) × (r ≤ q)
  unfolding fold_best
  fold_best-le best [] id q h = (id, q, h, omega arith)
  fold_best-le best ((id', info) ∷ frames) id q h =
      let (i, r, e, l) = better-le best id' (rank k info) id q h in
      let (i', r', e', l') = fold_best-le (better best id' (rank k info)) frames i r e in
      (i', r', e', omega arith)

  fold_best-NoneBelow :
      (best : Option (ℕ × ℕ)) (frames : List (ℕ × FrameInfo)) (i r : ℕ)
      → fold_best k best frames ≡ some (i, r)
      → NoneBelow k r frames
  unfolding fold_best
  fold_best-NoneBelow best [] i r h = tt
  fold_best-NoneBelow best ((id, info) ∷ frames) i r h = (
    λ q e.
        let (a, b, c, d) = better-le_new best id q in
        let (a', b', c', d') = fold_best-le (better best id (rank k info)) frames a b (rw e c) in
        let same : r ≡ b' = ground (arith, h, c') in omega arith,
    fold_best-NoneBelow (better best id (rank k info)) frames i r h,
  )

  better_from :
      (best : Option (ℕ × ℕ)) (id : ℕ) (o : Option ℕ) (i r : ℕ)
      → better best id o ≡ some (i, r)
      → (best ≡ some (i, r)) ⊎ ((i ≡ id) × (o ≡ some r))
  better_from best id none i r h = inl h
  better_from none id (some q) i r h = inr (ground (arith, h))
  better_from (some (j, p)) id (some q) i r h = elim (Bool-cases (ltb q p)) [
    | inl less ↦ inr (ground (arith, h))
    | inr more ↦ inl (ground (arith, h))
  ]

  better-none :
      (best : Option (ℕ × ℕ)) (id : ℕ) (o : Option ℕ)
      → better best id o ≡ none
      → (best ≡ none) × (o ≡ none)
  better-none best id none h = (h, refl)
  better-none none id (some q) h = cc
  better-none (some (j, p)) id (some q) h = ground (arith, h)

  fold_best-Ranked :
      (best : Option (ℕ × ℕ)) (frames : List (ℕ × FrameInfo)) (i r : ℕ)
      → fold_best k best frames ≡ some (i, r)
      → (best ≡ some (i, r)) ⊎ Ranked k i r frames
  unfolding fold_best
  fold_best-Ranked best [] i r h = inl h
  fold_best-Ranked best ((id, info) ∷ frames) i r h =
      elim (fold_best-Ranked (better best id (rank k info)) frames i r h) [
        | inr in-rest ↦ inr (later in-rest)
        | inl e ↦ elim (better_from best id (rank k info) i r e) [
          | inl before ↦ inl before
          | inr (a, b) ↦ inr (rw a (first b))
        ]
      ]

  fold_best-NoRank :
      (best : Option (ℕ × ℕ)) (frames : List (ℕ × FrameInfo))
      → fold_best k best frames ≡ none
      → (best ≡ none) × NoRank k frames
  unfolding fold_best
  fold_best-NoRank best [] h = (h, tt)
  fold_best-NoRank best ((id, info) ∷ frames) h =
      let (e, rest) = fold_best-NoRank (better best id (rank k info)) frames h in
      let (a, b) = better-none best id (rank k info) e in (a, (b, rest))

-- The ways out of `find_victim`.
pub data Chosen (e : LruKEvictor) : Option ℕ → Type 0 where
  no_victim : NoRank e.k e.state → Chosen e none
  victim : (id r : ℕ) → Ranked e.k id r e.state → NoneBelow e.k r e.state → Chosen e (some id)

Says-victim : {now : ℕ} {s : Search} {id r : ℕ} → Says now s (some (id, r)) → s.victim ≡ some id
Says-victim (young id r a b c d) = a
Says-victim (old id f a b c d) = a

chosen :
    (e : LruKEvictor) (s : Search) (best : Option (ℕ × ℕ))
    → Says e.current_timestamp s best
    → fold_best e.k none e.state ≡ best
    → Chosen e s.victim
chosen e s none (nothing a b c) h = rw a (no_victim (fold_best-NoRank e.k none e.state h).1)
chosen e s (some (id, r)) w h = rw (Says-victim w) (
    victim id r
      (elim (fold_best-Ranked e.k none e.state id r h) [ inl bad ↦ cc | inr found ↦ found ])
      (fold_best-NoneBelow e.k none e.state id r h))

-- `find_victim` takes an evictable frame of the least rank, whatever the order of the map, and finds
-- none just if no evictable frame has been accessed, provided that every recorded access lies before
-- the clock and the clock has not reached the greatest usize.
pub find_victim-Chosen :
    (e : LruKEvictor)
    → AllBefore e.current_timestamp e.state
    → e.current_timestamp < usize_max
    → Chosen e (find_victim e)
unfolding find_victim start
find_victim-Chosen e before small =
    chosen e (victim_loop e.k e.current_timestamp start e.state) (fold_best e.k none e.state)
      (victim_loop-Says e.k e.current_timestamp small start e.state (nothing refl refl refl) before)
      refl
