-- ===== src/Pool/Policy.antt =====
-- src/buffer/evictor/lruk_evictor.rs as the buffer pool uses it: the frames that may be evicted
-- against the pin counts.
use abdb.Base.{
  ℕ, ◌≡◌, refl, sym, ap, ◌∙◌, inl, inr, Bool, true, false, some, List, [], ◌∷◌, ◌==◌, arith,
  Bool-cases,
}
use abdb.Evictor.{
  FrameInfo, LruKEvictor, Search, start, consider, visit, victim_loop, find_victim, upsert,
  record_access, set_evictable, remove, remove_frame,
}

-- A frame that may be evicted is not pinned.
abbrev pub Unpinned : (ℕ → ℕ) → List (ℕ × FrameInfo) → Type 0
Unpinned pins [] = Unit {0}
Unpinned pins ((id, info) ∷ frames) = (info.evictable ≡ true → pins id ≡ 0) × Unpinned pins frames

abbrev pub Absent : ℕ → List (ℕ × FrameInfo) → Type 0
Absent id [] = Unit {0}
Absent id ((other, info) ∷ frames) = ((other == id) ≡ false) × Absent id frames

-- A frame has one entry.
abbrev pub Distinct : List (ℕ × FrameInfo) → Type 0
Distinct [] = Unit {0}
Distinct ((id, info) ∷ frames) = Absent id frames × Distinct frames

abbrev pub Agrees : (ℕ → ℕ) → List (ℕ × FrameInfo) → Type 0
Agrees pins frames = Unpinned pins frames × Distinct frames

upsert-Absent :
    (id other : ℕ) (default : FrameInfo) (f : FrameInfo → FrameInfo) (frames : List (ℕ × FrameInfo))
    → ((id == other) ≡ false)
    → Absent other frames
    → Absent other (upsert id default f frames)
unfolding upsert
upsert-Absent id other default f [] h a = (h, tt)
upsert-Absent id other default f ((j, info) ∷ frames) h a = elim (Bool-cases (j == id)) [
  | inl same ↦ rw same (a.0, a.1)
  | inr differ ↦ rw differ (a.0, upsert-Absent id other default f frames h a.1)
]

upsert-Distinct :
    (id : ℕ) (default : FrameInfo) (f : FrameInfo → FrameInfo) (frames : List (ℕ × FrameInfo))
    → Distinct frames
    → Distinct (upsert id default f frames)
unfolding upsert
upsert-Distinct id default f [] d = (tt, tt)
upsert-Distinct id default f ((j, info) ∷ frames) d = elim (Bool-cases (j == id)) [
  | inl same ↦ rw same (d.0, d.1)
  | inr differ ↦ rw differ (
    upsert-Absent id j default f frames (ground arith) d.0,
    upsert-Distinct id default f frames d.1,
  )
]

-- Elsewhere than at the frame the counts are the same; there the changed entry is in order.
Unpinned-elsewhere :
    (pins counts : ℕ → ℕ) (id : ℕ) (frames : List (ℕ × FrameInfo))
    → ((j : ℕ) → ((j == id) ≡ false) → counts j ≡ pins j)
    → Absent id frames
    → Unpinned pins frames
    → Unpinned counts frames
Unpinned-elsewhere pins counts id [] same a u = tt
Unpinned-elsewhere pins counts id ((j, info) ∷ frames) same a u =
    (λ e. same j a.0 ∙ u.0 e, Unpinned-elsewhere pins counts id frames same a.1 u.1)

upsert-Unpinned :
    (pins counts : ℕ → ℕ) (id : ℕ) (default : FrameInfo) (f : FrameInfo → FrameInfo)
    (frames : List (ℕ × FrameInfo))
    → ((j : ℕ) → ((j == id) ≡ false) → counts j ≡ pins j)
    → ((f default).evictable ≡ true → counts id ≡ 0)
    → ((info : FrameInfo)
        → (info.evictable ≡ true → pins id ≡ 0)
        → (f info).evictable ≡ true
        → counts id ≡ 0)
    → Distinct frames
    → Unpinned pins frames
    → Unpinned counts (upsert id default f frames)
unfolding upsert
upsert-Unpinned pins counts id default f [] same new changed d u = (new, tt)
upsert-Unpinned pins counts id default f ((j, info) ∷ frames) same new changed d u =
    elim (Bool-cases (j == id)) [
      | inl here ↦
          let at : j ≡ id = ground arith in
          rw here (
            λ e. ap counts at ∙ changed info (λ h. ap pins (sym at) ∙ u.0 h) e,
            Unpinned-elsewhere pins counts id frames same (rw (sym at) d.0) u.1,
          )
      | inr differ ↦ rw differ (
        λ e. same j differ ∙ u.0 e,
        upsert-Unpinned pins counts id default f frames same new changed d.1 u.1,
      )
    ]

-- The changes of the policy that the pool makes.
pub record_access-Agrees :
    (pins : ℕ → ℕ) (e : LruKEvictor) (i : ℕ)
    → Agrees pins e.state
    → Agrees pins (record_access e i).state
unfolding record_access
record_access-Agrees pins e i (u, d) = (
  upsert-Unpinned pins pins i (record { history = []; evictable = false }) _ e.state (λ j h. refl)
      (ground arith) (λ info h g. h g) d u,
  upsert-Distinct i _ _ e.state d,
)

pub set_evictable-Agrees :
    (pins counts : ℕ → ℕ) (e : LruKEvictor) (i : ℕ) (evictable : Bool)
    → ((j : ℕ) → ((j == i) ≡ false) → counts j ≡ pins j)
    → (evictable ≡ true → counts i ≡ 0)
    → Agrees pins e.state
    → Agrees counts (set_evictable e i evictable).state
unfolding set_evictable
set_evictable-Agrees pins counts e i evictable same zero_there (u, d) = (
  upsert-Unpinned pins counts i (record { history = []; evictable = evictable }) _ e.state same
      zero_there (λ info h g. zero_there g) d u,
  upsert-Distinct i _ _ e.state d,
)

remove-Absent :
    (id other : ℕ) (frames : List (ℕ × FrameInfo))
    → Absent other frames
    → Absent other (remove id frames)
unfolding remove
remove-Absent id other [] a = tt
remove-Absent id other ((j, info) ∷ frames) a = elim (Bool-cases (j == id)) [
  | inl same ↦ rw same a.1
  | inr differ ↦ rw differ (a.0, remove-Absent id other frames a.1)
]

remove-Agrees :
    (pins : ℕ → ℕ) (id : ℕ) (frames : List (ℕ × FrameInfo))
    → Agrees pins frames
    → Agrees pins (remove id frames)
unfolding remove
remove-Agrees pins id [] a = a
remove-Agrees pins id ((j, info) ∷ frames) (u, d) = elim (Bool-cases (j == id)) [
  | inl same ↦ rw same (u.1, d.1)
  | inr differ ↦
      let rest : Agrees pins (remove id frames) = remove-Agrees pins id frames (u.1, d.1) in
      rw differ ((u.0, rest.0), (remove-Absent id j frames d.0, rest.1))
]

pub remove_frame-Agrees :
    (pins : ℕ → ℕ) (e : LruKEvictor) (i : ℕ)
    → Agrees pins e.state
    → Agrees pins (remove_frame e i).state
unfolding remove_frame
remove_frame-Agrees pins e i a = remove-Agrees pins i e.state a

-- A pin of a frame that is pinned, or a drop of one of several, asks nothing of the policy.
Unpinned-still :
    (pins counts : ℕ → ℕ) (frames : List (ℕ × FrameInfo))
    → ((j : ℕ) → pins j ≡ 0 → counts j ≡ 0)
    → Unpinned pins frames
    → Unpinned counts frames
Unpinned-still pins counts [] h u = tt
Unpinned-still pins counts ((j, info) ∷ frames) h u =
    (λ e. h j (u.0 e), Unpinned-still pins counts frames h u.1)

pub Agrees-still :
    (pins counts : ℕ → ℕ) (frames : List (ℕ × FrameInfo))
    → ((j : ℕ) → pins j ≡ 0 → counts j ≡ 0)
    → Agrees pins frames
    → Agrees counts frames
Agrees-still pins counts frames h (u, d) = (Unpinned-still pins counts frames h u, d)

-- The victim that the loop has is not pinned.
visit-victim :
    (pins : ℕ → ℕ) (k now : ℕ) (s : Search) (id : ℕ) (evictable : Bool) (history : List ℕ)
    → (evictable ≡ true → pins id ≡ 0)
    → ((i : ℕ) → s.victim ≡ some i → pins i ≡ 0)
    → (i : ℕ) → (visit k now s id evictable history).victim ≡ some i
    → pins i ≡ 0
unfolding visit consider
visit-victim pins k now s id false history p before i e = before i e
visit-victim pins k now s id true [] p before i e = before i e
visit-victim pins k now s id true (front ∷ rest) p before i e =
    let now_zero : pins id ≡ 0 = p refl in
    let earlier : s.victim ≡ some i → pins i ≡ 0 = before i in ground arith

loop-victim :
    (pins : ℕ → ℕ) (k now : ℕ) (s : Search) (frames : List (ℕ × FrameInfo))
    → Unpinned pins frames
    → ((i : ℕ) → s.victim ≡ some i → pins i ≡ 0)
    → (i : ℕ) → (victim_loop k now s frames).victim ≡ some i
    → pins i ≡ 0
unfolding victim_loop
loop-victim pins k now s [] u before i e = before i e
loop-victim pins k now s ((id, info) ∷ frames) u before i e =
    loop-victim pins k now (visit k now s id info.evictable info.history) frames u.1
      (visit-victim pins k now s id info.evictable info.history u.0 before) i e

pub find_victim_unpinned :
    (pins : ℕ → ℕ) (e : LruKEvictor) (i : ℕ)
    → Agrees pins e.state
    → find_victim e ≡ some i
    → pins i ≡ 0
unfolding find_victim start
find_victim_unpinned pins e i a h =
    loop-victim pins e.k e.current_timestamp start e.state a.0 (λ j. ground arith) i h
